-- ===== src/Database/Counts.antt =====
-- The column `chunk_count` and the rows that it counts, under the SQL statements.
use mathlib.Core.Bool.{false≢true}
use mathlib.Core.Path.{subst}
use mathlib.Core.Option.{some-injective}
use simplykb.Prelude.{
  ℕ, suc, ◌+◌, ◌≡◌, refl, sym, ◌∙◌, Bool, true, false, not, ◌&&◌, none, some, List, [], ◌∷◌, ◌==◌,
  length, select, All, All-map, All-weaken, map, arith, Bool-cases, Option-cases, inl, inr, ==_iff,
}
use simplykb.Text.{Text, text_eq, text_eq_iff}
use simplykb.Database.Rows.{Document, Chunk, Db, has_key, find_document}
use simplykb.Database.Statements.{
  Fields, refresh_document, refresh_chunk, update_documents, update_chunks, overwrite_document,
  is_chunk_of, delete_chunks, clashes, insert_chunk, insert_or_update_document, count_document,
  set_chunk_count,
}

-- The rows of one document's chunks.
unfoldable pub number_of_chunks : Text → ℕ → List Chunk → ℕ
number_of_chunks collection i chunks = length (select (is_chunk_of collection i) chunks)

abbrev pub Counts : List Chunk → Document → Type 0
Counts chunks d = d.chunk_count ≡ number_of_chunks d.collection d.id chunks

-- Every row of `kb_documents` counts the document's rows of `kb_chunks`.
abbrev pub IsCounted : Db → Type 0
IsCounted db = All (Counts db.chunks) db.documents

abbrev pub is_row : Text → ℕ → Document → Bool
is_row collection i d = text_eq d.collection collection && d.id == i

-- Every row counts its chunks, but those of one document.
abbrev pub IsCountedBut : Text → ℕ → Db → Type 0
IsCountedBut collection i db =
    All (λ d. is_row collection i d ≡ false → Counts db.chunks d) db.documents

refresh_chunk-number :
    (collection c : Text) (i j : ℕ) (f : Fields) (l : List Chunk)
    → number_of_chunks c j (map (refresh_chunk collection i f) l) ≡ number_of_chunks c j l
unfolding number_of_chunks refresh_chunk
refresh_chunk-number collection c i j f [] = refl
refresh_chunk-number collection c i j f (ch ∷ l) =
    ground (arith, refresh_chunk-number collection c i j f l)

pub refresh-IsCounted :
    (now : ℕ) (collection : Text) (i : ℕ) (f : Fields) (db : Db)
    → IsCounted db
    → IsCounted (update_chunks collection i f (update_documents now collection i f db))
unfolding update_chunks update_documents refresh_document
refresh-IsCounted now collection i f db h =
    All-map (Counts db.chunks) (Counts (map (refresh_chunk collection i f) db.chunks))
      (refresh_document now collection i f) db.documents
      (λ d counted. kept d counted (is_row collection i d) refl) h
  where
    kept :
        (d : Document)
        → Counts db.chunks d
        → (b : Bool) → is_row collection i d ≡ b
        → Counts
            (map (refresh_chunk collection i f) db.chunks)
            (refresh_document now collection i f d)
    kept d h true e =
        rw e (h ∙ sym (refresh_chunk-number collection d.collection i d.id f db.chunks))
    kept d h false e =
        rw e (h ∙ sym (refresh_chunk-number collection d.collection i d.id f db.chunks))

pub and_true : (a b : Bool) → (a && b) ≡ true → (a ≡ true) × (b ≡ true)
and_true true b h = (refl, h)
and_true false b h = absurd (false≢true h)

-- A chunk is of one document only.
one_document :
    (c c' : Text) (i j : ℕ) (ch : Chunk)
    → (text_eq c' c && j == i) ≡ false
    → is_chunk_of c i ch ≡ true
    → is_chunk_of c' j ch ≡ false
one_document c c' i j ch other h = elim (Bool-cases (is_chunk_of c' j ch)) [
  | inl both ↦
      let (here, number) = and_true (text_eq ch.collection c) (ch.document_id == i) h in
      let (here', number') = and_true (text_eq ch.collection c') (ch.document_id == j) both in
      let same : c' ≡ c =
        sym ((text_eq_iff ch.collection c').0 here') ∙ (text_eq_iff ch.collection c).0 here in
      let same_number : (j == i) ≡ true = ground (arith, number, number') in
      absurd (false≢true (sym other ∙ rw ((text_eq_iff c' c).1 same, same_number) refl))
  | inr e ↦ e
]

-- The deletion of a document's chunks leaves none of its own, and all of the others.
delete-own :
    (c : Text) (i : ℕ) (l : List Chunk)
    → number_of_chunks c i (select (λ ch. not (is_chunk_of c i ch)) l) ≡ 0
unfolding number_of_chunks
delete-own c i [] = refl
delete-own c i (ch ∷ l) = elim (Bool-cases (is_chunk_of c i ch)) [
  | inl own ↦ rw own (delete-own c i l)
  | inr other ↦ rw (other, other) (delete-own c i l)
]

delete-other :
    (c c' : Text) (i j : ℕ) (l : List Chunk)
    → (text_eq c' c && j == i) ≡ false
    → number_of_chunks c' j (select (λ ch. not (is_chunk_of c i ch)) l) ≡ number_of_chunks c' j l
unfolding number_of_chunks
delete-other c c' i j [] other = refl
delete-other c c' i j (ch ∷ l) other = elim (Bool-cases (is_chunk_of c i ch)) [
  | inl own ↦ rw (own, one_document c c' i j ch other own) (delete-other c c' i j l other)
  | inr e ↦ ground (arith, e, delete-other c c' i j l other)
]

pub delete_chunks-IsCountedBut :
    (c : Text) (i : ℕ) (db : Db)
    → IsCountedBut c i db
    → IsCountedBut c i (delete_chunks c i db)
      × (number_of_chunks c i (delete_chunks c i db).chunks ≡ 0)
unfolding delete_chunks
delete_chunks-IsCountedBut c i db h = (
  All-weaken _ _ db.documents
      (λ d counted other. counted other ∙ sym (delete-other c d.collection i d.id db.chunks other))
      h,
  delete-own c i db.chunks,
)

own_row : (ch : Chunk) → is_chunk_of ch.collection ch.document_id ch ≡ true
own_row ch =
    rw
      (
        (text_eq_iff ch.collection ch.collection).1 refl,
        (==_iff ch.document_id ch.document_id).1 refl,
      )
      refl

skipped :
    (ch : Chunk) (n : ℕ) (c : Text) (i : ℕ) (l : List Chunk)
    → is_chunk_of c i ch ≡ false
    → number_of_chunks c i ((record ch { id = n }) ∷ l) ≡ number_of_chunks c i l
unfolding number_of_chunks
skipped ch n c i l other = rw other refl

abbrev inserted : Chunk → Db → Db
inserted ch db = record db {
  chunks = (record ch { id = db.next_chunk_id }) ∷ db.chunks;
  next_chunk_id = db.next_chunk_id + 1;
}

-- An inserted row counts for its own document only.
pub insert_chunk-IsCountedBut :
    (ch : Chunk) (db db' : Db)
    → insert_chunk ch db ≡ some db'
    → IsCountedBut ch.collection ch.document_id db
    → IsCountedBut ch.collection ch.document_id db'
      × (number_of_chunks ch.collection ch.document_id db'.chunks
          ≡ suc (number_of_chunks ch.collection ch.document_id db.chunks))
unfolding insert_chunk
insert_chunk-IsCountedBut ch db db' h counted = elim (Bool-cases (clashes ch db.chunks)) [
  | inl clash ↦ let refused : none ≡ some db' = (rw clash at h) in absurd (cc)
  | inr free ↦
      let done : some (inserted ch db) ≡ some db' = (rw free at h) in
      subst
        (λ (e : Db).
          IsCountedBut ch.collection ch.document_id e
          × (number_of_chunks ch.collection ch.document_id e.chunks
              ≡ suc (number_of_chunks ch.collection ch.document_id db.chunks)))
        (some-injective (inserted ch db) db' done)
        (
          All-weaken _ _ db.documents
              (λ d kept other.
                kept other
                ∙ sym (
                    skipped ch db.next_chunk_id d.collection d.id db.chunks (
                      one_document ch.collection d.collection ch.document_id d.id ch other
                        (own_row ch))))
              counted,
          unfold number_of_chunks in rw (own_row ch) refl,
        )
]

-- The new count.
pub set_chunk_count-IsCounted :
    (now : ℕ) (c : Text) (i n : ℕ) (db : Db)
    → IsCountedBut c i db
    → number_of_chunks c i db.chunks ≡ n
    → IsCounted (set_chunk_count now c i n db)
unfolding set_chunk_count count_document
set_chunk_count-IsCounted now c i n db counted own =
    All-map (λ d. is_row c i d ≡ false → Counts db.chunks d) (Counts db.chunks)
      (count_document now c i n) db.documents (λ d h. kept d h (is_row c i d) refl) counted
  where
    kept :
        (d : Document)
        → (is_row c i d ≡ false → Counts db.chunks d)
        → (b : Bool) → is_row c i d ≡ b
        → Counts db.chunks (count_document now c i n d)
    kept d h false e = rw e (h e)
    kept d h true e =
        let (here, number) = and_true (text_eq d.collection c) (d.id == i) e in
        let same : d.collection ≡ c = (text_eq_iff d.collection c).0 here in
        let same_number : d.id ≡ i = (==_iff d.id i).0 number in rw (e, same, same_number) (sym own)

-- The upsert of a row keeps the other rows, and returns a row with the document's key.
pub insert_or_update-IsCountedBut :
    (now : ℕ) (c e : Text) (f : Fields) (hash : Text) (db : Db)
    → IsCounted db
    → IsCountedBut c
        (insert_or_update_document now c e f hash db).0
        (insert_or_update_document now c e f hash db).1
unfolding insert_or_update_document overwrite_document
insert_or_update-IsCountedBut now c e f hash db h =
    elim (Option-cases (find_document c e db.documents)) [
      | inl missing ↦
          rw (missing, insert_or_update_document)
            ((
              λ other. absurd (false≢true (sym other ∙ new_row)),
              All-weaken (Counts db.chunks) _ db.documents (λ d counted other. counted) h,
            ))
      | inr (d, found) ↦
          rw (found, insert_or_update_document)
            (All-map (Counts db.chunks) (λ r. is_row c d.id r ≡ false → Counts db.chunks r)
              (overwrite_document now c e f hash) db.documents
              (λ r counted other. kept r counted (has_key c e r) refl) h)
    ]
  where
    new_row : (text_eq c c && db.next_document_id == db.next_document_id) ≡ true
    new_row =
        rw ((text_eq_iff c c).1 refl, (==_iff db.next_document_id db.next_document_id).1 refl) refl

    kept :
        (r : Document)
        → Counts db.chunks r
        → (b : Bool) → has_key c e r ≡ b
        → Counts db.chunks (overwrite_document now c e f hash r)
    kept r h true k = rw k h
    kept r h false k = rw k h
