-- ===== src/Database/Removed.antt =====
-- What `DELETE FROM kb_documents` and the two counts of a collection do, row by row.
use simplykb.Prelude.{
  ℕ, ◌≡◌, refl, sym, ◌∙◌, Bool, true, false, not, List, [], ◌∷◌, ◌==◌, length, select, Bool-cases,
  inl, inr, ==_iff,
}
use mathlib.Core.Bool.{false≢true}
use simplykb.Prelude.Keeps.{Keeps, Some, select-Keeps}
use simplykb.Text.{Text, text_eq, text_eq_iff}
use simplykb.Database.Rows.{Document, Chunk, Db, has_key, document_by_id}
use simplykb.Database.Statements.{has_owner, delete_documents, count_collection}
use simplykb.Database.Counts.{and_true}

-- The row of the document to which a chunk belongs.
abbrev pub Owns : Chunk → Document → Type 0
Owns ch d = d.id ≡ ch.document_id

-- The second database is the first without the documents with a property, and without the chunks to
-- which no document is left.
pub record Removed (Doomed : Document → Type 0) (before after : Db) : Type 0 where
  pub documents : Keeps (λ d. ¬ Doomed d) before.documents after.documents
  pub chunks : Keeps (λ ch. Some (Owns ch) after.documents) before.chunks after.chunks
  pub schema : after.schema ≡ before.schema
  pub next_document_id : after.next_document_id ≡ before.next_document_id
  pub next_chunk_id : after.next_chunk_id ≡ before.next_chunk_id

true_not_false : (b : Bool) → b ≡ true → b ≡ false → ⊥
true_not_false b t f = false≢true (sym f ∙ t)

not-true : (b : Bool) → not b ≡ true → b ≡ false
not-true true h = absurd (false≢true h)
not-true false h = refl

not-false : (b : Bool) → not b ≡ false → b ≡ true
not-false true h = refl
not-false false h = absurd (false≢true (sym h))

has_owner-Some : (l : List Document) (ch : Chunk) → has_owner l ch ≡ true → Some (Owns ch) l
unfolding document_by_id
has_owner-Some [] ch h = absurd (false≢true h)
has_owner-Some (d ∷ l) ch h = elim (Bool-cases (d.id == ch.document_id)) [
  | inl same ↦ inl ((==_iff d.id ch.document_id).0 same)
  | inr other ↦ inr (has_owner-Some l ch (rw (other, has_owner, document_by_id) at h))
]

Some-has_owner : (l : List Document) (ch : Chunk) → Some (Owns ch) l → has_owner l ch ≡ true
unfolding document_by_id
Some-has_owner [] ch h = absurd h
Some-has_owner (d ∷ l) ch (inl here) =
    rw ((==_iff d.id ch.document_id).1 here, has_owner, document_by_id) refl
Some-has_owner (d ∷ l) ch (inr later) = elim (Bool-cases (d.id == ch.document_id)) [
  | inl same ↦ rw (same, has_owner, document_by_id) refl
  | inr other ↦ rw (other, has_owner, document_by_id) (Some-has_owner l ch later)
]

pub delete_documents-Removed :
    (Doomed : Document → Type 0) (doomed : Document → Bool)
    → ((d : Document) → doomed d ≡ true → Doomed d)
    → ((d : Document) → Doomed d → doomed d ≡ true)
    → (db : Db) → Removed Doomed db (delete_documents doomed db)
unfolding delete_documents
delete_documents-Removed Doomed doomed sound complete db =
    let kept = select (λ d. not (doomed d)) db.documents in
    record {
      documents =
          select-Keeps (λ d. ¬ Doomed d) (λ d. not (doomed d))
            (λ d h q. true_not_false (doomed d) (complete d q) (not-true (doomed d) h))
            (λ d h stays. stays (sound d (not-false (doomed d) h))) db.documents;
      chunks =
          select-Keeps (λ ch. Some (Owns ch) kept) (has_owner kept) (has_owner-Some kept)
            (λ ch h some_row.
              true_not_false (has_owner kept ch) (Some-has_owner kept ch some_row) h)
            db.chunks;
      schema = refl;
      next_document_id = refl;
      next_chunk_id = refl;
    }

-- The key of a document: its collection and its id there.
abbrev pub IsKey : Text → Text → Document → Type 0
IsKey collection external_id d = (d.collection ≡ collection) × (d.external_id ≡ external_id)

pub delete_document-Removed :
    (c i : Text) (db : Db) → Removed (IsKey c i) db (delete_documents (has_key c i) db)
delete_document-Removed c i db =
    delete_documents-Removed (IsKey c i) (has_key c i)
      (λ d h.
        let (here, key) = and_true (text_eq d.collection c) (text_eq d.external_id i) h in
        ((text_eq_iff d.collection c).0 here, (text_eq_iff d.external_id i).0 key))
      (λ d (here, key).
        rw ((text_eq_iff d.collection c).1 here, (text_eq_iff d.external_id i).1 key) refl)
      db

abbrev pub IsOf : Text → Document → Type 0
IsOf name d = d.collection ≡ name

pub delete_collection-Removed :
    (name : Text) (db : Db)
    → Removed (IsOf name) db (delete_documents (λ d. text_eq d.collection name) db)
delete_collection-Removed name db =
    delete_documents-Removed (IsOf name) (λ d. text_eq d.collection name)
      (λ d. (text_eq_iff d.collection name).0) (λ d. (text_eq_iff d.collection name).1) db

-- The numbers are those of the rows of the collection.
abbrev pub CountedAs : Text → Db → ℕ → ℕ → Type 0
CountedAs name db documents chunks =
    (ds : List Document) × (cs : List Chunk) × Keeps (IsOf name) db.documents ds
    × Keeps (λ (ch : Chunk). ch.collection ≡ name) db.chunks cs
    × (documents ≡ length ds)
    × (chunks ≡ length cs)

pub count_collection-CountedAs :
    (name : Text) (db : Db)
    → CountedAs name db (count_collection name db).0 (count_collection name db).1
unfolding count_collection
count_collection-CountedAs name db = (
  select (λ d. text_eq d.collection name) db.documents,
  select (λ ch. text_eq ch.collection name) db.chunks,
  select-Keeps (IsOf name) (λ d. text_eq d.collection name) (λ d. (text_eq_iff d.collection name).0)
      (λ d h of.
        true_not_false (text_eq d.collection name) ((text_eq_iff d.collection name).1 of) h)
      db.documents,
  select-Keeps (λ (ch : Chunk). ch.collection ≡ name) (λ ch. text_eq ch.collection name)
      (λ ch. (text_eq_iff ch.collection name).0)
      (λ ch h of.
        true_not_false (text_eq ch.collection name) ((text_eq_iff ch.collection name).1 of) h)
      db.chunks,
  refl,
  refl,
)
