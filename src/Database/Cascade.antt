-- ===== src/Database/Cascade.antt =====
-- The deletion of documents, which takes their chunks along, and the column `chunk_count`.
use simplykb.Prelude.{
  ℕ, suc, ◌≡◌, refl, sym, ap, ◌∙◌, Bool, true, false, not, none, some, List, [], ◌∷◌, ◌==◌, select,
  All, All-weaken, All-both, All-select, Bool-cases, inl, inr, if◌then◌else◌, ==_iff,
}
use simplykb.Text.{Text, text_eq}
use simplykb.Database.Rows.{Document, Chunk, Db, document_by_id}
use simplykb.Database.Statements.{is_chunk_of, has_owner, delete_documents}
use simplykb.Database.Counts.{number_of_chunks, Counts, IsCounted, and_true}

abbrev owned : List Document → ℕ → Bool
owned l i = elim (document_by_id i l) [ none ↦ false | some _ ↦ true ]

owned-own : (l : List Document) → All (λ d. owned l d.id ≡ true) l
unfolding document_by_id
owned-own [] = tt
owned-own (d ∷ l) = (
  ap (found_in d) ((==_iff d.id d.id).1 refl),
  All-weaken _ _ l (λ r h. grows r h (d.id == r.id) refl) (owned-own l),
)
  where
    found_in : Document → Bool → Bool
    found_in r b = elim (if b then some d else document_by_id r.id l) [
      | none ↦ false
      | some _ ↦ true
    ]

    grows :
        (r : Document)
        → owned l r.id ≡ true
        → (b : Bool) → (d.id == r.id) ≡ b
        → owned (d ∷ l) r.id ≡ true
    grows r h true e = ap (found_in r) e
    grows r h false e = ap (found_in r) e ∙ h

-- The chunks of a document that stays are all kept.
cascade-number :
    (kept : List Document) (c : Text) (i : ℕ) (l : List Chunk)
    → owned kept i ≡ true
    → number_of_chunks c i (select (has_owner kept) l) ≡ number_of_chunks c i l
unfolding number_of_chunks
cascade-number kept c i [] h = refl
cascade-number kept c i (ch ∷ l) h = elim (Bool-cases (is_chunk_of c i ch)) [
  | inl own ↦
      let number : ch.document_id ≡ i =
        (==_iff ch.document_id i).0
          (and_true (text_eq ch.collection c) (ch.document_id == i) own).1 in
      let stays : has_owner kept ch ≡ true = rw number h in
      rw (stays, own) (ap suc (cascade-number kept c i l h))
  | inr other ↦ elim (Bool-cases (has_owner kept ch)) [
    | inl stays ↦ rw (stays, other) (cascade-number kept c i l h)
    | inr goes ↦ rw (goes, other) (cascade-number kept c i l h)
  ]
]

-- A deletion takes the chunks of the deleted documents along, and no others.
pub delete_documents-IsCounted :
    (doomed : Document → Bool) (db : Db) → IsCounted db → IsCounted (delete_documents doomed db)
unfolding delete_documents
delete_documents-IsCounted doomed db h =
    let kept = select (λ d. not (doomed d)) db.documents in
    All-both (λ d. owned kept d.id ≡ true) (Counts db.chunks)
      (Counts (select (has_owner kept) db.chunks)) kept
      (λ d own counted. counted ∙ sym (cascade-number kept d.collection d.id db.chunks own))
      (owned-own kept) (All-select (Counts db.chunks) (λ d. not (doomed d)) db.documents h)
