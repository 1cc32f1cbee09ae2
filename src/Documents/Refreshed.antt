-- ===== src/Documents/Refreshed.antt =====
-- store.go: `classifyDocumentWrite` after `refreshDocumentMetadata`.
use mathlib.Core.Path.{subst}
use mathlib.Core.Bool.{false≢true}
use simplykb.Prelude.{
  ℕ, ◌≡◌, ◌≢◌, ◌<◌, refl, sym, ap, ◌∙◌, Bool, true, false, not, ◌||◌, Option, none, some, [], leb,
  arith, Option-cases, ◌⊎◌, inl, inr, if◌then◌else◌,
}
use simplykb.Text.{Text, text_eq, text_eq_iff}
use simplykb.External.{External}
use simplykb.Errors.{Result, ok, err, decode_stored_metadata}
use simplykb.Types.{UpsertDocumentRequest}
use simplykb.Database.Rows.{Document, Db, find_document}
use simplykb.Database.Counts.{and_true}
use simplykb.Database.Statements.{refresh_document}
use simplykb.Documents.Snapshot.{
  DocumentWriteAction, metadata_refresh, reindex, DocumentSnapshot, hash_text,
  canonical_stored_metadata_json, snapshot_of_row, classify_document_write, no_snapshot,
}
use simplykb.Documents.Transactions.{fields_of}
use simplykb.Documents.Effect.{refreshed_db}
use simplykb.Documents.Rows.{
  Holds, find_document-map, find_document-has_key, refresh-KeepsKey, refresh-Holds,
}
use simplykb.Documents.Settled.{Done, snapshot, Holds-Done}

not_reindexed :
    (b : Bool) (rest action : DocumentWriteAction)
    → (if b then reindex else rest) ≡ action
    → action ≢ reindex
    → (b ≡ false) × (rest ≡ action)
not_reindexed true rest action h other = absurd (other (sym h))
not_reindexed false rest action h other = (refl, h)

module _ (x : External) (req : UpsertDocumentRequest x) (json : Text) where
  -- Where a snapshot comes from.
  FromRow : Option Document → DocumentSnapshot → Type 0
  FromRow o snap =
      (snap.exists ≡ false)
      ⊎ ((r : Document) × (o ≡ some r)
          × (snap.internal_id ≡ r.id)
          × (snap.content_hash ≡ r.content_hash)
          × (snap.chunk_count ≡ r.chunk_count))

  snapshot_of_row-FromRow :
      (o : Option Document) (snap : DocumentSnapshot)
      → snapshot_of_row x o ≡ ok snap
      → FromRow o snap
  unfolding snapshot_of_row FromRow
  snapshot_of_row-FromRow none snap h = inl (sym (ap (λ s. s.exists) (unwrap no_snapshot snap h)))
    where
      unwrap : (a b : DocumentSnapshot) → ◌≡◌ {A = Result DocumentSnapshot} (ok a) (ok b) → a ≡ b
      unwrap a b e = cc
  snapshot_of_row-FromRow (some r) snap h =
      elim (Option-cases (canonical_stored_metadata_json x r.metadata)) [
        | inl bad ↦
            let failed : ◌≡◌ {A = Result DocumentSnapshot} (err decode_stored_metadata) (ok snap) =
              (rw (bad, snapshot_of_row) at h) in
            absurd (cc)
        | inr (stored, good) ↦
            let done : ok (record (snapshot x req json r) { metadata_json = stored }) ≡ ok snap =
              (rw (good, snapshot_of_row) at h) in
            let same : record (snapshot x req json r) { metadata_json = stored } ≡ snap = cc in
            inr (
              r,
              refl,
              sym (ap (λ s. s.internal_id) same),
              sym (ap (λ s. s.content_hash) same),
              sym (ap (λ s. s.chunk_count) same),
            )
      ]

  -- What a refresh relies on, and a noop.
  pub kept_tests :
      (snap : DocumentSnapshot) (force_reindex : Bool) (action : DocumentWriteAction)
      → classify_document_write x snap req (hash_text x req.content) json force_reindex ≡ action
      → action ≢ reindex
      → (force_reindex ≡ false)
        × (snap.exists ≡ true)
        × (leb snap.chunk_count 0 ≡ false)
        × (text_eq snap.content_hash (hash_text x req.content) ≡ true)
  unfolding classify_document_write
  kept_tests snap force_reindex action class other =
      let (free, h₁) = not_reindexed force_reindex _ action class other in
      let (there, h₂) =
        not_reindexed (not snap.exists || leb snap.chunk_count 0) _ action h₁ other in
      let (same, _) =
        not_reindexed (not (text_eq snap.content_hash (hash_text x req.content))) _ action h₂
          other in
      let (exists, filled) = neither snap.exists (leb snap.chunk_count 0) there in
      (free, exists, filled, negated _ same)
    where
      neither : (a b : Bool) → (not a || b) ≡ false → (a ≡ true) × (b ≡ false)
      neither true b h = (refl, h)
      neither false b h = absurd (false≢true (sym h))

      negated : (a : Bool) → not a ≡ false → a ≡ true
      negated true h = refl
      negated false h = absurd (false≢true (sym h))

  positive_count : (n m : ℕ) → n ≡ m → leb m 0 ≡ false → 0 < n
  positive_count n m e h = ground arith

  pub refreshed-Done :
      (d : Db) (snap : DocumentSnapshot) (force_reindex : Bool) (now : ℕ)
      → canonical_stored_metadata_json x (x.to_jsonb json) ≡ some json
      → snapshot_of_row x (find_document req.collection req.document_id d.documents) ≡ ok snap
      → classify_document_write x snap req (hash_text x req.content) json force_reindex
        ≡ metadata_refresh
      → Done x req json (refreshed_db x req json now snap.internal_id d)
  unfolding FromRow refreshed_db
  refreshed-Done d snap force_reindex now roundtrip seen class =
      let (_, exists, filled, same_hash) =
        kept_tests snap force_reindex metadata_refresh class (λ e. cc) in
      elim (snapshot_of_row-FromRow _ snap seen) [
        | inl missing ↦ absurd (false≢true (sym missing ∙ exists))
        | inr (r, found, id, hash, count) ↦
            let f = fields_of x req json in
            let here = find_document-has_key req.collection req.document_id d.documents r found in
            let (held, counted) =
              refresh-Holds now req.collection f r
                (and_true (text_eq r.collection req.collection)
                  (text_eq r.external_id req.document_id) here).0 in
            let content : r.content_hash ≡ hash_text x req.content =
              sym hash ∙ (text_eq_iff snap.content_hash (hash_text x req.content)).0 same_hash in
            let positive : 0 < (refresh_document now req.collection r.id f r).chunk_count =
              positive_count _ snap.chunk_count (counted ∙ sym count) filled in
            subst (λ (i : ℕ). Done x req json (refreshed_db x req json now i d)) (sym id)
              (Holds-Done x req json (refresh_document now req.collection r.id f r)
                (refreshed_db x req json now r.id d) roundtrip
                (subst
                  (λ (h : Text).
                    Holds req.collection f h (refresh_document now req.collection r.id f r))
                  content held)
                positive
                (find_document-map req.collection req.document_id
                  (refresh_document now req.collection r.id f) d.documents r
                  (refresh-KeepsKey req.collection req.document_id now r.id 0 f []) found))
      ]
