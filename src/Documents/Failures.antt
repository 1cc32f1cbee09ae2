-- ===== src/Documents/Failures.antt =====
-- The errors of the pure steps of a write: each has a constructor of its own.
use simplykb.Prelude.{
  ◌≡◌, ◌≢◌, Option, none, some, List, [], ◌∷◌, arith, Option-cases, inl, inr, ℤ, map, ap, ◌∙◌,
}
use simplykb.Text.{Text}
use simplykb.External.{External}
use simplykb.Errors.{Error, err, out_of_fuel}
use simplykb.Types.{ChunkDraft, UpsertDocumentRequest}
use simplykb.Config.{Config}
use simplykb.Database.Rows.{Document}
use simplykb.Requests.Names.{validate_document_request}
use simplykb.Documents.Snapshot.{
  snapshot_of_row, canonical_stored_metadata_json, canonical_metadata_json,
}
use simplykb.Documents.Prepare.{
  validate_chunks, check_dimensions, check_vectors, embed_all, check_chunks, prepare_document_write,
}
use simplykb.Documents.Write.{accept}

validate_chunks_error :
    (cs : List ChunkDraft) (max_chars : ℤ) (e : Error)
    → validate_chunks cs max_chars ≡ some e
    → e ≢ out_of_fuel
unfolding validate_chunks
validate_chunks_error [] max_chars e h = cc
validate_chunks_error (c ∷ cs) max_chars e h = ground (arith, validate_chunks_error cs max_chars e)

module _ (x : External) where
  pub snapshot_of_row_error :
      (row : Option Document) (e : Error) → snapshot_of_row x row ≡ err e → e ≢ out_of_fuel
  unfolding snapshot_of_row
  snapshot_of_row_error none e h = cc
  snapshot_of_row_error (some d) e h =
      elim (Option-cases (canonical_stored_metadata_json x d.metadata)) [
        | inl bad ↦ ground (arith, bad)
        | inr (json, good) ↦ ground (arith, good)
      ]

  check_dimensions_error :
      (n : ℤ) (vs : List (List x.Float)) (e : Error)
      → check_dimensions x n vs ≡ some e
      → e ≢ out_of_fuel
  unfolding check_dimensions
  check_dimensions_error n [] e h = cc
  check_dimensions_error n (v ∷ vs) e h = ground (arith, check_dimensions_error n vs e)

  check_vectors_error :
      (n : ℤ) (cs : List ChunkDraft) (vs : List (List x.Float)) (e : Error)
      → check_vectors x n cs vs ≡ err e
      → e ≢ out_of_fuel
  unfolding check_vectors
  check_vectors_error n cs vs e h = ground (arith, check_dimensions_error n vs e)

  embed_all_error :
      (cfg : Config x) (cs : List ChunkDraft) (e : Error)
      → embed_all x cfg cs ≡ err e
      → e ≢ out_of_fuel
  unfolding embed_all
  embed_all_error cfg cs e h = elim (Option-cases cfg.embedder) [
    | inl missing ↦ ground (arith, missing)
    | inr (em, there) ↦ elim (Option-cases (em.embed (map (λ (d : ChunkDraft). d.content) cs))) [
      | inl failed ↦ ground (arith, there, failed)
      | inr (vs, embedded) ↦
          ground (arith, there, embedded, check_vectors_error cfg.embedding_dimensions cs vs e)
    ]
  ]

  check_chunks_error :
      (cfg : Config x) (cs : List ChunkDraft) (e : Error)
      → check_chunks x cfg cs ≡ err e
      → e ≢ out_of_fuel
  unfolding check_chunks
  check_chunks_error cfg [] e h = cc
  check_chunks_error cfg (c ∷ cs) e h =
      elim (Option-cases (validate_chunks (c ∷ cs) cfg.max_chunk_chars)) [
        | inl valid ↦ embed_all_error cfg (c ∷ cs) e (rw (valid, check_chunks) at h)
        | inr (e', bad) ↦
            let same : e' ≡ e = ground (arith, bad) in
            validate_chunks_error (c ∷ cs) cfg.max_chunk_chars e (bad ∙ ap some same)
      ]

  pub prepare_error :
      (cfg : Config x) (content : Text) (e : Error)
      → prepare_document_write x cfg content ≡ err e
      → e ≢ out_of_fuel
  unfolding prepare_document_write
  prepare_error cfg content e h = elim (Option-cases cfg.splitter) [
    | inl missing ↦ ground (arith, missing)
    | inr (split, there) ↦ elim (Option-cases (split content)) [
      | inl failed ↦ ground (arith, there, failed)
      | inr (cs, done) ↦ check_chunks_error cfg cs e (rw (there, done, prepare_document_write) at h)
    ]
  ]

  pub accept_error :
      (cfg : Config x) (req : UpsertDocumentRequest x) (e : Error)
      → accept x cfg req ≡ err e
      → e ≢ out_of_fuel
  unfolding accept validate_document_request
  accept_error cfg req e h = elim (Option-cases (canonical_metadata_json x req.metadata)) [
    | inl bad ↦ ground (arith, bad)
    | inr (json, good) ↦ ground (arith, good)
  ]
