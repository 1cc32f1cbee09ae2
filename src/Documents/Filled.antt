-- ===== src/Documents/Filled.antt =====
-- store.go: the number of chunks that `prepareDocumentWrite` prepares.
use mathlib.Core.Path.{subst}
use simplykb.Prelude.{
  ℤ, ◌≡◌, ◌<◌, List, [], ◌∷◌, map, length, arith, Bool-cases, Option-cases, inl, inr, ◌==◌,
}
use simplykb.Text.{Text}
use simplykb.External.{External}
use simplykb.Errors.{Result, ok, err, vector_count}
use simplykb.Types.{ChunkDraft}
use simplykb.Config.{Config}
use simplykb.Documents.Prepare.{
  Prepared, prepare_document_write, check_chunks, embed_all, check_vectors, check_dimensions,
  validate_chunks, pair_up,
}

module _ (x : External) (cfg : Config x) where
  check_vectors-filled :
      (n : ℤ) (c : ChunkDraft) (cs : List ChunkDraft) (vs : List (List x.Float))
      (ps : List (Prepared x))
      → check_vectors x n (c ∷ cs) vs ≡ ok ps
      → 0 < length ps
  unfolding check_vectors pair_up
  check_vectors-filled n c cs [] ps h = ground arith
  check_vectors-filled n c cs (v ∷ vs) ps h =
      elim (Bool-cases (length (v ∷ vs) == length (c ∷ cs))) [
        | inl even ↦ elim (Option-cases (check_dimensions x n (v ∷ vs))) [
          | inl fine ↦
              let paired : ◌≡◌ {A = Result (List (Prepared x))}
                  (ok (record { chunk = c; vector = v } ∷ pair_up x cs vs)) (ok ps) =
                (rw (even, fine, check_vectors) at h) in
              let same : (record { chunk = c; vector = v } ∷ pair_up x cs vs) ≡ ps = cc in
              subst (λ (l : List (Prepared x)). 0 < length l) same (omega arith)
          | inr (e, bad) ↦
              let failed : ◌≡◌ {A = Result (List (Prepared x))} (err e) (ok ps) =
                (rw (even, bad, check_vectors) at h) in
              absurd (cc)
        ]
        | inr odd ↦
            let failed : ◌≡◌ {A = Result (List (Prepared x))}
                (err (vector_count (length (v ∷ vs)) (length (c ∷ cs)))) (ok ps) =
              (rw (odd, check_vectors) at h) in
            absurd (cc)
      ]

  embed_all-filled :
      (c : ChunkDraft) (cs : List ChunkDraft) (ps : List (Prepared x))
      → embed_all x cfg (c ∷ cs) ≡ ok ps
      → 0 < length ps
  unfolding embed_all
  embed_all-filled c cs ps h = elim (Option-cases cfg.embedder) [
    | inl missing ↦ ground (arith, missing)
    | inr (e, there) ↦ elim (Option-cases (e.embed (map (λ d. d.content) (c ∷ cs)))) [
      | inl failed ↦ ground (arith, there, failed)
      | inr (vs, done) ↦
          check_vectors-filled cfg.embedding_dimensions c cs vs ps
            (rw (there, done, embed_all) at h)
    ]
  ]

  check_chunks-filled :
      (cs : List ChunkDraft) (ps : List (Prepared x))
      → check_chunks x cfg cs ≡ ok ps
      → 0 < length ps
  unfolding check_chunks
  check_chunks-filled [] ps h = ground arith
  check_chunks-filled (c ∷ cs) ps h =
      elim (Option-cases (validate_chunks (c ∷ cs) cfg.max_chunk_chars)) [
        | inl valid ↦ embed_all-filled c cs ps (rw (valid, check_chunks) at h)
        | inr (e, bad) ↦ ground (arith, bad)
      ]

  -- A prepared write has a chunk.
  pub prepare-filled :
      (content : Text) (ps : List (Prepared x))
      → prepare_document_write x cfg content ≡ ok ps
      → 0 < length ps
  unfolding prepare_document_write
  prepare-filled content ps h = elim (Option-cases cfg.splitter) [
    | inl missing ↦ ground (arith, missing)
    | inr (split, there) ↦ elim (Option-cases (split content)) [
      | inl failed ↦ ground (arith, there, failed)
      | inr (cs, done) ↦ check_chunks-filled cs ps (rw (there, done, prepare_document_write) at h)
    ]
  ]
