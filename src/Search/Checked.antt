-- ===== src/Search/Checked.antt =====
-- store.go: what `searchQueryVector` takes from the embedder.
use simplykb.Prelude.{
  ℤ, pos, negsuc, ◌≡◌, ◌↔◌, refl, sym, ap, ◌∙◌, false, arith, ltb_ℤ, Bool-cases, Option, none, some,
  inl, inr, List, [], ◌∷◌, length,
}
use simplykb.Text.{Text}
use simplykb.External.{External}
use simplykb.Types.{Embedder}
use simplykb.Store.{Store}
use simplykb.Search.Requests.{query_vector_dimension, embed_query_failed, nil_embedder}
use simplykb.Search.QueryVector.{found, failed, check_query_vector, embed_query}

equal_of_tests :
    (dimensions : ℤ) {A : Type 0} (v : List A)
    → ltb_ℤ (pos (length v)) dimensions ≡ false
    → ltb_ℤ dimensions (pos (length v)) ≡ false
    → dimensions ≡ pos (length v)
equal_of_tests (pos n) v low high = ap pos (let m = length v in ground arith)
equal_of_tests (negsuc n) v low high = absurd (let m = length v in ground arith)

module _ (x : External) where
  found_eq : (v w : List x.Float) → found v ≡ found w → v ≡ w
  found_eq v w eq = cc

  check_query_vector-one :
      (dimensions : ℤ) (vs : List (List x.Float)) (v : List x.Float)
      → check_query_vector x dimensions vs ≡ found v
      → (vs ≡ v ∷ []) × (dimensions ≡ pos (length v))
  unfolding check_query_vector
  check_query_vector-one dimensions [] v h = cc
  check_query_vector-one dimensions (a ∷ b ∷ l) v h = cc
  check_query_vector-one dimensions (a ∷ []) v h =
      elim (Bool-cases (ltb_ℤ (pos (length a)) dimensions)) [
        | inl short ↦
            let refused : failed (query_vector_dimension (length a)) ≡ found v =
              sym (rw short refl) ∙ h in
            absurd (cc)
        | inr low ↦ elim (Bool-cases (ltb_ℤ dimensions (pos (length a)))) [
          | inl long ↦
              let refused : failed (query_vector_dimension (length a)) ≡ found v =
                sym (rw (low, long) refl) ∙ h in
              absurd (cc)
          | inr high ↦
              let same : a ≡ v = found_eq a v (sym (rw (low, high) refl) ∙ h) in
              (
                ap (λ u. u ∷ []) same,
                equal_of_tests dimensions a low high
                    ∙ ap (λ (u : List x.Float). pos (length u)) same,
              )
        ]
      ]

  one-check_query_vector :
      (v : List x.Float) → check_query_vector x (pos (length v)) (v ∷ []) ≡ found v
  unfolding check_query_vector
  one-check_query_vector v =
      let n = length v in
      let even : ltb_ℤ (pos (length v)) (pos (length v)) ≡ false = ground arith in rw even refl

  -- The embedder is there and answers the query with this one vector, of the configured dimensions.
  abbrev pub Answers : Store x → Text → List x.Float → Type 0
  Answers s q v =
      (e : Embedder x) × (s.cfg.embedder ≡ some e)
      × (e.embed (q ∷ []) ≡ some (v ∷ []))
      × (s.cfg.embedding_dimensions ≡ pos (length v))

  -- A query gets a vector from the embedder exactly when the embedder answers it without an error, with
  -- that vector and no other, and the vector has the configured dimensions.
  pub embed_query-Answers :
      (s : Store x) (q : Text) (v : List x.Float) → (embed_query x s q ≡ found v) ↔ Answers s q v
  unfolding embed_query
  embed_query-Answers s q v = (λ h. by_embedder s.cfg.embedder refl h, back)
    where
      by_vectors :
          (e : Embedder x) (o : Option (List (List x.Float)))
          → s.cfg.embedder ≡ some e
          → e.embed (q ∷ []) ≡ o
          → embed_query x s q ≡ found v
          → Answers s q v
      by_vectors e none is answer h =
          let refused : failed embed_query_failed ≡ found v =
            sym (rw (is, embed_query, answer) refl) ∙ h in
          absurd (cc)
      by_vectors e (some vs) is answer h =
          let (one, size) =
            check_query_vector-one s.cfg.embedding_dimensions vs v
              (sym (rw (is, embed_query, answer) refl) ∙ h) in
          (e, is, answer ∙ ap some one, size)

      by_embedder :
          (o : Option (Embedder x))
          → s.cfg.embedder ≡ o
          → embed_query x s q ≡ found v
          → Answers s q v
      by_embedder none is h =
          let refused : failed nil_embedder ≡ found v = sym (rw (is, embed_query) refl) ∙ h in
          absurd (cc)
      by_embedder (some e) is h = by_vectors e (e.embed (q ∷ [])) is refl h

      back : Answers s q v → embed_query x s q ≡ found v
      back (e, is, answer, size) = rw (is, embed_query, answer, size) (one-check_query_vector v)
