-- ===== src/Config/Laws.antt =====
-- config.go: `normalized` and `validate`.
use simplykb.Prelude.{
  ℕ, ◌<◌, ◌≤◌, ◌≡◌, ◌≢◌, ◌*◌, [], refl, Bool, true, false, Option, none, some, arith, ℤ, pos,
  negsuc, ltb_ℤ, leb_ℤ, ◌&&◌, not, inl, inr, Bool-cases, if◌then◌else◌,
}
use simplykb.Text.{Text, text_eq, text_discrete}
use simplykb.External.{External}
use simplykb.Errors.{
  Error, database_url_required, dimensions_required, embedder_required, negative_min_conns,
  negative_max_conns, min_above_max_conns, search_above_candidate_limit, negative_cache_size,
  cache_needs_keyer, max_chunk_chars_too_large,
}
use simplykb.Types.{Splitter}
use simplykb.Splitter.{default_splitter, effective_chunk_size, new_default_splitter}
use simplykb.Config.{
  Config, is_nil, has_keyer, fallback_collection, positive_or, bounded_splitter, normalized,
  validate, default_max_chunk_chars,
}

pub positive_or-positive_or :
    (value : ℤ) (fallback : ℕ)
    → positive_or (positive_or value (pos fallback)) (pos fallback)
      ≡ positive_or value (pos fallback)
unfolding positive_or
positive_or-positive_or value fallback = ground arith

pub positive_or-positive :
    (value : ℤ) (fallback : ℕ)
    → 0 < fallback
    → (n : ℕ) × (positive_or value (pos fallback) ≡ pos n) × (0 < n)
unfolding positive_or
positive_or-positive (pos n) fallback h = elim (Bool-cases (leb_ℤ (pos n) (pos 0))) [
  | inl e ↦ (fallback, ground (arith, e), h)
  | inr e ↦ (n, ground (arith, e), ground arith)
]
positive_or-positive (negsuc n) fallback h = (fallback, ground arith, h)

-- The bounded splitter makes no chunk that is longer than the bound.
pub bounded_splitter-fits :
    (n : ℕ) → 0 < n → effective_chunk_size (bounded_splitter (pos n)).chunk_size ≤ n
unfolding bounded_splitter effective_chunk_size new_default_splitter
bounded_splitter-fits n h = ground arith

positive_of : (v : ℤ) → leb_ℤ v (pos 0) ≡ false → (n : ℕ) × (v ≡ pos n) × (0 < n)
positive_of (pos n) h = (n, refl, ground arith)
positive_of (negsuc n) h = ground arith

-- A guard of `validate` that did not return.
passed :
    (b : Bool) (e : Error) (r : Option Error)
    → (if b then some e else r) ≡ none
    → (b ≡ false) × (r ≡ none)
passed true e r h = cc
passed false e r h = (refl, h)

module _ {x : External} where
  -- `normalized` leaves a normalised configuration as it is.
  pub normalized-normalized : (c : Config x) → normalized (normalized c) ≡ normalized c
  unfolding normalized
  normalized-normalized c = λ i. record (normalized c) {
    default_collection = same_collection c.default_collection i;
    default_search_limit = positive_or-positive_or c.default_search_limit 5 i;
    candidate_limit = positive_or-positive_or c.candidate_limit 20 i;
    rrf_constant = positive_or-positive_or c.rrf_constant 60 i;
    max_document_bytes = positive_or-positive_or c.max_document_bytes (2 * 1024 * 1024) i;
    max_chunk_chars = positive_or-positive_or c.max_chunk_chars 5000 i;
    splitter =
        same_splitter c.splitter (positive_or c.max_chunk_chars default_max_chunk_chars)
          (positive_or (positive_or c.max_chunk_chars default_max_chunk_chars)
            default_max_chunk_chars)
          i;
  }
    where
      same_collection :
          (t : Text)
          → (if text_eq (if text_eq t [] then fallback_collection else t) []
              then fallback_collection
              else (if text_eq t [] then fallback_collection else t))
            ≡ (if text_eq t [] then fallback_collection else t)
      same_collection t = elim (Bool-cases (text_eq t [])) [
        | inl e ↦ rw e (unfold text_discrete in refl)
        | inr e ↦ rw (e, e) refl
      ]

      same_splitter :
          (o : Option Splitter) (n m : ℤ)
          → elim (elim o as (λ _. Option Splitter) [
            | some s ↦ some s
            | none ↦ some (default_splitter (bounded_splitter n))
          ])
              as (λ _. Option Splitter) [
                | some s ↦ some s
                | none ↦ some (default_splitter (bounded_splitter m))
              ]
            ≡ elim o as (λ _. Option Splitter) [
              | some s ↦ some s
              | none ↦ some (default_splitter (bounded_splitter n))
            ]
      same_splitter none n m = refl
      same_splitter (some s) n m = refl

  -- The tests of `validate` that the rest of the program relies on, where all of them pass.
  pub validate_tests :
      (c : Config x)
      → validate c ≡ none
      → (leb_ℤ c.embedding_dimensions (pos 0) ≡ false)
        × (is_nil c.embedder ≡ false)
        × ((ltb_ℤ (pos 0) c.candidate_limit && ltb_ℤ c.candidate_limit c.default_search_limit)
            ≡ false)
        × (ltb_ℤ default_max_chunk_chars c.max_chunk_chars ≡ false)
  unfolding validate
  validate_tests c h =
      let (_, h₁) = passed (text_eq c.database_url []) database_url_required _ h in
      let (dimensions, h₂) = passed _ dimensions_required _ h₁ in
      let (embedder, h₃) = passed _ embedder_required _ h₂ in
      let (_, h₄) = passed (ltb_ℤ c.min_conns (pos 0)) negative_min_conns _ h₃ in
      let (_, h₅) = passed (ltb_ℤ c.max_conns (pos 0)) negative_max_conns _ h₄ in
      let (_, h₆) =
        passed (ltb_ℤ (pos 0) c.max_conns && ltb_ℤ c.max_conns c.min_conns)
          (min_above_max_conns c.min_conns c.max_conns) _ h₅ in
      let (candidates, h₇) =
        passed _ (search_above_candidate_limit c.default_search_limit c.candidate_limit) _ h₆ in
      let (_, h₈) = passed (ltb_ℤ c.query_embedding_cache_size (pos 0)) negative_cache_size _ h₇ in
      let (chars, _) =
        passed _ (max_chunk_chars_too_large c.max_chunk_chars)
          (if ltb_ℤ (pos 0) c.query_embedding_cache_size && not (has_keyer c.embedder)
            then some cache_needs_keyer
            else none)
          h₈ in
      (dimensions, embedder, candidates, chars)

  -- A configuration that `New` accepts has a positive search limit that is not above its candidate
  -- limit, chunks of at least one and at most 5000 characters, a positive document limit and RRF
  -- constant, positive dimensions, an embedder and a splitter.
  pub normalized-validate :
      (c : Config x)
      → validate (normalized c) ≡ none
      → ((n m : ℕ) × ((normalized c).default_search_limit ≡ pos n)
          × ((normalized c).candidate_limit ≡ pos m)
          × (0 < n)
          × (n ≤ m))
        × ((n : ℕ) × ((normalized c).max_chunk_chars ≡ pos n) × (0 < n) × (n ≤ 5000))
        × ((n : ℕ) × ((normalized c).max_document_bytes ≡ pos n) × (0 < n))
        × ((n : ℕ) × ((normalized c).rrf_constant ≡ pos n) × (0 < n))
        × ((n : ℕ) × ((normalized c).embedding_dimensions ≡ pos n) × (0 < n))
        × (is_nil (normalized c).embedder ≡ false)
        × ((normalized c).splitter ≢ none)
  unfolding normalized
  normalized-validate c accepted =
      let (dimensions, embedder, candidates, chars) = validate_tests (normalized c) accepted in
      let (n, is_n, n>0) = positive_or-positive c.default_search_limit 5 (omega arith) in
      let (m, is_m, m>0) = positive_or-positive c.candidate_limit 20 (omega arith) in
      let (k, is_k, k>0) = positive_or-positive c.max_chunk_chars 5000 (omega arith) in
      (
        (n, m, is_n, is_m, n>0, not_above n m m>0 (rw (is_m, is_n) at candidates)),
        (k, is_k, k>0, at_most k (rw is_k at chars)),
        positive_or-positive c.max_document_bytes (2 * 1024 * 1024) (omega arith),
        positive_or-positive c.rrf_constant 60 (omega arith),
        positive_of c.embedding_dimensions dimensions,
        embedder,
        some_splitter (positive_or c.max_chunk_chars default_max_chunk_chars) c.splitter,
      )
    where
      not_above :
          (n m : ℕ) → 0 < m → (ltb_ℤ (pos 0) (pos m) && ltb_ℤ (pos m) (pos n)) ≡ false → n ≤ m
      not_above n m h e = ground arith

      at_most : (k : ℕ) → ltb_ℤ (pos 5000) (pos k) ≡ false → k ≤ 5000
      at_most k e = ground arith

      some_splitter :
          (n : ℤ) (o : Option Splitter)
          → elim o as (λ _. Option Splitter) [
            | some s ↦ some s
            | none ↦ some (default_splitter (bounded_splitter n))
          ]
            ≢ none
      some_splitter n none e = cc
      some_splitter n (some s) e = cc
