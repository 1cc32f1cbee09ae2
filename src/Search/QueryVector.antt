-- ===== src/Search/QueryVector.antt =====
-- store.go: `searchQueryVector` and `resolveQueryEmbeddingCacheKey`.
use simplykb.Prelude.{ℤ, pos, ltb_ℤ, Option, none, some, List, [], ◌∷◌, if◌then◌else◌, length}
use simplykb.Text.{Text, text_eq, trim_space}
use simplykb.External.{External}
use simplykb.Types.{Embedder, CacheKey, key_error, key_bypass, key}
use simplykb.Store.{Store}
use simplykb.QueryCache.{QueryEmbeddingCache, clone_vector, get_nilable, put_nilable}
use simplykb.Search.Requests.{
  SearchError, embed_query_failed, query_vector_count, query_vector_dimension, keyer_required,
  resolve_key_failed, empty_cache_key, nil_embedder, QueryEmbeddingCacheStatus, disabled, bypassed,
  miss, hit,
}

pub data Found {ℓ} (A : Type ℓ) : Type ℓ where
  found : A → Found A
  failed : SearchError → Found A

-- The results of `resolveQueryEmbeddingCacheKey`: an error, a status without a key, and a key.
pub data KeyChoice : Type 0 where
  no_key : SearchError → KeyChoice
  without_cache : QueryEmbeddingCacheStatus → KeyChoice
  with_cache : Text → KeyChoice

-- What the keyer returned.
unfoldable pub choose_key : CacheKey → KeyChoice
unfolding trim_space
choose_key key_error = no_key resolve_key_failed
choose_key key_bypass = without_cache bypassed
choose_key (key k) = if text_eq (trim_space k) [] then no_key empty_cache_key else with_cache k

module _ (x : External) where
  abbrev keyer : Option (Embedder x) → Option (Text → CacheKey)
  keyer none = none
  keyer (some e) = e.cache_key

  unfoldable pub resolve_query_embedding_cache_key : Store x → Text → KeyChoice
  unfolding choose_key
  resolve_query_embedding_cache_key s normalized_query = elim s.query_cache [
    | none ↦ without_cache disabled
    | some c ↦ elim (keyer s.cfg.embedder) [
      | none ↦ no_key keyer_required
      | some k ↦ choose_key (k normalized_query)
    ]
  ]

  -- The checks of the embedder's answer.
  unfoldable pub check_query_vector : ℤ → List (List x.Float) → Found (List x.Float)
  check_query_vector dimensions (v ∷ []) =
      if ltb_ℤ (pos (length v)) dimensions
      then failed (query_vector_dimension (length v))
      else if ltb_ℤ dimensions (pos (length v))
      then failed (query_vector_dimension (length v))
      else found v
  check_query_vector dimensions vs = failed (query_vector_count (length vs))

  unfoldable pub embed_query : Store x → Text → Found (List x.Float)
  unfolding check_query_vector
  embed_query s normalized_query = elim s.cfg.embedder [
    | none ↦ failed nil_embedder
    | some e ↦ elim (e.embed (normalized_query ∷ [])) [
      | none ↦ failed embed_query_failed
      | some vs ↦ check_query_vector s.cfg.embedding_dimensions vs
    ]
  ]

  abbrev pub Outcome : Type 0
  Outcome = Option (QueryEmbeddingCache x.Float) × Found (List x.Float × QueryEmbeddingCacheStatus)

  -- The end of `searchQueryVector` without a key, and with one. `none` is a panic of the cache.
  unfoldable pub answer_directly :
      QueryEmbeddingCacheStatus
      → Found (List x.Float)
      → Found (List x.Float × QueryEmbeddingCacheStatus)
  unfolding clone_vector
  answer_directly status (failed e) = failed e
  answer_directly status (found v) = found (clone_vector v, status)

  unfoldable pub store_vector :
      Option (QueryEmbeddingCache x.Float) → Text → Found (List x.Float) → Option Outcome
  unfolding put_nilable clone_vector
  store_vector cache k (failed e) = some (cache, failed e)
  store_vector cache k (found v) = elim (put_nilable cache k v) [
    | none ↦ none
    | some cache' ↦ some (cache', found (clone_vector v, miss))
  ]

  unfoldable pub search_with_key :
      Option (QueryEmbeddingCache x.Float) → Text → Found (List x.Float) → Option Outcome
  unfolding get_nilable store_vector
  search_with_key cache k embedded = elim (get_nilable cache k) [
    | none ↦ none
    | some (cache', some v) ↦ some (cache', found (v, hit))
    | some (cache', none) ↦ store_vector cache' k embedded
  ]

  -- The cache afterwards, and the vector with the status of the cache.
  unfoldable pub search_query_vector : Store x → Text → Option Outcome
  unfolding resolve_query_embedding_cache_key embed_query answer_directly search_with_key
  search_query_vector s normalized_query =
      elim (resolve_query_embedding_cache_key s normalized_query) [
        | no_key e ↦ some (s.query_cache, failed e)
        | without_cache status ↦
            some (s.query_cache, answer_directly status (embed_query s normalized_query))
        | with_cache k ↦ search_with_key s.query_cache k (embed_query s normalized_query)
      ]
