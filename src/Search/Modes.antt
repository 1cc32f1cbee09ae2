-- ===== src/Search/Modes.antt =====
-- types.go: `SearchMode`; store.go: the errors of a search before its queries run.
use simplykb.Prelude.{ℕ}
use simplykb.Text.{Text}

-- A mode is a string; the zero value is `unset`.
pub data SearchMode : Type 0 where
  hybrid keyword vector unset : SearchMode
  other : Text → SearchMode

pub data SearchError : Type 0 where
  query_required : SearchError
  unsupported_mode : SearchMode → SearchError
  limit_not_positive candidates_below_limit invalid_filter : SearchError
  -- `searchQueryVector` and `resolveQueryEmbeddingCacheKey`
  embed_query_failed : SearchError
  query_vector_count query_vector_dimension : ℕ → SearchError
  keyer_required resolve_key_failed empty_cache_key : SearchError
  -- A nil embedder is called, which panics.
  nil_embedder : SearchError
