-- ===== src/Search/Requests.antt =====
-- types.go: `SearchRequest`, the statuses of the cache; store.go:
-- `normalizeSearchRequest` and `validateSearchRequest`.
use simplykb.Prelude.{ℤ, pos, leb_ℤ, ltb_ℤ, Option, none, some, [], if◌then◌else◌}
use simplykb.Text.{Text, text_eq, trim_space}
use simplykb.External.{External}
use simplykb.Requests.Names.{resolve_collection, normalize_metadata}
use simplykb.Config.{Config}
pub use simplykb.Search.Modes.{
  SearchMode, hybrid, keyword, vector, unset, other, SearchError, query_required, unsupported_mode,
  limit_not_positive, candidates_below_limit, invalid_filter, embed_query_failed,
  query_vector_count, query_vector_dimension, keyer_required, resolve_key_failed, empty_cache_key,
  nil_embedder,
}

pub data QueryEmbeddingCacheStatus : Type 0 where
  not_applicable disabled bypassed miss hit : QueryEmbeddingCacheStatus

pub record SearchRequest (x : External) : Type 0 where
  pub collection : Text
  pub query : Text
  pub limit : ℤ
  pub candidate_limit : ℤ
  pub mode : SearchMode
  pub metadata_filter : Option x.Metadata

unfoldable pub default_mode : SearchMode → SearchMode
default_mode unset = hybrid
default_mode mode = mode

-- The `switch` on the mode.
unfoldable pub check_mode : SearchMode → Option SearchError → Option SearchError
check_mode hybrid rest = rest
check_mode keyword rest = rest
check_mode vector rest = rest
check_mode mode rest = some (unsupported_mode mode)

module _ (x : External) where
  unfoldable pub encode_metadata_filter : Option x.Metadata → Option Text
  unfolding normalize_metadata
  encode_metadata_filter metadata = x.marshal (normalize_metadata x metadata)

  unfoldable pub normalize_search_request : Config x → SearchRequest x → SearchRequest x
  unfolding resolve_collection trim_space normalize_metadata default_mode
  normalize_search_request cfg req = record {
    collection = resolve_collection cfg.default_collection req.collection;
    query = trim_space req.query;
    limit = if leb_ℤ req.limit (pos 0) then cfg.default_search_limit else req.limit;
    candidate_limit =
        if leb_ℤ req.candidate_limit (pos 0) then cfg.candidate_limit else req.candidate_limit;
    mode = default_mode req.mode;
    metadata_filter = some (normalize_metadata x req.metadata_filter);
  }

  -- `none` is a valid request.
  unfoldable pub validate_search_request : SearchRequest x → Option SearchError
  unfolding check_mode encode_metadata_filter
  validate_search_request req =
      if text_eq req.query []
      then some query_required
      else check_mode req.mode (
          if leb_ℤ req.limit (pos 0)
          then some limit_not_positive
          else if ltb_ℤ req.candidate_limit req.limit
          then some candidates_below_limit
          else elim (encode_metadata_filter req.metadata_filter) [
            | none ↦ some invalid_filter
            | some _ ↦ none
          ])
