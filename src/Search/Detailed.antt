-- ===== src/Search/Detailed.antt =====
-- store.go: `Search` and `SearchDetailed`. The durations of the response are left out.
use simplykb.Prelude.{ℕ, ℤ, Bool, true, false, Option, none, some, List, [], if◌then◌else◌, length}
use simplykb.Text.{Text}
use simplykb.External.{External}
use simplykb.Errors.{Result, ok, err, search, nil_call}
use simplykb.QueryCache.{QueryEmbeddingCache}
use simplykb.Store.{Store, ensure_ready}
use simplykb.Database.Session.{Action, pure, attempt, ◌>>=◌}
use simplykb.Search.Requests.{
  SearchMode, hybrid, keyword, vector, SearchRequest, invalid_filter, QueryEmbeddingCacheStatus,
  not_applicable, hit, normalize_search_request, validate_search_request, encode_metadata_filter,
}
use simplykb.Search.QueryVector.{found, failed, Outcome, search_query_vector}
use simplykb.Search.Hits.{SearchEngine, SearchHit, search_keyword, search_vector}
use simplykb.Search.Fusion.{Merged, merge_keyword, merge_vector, results_of, rank_results}

pub record SearchDiagnostics : Type 0 where
  pub mode : SearchMode
  pub keyword_candidate_count : ℕ
  pub vector_candidate_count : ℕ
  pub fused_candidate_count : ℕ
  pub query_embedding_cache_status : QueryEmbeddingCacheStatus
  pub query_embedding_cache_hit : Bool
  pub had_context_deadline : Bool

abbrev is_hit : QueryEmbeddingCacheStatus → Bool
is_hit hit = true
is_hit _ = false

unfoldable pub set_query_embedding_cache_status :
    QueryEmbeddingCacheStatus → SearchDiagnostics → SearchDiagnostics
set_query_embedding_cache_status status d = record d {
  query_embedding_cache_status = status;
  query_embedding_cache_hit = is_hit status;
}

-- `req.Mode == SearchModeHybrid || req.Mode == SearchModeKeyword`, and the same of vectors
unfoldable pub uses_keyword : SearchMode → Bool
uses_keyword hybrid = true
uses_keyword keyword = true
uses_keyword _ = false

unfoldable pub uses_vector : SearchMode → Bool
uses_vector hybrid = true
uses_vector vector = true
uses_vector _ = false

module _ (x : External) (e : SearchEngine x) where
  pub record SearchResponse : Type 0 where
    pub hits : List (SearchHit x e)
    pub diagnostics : SearchDiagnostics

  -- The response while it is built, with the map `merged`.
  pub record SearchProgress : Type 0 where
    pub diagnostics : SearchDiagnostics
    pub merged : Merged x e

  -- The request as it is normalised, and its filter as JSON.
  pub record Accepted : Type 0 where
    pub store : Store x
    pub request : SearchRequest x
    pub filter : Text

  -- The checks of `SearchDetailed`, up to `encodeMetadataFilter`.
  unfoldable pub accept_search : Option (Store x) → SearchRequest x → Result Accepted
  unfolding ensure_ready normalize_search_request validate_search_request encode_metadata_filter
  accept_search s req = elim (ensure_ready s) [
    | err problem ↦ err problem
    | ok store ↦
        let request = normalize_search_request x store.cfg req in
        elim (validate_search_request x request) [
          | some problem ↦ err (search problem)
          | none ↦ elim (encode_metadata_filter x request.metadata_filter) [
            | none ↦ err (search invalid_filter)
            | some filter ↦ ok (record { store = store; request = request; filter = filter })
          ]
        ]
  ]

  unfoldable pub start_response : SearchMode → Bool → SearchDiagnostics
  unfolding set_query_embedding_cache_status
  start_response mode deadline = set_query_embedding_cache_status not_applicable (record {
    mode = mode;
    keyword_candidate_count = 0;
    vector_candidate_count = 0;
    fused_candidate_count = 0;
    query_embedding_cache_status = not_applicable;
    query_embedding_cache_hit = false;
    had_context_deadline = deadline;
  })

  unfoldable pub keyword_progress : Accepted → SearchDiagnostics → Action SearchProgress
  unfolding search_keyword merge_keyword
  keyword_progress a start = do
    hits ← search_keyword x e a.request a.filter
    pure (record {
      diagnostics = record start { keyword_candidate_count = length hits };
      merged = merge_keyword x e a.store.cfg.rrf_constant 0 hits [];
    })

  -- The query by words, where the mode has one; `deadline` says whether the context has one.
  unfoldable pub keyword_stage : Accepted → Bool → Action SearchProgress
  unfolding keyword_progress start_response uses_keyword
  keyword_stage a deadline =
      let start = start_response a.request.mode deadline in
      if uses_keyword a.request.mode
      then keyword_progress a start
      else pure (record { diagnostics = start; merged = [] })

  unfoldable pub vector_stage :
      Accepted → List x.Float → QueryEmbeddingCacheStatus → SearchProgress → Action SearchProgress
  unfolding search_vector set_query_embedding_cache_status merge_vector
  vector_stage a v status p = do
    hits ← search_vector x e a.request v a.filter
    pure (record {
      diagnostics = record (set_query_embedding_cache_status status p.diagnostics) {
        vector_candidate_count = length hits;
      };
      merged = merge_vector x e a.store.cfg.rrf_constant 0 hits p.merged;
    })

  unfoldable pub respond : (Merged x e → Merged x e) → ℤ → SearchProgress → SearchResponse
  unfolding results_of rank_results
  respond visit limit p =
      let results = results_of x e visit p.merged in
      record {
        hits = rank_results x e limit results;
        diagnostics = record p.diagnostics { fused_candidate_count = length results };
      }

  -- The store's cache afterwards, and what the caller gets.
  abbrev pub Answer : Type 0
  Answer = Option (QueryEmbeddingCache x.Float) × Result SearchResponse

  unfoldable pub respond_all :
      (Merged x e → Merged x e)
      → ℤ
      → Option (QueryEmbeddingCache x.Float)
      → Result SearchProgress
      → Answer
  unfolding respond
  respond_all visit limit cache (ok p) = (cache, ok (respond visit limit p))
  respond_all visit limit cache (err problem) = (cache, err problem)

  -- After `searchQueryVector`; `none` is a panic in the cache.
  unfoldable pub search_found :
      (Merged x e → Merged x e) → Accepted → SearchProgress → Option (Outcome x) → Action Answer
  unfolding vector_stage respond_all attempt
  search_found visit a p none = pure (a.store.query_cache, err nil_call)
  search_found visit a p (some (cache, failed problem)) = pure (cache, err (search problem))
  search_found visit a p (some (cache, found (v, status))) = do
    answer ← attempt (vector_stage a v status p)
    pure (respond_all visit a.request.limit cache answer)

  -- From the query's vector on.
  unfoldable pub finish_search :
      (Merged x e → Merged x e) → Accepted → Result SearchProgress → Action Answer
  unfolding search_query_vector search_found respond uses_vector
  finish_search visit a (err problem) = pure (a.store.query_cache, err problem)
  finish_search visit a (ok p) =
      if uses_vector a.request.mode
      then search_found visit a p (search_query_vector x a.store a.request.query)
      else pure (a.store.query_cache, ok (respond visit a.request.limit p))

  abbrev cache_of : Option (Store x) → Option (QueryEmbeddingCache x.Float)
  cache_of none = none
  cache_of (some s) = s.query_cache

  unfoldable pub run_search :
      (Merged x e → Merged x e) → Bool → Option (Store x) → Result Accepted → Action Answer
  unfolding keyword_stage finish_search attempt
  run_search visit deadline s (err problem) = pure (cache_of s, err problem)
  run_search visit deadline s (ok a) = do
    p ← attempt (keyword_stage a deadline)
    finish_search visit a p

  unfoldable pub search_detailed :
      (Merged x e → Merged x e) → Bool → Option (Store x) → SearchRequest x → Action Answer
  unfolding run_search accept_search
  search_detailed visit deadline s req = run_search visit deadline s (accept_search s req)

  abbrev hits_of : Result SearchResponse → Result (List (SearchHit x e))
  hits_of (ok r) = ok r.hits
  hits_of (err problem) = err problem

  unfoldable pub search_hits :
      (Merged x e → Merged x e)
      → Bool
      → Option (Store x)
      → SearchRequest x
      → Action (Option (QueryEmbeddingCache x.Float) × Result (List (SearchHit x e)))
  unfolding search_detailed
  search_hits visit deadline s req = do
    answer ← search_detailed visit deadline s req
    pure (answer.0, hits_of answer.1)
