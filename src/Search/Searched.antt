-- ===== src/Search/Searched.antt =====
-- store.go: `SearchDetailed` as a whole, among other sessions and with the store's cache.
use mathlib.Core.Path.{subst}
use simplykb.Prelude.{
  ◌≡◌, ◌≢◌, refl, sym, ap, ◌∙◌, true, Option, none, some, List, [], length, if◌then◌else◌,
}
use simplykb.Text.{Text}
use simplykb.External.{External}
use simplykb.Errors.{Error, Result, ok, err, out_of_fuel}
use simplykb.QueryCache.{QueryEmbeddingCache}
use simplykb.QueryCache.Valid.{IsValid}
use simplykb.Store.{Store}
use simplykb.Database.Rows.{Db}
use simplykb.Database.Session.{World}
use simplykb.Database.Post.{Post, Ensures, >>=-Ensures, pure-Ensures, attempt-Ensures, if-Ensures}
use simplykb.Database.Calls.{Stable, Untouched}
use simplykb.Search.Requests.{QueryEmbeddingCacheStatus, disabled}
use simplykb.Search.QueryVector.{
  found, failed, without_cache, Outcome, embed_query, answer_directly,
  resolve_query_embedding_cache_key, search_query_vector,
}
use simplykb.Search.Cached.{search_query_vector-Describes}
use simplykb.Search.Hits.{SearchEngine, CandidateHit}
use simplykb.Search.Fusion.{Merged, merge_vector, results_of, rank_results}
use simplykb.Search.Entries.{merged_of}
use simplykb.Search.Detailed.{
  Accepted, SearchProgress, SearchResponse, Answer, uses_vector, respond, respond_all, search_found,
  finish_search,
}
use simplykb.Search.Answers.{
  asks_vector, asks_vector-uses_vector, KeywordAnswer, VectorAnswer, Started, Completed,
  vector_stage-Ensures,
}

module _ (x : External) where
  -- A cache that is there is valid.
  abbrev pub IsValidCache : Option (QueryEmbeddingCache x.Float) → Type 0
  IsValidCache none = Unit
  IsValidCache (some c) = IsValid c

  resolve-none :
      (s : Store x) (q : Text)
      → s.query_cache ≡ none
      → resolve_query_embedding_cache_key x s q ≡ without_cache disabled
  unfolding resolve_query_embedding_cache_key
  resolve-none s q without = rw (without, resolve_query_embedding_cache_key) refl

  -- The lookup of a query's vector does not panic in the cache, and keeps it valid.
  pub search_query_vector-total :
      (s : Store x) (q : Text)
      → IsValidCache s.query_cache
      → (o : Outcome x) × (search_query_vector x s q ≡ some o) × IsValidCache o.0
  unfolding search_query_vector
  search_query_vector-total s q valid = by_cache s.query_cache refl valid
    where
      by_cache :
          (o : Option (QueryEmbeddingCache x.Float))
          → s.query_cache ≡ o
          → IsValidCache o
          → (o : Outcome x) × (search_query_vector x s q ≡ some o) × IsValidCache o.0
      by_cache none without v = (
        (s.query_cache, answer_directly x disabled (embed_query x s q)),
        rw (resolve-none s q without, search_query_vector) refl,
        rw without tt,
      )
      by_cache (some c) with v =
          let (c', done, valid', _, _) = search_query_vector-Describes x s c q with v in
          (_, done, valid')

module _ (x : External) (e : SearchEngine x) (visit : Merged x e → Merged x e) where
  -- What a search found: the hits of its queries, each read from one database with `J`, and the
  -- response that is made of them.
  pub record IsResponse (J : Db → Type 0) (a : Accepted x e) (r : SearchResponse x e) : Type 0 where
    pub ks : List (CandidateHit x e)
    pub vs : List (CandidateHit x e)
    pub by_words : KeywordAnswer x e J a ks
    -- The vector is the one that `searchQueryVector` found.
    pub by_vector :
        if asks_vector a.request.mode
        then ((o : Outcome x) × (v : List x.Float) × (search_query_vector x a.store a.request.query
              ≡ some o)
            × (o.1 ≡ found (v, r.diagnostics.query_embedding_cache_status))
            × VectorAnswer x e J a v vs)
        else (vs ≡ [])
    pub hits :
        r.hits
        ≡ rank_results x e a.request.limit
            (results_of x e visit (merged_of x e a.store.cfg.rrf_constant ks vs))
    pub mode : r.diagnostics.mode ≡ a.request.mode
    pub keyword_count : r.diagnostics.keyword_candidate_count ≡ length ks
    pub vector_count : r.diagnostics.vector_candidate_count ≡ length vs
    pub fused_count :
        r.diagnostics.fused_candidate_count
        ≡ length (results_of x e visit (merged_of x e a.store.cfg.rrf_constant ks vs))

  module _ (J : Db → Type 0) (a : Accepted x e) where
    abbrev pub IsResult : Result (SearchResponse x e) → Type 0
    IsResult (ok r) = IsResponse J a r
    IsResult (err problem) = problem ≢ out_of_fuel

    -- The cache is valid, `J` holds, and the result is one of a search.
    abbrev pub IsAnswer : Answer x e → World → Type 0
    IsAnswer answer w = IsValidCache x answer.0 × IsResult answer.1 × Stable J w

    abbrev pub Never : Error → World → Type 0
    Never problem w = ⊥

    respond-Completed :
        (o : Outcome x) (v : List x.Float) (status : QueryEmbeddingCacheStatus)
        (p : SearchProgress x e)
        → uses_vector a.request.mode ≡ true
        → search_query_vector x a.store a.request.query ≡ some o
        → o.1 ≡ found (v, status)
        → Completed x e J a v status p
        → IsResponse J a (respond x e visit a.request.limit p)
    unfolding respond
    respond-Completed o v status p uses known is_found done = record {
      ks = done.ks;
      vs = done.vs;
      by_words = done.by_words;
      by_vector =
          rw (asks_vector-uses_vector a.request.mode ∙ uses) (
            o,
            v,
            known,
            is_found ∙ ap (λ t. found (v, t)) (sym done.cache_status),
            done.by_vector,
          );
      hits = ap (λ m. rank_results x e a.request.limit (results_of x e visit m)) done.merged;
      mode = done.mode;
      keyword_count = done.keyword_count;
      vector_count = done.vector_count;
      fused_count = ap (λ m. length (results_of x e visit m)) done.merged;
    }

    finish_found :
        (o : Outcome x) (p : SearchProgress x e) (w : World)
        → uses_vector a.request.mode ≡ true
        → search_query_vector x a.store a.request.query ≡ some o
        → IsValidCache x o.0
        → Started x e J a p
        → Stable J w
        → Ensures (search_found x e visit a p (some o)) w IsAnswer Never
    unfolding search_found respond_all
    finish_found (cache, failed problem) p w uses known valid started st =
        pure-Ensures _ w (valid, (λ fuel. cc), st)
    finish_found (cache, found (v, status)) p w uses known valid started st =
        >>=-Ensures _ _ _ w
          (attempt-Ensures Never _ w (vector_stage-Ensures x e J a v status p w started st))
          (λ r w₁ post. pure-Ensures _ w₁ (last r w₁ post))
      where
        last :
            (r : Result (SearchProgress x e)) (w₁ : World)
            → Post (r, w₁) (λ p' w'. Completed x e J a v status p' × Stable J w') (Untouched J)
            → IsAnswer (respond_all x e visit a.request.limit cache r) w₁
        last (ok p') w₁ (done, st₁) = (
          valid,
          respond-Completed (cache, found (v, status)) v status p' uses known refl done,
          st₁,
        )
        last (err problem) w₁ (st₁, clean) = (valid, clean, st₁)

    pub finish_search-Ensures :
        (r : Result (SearchProgress x e)) (w : World)
        → IsValidCache x a.store.query_cache
        → Post (r, w) (λ p w'. Started x e J a p × Stable J w') (Untouched J)
        → Ensures (finish_search x e visit a r) w IsAnswer Never
    unfolding finish_search respond
    finish_search-Ensures (err problem) w valid (st, clean) = pure-Ensures _ w (valid, clean, st)
    finish_search-Ensures (ok p) w valid (started, st) =
        if-Ensures (uses_vector a.request.mode) _ _ w
          (λ uses.
            let (o, known, valid') = search_query_vector-total x a.store a.request.query valid in
            subst (λ q. Ensures (search_found x e visit a p q) w IsAnswer Never) (sym known)
              (finish_found o p w uses known valid' started st))
          (λ unused. pure-Ensures _ w (
            valid,
            record {
              ks = started.ks;
              vs = [];
              by_words = started.answer;
              by_vector = rw (asks_vector-uses_vector a.request.mode ∙ unused) refl;
              hits =
                  ap (λ m. rank_results x e a.request.limit (results_of x e visit m))
                    (started.merged ∙ unfold merge_vector in refl);
              mode = started.mode;
              keyword_count = started.keyword_count;
              vector_count = started.vector_count;
              fused_count =
                  ap (λ m. length (results_of x e visit m))
                    (started.merged ∙ unfold merge_vector in refl);
            },
            st,
          ))
