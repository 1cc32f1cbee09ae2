-- ===== src/Search/Response.antt =====
-- store.go: `SearchDetailed` and `Search`, from the request to the response.
use mathlib.Core.Path.{subst}
use simplykb.Prelude.{◌≡◌, refl, sym, Bool, false, some, Option-cases, Bool-cases, inl, inr}
use simplykb.External.{External}
use simplykb.Errors.{Result, ok, err, not_initialized}
use simplykb.Store.{Store, ensure_ready, ensure_ready-ready}
use simplykb.Database.Rows.{Db}
use simplykb.Database.Session.{World}
use simplykb.Database.Post.{Ensures, Ensures-weaken, >>=-Ensures, pure-Ensures, attempt-Ensures}
use simplykb.Database.Calls.{Stable}
use simplykb.Search.Requests.{
  SearchRequest, normalize_search_request, validate_search_request, encode_metadata_filter,
}
use simplykb.Search.Hits.{SearchEngine}
use simplykb.Search.Fusion.{Merged}
use simplykb.Search.Detailed.{Accepted, Answer, accept_search, run_search, search_detailed}
use simplykb.Search.Answers.{keyword_stage-Ensures}
use simplykb.Search.Searched.{IsValidCache, IsAnswer, finish_search-Ensures}

module _ (x : External) (e : SearchEngine x) where
  module _ (s : Store x) (req : SearchRequest x) where
    -- What the search works with, once the request is accepted.
    abbrev IsAccepted : Result (Accepted x e) → Type 0
    IsAccepted (err problem) = Unit
    IsAccepted (ok a) = a.store ≡ s

    unready : s.pool ≡ false → ensure_ready (some s) ≡ err not_initialized
    unfolding ensure_ready
    unready closed = rw (closed, ensure_ready) refl

    accept_search-IsAccepted : IsAccepted (accept_search x e (some s) req)
    unfolding accept_search
    accept_search-IsAccepted = elim (Bool-cases s.pool) [
      | inr closed ↦ rw (unready closed, accept_search) tt
      | inl ready ↦
          let request = normalize_search_request x s.cfg req in
          elim (Option-cases (validate_search_request x request)) [
            | inr (problem, bad) ↦ rw (ensure_ready-ready s ready, bad, accept_search) tt
            | inl fine ↦ elim (Option-cases (encode_metadata_filter x request.metadata_filter)) [
              | inl unencoded ↦ rw (ensure_ready-ready s ready, fine, unencoded, accept_search) tt
              | inr (t, encoded) ↦
                  rw (ensure_ready-ready s ready, fine, encoded, accept_search) refl
            ]
          ]
    ]

    -- A request that is refused changes nothing; another one has an answer.
    abbrev pub IsOutcome :
        (Merged x e → Merged x e)
        → (Db → Type 0)
        → Result (Accepted x e)
        → Answer x e
        → World
        → Type 0
    IsOutcome visit J (err problem) answer w = (answer ≡ (s.query_cache, err problem)) × Stable J w
    IsOutcome visit J (ok a) answer w = (a.store ≡ s) × IsAnswer x e visit J a answer w

    module _ (visit : Merged x e → Merged x e) (J : Db → Type 0) where
      run_search-Ensures :
          (deadline : Bool) (r : Result (Accepted x e)) (w : World)
          → IsAccepted r
          → IsValidCache x s.query_cache
          → Stable J w
          → Ensures (run_search x e visit deadline (some s) r) w (IsOutcome visit J r) (λ _ _. ⊥)
      unfolding run_search
      run_search-Ensures deadline (err problem) w accepted valid st = pure-Ensures _ w (refl, st)
      run_search-Ensures deadline (ok a) w accepted valid st =
          >>=-Ensures _ _ _ w (attempt-Ensures _ _ w (keyword_stage-Ensures x e J a deadline w st))
            (λ r w₁ post.
              Ensures-weaken _ _ w₁ (λ answer w' h. (accepted, h))
                (finish_search-Ensures x e visit J a r w₁
                  (subst (λ (t : Store x). IsValidCache x t.query_cache) (sym accepted) valid)
                  post))

      -- A search by a store whose cache, where it has one, is valid, among sessions that keep `J`, keeps
      -- the cache valid and `J`, and does not fail outside its result. A request that is refused
      -- changes nothing. An accepted one either fails or gives the ranking of the hits that each of
      -- its mode's queries read from a database with `J`, the vector query with the vector found for
      -- the query, and its diagnostics count those hits.
      pub search_detailed-Ensures :
          (deadline : Bool) (w : World)
          → IsValidCache x s.query_cache
          → Stable J w
          → Ensures
              (search_detailed x e visit deadline (some s) req)
              w
              (IsOutcome visit J (accept_search x e (some s) req))
              (λ _ _. ⊥)
      unfolding search_detailed
      search_detailed-Ensures deadline w valid st =
          run_search-Ensures deadline (accept_search x e (some s) req) w accept_search-IsAccepted
            valid st
