-- ===== src/Search/Answers.antt =====
-- store.go: the stages of `SearchDetailed` among other sessions.
use simplykb.Prelude.{
  ◌≡◌, refl, ap, ◌∙◌, ℤ, Bool, true, false, List, [], length, if◌then◌else◌, Bool-cases, inl, inr,
}
use simplykb.External.{External}
use simplykb.Database.Rows.{Db}
use simplykb.Database.Session.{World}
use simplykb.Database.Post.{Ensures, >>=-Ensures, pure-Ensures}
use simplykb.Database.Calls.{Stable, Untouched}
use simplykb.Documents.Prepare.{vector_literal}
use simplykb.Search.Modes.{SearchMode, hybrid, keyword, vector, unset, other}
use simplykb.Search.Requests.{QueryEmbeddingCacheStatus}
use simplykb.Search.Hits.{SearchEngine, CandidateHit, keyword_rows, vector_rows}
use simplykb.Search.Fusion.{merge_keyword, merge_vector}
use simplykb.Search.Entries.{merged_of}
use simplykb.Search.Detailed.{
  Accepted, SearchProgress, uses_keyword, uses_vector, start_response, keyword_progress,
  keyword_stage, vector_stage, set_query_embedding_cache_status,
}
use simplykb.Search.Queries.{ReadFrom, search_keyword-Ensures, search_vector-Ensures}

-- The modes that ask by words, and those that ask by a vector.
abbrev pub asks_words : SearchMode → Bool
asks_words hybrid = true
asks_words keyword = true
asks_words vector = false
asks_words unset = false
asks_words (other t) = false

abbrev pub asks_vector : SearchMode → Bool
asks_vector hybrid = true
asks_vector keyword = false
asks_vector vector = true
asks_vector unset = false
asks_vector (other t) = false

pub asks_words-uses_keyword : (m : SearchMode) → asks_words m ≡ uses_keyword m
unfolding uses_keyword
asks_words-uses_keyword hybrid = refl
asks_words-uses_keyword keyword = refl
asks_words-uses_keyword vector = refl
asks_words-uses_keyword unset = refl
asks_words-uses_keyword (other t) = refl

pub asks_vector-uses_vector : (m : SearchMode) → asks_vector m ≡ uses_vector m
unfolding uses_vector
asks_vector-uses_vector hybrid = refl
asks_vector-uses_vector keyword = refl
asks_vector-uses_vector vector = refl
asks_vector-uses_vector unset = refl
asks_vector-uses_vector (other t) = refl

module _ (x : External) (e : SearchEngine x) (J : Db → Type 0) (a : Accepted x e) where
  abbrev constant : ℤ
  constant = a.store.cfg.rrf_constant

  -- The hits of the query by words: read from a database with `J`, or none if the mode has no such
  -- query.
  abbrev pub KeywordAnswer : List (CandidateHit x e) → Type 0
  KeywordAnswer ks =
      if asks_words a.request.mode
      then ReadFrom x e J true (keyword_rows x e a.request a.filter) ks
      else (ks ≡ [])

  abbrev pub VectorAnswer : List x.Float → List (CandidateHit x e) → Type 0
  VectorAnswer v = ReadFrom x e J false (vector_rows x e a.request (vector_literal x v) a.filter)

  -- After the query by words.
  pub record Started (p : SearchProgress x e) : Type 0 where
    pub ks : List (CandidateHit x e)
    pub answer : KeywordAnswer ks
    pub merged : p.merged ≡ merge_keyword x e constant 0 ks []
    pub mode : p.diagnostics.mode ≡ a.request.mode
    pub keyword_count : p.diagnostics.keyword_candidate_count ≡ length ks
    pub vector_count : p.diagnostics.vector_candidate_count ≡ 0

  -- After the vector query with the vector `v`.
  pub record Completed (v : List x.Float) (status : QueryEmbeddingCacheStatus)
      (p : SearchProgress x e) : Type 0 where
    pub ks : List (CandidateHit x e)
    pub vs : List (CandidateHit x e)
    pub by_words : KeywordAnswer ks
    pub by_vector : VectorAnswer v vs
    pub merged : p.merged ≡ merged_of x e constant ks vs
    pub mode : p.diagnostics.mode ≡ a.request.mode
    pub keyword_count : p.diagnostics.keyword_candidate_count ≡ length ks
    pub vector_count : p.diagnostics.vector_candidate_count ≡ length vs
    pub cache_status : p.diagnostics.query_embedding_cache_status ≡ status

  pub keyword_stage-Ensures :
      (deadline : Bool) (w : World)
      → Stable J w
      → Ensures (keyword_stage x e a deadline) w (λ p w'. Started p × Stable J w') (Untouched J)
  unfolding keyword_stage keyword_progress start_response set_query_embedding_cache_status
  keyword_stage-Ensures deadline w st = elim (Bool-cases (uses_keyword a.request.mode)) [
    | inl yes_it ↦
        rw (yes_it, keyword_stage)
          (>>=-Ensures _ _ _ w (search_keyword-Ensures x e J a.request a.filter w st)
            (λ hits w₁ (read, st₁). pure-Ensures _ w₁ (
              record {
                ks = hits;
                answer = rw (asks_words-uses_keyword a.request.mode ∙ yes_it) read;
                merged = refl;
                mode = refl;
                keyword_count = refl;
                vector_count = refl;
              },
              st₁,
            )))
    | inr not_it ↦
        rw (not_it, keyword_stage)
          (pure-Ensures _ w (
            record {
              ks = [];
              answer = rw (asks_words-uses_keyword a.request.mode ∙ not_it) refl;
              merged = unfold merge_keyword in refl;
              mode = refl;
              keyword_count = refl;
              vector_count = refl;
            },
            st,
          ))
  ]

  pub vector_stage-Ensures :
      (v : List x.Float) (status : QueryEmbeddingCacheStatus) (p : SearchProgress x e) (w : World)
      → Started p
      → Stable J w
      → Ensures
          (vector_stage x e a v status p)
          w
          (λ p' w'. Completed v status p' × Stable J w')
          (Untouched J)
  unfolding vector_stage set_query_embedding_cache_status
  vector_stage-Ensures v status p w started st =
      >>=-Ensures _ _ _ w (search_vector-Ensures x e J a.request a.filter v w st)
        (λ hits w₁ (read, st₁). pure-Ensures _ w₁ (
          record {
            ks = started.ks;
            vs = hits;
            by_words = started.answer;
            by_vector = read;
            merged = ap (merge_vector x e constant 0 hits) started.merged;
            mode = started.mode;
            keyword_count = started.keyword_count;
            vector_count = refl;
            cache_status = refl;
          },
          st₁,
        ))
