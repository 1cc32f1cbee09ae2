-- ===== src/Search/Cached.antt =====
-- store.go: the vector of a query against a cache that is only a list of what it remembers.
use simplykb.Prelude.{ℕ, ◌≡◌, refl, sym, ap, ◌∙◌, Option, none, some, List, Option-cases, inl, inr}
use simplykb.Text.{Text}
use simplykb.External.{External}
use simplykb.Store.{Store}
use simplykb.QueryCache.{QueryEmbeddingCache, clone_vector, get, put, get_nilable, put_nilable}
use simplykb.QueryCache.Valid.{IsValid, lookup}
use simplykb.QueryCache.Refine.{view, recall, remember, get-refines, put-refines}
use simplykb.Search.Requests.{QueryEmbeddingCacheStatus, hit, miss}
use simplykb.Search.QueryVector.{
  KeyChoice, Found, found, failed, no_key, without_cache, with_cache,
  resolve_query_embedding_cache_key, embed_query, answer_directly, store_vector, search_with_key,
  search_query_vector, Outcome,
}

module _ (x : External) where
  abbrev Memory : Type 0
  Memory = List (Text × List x.Float)

  -- A vector that is remembered is used; another one is embedded, and remembered.
  unfoldable pub consult :
      ℕ
      → Text
      → Found (List x.Float)
      → Memory
      → Memory × Found (List x.Float × QueryEmbeddingCacheStatus)
  unfolding lookup recall remember
  consult capacity k (found v) l = elim (lookup k l) [
    | some u ↦ (recall k l, found (u, hit))
    | none ↦ (remember capacity k v l, found (v, miss))
  ]
  consult capacity k (failed e) l = elim (lookup k l) [
    | some u ↦ (recall k l, found (u, hit))
    | none ↦ (l, failed e)
  ]

  unfoldable pub query_memory :
      Store x → ℕ → Text → Memory → Memory × Found (List x.Float × QueryEmbeddingCacheStatus)
  unfolding consult resolve_query_embedding_cache_key embed_query answer_directly
  query_memory s capacity q l = elim (resolve_query_embedding_cache_key x s q) [
    | no_key e ↦ (l, failed e)
    | without_cache status ↦ (l, answer_directly x status (embed_query x s q))
    | with_cache k ↦ consult capacity k (embed_query x s q) l
  ]

  -- The outcome that a memory describes: a valid cache with that memory, and its result.
  abbrev pub Describes :
      ℕ → Memory × Found (List x.Float × QueryEmbeddingCacheStatus) → Option (Outcome x) → Type 0
  Describes capacity r outcome =
      (c : QueryEmbeddingCache x.Float) × (outcome ≡ some (some c, r.1))
      × IsValid c
      × (view c ≡ r.0)
      × (c.capacity ≡ capacity)

  put_nilable-put :
      (c c₁ : QueryEmbeddingCache x.Float) (k : Text) (v : List x.Float)
      → put c k v ≡ some c₁
      → put_nilable (some c) k v ≡ some (some c₁)
  unfolding put_nilable
  put_nilable-put c c₁ k v h = rw (h, put_nilable) refl

  get_nilable-get :
      (c c₁ : QueryEmbeddingCache x.Float) (k : Text) (r : Option (List x.Float))
      → get c k ≡ some (c₁, r)
      → get_nilable (some c) k ≡ some (some c₁, r)
  unfolding get_nilable
  get_nilable-get c c₁ k r h = rw (h, get_nilable) refl

  remembered :
      (n : ℕ) (k : Text) (e : Found (List x.Float)) (l : Memory) (u : List x.Float)
      → lookup k l ≡ some u
      → ((consult n k e l).0 ≡ recall k l) × (found (u, hit) ≡ (consult n k e l).1)
  unfolding consult
  remembered n k (found v) l u h = (rw (h, consult) refl, rw (h, consult) refl)
  remembered n k (failed v) l u h = (rw (h, consult) refl, rw (h, consult) refl)

  recall_absent : (k : Text) (l : Memory) → lookup k l ≡ none → recall k l ≡ l
  unfolding recall
  recall_absent k l h = rw (h, recall) refl

  store_vector-Describes :
      (c c₁ : QueryEmbeddingCache x.Float) (k : Text) (e : Found (List x.Float))
      → IsValid c₁
      → view c₁ ≡ view c
      → c₁.capacity ≡ c.capacity
      → lookup k (view c) ≡ none
      → Describes c.capacity (consult c.capacity k e (view c)) (store_vector x (some c₁) k e)
  unfolding store_vector consult
  store_vector-Describes c c₁ k (failed e) valid same size absent =
      rw (absent, consult, store_vector) (c₁, refl, valid, same, size)
  store_vector-Describes c c₁ k (found v) valid same size absent =
      let (c₂, stored, valid₂, view₂, size₂) = put-refines c₁ k v valid in
      let done : put_nilable (some c₁) k v ≡ some (some c₂) = put_nilable-put c₁ c₂ k v stored in
      rw (absent, done, consult, store_vector)
        (c₂, unfold clone_vector in refl, valid₂, view₂ ∙ rw (same, size) refl, size₂ ∙ size)

  search_with_key-Describes :
      (c : QueryEmbeddingCache x.Float) (k : Text) (e : Found (List x.Float))
      → IsValid c
      → Describes c.capacity (consult c.capacity k e (view c)) (search_with_key x (some c) k e)
  unfolding search_with_key
  search_with_key-Describes c k e valid =
      let (c₁, got, valid₁, view₁, size) = get-refines c k valid in
      elim (Option-cases (lookup k (view c))) [
        | inl absent ↦
            let here : get_nilable (some c) k ≡ some (some c₁, none) =
              get_nilable-get c c₁ k none (got ∙ ap (λ r. some (c₁, r)) absent) in
            let same : view c₁ ≡ view c = view₁ ∙ recall_absent k (view c) absent in
            rw (here, search_with_key) (store_vector-Describes c c₁ k e valid₁ same size absent)
        | inr (u, present) ↦
            let here : get_nilable (some c) k ≡ some (some c₁, some u) =
              get_nilable-get c c₁ k (some u) (got ∙ ap (λ r. some (c₁, r)) present) in
            rw (here, search_with_key)
              (
                c₁,
                ap (λ r. some (some c₁, r)) (remembered c.capacity k e (view c) u present).1,
                valid₁,
                view₁ ∙ sym (remembered c.capacity k e (view c) u present).0,
                size,
              )
      ]

  -- `searchQueryVector` on a store with a valid cache does not panic in the cache, keeps it valid, and
  -- answers and remembers as the list of remembered vectors says.
  pub search_query_vector-Describes :
      (s : Store x) (c : QueryEmbeddingCache x.Float) (q : Text)
      → s.query_cache ≡ some c
      → IsValid c
      → Describes c.capacity (query_memory s c.capacity q (view c)) (search_query_vector x s q)
  unfolding query_memory search_query_vector
  search_query_vector-Describes s c q there valid =
      by_key (resolve_query_embedding_cache_key x s q) refl
    where
      by_key :
          (o : KeyChoice)
          → resolve_query_embedding_cache_key x s q ≡ o
          → Describes c.capacity (query_memory s c.capacity q (view c)) (search_query_vector x s q)
      by_key (no_key e) h =
          rw (h, search_query_vector, query_memory)
            (c, ap (λ o. some (o, failed e)) there, valid, refl, refl)
      by_key (without_cache status) h =
          rw (h, search_query_vector, query_memory)
            (
              c,
              ap (λ o. some (o, answer_directly x status (embed_query x s q))) there,
              valid,
              refl,
              refl,
            )
      by_key (with_cache k) h =
          rw (h, there, search_query_vector, query_memory)
            (search_with_key-Describes c k (embed_query x s q) valid)
