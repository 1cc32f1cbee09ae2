-- ===== src/QueryCache/Window.antt =====
-- query_cache.go: runs of calls, against the order in which keys were used.
use mathlib.Core.List.{foldl}
use simplykb.Prelude.{
  ℕ, zero, suc, ◌+◌, ◌≤◌, ◌≡◌, refl, ap, sym, ◌∙◌, Option, none, some, List, [], ◌∷◌, arith, length,
  take, ℤ, pos, pos_part, inl, inr, Bool-cases, length-take-le,
}
use simplykb.Text.{Text, text_eq}
use simplykb.QueryCache.Model
use simplykb.QueryCache.Model.{QueryEmbeddingCache, entry_ref}
use simplykb.QueryCache.Valid.{IsValid, contents, lookup, without, key_ref}
use simplykb.QueryCache.Refine.{view, recall, remember, get-refines, put-refines}

pub data Call {ℓ} (F : Type ℓ) : Type ℓ where
  get : Text → Call F
  put : Text → List F → Call F

module _ {ℓ} {F : Type ℓ} where
  -- The calls in order, with the results of the `Get`s.
  unfoldable pub run :
      List (Call F)
      → QueryEmbeddingCache F
      → Option (QueryEmbeddingCache F × List (Option (List F)))
  run [] c = some (c, [])
  run (get k ∷ calls) c = elim (Model.get c k) [
    | none ↦ none
    | some (c', found) ↦ elim (run calls c') [ none ↦ none | some (d, rs) ↦ some (d, found ∷ rs) ]
  ]
  run (put k v ∷ calls) c = elim (Model.put c k v) [ none ↦ none | some c' ↦ run calls c' ]

  module _ (capacity : ℕ) where
    -- A history never forgets. A `Get` uses a key that is among the first `capacity` ones.
    unfoldable pub use_key : List (Text × List F) → Call F → List (Text × List F)
    use_key h (get k) = elim (lookup k (take capacity h)) [
      | none ↦ h
      | some v ↦ (k, v) ∷ without k h
    ]
    use_key h (put k v) = (k, v) ∷ without k h

    -- What the `Get`s return if a key is remembered while it is among the first `capacity` ones.
    unfoldable pub answers : List (Call F) → List (Text × List F) → List (Option (List F))
    unfolding use_key
    answers [] h = []
    answers (get k ∷ calls) h = lookup k (take capacity h) ∷ answers calls (use_key h (get k))
    answers (put k v ∷ calls) h = answers calls (use_key h (put k v))

  take-take : (n : ℕ) (l : List (Text × List F)) → take n (take n l) ≡ take n l
  take-take zero l = refl
  take-take (suc n) [] = refl
  take-take (suc n) (e ∷ l) = ap (◌∷◌ e) (take-take n l)

  take-without-take :
      (n : ℕ) (k : Text) (l : List (Text × List F))
      → take n (without k (take (suc n) l)) ≡ take n (without k l)
  unfolding without
  take-without-take zero k l = refl
  take-without-take (suc n) k [] = refl
  take-without-take (suc n) k (e ∷ l) = elim (Bool-cases (text_eq e.0 k)) [
    | inl same ↦ rw same (take-take (suc n) l)
    | inr other ↦ rw other (ap (◌∷◌ e) (take-without-take n k l))
  ]

  -- To keep the first pairs after a use, the first pairs are all that matters.
  remember-take :
      (n : ℕ) (k : Text) (v : List F) (l : List (Text × List F))
      → remember n k v (take n l) ≡ take n ((k, v) ∷ without k l)
  unfolding remember
  remember-take zero k v l = refl
  remember-take (suc n) k v l = ap (◌∷◌ (k, v)) (take-without-take n k l)

  length-without :
      (k : Text) (l : List (Text × List F)) (v : List F)
      → lookup k l ≡ some v
      → length l ≡ length (without k l) + 1
  unfolding lookup without
  length-without k [] v h = cc
  length-without k (e ∷ l) v h = ground (arith, length-without k l v)

  take_short : (n : ℕ) (l : List (Text × List F)) → length l ≤ n → take n l ≡ l
  take_short zero [] h = refl
  take_short zero (e ∷ l) h = absurd (omega arith)
  take_short (suc n) [] h = refl
  take_short (suc n) (e ∷ l) h = ap (◌∷◌ e) (take_short n l (omega arith))

  -- A hit in a window is a store of the value that was found.
  recall-take :
      (n : ℕ) (k : Text) (h : List (Text × List F))
      → recall k (take n h) ≡ take n (use_key n h (get k))
  unfolding recall use_key
  recall-take n k h = go (lookup k (take n h)) refl
    where
      go :
          (o : Option (List F))
          → lookup k (take n h) ≡ o
          → elim o [ none ↦ take n h | some v ↦ (k, v) ∷ without k (take n h) ]
            ≡ take n (elim o [ none ↦ h | some v ↦ (k, v) ∷ without k h ])
      go none e = refl
      go (some v) e =
          sym (
            take_short n ((k, v) ∷ without k (take n h))
              (omega (arith, length-without k (take n h) v e, length-take-le n h)))
          ∙ (unfold remember in remember-take n k v h)

  run-get :
      (k : Text) (calls : List (Call F)) (c d c' : QueryEmbeddingCache F) (o : Option (List F))
      (rs : List (Option (List F)))
      → Model.get c k ≡ some (d, o)
      → run calls d ≡ some (c', rs)
      → run (get k ∷ calls) c ≡ some (c', o ∷ rs)
  unfolding run
  run-get k calls c d c' o rs step rest = ground arith

  run-put :
      (k : Text) (v : List F) (calls : List (Call F)) (c d c' : QueryEmbeddingCache F)
      (rs : List (Option (List F)))
      → Model.put c k v ≡ some d
      → run calls d ≡ some (c', rs)
      → run (put k v ∷ calls) c ≡ some (c', rs)
  unfolding run
  run-put k v calls c d c' rs step rest = ground arith

  -- No call faults, the cache is the window of the last `n` used keys, and every `Get` answers from
  -- that window.
  pub run-Window :
      (n : ℕ) (calls : List (Call F)) (c : QueryEmbeddingCache F) (h : List (Text × List F))
      → IsValid c
      → c.capacity ≡ n
      → view c ≡ take n h
      → (c' : QueryEmbeddingCache F) × (run calls c ≡ some (c', answers n calls h))
        × IsValid c'
        × (view c' ≡ take n (foldl (use_key n) h calls))
        × (c'.capacity ≡ n)
  unfolding answers
  run-Window n [] c h i cap w = (c, unfold run in refl, i, w, cap)
  run-Window n (get k ∷ calls) c h i cap w =
      let (d, step, valid, seen, same) = get-refines c k i in
      let h' = use_key n h (get k) in
      let (c', rest, valid', seen', cap') =
        run-Window n calls d h' valid (same ∙ cap) (seen ∙ ap (recall k) w ∙ recall-take n k h) in
      let answer : lookup k (view c) ≡ lookup k (take n h) = ap (lookup k) w in
      (c', run-get k calls c d c' _ _ (rw (← answer) step) rest, valid', seen', cap')
  run-Window n (put k v ∷ calls) c h i cap w =
      let (d, step, valid, seen, same) = put-refines c k v i in
      let h' = use_key n h (put k v) in
      let window : view d ≡ take n h' =
        seen
        ∙ ap (λ (m : ℕ). remember m k v (view c)) cap
        ∙ ap (remember n k v) w
        ∙ (unfold use_key in remember-take n k v h) in
      let (c', rest, valid', seen', cap') = run-Window n calls d h' valid (same ∙ cap) window in
      (c', run-put k v calls c d c' _ step rest, valid', seen', cap')

  pub new-IsValid :
      (capacity : ℤ) {c : QueryEmbeddingCache F}
      → Model.new_query_embedding_cache capacity ≡ some c
      → IsValid c × (c.ll ≡ []) × (pos c.capacity ≡ capacity)
  unfolding Model.new_query_embedding_cache entry_ref key_ref
  new-IsValid capacity e = ground arith

  -- A cache made by `newQueryEmbeddingCache` answers every sequence of calls from the window of the
  -- last `capacity` used keys, without a fault, and never holds more than its capacity.
  pub run-new :
      (calls : List (Call F)) (capacity : ℕ) {c : QueryEmbeddingCache F}
      → Model.new_query_embedding_cache (pos capacity) ≡ some c
      → (c' : QueryEmbeddingCache F) × (run calls c ≡ some (c', answers capacity calls []))
        × (view c' ≡ take capacity (foldl (use_key capacity) [] calls))
        × (length c'.ll ≤ capacity)
  run-new calls capacity {c} made =
      let (valid, empty, cap) = new-IsValid (pos capacity) made in
      let same : c.capacity ≡ capacity = ap pos_part cap in
      let (c', ran, valid', seen, cap') =
        run-Window capacity calls c [] valid same
          (ap contents empty ∙ sym (take_short capacity [] (omega arith))) in
      (c', ran, seen, omega (arith, valid'.bounded))
