-- ===== src/Search/Fused.antt =====
-- rrf.go, store.go: what the map `merged` of `SearchDetailed` holds for each chunk.
use simplykb.Prelude.{
  ℕ, ℤ, suc, ◌≡◌, ◌≢◌, refl, sym, ap, ◌∙◌, Bool-cases, Option-cases, inl, inr, Option, none, some,
  List, [], ◌∷◌, ◌==◌, ==_iff, if◌then◌else◌, All, arith,
}
use simplykb.External.{External}
use simplykb.Search.Hits.{SearchEngine, SearchHit, CandidateHit}
use simplykb.Search.Fusion.{
  Merged, find_hit, set_hit, keyword_hit, vector_hit, add_vector_hit, merge_keyword,
  merge_vector_hit, merge_vector,
}

module _ (x : External) (e : SearchEngine x) where
  abbrev pub Ranked : Type 0
  Ranked = ℕ × SearchHit x e

  -- A chunk's hit in the answer of one query, and its rank there.
  unfoldable pub find_ranked : ℕ → ℕ → List (CandidateHit x e) → Option Ranked
  find_ranked i rank [] = none
  find_ranked i rank (c ∷ cs) =
      let rest = find_ranked i (suc rank) cs in
      if c.internal_id == i then some (rank, c.hit) else rest

  -- The query by words alone.
  unfoldable pub keyword_only : ℤ → Option Ranked → Option (SearchHit x e)
  keyword_only constant none = none
  keyword_only constant (some (rank, h)) = some (keyword_hit x e constant rank h)

  -- What the vector query adds.
  unfoldable pub with_vector : ℤ → Option Ranked → Option (SearchHit x e) → Option (SearchHit x e)
  with_vector constant none o = o
  with_vector constant (some (rank, h)) none = some (vector_hit x e constant rank h)
  with_vector constant (some (rank, h)) (some existing) =
      some (add_vector_hit x e constant rank h existing)

  -- An answer has a chunk at most once.
  abbrev pub DistinctIds : List (CandidateHit x e) → Type 0
  DistinctIds [] = Unit
  DistinctIds (c ∷ cs) =
      All (λ (d : CandidateHit x e). d.internal_id ≢ c.internal_id) cs × DistinctIds cs

  find_hit-set_hit :
      (i j : ℕ) (h : SearchHit x e) (m : Merged x e)
      → find_hit x e i (set_hit x e j h m) ≡ (if j == i then some h else find_hit x e i m)
  unfolding find_hit set_hit
  find_hit-set_hit i j h [] = refl
  find_hit-set_hit i j h (c ∷ m) = elim (Bool-cases (c.internal_id == j)) [
    | inl e ↦ rw (e, set_hit, find_hit) (ground arith)
    | inr e ↦ rw (e, set_hit, find_hit) (ground (arith, find_hit-set_hit i j h m))
  ]

  find_ranked_absent :
      (i rank : ℕ) (cs : List (CandidateHit x e))
      → All (λ (d : CandidateHit x e). d.internal_id ≢ i) cs
      → find_ranked i rank cs ≡ none
  unfolding find_ranked
  find_ranked_absent i rank [] a = refl
  find_ranked_absent i rank (c ∷ cs) a = elim (Bool-cases (c.internal_id == i)) [
    | inl e ↦ absurd (a.0 ((==_iff c.internal_id i).0 e))
    | inr e ↦ rw (e, find_ranked) (find_ranked_absent i (suc rank) cs a.1)
  ]

  -- Of an answer in which a chunk stands once: the chunk's hit if it is there, else what was known.
  or_known : ℤ → Option Ranked → Option (SearchHit x e) → Option (SearchHit x e)
  or_known constant none o = o
  or_known constant (some (rank, h)) o = some (keyword_hit x e constant rank h)

  find_hit-merge_keyword :
      (constant : ℤ) (i rank : ℕ) (cs : List (CandidateHit x e)) (m : Merged x e)
      → DistinctIds cs
      → find_hit x e i (merge_keyword x e constant rank cs m)
        ≡ or_known constant (find_ranked i rank cs) (find_hit x e i m)
  unfolding merge_keyword find_ranked or_known
  find_hit-merge_keyword constant i rank [] m d = refl
  find_hit-merge_keyword constant i rank (c ∷ cs) m d =
      let h = keyword_hit x e constant rank c.hit in
      let m' = set_hit x e c.internal_id h m in
      let rest = find_hit-merge_keyword constant i (suc rank) cs m' d.1 in
      let set = find_hit-set_hit i c.internal_id h m in
      elim (Bool-cases (c.internal_id == i)) [
        | inl same ↦
            let at : c.internal_id ≡ i = (==_iff c.internal_id i).0 same in
            let gone = find_ranked_absent i (suc rank) cs (rw (← at) d.0) in
            rw (same, find_ranked)
              (rest
                ∙ ap (λ o. or_known constant o (find_hit x e i m')) gone
                ∙ (set ∙ ap (λ b. if b then some h else find_hit x e i m) same))
        | inr other ↦
            rw (other, find_ranked)
              (rest
                ∙ ap (or_known constant (find_ranked i (suc rank) cs))
                    (set ∙ ap (λ b. if b then some h else find_hit x e i m) other))
      ]

  pub merge_vector_hit-set_hit :
      (constant : ℤ) (rank : ℕ) (c : CandidateHit x e) (m : Merged x e)
      → (h : SearchHit x e) × (merge_vector_hit x e constant rank c m
          ≡ set_hit x e c.internal_id h m)
        × (with_vector constant (some (rank, c.hit)) (find_hit x e c.internal_id m) ≡ some h)
  unfolding merge_vector_hit with_vector
  merge_vector_hit-set_hit constant rank c m = elim (Option-cases (find_hit x e c.internal_id m)) [
    | inl absent ↦ (
      vector_hit x e constant rank c.hit,
      rw (absent, merge_vector_hit) refl,
      rw (absent, with_vector) refl,
    )
    | inr (h, present) ↦ (
      add_vector_hit x e constant rank c.hit h,
      rw (present, merge_vector_hit) refl,
      rw (present, with_vector) refl,
    )
  ]

  find_hit-merge_vector_hit :
      (constant : ℤ) (i rank : ℕ) (c : CandidateHit x e) (m : Merged x e)
      → find_hit x e i (merge_vector_hit x e constant rank c m) ≡ (
          if c.internal_id == i
          then with_vector constant (some (rank, c.hit)) (find_hit x e i m)
          else find_hit x e i m)
  find_hit-merge_vector_hit constant i rank c m =
      let (h, set, fused) = merge_vector_hit-set_hit constant rank c m in
      let found = ap (find_hit x e i) set ∙ find_hit-set_hit i c.internal_id h m in
      elim (Bool-cases (c.internal_id == i)) [
        | inl same ↦
            let at : c.internal_id ≡ i = (==_iff c.internal_id i).0 same in
            found
            ∙ rw same (
                sym fused
                ∙ ap (λ j. with_vector constant (some (rank, c.hit)) (find_hit x e j m)) at)
        | inr other ↦ found ∙ rw other refl
      ]

  find_hit-merge_vector :
      (constant : ℤ) (i rank : ℕ) (cs : List (CandidateHit x e)) (m : Merged x e)
      → DistinctIds cs
      → find_hit x e i (merge_vector x e constant rank cs m)
        ≡ with_vector constant (find_ranked i rank cs) (find_hit x e i m)
  unfolding merge_vector find_ranked with_vector
  find_hit-merge_vector constant i rank [] m d = refl
  find_hit-merge_vector constant i rank (c ∷ cs) m d =
      let m' = merge_vector_hit x e constant rank c m in
      let rest = find_hit-merge_vector constant i (suc rank) cs m' d.1 in
      let one = find_hit-merge_vector_hit constant i rank c m in
      elim (Bool-cases (c.internal_id == i)) [
        | inl same ↦
            let at : c.internal_id ≡ i = (==_iff c.internal_id i).0 same in
            let gone = find_ranked_absent i (suc rank) cs (rw (← at) d.0) in
            rw (same, find_ranked)
              (rest
                ∙ ap (λ o. with_vector constant o (find_hit x e i m')) gone
                ∙ (one
                    ∙ ap
                        (λ b.
                          if b
                          then with_vector constant (some (rank, c.hit)) (find_hit x e i m)
                          else find_hit x e i m)
                        same))
        | inr other ↦
            rw (other, find_ranked)
              (rest
                ∙ ap (with_vector constant (find_ranked i (suc rank) cs)) (
                    one
                    ∙ ap
                        (λ b.
                          if b
                          then with_vector constant (some (rank, c.hit)) (find_hit x e i m)
                          else find_hit x e i m)
                        other))
      ]

  -- The map that `SearchDetailed` builds from two answers, by the functions of its two loops.
  pub find_hit-merge_both :
      (constant : ℤ) (i : ℕ) (ks vs : List (CandidateHit x e))
      → DistinctIds ks
      → DistinctIds vs
      → find_hit x e i (merge_vector x e constant 0 vs (merge_keyword x e constant 0 ks []))
        ≡ with_vector constant (find_ranked i 0 vs) (keyword_only constant (find_ranked i 0 ks))
  unfolding find_hit
  find_hit-merge_both constant i ks vs dk dv =
      find_hit-merge_vector constant i 0 vs (merge_keyword x e constant 0 ks []) dv
      ∙ ap (with_vector constant (find_ranked i 0 vs))
          (find_hit-merge_keyword constant i 0 ks [] dk ∙ or_nothing (find_ranked i 0 ks))
    where
      or_nothing : (o : Option Ranked) → or_known constant o none ≡ keyword_only constant o
      or_nothing none = unfold or_known in unfold keyword_only in refl
      or_nothing (some (rank, h)) = unfold or_known in unfold keyword_only in refl
