-- ===== src/Search/Determined.antt =====
-- store.go: the results of `SearchDetailed` follow from the two answers alone.
use mathlib.Core.Path.{subst}
use mathlib.Core.List.{Perm}
use mathlib.Core.List.Perm
use simplykb.Prelude.{
  ℕ, ℤ, pos, negsuc, pos_part, suc, ltb_ℤ, ltb, leb, ◌+◌, ◌-◌, ◌^◌, ◌≡◌, ◌≢◌, refl, sym, ap, ◌∙◌,
  false, Bool-cases, inl, inr, Option, none, some, List, map, take, length, take_all, All, All-map,
  arith,
}
use simplykb.Prelude.Membership.{All-Mem}
use simplykb.Prelude.Sorting.{
  IsSorted, sort_slice, sort_slice-perm, sort_slice-IsSorted, IsSorted-unique,
}
use simplykb.External.{External}
use simplykb.Search.Hits.{SearchEngine, SearchHit, CandidateHit, clone_hit}
use simplykb.Search.Fusion.{
  Merged, int_sum, positive_constant, reciprocal_rank, keyword_hit, vector_hit, add_vector_hit,
  ranks_before, results_of, rank_results,
}
use simplykb.Search.Fused.{Ranked, find_ranked, keyword_only, with_vector, DistinctIds}
use simplykb.Search.Entries.{
  merged_of, IsFused, hits_eq, SameChunk, merged-IsFused, find_ranked-All, origin,
}
use simplykb.Search.Ranking.{
  IsNumber, FloatLaws, OnePerChunk, AllNumbers, ranks_before-IsOrder, ranks_before-IsStrict,
}

int_sum-nonzero : (a b : ℕ) → int_sum a (suc b) ≢ pos 0
unfolding int_sum
int_sum-nonzero a b h = elim (Bool-cases (ltb (a + suc b) (2 ^ 63))) [
  | inl e ↦
      let z : pos (a + suc b) ≡ pos 0 = sym (rw (e, int_sum) refl) ∙ h in
      let n : a + suc b ≡ 0 = ap pos_part z in absurd (omega arith)
  | inr e ↦
      let z : negsuc (2 ^ 64 - suc (a + suc b)) ≡ pos 0 = sym (rw (e, int_sum) refl) ∙ h in
      absurd (cc)
]

module _ (x : External) (e : SearchEngine x) (laws : FloatLaws x e) where
  -- The hits of an answer have no score of their own yet.
  abbrev pub Unscored : CandidateHit x e → Type 0
  Unscored c = c.hit.score ≡ e.zero_score

  score_of : {a h : SearchHit x e} → some a ≡ some h → a.score ≡ h.score
  score_of {a} eq = ap (λ o. elim o as (λ _. e.Float64) [ none ↦ a.score | some q ↦ q.score ]) eq

  reciprocal_rank-positive :
      (n : ℕ) (constant : ℤ)
      → reciprocal_rank x e (pos (suc n)) constant
        ≡ e.reciprocal (int_sum (positive_constant constant) (suc n))
  unfolding reciprocal_rank
  reciprocal_rank-positive n constant =
      let positive : leb (suc n + 0) 0 ≡ false = ground arith in rw positive refl

  first-IsNumber :
      (n : ℕ) (constant : ℤ) (s : e.Float64)
      → s ≡ e.zero_score
      → IsNumber x e (e.add s (reciprocal_rank x e (pos (suc n)) constant))
  first-IsNumber n constant s z =
      rw (z, reciprocal_rank-positive n constant)
        (laws.one_number _ (int_sum-nonzero (positive_constant constant) n))

  second-IsNumber :
      (n m : ℕ) (constant : ℤ) (s : e.Float64)
      → s ≡ e.zero_score
      → IsNumber x e (
          e.add
            (e.add s (reciprocal_rank x e (pos (suc n)) constant))
            (reciprocal_rank x e (pos (suc m)) constant))
  second-IsNumber n m constant s z =
      rw (z, reciprocal_rank-positive n constant, reciprocal_rank-positive m constant)
        (laws.two_number _ _ (int_sum-nonzero (positive_constant constant) n)
          (int_sum-nonzero (positive_constant constant) m))

  fused-IsNumber :
      (constant : ℤ) (k v : Option (Ranked x e)) (h : SearchHit x e)
      → ((r : Ranked x e) → k ≡ some r → r.1.score ≡ e.zero_score)
      → ((r : Ranked x e) → v ≡ some r → r.1.score ≡ e.zero_score)
      → with_vector x e constant v (keyword_only x e constant k) ≡ some h
      → IsNumber x e h.score
  unfolding with_vector keyword_only keyword_hit vector_hit add_vector_hit clone_hit
  fused-IsNumber constant none none h zk zv eq = cc
  fused-IsNumber constant (some r) none h zk zv eq =
      subst (IsNumber x e) (score_of eq) (first-IsNumber r.0 constant r.1.score (zk r refl))
  fused-IsNumber constant none (some r) h zk zv eq =
      subst (IsNumber x e) (score_of eq) (first-IsNumber r.0 constant r.1.score (zv r refl))
  fused-IsNumber constant (some r) (some q) h zk zv eq =
      subst (IsNumber x e) (score_of eq) (second-IsNumber r.0 q.0 constant r.1.score (zk r refl))

  -- Two hits of one chunk have one id, within an answer and between the two.
  abbrev pub Agrees : List (CandidateHit x e) → CandidateHit x e → Type 0
  Agrees cs a =
      All (λ (b : CandidateHit x e). SameChunk x e a.hit b.hit → a.internal_id ≡ b.internal_id) cs

  abbrev pub OneId : List (CandidateHit x e) → List (CandidateHit x e) → Type 0
  OneId ks vs =
      All (λ (a : CandidateHit x e). Agrees ks a × Agrees vs a) ks
      × All (λ (a : CandidateHit x e). Agrees ks a × Agrees vs a) vs

  module _ (constant : ℤ) (ks vs : List (CandidateHit x e)) where
    abbrev Fused : CandidateHit x e → Type 0
    Fused = IsFused x e constant ks vs

    entry-IsNumber :
        All Unscored ks
        → All Unscored vs
        → (c : CandidateHit x e) → Fused c
        → IsNumber x e c.hit.score
    entry-IsNumber zk zv c fused =
        fused-IsNumber constant (find_ranked x e c.internal_id 0 ks)
          (find_ranked x e c.internal_id 0 vs) c.hit (unscored ks zk) (unscored vs zv) fused
      where
        unscored :
            (cs : List (CandidateHit x e))
            → All Unscored cs
            → (r : Ranked x e) → find_ranked x e c.internal_id 0 cs ≡ some r
            → r.1.score ≡ e.zero_score
        unscored cs z r there =
            let (o, zero, _, hit) = find_ranked-All x e Unscored c.internal_id 0 cs z r there in
            sym (ap (λ (h : SearchHit x e). h.score) hit) ∙ zero

    entry_one :
        OneId ks vs
        → (c d : CandidateHit x e) → Fused c
        → Fused d
        → SameChunk x e c.hit d.hit
        → c.hit ≡ d.hit
    entry_one (ok, ov) c d fc fd chunk =
        let (a, (ak, av), ac, chunk_a) = origin x e _ constant ks vs c ok ov fc in
        let (b, agree, bd, chunk_b) = origin x e _ constant ks vs d ak av fd in
        let same : c.internal_id ≡ d.internal_id =
          sym ac
          ∙ (agree (chunk_a.0 ∙ (chunk.0 ∙ sym chunk_b.0), chunk_a.1 ∙ (chunk.1 ∙ sym chunk_b.1))
              ∙ bd) in
        hits_eq x e (
          sym fc
          ∙ ap
              (λ i.
                with_vector x e constant (find_ranked x e i 0 vs)
                  (keyword_only x e constant (find_ranked x e i 0 ks)))
              same
          ∙ fd)

    abbrev hits_of : Merged x e → List (SearchHit x e)
    hits_of m = map (λ (c : CandidateHit x e). c.hit) m

    abbrev merged : Merged x e
    merged = merged_of x e constant ks vs

    entries_numbers :
        All Unscored ks
        → All Unscored vs
        → (m : Merged x e) → All Fused m
        → AllNumbers x e (hits_of m)
    entries_numbers zk zv m fused a =
        All-Mem (λ (h : SearchHit x e). IsNumber x e h.score) (λ h. hlevel) (hits_of m)
          (All-map Fused _ (λ (c : CandidateHit x e). c.hit) m (entry-IsNumber zk zv) fused) a

    entries_one :
        IsSet (SearchHit x e)
        → OneId ks vs
        → (m : Merged x e) → All Fused m
        → OnePerChunk x e (hits_of m)
    entries_one is_set one m fused a b ma mb document number =
        All-Mem (λ (h : SearchHit x e). SameChunk x e h b → h ≡ b) (λ h. hlevel) (hits_of m)
          (All-map Fused _ (λ (c : CandidateHit x e). c.hit) m
            (λ c fc.
              All-Mem (λ (k : SearchHit x e). SameChunk x e c.hit k → c.hit ≡ k) (λ k. hlevel)
                (hits_of m)
                (All-map Fused _ (λ (d : CandidateHit x e). d.hit) m
                  (λ d fd. entry_one one c d fc fd) fused)
                b mb)
            fused)
          a ma (document, number)

    hit_set : IsSet e.Float64 → IsSet x.Metadata → IsSet (SearchHit x e)
    hit_set float_set metadata_set = hlevel

    rank_results-take :
        (limit : ℕ) (l : List (SearchHit x e))
        → rank_results x e (pos limit) l ≡ take limit (sort_slice (ranks_before x e) l)
    unfolding rank_results
    rank_results-take limit l =
        let sorted = sort_slice (ranks_before x e) l in
        elim (Bool-cases (ltb_ℤ (pos limit) (pos (length sorted)))) [
          | inl more ↦ rw (more, rank_results) refl
          | inr few ↦ rw (few, rank_results) (sym (take_all limit sorted (ground arith)))
        ]

    -- Where each answer has a chunk at most once, a chunk has one id in both, and the hits have no
    -- score of their own, the results are the first `limit` ones of any sorted arrangement of the
    -- fused hits: neither the order in which Go visits the map nor the choice of a sort matters.
    pub rank_results_unique :
        IsSet e.Float64
        → IsSet x.Metadata
        → DistinctIds x e ks
        → DistinctIds x e vs
        → All Unscored ks
        → All Unscored vs
        → OneId ks vs
        → (visit : Merged x e → Merged x e) → Perm (visit merged) merged
        → (sorted : List (SearchHit x e)) → Perm sorted (hits_of merged)
        → IsSorted (ranks_before x e) sorted
        → (limit : ℕ)
        → rank_results x e (pos limit) (results_of x e visit merged) ≡ take limit sorted
    unfolding results_of
    rank_results_unique float_set metadata_set dk dv zk zv one visit visits sorted p is_sorted
          limit =
        let fused = merged-IsFused x e constant ks vs dk dv in
        let numbers = entries_numbers zk zv merged fused in
        let ones = entries_one (hit_set float_set metadata_set) one merged fused in
        let results = results_of x e visit merged in
        let here : Perm results (hits_of merged) =
          Perm.map (λ (c : CandidateHit x e). c.hit) visits in
        let mine = sort_slice-perm (ranks_before x e) results in
        let same : Perm sorted (sort_slice (ranks_before x e) results) =
          Perm.trans p (Perm.symm (Perm.trans mine here)) in
        rank_results-take limit results
        ∙ ap (take limit) (
            sym (
              IsSorted-unique (ranks_before x e) (hit_set float_set metadata_set)
                (λ a b ma mb.
                  ranks_before-IsStrict x e laws (hits_of merged) numbers ones a b
                    (Perm.subset p a ma) (Perm.subset p b mb))
                is_sorted
                (sort_slice-IsSorted (ranks_before x e) results
                  (ranks_before-IsOrder x e laws results λ a m. numbers a (Perm.subset here a m)))
                same))
