-- ===== src/Search/Scores.antt =====
-- rrf.go, store.go: the scores in the map `merged` of `SearchDetailed`, written out.
use simplykb.Prelude.{
  ℕ, suc, pos, ◌+◌, ◌^◌, ◌<◌, ◌≡◌, refl, sym, ap, ◌∙◌, arith, false, true, leb_ℤ, ltb, Bool-cases,
  inl, inr, Option, none, some, List, [], ◌∷◌, ◌==◌, if◌then◌else◌, length,
}
use simplykb.Text.{text_eq}
use simplykb.External.{External}
use simplykb.Search.Hits.{SearchEngine, SearchHit, CandidateHit, clone_hit}
use simplykb.Search.Fusion.{
  int_sum, reciprocal_rank, find_hit, merge_keyword, merge_vector, keyword_hit, vector_hit,
  add_vector_hit,
}
use simplykb.Search.Fused.{
  Ranked, find_ranked, keyword_only, with_vector, DistinctIds, find_hit-merge_both,
}

module _ (x : External) (e : SearchEngine x) where
  -- What a rank that counts from 0 adds to a score: `1 / (k + rank + 1)`.
  abbrev pub share : ℕ → ℕ → e.Float64
  share k rank = e.reciprocal (pos (k + suc rank))

  -- The hit of a chunk that the query by words found at one rank, the vector query at another, or only
  -- one of them: the ranks' shares are added to the score that the hit came with. A chunk that both
  -- found keeps what the query by words read, with the other's vector score, and with its snippet if
  -- it has none of its own.
  unfoldable pub fused_hit : ℕ → Option (Ranked x e) → Option (Ranked x e) → Option (SearchHit x e)
  fused_hit k none none = none
  fused_hit k (some (r, h)) none = some (record h { score = e.add h.score (share k r) })
  fused_hit k none (some (q, v)) = some (record v { score = e.add v.score (share k q) })
  fused_hit k (some (r, h)) (some (q, v)) = some (record h {
    score = e.add (e.add h.score (share k r)) (share k q);
    vector_score = v.vector_score;
    snippet = if text_eq h.snippet [] then v.snippet else h.snippet;
  })

  find_ranked-lt :
      (i rank : ℕ) (cs : List (CandidateHit x e)) (r : Ranked x e)
      → find_ranked x e i rank cs ≡ some r
      → r.0 < rank + length cs
  unfolding find_ranked
  find_ranked-lt i rank [] r h = cc
  find_ranked-lt i rank (c ∷ cs) r h = elim (Bool-cases (c.internal_id == i)) [
    | inl same ↦
        let at : rank ≡ r.0 = rank_of r (sym (rw (same, find_ranked) refl) ∙ h) in omega arith
    | inr other ↦
        let later = find_ranked-lt i (suc rank) cs r (sym (rw (other, find_ranked) refl) ∙ h) in
        omega arith
  ]
    where
      rank_of :
          (r : Ranked x e)
          → ◌≡◌ {A = Option (Ranked x e)} (some (rank, c.hit)) (some r)
          → rank ≡ r.0
      rank_of r eq = ap (λ o. elim o as (λ _. ℕ) [ none ↦ rank | some q ↦ q.0 ]) eq

  reciprocal_rank-share :
      (k rank : ℕ)
      → 0 < k
      → k + suc rank < 2 ^ 63
      → reciprocal_rank x e (pos (suc rank)) (pos k) ≡ share k rank
  unfolding reciprocal_rank int_sum
  reciprocal_rank-share k rank positive fits =
      let given : leb_ℤ (pos k) (pos 0) ≡ false = ground arith in
      let ranked : leb_ℤ (pos (suc rank)) (pos 0) ≡ false = ground arith in
      let inside : ltb (k + suc rank) (2 ^ 63) ≡ true = ground arith in
      rw (given, ranked, inside) refl

  fused_hit_lem :
      (k : ℕ) (o p : Option (Ranked x e))
      → ((r : Ranked x e) → o ≡ some r → reciprocal_rank x e (pos (suc r.0)) (pos k) ≡ share k r.0)
      → ((r : Ranked x e) → p ≡ some r → reciprocal_rank x e (pos (suc r.0)) (pos k) ≡ share k r.0)
      → with_vector x e (pos k) p (keyword_only x e (pos k) o) ≡ fused_hit k o p
  unfolding with_vector keyword_only fused_hit keyword_hit vector_hit add_vector_hit clone_hit
  fused_hit_lem k none none ho hp = refl
  fused_hit_lem k (some r) none ho hp = rw (ho r refl) refl
  fused_hit_lem k none (some q) ho hp = rw (hp q refl) refl
  fused_hit_lem k (some r) (some q) ho hp = rw (ho r refl, hp q refl) refl

  -- If each of the two answers has a chunk at most once, and the constant is positive and its sums with
  -- the ranks fit an `int`, the map that `SearchDetailed` builds from the answers has for each chunk the
  -- hit of `fused_hit`: its score is the one it came with plus 1 / (constant + rank) for its rank,
  -- from 1, in each answer that has it.
  pub merge-fuses :
      (k i : ℕ) (ks vs : List (CandidateHit x e))
      → 0 < k
      → k + length ks < 2 ^ 63
      → k + length vs < 2 ^ 63
      → DistinctIds x e ks
      → DistinctIds x e vs
      → find_hit x e i (merge_vector x e (pos k) 0 vs (merge_keyword x e (pos k) 0 ks []))
        ≡ fused_hit k (find_ranked x e i 0 ks) (find_ranked x e i 0 vs)
  merge-fuses k i ks vs positive fits_k fits_v dk dv =
      find_hit-merge_both x e (pos k) i ks vs dk dv
      ∙ fused_hit_lem k (find_ranked x e i 0 ks) (find_ranked x e i 0 vs) (shares ks fits_k)
          (shares vs fits_v)
    where
      shares :
          (cs : List (CandidateHit x e))
          → k + length cs < 2 ^ 63
          → (r : Ranked x e) → find_ranked x e i 0 cs ≡ some r
          → reciprocal_rank x e (pos (suc r.0)) (pos k) ≡ share k r.0
      shares cs fits r there =
          let below = find_ranked-lt i 0 cs r there in
          reciprocal_rank-share k r.0 positive (omega arith)
