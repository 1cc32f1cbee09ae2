-- ===== src/Search/Fusion.antt =====
-- rrf.go; store.go: the middle of `SearchDetailed`, which fuses the hits of the two queries.
use simplykb.Prelude.{
  ℕ, ℤ, pos, negsuc, pos_part, leb_ℤ, ltb_ℤ, suc, ◌+◌, ◌-◌, ◌^◌, ltb, Bool, Option, none, some,
  List, [], ◌∷◌, ◌==◌, if◌then◌else◌, map, length, take,
}
use simplykb.Prelude.Sorting.{sort_slice}
use simplykb.Text.{text_eq, text_lt}
use simplykb.External.{External}
use simplykb.Config.{default_rrf_constant}
use simplykb.Search.Hits.{SearchEngine, SearchHit, CandidateHit, clone_hit}

-- The sum of two `int`s that are not negative, which wraps around.
unfoldable pub int_sum : ℕ → ℕ → ℤ
int_sum a b = if ltb (a + b) (2 ^ 63) then pos (a + b) else negsuc (2 ^ 64 - suc (a + b))

-- `constant` in the quotient of `reciprocalRank`.
abbrev pub positive_constant : ℤ → ℕ
positive_constant constant =
    if leb_ℤ constant (pos 0) then pos_part default_rrf_constant else pos_part constant

module _ (x : External) (e : SearchEngine x) where
  unfoldable pub reciprocal_rank : ℤ → ℤ → e.Float64
  unfolding int_sum
  reciprocal_rank rank constant =
      if leb_ℤ rank (pos 0)
      then e.zero_score
      else e.reciprocal (int_sum (positive_constant constant) (pos_part rank))

  -- `merged`, a Go map from internal ids to hits.
  abbrev pub Merged : Type 0
  Merged = List (CandidateHit x e)

  unfoldable pub find_hit : ℕ → Merged → Option (SearchHit x e)
  find_hit i [] = none
  find_hit i (c ∷ m) = let rest = find_hit i m in if c.internal_id == i then some c.hit else rest

  -- `merged[i] = h`
  unfoldable pub set_hit : ℕ → SearchHit x e → Merged → Merged
  set_hit i h [] = record { internal_id = i; hit = h } ∷ []
  set_hit i h (c ∷ m) =
      let rest = set_hit i h m in
      if c.internal_id == i then record { internal_id = i; hit = h } ∷ m else c ∷ rest

  -- A hit that only the query by words has found so far, at a rank that counts from 0.
  unfoldable pub keyword_hit : ℤ → ℕ → SearchHit x e → SearchHit x e
  unfolding reciprocal_rank clone_hit
  keyword_hit constant rank h = record (clone_hit x e h) {
    score = e.add (clone_hit x e h).score (reciprocal_rank (pos (suc rank)) constant);
    keyword_score = h.keyword_score;
  }

  unfoldable pub vector_hit : ℤ → ℕ → SearchHit x e → SearchHit x e
  unfolding reciprocal_rank clone_hit
  vector_hit constant rank h = record (clone_hit x e h) {
    score = e.add (clone_hit x e h).score (reciprocal_rank (pos (suc rank)) constant);
    vector_score = h.vector_score;
  }

  -- The vector query found a hit that is there already.
  unfoldable pub add_vector_hit : ℤ → ℕ → SearchHit x e → SearchHit x e → SearchHit x e
  unfolding reciprocal_rank
  add_vector_hit constant rank h existing = record existing {
    score = e.add existing.score (reciprocal_rank (pos (suc rank)) constant);
    vector_score = h.vector_score;
    snippet = if text_eq existing.snippet [] then h.snippet else existing.snippet;
  }

  -- `for rank, hit := range keywordHits`
  unfoldable pub merge_keyword : ℤ → ℕ → List (CandidateHit x e) → Merged → Merged
  unfolding set_hit keyword_hit
  merge_keyword constant rank [] merged = merged
  merge_keyword constant rank (c ∷ cs) merged =
      merge_keyword constant (suc rank) cs
        (set_hit c.internal_id (keyword_hit constant rank c.hit) merged)

  -- One round of `for rank, hit := range vectorHits`.
  unfoldable pub merge_vector_hit : ℤ → ℕ → CandidateHit x e → Merged → Merged
  unfolding find_hit set_hit vector_hit add_vector_hit
  merge_vector_hit constant rank c merged = elim (find_hit c.internal_id merged) [
    | none ↦ set_hit c.internal_id (vector_hit constant rank c.hit) merged
    | some existing ↦ set_hit c.internal_id (add_vector_hit constant rank c.hit existing) merged
  ]

  unfoldable pub merge_vector : ℤ → ℕ → List (CandidateHit x e) → Merged → Merged
  unfolding merge_vector_hit
  merge_vector constant rank [] merged = merged
  merge_vector constant rank (c ∷ cs) merged =
      merge_vector constant (suc rank) cs (merge_vector_hit constant rank c merged)

  -- The `less` of `sort.Slice`.
  unfoldable pub ranks_before : SearchHit x e → SearchHit x e → Bool
  unfolding text_lt
  ranks_before a b =
      if e.same a.score b.score
      then if text_eq a.document_id b.document_id
        then ltb_ℤ a.chunk_number b.chunk_number
        else text_lt a.document_id b.document_id
      else e.below b.score a.score

  -- `range merged` visits the entries in an order of its own, which `visit` chooses.
  unfoldable pub results_of : (Merged → Merged) → Merged → List (SearchHit x e)
  results_of visit merged = map (λ (c : CandidateHit x e). c.hit) (visit merged)

  unfoldable pub rank_results : ℤ → List (SearchHit x e) → List (SearchHit x e)
  unfolding sort_slice ranks_before
  rank_results limit results =
      let sorted = sort_slice ranks_before results in
      if ltb_ℤ limit (pos (length sorted)) then take (pos_part limit) sorted else sorted
