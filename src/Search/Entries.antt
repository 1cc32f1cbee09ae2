-- ===== src/Search/Entries.antt =====
-- store.go: the entries of the map `merged` of `SearchDetailed`, and the hits they come from.
use mathlib.Core.Path.{subst}
use simplykb.Prelude.{
  ℕ, ℤ, suc, ◌≡◌, ◌≢◌, ◌⊎◌, refl, sym, ap, ◌∙◌, Bool-cases, inl, inr, Option, none, some, List, [],
  ◌∷◌, ◌==◌, ==_iff, All, All-both, All-weaken, arith,
}
use simplykb.External.{External}
use simplykb.Search.Hits.{SearchEngine, SearchHit, CandidateHit, clone_hit}
use simplykb.Search.Fusion.{
  Merged, find_hit, set_hit, keyword_hit, vector_hit, add_vector_hit, merge_keyword, merge_vector,
}
use simplykb.Search.Fused.{
  Ranked, find_ranked, keyword_only, with_vector, DistinctIds, merge_vector_hit-set_hit,
  find_hit-merge_both,
}

module _ (x : External) (e : SearchEngine x) where
  set_hit-All :
      (i j : ℕ) (h : SearchHit x e) (m : Merged x e)
      → i ≢ j
      → All (λ (d : CandidateHit x e). d.internal_id ≢ j) m
      → All (λ (d : CandidateHit x e). d.internal_id ≢ j) (set_hit x e i h m)
  unfolding set_hit
  set_hit-All i j h [] n a = (n, tt)
  set_hit-All i j h (c ∷ m) n a = elim (Bool-cases (c.internal_id == i)) [
    | inl same ↦ rw (same, set_hit) (n, a.1)
    | inr other ↦ rw (other, set_hit) (a.0, set_hit-All i j h m n a.1)
  ]

  set_hit-DistinctIds :
      (i : ℕ) (h : SearchHit x e) (m : Merged x e)
      → DistinctIds x e m
      → DistinctIds x e (set_hit x e i h m)
  unfolding set_hit
  set_hit-DistinctIds i h [] d = (tt, tt)
  set_hit-DistinctIds i h (c ∷ m) d = elim (Bool-cases (c.internal_id == i)) [
    | inl same ↦
        let at : c.internal_id ≡ i = (==_iff c.internal_id i).0 same in
        rw (same, set_hit) (rw (← at) d.0, d.1)
    | inr other ↦
        rw (other, set_hit)
          (
            set_hit-All i c.internal_id h m (λ at. ground (arith, at)) d.0,
            set_hit-DistinctIds i h m d.1,
          )
  ]

  merge_keyword-DistinctIds :
      (constant : ℤ) (rank : ℕ) (cs : List (CandidateHit x e)) (m : Merged x e)
      → DistinctIds x e m
      → DistinctIds x e (merge_keyword x e constant rank cs m)
  unfolding merge_keyword
  merge_keyword-DistinctIds constant rank [] m d = d
  merge_keyword-DistinctIds constant rank (c ∷ cs) m d =
      merge_keyword-DistinctIds constant (suc rank) cs _ (set_hit-DistinctIds _ _ m d)

  merge_vector-DistinctIds :
      (constant : ℤ) (rank : ℕ) (cs : List (CandidateHit x e)) (m : Merged x e)
      → DistinctIds x e m
      → DistinctIds x e (merge_vector x e constant rank cs m)
  unfolding merge_vector
  merge_vector-DistinctIds constant rank [] m d = d
  merge_vector-DistinctIds constant rank (c ∷ cs) m d =
      let (h, set, _) = merge_vector_hit-set_hit x e constant rank c m in
      merge_vector-DistinctIds constant (suc rank) cs _
        (subst (DistinctIds x e) (sym set) (set_hit-DistinctIds c.internal_id h m d))

  -- The map has one entry for each key, as a Go map has.
  pub merged-DistinctIds :
      (constant : ℤ) (ks vs : List (CandidateHit x e))
      → DistinctIds x e (merge_vector x e constant 0 vs (merge_keyword x e constant 0 ks []))
  merged-DistinctIds constant ks vs =
      merge_vector-DistinctIds constant 0 vs _ (merge_keyword-DistinctIds constant 0 ks [] tt)

  -- The map `merged` after both queries.
  abbrev pub merged_of : ℤ → List (CandidateHit x e) → List (CandidateHit x e) → Merged x e
  merged_of constant ks vs = merge_vector x e constant 0 vs (merge_keyword x e constant 0 ks [])

  IsFound : Merged x e → CandidateHit x e → Type 0
  IsFound m c = find_hit x e c.internal_id m ≡ some c.hit

  All-IsFound : (m : Merged x e) → DistinctIds x e m → All (IsFound m) m
  unfolding IsFound find_hit
  All-IsFound [] d = tt
  All-IsFound (c ∷ m) d = (
    rw ((==_iff c.internal_id c.internal_id).1 refl, find_hit) refl,
    All-both (λ (k : CandidateHit x e). k.internal_id ≢ c.internal_id) (IsFound m) _ m
        (λ k n f. elim (Bool-cases (c.internal_id == k.internal_id)) [
          | inl same ↦ absurd (n (sym ((==_iff c.internal_id k.internal_id).0 same)))
          | inr other ↦ rw (other, find_hit) f
        ])
        d.0 (All-IsFound m d.1),
  )

  -- What `with_vector` and `keyword_only` say of each entry.
  abbrev pub IsFused :
      ℤ → List (CandidateHit x e) → List (CandidateHit x e) → CandidateHit x e → Type 0
  IsFused constant ks vs c =
      with_vector x e constant (find_ranked x e c.internal_id 0 vs)
        (keyword_only x e constant (find_ranked x e c.internal_id 0 ks))
      ≡ some c.hit

  pub merged-IsFused :
      (constant : ℤ) (ks vs : List (CandidateHit x e))
      → DistinctIds x e ks
      → DistinctIds x e vs
      → All (IsFused constant ks vs) (merged_of constant ks vs)
  unfolding IsFound
  merged-IsFused constant ks vs dk dv =
      All-weaken (IsFound (merged_of constant ks vs)) (IsFused constant ks vs) _
        (λ c found. sym (find_hit-merge_both x e constant c.internal_id ks vs dk dv) ∙ found)
        (All-IsFound (merged_of constant ks vs) (merged-DistinctIds constant ks vs))

  some_hit : {n : ℕ} {h : SearchHit x e} {r : Ranked x e} → some (n, h) ≡ some r → h ≡ r.1
  some_hit {n} {h} {r} eq = ap (λ o. elim o as (λ _. SearchHit x e) [ none ↦ h | some q ↦ q.1 ]) eq

  -- A ranked hit is one of the answer.
  pub find_ranked-All :
      (P : CandidateHit x e → Type 0) (i rank : ℕ) (cs : List (CandidateHit x e))
      → All P cs
      → (r : Ranked x e) → find_ranked x e i rank cs ≡ some r
      → (c : CandidateHit x e) × P c × (c.internal_id ≡ i) × (c.hit ≡ r.1)
  unfolding find_ranked
  find_ranked-All P i rank [] a r h = cc
  find_ranked-All P i rank (c ∷ cs) a r h = elim (Bool-cases (c.internal_id == i)) [
    | inl same ↦
        let h' : ◌≡◌ {A = Option (Ranked x e)} (some (rank, c.hit)) (some r) =
          sym (rw (same, find_ranked) refl) ∙ h in
        (c, a.0, (==_iff c.internal_id i).0 same, some_hit h')
    | inr other ↦ find_ranked-All P i (suc rank) cs a.1 r (sym (rw (other, find_ranked) refl) ∙ h)
  ]

  -- The chunk of a hit: its document and its number there.
  abbrev pub SameChunk : SearchHit x e → SearchHit x e → Type 0
  SameChunk a b = (a.document_id ≡ b.document_id) × (a.chunk_number ≡ b.chunk_number)

  SameChunk-trans : (a b c : SearchHit x e) → a ≡ b → SameChunk b c → SameChunk a c
  SameChunk-trans a b c eq (d, n) =
      (ap (λ h. h.document_id) eq ∙ d, ap (λ h. h.chunk_number) eq ∙ n)

  pub hits_eq : {a b : SearchHit x e} → some a ≡ some b → a ≡ b
  hits_eq {a} eq = ap (λ o. elim o as (λ _. SearchHit x e) [ none ↦ a | some h ↦ h ]) eq

  same_chunk : {a b : SearchHit x e} → some a ≡ some b → SameChunk a b
  same_chunk {a} {b} eq =
      let hit : a ≡ b = hits_eq eq in (ap (λ h. h.document_id) hit, ap (λ h. h.chunk_number) hit)

  fused_chunk :
      (constant : ℤ) (k v : Option (Ranked x e)) (h : SearchHit x e)
      → with_vector x e constant v (keyword_only x e constant k) ≡ some h
      → ((r : Ranked x e) × (k ≡ some r) × SameChunk r.1 h)
        ⊎ ((r : Ranked x e) × (v ≡ some r) × SameChunk r.1 h)
  unfolding with_vector keyword_only keyword_hit vector_hit add_vector_hit clone_hit
  fused_chunk constant none none h eq = cc
  fused_chunk constant (some r) none h eq = inl (r, refl, same_chunk eq)
  fused_chunk constant none (some r) h eq = inr (r, refl, same_chunk eq)
  fused_chunk constant (some r) (some q) h eq = inl (r, refl, same_chunk eq)

  -- An entry's chunk is that of a hit with its id in one of the answers.
  pub origin :
      (P : CandidateHit x e → Type 0) (constant : ℤ) (ks vs : List (CandidateHit x e))
      (c : CandidateHit x e)
      → All P ks
      → All P vs
      → IsFused constant ks vs c
      → (o : CandidateHit x e) × P o × (o.internal_id ≡ c.internal_id) × SameChunk o.hit c.hit
  origin P constant ks vs c ak av fused =
      elim (fused_chunk constant (find_ranked x e c.internal_id 0 ks)
        (find_ranked x e c.internal_id 0 vs) c.hit fused) [
          | inl (r, there, chunk) ↦
              let (o, p, at, hit) = find_ranked-All P c.internal_id 0 ks ak r there in
              (o, p, at, SameChunk-trans o.hit r.1 c.hit hit chunk)
          | inr (r, there, chunk) ↦
              let (o, p, at, hit) = find_ranked-All P c.internal_id 0 vs av r there in
              (o, p, at, SameChunk-trans o.hit r.1 c.hit hit chunk)
        ]
