-- ===== src/QueryCache/Refine.antt =====
-- The methods of the cache against a list of keys and vectors, most recently used first.
use simplykb.Prelude.{
  ℕ, suc, ◌+◌, ◌≤◌, ◌<◌, ◌≡◌, refl, ap, ◌∙◌, none, some, List, [], ◌∷◌, arith, length, take,
  Bool-cases, Option-cases, inl, inr, leb, zero, sym,
}
use simplykb.Text.{Text}
use simplykb.QueryCache.Model.{
  Element, QueryEmbeddingCache, entry_ref, set_entry, element_at, remove_element, get, put, evict,
}
use simplykb.QueryCache.Valid.{
  key_ref, Distinct, Below, IsValid, contents, lookup, without, locate, lookup_absent,
  without_absent, key_ref-remove_element, element_at-remove_element_self, Below-remove_element,
  Below-element_at, Below-suc, Distinct-remove_element, back_lem, entry_ref-delete_entry,
  entry_ref-set_entry,
}

module _ {ℓ} {F : Type ℓ} where
  -- The pairs of a cache, most recently used first.
  abbrev pub view : QueryEmbeddingCache F → List (Text × List F)
  view c = contents c.ll

  -- A hit moves the pair to the front.
  unfoldable pub recall : Text → List (Text × List F) → List (Text × List F)
  recall k l = elim (lookup k l) [ none ↦ l | some v ↦ (k, v) ∷ without k l ]

  -- A store puts the pair in front and keeps what fits.
  unfoldable pub remember : ℕ → Text → List F → List (Text × List F) → List (Text × List F)
  remember capacity k v l = take capacity ((k, v) ∷ without k l)

  pub length-contents : (l : List (Element F)) → length (contents l) ≡ length l
  length-contents [] = refl
  length-contents (e ∷ l) = ap suc (length-contents l)

  take_all : (n : ℕ) (l : List (Text × List F)) → length l ≤ n → take n l ≡ l
  take_all zero [] h = refl
  take_all zero (e ∷ l) h = absurd (omega arith)
  take_all (suc n) [] h = refl
  take_all (suc n) (e ∷ l) h = ap (◌∷◌ e) (take_all n l (omega arith))

  -- A located element, moved to the front with another vector.
  front-IsValid :
      (c : QueryEmbeddingCache F) (k : Text) (r : ℕ) (e : Element F) (v : List F)
      → IsValid c
      → key_ref k c.ll ≡ some r
      → e.key ≡ k
      → e.ref ≡ r
      → length c.ll ≡ length (remove_element r c.ll) + 1
      → Below c.next_ref (e ∷ [])
      → IsValid (record c { ll = (record e { vector = v }) ∷ remove_element r c.ll })
  front-IsValid c k r e v i h key ref len below = record {
    positive = i.positive;
    bounded = omega (arith, i.bounded);
    distinct = (
      rw key (key_ref-remove_element k r c.ll k i.distinct h ∙ ground arith),
      rw ref (element_at-remove_element_self r c.ll i.distinct),
      Distinct-remove_element r c.ll i.distinct,
    );
    fresh = (below.0, Below-remove_element c.next_ref r c.ll i.fresh);
    agree = λ q.
        unfold key_ref in ground (arith, i.agree q, key_ref-remove_element k r c.ll q i.distinct);
  }

  Below-at :
      (n r : ℕ) (l : List (Element F)) (e : Element F)
      → Below n l
      → element_at r l ≡ some e
      → e.ref < n
  unfolding element_at
  Below-at n r [] e b h = cc
  Below-at n r (f ∷ l) e b h = ground (arith, Below-at n r l e b.1)

  -- `Get` on a valid cache does not fail, returns what the view holds for the key, moves that key to
  -- the front, and keeps the cache valid and its capacity.
  pub get-refines :
      (c : QueryEmbeddingCache F) (k : Text)
      → IsValid c
      → (c' : QueryEmbeddingCache F) × (get c k ≡ some (c', lookup k (view c)))
        × IsValid c'
        × (view c' ≡ recall k (view c))
        × (c'.capacity ≡ c.capacity)
  unfolding get recall
  get-refines c k i = elim (Option-cases (key_ref k c.ll)) [
    | inl miss ↦ (
      c,
      ground (arith, i.agree k, lookup_absent k c.ll),
      i,
      ground (arith, lookup_absent k c.ll),
      refl,
    )
    | inr (r, hit) ↦
        let (e, at, key, ref, found, rest, len) = locate k r c.ll i.distinct hit in
        (
          record c { ll = e ∷ remove_element r c.ll },
          ground (arith, i.agree k),
          front-IsValid c k r e e.vector i hit key ref len
              (Below-at c.next_ref r c.ll e i.fresh at, tt),
          ground arith,
          refl,
        )
  ]

  evict_lem :
      (c : QueryEmbeddingCache F)
      → 0 < c.capacity
      → length c.ll ≤ c.capacity + 1
      → Distinct c.ll
      → Below c.next_ref c.ll
      → ((q : Text) → entry_ref q c.entries ≡ key_ref q c.ll)
      → IsValid (evict c)
        × (view (evict c) ≡ take c.capacity (view c))
        × ((evict c).capacity ≡ c.capacity)
  unfolding evict
  evict_lem c positive len distinct below agree = elim (Bool-cases (leb (length c.ll) c.capacity)) [
    | inl fits ↦ rw fits (
      record {
        positive = positive;
        bounded = ground arith;
        distinct = distinct;
        fresh = below;
        agree = agree;
      },
      sym (take_all c.capacity (view c) (rw length-contents (ground arith))),
      refl,
    )
    | inr full ↦
        let (t, last, key, rest) = back_lem c.capacity c.ll distinct (ground arith) in
        let (_, _, _, _, _, _, shorter) = locate t.key t.ref c.ll distinct key in
        rw (full, last)
          (
            record {
              positive = positive;
              bounded = omega arith;
              distinct = Distinct-remove_element t.ref c.ll distinct;
              fresh = Below-remove_element c.next_ref t.ref c.ll below;
              agree = λ q. ground (
                arith,
                agree q,
                entry_ref-delete_entry t.key q c.entries,
                key_ref-remove_element t.key t.ref c.ll q distinct key,
              );
            },
            rest,
            refl,
          )
  ]

  -- `Put` on a valid cache does not fail, remembers the vector under its key as the most recent one,
  -- drops what is beyond the capacity, and keeps the cache valid and its capacity.
  pub put-refines :
      (c : QueryEmbeddingCache F) (k : Text) (v : List F)
      → IsValid c
      → (c' : QueryEmbeddingCache F) × (put c k v ≡ some c')
        × IsValid c'
        × (view c' ≡ remember c.capacity k v (view c))
        × (c'.capacity ≡ c.capacity)
  unfolding put remember
  put-refines c k v i = elim (Option-cases (key_ref k c.ll)) [
    | inl miss ↦
        let entering : QueryEmbeddingCache F = record c {
          ll = (record { ref = c.next_ref; key = k; vector = v }) ∷ c.ll;
          entries = set_entry k c.next_ref c.entries;
          next_ref = c.next_ref + 1;
        } in
        let (valid, kept, same) =
          evict_lem entering i.positive (omega (arith, i.bounded))
            (miss, Below-element_at c.next_ref c.ll i.fresh, i.distinct)
            (omega arith, Below-suc c.next_ref c.ll i.fresh)
            (λ q.
              unfold key_ref in
              ground (arith, i.agree q, entry_ref-set_entry k q c.next_ref c.entries)) in
        (
          evict entering,
          ground (arith, i.agree k),
          valid,
          rw (without_absent k c.ll miss) kept,
          same,
        )
    | inr (r, hit) ↦
        let (e, at, key, ref, found, rest, len) = locate k r c.ll i.distinct hit in
        (
          record c { ll = (record e { vector = v }) ∷ remove_element r c.ll },
          ground (arith, i.agree k),
          front-IsValid c k r e v i hit key ref len (Below-at c.next_ref r c.ll e i.fresh at, tt),
          rw (key, rest)
              (sym (
                take_all c.capacity ((k, v) ∷ without k (view c)) (
                  omega (
                    arith,
                    i.bounded,
                    ap (length {A = Text × List F}) rest,
                    length-contents (remove_element r c.ll),
                  )))),
          refl,
        )
  ]
