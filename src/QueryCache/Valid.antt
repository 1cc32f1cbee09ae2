-- ===== src/QueryCache/Valid.antt =====
-- The invariant of the cache, and the list of keys and vectors that it stands for.
use simplykb.Prelude.{
  ℕ, ◌+◌, ◌≤◌, ◌<◌, ◌≡◌, refl, Option, none, some, List, [], ◌∷◌, arith, ◌==◌, if◌then◌else◌,
  length, take, All, ap, ==_iff, Bool-cases, inl, inr, zero, suc,
}
use simplykb.Text.{Text, text_eq, text_discrete}
use simplykb.QueryCache.Model.{
  Element, QueryEmbeddingCache, entry_ref, delete_entry, set_entry, element_at, remove_element,
  back,
}

module _ {ℓ} {F : Type ℓ} where
  -- The reference of the element with a key.
  unfoldable pub key_ref : Text → List (Element F) → Option ℕ
  key_ref k [] = none
  key_ref k (e ∷ l) = if text_eq e.key k then some e.ref else key_ref k l

  -- No key and no reference twice.
  abbrev pub Distinct : List (Element F) → Type ℓ
  Distinct [] = Unit
  Distinct (e ∷ l) = (key_ref e.key l ≡ none) × (element_at e.ref l ≡ none) × Distinct l

  -- The references in use lie below a bound.
  abbrev pub Below : ℕ → List (Element F) → Type 0
  Below n = All (λ e. e.ref < n)

  pub record IsValid (c : QueryEmbeddingCache F) : Type ℓ where
    pub positive : 0 < c.capacity
    pub bounded : length c.ll ≤ c.capacity
    pub distinct : Distinct c.ll
    pub fresh : Below c.next_ref c.ll
    pub agree : (k : Text) → entry_ref k c.entries ≡ key_ref k c.ll

  -- Keys and vectors, most recently used first.
  abbrev pub contents : List (Element F) → List (Text × List F)
  contents [] = []
  contents (e ∷ l) = (e.key, e.vector) ∷ contents l

  unfoldable pub lookup : Text → List (Text × List F) → Option (List F)
  lookup k [] = none
  lookup k ((j, v) ∷ l) = if text_eq j k then some v else lookup k l

  -- The list without the first pair of a key.
  unfoldable pub without : Text → List (Text × List F) → List (Text × List F)
  without k [] = []
  without k ((j, v) ∷ l) = if text_eq j k then l else (j, v) ∷ without k l

  -- What the map says of a key is where the element stands.
  pub locate :
      (k : Text) (r : ℕ) (l : List (Element F))
      → Distinct l
      → key_ref k l ≡ some r
      → (e : Element F) × (element_at r l ≡ some e)
        × (e.key ≡ k)
        × (e.ref ≡ r)
        × (lookup k (contents l) ≡ some e.vector)
        × (contents (remove_element r l) ≡ without k (contents l))
        × (length l ≡ length (remove_element r l) + 1)
  unfolding key_ref element_at remove_element lookup without
  locate k r [] d h = cc
  locate k r (e ∷ l) d h = elim (text_discrete e.key k) [
    | yes p ↦ (e, ground arith, p, ground arith, ground arith, ground arith, ground arith)
    | no p ↦
        let (f, at, key, ref, found, rest, len) = locate k r l d.2 (ground arith) in
        (f, ground arith, key, ref, ground arith, ground arith, ground arith)
  ]

  pub lookup_absent :
      (k : Text) (l : List (Element F)) → key_ref k l ≡ none → lookup k (contents l) ≡ none
  unfolding key_ref lookup
  lookup_absent k [] h = refl
  lookup_absent k (e ∷ l) h = ground (arith, lookup_absent k l)

  pub without_absent :
      (k : Text) (l : List (Element F)) → key_ref k l ≡ none → without k (contents l) ≡ contents l
  unfolding key_ref without
  without_absent k [] h = refl
  without_absent k (e ∷ l) h = ground (arith, without_absent k l)

  -- What is left in the list when the element of a key is taken out.
  pub key_ref-remove_element :
      (k : Text) (r : ℕ) (l : List (Element F)) (q : Text)
      → Distinct l
      → key_ref k l ≡ some r
      → key_ref q (remove_element r l) ≡ (if text_eq k q then none else key_ref q l)
  unfolding key_ref remove_element
  key_ref-remove_element k r [] q d h = cc
  key_ref-remove_element k r (e ∷ l) q d h = elim (text_discrete e.key k) [
    | yes p ↦ ground arith
    | no p ↦
        let (f, at, key, ref, _, _, _) = locate k r l d.2 (ground arith) in
        ground (arith, key_ref-remove_element k r l q d.2)
  ]

  pub element_at-remove_element :
      (r s : ℕ) (l : List (Element F))
      → element_at s l ≡ none
      → element_at s (remove_element r l) ≡ none
  unfolding element_at remove_element
  element_at-remove_element r s [] h = refl
  element_at-remove_element r s (e ∷ l) h = ground (arith, element_at-remove_element r s l)

  pub element_at-remove_element_self :
      (r : ℕ) (l : List (Element F)) → Distinct l → element_at r (remove_element r l) ≡ none
  unfolding element_at remove_element
  element_at-remove_element_self r [] d = refl
  element_at-remove_element_self r (e ∷ l) d =
      ground (arith, element_at-remove_element_self r l d.2)

  pub Below-remove_element :
      (n r : ℕ) (l : List (Element F)) → Below n l → Below n (remove_element r l)
  unfolding remove_element
  Below-remove_element n r [] b = tt
  Below-remove_element n r (e ∷ l) b = elim (Bool-cases (e.ref == r)) [
    | inl same ↦ rw same b.1
    | inr other ↦ rw other (b.0, Below-remove_element n r l b.1)
  ]

  pub Below-element_at : (n : ℕ) (l : List (Element F)) → Below n l → element_at n l ≡ none
  unfolding element_at
  Below-element_at n [] b = refl
  Below-element_at n (e ∷ l) b = ground (arith, Below-element_at n l b.1)

  pub Below-suc : (n : ℕ) (l : List (Element F)) → Below n l → Below (n + 1) l
  Below-suc n [] b = tt
  Below-suc n (e ∷ l) b = (omega arith, Below-suc n l b.1)

  pub key_ref-remove_element-none :
      (k : Text) (r : ℕ) (l : List (Element F))
      → key_ref k l ≡ none
      → key_ref k (remove_element r l) ≡ none
  unfolding key_ref remove_element
  key_ref-remove_element-none k r [] h = refl
  key_ref-remove_element-none k r (e ∷ l) h = ground (arith, key_ref-remove_element-none k r l)

  pub Distinct-remove_element :
      (r : ℕ) (l : List (Element F)) → Distinct l → Distinct (remove_element r l)
  unfolding remove_element
  Distinct-remove_element r [] d = tt
  Distinct-remove_element r (e ∷ l) d = elim (Bool-cases (e.ref == r)) [
    | inl same ↦ rw same d.2
    | inr other ↦ rw other (
      key_ref-remove_element-none e.key r l d.0,
      element_at-remove_element r e.ref l d.1,
      Distinct-remove_element r l d.2,
    )
  ]

  key_ref_behind :
      (e : Element F) (l : List (Element F)) (k : Text) (r : ℕ)
      → key_ref e.key l ≡ none
      → key_ref k l ≡ some r
      → key_ref k (e ∷ l) ≡ some r
  key_ref_behind e l k r absent h =
      unfold key_ref in elim (text_discrete e.key k) [ yes p ↦ absurd (cc) | no p ↦ ground arith ]

  remove_element_behind :
      (e : Element F) (l : List (Element F)) (r : ℕ) (g : Element F)
      → element_at e.ref l ≡ none
      → element_at r l ≡ some g
      → remove_element r (e ∷ l) ≡ e ∷ remove_element r l
  remove_element_behind e l r g absent h =
      unfold remove_element in
      elim (Bool-cases (e.ref == r)) [
        | inl same ↦ let p : e.ref ≡ r = (==_iff e.ref r).0 same in absurd (cc)
        | inr other ↦ rw other
      ]

  -- The last element, and the list without it.
  pub back_lem :
      (n : ℕ) (l : List (Element F))
      → Distinct l
      → length l ≡ suc n
      → (e : Element F) × (back l ≡ some e)
        × (key_ref e.key l ≡ some e.ref)
        × (contents (remove_element e.ref l) ≡ take n (contents l))
  unfolding back key_ref remove_element
  back_lem zero (e ∷ []) d h = (e, refl, ground arith, ground arith)
  back_lem (suc n) (e ∷ f ∷ l) d h =
      let (t, last, key, rest) = back_lem n (f ∷ l) d.2 (omega arith) in
      let (g, at, _, _, _, _, _) = locate t.key t.ref (f ∷ l) d.2 key in
      (
        t,
        last,
        key_ref_behind e (f ∷ l) t.key t.ref d.0 key,
        rw (remove_element_behind e (f ∷ l) t.ref g d.1 at) (ap (◌∷◌ (e.key, e.vector)) rest),
      )
  back_lem n l d h = absurd (omega arith)

pub entry_ref-delete_entry :
    (k q : Text) (m : List (Text × ℕ))
    → entry_ref q (delete_entry k m) ≡ (if text_eq k q then none else entry_ref q m)
unfolding entry_ref delete_entry
entry_ref-delete_entry k q [] = ground arith
entry_ref-delete_entry k q ((j, r) ∷ m) = ground (arith, entry_ref-delete_entry k q m)

pub entry_ref-set_entry :
    (k q : Text) (r : ℕ) (m : List (Text × ℕ))
    → entry_ref q (set_entry k r m) ≡ (if text_eq k q then some r else entry_ref q m)
unfolding entry_ref set_entry
entry_ref-set_entry k q r m = ground (arith, entry_ref-delete_entry k q m)
