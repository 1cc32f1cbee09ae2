-- ===== src/Prelude/Sorting.antt =====
-- `sort.Slice` and `ORDER BY`: a list in the order of a Boolean "comes before", and why it does not
-- matter in which order the elements arrive, or which of the possible sorts is used.
use mathlib.Core.Path.{◌≡◌, sym, ap₂}
use mathlib.Core.Bool.{Bool, true, false}
use mathlib.Core.Logic.{inl, inr}
use mathlib.Core.Logic.Or
use mathlib.Core.List.{
  List, [], ◌∷◌, Mem, Perm, Pairwise, Pairwise-singleton, mem-cons, mem-cons_self, mem-cons_of_mem,
  forall_mem-cons,
}
use mathlib.Core.List.Pairwise
use mathlib.Core.List.Perm
use simplykb.Prelude.Tests.{if◌then◌else◌, Bool-cases}

module _ {A : Type 0} (less : A → A → Bool) where
  unfoldable pub insert_sorted : A → List A → List A
  insert_sorted a [] = a ∷ []
  insert_sorted a (b ∷ l) = let rest = insert_sorted a l in if less b a then b ∷ rest else a ∷ b ∷ l

  unfoldable pub sort_slice : List A → List A
  unfolding insert_sorted
  sort_slice [] = []
  sort_slice (a ∷ l) = insert_sorted a (sort_slice l)

  -- The second does not come before the first.
  abbrev pub Precedes : A → A → Type 0
  Precedes a b = less b a ≡ false

  abbrev pub IsSorted : List A → Type 0
  IsSorted = Pairwise Precedes

  -- On the elements of a list, `less` is asymmetric, and "does not come before" is transitive.
  pub record IsOrder (l : List A) : Type 0 where
    pub asym : (a b : A) → Mem a l → Mem b l → less a b ≡ true → less b a ≡ false
    pub trans :
        (a b c : A) → Mem a l → Mem b l → Mem c l → Precedes a b → Precedes b c → Precedes a c

  abbrev IsBelow : A → List A → Type 0
  IsBelow a l = (b : A) → Mem b l → Precedes a b

  IsBelow-cons : {a b : A} {l : List A} → Precedes a b → IsBelow a l → IsBelow a (b ∷ l)
  IsBelow-cons p h = (forall_mem-cons (λ x. hlevel)).1 (p, h)

  IsOrder-of_subset : {l r : List A} → ((a : A) → Mem a l → Mem a r) → IsOrder r → IsOrder l
  IsOrder-of_subset m o = record {
    asym = λ a b ma mb. o.asym a b (m a ma) (m b mb);
    trans = λ a b c ma mb mc. o.trans a b c (m a ma) (m b mb) (m c mc);
  }

  insert_sorted-perm : (a : A) (l : List A) → Perm (insert_sorted a l) (a ∷ l)
  unfolding insert_sorted
  insert_sorted-perm a [] = Perm.rfl
  insert_sorted-perm a (b ∷ l) = elim (Bool-cases (less b a)) [
    | inl e ↦
        rw (e, insert_sorted) (Perm.trans (Perm.cons b (insert_sorted-perm a l)) (Perm.swap a b l))
    | inr e ↦ rw (e, insert_sorted) Perm.rfl
  ]

  -- A sort keeps the elements.
  pub sort_slice-perm : (l : List A) → Perm (sort_slice l) l
  unfolding sort_slice
  sort_slice-perm [] = Perm.rfl
  sort_slice-perm (a ∷ l) =
      Perm.trans (insert_sorted-perm a (sort_slice l)) (Perm.cons a (sort_slice-perm l))

  IsBelow-perm : {a : A} {l r : List A} → Perm l r → IsBelow a r → IsBelow a l
  IsBelow-perm p h x m = h x (Perm.subset p x m)

  insert_sorted-IsSorted :
      (a : A) {l : List A} → IsOrder (a ∷ l) → IsSorted l → IsSorted (insert_sorted a l)
  unfolding insert_sorted
  insert_sorted-IsSorted a o Pairwise.nil = Pairwise-singleton _ a
  insert_sorted-IsSorted a o (Pairwise.cons {a = b} {l = l} below s) =
      elim (Bool-cases (less b a)) [
        | inl e ↦
            let first = o.asym b a (mem-cons_of_mem a mem-cons_self) mem-cons_self e in
            rw (e, insert_sorted)
              (Pairwise.cons
                (IsBelow-perm (insert_sorted-perm a l) (IsBelow-cons {l = l} first below))
                (insert_sorted-IsSorted a (IsOrder-of_subset (skip a b l) o) s))
        | inr e ↦
            rw (e, insert_sorted)
              (Pairwise.cons
                (IsBelow-cons {l = l} e (λ c m.
                  o.trans a b c mem-cons_self (mem-cons_of_mem a mem-cons_self)
                    (mem-cons_of_mem a (mem-cons_of_mem b m)) e (below c m)))
                (Pairwise.cons below s))
      ]
    where
      skip : (a b : A) (l : List A) (c : A) → Mem c (a ∷ l) → Mem c (a ∷ b ∷ l)
      skip a b l =
          (forall_mem-cons (λ x. hlevel)).1
            (mem-cons_self, λ c m. mem-cons_of_mem a (mem-cons_of_mem b m))

  -- A sort by an order sorts.
  pub sort_slice-IsSorted : (l : List A) → IsOrder l → IsSorted (sort_slice l)
  unfolding sort_slice
  sort_slice-IsSorted [] o = Pairwise.nil
  sort_slice-IsSorted (a ∷ l) o =
      insert_sorted-IsSorted a (IsOrder-of_subset (Perm.subset (Perm.cons a (sort_slice-perm l))) o)
        (sort_slice-IsSorted l (IsOrder-of_subset (λ c m. mem-cons_of_mem a m) o))

  -- Of two elements, neither comes before the other only if they are one.
  abbrev pub IsStrict : List A → Type 0
  IsStrict l = (a b : A) → Mem a l → Mem b l → Precedes a b → Precedes b a → a ≡ b

  -- A list has one order, if no two elements tie.
  pub IsSorted-unique :
      IsSet A → {l r : List A} → IsStrict l → IsSorted l → IsSorted r → Perm l r → l ≡ r
  IsSorted-unique is_set {l = []} d sl sr p = sym (Perm.eq-nil (Perm.symm p))
  IsSorted-unique is_set {l = a ∷ l} {r = []} d sl sr p = Perm.eq-nil p
  IsSorted-unique is_set {l = a ∷ l} {r = b ∷ r} d sl sr p =
      let there : Mem b (a ∷ l) = Perm.subset (Perm.symm p) b mem-cons_self in
      let heads : a ≡ b = heads_eq is_set d sl sr p in
      let tails = Perm.cons_inv (Perm.trans p (Perm.symm (Perm.cons' heads Perm.rfl))) in
      ap₂ ◌∷◌ heads (
        IsSorted-unique is_set {l = l} {r = r}
          (λ x y mx my. d x y (mem-cons_of_mem a mx) (mem-cons_of_mem a my)) (Pairwise.of_cons sl)
          (Pairwise.of_cons sr) tails)
    where
      heads_eq :
          IsSet A
          → {a b : A} {l r : List A} → IsStrict (a ∷ l)
          → IsSorted (a ∷ l)
          → IsSorted (b ∷ r)
          → Perm (a ∷ l) (b ∷ r)
          → a ≡ b
      heads_eq is_set {a} {b} {l} {r} d (Pairwise.cons hl _) (Pairwise.cons hr _) p =
          let b_in : Mem b (a ∷ l) = Perm.subset (Perm.symm p) b mem-cons_self in
          let a_in : Mem a (b ∷ r) = Perm.subset p a mem-cons_self in
          Or.elim (is_set a b) (mem-cons.0 b_in) (λ e. sym e)
            (λ in_l.
              Or.elim (is_set a b) (mem-cons.0 a_in) (λ e. e)
                (λ in_r. d a b mem-cons_self b_in (hl b in_l) (hr a in_r)))
