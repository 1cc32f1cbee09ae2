-- ===== src/Prelude/Keeps.antt =====
-- What a list keeps of another: the elements with a property, in their order.
use mathlib.Core.Logic.{◌⊎◌, inl, inr}
use mathlib.Core.Path.{◌≡◌, refl}
use mathlib.Core.Bool.{Bool, true, false}
use mathlib.Core.List.{List, [], ◌∷◌}
use simplykb.Prelude.Tests.{Bool-cases}
use simplykb.Prelude.Lists.{select}

module _ {A : Type 0} where
  -- The second list is the first without the elements that lack the property.
  abbrev pub Keeps : (A → Type 0) → List A → List A → Type 0
  Keeps P [] kept = kept ≡ []
  Keeps P (a ∷ l) kept =
      (P a × (rest : List A) × (kept ≡ a ∷ rest) × Keeps P l rest) ⊎ ((¬ P a) × Keeps P l kept)

  -- One of the elements has the property.
  abbrev pub Some : (A → Type 0) → List A → Type 0
  Some P [] = ⊥
  Some P (a ∷ l) = P a ⊎ Some P l

  pub select-Keeps :
      (P : A → Type 0) (p : A → Bool)
      → ((a : A) → p a ≡ true → P a)
      → ((a : A) → p a ≡ false → ¬ P a)
      → (l : List A) → Keeps P l (select p l)
  select-Keeps P p yes_of no_of [] = refl
  select-Keeps P p yes_of no_of (a ∷ l) = elim (Bool-cases (p a)) [
    | inl e ↦ inl (yes_of a e, select p l, rw e refl, select-Keeps P p yes_of no_of l)
    | inr e ↦ inr (no_of a e, rw e (select-Keeps P p yes_of no_of l))
  ]
