-- ===== src/Text/Solid.antt =====
-- What `strings.TrimSpace` keeps: every character that is not a space, and a text that is trimmed.
use mathlib.Core.List.{reverse, reverse-append, reverse-reverse, append-nil}
use simplykb.Prelude.{
  ℕ, ◌≡◌, refl, sym, ap, ◌∙◌, Bool, not, [], ◌∷◌, ◌++◌, arith, ◌≤◌, length, select, select-append,
  length-append, Bool-cases, inl, inr,
}
use simplykb.Text.Equality.{Text}
use simplykb.Text.Trim.{is_space, trim_left, trim_space}

abbrev pub is_solid : ℕ → Bool
is_solid r = not (is_space r)

-- The characters of a text that are not spaces, in order.
abbrev pub solid : Text → Text
solid = select is_solid

solid-reverse : (s : Text) → solid (reverse s) ≡ reverse (solid s)
solid-reverse [] = refl
solid-reverse (r ∷ s) =
    rw (reverse-append (r ∷ []) s, select-append is_solid (reverse s) (r ∷ []), solid-reverse s)
      (elim (Bool-cases (is_space r)) [
        | inl e ↦ rw (e, append-nil)
        | inr e ↦ rw e (sym (reverse-append (r ∷ []) (solid s)))
      ])

solid-trim_left : (s : Text) → solid (trim_left s) ≡ solid s
unfolding trim_left
solid-trim_left [] = refl
solid-trim_left (r ∷ s) = ground (arith, solid-trim_left s)

-- Trimming drops spaces alone.
pub solid-trim_space : (s : Text) → solid (trim_space s) ≡ solid s
unfolding trim_space
solid-trim_space s = simp (solid-reverse, solid-trim_left, reverse-reverse)

pub length-trim_left-le : (s : Text) → length (trim_left s) ≤ length s
unfolding trim_left
length-trim_left-le [] = omega arith
length-trim_left-le (r ∷ s) = ground (arith, length-trim_left-le s)

pub length-reverse : (s : Text) → length (reverse s) ≡ length s
length-reverse [] = refl
length-reverse (r ∷ s) =
    rw (reverse-append (r ∷ []) s, length-append) (omega (arith, length-reverse s))

pub length-trim_space-le : (s : Text) → length (trim_space s) ≤ length s
unfolding trim_space
length-trim_space-le s = omega (
  arith,
  length-reverse (trim_left (reverse (trim_left s))),
  length-trim_left-le (reverse (trim_left s)),
  length-reverse (trim_left s),
  length-trim_left-le s,
)

trim_left-suffix : (s : Text) → (p : Text) × (s ≡ p ++ trim_left s)
unfolding trim_left
trim_left-suffix [] = ([], refl)
trim_left-suffix (r ∷ s) = elim (Bool-cases (is_space r)) [
  | inl e ↦ let (p, h) = trim_left-suffix s in (r ∷ p, rw e (ap (◌∷◌ r) h))
  | inr e ↦ ([], rw e)
]

trim_left-trim_left : (s : Text) → trim_left (trim_left s) ≡ trim_left s
unfolding trim_left
trim_left-trim_left [] = refl
trim_left-trim_left (r ∷ s) = elim (Bool-cases (is_space r)) [
  | inl e ↦ rw e (trim_left-trim_left s)
  | inr e ↦ rw (e, e, trim_left)
]

trim_left-prefix : (a b : Text) → trim_left (a ++ b) ≡ a ++ b → trim_left a ≡ a
unfolding trim_left
trim_left-prefix [] b h = refl
trim_left-prefix (r ∷ a) b h = elim (Bool-cases (is_space r)) [
  | inl e ↦ absurd (omega (arith, length-trim_left-le (a ++ b), ap length (rw e at h)))
  | inr e ↦ rw e
]

-- A trimmed text is left as it is by another trim.
pub trim_space-trim_space : (s : Text) → trim_space (trim_space s) ≡ trim_space s
unfolding trim_space
trim_space-trim_space s =
    let u = trim_left s in
    let v = trim_left (reverse u) in
    let (p, h) = trim_left-suffix (reverse u) in
    let whole : u ≡ reverse v ++ reverse p =
      sym (reverse-reverse u) ∙ ap reverse h ∙ reverse-append p v in
    let left : trim_left (reverse v) ≡ reverse v =
      trim_left-prefix (reverse v) (reverse p) (rw (← whole) (trim_left-trim_left s)) in
    ap reverse (
      ap (λ (w : Text). trim_left (reverse w)) left
      ∙ ap trim_left (reverse-reverse v)
      ∙ trim_left-trim_left (reverse u))

trim_left-eq-nil : (s : Text) → solid s ≡ [] → trim_left s ≡ []
unfolding trim_left
trim_left-eq-nil [] h = refl
trim_left-eq-nil (r ∷ s) h = ground (arith, trim_left-eq-nil s)

-- A text without a solid character trims to nothing.
pub trim_space-eq-nil : (s : Text) → solid s ≡ [] → trim_space s ≡ []
unfolding trim_space
trim_space-eq-nil s h = rw (trim_left-eq-nil s h)

-- A text that trims to nothing has no solid character.
pub solid-eq-nil : (s : Text) → trim_space s ≡ [] → solid s ≡ []
solid-eq-nil s h = sym (solid-trim_space s) ∙ ap solid h
