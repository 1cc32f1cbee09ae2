-- ===== src/Migrations/Refusals.antt =====
-- store.go: the errors of the checks in `Migrate` are errors of the program.
use simplykb.Prelude.{
  ℤ, pos, leb_ℤ, ◌≡◌, ◌≢◌, ap, ◌∙◌, Bool-cases, Option-cases, inl, inr, Option, none, some, List,
  [], ◌∷◌, select, not, if◌then◌else◌,
}
use simplykb.Text.{Text, runes}
use simplykb.Errors.{Error, Result, ok, err, out_of_fuel, missing_extensions, dimension_mismatch}
use simplykb.Database.Rows.{ℤ_eq}
use simplykb.Migrations.Dimensions.{
  cut_prefix, cut_last, atoi, check_parsed_dimensions, parse_vector_dimensions,
}
use simplykb.Migrations.Versions.{required_extension_names, has_text}
use simplykb.Migrations.Migrate.{validate_required_extensions, check_embedding_type}

-- An error that is one of the program.
abbrev pub IsClean : {A : Type 0} → Result A → Type 0
IsClean (ok a) = Unit
IsClean (err problem) = problem ≢ out_of_fuel

pub IsClean-err : {A : Type 0} (r : Result A) (e : Error) → IsClean r → r ≡ err e → e ≢ out_of_fuel
IsClean-err (ok a) e clean is = absurd (cc)
IsClean-err (err problem) e clean is = λ fuel. clean (errors_eq is ∙ fuel)
  where
    errors_eq : {A : Type 0} {a b : Error} → ◌≡◌ {A = Result A} (err a) (err b) → a ≡ b
    errors_eq {A} {a} eq = ap (λ (r : Result A). elim r as (λ _. Error) [ ok _ ↦ a | err p ↦ p ]) eq

pub validate-IsClean : (available : List Text) → IsClean (validate_required_extensions available)
unfolding validate_required_extensions
validate-IsClean available =
    go (select (λ name. not (has_text name available)) required_extension_names)
  where
    go :
        (l : List Text)
        → IsClean {A = Unit {0}}
            (elim l [ [] ↦ ok tt | name ∷ rest ↦ err (missing_extensions (name ∷ rest)) ])
    go [] = tt
    go (name ∷ rest) = λ e. cc

check_parsed_dimensions-IsClean : (t : Text) (o : Option ℤ) → IsClean (check_parsed_dimensions t o)
unfolding check_parsed_dimensions
check_parsed_dimensions-IsClean t none = λ e. cc
check_parsed_dimensions-IsClean t (some z) = elim (Bool-cases (leb_ℤ z (pos 0))) [
  | inl e ↦ rw (e, check_parsed_dimensions) (λ e. cc)
  | inr e ↦ rw (e, check_parsed_dimensions) tt
]

parse-IsClean : (t : Text) → IsClean (parse_vector_dimensions t)
unfolding parse_vector_dimensions
parse-IsClean t = elim (Option-cases (cut_prefix (runes "vector(") t)) [
  | inl absent ↦ rw (absent, parse_vector_dimensions) (λ e. cc)
  | inr (rest, front) ↦ elim (Option-cases (cut_last 41 rest)) [
    | inl absent ↦ rw (front, parse_vector_dimensions, absent) (λ e. cc)
    | inr (raw, back) ↦
        rw (front, parse_vector_dimensions, back) (check_parsed_dimensions-IsClean t (atoi raw))
  ]
]

pub check_embedding_type-IsClean :
    (expected : ℤ) (o : Option Text) → IsClean (check_embedding_type expected o)
unfolding check_embedding_type
check_embedding_type-IsClean expected none = λ e. cc
check_embedding_type-IsClean expected (some t) = go (parse_vector_dimensions t) (parse-IsClean t)
  where
    go :
        (r : Result ℤ)
        → IsClean r
        → IsClean {A = Unit {0}} (elim r [
          | err problem ↦ err problem
          | ok actual ↦
              if ℤ_eq actual expected then ok tt else err (dimension_mismatch actual expected)
        ])
    go (err problem) clean = clean
    go (ok actual) clean = elim (Bool-cases (ℤ_eq actual expected)) [
      | inl e ↦ rw e tt
      | inr e ↦ rw e (λ f. cc)
    ]
