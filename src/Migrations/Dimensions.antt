-- ===== src/Migrations/Dimensions.antt =====
-- store.go: `parseVectorDimensions`, and `strconv.Atoi`.
use simplykb.Prelude.{
  ℕ, ℤ, pos, negsuc, zero, suc, ◌+◌, ◌-◌, ◌*◌, ◌^◌, leb_ℤ, ltb, ◌||◌, ◌==◌, Option, none, some, [],
  ◌∷◌, ◌++◌, if◌then◌else◌,
}
use simplykb.Text.{Text, runes}
use simplykb.Errors.{
  Result, ok, err, unexpected_column_type, dimensions_not_number, dimensions_not_positive,
}
use simplykb.Documents.Prepare.{decimal_digits}

-- `strings.CutPrefix`; `none` is a text without the prefix.
unfoldable pub cut_prefix : Text → Text → Option Text
cut_prefix [] s = some s
cut_prefix (a ∷ p) [] = none
cut_prefix (a ∷ p) (b ∷ s) = let rest = cut_prefix p s in if a == b then rest else none

-- A text without its last character, if that is the given one.
unfoldable pub cut_last : ℕ → Text → Option Text
cut_last r [] = none
cut_last r (a ∷ []) = if a == r then some [] else none
cut_last r (a ∷ b ∷ s) = elim (cut_last r (b ∷ s)) [ none ↦ none | some t ↦ some (a ∷ t) ]

-- Decimal digits behind a number; `none` is a character that is none.
unfoldable pub scan_digits : ℕ → Text → Option ℕ
scan_digits n [] = some n
scan_digits n (c ∷ s) =
    let rest = scan_digits (n * 10 + (c - 48)) s in if ltb c 48 || ltb 57 c then none else rest

-- At least one digit.
unfoldable pub digits_value : Text → Option ℕ
unfolding scan_digits
digits_value [] = none
digits_value (c ∷ s) = scan_digits 0 (c ∷ s)

unfoldable pub positive_int : Option ℕ → Option ℤ
positive_int none = none
positive_int (some n) = if ltb n (2 ^ 63) then some (pos n) else none

unfoldable pub negative_int : Option ℕ → Option ℤ
negative_int none = none
negative_int (some zero) = some (pos 0)
negative_int (some (suc n)) = if ltb n (2 ^ 63) then some (negsuc n) else none

-- `strconv.Atoi`: an optional sign, digits, and the range of an `int`.
unfoldable pub atoi : Text → Option ℤ
unfolding digits_value positive_int negative_int
atoi [] = none
atoi (c ∷ s) =
    if c == 43
    then positive_int (digits_value s)
    else if c == 45
    then negative_int (digits_value s)
    else positive_int (digits_value (c ∷ s))

unfoldable pub check_parsed_dimensions : Text → Option ℤ → Result ℤ
check_parsed_dimensions type_name none = err (dimensions_not_number type_name)
check_parsed_dimensions type_name (some n) =
    if leb_ℤ n (pos 0) then err (dimensions_not_positive n) else ok n

-- The prefix and the suffix do not overlap, since the prefix does not end as the suffix does.
unfoldable pub parse_vector_dimensions : Text → Result ℤ
unfolding cut_prefix cut_last atoi check_parsed_dimensions
parse_vector_dimensions type_name = elim (cut_prefix (runes "vector(") type_name) [
  | none ↦ err (unexpected_column_type type_name)
  | some rest ↦ elim (cut_last 41 rest) [
    | none ↦ err (unexpected_column_type type_name)
    | some raw ↦ check_parsed_dimensions type_name (atoi raw)
  ]
]

-- PostgreSQL's name of the type `vector(n)`.
unfoldable pub vector_type : ℕ → Text
unfolding decimal_digits
vector_type n = runes "vector(" ++ decimal_digits (suc n) n ++ 41 ∷ []
