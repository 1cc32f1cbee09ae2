-- ===== src/Migrations/Parsed.antt =====
-- store.go: `parseVectorDimensions` reads what PostgreSQL prints.
use simplykb.Prelude.{
  ℕ, ℤ, pos, zero, suc, ◌+◌, ◌-◌, ◌*◌, ◌/◌, ◌%◌, ◌^◌, ◌<◌, ◌≤◌, ◌≡◌, ◌≢◌, ◌==◌, refl, sym, ap, ◌∙◌,
  arith, leb_ℤ, ltb, true, false, Bool-cases, inl, inr, some, [], ◌∷◌, ◌++◌,
}
use simplykb.Text.{Text, runes}
use simplykb.Errors.{ok}
use simplykb.Documents.Prepare.{decimal_digits}
use simplykb.Migrations.Dimensions.{
  cut_prefix, cut_last, scan_digits, digits_value, positive_int, atoi, check_parsed_dimensions,
  parse_vector_dimensions, vector_type,
}

cut_last-append : (r : ℕ) (s : Text) → cut_last r (s ++ r ∷ []) ≡ some s
unfolding cut_last
cut_last-append r [] = ground arith
cut_last-append r (a ∷ []) = ground arith
cut_last-append r (a ∷ b ∷ s) = rw (cut_last-append r (b ∷ s), cut_last) refl

scan_digits-append :
    (s : Text) (n m c : ℕ)
    → scan_digits n s ≡ some m
    → c < 10
    → scan_digits n (s ++ (c + 48) ∷ []) ≡ some (m * 10 + c)
unfolding scan_digits
scan_digits-append [] n m c h d = ground arith
scan_digits-append (a ∷ s) n m c h d = ground (arith, scan_digits-append s (n * 10 + (a - 48)) m c)

scan_digits-decimal_digits :
    (fuel n : ℕ) → n < fuel → scan_digits 0 (decimal_digits fuel n) ≡ some n
unfolding decimal_digits scan_digits
scan_digits-decimal_digits zero n h = absurd (omega arith)
scan_digits-decimal_digits (suc fuel) n h = elim (Bool-cases (ltb n 10)) [
  | inl small ↦ rw (small, decimal_digits) (ground arith)
  | inr large ↦
      let rest = scan_digits-decimal_digits fuel (n / 10) (ground arith) in
      let last =
        scan_digits-append (decimal_digits fuel (n / 10)) 0 (n / 10) (n % 10) rest (omega arith) in
      rw (large, decimal_digits) (last ∙ ap some (omega arith))
]

append_nonempty : (s : Text) (c : ℕ) → s ++ c ∷ [] ≢ []
append_nonempty [] c e = absurd (cc)
append_nonempty (a ∷ s) c e = absurd (cc)

decimal_digits_nonempty : (fuel n : ℕ) → decimal_digits (suc fuel) n ≢ []
unfolding decimal_digits
decimal_digits_nonempty fuel n e = elim (Bool-cases (ltb n 10)) [
  | inl small ↦
      let is_nil : (n + 48) ∷ [] ≡ [] = sym (rw (small, decimal_digits) refl) ∙ e in absurd (cc)
  | inr large ↦
      let is_nil : decimal_digits fuel (n / 10) ++ (n % 10 + 48) ∷ [] ≡ [] =
        sym (rw (large, decimal_digits) refl) ∙ e in
      append_nonempty (decimal_digits fuel (n / 10)) (n % 10 + 48) is_nil
]

first_digit : (c : ℕ) (s : Text) (n : ℕ) → scan_digits 0 (c ∷ s) ≡ some n → 48 ≤ c
unfolding scan_digits
first_digit c s n h = ground arith

atoi-scan_digits :
    (s : Text) (n : ℕ) → s ≢ [] → scan_digits 0 s ≡ some n → n < 2 ^ 63 → atoi s ≡ some (pos n)
unfolding atoi digits_value positive_int
atoi-scan_digits [] n f h lt = absurd (f refl)
atoi-scan_digits (c ∷ s) n f h lt =
    let digit : 48 ≤ c = first_digit c s n h in
    let plus : (c == 43) ≡ false = ground arith in
    let minus : (c == 45) ≡ false = ground arith in
    let fits : ltb n (2 ^ 63) ≡ true = ground arith in
    rw (plus, minus) (ap positive_int h ∙ rw (fits, positive_int) refl)

parse_steps :
    (t rest raw : Text) (z : ℤ)
    → cut_prefix (runes "vector(") t ≡ some rest
    → cut_last 41 rest ≡ some raw
    → atoi raw ≡ some z
    → leb_ℤ z (pos 0) ≡ false
    → parse_vector_dimensions t ≡ ok z
unfolding parse_vector_dimensions check_parsed_dimensions
parse_steps t rest raw z front back number positive =
    rw (front, parse_vector_dimensions, back, number, check_parsed_dimensions, positive) refl

-- The dimensions are read back from the type's name that PostgreSQL gives a column of so many
-- dimensions, where there is at least one and they fit an int.
pub parse_vector_dimensions-vector_type :
    (n : ℕ) → 0 < n → n < 2 ^ 63 → parse_vector_dimensions (vector_type n) ≡ ok (pos n)
unfolding vector_type cut_prefix
parse_vector_dimensions-vector_type n positive fits =
    let digits = decimal_digits (suc n) n in
    let parsed : atoi digits ≡ some (pos n) =
      atoi-scan_digits digits n (decimal_digits_nonempty n n)
        (scan_digits-decimal_digits (suc n) n (omega arith)) fits in
    let test : leb_ℤ (pos n) (pos 0) ≡ false = ground arith in
    parse_steps (vector_type n) (digits ++ 41 ∷ []) digits (pos n) refl (cut_last-append 41 digits)
      parsed test
