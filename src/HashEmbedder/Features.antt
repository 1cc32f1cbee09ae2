-- ===== src/HashEmbedder/Features.antt =====
-- embedder_hash.go: `collectFeatures` and `hashToken`, with package `hash/fnv`.
use Prim.Native.Nat.{bit_xor}
use mathlib.Core.List.{reverse}
use simplykb.Prelude.{
  ℕ, ◌+◌, ◌*◌, ◌/◌, ◌%◌, ◌^◌, ltb, Bool, not, ◌||◌, List, [], ◌∷◌, ◌++◌, if◌then◌else◌, map, select,
}
use simplykb.Text.{Text, runes, text_eq, trim_space, is_space}

-- What package `unicode` knows: `strings.ToLower` and `unicode.IsPunct`.
pub record Unicode : Type 0 where
  pub to_lower : Text → Text
  pub is_punct : ℕ → Bool

-- The bytes of a rune in UTF-8.
unfoldable pub encode_rune : ℕ → List ℕ
encode_rune r =
    if ltb r 0x80
    then r ∷ []
    else if ltb r 0x800
    then (0xc0 + r / 64) ∷ (0x80 + r % 64) ∷ []
    else if ltb r 0x10000
    then (0xe0 + r / 4096) ∷ (0x80 + r / 64 % 64) ∷ (0x80 + r % 64) ∷ []
    else (0xf0 + r / 262144) ∷ (0x80 + r / 4096 % 64) ∷ (0x80 + r / 64 % 64) ∷ (0x80 + r % 64) ∷ []

unfoldable pub utf8 : Text → List ℕ
unfolding encode_rune
utf8 [] = []
utf8 (r ∷ s) = encode_rune r ++ utf8 s

-- The 32-bit FNV-1a hash of bytes, behind a hash.
unfoldable pub hash_bytes : ℕ → List ℕ → ℕ
hash_bytes h [] = h
hash_bytes h (b ∷ bs) = hash_bytes (bit_xor h b * 16777619 % 2 ^ 32) bs

unfoldable pub hash_token : Text → ℕ
unfolding utf8 hash_bytes
hash_token token = hash_bytes 2166136261 (utf8 token)

-- A field ends: it counts if it is not empty; `field` is reversed.
unfoldable pub end_field : Text → List Text → List Text
end_field [] fields = fields
end_field (r ∷ s) fields = reverse (r ∷ s) ∷ fields

-- `strings.FieldsFunc`, behind the reversed start of a field.
unfoldable pub fields_func : (ℕ → Bool) → Text → Text → List Text
unfolding end_field
fields_func separates field [] = end_field field []
fields_func separates field (r ∷ s) =
    let outside = end_field field (fields_func separates [] s) in
    let inside = fields_func separates (r ∷ field) s in if separates r then outside else inside

-- The pairs of neighbours.
unfoldable pub bigrams : Text → List Text
bigrams (a ∷ b ∷ s) = (a ∷ b ∷ []) ∷ bigrams (b ∷ s)
bigrams _ = []

unfoldable pub collect_features : Unicode → Text → List Text
unfolding trim_space fields_func bigrams
collect_features u text =
    let cleaned = u.to_lower (trim_space text) in
    let compact = select (λ r. not (is_space r)) cleaned in
    if text_eq cleaned []
    then runes "<empty>" ∷ []
    else fields_func (λ r. is_space r || u.is_punct r) [] cleaned
      ++ (map (λ r. r ∷ []) compact ++ bigrams compact)
