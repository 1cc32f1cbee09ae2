-- ===== src/Documents/Prepare.antt =====
-- store.go: `validateChunks`, `prepareDocumentWrite`, `chunkKey` and `vectorLiteral`.
use mathlib.Core.List.{reverse}
use simplykb.Prelude.{
  ℕ, zero, suc, ◌+◌, ◌-◌, ◌/◌, ◌%◌, Option, none, some, List, [], ◌∷◌, ◌++◌, map, ltb, ◌==◌,
  if◌then◌else◌, length, ℤ, pos, negsuc, ltb_ℤ,
}
use simplykb.Text.{Text, text_eq, trim_space}
use simplykb.External.{External}
use simplykb.Errors.{
  Error, Result, ok, err, split_content, no_chunks, empty_chunk, chunk_limit, embed_chunks,
  vector_count, vector_dimension, nil_call,
}
use simplykb.Types.{ChunkDraft}
use simplykb.Config.{Config}

-- `none` is a valid list of chunks.
unfoldable pub validate_chunks : List ChunkDraft → ℤ → Option Error
unfolding trim_space
validate_chunks [] max_chars = none
validate_chunks (c ∷ cs) max_chars =
    if text_eq (trim_space c.content) []
    then some (empty_chunk c.ordinal)
    else if ltb_ℤ max_chars (pos (length c.content))
    then some (
        chunk_limit
          (record { ordinal = c.ordinal; actual_chars = length c.content; max_chars = max_chars }))
    else validate_chunks cs max_chars

-- The digits of a number, most significant first; `fuel` is at least their number.
unfoldable pub decimal_digits : ℕ → ℕ → Text
decimal_digits zero n = []
decimal_digits (suc fuel) n =
    let rest = decimal_digits fuel (n / 10) ++ (n % 10 + 48) ∷ [] in
    if ltb n 10 then (n + 48) ∷ [] else rest

unfoldable pub zeros : ℕ → Text
zeros zero = []
zeros (suc n) = 48 ∷ zeros n

-- The digits of `n`, with zeros in front up to a width.
unfoldable pub padded : ℕ → ℕ → Text
unfolding decimal_digits zeros
padded width n = zeros (width - length (decimal_digits (suc n) n)) ++ decimal_digits (suc n) n

-- `%06d`
unfoldable pub format_ordinal : ℤ → Text
unfolding padded
format_ordinal (pos n) = padded 6 n
format_ordinal (negsuc n) = 45 ∷ padded 5 (suc n)

-- `fmt.Sprintf("%s:%06d", documentID, ordinal)`
unfoldable pub chunk_key : Text → ℤ → Text
unfolding format_ordinal
chunk_key document_id ordinal = document_id ++ 58 ∷ format_ordinal ordinal

-- `strings.TrimRight(s, cutset)` for a cutset of one character, on the reversed text
unfoldable pub drop_leading : ℕ → Text → Text
drop_leading r [] = []
drop_leading r (a ∷ s) = if a == r then drop_leading r s else a ∷ s

unfoldable pub trim_right : ℕ → Text → Text
unfolding drop_leading
trim_right r s = reverse (drop_leading r (reverse s))

-- `strings.Join(parts, ",")`
unfoldable pub join_commas : List Text → Text
join_commas [] = []
join_commas (p ∷ []) = p
join_commas (p ∷ q ∷ ps) = p ++ 44 ∷ join_commas (q ∷ ps)

module _ (x : External) where
  unfoldable pub vector_part : x.Float → Text
  unfolding trim_right
  vector_part value =
      let part = trim_right 46 (trim_right 48 (x.format_float value)) in
      if text_eq part [] then 48 ∷ [] else part

  unfoldable pub vector_literal : List x.Float → Text
  unfolding vector_part join_commas
  vector_literal vector = 91 ∷ (join_commas (map vector_part vector) ++ 93 ∷ [])

  -- A chunk and its vector: `chunks[i]` and `vectors[i]` of `preparedDocumentWrite`.
  pub record Prepared : Type 0 where
    pub chunk : ChunkDraft
    pub vector : List x.Float

  -- The loop over the vectors, which all have the configured dimension. `none` is that they have.
  unfoldable pub check_dimensions : ℤ → List (List x.Float) → Option Error
  check_dimensions dimensions [] = none
  check_dimensions dimensions (v ∷ vs) =
      if ltb_ℤ (pos (length v)) dimensions
      then some (vector_dimension (length v))
      else if ltb_ℤ dimensions (pos (length v))
      then some (vector_dimension (length v))
      else check_dimensions dimensions vs

  unfoldable pub pair_up : List ChunkDraft → List (List x.Float) → List Prepared
  pair_up (c ∷ cs) (v ∷ vs) = record { chunk = c; vector = v } ∷ pair_up cs vs
  pair_up _ _ = []

  unfoldable pub check_vectors : ℤ → List ChunkDraft → List (List x.Float) → Result (List Prepared)
  unfolding check_dimensions pair_up
  check_vectors dimensions chunks vectors =
      if length vectors == length chunks
      then elim (check_dimensions dimensions vectors) [
        | some e ↦ err e
        | none ↦ ok (pair_up chunks vectors)
      ]
      else err (vector_count (length vectors) (length chunks))

  unfoldable pub embed_all : Config x → List ChunkDraft → Result (List Prepared)
  unfolding check_vectors
  embed_all c chunks = elim c.embedder [
    | none ↦ err nil_call
    | some e ↦ elim (e.embed (map (λ d. d.content) chunks)) [
      | none ↦ err embed_chunks
      | some vectors ↦ check_vectors c.embedding_dimensions chunks vectors
    ]
  ]

  unfoldable pub check_chunks : Config x → List ChunkDraft → Result (List Prepared)
  unfolding validate_chunks embed_all
  check_chunks c [] = err no_chunks
  check_chunks c (d ∷ ds) = elim (validate_chunks (d ∷ ds) c.max_chunk_chars) [
    | some e ↦ err e
    | none ↦ embed_all c (d ∷ ds)
  ]

  unfoldable pub prepare_document_write : Config x → Text → Result (List Prepared)
  unfolding check_chunks
  prepare_document_write c content = elim c.splitter [
    | none ↦ err nil_call
    | some split ↦ elim (split content) [
      | none ↦ err split_content
      | some chunks ↦ check_chunks c chunks
    ]
  ]
