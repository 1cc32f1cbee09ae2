-- ===== src/Splitter/Model.antt =====
-- splitter.go: `DefaultSplitter.Split` and its helpers. The two closures `emitChunk` and
-- `appendRunes` share a buffer, which is passed along. `none` is a fault: a slice out of bounds, or a
-- loop that does not end within its fuel.
use simplykb.Prelude.{
  ℕ, zero, suc, ◌+◌, ◌-◌, ◌/◌, Bool, true, false, not, ◌&&◌, ◌||◌, Option, none, some, List, [],
  ◌∷◌, ◌++◌, ltb, leb, ◌==◌, if◌then◌else◌, length, take, drop, ℤ, pos, leb_ℤ, ltb_ℤ, pos_part,
}
use simplykb.Text.{Text, text_eq, trim_space}
use simplykb.Errors.{Result, ok, err, text_is_empty}
use simplykb.Types.{ChunkDraft, Splitter}
use simplykb.Requests.Names.{normalize_text}

pub record DefaultSplitter : Type 0 where
  pub chunk_size : ℤ
  pub overlap : ℤ

abbrev pub default_chunk_size : ℕ
default_chunk_size = 900

abbrev pub default_overlap : ℕ
default_overlap = 120

unfoldable pub new_default_splitter : DefaultSplitter
new_default_splitter = record { chunk_size = pos default_chunk_size; overlap = pos default_overlap }

-- `chunkSize` and `overlap` as `Split` corrects them.
unfoldable pub effective_chunk_size : ℤ → ℕ
effective_chunk_size size = if leb_ℤ size (pos 0) then default_chunk_size else pos_part size

unfoldable pub effective_overlap : ℤ → ℕ → ℕ
effective_overlap overlap chunk_size =
    let o = if ltb_ℤ overlap (pos 0) then 0 else pos_part overlap in
    if leb chunk_size o then chunk_size / 4 else o

unfoldable pub min : ℕ → ℕ → ℕ
min a b = if ltb a b then a else b

unfoldable pub tail_runes : Text → ℕ → Text
tail_runes input size =
    if leb size 0 || length input == 0
    then []
    else if leb (length input) size
    then input
    else drop (length input - size) input

-- `strings.Split(text, "\n\n")`, with the part read so far
unfoldable pub split_blank_lines : Text → Text → List Text
split_blank_lines part [] = part ∷ []
split_blank_lines part (a ∷ []) = (part ++ a ∷ []) ∷ []
split_blank_lines part (a ∷ b ∷ s) =
    let here = part ∷ split_blank_lines [] s in
    let later = split_blank_lines (part ++ a ∷ []) (b ∷ s) in
    if a == 10 && b == 10 then here else later

unfoldable pub keep_paragraphs : List Text → List Text
unfolding trim_space
keep_paragraphs [] = []
keep_paragraphs (part ∷ parts) =
    if text_eq (trim_space part) []
    then keep_paragraphs parts
    else trim_space part ∷ keep_paragraphs parts

unfoldable pub split_paragraphs : Text → List Text
unfolding split_blank_lines keep_paragraphs
split_paragraphs text = keep_paragraphs (split_blank_lines [] text)

-- What the closures share.
pub record Buffer : Type 0 where
  pub chunks : List ChunkDraft
  pub current : Text
  pub has_new_content : Bool

module _ (chunk_size overlap : ℕ) where
  unfoldable pub emit_chunk : Buffer → Buffer
  unfolding trim_space tail_runes
  emit_chunk b =
      if length b.current == 0 || not b.has_new_content
      then b
      else if text_eq (trim_space b.current) []
      then record b { current = []; has_new_content = false }
      else record {
        chunks =
            b.chunks
            ++ (record { ordinal = pos (length b.chunks); content = trim_space b.current }) ∷ [];
        current = tail_runes b.current overlap;
        has_new_content = false;
      }

  -- The test at the head of the loop, which makes room.
  unfoldable pub make_room : Buffer → Buffer
  unfolding emit_chunk
  make_room b = if length b.current == chunk_size then emit_chunk b else b

  -- The rest of the loop's body.
  unfoldable pub fill : Text → Buffer → Buffer
  unfolding make_room min
  fill input b = make_room (record b {
    current = b.current ++ take (min (chunk_size - length b.current) (length input)) input;
    has_new_content = true;
  })

  -- `appendRunes`. When `current` is longer than the chunk size, `input[:take]` panics.
  unfoldable pub append_runes : ℕ → Text → Buffer → Option Buffer
  unfolding make_room fill min
  append_runes fuel [] b = some b
  append_runes zero (r ∷ input) b = none
  append_runes (suc fuel) (r ∷ input) b =
      let b' = make_room b in
      let taken = min (chunk_size - length b'.current) (length (r ∷ input)) in
      let rest = append_runes fuel (drop taken (r ∷ input)) (fill (r ∷ input) b') in
      if ltb chunk_size (length b'.current) then none else rest

  -- One round of the loop over the paragraphs, behind the first.
  unfoldable pub append_separated : Text → Buffer → Option Buffer
  unfolding append_runes
  append_separated paragraph b =
      if ltb (length b.current + 2) chunk_size
      then elim (append_runes 2 (10 ∷ 10 ∷ []) b) [
        | none ↦ none
        | some b' ↦ append_runes (length paragraph) paragraph b'
      ]
      else append_runes (length paragraph) paragraph b

  unfoldable pub append_all : List Text → Buffer → Option Buffer
  unfolding append_separated
  append_all [] b = some b
  append_all (paragraph ∷ paragraphs) b = elim (append_separated paragraph b) [
    | none ↦ none
    | some b' ↦ append_all paragraphs b'
  ]

  unfoldable pub append_paragraphs : List Text → Buffer → Option Buffer
  unfolding append_runes append_all
  append_paragraphs [] b = some b
  append_paragraphs (paragraph ∷ paragraphs) b =
      elim (append_runes (length paragraph) paragraph b) [
        | none ↦ none
        | some b' ↦ append_all paragraphs b'
      ]

abbrev pub empty_buffer : Buffer
empty_buffer = record { chunks = []; current = []; has_new_content = false }

-- `Split` behind the test for an empty text.
unfoldable pub split_normalized : ℕ → ℕ → Text → Option (Result (List ChunkDraft))
unfolding split_paragraphs append_paragraphs emit_chunk
split_normalized chunk_size overlap normalized =
    elim (append_paragraphs chunk_size overlap (split_paragraphs normalized) empty_buffer) [
      | none ↦ none
      | some b ↦ some (ok (emit_chunk chunk_size overlap b).chunks)
    ]

unfoldable pub split : DefaultSplitter → Text → Option (Result (List ChunkDraft))
unfolding normalize_text effective_chunk_size effective_overlap split_normalized
split s text =
    let chunk_size = effective_chunk_size s.chunk_size in
    if text_eq (normalize_text text) []
    then some (err text_is_empty)
    else split_normalized chunk_size (effective_overlap s.overlap chunk_size) (normalize_text text)

-- `DefaultSplitter` as a `Splitter`.
unfoldable pub default_splitter : DefaultSplitter → Splitter
unfolding split
default_splitter s text = elim (split s text) [
  | none ↦ none
  | some (ok chunks) ↦ some chunks
  | some (err e) ↦ none
]
