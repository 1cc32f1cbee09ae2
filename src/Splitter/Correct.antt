-- ===== src/Splitter/Correct.antt =====
-- What `Split` returns.
use mathlib.Core.List.{append_assoc, append-nil, flatten}
use mathlib.Core.Path.{subst}
use simplykb.Prelude.{
  ℕ, ◌+◌, ◌<◌, ◌≡◌, ◌≢◌, ◌↔◌, refl, sym, ap, ◌∙◌, false, some, List, [], ◌∷◌, ◌++◌, ltb, length,
  arith, All, Bool-cases, inl, inr, select-append, ℤ,
}
use simplykb.Text.{Text, text_eq, text_discrete, text_eq_iff, solid, is_solid, is_space}
use simplykb.Errors.{ok, err, text_is_empty}
use simplykb.Types.{ChunkDraft}
use simplykb.Requests.Names.{normalize_text}
use simplykb.Splitter.Model.{
  DefaultSplitter, Buffer, empty_buffer, emit_chunk, append_separated, append_all,
  append_paragraphs, split_blank_lines, split_paragraphs, effective_chunk_size, effective_overlap,
  split_normalized, split,
}
use simplykb.Splitter.Spells.{Spells, Numbered, IsChunk}
use simplykb.Splitter.Progress.{Progress, emit_chunk-Progress, emit_chunk-pending}
use simplykb.Splitter.Loop.{append_runes-Progress}
use simplykb.Splitter.Solid.{
  solid-normalize_text, solid-split_blank_lines, solid-keep_paragraphs, normalize_text-eq-nil,
}

module _ (chunk_size overlap : ℕ) (smaller : overlap < chunk_size) where
  Progress-solid :
      (b : Buffer) (t t' : Text)
      → solid t ≡ solid t'
      → Progress chunk_size overlap b t
      → Progress chunk_size overlap b t'
  Progress-solid b t t' e p = record {
    sized = p.sized;
    idle = p.idle;
    numbered = p.numbered;
    chunked = p.chunked;
    old = p.old;
    pending = p.pending;
    spelled = p.spelled;
    parts = p.parts;
    repeats = p.repeats;
    short = p.short;
    fresh = p.fresh;
    spells = p.spells;
    stream = sym e ∙ p.stream;
  }

  append_separated-Progress :
      (paragraph t : Text) (b : Buffer)
      → Progress chunk_size overlap b t
      → (b' : Buffer) × (append_separated chunk_size overlap paragraph b ≡ some b')
        × Progress chunk_size overlap b' (t ++ paragraph)
  unfolding append_separated is_space
  append_separated-Progress paragraph t b p =
      elim (Bool-cases (ltb (length b.current + 2) chunk_size)) [
        | inl room ↦
            let (b₁, ran, q) =
              append_runes-Progress chunk_size overlap smaller 2 (10 ∷ 10 ∷ []) t b (omega arith)
                p in
            let same : solid (t ++ 10 ∷ 10 ∷ []) ≡ solid t =
              select-append is_solid t (10 ∷ 10 ∷ []) ∙ append-nil (solid t) in
            let (b₂, ran', q') =
              append_runes-Progress chunk_size overlap smaller (length paragraph) paragraph t b₁
                (omega arith) (Progress-solid b₁ _ t same q) in
            (b₂, rw (room, ran) ran', q')
        | inr full ↦
            let (b₂, ran, q) =
              append_runes-Progress chunk_size overlap smaller (length paragraph) paragraph t b
                (omega arith) p in
            (b₂, rw full ran, q)
      ]

  append_all-Progress :
      (paragraphs : List Text) (t : Text) (b : Buffer)
      → Progress chunk_size overlap b t
      → (b' : Buffer) × (append_all chunk_size overlap paragraphs b ≡ some b')
        × Progress chunk_size overlap b' (t ++ flatten paragraphs)
  unfolding append_all flatten
  append_all-Progress [] t b p = (b, refl, rw (append-nil t) p)
  append_all-Progress (paragraph ∷ paragraphs) t b p =
      let (b₁, ran, q) = append_separated-Progress paragraph t b p in
      let (b₂, ran', q') = append_all-Progress paragraphs (t ++ paragraph) b₁ q in
      (b₂, rw (ran, append_all) ran', rw append_assoc at q')

  append_paragraphs-Progress :
      (paragraphs : List Text)
      → (b : Buffer) × (append_paragraphs chunk_size overlap paragraphs empty_buffer ≡ some b)
        × Progress chunk_size overlap b (flatten paragraphs)
  unfolding append_paragraphs flatten
  append_paragraphs-Progress paragraphs = go paragraphs start
    where
      start : Progress chunk_size overlap empty_buffer []
      start = record {
        sized = omega arith;
        idle = λ _. omega arith;
        numbered = tt;
        chunked = tt;
        old = [];
        pending = [];
        spelled = [];
        parts = refl;
        repeats = ([], refl);
        short = omega arith;
        fresh = λ _. refl;
        spells = refl;
        stream = refl;
      }

      go :
          (paragraphs : List Text)
          → Progress chunk_size overlap empty_buffer []
          → (b : Buffer) × (append_paragraphs chunk_size overlap paragraphs empty_buffer ≡ some b)
            × Progress chunk_size overlap b (flatten paragraphs)
      go [] p = (empty_buffer, refl, p)
      go (paragraph ∷ paragraphs) p =
          let (b₁, ran, q) =
            append_runes-Progress chunk_size overlap smaller (length paragraph) paragraph []
              empty_buffer (omega arith) p in
          let (b₂, ran', q') = append_all-Progress paragraphs paragraph b₁ q in
          (b₂, rw (ran, append_paragraphs) ran', q')

  -- The loops end on every text, and the chunks are numbered, trimmed, filled and small enough, and
  -- spell the text.
  split_normalized_lem :
      (text : Text)
      → (chunks : List ChunkDraft) × (split_normalized chunk_size overlap text ≡ some (ok chunks))
        × Numbered 0 chunks
        × All (IsChunk chunk_size) chunks
        × Spells overlap chunks (solid text)
  unfolding split_normalized split_paragraphs
  split_normalized_lem text =
      let (b, ran, p) = append_paragraphs-Progress (split_paragraphs text) in
      let (q, _) = emit_chunk-Progress chunk_size overlap smaller b _ p in
      let c = emit_chunk chunk_size overlap b in
      let done : solid q.pending ≡ [] =
        ap solid (emit_chunk-pending chunk_size overlap smaller b _ q) in
      let whole : q.spelled ≡ solid text =
        sym (append-nil q.spelled)
        ∙ ap (λ (u : Text). q.spelled ++ u) (sym done)
        ∙ sym q.stream
        ∙ solid-keep_paragraphs (split_blank_lines [] text)
        ∙ solid-split_blank_lines [] text in
      (
        c.chunks,
        rw (ran, split_normalized),
        q.numbered,
        q.chunked,
        subst (Spells overlap c.chunks) whole q.spells,
      )

pub effective_overlap-lt :
    (overlap : ℤ) (chunk_size : ℕ)
    → 0 < chunk_size
    → effective_overlap overlap chunk_size < chunk_size
unfolding effective_overlap
effective_overlap-lt overlap chunk_size h = ground arith

pub effective_chunk_size-pos : (size : ℤ) → 0 < effective_chunk_size size
unfolding effective_chunk_size
effective_chunk_size-pos size = ground arith

-- For every splitter and every text with a character that is not a space, `Split` returns chunks: the
-- loops end and no slice is out of bounds. The ordinals count from 0, each chunk is trimmed, not empty
-- and not longer than the chunk size in use, and the chunks spell the text: no character other than
-- spaces is lost or reordered, and each chunk repeats at most `overlap` of them, with which the chunk
-- before it ends.
pub split-Spells :
    (s : DefaultSplitter) (text : Text)
    → solid text ≢ []
    → (chunks : List ChunkDraft) × (split s text ≡ some (ok chunks))
      × (chunks ≢ [])
      × Numbered 0 chunks
      × All (IsChunk (effective_chunk_size s.chunk_size)) chunks
      × Spells (effective_overlap s.overlap (effective_chunk_size s.chunk_size)) chunks (solid text)
unfolding split
split-Spells s text filled =
    let n = effective_chunk_size s.chunk_size in
    let o = effective_overlap s.overlap n in
    let (chunks, ran, numbered, chunked, spells) =
      split_normalized_lem n o
        (effective_overlap-lt s.overlap n (effective_chunk_size-pos s.chunk_size))
        (normalize_text text) in
    let whole : solid (normalize_text text) ≡ solid text = solid-normalize_text text in
    let spells' : Spells o chunks (solid text) = subst (Spells o chunks) whole spells in
    let test : text_eq (normalize_text text) [] ≡ false =
      elim (Bool-cases (text_eq (normalize_text text) [])) [
        | inl blank ↦ absurd (
            filled
              ((normalize_text-eq-nil text).0 ((text_eq_iff (normalize_text text) []).0 blank)))
        | inr e ↦ e
      ] in
    (chunks, rw test ran, some_chunk o chunks spells', numbered, chunked, spells')
  where
    some_chunk : (o : ℕ) (chunks : List ChunkDraft) → Spells o chunks (solid text) → chunks ≢ []
    some_chunk o [] h e = filled h
    some_chunk o (c ∷ cs) h e = cc

-- `Split` refuses a text exactly when it holds nothing but spaces.
pub split-empty_iff :
    (s : DefaultSplitter) (text : Text)
    → (split s text ≡ some (err text_is_empty)) ↔ (solid text ≡ [])
split-empty_iff s text = (
  λ refused. elim (dec_nil (solid text)) [
    | yes nothing ↦ nothing
    | no filled ↦ let (chunks, ran, _, _, _, _) = split-Spells s text filled in absurd (cc)
  ],
  λ nothing.
      let blank : normalize_text text ≡ [] = (normalize_text-eq-nil text).1 nothing in
      unfold split in rw ((text_eq_iff (normalize_text text) []).1 blank) refl,
)
  where
    dec_nil : (t : Text) → Dec (t ≡ [])
    dec_nil t = text_discrete t []
