-- ===== src/Splitter/Progress.antt =====
-- The invariant of the buffer of `Split`: what the chunks and the buffer hold of the text so far.
use mathlib.Core.List.{append-nil}
use simplykb.Prelude.{
  ℕ, ◌-◌, ◌≤◌, ◌<◌, ◌≡◌, refl, sym, ap, ◌∙◌, true, false, not, ◌||◌, [], ◌∷◌, ◌++◌, ◌==◌, length,
  pos, All, All-append, arith, Bool-cases, inl, inr, ◌⊎◌, length-append, length-drop, select-append,
  leb, take, take-append-drop,
}
use simplykb.Text.{
  Text, text_eq, text_eq_iff, trim_space, solid, is_solid, solid-trim_space, length-trim_space-le,
  solid-eq-nil, trim_space-trim_space,
}
use simplykb.Types.{ChunkDraft}
use simplykb.Splitter.Model.{Buffer, tail_runes, emit_chunk}
use simplykb.Splitter.Spells.{
  Ends, Spells, last_solid, Numbered, IsChunk, SpellsAfter-append, last_solid-append,
  Numbered-append,
}

pub length-tail_runes-le : (input : Text) (size : ℕ) → length (tail_runes input size) ≤ size
unfolding tail_runes
length-tail_runes-le input size = ground (arith, length-drop (length input - size) input)

tail_runes-Ends : (input : Text) (size : ℕ) → Ends input (tail_runes input size)
unfolding tail_runes
tail_runes-Ends input size = elim (Bool-cases (leb size 0 || length input == 0)) [
  | inl none_left ↦ (input, rw none_left (sym (append-nil input)))
  | inr some_left ↦ elim (Bool-cases (leb (length input) size)) [
    | inl whole ↦ ([], rw (some_left, whole) refl)
    | inr cut ↦ (
      take (length input - size) input,
      rw (some_left, cut) (sym (take-append-drop (length input - size) input)),
    )
  ]
]

solid-Ends : (t end : Text) → Ends t end → Ends (solid t) (solid end)
solid-Ends t end (front, e) = (solid front, ap solid e ∙ select-append is_solid front end)

length-solid-le : (s : Text) → length (solid s) ≤ length s
length-solid-le [] = omega arith
length-solid-le (r ∷ s) = ground (arith, length-solid-le s)

-- The buffer after the text `t` was appended.
pub record Progress (chunk_size overlap : ℕ) (b : Buffer) (t : Text) : Type 0 where
  pub sized : length b.current ≤ chunk_size
  pub idle : b.has_new_content ≡ false → length b.current ≤ overlap
  pub numbered : Numbered 0 b.chunks
  pub chunked : All (IsChunk chunk_size) b.chunks
  -- The buffer repeats `old` and holds `pending`, which no chunk holds yet.
  pub old : Text
  pub pending : Text
  pub spelled : Text
  pub parts : b.current ≡ old ++ pending
  -- The last chunk ends with `old`.
  pub repeats : Ends (last_solid [] b.chunks) (solid old)
  pub short : length old ≤ overlap
  pub fresh : b.has_new_content ≡ false → pending ≡ []
  pub spells : Spells overlap b.chunks spelled
  pub stream : solid t ≡ spelled ++ solid pending

-- The chunk that `emitChunk` makes.
abbrev draft : Buffer → ChunkDraft
draft b = record { ordinal = pos (length b.chunks); content = trim_space b.current }

module _ (chunk_size overlap : ℕ) (smaller : overlap < chunk_size) where
  emitted :
      (b : Buffer) (t : Text)
      → Progress chunk_size overlap b t
      → text_eq (trim_space b.current) [] ≡ false
      → Progress chunk_size overlap
          (record {
            chunks = b.chunks ++ draft b ∷ [];
            current = tail_runes b.current overlap;
            has_new_content = false;
          })
          t
  emitted b t p filled =
      let tail_short = length-tail_runes-le b.current overlap in
      record {
        sized = omega arith;
        idle = λ _. tail_short;
        numbered = Numbered-append 0 b.chunks _ p.numbered (ap pos (omega arith));
        chunked = All-append (IsChunk chunk_size) b.chunks _ p.chunked (
          record {
            trimmed = trim_space-trim_space b.current;
            filled = λ e. ground arith;
            fits = omega (arith, length-trim_space-le b.current, p.sized);
          },
          tt,
        );
        old = tail_runes b.current overlap;
        pending = [];
        spelled = p.spelled ++ solid p.pending;
        parts = sym (append-nil (tail_runes b.current overlap));
        repeats = rw (last_solid-append [] b.chunks (draft b)) (
            rw (solid-trim_space b.current) (
              solid-Ends b.current (tail_runes b.current overlap)
                (tail_runes-Ends b.current overlap)));
        short = tail_short;
        fresh = λ _. refl;
        spells =
            SpellsAfter-append overlap [] b.chunks _ p.spelled (solid p.old) (solid p.pending)
              p.spells
              (solid-trim_space b.current
                ∙ ap solid p.parts
                ∙ select-append is_solid p.old p.pending)
              p.repeats (omega (arith, length-solid-le p.old, p.short));
        stream = p.stream ∙ sym (append-nil (p.spelled ++ solid p.pending));
      }

  dropped :
      (b : Buffer) (t : Text)
      → Progress chunk_size overlap b t
      → trim_space b.current ≡ []
      → Progress chunk_size overlap (record b { current = []; has_new_content = false }) t
  dropped b t p blank =
      let nothing : solid p.old ++ solid p.pending ≡ [] =
        sym (ap solid p.parts ∙ select-append is_solid p.old p.pending)
        ∙ solid-eq-nil b.current blank in
      record {
        sized = omega arith;
        idle = λ _. omega arith;
        numbered = p.numbered;
        chunked = p.chunked;
        old = [];
        pending = [];
        spelled = p.spelled;
        parts = refl;
        repeats = (last_solid [] b.chunks, sym (append-nil (last_solid [] b.chunks)));
        short = omega arith;
        fresh = λ _. refl;
        spells = p.spells;
        stream =
            p.stream
            ∙ ap (λ (s : Text). p.spelled ++ s)
                (append-eq-nil (solid p.old) (solid p.pending) nothing);
      }
    where
      append-eq-nil : (s u : Text) → s ++ u ≡ [] → u ≡ []
      append-eq-nil [] u h = h
      append-eq-nil (r ∷ s) u h = absurd (omega (arith, ap (length {A = ℕ}) h))

  -- `emitChunk` keeps the invariant, and empties a full buffer down to the overlap.
  pub emit_chunk-Progress :
      (b : Buffer) (t : Text)
      → Progress chunk_size overlap b t
      → Progress chunk_size overlap (emit_chunk chunk_size overlap b) t
        × (b.has_new_content ≡ true → length (emit_chunk chunk_size overlap b).current ≤ overlap)
  unfolding emit_chunk
  emit_chunk-Progress b t p = elim (Bool-cases (length b.current == 0 || not b.has_new_content)) [
    | inl skip ↦ rw skip (p, λ new. ground arith)
    | inr go ↦ elim (Bool-cases (text_eq (trim_space b.current) [])) [
      | inl blank ↦
          rw (go, blank)
            (dropped b t p ((text_eq_iff (trim_space b.current) []).0 blank), λ _. omega arith)
      | inr filled ↦
          rw (go, filled) (emitted b t p filled, λ _. length-tail_runes-le b.current overlap)
    ]
  ]

  emit_chunk_idle :
      (b : Buffer)
      → ((emit_chunk chunk_size overlap b).has_new_content ≡ false)
        ⊎ (length (emit_chunk chunk_size overlap b).current ≡ 0)
  unfolding emit_chunk
  emit_chunk_idle b = elim (Bool-cases (length b.current == 0 || not b.has_new_content)) [
    | inl skip ↦ rw skip (ground arith)
    | inr go ↦ elim (Bool-cases (text_eq (trim_space b.current) [])) [
      | inl blank ↦ rw (go, blank) (inl refl)
      | inr filled ↦ rw (go, filled) (inl refl)
    ]
  ]

  -- After `emitChunk` nothing waits for a chunk.
  pub emit_chunk-pending :
      (b : Buffer) (t : Text) (q : Progress chunk_size overlap (emit_chunk chunk_size overlap b) t)
      → q.pending ≡ []
  emit_chunk-pending b t q = elim (emit_chunk_idle b) [
    | inl idle ↦ q.fresh idle
    | inr empty ↦
        no_runes q.pending
          (omega (arith, ap (length {A = ℕ}) q.parts, length-append q.old q.pending, empty))
  ]
    where
      no_runes : (s : Text) → length s ≡ 0 → s ≡ []
      no_runes [] h = refl
      no_runes (r ∷ s) h = absurd (omega arith)
