-- ===== src/Splitter/Loop.antt =====
-- splitter.go: the loops of `Split` and the invariant of its buffer.
use mathlib.Core.List.{append_assoc, append-nil}
use simplykb.Prelude.{
  ℕ, zero, suc, ◌+◌, ◌-◌, ◌≤◌, ◌<◌, ◌≡◌, refl, sym, ap, ◌∙◌, true, false, some, [], ◌∷◌, ◌++◌, ltb,
  ◌==◌, length, take, drop, arith, Bool-cases, inl, inr, length-append, length-drop, length-take,
  take-append-drop, select-append,
}
use simplykb.Text.{Text, solid, is_solid}
use simplykb.Splitter.Model.{Buffer, min, emit_chunk, make_room, fill, append_runes}
use simplykb.Splitter.Progress.{Progress, emit_chunk-Progress}

module _ (chunk_size overlap : ℕ) (smaller : overlap < chunk_size) where
  make_room-Progress :
      (b : Buffer) (t : Text)
      → Progress chunk_size overlap b t
      → Progress chunk_size overlap (make_room chunk_size overlap b) t
        × (length (make_room chunk_size overlap b).current < chunk_size)
  unfolding make_room
  make_room-Progress b t p = elim (Bool-cases (length b.current == chunk_size)) [
    | inl full ↦
        let (q, emptied) = emit_chunk-Progress chunk_size overlap smaller b t p in
        rw full (q, below_full full (emptied (new full)))
    | inr room ↦ rw room (p, ground (arith, p.sized))
  ]
    where
      new : (length b.current == chunk_size) ≡ true → b.has_new_content ≡ true
      new full = ground (arith, p.idle)

      below_full :
          (length b.current == chunk_size) ≡ true
          → length (emit_chunk chunk_size overlap b).current ≤ overlap
          → length (emit_chunk chunk_size overlap b).current < chunk_size
      below_full full h = omega arith

  taken-Progress :
      (input t : Text) (b : Buffer) (n : ℕ)
      → Progress chunk_size overlap b t
      → n ≤ length input
      → length b.current + n ≤ chunk_size
      → Progress chunk_size overlap
          (record b { current = b.current ++ take n input; has_new_content = true })
          (t ++ take n input)
  taken-Progress input t b n p h fits = record {
    sized = omega (arith, length-append b.current (take n input), length-take n input h);
    idle = λ e. absurd (cc);
    numbered = p.numbered;
    chunked = p.chunked;
    old = p.old;
    pending = p.pending ++ take n input;
    spelled = p.spelled;
    parts =
        ap (λ (s : Text). s ++ take n input) p.parts ∙ append_assoc p.old p.pending (take n input);
    repeats = p.repeats;
    short = p.short;
    fresh = λ e. absurd (cc);
    spells = p.spells;
    stream =
        select-append is_solid t (take n input)
        ∙ ap (λ (s : Text). s ++ solid (take n input)) p.stream
        ∙ append_assoc p.spelled (solid p.pending) (solid (take n input))
        ∙ ap (λ (s : Text). p.spelled ++ s) (sym (select-append is_solid p.pending (take n input)));
  }

  fill-Progress :
      (input t : Text) (b : Buffer)
      → Progress chunk_size overlap b t
      → length b.current < chunk_size
      → Progress chunk_size overlap
          (fill chunk_size overlap input b)
          (t ++ take (min (chunk_size - length b.current) (length input)) input)
        × (length (fill chunk_size overlap input b).current < chunk_size)
  unfolding fill min
  fill-Progress input t b p room =
      make_room-Progress _ _ (taken-Progress input t b _ p (ground arith) (ground arith))

  -- With fuel for each rune the loop ends, and the whole input is appended.
  pub append_runes-Progress :
      (fuel : ℕ) (input t : Text) (b : Buffer)
      → length input ≤ fuel
      → Progress chunk_size overlap b t
      → (b' : Buffer) × (append_runes chunk_size overlap fuel input b ≡ some b')
        × Progress chunk_size overlap b' (t ++ input)
  unfolding append_runes
  append_runes-Progress fuel [] t b h p = (b, refl, rw append-nil p)
  append_runes-Progress zero (r ∷ input) t b h p = absurd (omega arith)
  append_runes-Progress (suc fuel) (r ∷ input) t b h p =
      let (q, room) = make_room-Progress b t p in
      let b₁ = make_room chunk_size overlap b in
      let n = min (chunk_size - length b₁.current) (length (r ∷ input)) in
      let (q', _) = fill-Progress (r ∷ input) t b₁ q room in
      let positive : 0 < n = unfold min in ground arith in
      let (b', ran, q'') =
        append_runes-Progress fuel (drop n (r ∷ input)) (t ++ take n (r ∷ input))
          (fill chunk_size overlap (r ∷ input) b₁) (omega (arith, length-drop n (r ∷ input))) q' in
      let inside : ltb chunk_size (length b₁.current) ≡ false = ground arith in
      let whole : (t ++ take n (r ∷ input)) ++ drop n (r ∷ input) ≡ t ++ r ∷ input =
        append_assoc t (take n (r ∷ input)) (drop n (r ∷ input))
        ∙ ap (λ (s : Text). t ++ s) (take-append-drop n (r ∷ input)) in
      (b', rw inside ran, rw whole at q'')
