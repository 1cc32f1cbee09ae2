-- ===== src/Splitter/Spells.antt =====
-- What the chunks of `Split` are to be: numbered, within the size, and spelling the text.
use mathlib.Core.List.{append_assoc, append-nil}
use simplykb.Prelude.{
  ℕ, suc, ◌+◌, ◌≤◌, ◌≡◌, ◌≢◌, refl, sym, ap, ◌∙◌, List, [], ◌∷◌, ◌++◌, length, pos, arith,
}
use simplykb.Text.{Text, trim_space, solid}
use simplykb.Types.{ChunkDraft}

-- A text ends with another.
abbrev pub Ends : Text → Text → Type 0
Ends t end = (front : Text) × (t ≡ front ++ end)

-- The chunks spell a text, behind a chunk with the characters `before`: each chunk ends with fresh
-- characters, behind at most `overlap` repeated ones with which the chunk before it ends, and the
-- fresh ones make up the text. Spaces do not count.
abbrev pub SpellsAfter : ℕ → Text → List ChunkDraft → Text → Type 0
SpellsAfter overlap before [] s = s ≡ []
SpellsAfter overlap before (c ∷ cs) s =
    (repeated : Text) × (fresh : Text) × (rest : Text) × (solid c.content ≡ repeated ++ fresh)
    × Ends before repeated
    × (length repeated ≤ overlap)
    × (s ≡ fresh ++ rest)
    × SpellsAfter overlap (solid c.content) cs rest

-- Nothing stands before the first chunk, which repeats nothing.
abbrev pub Spells : ℕ → List ChunkDraft → Text → Type 0
Spells overlap cs s = SpellsAfter overlap [] cs s

-- The characters of the last chunk.
abbrev pub last_solid : Text → List ChunkDraft → Text
last_solid before [] = before
last_solid before (c ∷ cs) = last_solid (solid c.content) cs

-- The ordinals count up.
abbrev pub Numbered : ℕ → List ChunkDraft → Type 0
Numbered n [] = Unit
Numbered n (c ∷ cs) = (c.ordinal ≡ pos n) × Numbered (suc n) cs

-- A chunk is trimmed, not empty, and not longer than the chunk size.
pub record IsChunk (chunk_size : ℕ) (c : ChunkDraft) : Type 0 where
  pub trimmed : trim_space c.content ≡ c.content
  pub filled : c.content ≢ []
  pub fits : length c.content ≤ chunk_size

pub SpellsAfter-append :
    (overlap : ℕ) (before : Text) (cs : List ChunkDraft) (c : ChunkDraft) (s repeated fresh : Text)
    → SpellsAfter overlap before cs s
    → solid c.content ≡ repeated ++ fresh
    → Ends (last_solid before cs) repeated
    → length repeated ≤ overlap
    → SpellsAfter overlap before (cs ++ c ∷ []) (s ++ fresh)
SpellsAfter-append overlap before [] c s repeated fresh h e ends short =
    (repeated, fresh, [], e, ends, short, rw h (sym (append-nil fresh)), refl)
SpellsAfter-append overlap before (d ∷ cs) c s repeated fresh
      (r, f, rest, e', ends', short', split, h) e ends short =
    (
      r,
      f,
      rest ++ fresh,
      e',
      ends',
      short',
      rw split (append_assoc f rest fresh),
      SpellsAfter-append overlap (solid d.content) cs c rest repeated fresh h e ends short,
    )

pub last_solid-append :
    (before : Text) (cs : List ChunkDraft) (c : ChunkDraft)
    → last_solid before (cs ++ c ∷ []) ≡ solid c.content
last_solid-append before [] c = refl
last_solid-append before (d ∷ cs) c = last_solid-append (solid d.content) cs c

pub Numbered-append :
    (n : ℕ) (cs : List ChunkDraft) (c : ChunkDraft)
    → Numbered n cs
    → c.ordinal ≡ pos (n + length cs)
    → Numbered n (cs ++ c ∷ [])
Numbered-append n [] c h e = (e ∙ ap pos (omega arith), tt)
Numbered-append n (d ∷ cs) c h e =
    (h.0, Numbered-append (suc n) cs c h.1 (e ∙ ap pos (omega arith)))
