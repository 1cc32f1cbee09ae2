-- ===== src/Splitter/Tests.antt =====
-- The splitter at concrete texts.
use simplykb.Prelude.{◌≡◌, ◌≢◌, ◌↔◌, refl, some, List, [], ◌∷◌, All, pos}
use simplykb.Text.{Text, runes, solid, text_discrete, is_space}
use simplykb.Errors.{ok, err, text_is_empty}
use simplykb.Types.{ChunkDraft}
use simplykb.Splitter.Model.{DefaultSplitter, split, effective_chunk_size, effective_overlap}
use simplykb.Splitter.Spells.{Spells, Numbered, IsChunk}
use simplykb.Splitter.Correct.{split-Spells, split-empty_iff}

abbrev small : DefaultSplitter
small = record { chunk_size = pos 5; overlap = pos 2 }

abbrev letters : Text
letters = runes "abcdefgh\n\nij"

split-letters :
    split small letters
    ≡ some (
        ok (
          record { ordinal = pos 0; content = runes "abcde" }
          ∷ record { ordinal = pos 1; content = runes "defgh" }
          ∷ record { ordinal = pos 2; content = runes "gh\n\ni" }
          ∷ record { ordinal = pos 3; content = runes "ij" }
          ∷ []))
unfolding split text_discrete is_space
split-letters = refl

solid-letters : solid letters ≢ []
unfolding is_space
solid-letters e = cc

split-Spells_example :
    (chunks : List ChunkDraft) × (split small letters ≡ some (ok chunks))
    × (chunks ≢ [])
    × Numbered 0 chunks
    × All (IsChunk (effective_chunk_size small.chunk_size)) chunks
    × Spells
        (effective_overlap small.overlap (effective_chunk_size small.chunk_size))
        chunks
        (solid letters)
split-Spells_example = split-Spells small letters solid-letters

split-empty_iff_example :
    (split small (runes " \n") ≡ some (err text_is_empty)) ↔ (solid (runes " \n") ≡ [])
split-empty_iff_example = split-empty_iff small (runes " \n")
