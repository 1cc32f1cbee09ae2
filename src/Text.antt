-- ===== src/Text.antt =====
-- Go strings as their runes, and the functions of package `strings` that the program calls.
-- A string stands for its decoded runes, so the model speaks of valid UTF-8; `byte_length` is
-- `len(s)`. For such strings the order of runes is the order of bytes.
mod Equality
mod Trim
mod Solid
unfoldable pub use Equality.*
unfoldable pub use Trim.*
pub use Solid.*
use Prim.Native.Char.{code}
use Prim.Native.String.{String}
use simplykb.Prelude.{ℕ, [], ◌∷◌, ◌+◌, ltb, if◌then◌else◌}
use simplykb.Text.Equality.{Text}

-- The runes of a literal.
abbrev pub runes : String → Text
runes String.[] = []
runes (String.◌∷◌ c s) = code c ∷ runes s

-- `len(s)`: the bytes of the UTF-8 encoding.
unfoldable pub byte_length : Text → ℕ
byte_length [] = 0
byte_length (r ∷ s) =
    (if ltb r 0x80 then 1 else if ltb r 0x800 then 2 else if ltb r 0x10000 then 3 else 4)
    + byte_length s
