-- ===== src/External.antt =====
-- What the program calls and this repository does not hold: floating-point numbers, `map[string]any`
-- values with `encoding/json`, SHA-256, and PostgreSQL's `jsonb` type.
use simplykb.Prelude.{ℕ, Option, List}
use simplykb.Text.{Text}

pub record External : Type 1 where
  -- `float32`, and `fmt.Sprintf("%.8f", value)`
  pub Float : Type 0
  pub format_float : Float → Text
  -- A `map[string]any` that is not nil, and `map[string]any{}`.
  pub Metadata : Type 0
  pub empty_metadata : Metadata
  -- `json.Marshal`
  pub marshal : Metadata → Option Text
  -- `json.Unmarshal` into a `map[string]any`; the inner `none` is a nil map.
  pub unmarshal : Text → Option (Option Metadata)
  -- The text that PostgreSQL returns for a column in which it stored `$n::jsonb`.
  pub to_jsonb : Text → Text
  -- `sha256.Sum256`, as bytes
  pub sha256 : Text → List ℕ
