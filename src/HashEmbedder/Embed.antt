-- ===== src/HashEmbedder/Embed.antt =====
-- embedder_hash.go: `HashEmbedder`.
use simplykb.Prelude.{
  ℕ, ℤ, pos, zero, suc, ◌%◌, ◌^◌, leb_ℤ, pos_part, Bool, true, false, ◌==◌, Option, none, some,
  List, [], ◌∷◌, if◌then◌else◌, map,
}
use simplykb.Text.{Text}
use simplykb.External.{External}
use simplykb.Types.{Embedder, CacheKey, key_error, key}
use simplykb.HashEmbedder.Features.{Unicode, collect_features, hash_token}

-- The arithmetic on `float32` and `float64`.
pub record FloatMath (x : External) : Type 1 where
  pub zero_value : x.Float
  -- `value + 1` and `value / norm`
  pub plus_one : x.Float → x.Float
  pub divide : x.Float → x.Float → x.Float
  -- The sum in `normalizeVector`: `sum += float64(value * value)`, `sum == 0`, and
  -- `float32(math.Sqrt(sum))`.
  pub Sum : Type 0
  pub zero_sum : Sum
  pub add_square : Sum → x.Float → Sum
  pub is_zero_sum : Sum → Bool
  pub norm : Sum → x.Float

pub record HashEmbedder : Type 0 where
  pub dimensions : ℤ

module _ (x : External) (f : FloatMath x) where
  -- The vectors, the two errors, and the panic.
  pub data Embedded : Type 0 where
    embedded : List (List x.Float) → Embedded
    context_error dimensions_error division_by_zero : Embedded

  -- `make([]float32, n)`
  unfoldable pub make_vector : ℕ → List x.Float
  make_vector zero = []
  make_vector (suc n) = f.zero_value ∷ make_vector n

  -- `vector[index] += 1`; the index is below the length.
  unfoldable pub increment : ℕ → List x.Float → List x.Float
  increment i [] = []
  increment zero (a ∷ v) = f.plus_one a ∷ v
  increment (suc i) (a ∷ v) = a ∷ increment i v

  unfoldable pub count_tokens : ℕ → List Text → List x.Float → List x.Float
  unfolding hash_token increment
  count_tokens modulus [] v = v
  count_tokens modulus (t ∷ ts) v = count_tokens modulus ts (increment (hash_token t % modulus) v)

  unfoldable pub sum_of_squares : f.Sum → List x.Float → f.Sum
  sum_of_squares s [] = s
  sum_of_squares s (a ∷ v) = sum_of_squares (f.add_square s a) v

  unfoldable pub normalize_vector : List x.Float → List x.Float
  unfolding sum_of_squares
  normalize_vector v =
      let sum = sum_of_squares f.zero_sum v in
      if f.is_zero_sum sum then v else map (λ a. f.divide a (f.norm sum)) v

  unfoldable pub embed_text : Unicode → ℕ → Text → List x.Float
  unfolding collect_features make_vector count_tokens normalize_vector
  embed_text u n text =
      normalize_vector (count_tokens (n % 2 ^ 32) (collect_features u text) (make_vector n))

  -- The loop over the texts. `none` is the panic of a division by zero: `uint32(dimensions)` may be 0,
  -- and every text has a feature.
  unfoldable pub embed_texts : Unicode → ℕ → List Text → Option (List (List x.Float))
  unfolding embed_text
  embed_texts u n [] = some []
  embed_texts u n (t ∷ ts) = if n % 2 ^ 32 == 0 then none else some (map (embed_text u n) (t ∷ ts))

  -- `Embed`. `cancelled` says whether `ctx.Err()` is an error; a nil embedder is `none`.
  unfoldable pub hash_embed : Unicode → Bool → Option HashEmbedder → List Text → Embedded
  unfolding embed_texts
  hash_embed u true h texts = context_error
  hash_embed u false none texts = dimensions_error
  hash_embed u false (some h) texts =
      if leb_ℤ h.dimensions (pos 0)
      then dimensions_error
      else elim (embed_texts u (pos_part h.dimensions) texts) [
        | none ↦ division_by_zero
        | some vectors ↦ embedded vectors
      ]

  -- `QueryEmbeddingCacheKey`
  unfoldable pub query_embedding_cache_key : Bool → Text → CacheKey
  query_embedding_cache_key true normalized_query = key_error
  query_embedding_cache_key false normalized_query = key normalized_query

  -- What the interface `Embedder` shows of a result.
  unfoldable pub vectors_of : Embedded → Option (List (List x.Float))
  vectors_of (embedded vectors) = some vectors
  vectors_of _ = none

  unfoldable pub new_hash_embedder : ℤ → HashEmbedder
  new_hash_embedder dimensions = record { dimensions = dimensions }

  -- A `HashEmbedder` as an `Embedder` for calls with a context that is cancelled or not.
  unfoldable pub as_embedder : Unicode → Bool → HashEmbedder → Embedder x
  unfolding hash_embed query_embedding_cache_key vectors_of
  as_embedder u cancelled h = record {
    embed = λ texts. vectors_of (hash_embed u cancelled (some h) texts);
    cache_key = some (query_embedding_cache_key cancelled);
  }
