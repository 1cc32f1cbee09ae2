-- ===== src/Config.antt =====
-- config.go
pub mod Laws
pub mod Tests
use simplykb.Prelude.{
  ℕ, ◌*◌, Bool, true, false, ◌&&◌, not, Option, none, some, [], ◌∷◌, if◌then◌else◌, ℤ, pos, ltb_ℤ,
  leb_ℤ,
}
use simplykb.Text.{Text, text_eq, runes}
use simplykb.External.{External}
use simplykb.Errors.{
  Error, database_url_required, dimensions_required, embedder_required, negative_min_conns,
  negative_max_conns, min_above_max_conns, search_above_candidate_limit, negative_cache_size,
  cache_needs_keyer, max_chunk_chars_too_large,
}
use simplykb.Types.{Embedder, Splitter}
use simplykb.Splitter.{DefaultSplitter, new_default_splitter, default_splitter}

abbrev pub fallback_collection : Text
fallback_collection = runes "default"

abbrev pub fallback_search_limit : ℤ
fallback_search_limit = pos 5

abbrev pub default_candidate_limit : ℤ
default_candidate_limit = pos 20

abbrev pub default_rrf_constant : ℤ
default_rrf_constant = pos 60

abbrev pub default_max_document_size : ℤ
default_max_document_size = pos (2 * 1024 * 1024)

abbrev pub default_max_chunk_chars : ℤ
default_max_chunk_chars = pos 5000

-- A nil interface is `none`.
pub record Config (x : External) : Type 0 where
  pub database_url : Text
  pub default_collection : Text
  pub embedding_dimensions : ℤ
  pub embedder : Option (Embedder x)
  pub splitter : Option Splitter
  pub min_conns : ℤ
  pub max_conns : ℤ
  pub default_search_limit : ℤ
  pub candidate_limit : ℤ
  pub rrf_constant : ℤ
  pub max_document_bytes : ℤ
  pub max_chunk_chars : ℤ
  pub query_embedding_cache_size : ℤ

-- `if value <= 0 { value = fallback }`
unfoldable pub positive_or : ℤ → ℤ → ℤ
positive_or value fallback = if leb_ℤ value (pos 0) then fallback else value

-- The splitter that `normalized` makes for a bound on the characters of a chunk.
unfoldable pub bounded_splitter : ℤ → DefaultSplitter
unfolding new_default_splitter
bounded_splitter max_chunk_chars =
    if ltb_ℤ max_chunk_chars new_default_splitter.chunk_size
    then record new_default_splitter { chunk_size = max_chunk_chars }
    else new_default_splitter

module _ {x : External} where
  unfoldable pub normalized : Config x → Config x
  unfolding positive_or bounded_splitter default_splitter
  normalized c =
      let max_chars = positive_or c.max_chunk_chars default_max_chunk_chars in
      record c {
        default_collection =
            if text_eq c.default_collection [] then fallback_collection else c.default_collection;
        default_search_limit = positive_or c.default_search_limit fallback_search_limit;
        candidate_limit = positive_or c.candidate_limit default_candidate_limit;
        rrf_constant = positive_or c.rrf_constant default_rrf_constant;
        max_document_bytes = positive_or c.max_document_bytes default_max_document_size;
        max_chunk_chars = max_chars;
        splitter = elim c.splitter [
          | some s ↦ some s
          | none ↦ some (default_splitter (bounded_splitter max_chars))
        ];
      }

  abbrev pub is_nil : Option (Embedder x) → Bool
  is_nil none = true
  is_nil (some _) = false

  unfoldable pub has_keyer : Option (Embedder x) → Bool
  has_keyer none = false
  has_keyer (some e) = elim e.cache_key [ none ↦ false | some _ ↦ true ]

  -- `none` is a valid configuration.
  unfoldable pub validate : Config x → Option Error
  unfolding has_keyer
  validate c =
      if text_eq c.database_url []
      then some database_url_required
      else if leb_ℤ c.embedding_dimensions (pos 0)
      then some dimensions_required
      else if is_nil c.embedder
      then some embedder_required
      else if ltb_ℤ c.min_conns (pos 0)
      then some negative_min_conns
      else if ltb_ℤ c.max_conns (pos 0)
      then some negative_max_conns
      else if ltb_ℤ (pos 0) c.max_conns && ltb_ℤ c.max_conns c.min_conns
      then some (min_above_max_conns c.min_conns c.max_conns)
      else if ltb_ℤ (pos 0) c.candidate_limit && ltb_ℤ c.candidate_limit c.default_search_limit
      then some (search_above_candidate_limit c.default_search_limit c.candidate_limit)
      else if ltb_ℤ c.query_embedding_cache_size (pos 0)
      then some negative_cache_size
      else if ltb_ℤ default_max_chunk_chars c.max_chunk_chars
      then some (max_chunk_chars_too_large c.max_chunk_chars)
      else if ltb_ℤ (pos 0) c.query_embedding_cache_size && not (has_keyer c.embedder)
      then some cache_needs_keyer
      else none
