-- ===== src/Config/Tests.antt =====
-- The theorems on configurations at a concrete one.
use simplykb.Prelude.{ℕ, ◌<◌, ◌≤◌, ◌≡◌, ◌≢◌, refl, false, some, none, [], ◌∷◌, map, pos}
use simplykb.Text.{runes, text_discrete}
use simplykb.Types.{Embedder}
use simplykb.Requests.Tests.{plain}
use simplykb.Config.{Config, is_nil, normalized, validate}
use simplykb.Config.Laws.{normalized-normalized, normalized-validate}

-- One number for each text.
abbrev pub constant_embedder : Embedder plain
constant_embedder = record { embed = λ ts. some (map (λ t. 7 ∷ []) ts); cache_key = none }

abbrev pub given : Config plain
given = record {
  database_url = runes "postgres";
  default_collection = runes "docs";
  embedding_dimensions = pos 1;
  embedder = some constant_embedder;
  splitter = none;
  min_conns = pos 0;
  max_conns = pos 4;
  default_search_limit = pos 0;
  candidate_limit = pos 0;
  rrf_constant = pos 0;
  max_document_bytes = pos 0;
  max_chunk_chars = pos 5;
  query_embedding_cache_size = pos 0;
}

given_valid : validate (normalized given) ≡ none
unfolding validate normalized text_discrete
given_valid = refl

normalized-normalized_example : normalized (normalized given) ≡ normalized given
normalized-normalized_example = normalized-normalized given

normalized-validate_example :
    ((n m : ℕ) × ((normalized given).default_search_limit ≡ pos n)
      × ((normalized given).candidate_limit ≡ pos m)
      × (0 < n)
      × (n ≤ m))
    × ((n : ℕ) × ((normalized given).max_chunk_chars ≡ pos n) × (0 < n) × (n ≤ 5000))
    × ((n : ℕ) × ((normalized given).max_document_bytes ≡ pos n) × (0 < n))
    × ((n : ℕ) × ((normalized given).rrf_constant ≡ pos n) × (0 < n))
    × ((n : ℕ) × ((normalized given).embedding_dimensions ≡ pos n) × (0 < n))
    × (is_nil (normalized given).embedder ≡ false)
    × ((normalized given).splitter ≢ none)
normalized-validate_example = normalized-validate given given_valid
