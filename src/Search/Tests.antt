-- ===== src/Search/Tests.antt =====
-- Search requests and query vectors at a concrete store and cache.
use simplykb.Prelude.{ℕ, ◌≡◌, ◌≢◌, ◌↔◌, inl, refl, arith, true, some, none, [], ◌∷◌, pos}
use simplykb.Text.{runes, solid, is_space, text_discrete}
use simplykb.Types.{CacheKey}
use simplykb.Requests.Tests.{plain}
use simplykb.Config.{normalized, validate}
use simplykb.Config.Tests.{given}
use simplykb.Store.{Store}
use simplykb.QueryCache.{QueryEmbeddingCache, entry_ref, element_at}
use simplykb.QueryCache.Valid.{Distinct, IsValid, key_ref}
use simplykb.QueryCache.Refine.{view}
use simplykb.Search.Requests.{
  SearchRequest, unset, hit, default_mode, encode_metadata_filter, normalize_search_request,
  validate_search_request,
}
use simplykb.Search.QueryVector.{embed_query, search_query_vector, found}
use simplykb.Search.Checked.{Answers, embed_query-Answers}
use simplykb.Search.Cached.{Describes, query_memory, search_query_vector-Describes}
use simplykb.Search.Defaults.{validate-normalize_search_request}

abbrev pub warm : QueryEmbeddingCache ℕ
warm = record {
  capacity = 2;
  ll = (record { ref = 0; key = runes "q"; vector = 9 ∷ [] }) ∷ [];
  entries = (runes "q", 0) ∷ [];
  next_ref = 1;
}

warm-Distinct : Distinct warm.ll
unfolding key_ref element_at text_discrete
warm-Distinct = (refl, refl, tt)

pub warm-IsValid : IsValid warm
unfolding key_ref entry_ref
warm-IsValid = record {
  positive = omega arith;
  bounded = omega arith;
  distinct = warm-Distinct;
  fresh = omega arith;
  agree = λ q. refl;
}

abbrev pub keyed : Store plain
keyed = record {
  pool = true;
  cfg = record given {
    embedder =
        some
          (record { embed = λ ts. some ((7 ∷ []) ∷ []); cache_key = some (λ q. CacheKey.key q) });
    query_embedding_cache_size = pos 2;
  };
  query_cache = some warm;
}

search-warm : search_query_vector plain keyed (runes "q") ≡ some (some warm, found (9 ∷ [], hit))
unfolding search_query_vector text_discrete is_space
search-warm = refl

embed_query-Answers_example :
    (embed_query plain keyed (runes "q") ≡ found (7 ∷ []))
    ↔ Answers plain keyed (runes "q") (7 ∷ [])
embed_query-Answers_example = embed_query-Answers plain keyed (runes "q") (7 ∷ [])

search_query_vector-Describes_example :
    Describes plain 2
      (query_memory plain keyed 2 (runes "q") (view warm))
      (search_query_vector plain keyed (runes "q"))
search_query_vector-Describes_example =
    search_query_vector-Describes plain keyed warm (runes "q") refl warm-IsValid

abbrev pub bare : SearchRequest plain
bare = record {
  collection = [];
  query = runes " q";
  limit = pos 0;
  candidate_limit = pos 0;
  mode = unset;
  metadata_filter = none;
}

given_accepted : validate (normalized given) ≡ none
unfolding validate normalized text_discrete
given_accepted = refl

solid-bare : solid bare.query ≢ []
unfolding is_space
solid-bare e = cc

validate-normalize_search_request_example :
    validate_search_request plain (normalize_search_request plain (normalized given) bare) ≡ none
validate-normalize_search_request_example =
    validate-normalize_search_request plain given bare (runes "{}") given_accepted refl refl
      solid-bare (inl (unfold default_mode in refl)) (unfold encode_metadata_filter in refl)
