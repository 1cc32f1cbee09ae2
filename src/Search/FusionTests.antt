-- ===== src/Search/FusionTests.antt =====
-- Searches at a concrete store and database.
use mathlib.Core.List.{Perm, Pairwise, Pairwise-singleton}
use mathlib.Core.List.Perm
use simplykb.Prelude.{
  ℕ, ℤ, pos, negsuc, ◌+◌, ◌/◌, ◌≡◌, ◌≢◌, refl, arith, true, false, Option, some, none, List, [],
  ◌∷◌, ltb, ltb_ℤ, Bool, if◌then◌else◌, length, take,
}
use simplykb.Prelude.Membership.{All-Mem}
use simplykb.Prelude.Sorting.{
  insert_sorted, sort_slice, sort_slice-perm, sort_slice-IsSorted, IsSorted,
}
use simplykb.Text.{Text, runes, is_space, text_discrete}
use simplykb.Requests.Tests.{plain}
use simplykb.Errors.{Result, ok, err}
use simplykb.Config.{normalized}
use simplykb.Store.{Store, ensure_ready}
use simplykb.Database.Rows.{Chunk, Db, ℤ_eq}
use simplykb.Search.Requests.{
  SearchRequest, hybrid, normalize_search_request, validate_search_request, encode_metadata_filter,
}
use simplykb.Search.Hits.{
  SearchEngine, SearchHit, CandidateHit, keyword_rows, vector_rows, read_hit, decode_hit_metadata,
  read_hits, descending, ascending,
}
use simplykb.Search.Fusion.{Merged, find_hit, ranks_before, results_of, rank_results}
use simplykb.Search.Fused.{DistinctIds, find_ranked}
use simplykb.Search.Scores.{fused_hit, merge-fuses}
use simplykb.Search.Entries.{merged_of}
use simplykb.Search.Top.{ChunkIds, ChunkNumbers}
use simplykb.Search.OneDatabase.{search-determined}
use simplykb.Search.Detailed.{Accepted, accept_search, search_detailed}
use simplykb.Search.Response.{IsOutcome, search_detailed-Ensures}
use simplykb.Search.Tests.{warm-IsValid, keyed, bare}
use simplykb.Documents.Tests.{no_schema, busy, busy-Stable}
use simplykb.Database.Counts.{IsCounted}
use simplykb.Database.Post.{Ensures}
use simplykb.Search.Ranking.{IsNumber, FloatLaws, ranks_before-IsOrder}

-- Numbers for floats; the words of a query match each chunk, the shorter ones better.
abbrev counting : SearchEngine plain
counting = record {
  Float64 = ℕ;
  zero_score = 0;
  add = λ a b. a + b;
  same = λ a b. ℤ_eq (pos a) (pos b);
  below = λ a b. ltb_ℤ (pos a) (pos b);
  reciprocal = λ n. elim n [ pos k ↦ 10000 / k | negsuc _ ↦ 0 ];
  sql_below = ltb;
  one_minus = λ a. a;
  metadata_contains = λ a b. true;
  text_matches = λ q ch. true;
  snippet = λ q ch. some ch.content;
  keyword_score = λ db q ch. length ch.content;
  distance = λ a b. length a;
  reaches = λ db literal ch. true;
}

is_number : (n : ℕ) → IsNumber plain counting n
is_number n = ground arith

counting-laws : FloatLaws plain counting
counting-laws = record {
  rank = pos;
  same_rank = λ a b _ _. refl;
  below_rank = λ a b _ _. refl;
  one_number = λ n _. is_number (counting.add 0 (counting.reciprocal n));
  two_number = λ m n _ _.
      is_number (counting.add (counting.add 0 (counting.reciprocal m)) (counting.reciprocal n));
}

abbrev first_chunk : Chunk
first_chunk = record {
  id = 1;
  collection = runes "docs";
  document_id = 1;
  document_external_id = runes "guide";
  chunk_key = runes "k0";
  chunk_no = pos 0;
  title = runes "Guide";
  content = runes "hi";
  source_uri = [];
  tags = [];
  metadata = runes "{}";
  embedding = runes "[1,0]";
}

abbrev second_chunk : Chunk
second_chunk = record first_chunk {
  id = 2;
  chunk_key = runes "k1";
  chunk_no = pos 1;
  content = runes "hello";
}

abbrev two_chunks : Db
two_chunks = record {
  schema = no_schema;
  documents = [];
  chunks = first_chunk ∷ second_chunk ∷ [];
  next_document_id = 2;
  next_chunk_id = 3;
}

abbrev ask : SearchRequest plain
ask = record {
  collection = runes "docs";
  query = runes "hello";
  limit = pos 1;
  candidate_limit = pos 5;
  mode = hybrid;
  metadata_filter = none;
}

abbrev hit_of : Bool → Chunk → ℕ → CandidateHit plain counting
hit_of keyword ch n = record {
  internal_id = ch.id;
  hit = record {
    collection = ch.collection;
    document_id = ch.document_external_id;
    chunk_id = ch.chunk_key;
    chunk_number = ch.chunk_no;
    title = ch.title;
    content = ch.content;
    snippet = if keyword then ch.content else [];
    source_uri = ch.source_uri;
    tags = ch.tags;
    metadata = runes "}";
    score = 0;
    keyword_score = if keyword then n else 0;
    vector_score = if keyword then 0 else n;
  };
}

-- The longer chunk is first by words, and second by vectors, where the distances are equal.
abbrev ks : List (CandidateHit plain counting)
ks = hit_of true second_chunk 5 ∷ hit_of true first_chunk 2 ∷ []

abbrev vs : List (CandidateHit plain counting)
vs = hit_of false second_chunk 5 ∷ hit_of false first_chunk 5 ∷ []

ks-read :
    read_hits plain counting true (keyword_rows plain counting ask (runes "{}") two_chunks) ≡ ok ks
unfolding read_hits keyword_rows descending text_discrete read_hit decode_hit_metadata sort_slice
    insert_sorted
ks-read = refl

vs-read :
    read_hits plain counting false
      (vector_rows plain counting ask (runes "[1,0]") (runes "{}") two_chunks)
    ≡ ok vs
unfolding read_hits vector_rows ascending text_discrete read_hit decode_hit_metadata sort_slice
    insert_sorted
vs-read = refl

two_ids : ChunkIds two_chunks.chunks
two_ids =
    Pairwise.cons
      (All-Mem (λ (b : Chunk). b.id ≢ 1) (λ b. hlevel) (second_chunk ∷ []) ((λ e. omega arith), tt))
      (Pairwise-singleton _ second_chunk)

OneNumber : Chunk → Chunk → Type 0
OneNumber a b = a.chunk_no ≡ b.chunk_no → a.id ≡ b.id

two_numbers : ChunkNumbers (runes "docs") two_chunks.chunks
unfolding OneNumber
two_numbers a b ma mb _ _ _ =
    All-Mem (λ (c : Chunk). OneNumber c b) (λ c. hlevel) two_chunks.chunks
      (
        All-Mem (OneNumber first_chunk) (λ c. hlevel) two_chunks.chunks
            ((λ n. refl), ((λ n. absurd (cc)), tt)) b mb,
        (
          All-Mem (OneNumber second_chunk) (λ c. hlevel) two_chunks.chunks
              ((λ n. absurd (cc)), ((λ n. refl), tt)) b mb,
          tt,
        ),
      )
      a ma

-- A map that is visited in another order.
abbrev swap_two : Merged plain counting → Merged plain counting
swap_two (a ∷ b ∷ l) = b ∷ a ∷ l
swap_two l = l

swap_two-Perm : (m : Merged plain counting) → Perm (swap_two m) m
swap_two-Perm [] = Perm.rfl
swap_two-Perm (a ∷ []) = Perm.rfl
swap_two-Perm (a ∷ b ∷ l) = Perm.swap a b l

abbrev fused : List (SearchHit plain counting)
fused = results_of plain counting (λ m. m) (merged_of plain counting (pos 60) ks vs)

abbrev in_order : List (SearchHit plain counting)
in_order = sort_slice (ranks_before plain counting) fused

in_order-IsSorted : IsSorted (ranks_before plain counting) in_order
in_order-IsSorted =
    sort_slice-IsSorted (ranks_before plain counting) fused
      (ranks_before-IsOrder plain counting counting-laws fused (λ a _. is_number a.score))

ℕ_set : IsSet ℕ
ℕ_set = hlevel

texts_set : IsSet Text
texts_set = hlevel

search-determined_example :
    rank_results plain counting
      (pos 1)
      (results_of plain counting swap_two (merged_of plain counting (pos 60) ks vs))
    ≡ take 1 in_order
search-determined_example =
    search-determined plain counting counting-laws two_chunks ask (runes "{}") (runes "[1,0]") ℕ_set
      texts_set two_ids two_numbers ks vs ks-read vs-read (pos 60) swap_two
      (swap_two-Perm (merged_of plain counting (pos 60) ks vs)) in_order
      (sort_slice-perm (ranks_before plain counting) fused) in_order-IsSorted 1

ks-DistinctIds : DistinctIds plain counting ks
ks-DistinctIds = (((λ e. omega arith), tt), (tt, tt))

vs-DistinctIds : DistinctIds plain counting vs
vs-DistinctIds = (((λ e. omega arith), tt), (tt, tt))

merge-fuses_example :
    find_hit plain counting 1 (merged_of plain counting (pos 60) ks vs)
    ≡ fused_hit plain counting 60
        (find_ranked plain counting 1 0 ks)
        (find_ranked plain counting 1 0 vs)
merge-fuses_example =
    merge-fuses plain counting 60 1 ks vs (omega arith) (omega arith) (omega arith) ks-DistinctIds
      vs-DistinctIds

abbrev asking : Store plain
asking = record keyed { cfg = normalized keyed.cfg }

abbrev hits_found : Result (Accepted plain counting) → Option ℤ
hits_found (ok a) = some a.request.limit
hits_found (err _) = none

accept_search-bare : hits_found (accept_search plain counting (some asking) bare) ≡ some (pos 5)
unfolding accept_search ensure_ready normalize_search_request validate_search_request normalized
    encode_metadata_filter text_discrete is_space
accept_search-bare = refl

search_detailed-Ensures_example :
    Ensures
      (search_detailed plain counting swap_two false (some asking) bare)
      busy
      (IsOutcome plain counting asking bare swap_two IsCounted
        (accept_search plain counting (some asking) bare))
      (λ _ _. ⊥)
search_detailed-Ensures_example =
    search_detailed-Ensures plain counting asking bare swap_two IsCounted false busy warm-IsValid
      busy-Stable
