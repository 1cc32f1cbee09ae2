-- ===== src/Search/Hits.antt =====
-- types.go: `SearchHit`; store.go: the two queries of a search, `readHits` and `cloneHit`.
use simplykb.Prelude.{
  ℕ, ℤ, pos_part, Bool, true, false, not, Option, none, some, List, [], ◌∷◌, ◌&&◌, ◌||◌,
  if◌then◌else◌, ltb, map, take, select,
}
use simplykb.Prelude.Sorting.{sort_slice}
use simplykb.Text.{Text, text_eq}
use simplykb.External.{External}
use simplykb.Errors.{Result, ok, err, keyword_search, vector_search, read_rows, decode_metadata}
use simplykb.Database.Rows.{Chunk, Db}
use simplykb.Database.Session.{Action, pure, lift, pool_query, ◌>>=◌, ◌>>◌}
use simplykb.Documents.Prepare.{vector_literal}
use simplykb.Search.Requests.{SearchRequest}

-- Floating-point numbers of 64 bits, and what the queries call in PostgreSQL and its extensions.
pub record SearchEngine (x : External) : Type 1 where
  -- `float64` and `double precision`
  pub Float64 : Type 0
  pub zero_score : Float64
  -- Go's `+`, `==` and `<`
  pub add : Float64 → Float64 → Float64
  pub same : Float64 → Float64 → Bool
  pub below : Float64 → Float64 → Bool
  -- `1.0 / float64(n)`
  pub reciprocal : ℤ → Float64
  -- `<` of SQL
  pub sql_below : Float64 → Float64 → Bool
  -- `1 - value`
  pub one_minus : Float64 → Float64
  -- `metadata @> $::jsonb`
  pub metadata_contains : Text → Text → Bool
  -- `search_text ||| $2`, `paradedb.snippet(search_text)` and `paradedb.score(id)`
  pub text_matches : Text → Chunk → Bool
  pub snippet : Text → Chunk → Option Text
  pub keyword_score : Db → Text → Chunk → Float64
  -- `embedding <=> $2::vector`, of two literals
  pub distance : Text → Text → Float64
  -- Whether the scan for a literal comes to a row: the HNSW index on the distance is approximate, and
  -- may miss rows.
  pub reaches : Db → Text → Chunk → Bool

module _ (x : External) (e : SearchEngine x) where
  pub record SearchHit : Type 0 where
    pub collection : Text
    pub document_id : Text
    pub chunk_id : Text
    pub chunk_number : ℤ
    pub title : Text
    pub content : Text
    pub snippet : Text
    pub source_uri : Text
    pub tags : List Text
    pub metadata : x.Metadata
    pub score : e.Float64
    pub keyword_score : e.Float64
    pub vector_score : e.Float64

  pub record CandidateHit : Type 0 where
    pub internal_id : ℕ
    pub hit : SearchHit

  -- A row of either query: the chunk's columns, and the last two columns.
  pub record HitRow : Type 0 where
    pub chunk : Chunk
    pub snippet : Text
    pub score : e.Float64

  -- `ORDER BY key DESC, id DESC`, and `ORDER BY key ASC, id DESC`
  unfoldable pub descending : (Chunk → e.Float64) → Chunk → Chunk → Bool
  descending key a b =
      e.sql_below (key b) (key a) || (not (e.sql_below (key a) (key b)) && ltb b.id a.id)

  unfoldable pub ascending : (Chunk → e.Float64) → Chunk → Chunk → Bool
  ascending key a b =
      e.sql_below (key a) (key b) || (not (e.sql_below (key b) (key a)) && ltb b.id a.id)

  -- The query of `searchKeyword`.
  unfoldable pub keyword_rows : SearchRequest x → Text → Db → List HitRow
  unfolding sort_slice descending
  keyword_rows req filter db =
      map
        (λ ch. record {
          chunk = ch;
          snippet = elim (e.snippet req.query ch) [ none ↦ [] | some t ↦ t ];
          score = e.keyword_score db req.query ch;
        })
        (take (pos_part req.candidate_limit) (
          sort_slice (descending (e.keyword_score db req.query)) (
            select
              (λ (ch : Chunk).
                text_eq ch.collection req.collection
                && (e.text_matches req.query ch && e.metadata_contains ch.metadata filter))
              db.chunks)))

  -- The query of `searchVector`, over the rows that its scan comes to.
  unfoldable pub vector_rows : SearchRequest x → Text → Text → Db → List HitRow
  unfolding sort_slice ascending
  vector_rows req literal filter db =
      map
        (λ ch. record {
          chunk = ch;
          snippet = [];
          score = e.one_minus (e.distance ch.embedding literal);
        })
        (take (pos_part req.candidate_limit) (
          sort_slice (ascending (λ ch. e.distance ch.embedding literal)) (
            select
              (λ (ch : Chunk).
                text_eq ch.collection req.collection
                && (e.reaches db literal ch && e.metadata_contains ch.metadata filter))
              db.chunks)))

  -- `none` is metadata that does not decode.
  unfoldable pub decode_hit_metadata : Text → Option x.Metadata
  decode_hit_metadata [] = some x.empty_metadata
  decode_hit_metadata (r ∷ t) = elim (x.unmarshal (r ∷ t)) [
    | none ↦ none
    | some none ↦ some x.empty_metadata
    | some (some m) ↦ some m
  ]

  unfoldable pub read_hit : Bool → HitRow → x.Metadata → CandidateHit
  read_hit keyword row metadata = record {
    internal_id = row.chunk.id;
    hit = record {
      collection = row.chunk.collection;
      document_id = row.chunk.document_external_id;
      chunk_id = row.chunk.chunk_key;
      chunk_number = row.chunk.chunk_no;
      title = row.chunk.title;
      content = row.chunk.content;
      snippet = row.snippet;
      source_uri = row.chunk.source_uri;
      tags = row.chunk.tags;
      metadata = metadata;
      score = e.zero_score;
      keyword_score = if keyword then row.score else e.zero_score;
      vector_score = if keyword then e.zero_score else row.score;
    };
  }

  unfoldable pub read_hits : Bool → List HitRow → Result (List CandidateHit)
  unfolding decode_hit_metadata read_hit
  read_hits keyword [] = ok []
  read_hits keyword (row ∷ rows) = elim (decode_hit_metadata row.chunk.metadata) [
    | none ↦ err decode_metadata
    | some m ↦ elim (read_hits keyword rows) [
      | err problem ↦ err problem
      | ok hits ↦ ok (read_hit keyword row m ∷ hits)
    ]
  ]

  -- The copy has its own map.
  unfoldable pub clone_hit : SearchHit → SearchHit
  clone_hit h = record h { metadata = h.metadata }

  -- The last call is `rows.Err`.
  unfoldable pub search_keyword : SearchRequest x → Text → Action (List CandidateHit)
  unfolding keyword_rows read_hits
  search_keyword req filter = do
    rows ← pool_query keyword_search (keyword_rows req filter)
    hits ← lift (read_hits true rows)
    pool_query read_rows (λ _. tt)
    pure hits

  unfoldable pub search_vector : SearchRequest x → List x.Float → Text → Action (List CandidateHit)
  unfolding vector_rows read_hits vector_literal
  search_vector req v filter = do
    rows ← pool_query vector_search (vector_rows req (vector_literal x v) filter)
    hits ← lift (read_hits false rows)
    pool_query read_rows (λ _. tt)
    pure hits
