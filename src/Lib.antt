-- ===== src/Lib.antt =====
-- simplykb is a Go library that keeps a knowledge base in PostgreSQL: documents are split into
-- chunks, the chunks are embedded and stored, and queries are answered from them. This development
-- models the library's own logic and proves what makes it correct.
--
-- The parts, and the files that model them:
--   Config        config.go: `Config`, `normalized`, `validate`; Config/Laws proves their laws.
--   Requests      store.go: the normalisation and validation of document requests.
--   Splitter      splitter.go: `DefaultSplitter.Split`; its closures `emitChunk` and `appendRunes`
--                 are functions on a `Buffer`. `append_runes` runs on fuel, one unit for each
--                 character of its input, of which each round takes at least one.
--   QueryCache    query_cache.go: the cache as a `container/list` of elements with references and a
--                 map from keys to references, so that the two can disagree if a step forgets one.
--   Database      the tables of schema.go as lists of rows, the SQL statements of store.go and
--                 collection.go as functions on them, and sessions: an action runs on a world with
--                 the committed rows, a transaction's copy, a list of database calls that fail, and
--                 what other sessions commit at each point where this one waits or looks again.
--   Documents     store.go: `UpsertDocument`, `ReindexDocument` and `DeleteDocument` with everything
--                 they call. `write_document` runs on fuel for its nested restarts, of which the
--                 code allows one, so two levels are enough.
--   Collections   collection.go: `CollectionStats` and `DeleteCollection`.
--   Search        store.go, rrf.go: searches. Search/Requests and Search/QueryVector have the request
--                 and the vector of a query, over the cache of QueryCache; Search/Hits the two queries
--                 and their rows, Search/Fusion the map of fused hits and their order, and
--                 Search/Detailed the stages of `SearchDetailed`. The order in which Go visits a map
--                 is an argument of the model, and `sort.Slice` one of the sorts it may be.
--   Migrations    store.go, schema.go, internal/sdkmeta: `Migrate` on the part of the database that
--                 migrations see (`Schema` of Database/Rows), with `parseVectorDimensions`. What
--                 pgvector accepts is a parameter (`Pgvector`).
--   HashEmbedder  embedder_hash.go: the features of a text, FNV-1a over its UTF-8 bytes, and `Embed`.
--                 Package `unicode` (`Unicode`) and float arithmetic (`FloatMath`) are parameters.
--   Errors, Types, Store, Text and Prelude hold the error values, the public types, the store
--                 handle, strings as runes with the functions of package `strings`, and helpers.
--
-- A write normalises its request, loads the document's snapshot outside a transaction, decides what
-- to do, and then opens a transaction, takes the document's lock, loads the snapshot again and
-- decides again; where the two do not fit it starts over once. The property of the whole write is
-- stated as a postcondition (`Ensures` of Database/Post) against any other sessions that keep a
-- predicate of the database (`Stable` of Database/Calls).
--
-- What is outside the repository is a parameter: floating-point numbers and their formatting,
-- metadata maps with `encoding/json`, SHA-256 and the `jsonb` type (`External`), 64-bit floats and
-- what ParadeDB and pgvector compute for a query (`SearchEngine` of Search/Hits), the embedder and a
-- custom splitter (fields of `Config`). Strings are valid UTF-8, integers do not overflow an `int`.
-- Contexts and cancellation show only as failing calls, and as an argument of the hash embedder. Two
-- assumptions on transactions: while a session holds a document's lock or that of the migrations no
-- other session's commit is interleaved, nor between the `DELETE` of `DeleteCollection`, which takes
-- no lock, and its commit; a commit that fails has not taken place. What a scan of the approximate
-- HNSW index misses is a parameter (`reaches` of `SearchEngine`); the rows it comes to are ordered by
-- their distance.
--
-- Not modelled: the durations in a search's diagnostics, the opening and closing of the connection
-- pool, and the example programs.
pub mod HashEmbedder
pub mod Migrations
pub mod Prelude
pub mod Text
pub mod QueryCache
pub mod External
pub mod Errors
pub mod Types
pub mod Requests
pub mod Database
pub mod Splitter
pub mod Config
pub mod Store
pub mod Documents
pub mod Collections
pub mod Search
