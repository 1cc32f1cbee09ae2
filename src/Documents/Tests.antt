-- ===== src/Documents/Tests.antt =====
-- Writes of documents at a concrete store and database.
use mathlib.Core.Path.{subst}
use simplykb.Prelude.{
  sym, ◌∙◌, ℕ, ◌<◌, ◌≡◌, ◌≢◌, refl, true, false, Option, some, none, List, [], ◌∷◌, All, pos,
}
use simplykb.Text.{Text, runes, text_eq, text_discrete, is_space, solid}
use simplykb.Errors.{Result, ok, err}
use simplykb.Types.{ChunkDraft, DocumentStats}
use simplykb.Config.{normalized}
use simplykb.Config.Tests.{given}
use simplykb.Requests.Tests.{plain, messy, docs_fixed}
use simplykb.Requests.Names.{normalize_document_request, resolve_collection}
use simplykb.Splitter.Spells.{Spells, Numbered}
use simplykb.Store.{Store}
use simplykb.Database.Rows.{Document, Chunk, Schema, Db}
use simplykb.Database.Session.{World, ◌>>=◌, pool_query, begin_tx, wait_for_lock, in_tx, commit}
use simplykb.Database.Statements.{
  insert_chunk, delete_chunks, insert_or_update_document, delete_documents,
}
use simplykb.Database.Counts.{number_of_chunks, IsCounted}
use simplykb.Database.Cascade.{delete_documents-IsCounted}
use simplykb.Database.Removed.{Removed}
use simplykb.Documents.Counted.{write_document-IsCounted}
use simplykb.Database.Post.{Ensures}
use simplykb.Database.Calls.{Stable, Untouched}
use simplykb.Documents.Prepare.{validate_chunks, embed_all, prepare_document_write}
use simplykb.Documents.Twice.{write_document-twice}
use simplykb.Documents.Snapshot.{canonical_stored_metadata_json}
use simplykb.Documents.Write.{accept, write_document, upsert_document}
use simplykb.Documents.Restart.{Took, write_document-Ensures, write_document-fuel}
use simplykb.Documents.Chunking.{prepare-normalized}

abbrev pub store : Store plain
store = record { pool = true; cfg = normalized given; query_cache = none }

-- A server that offers the two extensions, without tables.
abbrev pub no_schema : Schema
no_schema = record {
  extensions = runes "vector" ∷ runes "plpgsql" ∷ runes "pg_search" ∷ [];
  applied = none;
  embedding_type = none;
  indexes = [];
}

abbrev pub empty_db : Db
empty_db = record {
  schema = no_schema;
  documents = [];
  chunks = [];
  next_document_id = 1;
  next_chunk_id = 1;
}

-- Nothing fails, and the others do not write.
abbrev pub quiet : World
quiet = record {
  committed = empty_db;
  working = empty_db;
  faults = [];
  others = [];
  times = 1 ∷ 2 ∷ [];
  now = 0;
}

-- Every document is of one collection.
abbrev AllDocs : Db → Type 0
AllDocs d = All (λ (r : Document). r.collection ≡ runes "docs") d.documents

quiet-Stable : Stable AllDocs quiet
quiet-Stable = record { holds = tt; kept = tt }

store_docs : store.cfg.default_collection ≡ runes "docs"
unfolding normalized text_discrete
store_docs = refl

abbrev stats_of : Result DocumentStats × World → Option ℕ
stats_of (ok s, w) = some s.chunk_count
stats_of (err e, w) = none

upsert-messy : stats_of (upsert_document plain (some store) messy quiet) ≡ some 2
unfolding upsert_document normalized text_discrete is_space ◌>>=◌ pool_query begin_tx wait_for_lock
    in_tx commit insert_chunk delete_chunks insert_or_update_document
upsert-messy = refl

store_fixed :
    resolve_collection store.cfg.default_collection store.cfg.default_collection
    ≡ store.cfg.default_collection
store_fixed = rw store_docs docs_fixed

write_document-Ensures_example :
    Ensures
      (write_document plain (some store) 2 messy false 0)
      quiet
      (Took plain store false AllDocs
        (normalize_document_request plain store.cfg.default_collection messy))
      (Untouched AllDocs)
write_document-Ensures_example =
    write_document-Ensures plain store false refl AllDocs store_fixed 0 messy quiet quiet-Stable

write_document-fuel_example :
    write_document plain (some store) 5 messy true 0
    ≡ write_document plain (some store) 2 messy true 0
write_document-fuel_example = write_document-fuel plain store true refl 3 messy

solid-messy : solid messy.content ≢ []
unfolding is_space
solid-messy e = cc

prepare-normalized_example :
    (overlap chars : ℕ) × (chunks : List ChunkDraft) × ((normalized given).max_chunk_chars
      ≡ pos chars)
    × (overlap < chars)
    × (prepare_document_write plain (normalized given) messy.content
        ≡ embed_all plain (normalized given) chunks)
    × (chunks ≢ [])
    × Numbered 0 chunks
    × Spells overlap chunks (solid messy.content)
    × (validate_chunks chunks (normalized given).max_chunk_chars ≡ none)
prepare-normalized_example = prepare-normalized plain given messy.content refl solid-messy

abbrev guide : Document
guide = record {
  id = 1;
  collection = runes "docs";
  external_id = runes "guide";
  title = runes "Guide";
  source_uri = [];
  tags = [];
  metadata = runes "{}";
  content_hash = runes "old";
  chunk_count = 1;
  updated_at = 0;
}

abbrev guide_chunk : Chunk
guide_chunk = record {
  id = 1;
  collection = runes "docs";
  document_id = 1;
  document_external_id = runes "guide";
  chunk_key = runes "guide:000000";
  chunk_no = pos 0;
  title = runes "Guide";
  content = runes "old";
  source_uri = [];
  tags = [];
  metadata = runes "{}";
  embedding = runes "[7]";
}

-- One document; another session deletes the documents of a collection before our first query.
abbrev pub busy : World
busy = record {
  committed = record {
    schema = no_schema;
    documents = guide ∷ [];
    chunks = guide_chunk ∷ [];
    next_document_id = 2;
    next_chunk_id = 2;
  };
  working = empty_db;
  faults = [];
  others = delete_documents (λ r. text_eq r.collection (runes "notes")) ∷ [];
  times = 1 ∷ 2 ∷ [];
  now = 0;
}

pub busy-Stable : Stable IsCounted busy
unfolding number_of_chunks text_discrete
busy-Stable = record {
  holds = (refl, tt);
  kept = (delete_documents-IsCounted (λ r. text_eq r.collection (runes "notes")), tt);
}

upsert-busy : stats_of (upsert_document plain (some store) messy busy) ≡ some 2
unfolding upsert_document normalized text_discrete is_space ◌>>=◌ pool_query begin_tx wait_for_lock
    in_tx commit insert_chunk delete_chunks insert_or_update_document delete_documents
upsert-busy = refl

write_document-IsCounted_example :
    Ensures
      (write_document plain (some store) 2 messy false 0)
      busy
      (λ _ w'. IsCounted w'.committed)
      (λ _ w'. IsCounted w'.committed)
write_document-IsCounted_example =
    write_document-IsCounted plain store false messy busy refl store_fixed busy-Stable

-- A first write, and what comes of it.
abbrev first : Result DocumentStats × World
first = write_document plain (some store) 2 messy false 0 busy

abbrev stats_in : Result DocumentStats → DocumentStats
stats_in (ok s) = s
stats_in (err e) = record { collection = []; document_id = []; content_hash = []; chunk_count = 0 }

first-ran : first ≡ (ok (stats_in first.0), first.1)
unfolding write_document normalized text_discrete is_space ◌>>=◌ pool_query begin_tx wait_for_lock
    in_tx commit insert_chunk delete_chunks insert_or_update_document delete_documents
first-ran = refl

first-alone : first.1.others ≡ []
unfolding write_document normalized text_discrete is_space ◌>>=◌ pool_query begin_tx wait_for_lock
    in_tx commit insert_chunk delete_chunks insert_or_update_document delete_documents
first-alone = refl

abbrev accepted_messy : Result Text
accepted_messy =
    accept plain store.cfg (normalize_document_request plain store.cfg.default_collection messy)

accept-messy : accepted_messy ≡ ok (runes "{}")
unfolding accept normalized text_discrete is_space normalize_document_request
accept-messy = refl

messy_roundtrip :
    (json : Text)
    → accepted_messy ≡ ok json
    → canonical_stored_metadata_json plain (plain.to_jsonb json) ≡ some json
messy_roundtrip json h =
    let same : runes "{}" ≡ json = ok_injective (runes "{}") json (sym accept-messy ∙ h) in
    subst (λ (j : Text). canonical_stored_metadata_json plain j ≡ some j) same
      (unfold canonical_stored_metadata_json in refl)
  where
    ok_injective : (a b : Text) → ◌≡◌ {A = Result Text} (ok a) (ok b) → a ≡ b
    ok_injective a b e = cc

write_document-twice_example :
    Ensures
      (write_document plain (some store) 2 messy false 0)
      first.1
      (λ _ w''. w''.committed ≡ first.1.committed)
      (λ _ w''. w''.committed ≡ first.1.committed)
write_document-twice_example =
    write_document-twice plain store false messy refl store_fixed busy first.1 (stats_in first.0)
      messy_roundtrip first-ran first-alone
