-- ===== src/Documents/Transactions.antt =====
-- store.go: the transactions of a document write, and the statements they run.
use mathlib.Core.Option
use simplykb.Prelude.{ℕ, Bool, false, Option, none, some, List, [], ◌∷◌, if◌then◌else◌, length}
use simplykb.Text.{Text}
use simplykb.External.{External}
use simplykb.Errors.{
  begin_tx, write_lock, load_snapshot, commit_tx, update_document_metadata, update_chunk_metadata,
  upsert_row, delete_old_chunks, insert_chunks, close_batch, update_chunk_count,
}
use simplykb.Types.{UpsertDocumentRequest, DocumentStats}
use simplykb.Database.Rows.{Chunk, Db, find_document}
use simplykb.Database.Statements.{
  Fields, update_documents, update_chunks, insert_or_update_document, delete_chunks, insert_chunk,
  set_chunk_count,
}
use simplykb.Database.Session
use simplykb.Database.Session.{Action, pure, raise, lift, in_tx, pool_query, pool_exec, ◌>>=◌, ◌>>◌}
use simplykb.Documents.Snapshot.{
  DocumentWriteAction, noop, metadata_refresh, reindex, DocumentSnapshot, snapshot_of_row,
  classify_document_write, new_document_stats, document_snapshots_equal,
}
use simplykb.Documents.Prepare.{Prepared, chunk_key, vector_literal}

module _ (x : External) where
  abbrev pub fields_of : UpsertDocumentRequest x → Text → Fields
  fields_of req metadata_json = record {
    title = req.title;
    source_uri = req.source_uri;
    tags = req.tags;
    metadata = x.to_jsonb metadata_json;
  }

  -- `loadDocumentSnapshot(ctx, s.pool, …)`
  unfoldable pub load_committed : Text → Text → Action DocumentSnapshot
  unfolding find_document snapshot_of_row
  load_committed collection document_id = do
    row ← pool_query load_snapshot (λ db. find_document collection document_id db.documents)
    lift (snapshot_of_row x row)

  -- `loadDocumentSnapshot(ctx, tx, …, true)`
  unfoldable pub load_locked : Text → Text → Action DocumentSnapshot
  unfolding find_document snapshot_of_row
  load_locked collection document_id = do
    row ←
        in_tx load_snapshot (λ now db. some (find_document collection document_id db.documents, db))
    lift (snapshot_of_row x row)

  unfoldable pub refresh_document_metadata :
      DocumentSnapshot → UpsertDocumentRequest x → Text → Action Unit
  refresh_document_metadata snapshot req metadata_json = do
    in_tx update_document_metadata (λ now db. some (
      tt,
      update_documents now req.collection snapshot.internal_id (fields_of req metadata_json) db,
    ))
    in_tx update_chunk_metadata (λ now db.
        some
          (tt, update_chunks req.collection snapshot.internal_id (fields_of req metadata_json) db))

  -- A commit of what a noop or a refresh wrote, with its statistics.
  unfoldable pub finish : UpsertDocumentRequest x → Text → ℕ → Action (Option DocumentStats)
  unfolding new_document_stats
  finish req content_hash chunk_count = do
    Session.commit commit_tx
    pure (some (new_document_stats x req content_hash chunk_count))

  -- The `switch` of `commitCheapDocumentWrite`. `none` asks for a restart.
  unfoldable pub cheap_write :
      UpsertDocumentRequest x
      → Text
      → Text
      → DocumentSnapshot
      → DocumentWriteAction
      → Action (Option DocumentStats)
  unfolding finish refresh_document_metadata
  cheap_write req content_hash metadata_json locked noop =
      finish req content_hash locked.chunk_count
  cheap_write req content_hash metadata_json locked metadata_refresh = do
    refresh_document_metadata locked req metadata_json
    finish req content_hash locked.chunk_count
  cheap_write req content_hash metadata_json locked reindex = pure none

  unfoldable pub commit_cheap_document_write :
      UpsertDocumentRequest x → Text → Text → Action (Option DocumentStats)
  unfolding load_locked cheap_write classify_document_write
  commit_cheap_document_write req content_hash metadata_json = do
    Session.begin_tx begin_tx
    Session.wait_for_lock write_lock
    locked ← load_locked req.collection req.document_id
    cheap_write req content_hash metadata_json locked
        (classify_document_write x locked req content_hash metadata_json false)

  -- The row that `replaceDocumentChunks` inserts.
  unfoldable pub chunk_row : UpsertDocumentRequest x → ℕ → Text → Prepared x → Chunk
  unfolding chunk_key vector_literal
  chunk_row req internal_id metadata_json p = record {
    id = 0;
    collection = req.collection;
    document_id = internal_id;
    document_external_id = req.document_id;
    chunk_key = chunk_key req.document_id p.chunk.ordinal;
    chunk_no = p.chunk.ordinal;
    title = req.title;
    content = p.chunk.content;
    source_uri = req.source_uri;
    tags = req.tags;
    metadata = x.to_jsonb metadata_json;
    embedding = vector_literal x p.vector;
  }

  -- The loop over the results of the batch.
  unfoldable pub insert_all : UpsertDocumentRequest x → ℕ → Text → List (Prepared x) → Action Unit
  unfolding chunk_row
  insert_all req internal_id metadata_json [] = pure tt
  insert_all req internal_id metadata_json (p ∷ ps) = do
    in_tx insert_chunks (λ now db.
        Option.map (λ (db' : Db). (tt, db'))
          (insert_chunk (chunk_row req internal_id metadata_json p) db))
    insert_all req internal_id metadata_json ps

  unfoldable pub replace_document_chunks :
      UpsertDocumentRequest x → ℕ → Text → List (Prepared x) → Action Unit
  unfolding insert_all
  replace_document_chunks req internal_id metadata_json prepared = do
    in_tx delete_old_chunks (λ now db. some (tt, delete_chunks req.collection internal_id db))
    insert_all req internal_id metadata_json prepared
    in_tx close_batch (λ now db. some (tt, db))
    in_tx update_chunk_count
        (λ now db. some (tt, set_chunk_count now req.collection internal_id (length prepared) db))

  unfoldable pub upsert_document_row : UpsertDocumentRequest x → Text → Text → Action ℕ
  upsert_document_row req metadata_json content_hash = in_tx upsert_row (λ now db. some (
      insert_or_update_document now req.collection req.document_id (fields_of req metadata_json)
        content_hash db))

  -- The end of `commitReindexDocumentWrite`.
  unfoldable pub rebuild :
      UpsertDocumentRequest x → Text → Text → List (Prepared x) → Action (Option DocumentStats)
  unfolding upsert_document_row replace_document_chunks finish
  rebuild req content_hash metadata_json prepared = do
    internal_id ← upsert_document_row req metadata_json content_hash
    replace_document_chunks req internal_id metadata_json prepared
    finish req content_hash (length prepared)

  -- The `switch` of `commitReindexDocumentWrite`.
  unfoldable pub reindex_write :
      UpsertDocumentRequest x
      → Text
      → Text
      → List (Prepared x)
      → DocumentSnapshot
      → DocumentWriteAction
      → Action (Option DocumentStats)
  unfolding finish refresh_document_metadata rebuild
  reindex_write req content_hash metadata_json prepared locked noop =
      finish req content_hash locked.chunk_count
  reindex_write req content_hash metadata_json prepared locked metadata_refresh = do
    refresh_document_metadata locked req metadata_json
    finish req content_hash locked.chunk_count
  reindex_write req content_hash metadata_json prepared locked reindex =
      rebuild req content_hash metadata_json prepared

  unfoldable pub commit_reindex_document_write :
      UpsertDocumentRequest x
      → Text
      → Text
      → List (Prepared x)
      → DocumentSnapshot
      → Bool
      → Action (Option DocumentStats)
  unfolding load_locked reindex_write rebuild classify_document_write document_snapshots_equal
  commit_reindex_document_write req content_hash metadata_json prepared expected force_reindex = do
    Session.begin_tx begin_tx
    Session.wait_for_lock write_lock
    locked ← load_locked req.collection req.document_id
    if document_snapshots_equal locked expected
        then (if force_reindex
            then rebuild req content_hash metadata_json prepared
            else reindex_write req content_hash metadata_json prepared locked
                (classify_document_write x locked req content_hash metadata_json false))
        else pure none
