-- ===== src/Documents/Effect.antt =====
-- What one write of a document does to the database at the moment at which it takes effect.
use simplykb.Prelude.{ℕ, ◌≡◌, Bool, Option, none, some, List, [], ◌∷◌, length}
use simplykb.Text.{Text}
use simplykb.External.{External}
use simplykb.Errors.{ok}
use simplykb.Types.{UpsertDocumentRequest, DocumentStats}
use simplykb.Config.{Config}
use simplykb.Database.Rows.{Db, find_document}
use simplykb.Database.Statements.{
  update_documents, update_chunks, insert_or_update_document, delete_chunks, insert_chunk,
  set_chunk_count,
}
use simplykb.Documents.Snapshot.{
  noop, metadata_refresh, reindex, DocumentSnapshot, hash_text, snapshot_of_row,
  classify_document_write, new_document_stats,
}
use simplykb.Documents.Prepare.{Prepared, prepare_document_write}
use simplykb.Documents.Transactions.{fields_of, chunk_row}

module _ (x : External) (req : UpsertDocumentRequest x) (json : Text) where
  -- The new fields, in the document's row and in the rows of its chunks.
  unfoldable pub refreshed_db : ℕ → ℕ → Db → Db
  unfolding update_documents update_chunks
  refreshed_db now i d =
      update_chunks req.collection i (fields_of x req json)
        (update_documents now req.collection i (fields_of x req json) d)

  -- One row for each prepared chunk. `none` is a clash with a UNIQUE constraint.
  unfoldable pub insert_rows : ℕ → List (Prepared x) → Db → Option Db
  unfolding insert_chunk chunk_row
  insert_rows i [] d = some d
  insert_rows i (p ∷ ps) d = elim (insert_chunk (chunk_row x req i json p) d) [
    | none ↦ none
    | some d' ↦ insert_rows i ps d'
  ]

  -- The old chunks go, the new ones come, and the row counts them.
  unfoldable pub rechunked_db : ℕ → ℕ → List (Prepared x) → Db → Option Db
  unfolding insert_rows delete_chunks set_chunk_count
  rechunked_db now i ps d = elim (insert_rows i ps (delete_chunks req.collection i d)) [
    | none ↦ none
    | some d' ↦ some (set_chunk_count now req.collection i (length ps) d')
  ]

  unfoldable pub rebuilt_db : ℕ → List (Prepared x) → Db → Option Db
  unfolding insert_or_update_document rechunked_db
  rebuilt_db now ps d =
      let (i, d') =
        insert_or_update_document now req.collection req.document_id (fields_of x req json)
          (hash_text x req.content) d in
      rechunked_db now i ps d'

module _ (x : External) (cfg : Config x) (req : UpsertDocumentRequest x) (json : Text)
    (force_reindex : Bool) where
  -- `d` becomes `d'`, and the caller gets `stats`: nothing is done, the metadata is refreshed, or the
  -- document is built anew, as `d` asks for.
  pub data Writes (d d' : Db) (stats : DocumentStats) : Type 0 where
    unchanged :
        (snap : DocumentSnapshot)
        → snapshot_of_row x (find_document req.collection req.document_id d.documents) ≡ ok snap
        → classify_document_write x snap req (hash_text x req.content) json force_reindex ≡ noop
        → d' ≡ d
        → stats ≡ new_document_stats x req (hash_text x req.content) snap.chunk_count
        → Writes d d' stats
    refreshed :
        (snap : DocumentSnapshot) (now : ℕ)
        → snapshot_of_row x (find_document req.collection req.document_id d.documents) ≡ ok snap
        → classify_document_write x snap req (hash_text x req.content) json force_reindex
          ≡ metadata_refresh
        → d' ≡ refreshed_db x req json now snap.internal_id d
        → stats ≡ new_document_stats x req (hash_text x req.content) snap.chunk_count
        → Writes d d' stats
    rebuilt :
        (snap : DocumentSnapshot) (now : ℕ) (ps : List (Prepared x))
        → snapshot_of_row x (find_document req.collection req.document_id d.documents) ≡ ok snap
        → classify_document_write x snap req (hash_text x req.content) json force_reindex ≡ reindex
        → prepare_document_write x cfg req.content ≡ ok ps
        → rebuilt_db x req json now ps d ≡ some d'
        → stats ≡ new_document_stats x req (hash_text x req.content) (length ps)
        → Writes d d' stats
