-- ===== src/Documents/Write.antt =====
-- store.go: `UpsertDocument`, `ReindexDocument` and `DeleteDocument`, and what they call.
use simplykb.Prelude.{
  ℕ, zero, suc, ◌+◌, Bool, true, false, Option, none, some, [], leb, if◌then◌else◌, pos, ltb_ℤ,
}
use simplykb.Text.{Text, text_eq, trim_space, byte_length}
use simplykb.External.{External}
use simplykb.Errors.{
  Result, ok, err, document_id_required, document_too_large, marshal_metadata, changed_concurrently,
  out_of_fuel, delete_document_row,
}
use simplykb.Types.{UpsertDocumentRequest, DocumentStats}
use simplykb.Requests.Names.{
  normalize_document_request, validate_document_request, resolve_collection,
}
use simplykb.Config.{Config}
use simplykb.Store.{Store, ensure_ready}
use simplykb.Database.Rows.{has_key}
use simplykb.Database.Statements.{delete_documents}
use simplykb.Database.Session.{Action, pure, raise, lift, pool_exec, ◌>>=◌}
use simplykb.Documents.Snapshot.{
  DocumentWriteAction, reindex, DocumentSnapshot, hash_text, canonical_metadata_json,
  classify_document_write,
}
use simplykb.Documents.Prepare.{prepare_document_write}
use simplykb.Documents.Transactions.{
  load_committed, commit_cheap_document_write, commit_reindex_document_write,
}

module _ (x : External) where
  -- What the end of `writeDocument` does with the result of a commit.
  unfoldable pub or_restart : Action DocumentStats → Option DocumentStats → Action DocumentStats
  or_restart restart none = restart
  or_restart restart (some stats) = pure stats

  -- The `switch` of `writeDocument`.
  unfoldable pub perform :
      Config x
      → UpsertDocumentRequest x
      → Text
      → Text
      → Bool
      → DocumentSnapshot
      → Action DocumentStats
      → DocumentWriteAction
      → Action DocumentStats
  unfolding commit_cheap_document_write commit_reindex_document_write prepare_document_write
      or_restart
  perform cfg req content_hash metadata_json force_reindex existing restart reindex = do
    prepared ← lift (prepare_document_write x cfg req.content)
    result ←
        commit_reindex_document_write x req content_hash metadata_json prepared existing
          force_reindex
    or_restart restart result
  perform cfg req content_hash metadata_json force_reindex existing restart _ = do
    result ← commit_cheap_document_write x req content_hash metadata_json
    or_restart restart result

  -- `writeDocument` from the load of the snapshot on, for a request that is normalised and accepted.
  unfoldable pub write_accepted :
      Config x → UpsertDocumentRequest x → Text → Bool → Action DocumentStats → Action DocumentStats
  unfolding hash_text load_committed perform classify_document_write
  write_accepted cfg req metadata_json force_reindex restart = do
    existing ← load_committed x req.collection req.document_id
    perform cfg req (hash_text x req.content) metadata_json force_reindex existing restart (
        classify_document_write x existing req (hash_text x req.content) metadata_json
          force_reindex)

  -- The tests of `writeDocument` on the normalised request; the result is the metadata's JSON.
  unfoldable pub accept : Config x → UpsertDocumentRequest x → Result Text
  unfolding validate_document_request canonical_metadata_json byte_length
  accept cfg req = elim (validate_document_request x req) [
    | some e ↦ err e
    | none ↦
        if ltb_ℤ cfg.max_document_bytes (pos (byte_length req.content))
        then err (document_too_large cfg.max_document_bytes)
        else elim (canonical_metadata_json x req.metadata) [
          | none ↦ err marshal_metadata
          | some json ↦ ok json
        ]
  ]

  module _ (s : Option (Store x)) where
    -- `writeDocument` and `restartDocumentWrite`; `fuel` bounds the calls that are nested.
    unfoldable pub write_document : ℕ → UpsertDocumentRequest x → Bool → ℕ → Action DocumentStats
    unfolding ensure_ready normalize_document_request accept write_accepted
    write_document zero req force_reindex attempt = raise out_of_fuel
    write_document (suc fuel) req force_reindex attempt = do
      store ← lift (ensure_ready s)
      let normal = normalize_document_request x store.cfg.default_collection req
      metadata_json ← lift (accept store.cfg normal)
      write_accepted store.cfg normal metadata_json force_reindex (λ w.
          if leb 1 attempt
          then raise changed_concurrently w
          else write_document fuel normal force_reindex (attempt + 1) w)

    unfoldable pub upsert_document : UpsertDocumentRequest x → Action DocumentStats
    unfolding write_document
    upsert_document req = write_document 2 req false 0

    unfoldable pub reindex_document : UpsertDocumentRequest x → Action DocumentStats
    unfolding write_document
    reindex_document req = write_document 2 req true 0

    unfoldable pub delete_document : Text → Text → Action Unit
    unfolding ensure_ready resolve_collection trim_space delete_documents
    delete_document collection document_id = do
      store ← lift (ensure_ready s)
      if text_eq (trim_space document_id) []
          then raise document_id_required
          else pool_exec delete_document_row (
              delete_documents (
                has_key (resolve_collection store.cfg.default_collection collection)
                  (trim_space document_id)))
