-- ===== src/Collections.antt =====
-- collection.go
pub mod Kept
mod Tests
use simplykb.Prelude.{ℕ, Option, some, [], if◌then◌else◌}
use simplykb.Text.{Text, text_eq, trim_space}
use simplykb.External.{External}
use simplykb.Errors.{
  collection_required, read_collection_stats, begin_delete_tx, delete_collection_documents,
  commit_delete,
}
use simplykb.Types.{CollectionStats}
use simplykb.Requests.Names.{resolve_collection}
use simplykb.Store.{Store, ensure_ready}
use simplykb.Database.Statements.{count_collection, delete_documents}
use simplykb.Database.Session
use simplykb.Database.Session.{Action, pure, raise, lift, in_tx, pool_query, ◌>>=◌, ◌>>◌}

module _ (x : External) (s : Option (Store x)) where
  -- `count(*)` is an `int64`, as are the fields that take it.
  unfoldable pub collection_stats : Text → Action CollectionStats
  unfolding ensure_ready resolve_collection count_collection
  collection_stats collection = do
    store ← lift (ensure_ready s)
    let name = resolve_collection store.cfg.default_collection collection
    counts ← pool_query read_collection_stats (count_collection name)
    pure (record { collection = name; document_count = counts.0; chunk_count = counts.1 })

  -- The transaction takes no lock: other sessions may commit before its statement, and are assumed
  -- not to between the statement and the commit.
  unfoldable pub delete_collection : Text → Action Unit
  unfolding ensure_ready trim_space delete_documents
  delete_collection collection =
      if text_eq (trim_space collection) [] then raise collection_required else do
        _ ← lift (ensure_ready s)
        Session.begin_tx begin_delete_tx
        Session.new_snapshot
        in_tx delete_collection_documents (λ now db.
            some (tt, delete_documents (λ d. text_eq d.collection (trim_space collection)) db))
        Session.commit commit_delete
