-- ===== src/Documents/Linear.antt =====
-- store.go: the statements of a write in its transaction, against the step of Documents/Effect.
use mathlib.Core.Option
use simplykb.Prelude.{ℕ, ◌≡◌, refl, Option, none, some, List, [], ◌∷◌, length}
use simplykb.Text.{Text}
use simplykb.External.{External}
use simplykb.Errors.{
  ok, load_snapshot, commit_tx, update_document_metadata, update_chunk_metadata, upsert_row,
  delete_old_chunks, insert_chunks, close_batch, update_chunk_count,
}
use simplykb.Types.{UpsertDocumentRequest}
use simplykb.Database.Rows.{Db, find_document}
use simplykb.Database.Statements.{
  update_documents, insert_or_update_document, delete_chunks, insert_chunk, set_chunk_count,
}
use simplykb.Database.Session.{World}
use simplykb.Database.Post.{Ensures, >>=-Ensures, lift_last-Ensures, pure-Ensures, Ensures-weaken}
use simplykb.Database.Calls.{Untouched, InTx, in_tx-Ensures, in_tx_known, commit-Ensures}
use simplykb.Documents.Snapshot.{DocumentSnapshot, hash_text, snapshot_of_row, new_document_stats}
use simplykb.Documents.Prepare.{Prepared}
use simplykb.Documents.Transactions.{
  fields_of, load_locked, refresh_document_metadata, finish, chunk_row, insert_all,
  replace_document_chunks, upsert_document_row, rebuild,
}
use simplykb.Documents.Failures.{snapshot_of_row_error}
use simplykb.Documents.Effect.{refreshed_db, insert_rows, rechunked_db, rebuilt_db}

inserted :
    (o : Option Db) (u : Unit {0}) (d : Db)
    → Option.map {B = Unit {0} × Db} (λ (db : Db). (tt, db)) o ≡ some (u, d)
    → o ≡ some d
inserted none u d e = cc
inserted (some d') u d e = cc

module _ (x : External) (J : Db → Type 0) (req : UpsertDocumentRequest x) (json : Text) where
  -- The snapshot of the document in a database.
  abbrev pub SnapshotOf : Db → DocumentSnapshot → Type 0
  SnapshotOf d snap =
      snapshot_of_row x (find_document req.collection req.document_id d.documents) ≡ ok snap

  -- A transaction loads the snapshot of the copy that it works on.
  pub load_locked-Ensures :
      (n : ℕ) (d : Db) (w : World)
      → InTx J n d w
      → Ensures
          (load_locked x req.collection req.document_id)
          w
          (λ snap w'. SnapshotOf d snap × InTx J n d w')
          (Untouched J)
  unfolding load_locked
  load_locked-Ensures n d w t =
      >>=-Ensures
        (λ row w'. (row ≡ find_document req.collection req.document_id d.documents) × InTx J n d w')
        _ _ w (in_tx_known J load_snapshot _ n d d _ w refl t)
        (λ row w' q.
          lift_last-Ensures (snapshot_of_row x row) w' (λ snap e. (rw q.0 at e, q.1))
            (λ e h. (q.1.stable, snapshot_of_row_error x row e h)))

  -- The metadata in both tables.
  pub refresh-Ensures :
      (n : ℕ) (d : Db) (snap : DocumentSnapshot) (w : World)
      → InTx J n d w
      → Ensures
          (refresh_document_metadata x snap req json)
          w
          (λ _. InTx J n (refreshed_db x req json n snap.internal_id d))
          (Untouched J)
  unfolding refresh_document_metadata refreshed_db
  refresh-Ensures n d snap w t =
      >>=-Ensures
        (λ _.
          InTx J n (update_documents n req.collection snap.internal_id (fields_of x req json) d))
        _ _ w
        (Ensures-weaken _ _ w (λ _ _ q. q.1)
          (in_tx_known J update_document_metadata _ n d _ tt w refl t))
        (λ _ w' t'.
          Ensures-weaken _ _ w' (λ _ _ q. q.1)
            (in_tx_known J update_chunk_metadata _ n _ _ tt w' refl t'))

  -- The commit, with the statistics.
  pub finish-Ensures :
      (hash : Text) (n : ℕ) (d : Db) (count : ℕ) (w : World)
      → InTx J n d w
      → Ensures
          (finish x req hash count)
          w
          (λ r w'. (r ≡ some (new_document_stats x req hash count)) × (w'.committed ≡ d))
          (Untouched J)
  unfolding finish
  finish-Ensures hash n d count w t =
      >>=-Ensures (λ _ w'. w'.committed ≡ d) _ _ w (commit-Ensures J commit_tx n d w t)
        (λ _ w' done. pure-Ensures _ w' (refl, done))

  insert_all-Ensures :
      (i n : ℕ) (ps : List (Prepared x)) (d : Db) (w : World)
      → InTx J n d w
      → Ensures
          (insert_all x req i json ps)
          w
          (λ _ w'. (d' : Db) × (insert_rows x req json i ps d ≡ some d') × InTx J n d' w')
          (Untouched J)
  unfolding insert_all insert_rows
  insert_all-Ensures i n [] d w t = pure-Ensures tt w (d, refl, t)
  insert_all-Ensures i n (p ∷ ps) d w t =
      >>=-Ensures
        (λ _ w'. (d' : Db) × (insert_chunk (chunk_row x req i json p) d ≡ some d') × InTx J n d' w')
        _ _ w
        (Ensures-weaken _ _ w (λ _ w' q. (q.0, inserted _ _ q.0 q.1, q.2))
          (in_tx-Ensures J insert_chunks _ n d w t))
        (λ _ w' q.
          Ensures-weaken _ _ w' (λ _ w'' r. (r.0, rw (q.1, insert_rows) r.1, r.2))
            (insert_all-Ensures i n ps q.0 w' q.2))

  replace_chunks-Ensures :
      (i n : ℕ) (ps : List (Prepared x)) (d : Db) (w : World)
      → InTx J n d w
      → Ensures
          (replace_document_chunks x req i json ps)
          w
          (λ _ w'. (d' : Db) × (rechunked_db x req json n i ps d ≡ some d') × InTx J n d' w')
          (Untouched J)
  unfolding replace_document_chunks rechunked_db
  replace_chunks-Ensures i n ps d w t =
      >>=-Ensures (λ _. InTx J n (delete_chunks req.collection i d)) _ _ w
        (Ensures-weaken _ _ w (λ _ _ q. q.1) (in_tx_known J delete_old_chunks _ n d _ tt w refl t))
        (λ _ w₁ t₁. >>=-Ensures _ _ _ w₁ (insert_all-Ensures i n ps _ w₁ t₁) (λ _ w₂ q.
          >>=-Ensures (λ _. InTx J n q.0) _ _ w₂
            (Ensures-weaken _ _ w₂ (λ _ _ r. r.1)
              (in_tx_known J close_batch _ n q.0 _ tt w₂ refl q.2))
            (λ _ w₃ t₃.
              Ensures-weaken _ _ w₃
                (λ _ w₄ r. (
                  set_chunk_count n req.collection i (length ps) q.0,
                  rw (q.1, rechunked_db) refl,
                  r.1,
                ))
                (in_tx_known J update_chunk_count _ n q.0 _ tt w₃ refl t₃))))

  pub rebuild-Ensures :
      (n : ℕ) (ps : List (Prepared x)) (d : Db) (w : World)
      → InTx J n d w
      → Ensures
          (rebuild x req (hash_text x req.content) json ps)
          w
          (λ r w'.
            (r ≡ some (new_document_stats x req (hash_text x req.content) (length ps)))
            × (rebuilt_db x req json n ps d ≡ some w'.committed))
          (Untouched J)
  unfolding rebuild upsert_document_row rebuilt_db
  rebuild-Ensures n ps d w t =
      let up =
        insert_or_update_document n req.collection req.document_id (fields_of x req json)
          (hash_text x req.content) d in
      >>=-Ensures (λ i w'. (i ≡ up.0) × InTx J n up.1 w') _ _ w
        (in_tx_known J upsert_row _ n d up.1 up.0 w refl t)
        (λ i w₁ q. >>=-Ensures _ _ _ w₁ (replace_chunks-Ensures i n ps up.1 w₁ q.1) (λ _ w₂ r.
          Ensures-weaken _ _ w₂ (λ _ w₃ f. (f.0, rw (← q.0, f.1) r.1))
            (finish-Ensures _ n r.0 (length ps) w₂ r.2)))
