-- ===== src/Documents/Counted.antt =====
-- store.go: the writes and deletions of documents, and the column `chunk_count`.
use mathlib.Core.Path.{subst}
use mathlib.Core.Option.{some-injective}
use simplykb.Prelude.{
  ℕ, ◌+◌, ◌≡◌, sym, ◌∙◌, Bool, true, none, some, List, [], ◌∷◌, length, arith, Option-cases, inl,
  inr,
}
use simplykb.Text.{Text}
use simplykb.External.{External}
use simplykb.Errors.{Result, ok, err}
use simplykb.Types.{UpsertDocumentRequest, DocumentStats}
use simplykb.Config.{Config}
use simplykb.Store.{Store}
use simplykb.Requests.Names.{normalize_document_request, resolve_collection}
use simplykb.Database.Rows.{Db}
use simplykb.Database.Session.{World}
use simplykb.Database.Statements.{delete_chunks, insert_chunk, set_chunk_count}
use simplykb.Database.Counts.{
  number_of_chunks, IsCounted, IsCountedBut, refresh-IsCounted, delete_chunks-IsCountedBut,
  insert_chunk-IsCountedBut, set_chunk_count-IsCounted, insert_or_update-IsCountedBut,
}
use simplykb.Database.Removed.{Removed}
use simplykb.Database.Post.{Post, Ensures}
use simplykb.Database.Calls.{Stable, Untouched}
use simplykb.Documents.Snapshot.{hash_text}
use simplykb.Documents.Prepare.{Prepared}
use simplykb.Documents.Transactions.{fields_of, chunk_row}
use simplykb.Documents.Write.{write_document}
use simplykb.Documents.Effect.{
  refreshed_db, insert_rows, rechunked_db, rebuilt_db, Writes, unchanged, refreshed, rebuilt,
}
use simplykb.Documents.Restart.{Took, write_document-Ensures}

module _ (x : External) (req : UpsertDocumentRequest x) (json : Text) where
  insert_rows-IsCountedBut :
      (i : ℕ) (ps : List (Prepared x)) (db db' : Db)
      → insert_rows x req json i ps db ≡ some db'
      → IsCountedBut req.collection i db
      → IsCountedBut req.collection i db'
        × (number_of_chunks req.collection i db'.chunks
            ≡ length ps + number_of_chunks req.collection i db.chunks)
  unfolding insert_rows
  insert_rows-IsCountedBut i [] db db' h counted =
      subst
        (λ (e : Db).
          IsCountedBut req.collection i e
          × (number_of_chunks req.collection i e.chunks
              ≡ 0 + number_of_chunks req.collection i db.chunks))
        (some-injective db db' h) (counted, omega arith)
  insert_rows-IsCountedBut i (p ∷ ps) db db' h counted =
      elim (Option-cases (insert_chunk (chunk_row x req i json p) db)) [
        | inl clash ↦ let refused : none ≡ some db' = (rw (clash, insert_rows) at h) in absurd (cc)
        | inr (d, done) ↦
            let (counted', more) =
              insert_chunk-IsCountedBut (chunk_row x req i json p) db d done counted in
            let (counted'', total) =
              insert_rows-IsCountedBut i ps d db' (rw (done, insert_rows) at h) counted' in
            (counted'', total ∙ omega (arith, more))
      ]

  rechunked-IsCounted :
      (now i : ℕ) (ps : List (Prepared x)) (db db' : Db)
      → rechunked_db x req json now i ps db ≡ some db'
      → IsCountedBut req.collection i db
      → IsCounted db'
  unfolding rechunked_db
  rechunked-IsCounted now i ps db db' h counted =
      elim (Option-cases (insert_rows x req json i ps (delete_chunks req.collection i db))) [
        | inl clash ↦ let refused : none ≡ some db' = (rw (clash, rechunked_db) at h) in absurd (cc)
        | inr (d, done) ↦
            let (counted₁, none_left) = delete_chunks-IsCountedBut req.collection i db counted in
            let (counted₂, total) = insert_rows-IsCountedBut i ps _ d done counted₁ in
            let written : some (set_chunk_count now req.collection i (length ps) d) ≡ some db' =
              (rw (done, rechunked_db) at h) in
            subst IsCounted (some-injective _ db' written) (
              set_chunk_count-IsCounted now req.collection i (length ps) d counted₂
                (total ∙ omega (arith, none_left)))
      ]

  rebuilt-IsCounted :
      (now : ℕ) (ps : List (Prepared x)) (db db' : Db)
      → rebuilt_db x req json now ps db ≡ some db'
      → IsCounted db
      → IsCounted db'
  unfolding rebuilt_db
  rebuilt-IsCounted now ps db db' h counted = rechunked-IsCounted now _ ps _ db' h (
      insert_or_update-IsCountedBut now req.collection req.document_id (fields_of x req json)
        (hash_text x req.content) db counted)

  refreshed-IsCounted :
      (now i : ℕ) (db : Db) → IsCounted db → IsCounted (refreshed_db x req json now i db)
  unfolding refreshed_db
  refreshed-IsCounted now i db h =
      refresh-IsCounted now req.collection i (fields_of x req json) db h

module _ (x : External) where
  Writes-IsCounted :
      (cfg : Config x) (req : UpsertDocumentRequest x) (json : Text) (force_reindex : Bool)
      (d d' : Db) (stats : DocumentStats)
      → Writes x cfg req json force_reindex d d' stats
      → IsCounted d
      → IsCounted d'
  Writes-IsCounted cfg req json force_reindex d d' stats (unchanged snap seen class same answer) h =
      subst IsCounted (sym same) h
  Writes-IsCounted cfg req json force_reindex d d' stats (refreshed snap now seen class same answer)
        h =
      subst IsCounted (sym same) (refreshed-IsCounted x req json now snap.internal_id d h)
  Writes-IsCounted cfg req json force_reindex d d' stats
        (rebuilt snap now ps seen class prepared done answer) h =
      rebuilt-IsCounted x req json now ps d d' done h

  -- From a database in which every document's `chunk_count` is the number of its chunks, and among
  -- sessions that keep it so, a write of a document, forced or not, by a ready store whose default
  -- collection is blank or trimmed, leaves such a database, whether it returns or fails.
  pub write_document-IsCounted :
      (s : Store x) (force_reindex : Bool) (req : UpsertDocumentRequest x) (w : World)
      → s.pool ≡ true
      → resolve_collection s.cfg.default_collection s.cfg.default_collection
        ≡ s.cfg.default_collection
      → Stable IsCounted w
      → Ensures
          (write_document x (some s) 2 req force_reindex 0)
          w
          (λ _ w'. IsCounted w'.committed)
          (λ _ w'. IsCounted w'.committed)
  write_document-IsCounted s force_reindex req w ready fixed st = record {
    post =
        kept (write_document x (some s) 2 req force_reindex 0 w)
          (write_document-Ensures x s force_reindex ready IsCounted fixed 0 req w st).post;
  }
    where
      kept :
          (p : Result DocumentStats × World)
          → Post p
              (Took x s force_reindex IsCounted
                (normalize_document_request x s.cfg.default_collection req))
              (Untouched IsCounted)
          → Post p (λ _ w'. IsCounted w'.committed) (λ _ w'. IsCounted w'.committed)
      kept (ok stats, w') (json, accepted, (d, counted, writes)) =
          Writes-IsCounted s.cfg _ json force_reindex d w'.committed stats writes counted
      kept (err e, w') (stable, _) = stable.holds
