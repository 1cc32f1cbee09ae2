-- ===== src/Documents/Commit.antt =====
-- store.go: `commitCheapDocumentWrite`, `commitReindexDocumentWrite` and `writeDocument` behind its
-- tests, against the step of Documents/Effect.
use simplykb.Prelude.{
  ℕ, ◌≡◌, ◌≢◌, refl, sym, ◌∙◌, Bool, false, Option, none, some, List, Bool-cases, inl, inr,
}
use simplykb.Text.{Text}
use simplykb.External.{External}
use simplykb.Errors.{ok, begin_tx, write_lock, load_snapshot}
use simplykb.Types.{UpsertDocumentRequest, DocumentStats}
use simplykb.Config.{Config}
use simplykb.Database.Rows.{Db}
use simplykb.Database.Session.{World, Action}
use simplykb.Database.Post.{
  Ensures, >>=-Ensures, lift-Ensures, lift_last-Ensures, pure-Ensures, if-Ensures, Ensures-weaken,
}
use simplykb.Database.Calls.{
  Stable, Untouched, InTx, begin_tx-Ensures, wait_for_lock-Ensures, pool_query-Ensures,
}
use simplykb.Documents.Snapshot.{
  DocumentWriteAction, noop, metadata_refresh, reindex, DocumentSnapshot, hash_text,
  snapshot_of_row, classify_document_write,
}
use simplykb.Documents.Prepare.{Prepared, prepare_document_write}
use simplykb.Documents.Transactions.{
  load_committed, cheap_write, commit_cheap_document_write, rebuild, reindex_write,
  commit_reindex_document_write,
}
use simplykb.Documents.Write.{or_restart, perform, write_accepted}
use simplykb.Documents.Effect.{Writes, unchanged, refreshed, rebuilt}
use simplykb.Documents.Failures.{snapshot_of_row_error, prepare_error}
use simplykb.Documents.Linear.{
  SnapshotOf, load_locked-Ensures, refresh-Ensures, finish-Ensures, rebuild-Ensures,
}

module _ (x : External) (J : Db → Type 0) (cfg : Config x) (req : UpsertDocumentRequest x)
    (json : Text) (force_reindex : Bool) where
  -- The write took effect in one step from a database with `J`.
  abbrev pub TookEffect : DocumentStats → World → Type 0
  TookEffect stats w = (d : Db) × J d × Writes x cfg req json force_reindex d w.committed stats

  -- A commit took effect, or asks for a restart and has done nothing.
  abbrev Committed : Option DocumentStats → World → Type 0
  Committed none w = Stable J w
  Committed (some stats) w = TookEffect stats w

  took_effect :
      (r : Option DocumentStats) (stats : DocumentStats) (w : World)
      → r ≡ some stats
      → TookEffect stats w
      → Committed r w
  took_effect none stats w e t = cc
  took_effect (some s) stats w e t = let same : s ≡ stats = cc in rw same t

  cheap_write-Ensures :
      (n : ℕ) (d : Db) (snap : DocumentSnapshot) (action : DocumentWriteAction) (w : World)
      → force_reindex ≡ false
      → J d
      → SnapshotOf x J req json d snap
      → classify_document_write x snap req (hash_text x req.content) json false ≡ action
      → InTx J n d w
      → Ensures
          (cheap_write x req (hash_text x req.content) json snap action)
          w
          Committed
          (Untouched J)
  unfolding cheap_write
  cheap_write-Ensures n d snap noop w free j seen class t =
      Ensures-weaken _ _ w
        (λ r w' q. took_effect r _ w' q.0 (d, j, unchanged snap seen (rw free class) q.1 refl))
        (finish-Ensures x J req json _ n d snap.chunk_count w t)
  cheap_write-Ensures n d snap metadata_refresh w free j seen class t =
      >>=-Ensures _ _ _ w (refresh-Ensures x J req json n d snap w t) (λ _ w₁ t₁.
        Ensures-weaken _ _ w₁
          (λ r w' q. took_effect r _ w' q.0 (d, j, refreshed snap n seen (rw free class) q.1 refl))
          (finish-Ensures x J req json _ n _ snap.chunk_count w₁ t₁))
  cheap_write-Ensures n d snap reindex w free j seen class t = pure-Ensures none w t.stable

  commit_cheap-Ensures :
      (w : World)
      → force_reindex ≡ false
      → Stable J w
      → Ensures
          (commit_cheap_document_write x req (hash_text x req.content) json)
          w
          Committed
          (Untouched J)
  unfolding commit_cheap_document_write
  commit_cheap-Ensures w free s = >>=-Ensures _ _ _ w (begin_tx-Ensures J begin_tx w s) (λ _ w₁ s₁.
      >>=-Ensures _ _ _ w₁ (wait_for_lock-Ensures J write_lock w₁ s₁) (λ _ w₂ (n, d, j, t).
        >>=-Ensures _ _ _ w₂ (load_locked-Ensures x J req json n d w₂ t)
          (λ snap w₃ q. cheap_write-Ensures n d snap _ w₃ free j q.0 refl q.1)))

  rebuild_effect :
      (n : ℕ) (d : Db) (snap : DocumentSnapshot) (w : World) (ps : List (Prepared x))
      → J d
      → SnapshotOf x J req json d snap
      → classify_document_write x snap req (hash_text x req.content) json force_reindex ≡ reindex
      → prepare_document_write x cfg req.content ≡ ok ps
      → InTx J n d w
      → Ensures (rebuild x req (hash_text x req.content) json ps) w Committed (Untouched J)
  rebuild_effect n d snap w ps j seen class prepared t =
      Ensures-weaken _ _ w
        (λ r w' q. took_effect r _ w' q.0 (d, j, rebuilt snap n ps seen class prepared q.1 refl))
        (rebuild-Ensures x J req json n ps d w t)

  reindex_write-Ensures :
      (n : ℕ) (d : Db) (snap : DocumentSnapshot) (ps : List (Prepared x))
      (action : DocumentWriteAction) (w : World)
      → force_reindex ≡ false
      → J d
      → SnapshotOf x J req json d snap
      → classify_document_write x snap req (hash_text x req.content) json false ≡ action
      → prepare_document_write x cfg req.content ≡ ok ps
      → InTx J n d w
      → Ensures
          (reindex_write x req (hash_text x req.content) json ps snap action)
          w
          Committed
          (Untouched J)
  unfolding reindex_write
  reindex_write-Ensures n d snap ps noop w free j seen class prepared t =
      unfold cheap_write in cheap_write-Ensures n d snap noop w free j seen class t
  reindex_write-Ensures n d snap ps metadata_refresh w free j seen class prepared t =
      unfold cheap_write in cheap_write-Ensures n d snap metadata_refresh w free j seen class t
  reindex_write-Ensures n d snap ps reindex w free j seen class prepared t =
      rebuild_effect n d snap w ps j seen (rw free class) prepared t

  commit_reindex-Ensures :
      (ps : List (Prepared x)) (expected : DocumentSnapshot) (w : World)
      → prepare_document_write x cfg req.content ≡ ok ps
      → Stable J w
      → Ensures
          (commit_reindex_document_write x req
            (hash_text x req.content)
            json
            ps
            expected
            force_reindex)
          w
          Committed
          (Untouched J)
  unfolding commit_reindex_document_write
  commit_reindex-Ensures ps expected w prepared s =
      >>=-Ensures _ _ _ w (begin_tx-Ensures J begin_tx w s) (λ _ w₁ s₁.
        >>=-Ensures _ _ _ w₁ (wait_for_lock-Ensures J write_lock w₁ s₁) (λ _ w₂ (n, d, j, t).
          >>=-Ensures _ _ _ w₂ (load_locked-Ensures x J req json n d w₂ t) (λ snap w₃ q.
            if-Ensures _ _ _ w₃
              (λ same.
                if-Ensures _ _ _ w₃
                  (λ forced.
                    rebuild_effect n d snap w₃ ps j q.0
                      (rw forced (unfold classify_document_write in refl)) prepared q.1)
                  (λ free. reindex_write-Ensures n d snap ps _ w₃ free j q.0 refl prepared q.1))
              (λ changed. pure-Ensures none w₃ q.1.stable))))

  or_restart-Ensures :
      (restart : Action DocumentStats) (r : Option DocumentStats) (w : World)
      → ((w' : World) → Stable J w' → Ensures restart w' TookEffect (Untouched J))
      → Committed r w
      → Ensures (or_restart x restart r) w TookEffect (Untouched J)
  unfolding or_restart
  or_restart-Ensures restart none w again c = again w c
  or_restart-Ensures restart (some stats) w again c = pure-Ensures stats w c

  -- An action that is not a rebuild is chosen only where none is forced.
  not_forced :
      (snap : DocumentSnapshot) (hash : Text) (action : DocumentWriteAction)
      → classify_document_write x snap req hash json force_reindex ≡ action
      → action ≢ reindex
      → force_reindex ≡ false
  unfolding classify_document_write
  not_forced snap hash action class other = elim (Bool-cases force_reindex) [
    | inl forced ↦ absurd (other (sym class ∙ rw forced refl))
    | inr free ↦ free
  ]

  perform-Ensures :
      (existing : DocumentSnapshot) (restart : Action DocumentStats) (action : DocumentWriteAction)
      (w : World)
      → classify_document_write x existing req (hash_text x req.content) json force_reindex ≡ action
      → ((w' : World) → Stable J w' → Ensures restart w' TookEffect (Untouched J))
      → Stable J w
      → Ensures
          (perform x cfg req (hash_text x req.content) json force_reindex existing restart action)
          w
          TookEffect
          (Untouched J)
  unfolding perform
  perform-Ensures existing restart reindex w class again s =
      lift-Ensures (prepare_document_write x cfg req.content) _ w
        (λ ps prepared.
          >>=-Ensures _ _ _ w (commit_reindex-Ensures ps existing w prepared s)
            (λ r w'. or_restart-Ensures restart r w' again))
        (λ e h. (s, prepare_error x cfg req.content e h))
  perform-Ensures existing restart noop w class again s =
      >>=-Ensures _ _ _ w (commit_cheap-Ensures w (not_forced existing _ noop class (λ e. cc)) s)
        (λ r w'. or_restart-Ensures restart r w' again)
  perform-Ensures existing restart metadata_refresh w class again s =
      >>=-Ensures _ _ _ w
        (commit_cheap-Ensures w (not_forced existing _ metadata_refresh class (λ e. cc)) s)
        (λ r w'. or_restart-Ensures restart r w' again)

  pub write_accepted-Ensures :
      (restart : Action DocumentStats) (w : World)
      → ((w' : World) → Stable J w' → Ensures restart w' TookEffect (Untouched J))
      → Stable J w
      → Ensures (write_accepted x cfg req json force_reindex restart) w TookEffect (Untouched J)
  unfolding write_accepted load_committed
  write_accepted-Ensures restart w again s =
      >>=-Ensures (λ _. Stable J) _ _ w
        (>>=-Ensures (λ _. Stable J) _ _ w
          (Ensures-weaken _ _ w (λ _ _ (_, _, _, s'). s')
            (pool_query-Ensures J load_snapshot _ w s))
          (λ row w₁ s₁.
            lift_last-Ensures (snapshot_of_row x row) w₁ (λ _ _. s₁)
              (λ e h. (s₁, snapshot_of_row_error x row e h))))
        (λ existing w₁ s₁. perform-Ensures existing restart _ w₁ refl again s₁)
