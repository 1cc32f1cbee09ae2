-- ===== src/Database/Calls.antt =====
-- What each database call does, among sessions that keep a predicate `J` of the database.
use simplykb.Prelude.{
  ℕ, ◌≡◌, ◌≢◌, refl, sym, Option, some, List, [], ◌∷◌, All, Bool-cases, Option-cases, inl, inr,
}
use mathlib.Core.Path.{subst, ◌∙◌}
use simplykb.Errors.{Error, Stage, statement, out_of_fuel}
use simplykb.Database.Rows.{Db}
use simplykb.Database.Session.{
  World, in_tx, begin_tx, wait_for_lock, new_snapshot, commit, pool_query, pool_exec, settle,
  next_fault, used, next_time, later_times,
}
use simplykb.Database.Post.{Ensures, Ensures-weaken, returns, fails}

-- The committed database has `J`, and whatever other sessions will commit keeps it.
pub record Stable (J : Db → Type 0) (w : World) : Type 0 where
  pub holds : J w.committed
  pub kept : All (λ (f : Db → Db). (d : Db) → J d → J (f d)) w.others

-- After an error nothing of ours is committed, and the error is one of the program.
abbrev pub Untouched : (Db → Type 0) → Error → World → Type 0
Untouched J e w = Stable J w × (e ≢ out_of_fuel)

-- In a transaction that works on the copy `d` at time `n`.
pub record InTx (J : Db → Type 0) (n : ℕ) (d : Db) (w : World) : Type 0 where
  pub stable : Stable J w
  pub working : w.working ≡ d
  pub time : w.now ≡ n

module _ (J : Db → Type 0) where
  settle-Stable : (w : World) → Stable J w → Stable J (settle w)
  unfolding settle
  settle-Stable w s = go w.others s.kept
    where
      go :
          (fs : List (Db → Db))
          → All (λ (f : Db → Db). (d : Db) → J d → J (f d)) fs
          → Stable J (settle (record w { others = fs }))
      go [] k = record { holds = s.holds; kept = tt }
      go (f ∷ fs) k = record { holds = k.0 w.committed s.holds; kept = k.1 }

  pub begin_tx-InTx :
      (stage : Stage) (w : World)
      → Stable J w
      → Ensures (begin_tx stage) w (λ _ w'. (n : ℕ) × (d : Db) × J d × InTx J n d w') (Untouched J)
  unfolding begin_tx
  begin_tx-InTx stage w s =
      let t = settle-Stable w s in
      elim (Bool-cases (next_fault w.faults)) [
        | inl fault ↦
            fails _ w (used (settle w)) (statement stage) (rw (fault, begin_tx))
              (record { holds = t.holds; kept = t.kept }, λ e. cc)
        | inr fine ↦
            returns _ w
              (record (used (settle w)) {
                working = (settle w).committed;
                now = next_time w.times;
                times = later_times w.times;
              })
              tt (rw (fine, begin_tx))
              (
                next_time w.times,
                (settle w).committed,
                t.holds,
                record {
                  stable = record { holds = t.holds; kept = t.kept };
                  working = refl;
                  time = refl;
                },
              )
      ]

  pub begin_tx-Ensures :
      (stage : Stage) (w : World)
      → Stable J w
      → Ensures (begin_tx stage) w (λ _. Stable J) (Untouched J)
  begin_tx-Ensures stage w s =
      Ensures-weaken _ _ w (λ _ _ (_, _, _, t). t.stable) (begin_tx-InTx stage w s)

  pub wait_for_lock-Ensures :
      (stage : Stage) (w : World)
      → Stable J w
      → Ensures
          (wait_for_lock stage)
          w
          (λ _ w'. (n : ℕ) × (d : Db) × J d × InTx J n d w')
          (Untouched J)
  unfolding wait_for_lock
  wait_for_lock-Ensures stage w s =
      let t = settle-Stable w s in
      elim (Bool-cases (next_fault w.faults)) [
        | inl fault ↦
            fails _ w (used (settle w)) (statement stage) (rw (fault, wait_for_lock))
              (record { holds = t.holds; kept = t.kept }, λ e. cc)
        | inr fine ↦
            returns _ w (record (used (settle w)) { working = (settle w).committed }) tt
              (rw (fine, wait_for_lock))
              (
                (settle w).now,
                (settle w).committed,
                t.holds,
                record {
                  stable = record { holds = t.holds; kept = t.kept };
                  working = refl;
                  time = refl;
                },
              )
      ]

  pub new_snapshot-Ensures :
      (w : World)
      → Stable J w
      → Ensures new_snapshot w (λ _ w'. (n : ℕ) × (d : Db) × J d × InTx J n d w') (Untouched J)
  unfolding new_snapshot
  new_snapshot-Ensures w s =
      let t = settle-Stable w s in
      returns _ w (record (settle w) { working = (settle w).committed }) tt refl
        (
          (settle w).now,
          (settle w).committed,
          t.holds,
          record {
            stable = record { holds = t.holds; kept = t.kept };
            working = refl;
            time = refl;
          },
        )

  pub in_tx-Ensures :
      {A : Type 0} (stage : Stage) (f : ℕ → Db → Option (A × Db)) (n : ℕ) (d : Db) (w : World)
      → InTx J n d w
      → Ensures
          (in_tx stage f)
          w
          (λ a w'. (d' : Db) × (f n d ≡ some (a, d')) × InTx J n d' w')
          (Untouched J)
  unfolding in_tx
  in_tx-Ensures {A} stage f n d w t = elim (Bool-cases (next_fault w.faults)) [
    | inl fault ↦
        fails _ w (used w) (statement stage) (rw (fault, in_tx))
          (record { holds = t.stable.holds; kept = t.stable.kept }, λ e. cc)
    | inr fine ↦ elim (Option-cases (f w.now w.working)) [
      | inl refused ↦
          fails _ w (used w) (statement stage) (rw (fine, refused, in_tx))
            (record { holds = t.stable.holds; kept = t.stable.kept }, λ e. cc)
      | inr (r, done) ↦
          returns _ w (record (used w) { working = r.1 }) r.0 (rw (fine, done, in_tx))
            (
              r.1,
              rw (← t.working, ← t.time) done,
              record {
                stable = record { holds = t.stable.holds; kept = t.stable.kept };
                working = refl;
                time = t.time;
              },
            )
    ]
  ]

  -- A statement that no constraint refuses.
  pub in_tx_known :
      {A : Type 0} (stage : Stage) (f : ℕ → Db → Option (A × Db)) (n : ℕ) (d d' : Db) (a : A)
      (w : World)
      → f n d ≡ some (a, d')
      → InTx J n d w
      → Ensures (in_tx stage f) w (λ b w'. (b ≡ a) × InTx J n d' w') (Untouched J)
  in_tx_known {A} stage f n d d' a w known t =
      Ensures-weaken (λ b w'. (e : Db) × (f n d ≡ some (b, e)) × InTx J n e w') (in_tx stage f) w
        (λ b w' q. same_result b q.0 (sym q.1 ∙ known) w' q.2) (in_tx-Ensures stage f n d w t)
    where
      same_result :
          (b : A) (e : Db)
          → ◌≡◌ {A = Option (A × Db)} (some (b, e)) (some (a, d'))
          → (w' : World) → InTx J n e w'
          → (b ≡ a) × InTx J n d' w'
      same_result b e h w' t' =
          let e≡d' : e ≡ d' = cc in ((cc), subst (λ (z : Db). InTx J n z w') e≡d' t')

  pub commit-Ensures :
      (stage : Stage) (n : ℕ) (d : Db) (w : World)
      → InTx J n d w
      → Ensures (commit stage) w (λ _ w'. w'.committed ≡ d) (Untouched J)
  unfolding commit
  commit-Ensures stage n d w t = elim (Bool-cases (next_fault w.faults)) [
    | inl fault ↦
        fails _ w (used w) (statement stage) (rw (fault, commit))
          (record { holds = t.stable.holds; kept = t.stable.kept }, λ e. cc)
    | inr fine ↦
        returns _ w (record (used w) { committed = w.working }) tt (rw (fine, commit)) t.working
  ]

  pub pool_query-Ensures :
      {A : Type 0} (stage : Stage) (f : Db → A) (w : World)
      → Stable J w
      → Ensures
          (pool_query stage f)
          w
          (λ a w'. (d : Db) × J d × (a ≡ f d) × Stable J w')
          (Untouched J)
  unfolding pool_query
  pool_query-Ensures stage f w s =
      let t = settle-Stable w s in
      elim (Bool-cases (next_fault w.faults)) [
        | inl fault ↦
            fails _ w (used (settle w)) (statement stage) (rw (fault, pool_query))
              (record { holds = t.holds; kept = t.kept }, λ e. cc)
        | inr fine ↦
            returns _ w (used (settle w)) (f (settle w).committed) (rw (fine, pool_query))
              ((settle w).committed, t.holds, refl, record { holds = t.holds; kept = t.kept })
      ]

  pub pool_exec-Ensures :
      (stage : Stage) (f : Db → Db) (w : World)
      → Stable J w
      → Ensures (pool_exec stage f) w (λ _ w'. (d : Db) × J d × (w'.committed ≡ f d)) (Untouched J)
  unfolding pool_exec
  pool_exec-Ensures stage f w s =
      let t = settle-Stable w s in
      elim (Bool-cases (next_fault w.faults)) [
        | inl fault ↦
            fails _ w (used (settle w)) (statement stage) (rw (fault, pool_exec))
              (record { holds = t.holds; kept = t.kept }, λ e. cc)
        | inr fine ↦
            returns _ w (record (used (settle w)) { committed = f (settle w).committed }) tt
              (rw (fine, pool_exec)) ((settle w).committed, t.holds, refl)
      ]
