-- ===== src/Migrations/Again.antt =====
-- store.go: `Migrate` on a database that is migrated.
use mathlib.Core.Path.{subst}
use simplykb.Prelude.{
  ℕ, ℤ, ◌≡◌, refl, sym, ap, ◌∙◌, true, Option, none, some, List, [], ◌∷◌, All, All-weaken,
}
use simplykb.External.{External}
use simplykb.Errors.{
  begin_migration, migration_lock, bootstrap_migrations, load_migrations, commit_migrations,
}
use simplykb.Store.{Store, ensure_ready, ensure_ready-ready}
use simplykb.Database.Rows.{AppliedMigration, Schema, Db}
use simplykb.Database.Session.{World, pure, commit, ◌>>=◌}
use simplykb.Database.Post.{Ensures, Ensures-weaken, >>=-Ensures, pure-Ensures, lift-ok}
use simplykb.Database.Calls.{
  Stable, Untouched, InTx, begin_tx-InTx, in_tx_known, wait_for_lock-Ensures, commit-Ensures,
}
use simplykb.Migrations.Versions.{Pgvector, Migration, schema_migrations, bootstrap}
use simplykb.Migrations.Migrate.{
  has_version, versions, apply_migrations, ensure_embedding_dimensions, migrate_ready, migrate,
}
use simplykb.Migrations.Recorded.{Recorded}
use simplykb.Migrations.Migrated.{IsMigrated, required-Ensures, dimensions-Ensures}

bootstrap_again : (s : Schema) (l : List AppliedMigration) → s.applied ≡ some l → bootstrap s ≡ s
unfolding bootstrap
bootstrap_again s l is =
    ap (λ (o : Option (List AppliedMigration)). record s { applied = o }) (same s.applied is)
  where
    same :
        (o : Option (List AppliedMigration))
        → o ≡ some l
        → (elim o as (λ _. Option (List AppliedMigration)) [ none ↦ some [] | some k ↦ some k ]) ≡ o
    same none e = absurd (cc)
    same (some k) e = refl

-- Nothing is applied that is recorded.
apply_migrations-recorded :
    (pg : Pgvector) (applied : List ℕ) (ms : List Migration)
    → All (λ (m : Migration). has_version m.version applied ≡ true) ms
    → apply_migrations pg applied ms ≡ pure tt
unfolding apply_migrations
apply_migrations-recorded pg applied [] a = refl
apply_migrations-recorded pg applied (m ∷ ms) a =
    rw (a.0, apply_migrations) (apply_migrations-recorded pg applied ms a.1)

Recorded-has_version :
    (v : ℕ) (s : Schema) (l : List AppliedMigration)
    → s.applied ≡ some l
    → Recorded v s
    → has_version v (versions l) ≡ true
Recorded-has_version v s l is (k, k_is, has) =
    subst (λ (o : List AppliedMigration). has_version v (versions o) ≡ true)
      (some_eq (sym k_is ∙ is)) has
  where
    some_eq : {a b : List AppliedMigration} → some a ≡ some b → a ≡ b
    some_eq e = cc

module _ (x : External) (pg : Pgvector) (J : Db → Type 0) where
  finish_again-Ensures :
      (dimensions : ℤ) (applied : List ℕ) (n : ℕ) (d : Db) (w : World)
      → J d
      → All (λ (m : Migration). has_version m.version applied ≡ true) (schema_migrations dimensions)
      → InTx J n d w
      → Ensures
          (do
            _ ← apply_migrations pg applied (schema_migrations dimensions)
            _ ← ensure_embedding_dimensions x pg dimensions
            commit commit_migrations)
          w
          (λ _ w'. J w'.committed)
          (Untouched J)
  finish_again-Ensures dimensions applied n d w j all t =
      >>=-Ensures (λ _ w'. InTx J n d w') _ _ w
        (subst (λ m. Ensures m w (λ _ w'. InTx J n d w') (Untouched J))
          (sym (apply_migrations-recorded pg applied (schema_migrations dimensions) all))
          (pure-Ensures tt w t))
        (λ _ w₁ t₁.
          >>=-Ensures _ _ _ w₁ (dimensions-Ensures x pg J dimensions n d w₁ t₁) (λ _ w₂ (t₂, _).
            Ensures-weaken _ _ w₂ (λ _ w₃ committed. subst J (sym committed) j)
              (commit-Ensures J commit_migrations n d w₂ t₂)))

module _ (x : External) (pg : Pgvector) (J : Db → Type 0) where
  abbrev K : ℤ → Db → Type 0
  K dimensions d = J d × IsMigrated dimensions d.schema

  read_versions : Db → Option (List AppliedMigration) → Option (List ℕ × Db)
  read_versions d o = elim o as (λ _. Option (List ℕ × Db)) [
    | none ↦ none
    | some l ↦ some (versions l, d)
  ]

  migrate_ready-again :
      (store : Store x) (w : World)
      → Stable (K store.cfg.embedding_dimensions) w
      → Ensures
          (migrate_ready x pg store)
          w
          (λ _ w'. K store.cfg.embedding_dimensions w'.committed)
          (Untouched (K store.cfg.embedding_dimensions))
  unfolding migrate_ready read_versions
  migrate_ready-again store w st =
      >>=-Ensures _ _ _ w (begin_tx-InTx (K store.cfg.embedding_dimensions) begin_migration w st)
        (λ _ w₁ (n₁, d₁, _, t₁).
          >>=-Ensures _ _ _ w₁
            (required-Ensures x pg (K store.cfg.embedding_dimensions) n₁ d₁ w₁ t₁)
            (λ _ w₂ st₂.
              >>=-Ensures _ _ _ w₂
                (wait_for_lock-Ensures (K store.cfg.embedding_dimensions) migration_lock w₂ st₂)
                (λ _ w₃ (n, d, j, t₃).
                  let (l, is, _) = j.1.recorded.0 in
                  >>=-Ensures _ _ _ w₃
                    (in_tx_known (K store.cfg.embedding_dimensions) bootstrap_migrations _ n d d tt
                      w₃
                      (ap (λ (s : Schema). some (tt, record d { schema = s }))
                        (bootstrap_again d.schema l is))
                      t₃)
                    (λ _ w₄ (_, t₄).
                      >>=-Ensures _ _ _ w₄
                        (in_tx_known (K store.cfg.embedding_dimensions) load_migrations _ n d d
                          (versions l) w₄ (ap (read_versions d) is) t₄)
                        (λ applied w₅ (read, t₅).
                          finish_again-Ensures x pg (K store.cfg.embedding_dimensions)
                            store.cfg.embedding_dimensions applied n d w₅ j
                            (subst
                              (λ (vs : List ℕ).
                                All (λ (m : Migration). has_version m.version vs ≡ true)
                                  (schema_migrations store.cfg.embedding_dimensions))
                              (sym read)
                              (All-weaken (λ (m : Migration). Recorded m.version d.schema) _
                                (schema_migrations store.cfg.embedding_dimensions)
                                (λ m r. Recorded-has_version m.version d.schema l is r)
                                j.1.recorded))
                            t₅)))))

  -- `Migrate` of a ready store on a migrated database, among sessions that keep it migrated, changes
  -- nothing: every predicate of the database that the other sessions keep holds of what is
  -- committed, which is still migrated.
  pub migrate-again :
      (s : Store x) (w : World)
      → s.pool ≡ true
      → Stable (λ d. J d × IsMigrated s.cfg.embedding_dimensions d.schema) w
      → Ensures
          (migrate x pg (some s))
          w
          (λ _ w'. J w'.committed × IsMigrated s.cfg.embedding_dimensions w'.committed.schema)
          (Untouched (λ d. J d × IsMigrated s.cfg.embedding_dimensions d.schema))
  unfolding migrate
  migrate-again s w ready st =
      subst
        (λ m.
          Ensures m w (λ _ w'. K s.cfg.embedding_dimensions w'.committed)
            (Untouched (K s.cfg.embedding_dimensions)))
        (sym (lift-ok (ensure_ready (some s)) s (migrate_ready x pg) (ensure_ready-ready s ready)))
        (migrate_ready-again s w st)
