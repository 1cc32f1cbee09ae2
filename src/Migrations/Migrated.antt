-- ===== src/Migrations/Migrated.antt =====
-- store.go: what `Migrate` leaves when it returns, among other sessions.
use mathlib.Core.Path.{subst}
use simplykb.Prelude.{ℕ, ℤ, ◌≡◌, refl, sym, ap, ◌∙◌, true, Option, none, some, List, All}
use simplykb.External.{External}
use simplykb.Errors.{
  ok, begin_migration, load_extensions, migration_lock, bootstrap_migrations, load_migrations,
  load_embedding_type, commit_migrations,
}
use simplykb.Store.{Store, ensure_ready, ensure_ready-ready}
use simplykb.Database.Rows.{AppliedMigration, Schema, Db}
use simplykb.Database.Session.{World, commit, ◌>>=◌}
use simplykb.Database.Post.{Ensures, Ensures-weaken, >>=-Ensures, lift-ok, lift_last-Ensures}
use simplykb.Database.Calls.{
  Stable, Untouched, InTx, begin_tx-InTx, in_tx-Ensures, in_tx_known, wait_for_lock-Ensures,
  commit-Ensures,
}
use simplykb.Migrations.Versions.{Pgvector, Migration, schema_migrations}
use simplykb.Migrations.Migrate.{
  has_version, versions, applied_versions, apply_migrations, validate_required_extensions,
  check_embedding_type, ensure_required_extensions, ensure_embedding_dimensions, migrate_ready,
  migrate,
}
use simplykb.Migrations.Recorded.{Recorded, KeepsRows, KeepsRows-trans}
use simplykb.Migrations.Loop.{apply_migrations-Ensures}
use simplykb.Migrations.Refusals.{IsClean-err, validate-IsClean, check_embedding_type-IsClean}

-- Every migration is recorded, and the column `embedding` has the configured dimensions.
pub record IsMigrated (dimensions : ℤ) (s : Schema) : Type 0 where
  pub recorded : All (λ (m : Migration). Recorded m.version s) (schema_migrations dimensions)
  pub embedding : check_embedding_type dimensions s.embedding_type ≡ ok tt

pub applied_versions-some :
    (d d' : Db) (a : List ℕ)
    → applied_versions d ≡ some (a, d')
    → (d' ≡ d) × ((v : ℕ) → has_version v a ≡ true → Recorded v d.schema)
applied_versions-some d d' a h = by_table d.schema.applied refl
  where
    read_versions : Option (List AppliedMigration) → Option (List ℕ × Db)
    read_versions o = elim o as (λ _. Option (List ℕ × Db)) [
      | none ↦ none
      | some l ↦ some (versions l, d)
    ]

    by_table :
        (o : Option (List AppliedMigration))
        → d.schema.applied ≡ o
        → (d' ≡ d) × ((v : ℕ) → has_version v a ≡ true → Recorded v d.schema)
    by_table none is =
        let stop : ◌≡◌ {A = Option (List ℕ × Db)} none (some (a, d')) =
          sym (ap read_versions is) ∙ h in
        absurd (cc)
    by_table (some l) is =
        let done : ◌≡◌ {A = Option (List ℕ × Db)} (some (versions l, d)) (some (a, d')) =
          sym (ap read_versions is) ∙ h in
        let read : versions l ≡ a = cc in ((cc), λ v has. (l, is, rw read has))

module _ (x : External) (pg : Pgvector) (J : Db → Type 0) where
  pub required-Ensures :
      (n : ℕ) (d : Db) (w : World)
      → InTx J n d w
      → Ensures (ensure_required_extensions x pg) w (λ _. Stable J) (Untouched J)
  unfolding ensure_required_extensions
  required-Ensures n d w t =
      >>=-Ensures _ _ _ w (in_tx_known J load_extensions _ n d d _ w refl t)
        (λ available w₁ (_, t₁).
          lift_last-Ensures (validate_required_extensions available) w₁ (λ _ _. t₁.stable)
            (λ e bad. (t₁.stable, IsClean-err _ e (validate-IsClean available) bad)))

  pub dimensions-Ensures :
      (expected : ℤ) (n : ℕ) (d : Db) (w : World)
      → InTx J n d w
      → Ensures
          (ensure_embedding_dimensions x pg expected)
          w
          (λ _ w'. InTx J n d w' × (check_embedding_type expected d.schema.embedding_type ≡ ok tt))
          (Untouched J)
  unfolding ensure_embedding_dimensions
  dimensions-Ensures expected n d w t =
      >>=-Ensures _ _ _ w
        (in_tx_known J load_embedding_type _ n d d d.schema.embedding_type w refl t)
        (λ type_name w₁ (read, t₁).
          lift_last-Ensures (check_embedding_type expected type_name) w₁
            (λ _ fine. (t₁, sym (ap (check_embedding_type expected) read) ∙ fine))
            (λ e bad.
              (t₁.stable, IsClean-err _ e (check_embedding_type-IsClean expected type_name) bad)))

  -- A database with `J` became what is committed: with the same rows, and migrated.
  abbrev pub Migrated : ℤ → World → Type 0
  Migrated dimensions w =
      (d : Db) × J d × KeepsRows d w.committed × IsMigrated dimensions w.committed.schema

  -- From the loop on.
  finish-Ensures :
      (dimensions : ℤ) (applied : List ℕ) (d : Db) (n : ℕ) (d₁ : Db) (w : World)
      → J d
      → KeepsRows d d₁
      → ((v : ℕ) → has_version v applied ≡ true → Recorded v d₁.schema)
      → InTx J n d₁ w
      → Ensures
          (do
            _ ← apply_migrations pg applied (schema_migrations dimensions)
            _ ← ensure_embedding_dimensions x pg dimensions
            commit commit_migrations)
          w
          (λ _. Migrated dimensions)
          (Untouched J)
  finish-Ensures dimensions applied d n d₁ w j rows known t =
      >>=-Ensures _ _ _ w
        (apply_migrations-Ensures J pg n applied (schema_migrations dimensions) d₁ w known t)
        (λ _ w₁ g.
          >>=-Ensures _ _ _ w₁ (dimensions-Ensures dimensions n g.copy w₁ g.in_tx)
            (λ _ w₂ (t₂, fine).
              Ensures-weaken _ _ w₂
                (λ _ w₃ committed.
                  let (kept, migrated) =
                    subst (λ (e : Db). KeepsRows d e × IsMigrated dimensions e.schema)
                      (sym committed)
                      (
                        KeepsRows-trans rows g.rows,
                        record { recorded = g.more; embedding = fine },
                      ) in
                  (d, j, kept, migrated))
                (commit-Ensures J commit_migrations n g.copy w₂ t₂)))

  migrate_ready-Ensures :
      (store : Store x) (w : World)
      → Stable J w
      → Ensures
          (migrate_ready x pg store)
          w
          (λ _. Migrated store.cfg.embedding_dimensions)
          (Untouched J)
  unfolding migrate_ready
  migrate_ready-Ensures store w st =
      let dimensions = store.cfg.embedding_dimensions in
      >>=-Ensures _ _ _ w (begin_tx-InTx J begin_migration w st) (λ _ w₁ (n₁, d₁, _, t₁).
        >>=-Ensures _ _ _ w₁ (required-Ensures n₁ d₁ w₁ t₁) (λ _ w₂ st₂.
          >>=-Ensures _ _ _ w₂ (wait_for_lock-Ensures J migration_lock w₂ st₂)
            (λ _ w₃ (n, d, j, t₃).
              >>=-Ensures _ _ _ w₃ (in_tx_known J bootstrap_migrations _ n d _ tt w₃ refl t₃)
                (λ _ w₄ (_, t₄).
                  >>=-Ensures _ _ _ w₄ (in_tx-Ensures J load_migrations _ n _ w₄ t₄)
                    (λ applied w₅ (d₅, read, t₅).
                      let (same, known) = applied_versions-some _ d₅ applied read in
                      finish-Ensures dimensions applied d n _ w₅ j
                        (record {
                          documents = refl;
                          chunks = refl;
                          document_ids = refl;
                          chunk_ids = refl;
                        })
                        known (subst (λ (e : Db). InTx J n e w₅) same t₅))))))

  -- `Migrate` of a ready store, among sessions that keep a predicate of the database, changes no row of
  -- documents or chunks; where it returns, every migration is recorded and the column of the
  -- embeddings has the configured dimensions, in one step from a database with the predicate, and
  -- where it fails nothing is committed.
  pub migrate-Ensures :
      (s : Store x) (w : World)
      → s.pool ≡ true
      → Stable J w
      → Ensures (migrate x pg (some s)) w (λ _. Migrated s.cfg.embedding_dimensions) (Untouched J)
  unfolding migrate
  migrate-Ensures s w ready st =
      subst (λ m. Ensures m w (λ _. Migrated s.cfg.embedding_dimensions) (Untouched J))
        (sym (lift-ok (ensure_ready (some s)) s (migrate_ready x pg) (ensure_ready-ready s ready)))
        (migrate_ready-Ensures s w st)
