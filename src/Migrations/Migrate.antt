-- ===== src/Migrations/Migrate.antt =====
-- store.go: `Migrate` with everything that it calls.
use simplykb.Prelude.{
  ℕ, ℤ, Bool, false, not, Option, none, some, List, [], ◌∷◌, ◌==◌, ◌||◌, if◌then◌else◌, map, select,
}
use simplykb.Text.{Text}
use simplykb.External.{External}
use simplykb.Errors.{
  Result, ok, err, missing_extensions, embedding_column_missing, dimension_mismatch,
  begin_migration, load_extensions, migration_lock, bootstrap_migrations, load_migrations,
  apply_migration, record_migration, load_embedding_type, commit_migrations,
}
use simplykb.Store.{Store, ensure_ready}
use simplykb.Database.Rows.{AppliedMigration, Schema, Db, ℤ_eq}
use simplykb.Database.Session
use simplykb.Database.Session.{Action, pure, lift, in_tx, wait_for_lock, ◌>>=◌, ◌>>◌}
use simplykb.Migrations.Dimensions.{parse_vector_dimensions}
use simplykb.Migrations.Versions.{
  Pgvector, Migration, required_extension_names, schema_migrations, has_text, bootstrap, run_sql,
}

unfoldable pub validate_required_extensions : List Text → Result {0} Unit
unfolding has_text
validate_required_extensions available =
    elim (select (λ name. not (has_text name available)) required_extension_names) [
      | [] ↦ ok tt
      | name ∷ rest ↦ err (missing_extensions (name ∷ rest))
    ]

-- The checks of `ensureEmbeddingDimensions`, on the type that it found.
unfoldable pub check_embedding_type : ℤ → Option Text → Result {0} Unit
unfolding parse_vector_dimensions
check_embedding_type expected none = err embedding_column_missing
check_embedding_type expected (some type_name) = elim (parse_vector_dimensions type_name) [
  | err problem ↦ err problem
  | ok actual ↦ if ℤ_eq actual expected then ok tt else err (dimension_mismatch actual expected)
]

-- The keys of the map `applied`.
unfoldable pub has_version : ℕ → List ℕ → Bool
has_version v [] = false
has_version v (u ∷ l) = u == v || has_version v l

abbrev pub versions : List AppliedMigration → List ℕ
versions l = map (λ (a : AppliedMigration). a.version) l

-- `INSERT INTO kb_schema_migrations`, with its primary key.
unfoldable pub record_version : Migration → Schema → Option Schema
unfolding has_version
record_version m s = elim s.applied [
  | none ↦ none
  | some l ↦
      if has_version m.version (versions l)
      then none
      else some (record s { applied = some ((record { version = m.version; name = m.name }) ∷ l) })
]

abbrev pub on_schema : (Schema → Option Schema) → Db → Option {0} (Unit × Db)
on_schema f db = elim (f db.schema) [ none ↦ none | some s ↦ some (tt, record db { schema = s }) ]

abbrev pub applied_versions : Db → Option (List ℕ × Db)
applied_versions db = elim db.schema.applied [ none ↦ none | some l ↦ some (versions l, db) ]

unfoldable pub apply_one : Pgvector → Migration → Action Unit
unfolding run_sql record_version
apply_one pg m = do
  in_tx (apply_migration m.version) (λ now. on_schema (run_sql pg m.sql))
  in_tx (record_migration m.version) (λ now. on_schema (record_version m))

unfoldable pub apply_migrations : Pgvector → List ℕ → List Migration → Action Unit
unfolding has_version apply_one
apply_migrations pg applied [] = pure tt
apply_migrations pg applied (m ∷ ms) =
    let rest = apply_migrations pg applied ms in
    if has_version m.version applied then rest else apply_one pg m >> rest

module _ (x : External) (pg : Pgvector) where
  unfoldable pub ensure_required_extensions : Action Unit
  unfolding has_text validate_required_extensions
  ensure_required_extensions = do
    available ← in_tx load_extensions (λ now db.
        some (select (λ name. has_text name required_extension_names) db.schema.extensions, db))
    lift (validate_required_extensions available)

  unfoldable pub ensure_embedding_dimensions : ℤ → Action Unit
  unfolding check_embedding_type
  ensure_embedding_dimensions expected = do
    type_name ← in_tx load_embedding_type (λ now db. some (db.schema.embedding_type, db))
    lift (check_embedding_type expected type_name)

  -- After `ensureReady`.
  unfoldable pub migrate_ready : Store x → Action Unit
  unfolding ensure_required_extensions bootstrap apply_migrations schema_migrations
      ensure_embedding_dimensions
  migrate_ready store = do
    Session.begin_tx begin_migration
    _ ← ensure_required_extensions
    wait_for_lock migration_lock
    in_tx bootstrap_migrations (λ now db. some (tt, record db { schema = bootstrap db.schema }))
    applied ← in_tx load_migrations (λ now. applied_versions)
    _ ← apply_migrations pg applied (schema_migrations store.cfg.embedding_dimensions)
    _ ← ensure_embedding_dimensions store.cfg.embedding_dimensions
    Session.commit commit_migrations

  unfoldable pub migrate : Option (Store x) → Action Unit
  unfolding ensure_ready migrate_ready
  migrate s = do store ← lift (ensure_ready s); migrate_ready store

  unfoldable pub ensure_schema : Option (Store x) → Action Unit
  unfolding migrate
  ensure_schema s = migrate s
