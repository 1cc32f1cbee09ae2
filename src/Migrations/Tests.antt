-- ===== src/Migrations/Tests.antt =====
-- Migrations at a concrete store and database.
use simplykb.Prelude.{ℕ, ◌≡◌, refl, arith, true, some, [], ◌∷◌, pos}
use simplykb.Text.{runes, text_discrete}
use simplykb.Requests.Tests.{plain}
use simplykb.Errors.{Result, ok}
use simplykb.Config.{normalized}
use simplykb.Documents.Tests.{no_schema, empty_db, store, quiet, busy, busy-Stable}
use simplykb.Database.Rows.{AppliedMigration, Db}
use simplykb.Database.Counts.{IsCounted}
use simplykb.Database.Post.{Ensures}
use simplykb.Database.Calls.{Stable, Untouched}
use simplykb.Database.Alone.{alone}
use simplykb.Migrations.Parsed.{parse_vector_dimensions-vector_type}
use simplykb.Migrations.Migrated.{IsMigrated, Migrated, migrate-Ensures}
use simplykb.Migrations.Again.{migrate-again}
use simplykb.Migrations.Fresh.{fresh}
use simplykb.Migrations.Completes.{migrate_fresh}
use simplykb.Database.Session.{World, begin_tx, wait_for_lock, in_tx, commit, ◌>>=◌}
use simplykb.Migrations.Dimensions.{parse_vector_dimensions, vector_type}
use simplykb.Migrations.Versions.{Pgvector, schema_migrations, has_text}
use simplykb.Migrations.Migrate.{migrate, has_version, check_embedding_type}

parse-vector_type : parse_vector_dimensions (vector_type 1536) ≡ ok (pos 1536)
unfolding parse_vector_dimensions vector_type
parse-vector_type = refl

abbrev anything : Pgvector
anything = record { column_allowed = λ n. true; index_allowed = λ t. true }

abbrev is_ok : Result {0} Unit × World → Result {0} Unit
is_ok (r, w) = r

migrate-quiet : is_ok (migrate plain anything (some store) quiet) ≡ ok tt
unfolding migrate ◌>>=◌ begin_tx wait_for_lock in_tx commit normalized text_discrete
migrate-quiet = refl

parse_vector_dimensions-vector_type_example :
    parse_vector_dimensions (vector_type 1536) ≡ ok (pos 1536)
parse_vector_dimensions-vector_type_example =
    parse_vector_dimensions-vector_type 1536 (omega arith) (omega arith)

migrate-Ensures_example :
    Ensures
      (migrate plain anything (some store))
      busy
      (λ _. Migrated plain anything IsCounted store.cfg.embedding_dimensions)
      (Untouched IsCounted)
migrate-Ensures_example = migrate-Ensures plain anything IsCounted store busy refl busy-Stable

abbrev row : ℕ → AppliedMigration
row v = record { version = v; name = [] }

offers_search : has_text (runes "pg_search") no_schema.extensions ≡ true
unfolding has_text text_discrete
offers_search = refl

offers_vector : has_text (runes "vector") no_schema.extensions ≡ true
unfolding has_text text_discrete
offers_vector = refl

-- What `Migrate` left, with an index of someone else.
abbrev migrated_db : Db
migrated_db = record empty_db {
  schema = record {
    extensions = runes "pg_search" ∷ runes "vector" ∷ [];
    applied = some (row 4 ∷ row 3 ∷ row 2 ∷ row 1 ∷ []);
    embedding_type = some (vector_type 1);
    indexes = runes "other" ∷ [];
  };
}

abbrev later : World
later = record quiet { committed = migrated_db }

later-Stable : Stable (λ d. IsCounted d × IsMigrated store.cfg.embedding_dimensions d.schema) later
unfolding has_version schema_migrations check_embedding_type parse_vector_dimensions vector_type
    normalized
later-Stable = record {
  holds = (
    tt,
    record {
      recorded = ((_, refl, refl), ((_, refl, refl), ((_, refl, refl), ((_, refl, refl), tt))));
      embedding = refl;
    },
  );
  kept = tt;
}

migrate-again_example :
    Ensures
      (migrate plain anything (some store))
      later
      (λ _ w'.
        IsCounted w'.committed × IsMigrated store.cfg.embedding_dimensions w'.committed.schema)
      (Untouched (λ d. IsCounted d × IsMigrated store.cfg.embedding_dimensions d.schema))
migrate-again_example = migrate-again plain anything IsCounted store later refl later-Stable

store_dimensions : store.cfg.embedding_dimensions ≡ pos 1
unfolding normalized
store_dimensions = refl

migrate_fresh_example :
    (w : World) × (migrate plain anything
        (some store)
        (alone (record empty_db { schema = fresh no_schema.extensions [] }) empty_db 0 (1 ∷ []))
      ≡ (ok tt, w))
    × IsMigrated (pos 1) w.committed.schema
migrate_fresh_example =
    migrate_fresh plain anything store no_schema.extensions [] 1 empty_db empty_db 0 (1 ∷ []) refl
      store_dimensions (omega arith) (omega arith) offers_search offers_vector refl refl
