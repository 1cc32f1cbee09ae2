-- ===== src/Migrations/Completes.antt =====
-- store.go: `Migrate` succeeds on a database without tables.
use mathlib.Core.Path.{subst}
use simplykb.Prelude.{
  ℕ, pos, ◌^◌, ◌<◌, ◌≡◌, refl, sym, ap, ◌∙◌, true, arith, some, List, [], select,
}
use simplykb.Text.{Text, runes}
use simplykb.External.{External}
use simplykb.Errors.{ok, begin_migration, migration_lock, commit_migrations}
use simplykb.Store.{Store, ensure_ready, ensure_ready-ready}
use simplykb.Database.Rows.{Db, ℤ_eq}
use simplykb.Database.Session.{World, Action, lift, next_time, later_times}
use simplykb.Database.Post.{lift-ok}
use simplykb.Database.Alone.{
  alone, >>=-ok, in_tx-alone, begin_tx-alone, wait_for_lock-alone, commit-alone,
}
use simplykb.Migrations.Dimensions.{vector_type}
use simplykb.Migrations.Parsed.{parse_vector_dimensions-vector_type}
use simplykb.Migrations.Versions.{
  Pgvector, schema_migrations, has_text, bootstrap, create_index, drop_index,
}
use simplykb.Migrations.Migrate.{
  has_version, apply_migrations, check_embedding_type, ensure_required_extensions,
  ensure_embedding_dimensions, migrate_ready, migrate,
}
use simplykb.Migrations.Fresh.{
  fresh, named, validate-offered, bootstrapped, after_fourth, apply_all,
}
use simplykb.Migrations.Migrated.{IsMigrated}

check-vector_type :
    (k : ℕ) → 0 < k → k < 2 ^ 63 → check_embedding_type (pos k) (some (vector_type k)) ≡ ok tt
unfolding check_embedding_type
check-vector_type k positive fits =
    let equal : ℤ_eq (pos k) (pos k) ≡ true = ground arith in
    rw (parse_vector_dimensions-vector_type k positive fits, check_embedding_type, equal) refl

module _ (x : External) (pg : Pgvector) (exts indexes : List Text) (k : ℕ) (c : Db) (n : ℕ)
    (ts : List ℕ) where
  abbrev before : Db
  before = record c { schema = fresh exts indexes }

  abbrev after : Db
  after = record c { schema = after_fourth pg exts indexes k }

  required_alone :
      has_text (runes "pg_search") exts ≡ true
      → has_text (runes "vector") exts ≡ true
      → ensure_required_extensions x pg (alone before before n ts)
        ≡ (ok tt, alone before before n ts)
  unfolding ensure_required_extensions lift
  required_alone search vector =
      >>=-ok _ _ _ (alone before before n ts) (select named exts) _
        (in_tx-alone _ _ before before before n ts (select named exts) refl)
        (rw (validate-offered exts search vector) refl)

  dimensions_alone :
      0 < k
      → k < 2 ^ 63
      → ensure_embedding_dimensions x pg (pos k) (alone before after n ts)
        ≡ (ok tt, alone before after n ts)
  unfolding ensure_embedding_dimensions lift create_index drop_index
  dimensions_alone positive fits =
      >>=-ok _ _ _ (alone before after n ts) (some (vector_type k)) _
        (in_tx-alone _ _ before after after n ts (some (vector_type k)) refl)
        (rw (check-vector_type k positive fits) refl)

module _ (x : External) (pg : Pgvector) (s : Store x) (exts indexes : List Text) (k : ℕ) (c d : Db)
    (n : ℕ) (ts : List ℕ) where
  abbrev start : Db
  start = before x pg exts indexes k c n ts

  abbrev done : Db
  done = after x pg exts indexes k c n ts

  migrate_ready_fresh :
      s.cfg.embedding_dimensions ≡ pos k
      → 0 < k
      → k < 2 ^ 63
      → has_text (runes "pg_search") exts ≡ true
      → has_text (runes "vector") exts ≡ true
      → pg.column_allowed k ≡ true
      → pg.index_allowed (vector_type k) ≡ true
      → migrate_ready x pg s (alone start d n ts)
        ≡ (ok tt, alone done done (next_time ts) (later_times ts))
  unfolding migrate_ready
  migrate_ready_fresh is positive fits search vector column index =
      let m = next_time ts in
      let rest = later_times ts in
      >>=-ok _ _ _ (alone start start m rest) tt _ (begin_tx-alone begin_migration start d n ts) (
        >>=-ok _ _ _ (alone start start m rest) tt _
          (required_alone x pg exts indexes k c m rest search vector)
          (>>=-ok _ _ _ (alone start start m rest) tt _
            (wait_for_lock-alone migration_lock start start m rest)
            (>>=-ok _ _ _
              (alone start (record c { schema = bootstrapped pg exts indexes k }) m rest) tt _
              (in_tx-alone _ _ start start _ m rest tt (unfold bootstrap in refl))
              (>>=-ok _ _ _
                (alone start (record c { schema = bootstrapped pg exts indexes k }) m rest) [] _
                (in_tx-alone _ _ start _ _ m rest [] refl)
                (>>=-ok _ _ _ (alone start done m rest) tt _
                  (subst
                    (λ z.
                      apply_migrations pg [] (schema_migrations z)
                        (alone start (record c { schema = bootstrapped pg exts indexes k }) m rest)
                      ≡ (ok tt, alone start done m rest))
                    (sym is) (apply_all pg exts indexes k start m rest search vector column index))
                  (>>=-ok _ _ _ (alone start done m rest) tt _
                    (subst
                      (λ z.
                        ensure_embedding_dimensions x pg z (alone start done m rest)
                        ≡ (ok tt, alone start done m rest))
                      (sym is) (dimensions_alone x pg exts indexes k c m rest positive fits))
                    (commit-alone commit_migrations start done m rest)))))))

  -- `Migrate` of a ready store succeeds, and leaves a migrated database, where the database has no
  -- tables, the server offers both extensions, pgvector accepts a column and an index of the
  -- configured dimensions, no call fails, and no other session commits.
  pub migrate_fresh :
      s.pool ≡ true
      → s.cfg.embedding_dimensions ≡ pos k
      → 0 < k
      → k < 2 ^ 63
      → has_text (runes "pg_search") exts ≡ true
      → has_text (runes "vector") exts ≡ true
      → pg.column_allowed k ≡ true
      → pg.index_allowed (vector_type k) ≡ true
      → (w : World) × (migrate x pg
            (some s)
            (alone (record c { schema = fresh exts indexes }) d n ts)
          ≡ (ok tt, w))
        × IsMigrated (pos k) w.committed.schema
  unfolding migrate
  migrate_fresh ready is positive fits search vector column index = (
    alone done done (next_time ts) (later_times ts),
    ap (λ (m : Action (Unit {0})). m (alone start d n ts))
          (lift-ok (ensure_ready (some s)) s (migrate_ready x pg) (ensure_ready-ready s ready))
        ∙ migrate_ready_fresh is positive fits search vector column index,
    record {
      recorded =
          unfold schema_migrations in
          unfold has_version in
          unfold create_index in
          unfold drop_index in
          ((_, refl, refl), ((_, refl, refl), ((_, refl, refl), ((_, refl, refl), tt))));
      embedding = unfold create_index in unfold drop_index in check-vector_type k positive fits;
    },
  )
