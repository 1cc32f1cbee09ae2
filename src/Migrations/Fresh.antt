-- ===== src/Migrations/Fresh.antt =====
-- store.go: `Migrate` on a database without tables, where no call fails and nobody else writes.
use simplykb.Prelude.{
  ℕ, pos, ◌≡◌, Bool-cases, inl, inr, refl, sym, ap, ◌∙◌, Bool, true, false, arith, none, some, List,
  [], ◌∷◌, select,
}
use simplykb.Text.{Text, runes, text_eq, text_eq_iff, text_discrete}
use simplykb.Errors.{ok}
use simplykb.Database.Rows.{AppliedMigration, Schema, Db}
use simplykb.Database.Session.{World, pure}
use simplykb.Database.Alone.{alone, >>=-ok, in_tx-alone}
use simplykb.Migrations.Dimensions.{vector_type}
use simplykb.Migrations.Versions.{
  Pgvector, Migration, base_tables, create_indexes, drop_redundant_indexes, metadata_filter_index,
  required_extension_names, schema_migrations, has_text, create_tables, create_index, drop_index,
  run_sql,
}
use simplykb.Migrations.Migrate.{
  has_version, record_version, on_schema, apply_one, apply_migrations, validate_required_extensions,
}

module _ (pg : Pgvector) (c : Db) (n : ℕ) (ts : List ℕ) where
  apply_one-alone :
      (m : Migration) (d : Db) (s₁ s₂ : Schema)
      → run_sql pg m.sql d.schema ≡ some s₁
      → record_version m s₁ ≡ some s₂
      → apply_one pg m (alone c d n ts) ≡ (ok tt, alone c (record d { schema = s₂ }) n ts)
  unfolding apply_one
  apply_one-alone m d s₁ s₂ ran put =
      >>=-ok _ _ _ (alone c (record d { schema = s₁ }) n ts) tt _
        (in_tx-alone _ _ c d (record d { schema = s₁ }) n ts tt (rw (ran, on_schema) refl))
        (in_tx-alone _ _ c (record d { schema = s₁ }) (record d { schema = s₂ }) n ts tt
          (rw (put, on_schema) refl))

pub has_text-select :
    (p : Text → Bool) (t : Text) (l : List Text)
    → p t ≡ true
    → has_text t l ≡ true
    → has_text t (select p l) ≡ true
unfolding has_text
has_text-select p t [] pt h = cc
has_text-select p t (u ∷ l) pt h = elim (Bool-cases (p u)) [
  | inl yes_it ↦ rw yes_it (ground (arith, has_text-select p t l))
  | inr not_it ↦ elim (Bool-cases (text_eq u t)) [
    | inl same ↦ let bad : false ≡ true = sym not_it ∙ (ap p ((text_eq_iff u t).0 same) ∙ pt) in cc
    | inr other ↦ rw not_it (has_text-select p t l pt (ground arith))
  ]
]

abbrev pub named : Text → Bool
named name = has_text name required_extension_names

pub validate-offered :
    (exts : List Text)
    → has_text (runes "pg_search") exts ≡ true
    → has_text (runes "vector") exts ≡ true
    → validate_required_extensions (select named exts) ≡ ok tt
unfolding validate_required_extensions
validate-offered exts search vector =
    let one =
      has_text-select named (runes "pg_search") exts (unfold has_text text_discrete in refl)
        search in
    let two =
      has_text-select named (runes "vector") exts (unfold has_text text_discrete in refl) vector in
    rw (one, validate_required_extensions, two) refl

-- A schema without the tables.
abbrev pub fresh : List Text → List Text → Schema
fresh exts indexes = record {
  extensions = exts;
  applied = none;
  embedding_type = none;
  indexes = indexes;
}

abbrev pub row : Migration → AppliedMigration
row m = record { version = m.version; name = m.name }

module _ (pg : Pgvector) (exts indexes : List Text) (k : ℕ) where
  abbrev pub first : Migration
  first = record { version = 1; name = runes "base_tables"; sql = base_tables (pos k) }

  abbrev pub second : Migration
  second = record { version = 2; name = runes "indexes"; sql = create_indexes }

  abbrev pub third : Migration
  third = record {
    version = 3;
    name = runes "drop_redundant_indexes";
    sql = drop_redundant_indexes;
  }

  abbrev pub fourth : Migration
  fourth = record { version = 4; name = runes "metadata_filter_index"; sql = metadata_filter_index }

  abbrev pub bootstrapped : Schema
  bootstrapped = record (fresh exts indexes) { applied = some [] }

  abbrev pub with_tables : Schema
  with_tables = record bootstrapped { embedding_type = some (vector_type k) }

  abbrev pub after_first : Schema
  after_first = record with_tables { applied = some (row first ∷ []) }

  abbrev pub indexed : Schema
  indexed =
      create_index (runes "kb_chunks_bm25_idx")
        (create_index (runes "kb_chunks_embedding_idx") after_first)

  abbrev pub after_second : Schema
  after_second = record indexed { applied = some (row second ∷ row first ∷ []) }

  abbrev pub dropped : Schema
  dropped = drop_index (runes "kb_chunks_key_idx") (
      drop_index (runes "kb_chunks_collection_idx")
        (drop_index (runes "kb_documents_collection_idx") after_second))

  abbrev pub after_third : Schema
  after_third = record dropped { applied = some (row third ∷ row second ∷ row first ∷ []) }

  abbrev pub filtered : Schema
  filtered = create_index (runes "kb_chunks_metadata_idx") after_third

  abbrev pub after_fourth : Schema
  after_fourth = record filtered {
    applied = some (row fourth ∷ row third ∷ row second ∷ row first ∷ []);
  }

  run_first :
      has_text (runes "pg_search") exts ≡ true
      → has_text (runes "vector") exts ≡ true
      → pg.column_allowed k ≡ true
      → run_sql pg first.sql bootstrapped ≡ some with_tables
  unfolding run_sql create_tables
  run_first search vector allowed = rw (search, vector, allowed) refl

  run_second :
      pg.index_allowed (vector_type k) ≡ true → run_sql pg second.sql after_first ≡ some indexed
  unfolding run_sql
  run_second allowed = elim (Bool-cases (has_text (runes "kb_chunks_embedding_idx") indexes)) [
    | inl there ↦ rw there refl
    | inr absent ↦ rw (absent, allowed) refl
  ]

  run_third : run_sql pg third.sql after_second ≡ some dropped
  unfolding run_sql
  run_third = refl

  run_fourth : run_sql pg fourth.sql after_third ≡ some filtered
  unfolding run_sql drop_index create_index
  run_fourth = refl

  module _ (c : Db) (n : ℕ) (ts : List ℕ) where
    abbrev pub at : Schema → World
    at s = alone c (record c { schema = s }) n ts

    pub apply_all :
        has_text (runes "pg_search") exts ≡ true
        → has_text (runes "vector") exts ≡ true
        → pg.column_allowed k ≡ true
        → pg.index_allowed (vector_type k) ≡ true
        → apply_migrations pg [] (schema_migrations (pos k)) (at bootstrapped)
          ≡ (ok tt, at after_fourth)
    unfolding apply_migrations schema_migrations has_version pure
    apply_all search vector column index =
        >>=-ok _ _ _ (at after_first) tt _
          (apply_one-alone pg c n ts first (record c { schema = bootstrapped }) with_tables
            after_first (run_first search vector column) (unfold record_version in refl))
          (>>=-ok _ _ _ (at after_second) tt _
            (apply_one-alone pg c n ts second (record c { schema = after_first }) indexed
              after_second (run_second index)
              (unfold record_version in unfold create_index in refl))
            (>>=-ok _ _ _ (at after_third) tt _
              (apply_one-alone pg c n ts third (record c { schema = after_second }) dropped
                after_third run_third (unfold record_version in unfold drop_index in refl))
              (>>=-ok _ _ _ (at after_fourth) tt _
                (apply_one-alone pg c n ts fourth (record c { schema = after_third }) filtered
                  after_fourth run_fourth (unfold record_version in unfold create_index in refl))
                refl)))
