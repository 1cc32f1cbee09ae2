-- ===== src/Migrations/Versions.antt =====
-- schema.go and internal/sdkmeta: the migrations, and what their SQL does to a schema.
use simplykb.Prelude.{
  ℕ, ℤ, pos, negsuc, Bool, false, not, Option, none, some, List, [], ◌∷◌, ◌&&◌, ◌||◌, if◌then◌else◌,
  select,
}
use simplykb.Text.{Text, runes, text_eq}
use simplykb.Database.Rows.{Schema}
use simplykb.Migrations.Dimensions.{vector_type}

-- The SQL of a migration.
pub data MigrationSql : Type 0 where
  base_tables : ℤ → MigrationSql
  create_indexes drop_redundant_indexes metadata_filter_index : MigrationSql

pub record Migration : Type 0 where
  pub version : ℕ
  pub name : Text
  pub sql : MigrationSql

abbrev pub required_extension_names : List Text
required_extension_names = runes "pg_search" ∷ runes "vector" ∷ []

unfoldable pub schema_migrations : ℤ → List Migration
schema_migrations dimensions =
    (record { version = 1; name = runes "base_tables"; sql = base_tables dimensions })
    ∷ (record { version = 2; name = runes "indexes"; sql = create_indexes })
    ∷ (record { version = 3; name = runes "drop_redundant_indexes"; sql = drop_redundant_indexes })
    ∷ (record { version = 4; name = runes "metadata_filter_index"; sql = metadata_filter_index })
    ∷ []

-- What pgvector accepts: a column with so many dimensions, and an HNSW index on a column of a type.
pub record Pgvector : Type 0 where
  pub column_allowed : ℕ → Bool
  pub index_allowed : Text → Bool

unfoldable pub has_text : Text → List Text → Bool
has_text t [] = false
has_text t (u ∷ l) = text_eq u t || has_text t l

-- `CREATE TABLE IF NOT EXISTS kb_schema_migrations`
unfoldable pub bootstrap : Schema → Schema
bootstrap s = record s { applied = elim s.applied [ none ↦ some [] | some l ↦ some l ] }

-- `CREATE INDEX IF NOT EXISTS`, and `DROP INDEX IF EXISTS`
unfoldable pub create_index : Text → Schema → Schema
unfolding has_text
create_index name s = record s {
  indexes = if has_text name s.indexes then s.indexes else name ∷ s.indexes;
}

unfoldable pub drop_index : Text → Schema → Schema
drop_index name s = record s { indexes = select (λ i. not (text_eq i name)) s.indexes }

-- `CREATE TABLE IF NOT EXISTS kb_chunks`, where the column's type has `dimensions`.
unfoldable pub create_tables : Pgvector → ℤ → Schema → Option Schema
unfolding vector_type
create_tables pg (negsuc n) s = none
create_tables pg (pos n) s = elim s.embedding_type [
  | some t ↦ some s
  | none ↦
      if pg.column_allowed n
      then some (record s { embedding_type = some (vector_type n) })
      else none
]

-- `none` is an error of PostgreSQL.
unfoldable pub run_sql : Pgvector → MigrationSql → Schema → Option Schema
unfolding has_text create_index drop_index create_tables
run_sql pg (base_tables dimensions) s =
    if has_text (runes "pg_search") s.extensions && has_text (runes "vector") s.extensions
    then create_tables pg dimensions s
    else none
run_sql pg create_indexes s = elim s.embedding_type [
  | none ↦ none
  | some t ↦
      if has_text (runes "kb_chunks_embedding_idx") s.indexes || pg.index_allowed t
      then some (
          create_index (runes "kb_chunks_bm25_idx")
            (create_index (runes "kb_chunks_embedding_idx") s))
      else none
]
run_sql pg drop_redundant_indexes s = some (
    drop_index (runes "kb_chunks_key_idx") (
      drop_index (runes "kb_chunks_collection_idx")
        (drop_index (runes "kb_documents_collection_idx") s)))
run_sql pg metadata_filter_index s = elim s.embedding_type [
  | none ↦ none
  | some t ↦ some (create_index (runes "kb_chunks_metadata_idx") s)
]
