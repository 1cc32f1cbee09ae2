-- ===== src/Migrations/Recorded.antt =====
-- store.go: what the loop of `Migrate` records.
use simplykb.Prelude.{
  ℕ, ◌≡◌, refl, sym, ap, ◌∙◌, true, arith, Bool-cases, inl, inr, Option, none, some, List, ◌∷◌,
}
use simplykb.Database.Rows.{AppliedMigration, Schema, Db}
use simplykb.Migrations.Versions.{
  Pgvector, Migration, MigrationSql, base_tables, create_indexes, drop_redundant_indexes,
  metadata_filter_index, create_index, drop_index, create_tables, run_sql,
}
use simplykb.Migrations.Migrate.{has_version, versions, record_version, on_schema}

-- The table `kb_schema_migrations` is there and has a row with the version.
abbrev pub Recorded : ℕ → Schema → Type 0
Recorded v s =
    (l : List AppliedMigration) × (s.applied ≡ some l) × (has_version v (versions l) ≡ true)

abbrev pub Extends : Schema → Schema → Type 0
Extends s s' = (v : ℕ) → Recorded v s → Recorded v s'

-- The rows of documents and chunks are the same.
pub record KeepsRows (d d' : Db) : Type 0 where
  pub documents : d'.documents ≡ d.documents
  pub chunks : d'.chunks ≡ d.chunks
  pub document_ids : d'.next_document_id ≡ d.next_document_id
  pub chunk_ids : d'.next_chunk_id ≡ d.next_chunk_id

pub KeepsRows-trans : {a b c : Db} → KeepsRows a b → KeepsRows b c → KeepsRows a c
KeepsRows-trans h k = record {
  documents = k.documents ∙ h.documents;
  chunks = k.chunks ∙ h.chunks;
  document_ids = k.document_ids ∙ h.document_ids;
  chunk_ids = k.chunk_ids ∙ h.chunk_ids;
}

pub Extends-of_applied : (s s' : Schema) → s'.applied ≡ s.applied → Extends s s'
Extends-of_applied s s' same v (l, there, has) = (l, same ∙ there, has)

-- Of a computation that gave a schema.
pub on_schema-some :
    (f : Schema → Option Schema) (d d' : Db)
    → on_schema f d ≡ some (tt, d')
    → (s : Schema) × (f d.schema ≡ some s) × KeepsRows d d' × (d'.schema ≡ s)
on_schema-some f d d' h = by_result (f d.schema) refl
  where
    by_result :
        (o : Option Schema)
        → f d.schema ≡ o
        → (s : Schema) × (f d.schema ≡ some s) × KeepsRows d d' × (d'.schema ≡ s)
    by_result none is =
        let stop : ◌≡◌ {A = Option {0} (Unit × Db)} none (some (tt, d')) =
          sym (rw (is, on_schema) refl) ∙ h in
        absurd (cc)
    by_result (some s) is =
        let done : ◌≡◌ {A = Option {0} (Unit × Db)} (some (tt, record d { schema = s }))
            (some (tt, d')) =
          sym (rw (is, on_schema) refl) ∙ h in
        let same : record d { schema = s } ≡ d' = cc in
        (
          s,
          is,
          record {
            documents = sym (ap (λ (e : Db). e.documents) same);
            chunks = sym (ap (λ (e : Db). e.chunks) same);
            document_ids = sym (ap (λ (e : Db). e.next_document_id) same);
            chunk_ids = sym (ap (λ (e : Db). e.next_chunk_id) same);
          },
          sym (ap (λ (e : Db). e.schema) same),
        )

pub run_sql-applied :
    (pg : Pgvector) (sql : MigrationSql) (s s' : Schema)
    → run_sql pg sql s ≡ some s'
    → s'.applied ≡ s.applied
unfolding run_sql create_tables create_index drop_index
run_sql-applied pg (base_tables n) s s' h = ground arith
run_sql-applied pg create_indexes s s' h = ground arith
run_sql-applied pg drop_redundant_indexes s s' h = ground arith
run_sql-applied pg metadata_filter_index s s' h = ground arith

has_version-cons : (v u : ℕ) (l : List ℕ) → has_version v l ≡ true → has_version v (u ∷ l) ≡ true
unfolding has_version
has_version-cons v u l h = ground arith

has_version-head : (v : ℕ) (l : List ℕ) → has_version v (v ∷ l) ≡ true
unfolding has_version
has_version-head v l = ground arith

pub record_version-Recorded :
    (m : Migration) (s s' : Schema)
    → record_version m s ≡ some s'
    → Recorded m.version s' × Extends s s'
unfolding record_version
record_version-Recorded m s s' h = by_table s.applied refl
  where
    by_table :
        (o : Option (List AppliedMigration)) → s.applied ≡ o → Recorded m.version s' × Extends s s'
    by_table none is =
        let stop : ◌≡◌ {A = Option Schema} none (some s') =
          sym (rw (is, record_version) refl) ∙ h in
        absurd (cc)
    by_table (some l) is = elim (Bool-cases (has_version m.version (versions l))) [
      | inl there ↦
          let stop : ◌≡◌ {A = Option Schema} none (some s') =
            sym (rw (is, there, record_version) refl) ∙ h in
          absurd (cc)
      | inr absent ↦
          let row : AppliedMigration = record { version = m.version; name = m.name } in
          let done : ◌≡◌ {A = Option Schema} (some (record s { applied = some (row ∷ l) }))
              (some s') =
            sym (rw (is, absent, record_version) refl) ∙ h in
          let same : record s { applied = some (row ∷ l) } ≡ s' = cc in
          let table : s'.applied ≡ some (row ∷ l) = sym (ap (λ (t : Schema). t.applied) same) in
          (
            (row ∷ l, table, has_version-head m.version (versions l)),
            λ v (k, k_is, has). (
              row ∷ l,
              table,
              has_version-cons v m.version (versions l) (rw (← some_eq (sym k_is ∙ is)) has),
            ),
          )
    ]
      where
        some_eq : {a b : List AppliedMigration} → some a ≡ some b → a ≡ b
        some_eq e = cc
