-- ===== src/Migrations/Loop.antt =====
-- store.go: the loop of `Migrate` over the migrations, in its transaction.
use mathlib.Core.Path.{subst}
use simplykb.Prelude.{ℕ, ◌≡◌, refl, sym, ap, ◌∙◌, true, some, List, [], ◌∷◌, All}
use simplykb.Errors.{apply_migration, record_migration}
use simplykb.Database.Rows.{Schema, Db}
use simplykb.Database.Session.{World}
use simplykb.Database.Post.{Ensures, Ensures-weaken, >>=-Ensures, pure-Ensures, if-Ensures}
use simplykb.Database.Calls.{Untouched, InTx, in_tx-Ensures}
use simplykb.Migrations.Versions.{Pgvector, Migration, run_sql}
use simplykb.Migrations.Migrate.{
  has_version, record_version, on_schema, apply_one, apply_migrations,
}
use simplykb.Migrations.Recorded.{
  Recorded, Extends, KeepsRows, KeepsRows-trans, on_schema-some, run_sql-applied,
  Extends-of_applied, record_version-Recorded,
}

module _ (J : Db → Type 0) (pg : Pgvector) (n : ℕ) where
  -- In a transaction whose copy has the rows of `d`, and has recorded what `d` had and more.
  pub record Grown (d : Db) (P : Schema → Type 0) (w : World) : Type 0 where
    pub copy : Db
    pub in_tx : InTx J n copy w
    pub rows : KeepsRows d copy
    pub grown : Extends d.schema copy.schema
    pub more : P copy.schema

  apply_one-Ensures :
      (m : Migration) (d : Db) (w : World)
      → InTx J n d w
      → Ensures (apply_one pg m) w (λ _. Grown d (Recorded m.version)) (Untouched J)
  unfolding apply_one
  apply_one-Ensures m d w t =
      >>=-Ensures _ _ _ w (in_tx-Ensures J (apply_migration m.version) _ n d w t)
        (λ _ w₁ (d₁, ran, t₁).
          Ensures-weaken _ _ w₁ (λ _ w₂ (d₂, put, t₂). finish d₁ ran w₂ d₂ put t₂)
            (in_tx-Ensures J (record_migration m.version) _ n d₁ w₁ t₁))
    where
      finish :
          (d₁ : Db)
          → on_schema (run_sql pg m.sql) d ≡ some (tt, d₁)
          → (w₂ : World) (d₂ : Db) → on_schema (record_version m) d₁ ≡ some (tt, d₂)
          → InTx J n d₂ w₂
          → Grown d (Recorded m.version) w₂
      finish d₁ ran w₂ d₂ put t₂ =
          let (s₁, is₁, rows₁, same₁) = on_schema-some (run_sql pg m.sql) d d₁ ran in
          let (s₂, is₂, rows₂, same₂) = on_schema-some (record_version m) d₁ d₂ put in
          let applied : d₁.schema.applied ≡ d.schema.applied =
            ap (λ (s : Schema). s.applied) same₁ ∙ run_sql-applied pg m.sql d.schema s₁ is₁ in
          let (here, more) = record_version-Recorded m d₁.schema s₂ is₂ in
          record {
            copy = d₂;
            in_tx = t₂;
            rows = KeepsRows-trans rows₁ rows₂;
            grown = λ v r.
                subst (Recorded v) (sym same₂)
                  (more v (Extends-of_applied d.schema d₁.schema applied v r));
            more = subst (Recorded m.version) (sym same₂) here;
          }

  abbrev pub AllRecorded : List Migration → Schema → Type 0
  AllRecorded ms s = All (λ (m : Migration). Recorded m.version s) ms

  pub apply_migrations-Ensures :
      (applied : List ℕ) (ms : List Migration) (d : Db) (w : World)
      → ((v : ℕ) → has_version v applied ≡ true → Recorded v d.schema)
      → InTx J n d w
      → Ensures (apply_migrations pg applied ms) w (λ _. Grown d (AllRecorded ms)) (Untouched J)
  unfolding apply_migrations
  apply_migrations-Ensures applied [] d w known t = pure-Ensures tt w (record {
    copy = d;
    in_tx = t;
    rows = record { documents = refl; chunks = refl; document_ids = refl; chunk_ids = refl };
    grown = λ v r. r;
    more = tt;
  })
  apply_migrations-Ensures applied (m ∷ ms) d w known t =
      if-Ensures (has_version m.version applied) _ _ w
        (λ there.
          Ensures-weaken _ _ w
            (λ _ w₁ g. record {
              copy = g.copy;
              in_tx = g.in_tx;
              rows = g.rows;
              grown = g.grown;
              more = (g.grown m.version (known m.version there), g.more);
            })
            (apply_migrations-Ensures applied ms d w known t))
        (λ absent. >>=-Ensures _ _ _ w (apply_one-Ensures m d w t) (λ _ w₁ g.
          Ensures-weaken _ _ w₁
            (λ _ w₂ h. record {
              copy = h.copy;
              in_tx = h.in_tx;
              rows = KeepsRows-trans g.rows h.rows;
              grown = λ v r. h.grown v (g.grown v r);
              more = (h.grown m.version g.more, h.more);
            })
            (apply_migrations-Ensures applied ms g.copy w₁ (λ v has. g.grown v (known v has))
              g.in_tx)))
