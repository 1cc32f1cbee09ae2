-- ===== src/Collections/Kept.antt =====
-- collection.go: `CollectionStats` and `DeleteCollection` among other sessions.
use mathlib.Core.Path.{subst}
use simplykb.Prelude.{◌≡◌, sym, ap, ◌∙◌, true, some}
use simplykb.Text.{Text}
use simplykb.External.{External}
use simplykb.Errors.{ok, read_collection_stats}
use simplykb.Requests.Names.{resolve_collection}
use simplykb.Store.{Store, ensure_ready, ensure_ready-ready}
use simplykb.Database.Rows.{Db}
use simplykb.Database.Statements.{count_collection}
use simplykb.Database.Session.{World}
use simplykb.Database.Counts.{IsCounted}
use simplykb.Database.Removed.{Removed, IsOf, CountedAs, count_collection-CountedAs}
use simplykb.Database.Post.{Ensures, >>=-Ensures, pure-Ensures, lift-Ensures}
use simplykb.Database.Calls.{Stable, Untouched, pool_query-Ensures}
use simplykb.Collections.{collection_stats}

module _ (x : External) (s : Store x) where
  -- The database was counted, and lost the documents of the collection with their chunks; none of the
  -- collection is left.
  abbrev pub Emptied : Text → World → Type 0
  Emptied name w =
      (d : Db) × IsCounted d
      × IsCounted w.committed
      × Removed (IsOf name) d w.committed
      × ((count_collection name w.committed).0 ≡ 0)

  -- The statistics of a ready store, among sessions that keep `J`, are the numbers of the documents
  -- and of the chunks of one database with `J` that are in the collection of the resolved name; `J`
  -- holds afterwards, also where it fails.
  pub collection_stats-Ensures :
      (J : Db → Type 0) (collection : Text) (w : World)
      → s.pool ≡ true
      → Stable J w
      → Ensures
          (collection_stats x (some s) collection)
          w
          (λ stats w'.
            (d : Db) × J d
            × Stable J w'
            × (stats.collection ≡ resolve_collection s.cfg.default_collection collection)
            × CountedAs stats.collection d stats.document_count stats.chunk_count)
          (Untouched J)
  unfolding collection_stats
  collection_stats-Ensures J collection w ready st =
      lift-Ensures (ensure_ready (some s)) _ w
        (λ store is_store.
          let same : s ≡ store = result_ok s store (sym (ensure_ready-ready s ready) ∙ is_store) in
          let name = resolve_collection store.cfg.default_collection collection in
          >>=-Ensures _ _ _ w (pool_query-Ensures J read_collection_stats _ w st)
            (λ counts w₁ (d, j, counted, st₁). pure-Ensures _ w₁ (
              d,
              j,
              st₁,
              ap (λ (t : Store x). resolve_collection t.cfg.default_collection collection)
                  (sym same),
              subst (λ p. CountedAs name d p.0 p.1) (sym counted)
                  (count_collection-CountedAs name d),
            )))
        (λ e bad. let fine = ensure_ready-ready s ready in absurd (cc))
    where
      result_ok : (a b : Store x) → ok a ≡ ok b → a ≡ b
      result_ok a b e = cc
