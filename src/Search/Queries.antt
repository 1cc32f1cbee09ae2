-- ===== src/Search/Queries.antt =====
-- store.go: `searchKeyword`, `searchVector` and `readHits` among other sessions.
use simplykb.Prelude.{◌≡◌, refl, sym, ap, ◌∙◌, Bool, true, false, Option, none, some, List, [], ◌∷◌}
use simplykb.Text.{Text}
use simplykb.External.{External}
use simplykb.Errors.{
  Error, Result, ok, err, keyword_search, vector_search, read_rows, decode_metadata,
}
use simplykb.Database.Rows.{Db}
use simplykb.Database.Session.{World, pure, pool_query, lift, ◌>>=◌, ◌>>◌}
use simplykb.Database.Post.{Ensures, >>=-Ensures, lift-Ensures, pure-Ensures}
use simplykb.Database.Calls.{Stable, Untouched, pool_query-Ensures}
use simplykb.Documents.Prepare.{vector_literal}
use simplykb.Search.Requests.{SearchRequest}
use simplykb.Search.Hits.{
  SearchEngine, CandidateHit, HitRow, keyword_rows, vector_rows, decode_hit_metadata, read_hit,
  read_hits, search_keyword, search_vector,
}

errors_eq : {A : Type 0} {a b : Error} → ◌≡◌ {A = Result A} (err a) (err b) → a ≡ b
errors_eq {A} {a} eq = ap (λ (r : Result A). elim r as (λ _. Error) [ ok _ ↦ a | err p ↦ p ]) eq

module _ (x : External) (e : SearchEngine x) where
  read_hits-error :
      (keyword : Bool) (rows : List (HitRow x e)) (problem : Error)
      → read_hits x e keyword rows ≡ err problem
      → problem ≡ decode_metadata
  unfolding read_hits
  read_hits-error keyword [] problem h = absurd (cc)
  read_hits-error keyword (row ∷ rows) problem h =
      by_row (decode_hit_metadata x e row.chunk.metadata) refl (read_hits x e keyword rows) refl
        (read_hits-error keyword rows)
    where
      by_row :
          (o : Option x.Metadata)
          → decode_hit_metadata x e row.chunk.metadata ≡ o
          → (r : Result (List (CandidateHit x e))) → read_hits x e keyword rows ≡ r
          → ((p : Error) → read_hits x e keyword rows ≡ err p → p ≡ decode_metadata)
          → problem ≡ decode_metadata
      by_row none o_is r r_is rest =
          let stop : err decode_metadata ≡ err problem = sym (rw (o_is, read_hits) refl) ∙ h in
          errors_eq (sym stop)
      by_row (some m) o_is (err p) r_is rest =
          let stop : err p ≡ err problem = sym (rw (o_is, r_is, read_hits) refl) ∙ h in
          errors_eq (sym stop) ∙ rest p r_is
      by_row (some m) o_is (ok hits) r_is rest =
          let stop : ok (read_hit x e keyword row m ∷ hits) ≡ err problem =
            sym (rw (o_is, r_is, read_hits) refl) ∙ h in
          absurd (cc)

  -- The hits of the rows that a query sees in one database with `J`.
  abbrev pub ReadFrom :
      (J : Db → Type 0) → Bool → (Db → List (HitRow x e)) → List (CandidateHit x e) → Type 0
  ReadFrom J keyword rows hits = (d : Db) × J d × (read_hits x e keyword (rows d) ≡ ok hits)

  module _ (J : Db → Type 0) (req : SearchRequest x) (filter : Text) where
    read-Ensures :
        (keyword : Bool) (rows : Db → List (HitRow x e)) (r : List (HitRow x e)) (w : World)
        (d : Db)
        → J d
        → r ≡ rows d
        → Stable J w
        → Ensures
            (do hits ← lift (read_hits x e keyword r); pool_query read_rows (λ _. tt); pure hits)
            w
            (λ hits w'. ReadFrom J keyword rows hits × Stable J w')
            (Untouched J)
    read-Ensures keyword rows r w d j seen st =
        lift-Ensures (read_hits x e keyword r) _ w
          (λ hits read.
            >>=-Ensures _ _ _ w (pool_query-Ensures J read_rows (λ _. tt) w st)
              (λ _ w₁ (_, _, _, st₁).
                pure-Ensures hits w₁ ((d, j, sym (ap (read_hits x e keyword) seen) ∙ read), st₁)))
          (λ problem failed.
            (st, λ fuel. let p = read_hits-error keyword r problem failed in absurd (cc)))

    pub search_keyword-Ensures :
        (w : World)
        → Stable J w
        → Ensures
            (search_keyword x e req filter)
            w
            (λ hits w'. ReadFrom J true (keyword_rows x e req filter) hits × Stable J w')
            (Untouched J)
    unfolding search_keyword
    search_keyword-Ensures w st =
        >>=-Ensures _ _ _ w (pool_query-Ensures J keyword_search (keyword_rows x e req filter) w st)
          (λ r w₁ (d, j, seen, st₁).
            read-Ensures true (keyword_rows x e req filter) r w₁ d j seen st₁)

    pub search_vector-Ensures :
        (v : List x.Float) (w : World)
        → Stable J w
        → Ensures
            (search_vector x e req v filter)
            w
            (λ hits w'.
              ReadFrom J false (vector_rows x e req (vector_literal x v) filter) hits × Stable J w')
            (Untouched J)
    unfolding search_vector
    search_vector-Ensures v w st =
        >>=-Ensures _ _ _ w
          (pool_query-Ensures J vector_search (vector_rows x e req (vector_literal x v) filter) w
            st)
          (λ r w₁ (d, j, seen, st₁).
            read-Ensures false (vector_rows x e req (vector_literal x v) filter) r w₁ d j seen st₁)
