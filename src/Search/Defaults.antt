-- ===== src/Search/Defaults.antt =====
-- store.go and config.go: search requests that leave their limits out.
use simplykb.Prelude.{
  ℕ, ◌≡◌, ◌≢◌, ◌<◌, ◌≤◌, refl, sym, ap, ◌∙◌, true, false, Option, none, some, [], pos, leb_ℤ, ltb_ℤ,
  Bool-cases, ◌⊎◌, inl, inr, if◌then◌else◌, arith,
}
use simplykb.Text.{Text, text_eq, trim_space, solid, solid-trim_space, text_eq_iff}
use simplykb.External.{External}
use simplykb.Requests.Names.{normalize_metadata}
use simplykb.Config.{Config, normalized, validate}
use simplykb.Config.Laws.{normalized-validate}
use simplykb.Search.Requests.{
  SearchRequest, SearchMode, hybrid, keyword, vector, check_mode, default_mode,
  encode_metadata_filter, normalize_search_request, validate_search_request, SearchError,
}

module _ (x : External) where
  known_mode :
      (m : SearchMode) (rest : Option SearchError)
      → (m ≡ hybrid) ⊎ ((m ≡ keyword) ⊎ (m ≡ vector))
      → check_mode m rest ≡ rest
  known_mode m rest (inl e) = rw e (unfold check_mode in refl)
  known_mode m rest (inr (inl e)) = rw e (unfold check_mode in refl)
  known_mode m rest (inr (inr e)) = rw e (unfold check_mode in refl)

  positive_test : (n : ℕ) → 0 < n → leb_ℤ (pos n) (pos 0) ≡ false
  positive_test n h = ground arith

  order_test : (n m : ℕ) → n ≤ m → ltb_ℤ (pos m) (pos n) ≡ false
  order_test n m h = ground arith

  valid_request :
      (r : SearchRequest x) (n m : ℕ) (json : Text)
      → text_eq r.query [] ≡ false
      → (r.mode ≡ hybrid) ⊎ ((r.mode ≡ keyword) ⊎ (r.mode ≡ vector))
      → r.limit ≡ pos n
      → 0 < n
      → r.candidate_limit ≡ pos m
      → n ≤ m
      → encode_metadata_filter x r.metadata_filter ≡ some json
      → validate_search_request x r ≡ none
  unfolding validate_search_request
  valid_request r n m json query mode is_n n>0 is_m n≤m encoded =
      let t₁ : leb_ℤ r.limit (pos 0) ≡ false =
        ap (λ l. leb_ℤ l (pos 0)) is_n ∙ positive_test n n>0 in
      let t₂ : ltb_ℤ r.candidate_limit r.limit ≡ false =
        ap (λ l. ltb_ℤ l r.limit) is_m ∙ ap (ltb_ℤ (pos m)) is_n ∙ order_test n m n≤m in
      steps r json query mode t₁ t₂ encoded
    where
      steps :
          (r : SearchRequest x) (json : Text)
          → text_eq r.query [] ≡ false
          → (r.mode ≡ hybrid) ⊎ ((r.mode ≡ keyword) ⊎ (r.mode ≡ vector))
          → leb_ℤ r.limit (pos 0) ≡ false
          → ltb_ℤ r.candidate_limit r.limit ≡ false
          → encode_metadata_filter x r.metadata_filter ≡ some json
          → validate_search_request x r ≡ none
      steps r json query mode t₁ t₂ encoded =
          rw (query, validate_search_request)
            (known_mode r.mode _ mode ∙ (rw (t₁, t₂, encoded) refl))

  -- A request without limits, whose query has a character that is not a space, whose mode is one of
  -- the three after the default is filled in, and whose filter `json.Marshal` accepts, is valid after
  -- `normalizeSearchRequest` under a configuration that `New` accepts.
  pub validate-normalize_search_request :
      (c : Config x) (req : SearchRequest x) (json : Text)
      → validate (normalized c) ≡ none
      → leb_ℤ req.limit (pos 0) ≡ true
      → leb_ℤ req.candidate_limit (pos 0) ≡ true
      → solid req.query ≢ []
      → (default_mode req.mode ≡ hybrid)
        ⊎ ((default_mode req.mode ≡ keyword) ⊎ (default_mode req.mode ≡ vector))
      → encode_metadata_filter x (some (normalize_metadata x req.metadata_filter)) ≡ some json
      → validate_search_request x (normalize_search_request x (normalized c) req) ≡ none
  unfolding normalize_search_request
  validate-normalize_search_request c req json accepted no_limit no_candidates filled mode encoded =
      let ((n, m, is_n, is_m, n>0, n≤m), _, _, _, _, _, _) = normalized-validate c accepted in
      let query : text_eq (trim_space req.query) [] ≡ false =
        elim (Bool-cases (text_eq (trim_space req.query) [])) [
          | inl e ↦ absurd (
              filled (
                sym (solid-trim_space req.query)
                ∙ ap solid ((text_eq_iff (trim_space req.query) []).0 e)))
          | inr e ↦ e
        ] in
      valid_request (normalize_search_request x (normalized c) req) n m json query mode
        (ap (λ b. if b then (normalized c).default_search_limit else req.limit) no_limit ∙ is_n) n>0
        (ap (λ b. if b then (normalized c).candidate_limit else req.candidate_limit) no_candidates
          ∙ is_m)
        n≤m encoded
