-- ===== src/Documents/Restart.antt =====
-- store.go: `UpsertDocument` and `ReindexDocument` as a whole, with the one restart that they allow.
use simplykb.Prelude.{ℕ, suc, ◌+◌, ◌≡◌, refl, sym, ap, ◌∙◌, Bool, true, some, if◌then◌else◌, leb}
use mathlib.Core.Path.{subst}
use simplykb.Text.{Text}
use simplykb.External.{External}
use simplykb.Errors.{ok, changed_concurrently}
use simplykb.Types.{UpsertDocumentRequest, DocumentStats}
use simplykb.Store.{Store, ensure_ready, ensure_ready-ready}
use simplykb.Requests.Names.{normalize_document_request, resolve_collection}
use simplykb.Requests.Idempotent.{normalize_document_request-normalize_document_request}
use simplykb.Database.Rows.{Db}
use simplykb.Database.Session.{World, Action, raise, lift, ◌>>=◌}
use simplykb.Database.Post.{lift-ok, Ensures, Ensures-weaken, lift-Ensures, fails}
use simplykb.Database.Calls.{Stable, Untouched}
use simplykb.Documents.Write.{write_accepted, accept, write_document}
use simplykb.Documents.Failures.{accept_error}
use simplykb.Documents.Commit.{TookEffect, write_accepted-Ensures}

module _ (x : External) (s : Store x) (force_reindex : Bool) where
  -- A write of the request took effect: it was accepted with `json` for its metadata.
  abbrev pub Took : (Db → Type 0) → UpsertDocumentRequest x → DocumentStats → World → Type 0
  Took J normal stats w =
      (json : Text) × (accept x s.cfg normal ≡ ok json)
      × TookEffect x J s.cfg normal json force_reindex stats w

  module _ (ready : s.pool ≡ true) where
    -- What one call does after its test of the store.
    abbrev normal_of : UpsertDocumentRequest x → UpsertDocumentRequest x
    normal_of = normalize_document_request x s.cfg.default_collection

    abbrev retry : ℕ → UpsertDocumentRequest x → ℕ → Action DocumentStats
    retry fuel normal attempt w =
        if leb 1 attempt
        then raise changed_concurrently w
        else write_document x (some s) fuel normal force_reindex (attempt + 1) w

    write_step :
        (fuel : ℕ) (req : UpsertDocumentRequest x) (attempt : ℕ)
        → write_document x (some s) (suc fuel) req force_reindex attempt ≡ (
            lift (accept x s.cfg (normal_of req)) >>= (λ json.
              write_accepted x s.cfg
                (normal_of req)
                json
                force_reindex
                (retry fuel (normal_of req) attempt)))
    write_step fuel req attempt =
        unfold write_document in lift-ok (ensure_ready (some s)) s _ (ensure_ready-ready s ready)

    -- For a ready store, more fuel than two levels changes nothing: the code nests at most one restart.
    pub write_document-fuel :
        (fuel : ℕ) (req : UpsertDocumentRequest x)
        → write_document x (some s) (suc (suc fuel)) req force_reindex 0
          ≡ write_document x (some s) 2 req force_reindex 0
    write_document-fuel fuel req =
        write_step (suc fuel) req 0
        ∙ ap
            (λ (restart : Action DocumentStats).
              lift (accept x s.cfg (normal_of req))
              >>= (λ json. write_accepted x s.cfg (normal_of req) json force_reindex restart))
            (write_step fuel (normal_of req) 1 ∙ sym (write_step 0 (normal_of req) 1))
        ∙ sym (write_step 1 req 0)

    module _ (J : Db → Type 0)
        (fixed : resolve_collection s.cfg.default_collection s.cfg.default_collection
          ≡ s.cfg.default_collection) where
      accepted-Ensures :
          (normal : UpsertDocumentRequest x) (restart : Action DocumentStats) (w : World)
          → ((w' : World) → Stable J w' → Ensures restart w' (Took J normal) (Untouched J))
          → Stable J w
          → Ensures
              (lift (accept x s.cfg normal)
                >>= (λ json. write_accepted x s.cfg normal json force_reindex restart))
              w
              (Took J normal)
              (Untouched J)
      accepted-Ensures normal restart w again st =
          lift-Ensures (accept x s.cfg normal) _ w
            (λ json accepted.
              Ensures-weaken (TookEffect x J s.cfg normal json force_reindex) _ w
                (λ stats w' took. (json, accepted, took))
                (write_accepted-Ensures x J s.cfg normal json force_reindex restart w
                  (λ w' st'.
                    Ensures-weaken (Took J normal) restart w'
                      (λ stats w'' took. same_json normal json stats w'' accepted took)
                      (again w' st'))
                  st))
            (λ e h. (st, accept_error x s.cfg normal e h))
        where
          same_json :
              (normal : UpsertDocumentRequest x) (json : Text) (stats : DocumentStats) (w : World)
              → accept x s.cfg normal ≡ ok json
              → Took J normal stats w
              → TookEffect x J s.cfg normal json force_reindex stats w
          same_json normal json stats w accepted (json', accepted', took) =
              let same : json' ≡ json = cc in
              subst (λ (j : Text). TookEffect x J s.cfg normal j force_reindex stats w) same took

      -- The second attempt.
      last_write-Ensures :
          (fuel : ℕ) (req : UpsertDocumentRequest x) (w : World)
          → Stable J w
          → Ensures
              (write_document x (some s) (suc fuel) req force_reindex 1)
              w
              (Took J (normal_of req))
              (Untouched J)
      unfolding raise
      last_write-Ensures fuel req w st =
          subst (λ (m : Action DocumentStats). Ensures m w (Took J (normal_of req)) (Untouched J))
            (sym (write_step fuel req 1))
            (accepted-Ensures (normal_of req) (retry fuel (normal_of req) 1) w
              (λ w' st'. fails _ w' w' changed_concurrently refl (st', λ e. cc)) st)

      -- A write among sessions that keep `J`, by a ready store whose default collection is blank or
      -- trimmed, forced or not, with at least two levels of fuel: if it returns statistics, the
      -- normalised request was accepted and the committed database is the result of one step from a
      -- database with `J`, which does nothing, refreshes the metadata or rebuilds the document, as that
      -- database asks for; if it fails, the committed database still has `J`, and not for want of fuel.
      pub write_document-Ensures :
          (fuel : ℕ) (req : UpsertDocumentRequest x) (w : World)
          → Stable J w
          → Ensures
              (write_document x (some s) (suc (suc fuel)) req force_reindex 0)
              w
              (Took J (normal_of req))
              (Untouched J)
      write_document-Ensures fuel req w st =
          subst (λ (m : Action DocumentStats). Ensures m w (Took J (normal_of req)) (Untouched J))
            (sym (write_step (suc fuel) req 0))
            (accepted-Ensures (normal_of req) (retry (suc fuel) (normal_of req) 0) w
              (λ w' st'.
                subst
                  (λ (r : UpsertDocumentRequest x).
                    Ensures (write_document x (some s) (suc fuel) (normal_of req) force_reindex 1)
                      w' (Took J r) (Untouched J))
                  (normalize_document_request-normalize_document_request x s.cfg.default_collection
                    req fixed)
                  (last_write-Ensures fuel (normal_of req) w' st'))
              st)
