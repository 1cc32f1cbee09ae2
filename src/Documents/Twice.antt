-- ===== src/Documents/Twice.antt =====
-- store.go: `UpsertDocument` called twice with one request.
use mathlib.Core.Path.{subst}
use simplykb.Prelude.{◌≡◌, refl, sym, ap, ◌∙◌, Bool, true, false, some, List, [], ◌∷◌, All}
use simplykb.Text.{Text}
use simplykb.External.{External}
use simplykb.Errors.{Result, ok, err}
use simplykb.Types.{UpsertDocumentRequest, DocumentStats}
use simplykb.Config.{Config}
use simplykb.Store.{Store}
use simplykb.Requests.Names.{normalize_document_request, resolve_collection}
use simplykb.Database.Rows.{Db, find_document}
use simplykb.Database.Session.{World}
use simplykb.Database.Post.{Post, Ensures}
use simplykb.Database.Calls.{Stable, Untouched}
use simplykb.Documents.Snapshot.{
  DocumentWriteAction, noop, metadata_refresh, reindex, DocumentSnapshot, snapshot_of_row,
  hash_text, canonical_stored_metadata_json, classify_document_write,
}
use simplykb.Documents.Write.{accept, write_document}
use simplykb.Documents.Effect.{Writes, unchanged, refreshed, rebuilt}
use simplykb.Documents.Settled.{Done}
use simplykb.Documents.Repeat.{Writes-Done}
use simplykb.Documents.Restart.{Took, write_document-Ensures}

module _ (x : External) (cfg : Config x) (req : UpsertDocumentRequest x) (json : Text) where
  same_decision :
      (d : Db) (snap : DocumentSnapshot) (action : DocumentWriteAction)
      → Done x req json d
      → snapshot_of_row x (find_document req.collection req.document_id d.documents) ≡ ok snap
      → classify_document_write x snap req (hash_text x req.content) json false ≡ action
      → noop ≡ action
  same_decision d snap action (snap₀, seen₀, class₀) seen class =
      let same : snap₀ ≡ snap = ok_injective snap₀ snap (sym seen₀ ∙ seen) in
      sym class₀
      ∙ ap (λ s. classify_document_write x s req (hash_text x req.content) json false) same
      ∙ class
    where
      ok_injective :
          (a b : DocumentSnapshot) → ◌≡◌ {A = Result DocumentSnapshot} (ok a) (ok b) → a ≡ b
      ok_injective a b e = cc

  Writes-unchanged :
      (d d' : Db) (stats : DocumentStats)
      → Done x req json d
      → Writes x cfg req json false d d' stats
      → d' ≡ d
  Writes-unchanged d d' stats settled (unchanged snap seen class same answer) = same
  Writes-unchanged d d' stats settled (refreshed snap now seen class same answer) =
      let impossible = same_decision d snap metadata_refresh settled seen class in absurd (cc)
  Writes-unchanged d d' stats settled (rebuilt snap now ps seen class prepared done answer) =
      let impossible = same_decision d snap reindex settled seen class in absurd (cc)

always-Stable : (w : World) → Stable (λ _. Unit {0}) w
always-Stable w = record { holds = tt; kept = go w.others }
  where
    go : (fs : List (Db → Db)) → All (λ (f : Db → Db). (d : Db) → Unit {0} → Unit {0}) fs
    go [] = tt
    go (f ∷ fs) = (λ d _. tt, go fs)

module _ (x : External) (s : Store x) (force_reindex : Bool) (req : UpsertDocumentRequest x)
    (ready : s.pool ≡ true)
    (fixed : resolve_collection s.cfg.default_collection s.cfg.default_collection
      ≡ s.cfg.default_collection) where
  abbrev normal : UpsertDocumentRequest x
  normal = normalize_document_request x s.cfg.default_collection req

  first_write :
      (w w' : World) (stats : DocumentStats)
      → write_document x (some s) 2 req force_reindex 0 w ≡ (ok stats, w')
      → Took x s force_reindex (λ _. Unit {0}) normal stats w'
  first_write w w' stats ran =
      subst
        (λ (p : Result DocumentStats × World).
          Post p (Took x s force_reindex (λ _. Unit {0}) normal) (Untouched (λ _. Unit {0})))
        ran
        (write_document-Ensures x s force_reindex ready (λ _. Unit {0}) fixed 0 req w
          (always-Stable w)).post

  -- A write by a ready store whose default collection is blank or trimmed has returned, forced or not,
  -- PostgreSQL gives the metadata back in the form in which the program encodes it, and no other
  -- session commits afterwards: then the same request without force leaves the database as it is,
  -- whether it returns or fails.
  pub write_document-twice :
      (w w' : World) (stats : DocumentStats)
      → ((json : Text)
          → accept x s.cfg normal ≡ ok json
          → canonical_stored_metadata_json x (x.to_jsonb json) ≡ some json)
      → write_document x (some s) 2 req force_reindex 0 w ≡ (ok stats, w')
      → w'.others ≡ []
      → Ensures
          (write_document x (some s) 2 req false 0)
          w'
          (λ _ w''. w''.committed ≡ w'.committed)
          (λ _ w''. w''.committed ≡ w'.committed)
  write_document-twice w w' stats roundtrip ran alone =
      let (json, accepted, (d, _, writes)) = first_write w w' stats ran in
      let settled =
        Writes-Done x s.cfg normal json force_reindex d w'.committed stats (roundtrip json accepted)
          writes in
      record {
        post =
            again json accepted settled (write_document x (some s) 2 req false 0 w')
              (write_document-Ensures x s false ready (λ d. d ≡ w'.committed) fixed 0 req w'
                stable).post;
      }
    where
      stable : Stable (λ d. d ≡ w'.committed) w'
      stable = record { holds = refl; kept = rw alone tt }

      again :
          (json : Text)
          → accept x s.cfg normal ≡ ok json
          → Done x normal json w'.committed
          → (p : Result DocumentStats × World)
          → Post p
              (Took x s false (λ d. d ≡ w'.committed) normal)
              (Untouched (λ d. d ≡ w'.committed))
          → Post p (λ _ w''. w''.committed ≡ w'.committed) (λ _ w''. w''.committed ≡ w'.committed)
      again json accepted settled (err e, w'') (st, _) = st.holds
      again json accepted settled (ok stats', w'') (json', accepted', (d, base, writes)) =
          let same : json ≡ json' = cc in
          Writes-unchanged x s.cfg normal json' d w''.committed stats'
            (subst (λ j. Done x normal j d) same (subst (Done x normal json) (sym base) settled))
            writes
          ∙ base
