-- ===== src/Documents/Repeat.antt =====
-- store.go: `writeDocument` on the database that the same write left.
use mathlib.Core.Path.{subst}
use simplykb.Prelude.{◌≡◌, sym, Bool, some}
use simplykb.Text.{Text}
use simplykb.External.{External}
use simplykb.Types.{UpsertDocumentRequest, DocumentStats}
use simplykb.Config.{Config}
use simplykb.Database.Rows.{Db}
use simplykb.Documents.Snapshot.{
  noop, hash_text, canonical_stored_metadata_json, classify_document_write,
}
use simplykb.Documents.Effect.{Writes, unchanged, refreshed, rebuilt}
use simplykb.Documents.Filled.{prepare-filled}
use simplykb.Documents.Settled.{Done}
use simplykb.Documents.Refreshed.{kept_tests, refreshed-Done}
use simplykb.Documents.Rebuilt.{rebuilt-Done}

module _ (x : External) (cfg : Config x) (req : UpsertDocumentRequest x) (json : Text)
    (force_reindex : Bool) where
  -- Where a write took effect and PostgreSQL gives the metadata back in the form in which the program
  -- encodes it, the same write without force finds nothing to do: its decision is a noop.
  pub Writes-Done :
      (d d' : Db) (stats : DocumentStats)
      → canonical_stored_metadata_json x (x.to_jsonb json) ≡ some json
      → Writes x cfg req json force_reindex d d' stats
      → Done x req json d'
  Writes-Done d d' stats roundtrip (unchanged snap seen class same answer) =
      let (free, _, _, _) = kept_tests x req json snap force_reindex noop class (λ e. cc) in
      subst (Done x req json) (sym same) (
        snap,
        seen,
        subst (λ b. classify_document_write x snap req (hash_text x req.content) json b ≡ noop) free
            class,
      )
  Writes-Done d d' stats roundtrip (refreshed snap now seen class same answer) =
      subst (Done x req json) (sym same)
        (refreshed-Done x req json d snap force_reindex now roundtrip seen class)
  Writes-Done d d' stats roundtrip (rebuilt snap now ps seen class prepared done answer) =
      rebuilt-Done x req json now ps d d' roundtrip (prepare-filled x cfg req.content ps prepared)
        done
