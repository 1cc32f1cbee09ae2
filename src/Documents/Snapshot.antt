-- ===== src/Documents/Snapshot.antt =====
-- store.go: `documentSnapshot`, what a write of a document has to do, and the comparison of two
-- snapshots; `canonicalMetadataJSON`, `hashText` and `newDocumentStats`.
use simplykb.Prelude.{
  ℕ, ◌+◌, ◌/◌, ◌%◌, Bool, true, false, not, ◌&&◌, ◌||◌, Option, none, some, List, [], ◌∷◌, leb, ltb,
  ◌==◌, if◌then◌else◌,
}
use simplykb.Text.{Text, text_eq}
use simplykb.External.{External}
use simplykb.Errors.{Result, ok, err, decode_stored_metadata}
use simplykb.Types.{UpsertDocumentRequest, DocumentStats}
use simplykb.Requests.Names.{normalize_metadata}
use simplykb.Database.Rows.{Document}

pub data DocumentWriteAction : Type 0 where
  noop metadata_refresh reindex : DocumentWriteAction

pub record DocumentSnapshot : Type 0 where
  pub exists : Bool
  pub internal_id : ℕ
  pub title : Text
  pub source_uri : Text
  pub tags : List Text
  pub metadata_json : Text
  pub content_hash : Text
  pub chunk_count : ℕ
  pub updated_at : ℕ

-- `documentSnapshot{}`
abbrev pub no_snapshot : DocumentSnapshot
no_snapshot = record {
  exists = false;
  internal_id = 0;
  title = [];
  source_uri = [];
  tags = [];
  metadata_json = [];
  content_hash = [];
  chunk_count = 0;
  updated_at = 0;
}

-- `slices.Equal` on strings
unfoldable pub tags_equal : List Text → List Text → Bool
tags_equal [] [] = true
tags_equal (s ∷ ss) (t ∷ ts) = text_eq s t && tags_equal ss ts
tags_equal _ _ = false

-- `hex.EncodeToString`
abbrev hex_digit : ℕ → ℕ
hex_digit n = if ltb n 10 then n + 48 else n + 87

unfoldable pub hex_encode : List ℕ → Text
hex_encode [] = []
hex_encode (b ∷ bytes) = hex_digit (b / 16) ∷ hex_digit (b % 16) ∷ hex_encode bytes

module _ (x : External) where
  unfoldable pub hash_text : Text → Text
  unfolding hex_encode
  hash_text text = hex_encode (x.sha256 text)

  unfoldable pub canonical_metadata_json : Option x.Metadata → Option Text
  unfolding normalize_metadata
  canonical_metadata_json metadata = x.marshal (normalize_metadata x metadata)

  unfoldable pub canonical_stored_metadata_json : Text → Option Text
  unfolding canonical_metadata_json
  canonical_stored_metadata_json [] = canonical_metadata_json none
  canonical_stored_metadata_json (r ∷ raw) = elim (x.unmarshal (r ∷ raw)) [
    | none ↦ none
    | some metadata ↦ canonical_metadata_json metadata
  ]

  -- `loadDocumentSnapshot` behind the query.
  unfoldable pub snapshot_of_row : Option Document → Result DocumentSnapshot
  unfolding canonical_stored_metadata_json
  snapshot_of_row none = ok no_snapshot
  snapshot_of_row (some d) = elim (canonical_stored_metadata_json d.metadata) [
    | none ↦ err decode_stored_metadata
    | some json ↦ ok (record {
      exists = true;
      internal_id = d.id;
      title = d.title;
      source_uri = d.source_uri;
      tags = d.tags;
      metadata_json = json;
      content_hash = d.content_hash;
      chunk_count = d.chunk_count;
      updated_at = d.updated_at;
    })
  ]

  unfoldable pub classify_document_write :
      DocumentSnapshot → UpsertDocumentRequest x → Text → Text → Bool → DocumentWriteAction
  unfolding tags_equal
  classify_document_write existing req content_hash metadata_json force_reindex =
      if force_reindex
      then reindex
      else if not existing.exists || leb existing.chunk_count 0
      then reindex
      else if not (text_eq existing.content_hash content_hash)
      then reindex
      else if not (text_eq existing.title req.title)
          || not (text_eq existing.source_uri req.source_uri)
          || not (tags_equal existing.tags req.tags)
          || not (text_eq existing.metadata_json metadata_json)
      then metadata_refresh
      else noop

  unfoldable pub new_document_stats : UpsertDocumentRequest x → Text → ℕ → DocumentStats
  new_document_stats req content_hash chunk_count = record {
    collection = req.collection;
    document_id = req.document_id;
    content_hash = content_hash;
    chunk_count = chunk_count;
  }

-- `==` on `bool`
abbrev same : Bool → Bool → Bool
same true b = b
same false b = not b

unfoldable pub document_snapshots_equal : DocumentSnapshot → DocumentSnapshot → Bool
unfolding tags_equal
document_snapshots_equal left right =
    if not (same left.exists right.exists)
    then false
    else if not left.exists
    then true
    else left.internal_id == right.internal_id
      && text_eq left.title right.title
      && text_eq left.source_uri right.source_uri
      && text_eq left.metadata_json right.metadata_json
      && text_eq left.content_hash right.content_hash
      && left.chunk_count == right.chunk_count
      && left.updated_at == right.updated_at
      && tags_equal left.tags right.tags
