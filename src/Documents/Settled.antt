-- ===== src/Documents/Settled.antt =====
-- store.go: databases on which a write finds nothing to do.
use simplykb.Prelude.{◌≡◌, ◌<◌, refl, ap, ◌∙◌, true, false, some, List, [], ◌∷◌, leb, arith}
use simplykb.Text.{Text, text_eq_iff}
use simplykb.External.{External}
use simplykb.Errors.{ok}
use simplykb.Types.{UpsertDocumentRequest}
use simplykb.Database.Rows.{Document, Db, find_document}
use simplykb.Documents.Snapshot.{
  noop, DocumentSnapshot, tags_equal, hash_text, canonical_stored_metadata_json, snapshot_of_row,
  classify_document_write,
}
use simplykb.Documents.Transactions.{fields_of}
use simplykb.Documents.Rows.{Holds}

tags_equal_refl : (l : List Text) → tags_equal l l ≡ true
unfolding tags_equal
tags_equal_refl [] = refl
tags_equal_refl (t ∷ l) = rw ((text_eq_iff t t).1 refl, tags_equal_refl l) refl

module _ (x : External) (req : UpsertDocumentRequest x) (json : Text) where
  -- The same write would be a noop on this database.
  abbrev pub Done : Db → Type 0
  Done d =
      (snap : DocumentSnapshot) × (snapshot_of_row x
          (find_document req.collection req.document_id d.documents)
        ≡ ok snap)
      × (classify_document_write x snap req (hash_text x req.content) json false ≡ noop)

  abbrev pub snapshot : Document → DocumentSnapshot
  snapshot r = record {
    exists = true;
    internal_id = r.id;
    title = r.title;
    source_uri = r.source_uri;
    tags = r.tags;
    metadata_json = json;
    content_hash = r.content_hash;
    chunk_count = r.chunk_count;
    updated_at = r.updated_at;
  }

  pub Holds-Done :
      (r : Document) (d : Db)
      → canonical_stored_metadata_json x (x.to_jsonb json) ≡ some json
      → Holds req.collection (fields_of x req json) (hash_text x req.content) r
      → 0 < r.chunk_count
      → find_document req.collection req.document_id d.documents ≡ some r
      → Done d
  unfolding snapshot_of_row classify_document_write
  Holds-Done r d roundtrip h filled found =
      (snapshot r, ap (snapshot_of_row x) found ∙ loaded, classified)
    where
      stored : canonical_stored_metadata_json x r.metadata ≡ some json
      stored = ap (canonical_stored_metadata_json x) h.described ∙ roundtrip

      loaded : snapshot_of_row x (some r) ≡ ok (snapshot r)
      loaded = rw (stored, snapshot_of_row) refl

      classified :
          classify_document_write x (snapshot r) req (hash_text x req.content) json false ≡ noop
      classified =
          let some_chunk : leb r.chunk_count 0 ≡ false = ground arith in
          rw
            (
              some_chunk,
              h.hashed,
              h.titled,
              h.from_source,
              h.tagged,
              (text_eq_iff (hash_text x req.content) (hash_text x req.content)).1 refl,
              (text_eq_iff req.title req.title).1 refl,
              (text_eq_iff req.source_uri req.source_uri).1 refl,
              tags_equal_refl req.tags,
              (text_eq_iff json json).1 refl,
              classify_document_write,
            )
            refl
