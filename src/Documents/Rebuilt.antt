-- ===== src/Documents/Rebuilt.antt =====
-- store.go: `classifyDocumentWrite` after `upsertDocumentRow` and `replaceDocumentChunks`.
use mathlib.Core.Path.{subst}
use mathlib.Core.Option.{some-injective}
use simplykb.Prelude.{
  ℕ, ◌≡◌, ◌<◌, sym, ap, ◌∙◌, true, none, some, List, [], ◌∷◌, length, Bool-cases, Option-cases, inl,
  inr, ◌==◌,
}
use simplykb.Text.{Text}
use simplykb.External.{External}
use simplykb.Types.{UpsertDocumentRequest}
use simplykb.Database.Rows.{Document, Chunk, Db, find_document}
use simplykb.Database.Statements.{
  insert_chunk, delete_chunks, count_document, set_chunk_count, clashes,
}
use simplykb.Documents.Snapshot.{hash_text, canonical_stored_metadata_json}
use simplykb.Documents.Prepare.{Prepared}
use simplykb.Documents.Transactions.{fields_of, chunk_row}
use simplykb.Documents.Effect.{insert_rows, rechunked_db, rebuilt_db}
use simplykb.Documents.Rows.{
  Holds, find_document-map, count-KeepsKey, insert_or_update-Holds, count-Holds,
}
use simplykb.Documents.Settled.{Done, Holds-Done}

module _ (x : External) (req : UpsertDocumentRequest x) (json : Text) where
  inserted : (ch : Chunk) (d e : Db) → insert_chunk ch d ≡ some e → e.documents ≡ d.documents
  unfolding insert_chunk
  inserted ch d e h = elim (Bool-cases (clashes ch d.chunks)) [
    | inl clash ↦ let refused : none ≡ some e = (rw (clash, insert_chunk) at h) in absurd (cc)
    | inr free ↦
        ap (λ (o : Db). o.documents) (sym (some-injective _ e (rw (free, insert_chunk) at h)))
  ]

  insert_rows-documents :
      (i : ℕ) (ps : List (Prepared x)) (d d' : Db)
      → insert_rows x req json i ps d ≡ some d'
      → d'.documents ≡ d.documents
  unfolding insert_rows
  insert_rows-documents i [] d d' h = ap (λ e. e.documents) (sym (some-injective d d' h))
  insert_rows-documents i (p ∷ ps) d d' h =
      elim (Option-cases (insert_chunk (chunk_row x req i json p) d)) [
        | inl clash ↦ let refused : none ≡ some d' = (rw (clash, insert_rows) at h) in absurd (cc)
        | inr (e, done) ↦
            insert_rows-documents i ps e d' (rw (done, insert_rows) at h)
            ∙ inserted (chunk_row x req i json p) d e done
      ]

  rechunked-Done :
      (now i : ℕ) (ps : List (Prepared x)) (d d' : Db) (r : Document)
      → canonical_stored_metadata_json x (x.to_jsonb json) ≡ some json
      → 0 < length ps
      → find_document req.collection req.document_id d.documents ≡ some r
      → (r.id == i) ≡ true
      → Holds req.collection (fields_of x req json) (hash_text x req.content) r
      → rechunked_db x req json now i ps d ≡ some d'
      → Done x req json d'
  unfolding rechunked_db
  rechunked-Done now i ps d d' r roundtrip filled found same held h =
      elim (Option-cases (insert_rows x req json i ps (delete_chunks req.collection i d))) [
        | inl clash ↦ let refused : none ≡ some d' = (rw (clash, rechunked_db) at h) in absurd (cc)
        | inr (e, done) ↦
            let written : some (set_chunk_count now req.collection i (length ps) e) ≡ some d' =
              (rw (done, rechunked_db) at h) in
            let (held', counted) =
              count-Holds now i (length ps) req.collection (fields_of x req json)
                (hash_text x req.content) r held same in
            subst (Done x req json) (some-injective _ d' written) (
              Holds-Done x req json (count_document now req.collection i (length ps) r)
                (set_chunk_count now req.collection i (length ps) e) roundtrip held'
                (subst (λ (n : ℕ). 0 < n) (sym counted) filled)
                (unfold set_chunk_count in
                  find_document-map req.collection req.document_id
                    (count_document now req.collection i (length ps)) e.documents r
                    (count-KeepsKey req.collection req.document_id now i (length ps)
                      (fields_of x req json) [])
                    (ap (find_document req.collection req.document_id) (kept i ps d e done)
                      ∙ found)))
      ]
    where
      kept :
          (i : ℕ) (ps : List (Prepared x)) (d e : Db)
          → insert_rows x req json i ps (delete_chunks req.collection i d) ≡ some e
          → e.documents ≡ d.documents
      kept i ps d e done = unfold delete_chunks in insert_rows-documents i ps _ e done

  pub rebuilt-Done :
      (now : ℕ) (ps : List (Prepared x)) (d d' : Db)
      → canonical_stored_metadata_json x (x.to_jsonb json) ≡ some json
      → 0 < length ps
      → rebuilt_db x req json now ps d ≡ some d'
      → Done x req json d'
  unfolding rebuilt_db
  rebuilt-Done now ps d d' roundtrip filled h =
      let (r, found, same, held) =
        insert_or_update-Holds now req.collection req.document_id (fields_of x req json)
          (hash_text x req.content) d in
      rechunked-Done now _ ps _ d' r roundtrip filled found same held h
