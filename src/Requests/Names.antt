-- ===== src/Requests/Names.antt =====
-- store.go: `resolveCollection`, `normalizeMetadata`, `normalizeDocumentRequest` and
-- `validateDocumentRequest`; splitter.go: `normalizeText`.
use simplykb.Prelude.{Option, none, some, [], ◌∷◌, if◌then◌else◌, ◌==◌}
use simplykb.Text.{Text, text_eq, trim_space}
use simplykb.External.{External}
use simplykb.Errors.{Error, document_id_required, content_required}
use simplykb.Types.{UpsertDocumentRequest}
use simplykb.Requests.Tags.{normalize_tags}

-- `strings.ReplaceAll(text, "\r\n", "\n")`
unfoldable pub replace_crlf : Text → Text
replace_crlf [] = []
replace_crlf (a ∷ []) = a ∷ []
replace_crlf (a ∷ b ∷ s) =
    let cut = 10 ∷ replace_crlf s in
    let keep = a ∷ replace_crlf (b ∷ s) in if a == 13 then (if b == 10 then cut else keep) else keep

-- `strings.ReplaceAll(text, "\r", "\n")`
unfoldable pub replace_cr : Text → Text
replace_cr [] = []
replace_cr (a ∷ s) = (if a == 13 then 10 else a) ∷ replace_cr s

unfoldable pub normalize_text : Text → Text
unfolding replace_crlf replace_cr trim_space
normalize_text text = trim_space (replace_cr (replace_crlf text))

-- `s.resolveCollection`, over `s.cfg.DefaultCollection`
unfoldable pub resolve_collection : Text → Text → Text
unfolding trim_space
resolve_collection default_collection collection =
    if text_eq (trim_space collection) [] then default_collection else trim_space collection

module _ (x : External) where
  unfoldable pub normalize_metadata : Option x.Metadata → x.Metadata
  normalize_metadata none = x.empty_metadata
  normalize_metadata (some m) = m

  unfoldable pub normalize_document_request :
      Text → UpsertDocumentRequest x → UpsertDocumentRequest x
  unfolding resolve_collection normalize_text normalize_tags normalize_metadata trim_space
  normalize_document_request default_collection req = record {
    collection = resolve_collection default_collection req.collection;
    document_id = trim_space req.document_id;
    title = trim_space req.title;
    content = normalize_text req.content;
    source_uri = trim_space req.source_uri;
    tags = normalize_tags req.tags;
    metadata = some (normalize_metadata req.metadata);
  }

  -- `none` is a valid request.
  unfoldable pub validate_document_request : UpsertDocumentRequest x → Option Error
  validate_document_request req =
      if text_eq req.document_id []
      then some document_id_required
      else if text_eq req.content []
      then some content_required
      else none
