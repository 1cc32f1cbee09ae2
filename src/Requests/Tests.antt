-- ===== src/Requests/Tests.antt =====
-- The normalisation of requests at concrete requests.
use mathlib.Core.Bool.{not, ◌&&◌}
use simplykb.Prelude.{ℕ, ◌+◌, ◌≡◌, refl, some, none, [], ◌∷◌, map}
use simplykb.Text.{Text, runes, text_eq, text_discrete, trim_space, is_space}
use simplykb.External.{External}
use simplykb.Types.{UpsertDocumentRequest}
use simplykb.Requests.Tags.{contains, normalize_tags}
use simplykb.Requests.TagLaws.{Ascending, normalize_tags-Ascending, contains-normalize_tags}
use simplykb.Requests.Names.{resolve_collection, normalize_document_request}
use simplykb.Requests.Idempotent.{normalize_document_request-normalize_document_request}

-- Metadata is its JSON behind the first brace, and a hash is the text itself.
abbrev pub plain : External
plain = record {
  Float = ℕ;
  format_float = λ n. (n + 48) ∷ [];
  Metadata = Text;
  empty_metadata = runes "}";
  marshal = λ m. some (123 ∷ m);
  unmarshal = λ t. elim t [ [] ↦ none | r ∷ s ↦ some (some s) ];
  to_jsonb = λ t. t;
  sha256 = λ t. t;
}

abbrev pub messy : UpsertDocumentRequest plain
messy = record {
  collection = runes " ";
  document_id = runes " guide ";
  title = runes "Guide ";
  content = runes "hi\r\nyou ";
  source_uri = [];
  tags = runes "b" ∷ runes " a" ∷ [] ∷ runes "b " ∷ [];
  metadata = none;
}

normalize_tags-messy : normalize_tags messy.tags ≡ runes "a" ∷ runes "b" ∷ []
unfolding normalize_tags text_discrete is_space
normalize_tags-messy = refl

-- A default collection with a space in front is given back as it is, and trimmed the second time.
resolve_collection_untrimmed : resolve_collection (runes " d") [] ≡ runes " d"
unfolding resolve_collection text_discrete is_space
resolve_collection_untrimmed = refl

resolve_collection_trimmed :
    resolve_collection (runes " d") (resolve_collection (runes " d") []) ≡ runes "d"
unfolding resolve_collection text_discrete is_space
resolve_collection_trimmed = refl

pub docs_fixed : resolve_collection (runes "docs") (runes "docs") ≡ runes "docs"
unfolding resolve_collection text_discrete is_space
docs_fixed = refl

normalize_tags-Ascending_example : Ascending (normalize_tags messy.tags)
normalize_tags-Ascending_example = normalize_tags-Ascending messy.tags

contains-normalize_tags_example :
    contains (runes "a") (normalize_tags messy.tags)
    ≡ (not (text_eq (runes "a") []) && contains (runes "a") (map trim_space messy.tags))
contains-normalize_tags_example = contains-normalize_tags (runes "a") messy.tags

normalize_document_request_example :
    normalize_document_request plain
      (runes "docs")
      (normalize_document_request plain (runes "docs") messy)
    ≡ normalize_document_request plain (runes "docs") messy
normalize_document_request_example =
    normalize_document_request-normalize_document_request plain (runes "docs") messy docs_fixed
