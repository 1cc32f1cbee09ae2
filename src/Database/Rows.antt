-- ===== src/Database/Rows.antt =====
-- schema.go: the rows of `kb_documents` and `kb_chunks`. `created_at` and the generated column
-- `search_text` are left out; `embedding` is the literal that is stored, `metadata` the text that
-- PostgreSQL returns for the `jsonb` value. The two sequences stand in the database.
use simplykb.Prelude.{
  ℕ, ℤ, Bool, Option, none, some, List, [], ◌∷◌, ◌&&◌, ◌==◌, if◌then◌else◌, leb_ℤ,
}
use simplykb.Text.{Text, text_eq}

pub record Document : Type 0 where
  pub id : ℕ
  pub collection : Text
  pub external_id : Text
  pub title : Text
  pub source_uri : Text
  pub tags : List Text
  pub metadata : Text
  pub content_hash : Text
  pub chunk_count : ℕ
  pub updated_at : ℕ

pub record Chunk : Type 0 where
  pub id : ℕ
  pub collection : Text
  pub document_id : ℕ
  pub document_external_id : Text
  pub chunk_key : Text
  pub chunk_no : ℤ
  pub title : Text
  pub content : Text
  pub source_uri : Text
  pub tags : List Text
  pub metadata : Text
  pub embedding : Text

-- A row of `kb_schema_migrations`, without its time.
pub record AppliedMigration : Type 0 where
  pub version : ℕ
  pub name : Text

-- What migrations see and change: the extensions that the server offers, the table
-- `kb_schema_migrations` if it is there, the type of `kb_chunks.embedding` if the two tables are
-- there, and the names of the indexes.
pub record Schema : Type 0 where
  pub extensions : List Text
  pub applied : Option (List AppliedMigration)
  pub embedding_type : Option Text
  pub indexes : List Text

pub record Db : Type 0 where
  pub schema : Schema
  pub documents : List Document
  pub chunks : List Chunk
  pub next_document_id : ℕ
  pub next_chunk_id : ℕ

abbrev pub ℤ_eq : ℤ → ℤ → Bool
ℤ_eq a b = leb_ℤ a b && leb_ℤ b a

-- `collection = $1 AND external_id = $2`
abbrev pub has_key : Text → Text → Document → Bool
has_key collection external_id d =
    text_eq d.collection collection && text_eq d.external_id external_id

unfoldable pub find_document : Text → Text → List Document → Option Document
find_document c e [] = none
find_document c e (d ∷ ds) = if has_key c e d then some d else find_document c e ds

unfoldable pub document_by_id : ℕ → List Document → Option Document
document_by_id i [] = none
document_by_id i (d ∷ ds) = if d.id == i then some d else document_by_id i ds
