-- ===== src/Database/Statements.antt =====
-- The SQL statements of store.go and collection.go that write, and the counts of collection.go.
use simplykb.Prelude.{
  ℕ, ◌+◌, Bool, true, false, not, Option, none, some, List, [], ◌∷◌, ◌&&◌, ◌||◌, ◌==◌,
  if◌then◌else◌, map, select, length,
}
use simplykb.Text.{Text, text_eq}
use simplykb.Database.Rows.{Document, Chunk, Db, ℤ_eq, has_key, find_document, document_by_id}

-- What a write sets in a document's row, beside its key: `$3` to `$7` of the INSERT.
pub record Fields : Type 0 where
  pub title : Text
  pub source_uri : Text
  pub tags : List Text
  pub metadata : Text

-- `UPDATE kb_documents SET title, source_uri, tags, metadata, updated_at WHERE collection = $1 AND
-- id = $2`
unfoldable pub refresh_document : ℕ → Text → ℕ → Fields → Document → Document
refresh_document now collection i f d =
    if text_eq d.collection collection && d.id == i
    then record d {
      title = f.title;
      source_uri = f.source_uri;
      tags = f.tags;
      metadata = f.metadata;
      updated_at = now;
    }
    else d

-- `UPDATE kb_chunks SET title, source_uri, tags, metadata WHERE collection = $1 AND document_id = $2`
unfoldable pub refresh_chunk : Text → ℕ → Fields → Chunk → Chunk
refresh_chunk collection i f ch =
    if text_eq ch.collection collection && ch.document_id == i
    then record ch {
      title = f.title;
      source_uri = f.source_uri;
      tags = f.tags;
      metadata = f.metadata;
    }
    else ch

unfoldable pub update_documents : ℕ → Text → ℕ → Fields → Db → Db
unfolding refresh_document
update_documents now collection i f db = record db {
  documents = map (refresh_document now collection i f) db.documents;
}

unfoldable pub update_chunks : Text → ℕ → Fields → Db → Db
unfolding refresh_chunk
update_chunks collection i f db = record db {
  chunks = map (refresh_chunk collection i f) db.chunks;
}

-- The `DO UPDATE` of the upsert: `chunk_count` stays.
unfoldable pub overwrite_document : ℕ → Text → Text → Fields → Text → Document → Document
overwrite_document now collection external_id f content_hash d =
    if has_key collection external_id d
    then record d {
      title = f.title;
      source_uri = f.source_uri;
      tags = f.tags;
      metadata = f.metadata;
      content_hash = content_hash;
      updated_at = now;
    }
    else d

-- `INSERT INTO kb_documents … ON CONFLICT (collection, external_id) DO UPDATE … RETURNING id`
unfoldable pub insert_or_update_document : ℕ → Text → Text → Fields → Text → Db → ℕ × Db
unfolding find_document overwrite_document
insert_or_update_document now collection external_id f content_hash db =
    elim (find_document collection external_id db.documents) [
      | none ↦ (
        db.next_document_id,
        record db {
          documents =
              record {
                id = db.next_document_id;
                collection = collection;
                external_id = external_id;
                title = f.title;
                source_uri = f.source_uri;
                tags = f.tags;
                metadata = f.metadata;
                content_hash = content_hash;
                chunk_count = 0;
                updated_at = now;
              }
              ∷ db.documents;
          next_document_id = db.next_document_id + 1;
        },
      )
      | some d ↦ (
        d.id,
        record db {
          documents =
              map (overwrite_document now collection external_id f content_hash) db.documents;
        },
      )
    ]

-- `collection = $1 AND document_id = $2`
abbrev pub is_chunk_of : Text → ℕ → Chunk → Bool
is_chunk_of collection i ch = text_eq ch.collection collection && ch.document_id == i

-- `DELETE FROM kb_chunks WHERE collection = $1 AND document_id = $2`
unfoldable pub delete_chunks : Text → ℕ → Db → Db
delete_chunks collection i db = record db {
  chunks = select (λ ch. not (is_chunk_of collection i ch)) db.chunks;
}

-- `UNIQUE (collection, document_external_id, chunk_no)` and `UNIQUE (collection, chunk_key)`
unfoldable pub clashes : Chunk → List Chunk → Bool
clashes ch [] = false
clashes ch (o ∷ os) =
    (text_eq o.collection ch.collection
      && ((text_eq o.document_external_id ch.document_external_id && ℤ_eq o.chunk_no ch.chunk_no)
          || text_eq o.chunk_key ch.chunk_key))
    || clashes ch os

-- `INSERT INTO kb_chunks …`; the `id` of the argument is replaced by the sequence's next value.
unfoldable pub insert_chunk : Chunk → Db → Option Db
unfolding clashes
insert_chunk ch db =
    if clashes ch db.chunks
    then none
    else some (record db {
      chunks = (record ch { id = db.next_chunk_id }) ∷ db.chunks;
      next_chunk_id = db.next_chunk_id + 1;
    })

-- `UPDATE kb_documents SET chunk_count = $3, updated_at = NOW() WHERE collection = $1 AND id = $2`
unfoldable pub count_document : ℕ → Text → ℕ → ℕ → Document → Document
count_document now collection i n d =
    if text_eq d.collection collection && d.id == i
    then record d { chunk_count = n; updated_at = now }
    else d

unfoldable pub set_chunk_count : ℕ → Text → ℕ → ℕ → Db → Db
unfolding count_document
set_chunk_count now collection i n db = record db {
  documents = map (count_document now collection i n) db.documents;
}

abbrev pub has_owner : List Document → Chunk → Bool
has_owner documents ch = elim (document_by_id ch.document_id documents) [
  | none ↦ false
  | some _ ↦ true
]

-- `DELETE FROM kb_documents WHERE …`, with `ON DELETE CASCADE` of `kb_chunks.document_id`.
unfoldable pub delete_documents : (Document → Bool) → Db → Db
unfolding document_by_id
delete_documents doomed db =
    let kept = select (λ d. not (doomed d)) db.documents in
    record db { documents = kept; chunks = select (has_owner kept) db.chunks }

unfoldable pub count_collection : Text → Db → ℕ × ℕ
count_collection collection db = (
  length (select (λ d. text_eq d.collection collection) db.documents),
  length (select (λ ch. text_eq ch.collection collection) db.chunks),
)
