-- ===== src/Types.antt =====
-- types.go and the records of store.go, over the external types.
use simplykb.Prelude.{ℕ, ℤ, Option, List}
use simplykb.Text.{Text}
use simplykb.External.{External}

pub record UpsertDocumentRequest (x : External) : Type 0 where
  pub collection : Text
  pub document_id : Text
  pub title : Text
  pub content : Text
  pub source_uri : Text
  pub tags : List Text
  -- A nil map is `none`.
  pub metadata : Option x.Metadata

pub record DocumentStats : Type 0 where
  pub collection : Text
  pub document_id : Text
  pub content_hash : Text
  pub chunk_count : ℕ

pub record CollectionStats : Type 0 where
  pub collection : Text
  pub document_count : ℕ
  pub chunk_count : ℕ

pub record ChunkDraft : Type 0 where
  pub ordinal : ℤ
  pub content : Text

-- `Embedder`: `none` is an error. `cache_key` is there if the embedder also implements
-- `QueryEmbeddingCacheKeyer`; its results are an error, a bypass, and a key.
pub data CacheKey : Type 0 where
  key_error key_bypass : CacheKey
  key : Text → CacheKey

pub record Embedder (x : External) : Type 0 where
  pub embed : List Text → Option (List (List x.Float))
  pub cache_key : Option (Text → CacheKey)

-- `Splitter`: `none` is an error.
abbrev pub Splitter : Type 0
Splitter = Text → Option (List ChunkDraft)
