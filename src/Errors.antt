-- ===== src/Errors.antt =====
-- errors.go, and the errors that store.go returns: one constructor for each message.
use simplykb.Prelude.{ℕ, ℤ, Bool, true, false, List}
use simplykb.Text.{Text}
use simplykb.Search.Modes.{SearchError}

pub record ChunkLimitError : Type 0 where
  pub ordinal : ℤ
  pub actual_chars : ℕ
  pub max_chars : ℤ

-- The database call that failed, named by the prefix that the code puts before the error.
pub data Stage : Type 0 where
  begin_tx write_lock load_snapshot commit_tx : Stage
  update_document_metadata update_chunk_metadata : Stage
  upsert_row delete_old_chunks insert_chunks close_batch update_chunk_count : Stage
  delete_document_row read_collection_stats : Stage
  begin_delete_tx delete_collection_documents commit_delete : Stage
  keyword_search vector_search read_rows : Stage
  begin_migration load_extensions migration_lock bootstrap_migrations load_migrations : Stage
  load_embedding_type commit_migrations : Stage
  apply_migration record_migration : ℕ → Stage

pub data Error : Type 0 where
  not_initialized : Error
  document_id_required content_required collection_required : Error
  document_too_large : ℤ → Error
  marshal_metadata decode_stored_metadata : Error
  split_content text_is_empty : Error
  -- `ErrEmptyChunk`, `ErrChunkTooLarge` (to which a `ChunkLimitError` unwraps) and
  -- `ErrDocumentChangedConcurrently`
  no_chunks : Error
  empty_chunk : ℤ → Error
  chunk_limit : ChunkLimitError → Error
  changed_concurrently : Error
  embed_chunks : Error
  vector_count : ℕ → ℕ → Error
  vector_dimension : ℕ → Error
  statement : Stage → Error
  unknown_action : Error
  -- `Config.validate`
  database_url_required dimensions_required embedder_required : Error
  negative_min_conns negative_max_conns : Error
  min_above_max_conns search_above_candidate_limit : ℤ → ℤ → Error
  negative_cache_size cache_needs_keyer : Error
  max_chunk_chars_too_large : ℤ → Error
  search : SearchError → Error
  decode_metadata : Error
  missing_extensions : List Text → Error
  embedding_column_missing : Error
  unexpected_column_type dimensions_not_number : Text → Error
  dimensions_not_positive : ℤ → Error
  dimension_mismatch : ℤ → ℤ → Error
  -- A nil interface is called, which panics.
  nil_call : Error
  -- The model ran out of fuel.
  out_of_fuel : Error

pub data Result {ℓ} (A : Type ℓ) : Type ℓ where
  ok : A → Result A
  err : Error → Result A

pub data Sentinel : Type 0 where
  err_document_changed_concurrently err_empty_chunk err_chunk_too_large : Sentinel

-- `errors.Is(err, sentinel)`, by the `%w` verbs and by `ChunkLimitError.Unwrap`.
unfoldable pub error_is : Error → Sentinel → Bool
error_is no_chunks err_empty_chunk = true
error_is (empty_chunk _) err_empty_chunk = true
error_is (chunk_limit _) err_chunk_too_large = true
error_is changed_concurrently err_document_changed_concurrently = true
error_is _ _ = false
