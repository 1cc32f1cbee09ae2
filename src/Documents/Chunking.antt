-- ===== src/Documents/Chunking.antt =====
-- config.go, splitter.go and store.go together: the splitter that `normalized` installs and
-- `validateChunks`.
use simplykb.Prelude.{
  ℕ, ◌≤◌, ◌<◌, ◌≡◌, ◌≢◌, refl, sym, ap, ◌∙◌, false, Option, none, some, List, [], ◌∷◌, arith, All,
  length, pos, Bool-cases, inl, inr, ltb_ℤ,
}
use simplykb.Text.{Text, text_eq, text_eq_iff, trim_space, solid}
use simplykb.External.{External}
use simplykb.Errors.{Error, Result, ok, err, nil_call, split_content}
use simplykb.Types.{ChunkDraft, Splitter}
use simplykb.Splitter.{
  DefaultSplitter, split, default_splitter, effective_chunk_size, effective_overlap,
}
use simplykb.Splitter.Spells.{IsChunk, Spells, Numbered}
use simplykb.Splitter.Correct.{split-Spells, effective_overlap-lt, effective_chunk_size-pos}
use simplykb.Config.{Config, normalized, bounded_splitter}
use simplykb.Config.Laws.{positive_or-positive, bounded_splitter-fits}
use simplykb.Documents.Prepare.{
  Prepared, validate_chunks, check_chunks, embed_all, prepare_document_write,
}

validate_chunks-IsChunk :
    (n m : ℕ) (cs : List ChunkDraft)
    → n ≤ m
    → All (IsChunk n) cs
    → validate_chunks cs (pos m) ≡ none
unfolding validate_chunks
validate_chunks-IsChunk n m [] h a = refl
validate_chunks-IsChunk n m (c ∷ cs) h a =
    let short : length c.content ≤ n = a.0.fits in
    let fits : ltb_ℤ (pos m) (pos (length c.content)) ≡ false = ground arith in
    rw (blank c a.0, fits) (validate_chunks-IsChunk n m cs h a.1)
  where
    blank : (c : ChunkDraft) → IsChunk n c → text_eq (trim_space c.content) [] ≡ false
    blank c k = elim (Bool-cases (text_eq (trim_space c.content) [])) [
      | inl e ↦ absurd (k.filled (sym k.trimmed ∙ (text_eq_iff (trim_space c.content) []).0 e))
      | inr e ↦ e
    ]

default_splitter-ok :
    (s : DefaultSplitter) (text : Text) (cs : List ChunkDraft)
    → split s text ≡ some (ok cs)
    → default_splitter s text ≡ some cs
unfolding default_splitter
default_splitter-ok s text cs h =
    ap
      (λ (o : Option (Result (List ChunkDraft))). elim o as (λ _. Option (List ChunkDraft)) [
        | none ↦ none
        | some (ok ds) ↦ some ds
        | some (err e) ↦ none
      ])
      h

module _ (x : External) where
  check_chunks-valid :
      (c : Config x) (cs : List ChunkDraft)
      → cs ≢ []
      → validate_chunks cs c.max_chunk_chars ≡ none
      → check_chunks x c cs ≡ embed_all x c cs
  unfolding check_chunks
  check_chunks-valid c [] h v = absurd (h refl)
  check_chunks-valid c (k ∷ ks) h v =
      ap
        (λ (o : Option Error). elim o as (λ _. Result (List (Prepared x))) [
          | some e ↦ err e
          | none ↦ embed_all x c (k ∷ ks)
        ])
        v

  prepare-split :
      (c : Config x) (content : Text) (s : Splitter) (cs : List ChunkDraft)
      → c.splitter ≡ some s
      → s content ≡ some cs
      → prepare_document_write x c content ≡ check_chunks x c cs
  unfolding prepare_document_write
  prepare-split c content s cs e f =
      ap
        (λ (o : Option Splitter). elim o as (λ _. Result (List (Prepared x))) [
          | none ↦ err nil_call
          | some t ↦ after (t content)
        ])
        e
      ∙ ap after f
    where
      after : Option (List ChunkDraft) → Result (List (Prepared x))
      after none = err split_content
      after (some ds) = check_chunks x c ds

  -- Where no splitter is configured, every content with a character that is not a space is split into
  -- chunks that `validateChunks` accepts: its preparation comes down to the embedding of these chunks.
  -- They are numbered from 0 and spell the content, with less than a chunk repeated by each, of the
  -- end of the chunk before it.
  pub prepare-normalized :
      (c : Config x) (content : Text)
      → c.splitter ≡ none
      → solid content ≢ []
      → (overlap chars : ℕ) × (chunks : List ChunkDraft) × ((normalized c).max_chunk_chars
          ≡ pos chars)
        × (overlap < chars)
        × (prepare_document_write x (normalized c) content ≡ embed_all x (normalized c) chunks)
        × (chunks ≢ [])
        × Numbered 0 chunks
        × Spells overlap chunks (solid content)
        × (validate_chunks chunks (normalized c).max_chunk_chars ≡ none)
  prepare-normalized c content unset filled =
      let (n, is_n, n>0) = positive_or-positive c.max_chunk_chars 5000 (omega arith) in
      let s = bounded_splitter (pos n) in
      let (chunks, ran, some_chunk, numbered, chunked, spells) = split-Spells s content filled in
      let limit : (normalized c).max_chunk_chars ≡ pos n = unfold normalized in is_n in
      let valid : validate_chunks chunks (normalized c).max_chunk_chars ≡ none =
        rw limit (validate_chunks-IsChunk _ n chunks (bounded_splitter-fits n n>0) chunked) in
      let installed : (normalized c).splitter ≡ some (default_splitter s) =
        unfold normalized in rw (unset, is_n) refl in
      let works : default_splitter s content ≡ some chunks =
        default_splitter-ok s content chunks ran in
      let size = effective_chunk_size s.chunk_size in
      let smaller : effective_overlap s.overlap size < size =
        effective_overlap-lt s.overlap size (effective_chunk_size-pos s.chunk_size) in
      let size≤n : size ≤ n = bounded_splitter-fits n n>0 in
      (
        effective_overlap s.overlap size,
        n,
        chunks,
        limit,
        omega arith,
        prepare-split (normalized c) content (default_splitter s) chunks installed works
            ∙ check_chunks-valid (normalized c) chunks some_chunk valid,
        some_chunk,
        numbered,
        spells,
        valid,
      )
