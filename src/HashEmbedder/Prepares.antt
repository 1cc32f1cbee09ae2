-- ===== src/HashEmbedder/Prepares.antt =====
-- embedder_hash.go, config.go, splitter.go and store.go together: a document is prepared with the hash
-- embedder and the splitter that `normalized` installs.
use simplykb.Prelude.{
  ℕ, pos, ◌^◌, ◌<◌, ◌≡◌, ◌≢◌, refl, ap, ◌∙◌, arith, Bool, true, false, ==_iff, ltb_ℤ, none, some,
  List, [], ◌∷◌, map, length, All,
}
use simplykb.Text.{Text, solid}
use simplykb.External.{External}
use simplykb.Errors.{Result, ok, err, embed_chunks}
use simplykb.Types.{ChunkDraft, Embedder}
use simplykb.Config.{Config, normalized}
use simplykb.Documents.Prepare.{
  Prepared, check_dimensions, pair_up, check_vectors, embed_all, prepare_document_write,
}
use simplykb.Documents.Chunking.{prepare-normalized}
use simplykb.HashEmbedder.Features.{Unicode}
use simplykb.HashEmbedder.Embed.{
  FloatMath, embed_text, hash_embed, new_hash_embedder, vectors_of, as_embedder,
}
use simplykb.HashEmbedder.Counting.{length-map, length-embed_text, hash_embed-answer}

module _ (x : External) where
  check_dimensions-fit :
      (n : ℕ) (vs : List (List x.Float))
      → All (λ (v : List x.Float). length v ≡ n) vs
      → check_dimensions x (pos n) vs ≡ none
  unfolding check_dimensions
  check_dimensions-fit n [] a = refl
  check_dimensions-fit n (v ∷ vs) a =
      let low : ltb_ℤ (pos (length v)) (pos n) ≡ false = let l = a.0 in ground arith in
      let high : ltb_ℤ (pos n) (pos (length v)) ≡ false = let l = a.0 in ground arith in
      rw (low, high) (check_dimensions-fit n vs a.1)

  check_vectors-fit :
      (n : ℕ) (chunks : List ChunkDraft) (vs : List (List x.Float))
      → length vs ≡ length chunks
      → All (λ (v : List x.Float). length v ≡ n) vs
      → check_vectors x (pos n) chunks vs ≡ ok (pair_up x chunks vs)
  unfolding check_vectors
  check_vectors-fit n chunks vs same a =
      rw ((==_iff (length vs) (length chunks)).1 same, check_vectors, check_dimensions-fit n vs a)
        refl

  module _ (f : FloatMath x) (u : Unicode) (n : ℕ) where
    All-fit :
        (ts : List Text) → All (λ (v : List x.Float). length v ≡ n) (map (embed_text x f u n) ts)
    All-fit [] = tt
    All-fit (t ∷ ts) = (length-embed_text x f u n t, All-fit ts)

    -- The embedder of these dimensions, for calls with a context that is cancelled or not.
    abbrev pub hashes : Bool → Embedder x
    hashes cancelled = as_embedder x f u cancelled (new_hash_embedder x f (pos n))

    embed_all-cancelled :
        (c : Config x) (chunks : List ChunkDraft)
        → c.embedder ≡ some (hashes true)
        → embed_all x c chunks ≡ err embed_chunks
    unfolding embed_all as_embedder hash_embed vectors_of
    embed_all-cancelled c chunks is = rw (is, embed_all) refl

    hashes-embed :
        (texts : List Text)
        → 0 < n
        → n < 2 ^ 32
        → (hashes false).embed texts ≡ some (map (embed_text x f u n) texts)
    unfolding as_embedder
    hashes-embed texts positive fits =
        ap (vectors_of x f) (hash_embed-answer x f u n false texts positive fits)
        ∙ (unfold vectors_of in refl)

    embed_all-hash :
        (c : Config x) (chunks : List ChunkDraft)
        → c.embedder ≡ some (hashes false)
        → c.embedding_dimensions ≡ pos n
        → 0 < n
        → n < 2 ^ 32
        → (ps : List (Prepared x)) × (embed_all x c chunks ≡ ok ps)
    unfolding embed_all
    embed_all-hash c chunks is size positive fits =
        let texts = map (λ (d : ChunkDraft). d.content) chunks in
        let vs = map (embed_text x f u n) texts in
        let long : length vs ≡ length chunks =
          length-map (embed_text x f u n) texts
          ∙ length-map (λ (d : ChunkDraft). d.content) chunks in
        (
          pair_up x chunks vs,
          rw (is, embed_all, hashes-embed texts positive fits)
              (ap (λ d. check_vectors x d chunks vs) size
                ∙ check_vectors-fit n chunks vs long (All-fit texts)),
        )

    -- What comes of a content: under a cancelled context the embedder's error, and otherwise the
    -- prepared chunks.
    abbrev pub Comes : Bool → Result (List (Prepared x)) → Type 0
    Comes true r = r ≡ err embed_chunks
    Comes false r = (ps : List (Prepared x)) × (r ≡ ok ps)

    -- Without a configured splitter, with the hash embedder, and with the dimensions for which it was
    -- made, which are positive and fit a `uint32`, every content with a character that is not a space
    -- is prepared without an error if the context of `Embed` is not cancelled, and refused with the
    -- embedder's error if it is.
    pub prepare-hash :
        (cancelled : Bool) (c : Config x) (content : Text)
        → c.splitter ≡ none
        → c.embedder ≡ some (hashes cancelled)
        → c.embedding_dimensions ≡ pos n
        → 0 < n
        → n < 2 ^ 32
        → solid content ≢ []
        → Comes cancelled (prepare_document_write x (normalized c) content)
    prepare-hash true c content unset is size positive fits filled =
        let (_, _, chunks, _, _, comes_to, _, _, _, _) =
          prepare-normalized x c content unset filled in
        comes_to ∙ embed_all-cancelled (normalized c) chunks (unfold normalized in is)
    prepare-hash false c content unset is size positive fits filled =
        let (_, _, chunks, _, _, comes_to, _, _, _, _) =
          prepare-normalized x c content unset filled in
        let (ps, done) =
          embed_all-hash (normalized c) chunks (unfold normalized in is) (unfold normalized in size)
            positive fits in
        (ps, comes_to ∙ done)
