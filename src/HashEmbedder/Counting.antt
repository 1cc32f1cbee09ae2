-- ===== src/HashEmbedder/Counting.antt =====
-- embedder_hash.go: the vectors of `HashEmbedder.Embed` count features.
use simplykb.Prelude.{
  ℕ, pos, zero, suc, ◌%◌, ◌^◌, ◌<◌, ◌≡◌, refl, ap, ◌∙◌, arith, Bool, true, false, if◌then◌else◌,
  ◌==◌, leb_ℤ, ==_iff, Bool-cases, inl, inr, Option, none, some, List, [], ◌∷◌, map, select, length,
}
use simplykb.Text.{Text}
use simplykb.External.{External}
use simplykb.HashEmbedder.Features.{Unicode, collect_features, hash_token}
use simplykb.HashEmbedder.Embed.{
  FloatMath, make_vector, increment, count_tokens, sum_of_squares, normalize_vector, embed_text,
  Embedded, embedded, context_error, embed_texts, hash_embed, new_hash_embedder,
}

abbrev pub get_elem? : {A : Type 0} → List A → ℕ → Option A
get_elem? [] i = none
get_elem? (a ∷ l) zero = some a
get_elem? (a ∷ l) (suc i) = get_elem? l i

-- How many features fall on a coordinate.
abbrev pub occurrences : ℕ → ℕ → List Text → ℕ
occurrences n i tokens = length (select (λ t. hash_token t % n == i) tokens)

pub length-map : {A B : Type 0} (g : A → B) (l : List A) → length (map g l) ≡ length l
length-map g [] = refl
length-map g (a ∷ l) = ap suc (length-map g l)

module _ (x : External) (f : FloatMath x) where
  -- One added so many times.
  abbrev pub times : ℕ → x.Float → x.Float
  times zero a = a
  times (suc n) a = times n (f.plus_one a)

  length-make_vector : (n : ℕ) → length (make_vector x f n) ≡ n
  unfolding make_vector
  length-make_vector zero = refl
  length-make_vector (suc n) = ap suc (length-make_vector n)

  length-increment : (i : ℕ) (v : List x.Float) → length (increment x f i v) ≡ length v
  unfolding increment
  length-increment i [] = refl
  length-increment zero (a ∷ v) = refl
  length-increment (suc i) (a ∷ v) = ap suc (length-increment i v)

  length-count_tokens :
      (n : ℕ) (ts : List Text) (v : List x.Float) → length (count_tokens x f n ts v) ≡ length v
  unfolding count_tokens
  length-count_tokens n [] v = refl
  length-count_tokens n (t ∷ ts) v =
      length-count_tokens n ts _ ∙ length-increment (hash_token t % n) v

  length-normalize_vector : (v : List x.Float) → length (normalize_vector x f v) ≡ length v
  unfolding normalize_vector
  length-normalize_vector v = elim (Bool-cases (f.is_zero_sum (sum_of_squares x f f.zero_sum v))) [
    | inl e ↦ rw (e, normalize_vector) refl
    | inr e ↦ rw (e, normalize_vector) (length-map _ v)
  ]

  get-make_vector : (n i : ℕ) → i < n → get_elem? (make_vector x f n) i ≡ some f.zero_value
  unfolding make_vector
  get-make_vector zero i h = absurd (omega arith)
  get-make_vector (suc n) zero h = refl
  get-make_vector (suc n) (suc i) h = get-make_vector n i (omega arith)

  get-increment_same :
      (i : ℕ) (v : List x.Float) (a : x.Float)
      → get_elem? v i ≡ some a
      → get_elem? (increment x f i v) i ≡ some (f.plus_one a)
  unfolding increment
  get-increment_same i [] a h = cc
  get-increment_same zero (b ∷ v) a h = cc
  get-increment_same (suc i) (b ∷ v) a h = get-increment_same i v a h

  get-increment_other :
      (j i : ℕ) (v : List x.Float)
      → (j == i) ≡ false
      → get_elem? (increment x f j v) i ≡ get_elem? v i
  unfolding increment
  get-increment_other j i [] h = refl
  get-increment_other zero zero (b ∷ v) h = cc
  get-increment_other zero (suc i) (b ∷ v) h = refl
  get-increment_other (suc j) zero (b ∷ v) h = refl
  get-increment_other (suc j) (suc i) (b ∷ v) h = get-increment_other j i v (ground arith)

  get-count_tokens :
      (n i : ℕ) (ts : List Text) (v : List x.Float) (a : x.Float)
      → get_elem? v i ≡ some a
      → get_elem? (count_tokens x f n ts v) i ≡ some (times (occurrences n i ts) a)
  unfolding count_tokens
  get-count_tokens n i [] v a h = h
  get-count_tokens n i (t ∷ ts) v a h = elim (Bool-cases (hash_token t % n == i)) [
    | inl same ↦
        let at : hash_token t % n ≡ i = (==_iff (hash_token t % n) i).0 same in
        let one : get_elem? (increment x f (hash_token t % n) v) i ≡ some (f.plus_one a) =
          rw at (get-increment_same i v a h) in
        rw same (get-count_tokens n i ts (increment x f (hash_token t % n) v) (f.plus_one a) one)
    | inr other ↦ rw other (
        get-count_tokens n i ts (increment x f (hash_token t % n) v) a
          (get-increment_other (hash_token t % n) i v other ∙ h))
  ]

  pub length-embed_text : (u : Unicode) (n : ℕ) (text : Text) → length (embed_text x f u n text) ≡ n
  unfolding embed_text
  length-embed_text u n text =
      length-normalize_vector
        (count_tokens x f (n % 2 ^ 32) (collect_features u text) (make_vector x f n))
      ∙ (length-count_tokens (n % 2 ^ 32) (collect_features u text) (make_vector x f n)
          ∙ length-make_vector n)

  embed_texts-some :
      (u : Unicode) (n : ℕ) (texts : List Text)
      → 0 < n
      → n < 2 ^ 32
      → embed_texts x f u n texts ≡ some (map (embed_text x f u n) texts)
  unfolding embed_texts
  embed_texts-some u n [] positive fits = refl
  embed_texts-some u n (t ∷ ts) positive fits =
      let divides : (n % 2 ^ 32 == 0) ≡ false = ground arith in rw divides refl

  -- What `Embed` answers for dimensions that are positive and fit a `uint32`.
  abbrev pub answer : Unicode → ℕ → Bool → List Text → Embedded x f
  answer u n true texts = context_error
  answer u n false texts = embedded (map (embed_text x f u n) texts)

  pub hash_embed-answer :
      (u : Unicode) (n : ℕ) (cancelled : Bool) (texts : List Text)
      → 0 < n
      → n < 2 ^ 32
      → hash_embed x f u cancelled (some (new_hash_embedder x f (pos n))) texts
        ≡ answer u n cancelled texts
  unfolding hash_embed new_hash_embedder
  hash_embed-answer u n true texts positive fits = refl
  hash_embed-answer u n false texts positive fits =
      let test : leb_ℤ (pos n) (pos 0) ≡ false = ground arith in
      rw (test, embed_texts-some u n texts positive fits) refl

  -- Of dimensions that are positive and fit a `uint32`, `Embed` fails with the context's error under a
  -- cancelled context, and otherwise returns for each text its counts after `normalizeVector`, a vector
  -- of that length; before, a coordinate is as many ones added up as features of the text fall on it by
  -- their hash modulo the dimensions.
  pub hash_embed-counts :
      (u : Unicode) (n : ℕ) (cancelled : Bool) (texts : List Text) (text : Text) (i : ℕ)
      → 0 < n
      → n < 2 ^ 32
      → i < n
      → (hash_embed x f u cancelled (some (new_hash_embedder x f (pos n))) texts
          ≡ (if cancelled then context_error else embedded (map (embed_text x f u n) texts)))
        × (length (embed_text x f u n text) ≡ n)
        × (embed_text x f u n text
            ≡ normalize_vector x f
                (count_tokens x f n (collect_features u text) (make_vector x f n)))
        × (get_elem? (count_tokens x f n (collect_features u text) (make_vector x f n)) i
            ≡ some (times (occurrences n i (collect_features u text)) f.zero_value))
  unfolding embed_text
  hash_embed-counts u n cancelled texts text i positive fits below =
      let whole : n % 2 ^ 32 ≡ n = omega arith in
      (
        hash_embed-answer u n cancelled texts positive fits ∙ answer_if cancelled,
        length-embed_text u n text,
        ap
            (λ m.
              normalize_vector x f
                (count_tokens x f m (collect_features u text) (make_vector x f n)))
            whole,
        get-count_tokens n i (collect_features u text) (make_vector x f n) f.zero_value
            (get-make_vector n i below),
      )
    where
      answer_if :
          (b : Bool)
          → answer u n b texts
            ≡ (if b then context_error else embedded (map (embed_text x f u n) texts))
      answer_if true = refl
      answer_if false = refl
