-- ===== src/HashEmbedder/Tests.antt =====
-- The hash embedder at a concrete text.
use simplykb.Prelude.{
  ℕ, pos, ◌+◌, ◌*◌, ◌/◌, ◌≡◌, ◌≢◌, refl, arith, false, if◌then◌else◌, ◌==◌, some, [], ◌∷◌, map,
  length,
}
use simplykb.Text.{runes, solid, is_space, text_discrete}
use simplykb.Config.{Config, normalized}
use simplykb.Config.Tests.{given}
use simplykb.Requests.Tests.{plain}
use simplykb.Documents.Prepare.{prepare_document_write}
use simplykb.HashEmbedder.Features.{Unicode, collect_features, hash_token}
use simplykb.HashEmbedder.Embed.{
  FloatMath, make_vector, count_tokens, normalize_vector, embed_text, embedded, context_error,
  hash_embed, new_hash_embedder,
}
use simplykb.HashEmbedder.Counting.{get_elem?, occurrences, times, hash_embed-counts}
use simplykb.HashEmbedder.Prepares.{hashes, Comes, prepare-hash}

-- The text is in lower case already; `.` is the only punctuation.
abbrev simple : Unicode
simple = record { to_lower = λ t. t; is_punct = λ r. r == 46 }

abbrev whole_numbers : FloatMath plain
whole_numbers = record {
  zero_value = 0;
  plus_one = λ a. a + 1;
  divide = λ a b. 100 * a / b;
  Sum = ℕ;
  zero_sum = 0;
  add_square = λ s a. s + a * a;
  is_zero_sum = λ s. s == 0;
  norm = λ s. s;
}

-- The hash of "a" that FNV publishes.
hash_token-a : hash_token (runes "a") ≡ 0xe40c292c
unfolding hash_token
hash_token-a = refl

collect_features-ab :
    collect_features simple (runes " ab c. ")
    ≡ runes "ab"
      ∷ runes "c"
      ∷ runes "a"
      ∷ runes "b"
      ∷ runes "c"
      ∷ runes "."
      ∷ runes "ab"
      ∷ runes "bc"
      ∷ runes "c."
      ∷ []
unfolding collect_features text_discrete is_space
collect_features-ab = refl

hash_embed-counts_example :
    (hash_embed plain whole_numbers simple false
        (some (new_hash_embedder plain whole_numbers (pos 4)))
        (runes "ab" ∷ [])
      ≡ (if false
          then context_error
          else embedded (map (embed_text plain whole_numbers simple 4) (runes "ab" ∷ []))))
    × (length (embed_text plain whole_numbers simple 4 (runes "ab")) ≡ 4)
    × (embed_text plain whole_numbers simple 4 (runes "ab")
        ≡ normalize_vector plain whole_numbers (
            count_tokens plain whole_numbers 4
              (collect_features simple (runes "ab"))
              (make_vector plain whole_numbers 4)))
    × (get_elem?
          (count_tokens plain whole_numbers 4
            (collect_features simple (runes "ab"))
            (make_vector plain whole_numbers 4))
          2
        ≡ some
            (times plain whole_numbers (occurrences 4 2 (collect_features simple (runes "ab"))) 0))
hash_embed-counts_example =
    hash_embed-counts plain whole_numbers simple 4 false (runes "ab" ∷ []) (runes "ab") 2
      (omega arith) (omega arith) (omega arith)

abbrev hashing : Config plain
hashing = record given {
  embedder = some (hashes plain whole_numbers simple 4 false);
  embedding_dimensions = pos 4;
}

solid-hello : solid (runes "hi there") ≢ []
unfolding is_space
solid-hello e = cc

prepare-hash_example :
    Comes plain whole_numbers simple 4 false
      (prepare_document_write plain (normalized hashing) (runes "hi there"))
prepare-hash_example =
    prepare-hash plain whole_numbers simple 4 false hashing (runes "hi there") refl refl refl
      (omega arith) (omega arith) solid-hello
