-- ===== src/Search/Ranking.antt =====
-- store.go: the results of `SearchDetailed` do not depend on the order in which Go visits a map, nor
-- on the sort that `sort.Slice` chooses.
use mathlib.Core.List.{Mem}
use simplykb.Prelude.{ℤ, pos, ltb_ℤ, ◌≡◌, ◌≢◌, refl, sym, ◌∙◌, true, List}
use simplykb.Prelude.Sorting.{IsOrder, IsStrict}
use simplykb.External.{External}
use simplykb.Database.Rows.{ℤ_eq}
use simplykb.Search.Keys.{Key, key_before, key_before_asym, key_before_trans, key_before_tie}
use simplykb.Search.Hits.{SearchEngine, SearchHit}
use simplykb.Search.Fusion.{ranks_before}

module _ (x : External) (e : SearchEngine x) where
  -- Not NaN.
  abbrev pub IsNumber : e.Float64 → Type 0
  IsNumber a = e.same a a ≡ true

  -- IEEE 754: `==` and `<` compare numbers by a rank, in which the two zeros are one.
  pub record FloatLaws : Type 0 where
    pub rank : e.Float64 → ℤ
    pub same_rank :
        (a b : e.Float64) → IsNumber a → IsNumber b → e.same a b ≡ ℤ_eq (rank a) (rank b)
    pub below_rank :
        (a b : e.Float64) → IsNumber a → IsNumber b → e.below a b ≡ ltb_ℤ (rank a) (rank b)
    -- Reciprocals of integers are finite, and so are sums of two.
    pub one_number : (n : ℤ) → n ≢ pos 0 → IsNumber (e.add e.zero_score (e.reciprocal n))
    pub two_number :
        (m n : ℤ)
        → m ≢ pos 0
        → n ≢ pos 0
        → IsNumber (e.add (e.add e.zero_score (e.reciprocal m)) (e.reciprocal n))

  -- One chunk is found at most once: a document and a number belong to one hit.
  abbrev pub OnePerChunk : List (SearchHit x e) → Type 0
  OnePerChunk l =
      (a b : SearchHit x e)
      → Mem a l
      → Mem b l
      → a.document_id ≡ b.document_id
      → a.chunk_number ≡ b.chunk_number
      → a ≡ b

  abbrev pub AllNumbers : List (SearchHit x e) → Type 0
  AllNumbers l = (a : SearchHit x e) → Mem a l → IsNumber a.score

  module _ (laws : FloatLaws) where
    abbrev key_of : SearchHit x e → Key
    key_of h = record {
      rank = laws.rank h.score;
      document = h.document_id;
      number = h.chunk_number;
    }

    ranks_before-key_before :
        (a b : SearchHit x e)
        → IsNumber a.score
        → IsNumber b.score
        → ranks_before x e a b ≡ key_before (key_of a) (key_of b)
    unfolding ranks_before
    ranks_before-key_before a b na nb =
        rw (laws.same_rank a.score b.score na nb, laws.below_rank b.score a.score nb na) refl

    pub ranks_before-IsOrder :
        (l : List (SearchHit x e)) → AllNumbers l → IsOrder (ranks_before x e) l
    ranks_before-IsOrder l n = record {
      asym = λ a b ma mb h.
          ranks_before-key_before b a (n b mb) (n a ma)
          ∙ key_before_asym (key_of a) (key_of b)
              (sym (ranks_before-key_before a b (n a ma) (n b mb)) ∙ h);
      trans = λ a b c ma mb mc h k.
          ranks_before-key_before c a (n c mc) (n a ma)
          ∙ key_before_trans (key_of a) (key_of b) (key_of c)
              (sym (ranks_before-key_before b a (n b mb) (n a ma)) ∙ h)
              (sym (ranks_before-key_before c b (n c mc) (n b mb)) ∙ k);
    }

    pub ranks_before-IsStrict :
        (l : List (SearchHit x e)) → AllNumbers l → OnePerChunk l → IsStrict (ranks_before x e) l
    ranks_before-IsStrict l n one a b ma mb h k =
        let (document, number) =
          key_before_tie (key_of a) (key_of b)
            (sym (ranks_before-key_before a b (n a ma) (n b mb)) ∙ k)
            (sym (ranks_before-key_before b a (n b mb) (n a ma)) ∙ h) in
        one a b ma mb document number
