-- ===== src/Search/Keys.antt =====
-- store.go: the order of the results in `SearchDetailed`, on the three values that it compares.
use simplykb.Prelude.{ℤ, pos, negsuc, ltb_ℤ, ◌≡◌, ap, Bool, true, false, if◌then◌else◌, arith}
use simplykb.Text.{
  Text, text_eq, text_eq_iff, text_lt, text_lt_irrefl, text_lt_trans, text_lt_connex,
}
use simplykb.Database.Rows.{ℤ_eq}

-- The rank of a score, the document and the number of the chunk.
pub record Key : Type 0 where
  pub rank : ℤ
  pub document : Text
  pub number : ℤ

abbrev pub number_before : Key → Key → Bool
number_before a b =
    if text_eq a.document b.document then ltb_ℤ a.number b.number else text_lt a.document b.document

abbrev pub key_before : Key → Key → Bool
key_before a b = if ℤ_eq a.rank b.rank then number_before a b else ltb_ℤ b.rank a.rank

number_before_asym : (a b : Key) → number_before a b ≡ true → number_before b a ≡ false
number_before_asym a b h =
    ground (arith, text_lt_irrefl a.document, text_lt_trans a.document b.document a.document)

number_before_trans :
    (a b c : Key)
    → number_before b a ≡ false
    → number_before c b ≡ false
    → number_before c a ≡ false
number_before_trans a b c h k = ground (
  arith,
  text_lt_connex b.document a.document,
  text_lt_connex c.document b.document,
  text_lt_trans a.document b.document c.document,
  text_lt_trans c.document a.document c.document,
  text_lt_irrefl c.document,
)

pub key_before_asym : (a b : Key) → key_before a b ≡ true → key_before b a ≡ false
key_before_asym a b h = ground (arith, number_before_asym a b)

pub key_before_trans :
    (a b c : Key) → key_before b a ≡ false → key_before c b ≡ false → key_before c a ≡ false
key_before_trans a b c h k = ground (arith, number_before_trans a b c)

ℤ_eq_sound : (m n : ℤ) → ltb_ℤ m n ≡ false → ltb_ℤ n m ≡ false → m ≡ n
ℤ_eq_sound (pos m) (pos n) h k = ap pos (ground arith)
ℤ_eq_sound (pos m) (negsuc n) h k = absurd (ground arith)
ℤ_eq_sound (negsuc m) (pos n) h k = absurd (ground arith)
ℤ_eq_sound (negsuc m) (negsuc n) h k = ap negsuc (ground arith)

number_before_tie :
    (a b : Key)
    → number_before a b ≡ false
    → number_before b a ≡ false
    → (text_eq a.document b.document ≡ true)
      × (ltb_ℤ a.number b.number ≡ false)
      × (ltb_ℤ b.number a.number ≡ false)
number_before_tie a b h k = ground (arith, text_lt_connex a.document b.document)

ranks_tie :
    (a b : Key)
    → key_before a b ≡ false
    → key_before b a ≡ false
    → (number_before a b ≡ false) × (number_before b a ≡ false)
ranks_tie a b h k = ground arith

-- Keys that tie are of one chunk.
pub key_before_tie :
    (a b : Key)
    → key_before a b ≡ false
    → key_before b a ≡ false
    → (a.document ≡ b.document) × (a.number ≡ b.number)
key_before_tie a b h k =
    let (h', k') = ranks_tie a b h k in
    let (d, less, more) = number_before_tie a b h' k' in
    ((text_eq_iff a.document b.document).0 d, ℤ_eq_sound a.number b.number less more)
