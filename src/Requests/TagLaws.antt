-- ===== src/Requests/TagLaws.antt =====
-- store.go: what `normalizeTags` returns.
use simplykb.Prelude.{
  ◌≡◌, refl, ◌∙◌, Bool, true, false, not, ◌&&◌, List, [], ◌∷◌, if◌then◌else◌, arith, All,
  Bool-cases, inl, inr, map,
}
use simplykb.Text.{Text, text_eq, text_lt, trim_space, text_lt_trans, text_lt_connex, text_eq_iff}
use simplykb.Requests.Tags.{contains, collect_tags, insert_text, sort_strings, normalize_tags}

-- Every text lies above `s`.
abbrev pub Above : Text → List Text → Type 0
Above s = All (λ t. text_lt s t ≡ true)

-- Strictly ascending: sorted, and no text twice.
abbrev pub Ascending : List Text → Type 0
Ascending [] = Unit
Ascending (s ∷ l) = Above s l × Ascending l

abbrev NoDuplicates : List Text → Type 0
NoDuplicates [] = Unit
NoDuplicates (s ∷ l) = (contains s l ≡ false) × NoDuplicates l

Above-trans : (s t : Text) (l : List Text) → text_lt s t ≡ true → Above t l → Above s l
Above-trans s t [] h a = tt
Above-trans s t (u ∷ l) h a = (text_lt_trans s t u h a.0, Above-trans s t l h a.1)

Above-insert_text :
    (s t : Text) (l : List Text) → text_lt s t ≡ true → Above s l → Above s (insert_text t l)
unfolding insert_text
Above-insert_text s t [] h a = (h, tt)
Above-insert_text s t (u ∷ l) h a = elim (Bool-cases (text_lt u t)) [
  | inl below ↦ rw below (a.0, Above-insert_text s t l h a.1)
  | inr above ↦ rw above (h, a)
]

insert_text-Ascending :
    (t : Text) (l : List Text) → contains t l ≡ false → Ascending l → Ascending (insert_text t l)
unfolding insert_text contains
insert_text-Ascending t [] h a = (tt, tt)
insert_text-Ascending t (s ∷ l) h a = elim (Bool-cases (text_lt s t)) [
  | inl below ↦
      rw below (Above-insert_text s t l below a.0, insert_text-Ascending t l (ground arith) a.1)
  | inr above ↦
      let first : text_lt t s ≡ true = text_lt_connex s t above (ground arith) in
      rw above ((first, Above-trans t s l first a.0), a)
]

contains-insert_text :
    (q t : Text) (l : List Text)
    → contains q (insert_text t l) ≡ (if text_eq t q then true else contains q l)
unfolding contains insert_text
contains-insert_text q t [] = refl
contains-insert_text q t (s ∷ l) = ground (arith, contains-insert_text q t l)

contains-sort_strings : (q : Text) (l : List Text) → contains q (sort_strings l) ≡ contains q l
unfolding contains sort_strings
contains-sort_strings q [] = refl
contains-sort_strings q (t ∷ l) =
    contains-insert_text q t (sort_strings l) ∙ ground (arith, contains-sort_strings q l)

sort_strings-Ascending : (l : List Text) → NoDuplicates l → Ascending (sort_strings l)
unfolding sort_strings
sort_strings-Ascending [] d = tt
sort_strings-Ascending (t ∷ l) d =
    insert_text-Ascending t (sort_strings l) (contains-sort_strings t l ∙ d.0)
      (sort_strings-Ascending l d.1)

-- The three branches of the loop, for a trimmed tag `t` and what is left, `rest`.
blank_step :
    (q t : Text) (e : t ≡ []) (s rest : Bool)
    → (not (text_eq q []) && s && rest)
      ≡ (not (text_eq q []) && s && (if text_eq t q then true else rest))
blank_step q t e s rest = rw e (ground arith)

old_step :
    (q t : Text) (seen : List Text) (old : contains t seen ≡ true) (rest : Bool)
    → (not (text_eq q []) && not (contains q seen) && rest)
      ≡ (not (text_eq q []) && not (contains q seen) && (if text_eq t q then true else rest))
old_step q t seen old rest = elim (Bool-cases (text_eq t q)) [
  | inl same ↦ let e : t ≡ q = (text_eq_iff t q).0 same in rw (rw e at old) (ground arith)
  | inr other ↦ rw other
]

new_step :
    (q t : Text) (seen : List Text) (solid : text_eq t [] ≡ false) (new : contains t seen ≡ false)
    (collected rest : Bool)
    → collected ≡ (not (text_eq q []) && not (contains q (t ∷ seen)) && rest)
    → (if text_eq t q then true else collected)
      ≡ (not (text_eq q []) && not (contains q seen) && (if text_eq t q then true else rest))
unfolding contains
new_step q t seen solid new collected rest h = elim (Bool-cases (text_eq t q)) [
  | inl same ↦
      let e : t ≡ q = (text_eq_iff t q).0 same in rw (same, rw e at solid, rw e at new) refl
  | inr other ↦ rw (other, h, other) refl
]

contains-collect_tags :
    (q : Text) (seen tags : List Text)
    → contains q (collect_tags seen tags)
      ≡ (not (text_eq q []) && not (contains q seen) && contains q (map trim_space tags))
unfolding contains collect_tags
contains-collect_tags q seen [] = ground arith
contains-collect_tags q seen (tag ∷ tags) = elim (Bool-cases (text_eq (trim_space tag) [])) [
  | inl blank ↦
      let t : trim_space tag ≡ [] = (text_eq_iff (trim_space tag) []).0 blank in
      rw blank (contains-collect_tags q seen tags ∙ blank_step q (trim_space tag) t _ _)
  | inr solid ↦ elim (Bool-cases (contains (trim_space tag) seen)) [
    | inl old ↦
        rw (solid, old) (contains-collect_tags q seen tags ∙ old_step q (trim_space tag) seen old _)
    | inr new ↦
        rw (solid, new)
          (new_step q (trim_space tag) seen solid new _ _
            (contains-collect_tags q (trim_space tag ∷ seen) tags))
  ]
]

collect_tags-NoDuplicates : (seen tags : List Text) → NoDuplicates (collect_tags seen tags)
unfolding collect_tags
collect_tags-NoDuplicates seen [] = tt
collect_tags-NoDuplicates seen (tag ∷ tags) = elim (Bool-cases (text_eq (trim_space tag) [])) [
  | inl blank ↦ rw blank (collect_tags-NoDuplicates seen tags)
  | inr solid ↦ elim (Bool-cases (contains (trim_space tag) seen)) [
    | inl old ↦ rw (solid, old) (collect_tags-NoDuplicates seen tags)
    | inr new ↦
        rw (solid, new)
          (
            unfold contains in
                ground (arith, contains-collect_tags (trim_space tag) (trim_space tag ∷ seen) tags),
            collect_tags-NoDuplicates (trim_space tag ∷ seen) tags,
          )
  ]
]

-- The tags come out strictly ascending: sorted, and no tag twice.
pub normalize_tags-Ascending : (tags : List Text) → Ascending (normalize_tags tags)
unfolding normalize_tags
normalize_tags-Ascending tags =
    sort_strings-Ascending (collect_tags [] tags) (collect_tags-NoDuplicates [] tags)

-- A text is among the results exactly when it is not empty and some tag trims to it.
pub contains-normalize_tags :
    (q : Text) (tags : List Text)
    → contains q (normalize_tags tags) ≡ (not (text_eq q []) && contains q (map trim_space tags))
unfolding normalize_tags
contains-normalize_tags q tags =
    contains-sort_strings q (collect_tags [] tags)
    ∙ contains-collect_tags q [] tags
    ∙ (unfold contains in ground arith)
