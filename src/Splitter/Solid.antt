-- ===== src/Splitter/Solid.antt =====
-- `normalizeText` and the paragraphs keep the characters that are not spaces.
use mathlib.Core.List.{append_assoc, append-nil, flatten}
use mathlib.Core.Path.{ap₂}
use simplykb.Prelude.{
  ◌≡◌, ◌↔◌, refl, sym, ap, ◌∙◌, List, [], ◌∷◌, ◌++◌, ◌==◌, arith, Bool-cases, inl, inr,
  select-append, ==_iff,
}
use simplykb.Text.{
  Text, text_eq, text_eq_iff, solid, is_solid, is_space, solid-trim_space, trim_space,
  trim_space-eq-nil, solid-eq-nil,
}
use simplykb.Requests.Names.{replace_crlf, replace_cr, normalize_text}
use simplykb.Splitter.Model.{split_blank_lines, keep_paragraphs}

-- `normalizeText` keeps every character that is not a space.
solid-replace_cr : (s : Text) → solid (replace_cr s) ≡ solid s
unfolding replace_cr is_space
solid-replace_cr [] = refl
solid-replace_cr (a ∷ s) = elim (Bool-cases (a == 13)) [
  | inl cr ↦ let e : a ≡ 13 = (==_iff a 13).0 cr in rw e (solid-replace_cr s)
  | inr other ↦ rw (other, solid-replace_cr s)
]

solid-replace_crlf : (s : Text) → solid (replace_crlf s) ≡ solid s
unfolding replace_crlf is_space
solid-replace_crlf [] = refl
solid-replace_crlf (a ∷ []) = refl
solid-replace_crlf (a ∷ b ∷ s) = elim (Bool-cases (a == 13)) [
  | inl cr ↦ elim (Bool-cases (b == 10)) [
    | inl lf ↦
        let e : a ≡ 13 = (==_iff a 13).0 cr in
        let e' : b ≡ 10 = (==_iff b 10).0 lf in rw (e, e') (solid-replace_crlf s)
    | inr other ↦ rw (cr, other) (ground (arith, solid-replace_crlf (b ∷ s)))
  ]
  | inr other ↦ rw other (ground (arith, solid-replace_crlf (b ∷ s)))
]

pub solid-normalize_text : (s : Text) → solid (normalize_text s) ≡ solid s
unfolding normalize_text
solid-normalize_text s =
    solid-trim_space (replace_cr (replace_crlf s))
    ∙ solid-replace_cr (replace_crlf s)
    ∙ solid-replace_crlf s

pub solid-split_blank_lines :
    (part s : Text) → solid (flatten (split_blank_lines part s)) ≡ solid (part ++ s)
unfolding split_blank_lines is_space flatten
solid-split_blank_lines part [] = refl
solid-split_blank_lines part (a ∷ []) = rw append-nil
solid-split_blank_lines part (a ∷ b ∷ s) = elim (Bool-cases (a == 10)) [
  | inl lf ↦ elim (Bool-cases (b == 10)) [
    | inl lf' ↦
        let e : a ≡ 10 = (==_iff a 10).0 lf in
        let e' : b ≡ 10 = (==_iff b 10).0 lf' in
        rw (e, e')
          (select-append is_solid part (flatten (split_blank_lines [] s))
            ∙ ap (λ (u : Text). solid part ++ u) (solid-split_blank_lines [] s)
            ∙ sym (select-append is_solid part (10 ∷ 10 ∷ s)))
    | inr other ↦
        rw (lf, other)
          (solid-split_blank_lines (part ++ a ∷ []) (b ∷ s)
            ∙ ap solid (append_assoc part (a ∷ []) (b ∷ s)))
  ]
  | inr other ↦ rw other (
      solid-split_blank_lines (part ++ a ∷ []) (b ∷ s)
      ∙ ap solid (append_assoc part (a ∷ []) (b ∷ s)))
]

pub solid-keep_paragraphs :
    (parts : List Text) → solid (flatten (keep_paragraphs parts)) ≡ solid (flatten parts)
unfolding keep_paragraphs flatten
solid-keep_paragraphs [] = refl
solid-keep_paragraphs (part ∷ parts) = elim (Bool-cases (text_eq (trim_space part) [])) [
  | inl blank ↦ rw blank (
      solid-keep_paragraphs parts
      ∙ ap (λ (u : Text). u ++ solid (flatten parts))
          (sym (solid-eq-nil part ((text_eq_iff (trim_space part) []).0 blank)))
      ∙ sym (select-append is_solid part (flatten parts)))
  | inr filled ↦ rw filled (
      select-append is_solid (trim_space part) (flatten (keep_paragraphs parts))
      ∙ ap₂ (λ (u v : Text). u ++ v) (solid-trim_space part) (solid-keep_paragraphs parts)
      ∙ sym (select-append is_solid part (flatten parts)))
]

-- The normalised text is empty exactly when the text holds nothing but spaces.
pub normalize_text-eq-nil : (s : Text) → (normalize_text s ≡ []) ↔ (solid s ≡ [])
normalize_text-eq-nil s = (
  λ e. sym (solid-normalize_text s) ∙ ap solid e,
  λ e.
      unfold normalize_text in
      trim_space-eq-nil (replace_cr (replace_crlf s))
        (solid-replace_cr (replace_crlf s) ∙ solid-replace_crlf s ∙ e),
)
