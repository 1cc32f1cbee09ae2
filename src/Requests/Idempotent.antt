-- ===== src/Requests/Idempotent.antt =====
-- store.go: the normalisation of a normalised request, which a restart of `writeDocument` does.
use mathlib.Core.Bool.{false≢true}
use mathlib.Core.List.{reverse, reverse_aux}
use simplykb.Prelude.{
  ◌≡◌, refl, sym, ap, ◌∙◌, true, false, some, List, [], ◌∷◌, if◌then◌else◌, arith, All, Bool-cases,
  inl, inr, ◌==◌,
}
use simplykb.Text.{
  Text, text_eq, text_lt, text_eq_iff, trim_left, trim_space, trim_space-trim_space, text_lt_irrefl,
  text_lt_trans, is_space,
}
use simplykb.External.{External}
use simplykb.Types.{UpsertDocumentRequest}
use simplykb.Requests.Tags.{contains, collect_tags, insert_text, sort_strings, normalize_tags}
use simplykb.Requests.TagLaws.{Above, Ascending, normalize_tags-Ascending}
use simplykb.Requests.Names.{
  replace_crlf, replace_cr, normalize_text, resolve_collection, normalize_metadata,
  normalize_document_request,
}

-- No carriage return.
abbrev NoCr : Text → Type 0
NoCr = All (λ r. (r == 13) ≡ false)

NoCr-replace_cr : (s : Text) → NoCr (replace_cr s)
unfolding replace_cr
NoCr-replace_cr [] = tt
NoCr-replace_cr (a ∷ s) = (ground arith, NoCr-replace_cr s)

replace_cr_id : (s : Text) → NoCr s → replace_cr s ≡ s
unfolding replace_cr
replace_cr_id [] h = refl
replace_cr_id (a ∷ s) h = rw h.0 (ap (◌∷◌ a) (replace_cr_id s h.1))

replace_crlf_id : (s : Text) → NoCr s → replace_crlf s ≡ s
unfolding replace_crlf
replace_crlf_id [] h = refl
replace_crlf_id (a ∷ []) h = refl
replace_crlf_id (a ∷ b ∷ s) h = rw h.0 (ap (◌∷◌ a) (replace_crlf_id (b ∷ s) h.1))

NoCr-trim_left : (s : Text) → NoCr s → NoCr (trim_left s)
unfolding trim_left
NoCr-trim_left [] h = tt
NoCr-trim_left (a ∷ s) h = elim (Bool-cases (is_space a)) [
  | inl e ↦ rw e (NoCr-trim_left s h.1)
  | inr e ↦ rw e h
]

NoCr-reverse_aux : (s t : Text) → NoCr s → NoCr t → NoCr (reverse_aux s t)
NoCr-reverse_aux [] t hs ht = ht
NoCr-reverse_aux (a ∷ s) t hs ht = NoCr-reverse_aux s (a ∷ t) hs.1 (hs.0, ht)

NoCr-trim_space : (s : Text) → NoCr s → NoCr (trim_space s)
unfolding trim_space
NoCr-trim_space s h =
    NoCr-reverse_aux (trim_left (reverse (trim_left s))) []
      (NoCr-trim_left (reverse (trim_left s))
        (NoCr-reverse_aux (trim_left s) [] (NoCr-trim_left s h) tt))
      tt

pub normalize_text-normalize_text :
    (s : Text) → normalize_text (normalize_text s) ≡ normalize_text s
normalize_text-normalize_text s =
    let t = trim_space (replace_cr (replace_crlf s)) in
    let clean : NoCr t = NoCr-trim_space _ (NoCr-replace_cr (replace_crlf s)) in
    unfold normalize_text in
    ap trim_space (ap replace_cr (replace_crlf_id t clean) ∙ replace_cr_id t clean)
    ∙ trim_space-trim_space (replace_cr (replace_crlf s))

pub resolve_collection-resolve_collection :
    (fallback collection : Text)
    → resolve_collection fallback fallback ≡ fallback
    → resolve_collection fallback (resolve_collection fallback collection)
      ≡ resolve_collection fallback collection
resolve_collection-resolve_collection fallback collection fixed =
    elim (Bool-cases (text_eq (trim_space collection) [])) [
      | inl blank ↦
          let used : resolve_collection fallback collection ≡ fallback =
            unfold resolve_collection in rw blank in
          rw used fixed
      | inr filled ↦
          let used : resolve_collection fallback collection ≡ trim_space collection =
            unfold resolve_collection in rw filled in
          rw used (step (trim_space collection) (trim_space-trim_space collection) filled)
    ]
  where
    step : (c : Text) → trim_space c ≡ c → text_eq c [] ≡ false → resolve_collection fallback c ≡ c
    step c same filled =
        unfold resolve_collection in
        (ap (λ (t : Text). if text_eq t [] then fallback else t) same ∙ (rw filled))

-- A tag that is trimmed and not blank.
abbrev IsClean : Text → Type 0
IsClean t = (trim_space t ≡ t) × (text_eq t [] ≡ false)

collect_tags-Clean : (seen tags : List Text) → All IsClean (collect_tags seen tags)
unfolding collect_tags
collect_tags-Clean seen [] = tt
collect_tags-Clean seen (tag ∷ tags) = elim (Bool-cases (text_eq (trim_space tag) [])) [
  | inl blank ↦ rw blank (collect_tags-Clean seen tags)
  | inr filled ↦ elim (Bool-cases (contains (trim_space tag) seen)) [
    | inl old ↦ rw (filled, old) (collect_tags-Clean seen tags)
    | inr new ↦
        rw (filled, new)
          ((trim_space-trim_space tag, filled), collect_tags-Clean (trim_space tag ∷ seen) tags)
  ]
]

insert_text-Clean :
    (t : Text) (l : List Text) → IsClean t → All IsClean l → All IsClean (insert_text t l)
unfolding insert_text
insert_text-Clean t [] c h = (c, tt)
insert_text-Clean t (s ∷ l) c h = elim (Bool-cases (text_lt s t)) [
  | inl below ↦ rw below (h.0, insert_text-Clean t l c h.1)
  | inr above ↦ rw above (c, h)
]

sort_strings-Clean : (l : List Text) → All IsClean l → All IsClean (sort_strings l)
unfolding sort_strings
sort_strings-Clean [] h = tt
sort_strings-Clean (t ∷ l) h = insert_text-Clean t (sort_strings l) h.0 (sort_strings-Clean l h.1)

normalize_tags-Clean : (tags : List Text) → All IsClean (normalize_tags tags)
unfolding normalize_tags
normalize_tags-Clean tags = sort_strings-Clean _ (collect_tags-Clean [] tags)

insert_text_first : (t : Text) (l : List Text) → Above t l → insert_text t l ≡ t ∷ l
unfolding insert_text
insert_text_first t [] h = refl
insert_text_first t (s ∷ l) h = elim (Bool-cases (text_lt s t)) [
  | inl below ↦ absurd (false≢true (sym (text_lt_irrefl t) ∙ text_lt_trans t s t h.0 below))
  | inr above ↦ rw above
]

sort_strings_id : (l : List Text) → Ascending l → sort_strings l ≡ l
unfolding sort_strings
sort_strings_id [] a = refl
sort_strings_id (t ∷ l) a = ap (insert_text t) (sort_strings_id l a.1) ∙ insert_text_first t l a.0

-- No text of the list is among those seen.
abbrev Unseen : List Text → List Text → Type 0
Unseen seen = All (λ t. contains t seen ≡ false)

Unseen-Above : (t : Text) (seen l : List Text) → Above t l → Unseen seen l → Unseen (t ∷ seen) l
unfolding contains
Unseen-Above t seen [] a u = tt
Unseen-Above t seen (s ∷ l) a u = (different t s seen a.0 u.0, Unseen-Above t seen l a.1 u.1)
  where
    different :
        (t s : Text) (seen : List Text)
        → text_lt t s ≡ true
        → contains s seen ≡ false
        → contains s (t ∷ seen) ≡ false
    different t s seen h u = elim (Bool-cases (text_eq t s)) [
      | inl same ↦
          let e : t ≡ s = (text_eq_iff t s).0 same in
          absurd (false≢true (sym (text_lt_irrefl s) ∙ (rw e at h)))
      | inr other ↦ rw other u
    ]

collect_tags_id :
    (seen l : List Text) → All IsClean l → Ascending l → Unseen seen l → collect_tags seen l ≡ l
unfolding collect_tags
collect_tags_id seen [] c a u = refl
collect_tags_id seen (t ∷ l) c a u =
    collect_step seen t l c.0.0 c.0.1 u.0
    ∙ ap (◌∷◌ t) (collect_tags_id (t ∷ seen) l c.1 a.1 (Unseen-Above t seen l a.0 u.1))
  where
    collect_step :
        (seen : List Text) (t : Text) (l : List Text)
        → trim_space t ≡ t
        → text_eq t [] ≡ false
        → contains t seen ≡ false
        → collect_tags seen (t ∷ l) ≡ t ∷ collect_tags (t ∷ seen) l
    collect_step seen t l same filled new =
        ap
          (λ (u : Text).
            if text_eq u []
            then collect_tags seen l
            else (if contains u seen then collect_tags seen l else u ∷ collect_tags (u ∷ seen) l))
          same
        ∙ (rw (filled, new))

Unseen-nil : (l : List Text) → Unseen [] l
unfolding contains
Unseen-nil [] = tt
Unseen-nil (t ∷ l) = (refl, Unseen-nil l)

-- Normalised tags are left as they are.
pub normalize_tags-normalize_tags :
    (tags : List Text) → normalize_tags (normalize_tags tags) ≡ normalize_tags tags
normalize_tags-normalize_tags tags =
    let l = normalize_tags tags in
    let a : Ascending l = normalize_tags-Ascending tags in
    let kept : collect_tags [] l ≡ l =
      collect_tags_id [] l (normalize_tags-Clean tags) a (Unseen-nil l) in
    unfold normalize_tags in (ap sort_strings kept ∙ sort_strings_id l a)

-- A normalised request is left as it is, where the default collection is blank or trimmed: the
-- request of a restart is the one that was accepted.
pub normalize_document_request-normalize_document_request :
    (x : External) (default_collection : Text) (req : UpsertDocumentRequest x)
    → resolve_collection default_collection default_collection ≡ default_collection
    → normalize_document_request x default_collection
        (normalize_document_request x default_collection req)
      ≡ normalize_document_request x default_collection req
unfolding normalize_document_request normalize_metadata
normalize_document_request-normalize_document_request x default_collection req fixed = λ i. record {
  collection = resolve_collection-resolve_collection default_collection req.collection fixed i;
  document_id = trim_space-trim_space req.document_id i;
  title = trim_space-trim_space req.title i;
  content = normalize_text-normalize_text req.content i;
  source_uri = trim_space-trim_space req.source_uri i;
  tags = normalize_tags-normalize_tags req.tags i;
  metadata = some (normalize_metadata x req.metadata);
}
