-- ===== src/Requests/Tags.antt =====
-- store.go, `normalizeTags`: trimmed, without blanks and duplicates, sorted.
use simplykb.Prelude.{Bool, true, false, List, [], ◌∷◌, if◌then◌else◌}
use simplykb.Text.{Text, text_eq, text_lt, trim_space}

-- A lookup in the set `seen`.
unfoldable pub contains : Text → List Text → Bool
contains t [] = false
contains t (s ∷ seen) = if text_eq s t then true else contains t seen

-- The loop, over `seen`. The texts put in `out` are those put in `seen`.
unfoldable pub collect_tags : List Text → List Text → List Text
unfolding trim_space contains
collect_tags seen [] = []
collect_tags seen (tag ∷ tags) =
    let skip = collect_tags seen tags in
    let keep = trim_space tag ∷ collect_tags (trim_space tag ∷ seen) tags in
    if text_eq (trim_space tag) []
    then skip
    else if contains (trim_space tag) seen
    then skip
    else keep

-- `sort.Strings`
unfoldable pub insert_text : Text → List Text → List Text
unfolding text_lt
insert_text t [] = t ∷ []
insert_text t (s ∷ l) = if text_lt s t then s ∷ insert_text t l else t ∷ s ∷ l

unfoldable pub sort_strings : List Text → List Text
unfolding insert_text
sort_strings [] = []
sort_strings (t ∷ l) = insert_text t (sort_strings l)

unfoldable pub normalize_tags : List Text → List Text
unfolding collect_tags sort_strings
normalize_tags tags = sort_strings (collect_tags [] tags)
