-- ===== src/QueryCache/Tests.antt =====
-- Runs of the query embedding cache, and the theorems at concrete caches. Vectors hold numbers.
use mathlib.Core.List.{foldl}
use simplykb.Prelude.{ℕ, ◌≤◌, ◌≡◌, refl, none, some, List, [], ◌∷◌, arith, length, take, ℤ}
use simplykb.Text.{runes, text_discrete}
use simplykb.QueryCache.Model.{
  QueryEmbeddingCache, new_query_embedding_cache, get, put, element_at, entry_ref,
}
use simplykb.QueryCache.Valid.{Distinct, IsValid, lookup, key_ref, without}
use simplykb.QueryCache.Refine.{view, recall, remember, get-refines, put-refines}
use simplykb.QueryCache.Window.{Call, run, answers, use_key, run-new}

abbrev empty : QueryEmbeddingCache ℕ
empty = record { capacity = 2; ll = []; entries = []; next_ref = 0 }

abbrev two : QueryEmbeddingCache ℕ
two = record {
  capacity = 2;
  ll =
      record { ref = 1; key = runes "b"; vector = 2 ∷ [] }
      ∷ record { ref = 0; key = runes "a"; vector = 1 ∷ [] }
      ∷ [];
  entries = (runes "b", 1) ∷ (runes "a", 0) ∷ [];
  next_ref = 2;
}

abbrev calls : List (Call ℕ)
calls =
    Call.put (runes "a") (1 ∷ [])
    ∷ Call.put (runes "b") (2 ∷ [])
    ∷ Call.get (runes "a")
    ∷ Call.put (runes "c") (3 ∷ [])
    ∷ Call.get (runes "b")
    ∷ Call.get (runes "a")
    ∷ []

run-calls : (answers {F = ℕ} 2 calls [] ≡ some (1 ∷ []) ∷ none ∷ some (1 ∷ []) ∷ [])
unfolding answers lookup without text_discrete
run-calls = refl

new_negative : new_query_embedding_cache {F = ℕ} (ℤ.negsuc 0) ≡ none
unfolding new_query_embedding_cache
new_negative = refl

two-Distinct : Distinct two.ll
unfolding key_ref element_at text_discrete
two-Distinct = (refl, refl, (refl, refl, tt))

two-IsValid : IsValid two
unfolding key_ref entry_ref
two-IsValid = record {
  positive = omega arith;
  bounded = omega arith;
  distinct = two-Distinct;
  fresh = omega arith;
  agree = λ q. refl;
}

get-refines_example :
    (c' : QueryEmbeddingCache ℕ) × (get two (runes "a") ≡ some (c', lookup (runes "a") (view two)))
    × IsValid c'
    × (view c' ≡ recall (runes "a") (view two))
    × (c'.capacity ≡ 2)
get-refines_example = get-refines two (runes "a") two-IsValid

put-refines_example :
    (c' : QueryEmbeddingCache ℕ) × (put two (runes "c") (3 ∷ []) ≡ some c')
    × IsValid c'
    × (view c' ≡ remember 2 (runes "c") (3 ∷ []) (view two))
    × (c'.capacity ≡ 2)
put-refines_example = put-refines two (runes "c") (3 ∷ []) two-IsValid

run-new_example :
    (c' : QueryEmbeddingCache ℕ) × (run calls empty ≡ some (c', answers 2 calls []))
    × (view c' ≡ take 2 (foldl (use_key 2) [] calls))
    × (length c'.ll ≤ 2)
run-new_example = run-new calls 2 {c = empty} (unfold new_query_embedding_cache in refl)
