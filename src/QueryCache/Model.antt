-- ===== src/QueryCache/Model.antt =====
-- query_cache.go: the type and its methods.
use simplykb.Prelude.{
  ℕ, ◌+◌, Option, none, some, List, [], ◌∷◌, ◌++◌, leb, ◌==◌, if◌then◌else◌, length, ℤ, pos, leb_ℤ,
  pos_part,
}
use simplykb.Text.{Text, text_eq}

module _ {ℓ} {F : Type ℓ} where
  -- `append([]float32(nil), vector...)`
  unfoldable pub clone_vector : List F → List F
  clone_vector vector = [] ++ vector

-- A `*list.Element` and the `*queryEmbeddingCacheEntry` in it.
pub record Element {ℓ} (F : Type ℓ) : Type ℓ where
  pub ref : ℕ
  pub key : Text
  pub vector : List F

pub record QueryEmbeddingCache {ℓ} (F : Type ℓ) : Type ℓ where
  pub capacity : ℕ
  pub ll : List (Element F)
  pub entries : List (Text × ℕ)
  -- The next pointer that `new` hands out.
  pub next_ref : ℕ

-- The map: `m[key]`, `m[key] = ref`, `delete(m, key)`.
unfoldable pub entry_ref : Text → List (Text × ℕ) → Option ℕ
entry_ref k [] = none
entry_ref k ((j, r) ∷ m) = if text_eq j k then some r else entry_ref k m

unfoldable pub delete_entry : Text → List (Text × ℕ) → List (Text × ℕ)
delete_entry k [] = []
delete_entry k ((j, r) ∷ m) =
    let rest = delete_entry k m in if text_eq j k then rest else (j, r) ∷ rest

unfoldable pub set_entry : Text → ℕ → List (Text × ℕ) → List (Text × ℕ)
unfolding delete_entry
set_entry k r m = (k, r) ∷ delete_entry k m

module _ {ℓ} {F : Type ℓ} where
  -- The element that a reference points to.
  unfoldable pub element_at : ℕ → List (Element F) → Option (Element F)
  element_at r [] = none
  element_at r (e ∷ l) = if e.ref == r then some e else element_at r l

  -- `ll.Remove(element)`
  unfoldable pub remove_element : ℕ → List (Element F) → List (Element F)
  remove_element r [] = []
  remove_element r (e ∷ l) = if e.ref == r then l else e ∷ remove_element r l

  -- `ll.Back()`
  unfoldable pub back : List (Element F) → Option (Element F)
  back [] = none
  back (e ∷ []) = some e
  back (e ∷ f ∷ l) = back (f ∷ l)

  -- `newQueryEmbeddingCache`: a nil cache is `none`.
  unfoldable pub new_query_embedding_cache : ℤ → Option (QueryEmbeddingCache F)
  new_query_embedding_cache capacity =
      if leb_ℤ capacity (pos 0)
      then none
      else some (record { capacity = pos_part capacity; ll = []; entries = []; next_ref = 0 })

  -- `Get` on a cache that is not nil. The outer `none` is a reference that the list does not hold.
  unfoldable pub get :
      QueryEmbeddingCache F → Text → Option (QueryEmbeddingCache F × Option (List F))
  unfolding entry_ref element_at remove_element clone_vector
  get c key = elim (entry_ref key c.entries) [
    | none ↦ some (c, none)
    | some r ↦ elim (element_at r c.ll) [
      | none ↦ none
      | some e ↦ some (record c { ll = e ∷ remove_element r c.ll }, some (clone_vector e.vector))
    ]
  ]

  -- The end of `Put`, after `PushFront` and the write to the map.
  unfoldable pub evict : QueryEmbeddingCache F → QueryEmbeddingCache F
  unfolding back remove_element delete_entry
  evict c = if leb (length c.ll) c.capacity then c else elim (back c.ll) [
    | none ↦ c
    | some tail ↦ record c {
      ll = remove_element tail.ref c.ll;
      entries = delete_entry tail.key c.entries;
    }
  ]

  -- `Put` on a cache that is not nil.
  unfoldable pub put : QueryEmbeddingCache F → Text → List F → Option (QueryEmbeddingCache F)
  unfolding entry_ref element_at remove_element clone_vector set_entry evict
  put c key vector = elim (entry_ref key c.entries) [
    | some r ↦ elim (element_at r c.ll) [
      | none ↦ none
      | some e ↦
          some
            (record c { ll = (record e { vector = clone_vector vector }) ∷ remove_element r c.ll })
    ]
    | none ↦ some (
        evict (record c {
          ll = (record { ref = c.next_ref; key = key; vector = clone_vector vector }) ∷ c.ll;
          entries = set_entry key c.next_ref c.entries;
          next_ref = c.next_ref + 1;
        }))
  ]

  -- The methods on a cache that may be nil.
  unfoldable pub get_nilable :
      Option (QueryEmbeddingCache F)
      → Text
      → Option (Option (QueryEmbeddingCache F) × Option (List F))
  unfolding get
  get_nilable none key = some (none, none)
  get_nilable (some c) key = elim (get c key) [
    | none ↦ none
    | some (c', found) ↦ some (some c', found)
  ]

  unfoldable pub put_nilable :
      Option (QueryEmbeddingCache F) → Text → List F → Option (Option (QueryEmbeddingCache F))
  unfolding put
  put_nilable none key vector = some none
  put_nilable (some c) key vector = elim (put c key vector) [
    | none ↦ none
    | some c' ↦ some (some c')
  ]
