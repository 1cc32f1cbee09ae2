-- ===== src/Search/Top.antt =====
-- store.go: what `ORDER BY` with `LIMIT` returns of `kb_chunks`, under the constraints of schema.go.
use mathlib.Core.List.{Mem, Pairwise, forall_mem-cons, mem-cons_self, mem-cons_of_mem, not-mem-nil}
use mathlib.Core.List.Perm
use simplykb.Prelude.{
  ℕ, ◌≡◌, ◌≢◌, refl, sym, Bool, true, Bool-cases, inl, inr, List, [], ◌∷◌, take, zero, suc, select,
  All,
}
use simplykb.Prelude.Membership.{All-Mem}
use simplykb.Prelude.Sorting.{sort_slice, sort_slice-perm}
use simplykb.Text.{Text}
use simplykb.Database.Rows.{Chunk}

-- The primary key of `kb_chunks`.
abbrev pub ChunkIds : List Chunk → Type 0
ChunkIds = Pairwise (λ (a b : Chunk). b.id ≢ a.id)

-- `UNIQUE (collection, document_external_id, chunk_no)`, for one collection.
abbrev pub ChunkNumbers : Text → List Chunk → Type 0
ChunkNumbers collection l =
    (a b : Chunk)
    → Mem a l
    → Mem b l
    → a.collection ≡ collection
    → b.collection ≡ collection
    → a.document_external_id ≡ b.document_external_id
    → a.chunk_no ≡ b.chunk_no
    → a.id ≡ b.id

select-subset : (p : Chunk → Bool) (l : List Chunk) (a : Chunk) → Mem a (select p l) → Mem a l
select-subset p [] a = λ m. m
select-subset p (b ∷ l) a = elim (Bool-cases (p b)) [
  | inl e ↦ rw e (
      (forall_mem-cons (λ c. hlevel)).1
        (mem-cons_self, λ c m. mem-cons_of_mem b (select-subset p l c m)) a)
  | inr e ↦ rw e (λ m. mem-cons_of_mem b (select-subset p l a m))
]

take-subset : (n : ℕ) (l : List Chunk) (a : Chunk) → Mem a (take n l) → Mem a l
take-subset zero l a m = absurd (not-mem-nil m)
take-subset (suc n) [] a m = m
take-subset (suc n) (b ∷ l) a m =
    (forall_mem-cons (λ c. hlevel)).1
      (mem-cons_self, λ c k. mem-cons_of_mem b (take-subset n l c k)) a m

select-ChunkIds : (p : Chunk → Bool) (l : List Chunk) → ChunkIds l → ChunkIds (select p l)
select-ChunkIds p [] Pairwise.nil = Pairwise.nil
select-ChunkIds p (b ∷ l) (Pairwise.cons h d) = elim (Bool-cases (p b)) [
  | inl e ↦ rw e (Pairwise.cons (λ a m. h a (select-subset p l a m)) (select-ChunkIds p l d))
  | inr e ↦ rw e (select-ChunkIds p l d)
]

take-ChunkIds : (n : ℕ) (l : List Chunk) → ChunkIds l → ChunkIds (take n l)
take-ChunkIds zero l d = Pairwise.nil
take-ChunkIds (suc n) [] d = Pairwise.nil
take-ChunkIds (suc n) (b ∷ l) (Pairwise.cons h d) =
    Pairwise.cons (λ a m. h a (take-subset n l a m)) (take-ChunkIds n l d)

-- `ORDER BY … LIMIT` of the rows that a condition selects.
abbrev pub top : (Chunk → Chunk → Bool) → (Chunk → Bool) → ℕ → List Chunk → List Chunk
top before condition limit l = take limit (sort_slice before (select condition l))

pub top-ChunkIds :
    (before : Chunk → Chunk → Bool) (condition : Chunk → Bool) (limit : ℕ) (l : List Chunk)
    → ChunkIds l
    → ChunkIds (top before condition limit l)
top-ChunkIds before condition limit l d = take-ChunkIds limit _ (
    Perm.pairwise {R = λ (a b : Chunk). b.id ≢ a.id} (λ a b. hlevel) (λ a b n e. n (sym e))
      (Perm.symm (sort_slice-perm before _)) (select-ChunkIds condition l d))

select-holds : (p : Chunk → Bool) (l : List Chunk) → All (λ a. p a ≡ true) (select p l)
select-holds p [] = tt
select-holds p (b ∷ l) = elim (Bool-cases (p b)) [
  | inl e ↦ rw e (rw e refl, select-holds p l)
  | inr e ↦ rw e (select-holds p l)
]

-- A chunk of the answer is one of the table that fulfils the condition.
pub top-Mem :
    (before : Chunk → Chunk → Bool) (condition : Chunk → Bool) (limit : ℕ) (l : List Chunk)
    (a : Chunk)
    → Mem a (top before condition limit l)
    → Mem a l × (condition a ≡ true)
top-Mem before condition limit l a m =
    let selected : Mem a (select condition l) =
      Perm.subset (sort_slice-perm before _) a (take-subset limit _ a m) in
    (
      select-subset condition l a selected,
      All-Mem (λ c. condition c ≡ true) (λ c. hlevel) _ (select-holds condition l) a selected,
    )
