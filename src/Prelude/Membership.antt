-- ===== src/Prelude/Membership.antt =====
-- Predicates on lists by recursion and by membership.
use mathlib.Core.List.{
  List, [], ◌∷◌, Mem, forall_mem-cons, mem-cons_self, mem-cons_of_mem, not-mem-nil,
}
use simplykb.Prelude.Lists.{All}

pub All-Mem :
    {A : Type 0} (P : A → Type 0)
    → ((a : A) → IsProp (P a))
    → (l : List A) → All P l
    → (a : A) → Mem a l
    → P a
All-Mem P prop [] h a m = absurd (not-mem-nil m)
All-Mem P prop (b ∷ l) h a m = (forall_mem-cons prop).1 (h.0, All-Mem P prop l h.1) a m

pub Mem-All : {A : Type 0} (P : A → Type 0) (l : List A) → ((a : A) → Mem a l → P a) → All P l
Mem-All P [] h = tt
Mem-All P (b ∷ l) h = (h b mem-cons_self, Mem-All P l (λ a m. h a (mem-cons_of_mem b m)))
