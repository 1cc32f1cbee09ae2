-- ===== src/Database/Alone.antt =====
-- Database calls where none fails and no other session commits.
use simplykb.Prelude.{ℕ, ◌≡◌, refl, Option, some, List, []}
use simplykb.Errors.{Stage, Result, ok}
use simplykb.Database.Rows.{Db}
use simplykb.Database.Session.{
  World, Action, in_tx, begin_tx, wait_for_lock, commit, next_time, later_times, ◌>>=◌,
}

-- No call fails and no other session commits.
abbrev pub alone : Db → Db → ℕ → List ℕ → World
alone committed working now times = record {
  committed = committed;
  working = working;
  faults = [];
  others = [];
  times = times;
  now = now;
}

pub >>=-ok :
    {A B : Type 0} (m : Action A) (f : A → Action B) (w w' : World) (a : A) (r : Result B × World)
    → m w ≡ (ok a, w')
    → f a w' ≡ r
    → (m >>= f) w ≡ r
unfolding ◌>>=◌
>>=-ok m f w w' a r h k = rw (h, ◌>>=◌) k

pub in_tx-alone :
    {A : Type 0} (stage : Stage) (f : ℕ → Db → Option (A × Db)) (c d d' : Db) (n : ℕ) (ts : List ℕ)
    (a : A)
    → f n d ≡ some (a, d')
    → in_tx stage f (alone c d n ts) ≡ (ok a, alone c d' n ts)
unfolding in_tx
in_tx-alone stage f c d d' n ts a h = rw (h, in_tx) refl

pub begin_tx-alone :
    (stage : Stage) (c d : Db) (n : ℕ) (ts : List ℕ)
    → begin_tx stage (alone c d n ts) ≡ (ok tt, alone c c (next_time ts) (later_times ts))
unfolding begin_tx
begin_tx-alone stage c d n ts = refl

pub wait_for_lock-alone :
    (stage : Stage) (c d : Db) (n : ℕ) (ts : List ℕ)
    → wait_for_lock stage (alone c d n ts) ≡ (ok tt, alone c c n ts)
unfolding wait_for_lock
wait_for_lock-alone stage c d n ts = refl

pub commit-alone :
    (stage : Stage) (c d : Db) (n : ℕ) (ts : List ℕ)
    → commit stage (alone c d n ts) ≡ (ok tt, alone d d n ts)
unfolding commit
commit-alone stage c d n ts = refl
