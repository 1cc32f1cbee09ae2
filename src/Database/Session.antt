-- ===== src/Database/Session.antt =====
-- How store.go talks to the database: calls that can fail, transactions, and other sessions.
-- A world has the committed database and the copy that a transaction works on. `faults` says of
-- each coming database call whether it fails. `others` holds what other sessions commit at each
-- point where the program waits for them or looks again; while the program holds the document's
-- lock no other session writes that document. `times` are the transactions' values of `NOW()`.
use simplykb.Prelude.{ℕ, Bool, true, false, Option, none, some, List, [], ◌∷◌}
use simplykb.Errors.{Error, Stage, Result, ok, err, statement}
use simplykb.Database.Rows.{Db}

pub record World : Type 0 where
  pub committed : Db
  pub working : Db
  pub faults : List Bool
  pub others : List (Db → Db)
  pub times : List ℕ
  pub now : ℕ

abbrev pub Action : Type 0 → Type 0
Action A = World → Result A × World

-- Does the next database call fail?
unfoldable pub next_fault : List Bool → Bool
next_fault [] = false
next_fault (b ∷ bs) = b

unfoldable pub later_faults : List Bool → List Bool
later_faults [] = []
later_faults (b ∷ bs) = bs

-- What other sessions have committed meanwhile.
abbrev pub interfere : List (Db → Db) → Db → Db
interfere [] db = db
interfere (f ∷ fs) db = f db

abbrev later_others : List (Db → Db) → List (Db → Db)
later_others [] = []
later_others (f ∷ fs) = fs

unfoldable pub settle : World → World
settle w = record w { committed = interfere w.others w.committed; others = later_others w.others }

abbrev pub next_time : List ℕ → ℕ
next_time [] = 0
next_time (t ∷ ts) = t

abbrev pub later_times : List ℕ → List ℕ
later_times [] = []
later_times (t ∷ ts) = ts

-- The world after a database call.
unfoldable pub used : World → World
unfolding later_faults
used w = record w { faults = later_faults w.faults }

module _ {A : Type 0} where
  unfoldable pub pure : A → Action A
  pure a w = (ok a, w)

  unfoldable pub raise : Error → Action A
  raise e w = (err e, w)

  unfoldable pub lift : Result A → Action A
  lift r w = (r, w)

  -- The result of an action that may fail, for code that goes on with it.
  unfoldable pub attempt : Action A → Action (Result A)
  attempt m w = (ok (m w).0, (m w).1)

  -- A statement in the transaction.
  unfoldable pub in_tx : Stage → (ℕ → Db → Option (A × Db)) → Action A
  unfolding used next_fault
  in_tx stage f w = elim (next_fault w.faults) [
    | true ↦ (err (statement stage), used w)
    | false ↦ elim (f w.now w.working) [
      | none ↦ (err (statement stage), used w)
      | some (a, db) ↦ (ok a, record (used w) { working = db })
    ]
  ]

module _ {A B : Type 0} where
  abbrev continue : Result A → (A → Action B) → Action B
  continue (ok a) f w = f a w
  continue (err e) f w = (err e, w)

  infixl 5 ◌>>=◌ ◌>>◌
  unfoldable pub ◌>>=◌ : Action A → (A → Action B) → Action B
  unfolding pure raise lift
  ◌>>=◌ m f w = let (r, w') = m w in continue r f w'

  abbrev pub ◌>>◌ : Action A → Action B → Action B
  m >> n = m >>= λ _. n

-- `s.pool.BeginTx`: `NOW()` is fixed, and the transaction sees what is committed.
unfoldable pub begin_tx : Stage → Action Unit
unfolding settle used next_fault
begin_tx stage w = elim (next_fault w.faults) [
  | true ↦ (err (statement stage), used (settle w))
  | false ↦ (
    ok tt,
    record (used (settle w)) {
      working = (settle w).committed;
      now = next_time w.times;
      times = later_times w.times;
    },
  )
]

-- `SELECT pg_advisory_xact_lock($1)`: the session waits, and then sees what others committed.
unfoldable pub wait_for_lock : Stage → Action Unit
unfolding settle used next_fault
wait_for_lock stage w = elim (next_fault w.faults) [
  | true ↦ (err (statement stage), used (settle w))
  | false ↦ (ok tt, record (used (settle w)) { working = (settle w).committed })
]

-- A statement of a transaction that holds no lock sees what others committed up to its start.
unfoldable pub new_snapshot : Action Unit
unfolding settle
new_snapshot w = (ok tt, record (settle w) { working = (settle w).committed })

-- `tx.Commit`. A transaction that does not commit is rolled back: the copy is dropped.
unfoldable pub commit : Stage → Action Unit
unfolding used next_fault
commit stage w = elim (next_fault w.faults) [
  | true ↦ (err (statement stage), used w)
  | false ↦ (ok tt, record (used w) { committed = w.working })
]

-- A query outside a transaction.
unfoldable pub pool_query : {A : Type 0} → Stage → (Db → A) → Action A
unfolding settle used next_fault
pool_query stage f w = elim (next_fault w.faults) [
  | true ↦ (err (statement stage), used (settle w))
  | false ↦ (ok (f (settle w).committed), used (settle w))
]

-- A statement outside a transaction, which commits by itself.
unfoldable pub pool_exec : Stage → (Db → Db) → Action Unit
unfolding settle used next_fault
pool_exec stage f w = elim (next_fault w.faults) [
  | true ↦ (err (statement stage), used (settle w))
  | false ↦ (ok tt, record (used (settle w)) { committed = f (settle w).committed })
]
