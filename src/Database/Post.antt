-- ===== src/Database/Post.antt =====
-- Postconditions of actions, against other sessions that keep a predicate `J` of the database.
use simplykb.Prelude.{ap, ◌≡◌, refl, sym, Bool, true, false, if◌then◌else◌}
use mathlib.Core.Path.{subst}
use simplykb.Errors.{Error, Result, ok, err}
use simplykb.Database.Session.{World, Action, pure, lift, attempt, ◌>>=◌}

pub lift-ok :
    {A B : Type 0} (r : Result A) (a : A) (f : A → Action B) → r ≡ ok a → (lift r >>= f) ≡ f a
unfolding ◌>>=◌
lift-ok r a f e = ap (λ (q : Result _). lift q >>= f) e

abbrev pub Post :
    {A : Type 0} → Result A × World → (A → World → Type 0) → (Error → World → Type 0) → Type 0
Post (ok a, w) Q E = Q a w
Post (err e, w) Q E = E e w

-- What an action does in a world: a result with `Q`, or an error with `E`.
pub record Ensures {A : Type 0} (m : Action A) (w : World) (Q : A → World → Type 0)
    (E : Error → World → Type 0) : Type 0 where
  pub post : Post (m w) Q E

module _ {A B : Type 0} {Q : B → World → Type 0} {E : Error → World → Type 0} where
  continue-Post :
      (R : A → World → Type 0) (r : Result A) (w : World) (f : A → Action B)
      → Post (r, w) R E
      → ((a : A) (w' : World) → R a w' → Ensures (f a) w' Q E)
      → Ensures (lift r >>= f) w Q E
  unfolding ◌>>=◌
  continue-Post R (ok a) w f h k = record { post = (k a w h).post }
  continue-Post R (err e) w f h k = record { post = h }

  pub >>=-Ensures :
      (R : A → World → Type 0) (m : Action A) (f : A → Action B) (w : World)
      → Ensures m w R E
      → ((a : A) (w' : World) → R a w' → Ensures (f a) w' Q E)
      → Ensures (m >>= f) w Q E
  unfolding ◌>>=◌
  >>=-Ensures R m f w h k = record { post = (continue-Post R (m w).0 (m w).1 f h.post k).post }

  pub lift-Ensures :
      (r : Result A) (f : A → Action B) (w : World)
      → ((a : A) → r ≡ ok a → Ensures (f a) w Q E)
      → ((e : Error) → r ≡ err e → E e w)
      → Ensures (lift r >>= f) w Q E
  unfolding ◌>>=◌
  lift-Ensures (ok a) f w h k = record { post = (h a refl).post }
  lift-Ensures (err e) f w h k = record { post = k e refl }

module _ {A : Type 0} {Q : A → World → Type 0} {E : Error → World → Type 0} where
  pub returns : (m : Action A) (w w' : World) (a : A) → m w ≡ (ok a, w') → Q a w' → Ensures m w Q E
  returns m w w' a e q = record { post = subst (λ (p : Result A × World). Post p Q E) (sym e) q }

  pub fails :
      (m : Action A) (w w' : World) (x : Error) → m w ≡ (err x, w') → E x w' → Ensures m w Q E
  fails m w w' x e q = record { post = subst (λ (p : Result A × World). Post p Q E) (sym e) q }

module _ {A : Type 0} where
  Post-weaken :
      (Q : A → World → Type 0) (E : Error → World → Type 0) (R : A → World → Type 0)
      (p : Result A × World)
      → ((a : A) (w : World) → R a w → Q a w)
      → Post p R E
      → Post p Q E
  Post-weaken Q E R (ok a, w) f h = f a w h
  Post-weaken Q E R (err e, w) f h = h

module _ {A : Type 0} {Q : A → World → Type 0} {E : Error → World → Type 0} where
  pub Ensures-weaken :
      (R : A → World → Type 0) (m : Action A) (w : World)
      → ((a : A) (w' : World) → R a w' → Q a w')
      → Ensures m w R E
      → Ensures m w Q E
  Ensures-weaken R m w f h = record { post = Post-weaken Q E R (m w) f h.post }

  pub lift_last-Ensures :
      (r : Result A) (w : World)
      → ((a : A) → r ≡ ok a → Q a w)
      → ((e : Error) → r ≡ err e → E e w)
      → Ensures (lift r) w Q E
  unfolding lift
  lift_last-Ensures (ok a) w h k = record { post = h a refl }
  lift_last-Ensures (err e) w h k = record { post = k e refl }

  pub pure-Ensures : (a : A) (w : World) → Q a w → Ensures (pure a) w Q E
  unfolding pure
  pure-Ensures a w q = record { post = q }

  pub if-Ensures :
      (b : Bool) (m n : Action A) (w : World)
      → (b ≡ true → Ensures m w Q E)
      → (b ≡ false → Ensures n w Q E)
      → Ensures (if b then m else n) w Q E
  if-Ensures true m n w h k = h refl
  if-Ensures false m n w h k = k refl

module _ {A : Type 0} {Q : A → World → Type 0} {E : Error → World → Type 0} where
  pub attempt-Ensures :
      (F : Error → World → Type 0) (m : Action A) (w : World)
      → Ensures m w Q E
      → Ensures (attempt m) w (λ r w'. Post (r, w') Q E) F
  unfolding attempt
  attempt-Ensures F m w h = record { post = h.post }
