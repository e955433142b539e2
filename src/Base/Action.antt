-- ===== src/Base/Action.antt =====
-- Calls that change a state: the state comes back after an error too, since what was written stays
-- written.
use mathlib.Core.Path.{◌≡◌, refl, ap, ◌∙◌}
use mathlib.Core.Bool.{Bool, true, false}
use mathlib.Core.Logic.{◌⊎◌, inl, inr}
use heliop.Base.Tests.{if◌then◌else◌}
use heliop.Base.Result.{Error, Result, ok, err, panic, IsOk}

abbrev pub Action : Type 0 → Type 0 → Type 0
Action W A = W → Result A × W

module _ {W : Type 0} where
  abbrev pub pure : {A : Type 0} → A → Action W A
  pure a w = (ok a, w)

  -- A result that is computed without a change of the state.
  abbrev pub reads : {A : Type 0} → (W → Result A) → Action W A
  reads f w = (f w, w)

  abbrev pub next_action : {A B : Type 0} → (A → Action W B) → Result A → Action W B
  next_action f (ok a) w = f a w
  next_action f (err e) w = (err e, w)
  next_action f panic w = (panic, w)

infixl 5 ◌>>=◌ ◌>>◌
unfoldable pub ◌>>=◌ : {W A B : Type 0} → Action W A → (A → Action W B) → Action W B
◌>>=◌ m f w = let (r, w') = m w in next_action f r w'

abbrev pub ◌>>◌ : {W A B : Type 0} → Action W A → Action W B → Action W B
m >> k = m >>= λ _. k

module _ {W : Type 0} (Rel : W → W → Type 0) where
  -- Whatever the result is, the state moves along the relation.
  abbrev pub Moves : {A : Type 0} → Action W A → Type 0
  Moves m = (w : W) → Rel w (m w).1

  module _ (trans : (u v w : W) → Rel u v → Rel v w → Rel u w) where
    next_action-Moves :
        {A B : Type 0} (f : A → Action W B)
        → ((a : A) → Moves (f a))
        → (r : Result A) (u v : W) → Rel u v
        → Rel u (next_action f r v).1
    next_action-Moves f k (ok a) u v h = trans u v (f a v).1 h (k a v)
    next_action-Moves f k (err e) u v h = h
    next_action-Moves f k panic u v h = h

    pub Moves->>= :
        {A B : Type 0} (m : Action W A) (f : A → Action W B)
        → Moves m
        → ((a : A) → Moves (f a))
        → Moves (m >>= f)
    unfolding ◌>>=◌
    Moves->>= m f h k w = next_action-Moves f k (m w).0 w (m w).1 (h w)

pub failed :
    {W B : Type 0} (x : Error) (b : B) (u v : W) → ◌≡◌ {A = Result B × W} (err x, u) (ok b, v) → ⊥
failed x b u v e = let d = ap (λ p. p.0) e in cc d

pub panicked : {W B : Type 0} (b : B) (u v : W) → ◌≡◌ {A = Result B × W} (panic, u) (ok b, v) → ⊥
panicked b u v e = let d = ap (λ p. p.0) e in cc d

pub if-ok :
    {W B : Type 0} (b : Bool) (m k : Action W B) (u : W) (r : Result B × W)
    → (if b then m else k) u ≡ r
    → ((b ≡ true) × (m u ≡ r)) ⊎ ((b ≡ false) × (k u ≡ r))
if-ok true m k u r e = inl (refl, e)
if-ok false m k u r e = inr (refl, e)

after_read :
    {W A B : Type 0} (g : A → W → Result B) (r : Result A) (w : W)
    → (next_action (λ a. reads (g a)) r w).1 ≡ w
after_read g (ok a) w = refl
after_read g (err x) w = refl
after_read g panic w = refl

-- Two reads leave the state.
pub read_twice :
    {W A B : Type 0} (f : W → Result A) (g : A → W → Result B) (w : W)
    → ((reads f >>= λ a. reads (g a)) w).1 ≡ w
unfolding ◌>>=◌
read_twice f g w = after_read g (f w) w

-- What a sequence that succeeds went through.
module _ {W A B : Type 0} (f : A → Action W B) (b : B) (v : W) where
  next_action-ok :
      (r : Result A) (u : W)
      → next_action f r u ≡ (ok b, v)
      → (a : A) × (r ≡ ok a) × (f a u ≡ (ok b, v))
  next_action-ok (ok a) u e = (a, refl, e)
  next_action-ok (err x) u e = absurd (failed x b u v e)
  next_action-ok panic u e = absurd (panicked b u v e)

  pub >>=-ok :
      (m : Action W A) (w : W)
      → (m >>= f) w ≡ (ok b, v)
      → (a : A) × (u : W) × (m w ≡ (ok a, u)) × (f a u ≡ (ok b, v))
  unfolding ◌>>=◌
  >>=-ok m w e =
      let (a, e0, e1) = next_action-ok (m w).0 (m w).1 e in
      (a, (m w).1, ap (λ r. (r, (m w).1)) e0, e1)

  -- The same with a first action that leaves the state.
  pub read->>=-ok :
      (m : Action W A) (w : W)
      → (m w).1 ≡ w
      → (m >>= f) w ≡ (ok b, v)
      → (a : A) × ((m w).0 ≡ ok a) × (f a w ≡ (ok b, v))
  unfolding ◌>>=◌
  read->>=-ok m w same e =
      let (a, e0, e1) = next_action-ok (m w).0 (m w).1 e in (a, e0, rw same at e1)

-- How a sequence goes on after a first action that leaves the state.
module _ {W A B : Type 0} (m : Action W A) (f : A → Action W B) (w : W) (same : (m w).1 ≡ w) where
  pub read-err : (e : Error) → (m w).0 ≡ err e → (m >>= f) w ≡ (err e, w)
  unfolding ◌>>=◌
  read-err e failed = ap (λ r. next_action f r (m w).1) failed ∙ ap (λ v. (err e, v)) same

  pub read-ok : (a : A) → (m w).0 ≡ ok a → (m >>= f) w ≡ f a w
  unfolding ◌>>=◌
  read-ok a done = ap (λ r. next_action f r (m w).1) done ∙ ap (f a) same

-- An action that succeeds.
abbrev pub Succeeds : {W A : Type 0} → Action W A → W → Type 0
Succeeds m w = IsOk (m w).0

-- Each of two actions succeeds where it comes to run.
pub Succeeds->>= :
    {W A B : Type 0} (m : Action W A) (f : A → Action W B) (w : W)
    → Succeeds m w
    → ((a : A) → m w ≡ (ok a, (m w).1) → Succeeds (f a) (m w).1)
    → Succeeds (m >>= f) w
unfolding ◌>>=◌
Succeeds->>= m f w (a, e) k =
    let (b, h) = k a (ap (λ r. (r, (m w).1)) e) in (b, ap (λ r. (next_action f r (m w).1).0) e ∙ h)

-- An action that ends in a given value.
abbrev pub EndsIn : {W A : Type 0} → Action W A → W → A → Type 0
EndsIn {W} m w a = (v : W) × (m w ≡ (ok a, v))

pub EndsIn->>= :
    {W A B : Type 0} (m : Action W A) (f : A → Action W B) (w : W) (a : A) (b : B)
    → (m w).0 ≡ ok a
    → EndsIn (f a) (m w).1 b
    → EndsIn (m >>= f) w b
unfolding ◌>>=◌
EndsIn->>= m f w a b e (v, h) = (v, ap (λ r. next_action f r (m w).1) e ∙ h)
