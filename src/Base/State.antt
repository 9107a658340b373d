-- ===== src/Base/State.antt =====
-- Go code that works on a state and may fail: what was done before an error stays done, so the state
-- comes back beside the error too.
use mathlib.Core.Bool.{Bool, true, false}
use mathlib.Core.Path.{◌≡◌, refl, ap, ◌∙◌}
use grout_cni.Base.Results.{Stage, new, Result, ok, err, panic, wrap}

abbrev pub State : Type 0 → Type 0 → Type 0
State S A = S → Result A × S

module _ {S A : Type 0} where
  unfoldable pub pure : A → State S A
  pure a s = (ok a, s)

  -- A value computed without the state, which may be an error.
  unfoldable pub lift : Result A → State S A
  lift r s = (r, s)

  -- `if err != nil { return fmt.Errorf("…: %w", err) }` after a call.
  unfoldable pub wrapped : Stage → State S A → State S A
  wrapped c m s = let (r, s') = m s in (wrap c r, s')

  -- `if test { … } else { … }` between two calls.
  unfoldable pub branch : Bool → State S A → State S A → State S A
  branch true m n s = m s
  branch false m n s = n s

  abbrev pub clean_up : State S (Unit {0}) → Result A × S → Result A × S
  clean_up c (ok a, s) = (ok a, s)
  clean_up c (err e, s) = (err e, (c s).1)
  clean_up c (panic, s) = (panic, s)

  -- `if err != nil { cleanup(); return err }` after a call.
  unfoldable pub on_error : State S (Unit {0}) → State S A → State S A
  on_error c m s = clean_up c (m s)

  -- `defer cleanup()` in front of a call: it runs whatever the outcome, a panic included.
  unfoldable pub finally : State S (Unit {0}) → State S A → State S A
  finally c m s = let (r, s') = m s in (r, (c s').1)

-- `if !test { return error }`
unfoldable pub guard : {S : Type 0} → Bool → Stage → State S (Unit {0})
guard true c s = (ok tt, s)
guard false c s = (err (new c), s)

-- A call whose error is looked at or dropped: it comes back as a value. A panic is no error.
abbrev pub reify : {A : Type 0} → Result A → Result (Result A)
reify (ok a) = ok (ok a)
reify (err e) = ok (err e)
reify panic = panic

unfoldable pub attempt : {S A : Type 0} → State S A → State S (Result A)
attempt m s = let (r, s') = m s in (reify r, s')

module _ {S A B : Type 0} where
  abbrev pub continue : Result A → (A → State S B) → State S B
  continue (ok a) f s = f a s
  continue (err e) f s = (err e, s)
  continue panic f s = (panic, s)

  infixl 10 ◌>>=◌ ◌>>◌
  -- Opening this opens the other combinators too.
  unfoldable pub ◌>>=◌ : State S A → (A → State S B) → State S B
  unfolding pure lift wrapped branch on_error finally guard attempt
  ◌>>=◌ m f s = let (r, s') = m s in continue r f s'

  abbrev pub ◌>>◌ : State S A → State S B → State S B
  m >> n = m >>= λ _. n

-- A call that returns, with a value or an error.
abbrev pub Returns : {A : Type 0} → Result A → Type 0
Returns (ok a) = Unit
Returns (err e) = Unit
Returns panic = ⊥

pub Returns-wrap : {A : Type 0} (c : Stage) (r : Result A) → Returns r → Returns (wrap c r)
Returns-wrap c (ok a) h = tt
Returns-wrap c (err e) h = tt
Returns-wrap c panic h = h

pub Returns-bind :
    {S A B : Type 0} (m : State S A) (f : A → State S B) (s : S)
    → Returns (m s).0
    → ((a : A) (s' : S) → Returns (f a s').0)
    → Returns ((m >>= f) s).0
unfolding ◌>>=◌
Returns-bind {S} {A} {B} m f s h k = step (m s) h
  where
    step : (out : Result A × S) → Returns out.0 → Returns (continue out.0 f out.1).0
    step (ok a, s') h' = k a s'
    step (err e, s') h' = tt
    step (panic, s') h' = h'

pub Returns-branch :
    {S A : Type 0} (b : Bool) (m n : State S A) (s : S)
    → Returns (m s).0
    → Returns (n s).0
    → Returns (branch b m n s).0
unfolding branch
Returns-branch true m n s h k = h
Returns-branch false m n s h k = k

-- A call that succeeds is followed by the rest.
pub bind-ok :
    {S A B : Type 0} (m : State S A) (f : A → State S B) (s : S) {a : A}
    → (m s).0 ≡ ok a
    → (m >>= f) s ≡ f a (m s).1
unfolding ◌>>=◌
bind-ok m f s h = ap (λ r. continue r f (m s).1) h

-- A chain that succeeds: its first call succeeded, and then the rest.
pub bind-inv :
    {S A B : Type 0} (m : State S A) (f : A → State S B) (s : S) {b : B} {s' : S}
    → (m >>= f) s ≡ (ok b, s')
    → (a : A) × (mid : S) × (m s ≡ (ok a, mid)) × (f a mid ≡ (ok b, s'))
unfolding ◌>>=◌
bind-inv {S} {A} {B} m f s {b} {s'} h = step (m s) refl h
  where
    step :
        (out : Result A × S)
        → m s ≡ out
        → continue out.0 f out.1 ≡ (ok b, s')
        → (a : A) × (mid : S) × (m s ≡ (ok a, mid)) × (f a mid ≡ (ok b, s'))
    step (ok a, mid) e q = (a, mid, e, q)
    step (err x, mid) e q = cc q
    step (panic, mid) e q = cc q

pub wrapped-inv :
    {S A : Type 0} (c : Stage) (m : State S A) (s : S) {a : A} {s' : S}
    → wrapped c m s ≡ (ok a, s')
    → m s ≡ (ok a, s')
unfolding wrapped
wrapped-inv {S} {A} c m s {a} {s'} h = step (m s) refl h
  where
    step :
        (out : Result A × S)
        → m s ≡ out
        → ◌≡◌ {A = Result A × S} (wrap c out.0, out.1) (ok a, s')
        → m s ≡ (ok a, s')
    step (ok b, mid) e q = e ∙ q
    step (err x, mid) e q = cc q
    step (panic, mid) e q = cc q

pub on_error-inv :
    {S A : Type 0} (c : State S (Unit {0})) (m : State S A) (s : S) {a : A} {s' : S}
    → on_error c m s ≡ (ok a, s')
    → m s ≡ (ok a, s')
unfolding on_error
on_error-inv {S} {A} c m s {a} {s'} h = step (m s) refl h
  where
    step : (out : Result A × S) → m s ≡ out → clean_up c out ≡ (ok a, s') → m s ≡ (ok a, s')
    step (ok b, mid) e q = e ∙ q
    step (err x, mid) e q = cc q
    step (panic, mid) e q = cc q

pub lift-inv :
    {S A : Type 0} (r : Result A) (s : S) {a : A} {s' : S} → lift r s ≡ (ok a, s') → r ≡ ok a
unfolding lift
lift-inv {S} {A} r s h = ap (λ (x : Result A × S). x.0) h
