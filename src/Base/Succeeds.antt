-- ===== src/Base/Succeeds.antt =====
-- Calls that succeed where something holds, and what holds then of the value and the state.
use grout_cni.Base.Ends.{Ends}
use grout_cni.Base.Keeps.{Keeps}
use grout_cni.Base.Results.{Stage, Result, ok, err, panic, wrap}
use grout_cni.Base.State.{
  State, pure, lift, wrapped, branch, clean_up, on_error, finally, ◌>>=◌, bind-ok,
}
use mathlib.Core.Bool.{Bool, true, false}
use mathlib.Core.Path.{◌≡◌, refl, ap, subst}

pub record Succeeds {S A : Type 0} (P : S → Type 0) (Q : A → S → Type 0) (m : State S A)
    : Type 0 where
  pub succeeds : (s : S) → P s → (a : A) × ((m s).0 ≡ ok a) × Q a (m s).1

module _ {S A B : Type 0} {P : S → Type 0} {R : A → S → Type 0} {Q : B → S → Type 0} where
  pub Succeeds-bind :
      (m : State S A) (f : A → State S B)
      → Succeeds P R m
      → ((a : A) → Succeeds (R a) Q (f a))
      → Succeeds P Q (m >>= f)
  Succeeds-bind m f h k = record { succeeds = step }
    where
      step : (s : S) → P s → (b : B) × (((m >>= f) s).0 ≡ ok b) × Q b ((m >>= f) s).1
      step s p =
          let (a, e, q) = h.succeeds s p in
          let (b, e', q') = (k a).succeeds (m s).1 q in
          let same_run = bind-ok m f s e in (b, rw same_run e', rw same_run q')

module _ {S A : Type 0} {P : S → Type 0} {Q : A → S → Type 0} where
  pub Succeeds-wrapped : (c : Stage) (m : State S A) → Succeeds P Q m → Succeeds P Q (wrapped c m)
  unfolding wrapped
  Succeeds-wrapped c m h = record {
    succeeds = λ s p. let (a, e, q) = h.succeeds s p in (a, ap (wrap c) e, q);
  }

  pub Succeeds-on_error :
      (c : State S (Unit {0})) (m : State S A) → Succeeds P Q m → Succeeds P Q (on_error c m)
  unfolding on_error
  Succeeds-on_error c m h = record { succeeds = λ s p. step (m s) (h.succeeds s p) }
    where
      step :
          (out : Result A × S)
          → (a : A) × (out.0 ≡ ok a) × Q a out.1
          → (a : A) × ((clean_up c out).0 ≡ ok a) × Q a (clean_up c out).1
      step (ok x, s) (a, e, q) = (a, e, q)
      step (err x, s) (a, e, q) = cc e
      step (panic, s) (a, e, q) = cc e

  pub Succeeds-branch :
      (b : Bool) (m n : State S A)
      → (b ≡ true → Succeeds P Q m)
      → (b ≡ false → Succeeds P Q n)
      → Succeeds P Q (branch b m n)
  unfolding branch
  Succeeds-branch true m n h k = record { succeeds = (h refl).succeeds }
  Succeeds-branch false m n h k = record { succeeds = (k refl).succeeds }

  pub Succeeds-lift :
      (r : Result A) (a : A) → r ≡ ok a → ((s : S) → P s → Q a s) → Succeeds P Q (lift r)
  unfolding lift
  Succeeds-lift r a e k = record { succeeds = λ s p. (a, e, k s p) }

  pub Succeeds-pure : (a : A) → ((s : S) → P s → Q a s) → Succeeds P Q (pure a)
  unfolding pure
  Succeeds-pure a k = record { succeeds = λ s p. (a, refl, k s p) }

  -- What a deferred cleanup leaves of it.
  pub Succeeds-finally :
      (c : State S (Unit {0})) (m : State S A)
      → Succeeds P Q m
      → ((a : A) (s : S) → Q a s → Q a (c s).1)
      → Succeeds P Q (finally c m)
  unfolding finally
  Succeeds-finally c m h k = record {
    succeeds = λ s p. let (a, e, q) = h.succeeds s p in (a, e, k a (m s).1 q);
  }

pub Succeeds-bind-lift :
    {S A B : Type 0} {P : S → Type 0} {Q : B → S → Type 0} (r : Result A) (a : A)
    (f : A → State S B)
    → r ≡ ok a
    → Succeeds P Q (f a)
    → Succeeds P Q (lift r >>= f)
unfolding ◌>>=◌
Succeeds-bind-lift r a f e k = rw e (record { succeeds = k.succeeds })

-- What holds at the end is known already, and it remains that the call succeeds.
pub Succeeds-Ends :
    {S A : Type 0} {P : S → Type 0} {R : Result A → S → Type 0} (m : State S A)
    → Ends P R m
    → ((s : S) → P s → (a : A) × ((m s).0 ≡ ok a))
    → Succeeds P (λ a. R (ok a)) m
Succeeds-Ends {S} {A} {P} {R} m h k = record {
  succeeds =
      λ s p. let (a, e) = k s p in (a, e, subst (λ (r : Result A). R r (m s).1) e (h.ends s p));
}

-- Such a call keeps what it keeps.
pub Succeeds-Keeps :
    {S A : Type 0} {P : S → Type 0} (m : State S A)
    → Keeps P m
    → ((s : S) → P s → (a : A) × ((m s).0 ≡ ok a))
    → Succeeds P (λ a. P) m
Succeeds-Keeps m h k = record { succeeds = λ s p. let (a, e) = k s p in (a, e, h.kept s p) }
