-- ===== src/Remote/Sim.antt =====
-- A call that, where its transcript is answered, does the same with another client.
-- Where `P` holds of what the first call ends in, it held before, and the second call ends the same.
use grout_cni.Base.{Stage, Result, ok, err, panic, wrap, ◌≡◌, refl, ap, Bool, true, false}
use grout_cni.Base.State.{
  State, pure, lift, wrapped, branch, clean_up, on_error, finally, guard, reify, attempt, continue,
  ◌>>=◌,
}

pub record Sim {S A : Type 0} (P : S → Type 0) (m n : State S A) : Type 0 where
  pub before : (s : S) → P (m s).1 → P s
  pub same_end : (s : S) → P (m s).1 → n s ≡ m s

module _ {S A : Type 0} {P : S → Type 0} where
  pub Sim-pure : (a : A) → Sim P (pure a) (pure a)
  unfolding pure
  Sim-pure a = record { before = λ s h. h; same_end = λ s h. refl }

  pub Sim-lift : (r : Result A) → Sim P (lift r) (lift r)
  unfolding lift
  Sim-lift r = record { before = λ s h. h; same_end = λ s h. refl }

  pub Sim-wrapped : (c : Stage) (m n : State S A) → Sim P m n → Sim P (wrapped c m) (wrapped c n)
  unfolding wrapped
  Sim-wrapped c m n k = record {
    before = k.before;
    same_end = λ s h. ap (λ (o : Result A × S). (wrap c o.0, o.1)) (k.same_end s h);
  }

  pub Sim-branch :
      (b : Bool) (m n m' n' : State S A)
      → Sim P m m'
      → Sim P n n'
      → Sim P (branch b m n) (branch b m' n')
  unfolding branch
  Sim-branch true m n m' n' k l = record { before = k.before; same_end = k.same_end }
  Sim-branch false m n m' n' k l = record { before = l.before; same_end = l.same_end }

  pub Sim-attempt : (m n : State S A) → Sim P m n → Sim P (attempt m) (attempt n)
  unfolding attempt
  Sim-attempt m n k = record {
    before = k.before;
    same_end = λ s h. ap (λ (o : Result A × S). (reify o.0, o.1)) (k.same_end s h);
  }

  pub Sim-on_error :
      (c d : State S (Unit {0})) (m n : State S A)
      → Sim P c d
      → Sim P m n
      → Sim P (on_error c m) (on_error d n)
  unfolding on_error
  Sim-on_error c d m n k l = record {
    before = λ s h. l.before s (mid (m s) h);
    same_end = λ s h. rw (l.same_end s (mid (m s) h)) (cleaned (m s) h);
  }
    where
      mid : (o : Result A × S) → P (clean_up c o).1 → P o.1
      mid (ok a, s) h = h
      mid (err e, s) h = k.before s h
      mid (panic, s) h = h

      cleaned : (o : Result A × S) → P (clean_up c o).1 → clean_up d o ≡ clean_up c o
      cleaned (ok a, s) h = refl
      cleaned (err e, s) h = rw (k.same_end s h)
      cleaned (panic, s) h = refl

  pub Sim-finally :
      (c d : State S (Unit {0})) (m n : State S A)
      → Sim P c d
      → Sim P m n
      → Sim P (finally c m) (finally d n)
  unfolding finally
  Sim-finally c d m n k l = record {
    before = λ s h. l.before s (k.before (m s).1 h);
    same_end = λ s h. rw (l.same_end s (k.before (m s).1 h), k.same_end (m s).1 h);
  }

module _ {S : Type 0} {P : S → Type 0} where
  pub Sim-guard : (b : Bool) (c : Stage) → Sim P (guard b c) (guard b c)
  unfolding guard
  Sim-guard true c = record { before = λ s h. h; same_end = λ s h. refl }
  Sim-guard false c = record { before = λ s h. h; same_end = λ s h. refl }

module _ {S A B : Type 0} {P : S → Type 0} where
  pub Sim-bind :
      (m n : State S A) (f g : A → State S B)
      → Sim P m n
      → ((a : A) → Sim P (f a) (g a))
      → Sim P (m >>= f) (n >>= g)
  unfolding ◌>>=◌
  Sim-bind m n f g k l = record {
    before = λ s h. k.before s (mid (m s) h);
    same_end = λ s h. rw (k.same_end s (mid (m s) h)) (continued (m s) h);
  }
    where
      mid : (o : Result A × S) → P (continue o.0 f o.1).1 → P o.1
      mid (ok a, s) h = (l a).before s h
      mid (err e, s) h = h
      mid (panic, s) h = h

      continued :
          (o : Result A × S) → P (continue o.0 f o.1).1 → continue o.0 g o.1 ≡ continue o.0 f o.1
      continued (ok a, s) h = (l a).same_end s h
      continued (err e, s) h = refl
      continued (panic, s) h = refl

pub ruleset sim_rules = (
  Sim-pure, Sim-lift, Sim-wrapped, Sim-branch, Sim-on_error, Sim-finally, Sim-attempt, Sim-guard,
  Sim-bind,
)
