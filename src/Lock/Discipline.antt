-- ===== src/Lock/Discipline.antt =====
-- The lock of pkg/cni/lock.go: what is used under it, and what is left of it.
use grout_cni.Lock.{lock_result, new_file_lock, lock, unlock, close, with_lock}
use grout_cni.Base.State.{State, wrapped, on_error, finally, ◌>>=◌, ◌>>◌}
use grout_cni.Base.Keeps.{Keeps, Keeps-wrapped}
use mathlib.Core.Bool.{false≢true}
use grout_cni.Base.Ends.{Ends, Ends-bind, Ends-wrapped, Ends-on_error, Ends-Keeps}
use grout_cni.Base.{
  ◌==◌, if◌then◌else◌, ==_iff, Bytes, Stage, creating_lock_directory, opening_lock_file,
  creating_lock, acquiring_lock, Result, ok, err, panic, wrap, ℕ, ◌≡◌, refl, sym, ap, Bool, true,
  false, List, [], ◌∷◌,
}
use grout_cni.Host.{
  Reply, value, failed, answer, Flock, acquired, refused, elapsed, Event, made_dir, opened, flocked,
  unlocked, closed, Trace, Env, mkdir_all, open_file,
}
use grout_cni.Host.Events.{is_lock, is_shared, IsStable}

-- Does this process hold the lock?
abbrev pub holds : Trace → Bool
holds [] = false
holds (flocked fd acquired ∷ t) = true
holds (unlocked fd ∷ t) = false
holds (closed fd ∷ t) = false
holds (e ∷ t) = holds t

-- Whatever is shared with other CNI calls was used under the lock.
abbrev pub Serialized : Trace → Type 0
Serialized [] = Unit
Serialized (e ∷ t) = (is_shared e ≡ true → holds t ≡ true) × Serialized t

abbrev pub remove_first : ℕ → List ℕ → List ℕ
remove_first x [] = []
remove_first x (y ∷ ys) = if x == y then ys else y ∷ remove_first x ys

-- The lock files that are open.
abbrev pub open_files : Trace → List ℕ
open_files [] = []
open_files (opened path (value fd) ∷ t) = fd ∷ open_files t
open_files (closed fd ∷ t) = remove_first fd (open_files t)
open_files (e ∷ t) = open_files t

-- Between two calls of handlers: everything shared was used under the lock, which is free, and just
-- these files are open.
pub record IsIdle (files : List ℕ) (t : Trace) : Type 0 where
  pub serialized : Serialized t
  pub free : holds t ≡ false
  pub open_as : open_files t ≡ files

-- Inside a handler: the lock is held.
pub record IsHolding (files : List ℕ) (t : Trace) : Type 0 where
  pub serialized : Serialized t
  pub held : holds t ≡ true
  pub open_as : open_files t ≡ files

IsIdle-made_dir :
    (files : List ℕ) (t : Trace) (path : Bytes) (r : Reply (Unit {0}))
    → IsIdle files t
    → IsIdle files (made_dir path r ∷ t)
IsIdle-made_dir files t path r h = record {
  serialized = (λ e. absurd (false≢true e), h.serialized);
  free = h.free;
  open_as = h.open_as;
}

IsHolding-IsStable : (files : List ℕ) → IsStable (IsHolding files)
IsHolding-IsStable files = record { steady = step }
  where
    step : (e : Event) (t : Trace) → is_lock e ≡ false → IsHolding files t → IsHolding files (e ∷ t)
    step (opened path r) t l h = absurd (false≢true (sym l))
    step (flocked fd r) t l h = absurd (false≢true (sym l))
    step (unlocked fd) t l h = absurd (false≢true (sym l))
    step (closed fd) t l h = absurd (false≢true (sym l))
    step _ t l h = record {
      serialized = (λ s. h.held, h.serialized);
      held = h.held;
      open_as = h.open_as;
    }

-- A call that makes no call on the lock keeps whatever such calls cannot change.
abbrev pub IsBody : {A : Type 0} → State Trace A → Type 1
IsBody m = (P : Trace → Type 0) → IsStable P → Keeps P m

module _ (env : Env) (files : List ℕ) where
  abbrev Opened : Result ℕ → Trace → Type 0
  Opened (ok fd) t = IsIdle (fd ∷ files) t
  Opened _ t = IsIdle files t

  open_file-Opened : (path : Bytes) → Ends (IsIdle files) Opened (open_file env path)
  unfolding open_file
  open_file-Opened path = record { ends = λ t h. step t (env.open_lock path t) h }
    where
      step : (t : Trace) (r : Reply ℕ) → IsIdle files t → Opened (answer r) (opened path r ∷ t)
      step t (value fd) h = record {
        serialized = (λ e. absurd (false≢true e), h.serialized);
        free = h.free;
        open_as = ap (λ (l : List ℕ). fd ∷ l) h.open_as;
      }
      step t (failed e) h = record {
        serialized = (λ e'. absurd (false≢true e'), h.serialized);
        free = h.free;
        open_as = h.open_as;
      }

  Opened-wrap : (c : Stage) (r : Result ℕ) (t : Trace) → Opened r t → Opened (wrap c r) t
  Opened-wrap c (ok fd) t h = h
  Opened-wrap c (err e) t h = h
  Opened-wrap c panic t h = h

  mkdir_all-IsIdle : (path : Bytes) → Keeps (IsIdle files) (mkdir_all env path)
  unfolding mkdir_all
  mkdir_all-IsIdle path = record { kept = λ t h. IsIdle-made_dir files t path (env.mkdir path t) h }

  new_file_lock-Opened : (path : Bytes) → Ends (IsIdle files) Opened (new_file_lock env path)
  unfolding new_file_lock
  new_file_lock-Opened path =
      Ends-bind _ _ (Ends-Keeps _ (Keeps-wrapped creating_lock_directory _ (mkdir_all-IsIdle _)))
        (λ _. Ends-wrapped opening_lock_file _ (open_file-Opened _) (Opened-wrap opening_lock_file))
        (λ e t h. h) (λ t h. h)

  abbrev Locked : ℕ → Result (Unit {0}) → Trace → Type 0
  Locked fd (ok _) t = IsHolding (fd ∷ files) t
  Locked fd _ t = IsIdle files t

  close-IsIdle : (fd : ℕ) (t : Trace) → IsIdle (fd ∷ files) t → IsIdle files (close env fd t).1
  unfolding close
  close-IsIdle fd t h = record {
    serialized = (λ e. absurd (false≢true e), h.serialized);
    free = refl;
    open_as = rw (h.open_as, (==_iff fd fd).1 refl);
  }

  abbrev Tried : ℕ → Result (Unit {0}) → Trace → Type 0
  Tried fd (ok _) t = IsHolding (fd ∷ files) t
  Tried fd (err _) t = IsIdle (fd ∷ files) t
  Tried fd panic t = ⊥

  lock-Tried :
      (fd : ℕ) → Ends (IsIdle (fd ∷ files)) (Tried fd) (wrapped acquiring_lock (lock env fd))
  unfolding wrapped lock
  lock-Tried fd = record { ends = λ t h. step t (env.wait_lock fd t) h }
    where
      step :
          (t : Trace) (r : Flock)
          → IsIdle (fd ∷ files) t
          → Tried fd (wrap acquiring_lock (lock_result r)) (flocked fd r ∷ t)
      step t acquired h = record {
        serialized = (λ e. absurd (false≢true e), h.serialized);
        held = refl;
        open_as = h.open_as;
      }
      step t (refused x) h = record {
        serialized = (λ e. absurd (false≢true e), h.serialized);
        free = h.free;
        open_as = h.open_as;
      }
      step t elapsed h = record {
        serialized = (λ e. absurd (false≢true e), h.serialized);
        free = h.free;
        open_as = h.open_as;
      }

  lock-Locked :
      (fd : ℕ)
      → Ends
          (IsIdle (fd ∷ files))
          (Locked fd)
          (on_error (close env fd) (wrapped acquiring_lock (lock env fd)))
  lock-Locked fd =
      Ends-on_error _ _ (lock-Tried fd) (λ u t h. h) (λ e t h. close-IsIdle fd t h)
        (λ t h. absurd h)

  release :
      (fd : ℕ) (t : Trace)
      → IsHolding (fd ∷ files) t
      → IsIdle files ((unlock env fd >> close env fd) t).1
  unfolding unlock close ◌>>=◌
  release fd t h = record {
    serialized = (λ e. absurd (false≢true e), (λ e. absurd (false≢true e), h.serialized));
    free = refl;
    open_as = rw (h.open_as, (==_iff fd fd).1 refl);
  }

  finally-IsIdle :
      {A : Type 0} (fd : ℕ) (body : State Trace A)
      → IsBody body
      → Ends
          (IsHolding (fd ∷ files))
          (λ r. IsIdle files)
          (finally (unlock env fd >> close env fd) body)
  unfolding finally
  finally-IsIdle fd body b = record {
    ends = λ t h. release fd (body t).1 ((b _ (IsHolding-IsStable (fd ∷ files))).kept t h);
  }

  with_lock-Ends :
      {A : Type 0} (socket_path : Bytes) (body : State Trace A)
      → IsBody body
      → Ends (IsIdle files) (λ r. IsIdle files) (with_lock env socket_path body)
  unfolding with_lock
  with_lock-Ends socket_path body b =
      Ends-bind {R = Opened} _ _
        (Ends-wrapped creating_lock _ (new_file_lock-Opened _) (Opened-wrap creating_lock))
        (λ fd.
          Ends-bind {R = Locked fd} _ _ (lock-Locked fd) (λ u. finally-IsIdle fd body b)
            (λ e t h. h) (λ t h. h))
        (λ e t h. h) (λ t h. h)

  -- Whatever the outcome, a panic included: the shared state was used under the lock only, the lock is
  -- free again, and the lock file is closed.
  pub with_lock-IsIdle :
      {A : Type 0} (socket_path : Bytes) (body : State Trace A)
      → IsBody body
      → Keeps (IsIdle files) (with_lock env socket_path body)
  with_lock-IsIdle socket_path body b = record { kept = (with_lock-Ends socket_path body b).ends }
