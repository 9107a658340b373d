-- ===== src/Lock/Outcome.antt =====
-- The locking of pkg/cni/handler.go: facts that it does not touch.
use grout_cni.Base.{
  Bytes, Stage, creating_lock_directory, opening_lock_file, creating_lock, acquiring_lock, Error,
  Result, ok, err, panic, wrap, ℕ, ◌≡◌, refl, Bool, true, false, ◌∷◌,
}
use grout_cni.Base.State.{State, finally, ◌>>=◌, ◌>>◌}
use grout_cni.Base.Ends.{Ends, Ends-bind, Ends-wrapped, Ends-on_error}
use grout_cni.Host.{
  Reply, value, failed, answer, Flock, acquired, refused, elapsed, Event, made_dir, opened, flocked,
  unlocked, closed, Trace, Env, mkdir_all, open_file,
}
use grout_cni.Lock.{lock_result, new_file_lock, lock, unlock, close, with_lock}

-- The events that locking leaves.
abbrev pub is_locking : Event → Bool
is_locking (made_dir path r) = true
is_locking (opened path r) = true
is_locking (flocked fd r) = true
is_locking (unlocked fd) = true
is_locking (closed fd) = true
is_locking _ = false

pub record IsUntouched (P : Trace → Type 0) : Type 0 where
  pub untouched : (e : Event) (t : Trace) → is_locking e ≡ true → P t → P (e ∷ t)

module _ (env : Env) {P : Trace → Type 0} (q : IsUntouched P) where
  -- The call returned, with the fact kept.
  abbrev Kept : {A : Type 0} → Result A → Trace → Type 0
  Kept (ok a) t = P t
  Kept (err e) t = P t
  Kept panic t = ⊥

  Kept-wrap : {A : Type 0} (c : Stage) (r : Result A) (t : Trace) → Kept r t → Kept (wrap c r) t
  Kept-wrap c (ok a) t h = h
  Kept-wrap c (err e) t h = h
  Kept-wrap c panic t h = h

  Kept-answer : {A : Type 0} (r : Reply A) (t : Trace) → P t → Kept (answer r) t
  Kept-answer (value a) t h = h
  Kept-answer (failed e) t h = h

  mkdir_all-Kept : (path : Bytes) → Ends P Kept (mkdir_all env path)
  unfolding mkdir_all
  mkdir_all-Kept path = record {
    ends = λ t h. Kept-answer (env.mkdir path t) _ (q.untouched _ t refl h);
  }

  open_file-Kept : (path : Bytes) → Ends P Kept (open_file env path)
  unfolding open_file
  open_file-Kept path = record {
    ends = λ t h. Kept-answer (env.open_lock path t) _ (q.untouched _ t refl h);
  }

  new_file_lock-Kept : (path : Bytes) → Ends P Kept (new_file_lock env path)
  unfolding new_file_lock
  new_file_lock-Kept path =
      Ends-bind {R = Kept} _ _
        (Ends-wrapped creating_lock_directory _ (mkdir_all-Kept _)
          (Kept-wrap creating_lock_directory))
        (λ _. Ends-wrapped opening_lock_file _ (open_file-Kept _) (Kept-wrap opening_lock_file))
        (λ e t h. h) (λ t h. h)

  lock-Kept : (fd : ℕ) → Ends P Kept (lock env fd)
  unfolding lock
  lock-Kept fd = record { ends = λ t h. step t (env.wait_lock fd t) (q.untouched _ t refl h) }
    where
      step :
          (t : Trace) (r : Flock) → P (flocked fd r ∷ t) → Kept (lock_result r) (flocked fd r ∷ t)
      step t acquired h = h
      step t (refused x) h = h
      step t elapsed h = h

  close-Kept : (fd : ℕ) (t : Trace) → P t → P (close env fd t).1
  unfolding close
  close-Kept fd t h = q.untouched _ t refl h

  module _ {A : Type 0} {Q : Result A → Trace → Type 0} (body : State Trace A) where
    finally-Ends :
        (fd : ℕ)
        → ((r : Result A) (t : Trace) → Q r t → Q r (closed fd ∷ unlocked fd ∷ t))
        → Ends P Q body
        → Ends P Q (finally (unlock env fd >> close env fd) body)
    unfolding finally unlock close ◌>>=◌
    finally-Ends fd after b = record { ends = λ t h. after (body t).0 (body t).1 (b.ends t h) }

    -- If the lock is not got, the call fails; otherwise it ends as its body does.
    pub with_lock-outcome :
        (socket_path : Bytes)
        → Ends P Q body
        → ((e : Error) (t : Trace) → P t → Q (err e) t)
        → ((fd : ℕ) (r : Result A) (t : Trace) → Q r t → Q r (closed fd ∷ unlocked fd ∷ t))
        → Ends P Q (with_lock env socket_path body)
    unfolding with_lock
    with_lock-outcome socket_path b on_err after =
        Ends-bind {R = Kept} _ _
          (Ends-wrapped creating_lock _ (new_file_lock-Kept _) (Kept-wrap creating_lock))
          (λ fd.
            Ends-bind {R = Kept} _ _
              (Ends-on_error {R = Kept} _ _
                (Ends-wrapped acquiring_lock _ (lock-Kept fd) (Kept-wrap acquiring_lock))
                (λ u t h. h) (λ e t h. close-Kept fd t h) (λ t h. h))
              (λ u. finally-Ends fd (after fd) b) on_err (λ t h. absurd h))
          on_err (λ t h. absurd h)
