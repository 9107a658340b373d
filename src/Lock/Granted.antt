-- ===== src/Lock/Granted.antt =====
-- The locking of pkg/cni/handler.go where the lock can be had.
-- The lock's directory and file can be made, and the wait for the lock ends with it.
use grout_cni.Base.{
  Bytes, creating_lock_directory, opening_lock_file, creating_lock, acquiring_lock, ok, ℕ, ◌≡◌,
  refl, ◌∷◌,
}
use grout_cni.Base.State.{State, ◌>>=◌, ◌>>◌}
use grout_cni.Base.Succeeds.{
  Succeeds, Succeeds-bind, Succeeds-wrapped, Succeeds-on_error, Succeeds-finally,
}
use grout_cni.Host.{
  value, acquired, made_dir, opened, flocked, unlocked, closed, Trace, Env, mkdir_all, open_file,
}
use grout_cni.Lock.{new_file_lock, lock, unlock, close, with_lock}
use grout_cni.Lock.Outcome.{IsUntouched}

pub record IsGranted (env : Env) : Type 0 where
  pub makes : (path : Bytes) (t : Trace) → env.mkdir path t ≡ value tt
  pub opens : (path : Bytes) (t : Trace) → (fd : ℕ) × (env.open_lock path t ≡ value fd)
  pub acquires : (fd : ℕ) (t : Trace) → env.wait_lock fd t ≡ acquired

module _ (env : Env) {P : Trace → Type 0} (q : IsUntouched P) (g : IsGranted env) where
  mkdir_ok : (path : Bytes) (t : Trace) → (mkdir_all env path t).0 ≡ ok tt
  unfolding mkdir_all
  mkdir_ok path t = rw (g.makes path t)

  open_ok : (path : Bytes) (t : Trace) → (fd : ℕ) × ((open_file env path t).0 ≡ ok fd)
  unfolding open_file
  open_ok path t = let (fd, e) = g.opens path t in (fd, rw e)

  lock_ok : (fd : ℕ) (t : Trace) → (lock env fd t).0 ≡ ok tt
  unfolding lock
  lock_ok fd t = rw (g.acquires fd t)

  lock_file-Succeeds : (path : Bytes) → Succeeds P (λ fd. P) (new_file_lock env path)
  unfolding new_file_lock mkdir_all open_file
  lock_file-Succeeds path =
      Succeeds-bind {R = λ u. P} _ _
        (Succeeds-wrapped creating_lock_directory _ (record {
          succeeds = λ t h. (tt, mkdir_ok _ t, q.untouched (made_dir _ (env.mkdir _ t)) t refl h);
        }))
        λ _. Succeeds-wrapped opening_lock_file _ (record {
          succeeds = λ t h.
              let (fd, e) = open_ok _ t in
              (fd, e, q.untouched (opened _ (env.open_lock _ t)) t refl h);
        })

  lock-Succeeds : (fd : ℕ) → Succeeds P (λ u. P) (lock env fd)
  unfolding lock
  lock-Succeeds fd = record {
    succeeds = λ t h. (tt, lock_ok fd t, q.untouched (flocked fd (env.wait_lock fd t)) t refl h);
  }

  -- Then a handler succeeds where its body does.
  pub with_lock-Succeeds :
      {A : Type 0} {Q : A → Trace → Type 0} (socket_path : Bytes) (body : State Trace A)
      → Succeeds P Q body
      → ((fd : ℕ) (a : A) (t : Trace) → Q a t → Q a (closed fd ∷ unlocked fd ∷ t))
      → Succeeds P Q (with_lock env socket_path body)
  unfolding with_lock unlock close ◌>>=◌
  with_lock-Succeeds socket_path body k after =
      Succeeds-bind {R = λ fd. P} _ _ (Succeeds-wrapped creating_lock _ (lock_file-Succeeds _))
        λ fd.
          Succeeds-bind {R = λ u. P} _ _
            (Succeeds-on_error (close env fd) _
              (Succeeds-wrapped acquiring_lock _ (lock-Succeeds fd)))
            λ _. Succeeds-finally (unlock env fd >> close env fd) _ k (after fd)
