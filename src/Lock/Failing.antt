-- ===== src/Lock/Failing.antt =====
-- The locking that opens every handler of pkg/cni/handler.go: how it fails, and what it wraps.
-- The file of the lock is never the default one, since the path of a socket's lock is not empty.
use grout_cni.Base.{
  Bytes, codes, same, creating_lock_directory, opening_lock_file, acquiring_exclusive_lock,
  timed_out, creating_lock, acquiring_lock, external, new, in_stage, Result, err, ℕ, ◌≡◌, refl, ◌⊎◌,
  inl, inr, false, [], ◌∷◌, ◌++◌,
}
use grout_cni.Base.State.{State, ◌>>=◌}
use grout_cni.FilePath.{dir}
use grout_cni.Host.{
  Reply, value, failed, Flock, acquired, refused, elapsed, made_dir, opened, flocked, unlocked,
  closed, Trace, Env, mkdir_all, open_file,
}
use grout_cni.Lock.{lock_path_for_socket, new_file_lock, lock, unlock, close, with_lock}

same_append : (a : Bytes) (c : ℕ) (b : Bytes) → same (a ++ (c ∷ b)) [] ≡ false
unfolding same
same_append [] c b = refl
same_append (x ∷ a) c b = refl

lock_path-nonempty : (socket_path : Bytes) → same (lock_path_for_socket socket_path) [] ≡ false
unfolding lock_path_for_socket
lock_path-nonempty socket_path = same_append _ b'.' (codes "lock")

module _ (env : Env) {A : Type 0} (socket_path : Bytes) (body : State Trace A) (t : Trace) where
  abbrev pub file : Bytes
  file = lock_path_for_socket socket_path

  -- The transcript once the directory is there, the file is open, and the lock is held.
  abbrev pub with_directory : Trace
  with_directory = made_dir (dir file) (value tt) ∷ t

  abbrev pub with_file : ℕ → Trace
  with_file fd = opened file (value fd) ∷ with_directory

  abbrev pub with_the_lock : ℕ → Trace
  with_the_lock fd = flocked fd acquired ∷ with_file fd

  -- The directory or the file cannot be had, and nothing is left to close.
  abbrev pub NoFile : Result A → Trace → Type 0
  NoFile x t' =
      ((e : ℕ) × (env.mkdir (dir file) t ≡ failed e)
        × (x ≡ err (in_stage creating_lock (in_stage creating_lock_directory (external e))))
        × (t' ≡ made_dir (dir file) (failed e) ∷ t))
      ⊎ ((e : ℕ) × (env.open_lock file with_directory ≡ failed e)
          × (x ≡ err (in_stage creating_lock (in_stage opening_lock_file (external e))))
          × (t' ≡ opened file (failed e) ∷ with_directory))

  -- The lock is refused or the time is up, and the file is closed again.
  abbrev pub NoLock : Result A → Trace → Type 0
  NoLock x t' =
      (fd : ℕ) × (env.open_lock file with_directory ≡ value fd)
      × (((e : ℕ) × (env.wait_lock fd (with_file fd) ≡ refused e)
            × (x ≡ err (in_stage acquiring_lock (in_stage acquiring_exclusive_lock (external e))))
            × (t' ≡ closed fd ∷ flocked fd (refused e) ∷ with_file fd))
          ⊎ ((env.wait_lock fd (with_file fd) ≡ elapsed)
              × (x ≡ err (in_stage acquiring_lock (new timed_out)))
              × (t' ≡ closed fd ∷ flocked fd elapsed ∷ with_file fd)))

  -- The body runs under the lock, which is released whatever its outcome.
  abbrev pub Wrapped : Result A → Trace → Type 0
  Wrapped x t' =
      (fd : ℕ) × (env.open_lock file with_directory ≡ value fd)
      × (env.wait_lock fd (with_file fd) ≡ acquired)
      × (x ≡ (body (with_the_lock fd)).0)
      × (t' ≡ closed fd ∷ unlocked fd ∷ (body (with_the_lock fd)).1)

  -- The locking around a handler's body. Without the directory or the file of the lock, or without
  -- the lock, the handler fails with an error that names the place, has called nothing but the
  -- locking, and leaves no file open; otherwise the body runs once, with the lock held, its outcome
  -- is the handler's, also an error or a panic, and the lock is then released and its file closed.
  pub with_lock_lem :
      let out = with_lock env socket_path body t in
      NoFile out.0 out.1 ⊎ (NoLock out.0 out.1 ⊎ Wrapped out.0 out.1)
  unfolding with_lock new_file_lock mkdir_all open_file lock unlock close ◌>>=◌
  with_lock_lem = made (env.mkdir (dir file) t) refl
    where
      End : Type 0
      End =
          let out = with_lock env socket_path body t in
          NoFile out.0 out.1 ⊎ (NoLock out.0 out.1 ⊎ Wrapped out.0 out.1)

      waited :
          (fd : ℕ) (r : Flock)
          → env.mkdir (dir file) t ≡ value tt
          → env.open_lock file with_directory ≡ value fd
          → env.wait_lock fd (with_file fd) ≡ r
          → End
      waited fd acquired q p w =
          rw (lock_path-nonempty socket_path, q, p, w) (inr (inr (fd, refl, w, refl, refl)))
      waited fd (refused e) q p w =
          rw (lock_path-nonempty socket_path, q, p, w)
            (inr (inl (fd, refl, inl (e, w, refl, refl))))
      waited fd elapsed q p w =
          rw (lock_path-nonempty socket_path, q, p, w) (inr (inl (fd, refl, inr (w, refl, refl))))

      open_done :
          (r : Reply ℕ)
          → env.mkdir (dir file) t ≡ value tt
          → env.open_lock file with_directory ≡ r
          → End
      open_done (value fd) q p = waited fd (env.wait_lock fd (with_file fd)) q p refl
      open_done (failed e) q p =
          rw (lock_path-nonempty socket_path, q, p) (inl (inr (e, refl, refl, refl)))

      made : (r : Reply (Unit {0})) → env.mkdir (dir file) t ≡ r → End
      made (value u) q = open_done (env.open_lock file with_directory) q refl
      made (failed e) q = rw (lock_path-nonempty socket_path, q) (inl (inl (e, refl, refl, refl)))
