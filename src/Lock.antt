-- ===== src/Lock.antt =====
-- pkg/cni/lock.go, and the locking that opens every handler of pkg/cni/handler.go.
pub mod Discipline
pub mod Outcome
pub mod Failing
pub mod Granted
use grout_cni.Base.{
  if◌then◌else◌, Bytes, codes, same, creating_lock_directory, opening_lock_file,
  acquiring_exclusive_lock, timed_out, creating_lock, acquiring_lock, external, new, in_stage,
  Result, ok, err, ℕ, [], ◌∷◌, ◌++◌,
}
use grout_cni.Base.State.{State, wrapped, on_error, finally, ◌>>=◌, ◌>>◌}
use grout_cni.FilePath.{dir}
use grout_cni.Config.{default_socket_path}
use grout_cni.Host.{
  Flock, acquired, refused, elapsed, flocked, unlocked, closed, Trace, Env, mkdir_all, open_file,
}

abbrev pub default_lock_path : Bytes
default_lock_path = codes "/var/run/grout-k-cni.lock"

-- lockPathForSocket
unfoldable pub lock_path_for_socket : Bytes → Bytes
lock_path_for_socket socket_path =
    (if same socket_path [] then default_socket_path else socket_path) ++ codes ".lock"

-- What Lock makes of the end of the wait.
abbrev pub lock_result : Flock → Result (Unit {0})
lock_result acquired = ok tt
lock_result (refused e) = err (in_stage acquiring_exclusive_lock (external e))
lock_result elapsed = err (new timed_out)

module _ (env : Env) where
  -- NewFileLock. filepath.Dir is never empty, so its directory is always created.
  unfoldable pub new_file_lock : Bytes → State Trace ℕ
  new_file_lock path = do
    let path' = if same path [] then default_lock_path else path
    wrapped creating_lock_directory (mkdir_all env (dir path'))
    wrapped opening_lock_file (open_file env path')

  -- FileLock.Lock
  unfoldable pub lock : ℕ → State Trace (Unit {0})
  lock fd t = let r = env.wait_lock fd t in (lock_result r, flocked fd r ∷ t)

  -- FileLock.Unlock and FileLock.Close, whose errors the handlers drop.
  unfoldable pub unlock : ℕ → State Trace (Unit {0})
  unlock fd t = (ok tt, unlocked fd ∷ t)

  unfoldable pub close : ℕ → State Trace (Unit {0})
  close fd t = (ok tt, closed fd ∷ t)

  -- How HandleAdd, HandleDel, HandleCheck and HandleGC begin: the lock of the socket, and its deferred
  -- release around what follows.
  unfoldable pub with_lock : {A : Type 0} → Bytes → State Trace A → State Trace A
  with_lock socket_path body = do
    fd ← wrapped creating_lock (new_file_lock (lock_path_for_socket socket_path))
    on_error (close fd) (wrapped acquiring_lock (lock fd))
    finally (unlock fd >> close fd) body
