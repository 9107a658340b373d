-- ===== src/Host.antt =====
-- What the handlers of pkg/cni call, and do not implement: the file system and flock, the IPAM plugin,
-- the grout client behind the interface GroutClient, and the calls on the pod's network namespace.
-- Each call leaves an event with its answer in a transcript, the newest first; the environment
-- answers by any function of what happened before.
pub mod Events
pub mod Replies
use grout_cni.Logging.{Level}
use grout_cni.Base.{Bytes, external, Result, ok, err, ℕ, ◌≡◌, refl, Bool, Option, List, ◌∷◌}
use grout_cni.Base.State.{State, reify, continue}
use grout_cni.Base.Integer.{ℤ}
use grout_cni.Net.{IpNet}
use grout_cni.Grout.{Iface, AddRequest, AddressRequest}

pub data Reply (A : Type 0) : Type 0 where
  value : A → Reply A
  failed : ℕ → Reply A

abbrev pub answer : {A : Type 0} → Reply A → Result A
answer (value a) = ok a
answer (failed e) = err (external e)

-- How the wait in FileLock.Lock ends: flock returns, with or without an error, or the time is up.
pub data Flock : Type 0 where
  acquired : Flock
  refused : ℕ → Flock
  elapsed : Flock

-- types100.IPConfig; its `Interface` and `Gateway` may be nil.
pub record IpConfig : Type 0 where
  pub interface : Option ℕ
  pub address : IpNet
  pub gateway : Option Bytes

-- types100.Interface
pub record PodIface : Type 0 where
  pub name : Bytes
  pub mac : Bytes
  pub sandbox : Bytes
  pub socket_path : Bytes

-- types100.Result; an entry of `ips` may be nil. Routes and DNS are passed on unread.
pub record CniResult : Type 0 where
  pub cni_version : Bytes
  pub interfaces : List PodIface
  pub ips : List (Option IpConfig)
  pub routes : Bytes
  pub dns : Bytes

-- skel.CmdArgs
pub record CmdArgs : Type 0 where
  pub container_id : Bytes
  pub netns : Bytes
  pub if_name : Bytes
  pub stdin_data : Bytes

pub data Event : Type 0 where
  made_dir : Bytes → Reply (Unit {0}) → Event
  opened : Bytes → Reply ℕ → Event
  flocked : ℕ → Flock → Event
  unlocked : ℕ → Event
  closed : ℕ → Event
  ipam_added : Reply Bytes → Event
  ipam_deleted : Reply (Unit {0}) → Event
  ipam_collected : Reply (Unit {0}) → Event
  listed : Reply (List Iface) → Event
  iface_added : AddRequest → Reply ℕ → Event
  iface_deleted : ℕ → Reply (Unit {0}) → Event
  address_added : AddressRequest → Reply (Unit {0}) → Event
  addresses_flushed : ℕ → Reply (Unit {0}) → Event
  link_moved : Bytes → Bytes → Reply (Unit {0}) → Event
  pod_configured : Bytes → Bytes → Reply CniResult → Event
  pod_verified : Bytes → Bytes → List IpNet → Reply (Unit {0}) → Event
  file_removed : Bytes → Reply (Unit {0}) → Event
  file_looked_up : Bytes → Bool → Event
  logging_set : Level → Event

abbrev pub Trace : Type 0
Trace = List Event

-- The answers. `convert` is types100.NewResultFromResult, and `parse_prev` is version.ParsePrevResult
-- with the result that it leaves in the configuration, which may be nil. `configure_pod` answers with
-- the result as ConfigurePodIface leaves it.
pub record Env : Type 0 where
  pub sha256 : Bytes → Bytes
  pub convert : Bytes → Reply CniResult
  pub parse_prev : Bytes → Reply (Option Bytes)
  pub mkdir : Bytes → Trace → Reply (Unit {0})
  pub open_lock : Bytes → Trace → Reply ℕ
  pub wait_lock : ℕ → Trace → Flock
  pub add_ipam : Bytes → Trace → Reply Bytes
  pub del_ipam : Bytes → Trace → Reply (Unit {0})
  pub gc_ipam : Bytes → Trace → Reply (Unit {0})
  pub list_all : Trace → Reply (List Iface)
  pub add_iface : AddRequest → Trace → Reply ℕ
  pub del_iface : ℕ → Trace → Reply (Unit {0})
  pub add_address : AddressRequest → Trace → Reply (Unit {0})
  pub flush : ℕ → Trace → Reply (Unit {0})
  pub move : Bytes → Bytes → Trace → Reply (Unit {0})
  pub configure : Bytes → Bytes → Bytes → ℤ → CniResult → Trace → Reply CniResult
  pub verify : Bytes → Bytes → List IpNet → Trace → Reply (Unit {0})
  pub remove : Bytes → Trace → Reply (Unit {0})
  pub stat : Bytes → Trace → Bool

module _ (env : Env) where
  unfoldable pub mkdir_all : Bytes → State Trace (Unit {0})
  mkdir_all path t = let r = env.mkdir path t in (answer r, made_dir path r ∷ t)

  unfoldable pub open_file : Bytes → State Trace ℕ
  open_file path t = let r = env.open_lock path t in (answer r, opened path r ∷ t)

  -- invoke.DelegateAdd; the plugin gets the whole configuration, as it stood on stdin.
  unfoldable pub ipam_add : CmdArgs → State Trace Bytes
  ipam_add args t = let r = env.add_ipam args.stdin_data t in (answer r, ipam_added r ∷ t)

  -- ipamDel, whose errors are logged and dropped.
  unfoldable pub ipam_del : CmdArgs → State Trace (Unit {0})
  ipam_del args t = (ok tt, ipam_deleted (env.del_ipam args.stdin_data t) ∷ t)

  -- gcIPAM, whose errors are logged and dropped.
  unfoldable pub gc_ipam : CmdArgs → State Trace (Unit {0})
  gc_ipam args t = (ok tt, ipam_collected (env.gc_ipam args.stdin_data t) ∷ t)

  unfoldable pub interface_list : State Trace (List Iface)
  interface_list t = let r = env.list_all t in (answer r, listed r ∷ t)

  unfoldable pub interface_add : AddRequest → State Trace ℕ
  interface_add req t = let r = env.add_iface req t in (answer r, iface_added req r ∷ t)

  unfoldable pub interface_del : ℕ → State Trace (Unit {0})
  interface_del id t = let r = env.del_iface id t in (answer r, iface_deleted id r ∷ t)

  unfoldable pub address_add : AddressRequest → State Trace (Unit {0})
  address_add req t = let r = env.add_address req t in (answer r, address_added req r ∷ t)

  unfoldable pub address_flush : ℕ → State Trace (Unit {0})
  address_flush id t = let r = env.flush id t in (answer r, addresses_flushed id r ∷ t)

  unfoldable pub move_link : Bytes → Bytes → State Trace (Unit {0})
  move_link name netns t = let r = env.move name netns t in (answer r, link_moved name netns r ∷ t)

  unfoldable pub configure_pod_iface : Bytes → Bytes → Bytes → ℤ → CniResult → State Trace CniResult
  configure_pod_iface netns host pod mtu result t =
      let r = env.configure netns host pod mtu result t in
      (answer r, pod_configured netns pod r ∷ t)

  unfoldable pub verify_pod_iface : Bytes → Bytes → List IpNet → State Trace (Unit {0})
  verify_pod_iface netns name expected t =
      let r = env.verify netns name expected t in (answer r, pod_verified netns name expected r ∷ t)

  -- os.Remove, whose errors are logged and dropped.
  unfoldable pub remove_file : Bytes → State Trace (Unit {0})
  remove_file path t = (ok tt, file_removed path (env.remove path t) ∷ t)

  -- fileExists
  unfoldable pub file_exists : Bytes → State Trace Bool
  file_exists path t = let r = env.stat path t in (ok r, file_looked_up path r ∷ t)

-- The outcome of an attempt that is not looked at changes nothing.
pub dropped :
    {S A B : Type 0} (r : Reply A) (f : State S B) (s : S)
    → continue (reify (answer r)) (λ _. f) s ≡ f s
dropped (value a) f s = refl
dropped (failed e) f s = refl
