-- ===== src/Remote/Calls.antt =====
-- The calls of the handlers of pkg/cni/handler.go, with one client behind GroutClient and with another.
use grout_cni.Base.{Bytes, ℕ, refl, List}
use grout_cni.Base.Integer.{ℤ}
use grout_cni.Net.{IpNet}
use grout_cni.Grout.{AddRequest, AddressRequest}
use grout_cni.Host.{
  CniResult, CmdArgs, Env, mkdir_all, open_file, ipam_add, ipam_del, gc_ipam, interface_list,
  interface_add, interface_del, address_add, address_flush, move_link, configure_pod_iface,
  verify_pod_iface, remove_file, file_exists,
}
use grout_cni.Remote.{GroutClient, with_client, Answered}
use grout_cni.Remote.Sim.{Sim, sim_rules}
use grout_cni.Lock.{lock, unlock, close}

module _ (env : Env) (g : GroutClient) where
  pub Sim-mkdir_all :
      (path : Bytes) → Sim (Answered g) (mkdir_all env path) (mkdir_all (with_client env g) path)
  unfolding mkdir_all
  Sim-mkdir_all path = record { before = λ t h. h; same_end = λ t h. refl }

  pub Sim-open_file :
      (path : Bytes) → Sim (Answered g) (open_file env path) (open_file (with_client env g) path)
  unfolding open_file
  Sim-open_file path = record { before = λ t h. h; same_end = λ t h. refl }

  pub Sim-lock : (fd : ℕ) → Sim (Answered g) (lock env fd) (lock (with_client env g) fd)
  unfolding lock
  Sim-lock fd = record { before = λ t h. h; same_end = λ t h. refl }

  pub Sim-unlock : (fd : ℕ) → Sim (Answered g) (unlock env fd) (unlock (with_client env g) fd)
  unfolding unlock
  Sim-unlock fd = record { before = λ t h. h; same_end = λ t h. refl }

  pub Sim-close : (fd : ℕ) → Sim (Answered g) (close env fd) (close (with_client env g) fd)
  unfolding close
  Sim-close fd = record { before = λ t h. h; same_end = λ t h. refl }

  pub Sim-ipam_add :
      (args : CmdArgs) → Sim (Answered g) (ipam_add env args) (ipam_add (with_client env g) args)
  unfolding ipam_add
  Sim-ipam_add args = record { before = λ t h. h; same_end = λ t h. refl }

  pub Sim-ipam_del :
      (args : CmdArgs) → Sim (Answered g) (ipam_del env args) (ipam_del (with_client env g) args)
  unfolding ipam_del
  Sim-ipam_del args = record { before = λ t h. h; same_end = λ t h. refl }

  pub Sim-gc_ipam :
      (args : CmdArgs) → Sim (Answered g) (gc_ipam env args) (gc_ipam (with_client env g) args)
  unfolding gc_ipam
  Sim-gc_ipam args = record { before = λ t h. h; same_end = λ t h. refl }

  pub Sim-move_link :
      (name netns : Bytes)
      → Sim (Answered g) (move_link env name netns) (move_link (with_client env g) name netns)
  unfolding move_link
  Sim-move_link name netns = record { before = λ t h. h; same_end = λ t h. refl }

  pub Sim-configure_pod_iface :
      (netns host pod : Bytes) (mtu : ℤ) (x : CniResult)
      → Sim
          (Answered g)
          (configure_pod_iface env netns host pod mtu x)
          (configure_pod_iface (with_client env g) netns host pod mtu x)
  unfolding configure_pod_iface
  Sim-configure_pod_iface netns host pod mtu x = record {
    before = λ t h. h;
    same_end = λ t h. refl;
  }

  pub Sim-verify_pod_iface :
      (netns name : Bytes) (ips : List IpNet)
      → Sim
          (Answered g)
          (verify_pod_iface env netns name ips)
          (verify_pod_iface (with_client env g) netns name ips)
  unfolding verify_pod_iface
  Sim-verify_pod_iface netns name ips = record { before = λ t h. h; same_end = λ t h. refl }

  pub Sim-remove_file :
      (path : Bytes)
      → Sim (Answered g) (remove_file env path) (remove_file (with_client env g) path)
  unfolding remove_file
  Sim-remove_file path = record { before = λ t h. h; same_end = λ t h. refl }

  pub Sim-file_exists :
      (path : Bytes)
      → Sim (Answered g) (file_exists env path) (file_exists (with_client env g) path)
  unfolding file_exists
  Sim-file_exists path = record { before = λ t h. h; same_end = λ t h. refl }

  pub Sim-interface_list :
      Sim (Answered g) (interface_list env) (interface_list (with_client env g))
  unfolding interface_list
  Sim-interface_list = record { before = λ t h. h.1; same_end = λ t h. rw (h.0) }

  pub Sim-interface_add :
      (req : AddRequest)
      → Sim (Answered g) (interface_add env req) (interface_add (with_client env g) req)
  unfolding interface_add
  Sim-interface_add req = record { before = λ t h. h.1; same_end = λ t h. rw (h.0) }

  pub Sim-interface_del :
      (id : ℕ) → Sim (Answered g) (interface_del env id) (interface_del (with_client env g) id)
  unfolding interface_del
  Sim-interface_del id = record { before = λ t h. h.1; same_end = λ t h. rw (h.0) }

  pub Sim-address_add :
      (req : AddressRequest)
      → Sim (Answered g) (address_add env req) (address_add (with_client env g) req)
  unfolding address_add
  Sim-address_add req = record { before = λ t h. h.1; same_end = λ t h. rw (h.0) }

  pub Sim-address_flush :
      (id : ℕ) → Sim (Answered g) (address_flush env id) (address_flush (with_client env g) id)
  unfolding address_flush
  Sim-address_flush id = record { before = λ t h. h.1; same_end = λ t h. rw (h.0) }

pub ruleset call_rules = (
  sim_rules, Sim-mkdir_all, Sim-open_file, Sim-lock, Sim-unlock, Sim-close, Sim-ipam_add,
  Sim-ipam_del, Sim-gc_ipam, Sim-move_link, Sim-configure_pod_iface, Sim-verify_pod_iface,
  Sim-remove_file, Sim-file_exists, Sim-interface_list, Sim-interface_add, Sim-interface_del,
  Sim-address_add, Sim-address_flush,
)
