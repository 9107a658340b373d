-- ===== src/Router/Calm.antt =====
-- The handlers of pkg/cni/handler.go that add no interfaces and give no addresses: HandleDel,
-- HandleCheck and HandleGC.
use grout_cni.Handlers.Gc.{after_reap, reap_one, reap, collect_on, gc_body, handle_gc}
use grout_cni.Handlers.Check.{check_socket, check_pod, check_body, handle_check}
use grout_cni.Net.{IpNet}
use grout_cni.Base.{
  Bytes, Result, ok, err, panic, ℕ, ◌≡◌, refl, Bool, false, ◌||◌, Option, none, some, List, [], ◌∷◌,
}
use grout_cni.Base.State.{State}
use grout_cni.Base.Keeps.{Keeps, Keeps-bind, keeps_rules}
use grout_cni.Grout.{Iface}
use grout_cni.Host.{
  CmdArgs, Event, made_dir, opened, flocked, unlocked, closed, ipam_deleted, ipam_collected, listed,
  iface_deleted, addresses_flushed, pod_verified, file_removed, file_looked_up, Trace, Env,
  mkdir_all, open_file, ipam_del, gc_ipam, interface_list, interface_del, address_flush,
  verify_pod_iface, remove_file, file_exists,
}
use grout_cni.Config.{PluginConf}
use grout_cni.Bridge.{
  Verdict, keep, collect, gc_scan, collect_bridge, scan_and_collect, gc_bridge_if_empty,
}
use grout_cni.Lock.{new_file_lock, lock, unlock, close, with_lock}
use grout_cni.Router.{changes, assigns}
use grout_cni.Handlers.Common.{remove_vhost_socket}
use grout_cni.Handlers.Del.{delete_port, del_body, handle_del}

-- What every event keeps that changes no interfaces and gives no addresses.
pub record IsCalm (P : Trace → Type 0) : Type 0 where
  pub calm :
      (e : Event) (t : Trace)
      → changes e ≡ false
      → ((id : ℕ) → assigns id e ≡ false)
      → P t
      → P (e ∷ t)

module _ (env : Env) {P : Trace → Type 0} (c : IsCalm P) where
  Keeps-mkdir_all : (path : Bytes) → Keeps P (mkdir_all env path)
  unfolding mkdir_all
  Keeps-mkdir_all path = record {
    kept = λ t h. c.calm (made_dir path (env.mkdir path t)) t refl (λ i. refl) h;
  }

  Keeps-open_file : (path : Bytes) → Keeps P (open_file env path)
  unfolding open_file
  Keeps-open_file path = record {
    kept = λ t h. c.calm (opened path (env.open_lock path t)) t refl (λ i. refl) h;
  }

  Keeps-lock : (fd : ℕ) → Keeps P (lock env fd)
  unfolding lock
  Keeps-lock fd = record {
    kept = λ t h. c.calm (flocked fd (env.wait_lock fd t)) t refl (λ i. refl) h;
  }

  Keeps-unlock : (fd : ℕ) → Keeps P (unlock env fd)
  unfolding unlock
  Keeps-unlock fd = record { kept = λ t h. c.calm (unlocked fd) t refl (λ i. refl) h }

  Keeps-close : (fd : ℕ) → Keeps P (close env fd)
  unfolding close
  Keeps-close fd = record { kept = λ t h. c.calm (closed fd) t refl (λ i. refl) h }

  Keeps-interface_list : Keeps P (interface_list env)
  unfolding interface_list
  Keeps-interface_list = record {
    kept = λ t h. c.calm (listed (env.list_all t)) t refl (λ i. refl) h;
  }

  Keeps-address_flush : (id : ℕ) → Keeps P (address_flush env id)
  unfolding address_flush
  Keeps-address_flush id = record {
    kept = λ t h. c.calm (addresses_flushed id (env.flush id t)) t refl (λ i. refl) h;
  }

  Keeps-remove_file : (path : Bytes) → Keeps P (remove_file env path)
  unfolding remove_file
  Keeps-remove_file path = record {
    kept = λ t h. c.calm (file_removed path (env.remove path t)) t refl (λ i. refl) h;
  }

  Keeps-ipam_del : (args : CmdArgs) → Keeps P (ipam_del env args)
  unfolding ipam_del
  Keeps-ipam_del args = record {
    kept = λ t h. c.calm (ipam_deleted (env.del_ipam args.stdin_data t)) t refl (λ i. refl) h;
  }

  Keeps-gc_ipam : (args : CmdArgs) → Keeps P (gc_ipam env args)
  unfolding gc_ipam
  Keeps-gc_ipam args = record {
    kept = λ t h. c.calm (ipam_collected (env.gc_ipam args.stdin_data t)) t refl (λ i. refl) h;
  }

  Keeps-verify :
      (netns name : Bytes) (ips : List IpNet) → Keeps P (verify_pod_iface env netns name ips)
  unfolding verify_pod_iface
  Keeps-verify netns name ips = record {
    kept = λ t h.
        c.calm (pod_verified netns name ips (env.verify netns name ips t)) t refl (λ i. refl) h;
  }

  Keeps-file_exists : (path : Bytes) → Keeps P (file_exists env path)
  unfolding file_exists
  Keeps-file_exists path = record {
    kept = λ t h. c.calm (file_looked_up path (env.stat path t)) t refl (λ i. refl) h;
  }

ruleset calm_rules = (
  keeps_rules, Keeps-mkdir_all, Keeps-open_file, Keeps-lock, Keeps-unlock, Keeps-close,
  Keeps-interface_list, Keeps-address_flush, Keeps-remove_file, Keeps-ipam_del, Keeps-gc_ipam,
  Keeps-verify, Keeps-file_exists,
)

module _ (env : Env) {P : Trace → Type 0} (c : IsCalm P) (conf : PluginConf) (args : CmdArgs) where
  Keeps-with_lock :
      {A : Type 0} (path : Bytes) (m : State Trace A) → Keeps P m → Keeps P (with_lock env path m)
  unfolding with_lock new_file_lock
  Keeps-with_lock path m k = search calm_rules depth 14

  check_body-Keeps : Keeps P (check_body env conf args)
  unfolding check_body check_socket check_pod
  check_body-Keeps = search calm_rules depth 10

  pub handle_check-Keeps : Keeps P (handle_check env conf args)
  unfolding handle_check
  handle_check-Keeps = Keeps-with_lock _ _ check_body-Keeps

module _ (env : Env) {P : Trace → Type 0} (c : IsCalm P) (conf : PluginConf) (args : CmdArgs)
    (deletes : (id : ℕ) (t : Trace) → P t → P (iface_deleted id (env.del_iface id t) ∷ t)) where
  Keeps-interface_del : (id : ℕ) → Keeps P (interface_del env id)
  unfolding interface_del
  Keeps-interface_del id = record { kept = λ t h. deletes id t h }

  Keeps-collect_bridge : (id : ℕ) (v : Verdict) → Keeps P (collect_bridge env id v)
  unfolding collect_bridge
  Keeps-collect_bridge id keep = search calm_rules
  Keeps-collect_bridge id collect = search (calm_rules, Keeps-interface_del)

  Keeps-scan : (id : ℕ) (x : Result (List Iface)) → Keeps P (scan_and_collect env id x)
  unfolding scan_and_collect
  Keeps-scan id (ok l) = Keeps-collect_bridge id (gc_scan id false l)
  Keeps-scan id (err e) = search calm_rules
  Keeps-scan id panic = search calm_rules

  Keeps-gc_bridge_if_empty : (id : ℕ) → Keeps P (gc_bridge_if_empty env id)
  unfolding gc_bridge_if_empty
  Keeps-gc_bridge_if_empty id = search (calm_rules, Keeps-scan)

  Keeps-delete_port : (o : Option Iface) → Keeps P (delete_port env conf args o)
  unfolding delete_port remove_vhost_socket
  Keeps-delete_port none = search calm_rules
  Keeps-delete_port (some p) = search (calm_rules, Keeps-interface_del, Keeps-gc_bridge_if_empty)

  del_body-Keeps : Keeps P (del_body env conf args)
  unfolding del_body
  del_body-Keeps = search (calm_rules, Keeps-delete_port)

  pub handle_del-Keeps : Keeps P (handle_del env conf args)
  unfolding handle_del
  handle_del-Keeps = Keeps-with_lock env c conf args _ _ del_body-Keeps

  Keeps-after_reap : (i : Iface) (x : Result (Unit {0})) → Keeps P (after_reap env conf args i x)
  Keeps-after_reap i (ok u) = unfold remove_vhost_socket in search calm_rules
  Keeps-after_reap i (err e) = search calm_rules
  Keeps-after_reap i panic = search calm_rules

  Keeps-reap_one : (i : Iface) → Keeps P (reap_one env conf args i)
  unfolding reap_one
  Keeps-reap_one i = search (calm_rules, Keeps-interface_del, Keeps-after_reap)

  Keeps-reap : (id : ℕ) (reaped : Bool) (l : List Iface) → Keeps P (reap env conf args id reaped l)
  unfolding reap
  Keeps-reap id reaped [] = search calm_rules
  Keeps-reap id reaped (i ∷ is) =
      Keeps-bind _ _ (search (calm_rules, Keeps-reap_one)) (λ hit. Keeps-reap id (hit || reaped) is)

  Keeps-collect_on : (l : List Iface) (o : Option ℕ) → Keeps P (collect_on env conf args l o)
  unfolding collect_on
  Keeps-collect_on l none = search calm_rules
  Keeps-collect_on l (some id) = search (calm_rules, Keeps-reap, Keeps-gc_bridge_if_empty)

  gc_body-Keeps : Keeps P (gc_body env conf args)
  unfolding gc_body
  gc_body-Keeps = search (calm_rules, Keeps-collect_on)

  pub handle_gc-Keeps : Keeps P (handle_gc env conf args)
  unfolding handle_gc
  handle_gc-Keeps = Keeps-with_lock env c conf args _ _ gc_body-Keeps
