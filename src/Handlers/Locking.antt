-- ===== src/Handlers/Locking.antt =====
-- The locking of the handlers of pkg/cni/handler.go.
use grout_cni.Lock.Discipline.{IsIdle, with_lock-IsIdle}
use grout_cni.Handlers.Common.{remove_vhost_socket}
use grout_cni.Handlers.Gc.{after_reap, reap_one, reap, collect_on, gc_body, handle_gc}
use grout_cni.Net.{IpNet}
use grout_cni.Config.{PluginConf}
use grout_cni.Handlers.Add.{
  add_gateways, make_socket_dir, cleanup_after_add_failure, attach_tap, finish_add, add_converted,
  add_body, handle_add,
}
use grout_cni.Handlers.Del.{delete_port, del_body, handle_del}
use grout_cni.Handlers.Check.{check_body, handle_check}
use grout_cni.Base.{
  Bytes, Error, Result, ok, err, panic, ℕ, Bool, ◌||◌, Option, none, some, List, [], ◌∷◌,
}
use grout_cni.Base.Keeps.{Keeps, Keeps-bind}
use grout_cni.Grout.{Iface}
use grout_cni.Host.{CniResult, CmdArgs, Trace, Env}
use grout_cni.Host.Events.{IsStable, Keeps-address_add, host_rules}
use grout_cni.Bridge.{
  Verdict, keep, collect, reuse_bridge, created_or_reused, found_or_created, ensure_bridge,
  collect_bridge, scan_and_collect, gc_bridge_if_empty,
}

module _ (env : Env) {P : Trace → Type 0} (st : IsStable P) where
  Keeps-reuse_bridge :
      (name : Bytes) (e : Error) (r : Result (List Iface)) → Keeps P (reuse_bridge env name e r)
  unfolding reuse_bridge
  Keeps-reuse_bridge name e (ok ifaces) = search host_rules
  Keeps-reuse_bridge name e (err x) = search host_rules
  Keeps-reuse_bridge name e panic = search host_rules

  Keeps-created_or_reused : (name : Bytes) (r : Result ℕ) → Keeps P (created_or_reused env name r)
  unfolding created_or_reused
  Keeps-created_or_reused name (ok id) = search host_rules
  Keeps-created_or_reused name (err e) = search (host_rules, Keeps-reuse_bridge)
  Keeps-created_or_reused name panic = search host_rules

  Keeps-found_or_created : (name : Bytes) (o : Option ℕ) → Keeps P (found_or_created env name o)
  unfolding found_or_created
  Keeps-found_or_created name (some id) = search host_rules
  Keeps-found_or_created name none = search (host_rules, Keeps-created_or_reused)

  pub Keeps-ensure_bridge : (name : Bytes) → Keeps P (ensure_bridge env name)
  unfolding ensure_bridge
  Keeps-ensure_bridge name = search (host_rules, Keeps-found_or_created)

  Keeps-collect_bridge : (id : ℕ) (v : Verdict) → Keeps P (collect_bridge env id v)
  unfolding collect_bridge
  Keeps-collect_bridge id keep = search host_rules
  Keeps-collect_bridge id collect = search host_rules

  Keeps-scan_and_collect : (id : ℕ) (r : Result (List Iface)) → Keeps P (scan_and_collect env id r)
  unfolding scan_and_collect
  Keeps-scan_and_collect id (ok ifaces) = search (host_rules, Keeps-collect_bridge)
  Keeps-scan_and_collect id (err e) = search host_rules
  Keeps-scan_and_collect id panic = search host_rules

  Keeps-gc_bridge_if_empty : (id : ℕ) → Keeps P (gc_bridge_if_empty env id)
  unfolding gc_bridge_if_empty
  Keeps-gc_bridge_if_empty id = search (host_rules, Keeps-scan_and_collect)

module _ (env : Env) (conf : PluginConf) (args : CmdArgs) {P : Trace → Type 0}
    (st : IsStable P) where
  pub Keeps-add_gateways : (id : ℕ) (gws : List IpNet) → Keeps P (add_gateways env conf args id gws)
  unfolding add_gateways
  Keeps-add_gateways id [] = search host_rules
  Keeps-add_gateways id (gw ∷ gws) =
      Keeps-bind _ _ (Keeps-address_add env st _) (λ _. Keeps-add_gateways id gws)

  pub Keeps-make_socket_dir : Keeps P (make_socket_dir env conf args)
  unfolding make_socket_dir
  Keeps-make_socket_dir = search host_rules

  Keeps-cleanup : (id : ℕ) → Keeps P (cleanup_after_add_failure env conf args id)
  unfolding cleanup_after_add_failure
  Keeps-cleanup id = search host_rules

  Keeps-attach_tap : (id : ℕ) (r : CniResult) → Keeps P (attach_tap env conf args id r)
  unfolding attach_tap
  Keeps-attach_tap id r = search (host_rules, Keeps-cleanup)

  pub Keeps-finish_add : (r : CniResult) (id : ℕ) → Keeps P (finish_add env conf args r id)
  unfolding finish_add
  Keeps-finish_add r id = search (host_rules, Keeps-attach_tap)

  pub Keeps-add_converted : (r : CniResult) → Keeps P (add_converted env conf args r)
  unfolding add_converted
  Keeps-add_converted r =
      search
        (
          host_rules, Keeps-ensure_bridge, Keeps-add_gateways, Keeps-make_socket_dir,
          Keeps-finish_add,
        )
        depth 12

  Keeps-add_body : Keeps P (add_body env conf args)
  unfolding add_body
  Keeps-add_body = search (host_rules, Keeps-add_converted) depth 8

  Keeps-delete_port : (o : Option Iface) → Keeps P (delete_port env conf args o)
  unfolding delete_port
  Keeps-delete_port none = search host_rules
  Keeps-delete_port (some port) = search (host_rules, Keeps-gc_bridge_if_empty)

  Keeps-del_body : Keeps P (del_body env conf args)
  unfolding del_body
  Keeps-del_body = search (host_rules, Keeps-delete_port)

  Keeps-check_body : Keeps P (check_body env conf args)
  unfolding check_body
  Keeps-check_body = search host_rules depth 8

  Keeps-after_reap :
      (iface : Iface) (r : Result (Unit {0})) → Keeps P (after_reap env conf args iface r)
  Keeps-after_reap iface (ok u) = unfold remove_vhost_socket in search host_rules
  Keeps-after_reap iface (err e) = search host_rules
  Keeps-after_reap iface panic = search host_rules

  Keeps-reap_one : (iface : Iface) → Keeps P (reap_one env conf args iface)
  unfolding reap_one
  Keeps-reap_one iface = search (host_rules, Keeps-after_reap)

  Keeps-reap :
      (id : ℕ) (reaped : Bool) (ifaces : List Iface) → Keeps P (reap env conf args id reaped ifaces)
  unfolding reap
  Keeps-reap id reaped [] = search host_rules
  Keeps-reap id reaped (iface ∷ rest) =
      Keeps-bind _ _ (search (host_rules, Keeps-reap_one))
        (λ hit. Keeps-reap id (hit || reaped) rest)

  Keeps-collect_on :
      (ifaces : List Iface) (o : Option ℕ) → Keeps P (collect_on env conf args ifaces o)
  unfolding collect_on
  Keeps-collect_on ifaces none = search host_rules
  Keeps-collect_on ifaces (some id) = search (host_rules, Keeps-reap, Keeps-gc_bridge_if_empty)

  Keeps-gc_body : Keeps P (gc_body env conf args)
  unfolding gc_body
  Keeps-gc_body = search (host_rules, Keeps-collect_on)

-- Between two handlers the files that are open, and the lock, are as before.
module _ (env : Env) (conf : PluginConf) (args : CmdArgs) (files : List ℕ) where
  pub handle_add-IsIdle : Keeps (IsIdle files) (handle_add env conf args)
  unfolding handle_add
  handle_add-IsIdle = with_lock-IsIdle env files _ _ (λ P st. Keeps-add_body env conf args st)

  pub handle_del-IsIdle : Keeps (IsIdle files) (handle_del env conf args)
  unfolding handle_del
  handle_del-IsIdle = with_lock-IsIdle env files _ _ (λ P st. Keeps-del_body env conf args st)

  pub handle_check-IsIdle : Keeps (IsIdle files) (handle_check env conf args)
  unfolding handle_check
  handle_check-IsIdle = with_lock-IsIdle env files _ _ (λ P st. Keeps-check_body env conf args st)

  pub handle_gc-IsIdle : Keeps (IsIdle files) (handle_gc env conf args)
  unfolding handle_gc
  handle_gc-IsIdle = with_lock-IsIdle env files _ _ (λ P st. Keeps-gc_body env conf args st)
