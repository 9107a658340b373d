-- ===== src/Remote/Handlers.antt =====
-- The handlers of pkg/cni/handler.go, with one client behind GroutClient and with another.
use grout_cni.Base.{
  Bytes, creating_lock, acquiring_lock, Error, Result, ok, err, panic, ℕ, Bool, false, ◌||◌, Option,
  none, some, List, [], ◌∷◌,
}
use grout_cni.Base.State.{State, pure, branch}
use grout_cni.Grout.{Iface}
use grout_cni.Net.{IpNet}
use grout_cni.Config.{PluginConf}
use grout_cni.Host.{CniResult, CmdArgs, Trace, Env, interface_add}
use grout_cni.Lock.{new_file_lock, with_lock}
use grout_cni.Bridge.{
  Verdict, keep, collect, reuse_bridge, created_or_reused, found_or_created, ensure_bridge,
  collect_bridge, scan_and_collect, gc_bridge_if_empty,
}
use grout_cni.Handlers.Common.{remove_vhost_socket}
use grout_cni.Handlers.Add.{
  add_gateways, port_request, make_socket_dir, cleanup_after_add_failure, attach_tap, finish_add,
  add_converted, add_body, handle_add,
}
use grout_cni.Handlers.Del.{delete_port, del_body, handle_del}
use grout_cni.Handlers.Check.{expected_pod_ips, check_socket, check_pod, check_body, handle_check}
use grout_cni.Handlers.Gc.{is_stale, after_reap, reap_one, reap, collect_on, gc_body, handle_gc}
use grout_cni.Remote.{GroutClient, with_client, Answered}
use grout_cni.Remote.Sim.{
  Sim, Sim-pure, Sim-wrapped, Sim-branch, Sim-on_error, Sim-finally, Sim-bind,
}
use grout_cni.Remote.Calls.{
  Sim-lock, Sim-unlock, Sim-close, Sim-interface_add, Sim-address_add, call_rules,
}

module _ (env : Env) (g : GroutClient) where
  abbrev pub SameRun : {A : Type 0} → (Env → State Trace A) → Type 0
  SameRun m = Sim (Answered g) (m env) (m (with_client env g))

  Sim-reuse_bridge :
      (name : Bytes) (e : Error) (r : Result (List Iface))
      → SameRun λ env. reuse_bridge env name e r
  unfolding reuse_bridge
  Sim-reuse_bridge name e (ok ifaces) = search call_rules
  Sim-reuse_bridge name e (err x) = search call_rules
  Sim-reuse_bridge name e panic = search call_rules

  Sim-created_or_reused :
      (name : Bytes) (r : Result ℕ) → SameRun λ env. created_or_reused env name r
  unfolding created_or_reused
  Sim-created_or_reused name (ok id) = search call_rules
  Sim-created_or_reused name (err e) = search (call_rules, Sim-reuse_bridge)
  Sim-created_or_reused name panic = search call_rules

  Sim-found_or_created : (name : Bytes) (o : Option ℕ) → SameRun λ env. found_or_created env name o
  unfolding found_or_created
  Sim-found_or_created name (some id) = search call_rules
  Sim-found_or_created name none = search (call_rules, Sim-created_or_reused)

  Sim-ensure_bridge : (name : Bytes) → SameRun λ env. ensure_bridge env name
  unfolding ensure_bridge
  Sim-ensure_bridge name = search (call_rules, Sim-found_or_created)

  Sim-collect_bridge : (id : ℕ) (v : Verdict) → SameRun λ env. collect_bridge env id v
  unfolding collect_bridge
  Sim-collect_bridge id keep = search call_rules
  Sim-collect_bridge id collect = search call_rules

  Sim-scan_and_collect :
      (id : ℕ) (r : Result (List Iface)) → SameRun λ env. scan_and_collect env id r
  unfolding scan_and_collect
  Sim-scan_and_collect id (ok ifaces) = search (call_rules, Sim-collect_bridge)
  Sim-scan_and_collect id (err e) = search call_rules
  Sim-scan_and_collect id panic = search call_rules

  Sim-gc_bridge_if_empty : (id : ℕ) → SameRun λ env. gc_bridge_if_empty env id
  unfolding gc_bridge_if_empty
  Sim-gc_bridge_if_empty id = search (call_rules, Sim-scan_and_collect)

  Sim-new_file_lock : (path : Bytes) → SameRun λ env. new_file_lock env path
  unfolding new_file_lock
  Sim-new_file_lock path = search call_rules

  Sim-with_lock :
      {A : Type 0} (path : Bytes) (m n : State Trace A)
      → Sim (Answered g) m n
      → Sim (Answered g) (with_lock env path m) (with_lock (with_client env g) path n)
  unfolding with_lock
  Sim-with_lock path m n k =
      Sim-bind _ _ _ _ (Sim-wrapped creating_lock _ _ (Sim-new_file_lock _)) λ fd.
        Sim-bind _ _ _ _
          (Sim-on_error _ _ _ _ (Sim-close env g fd)
            (Sim-wrapped acquiring_lock _ _ (Sim-lock env g fd)))
          λ _.
            Sim-finally _ _ m n (Sim-bind _ _ _ _ (Sim-unlock env g fd) (λ _. Sim-close env g fd)) k

module _ (env : Env) (g : GroutClient) (conf : PluginConf) (args : CmdArgs) where
  Sim-add_gateways :
      (id : ℕ) (gws : List IpNet) → SameRun env g λ env. add_gateways env conf args id gws
  unfolding add_gateways
  Sim-add_gateways id [] = search call_rules
  Sim-add_gateways id (gw ∷ gws) =
      Sim-bind _ _ _ _ (Sim-address_add env g _) (λ _. Sim-add_gateways id gws)

  Sim-make_socket_dir : SameRun env g λ env. make_socket_dir env conf args
  unfolding make_socket_dir
  Sim-make_socket_dir = search call_rules

  Sim-cleanup : (id : ℕ) → SameRun env g λ env. cleanup_after_add_failure env conf args id
  unfolding cleanup_after_add_failure
  Sim-cleanup id = search call_rules

  Sim-attach_tap : (id : ℕ) (r : CniResult) → SameRun env g λ env. attach_tap env conf args id r
  unfolding attach_tap
  Sim-attach_tap id r = search (call_rules, Sim-cleanup)

  Sim-finish_add : (r : CniResult) (id : ℕ) → SameRun env g λ env. finish_add env conf args r id
  unfolding finish_add
  Sim-finish_add r id = search (call_rules, Sim-attach_tap)

  Sim-port : (b : ℕ) → SameRun env g λ env. interface_add env (port_request env conf args b)
  unfolding port_request
  Sim-port b = Sim-interface_add env g _

  Sim-add_converted : (r : CniResult) → SameRun env g λ env. add_converted env conf args r
  unfolding add_converted
  Sim-add_converted r =
      search
        (
          call_rules, Sim-ensure_bridge, Sim-add_gateways, Sim-make_socket_dir, Sim-port,
          Sim-finish_add,
        )
        depth 12

  Sim-add_body : SameRun env g λ env. add_body env conf args
  unfolding add_body
  Sim-add_body = search (call_rules, Sim-add_converted) depth 8

  Sim-remove_vhost_socket : (name : Bytes) → SameRun env g λ env. remove_vhost_socket env conf name
  unfolding remove_vhost_socket
  Sim-remove_vhost_socket name = search call_rules

  Sim-delete_port : (o : Option Iface) → SameRun env g λ env. delete_port env conf args o
  unfolding delete_port
  Sim-delete_port none = search call_rules
  Sim-delete_port (some port) = search (call_rules, Sim-gc_bridge_if_empty)

  Sim-del_body : SameRun env g λ env. del_body env conf args
  unfolding del_body
  Sim-del_body = search (call_rules, Sim-delete_port)

  Sim-check_pod : SameRun env g λ env. check_pod env conf args
  unfolding check_pod expected_pod_ips
  Sim-check_pod = search call_rules

  Sim-check_socket : SameRun env g λ env. check_socket env conf args
  unfolding check_socket
  Sim-check_socket = search call_rules

  Sim-check_body : SameRun env g λ env. check_body env conf args
  unfolding check_body
  Sim-check_body = search (call_rules, Sim-check_pod, Sim-check_socket) depth 8

  Sim-after_reap :
      (iface : Iface) (r : Result (Unit {0}))
      → SameRun env g λ env. after_reap env conf args iface r
  Sim-after_reap iface (ok u) = search (call_rules, Sim-remove_vhost_socket)
  Sim-after_reap iface (err e) = search call_rules
  Sim-after_reap iface panic = search call_rules

  Sim-reap_one : (iface : Iface) → SameRun env g λ env. reap_one env conf args iface
  unfolding reap_one
  Sim-reap_one iface = search (call_rules, Sim-after_reap)

  Sim-stale :
      (id : ℕ) (iface : Iface)
      → SameRun env g λ env.
        branch (is_stale env conf args id iface) (reap_one env conf args iface) (pure false)
  unfolding is_stale
  Sim-stale id iface = Sim-branch _ _ _ _ _ (Sim-reap_one iface) (Sim-pure false)

  Sim-reap :
      (id : ℕ) (reaped : Bool) (ifaces : List Iface)
      → SameRun env g λ env. reap env conf args id reaped ifaces
  unfolding reap
  Sim-reap id reaped [] = search call_rules
  Sim-reap id reaped (iface ∷ rest) =
      Sim-bind _ _ _ _ (Sim-stale id iface) (λ hit. Sim-reap id (hit || reaped) rest)

  Sim-collect_on :
      (ifaces : List Iface) (o : Option ℕ) → SameRun env g λ env. collect_on env conf args ifaces o
  unfolding collect_on
  Sim-collect_on ifaces none = search call_rules
  Sim-collect_on ifaces (some id) = search (call_rules, Sim-reap, Sim-gc_bridge_if_empty)

  Sim-gc_body : SameRun env g λ env. gc_body env conf args
  unfolding gc_body
  Sim-gc_body = search (call_rules, Sim-collect_on)

  pub Sim-handle_add : SameRun env g λ env. handle_add env conf args
  unfolding handle_add
  Sim-handle_add = Sim-with_lock env g _ _ _ Sim-add_body

  pub Sim-handle_del : SameRun env g λ env. handle_del env conf args
  unfolding handle_del
  Sim-handle_del = Sim-with_lock env g _ _ _ Sim-del_body

  pub Sim-handle_check : SameRun env g λ env. handle_check env conf args
  unfolding handle_check
  Sim-handle_check = Sim-with_lock env g _ _ _ Sim-check_body

  pub Sim-handle_gc : SameRun env g λ env. handle_gc env conf args
  unfolding handle_gc
  Sim-handle_gc = Sim-with_lock env g _ _ _ Sim-gc_body
