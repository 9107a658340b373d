-- ===== src/Handlers/Gc.antt =====
-- HandleGC of pkg/cni/handler.go.
use grout_cni.Base.{
  ◌==◌, Bytes, has_prefix, mem_bytes, gc_listing, Result, ok, err, panic, ℕ, Bool, true, false,
  ◌&&◌, ◌||◌, not, Option, none, some, List, [], ◌∷◌,
}
use grout_cni.Base.State.{State, pure, lift, wrapped, branch, attempt, ◌>>=◌, ◌>>◌}
use grout_cni.Grout.{Iface}
use grout_cni.PortName.{port_prefix, grout_port_name}
use grout_cni.Config.{Attachment, PluginConf}
use grout_cni.Host.{CmdArgs, Trace, Env, gc_ipam, interface_list, interface_del}
use grout_cni.Lock.{with_lock}
use grout_cni.Bridge.{find_bridge_id, gc_bridge_if_empty}
use grout_cni.Handlers.Common.{remove_vhost_socket}

module _ (env : Env) (conf : PluginConf) (args : CmdArgs) where
  -- The keys of the map of valid port names.
  abbrev pub valid_names : List Attachment → List Bytes
  valid_names [] = []
  valid_names (a ∷ rest) = grout_port_name env.sha256 a.container_id a.if_name ∷ valid_names rest

  -- A port that HandleGC reaps: a member of the bridge with the prefix, and not a valid one.
  unfoldable pub is_stale : ℕ → Iface → Bool
  is_stale bridge_id iface =
      iface.domain == bridge_id
      && has_prefix iface.name port_prefix
      && not (mem_bytes iface.name (valid_names conf.valid_attachments))

  abbrev pub after_reap : Iface → Result (Unit {0}) → State Trace Bool
  after_reap iface (ok u) = do remove_vhost_socket env conf iface.name; pure true
  after_reap iface (err e) = pure false
  after_reap iface panic = lift panic

  unfoldable pub reap_one : Iface → State Trace Bool
  unfolding remove_vhost_socket
  reap_one iface = do deleted ← attempt (interface_del env iface.id); after_reap iface deleted

  -- The loop of HandleGC, with the flag `reaped`.
  unfoldable pub reap : ℕ → Bool → List Iface → State Trace Bool
  unfolding is_stale reap_one
  reap bridge_id reaped [] = pure reaped
  reap bridge_id reaped (iface ∷ rest) = do
    hit ← branch (is_stale bridge_id iface) (reap_one iface) (pure false)
    reap bridge_id (hit || reaped) rest

  unfoldable pub collect_on : List Iface → Option ℕ → State Trace (Unit {0})
  unfolding reap
  collect_on ifaces none = gc_ipam env args
  collect_on ifaces (some bridge_id) = do
    reaped ← reap bridge_id false ifaces
    branch reaped (gc_bridge_if_empty env bridge_id) (pure tt)
    gc_ipam env args

  -- HandleGC behind the lock.
  unfoldable pub gc_body : State Trace (Unit {0})
  unfolding collect_on
  gc_body = do
    ifaces ← wrapped gc_listing (interface_list env)
    collect_on ifaces (find_bridge_id ifaces conf.bridge)

  -- HandleGC
  unfoldable pub handle_gc : State Trace (Unit {0})
  handle_gc = with_lock env conf.grout_socket_path gc_body
