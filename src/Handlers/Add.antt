-- ===== src/Handlers/Add.antt =====
-- HandleAdd of pkg/cni/handler.go.
use grout_cni.Base.{
  if◌then◌else◌, same, ipam_add_stage, converting_ipam_result, converting_result, ensuring_bridge,
  bridge_address_add, vhost_socket_dir, interface_add_stage, moving_tap, configuring_pod,
  invoking_ipam, ℕ, true, none, List, [], ◌∷◌,
}
use grout_cni.Base.State.{State, pure, lift, wrapped, branch, on_error, attempt, ◌>>=◌, ◌>>◌}
use grout_cni.Base.Integer.{uint16}
use grout_cni.FilePath.{dir}
use grout_cni.Net.{IpNet}
use grout_cni.Grout.{type_tap, AddRequest}
use grout_cni.Config.{PluginConf}
use grout_cni.Host.{
  answer, CniResult, CmdArgs, Trace, Env, mkdir_all, ipam_add, ipam_del, interface_add,
  interface_del, address_add, move_link, configure_pod_iface,
}
use grout_cni.Lock.{with_lock}
use grout_cni.Bridge.{ensure_bridge}
use grout_cni.Ipam.{gateways_for, pod_result, vhost_result}
use grout_cni.Handlers.Common.{vhost_socket_path, is_virtio, port_name}

module _ (env : Env) (conf : PluginConf) (args : CmdArgs) where
  -- The loop of HandleAdd over the gateways.
  unfoldable pub add_gateways : ℕ → List IpNet → State Trace (Unit {0})
  add_gateways bridge_id [] = pure tt
  add_gateways bridge_id (gw ∷ gws) = do
    address_add env (record { iface_id = bridge_id; address = gw; exist_ok = true })
    add_gateways bridge_id gws

  -- The request for the pod's port, a member of the bridge.
  unfoldable pub port_request : ℕ → AddRequest
  port_request bridge_id = record {
    name = (port_name env args);
    type = type_tap;
    domain_id = bridge_id;
    mtu = uint16 conf.mtu;
    vhost_user_path =
        if is_virtio conf
        then vhost_socket_path conf.grout_socket_path (port_name env args)
        else [];
    vxlan = none;
  }

  unfoldable pub make_socket_dir : State Trace (Unit {0})
  make_socket_dir =
      branch (is_virtio conf)
        (mkdir_all env (dir (vhost_socket_path conf.grout_socket_path (port_name env args))))
        (pure tt)

  -- cleanupAfterAddFailure
  unfoldable pub cleanup_after_add_failure : ℕ → State Trace (Unit {0})
  cleanup_after_add_failure iface_id = do attempt (interface_del env iface_id); ipam_del env args

  -- The TAP's way into the pod's namespace.
  unfoldable pub attach_tap : ℕ → CniResult → State Trace CniResult
  attach_tap iface_id pod_res = on_error (cleanup_after_add_failure iface_id) do
    wrapped moving_tap (move_link env (port_name env args) args.netns)
    wrapped configuring_pod
        (configure_pod_iface env args.netns (port_name env args) args.if_name conf.mtu pod_res)

  -- What HandleAdd does once the port is there.
  unfoldable pub finish_add : CniResult → ℕ → State Trace CniResult
  unfolding attach_tap
  finish_add ipam iface_id =
      branch (is_virtio conf)
        (lift
          (vhost_result args ipam (vhost_socket_path conf.grout_socket_path (port_name env args))))
        do
          pod_res ← lift (pod_result args ipam)
          branch (same args.netns []) (pure pod_res) (attach_tap iface_id pod_res)

  -- What HandleAdd does with the converted IPAM result.
  unfoldable pub add_converted : CniResult → State Trace CniResult
  unfolding finish_add
  add_converted ipam = do
    bridge_id ←
        on_error (ipam_del env args) (wrapped ensuring_bridge (ensure_bridge env conf.bridge))
    gws ← lift (gateways_for ipam)
    on_error (ipam_del env args) (wrapped bridge_address_add (add_gateways bridge_id gws))
    on_error (ipam_del env args) (wrapped vhost_socket_dir make_socket_dir)
    iface_id ←
        on_error (ipam_del env args)
          (wrapped interface_add_stage (interface_add env (port_request bridge_id)))
    finish_add ipam iface_id

  -- HandleAdd behind the lock.
  unfoldable pub add_body : State Trace CniResult
  unfolding add_converted
  add_body = do
    raw ← wrapped ipam_add_stage (wrapped invoking_ipam (ipam_add env args))
    ipam ←
        wrapped converting_ipam_result (wrapped converting_result (lift (answer (env.convert raw))))
    add_converted ipam

  -- HandleAdd
  unfoldable pub handle_add : State Trace CniResult
  handle_add = with_lock env conf.grout_socket_path add_body
