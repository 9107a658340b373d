-- ===== src/Handlers/Check.antt =====
-- HandleCheck and expectedPodIPs of pkg/cni/handler.go.
use grout_cni.Base.{
  is_some, Bytes, same, listing_interfaces, port_missing, socket_missing, parsing_prev_result,
  converting_prev_result, expected_addresses, verifying_pod, Result, ok, bind, wrap, Option, none,
  some, List, [], ◌∷◌,
}
use grout_cni.Base.State.{State, pure, lift, wrapped, branch, guard, ◌>>=◌, ◌>>◌}
use grout_cni.Net.{IpNet}
use grout_cni.PortName.{find_port_by_name}
use grout_cni.Config.{PluginConf}
use grout_cni.Host.{
  answer, IpConfig, CmdArgs, Trace, Env, interface_list, verify_pod_iface, file_exists,
}
use grout_cni.Lock.{with_lock}
use grout_cni.Handlers.Common.{vhost_socket_path, is_virtio, port_name}

-- The addresses of the entries that are not nil.
abbrev pub addresses : List (Option IpConfig) → List IpNet
addresses [] = []
addresses (none ∷ rest) = addresses rest
addresses (some ip ∷ rest) = ip.address ∷ addresses rest

module _ (env : Env) (conf : PluginConf) (args : CmdArgs) where
  abbrev pub prev_addresses : Option Bytes → Result (List IpNet)
  prev_addresses none = ok []
  prev_addresses (some prev) =
      bind (wrap converting_prev_result (answer (env.convert prev))) (λ r. ok (addresses r.ips))

  -- expectedPodIPs
  unfoldable pub expected_pod_ips : Result (List IpNet)
  expected_pod_ips = elim conf.raw_prev_result [
    | none ↦ ok []
    | some raw ↦ bind (wrap parsing_prev_result (answer (env.parse_prev raw))) prev_addresses
  ]

  -- CHECK of a virtio attachment, and of a TAP.
  unfoldable pub check_socket : State Trace (Unit {0})
  check_socket = do
    present ← file_exists env (vhost_socket_path conf.grout_socket_path (port_name env args))
    guard present socket_missing

  unfoldable pub check_pod : State Trace (Unit {0})
  unfolding expected_pod_ips
  check_pod = do
    expected ← wrapped expected_addresses (lift expected_pod_ips)
    wrapped verifying_pod (verify_pod_iface env args.netns args.if_name expected)

  -- HandleCheck behind the lock.
  unfoldable pub check_body : State Trace (Unit {0})
  unfolding check_socket check_pod
  check_body = do
    ifaces ← wrapped listing_interfaces (interface_list env)
    guard (is_some (find_port_by_name ifaces (port_name env args))) port_missing
    branch (is_virtio conf) check_socket (branch (same args.netns []) (pure tt) check_pod)

  -- HandleCheck
  unfoldable pub handle_check : State Trace (Unit {0})
  handle_check = with_lock env conf.grout_socket_path check_body
