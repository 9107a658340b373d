-- ===== src/Tests/OnHandlers.antt =====
-- The handlers, the bridge and the commands at concrete inputs.
use grout_cni.Lock.Failing.{NoFile, NoLock, Wrapped, with_lock_lem}
use grout_cni.Handlers.Granting.{IsGranted, handle_add_attaches}
use grout_cni.Handlers.Rollback.Ledger.{Settled}
use grout_cni.PortName.{port_prefix}
use grout_cni.Handlers.Check.{check_body}
use grout_cni.Handlers.Checking.{IsIntact, check_body_iff}
use grout_cni.Handlers.Staleness.{IsUnknown, is_stale_iff}
use grout_cni.Ipam.Choice.{first_of, IsGatewayOf, gateways_for_lem}
use grout_cni.Net.{IpNet, to4, all_ff, and_bytes, mask_ip}
use grout_cni.Lock.{new_file_lock, lock, unlock, close, with_lock}
use grout_cni.Ipam.{
  bump_last, gateway_of, gateway_round, gateway_loop, gateways_for, point_at_first, pod_result,
}
use grout_cni.Base.{
  Bytes, codes, same, Result, ok, ◌≡◌, refl, ap, ◌↔◌, ◌⊎◌, true, false, List, [], ◌∷◌, ◌++◌,
}
use grout_cni.Base.State.{◌>>=◌}
use grout_cni.Config.{PluginConf}
use grout_cni.Host.{
  value, CniResult, listed, Trace, mkdir_all, open_file, ipam_add, interface_list, interface_add,
  address_add, move_link, configure_pod_iface,
}
use grout_cni.Bridge.{find_bridge_id, found_or_created, ensure_bridge, gc_bridge_if_empty}
use grout_cni.Bridge.Collect.{Collected, gc_bridge_if_empty_lem}
use grout_cni.Bridge.Ensure.{WasListed, WasCreated, WasReused, ensure_bridge_lem}
use grout_cni.Lock.Discipline.{IsIdle}
use grout_cni.Handlers.Add.{
  add_gateways, make_socket_dir, attach_tap, finish_add, add_converted, add_body, handle_add,
}
use grout_cni.Handlers.Del.{del_body}
use grout_cni.Handlers.Gc.{is_stale, gc_body}
use grout_cni.Handlers.Rollback.{handle_add_settles}
use grout_cni.Handlers.Deletion.{Deleted, del_body_lem}
use grout_cni.Handlers.Reaping.{Reaped, gc_body_lem}
use grout_cni.Main.{cni_add, command}
use grout_cni.Main.Locking.{command-IsIdle}
use grout_cni.Tests.Setting.{lan, pod, bridge, port, reserved_result, attached, willing}

-- With the bridge in place, an ADD takes a lease, puts the gateway on the bridge and creates a port.
add_test : (handle_add (willing (bridge ∷ [])) lan pod []).0 ≡ ok attached
unfolding handle_add with_lock new_file_lock mkdir_all open_file lock unlock close add_body ipam_add
    add_converted ensure_bridge found_or_created interface_list find_bridge_id same gateways_for
    gateway_loop gateway_round gateway_of bump_last to4 mask_ip and_bytes all_ff add_gateways
    address_add make_socket_dir interface_add finish_add pod_result point_at_first attach_tap
    move_link configure_pod_iface ◌>>=◌
add_test = refl

abbrev attaching : Trace
attaching = (handle_add (willing (bridge ∷ [])) lan pod []).1

attaching_returns : handle_add (willing (bridge ∷ [])) lan pod [] ≡ (ok attached, attaching)
attaching_returns = ap (λ (r : Result CniResult). (r, attaching)) add_test

handle_add_attaches_example : IsGranted (willing (bridge ∷ [])) lan pod attaching
handle_add_attaches_example =
    handle_add_attaches (willing (bridge ∷ [])) lan pod attached [] attaching attaching_returns

handle_add_settles_example :
    Settled []
      (handle_add (willing (bridge ∷ [])) lan pod []).0
      (handle_add (willing (bridge ∷ [])) lan pod []).1
handle_add_settles_example = handle_add_settles (willing (bridge ∷ [])) lan pod []

del_body_lem_example :
    Deleted
      (willing (bridge ∷ port ∷ []))
      lan
      pod
      []
      (del_body (willing (bridge ∷ port ∷ [])) lan pod []).0
      (del_body (willing (bridge ∷ port ∷ [])) lan pod []).1
del_body_lem_example = del_body_lem (willing (bridge ∷ port ∷ [])) lan pod []

gc_body_lem_example :
    Reaped
      (willing (bridge ∷ port ∷ []))
      lan
      pod
      []
      (gc_body (willing (bridge ∷ port ∷ [])) lan pod []).0
      (gc_body (willing (bridge ∷ port ∷ [])) lan pod []).1
gc_body_lem_example = gc_body_lem (willing (bridge ∷ port ∷ [])) lan pod []

gc_bridge_if_empty_lem_example :
    ((gc_bridge_if_empty (willing (bridge ∷ [])) 4 []).0 ≡ ok tt)
    × Collected (willing (bridge ∷ [])) 4 [] (gc_bridge_if_empty (willing (bridge ∷ [])) 4 []).1
gc_bridge_if_empty_lem_example = gc_bridge_if_empty_lem (willing (bridge ∷ [])) 4 []

abbrev after_list : Trace
after_list = listed (value (bridge ∷ [])) ∷ []

ensured : ensure_bridge (willing (bridge ∷ [])) (codes "br-lan") [] ≡ (ok 4, after_list)
unfolding ensure_bridge interface_list find_bridge_id same ◌>>=◌
ensured = refl

ensure_bridge_lem_example :
    WasListed (willing (bridge ∷ [])) (codes "br-lan") 4 [] after_list
    ⊎ (WasCreated (willing (bridge ∷ [])) (codes "br-lan") 4 [] after_list
        ⊎ WasReused (willing (bridge ∷ [])) (codes "br-lan") 4 [] after_list)
ensure_bridge_lem_example =
    ensure_bridge_lem (willing (bridge ∷ [])) (codes "br-lan") 4 [] after_list ensured

IsIdle-nil : IsIdle [] []
IsIdle-nil = record { serialized = tt; free = refl; open_as = refl }

abbrev decoded : Bytes → PluginConf → Result PluginConf
decoded text conf = ok lan

command-IsIdle_example :
    IsIdle [] (command (willing (bridge ∷ [])) decoded (λ path. value tt) cni_add pod []).1
command-IsIdle_example =
    command-IsIdle (willing (bridge ∷ [])) decoded (λ path. value tt) [] cni_add pod [] IsIdle-nil

is_stale_iff_example : (is_stale (willing (bridge ∷ port ∷ [])) lan pod 4 port ≡ true) ↔ (
    (port.domain ≡ 4)
    × ((suffix : Bytes) × (port.name ≡ port_prefix ++ suffix))
    × IsUnknown (willing (bridge ∷ port ∷ [])) lan pod port.name lan.valid_attachments)
is_stale_iff_example = is_stale_iff (willing (bridge ∷ port ∷ [])) lan pod 4 port

check_body_iff_example :
    ((check_body (willing (bridge ∷ port ∷ [])) lan pod []).0 ≡ ok tt)
    ↔ IsIntact (willing (bridge ∷ port ∷ [])) lan pod []
check_body_iff_example = check_body_iff (willing (bridge ∷ port ∷ [])) lan pod []

-- The lease names no gateway: the first host of its subnet is chosen.
abbrev subnet_gateway : IpNet
subnet_gateway = record { ip = 10 ∷ 0 ∷ 0 ∷ 1 ∷ []; mask = 255 ∷ 255 ∷ 255 ∷ 0 ∷ [] }

gateway_test : gateways_for reserved_result ≡ ok (subnet_gateway ∷ [])
unfolding gateways_for gateway_loop gateway_round gateway_of bump_last to4 mask_ip and_bytes all_ff
    same
gateway_test = refl

gateways_for_lem_example :
    (l4 : List IpNet) × (l6 : List IpNet) × IsGatewayOf (first_of true reserved_result.ips) l4
    × IsGatewayOf (first_of false reserved_result.ips) l6
    × ((subnet_gateway ∷ [] ≡ l4 ++ l6) ⊎ (subnet_gateway ∷ [] ≡ l6 ++ l4))
gateways_for_lem_example = gateways_for_lem reserved_result (subnet_gateway ∷ []) gateway_test

abbrev after_gc : Result (Unit {0}) × Trace
after_gc = with_lock (willing []) lan.grout_socket_path (gc_body (willing []) lan pod) []

with_lock_lem_example :
    NoFile
      (willing [])
      lan.grout_socket_path
      (gc_body (willing []) lan pod)
      []
      after_gc.0
      after_gc.1
    ⊎ (NoLock
          (willing [])
          lan.grout_socket_path
          (gc_body (willing []) lan pod)
          []
          after_gc.0
          after_gc.1
        ⊎ Wrapped
            (willing [])
            lan.grout_socket_path
            (gc_body (willing []) lan pod)
            []
            after_gc.0
            after_gc.1)
with_lock_lem_example =
    with_lock_lem (willing []) lan.grout_socket_path (gc_body (willing []) lan pod) []
