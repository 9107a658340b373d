-- ===== src/Tests/OnRouter.antt =====
-- The handlers against the simulated grout.
use grout_cni.Handlers.Check.{expected_pod_ips, handle_check}
use grout_cni.Router.Checking.{IsSound, add_then_check}
use grout_cni.Lock.Granted.{IsGranted}
use grout_cni.Router.Progress.{IsWilling, IsReported}
use grout_cni.Router.Success.{handle_add_succeeds}
use grout_cni.Handlers.Common.{port_name}
use grout_cni.Router.Session.{IsPort, crossed_out, begin, add, del, Owned, Reach-Owned}
use grout_cni.Router.RoundTrip.{IsUnused, add_then_del}
use grout_cni.Grout.{type_port, Iface}
use grout_cni.Net.{to4, all_ff, and_bytes, mask_ip}
use grout_cni.Lock.{new_file_lock, lock, unlock, close, with_lock}
use grout_cni.Ipam.{
  bump_last, gateway_of, gateway_round, gateway_loop, gateways_for, point_at_first, pod_result,
}
use grout_cni.PortName.{port_prefix, grout_port_name, find_port_by_name}
use grout_cni.Base.State.{◌>>=◌}
use grout_cni.Router.Attach.{port_name-prefix, Attached}
use grout_cni.Router.Addition.{handle_add_attaches_port}
use grout_cni.Base.{
  get_or, Bytes, codes, same, Result, ok, ℕ, ◌≡◌, refl, ap, ◌∙◌, ◌≢◌, inl, inr, false, none, [],
  ◌∷◌, ◌++◌, arith,
}
use grout_cni.Host.{
  value, CniResult, iface_added, Trace, mkdir_all, open_file, ipam_add, ipam_del, interface_list,
  interface_add, interface_del, address_add, address_flush, move_link, configure_pod_iface,
  remove_file,
}
use grout_cni.Router.{In}
use grout_cni.Router.Deletion.{Detached, handle_del_detaches}
use grout_cni.Router.Collection.{Cleaned, handle_gc_collects}
use grout_cni.Bridge.{
  find_bridge_id, bridge_request, found_or_created, ensure_bridge, gc_bridge_if_empty,
}
use grout_cni.Handlers.Add.{
  add_gateways, port_request, make_socket_dir, attach_tap, finish_add, add_converted, add_body,
  handle_add,
}
use grout_cni.Handlers.Del.{delete_port, del_body, handle_del}
use grout_cni.Handlers.Gc.{handle_gc}
use grout_cni.Tests.Setting.{lan, pod, address, reserved_result, attached}
use grout_cni.Tests.Simulated.{above, held_by, addressed_by, free_none, simulated, simulated_router}

-- The bridge of `lan` was created, and then the pod's port on it.
abbrev running : Trace
running =
    iface_added (port_request simulated lan pod 4) (value 5)
    ∷ iface_added (bridge_request (codes "br-lan")) (value 4)
    ∷ []

running_bare : (id : ℕ) → addressed_by running id ≡ false
running_bare id = ground arith

handle_del_detaches_example :
    Detached simulated_router lan pod
      (λ i. In i (held_by running))
      (handle_del simulated lan pod running).0
      (handle_del simulated lan pod running).1
handle_del_detaches_example =
    handle_del_detaches simulated_router lan pod running (λ i m n. running_bare i.id)

handle_gc_collects_example :
    Cleaned simulated_router lan pod
      (λ i. In i (held_by running))
      (handle_gc simulated lan pod running).0
      (handle_gc simulated lan pod running).1
handle_gc_collects_example =
    handle_gc_collects simulated_router lan pod running (λ i m n. running_bare i.id)

-- Only an uplink is there.
abbrev uplink : Trace
uplink =
    iface_added
      (record {
        name = codes "p0";
        type = type_port;
        domain_id = 0;
        mtu = 0;
        vhost_user_path = [];
        vxlan = none;
      })
      (value 1)
    ∷ []

uplink_bare : (id : ℕ) → addressed_by uplink id ≡ false
uplink_bare id = ground arith

own_name : (suffix : Bytes) → lan.bridge ≢ port_prefix ++ suffix
own_name suffix h = omega (arith, ap (λ (b : Bytes). get_or b 0 0) h)

abbrev after_add : Trace
after_add = (handle_add simulated lan pod uplink).1

add_test : (handle_add simulated lan pod uplink).0 ≡ ok attached
unfolding handle_add with_lock new_file_lock mkdir_all open_file lock unlock close add_body ipam_add
    add_converted ensure_bridge found_or_created interface_list find_bridge_id same gateways_for
    gateway_loop gateway_round gateway_of bump_last to4 mask_ip and_bytes all_ff add_gateways
    address_add make_socket_dir interface_add finish_add pod_result point_at_first attach_tap
    move_link configure_pod_iface port_request grout_port_name ◌>>=◌
add_test = refl

handle_add_attaches_port_example :
    Attached simulated_router lan pod
      (held_by uplink)
      (handle_add simulated lan pod uplink).0
      after_add
handle_add_attaches_port_example =
    handle_add_attaches_port simulated_router lan pod uplink own_name (λ i m n. uplink_bare i.id)

added : handle_add simulated lan pod uplink ≡ (ok attached, after_add)
added = ap (λ (x : Result CniResult). (x, after_add)) add_test

abbrev after_del : Trace
after_del = (handle_del simulated lan pod after_add).1

del_test : (handle_del simulated lan pod after_add).0 ≡ ok tt
unfolding handle_del handle_add with_lock new_file_lock mkdir_all open_file lock unlock close
    add_body ipam_add add_converted ensure_bridge found_or_created interface_list find_bridge_id
    same gateways_for gateway_loop gateway_round gateway_of bump_last to4 mask_ip and_bytes all_ff
    add_gateways address_add make_socket_dir interface_add finish_add pod_result point_at_first
    attach_tap move_link configure_pod_iface port_request grout_port_name del_body find_port_by_name
    delete_port interface_del gc_bridge_if_empty address_flush ipam_del remove_file ◌>>=◌
del_test = refl

deleted : handle_del simulated lan pod after_add ≡ (ok tt, after_del)
deleted = ap (λ (x : Result (Unit {0})). (x, after_del)) del_test

add_then_del_example :
    ((i : Iface) → In i (held_by after_del) → In i (held_by uplink))
    × ((i : Iface)
        → In i (held_by uplink)
        → (¬ IsUnused (codes "br-lan") (held_by uplink) i)
        → In i (held_by after_del))
add_then_del_example =
    add_then_del simulated_router lan pod uplink after_add after_del attached tt own_name
      (λ i m n. uplink_bare i.id) added deleted

abbrev pod_port : Bytes
pod_port = port_name simulated pod

no_ports : (i : Iface) → In i (held_by uplink) → ¬ IsPort i
no_ports i (inl q) (suffix, p) =
    omega (arith, ap (λ (b : Bytes). get_or b 0 0) (ap (λ (z : Iface). z.name) q ∙ p))
no_ports i (inr m) p = absurd m

-- The pod is attached and taken off again.
Reach-Owned_example :
    Owned simulated_router (crossed_out {A = Unit {0}} (ok tt) pod_port (pod_port ∷ [])) after_del
Reach-Owned_example =
    Reach-Owned simulated_router uplink after_del
      (crossed_out {A = Unit {0}} (ok tt) pod_port (pod_port ∷ [])) no_ports
      (del lan pod (ok tt) (add lan pod (ok attached) own_name begin added) deleted)

simulated-IsGranted : IsGranted simulated
simulated-IsGranted = record {
  makes = λ path t. refl;
  opens = λ path t. (3, refl);
  acquires = λ fd t. refl;
}

-- The simulated host, which is willing.
simulated-IsWilling : IsWilling simulated_router pod (codes "{}") reserved_result
simulated-IsWilling = record {
  locks = simulated-IsGranted;
  leases = λ t. refl;
  converts = refl;
  adds = λ req t h.
      (above (held_by t), rw (free_none req.name (above (held_by t)) (held_by t) h (omega arith)));
  takes_address = λ req t. refl;
  moves = λ name netns t. refl;
  configures = λ netns host pod mtu x t. (x, refl);
}

pod_free : (i : Iface) → In i (held_by uplink) → i.name ≢ port_name simulated pod
pod_free i m p = let (suffix, e) = port_name-prefix simulated pod in no_ports i m (suffix, p ∙ e)

mask_fits : mask_ip address.address.ip address.address.mask ≢ []
unfolding mask_ip to4 and_bytes all_ff
mask_fits h = cc h

handle_add_succeeds_example :
    (x : CniResult) × ((handle_add simulated lan pod uplink).0 ≡ ok x)
    × IsReported simulated lan pod reserved_result x
handle_add_succeeds_example =
    handle_add_succeeds simulated_router lan pod uplink simulated-IsWilling own_name pod_free
      (λ i m n. uplink_bare i.id) (inr mask_fits, tt)

simulated-IsSound : IsSound simulated lan pod
unfolding expected_pod_ips
simulated-IsSound = record {
  locks = simulated-IsGranted;
  exists = λ path t. refl;
  expects = ([], refl);
  verifies = λ netns name ips t. refl;
}

add_then_check_example : (handle_check simulated lan pod after_add).0 ≡ ok tt
add_then_check_example =
    add_then_check simulated_router lan lan pod uplink after_add attached own_name
      (λ i m n. uplink_bare i.id) added simulated-IsSound
