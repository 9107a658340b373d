-- ===== src/Handlers/Checking.antt =====
-- HandleCheck of pkg/cni/handler.go: when it succeeds.
use mathlib.Core.Bool.{false≢true}
use grout_cni.Base.{
  is_some, Bytes, same, same→eq, eq→same, listing_interfaces, port_missing, socket_missing,
  expected_addresses, verifying_pod, Result, ok, err, panic, wrap, ◌≡◌, refl, sym, ◌∙◌, ◌≢◌, ◌↔◌,
  ◌⊎◌, inl, inr, Bool, true, false, List, [], ◌∷◌, arith,
}
use grout_cni.Base.State.{State, pure, wrapped, branch, guard, continue, ◌>>=◌, ◌>>◌}
use grout_cni.Host.{
  Reply, value, failed, answer, CmdArgs, listed, file_looked_up, Trace, Env, interface_list,
  verify_pod_iface, file_exists,
}
use grout_cni.Grout.{Iface}
use grout_cni.Config.{PluginConf, interface_type_virtio}
use grout_cni.Net.{IpNet}
use grout_cni.PortName.{find_port_by_name}
use grout_cni.Bridge.Collect.{Any}
use grout_cni.Handlers.Common.{vhost_socket_path, is_virtio, port_name}
use grout_cni.Handlers.Check.{expected_pod_ips, check_socket, check_pod, check_body}

find_port-Any :
    (ifaces : List Iface) (name : Bytes)
    → is_some (find_port_by_name ifaces name) ≡ true
    → Any (λ i. i.name ≡ name) ifaces
unfolding find_port_by_name
find_port-Any [] name h = ground arith
find_port-Any (i ∷ is) name h = ground (arith, same→eq i.name name, find_port-Any is name)

Any-find_port :
    (ifaces : List Iface) (name : Bytes)
    → Any (λ i. i.name ≡ name) ifaces
    → is_some (find_port_by_name ifaces name) ≡ true
unfolding find_port_by_name
Any-find_port [] name h = absurd h
Any-find_port (i ∷ is) name h = ground (arith, eq→same i.name name, Any-find_port is name)

module _ (env : Env) (conf : PluginConf) (args : CmdArgs) where
  -- What CHECK wants of a virtio attachment, and of a TAP, once it has seen the port.
  abbrev pub IsConnected : Trace → Type 0
  IsConnected seen =
      ((conf.interface_type ≡ interface_type_virtio)
        × (env.stat (vhost_socket_path conf.grout_socket_path (port_name env args)) seen ≡ true))
      ⊎ ((conf.interface_type ≢ interface_type_virtio)
          × ((args.netns ≡ [])
              ⊎ ((ips : List IpNet) × (expected_pod_ips env conf args ≡ ok ips)
                  × (env.verify args.netns args.if_name ips seen ≡ value tt))))

  abbrev pub IsIntact : Trace → Type 0
  IsIntact t =
      (ifaces : List Iface) × (env.list_all t ≡ value ifaces)
      × Any (λ i. i.name ≡ port_name env args) ifaces
      × IsConnected (listed (value ifaces) ∷ t)

  check_socket_iff :
      (t : Trace)
      → ((check_socket env conf args t).0 ≡ ok tt)
        ↔ (env.stat (vhost_socket_path conf.grout_socket_path (port_name env args)) t ≡ true)
  unfolding check_socket file_exists ◌>>=◌
  check_socket_iff t =
      step (env.stat (vhost_socket_path conf.grout_socket_path (port_name env args)) t)
    where
      after : Bool → Result (Unit {0}) × Trace
      after b =
          guard b socket_missing
            (file_looked_up (vhost_socket_path conf.grout_socket_path (port_name env args)) b ∷ t)

      step : (b : Bool) → ((after b).0 ≡ ok tt) ↔ (b ≡ true)
      step true = (λ h. refl, λ h. refl)
      step false = (λ h. cc h, λ h. absurd (false≢true h))

  -- What verifying makes of the expected addresses.
  abbrev IsVerified : Result (List IpNet) → Trace → Type 0
  IsVerified r t =
      (ips : List IpNet) × (r ≡ ok ips) × (env.verify args.netns args.if_name ips t ≡ value tt)

  check_pod_iff :
      (t : Trace)
      → ((check_pod env conf args t).0 ≡ ok tt) ↔ IsVerified (expected_pod_ips env conf args) t
  unfolding check_pod verify_pod_iface ◌>>=◌
  check_pod_iff t = step (expected_pod_ips env conf args)
    where
      verified :
          (ips : List IpNet) (r : Reply (Unit {0}))
          → (wrap verifying_pod (answer r) ≡ ok tt) ↔ (r ≡ value tt)
      verified ips (value u) = (λ h. refl, λ h. refl)
      verified ips (failed e) = (λ h. cc h, λ h. cc h)

      after : Result (List IpNet) → Result (Unit {0})
      after r =
          (continue (wrap expected_addresses r)
            (λ ips. wrapped verifying_pod (verify_pod_iface env args.netns args.if_name ips)) t).0

      step : (r : Result (List IpNet)) → (after r ≡ ok tt) ↔ IsVerified r t
      step (ok ips) =
          let v = verified ips (env.verify args.netns args.if_name ips t) in
          (λ h. (ips, refl, v.0 h), λ (ips', e, h). v.1 (cc (e, h)))
      step (err e) = (λ h. cc h, λ (ips, p, h). cc p)
      step panic = (λ h. cc h, λ (ips, p, h). cc p)

  abbrev connected : Bool → Bool → State Trace (Unit {0})
  connected virtio no_netns =
      branch virtio (check_socket env conf args)
        (branch no_netns (pure tt) (check_pod env conf args))

  connected_iff :
      (virtio no_netns : Bool) (t : Trace)
      → is_virtio conf ≡ virtio
      → same args.netns [] ≡ no_netns
      → ((connected virtio no_netns t).0 ≡ ok tt) ↔ IsConnected t
  unfolding branch pure
  connected_iff true no_netns t v n =
      let e = same→eq conf.interface_type interface_type_virtio v in
      (
        λ h. inl (e, (check_socket_iff t).0 h),
        λ h. elim h [
          | inl (_, stat) ↦ (check_socket_iff t).1 stat
          | inr (other, _) ↦ absurd (other e)
        ],
      )
  connected_iff false true t v n =
      let other : conf.interface_type ≢ interface_type_virtio =
        λ e. ground (arith, eq→same conf.interface_type interface_type_virtio) in
      (λ h. inr (other, inl (same→eq args.netns [] n)), λ h. refl)
  connected_iff false false t v n =
      let other : conf.interface_type ≢ interface_type_virtio =
        λ e. ground (arith, eq→same conf.interface_type interface_type_virtio) in
      (
        λ h. inr (other, inr ((check_pod_iff t).0 h)),
        λ h. elim h [
          | inl (e, _) ↦ absurd (other e)
          | inr (_, inl e) ↦ ground (arith, eq→same args.netns [])
          | inr (_, inr h') ↦ (check_pod_iff t).1 h'
        ],
      )

  -- CHECK behind the lock succeeds exactly if grout's list can be read and shows a port of the
  -- attachment's name, and then, for virtio, its socket is there, and for a TAP, with a network
  -- namespace given, the addresses of the previous result can be determined and the pod's interface
  -- verifies against just these.
  pub check_body_iff : (t : Trace) → ((check_body env conf args t).0 ≡ ok tt) ↔ IsIntact t
  unfolding check_body interface_list ◌>>=◌
  check_body_iff t = step (env.list_all t) refl
    where
      rest : List Iface → State Trace (Unit {0})
      rest ifaces = do
        guard (is_some (find_port_by_name ifaces (port_name env args))) port_missing
        connected (is_virtio conf) (same args.netns [])

      after : Reply (List Iface) → Result (Unit {0})
      after r = (continue (wrap listing_interfaces (answer r)) rest (listed r ∷ t)).0

      decide :
          (ifaces : List Iface) (b : Bool)
          → is_some (find_port_by_name ifaces (port_name env args)) ≡ b
          → env.list_all t ≡ value ifaces
          → ((((guard b port_missing) >> (connected (is_virtio conf) (same args.netns [])))
                (listed (value ifaces) ∷ t)).0
              ≡ ok tt)
            ↔ IsIntact t
      decide ifaces true b e =
          let c =
            connected_iff (is_virtio conf) (same args.netns []) (listed (value ifaces) ∷ t) refl
              refl in
          (
            λ h. (ifaces, e, find_port-Any ifaces (port_name env args) b, c.0 h),
            λ (ifaces', e', _, h). let q : ifaces' ≡ ifaces = cc (e, e') in c.1 (rw q at h),
          )
      decide ifaces false b e = (
        λ h. cc h,
        λ (ifaces', e', h, _).
            let q : ifaces' ≡ ifaces = cc (e, e') in
            let k = Any-find_port ifaces (port_name env args) (rw q at h) in
            absurd (false≢true (sym b ∙ k)),
      )

      step : (r : Reply (List Iface)) → env.list_all t ≡ r → (after r ≡ ok tt) ↔ IsIntact t
      step (value ifaces) e =
          decide ifaces (is_some (find_port_by_name ifaces (port_name env args))) refl e
      step (failed x) e = (λ h. cc h, λ (ifaces, p, _, _). cc (e, p))
