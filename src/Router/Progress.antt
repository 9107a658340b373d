-- ===== src/Router/Progress.antt =====
-- HandleAdd of pkg/cni/handler.go on a host where the calls that it makes succeed.
use grout_cni.Lock.Granted.{IsGranted}
use grout_cni.Net.{IpNet}
use grout_cni.Ipam.{pod_result, vhost_result}
use grout_cni.Router.Ensure.{Based}
use grout_cni.Router.Attach.{port_name-prefix}
use grout_cni.Handlers.Add.{add_gateways, port_request, make_socket_dir}
use grout_cni.FilePath.{dir}
use grout_cni.Base.{
  Bytes, same, external, ok, ℕ, ◌≡◌, refl, sym, ap, ◌∙◌, ◌≢◌, ◌⊎◌, inl, inr, Bool, true, false,
  Option, none, some, List, [], ◌∷◌, ◌++◌,
}
use grout_cni.Base.State.{pure, lift, branch, reify, continue, ◌>>=◌, bind-ok}
use grout_cni.Base.Integer.{ℤ}
use grout_cni.Grout.{Iface, AddRequest, AddressRequest}
use grout_cni.PortName.{port_prefix}
use grout_cni.Host.{
  Reply, value, failed, answer, CniResult, CmdArgs, listed, iface_added, Trace, Env, mkdir_all,
  interface_list, interface_add, address_add, move_link,
}
use grout_cni.Config.{PluginConf}
use grout_cni.Bridge.{
  find_bridge_id, find_by_name, bridge_request, id_or_error, reuse_bridge, created_or_reused,
  found_or_created, ensure_bridge,
}
use grout_cni.Bridge.Ensure.{find_by_name-none}
use grout_cni.Router.{In, Router}
use grout_cni.Router.Views.{All-In}
use grout_cni.Router.Bare.{At, At-kept}
use grout_cni.Handlers.Common.{vhost_socket_path, is_virtio, port_name}

-- The lock can be had, the IPAM plugin has a lease whose result converts, grout takes new names and
-- any address, and the port can be moved and configured.
pub record IsWilling {env : Env} (r : Router env) (args : CmdArgs) (raw : Bytes) (ipam : CniResult)
    : Type 0 where
  pub locks : IsGranted env
  pub leases : (t : Trace) → env.add_ipam args.stdin_data t ≡ value raw
  pub converts : env.convert raw ≡ value ipam
  pub adds :
      (req : AddRequest) (t : Trace)
      → ((i : Iface) → In i (r.held t) → i.name ≢ req.name)
      → (id : ℕ) × (env.add_iface req t ≡ value id)
  pub takes_address : (req : AddressRequest) (t : Trace) → env.add_address req t ≡ value tt
  pub moves : (name netns : Bytes) (t : Trace) → env.move name netns t ≡ value tt
  pub configures :
      (netns host pod : Bytes) (mtu : ℤ) (x : CniResult) (t : Trace)
      → (y : CniResult) × (env.configure netns host pod mtu x t ≡ value y)

module _ (env : Env) (conf : PluginConf) (args : CmdArgs) (ipam : CniResult) where
  -- What ADD reports: the socket of a virtio attachment; else the pod's interface, as it is when there
  -- is no network namespace, and as its configuration leaves it when there is one.
  abbrev pub IsReported : CniResult → Type 0
  IsReported x =
      ((is_virtio conf ≡ true)
        × (vhost_result args ipam (vhost_socket_path conf.grout_socket_path (port_name env args))
            ≡ ok x))
      ⊎ ((is_virtio conf ≡ false)
          × ((p : CniResult) × (pod_result args ipam ≡ ok p)
              × (((same args.netns [] ≡ true) × (p ≡ x))
                  ⊎ ((same args.netns [] ≡ false)
                      × ((t : Trace) × (env.configure args.netns (port_name env args) args.if_name
                              conf.mtu p t
                            ≡ value x))))))

module _ {env : Env} (r : Router env) (conf : PluginConf) (args : CmdArgs) {raw : Bytes}
    {ipam : CniResult} (w : IsWilling r args raw ipam)
    (own : (suffix : Bytes) → conf.bridge ≢ port_prefix ++ suffix) (l : List Iface)
    (free : (i : Iface) → In i l → i.name ≢ port_name env args) where
  retried :
      (x : ℕ) (t : Trace)
      → env.add_iface (bridge_request conf.bridge) t ≡ failed x
      → At r (λ i. In i l) t
      → (b : ℕ) × (id_or_error (external x) (find_by_name (r.held t) conf.bridge) ≡ ok b)
  retried x t e h = step (find_by_name (r.held t) conf.bridge) refl
    where
      step :
          (o : Option ℕ)
          → find_by_name (r.held t) conf.bridge ≡ o
          → (b : ℕ) × (id_or_error (external x) o ≡ ok b)
      step (some b) q = (b, refl)
      step none q =
          let absent = find_by_name-none (r.held t) conf.bridge q in
          let (id, d) =
            w.adds (bridge_request conf.bridge) t
              (λ i m. All-In (λ y. y.name ≢ conf.bridge) (r.held t) i absent m) in
          cc (d, e)

  create_ok :
      (t : Trace)
      → At r (λ i. In i l) t
      → (b : ℕ) × ((found_or_created env conf.bridge none t).0 ≡ ok b)
  unfolding found_or_created created_or_reused reuse_bridge interface_list interface_add lift ◌>>=◌
  create_ok t h = step (env.add_iface (bridge_request conf.bridge) t) refl
    where
      step :
          (d : Reply ℕ)
          → env.add_iface (bridge_request conf.bridge) t ≡ d
          → (b : ℕ) × ((continue
                (reify (answer d))
                (created_or_reused env conf.bridge)
                (iface_added (bridge_request conf.bridge) d ∷ t)).0
              ≡ ok b)
      step (value b) e = (b, refl)
      step (failed x) e =
          let e1 = iface_added (bridge_request conf.bridge) (failed x) in
          let (b, q) = retried x t e h in (b, rw (r.listing (e1 ∷ t), r.held-kept e1 t refl) q)

  found_ok :
      (t : Trace) (o : Option ℕ)
      → At r (λ i. In i l) t
      → (b : ℕ) × ((found_or_created env conf.bridge o t).0 ≡ ok b)
  unfolding found_or_created pure
  found_ok t none h = create_ok t h
  found_ok t (some b) h = (b, refl)

  pub ensure_ok :
      (t : Trace) → At r (λ i. In i l) t → (b : ℕ) × ((ensure_bridge env conf.bridge t).0 ≡ ok b)
  unfolding ensure_bridge interface_list ◌>>=◌
  ensure_ok t h =
      let e = listed (value (r.held t)) in
      rw (r.listing t) (
        found_ok (e ∷ t) (find_bridge_id (r.held t) conf.bridge)
          (At-kept r (λ i. In i l) e t refl (λ id. refl) h))

  address_ok : (req : AddressRequest) (t : Trace) → (address_add env req t).0 ≡ ok tt
  unfolding address_add
  address_ok req t = rw (w.takes_address req t)

  pub add_gateways_ok :
      (b : ℕ) (gws : List IpNet) (t : Trace) → (add_gateways env conf args b gws t).0 ≡ ok tt
  unfolding add_gateways pure
  add_gateways_ok b [] t = refl
  add_gateways_ok b (gw ∷ gws) t =
      let req : AddressRequest = record { iface_id = b; address = gw; exist_ok = true } in
      rw
        (bind-ok (address_add env req) (λ _. add_gateways env conf args b gws) t (address_ok req t))
        (add_gateways_ok b gws (address_add env req t).1)

  pub socket_dir_ok : (t : Trace) → (make_socket_dir env conf args t).0 ≡ ok tt
  unfolding make_socket_dir branch mkdir_all pure
  socket_dir_ok t = step (is_virtio conf)
    where
      path : Bytes
      path = dir (vhost_socket_path conf.grout_socket_path (port_name env args))

      step : (v : Bool) → (branch v (mkdir_all env path) (pure tt) t).0 ≡ ok tt
      step true = rw (w.locks.makes path t)
      step false = refl

  pub port_ok :
      (b : ℕ) (created : Bool) (t : Trace)
      → Based r conf.bridge l b created t
      → (id : ℕ) × ((interface_add env (port_request env conf args b) t).0 ≡ ok id)
  unfolding interface_add port_request
  port_ok b created t (_, (h, _)) =
      let (suffix, p) = port_name-prefix env args in
      let (id, e) = w.adds (port_request env conf args b) t λ i m n. elim ((h i).0 m) [
        | inl k ↦ free i k n
        | inr (_, q) ↦ own suffix (sym (ap (λ (z : Iface). z.name) q) ∙ n ∙ p)
      ] in
      (id, rw e)

  pub move_ok : (name netns : Bytes) (t : Trace) → (move_link env name netns t).0 ≡ ok tt
  unfolding move_link
  move_ok name netns t = rw (w.moves name netns t)
