-- ===== src/Router/Attach.antt =====
-- HandleAdd of pkg/cni/handler.go against grout, from the bridge on: the port that is added, and the
-- cleanup that takes it away again.
use grout_cni.Base.{
  ◌==◌, take, Bytes, Result, ok, err, panic, ℕ, ◌≡◌, refl, sym, ap, ◌∙◌, ◌≢◌, ◌⊎◌, inl, inr, Bool,
  true, false, List, [], ◌∷◌, ◌++◌, map, arith,
}
use grout_cni.Base.Keeps.{Keeps, Keeps-bind, keeps_rules}
use grout_cni.Net.{IpNet}
use grout_cni.Grout.{type_tap, Iface, AddressRequest}
use grout_cni.PortName.{port_prefix, base32, to_lower, grout_port_name}
use grout_cni.Host.{
  CniResult, CmdArgs, Event, made_dir, ipam_deleted, address_added, Trace, Env, mkdir_all, ipam_del,
  address_add,
}
use grout_cni.Config.{PluginConf}
use grout_cni.Router.{In, changes, assigns, Router}
use grout_cni.Router.Views.{View, Shows-kept}
use grout_cni.Router.Bare.{At, At-kept}
use grout_cni.Router.Ensure.{with_bridge, IsBase, Based, based_bridge, not_created}
use grout_cni.Handlers.Common.{port_name}
use grout_cni.Handlers.Add.{add_gateways, make_socket_dir}

not_equal : (b id : ℕ) → id ≢ b → (b == id) ≡ false
not_equal b id h = ground arith

-- The name of a port starts with the prefix.
pub port_name-prefix :
    (env : Env) (args : CmdArgs) → (suffix : Bytes) × (port_name env args ≡ port_prefix ++ suffix)
unfolding grout_port_name
port_name-prefix env args =
    (take 11 (map to_lower (base32 (env.sha256 (args.container_id ++ (0 ∷ args.if_name))))), refl)

module _ {env : Env} (r : Router env) (conf : PluginConf) (args : CmdArgs) (l : List Iface) where
  -- A tap with the name of the attachment, on the bridge with the id.
  abbrev pub port_made : ℕ → ℕ → Iface
  port_made b id = record { id = id; type = type_tap; name = port_name env args; domain = b }

  abbrev pub with_port : ℕ → Bool → ℕ → View
  with_port b created id i = with_bridge conf.bridge l b created i ⊎ (i ≡ port_made b id)

  abbrev pub Ported : ℕ → Bool → ℕ → Trace → Type 0
  Ported b created id t =
      IsBase conf.bridge l b created
      × ((i : Iface) → with_bridge conf.bridge l b created i → i.id ≢ id)
      × At r (with_port b created id) t

  -- Nothing was added, or only the bridge.
  abbrev pub Unattached : Trace → Type 0
  Unattached t = At r (λ i. In i l) t ⊎ ((b : ℕ) × Based r conf.bridge l b true t)

  abbrev pub Attached : Result CniResult → Trace → Type 0
  Attached (ok x) t = (b : ℕ) × (created : Bool) × (id : ℕ) × Ported b created id t
  Attached (err e) t = Unattached t
  Attached panic t = Unattached t

  pub Based-Unattached :
      (b : ℕ) (created : Bool) (t : Trace) → Based r conf.bridge l b created t → Unattached t
  Based-Unattached b true t h = inr (b, h)
  Based-Unattached b false t h = inl (not_created r conf.bridge l b t h)

  module _ (b : ℕ) (created : Bool) where
    Based-kept :
        (e : Event) (t : Trace)
        → changes e ≡ false
        → ((id : ℕ) → assigns id e ≡ false)
        → Based r conf.bridge l b created t
        → Based r conf.bridge l b created (e ∷ t)
    Based-kept e t q a (k, h) = (k, At-kept r _ e t q a h)

    pub ipam_del-Based : Keeps (Based r conf.bridge l b created) (ipam_del env args)
    unfolding ipam_del
    ipam_del-Based = record {
      kept =
          λ t h. Based-kept (ipam_deleted (env.del_ipam args.stdin_data t)) t refl (λ id. refl) h;
    }

    mkdir_all-Based : (path : Bytes) → Keeps (Based r conf.bridge l b created) (mkdir_all env path)
    unfolding mkdir_all
    mkdir_all-Based path = record {
      kept = λ t h. Based-kept (made_dir path (env.mkdir path t)) t refl (λ id. refl) h;
    }

    pub make_socket_dir-Based :
        Keeps (Based r conf.bridge l b created) (make_socket_dir env conf args)
    unfolding make_socket_dir
    make_socket_dir-Based = search (keeps_rules, mkdir_all-Based)

    -- The bridge has a name of its own, so its addresses are on none of the plugin's ports.
    module _ (own : (suffix : Bytes) → conf.bridge ≢ port_prefix ++ suffix) where
      address_add-Based :
          (gw : IpNet)
          → Keeps
              (Based r conf.bridge l b created)
              (address_add env (record { iface_id = b; address = gw; exist_ok = true }))
      unfolding address_add
      address_add-Based gw = record { kept = step }
        where
          req : AddressRequest
          req = record { iface_id = b; address = gw; exist_ok = true }

          step :
              (t : Trace)
              → Based r conf.bridge l b created t
              → Based r conf.bridge l b created (address_added req (env.add_address req t) ∷ t)
          step t (k, (h, bare)) =
              let e = address_added req (env.add_address req t) in
              let (br, m, n, q) = based_bridge r conf.bridge l b created k in
              let other : (i : Iface)
                  → In i (r.held t)
                  → (suffix : Bytes) × (i.name ≡ port_prefix ++ suffix)
                  → i.id ≢ b =
                λ i x (suffix, p) y. own suffix (
                  sym n
                  ∙ (ap (λ (z : Iface). z.name) (r.unique_ids t br i ((h br).1 m) x (q ∙ sym y))
                      ∙ p)) in
              (
                k,
                (
                  Shows-kept r e t refl h,
                  λ i x p.
                      let x' = rw (r.held-kept e t refl) at x in
                      r.addressed-kept e i.id t (not_equal b i.id (other i x' p)) (bare i x' p),
                ),
              )

      pub add_gateways-Based :
          (gws : List IpNet)
          → Keeps (Based r conf.bridge l b created) (add_gateways env conf args b gws)
      unfolding add_gateways
      add_gateways-Based [] = search keeps_rules
      add_gateways-Based (gw ∷ gws) =
          Keeps-bind _ _ (address_add-Based gw) (λ u. add_gateways-Based gws)
