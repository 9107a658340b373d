-- ===== src/Handlers/Attaching.antt =====
-- HandleAdd of pkg/cni/handler.go: what a successful ADD has asked of IPAM and of grout.
use grout_cni.Host.Replies.{address_add-inv, interface_add-inv}
use grout_cni.Bridge.{ensure_bridge}
use grout_cni.Base.Keeps.{Keeps, Keeps-wrapped, Keeps-on_error}
use grout_cni.Ipam.{gateways_for}
use mathlib.Core.Path.{subst}
use grout_cni.Base.{
  All, ensuring_bridge, bridge_address_add, vhost_socket_dir, interface_add_stage, Result, ok, ℕ,
  ◌≡◌, refl, inl, inr, true, List, [], ◌∷◌,
}
use grout_cni.Base.State.{
  State, lift, wrapped, on_error, ◌>>=◌, ◌>>◌, bind-inv, wrapped-inv, on_error-inv, lift-inv,
}
use grout_cni.Net.{IpNet}
use grout_cni.Grout.{AddressRequest}
use grout_cni.Config.{PluginConf}
use grout_cni.Host.{
  value, CniResult, CmdArgs, Event, iface_added, address_added, Trace, Env, ipam_del, interface_add,
  address_add,
}
use grout_cni.Host.Events.{IsStable, Keeps-ipam_del}
use grout_cni.Bridge.Collect.{Any}
use grout_cni.Handlers.Add.{add_gateways, port_request, make_socket_dir, finish_add, add_converted}
use grout_cni.Handlers.Locking.{Keeps-add_gateways, Keeps-make_socket_dir, Keeps-finish_add}

-- The call was made, with this answer.
abbrev pub Occurs : Event → Trace → Type 0
Occurs e t = Any (λ x. x ≡ e) t

pub Occurs-IsStable : (e : Event) → IsStable (Occurs e)
Occurs-IsStable e = record { steady = λ x t l h. inr h }

module _ (env : Env) (conf : PluginConf) (args : CmdArgs) where
  abbrev pub gateway_request : ℕ → IpNet → AddressRequest
  gateway_request bridge_id gw = record { iface_id = bridge_id; address = gw; exist_ok = true }

  abbrev pub AllAssigned : ℕ → List IpNet → Trace → Type 0
  AllAssigned bridge_id gws t =
      All (λ gw. Occurs (address_added (gateway_request bridge_id gw) (value tt)) t) gws

  add_gateways-AllAssigned :
      (bridge_id : ℕ) (gws : List IpNet) (t : Trace) {u : Unit {0}} {t' : Trace}
      → add_gateways env conf args bridge_id gws t ≡ (ok u, t')
      → AllAssigned bridge_id gws t'
  unfolding add_gateways
  add_gateways-AllAssigned bridge_id [] t h = tt
  add_gateways-AllAssigned bridge_id (gw ∷ gws) t {u} {t'} h =
      let (_, mid, e, q) =
        bind-inv (address_add env (gateway_request bridge_id gw))
          (λ _. add_gateways env conf args bridge_id gws) t h in
      let first = address_added (gateway_request bridge_id gw) (value tt) in
      let o : Occurs first mid =
        rw (address_add-inv env args (gateway_request bridge_id gw) t e) (inl refl) in
      let k = (Keeps-add_gateways env conf args (Occurs-IsStable first) bridge_id gws).kept mid o in
      (
        subst (λ (x : Result (Unit {0}) × Trace). Occurs first x.1) q k,
        add_gateways-AllAssigned bridge_id gws mid q,
      )

  pub carry :
      {A : Type 0} {P : Trace → Type 0} (m : State Trace A) (t : Trace) {r : Result A} {t' : Trace}
      → Keeps P m
      → P t
      → m t ≡ (r, t')
      → P t'
  carry {A} {P} m t k p e = subst (λ (x : Result A × Trace). P x.1) e (k.kept t p)

  pub AllAssigned-later :
      (bridge_id : ℕ) (gws : List IpNet) (e : Event) (t : Trace)
      → AllAssigned bridge_id gws t
      → AllAssigned bridge_id gws (e ∷ t)
  AllAssigned-later bridge_id [] e t h = tt
  AllAssigned-later bridge_id (gw ∷ rest) e t (h, hs) =
      (inr h, AllAssigned-later bridge_id rest e t hs)

  AllAssigned-IsStable : (bridge_id : ℕ) (gws : List IpNet) → IsStable (AllAssigned bridge_id gws)
  AllAssigned-IsStable bridge_id gws = record {
    steady = λ e t l h. AllAssigned-later bridge_id gws e t h;
  }

  -- The id is what ensureBridge returns for the configured name, at some transcript.
  abbrev pub IsEnsured : ℕ → Type 0
  IsEnsured bridge_id =
      (before : Trace) × (after : Trace) × (ensure_bridge env conf.bridge before
        ≡ (ok bridge_id, after))

  -- What was done for a converted IPAM result: each gateway that gatewaysFor chooses was put on the
  -- bridge, and the attachment's port was created as a member of it.
  abbrev pub IsAttached : CniResult → Trace → Type 0
  IsAttached ipam t =
      (bridge_id : ℕ) × (id : ℕ) × (gws : List IpNet) × IsEnsured bridge_id
      × (gateways_for ipam ≡ ok gws)
      × AllAssigned bridge_id gws t
      × Occurs (iface_added (port_request env conf args bridge_id) (value id)) t

  module _ (ipam r : CniResult) (bridge_id : ℕ) (gws : List IpNet) (b : IsEnsured bridge_id)
      (t' : Trace) where
    from_port :
        (id : ℕ) (t : Trace)
        → gateways_for ipam ≡ ok gws
        → AllAssigned bridge_id gws t
        → Occurs (iface_added (port_request env conf args bridge_id) (value id)) t
        → finish_add env conf args ipam id t ≡ (ok r, t')
        → IsAttached ipam t'
    from_port id t g a o h =
        let port = iface_added (port_request env conf args bridge_id) (value id) in
        let m = finish_add env conf args ipam id in
        (
          bridge_id,
          id,
          gws,
          b,
          g,
          carry {P = AllAssigned bridge_id gws} m t
              (Keeps-finish_add env conf args (AllAssigned-IsStable bridge_id gws) ipam id) a h,
          carry {P = Occurs port} m t
              (Keeps-finish_add env conf args (Occurs-IsStable port) ipam id) o h,
        )

    abbrev added : State Trace ℕ
    added =
        on_error (ipam_del env args)
          (wrapped interface_add_stage (interface_add env (port_request env conf args bridge_id)))

    abbrev made : State Trace (Unit {0})
    made = on_error (ipam_del env args) (wrapped vhost_socket_dir (make_socket_dir env conf args))

    Keeps-made : {P : Trace → Type 0} → IsStable P → Keeps P made
    Keeps-made {P} st =
        Keeps-on_error (ipam_del env args) _ (Keeps-ipam_del env st args)
          (Keeps-wrapped vhost_socket_dir _ (Keeps-make_socket_dir env conf args st))

    from_socket :
        (t : Trace)
        → gateways_for ipam ≡ ok gws
        → AllAssigned bridge_id gws t
        → (made >> (added >>= finish_add env conf args ipam)) t ≡ (ok r, t')
        → IsAttached ipam t'
    from_socket t g a h =
        let (_, t1, e1, q1) = bind-inv made (λ _. added >>= finish_add env conf args ipam) t h in
        let a1 =
          carry {P = AllAssigned bridge_id gws} made t
            (Keeps-made (AllAssigned-IsStable bridge_id gws)) a e1 in
        let (id, t2, e2, q2) = bind-inv added (finish_add env conf args ipam) t1 q1 in
        let c =
          interface_add-inv env args (port_request env conf args bridge_id) t1
            (wrapped-inv _ _ t1 (on_error-inv _ _ t1 e2)) in
        let st = AllAssigned-IsStable bridge_id gws in
        from_port id t2 g
          (rw c
            (st.steady (iface_added (port_request env conf args bridge_id) (value id)) t1 refl a1))
          (rw c (inl refl)) q2

    abbrev assigned : State Trace (Unit {0})
    assigned =
        on_error (ipam_del env args)
          (wrapped bridge_address_add (add_gateways env conf args bridge_id gws))

    from_gateways :
        (t : Trace)
        → gateways_for ipam ≡ ok gws
        → (assigned >> (made >> (added >>= finish_add env conf args ipam))) t ≡ (ok r, t')
        → IsAttached ipam t'
    from_gateways t g h =
        let (_, t1, e1, q1) =
          bind-inv assigned (λ _. made >> (added >>= finish_add env conf args ipam)) t h in
        from_socket t1 g
          (add_gateways-AllAssigned bridge_id gws t (wrapped-inv _ _ t (on_error-inv _ _ t e1))) q1

  pub add_converted-IsAttached :
      (ipam r : CniResult) (t t' : Trace)
      → add_converted env conf args ipam t ≡ (ok r, t')
      → IsAttached ipam t'
  unfolding add_converted
  add_converted-IsAttached ipam r t t' h =
      let (bridge_id, t1, e1, q1) =
        bind-inv
          (on_error (ipam_del env args) (wrapped ensuring_bridge (ensure_bridge env conf.bridge))) _
          t h in
      let b : IsEnsured bridge_id = (t, t1, wrapped-inv _ _ t (on_error-inv _ _ t e1)) in
      let (gws, t2, e2, q2) = bind-inv (lift (gateways_for ipam)) _ t1 q1 in
      from_gateways ipam r bridge_id gws b t' t2 (lift-inv (gateways_for ipam) t1 e2) q2
