-- ===== src/Router/Addition.antt =====
-- HandleAdd of pkg/cni/handler.go against grout, the lock included.
use grout_cni.Router.Views.{View, changes-locking, assigns-locking, Shows-held}
use grout_cni.Lock.Outcome.{IsUntouched, with_lock-outcome}
use grout_cni.Base.{
  Bytes, Stage, ipam_add_stage, converting_ipam_result, converting_result, ensuring_bridge,
  bridge_address_add, vhost_socket_dir, interface_add_stage, invoking_ipam, Result, ok, err, panic,
  wrap, ℕ, refl, ◌≢◌, inl, inr, Bool, List, ◌∷◌, ◌++◌,
}
use grout_cni.Base.State.{State, lift, wrapped, on_error, ◌>>=◌}
use grout_cni.Base.Ends.{Ends, Ends-bind, Ends-wrapped, Ends-on_error, Ends-Keeps, Ends-bind-lift}
use grout_cni.Base.Keeps.{Keeps, Keeps-lift, Keeps-wrapped, Keeps-on_error}
use grout_cni.Grout.{Iface}
use grout_cni.PortName.{port_prefix}
use grout_cni.Host.{
  answer, CniResult, CmdArgs, unlocked, closed, ipam_added, ipam_deleted, Trace, Env, ipam_add,
  ipam_del, interface_add,
}
use grout_cni.Config.{PluginConf}
use grout_cni.Ipam.{gateways_for}
use grout_cni.Ipam.Gateways.{gateways_for-IsEntry}
use grout_cni.Router.{In, Router}
use grout_cni.Router.Bare.{ArePortsBare, At, At-kept}
use grout_cni.Router.Ensure.{Based, Ensured, ensure_bridge-Ensured}
use grout_cni.Router.Attach.{
  Unattached, Attached, Based-Unattached, ipam_del-Based, make_socket_dir-Based, add_gateways-Based,
}
use grout_cni.Router.Port.{PortedOrFree, port-PortedOrFree, finish_add-Attached}
use grout_cni.Handlers.Add.{
  add_gateways, port_request, make_socket_dir, finish_add, add_converted, add_body, handle_add,
}

module _ {env : Env} (r : Router env) (conf : PluginConf) (args : CmdArgs)
    (own : (suffix : Bytes) → conf.bridge ≢ port_prefix ++ suffix) (l : List Iface) where
  based_rest :
      {A : Type 0} (b : ℕ) (created : Bool) (m : State Trace A) (f : A → State Trace CniResult)
      → Keeps (Based r conf.bridge l b created) m
      → ((a : A) → Ends (Based r conf.bridge l b created) (Attached r conf args l) (f a))
      → Ends
          (Based r conf.bridge l b created)
          (Attached r conf args l)
          (on_error (ipam_del env args) m >>= f)
  based_rest b created m f k n =
      Ends-bind _ _ (Ends-Keeps _ (Keeps-on_error _ _ (ipam_del-Based r conf args l b created) k)) n
        (λ e t h. Based-Unattached r conf args l b created t h)
        (λ t h. Based-Unattached r conf args l b created t h)

  based_end :
      (ipam : CniResult) (b : ℕ) (created : Bool)
      → Ends (Based r conf.bridge l b created) (Attached r conf args l) (
          lift (gateways_for ipam) >>= λ gws.
          on_error
            (ipam_del env args)
            (wrapped bridge_address_add (add_gateways env conf args b gws))
          >>= λ _.
              on_error
                (ipam_del env args)
                (wrapped vhost_socket_dir (make_socket_dir env conf args))
              >>= λ _.
                  on_error
                    (ipam_del env args)
                    (wrapped interface_add_stage (interface_add env (port_request env conf args b)))
                  >>= finish_add env conf args ipam)
  based_end ipam b created =
      Ends-bind-lift (gateways_for ipam) _
        (λ gws e.
          based_rest b created _ _
            (Keeps-wrapped bridge_address_add _
              (add_gateways-Based r conf args l b created own gws))
            λ _.
              based_rest b created _ _
                (Keeps-wrapped vhost_socket_dir _ (make_socket_dir-Based r conf args l b created))
                λ _.
                  Ends-bind {R = PortedOrFree r conf args l b created} _ _
                    (port-PortedOrFree r conf args l b created)
                    (λ id.
                      finish_add-Attached r conf args l b created id ipam
                        (gateways_for-IsEntry ipam gws e))
                    (λ x t h. Based-Unattached r conf args l b created t h) (λ t h. absurd h))
        (λ x t e h. Based-Unattached r conf args l b created t h)
        (λ t e h. Based-Unattached r conf args l b created t h)

  ipam_del-At : Keeps (At r (λ i. In i l)) (ipam_del env args)
  unfolding ipam_del
  ipam_del-At = record {
    kept = λ t h.
        At-kept r (λ i. In i l) (ipam_deleted (env.del_ipam args.stdin_data t)) t refl (λ i. refl)
          h;
  }

  pub ipam_add-At : Keeps (At r (λ i. In i l)) (ipam_add env args)
  unfolding ipam_add
  ipam_add-At = record {
    kept = λ t h.
        At-kept r (λ i. In i l) (ipam_added (env.add_ipam args.stdin_data t)) t refl (λ i. refl) h;
  }

  Ensured-wrap :
      (c : Stage) (x : Result ℕ) (t : Trace)
      → Ensured r conf.bridge l x t
      → Ensured r conf.bridge l (wrap c x) t
  Ensured-wrap c (ok a) t h = h
  Ensured-wrap c (err e) t h = h
  Ensured-wrap c panic t h = h

  add_converted-Attached :
      (ipam : CniResult)
      → Ends (At r (λ i. In i l)) (Attached r conf args l) (add_converted env conf args ipam)
  unfolding add_converted
  add_converted-Attached ipam =
      Ends-bind {R = Ensured r conf.bridge l} _ _
        (Ends-on_error {R = Ensured r conf.bridge l} _ _
          (Ends-wrapped ensuring_bridge _ (ensure_bridge-Ensured r conf.bridge l)
            (Ensured-wrap ensuring_bridge))
          (λ a t h. h) (λ e t h. ipam_del-At.kept t h) (λ t h. h))
        (λ b. record { ends = λ t (created, h). (based_end ipam b created).ends t h })
        (λ e t h. inl h) (λ t h. absurd h)

  add_body-Attached : Ends (At r (λ i. In i l)) (Attached r conf args l) (add_body env conf args)
  unfolding add_body
  add_body-Attached =
      Ends-bind _ _
        (Ends-Keeps _ (Keeps-wrapped ipam_add_stage _ (Keeps-wrapped invoking_ipam _ ipam_add-At)))
        (λ raw.
          Ends-bind _ _
            (Ends-Keeps _ (
              Keeps-wrapped converting_ipam_result _
                (Keeps-wrapped converting_result _ (Keeps-lift (answer (env.convert raw))))))
            add_converted-Attached (λ e t h. inl h) (λ t h. inl h))
        (λ e t h. inl h) (λ t h. inl h)

  pub At-IsUntouched : IsUntouched (At r (λ i. In i l))
  At-IsUntouched = record {
    untouched = λ e t q h.
        At-kept r (λ i. In i l) e t (changes-locking e q) (λ id. assigns-locking id e q) h;
  }

  At-closed : (s : View) (fd : ℕ) (t : Trace) → At r s t → At r s (closed fd ∷ unlocked fd ∷ t)
  At-closed s fd t h =
      At-kept r s (closed fd) (unlocked fd ∷ t) refl (λ i. refl)
        (At-kept r s (unlocked fd) t refl (λ i. refl) h)

  Unattached-closed :
      (fd : ℕ) (t : Trace)
      → Unattached r conf args l t
      → Unattached r conf args l (closed fd ∷ unlocked fd ∷ t)
  Unattached-closed fd t (inl h) = inl (At-closed _ fd t h)
  Unattached-closed fd t (inr (b, (k, h))) = inr (b, (k, At-closed _ fd t h))

  released :
      (fd : ℕ) (x : Result CniResult) (t : Trace)
      → Attached r conf args l x t
      → Attached r conf args l x (closed fd ∷ unlocked fd ∷ t)
  released fd (ok x) t (b, created, id, (k, n, h)) = (b, created, id, (k, n, At-closed _ fd t h))
  released fd (err e) t h = Unattached-closed fd t h
  released fd panic t h = Unattached-closed fd t h

  pub handle_add-Attached :
      Ends (At r (λ i. In i l)) (Attached r conf args l) (handle_add env conf args)
  unfolding handle_add
  handle_add-Attached =
      with_lock-outcome env At-IsUntouched (add_body env conf args) conf.grout_socket_path
        add_body-Attached (λ e t h. inl h) released

-- ADD against grout, for a bridge whose name does not start with the prefix of the plugin's ports and
-- where these ports have no addresses of their own. If it succeeds, grout holds what it held, and
-- the port that the attachment asks for, under a new id, on the bridge; and the bridge is an
-- interface of the configured name, which grout held before, or if it held none of the name, a
-- bridge that was added too. If it fails or panics, grout holds just what it held, or that and the
-- new bridge. The plugin's ports still have no addresses of their own.
pub handle_add_attaches_port :
    {env : Env} (r : Router env) (conf : PluginConf) (args : CmdArgs) (t : Trace)
    → ((suffix : Bytes) → conf.bridge ≢ port_prefix ++ suffix)
    → ArePortsBare r t
    → Attached r conf args (r.held t) (handle_add env conf args t).0 (handle_add env conf args t).1
handle_add_attaches_port r conf args t own bare =
    (handle_add-Attached r conf args own (r.held t)).ends t (Shows-held r t, bare)
