-- ===== src/Router/Port.antt =====
-- HandleAdd of pkg/cni/handler.go against grout: the creation of the port, what follows it, and
-- cleanupAfterAddFailure.
use grout_cni.Base.{
  All, Bytes, same, Stage, interface_add_stage, moving_tap, configuring_pod, Result, ok, err, panic,
  wrap, ℕ, ◌≡◌, refl, ap, inl, inr, Bool, false, List, [], ◌∷◌,
}
use grout_cni.Base.State.{State, pure, lift, wrapped, on_error, ◌>>=◌}
use grout_cni.Base.Integer.{ℤ}
use grout_cni.Base.Ends.{Ends, Ends-bind, Ends-wrapped, Ends-on_error, Ends-branch, Ends-bind-lift}
use grout_cni.Grout.{Iface}
use grout_cni.Host.{
  Reply, value, failed, answer, CniResult, CmdArgs, Event, ipam_deleted, iface_added, iface_deleted,
  link_moved, pod_configured, Trace, Env, ipam_del, interface_add, interface_del, move_link,
  configure_pod_iface, dropped,
}
use grout_cni.Config.{PluginConf}
use grout_cni.Ipam.{pod_result, vhost_result}
use grout_cni.Ipam.Gateways.{IsEntry}
use grout_cni.Router.{changes, assigns, Router}
use grout_cni.Router.Views.{Shows, Shows-iff, Shows-deleted}
use grout_cni.Router.Bare.{ArePortsBare-added, ArePortsBare-deleted, At-kept}
use grout_cni.Router.Ensure.{with_bridge, Based}
use grout_cni.Router.Attach.{
  port_name-prefix, port_made, Ported, Attached, Based-Unattached, ipam_del-Based,
}
use grout_cni.Handlers.Common.{is_virtio}
use grout_cni.Handlers.Add.{port_request, cleanup_after_add_failure, attach_tap, finish_add}
use grout_cni.Handlers.Rollback.Steps.{result_with-ok}

module _ {env : Env} (r : Router env) (conf : PluginConf) (args : CmdArgs) (l : List Iface) (b : ℕ)
    (created : Bool) where
  abbrev pub PortedOrFree : Result ℕ → Trace → Type 0
  PortedOrFree (ok id) t = Ported r conf args l b created id t
  PortedOrFree (err e) t = Based r conf.bridge l b created t
  PortedOrFree panic t = ⊥

  port_added :
      (id : ℕ) (t : Trace)
      → env.add_iface (port_request env conf args b) t ≡ value id
      → Based r conf.bridge l b created t
      → Ported r conf args l b created id
          (iface_added (port_request env conf args b) (value id) ∷ t)
  unfolding port_request
  port_added id t e (k, (h, bare)) =
      let req = port_request env conf args b in
      let add = r.held-added req id t e in
      (
        k,
        (λ i m. ((r.fresh req id t e).1 i ((h i).1 m)).0),
        (
          λ i. (
            λ m. elim ((add i).0 m) [ inl q ↦ inr q | inr x ↦ inl ((h i).0 x) ],
            λ m. (add i).1 (elim m [ inl x ↦ inr ((h i).1 x) | inr q ↦ inl q ]),
          ),
          ArePortsBare-added r req id t e bare,
        ),
      )

  interface_add-PortedOrFree :
      Ends
        (Based r conf.bridge l b created)
        PortedOrFree
        (wrapped interface_add_stage (interface_add env (port_request env conf args b)))
  unfolding interface_add wrapped
  interface_add-PortedOrFree = record {
    ends = λ t h. step t (env.add_iface (port_request env conf args b) t) refl h;
  }
    where
      step :
          (t : Trace) (d : Reply ℕ)
          → env.add_iface (port_request env conf args b) t ≡ d
          → Based r conf.bridge l b created t
          → PortedOrFree
              (wrap interface_add_stage (answer d))
              (iface_added (port_request env conf args b) d ∷ t)
      step t (value id) e h = port_added id t e h
      step t (failed x) e (k, h) = (
        k,
        At-kept r _ (iface_added (port_request env conf args b) (failed x)) t refl (λ i. refl) h,
      )

  pub port-PortedOrFree : Ends (Based r conf.bridge l b created) PortedOrFree (
      on_error
        (ipam_del env args)
        (wrapped interface_add_stage (interface_add env (port_request env conf args b))))
  port-PortedOrFree =
      Ends-on_error _ _ interface_add-PortedOrFree (λ a t h. h)
        (λ e t h. (ipam_del-Based r conf args l b created).kept t h) (λ t h. h)

  module _ (id : ℕ) where
    Ported-kept :
        (e : Event) (t : Trace)
        → changes e ≡ false
        → ((i : ℕ) → assigns i e ≡ false)
        → Ported r conf args l b created id t
        → Ported r conf args l b created id (e ∷ t)
    Ported-kept e t q a (k, n, h) = (k, n, At-kept r _ e t q a h)

    -- cleanupAfterAddFailure takes the port away.
    cleanup-Based :
        (t : Trace)
        → Ported r conf args l b created id t
        → Based r conf.bridge l b created (cleanup_after_add_failure env conf args id t).1
    unfolding cleanup_after_add_failure interface_del ipam_del port_request ◌>>=◌
    cleanup-Based t (k, n, (h, bare)) =
        let d = env.del_iface id t in
        let t1 = iface_deleted id d ∷ t in
        let port = port_made r conf args l b id in
        let bare_port : r.addressed t id ≡ false =
          bare port ((h port).1 (inr refl)) (port_name-prefix env args) in
        let h1 = Shows-deleted r id t (λ i m q. bare_port) h in
        let h2 : Shows r t1 (with_bridge conf.bridge l b created) = Shows-iff r t1 h1 λ i. (
          λ m. elim (m.0) [ inl x ↦ x | inr q ↦ absurd (m.1 (ap (λ (z : Iface). z.id) q)) ],
          λ m. (inl m, n i m),
        ) in
        rw (dropped d (ipam_del env args) t1) (
          k,
          At-kept r _ (ipam_deleted (env.del_ipam args.stdin_data t1)) t1 refl (λ i. refl)
              (h2, ArePortsBare-deleted r id d t refl bare),
        )

    -- The port is there, and the call returned.
    abbrev Ready : {A : Type 0} → Result A → Trace → Type 0
    Ready (ok a) t = Ported r conf args l b created id t
    Ready (err e) t = Ported r conf args l b created id t
    Ready panic t = ⊥

    Ready-wrap :
        {A : Type 0} (c : Stage) (x : Result A) (t : Trace) → Ready x t → Ready (wrap c x) t
    Ready-wrap c (ok a) t h = h
    Ready-wrap c (err e) t h = h
    Ready-wrap c panic t h = h

    Ready-answer :
        {A : Type 0} (x : Reply A) (t : Trace)
        → Ported r conf args l b created id t
        → Ready (answer x) t
    Ready-answer (value a) t h = h
    Ready-answer (failed e) t h = h

    move-Ready :
        (name netns : Bytes)
        → Ends (Ported r conf args l b created id) Ready (move_link env name netns)
    unfolding move_link
    move-Ready name netns = record {
      ends = λ t h.
          Ready-answer (env.move name netns t) _
            (Ported-kept (link_moved name netns (env.move name netns t)) t refl (λ i. refl) h);
    }

    configure-Ready :
        (netns host pod : Bytes) (mtu : ℤ) (x : CniResult)
        → Ends
            (Ported r conf args l b created id)
            Ready
            (configure_pod_iface env netns host pod mtu x)
    unfolding configure_pod_iface
    configure-Ready netns host pod mtu x = record {
      ends = λ t h.
          let d = env.configure netns host pod mtu x t in
          Ready-answer d _ (Ported-kept (pod_configured netns pod d) t refl (λ i. refl) h);
    }

    attach_tap-Attached :
        (x : CniResult)
        → Ends
            (Ported r conf args l b created id)
            (Attached r conf args l)
            (attach_tap env conf args id x)
    unfolding attach_tap
    attach_tap-Attached x =
        Ends-on_error {R = Ready} _ _
          (Ends-bind {R = Ready} _ _
            (Ends-wrapped moving_tap _ (move-Ready _ _) (Ready-wrap moving_tap))
            (λ _.
              Ends-wrapped configuring_pod _ (configure-Ready _ _ _ _ _)
                (Ready-wrap configuring_pod))
            (λ e t h. h) (λ t h. h))
          (λ a t h. (b, created, id, h))
          (λ e t h. Based-Unattached r conf args l b created _ (cleanup-Based t h))
          (λ t h. absurd h)

    made_end :
        (x : Result CniResult)
        → (m : CniResult) × (x ≡ ok m)
        → Ends (Ported r conf args l b created id) (Attached r conf args l) (lift x)
    unfolding lift
    made_end x (m, e) = rw e (record { ends = λ t h. (b, created, id, h) })

    made_step :
        (x : Result CniResult) (f : CniResult → State Trace CniResult)
        → (m : CniResult) × (x ≡ ok m)
        → ((a : CniResult)
            → Ends (Ported r conf args l b created id) (Attached r conf args l) (f a))
        → Ends (Ported r conf args l b created id) (Attached r conf args l) (lift x >>= f)
    made_step x f (m, e) k =
        Ends-bind-lift x f (λ a _. k a) (λ y t p h. cc (e, p)) (λ t p h. cc (e, p))

    pure_end :
        (x : CniResult) → Ends (Ported r conf args l b created id) (Attached r conf args l) (pure x)
    unfolding pure
    pure_end x = record { ends = λ t h. (b, created, id, h) }

    pub finish_add-Attached :
        (ipam : CniResult)
        → All IsEntry ipam.ips
        → Ends
            (Ported r conf args l b created id)
            (Attached r conf args l)
            (finish_add env conf args ipam id)
    unfolding finish_add pod_result vhost_result
    finish_add-Attached ipam entries =
        Ends-branch (is_virtio conf) _ _
          (λ _. made_end _ (result_with-ok env conf args [] _ ipam entries))
          (λ _. made_step _ _ (result_with-ok env conf args [] _ ipam entries) (λ a.
            Ends-branch (same args.netns []) _ _ (λ _. pure_end a) (λ _. attach_tap-Attached a)))
