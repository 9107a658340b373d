-- ===== src/Router/Reporting.antt =====
-- HandleAdd of pkg/cni/handler.go on a host where the calls that it makes succeed, from the bridge to
-- what it reports.
use grout_cni.Router.Progress.{
  IsWilling, IsReported, ensure_ok, add_gateways_ok, socket_dir_ok, port_ok, move_ok,
}
use grout_cni.Ipam.Total.{IsUsable, gateways_for_total, IsUsable-IsEntry}
use grout_cni.Base.Succeeds.{
  Succeeds, Succeeds-bind, Succeeds-wrapped, Succeeds-on_error, Succeeds-branch, Succeeds-lift,
  Succeeds-pure, Succeeds-bind-lift, Succeeds-Ends, Succeeds-Keeps,
}
use grout_cni.Net.{IpNet}
use grout_cni.Ipam.{pod_result, vhost_result}
use grout_cni.Ipam.Gateways.{IsEntry}
use grout_cni.Router.Ensure.{Based, ensure_bridge-Ensured}
use grout_cni.Router.Attach.{make_socket_dir-Based, add_gateways-Based}
use grout_cni.Handlers.Add.{
  add_gateways, port_request, make_socket_dir, attach_tap, finish_add, add_converted,
}
use grout_cni.Handlers.Rollback.Steps.{result_with-ok}
use grout_cni.Base.{
  All, Bytes, same, ensuring_bridge, bridge_address_add, vhost_socket_dir, interface_add_stage,
  moving_tap, configuring_pod, ok, ℕ, ◌≡◌, refl, ◌≢◌, inl, inr, Bool, false, List, [], ◌++◌,
}
use grout_cni.Base.State.{wrapped, on_error, ◌>>=◌}
use grout_cni.Grout.{Iface}
use grout_cni.PortName.{port_prefix}
use grout_cni.Host.{CniResult, CmdArgs, Trace, Env, ipam_del, interface_add, configure_pod_iface}
use grout_cni.Config.{PluginConf}
use grout_cni.Router.{In, Router}
use grout_cni.Router.Bare.{At}
use grout_cni.Handlers.Common.{is_virtio, port_name}

module _ {env : Env} (r : Router env) (conf : PluginConf) (args : CmdArgs) {raw : Bytes}
    {ipam : CniResult} (w : IsWilling r args raw ipam)
    (own : (suffix : Bytes) → conf.bridge ≢ port_prefix ++ suffix) (l : List Iface)
    (free : (i : Iface) → In i l → i.name ≢ port_name env args) where
  configure_ok :
      (x : CniResult) (t : Trace)
      → is_virtio conf ≡ false
      → pod_result args ipam ≡ ok x
      → same args.netns [] ≡ false
      → (y : CniResult) × ((configure_pod_iface env args.netns
            (port_name env args)
            args.if_name
            conf.mtu
            x
            t).0
          ≡ ok y)
        × IsReported env conf args ipam y
  unfolding configure_pod_iface
  configure_ok x t v p n =
      let (y, e) = w.configures args.netns (port_name env args) args.if_name conf.mtu x t in
      (y, rw e, inr (v, (x, p, inr (n, (t, e)))))

  attach_tap-Succeeds :
      (id : ℕ) (x : CniResult)
      → is_virtio conf ≡ false
      → pod_result args ipam ≡ ok x
      → same args.netns [] ≡ false
      → Succeeds
          (λ (t : Trace). Unit {0})
          (λ y t. IsReported env conf args ipam y)
          (attach_tap env conf args id x)
  unfolding attach_tap
  attach_tap-Succeeds id x v p n = Succeeds-on_error _ _ (
      Succeeds-bind {R = λ a t. Unit {0}} _ _
        (Succeeds-wrapped moving_tap _ (record {
          succeeds =
              λ t u. (tt, move_ok r conf args w own l free (port_name env args) args.netns t, tt);
        }))
        (λ a.
          Succeeds-wrapped configuring_pod _ (record { succeeds = λ t u. configure_ok x t v p n })))

  finish_add-Succeeds :
      (id : ℕ)
      → All IsEntry ipam.ips
      → Succeeds
          (λ (t : Trace). Unit {0})
          (λ y t. IsReported env conf args ipam y)
          (finish_add env conf args ipam id)
  unfolding finish_add pod_result vhost_result
  finish_add-Succeeds id entries =
      Succeeds-branch (is_virtio conf) _ _
        (λ v.
          let (x, e) = result_with-ok env conf args [] _ ipam entries in
          Succeeds-lift _ x e (λ t u. inl (v, e)))
        (λ v.
          let (x, e) = result_with-ok env conf args [] _ ipam entries in
          Succeeds-bind-lift _ x _ e (
            Succeeds-branch (same args.netns []) _ _
              (λ n. Succeeds-pure x (λ t u. inr (v, (x, e, inl (n, refl)))))
              (λ n. attach_tap-Succeeds id x v e n)))

  module _ (usable : All IsUsable ipam.ips) where
    after_bridge :
        (b : ℕ) (created : Bool) (gws : List IpNet)
        → Succeeds
            (Based r conf.bridge l b created)
            (λ y t. IsReported env conf args ipam y)
            (on_error
                (ipam_del env args)
                (wrapped bridge_address_add (add_gateways env conf args b gws))
              >>= λ _.
                  on_error
                    (ipam_del env args)
                    (wrapped vhost_socket_dir (make_socket_dir env conf args))
                  >>= λ _.
                      on_error (ipam_del env args) (
                        wrapped interface_add_stage
                          (interface_add env (port_request env conf args b)))
                      >>= finish_add env conf args ipam)
    after_bridge b created gws =
        Succeeds-bind {R = λ u. Based r conf.bridge l b created} _ _
          (Succeeds-on_error _ _ (
            Succeeds-wrapped bridge_address_add _ (
              Succeeds-Keeps _ (add_gateways-Based r conf args l b created own gws)
                (λ t h. (tt, add_gateways_ok r conf args w own l free b gws t)))))
          λ _.
            Succeeds-bind {R = λ u. Based r conf.bridge l b created} _ _
              (Succeeds-on_error _ _ (
                Succeeds-wrapped vhost_socket_dir _ (
                  Succeeds-Keeps _ (make_socket_dir-Based r conf args l b created)
                    (λ t h. (tt, socket_dir_ok r conf args w own l free t)))))
              λ _.
                Succeeds-bind {R = λ id t. Unit {0}} _ _
                  (Succeeds-on_error _ _ (
                    Succeeds-wrapped interface_add_stage _ (record {
                      succeeds = λ t h.
                          let (id, e) = port_ok r conf args w own l free b created t h in
                          (id, e, tt);
                    })))
                  (λ id. finish_add-Succeeds id (IsUsable-IsEntry ipam.ips usable))

    pub add_converted-Succeeds :
        Succeeds
          (At r (λ i. In i l))
          (λ y t. IsReported env conf args ipam y)
          (add_converted env conf args ipam)
    unfolding add_converted
    add_converted-Succeeds =
        let (gws, e) = gateways_for_total ipam usable in
        Succeeds-bind {R = λ b t. (created : Bool) × Based r conf.bridge l b created t} _ _
          (Succeeds-on_error _ _ (
            Succeeds-wrapped ensuring_bridge _ (
              Succeeds-Ends _ (ensure_bridge-Ensured r conf.bridge l)
                (ensure_ok r conf args w own l free))))
          λ b.
            Succeeds-bind-lift _ gws _ e
              (record { succeeds = λ t (created, h). (after_bridge b created gws).succeeds t h })
