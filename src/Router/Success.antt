-- ===== src/Router/Success.antt =====
-- HandleAdd of pkg/cni/handler.go on a host where the calls that it makes succeed: the IPAM result
-- and the lock around it.
use grout_cni.Lock.Granted.{with_lock-Succeeds}
use grout_cni.Router.Reporting.{add_converted-Succeeds}
use grout_cni.Router.Views.{Shows-held}
use grout_cni.Router.Progress.{IsWilling, IsReported}
use grout_cni.Ipam.Total.{IsUsable}
use grout_cni.Router.Addition.{ipam_add-At, At-IsUntouched}
use grout_cni.Base.Succeeds.{Succeeds, Succeeds-bind, Succeeds-wrapped}
use grout_cni.Handlers.Add.{add_converted, add_body, handle_add}
use grout_cni.Base.{
  All, Bytes, ipam_add_stage, converting_ipam_result, converting_result, invoking_ipam, ok, ◌≡◌,
  refl, ap, ◌∙◌, ◌≢◌, List, ◌++◌,
}
use grout_cni.Base.State.{lift}
use grout_cni.Grout.{Iface}
use grout_cni.PortName.{port_prefix}
use grout_cni.Host.{answer, CniResult, CmdArgs, Trace, Env, ipam_add}
use grout_cni.Config.{PluginConf}
use grout_cni.Router.{In, Router}
use grout_cni.Router.Bare.{ArePortsBare, At}
use grout_cni.Handlers.Common.{port_name}

module _ {env : Env} (r : Router env) (conf : PluginConf) (args : CmdArgs) {raw : Bytes}
    {ipam : CniResult} (w : IsWilling r args raw ipam)
    (own : (suffix : Bytes) → conf.bridge ≢ port_prefix ++ suffix) (l : List Iface)
    (free : (i : Iface) → In i l → i.name ≢ port_name env args)
    (usable : All IsUsable ipam.ips) where
  converted :
      (x : Bytes)
      → Succeeds
          (λ t. (x ≡ raw) × At r (λ i. In i l) t)
          (λ i t. (i ≡ ipam) × At r (λ i. In i l) t)
          (lift (answer (env.convert x)))
  unfolding lift
  converted x = record {
    succeeds = λ t (q, h).
        (ipam, ap (λ (y : Bytes). answer (env.convert y)) q ∙ ap answer w.converts, (refl, h));
  }

  converted_rest :
      (i : CniResult)
      → Succeeds
          (λ t. (i ≡ ipam) × At r (λ i. In i l) t)
          (λ y t. IsReported env conf args ipam y)
          (add_converted env conf args i)
  converted_rest i = record {
    succeeds =
        λ t (q, h). rw q ((add_converted-Succeeds r conf args w own l free usable).succeeds t h);
  }

  ipam_add_ok : (t : Trace) → (ipam_add env args t).0 ≡ ok raw
  unfolding ipam_add
  ipam_add_ok t = rw (w.leases t)

  add_body-Succeeds :
      Succeeds
        (At r (λ i. In i l))
        (λ y t. IsReported env conf args ipam y)
        (add_body env conf args)
  unfolding add_body
  add_body-Succeeds =
      Succeeds-bind {R = λ x t. (x ≡ raw) × At r (λ i. In i l) t} _ _
        (Succeeds-wrapped ipam_add_stage _ (
          Succeeds-wrapped invoking_ipam _ (record {
            succeeds =
                λ t h. (raw, ipam_add_ok t, (refl, (ipam_add-At r conf args own l).kept t h));
          })))
        λ x.
          Succeeds-bind {R = λ i t. (i ≡ ipam) × At r (λ i. In i l) t} _ _
            (Succeeds-wrapped converting_ipam_result _
              (Succeeds-wrapped converting_result _ (converted x)))
            converted_rest

  handle_add-Succeeds :
      Succeeds
        (At r (λ i. In i l))
        (λ y t. IsReported env conf args ipam y)
        (handle_add env conf args)
  unfolding handle_add
  handle_add-Succeeds =
      with_lock-Succeeds env (At-IsUntouched r conf args own l) w.locks conf.grout_socket_path
        (add_body env conf args) add_body-Succeeds (λ fd a t h. h)

-- ADD against grout, for a bridge whose name does not start with the prefix of the plugin's ports,
-- where these ports have no addresses of their own and grout holds none of the name of the
-- attachment's port. If the calls on the host succeed, the IPAM plugin's with a result that converts,
-- and on grout the additions of interfaces of new names and of addresses do, and if every entry of the IPAM result has a gateway or an address
-- that its mask fits, then ADD succeeds. It reports the socket of a virtio attachment; else the
-- pod's interface, as it is when there is no network namespace, and as its configuration leaves it
-- when there is one.
pub handle_add_succeeds :
    {env : Env} (r : Router env) (conf : PluginConf) (args : CmdArgs) {raw : Bytes}
    {ipam : CniResult} (t : Trace)
    → IsWilling r args raw ipam
    → ((suffix : Bytes) → conf.bridge ≢ port_prefix ++ suffix)
    → ((i : Iface) → In i (r.held t) → i.name ≢ port_name env args)
    → ArePortsBare r t
    → All IsUsable ipam.ips
    → (x : CniResult) × ((handle_add env conf args t).0 ≡ ok x) × IsReported env conf args ipam x
handle_add_succeeds r conf args t w own free bare usable =
    (handle_add-Succeeds r conf args w own (r.held t) free usable).succeeds t (Shows-held r t, bare)
