-- ===== src/Router/Checking.antt =====
-- HandleCheck of pkg/cni/handler.go against grout, after HandleAdd.
-- The lock can be had, a virtio socket is there, the previous result can be read, and the pod's
-- interface verifies.
use grout_cni.Handlers.Add.{handle_add}
use grout_cni.Router.Bare.{ArePortsBare}
use grout_cni.Router.Attach.{port_made, Attached}
use grout_cni.Router.Addition.{handle_add_attaches_port}
use mathlib.Core.Path.{subst}
use grout_cni.Base.{
  Bool-cases, is_some, Bytes, same, same_refl, listing_interfaces, port_missing, Result, ok, ◌≡◌,
  refl, ap, ◌∙◌, ◌≢◌, inl, inr, true, List, [], ◌∷◌, ◌++◌,
}
use grout_cni.Base.State.{guard, ◌>>=◌}
use grout_cni.Base.Succeeds.{
  Succeeds, Succeeds-bind, Succeeds-wrapped, Succeeds-branch, Succeeds-pure,
}
use grout_cni.Net.{IpNet}
use grout_cni.Grout.{Iface}
use grout_cni.Host.{
  value, CniResult, CmdArgs, Trace, Env, interface_list, verify_pod_iface, file_exists,
}
use grout_cni.Config.{PluginConf}
use grout_cni.PortName.{port_prefix, find_port_by_name}
use grout_cni.Lock.Outcome.{IsUntouched}
use grout_cni.Lock.Granted.{IsGranted, with_lock-Succeeds}
use grout_cni.Handlers.Common.{is_virtio, port_name}
use grout_cni.Handlers.Check.{expected_pod_ips, check_socket, check_pod, check_body, handle_check}
use grout_cni.Router.{In, Router}
use grout_cni.Router.Views.{changes-locking}

pub record IsSound (env : Env) (conf : PluginConf) (args : CmdArgs) : Type 0 where
  pub locks : IsGranted env
  pub exists : (path : Bytes) (t : Trace) → env.stat path t ≡ true
  pub expects : (ips : List IpNet) × (expected_pod_ips env conf args ≡ ok ips)
  pub verifies :
      (netns name : Bytes) (ips : List IpNet) (t : Trace) → env.verify netns name ips t ≡ value tt

found_port :
    (name : Bytes) (l : List Iface) (p : Iface)
    → In p l
    → p.name ≡ name
    → is_some (find_port_by_name l name) ≡ true
unfolding find_port_by_name
found_port name [] p m e = absurd m
found_port name (x ∷ xs) p (inl q) e = rw (ap (λ (i : Iface). i.name) q ∙ e, same_refl name)
found_port name (x ∷ xs) p (inr m) e = elim (Bool-cases (same x.name name)) [
  | inl s ↦ rw s
  | inr s ↦ rw s (found_port name xs p m e)
]

module _ {env : Env} (r : Router env) (conf : PluginConf) (args : CmdArgs)
    (sound : IsSound env conf args) where
  abbrev HasPort : Trace → Type 0
  HasPort t = (p : Iface) × In p (r.held t) × (p.name ≡ port_name env args)

  HasPort-IsUntouched : IsUntouched HasPort
  HasPort-IsUntouched = record {
    untouched = λ e t q (p, m, n). (p, rw (r.held-kept e t (changes-locking e q)) m, n);
  }

  check_socket-Succeeds :
      Succeeds (λ (t : Trace). Unit {0}) (λ u t. Unit {0}) (check_socket env conf args)
  unfolding check_socket file_exists guard ◌>>=◌
  check_socket-Succeeds = record { succeeds = λ t h. (tt, rw (sound.exists _ t), tt) }

  check_pod-Succeeds :
      Succeeds (λ (t : Trace). Unit {0}) (λ u t. Unit {0}) (check_pod env conf args)
  unfolding check_pod verify_pod_iface ◌>>=◌
  check_pod-Succeeds = record {
    succeeds = λ t h.
        let (ips, e) = sound.expects in
        (tt, rw (e, sound.verifies args.netns args.if_name ips t), tt);
  }

  list-Succeeds :
      Succeeds HasPort
        (λ ifaces t. is_some (find_port_by_name ifaces (port_name env args)) ≡ true)
        (interface_list env)
  unfolding interface_list
  list-Succeeds = record {
    succeeds = λ t (p, m, n).
        (r.held t, rw (r.listing t), found_port (port_name env args) (r.held t) p m n);
  }

  guard-Succeeds :
      (ifaces : List Iface)
      → Succeeds
          (λ (t : Trace). is_some (find_port_by_name ifaces (port_name env args)) ≡ true)
          (λ u t. Unit {0})
          (guard (is_some (find_port_by_name ifaces (port_name env args))) port_missing)
  unfolding guard
  guard-Succeeds ifaces = record { succeeds = λ t h. (tt, rw h, tt) }

  check_body-Succeeds : Succeeds HasPort (λ u t. Unit {0}) (check_body env conf args)
  unfolding check_body
  check_body-Succeeds =
      Succeeds-bind {R = λ ifaces t. is_some (find_port_by_name ifaces (port_name env args)) ≡ true}
        _ _ (Succeeds-wrapped listing_interfaces _ list-Succeeds)
        λ ifaces. Succeeds-bind {R = λ u t. Unit {0}} _ _ (guard-Succeeds ifaces) λ u.
          Succeeds-branch (is_virtio conf) _ _ (λ v. check_socket-Succeeds)
            λ v.
              Succeeds-branch (same args.netns []) _ _ (λ n. Succeeds-pure tt (λ t h. tt))
                (λ n. check_pod-Succeeds)

  handle_check-Succeeds : Succeeds HasPort (λ u t. Unit {0}) (handle_check env conf args)
  unfolding handle_check
  handle_check-Succeeds =
      with_lock-Succeeds env HasPort-IsUntouched sound.locks conf.grout_socket_path _
        check_body-Succeeds (λ fd a t h. tt)

-- An ADD that succeeds against grout, for a bridge whose name does not start with the prefix of the
-- plugin's ports and where these ports have no addresses of their own, is followed by a CHECK of the
-- same attachment, of any configuration. If the lock can be had, a socket that is looked up is
-- there, the addresses of the previous result can be determined, and a pod's interface that is
-- verified is in order, then this CHECK succeeds.
pub add_then_check :
    {env : Env} (r : Router env) (conf conf' : PluginConf) (args : CmdArgs) (t t1 : Trace)
    (x : CniResult)
    → ((suffix : Bytes) → conf.bridge ≢ port_prefix ++ suffix)
    → ArePortsBare r t
    → handle_add env conf args t ≡ (ok x, t1)
    → IsSound env conf' args
    → (handle_check env conf' args t1).0 ≡ ok tt
add_then_check {env} r conf conf' args t t1 x own bare added sound =
    let (b, created, id, (_, _, (h, _))) =
      subst (λ (o : Result CniResult × Trace). Attached r conf args (r.held t) o.0 o.1) added
        (handle_add_attaches_port r conf args t own bare) in
    let port = port_made r conf args (r.held t) b id in
    let (u, e, _) =
      (handle_check-Succeeds r conf' args sound).succeeds t1 (port, (h port).1 (inr refl), refl) in
    e
