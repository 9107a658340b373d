-- ===== src/Router/RoundTrip.antt =====
-- HandleAdd and then HandleDel of pkg/cni/handler.go, for the same attachment, against grout.
use grout_cni.PortName.{port_prefix}
use grout_cni.Router.Bare.{ArePortsBare}
use grout_cni.Router.Detach.{IsLeftEmpty, detached}
use grout_cni.Router.Deletion.{Detached, handle_del-Detached}
use grout_cni.Router.Addition.{handle_add_attaches_port}
use grout_cni.Handlers.Del.{handle_del}
use grout_cni.Base.{
  Bytes, Result, ok, ℕ, ◌≡◌, refl, sym, ap, ◌∙◌, ◌≢◌, inl, inr, Bool, true, List, ◌++◌,
}
use grout_cni.Grout.{type_bridge, Iface}
use grout_cni.Host.{CniResult, CmdArgs, Trace, Env}
use grout_cni.Config.{PluginConf}
use grout_cni.Router.{In, Router}
use grout_cni.Router.Views.{View}
use grout_cni.Router.Ensure.{bridge_made, with_bridge, IsBase, based_bridge}
use grout_cni.Router.Attach.{port_name-prefix, port_made, with_port, Ported, Attached}
use grout_cni.Handlers.Common.{port_name}
use grout_cni.Handlers.Add.{handle_add}
-- A bridge of this name without members.
use mathlib.Core.Path.{subst}

abbrev pub IsUnused : Bytes → List Iface → View
IsUnused name l i =
    (i.name ≡ name) × (i.type ≡ type_bridge) × ((j : Iface) → In j l → j.domain ≢ i.id)

module _ {env : Env} (r : Router env) (conf : PluginConf) (args : CmdArgs) (l : List Iface)
    (t : Trace) (b : ℕ) (created : Bool) (id : ℕ)
    (ported : Ported r conf args l b created id t) where
  -- The port is the one interface of its name.
  same_port :
      (p : Iface)
      → with_port r conf args l b created id p
      → p.name ≡ port_name env args
      → p ≡ port_made r conf args l b id
  same_port p m n =
      let (_, _, (h, _)) = ported in
      r.unique_names t p (port_made r conf args l b id) ((h p).1 m)
        ((h (port_made r conf args l b id)).1 (inr refl)) n

  other_name : (i : Iface) → with_bridge conf.bridge l b created i → i.name ≢ port_name env args
  other_name i m n =
      let (_, fresh, _) = ported in fresh i m (ap (λ (x : Iface). x.id) (same_port i (inl m) n))

  named_port : (port_made r conf args l b id).name ≡ port_name env args
  named_port = refl

  on_bridge : (port_made r conf args l b id).domain ≡ b
  on_bridge = refl

  -- The bridge that was created loses its last member.
  bridge_goes :
      (i : Iface)
      → created ≡ true
      → i ≡ bridge_made conf.bridge b
      → IsLeftEmpty (port_name env args) (with_port r conf args l b created id) i
  bridge_goes i c q =
      let (base, _, _) = ported in
      let (nonzero, apart) = subst (IsBase conf.bridge l b) c base in
      let others =
        λ (j : Iface) (m : with_port r conf args l b created id j)
            (n : j.name ≢ port_name env args).
          elim m as (λ _. j.domain ≢ b) [
            | inl (inl k) ↦ (apart j k).2
            | inl (inr (_, x)) ↦ λ e. nonzero (sym e ∙ ap (λ (z : Iface). z.domain) x)
            | inr x ↦ absurd (n (ap (λ (z : Iface). z.name) x ∙ named_port))
          ] in
      (
        port_made r conf args l b id,
        inr refl,
        named_port,
        rw on_bridge nonzero,
        ap (λ (z : Iface). z.id) q ∙ sym on_bridge,
        ap (λ (z : Iface). z.type) q,
        λ j m n. rw on_bridge (others j m n),
      )

  -- A bridge that goes is the network's, and was not in use.
  bridge-IsUnused :
      (i : Iface)
      → In i l
      → IsLeftEmpty (port_name env args) (with_port r conf args l b created id) i
      → IsUnused conf.bridge l i
  bridge-IsUnused i m (p, k, n, nz, d, ty, none_in) =
      let e = ap (λ (z : Iface). z.domain) (same_port p k n) ∙ on_bridge in
      let (base, _, (h, _)) = ported in
      let (br, x, name_of, id_of) = based_bridge r conf.bridge l b created base in
      let q = r.unique_ids t i br ((h i).1 (inl (inl m))) ((h br).1 (inl x)) (d ∙ e ∙ sym id_of) in
      (
        ap (λ (z : Iface). z.name) q ∙ name_of,
        ty,
        λ j y w. none_in j (inl (inl y)) (other_name j (inl y)) (w ∙ d),
      )

  pub nothing_left :
      (i : Iface) → detached (port_name env args) (with_port r conf args l b created id) i → In i l
  nothing_left i (inl (inl m), n, left) = m
  nothing_left i (inl (inr (c, q)), n, left) = absurd (left (bridge_goes i c q))
  nothing_left i (inr q, n, left) = absurd (n (ap (λ (z : Iface). z.name) q ∙ named_port))

  pub nothing_lost :
      (i : Iface)
      → In i l
      → (¬ IsUnused conf.bridge l i)
      → detached (port_name env args) (with_port r conf args l b created id) i
  nothing_lost i m used =
      (inl (inl m), other_name i (inl m), λ left. used (bridge-IsUnused i m left))

-- An ADD that succeeds and then a DEL of the same attachment that succeeds, against grout, for a bridge
-- whose name does not start with the prefix of the plugin's ports and where these ports have no
-- addresses of their own, leave nothing behind: what grout holds then it held before. And they take
-- nothing away but perhaps a bridge of the configured name that had no members before either.
pub add_then_del :
    {env : Env} (r : Router env) (conf : PluginConf) (args : CmdArgs) (t t' t'' : Trace)
    (result : CniResult) (u : Unit {0})
    → ((suffix : Bytes) → conf.bridge ≢ port_prefix ++ suffix)
    → ArePortsBare r t
    → handle_add env conf args t ≡ (ok result, t')
    → handle_del env conf args t' ≡ (ok u, t'')
    → ((i : Iface) → In i (r.held t'') → In i (r.held t))
      × ((i : Iface) → In i (r.held t) → (¬ IsUnused conf.bridge (r.held t) i) → In i (r.held t''))
add_then_del {env} r conf args t t' t'' result u own bare added deleted =
    let l = r.held t in
    let (b, created, id, ported) =
      subst (λ (x : Result CniResult × Trace). Attached r conf args l x.0 x.1) added
        (handle_add_attaches_port r conf args t own bare) in
    let (_, _, (h, bare')) = ported in
    let s = with_port r conf args l b created id in
    let (suffix, e) = port_name-prefix env args in
    let left =
      subst (λ (x : Result (Unit {0}) × Trace). Detached r conf args s x.0 x.1) deleted
        ((handle_del-Detached r conf args s).ends t' (h, λ i m n. bare' i m (suffix, n ∙ e))) in
    (
      λ i m. nothing_left r conf args l t' b created id ported i ((left i).0 m),
      λ i m used. (left i).1 (nothing_lost r conf args l t' b created id ported i m used),
    )
