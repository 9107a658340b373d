-- ===== src/Router/Detach.antt =====
-- HandleDel of pkg/cni/handler.go against grout: the port that goes, and the bridge that it leaves empty.
use grout_cni.Base.State.{pure, branch}
use grout_cni.Handlers.Deletion.{drop_bridge}
use grout_cni.Base.{
  ◌==◌, Bool-cases, All, Bytes, same, same→eq, eq→same, ◌≡◌, sym, ap, ◌∙◌, ◌≢◌, inl, inr, Bool,
  true, false, none, some, List, [], ◌∷◌, arith,
}
use grout_cni.Grout.{type_bridge, Iface}
use grout_cni.PortName.{find_port_by_name}
use grout_cni.Host.{CmdArgs, Trace, Env}
use grout_cni.Config.{PluginConf}
use grout_cni.Router.{In, Router}
use grout_cni.Router.Views.{
  View, All-In, without_lone, Shows, Shows-iff, gc_bridge_if_empty-without_lone,
}
use mathlib.Core.Path.{subst}

-- The bridge that loses its last member when the interface of this name goes.
abbrev pub IsLeftEmpty : Bytes → View → View
IsLeftEmpty name s i =
    (p : Iface) × s p
    × (p.name ≡ name)
    × (p.domain ≢ 0)
    × (i.id ≡ p.domain)
    × (i.type ≡ type_bridge)
    × ((j : Iface) → s j → j.name ≢ name → j.domain ≢ p.domain)

-- What is left of the interfaces when that of this name goes.
abbrev pub detached : Bytes → View → View
detached name s i = s i × (i.name ≢ name) × (¬ IsLeftEmpty name s i)

-- All interfaces but the port.
abbrev others : Iface → View → View
others p s i = s i × (i.id ≢ p.id)

pub find_port_by_name-some :
    (l : List Iface) (name : Bytes) (p : Iface)
    → find_port_by_name l name ≡ some p
    → In p l × (p.name ≡ name)
unfolding find_port_by_name
find_port_by_name-some [] name p h = cc h
find_port_by_name-some (i ∷ is) name p h = elim (Bool-cases (same i.name name)) [
  | inl e ↦
      let q : i ≡ p = cc (rw e at h) in
      (inl q, subst (λ (x : Iface). x.name ≡ name) q (same→eq i.name name e))
  | inr e ↦ let (m, q) = find_port_by_name-some is name p (rw e at h) in (inr m, q)
]

find_port_by_name-none :
    (l : List Iface) (name : Bytes) → find_port_by_name l name ≡ none → All (λ i. i.name ≢ name) l
unfolding find_port_by_name
find_port_by_name-none [] name h = tt
find_port_by_name-none (i ∷ is) name h =
    ground (arith, eq→same i.name name, find_port_by_name-none is name)

module _ {env : Env} (r : Router env) (conf : PluginConf) (args : CmdArgs) where
  -- Nothing of this name is held.
  pub no_port :
      {s : View} (name : Bytes) (t : Trace)
      → Shows r t s
      → find_port_by_name (r.held t) name ≡ none
      → Shows r t (detached name s)
  no_port {s} name t h e =
      let absent = find_port_by_name-none (r.held t) name e in
      let other : (i : Iface) → s i → i.name ≢ name =
        λ i m. All-In (λ x. x.name ≢ name) (r.held t) i absent ((h i).1 m) in
      Shows-iff r t h λ i. (λ m. (m, other i m, λ (p, k, q, _, _, _, _). other p k q), λ m. m.0)

  -- Without the port, and then without the bridge that it leaves empty.
  module _ {s : View} (name : Bytes) (t : Trace) (h : Shows r t s) (p : Iface) (found : s p)
      (named : p.name ≡ name) where
    other : (i : Iface) → s i → i.id ≢ p.id → i.name ≢ name
    other i m n q = n (
        ap (λ (x : Iface). x.id) (r.unique_names t i p ((h i).1 m) ((h p).1 found) (q ∙ sym named)))

    other_id : (i : Iface) → s i → i.name ≢ name → i.id ≢ p.id
    other_id i m n q =
        n (ap (λ (x : Iface). x.name) (r.unique_ids t i p ((h i).1 m) ((h p).1 found) q) ∙ named)

    same_port : (q : Iface) → s q → q.name ≡ name → q ≡ p
    same_port q m e = r.unique_names t q p ((h q).1 m) ((h p).1 found) (e ∙ sym named)

    kept_domain :
        (later : Trace)
        → p.domain ≡ 0
        → Shows r later (others p s)
        → Shows r later (detached name s)
    kept_domain later z k = Shows-iff r later k λ i. (
      λ m. (
        m.0,
        other i m.0 m.1,
        λ (q, k, e, nz, _, _, _). nz (ap (λ (x : Iface). x.domain) (same_port q k e) ∙ z),
      ),
      λ m. (m.0, other_id i m.0 m.1),
    )

    collected_domain :
        (later : Trace)
        → p.domain ≢ 0
        → Shows r later (without_lone p.domain (others p s))
        → Shows r later (detached name s)
    collected_domain later nz k = Shows-iff r later k λ i. (
      λ m. (
        m.0.0,
        other i m.0.0 m.0.1,
        λ (q, k, e, _, d, b, none_in).
            let dom = ap (λ (x : Iface). x.domain) (same_port q k e) in
            m.1 (d ∙ dom, b, λ j x y. none_in j x.0 (other j x.0 x.1) (y ∙ sym dom)),
      ),
      λ m. (
        (m.0, other_id i m.0 m.1),
        λ (d, b, none_in). m.2 (p, found, named, nz, d, b, λ j x y. none_in j (x, other_id j x y)),
      ),
    )

  pub drop_bridge-Shows :
      {s : View} (name : Bytes) (t0 t : Trace) (h : Shows r t0 s) (p : Iface) (found : s p)
      (named : p.name ≡ name) (b : Bool)
      → (p.domain == 0) ≡ b
      → Shows r t (others p s)
      → Shows r (drop_bridge env conf args p b t).1 (detached name s)
  unfolding branch pure
  drop_bridge-Shows name t0 t h p found named true z k =
      kept_domain name t0 h p found named t (ground arith) k
  drop_bridge-Shows name t0 t h p found named false z k =
      let t' = (drop_bridge env conf args p false t).1 in
      collected_domain name t0 h p found named t' (ground arith)
        (gc_bridge_if_empty-without_lone r p.domain t k)
