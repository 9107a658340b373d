-- ===== src/Router/Session.antt =====
-- Sequences of CNI calls on one node, which the file lock puts in an order: the handlers of
-- pkg/cni/handler.go one after another, for any networks and attachments, with any outcome.
use grout_cni.Base.State.{State}
use grout_cni.Base.Keeps.{Keeps}
use grout_cni.Router.Collection.{Cleaned, handle_gc_collects}
use grout_cni.Router.Addition.{handle_add_attaches_port}
use grout_cni.Base.{
  if◌then◌else◌, Bool-cases, Bytes, same, same→eq, Result, ok, err, panic, ◌≡◌, refl, sym, ap, ◌∙◌,
  ◌≢◌, inl, inr, List, [], ◌∷◌, ◌++◌,
}
use grout_cni.Grout.{Iface}
use grout_cni.PortName.{port_prefix}
use grout_cni.Host.{CniResult, CmdArgs, Trace, Env}
use grout_cni.Config.{PluginConf}
use grout_cni.Bridge.Collect.{Any}
use grout_cni.Router.{In, Router}
use grout_cni.Router.Views.{View}
use grout_cni.Router.Bare.{ArePortsBare, ArePortsBare-kept, ArePortsBare-deleted}
use grout_cni.Router.Attach.{port_name-prefix, Unattached, Attached}
use grout_cni.Router.Deletion.{Detached, handle_del_detaches}
use grout_cni.Router.Calm.{IsCalm, handle_check-Keeps, handle_del-Keeps, handle_gc-Keeps}
use grout_cni.Handlers.Common.{port_name}
use grout_cni.Handlers.Add.{handle_add}
use grout_cni.Handlers.Del.{handle_del}
use grout_cni.Handlers.Gc.{handle_gc}
use grout_cni.Handlers.Check.{handle_check}
use mathlib.Core.Path.{subst}

-- The interface has the name of one of the plugin's ports.
abbrev pub IsPort : View
IsPort i = (suffix : Bytes) × (i.name ≡ port_prefix ++ suffix)

abbrev pub drop_name : Bytes → List Bytes → List Bytes
drop_name name [] = []
drop_name name (n ∷ ns) = if same n name then drop_name name ns else n ∷ drop_name name ns

kept_name :
    (name other : Bytes) (names : List Bytes)
    → other ≢ name
    → Any (λ n. n ≡ other) names
    → Any (λ n. n ≡ other) (drop_name name names)
kept_name name other [] d m = absurd m
kept_name name other (n ∷ ns) d m = elim (Bool-cases (same n name)) [
  | inl e ↦ rw e (elim m [
    | inl q ↦ absurd (d (sym q ∙ same→eq n name e))
    | inr k ↦ kept_name name other ns d k
  ])
  | inr e ↦ rw e (elim m [ inl q ↦ inl q | inr k ↦ inr (kept_name name other ns d k) ])
]

-- The names of the ports that are in use: a successful ADD puts one in, a successful DEL takes it out.
abbrev pub noted : {A : Type 0} → Result A → Bytes → List Bytes → List Bytes
noted (ok a) name names = name ∷ names
noted (err e) name names = names
noted panic name names = names

abbrev pub crossed_out : {A : Type 0} → Result A → Bytes → List Bytes → List Bytes
crossed_out (ok a) name names = drop_name name names
crossed_out (err e) name names = names
crossed_out panic name names = names

-- What a sequence of calls leads to, from the transcript `start`.
pub data Reach (env : Env) (start : Trace) : List Bytes → Trace → Type 0 where
  begin : Reach env start [] start
  add :
      {names : List Bytes} {t t' : Trace} (conf : PluginConf) (args : CmdArgs)
      (x : Result CniResult)
      → ((suffix : Bytes) → conf.bridge ≢ port_prefix ++ suffix)
      → Reach env start names t
      → handle_add env conf args t ≡ (x, t')
      → Reach env start (noted x (port_name env args) names) t'
  del :
      {names : List Bytes} {t t' : Trace} (conf : PluginConf) (args : CmdArgs)
      (x : Result (Unit {0}))
      → Reach env start names t
      → handle_del env conf args t ≡ (x, t')
      → Reach env start (crossed_out x (port_name env args) names) t'
  check :
      {names : List Bytes} {t t' : Trace} (conf : PluginConf) (args : CmdArgs)
      (x : Result (Unit {0}))
      → Reach env start names t
      → handle_check env conf args t ≡ (x, t')
      → Reach env start names t'
  gc :
      {names : List Bytes} {t t' : Trace} (conf : PluginConf) (args : CmdArgs)
      (x : Result (Unit {0}))
      → Reach env start names t
      → handle_gc env conf args t ≡ (x, t')
      → Reach env start names t'

carried :
    {A : Type 0} {P : Trace → Type 0} (t t' : Trace) {m : State Trace A} {x : Result A}
    → m t ≡ (x, t')
    → Keeps P m
    → P t
    → P t'
carried {A} {P} t t' e k p = subst (λ (y : Result A × Trace). P y.1) e (k.kept t p)

module _ {env : Env} (r : Router env) where
  -- Each of the plugin's ports has one of the names, and no addresses.
  abbrev pub Owned : List Bytes → Trace → Type 0
  Owned names t =
      ArePortsBare r t × ((i : Iface) → In i (r.held t) → IsPort i → Any (λ n. n ≡ i.name) names)

  ArePortsBare-IsCalm : IsCalm (ArePortsBare r)
  ArePortsBare-IsCalm = record { calm = λ e t q a h. ArePortsBare-kept r e t q a h }

  fewer :
      (names : List Bytes) (t t' : Trace)
      → ArePortsBare r t'
      → ((i : Iface) → In i (r.held t') → In i (r.held t))
      → Owned names t
      → Owned names t'
  fewer names t t' bare sub (_, own) = (bare, λ i m p. own i (sub i m) p)

  Unattached-Owned :
      (conf : PluginConf) (args : CmdArgs) (names : List Bytes) (t t' : Trace)
      → ((suffix : Bytes) → conf.bridge ≢ port_prefix ++ suffix)
      → Owned names t
      → Unattached r conf args (r.held t) t'
      → Owned names t'
  Unattached-Owned conf args names t t' apart o (inl (h, bare)) =
      fewer names t t' bare (λ i m. (h i).0 m) o
  Unattached-Owned conf args names t t' apart o (inr (b, (_, (h, bare)))) = (
    bare,
    λ i m p. elim ((h i).0 m) [
      | inl k ↦ o.1 i k p
      | inr (_, q) ↦ absurd (apart p.0 (sym (ap (λ (z : Iface). z.name) q) ∙ p.1))
    ],
  )

  add-Owned :
      (conf : PluginConf) (args : CmdArgs) (names : List Bytes) (t t' : Trace)
      (x : Result CniResult)
      → ((suffix : Bytes) → conf.bridge ≢ port_prefix ++ suffix)
      → Owned names t
      → Attached r conf args (r.held t) x t'
      → Owned (noted x (port_name env args) names) t'
  add-Owned conf args names t t' (ok x) apart o (b, created, id, (_, _, (h, bare))) = (
    bare,
    λ i m p. elim ((h i).0 m) [
      | inl (inl k) ↦ inr (o.1 i k p)
      | inl (inr (_, q)) ↦ absurd (apart p.0 (sym (ap (λ (z : Iface). z.name) q) ∙ p.1))
      | inr q ↦ inl (sym (ap (λ (z : Iface). z.name) q))
    ],
  )
  add-Owned conf args names t t' (err e) apart o h = Unattached-Owned conf args names t t' apart o h
  add-Owned conf args names t t' panic apart o h = Unattached-Owned conf args names t t' apart o h

  del-Owned :
      (conf : PluginConf) (args : CmdArgs) (names : List Bytes) (t t' : Trace)
      (x : Result (Unit {0}))
      → ArePortsBare r t'
      → Owned names t
      → Detached r conf args (λ i. In i (r.held t)) x t'
      → Owned (crossed_out x (port_name env args) names) t'
  del-Owned conf args names t t' (ok u) bare o h = (
    bare,
    λ i m p. let (k, n, _) = (h i).0 m in kept_name (port_name env args) i.name names n (o.1 i k p),
  )
  del-Owned conf args names t t' (err e) bare o h = fewer names t t' bare (λ i m. (h i).0 m) o
  del-Owned conf args names t t' panic bare o h = absurd h

  gc-fewer :
      (conf : PluginConf) (args : CmdArgs) (t t' : Trace) (x : Result (Unit {0}))
      → Cleaned r conf args (λ i. In i (r.held t)) x t'
      → (i : Iface) → In i (r.held t')
      → In i (r.held t)
  gc-fewer conf args t t' (ok u) (inl (_, h)) i m = (h i).0 m
  gc-fewer conf args t t' (ok u) (inr (_, _, _, h)) i m = ((h i).0 m).0
  gc-fewer conf args t t' (err e) h i m = (h i).0 m
  gc-fewer conf args t t' panic h i m = absurd h

  checked : (l : List Iface) → IsCalm (λ t. (r.held t ≡ l) × ArePortsBare r t)
  checked l = record {
    calm = λ e t q a (h, bare). (r.held-kept e t q ∙ h, ArePortsBare-kept r e t q a bare);
  }

  -- From a grout that holds none of the plugin's ports, after any sequence of ADD, DEL, CHECK and GC,
  -- for any networks whose bridges are not named like such ports, for any attachments, and with any
  -- outcome of each: every one of the plugin's ports that grout holds has the name of an
  -- attachment that an ADD reported as attached, and that no DEL has reported as gone since.
  pub Reach-Owned :
      (start t : Trace) (names : List Bytes)
      → ((i : Iface) → In i (r.held start) → ¬ IsPort i)
      → Reach env start names t
      → Owned names t
  Reach-Owned start t names clean begin =
      ((λ i m p. absurd (clean i m p)), (λ i m p. absurd (clean i m p)))
  Reach-Owned start t names clean (add {names = ns} {t = before} conf args x apart reach e) =
      let o = Reach-Owned start before ns clean reach in
      add-Owned conf args ns before t x apart o (
        subst (λ (y : Result CniResult × Trace). Attached r conf args (r.held before) y.0 y.1) e
          (handle_add_attaches_port r conf args before apart o.0))
  Reach-Owned start t names clean (del {names = ns} {t = before} conf args x reach e) =
      let o = Reach-Owned start before ns clean reach in
      let (suffix, p) = port_name-prefix env args in
      let bare =
        carried before t e
          (handle_del-Keeps env ArePortsBare-IsCalm conf args
            (λ id u h. ArePortsBare-deleted r id (env.del_iface id u) u refl h))
          o.0 in
      del-Owned conf args ns before t x bare o (
        subst
          (λ (y : Result (Unit {0}) × Trace).
            Detached r conf args (λ i. In i (r.held before)) y.0 y.1)
          e (handle_del_detaches r conf args before (λ i m n. o.0 i m (suffix, n ∙ p))))
  Reach-Owned start t names clean (check {names = ns} {t = before} conf args x reach e) =
      let o = Reach-Owned start before ns clean reach in
      let l = r.held before in
      let (h, bare) =
        carried before t e (handle_check-Keeps env (checked l) conf args) (refl, o.0) in
      fewer ns before t bare (λ i m. rw h at m) o
  Reach-Owned start t names clean (gc {names = ns} {t = before} conf args x reach e) =
      let o = Reach-Owned start before ns clean reach in
      let bare =
        carried before t e
          (handle_gc-Keeps env ArePortsBare-IsCalm conf args
            (λ id u h. ArePortsBare-deleted r id (env.del_iface id u) u refl h))
          o.0 in
      let gone =
        subst
          (λ (y : Result (Unit {0}) × Trace).
            Cleaned r conf args (λ i. In i (r.held before)) y.0 y.1)
          e (handle_gc_collects r conf args before o.0) in
      fewer ns before t bare (gc-fewer conf args before t x gone) o
