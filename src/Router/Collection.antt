-- ===== src/Router/Collection.antt =====
-- HandleGC of pkg/cni/handler.go against grout, the lock included.
use grout_cni.Router.Bare.{ArePortsBare, ArePortsBare-kept}
use grout_cni.Lock.Outcome.{IsUntouched, with_lock-outcome}
use grout_cni.Base.Ends.{Ends}
use grout_cni.Bridge.Ensure.{IsBridgeNamed, find_bridge_id-some, find_bridge_id-none}
use grout_cni.Handlers.Gc.{reap, collect_on, gc_body, handle_gc}
use grout_cni.Bridge.{find_bridge_id, gc_bridge_if_empty}
use grout_cni.Bridge.Collect.{Any, gc_bridge_if_empty_lem}
use grout_cni.Base.{
  Result, ok, err, panic, ℕ, ◌≡◌, refl, ◌∙◌, ◌≢◌, ◌⊎◌, inl, inr, Bool, true, false, Option, none,
  some, List, ◌∷◌,
}
use grout_cni.Base.State.{◌>>=◌, bind-ok}
use grout_cni.Grout.{type_bridge, Iface}
use grout_cni.Host.{
  value, CmdArgs, unlocked, closed, ipam_collected, listed, Trace, Env, gc_ipam, interface_list,
}
use grout_cni.Config.{PluginConf}
use grout_cni.Router.{In, Router}
use grout_cni.Router.Views.{
  View, In-All, All-In, Any-In, changes-locking, assigns-locking, Shows, Shows-held, Shows-iff,
  Shows-kept, gc_bridge_if_empty-without_lone,
}
use grout_cni.Router.Reap.{IsStale, Looped, reap-Shows}
use grout_cni.Handlers.Reaping.{after_loop, after_loop-ok}
use mathlib.Core.Path.{subst}

module _ {env : Env} (r : Router env) (conf : PluginConf) (args : CmdArgs) where
  module _ (id : ℕ) where
    -- The network's bridge, when the stale ones were its last members.
    abbrev IsSweptEmpty : View → View
    IsSweptEmpty s i =
        ((p : Iface) × s p × IsStale env conf args id p)
        × (i.id ≡ id)
        × (i.type ≡ type_bridge)
        × ((j : Iface) → s j → (¬ IsStale env conf args id j) → j.domain ≢ id)

    -- What is left when the stale interfaces are gone.
    abbrev swept : View → View
    swept s i = s i × (¬ IsStale env conf args id i) × (¬ IsSweptEmpty s i)

    -- The flag of the loop says whether the bridge is looked at.
    finish-Shows :
        (t0 : Trace) (any : Bool) (t : Trace)
        → Looped r conf args id t0 false (r.held t0) (λ i. In i (r.held t0)) any t
        → Shows r (after_loop env conf args id any t).1 (swept (λ i. In i (r.held t0)))
    unfolding gc_ipam ◌>>=◌
    finish-Shows t0 false t (h, bare, hits, misses) =
        Shows-kept r (ipam_collected (env.gc_ipam args.stdin_data t)) t refl (
          Shows-iff r t h λ i. (
            λ m.
                (m.0, (misses refl).1 i m.0 m.0, λ ((p, k, st), _, _, _). (misses refl).1 p k k st),
            λ m. (m.0, λ y. m.1 y.0),
          ))
    finish-Shows t0 true t (h, bare, hits, misses) =
        let t' = (gc_bridge_if_empty env id t).1 in
        let h' = gc_bridge_if_empty-without_lone r id t h in
        let stale_one : Any (IsStale env conf args id) (r.held t0) = elim (hits refl) [
          | inl x ↦ cc x
          | inr x ↦ x
        ] in
        rw
          (bind-ok (gc_bridge_if_empty env id) (λ _. gc_ipam env args) t
            (gc_bridge_if_empty_lem env id t).0)
          (Shows-kept r (ipam_collected (env.gc_ipam args.stdin_data t')) t' refl (
            Shows-iff r t' h' λ i. (
              λ m. (
                m.0.0,
                λ st. m.0.1 (st, m.0.0),
                λ (_, e, b, none_in). m.1 (e, b, λ j y. none_in j y.0 (λ st. y.1 (st, y.0))),
              ),
              λ m. (
                (m.0, λ y. m.1 y.0),
                λ (e, b, none_in).
                    m.2 (Any-In (r.held t0) stale_one, e, b, λ j k n. none_in j (k, λ y. n y.0)),
              ),
            )))

  -- What GC leaves: without the network's bridge all is as it was; with it the stale ports are gone,
  -- and the bridge too if they were its last members. A GC that fails changes nothing.
  abbrev pub Cleaned : View → Result (Unit {0}) → Trace → Type 0
  Cleaned s (ok u) t =
      (((i : Iface) → s i → ¬ IsBridgeNamed conf.bridge i) × Shows r t s)
      ⊎ ((b : Iface) × s b × IsBridgeNamed conf.bridge b × Shows r t (swept b.id s))
  Cleaned s (err e) t = Shows r t s
  Cleaned s panic t = ⊥

  abbrev IsBefore : List Iface → Trace → Type 0
  IsBefore l t = (r.held t ≡ l) × ArePortsBare r t

  collect_on-Shows :
      (t : Trace) (o : Option ℕ)
      → find_bridge_id (r.held t) conf.bridge ≡ o
      → ArePortsBare r t
      → ((collect_on env conf args (r.held t) o t).0 ≡ ok tt)
        × Cleaned (λ i. In i (r.held t)) (ok tt) (collect_on env conf args (r.held t) o t).1
  unfolding collect_on gc_ipam ◌>>=◌
  collect_on-Shows t none e bare =
      let no_bridge = find_bridge_id-none (r.held t) conf.bridge e in
      (
        refl,
        inl (
          (λ i m. All-In (λ x. ¬ IsBridgeNamed conf.bridge x) (r.held t) i no_bridge m),
          Shows-kept r (ipam_collected (env.gc_ipam args.stdin_data t)) t refl (Shows-held r t),
        ),
      )
  collect_on-Shows t (some id) e bare =
      let s = λ (i : Iface). In i (r.held t) in
      let (b, m, (n, q)) = Any-In (r.held t) (find_bridge_id-some (r.held t) conf.bridge id e) in
      let (any, p, l) =
        reap-Shows r conf args id t (r.held t) s false t (In-All (r.held t) (λ i k. k)) (λ i k. k)
          (Shows-held r t) (λ i k st. bare i k st.1) in
      let t1 = (reap env conf args id false (r.held t) t).1 in
      let e' = bind-ok (reap env conf args id false (r.held t)) (after_loop env conf args id) t p in
      (
        rw e' (after_loop-ok env conf args id any t1),
        inr (b, m, n, rw (e', q) (finish-Shows id t any t1 l)),
      )

  collect_on_list :
      (l : List Iface) (t : Trace)
      → r.held t ≡ l
      → ArePortsBare r t
      → ((collect_on env conf args l (find_bridge_id l conf.bridge) t).0 ≡ ok tt)
        × Cleaned
            (λ i. In i l)
            (ok tt)
            (collect_on env conf args l (find_bridge_id l conf.bridge) t).1
  collect_on_list l t h bare =
      subst
        (λ (l' : List Iface).
          ((collect_on env conf args l' (find_bridge_id l' conf.bridge) t).0 ≡ ok tt)
          × Cleaned (λ i. In i l') (ok tt)
              (collect_on env conf args l' (find_bridge_id l' conf.bridge) t).1)
        h (collect_on-Shows t (find_bridge_id (r.held t) conf.bridge) refl bare)

  gc_body-Shows :
      (l : List Iface) → Ends (IsBefore l) (Cleaned (λ i. In i l)) (gc_body env conf args)
  unfolding gc_body interface_list ◌>>=◌
  gc_body-Shows l = record { ends = λ t h. step t h }
    where
      step :
          (t : Trace)
          → IsBefore l t
          → Cleaned (λ i. In i l) (gc_body env conf args t).0 (gc_body env conf args t).1
      step t (h, bare) =
          let e = listed (value l) in
          let k = r.held-kept e t refl ∙ h in
          let bare' = ArePortsBare-kept r e t refl (λ id. refl) bare in
          let (p, c) = collect_on_list l (e ∷ t) k bare' in rw (r.listing t, h, p) c

  IsBefore-IsUntouched : (l : List Iface) → IsUntouched (IsBefore l)
  IsBefore-IsUntouched l = record {
    untouched = λ e t q (h, bare).
        let c = changes-locking e q in
        (r.held-kept e t c ∙ h, ArePortsBare-kept r e t c (λ id. assigns-locking id e q) bare);
  }

  Shows-closed :
      {s : View} (fd : ℕ) (t : Trace) → Shows r t s → Shows r (closed fd ∷ unlocked fd ∷ t) s
  Shows-closed fd t h =
      Shows-kept r (closed fd) (unlocked fd ∷ t) refl (Shows-kept r (unlocked fd) t refl h)

  released :
      (s : View) (fd : ℕ) (u : Result (Unit {0})) (t : Trace)
      → Cleaned s u t
      → Cleaned s u (closed fd ∷ unlocked fd ∷ t)
  released s fd (ok u) t (inl (n, h)) = inl (n, Shows-closed fd t h)
  released s fd (ok u) t (inr (b, m, n, h)) = inr (b, m, n, Shows-closed fd t h)
  released s fd (err e) t h = Shows-closed fd t h
  released s fd panic t h = h

  -- GC against grout, if the plugin's ports there have no addresses of their own: it never panics, and
  -- if it fails, grout holds the interfaces that it held. If it succeeds and there is no bridge of
  -- the network's name, likewise. If there is one, grout holds just those that it held, less the
  -- members of that bridge whose name starts with the plugin's prefix and belongs to no valid
  -- attachment, and less the bridge itself, if there were any such and no others were members.
  pub handle_gc_collects :
      (t : Trace)
      → ArePortsBare r t
      → Cleaned (λ i. In i (r.held t)) (handle_gc env conf args t).0 (handle_gc env conf args t).1
  unfolding handle_gc
  handle_gc_collects t bare =
      let s = λ (i : Iface). In i (r.held t) in
      (with_lock-outcome env (IsBefore-IsUntouched (r.held t)) (gc_body env conf args)
          conf.grout_socket_path (gc_body-Shows (r.held t))
          (λ e t' h. subst (λ (l : List Iface). Shows r t' (λ i. In i l)) h.0 (Shows-held r t'))
          (released s)).ends
        t (refl, bare)
