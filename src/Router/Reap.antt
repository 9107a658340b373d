-- ===== src/Router/Reap.antt =====
-- The loop of HandleGC of pkg/cni/handler.go against grout.
use grout_cni.Handlers.Common.{vhost_socket_path, remove_vhost_socket}
use grout_cni.Base.{
  Bool-cases, All, Bytes, Result, ok, ℕ, ◌≡◌, refl, sym, ap, ◌∙◌, ◌≢◌, ◌⊎◌, inl, inr, Bool, true,
  false, ◌||◌, List, [], ◌∷◌, ◌++◌, arith,
}
use grout_cni.Base.State.{reify, continue, ◌>>=◌}
use grout_cni.Grout.{Iface}
use grout_cni.PortName.{port_prefix}
use grout_cni.Host.{
  Reply, value, failed, answer, CmdArgs, Event, iface_deleted, file_removed, Trace, Env,
  interface_del, remove_file,
}
use grout_cni.Config.{PluginConf}
use grout_cni.Bridge.Collect.{Any}
use grout_cni.Router.{In, assigns, Router}
use grout_cni.Router.Views.{View, Shows, Shows-iff, Shows-kept, not_held, Shows-deleted}
use grout_cni.Handlers.Gc.{is_stale, after_reap, reap_one, reap}
use grout_cni.Handlers.Staleness.{IsUnknown, is_stale_iff}
use mathlib.Core.Path.{subst}
use mathlib.Core.Bool.{false≢true}

module _ (env : Env) (conf : PluginConf) (args : CmdArgs) (id : ℕ) where
  -- A member of the bridge with a name of the plugin's, which no valid attachment has.
  abbrev pub IsStale : View
  IsStale i =
      (i.domain ≡ id)
      × ((suffix : Bytes) × (i.name ≡ port_prefix ++ suffix))
      × IsUnknown env conf args i.name conf.valid_attachments

module _ {env : Env} (r : Router env) (conf : PluginConf) (args : CmdArgs) (id : ℕ)
    (t0 : Trace) where
  -- The stale interfaces that were there at the start have no addresses.
  abbrev pub AreBare : Trace → Type 0
  AreBare t =
      (i : Iface) → In i (r.held t0) → IsStale env conf args id i → r.addressed t i.id ≡ false

  AreBare-kept :
      (e : Event) (t : Trace) → ((i : ℕ) → assigns i e ≡ false) → AreBare t → AreBare (e ∷ t)
  AreBare-kept e t q h i m k = r.addressed-kept e i.id t (q i.id) (h i m k)

  -- What is left when the stale interfaces of the list are gone.
  abbrev pub less : List Iface → View → View
  less l s i = s i × (¬ (IsStale env conf args id i × In i l))

  -- What the loop leaves, and what its flag says.
  abbrev pub Looped : Bool → List Iface → View → Bool → Trace → Type 0
  Looped before l s after t =
      Shows r t (less l s)
      × AreBare t
      × (after ≡ true → (before ≡ true) ⊎ Any (IsStale env conf args id) l)
      × (after ≡ false
          → (before ≡ false) × ((i : Iface) → s i → In i l → ¬ IsStale env conf args id i))

  -- One deletion.
  abbrev Hit : Iface → View → Bool → Trace → Type 0
  Hit i s hit t =
      Shows r t (λ j. s j × (j.id ≢ i.id))
      × AreBare t
      × (hit ≡ false → (j : Iface) → s j → j.id ≢ i.id)

  reap_one-Shows :
      (i : Iface) (s : View) (t : Trace)
      → In i (r.held t0)
      → IsStale env conf args id i
      → Shows r t s
      → AreBare t
      → (hit : Bool) × ((reap_one env conf args i t).0 ≡ ok hit)
        × Hit i s hit (reap_one env conf args i t).1
  unfolding reap_one interface_del remove_vhost_socket remove_file ◌>>=◌
  reap_one-Shows i s t m k h bare =
      step (env.del_iface i.id t) refl (Shows-deleted r {s = s} i.id t (λ j x q. bare i m k) h)
    where
      after : Reply (Unit {0}) → Result Bool × Trace
      after d = continue (reify (answer d)) (after_reap env conf args i) (iface_deleted i.id d ∷ t)

      step :
          (d : Reply (Unit {0}))
          → env.del_iface i.id t ≡ d
          → Shows r (iface_deleted i.id (env.del_iface i.id t) ∷ t) (λ j. s j × (j.id ≢ i.id))
          → (hit : Bool) × ((after d).0 ≡ ok hit) × Hit i s hit (after d).1
      step (value u) e h1 =
          let t1 = iface_deleted i.id (value u) ∷ t in
          let path = vhost_socket_path conf.grout_socket_path i.name in
          let gone = file_removed path (env.remove path t1) in
          (
            true,
            refl,
            (
              Shows-kept r gone t1 refl (rw e at h1),
              AreBare-kept gone t1 (λ x. refl)
                  (AreBare-kept (iface_deleted i.id (value u)) t (λ x. refl) bare),
              λ q. cc q,
            ),
          )
      step (failed x) e h1 = (
        false,
        refl,
        (
          rw e at h1,
          AreBare-kept (iface_deleted i.id (failed x)) t (λ y. refl) bare,
          λ q. not_held r {s = s} i.id t (λ j y z. bare i m k) h e,
        ),
      )

  or_false : (x y : Bool) → (x || y) ≡ false → (x ≡ false) × (y ≡ false)
  or_false x y h = ground arith

  -- The loop behind a deletion, and behind an interface that is not stale.
  after_hit :
      (i : Iface) (is : List Iface) (s : View) (b hit any : Bool) (t : Trace)
      → In i (r.held t0)
      → IsStale env conf args id i
      → ((j : Iface) → s j → In j (r.held t0))
      → (hit ≡ false → (j : Iface) → s j → j.id ≢ i.id)
      → Looped (hit || b) is (λ j. s j × (j.id ≢ i.id)) any t
      → Looped b (i ∷ is) s any t
  after_hit i is s b hit any t m k within miss (h, bare, hits, misses) = (
    Shows-iff r t h λ j. (
      λ x. (
        x.0.0,
        λ y. elim (y.1) [ inl e ↦ x.0.1 (ap (λ (z : Iface). z.id) (sym e)) | inr n ↦ x.1 (y.0, n) ],
      ),
      λ x. (
        (
          x.0,
          λ q.
              let e = r.unique_ids t0 j i (within j x.0) m q in
              x.1 (subst (IsStale env conf args id) (sym e) k, inl (sym e)),
        ),
        λ y. x.1 (y.0, inr y.1),
      ),
    ),
    bare,
    λ e. elim (hits e) [ inl x ↦ inr (inl k) | inr x ↦ inr (inr x) ],
    λ e.
        let (x, gone) = misses e in
        let (x1, x2) = or_false hit b x in
        (
          x2,
          λ j m' n st. elim n [
            | inl q ↦ miss x1 j m' (ap (λ (z : Iface). z.id) (sym q))
            | inr n' ↦ gone j (m', miss x1 j m') n' st
          ],
        ),
  )

  after_skip :
      (i : Iface) (is : List Iface) (s : View) (b any : Bool) (t : Trace)
      → (¬ IsStale env conf args id i)
      → Looped b is s any t
      → Looped b (i ∷ is) s any t
  after_skip i is s b any t k (h, bare, hits, misses) = (
    Shows-iff r t h λ j. (
      λ x. (
        x.0,
        λ y. elim (y.1) [
          | inl e ↦ k (subst (IsStale env conf args id) (sym e) y.0)
          | inr n ↦ x.1 (y.0, n)
        ],
      ),
      λ x. (x.0, λ y. x.1 (y.0, inr y.1)),
    ),
    bare,
    λ e. elim (hits e) [ inl x ↦ inl x | inr x ↦ inr (inr x) ],
    λ e.
        let (x, gone) = misses e in
        (
          x,
          λ j m' n st. elim n [
            | inl q ↦ k (subst (IsStale env conf args id) (sym q) st)
            | inr n' ↦ gone j m' n' st
          ],
        ),
  )

  pub reap-Shows :
      (l : List Iface) (s : View) (b : Bool) (t : Trace)
      → All (λ i. In i (r.held t0)) l
      → ((i : Iface) → s i → In i (r.held t0))
      → Shows r t s
      → AreBare t
      → (any : Bool) × ((reap env conf args id b l t).0 ≡ ok any)
        × Looped b l s any (reap env conf args id b l t).1
  unfolding reap ◌>>=◌
  reap-Shows [] s b t al within h bare = (
    b,
    refl,
    (
      Shows-iff r t h (λ i. (λ m. (m, λ x. x.1), λ m. m.0)),
      bare,
      λ e. inl e,
      λ e. (e, λ i m x y. x),
    ),
  )
  reap-Shows (i ∷ is) s b t al within h bare = elim (Bool-cases (is_stale env conf args id i)) [
    | inl e ↦
        let k = (is_stale_iff env conf args id i).0 e in
        let (hit, p, (h1, bare1, miss)) = reap_one-Shows i s t al.0 k h bare in
        let t1 = (reap_one env conf args i t).1 in
        let (any, q, l) =
          reap-Shows is (λ j. s j × (j.id ≢ i.id)) (hit || b) t1 al.1 (λ j m. within j m.0) h1
            bare1 in
        (any, rw (e, p) q, rw (e, p) (after_hit i is s b hit any _ al.0 k within miss l))
    | inr e ↦
        let (any, q, l) = reap-Shows is s b t al.1 within h bare in
        let not_stale = λ (x : IsStale env conf args id i).
          false≢true (sym e ∙ (is_stale_iff env conf args id i).1 x) in
        (any, rw e q, rw e (after_skip i is s b any _ not_stale l))
  ]
