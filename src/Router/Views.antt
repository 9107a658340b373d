-- ===== src/Router/Views.antt =====
-- The interfaces of grout as a predicate, which forgets the order of its list, and what
-- gcBridgeIfEmpty of pkg/cni/handler.go makes of it.
use grout_cni.Lock.Outcome.{is_locking}
use grout_cni.Base.{
  All, ℕ, ◌≡◌, refl, sym, ap, ◌∙◌, ◌≢◌, ◌↔◌, inl, inr, true, false, List, [], ◌∷◌, arith,
}
use grout_cni.Grout.{type_bridge, Iface}
use grout_cni.Host.{
  Reply, value, failed, Event, listed, iface_added, iface_deleted, address_added, addresses_flushed,
  Trace, Env,
}
use grout_cni.Bridge.{gc_bridge_if_empty}
use grout_cni.Bridge.Collect.{Any, Allows, IsEmptyBridge, Collected, gc_bridge_if_empty_lem}
use grout_cni.Router.{In, changes, assigns, Router}
-- Which interfaces there are.
use mathlib.Core.Path.{subst}

abbrev pub View : Type 1
View = Iface → Type 0

pub In-All : {P : Iface → Type 0} (l : List Iface) → ((i : Iface) → In i l → P i) → All P l
In-All [] h = tt
In-All (x ∷ xs) h = (h x (inl refl), In-All xs (λ i m. h i (inr m)))

pub All-In : (P : Iface → Type 0) (l : List Iface) (i : Iface) → All P l → In i l → P i
All-In P (x ∷ xs) i h (inl e) = subst P e h.0
All-In P (x ∷ xs) i h (inr m) = All-In P xs i h.1 m
All-In P [] i h m = absurd m

pub Any-In : {P : Iface → Type 0} (l : List Iface) → Any P l → (i : Iface) × In i l × P i
Any-In (x ∷ xs) (inl p) = (x, inl refl, p)
Any-In (x ∷ xs) (inr m) = let (i, k, p) = Any-In xs m in (i, inr k, p)
Any-In [] m = absurd m

pub In-Any : (P : Iface → Type 0) (l : List Iface) (i : Iface) → In i l → P i → Any P l
In-Any P (x ∷ xs) i (inl e) p = inl (subst P (sym e) p)
In-Any P (x ∷ xs) i (inr m) p = inr (In-Any P xs i m p)
In-Any P [] i m p = absurd m

-- Locking changes no interfaces and gives no addresses.
pub changes-locking : (e : Event) → is_locking e ≡ true → changes e ≡ false
changes-locking (iface_added req (value id)) h = cc h
changes-locking (iface_deleted id (value u)) h = cc h
changes-locking _ h = ground arith

pub assigns-locking : (id : ℕ) (e : Event) → is_locking e ≡ true → assigns id e ≡ false
assigns-locking id (address_added req r) h = cc h
assigns-locking id _ h = ground arith

-- The bridge with the id, where no interface is a member of it.
abbrev pub IsLone : ℕ → View → View
IsLone id s i = (i.id ≡ id) × (i.type ≡ type_bridge) × ((j : Iface) → s j → j.domain ≢ id)

-- All but that bridge.
abbrev pub without_lone : ℕ → View → View
without_lone id s i = s i × (¬ IsLone id s i)

module _ {env : Env} (r : Router env) where
  -- These are the interfaces that grout holds.
  abbrev pub Shows : Trace → View → Type 0
  Shows t s = (i : Iface) → In i (r.held t) ↔ s i

  pub Shows-held : (t : Trace) → Shows t (λ i. In i (r.held t))
  Shows-held t i = (λ h. h, λ h. h)

  pub Shows-iff : {s s' : View} (t : Trace) → Shows t s → ((i : Iface) → s i ↔ s' i) → Shows t s'
  Shows-iff t h k i = (λ m. (k i).0 ((h i).0 m), λ m. (h i).1 ((k i).1 m))

  pub Shows-kept :
      {s : View} (e : Event) (t : Trace) → changes e ≡ false → Shows t s → Shows (e ∷ t) s
  Shows-kept e t q h i = rw (r.held-kept e t q) (h i)

  -- An interface without addresses can always be deleted, so a failure means that there is none.
  pub not_held :
      {s : View} (id : ℕ) (t : Trace) {x : ℕ}
      → ((i : Iface) → s i → i.id ≡ id → r.addressed t id ≡ false)
      → Shows t s
      → env.del_iface id t ≡ failed x
      → (i : Iface) → s i
      → i.id ≢ id
  not_held id t bare h e i m q =
      let d : env.del_iface id t ≡ value tt =
        rw (← q) (r.deleting i t ((h i).1 m) (rw q (bare i m q))) in
      cc (d, e)

  pub Shows-deleted :
      {s : View} (id : ℕ) (t : Trace)
      → ((i : Iface) → s i → i.id ≡ id → r.addressed t id ≡ false)
      → Shows t s
      → Shows (iface_deleted id (env.del_iface id t) ∷ t) (λ j. s j × (j.id ≢ id))
  Shows-deleted {s} id t bare h = step (env.del_iface id t) refl
    where
      step :
          (d : Reply (Unit {0}))
          → env.del_iface id t ≡ d
          → Shows (iface_deleted id d ∷ t) (λ j. s j × (j.id ≢ id))
      step (value u) e = λ j. (
        λ k. let (k', n) = (r.held-deleted id t e j).0 k in ((h j).0 k', n),
        λ k. (r.held-deleted id t e j).1 ((h j).1 k.0, k.1),
      )
      step (failed x) e =
          Shows-iff {s = s} (iface_deleted id (failed x) ∷ t)
            (Shows-kept {s = s} (iface_deleted id (failed x)) t refl h)
            λ j. (λ m. (m, not_held id t bare h e j m), λ m. m.0)

  -- gcBridgeIfEmpty takes away the bridge with the id if it has no members, and nothing else.
  pub gc_bridge_if_empty-without_lone :
      {s : View} (id : ℕ) (t : Trace)
      → Shows t s
      → Shows (gc_bridge_if_empty env id t).1 (without_lone id s)
  gc_bridge_if_empty-without_lone {s} id t h = step (gc_bridge_if_empty_lem env id t).1
    where
      empty : (i : Iface) → s i → IsLone id s i → IsEmptyBridge id (r.held t)
      empty i m (e, b, none_in) = (
        In-Any (λ x. x.id ≡ id) (r.held t) i ((h i).1 m) e,
        In-All (r.held t) λ j k. (
          λ q. ap (λ (x : Iface). x.type) (r.unique_ids t j i k ((h i).1 m) (q ∙ sym e)) ∙ b,
          none_in j ((h j).0 k),
        ),
      )

      lone : (i : Iface) → s i → i.id ≡ id → IsEmptyBridge id (r.held t) → IsLone id s i
      lone i m e (a, l) = (
        e,
        (All-In (Allows id) (r.held t) i l ((h i).1 m)).0 e,
        λ j k. (All-In (Allows id) (r.held t) j l ((h j).1 k)).1,
      )

      step :
          Collected env id t (gc_bridge_if_empty env id t).1
          → Shows (gc_bridge_if_empty env id t).1 (without_lone id s)
      step (inl (e, not_empty)) = rw e (
          Shows-iff {s = s} (listed (env.list_all t) ∷ t)
            (Shows-kept {s = s} (listed (env.list_all t)) t refl h)
            λ i. (λ m. (m, λ k. not_empty (r.held t) (r.listing t) (empty i m k)), λ m. m.0))
      step (inr (ifaces, l, a, e)) =
          let shown : ifaces ≡ r.held t = cc (l, r.listing t) in
          let a' = subst (IsEmptyBridge id) shown a in
          let seen = listed (env.list_all t) ∷ t in
          let flushed = addresses_flushed id (env.flush id seen) ∷ seen in
          let bare : r.addressed flushed id ≡ false =
            rw (r.flushing id seen) (r.addressed-flushed id seen) in
          let h2 =
            Shows-kept {s = s} (addresses_flushed id (env.flush id seen)) seen refl
              (Shows-kept {s = s} (listed (env.list_all t)) t refl h) in
          let h3 = Shows-deleted {s = s} id flushed (λ i m q. bare) h2 in
          rw e
            (Shows-iff _ h3 λ j. (λ m. (m.0, λ x. m.1 x.0), λ m. (m.0, λ x. m.1 (lone j m.0 x a'))))
