-- ===== src/Bridge/Collect.antt =====
-- gcBridgeIfEmpty of pkg/cni/handler.go: when it deletes a bridge, and what it does to grout.
use grout_cni.Base.State.{pure, reify, attempt, continue, ◌>>=◌, ◌>>◌}
use grout_cni.Host.{
  Reply, value, failed, answer, listed, iface_deleted, addresses_flushed, Trace, Env,
  interface_list, interface_del, address_flush, dropped,
}
use mathlib.Core.Bool.{false≢true}
use grout_cni.Base.{
  ◌==◌, All, Result, ok, ℕ, ◌≡◌, refl, ◌∙◌, ◌≢◌, ◌↔◌, ◌⊎◌, inl, inr, Bool, true, false, ◌||◌, List,
  [], ◌∷◌, arith,
}
use grout_cni.Grout.{type_bridge, Iface}
use grout_cni.Bridge.{
  Verdict, keep, collect, gc_scan, collect_bridge, scan_and_collect, gc_bridge_if_empty,
}

-- Some item satisfies the predicate.
abbrev pub Any : {A : Type 0} → (A → Type 0) → List A → Type 0
Any P [] = ⊥
Any P (x ∷ xs) = P x ⊎ Any P xs

-- An interface that does not stand in the way: one with the id is a bridge, and none is a member.
abbrev pub Allows : ℕ → Iface → Type 0
Allows id iface = (iface.id ≡ id → iface.type ≡ type_bridge) × (iface.domain ≢ id)

-- The bridge is listed, as a bridge wherever its id is, and has no members.
abbrev pub IsEmptyBridge : ℕ → List Iface → Type 0
IsEmptyBridge id ifaces = Any (λ i. i.id ≡ id) ifaces × All (Allows id) ifaces

gc_scan_sound :
    (id : ℕ) (found : Bool) (ifaces : List Iface)
    → gc_scan id found ifaces ≡ collect
    → ((found ≡ true) ⊎ Any (λ i. i.id ≡ id) ifaces) × All (Allows id) ifaces
unfolding gc_scan
gc_scan_sound id found [] h = ground arith
gc_scan_sound id found (i ∷ is) h = ground (arith, gc_scan_sound id (i.id == id || found) is)

gc_scan_complete :
    (id : ℕ) (found : Bool) (ifaces : List Iface)
    → ((found ≡ true) ⊎ Any (λ i. i.id ≡ id) ifaces)
    → All (Allows id) ifaces
    → gc_scan id found ifaces ≡ collect
unfolding gc_scan
gc_scan_complete id found [] (inl h) a = rw h
gc_scan_complete id found [] (inr h) a = absurd h
gc_scan_complete id found (i ∷ is) h a =
    ground (arith, gc_scan_complete id (i.id == id || found) is)

-- The scan concludes that the bridge is to be deleted exactly if the list shows it, as a bridge, and
-- shows no member of it; the order of the list does not matter.
pub gc_scan_iff :
    (id : ℕ) (ifaces : List Iface) → (gc_scan id false ifaces ≡ collect) ↔ IsEmptyBridge id ifaces
gc_scan_iff id ifaces = (
  λ h. fst (gc_scan_sound id false ifaces h),
  λ h. gc_scan_complete id false ifaces (inr h.0) h.1,
)
  where
    fst :
        ((false ≡ true) ⊎ Any (λ i. i.id ≡ id) ifaces) × All (Allows id) ifaces
        → IsEmptyBridge id ifaces
    fst (inl e, a) = absurd (false≢true e)
    fst (inr h, a) = (h, a)

-- What gcBridgeIfEmpty leaves: the transcript with its look at the list, and if that shows an empty
-- bridge, behind it a flush of the bridge's addresses and then its deletion.
abbrev pub Collected : Env → ℕ → Trace → Trace → Type 0
Collected env id t t' =
    let seen = listed (env.list_all t) ∷ t in
    let flushed = addresses_flushed id (env.flush id seen) ∷ seen in
    ((t' ≡ seen)
      × ((ifaces : List Iface) → env.list_all t ≡ value ifaces → ¬ IsEmptyBridge id ifaces))
    ⊎ ((ifaces : List Iface) × (env.list_all t ≡ value ifaces)
        × IsEmptyBridge id ifaces
        × (t' ≡ iface_deleted id (env.del_iface id flushed) ∷ flushed))

module _ (env : Env) (id : ℕ) where
  collect_bridge_lem :
      (t : Trace)
      → collect_bridge env id collect t ≡ (
        ok tt,
        iface_deleted id (env.del_iface id (addresses_flushed id (env.flush id t) ∷ t))
            ∷ addresses_flushed id (env.flush id t)
            ∷ t,
      )
  unfolding collect_bridge address_flush interface_del ◌>>=◌
  collect_bridge_lem t =
      let flushed = addresses_flushed id (env.flush id t) ∷ t in
      dropped (env.flush id t) (attempt (interface_del env id) >> pure tt) flushed
      ∙ dropped (env.del_iface id flushed) (pure tt)
          (iface_deleted id (env.del_iface id flushed) ∷ flushed)

  -- gcBridgeIfEmpty never fails. It asks for the deletion of the bridge, with its addresses flushed
  -- first, exactly if the list is there and shows an empty bridge; otherwise it only looks.
  pub gc_bridge_if_empty_lem :
      (t : Trace)
      → ((gc_bridge_if_empty env id t).0 ≡ ok tt)
        × Collected env id t (gc_bridge_if_empty env id t).1
  unfolding gc_bridge_if_empty interface_list ◌>>=◌
  gc_bridge_if_empty_lem t = step (env.list_all t) refl
    where
      seen : Trace
      seen = listed (env.list_all t) ∷ t

      after : Reply (List Iface) → Result (Unit {0}) × Trace
      after r = continue (reify (answer r)) (scan_and_collect env id) seen

      decide :
          (ifaces : List Iface) (v : Verdict)
          → env.list_all t ≡ value ifaces
          → gc_scan id false ifaces ≡ v
          → (((collect_bridge env id v) seen).0 ≡ ok tt)
            × Collected env id t ((collect_bridge env id v) seen).1
      decide ifaces keep e p = (refl, inl (refl, λ l q h. cc (e, p, q, (gc_scan_iff id l).1 h)))
      decide ifaces collect e p =
          rw (collect_bridge_lem seen) (refl, inr (ifaces, e, (gc_scan_iff id ifaces).0 p, refl))

      step :
          (r : Reply (List Iface))
          → env.list_all t ≡ r
          → ((after r).0 ≡ ok tt) × Collected env id t (after r).1
      step (value ifaces) e = decide ifaces (gc_scan id false ifaces) e refl
      step (failed x) e = (refl, inl (refl, λ l q h. cc (e, q)))
