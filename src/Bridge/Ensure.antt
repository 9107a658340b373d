-- ===== src/Bridge/Ensure.antt =====
-- ensureBridge of pkg/cni/handler.go: what it returns, and where the id comes from.
use grout_cni.Base.{
  All, Bytes, same→eq, eq→same, listing_interfaces, external, ok, wrap, ℕ, ◌≡◌, refl, ◌≢◌, ◌⊎◌, inl,
  inr, Option, none, some, List, [], ◌∷◌, arith,
}
use grout_cni.Base.State.{lift, reify, continue, ◌>>=◌}
use grout_cni.Grout.{type_bridge, Iface}
use grout_cni.Host.{
  Reply, value, failed, answer, listed, iface_added, Trace, Env, interface_list, interface_add,
}
use grout_cni.Bridge.{
  find_bridge_id, find_by_name, bridge_request, id_or_error, reuse_bridge, created_or_reused,
  found_or_created, ensure_bridge,
}
use grout_cni.Bridge.Collect.{Any}

-- The interface is a bridge of this name, and one with this id.
abbrev pub IsBridgeNamed : Bytes → Iface → Type 0
IsBridgeNamed name i = (i.name ≡ name) × (i.type ≡ type_bridge)

pub find_bridge_id-some :
    (ifaces : List Iface) (name : Bytes) (id : ℕ)
    → find_bridge_id ifaces name ≡ some id
    → Any (λ i. IsBridgeNamed name i × (i.id ≡ id)) ifaces
unfolding find_bridge_id
find_bridge_id-some [] name id h = ground arith
find_bridge_id-some (i ∷ is) name id h =
    ground (arith, same→eq i.name name, find_bridge_id-some is name id)

pub find_bridge_id-none :
    (ifaces : List Iface) (name : Bytes)
    → find_bridge_id ifaces name ≡ none
    → All (λ i. ¬ IsBridgeNamed name i) ifaces
unfolding find_bridge_id
find_bridge_id-none [] name h = tt
find_bridge_id-none (i ∷ is) name h =
    ground (arith, eq→same i.name name, find_bridge_id-none is name)

pub find_by_name-none :
    (ifaces : List Iface) (name : Bytes)
    → find_by_name ifaces name ≡ none
    → All (λ i. i.name ≢ name) ifaces
unfolding find_by_name
find_by_name-none [] name h = tt
find_by_name-none (i ∷ is) name h = ground (arith, eq→same i.name name, find_by_name-none is name)

pub find_by_name-some :
    (ifaces : List Iface) (name : Bytes) (id : ℕ)
    → find_by_name ifaces name ≡ some id
    → Any (λ i. (i.name ≡ name) × (i.id ≡ id)) ifaces
unfolding find_by_name
find_by_name-some [] name id h = ground arith
find_by_name-some (i ∷ is) name id h =
    ground (arith, same→eq i.name name, find_by_name-some is name id)

module _ (env : Env) (name : Bytes) (id : ℕ) (t : Trace) where
  -- The list shows the bridge, and nothing is created.
  abbrev pub WasListed : Trace → Type 0
  WasListed t' =
      (ifaces : List Iface) × (env.list_all t ≡ value ifaces)
      × Any (λ i. IsBridgeNamed name i × (i.id ≡ id)) ifaces
      × (t' ≡ listed (value ifaces) ∷ t)

  -- The list shows none, and the bridge is created.
  abbrev pub WasCreated : Trace → Type 0
  WasCreated t' =
      (ifaces : List Iface) × (env.list_all t ≡ value ifaces)
      × All (λ i. ¬ IsBridgeNamed name i) ifaces
      × (t' ≡ iface_added (bridge_request name) (value id) ∷ listed (value ifaces) ∷ t)

  -- The list shows none, the creation fails, and a second look shows an interface of that name.
  abbrev pub WasReused : Trace → Type 0
  WasReused t' =
      (e : ℕ) × (ifaces : List Iface) × (again : List Iface) × (env.list_all t ≡ value ifaces)
      × All (λ i. ¬ IsBridgeNamed name i) ifaces
      × Any (λ i. (i.name ≡ name) × (i.id ≡ id)) again
      × (t'
          ≡ listed (value again)
            ∷ iface_added (bridge_request name) (failed e)
            ∷ listed (value ifaces)
            ∷ t)

  module _ (t' : Trace) (ifaces : List Iface) (e : env.list_all t ≡ value ifaces) where
    reused :
        (x : ℕ) (r : Reply (List Iface))
        → All (λ i. ¬ IsBridgeNamed name i) ifaces
        → continue
            (reify (answer r))
            (reuse_bridge env name (external x))
            (listed r ∷ iface_added (bridge_request name) (failed x) ∷ listed (value ifaces) ∷ t)
          ≡ (ok id, t')
        → WasReused t'
    unfolding reuse_bridge ◌>>=◌
    reused x (value again) absent h = named (find_by_name again name) refl h
      where
        named :
            (o : Option ℕ)
            → find_by_name again name ≡ o
            → lift (id_or_error (external x) o) (
                listed (value again)
                ∷ iface_added (bridge_request name) (failed x)
                ∷ listed (value ifaces)
                ∷ t)
              ≡ (ok id, t')
            → WasReused t'
        named (some i) p q =
            (x, ifaces, again, e, absent, find_by_name-some again name id (cc (p, q)), cc q)
        named none p q = cc q
    reused x (failed y) absent h = cc h

    created :
        (r : Reply ℕ)
        → All (λ i. ¬ IsBridgeNamed name i) ifaces
        → continue
            (reify (answer r))
            (created_or_reused env name)
            (iface_added (bridge_request name) r ∷ listed (value ifaces) ∷ t)
          ≡ (ok id, t')
        → WasCreated t' ⊎ WasReused t'
    unfolding created_or_reused interface_list ◌>>=◌
    created (value i) absent h = inl (ifaces, e, absent, cc h)
    created (failed x) absent h = inr (reused x _ absent h)

    found :
        (o : Option ℕ)
        → find_bridge_id ifaces name ≡ o
        → found_or_created env name o (listed (value ifaces) ∷ t) ≡ (ok id, t')
        → WasListed t' ⊎ (WasCreated t' ⊎ WasReused t')
    unfolding found_or_created interface_add ◌>>=◌
    found (some i) p h = inl (ifaces, e, find_bridge_id-some ifaces name id (cc (p, h)), cc h)
    found none p h = inr (created _ (find_bridge_id-none ifaces name p) h)

  -- Where ensureBridge returns an id, it is that of a bridge of this name in grout's list, or of the
  -- bridge that it created since the list showed none, or, the creation having failed, of an
  -- interface of this name in a second list; and these are all the calls that it made.
  pub ensure_bridge_lem :
      (t' : Trace)
      → ensure_bridge env name t ≡ (ok id, t')
      → WasListed t' ⊎ (WasCreated t' ⊎ WasReused t')
  unfolding ensure_bridge interface_list ◌>>=◌
  ensure_bridge_lem t' h = step (env.list_all t) refl h
    where
      step :
          (r : Reply (List Iface))
          → env.list_all t ≡ r
          → continue
              (wrap listing_interfaces (answer r))
              (λ ifaces. found_or_created env name (find_bridge_id ifaces name))
              (listed r ∷ t)
            ≡ (ok id, t')
          → WasListed t' ⊎ (WasCreated t' ⊎ WasReused t')
      step (value ifaces) e p = found t' ifaces e (find_bridge_id ifaces name) refl p
      step (failed x) e p = cc p
