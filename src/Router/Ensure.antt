-- ===== src/Router/Ensure.antt =====
-- ensureBridge of pkg/cni/handler.go against grout: which interface it returns, and what it adds.
use grout_cni.Bridge.Ensure.{find_bridge_id-some, find_by_name-some}
use grout_cni.Base.State.{pure, lift, reify, continue, ◌>>=◌}
use grout_cni.Base.Ends.{Ends}
use grout_cni.Base.{
  Bytes, external, Result, ok, err, panic, ℕ, ◌≡◌, refl, ap, ◌≢◌, ◌⊎◌, inl, inr, Bool, true, false,
  Option, none, some, List, ◌∷◌,
}
use grout_cni.Grout.{type_bridge, Iface}
use grout_cni.Host.{
  Reply, value, failed, answer, listed, iface_added, Trace, Env, interface_list, interface_add,
}
use grout_cni.Bridge.{
  find_bridge_id, find_by_name, bridge_request, id_or_error, reuse_bridge, created_or_reused,
  found_or_created, ensure_bridge,
}
use grout_cni.Bridge.Collect.{Any}
use grout_cni.Router.{In, made, Router}
use grout_cni.Router.Views.{View, Any-In, Shows-iff}
use grout_cni.Router.Bare.{ArePortsBare-added, At, At-kept}

-- A bridge with the name and the id, a member of nothing.
abbrev pub bridge_made : Bytes → ℕ → Iface
bridge_made name id = record { id = id; type = type_bridge; name = name; domain = 0 }

module _ (name : Bytes) (l : List Iface) where
  -- The interfaces of the list, and the bridge if it was created.
  abbrev pub with_bridge : ℕ → Bool → View
  with_bridge b created i = In i l ⊎ ((created ≡ true) × (i ≡ bridge_made name b))

  -- What is known of the id: it is new, without members, and no interface had the name, or an interface with the name
  -- has it.
  abbrev pub IsBase : ℕ → Bool → Type 0
  IsBase b true = (b ≢ 0) × ((i : Iface) → In i l → (i.name ≢ name) × (i.id ≢ b) × (i.domain ≢ b))
  IsBase b false = (br : Iface) × In br l × (br.name ≡ name) × (br.id ≡ b)

module _ {env : Env} (r : Router env) (name : Bytes) (l : List Iface) where
  -- The interfaces are the list's, and the bridge if it was created.
  abbrev pub Based : ℕ → Bool → Trace → Type 0
  Based b created t = IsBase name l b created × At r (with_bridge name l b created) t

  abbrev pub Ensured : Result ℕ → Trace → Type 0
  Ensured (ok b) t = (created : Bool) × Based b created t
  Ensured (err e) t = At r (λ i. In i l) t
  Ensured panic t = ⊥

  pub based_bridge :
      (b : ℕ) (created : Bool)
      → IsBase name l b created
      → (br : Iface) × with_bridge name l b created br × (br.name ≡ name) × (br.id ≡ b)
  based_bridge b true k = (bridge_made name b, inr (refl, refl), refl, refl)
  based_bridge b false (br, m, n, e) = (br, inl m, n, e)

  pub not_created : (b : ℕ) (t : Trace) → Based b false t → At r (λ i. In i l) t
  not_created b t (_, (h, bare)) =
      (Shows-iff r t h (λ i. (λ m. elim m [ inl k ↦ k | inr x ↦ cc (x.0) ], λ m. inl m)), bare)

  as_before : (b : ℕ) (t : Trace) → At r (λ i. In i l) t → At r (with_bridge name l b false) t
  as_before b t (h, bare) =
      (Shows-iff r t h (λ i. (λ m. inl m, λ m. elim m [ inl k ↦ k | inr x ↦ cc (x.0) ])), bare)

  reused :
      (b : ℕ) (t : Trace) (seen : List Iface)
      → r.held t ≡ seen
      → At r (λ i. In i l) t
      → Any (λ i. (i.name ≡ name) × (i.id ≡ b)) seen
      → (created : Bool) × Based b created t
  reused b t seen q h a =
      let (br, m, (n, e)) = Any-In seen a in
      (false, ((br, (h.0 br).0 (rw q m), n, e), as_before b t h))

  created :
      (b : ℕ) (t : Trace)
      → env.add_iface (bridge_request name) t ≡ value b
      → At r (λ i. In i l) t
      → Based b true (iface_added (bridge_request name) (value b) ∷ t)
  created b t e (h, bare) =
      let req = bridge_request name in
      let add = r.held-added req b t e in
      let later = iface_added req (value b) ∷ t in
      let (nonzero, fresh) = r.fresh req b t e in
      (
        (
          nonzero,
          λ i m.
              let (other, no_member) = fresh i ((h i).1 m) in
              (
                λ n.
                    let twins =
                      r.unique_names later i (made req b) ((add i).1 (inr ((h i).1 m)))
                        ((add (made req b)).1 (inl refl)) n in
                    other (ap (λ (x : Iface). x.id) twins),
                other,
                no_member,
              ),
        ),
        (
          λ i. (
            λ m. elim ((add i).0 m) [ inl q ↦ inr (refl, q) | inr k ↦ inl ((h i).0 k) ],
            λ m. (add i).1 (elim m [ inl k ↦ inr ((h i).1 k) | inr q ↦ inl (q.1) ]),
          ),
          ArePortsBare-added r req b t e bare,
        ),
      )

  looked_again :
      (x : ℕ) (t : Trace) (seen : List Iface) (o : Option ℕ)
      → r.held t ≡ seen
      → find_by_name seen name ≡ o
      → At r (λ i. In i l) t
      → Ensured (id_or_error (external x) o) t
  looked_again x t seen none q e h = h
  looked_again x t seen (some b) q e h = reused b t seen q h (find_by_name-some seen name b e)

  after_create :
      (t : Trace)
      → At r (λ i. In i l) t
      → Ensured (found_or_created env name none t).0 (found_or_created env name none t).1
  unfolding found_or_created created_or_reused reuse_bridge interface_list interface_add lift ◌>>=◌
  after_create t h = step (env.add_iface (bridge_request name) t) refl
    where
      step :
          (d : Reply ℕ)
          → env.add_iface (bridge_request name) t ≡ d
          → Ensured
              (continue
                (reify (answer d))
                (created_or_reused env name)
                (iface_added (bridge_request name) d ∷ t)).0
              (continue
                (reify (answer d))
                (created_or_reused env name)
                (iface_added (bridge_request name) d ∷ t)).1
      step (value b) e = (true, created b t e h)
      step (failed x) e =
          let t1 = iface_added (bridge_request name) (failed x) ∷ t in
          let h1 =
            At-kept r (λ i. In i l) (iface_added (bridge_request name) (failed x)) t refl
              (λ id. refl) h in
          let e1 = listed (value (r.held t1)) in
          let h2 = At-kept r (λ i. In i l) e1 t1 refl (λ id. refl) h1 in
          rw (r.listing t1) (
            looked_again x (e1 ∷ t1) (r.held t1) (find_by_name (r.held t1) name)
              (r.held-kept e1 t1 refl) refl h2)

  found :
      (t : Trace) (seen : List Iface) (o : Option ℕ)
      → r.held t ≡ seen
      → find_bridge_id seen name ≡ o
      → At r (λ i. In i l) t
      → Ensured (found_or_created env name o t).0 (found_or_created env name o t).1
  unfolding found_or_created pure
  found t seen none q e h = after_create t h
  found t seen (some b) q e h =
      let (br, m, (n, k)) = Any-In seen (find_bridge_id-some seen name b e) in
      (false, ((br, (h.0 br).0 (rw q m), n.0, k), as_before b t h))

  -- The id is that of an interface of this name, or of the bridge that was created since there was
  -- none; a failure adds nothing.
  pub ensure_bridge-Ensured : Ends (At r (λ i. In i l)) Ensured (ensure_bridge env name)
  unfolding ensure_bridge interface_list ◌>>=◌
  ensure_bridge-Ensured = record { ends = λ t h. step t h }
    where
      step :
          (t : Trace)
          → At r (λ i. In i l) t
          → Ensured (ensure_bridge env name t).0 (ensure_bridge env name t).1
      step t h =
          let e = listed (value (r.held t)) in
          rw (r.listing t) (
            found (e ∷ t) (r.held t) (find_bridge_id (r.held t) name) (r.held-kept e t refl) refl
              (At-kept r (λ i. In i l) e t refl (λ id. refl) h))
