-- ===== src/Config/BridgeName.antt =====
-- bridgeNameFor of pkg/cni/config.go: the length of the names, and when two networks share one.
use grout_cni.Base.{
  leb, leb→le, le→leb, lt→leb_false, Bool-cases, length, take, length-append, length-take, Bytes,
  codes, has_prefix, has_prefix-append, ℕ, ◌≤◌, ◌<◌, ◌≡◌, refl, sym, ap, ◌∙◌, ◌≢◌, inl, inr, true,
  ◌++◌, arith,
}
use grout_cni.Config.{hash_suffix, bridge_name_for}

length-hash_suffix : (network : Bytes) → length (hash_suffix network) ≡ 5
unfolding hash_suffix
length-hash_suffix network = refl

length-take_le : (n : ℕ) (s : Bytes) → n ≤ length s → length (take n s) ≡ n
length-take_le n s h = omega (arith, length-take n s)

module _ (network : Bytes) where
  bridge_name_for-short : length network ≤ 12 → bridge_name_for network ≡ codes "br-" ++ network
  unfolding bridge_name_for
  bridge_name_for-short h = rw (le→leb (length (codes "br-" ++ network)) 15 (omega arith))

  bridge_name_for-long :
      12 < length network
      → bridge_name_for network ≡ codes "br-" ++ (take 7 network ++ hash_suffix network)
  unfolding bridge_name_for
  bridge_name_for-long h = rw (lt→leb_false 15 (length (codes "br-" ++ network)) (omega arith))

  length-rest : 12 < length network → length (take 7 network ++ hash_suffix network) ≡ 12
  length-rest h = omega (
    arith,
    length-append (take 7 network) (hash_suffix network),
    length-take 7 network,
    length-hash_suffix network,
  )

  -- Whatever the network is called, its bridge has the prefix and at most 15 bytes.
  pub bridge_name_for_bounds :
      (length (bridge_name_for network) ≤ 15)
      × (has_prefix (bridge_name_for network) (codes "br-") ≡ true)
  bridge_name_for_bounds = elim (Bool-cases (leb (length network) 12)) [
    | inl short ↦
        rw (bridge_name_for-short (leb→le _ 12 short))
          (omega (arith, leb→le (length network) 12 short), has_prefix-append (codes "br-") network)
    | inr long ↦
        let h : 12 < length network = ground arith in
        rw (bridge_name_for-long h)
          (omega (arith, length-rest h), has_prefix-append (codes "br-") _)
  ]

-- A network of more than 12 bytes shares its bridge with another network, one of 12 bytes.
pub bridge_name_for_collides :
    (network : Bytes)
    → 12 < length network
    → (other : Bytes) × (length other ≡ 12)
      × (other ≢ network)
      × (bridge_name_for other ≡ bridge_name_for network)
bridge_name_for_collides network h =
    let size = length-rest network h in
    let other = take 7 network ++ hash_suffix network in
    (
      other,
      size,
      λ e. omega (arith, size, ap length e),
      bridge_name_for-short other (omega (arith, size)) ∙ sym (bridge_name_for-long network h),
    )
