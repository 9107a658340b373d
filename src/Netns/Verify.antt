-- ===== src/Netns/Verify.antt =====
-- verifyPodInterface of pkg/cni/netns.go: when it succeeds.
use mathlib.Core.Bool.{false≢true}
use mathlib.Core.Path.{subst}
use grout_cni.Base.{
  Bool-cases, All, Bytes, link_not_found, link_down, listing_addresses, Result, ok, wrap, ℕ, ◌≡◌,
  refl, sym, ◌∙◌, ◌↔◌, ◌⊎◌, inl, inr, Bool, true, false, Option, none, some, List, [], ◌∷◌, arith,
}
use grout_cni.Base.State.{guard, continue, ◌>>=◌, ◌>>◌}
use grout_cni.Net.{IpNet, equal}
use grout_cni.Host.{Reply, value, failed, answer}
use grout_cni.Bridge.Collect.{Any}
use grout_cni.Netns.{
  Link, link_looked_up, addresses_listed, LinkTrace, Namespace, link_by_name, addr_list,
  addr_present, all_present, verify_addresses, verify_inside, in_namespace, verify_pod_interface,
}

-- The address is one of those listed, as net.IP.Equal has it.
abbrev pub IsListed : List (Option Bytes) → IpNet → Type 0
IsListed addrs want = Any (λ o. (a : Bytes) × (o ≡ some a) × (equal a want.ip ≡ true)) addrs

addr_present_sound :
    (addrs : List (Option Bytes)) (want : IpNet)
    → addr_present addrs want.ip ≡ true
    → IsListed addrs want
unfolding addr_present
addr_present_sound [] want h = ground arith
addr_present_sound (none ∷ rest) want h = inr (addr_present_sound rest want h)
addr_present_sound (some a ∷ rest) want h = elim (Bool-cases (equal a want.ip)) [
  | inl e ↦ inl (a, refl, e)
  | inr e ↦ inr (addr_present_sound rest want (rw e at h))
]

addr_present_complete :
    (addrs : List (Option Bytes)) (want : IpNet)
    → IsListed addrs want
    → addr_present addrs want.ip ≡ true
unfolding addr_present
addr_present_complete [] want h = absurd h
addr_present_complete (none ∷ rest) want (inl (a, e, q)) = cc e
addr_present_complete (none ∷ rest) want (inr h) = addr_present_complete rest want h
addr_present_complete (some a ∷ rest) want (inl (b, e, q)) = let p : a ≡ b = cc e in rw (p, q)
addr_present_complete (some a ∷ rest) want (inr h) = elim (Bool-cases (equal a want.ip)) [
  | inl e ↦ rw e refl
  | inr e ↦ rw e (addr_present_complete rest want h)
]

all_present_iff :
    (addrs : List (Option Bytes)) (expected : List IpNet) (t : LinkTrace)
    → ((all_present addrs expected t).0 ≡ ok tt) ↔ All (IsListed addrs) expected
unfolding all_present ◌>>=◌
all_present_iff addrs [] t = (λ h. tt, λ h. refl)
all_present_iff addrs (want ∷ rest) t =
    let ih = all_present_iff addrs rest t in
    elim (Bool-cases (addr_present addrs want.ip)) [
      | inl e ↦ (λ h. (addr_present_sound addrs want e, ih.0 (rw e at h)), λ h. rw e (ih.1 h.1))
      | inr e ↦ (
        λ h. cc (rw e at h),
        λ h. absurd (false≢true (sym e ∙ addr_present_complete addrs want h.0)),
      )
    ]

module _ (ns : Namespace) (name : Bytes) where
  -- The link is there and up, and if addresses are expected, they are listed and each is there.
  abbrev pub Carries : List IpNet → LinkTrace → Type 0
  Carries expected t =
      (link : Link) × (ns.by_name name t ≡ value link)
      × (link.up ≡ true)
      × ((expected ≡ [])
          ⊎ ((addrs : List (Option Bytes)) × (ns.addrs link.handle
                  (link_looked_up name (value link) ∷ t)
                ≡ value addrs)
              × All (IsListed addrs) expected))

  abbrev Listed : ℕ → List IpNet → LinkTrace → Type 0
  Listed handle expected t =
      (expected ≡ [])
      ⊎ ((addrs : List (Option Bytes)) × (ns.addrs handle t ≡ value addrs)
          × All (IsListed addrs) expected)

  verify_addresses_iff :
      (handle : ℕ) (expected : List IpNet) (t : LinkTrace)
      → ((verify_addresses ns handle expected t).0 ≡ ok tt) ↔ Listed handle expected t
  unfolding verify_addresses addr_list ◌>>=◌
  verify_addresses_iff handle [] t = (λ h. inl refl, λ h. refl)
  verify_addresses_iff handle (want ∷ rest) t = step (ns.addrs handle t) refl
    where
      after : Reply (List (Option Bytes)) → Result (Unit {0})
      after r =
          (continue (wrap listing_addresses (answer r)) (λ addrs. all_present addrs (want ∷ rest))
            (addresses_listed handle r ∷ t)).0

      step :
          (r : Reply (List (Option Bytes)))
          → ns.addrs handle t ≡ r
          → (after r ≡ ok tt) ↔ Listed handle (want ∷ rest) t
      step (value addrs) e =
          let i = all_present_iff addrs (want ∷ rest) (addresses_listed handle (value addrs) ∷ t) in
          (
            λ h. inr (addrs, e, i.0 h),
            λ h. elim h [
              | inl n ↦ cc n
              | inr (addrs', e', a) ↦
                  let q : addrs' ≡ addrs = cc (e, e') in
                  i.1 (subst (λ l. All (IsListed l) (want ∷ rest)) q a)
            ],
          )
      step (failed x) e =
          (λ h. cc h, λ h. elim h [ inl n ↦ cc n | inr (addrs', e', a) ↦ cc (e, e') ])

  verify_inside_iff :
      (expected : List IpNet) (t : LinkTrace)
      → ((verify_inside ns name expected t).0 ≡ ok tt) ↔ Carries expected t
  unfolding verify_inside link_by_name ◌>>=◌
  verify_inside_iff expected t = step (ns.by_name name t) refl
    where
      after : Reply Link → Result (Unit {0})
      after r =
          (continue (wrap link_not_found (answer r))
            (λ link. guard link.up link_down >> verify_addresses ns link.handle expected)
            (link_looked_up name r ∷ t)).0

      step : (r : Reply Link) → ns.by_name name t ≡ r → (after r ≡ ok tt) ↔ Carries expected t
      step (value link) e = gate link.up refl
        where
          seen : LinkTrace
          seen = link_looked_up name (value link) ∷ t

          gate :
              (b : Bool)
              → link.up ≡ b
              → (((guard b link_down >> verify_addresses ns link.handle expected) seen).0 ≡ ok tt)
                ↔ Carries expected t
          gate true u =
              let i = verify_addresses_iff link.handle expected seen in
              (
                λ h. (link, e, u, i.0 h),
                λ (link', e', _, h).
                    let q : link' ≡ link = cc (e, e') in
                    i.1 (
                      subst (λ l. Listed l.handle expected (link_looked_up name (value l) ∷ t)) q
                        h),
              )
          gate false d = (
            λ h. cc h,
            λ (link', e', u, _).
                let q : link' ≡ link = cc (e, e') in
                absurd (false≢true (sym d ∙ subst (λ l. l.up ≡ true) q u)),
          )
      step (failed x) e = (λ h. cc h, λ (link, e', _, _). cc (e, e'))

-- verifyPodInterface succeeds exactly if the namespace can be opened and entered, and in it a link of
-- the name is found, it is up, and, when addresses are expected, its addresses can be listed and each
-- expected one is among them; masks do not matter.
pub verify_pod_interface_iff :
    (opening : Reply (Unit {0})) (entering : Reply Namespace) (name : Bytes) (expected : List IpNet)
    → (verify_pod_interface opening entering name expected ≡ ok tt) ↔ (
        (opening ≡ value tt)
        × (ns : Namespace) × (entering ≡ value ns)
        × Carries ns name expected [])
unfolding verify_pod_interface in_namespace
verify_pod_interface_iff (failed x) entering name expected = (λ h. cc h, λ h. cc (h.0))
verify_pod_interface_iff (value _) (failed x) name expected = (λ h. cc h, λ (_, ns, e, _). cc e)
verify_pod_interface_iff (value _) (value ns) name expected =
    let i = verify_inside_iff ns name expected [] in
    (
      λ h. (refl, ns, refl, i.0 h),
      λ (_, ns', e, h).
          let q : ns' ≡ ns = cc e in i.1 (subst (λ n. Carries n name expected []) q h),
    )
