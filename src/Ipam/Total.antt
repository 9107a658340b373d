-- ===== src/Ipam/Total.antt =====
-- gatewaysFor of pkg/cni/handler.go: when it returns.
use grout_cni.Base.{
  Bool-cases, All, Bytes, ok, ◌+◌, ◌%◌, ◌≡◌, refl, ◌≢◌, ◌⊎◌, inl, inr, false, ◌&&◌, ◌||◌, not,
  Option, none, some, List, [], ◌∷◌, ◌++◌,
}
use grout_cni.Net.{IpNet, is_v4, mask_ip}
use grout_cni.Host.{IpConfig, CniResult}
use grout_cni.Ipam.{bump_last, gateway_of, Scan, gateway_round, gateway_loop, gateways_for}
use grout_cni.Ipam.Gateways.{IsEntry}

-- An entry with a gateway, or with an address that its mask fits.
abbrev pub IsUsable : Option IpConfig → Type 0
IsUsable none = ⊥
IsUsable (some ip) =
    ((gw : Bytes) × (ip.gateway ≡ some gw)) ⊎ (mask_ip ip.address.ip ip.address.mask ≢ [])

bump_last_total : (b : Bytes) → b ≢ [] → (r : Bytes) × (bump_last b ≡ ok r)
unfolding bump_last
bump_last_total [] h = absurd (h refl)
bump_last_total (b ∷ []) h = ((b + 1) % 256 ∷ [], refl)
bump_last_total (b ∷ c ∷ bs) h = let (r, e) = bump_last_total (c ∷ bs) (λ q. cc q) in (b ∷ r, rw e)

gateway_of_total : (ip : IpConfig) → IsUsable (some ip) → (gw : Bytes) × (gateway_of ip ≡ ok gw)
unfolding gateway_of
gateway_of_total ip (inl (gw, e)) = (gw, rw e)
gateway_of_total ip (inr fits) = step ip.gateway refl
  where
    step : (o : Option Bytes) → ip.gateway ≡ o → (gw : Bytes) × (gateway_of ip ≡ ok gw)
    step (some gw) e = (gw, rw e)
    step none e =
        let (r, q) = bump_last_total (mask_ip ip.address.ip ip.address.mask) fits in (r, rw e q)

gateway_round_total :
    (st : Scan) (ip : IpConfig) → IsUsable (some ip) → (st' : Scan) × (gateway_round st ip ≡ ok st')
unfolding gateway_round
gateway_round_total st ip h =
    let (gw, e) = gateway_of_total ip h in
    let v4 = is_v4 ip.address.ip in
    elim (Bool-cases (v4 && st.seen4 || not v4 && st.seen6)) [
      | inl t ↦ (st, rw t)
      | inr f ↦ (
        record {
          seen4 = v4 || st.seen4;
          seen6 = not v4 || st.seen6;
          gws = st.gws ++ (record { ip = gw; mask = ip.address.mask } ∷ []);
        },
        rw (f, e),
      )
    ]

gateway_loop_total :
    (st : Scan) (ips : List (Option IpConfig))
    → All IsUsable ips
    → (st' : Scan) × (gateway_loop st ips ≡ ok st')
unfolding gateway_loop
gateway_loop_total st [] h = (st, refl)
gateway_loop_total st (none ∷ rest) h = absurd h.0
gateway_loop_total st (some ip ∷ rest) h =
    let (st', e) = gateway_round_total st ip h.0 in
    let (st'', e') = gateway_loop_total st' rest h.1 in (st'', rw e e')

-- If every entry is usable, gatewaysFor returns.
pub gateways_for_total :
    (result : CniResult)
    → All IsUsable result.ips
    → (gws : List IpNet) × (gateways_for result ≡ ok gws)
unfolding gateways_for
gateways_for_total result h =
    let (st, e) =
      gateway_loop_total (record { seen4 = false; seen6 = false; gws = [] }) result.ips h in
    (st.gws, rw e)

pub IsUsable-IsEntry : (ips : List (Option IpConfig)) → All IsUsable ips → All IsEntry ips
IsUsable-IsEntry [] h = tt
IsUsable-IsEntry (none ∷ rest) h = absurd h.0
IsUsable-IsEntry (some ip ∷ rest) h = (tt, IsUsable-IsEntry rest h.1)
