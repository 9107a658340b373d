-- ===== src/Ipam/Gateways.antt =====
-- gatewaysFor and podResult of pkg/cni/handler.go: nil entries and errors.
use grout_cni.Base.{
  All, Bytes, Error, Result, ok, err, panic, bind, ◌≡◌, refl, ◌≢◌, false, Option, none, some, List,
  [], ◌∷◌, arith,
}
use grout_cni.Net.{IpNet, mask_ip}
use grout_cni.Host.{IpConfig, CniResult}
use grout_cni.Ipam.{
  bump_last, gateway_of, Scan, gateway_round, gateway_loop, gateways_for, point_at_first,
}

-- An entry that is not nil.
abbrev pub IsEntry : Option IpConfig → Type 0
IsEntry none = ⊥
IsEntry (some ip) = Unit

gateway_loop-IsEntry :
    (st st' : Scan) (ips : List (Option IpConfig)) → gateway_loop st ips ≡ ok st' → All IsEntry ips
unfolding gateway_loop
gateway_loop-IsEntry st st' [] h = tt
gateway_loop-IsEntry st st' (none ∷ rest) h = ground arith
gateway_loop-IsEntry st st' (some ip ∷ rest) h =
    step (gateway_round st ip) h λ st'' h'. gateway_loop-IsEntry st'' st' rest h'
  where
    step :
        (r : Result Scan)
        → bind r (λ s. gateway_loop s rest) ≡ ok st'
        → ((s : Scan) → gateway_loop s rest ≡ ok st' → All IsEntry rest)
        → Unit {0} × All IsEntry rest
    step (ok s) e k = (tt, k s e)
    step (err x) e k = ground arith
    step panic e k = ground arith

-- Where gatewaysFor returns, no entry is nil.
pub gateways_for-IsEntry :
    (result : CniResult) (gws : List IpNet) → gateways_for result ≡ ok gws → All IsEntry result.ips
unfolding gateways_for
gateways_for-IsEntry result gws h = step (gateway_loop start result.ips) refl h
  where
    start : Scan
    start = record { seen4 = false; seen6 = false; gws = [] }

    step :
        (r : Result Scan)
        → gateway_loop start result.ips ≡ r
        → bind r (λ st. ok st.gws) ≡ ok gws
        → All IsEntry result.ips
    step (ok s) e p = gateway_loop-IsEntry start s result.ips e
    step (err x) e p = ground arith
    step panic e p = ground arith

-- Then the pod's result can be made.
pub point_at_first_total :
    (ips : List (Option IpConfig))
    → All IsEntry ips
    → (r : List (Option IpConfig)) × (point_at_first ips ≡ ok r)
unfolding point_at_first
point_at_first_total [] h = ([], refl)
point_at_first_total (none ∷ rest) h = absurd h.0
point_at_first_total (some ip ∷ rest) h =
    let (r, e) = point_at_first_total rest h.1 in
    (some (record ip { interface = some 0 }) ∷ r, rw e)

bump_last-ne-err : (b : Bytes) (e : Error) → bump_last b ≢ err e
unfolding bump_last
bump_last-ne-err [] e h = ground arith
bump_last-ne-err (b ∷ []) e h = ground arith
bump_last-ne-err (b ∷ c ∷ bs) e h = ground (arith, bump_last-ne-err (c ∷ bs) e)

gateway_of-ne-err : (ip : IpConfig) (e : Error) → gateway_of ip ≢ err e
unfolding gateway_of
gateway_of-ne-err ip e h =
    ground (arith, bump_last-ne-err (mask_ip ip.address.ip ip.address.mask) e)

gateway_round-ne-err : (st : Scan) (ip : IpConfig) (e : Error) → gateway_round st ip ≢ err e
unfolding gateway_round
gateway_round-ne-err st ip e h = ground (arith, gateway_of-ne-err ip e)

gateway_loop-ne-err :
    (st : Scan) (ips : List (Option IpConfig)) (e : Error) → gateway_loop st ips ≢ err e
unfolding gateway_loop
gateway_loop-ne-err st [] e h = ground arith
gateway_loop-ne-err st (none ∷ rest) e h = ground arith
gateway_loop-ne-err st (some ip ∷ rest) e h =
    step (gateway_round st ip) refl h (λ s. gateway_loop-ne-err s rest e)
  where
    step :
        (r : Result Scan)
        → gateway_round st ip ≡ r
        → bind r (λ s. gateway_loop s rest) ≡ err e
        → ((s : Scan) → gateway_loop s rest ≢ err e)
        → ⊥
    step (ok s) p q k = k s q
    step (err x) p q k = gateway_round-ne-err st ip x p
    step panic p q k = ground arith

-- gatewaysFor has no error of its own: it returns or panics.
pub gateways_for-ne-err : (result : CniResult) (e : Error) → gateways_for result ≢ err e
unfolding gateways_for
gateways_for-ne-err result e h =
    ground
      (arith, gateway_loop-ne-err (record { seen4 = false; seen6 = false; gws = [] }) result.ips e)
