-- ===== src/Ipam/Choice.antt =====
-- gatewaysFor of pkg/cni/handler.go: which gateways it chooses.
use grout_cni.Base.{
  if◌then◌else◌, Bytes, Result, ok, err, panic, bind, ◌≡◌, refl, sym, ◌∙◌, ◌⊎◌, inl, inr, Bool,
  true, false, not, Option, none, some, List, [], ◌∷◌, ◌++◌, append-nil, append_assoc, arith,
}
use grout_cni.Net.{IpNet, is_v4}
use grout_cni.Host.{IpConfig, CniResult}
use grout_cni.Ipam.{gateway_of, Scan, gateway_round, gateway_loop, gateways_for}

-- The first address of the family: IPv4, or all else.
abbrev pub first_of : Bool → List (Option IpConfig) → Option IpConfig
first_of v4 [] = none
first_of v4 (none ∷ rest) = first_of v4 rest
first_of v4 (some ip ∷ rest) =
    if is_v4 ip.address.ip
    then (if v4 then some ip else first_of v4 rest)
    else (if v4 then first_of v4 rest else some ip)

-- The list has the gateway of the address, with the address's mask, and nothing else.
abbrev pub IsGatewayOf : Option IpConfig → List IpNet → Type 0
IsGatewayOf none l = l ≡ []
IsGatewayOf (some ip) l =
    (gw : Bytes) × (gateway_of ip ≡ ok gw) × (l ≡ record { ip = gw; mask = ip.address.mask } ∷ [])

-- What the rest of the loop adds for a family that it has, or has not, seen.
abbrev Adds : Bool → Option IpConfig → List IpNet → Type 0
Adds true first l = l ≡ []
Adds false first l = IsGatewayOf first l

abbrev Picked : Bool → Bool → List (Option IpConfig) → List IpNet → List IpNet → Type 0
Picked seen4 seen6 ips gws gws' =
    (l4 : List IpNet) × (l6 : List IpNet) × Adds seen4 (first_of true ips) l4
    × Adds seen6 (first_of false ips) l6
    × ((gws' ≡ gws ++ (l4 ++ l6)) ⊎ (gws' ≡ gws ++ (l6 ++ l4)))

abbrev Round : Scan → IpConfig → Scan → Type 0
Round st ip st' =
    let with_gw = λ (gw : Bytes). st.gws ++ (record { ip = gw; mask = ip.address.mask } ∷ []) in
    ((is_v4 ip.address.ip ≡ true) × (st.seen4 ≡ true) × (st' ≡ st))
    ⊎ (((is_v4 ip.address.ip ≡ false) × (st.seen6 ≡ true) × (st' ≡ st))
        ⊎ ((gw : Bytes) × (gateway_of ip ≡ ok gw)
            × (((is_v4 ip.address.ip ≡ true)
                  × (st.seen4 ≡ false)
                  × (st' ≡ record { seen4 = true; seen6 = st.seen6; gws = with_gw gw }))
                ⊎ ((is_v4 ip.address.ip ≡ false)
                    × (st.seen6 ≡ false)
                    × (st' ≡ record { seen4 = st.seen4; seen6 = true; gws = with_gw gw })))))

gateway_round-Round :
    (st st' : Scan) (ip : IpConfig) → gateway_round st ip ≡ ok st' → Round st ip st'
unfolding gateway_round
gateway_round-Round st st' ip h =
    step (is_v4 ip.address.ip) st.seen4 st.seen6 (gateway_of ip) refl refl refl refl
  where
    step :
        (v s4 s6 : Bool) (r : Result Bytes)
        → is_v4 ip.address.ip ≡ v
        → st.seen4 ≡ s4
        → st.seen6 ≡ s6
        → gateway_of ip ≡ r
        → Round st ip st'
    step true true s6 r v a b g = inl (v, a, ground arith)
    step false s4 true r v a b g = inr (inl (v, b, ground arith))
    step true false s6 (ok gw) v a b g = inr (inr (gw, g, inl (v, a, ground arith)))
    step false s4 false (ok gw) v a b g = inr (inr (gw, g, inr (v, b, ground arith)))
    step true false s6 (err e) v a b g = ground arith
    step true false s6 panic v a b g = ground arith
    step false s4 false (err e) v a b g = ground arith
    step false s4 false panic v a b g = ground arith

Adds-none : (b : Bool) → Adds b none []
Adds-none true = refl
Adds-none false = refl

first_of-same :
    (b : Bool) (ip : IpConfig) (rest : List (Option IpConfig))
    → is_v4 ip.address.ip ≡ b
    → first_of b (some ip ∷ rest) ≡ some ip
first_of-same true ip rest v = rw v
first_of-same false ip rest v = rw v

first_of-other :
    (b : Bool) (ip : IpConfig) (rest : List (Option IpConfig))
    → is_v4 ip.address.ip ≡ b
    → first_of (not b) (some ip ∷ rest) ≡ first_of (not b) rest
first_of-other true ip rest v = rw v
first_of-other false ip rest v = rw v

append-once :
    (base one a b g : List IpNet)
    → a ≡ []
    → (g ≡ (base ++ one) ++ (a ++ b)) ⊎ (g ≡ (base ++ one) ++ (b ++ a))
    → g ≡ base ++ (one ++ b)
append-once base one a b g e (inl p) = p ∙ rw e (append_assoc base one b)
append-once base one a b g e (inr p) = p ∙ rw (e, append-nil) (append_assoc base one b)

swap : {A B : Type 0} → A ⊎ B → B ⊎ A
swap (inl a) = inr a
swap (inr b) = inl b

gateway_loop-Picked :
    (st st' : Scan) (ips : List (Option IpConfig))
    → gateway_loop st ips ≡ ok st'
    → Picked st.seen4 st.seen6 ips st.gws st'.gws
unfolding gateway_loop
gateway_loop-Picked st st' [] h = (
  [],
  [],
  Adds-none st.seen4,
  Adds-none st.seen6,
  inl (let e : st' ≡ st = cc h in rw (e, append-nil) refl),
)
gateway_loop-Picked st st' (none ∷ rest) h = ground arith
gateway_loop-Picked st st' (some ip ∷ rest) h =
    step (gateway_round st ip) refl h (λ mid. gateway_loop-Picked mid st' rest)
  where
    extend :
        (mid : Scan)
        → Round st ip mid
        → Picked mid.seen4 mid.seen6 rest mid.gws st'.gws
        → Picked st.seen4 st.seen6 (some ip ∷ rest) st.gws st'.gws
    extend mid (inl (v, s, e)) (l4, l6, a4, a6, g) =
        (l4, l6, rw s (rw (e, s) at a4), rw (first_of-other true ip rest v) (rw e at a6), rw e at g)
    extend mid (inr (inl (v, s, e))) (l4, l6, a4, a6, g) = (
      l4,
      l6,
      rw (first_of-other false ip rest v) (rw e at a4),
      rw s (rw (e, s) at a6),
      rw e at g,
    )
    extend mid (inr (inr (gw, c, inl (v, s, e)))) (l4, l6, a4, a6, g) =
        let one = record { ip = gw; mask = ip.address.mask } ∷ [] in
        (
          one,
          l6,
          rw (s, first_of-same true ip rest v) (gw, c, refl),
          rw (first_of-other true ip rest v) (rw e at a6),
          inl (append-once st.gws one l4 l6 st'.gws (rw e at a4) (rw e at g)),
        )
    extend mid (inr (inr (gw, c, inr (v, s, e)))) (l4, l6, a4, a6, g) =
        let one = record { ip = gw; mask = ip.address.mask } ∷ [] in
        (
          l4,
          one,
          rw (first_of-other false ip rest v) (rw e at a4),
          rw (s, first_of-same false ip rest v) (gw, c, refl),
          inr (append-once st.gws one l6 l4 st'.gws (rw e at a6) (swap (rw e at g))),
        )

    step :
        (r : Result Scan)
        → gateway_round st ip ≡ r
        → bind r (λ m. gateway_loop m rest) ≡ ok st'
        → ((mid : Scan)
            → gateway_loop mid rest ≡ ok st'
            → Picked mid.seen4 mid.seen6 rest mid.gws st'.gws)
        → Picked st.seen4 st.seen6 (some ip ∷ rest) st.gws st'.gws
    step (ok mid) e k ih = extend mid (gateway_round-Round st mid ip e) (ih mid k)
    step (err x) e k ih = cc k
    step panic e k ih = cc k

-- Where gatewaysFor returns, its list is the gateway of the first IPv4 address and that of the first
-- other address, in one order or the other, each with its address's mask; for a family without an
-- address there is none, and there are no others.
pub gateways_for_lem :
    (result : CniResult) (gws : List IpNet)
    → gateways_for result ≡ ok gws
    → (l4 : List IpNet) × (l6 : List IpNet) × IsGatewayOf (first_of true result.ips) l4
      × IsGatewayOf (first_of false result.ips) l6
      × ((gws ≡ l4 ++ l6) ⊎ (gws ≡ l6 ++ l4))
unfolding gateways_for
gateways_for_lem result gws h = step (gateway_loop start result.ips) refl h
  where
    start : Scan
    start = record { seen4 = false; seen6 = false; gws = [] }

    step :
        (r : Result Scan)
        → gateway_loop start result.ips ≡ r
        → bind r (λ st. ok st.gws) ≡ ok gws
        → (l4 : List IpNet) × (l6 : List IpNet) × IsGatewayOf (first_of true result.ips) l4
          × IsGatewayOf (first_of false result.ips) l6
          × ((gws ≡ l4 ++ l6) ⊎ (gws ≡ l6 ++ l4))
    step (ok st) e k =
        let (l4, l6, a4, a6, g) = gateway_loop-Picked start st result.ips e in
        let p : st.gws ≡ gws = cc k in
        (l4, l6, a4, a6, elim g [ inl q ↦ inl (sym p ∙ q) | inr q ↦ inr (sym p ∙ q) ])
    step (err x) e k = cc k
    step panic e k = cc k
