-- ===== src/Ipam.antt =====
-- What HandleAdd computes from the IPAM result: gatewaysFor, podResult and vhostResult of
-- pkg/cni/handler.go.
pub mod Choice
pub mod Gateways
pub mod Total
use grout_cni.Base.{
  if◌then◌else◌, Bytes, Result, ok, panic, bind, ◌+◌, ◌%◌, Bool, false, ◌&&◌, ◌||◌, not, Option,
  none, some, List, [], ◌∷◌, ◌++◌,
}
use grout_cni.Net.{IpNet, is_v4, mask_ip}
use grout_cni.Host.{IpConfig, PodIface, CniResult, CmdArgs}

-- gw[len(gw)-1]++ on a byte, which wraps. On nil the index is out of range.
unfoldable pub bump_last : Bytes → Result Bytes
bump_last [] = panic
bump_last (b ∷ []) = ok ((b + 1) % 256 ∷ [])
bump_last (b ∷ c ∷ bs) = bind (bump_last (c ∷ bs)) (λ r. ok (b ∷ r))

-- The gateway of an address: IPAM's, or the first host of the subnet.
unfoldable pub gateway_of : IpConfig → Result Bytes
unfolding bump_last
gateway_of ip = elim ip.gateway [
  | some gw ↦ ok gw
  | none ↦ bump_last (mask_ip ip.address.ip ip.address.mask)
]

-- The variables of the loop of gatewaysFor.
pub record Scan : Type 0 where
  pub seen4 : Bool
  pub seen6 : Bool
  pub gws : List IpNet

-- One round, on an entry that is not nil.
unfoldable pub gateway_round : Scan → IpConfig → Result Scan
gateway_round st ip =
    let v4 = is_v4 ip.address.ip in
    if v4 && st.seen4 || not v4 && st.seen6
    then ok st
    else bind (gateway_of ip) λ gw. ok (record {
      seen4 = v4 || st.seen4;
      seen6 = not v4 || st.seen6;
      gws = st.gws ++ (record { ip = gw; mask = ip.address.mask } ∷ []);
    })

-- An entry that is nil is dereferenced.
unfoldable pub gateway_loop : Scan → List (Option IpConfig) → Result Scan
unfolding gateway_round
gateway_loop st [] = ok st
gateway_loop st (none ∷ rest) = panic
gateway_loop st (some ip ∷ rest) = bind (gateway_round st ip) (λ st'. gateway_loop st' rest)

-- gatewaysFor
unfoldable pub gateways_for : CniResult → Result (List IpNet)
unfolding gateway_loop
gateways_for result =
    bind (gateway_loop (record { seen4 = false; seen6 = false; gws = [] }) result.ips)
      (λ st. ok st.gws)

-- The loop of podResult and vhostResult, which points each address at the first interface.
unfoldable pub point_at_first : List (Option IpConfig) → Result (List (Option IpConfig))
point_at_first [] = ok []
point_at_first (none ∷ rest) = panic
point_at_first (some ip ∷ rest) =
    bind (point_at_first rest) (λ rest'. ok (some (record ip { interface = some 0 }) ∷ rest'))

abbrev pub result_with : PodIface → CniResult → Result CniResult
result_with iface ipam =
    bind (point_at_first ipam.ips) λ ips. ok (record ipam { interfaces = iface ∷ []; ips = ips })

-- podResult
unfoldable pub pod_result : CmdArgs → CniResult → Result CniResult
unfolding point_at_first
pod_result args ipam =
    result_with (record { name = args.if_name; mac = []; sandbox = args.netns; socket_path = [] })
      ipam

-- vhostResult
unfoldable pub vhost_result : CmdArgs → CniResult → Bytes → Result CniResult
unfolding point_at_first
vhost_result args ipam socket_path =
    result_with (record { name = args.if_name; mac = []; sandbox = []; socket_path = socket_path })
      ipam
