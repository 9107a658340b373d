-- ===== src/Netns/Mac.antt =====
-- podMACFromResult of pkg/cni/netns.go: which address the MAC stands for.
use grout_cni.Base.{
  if◌then◌else◌, take, Bytes, ◌≡◌, refl, true, false, Option, none, some, List, [], ◌∷◌, arith,
}
use grout_cni.Net.{to4}
use grout_cni.Host.{IpConfig, CniResult}
use grout_cni.Ipam.Choice.{first_of}
use grout_cni.Client.Encoding.{take_all, to4-length}
use grout_cni.Netns.{mac_of_ip4, pod_mac_from_result}

-- A locally administered unicast MAC that ends in these four bytes.
abbrev pub local_mac : Bytes → Bytes
local_mac tail = 0x02 ∷ 0x00 ∷ tail

-- The first entry with an IPv4 address, in either form of net.IP.
mac_of_ip4-first :
    (ips : List (Option IpConfig)) (ip : IpConfig)
    → first_of true ips ≡ some ip
    → (ip4 : Bytes) × (to4 ip.address.ip ≡ some ip4) × (mac_of_ip4 ips ≡ some (local_mac ip4))
unfolding mac_of_ip4
mac_of_ip4-first [] ip h = cc h
mac_of_ip4-first (none ∷ rest) ip h = mac_of_ip4-first rest ip h
mac_of_ip4-first (some i ∷ rest) ip h = step (to4 i.address.ip) refl h (mac_of_ip4-first rest ip)
  where
    step :
        (o : Option Bytes)
        → to4 i.address.ip ≡ o
        → (if (elim o [ none ↦ false | some _ ↦ true ]) then (some i) else first_of true rest)
          ≡ some ip
        → (first_of true rest ≡ some ip
            → (ip4 : Bytes) × (to4 ip.address.ip ≡ some ip4)
              × (mac_of_ip4 rest ≡ some (local_mac ip4)))
        → (ip4 : Bytes) × (to4 ip.address.ip ≡ some ip4)
          × (elim o [ none ↦ mac_of_ip4 rest | some a ↦ some (0x02 ∷ 0x00 ∷ take 4 a) ]
              ≡ some (local_mac ip4))
    step none e q k = k q
    step (some a) e q k =
        let same_entry : i ≡ ip = cc q in
        (a, rw same_entry at e, rw (take_all 4 a (omega (arith, to4-length i.address.ip a e))) refl)

mac_of_ip4-none : (ips : List (Option IpConfig)) → first_of true ips ≡ none → mac_of_ip4 ips ≡ none
unfolding mac_of_ip4
mac_of_ip4-none [] h = refl
mac_of_ip4-none (none ∷ rest) h = mac_of_ip4-none rest h
mac_of_ip4-none (some i ∷ rest) h = ground (arith, mac_of_ip4-none rest)

-- A pod with an IPv4 address gets the local unicast MAC that ends in the first one's four bytes, so
-- two pods with the same MAC have the same first IPv4 address, in the form of four bytes.
pub pod_mac_from_result-first :
    (one two : CniResult) (ip jp : IpConfig)
    → first_of true one.ips ≡ some ip
    → first_of true two.ips ≡ some jp
    → ((ip4 : Bytes) × (to4 ip.address.ip ≡ some ip4)
        × (pod_mac_from_result one ≡ some (local_mac ip4)))
      × (pod_mac_from_result one ≡ pod_mac_from_result two → to4 ip.address.ip ≡ to4 jp.address.ip)
unfolding pod_mac_from_result
pod_mac_from_result-first one two ip jp h k =
    let (a, e, m) = mac_of_ip4-first one.ips ip h in
    let (b, f, n) = mac_of_ip4-first two.ips jp k in
    let p : pod_mac_from_result one ≡ some (local_mac a) = rw (pod_mac_from_result, m) refl in
    let q : pod_mac_from_result two ≡ some (local_mac b) = rw (pod_mac_from_result, n) refl in
    ((a, e, p), λ same_mac. cc (e, f, p, q, same_mac))
