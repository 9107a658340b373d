-- ===== src/Tests/OnNetns.antt =====
-- The calls on a network namespace at concrete inputs.
use grout_cni.Base.{Bytes, codes, same, ok, ◌≡◌, refl, ◌↔◌, true, some, [], ◌∷◌, ◌++◌}
use grout_cni.Base.Integer.{pos}
use grout_cni.Base.State.{◌>>=◌}
use grout_cni.Net.{to4}
use grout_cni.Host.{Reply, value}
use grout_cni.Ipam.Choice.{first_of}
use grout_cni.Netns.{
  Link, link_looked_up, set_down, renamed, mtu_set, mac_set, configured, LinkTrace, Namespace,
  link_by_name, link_set_down, link_set_name, link_set_mtu, link_set_mac, configure_iface,
  mac_of_ip4, pod_mac_from_result, rename_link, set_mtu, set_mac, configure_inside,
  verify_pod_interface,
}
use grout_cni.Netns.Mac.{local_mac, pod_mac_from_result-first}
use grout_cni.Netns.Verify.{Carries, verify_pod_interface_iff}
use grout_cni.Netns.Configure.{mac_calls, mtu_calls, IsRenamed, configure_inside_lem}
use grout_cni.Tests.Setting.{address, reserved_result}

abbrev tap : Link
tap = record { handle = 2; up = true; mac = 2 ∷ 0 ∷ 10 ∷ 0 ∷ 0 ∷ 7 ∷ [] }

-- A namespace with one link, where every call succeeds.
abbrev inside : Namespace
inside = record {
  by_name = λ name t. value tap;
  move_to = λ link path t. value tt;
  down = λ link t. value tt;
  rename = λ link name t. value tt;
  mtu = λ link mtu t. value tt;
  hardware = λ link mac t. value tt;
  configure = λ name result t. value tt;
  addrs = λ link t. value (some (10 ∷ 0 ∷ 0 ∷ 7 ∷ []) ∷ []);
}

first_of_test : first_of true reserved_result.ips ≡ some address
unfolding to4
first_of_test = refl

pod_mac_from_result-first_example :
    ((ip4 : Bytes) × (to4 address.address.ip ≡ some ip4)
      × (pod_mac_from_result reserved_result ≡ some (local_mac ip4)))
    × (pod_mac_from_result reserved_result ≡ pod_mac_from_result reserved_result
        → to4 address.address.ip ≡ to4 address.address.ip)
pod_mac_from_result-first_example =
    pod_mac_from_result-first reserved_result reserved_result address address first_of_test
      first_of_test

verify_pod_interface_iff_example :
    (verify_pod_interface (value tt) (value inside) (codes "eth0") (address.address ∷ []) ≡ ok tt)
    ↔ ((◌≡◌ {A = Reply (Unit {0})} (value tt) (value tt))
        × (ns : Namespace) × (value inside ≡ value ns)
        × Carries ns (codes "eth0") (address.address ∷ []) [])
verify_pod_interface_iff_example =
    verify_pod_interface_iff (value tt) (value inside) (codes "eth0") (address.address ∷ [])

abbrev shown : Bytes → Bytes
shown mac = mac

abbrev finished : LinkTrace
finished =
    link_looked_up (codes "eth0") (value tap)
    ∷ configured (codes "eth0") reserved_result (value tt)
    ∷ mac_set 2 (2 ∷ 0 ∷ 10 ∷ 0 ∷ 0 ∷ 7 ∷ []) (value tt)
    ∷ mtu_set 2 (pos 1500) (value tt)
    ∷ link_looked_up (codes "eth0") (value tap)
    ∷ renamed 2 (codes "eth0") (value tt)
    ∷ set_down 2 (value tt)
    ∷ link_looked_up (codes "grk-a") (value tap)
    ∷ []

configure_test :
    configure_inside inside shown (codes "grk-a") (codes "eth0") (pos 1500) reserved_result []
    ≡ (ok reserved_result, finished)
unfolding configure_inside rename_link set_mtu set_mac link_by_name link_set_down link_set_name
    link_set_mtu link_set_mac configure_iface pod_mac_from_result mac_of_ip4 to4 same ◌>>=◌
configure_test = refl

configure_inside_lem_example :
    (found : Link) × (link : Link) × (calls : LinkTrace) × (again : Reply Link) × IsRenamed
      (codes "grk-a")
      (codes "eth0")
      found
      link
      calls
    × (finished
        ≡ link_looked_up (codes "eth0") again
          ∷ configured (codes "eth0") reserved_result (value tt)
          ∷ (mac_calls link.handle (pod_mac_from_result reserved_result)
              ++ (mtu_calls link.handle (pos 1500)
                  ++ (calls ++ (link_looked_up (codes "grk-a") (value found) ∷ [])))))
configure_inside_lem_example =
    configure_inside_lem inside shown (codes "grk-a") (codes "eth0") (pos 1500) reserved_result
      reserved_result [] finished configure_test
