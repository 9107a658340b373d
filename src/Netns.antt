-- ===== src/Netns.antt =====
-- pkg/cni/netns.go: the calls on a pod's network namespace. netlink, the namespaces and the IPAM
-- library's ConfigureIface are not the program's: a namespace answers each call by a function of the
-- calls made in it so far, which it keeps, the newest first.
pub mod Mac
pub mod Verify
pub mod Configure
use grout_cni.Base.{
  if◌then◌else◌, take, drop, Bytes, same, finding_link, opening_netns, moving_link,
  finding_moved_link, setting_down, renaming, refinding_link, setting_mtu, setting_mac,
  configuring_iface, link_not_found, link_down, listing_addresses, address_missing, external,
  in_stage, Result, ok, err, panic, ℕ, Bool, true, false, Option, none, some, List, [], ◌∷◌,
}
use grout_cni.Base.Integer.{ℤ, exceeds}
use grout_cni.Base.State.{State, pure, lift, wrapped, branch, guard, attempt, ◌>>=◌, ◌>>◌}
use grout_cni.Net.{IpNet, to4, to16, equal}
use grout_cni.Host.{Reply, value, failed, answer, IpConfig, CniResult}

-- What the program sees of a netlink.Link.
pub record Link : Type 0 where
  pub handle : ℕ
  pub up : Bool
  pub mac : Bytes

pub data LinkEvent : Type 0 where
  link_looked_up : Bytes → Reply Link → LinkEvent
  namespace_set : ℕ → Bytes → Reply (Unit {0}) → LinkEvent
  set_down : ℕ → Reply (Unit {0}) → LinkEvent
  renamed : ℕ → Bytes → Reply (Unit {0}) → LinkEvent
  mtu_set : ℕ → ℤ → Reply (Unit {0}) → LinkEvent
  mac_set : ℕ → Bytes → Reply (Unit {0}) → LinkEvent
  configured : Bytes → CniResult → Reply (Unit {0}) → LinkEvent
  addresses_listed : ℕ → Reply (List (Option Bytes)) → LinkEvent

abbrev pub LinkTrace : Type 0
LinkTrace = List LinkEvent

-- A namespace. An entry of `addrs` is absent where the IPNet of the netlink.Addr is nil.
pub record Namespace : Type 0 where
  pub by_name : Bytes → LinkTrace → Reply Link
  pub move_to : ℕ → Bytes → LinkTrace → Reply (Unit {0})
  pub down : ℕ → LinkTrace → Reply (Unit {0})
  pub rename : ℕ → Bytes → LinkTrace → Reply (Unit {0})
  pub mtu : ℕ → ℤ → LinkTrace → Reply (Unit {0})
  pub hardware : ℕ → Bytes → LinkTrace → Reply (Unit {0})
  pub configure : Bytes → CniResult → LinkTrace → Reply (Unit {0})
  pub addrs : ℕ → LinkTrace → Reply (List (Option Bytes))

module _ (ns : Namespace) where
  unfoldable pub link_by_name : Bytes → State LinkTrace Link
  link_by_name name t = let r = ns.by_name name t in (answer r, link_looked_up name r ∷ t)

  unfoldable pub link_set_ns : ℕ → Bytes → State LinkTrace (Unit {0})
  link_set_ns link path t =
      let r = ns.move_to link path t in (answer r, namespace_set link path r ∷ t)

  unfoldable pub link_set_down : ℕ → State LinkTrace (Unit {0})
  link_set_down link t = let r = ns.down link t in (answer r, set_down link r ∷ t)

  unfoldable pub link_set_name : ℕ → Bytes → State LinkTrace (Unit {0})
  link_set_name link name t = let r = ns.rename link name t in (answer r, renamed link name r ∷ t)

  unfoldable pub link_set_mtu : ℕ → ℤ → State LinkTrace (Unit {0})
  link_set_mtu link mtu t = let r = ns.mtu link mtu t in (answer r, mtu_set link mtu r ∷ t)

  unfoldable pub link_set_mac : ℕ → Bytes → State LinkTrace (Unit {0})
  link_set_mac link mac t = let r = ns.hardware link mac t in (answer r, mac_set link mac r ∷ t)

  unfoldable pub configure_iface : Bytes → CniResult → State LinkTrace (Unit {0})
  configure_iface name result t =
      let r = ns.configure name result t in (answer r, configured name result r ∷ t)

  unfoldable pub addr_list : ℕ → State LinkTrace (List (Option Bytes))
  addr_list link t = let r = ns.addrs link t in (answer r, addresses_listed link r ∷ t)

-- The two loops of podMACFromResult. To4 has four bytes, and To16 sixteen.
unfoldable pub mac_of_ip4 : List (Option IpConfig) → Option Bytes
mac_of_ip4 [] = none
mac_of_ip4 (none ∷ rest) = mac_of_ip4 rest
mac_of_ip4 (some ip ∷ rest) =
    let later = mac_of_ip4 rest in
    elim (to4 ip.address.ip) [ none ↦ later | some ip4 ↦ some (0x02 ∷ 0x00 ∷ take 4 ip4) ]

unfoldable pub mac_of_ip6 : List (Option IpConfig) → Option Bytes
mac_of_ip6 [] = none
mac_of_ip6 (none ∷ rest) = mac_of_ip6 rest
mac_of_ip6 (some ip ∷ rest) =
    let later = mac_of_ip6 rest in
    elim (to16 ip.address.ip) [
      | none ↦ later
      | some ip6 ↦ some (0x02 ∷ 0x00 ∷ take 4 (drop 12 ip6))
    ]

-- podMACFromResult of a result that is not nil
unfoldable pub pod_mac_from_result : CniResult → Option Bytes
unfolding mac_of_ip4 mac_of_ip6
pod_mac_from_result result = elim (mac_of_ip4 result.ips) [
  | some mac ↦ some mac
  | none ↦ mac_of_ip6 result.ips
]

-- addrPresent
unfoldable pub addr_present : List (Option Bytes) → Bytes → Bool
addr_present [] ip = false
addr_present (none ∷ rest) ip = addr_present rest ip
addr_present (some a ∷ rest) ip =
    let later = addr_present rest ip in if equal a ip then true else later

-- The loop over the expected addresses.
unfoldable pub all_present : List (Option Bytes) → List IpNet → State LinkTrace (Unit {0})
unfolding addr_present
all_present addrs [] = pure tt
all_present addrs (want ∷ rest) = do
  guard (addr_present addrs want.ip) address_missing
  all_present addrs rest

module _ (ns : Namespace) where
  unfoldable pub verify_addresses : ℕ → List IpNet → State LinkTrace (Unit {0})
  unfolding all_present
  verify_addresses link [] = pure tt
  verify_addresses link (want ∷ rest) = do
    addrs ← wrapped listing_addresses (addr_list ns link)
    all_present addrs (want ∷ rest)

  -- verifyPodInterface, inside the namespace
  unfoldable pub verify_inside : Bytes → List IpNet → State LinkTrace (Unit {0})
  unfolding verify_addresses
  verify_inside name expected = do
    link ← wrapped link_not_found (link_by_name ns name)
    guard link.up link_down
    verify_addresses link.handle expected

  -- The rename of configurePodInterface, and the link under its name.
  unfoldable pub rename_link : Bytes → Bytes → Link → State LinkTrace Link
  rename_link host_name pod_name link = branch (same host_name pod_name) (pure link) do
    wrapped setting_down (link_set_down ns link.handle)
    wrapped renaming (link_set_name ns link.handle pod_name)
    wrapped refinding_link (link_by_name ns pod_name)

  unfoldable pub set_mtu : ℤ → Link → State LinkTrace (Unit {0})
  set_mtu mtu link =
      branch (exceeds 0 mtu) (wrapped setting_mtu (link_set_mtu ns link.handle mtu)) (pure tt)

  unfoldable pub set_mac : Option Bytes → Link → State LinkTrace (Unit {0})
  set_mac none link = pure tt
  set_mac (some mac) link = wrapped setting_mac (link_set_mac ns link.handle mac)

  -- `result.Interfaces[0].Mac = …`, if the link is found and there is an interface; `show` is
  -- HardwareAddr.String.
  abbrev pub fill_mac : (Bytes → Bytes) → Result Link → CniResult → CniResult
  fill_mac show (ok link) result = elim result.interfaces [
    | [] ↦ result
    | iface ∷ rest ↦ record result { interfaces = record iface { mac = show link.mac } ∷ rest }
  ]
  fill_mac show (err e) result = result
  fill_mac show panic result = result

  -- configurePodInterface, inside the namespace
  unfoldable pub configure_inside :
      (Bytes → Bytes) → Bytes → Bytes → ℤ → CniResult → State LinkTrace CniResult
  unfolding rename_link set_mtu set_mac pod_mac_from_result
  configure_inside show host_name pod_name mtu result = do
    found ← wrapped finding_moved_link (link_by_name ns host_name)
    link ← rename_link host_name pod_name found
    set_mtu mtu link
    set_mac (pod_mac_from_result result) link
    wrapped configuring_iface (configure_iface ns pod_name result)
    again ← attempt (link_by_name ns pod_name)
    pure (fill_mac show again result)

  -- linkExists
  unfoldable pub link_exists : Bytes → State LinkTrace Bool
  link_exists name = do
    found ← attempt (link_by_name ns name)
    pure (elim found [ ok _ ↦ true | err _ ↦ false | panic ↦ false ])

  -- moveLinkToNamespace, in the namespace of the host; `path` is opened in between.
  unfoldable pub move_link_to_namespace :
      Bytes → Bytes → Reply (Unit {0}) → State LinkTrace (Unit {0})
  move_link_to_namespace name path opening = do
    link ← wrapped finding_link (link_by_name ns name)
    wrapped opening_netns (lift (answer opening))
    wrapped moving_link (link_set_ns ns link.handle path)

-- verifyPodInterface and configurePodInterface: ns.GetNS opens the namespace, and Do enters it and runs
-- the body there. An error of Do itself, like one of the body, is returned as it is.
unfoldable pub in_namespace :
    {A : Type 0} → Reply (Unit {0}) → Reply Namespace → (Namespace → State LinkTrace A) → Result A
in_namespace (failed e) entering body = err (in_stage opening_netns (external e))
in_namespace (value _) (failed e) body = err (external e)
in_namespace (value _) (value ns) body = (body ns []).0

-- configurePodInterface
unfoldable pub configure_pod_interface :
    (Bytes → Bytes)
    → Reply (Unit {0})
    → Reply Namespace
    → Bytes
    → Bytes
    → ℤ
    → CniResult
    → Result CniResult
unfolding in_namespace configure_inside
configure_pod_interface show opening entering host_name pod_name mtu result =
    in_namespace opening entering (λ ns. configure_inside ns show host_name pod_name mtu result)

-- verifyPodInterface
unfoldable pub verify_pod_interface :
    Reply (Unit {0}) → Reply Namespace → Bytes → List IpNet → Result (Unit {0})
unfolding in_namespace verify_inside
verify_pod_interface opening entering name expected =
    in_namespace opening entering (λ ns. verify_inside ns name expected)
