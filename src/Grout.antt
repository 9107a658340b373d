-- ===== src/Grout.antt =====
-- pkg/groutapi/types.go: the interfaces of grout and the requests on them.
use grout_cni.Base.{Bytes, ℕ, Bool, Option}
use grout_cni.Net.{IpNet}

-- InterfaceType
abbrev pub type_port : ℕ
type_port = 2

-- A TAP is a port with net_tap devargs.
abbrev pub type_tap : ℕ
type_tap = 2

abbrev pub type_bridge : ℕ
type_bridge = 6

abbrev pub type_vxlan : ℕ
type_vxlan = 7

-- InterfaceInfo; a domain of 0 is none.
pub record Iface : Type 0 where
  pub id : ℕ
  pub type : ℕ
  pub name : Bytes
  pub domain : ℕ

pub record VxlanConfig : Type 0 where
  pub vni : ℕ
  pub encap_vrf_id : ℕ
  pub dst_port : ℕ
  pub local_addr : Bytes

-- InterfaceAddRequest
pub record AddRequest : Type 0 where
  pub name : Bytes
  pub type : ℕ
  pub domain_id : ℕ
  pub mtu : ℕ
  pub vhost_user_path : Bytes
  pub vxlan : Option VxlanConfig

-- AddressAddRequest
pub record AddressRequest : Type 0 where
  pub iface_id : ℕ
  pub address : IpNet
  pub exist_ok : Bool

-- AddressDelRequest
pub record AddressDelRequest : Type 0 where
  pub iface_id : ℕ
  pub address : IpNet
  pub missing_ok : Bool

-- RouteAddRequest; a VRF of 0 stands for the default one.
pub record RouteAddRequest : Type 0 where
  pub vrf_id : ℕ
  pub destination : IpNet
  pub next_hop : Bytes
  pub iface_id : ℕ
  pub exist_ok : Bool

-- RouteDelRequest
pub record RouteDelRequest : Type 0 where
  pub vrf_id : ℕ
  pub destination : IpNet
  pub missing_ok : Bool

-- FloodAddRequest
pub record FloodAddRequest : Type 0 where
  pub vrf_id : ℕ
  pub vni : ℕ
  pub addr : Bytes
  pub exist_ok : Bool

-- FloodDelRequest
pub record FloodDelRequest : Type 0 where
  pub vrf_id : ℕ
  pub vni : ℕ
  pub addr : Bytes
  pub missing_ok : Bool

-- FloodVTEPInfo; the address is nil if it is not IPv4.
pub record FloodVtepInfo : Type 0 where
  pub vni : ℕ
  pub addr : Option Bytes
