-- ===== src/Client/Interfaces.antt =====
-- pkg/groutapi/client.go: InterfaceList, InterfaceAdd and InterfaceDel, and the layout of gr_iface.
-- A write into the payload is a copy to its offset.
use grout_cni.Base.{
  ltb, leb, ◌==◌, if◌then◌else◌, length, get_or, take, Bytes, codes, same, decoding_response,
  interface_list_failed, interface_add_failed, interface_del_failed, vxlan_required, vxlan_local,
  devargs_too_long, not_ipv4, new, in_stage, Result, ok, err, wrap, ℕ, ◌+◌, ◌*◌, ◌/◌, ◌%◌, ◌^◌,
  Bool, ◌&&◌, ◌||◌, none, some, List, [], ◌∷◌, ◌++◌,
}
use grout_cni.Base.Buffer.{write_at, slice, zeros, put_uint16, put_uint32, uint16_le}
use grout_cni.Base.State.{State, pure, lift, wrapped, ◌>>=◌, ◌>>◌}
use grout_cni.Hash.{fnv64a}
use grout_cni.Net.{to4}
use grout_cni.Grout.{type_bridge, type_vxlan, Iface, VxlanConfig, AddRequest}
use grout_cni.PortName.{to_lower}
use grout_cni.Wire.{msg_type, module_infra, eof}
use grout_cni.Client.{Client, request, request_stream}

abbrev pub if_name_size : ℕ
if_name_size = 16

-- ifaceBaseSize, the name and the description
abbrev pub iface_size : ℕ
iface_size = 20 + if_name_size + 256

abbrev pub port_devargs_size : ℕ
port_devargs_size = 128

abbrev pub port_info_size : ℕ
port_info_size = 14 + port_devargs_size + 32

abbrev pub bridge_info_size : ℕ
bridge_info_size = 12 + 64 * 2

abbrev pub vxlan_info_size : ℕ
vxlan_info_size = 36

abbrev pub type_iface_add : ℕ
type_iface_add = msg_type module_infra 0x0001

abbrev pub type_iface_del : ℕ
type_iface_del = msg_type module_infra 0x0002

abbrev pub type_iface_list : ℕ
type_iface_list = msg_type module_infra 0x0004

-- cString
unfoldable pub c_string : Bytes → Bytes
c_string [] = []
c_string (c ∷ s) = let rest = c_string s in if c == 0 then [] else c ∷ rest

-- One entry of InterfaceList that is long enough.
unfoldable pub decode_iface : Bytes → Iface
decode_iface item = record {
  id = uint16_le (slice 0 2 item);
  type = get_or item 2 0;
  name = c_string (slice 20 if_name_size item);
  domain = uint16_le (slice 12 2 item);
}

-- The loop of InterfaceList, which skips entries that are too short.
unfoldable pub decode_ifaces : List Bytes → List Iface
unfolding decode_iface
decode_ifaces [] = []
decode_ifaces (item ∷ items) =
    let rest = decode_ifaces items in
    if ltb (length item) iface_size then rest else decode_iface item ∷ rest

-- InterfaceList, with the filter 0
unfoldable pub list_interfaces : State Client (List Iface)
unfolding decode_ifaces
list_interfaces = do
  items ← wrapped interface_list_failed (request_stream type_iface_list (0 ∷ []))
  pure (decode_ifaces items)

-- bridgeMAC
unfoldable pub bridge_mac : Bytes → Bytes
bridge_mac name =
    let s = fnv64a name in
    0x02 ∷ s % 256 ∷ s / 2 ^ 8 % 256 ∷ s / 2 ^ 16 % 256 ∷ s / 2 ^ 24 % 256 ∷ s / 2 ^ 32 % 256 ∷ []

abbrev pub is_alphanumeric : ℕ → Bool
is_alphanumeric c = leb b'a' c && leb c b'z' || leb b'0' c && leb c b'9'

-- vdevID of an ASCII name
unfoldable pub vdev_id : Bytes → Bytes
vdev_id [] = []
vdev_id (c ∷ s) =
    let rest = vdev_id s in if is_alphanumeric (to_lower c) then to_lower c ∷ rest else rest

-- tapDevargs
unfoldable pub tap_devargs : Bytes → Bytes
unfolding vdev_id
tap_devargs name = codes "net_tap_" ++ (vdev_id name ++ (codes ",iface=" ++ name))

-- vhostDevargs
unfoldable pub vhost_devargs : Bytes → Bytes → Bytes
unfolding vdev_id
vhost_devargs name socket_path =
    codes "net_vhost_" ++ (vdev_id name ++ (codes ",iface=" ++ socket_path))

-- The gr_iface base at the front of a payload of `size` bytes.
unfoldable pub iface_base : AddRequest → ℕ → Bytes
iface_base req size =
    let typed = write_at 2 (req.type ∷ []) (write_at 0 (put_uint16 0) (zeros size)) in
    let up = write_at 4 (put_uint16 1) typed in
    let member = if req.domain_id == 0 then up else write_at 12 (put_uint16 req.domain_id) up in
    let sized = if req.mtu == 0 then member else write_at 8 (put_uint16 req.mtu) member in
    write_at 20 (take if_name_size req.name) sized

-- putL3AddrIPv4 at an offset
unfoldable pub put_l3_addr : ℕ → Bytes → Bytes → Result Bytes
put_l3_addr off ip buf = elim (to4 ip) [
  | none ↦ err (new not_ipv4)
  | some ip4 ↦ ok (write_at (off + 4) (take 4 ip4) (write_at off (2 ∷ []) buf))
]

-- The gr_iface_info_vxlan behind the base.
unfoldable pub vxlan_info : VxlanConfig → Bytes → Result Bytes
unfolding put_l3_addr
vxlan_info vxlan buf = wrap vxlan_local (
    put_l3_addr (iface_size + 8) vxlan.local_addr (
      write_at (iface_size + 6) (put_uint16 vxlan.dst_port) (
        write_at (iface_size + 4) (put_uint16 vxlan.encap_vrf_id)
          (write_at iface_size (put_uint32 vxlan.vni) buf))))

abbrev pub devargs_for : AddRequest → Bytes
devargs_for req =
    if same req.vhost_user_path []
    then tap_devargs req.name
    else vhost_devargs req.name req.vhost_user_path

-- The gr_iface_info_port behind the base.
unfoldable pub port_info : Bytes → Bytes → Result Bytes
port_info devargs buf =
    if leb port_devargs_size (length devargs)
    then err (new devargs_too_long)
    else ok (write_at (iface_size + 14) devargs buf)

-- The payload of InterfaceAdd.
unfoldable pub iface_payload : AddRequest → Result Bytes
unfolding iface_base vxlan_info port_info bridge_mac tap_devargs vhost_devargs
iface_payload req =
    if req.type == type_bridge
    then ok (
        write_at (iface_size + 4) (bridge_mac req.name)
          (iface_base req (iface_size + bridge_info_size)))
    else if req.type == type_vxlan
    then elim req.vxlan [
      | none ↦ err (new vxlan_required)
      | some vxlan ↦ vxlan_info vxlan (iface_base req (iface_size + vxlan_info_size))
    ]
    else port_info (devargs_for req) (iface_base req (iface_size + port_info_size))

-- What request makes of the response's payload for a struct with one uint16.
unfoldable pub decode_id : Bytes → Result ℕ
decode_id [] = ok 0
decode_id (b ∷ []) = err (in_stage decoding_response eof)
decode_id (b ∷ c ∷ bs) = ok (uint16_le (b ∷ c ∷ []))

-- InterfaceAdd
unfoldable pub add_interface : AddRequest → State Client ℕ
unfolding iface_payload decode_id
add_interface req = do
  payload ← lift (iface_payload req)
  wrapped interface_add_failed do reply ← request type_iface_add payload; lift (decode_id reply)

-- InterfaceDel
unfoldable pub del_interface : ℕ → State Client (Unit {0})
del_interface iface_id = do
  wrapped interface_del_failed (request type_iface_del (write_at 0 (put_uint16 iface_id) (zeros 2)))
  pure tt
