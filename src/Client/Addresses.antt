-- ===== src/Client/Addresses.antt =====
-- pkg/groutapi/client.go: AddressAdd, AddressDel and AddressFlush, and what their messages say.
use grout_cni.Client.Encoding.{to4-length, to16-length}
use grout_cni.Base.{
  if◌then◌else◌, length, get_or, take, Bytes, address_add_failed, address_del_failed, flush4_failed,
  flush6_failed, invalid_address, new, Result, ok, err, ℕ, ◌%◌, ◌^◌, ◌<◌, ◌≡◌, refl, ◌⊎◌, inl, inr,
  Bool, true, false, Option, none, some, [], ◌∷◌, arith,
}
use grout_cni.Base.Buffer.{
  copy, write_at, slice, zeros, put_uint16, uint16_le, uint16_le-put_uint16,
}
use grout_cni.Base.State.{State, pure, lift, wrapped, ◌>>=◌, ◌>>◌}
use grout_cni.Net.{IpNet, to4, to16, mask_ones}
use grout_cni.Grout.{AddressRequest, AddressDelRequest}
use grout_cni.Wire.{msg_type, module_ip4, module_ip6}
use grout_cni.Client.{Client, request}

abbrev pub type_ip4_addr_add : ℕ
type_ip4_addr_add = msg_type module_ip4 0x0005

abbrev pub type_ip4_addr_del : ℕ
type_ip4_addr_del = msg_type module_ip4 0x0006

abbrev pub type_ip4_addr_flush : ℕ
type_ip4_addr_flush = msg_type module_ip4 0x0008

abbrev pub type_ip6_addr_add : ℕ
type_ip6_addr_add = msg_type module_ip6 0x0005

abbrev pub type_ip6_addr_del : ℕ
type_ip6_addr_del = msg_type module_ip6 0x0006

abbrev pub type_ip6_addr_flush : ℕ
type_ip6_addr_flush = msg_type module_ip6 0x0008

-- uint8(ones) of the mask's size
abbrev pub prefix_len : IpNet → ℕ
prefix_len net = mask_ones 0 net.mask % 256

-- `if flag { payload[off] = 1 }`
abbrev pub put_flag : ℕ → Bool → Bytes → Bytes
put_flag off flag buf = if flag then write_at off (1 ∷ []) buf else buf

unfoldable pub address4_payload : ℕ → IpNet → Bool → Bytes → Bytes
address4_payload iface_id net flag ip4 = put_flag 12 flag (
    write_at 8 (prefix_len net ∷ [])
      (write_at 4 (take 4 ip4) (write_at 0 (put_uint16 iface_id) (zeros 16))))

unfoldable pub address6_payload : ℕ → IpNet → Bool → Bytes → Bytes
address6_payload iface_id net flag ip6 = put_flag 20 flag (
    write_at 18 (prefix_len net ∷ [])
      (write_at 2 (take 16 ip6) (write_at 0 (put_uint16 iface_id) (zeros 22))))

-- The message for the two answers of To4 and To16.
abbrev pub address_for : ℕ → ℕ → ℕ → IpNet → Bool → Option Bytes → Option Bytes → Result (ℕ × Bytes)
address_for type4 type6 iface_id net flag (some ip4) _ =
    ok (type4, address4_payload iface_id net flag ip4)
address_for type4 type6 iface_id net flag none (some ip6) =
    ok (type6, address6_payload iface_id net flag ip6)
address_for type4 type6 iface_id net flag none none = err (new invalid_address)

-- The message of AddressAdd, and of AddressDel, with their message types.
unfoldable pub address_message : ℕ → ℕ → ℕ → IpNet → Bool → Result (ℕ × Bytes)
unfolding address4_payload address6_payload
address_message type4 type6 iface_id net flag =
    address_for type4 type6 iface_id net flag (to4 net.ip) (to16 net.ip)

-- AddressAdd
unfoldable pub add_address : AddressRequest → State Client (Unit {0})
unfolding address_message
add_address req = do
  message ←
      lift
        (address_message type_ip4_addr_add type_ip6_addr_add req.iface_id req.address req.exist_ok)
  wrapped address_add_failed (request message.0 message.1)
  pure tt

-- AddressDel
unfoldable pub del_address : AddressDelRequest → State Client (Unit {0})
unfolding address_message
del_address req = do
  message ←
      lift (
        address_message type_ip4_addr_del type_ip6_addr_del req.iface_id req.address req.missing_ok)
  wrapped address_del_failed (request message.0 message.1)
  pure tt

-- AddressFlush
unfoldable pub flush_addresses : ℕ → State Client (Unit {0})
flush_addresses iface_id = do
  wrapped flush4_failed (request type_ip4_addr_flush (write_at 0 (put_uint16 iface_id) (zeros 2)))
  wrapped flush6_failed (request type_ip6_addr_flush (write_at 0 (put_uint16 iface_id) (zeros 2)))
  pure tt

-- What grout reads of an IPv4 and of an IPv6 message, by the offsets of its structs.
pub record AddressMessage : Type 0 where
  pub iface_id : ℕ
  pub ip : Bytes
  pub prefix : ℕ
  pub flag : ℕ

abbrev pub read_address4 : Bytes → AddressMessage
read_address4 b = record {
  iface_id = uint16_le (slice 0 2 b);
  ip = slice 4 4 b;
  prefix = get_or b 8 0;
  flag = get_or b 12 0;
}

abbrev pub read_address6 : Bytes → AddressMessage
read_address6 b = record {
  iface_id = uint16_le (slice 0 2 b);
  ip = slice 2 16 b;
  prefix = get_or b 18 0;
  flag = get_or b 20 0;
}

abbrev pub flag_byte : Bool → ℕ
flag_byte flag = if flag then 1 else 0

module _ (iface_id : ℕ) (net : IpNet) where
  -- What grout is to read of the message.
  abbrev pub IsRead : ℕ → ℕ → Bool → ℕ → Bytes → Type 0
  IsRead type4 type6 flag type payload =
      ((ip4 : Bytes) × (to4 net.ip ≡ some ip4)
        × (type ≡ type4)
        × (length payload ≡ 16)
        × (read_address4 payload ≡ record {
          iface_id = iface_id;
          ip = ip4;
          prefix = prefix_len net;
          flag = flag_byte flag;
        }))
      ⊎ ((ip6 : Bytes) × (to4 net.ip ≡ none)
          × (to16 net.ip ≡ some ip6)
          × (type ≡ type6)
          × (length payload ≡ 22)
          × (read_address6 payload ≡ record {
            iface_id = iface_id;
            ip = ip6;
            prefix = prefix_len net;
            flag = flag_byte flag;
          }))

module _ (iface_id : ℕ) (net : IpNet) (fits : iface_id < 2 ^ 16) where
  address4_payload-read :
      (flag : Bool) (ip4 : Bytes)
      → length ip4 ≡ 4
      → (length (address4_payload iface_id net flag ip4) ≡ 16)
        × (read_address4 (address4_payload iface_id net flag ip4) ≡ record {
          iface_id = iface_id;
          ip = ip4;
          prefix = prefix_len net;
          flag = flag_byte flag;
        })
  unfolding address4_payload write_at copy
  address4_payload-read true (a ∷ b ∷ c ∷ d ∷ []) h =
      (refl, rw (uint16_le-put_uint16 iface_id fits))
  address4_payload-read false (a ∷ b ∷ c ∷ d ∷ []) h =
      (refl, rw (uint16_le-put_uint16 iface_id fits))
  address4_payload-read _ _ h = absurd (omega arith)

  address6_payload-read :
      (flag : Bool) (ip6 : Bytes)
      → length ip6 ≡ 16
      → (length (address6_payload iface_id net flag ip6) ≡ 22)
        × (read_address6 (address6_payload iface_id net flag ip6) ≡ record {
          iface_id = iface_id;
          ip = ip6;
          prefix = prefix_len net;
          flag = flag_byte flag;
        })
  unfolding address6_payload write_at copy
  address6_payload-read true (a ∷ b ∷ c ∷ d ∷ e ∷ f ∷ g ∷ i ∷ j ∷ k ∷ l ∷ m ∷ n ∷ o ∷ p ∷ q ∷ [])
        h =
      (refl, rw (uint16_le-put_uint16 iface_id fits))
  address6_payload-read false (a ∷ b ∷ c ∷ d ∷ e ∷ f ∷ g ∷ i ∷ j ∷ k ∷ l ∷ m ∷ n ∷ o ∷ p ∷ q ∷ [])
        h =
      (refl, rw (uint16_le-put_uint16 iface_id fits))
  address6_payload-read _ _ h = absurd (omega arith)

  -- A message of AddressAdd or AddressDel, for an interface id of 16 bits: IPv4 addresses, in
  -- either form of net.IP, go out with the IPv4 type and other addresses of 16 bytes with the
  -- IPv6 type; grout, reading at its offsets, gets the interface, the address, the length of the
  -- prefix and the flag, in a message of the size of its struct.
  pub address_message_lem :
      (type4 type6 : ℕ) (flag : Bool) (type : ℕ) (payload : Bytes)
      → address_message type4 type6 iface_id net flag ≡ ok (type, payload)
      → IsRead iface_id net type4 type6 flag type payload
  unfolding address_message
  address_message_lem type4 type6 flag type payload h = step (to4 net.ip) (to16 net.ip) refl refl h
    where
      step :
          (o p : Option Bytes)
          → to4 net.ip ≡ o
          → to16 net.ip ≡ p
          → address_for type4 type6 iface_id net flag o p ≡ ok (type, payload)
          → IsRead iface_id net type4 type6 flag type payload
      step (some ip4) p e f q =
          let (l, r) = address4_payload-read flag ip4 (to4-length net.ip ip4 e) in
          let t : type ≡ type4 = cc q in
          let b : payload ≡ address4_payload iface_id net flag ip4 = cc q in
          inl (ip4, e, t, rw b l, rw b r)
      step none (some ip6) e f q =
          let (l, r) = address6_payload-read flag ip6 (to16-length net.ip ip6 f) in
          let t : type ≡ type6 = cc q in
          let b : payload ≡ address6_payload iface_id net flag ip6 = cc q in
          inr (ip6, e, f, t, rw b l, rw b r)
      step none none e f q = cc q
