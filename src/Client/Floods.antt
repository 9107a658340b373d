-- ===== src/Client/Floods.antt =====
-- pkg/groutapi/client.go: FloodAdd, FloodDel and FloodList, and the layout of their entries.
use grout_cni.Client.Encoding.{to4-length}
use grout_cni.Base.{
  ltb, ◌==◌, if◌then◌else◌, length, get_or, take, Bytes, not_ipv4, flood_add_failed,
  flood_del_failed, flood_list_failed, new, Result, ok, err, bind, ℕ, ◌+◌, ◌^◌, ◌<◌, ◌≡◌, refl,
  Bool, true, false, Option, none, some, List, [], ◌∷◌, arith,
}
use grout_cni.Base.Buffer.{
  copy, write_at, slice, zeros, put_uint16, put_uint32, uint16_le, uint32_le, uint16_le-put_uint16,
  uint32_le-put_uint32,
}
use grout_cni.Base.State.{State, pure, lift, wrapped, ◌>>=◌, ◌>>◌}
use grout_cni.Net.{to4}
use grout_cni.Grout.{FloodAddRequest, FloodDelRequest, FloodVtepInfo}
use grout_cni.Wire.{msg_type, module_l2}
use grout_cni.Client.{Client, request, request_stream}
use grout_cni.Client.Interfaces.{put_l3_addr}
use grout_cni.Client.Addresses.{put_flag, flag_byte}
use grout_cni.Client.Routes.{vrf_or_default}

abbrev pub flood_entry_size : ℕ
flood_entry_size = 28

abbrev pub flood_req_size : ℕ
flood_req_size = 32

-- GR_FLOOD_T_VTEP
abbrev pub flood_type_vtep : ℕ
flood_type_vtep = 1

abbrev pub type_flood_add : ℕ
type_flood_add = msg_type module_l2 0x0007

abbrev pub type_flood_del : ℕ
type_flood_del = msg_type module_l2 0x0008

abbrev pub type_flood_list : ℕ
type_flood_list = msg_type module_l2 0x0009

-- encodeFloodEntry
unfoldable pub encode_flood_entry : ℕ → ℕ → Bytes → Bytes → Result Bytes
unfolding put_l3_addr
encode_flood_entry vrf_id vni addr buf = put_l3_addr 8 addr (
    write_at 4 (put_uint32 vni)
      (write_at 2 (put_uint16 vrf_id) (write_at 0 (flood_type_vtep ∷ []) buf)))

-- The payload of FloodAdd, and of FloodDel.
unfoldable pub flood_payload : ℕ → ℕ → Bytes → Bool → Result Bytes
unfolding encode_flood_entry
flood_payload vrf_id vni addr flag =
    bind (encode_flood_entry (vrf_or_default vrf_id) vni addr (zeros flood_req_size))
      λ buf. ok (put_flag flood_entry_size flag buf)

-- FloodAdd
unfoldable pub add_flood : FloodAddRequest → State Client (Unit {0})
unfolding flood_payload
add_flood req = do
  payload ← wrapped flood_add_failed (lift (flood_payload req.vrf_id req.vni req.addr req.exist_ok))
  wrapped flood_add_failed (request type_flood_add payload)
  pure tt

-- FloodDel
unfoldable pub del_flood : FloodDelRequest → State Client (Unit {0})
unfolding flood_payload
del_flood req = do
  payload ←
      wrapped flood_del_failed (lift (flood_payload req.vrf_id req.vni req.addr req.missing_ok))
  wrapped flood_del_failed (request type_flood_del payload)
  pure tt

-- l3AddrIPv4 at an offset
unfoldable pub l3_addr : ℕ → Bytes → Option Bytes
l3_addr off buf = if get_or buf off 0 == 2 then some (slice (off + 4) 4 buf) else none

-- The loop of FloodList, which skips entries that are too short.
unfoldable pub decode_floods : List Bytes → List FloodVtepInfo
unfolding l3_addr
decode_floods [] = []
decode_floods (item ∷ items) =
    let rest = decode_floods items in
    if ltb (length item) flood_entry_size
    then rest
    else record { vni = uint32_le (slice 4 4 item); addr = l3_addr 8 item } ∷ rest

-- FloodList
unfoldable pub list_floods : ℕ → State Client (List FloodVtepInfo)
unfolding decode_floods
list_floods vrf_id = do
  items ← wrapped flood_list_failed (
      request_stream type_flood_list (
        write_at 2 (put_uint16 (vrf_or_default vrf_id))
          (write_at 0 (flood_type_vtep ∷ []) (zeros 4))))
  pure (decode_floods items)

-- An entry as the list is to show it.
abbrev pub flood_of : ℕ → Bytes → FloodVtepInfo
flood_of vni ip4 = record { vni = vni; addr = some ip4 }

-- What a request carries besides.
abbrev pub flag_and_vrf : Bytes → ℕ × (ℕ × ℕ)
flag_and_vrf b = (get_or b 0 0, (uint16_le (slice 2 2 b), get_or b 28 0))

abbrev entry_front : ℕ → ℕ → Bytes
entry_front vrf_id vni = write_at 4 (put_uint32 vni) (
    write_at 2 (put_uint16 (vrf_or_default vrf_id))
      (write_at 0 (flood_type_vtep ∷ []) (zeros flood_req_size)))

abbrev entry : ℕ → ℕ → Bytes → Bool → Bytes
entry vrf_id vni ip4 flag =
    put_flag flood_entry_size flag
      (write_at 12 (take 4 ip4) (write_at 8 (2 ∷ []) (entry_front vrf_id vni)))

abbrev pub IsEntryOf : ℕ → ℕ → Bytes → Bool → Bytes → Type 0
IsEntryOf vrf_id vni ip4 flag payload =
    (length payload ≡ flood_req_size)
    × (decode_floods (payload ∷ []) ≡ flood_of vni ip4 ∷ [])
    × (flag_and_vrf payload ≡ (flood_type_vtep, (vrf_or_default vrf_id, flag_byte flag)))

module _ (vrf_id vni : ℕ) (fits : vrf_or_default vrf_id < 2 ^ 16) (vni_fits : vni < 2 ^ 32) where
  entry-IsEntryOf :
      (flag : Bool) (ip4 : Bytes)
      → length ip4 ≡ 4
      → IsEntryOf vrf_id vni ip4 flag (entry vrf_id vni ip4 flag)
  unfolding decode_floods l3_addr write_at copy
  entry-IsEntryOf true (a ∷ b ∷ c ∷ d ∷ []) h = (
    refl,
    rw (uint32_le-put_uint32 vni vni_fits),
    rw (uint16_le-put_uint16 (vrf_or_default vrf_id) fits),
  )
  entry-IsEntryOf false (a ∷ b ∷ c ∷ d ∷ []) h = (
    refl,
    rw (uint32_le-put_uint32 vni vni_fits),
    rw (uint16_le-put_uint16 (vrf_or_default vrf_id) fits),
  )
  entry-IsEntryOf _ _ h = absurd (omega arith)

-- Every entry that FloodAdd or FloodDel sends, for a VRF of 16 bits and a VNI of 32, is the VTEP
-- that FloodList would show of it: the same VNI and the IPv4 address, in either form of net.IP.
-- It is tagged as a VTEP, has the VRF, the default one for 0, and the flag; an address that is
-- not IPv4 is never sent.
pub flood_payload-decode_floods :
    (vrf_id vni : ℕ) (addr : Bytes) (flag : Bool) (payload : Bytes)
    → vrf_or_default vrf_id < 2 ^ 16
    → vni < 2 ^ 32
    → flood_payload vrf_id vni addr flag ≡ ok payload
    → (ip4 : Bytes) × (to4 addr ≡ some ip4) × IsEntryOf vrf_id vni ip4 flag payload
unfolding flood_payload encode_flood_entry put_l3_addr
flood_payload-decode_floods vrf_id vni addr flag payload hv hn h = step (to4 addr) refl h
  where
    step :
        (o : Option Bytes)
        → to4 addr ≡ o
        → bind
            (elim o [
              | none ↦ err (new not_ipv4)
              | some ip4 ↦
                  ok (write_at 12 (take 4 ip4) (write_at 8 (2 ∷ []) (entry_front vrf_id vni)))
            ])
            (λ buf. ok (put_flag flood_entry_size flag buf))
          ≡ ok payload
        → (ip4 : Bytes) × (to4 addr ≡ some ip4) × IsEntryOf vrf_id vni ip4 flag payload
    step none e q = cc q
    step (some ip4) e q =
        let b : payload ≡ entry vrf_id vni ip4 flag = cc q in
        (ip4, e, rw b (entry-IsEntryOf vrf_id vni hv hn flag ip4 (to4-length addr ip4 e)))
