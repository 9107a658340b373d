-- ===== src/Client/FloodList.antt =====
-- FloodList of pkg/groutapi/client.go: the layout of gr_flood_entry as grout sends it.
-- An entry by its offsets, with the bytes that the client does not read: the type, the VRF and the
-- VNI, then a gr_l3_addr with its family and, in an IPv4 one, the address in four bytes; `more` is
-- the rest of the union and all that follows.
use grout_cni.Base.{
  ltb, ◌==◌, if◌then◌else◌, length, All, Bytes, ok, ℕ, ◌+◌, ◌%◌, ◌^◌, ◌≤◌, ◌<◌, ◌≡◌, refl, false,
  none, some, List, [], ◌∷◌, ◌++◌, map, arith,
}
use grout_cni.Base.Buffer.{copy, write_at, put_uint16, put_uint32, uint32_le-put_uint32}
use grout_cni.Base.State.{◌>>=◌}
use grout_cni.Wire.{max_msg_len}
use grout_cni.Grout.{FloodVtepInfo}
use grout_cni.Client.{Client}
use grout_cni.Client.Exchange.{after_exchange}
use grout_cni.Client.Stream.{stream, IsItem, request_stream-stream}
use grout_cni.Client.Routes.{vrf_or_default}
use grout_cni.Client.Floods.{
  flood_entry_size, flood_type_vtep, type_flood_list, l3_addr, decode_floods, list_floods,
}

pub record WireFlood : Type 0 where
  pub type : ℕ
  pub at1 : ℕ
  pub vrf_id : ℕ
  pub vni : ℕ
  pub family : ℕ
  pub at9 : ℕ
  pub at10 : ℕ
  pub at11 : ℕ
  pub ip0 : ℕ
  pub ip1 : ℕ
  pub ip2 : ℕ
  pub ip3 : ℕ
  pub more : Bytes

abbrev pub flood_bytes : WireFlood → Bytes
flood_bytes w =
    w.type
    ∷ w.at1
    ∷ (put_uint16 w.vrf_id
        ++ (put_uint32 w.vni
            ++ (w.family ∷ w.at9 ∷ w.at10 ∷ w.at11 ∷ w.ip0 ∷ w.ip1 ∷ w.ip2 ∷ w.ip3 ∷ w.more)))

pub record IsWireFlood (w : WireFlood) : Type 0 where
  pub vni_fits : w.vni < 2 ^ 32
  pub is_whole : 12 ≤ length w.more
  pub is_short : 16 + length w.more ≤ max_msg_len

-- What the client is to make of it: an address only if the family is IPv4.
abbrev pub vtep_of : WireFlood → FloodVtepInfo
vtep_of w = record {
  vni = w.vni;
  addr = if w.family == 2 then some (w.ip0 ∷ w.ip1 ∷ w.ip2 ∷ w.ip3 ∷ []) else none;
}

decode_floods-flood_bytes :
    (ws : List WireFlood) → All IsWireFlood ws → decode_floods (map flood_bytes ws) ≡ map vtep_of ws
unfolding decode_floods l3_addr
decode_floods-flood_bytes [] h = refl
decode_floods-flood_bytes (w ∷ ws) (hw, hs) =
    let long : ltb (length (flood_bytes w)) flood_entry_size ≡ false =
      ground (arith, hw.is_whole) in
    rw (long, uint32_le-put_uint32 w.vni hw.vni_fits, decode_floods-flood_bytes ws hs)

flood_bytes-IsItem : (ws : List WireFlood) → All IsWireFlood ws → All IsItem (map flood_bytes ws)
flood_bytes-IsItem [] h = tt
flood_bytes-IsItem (w ∷ ws) (hw, hs) =
    ((omega arith, omega (arith, hw.is_short)), flood_bytes-IsItem ws hs)

-- On a connection that takes every write, to a grout that answers with flood entries in its C
-- layout, each within the limit on a message: FloodList, having asked for the VTEPs of the VRF,
-- the default one for 0, returns their VNIs and the addresses of those that are IPv4, in order, and
-- takes the answer off the stream.
pub list_floods-stream :
    (vrf_id : ℕ) (ws : List WireFlood) (rest : Bytes) (c : Client)
    → All IsWireFlood ws
    → c.conn.faults ≡ []
    → c.conn.incoming ≡ stream ((c.req_id + 1) % 2 ^ 32) (map flood_bytes ws) ++ rest
    → list_floods vrf_id c ≡ (
      ok (map vtep_of ws),
      after_exchange c type_flood_list
          (flood_type_vtep ∷ 0 ∷ put_uint16 (vrf_or_default vrf_id))
          rest,
    )
unfolding list_floods write_at copy ◌>>=◌
list_floods-stream vrf_id ws rest c h hf arrives = rw (
  request_stream-stream type_flood_list (flood_type_vtep ∷ 0 ∷ put_uint16 (vrf_or_default vrf_id))
      rest (map flood_bytes ws) c (omega arith) (flood_bytes-IsItem ws h) hf arrives,
  decode_floods-flood_bytes ws h,
)
