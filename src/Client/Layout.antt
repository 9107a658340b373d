-- ===== src/Client/Layout.antt =====
-- InterfaceList of pkg/groutapi/client.go: the layout of gr_iface as grout sends it.
use grout_cni.Base.State.{◌>>=◌}
use grout_cni.Wire.{max_msg_len}
use grout_cni.Client.{Client}
use grout_cni.Client.Exchange.{after_exchange}
use grout_cni.Client.Stream.{stream, IsItem, request_stream-stream}
use grout_cni.Base.{
  ltb, length, take, All, length-append, Bytes, ok, ℕ, zero, suc, ◌+◌, ◌%◌, ◌^◌, ◌≤◌, ◌<◌, ◌≡◌,
  refl, ◌≢◌, false, List, [], ◌∷◌, ◌++◌, map, arith,
}
use grout_cni.Base.Buffer.{put_uint16, put_uint32, uint16_le-put_uint16}
use grout_cni.Grout.{Iface}
use grout_cni.Client.Interfaces.{
  if_name_size, iface_size, type_iface_list, c_string, decode_iface, decode_ifaces, list_interfaces,
}

-- A gr_iface as grout sends it: the fields by their offsets, those that the client does not read
-- included, and the name with its NUL, what is left of older names behind it, and all that follows.
pub record WireIface : Type 0 where
  pub id : ℕ
  pub type : ℕ
  pub mode : ℕ
  pub flags : ℕ
  pub at6 : ℕ
  pub mtu : ℕ
  pub at10 : ℕ
  pub domain : ℕ
  pub at14 : ℕ
  pub at16 : ℕ
  pub name : Bytes
  pub stale : Bytes
  pub info : Bytes

abbrev pub wire_bytes : WireIface → Bytes
wire_bytes w =
    put_uint16 w.id
    ++ (w.type
        ∷ w.mode
        ∷ (put_uint16 w.flags
            ++ (put_uint16 w.at6
                ++ (put_uint16 w.mtu
                    ++ (put_uint16 w.at10
                        ++ (put_uint16 w.domain
                            ++ (put_uint16 w.at14
                                ++ (put_uint32 w.at16
                                    ++ (w.name ++ (0 ∷ (w.stale ++ w.info)))))))))))

abbrev pub IsNonzero : ℕ → Type 0
IsNonzero c = c ≢ 0

pub record IsWireIface (w : WireIface) : Type 0 where
  pub id_fits : w.id < 2 ^ 16
  pub domain_fits : w.domain < 2 ^ 16
  pub name_text : All IsNonzero w.name
  pub name_field : length w.name + 1 + length w.stale ≡ if_name_size
  pub is_whole : 256 ≤ length w.info
  pub is_short : 36 + length w.info ≤ max_msg_len

-- What the client is to make of it.
abbrev pub iface_of : WireIface → Iface
iface_of w = record { id = w.id; type = w.type; name = w.name; domain = w.domain }

c_string-append :
    (n : ℕ) (name junk : Bytes)
    → All IsNonzero name
    → length name < n
    → c_string (take n (name ++ (0 ∷ junk))) ≡ name
unfolding c_string
c_string-append zero name junk h l = absurd (omega arith)
c_string-append (suc n) [] junk h l = refl
c_string-append (suc n) (c ∷ name) junk (hc, h) l =
    let rest = c_string-append n name junk h (omega arith) in ground (arith, rest)

decode_iface-wire_bytes : (w : WireIface) → IsWireIface w → decode_iface (wire_bytes w) ≡ iface_of w
unfolding decode_iface
decode_iface-wire_bytes w h = rw (
  uint16_le-put_uint16 w.id h.id_fits,
  uint16_le-put_uint16 w.domain h.domain_fits,
  c_string-append 16 w.name (w.stale ++ w.info) h.name_text (omega (arith, h.name_field)),
)

length-wire_bytes : (w : WireIface) → IsWireIface w → length (wire_bytes w) ≡ 36 + length w.info
length-wire_bytes w h = omega (
  arith,
  h.name_field,
  length-append w.name (0 ∷ (w.stale ++ w.info)),
  length-append w.stale w.info,
)

decode_ifaces-wire_bytes :
    (ws : List WireIface) → All IsWireIface ws → decode_ifaces (map wire_bytes ws) ≡ map iface_of ws
unfolding decode_ifaces
decode_ifaces-wire_bytes [] h = refl
decode_ifaces-wire_bytes (w ∷ ws) (hw, hs) =
    let long : ltb (length (wire_bytes w)) iface_size ≡ false =
      ground (arith, length-wire_bytes w hw, hw.is_whole) in
    rw (long, decode_iface-wire_bytes w hw, decode_ifaces-wire_bytes ws hs)

wire_bytes-IsItem : (ws : List WireIface) → All IsWireIface ws → All IsItem (map wire_bytes ws)
wire_bytes-IsItem [] h = tt
wire_bytes-IsItem (w ∷ ws) (hw, hs) =
    let e = length-wire_bytes w hw in
    ((omega (arith, e), omega (arith, e, hw.is_short)), wire_bytes-IsItem ws hs)

-- On a connection that takes every write, to a grout that answers with interfaces in its C
-- layout, each within the limit on a message, whatever the fields that the client does not read
-- hold and whatever older names left behind the NUL: InterfaceList returns these interfaces, in
-- order, and takes the answer off the stream.
pub list_interfaces-stream :
    (ws : List WireIface) (rest : Bytes) (c : Client)
    → All IsWireIface ws
    → c.conn.faults ≡ []
    → c.conn.incoming ≡ stream ((c.req_id + 1) % 2 ^ 32) (map wire_bytes ws) ++ rest
    → list_interfaces c ≡ (ok (map iface_of ws), after_exchange c type_iface_list (0 ∷ []) rest)
unfolding list_interfaces ◌>>=◌
list_interfaces-stream ws rest c h hf arrives = rw (
  request_stream-stream type_iface_list (0 ∷ []) rest (map wire_bytes ws) c (omega arith)
      (wire_bytes-IsItem ws h) hf arrives,
  decode_ifaces-wire_bytes ws h,
)
