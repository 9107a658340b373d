-- ===== src/Wire.antt =====
-- pkg/groutapi/protocol.go: the request and response headers of grout's binary protocol on a byte
-- stream. The connection stands for the net.Conn of a Unix socket.
pub mod RoundTrip
pub mod Breaking
use grout_cni.Base.{
  ltb, leb, if◌then◌else◌, length, take, drop, Bytes, writing_header, writing_payload,
  reading_header, payload_too_large, reading_payload, Error, external, ok, err, ℕ, ◌+◌, ◌*◌, ◌%◌,
  ◌^◌, Option, none, some, List, [], ◌∷◌, ◌++◌,
}
use grout_cni.Base.Buffer.{slice, put_uint32, uint32_le}
use grout_cni.Base.State.{State, pure, wrapped, branch, guard, ◌>>=◌, ◌>>◌}

-- `incoming` holds the bytes that will still arrive before the peer closes, and `sent` what was
-- written. `faults` says how the coming calls of Write end: each takes an entry, the error that it
-- returns if there is one; past the end of the list every Write succeeds.
pub record Conn : Type 0 where
  pub incoming : Bytes
  pub sent : Bytes
  pub faults : List (Option Error)

abbrev pub max_msg_len : ℕ
max_msg_len = 128 * 1024

abbrev pub api_version : ℕ
api_version = 3

-- GR_MSG_TYPE(module, id): (module << 16) | id
abbrev pub msg_type : ℕ → ℕ → ℕ
msg_type m i = m * 2 ^ 16 + i

abbrev pub module_main : ℕ
module_main = 0xcafe

abbrev pub module_infra : ℕ
module_infra = 0xacdc

abbrev pub module_ip4 : ℕ
module_ip4 = 0xf00d

abbrev pub module_ip6 : ℕ
module_ip6 = 0xfeed

abbrev pub module_l2 : ℕ
module_l2 = 0xbabe

pub record RequestHeader : Type 0 where
  pub id : ℕ
  pub type : ℕ
  pub payload_len : ℕ

pub record ResponseHeader : Type 0 where
  pub for_id : ℕ
  pub status : ℕ
  pub payload_len : ℕ

-- io.EOF and io.ErrUnexpectedEOF of the standard library.
abbrev pub eof : Error
eof = external 0

-- w.Write(b)
unfoldable pub write_next : List (Option Error) → Bytes → State Conn (Unit {0})
write_next [] b c = (ok tt, record c { sent = c.sent ++ b })
write_next (none ∷ later) b c = (ok tt, record c { sent = c.sent ++ b; faults = later })
write_next (some e ∷ later) b c = (err e, record c { faults = later })

unfoldable pub write : Bytes → State Conn (Unit {0})
unfolding write_next
write b c = write_next c.faults b c

-- io.ReadFull(r, buf) with `n` bytes in buf; what arrived before the end is lost.
unfoldable pub read_full : ℕ → State Conn Bytes
read_full n c =
    if leb n (length c.incoming)
    then (ok (take n c.incoming), record c { incoming = drop n c.incoming })
    else (err eof, record c { incoming = [] })

-- binary.Write of the header struct, in little-endian order.
unfoldable pub encode_header : RequestHeader → Bytes
encode_header h = put_uint32 h.id ++ (put_uint32 h.type ++ put_uint32 h.payload_len)

-- binary.Read into the header struct.
unfoldable pub decode_header : Bytes → ResponseHeader
decode_header b = record {
  for_id = uint32_le (slice 0 4 b);
  status = uint32_le (slice 4 4 b);
  payload_len = uint32_le (slice 8 4 b);
}

unfoldable pub write_request : ℕ → ℕ → Bytes → State Conn (Unit {0})
unfolding encode_header
write_request id type payload = do
  let hdr : RequestHeader = record { id = id; type = type; payload_len = length payload % 2 ^ 32 }
  wrapped writing_header (write (encode_header hdr))
  branch (ltb 0 (length payload)) (wrapped writing_payload (write payload)) (pure tt)

-- `if hdr.PayloadLen > 0 { … io.ReadFull … }`
unfoldable pub read_payload : ℕ → State Conn Bytes
read_payload n = branch (ltb 0 n) (wrapped reading_payload (read_full n)) (pure [])

unfoldable pub read_response : State Conn (ResponseHeader × Bytes)
read_response = do
  raw ← wrapped reading_header (read_full 12)
  let hdr = decode_header raw
  guard (leb hdr.payload_len max_msg_len) payload_too_large
  payload ← read_payload hdr.payload_len
  pure (hdr, payload)
