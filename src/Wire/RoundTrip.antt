-- ===== src/Wire/RoundTrip.antt =====
-- pkg/groutapi/protocol.go: a peer that follows the protocol, its responses and how it takes
-- requests.
use grout_cni.Base.{
  lt→ltb, le→leb, length, take, drop, length-append, take-append, drop-append, Bytes, ok, ℕ, ◌+◌,
  ◌%◌, ◌^◌, ◌≤◌, ◌<◌, ◌≡◌, refl, [], ◌∷◌, ◌++◌, append_assoc, arith,
}
use grout_cni.Base.Buffer.{slice, put_uint32, uint32_le, uint32_le-put_uint32}
use grout_cni.Base.State.{◌>>=◌}
use grout_cni.Wire.{
  Conn, max_msg_len, write, read_full, encode_header, decode_header, write_request, read_payload,
  read_response,
}

-- A response as the peer sends it: the header, little-endian, then the payload.
abbrev pub response : ℕ → ℕ → Bytes → Bytes
response id status payload =
    put_uint32 id ++ (put_uint32 status ++ (put_uint32 (length payload) ++ payload))

-- How a peer takes a request off the stream: the three numbers, then as many bytes as announced.
pub record Request : Type 0 where
  pub id : ℕ
  pub type : ℕ
  pub payload : Bytes

abbrev pub parse_request : Bytes → Request × Bytes
parse_request b =
    let n = uint32_le (slice 8 4 b) in
    let body = drop 12 b in
    (
      record {
        id = uint32_le (slice 0 4 b);
        type = uint32_le (slice 4 4 b);
        payload = take n body;
      },
      drop n body,
    )

-- A read of what has arrived takes it off the stream.
pub read_full-append :
    (front rest : Bytes) (c : Conn)
    → c.incoming ≡ front ++ rest
    → read_full (length front) c ≡ (ok front, record c { incoming = rest })
unfolding read_full
read_full-append front rest c e = rw (
  e,
  length-append front rest,
  le→leb (length front) (length front + length rest) (omega arith),
  take-append front rest,
  drop-append front rest,
)

-- The bytes of a response's header.
abbrev pub header_bytes : ℕ → ℕ → ℕ → Bytes
header_bytes id status n = put_uint32 id ++ (put_uint32 status ++ put_uint32 n)

pub decode_header-bytes :
    (id status n : ℕ)
    → id < 2 ^ 32
    → status < 2 ^ 32
    → n < 2 ^ 32
    → decode_header (header_bytes id status n)
      ≡ record { for_id = id; status = status; payload_len = n }
unfolding decode_header
decode_header-bytes id status n hi hs hn = ground arith

read_payload-append :
    (payload rest : Bytes) (c : Conn)
    → c.incoming ≡ payload ++ rest
    → read_payload (length payload) c ≡ (ok payload, record c { incoming = rest })
unfolding read_payload ◌>>=◌
read_payload-append [] rest c e = rw (← e)
read_payload-append (b ∷ bs) rest c e =
    rw (lt→ltb 0 (length (b ∷ bs)) (omega arith), read_full-append (b ∷ bs) rest c e)

module _ (id status : ℕ) (payload rest : Bytes) (c : Conn) where
  -- A response is read with its payload, and what follows it stays on the stream.
  pub read_response-response :
      id < 2 ^ 32
      → status < 2 ^ 32
      → length payload ≤ max_msg_len
      → c.incoming ≡ response id status payload ++ rest
      → read_response c ≡ (
        ok (record { for_id = id; status = status; payload_len = length payload }, payload),
        record c { incoming = rest },
      )
  unfolding read_response ◌>>=◌
  read_response-response hid hs small arrives = rw (
    read_full-append (header_bytes id status (length payload)) (payload ++ rest) c arrives,
    decode_header-bytes id status (length payload) hid hs (omega arith),
    le→leb (length payload) max_msg_len small,
    read_payload-append payload rest (record c { incoming = payload ++ rest }) refl,
  )

-- The bytes of a request.
abbrev pub request_bytes : ℕ → ℕ → Bytes → Bytes
request_bytes id type payload =
    put_uint32 id ++ (put_uint32 type ++ (put_uint32 (length payload) ++ payload))

write_ok :
    (b : Bytes) (c : Conn) → c.faults ≡ [] → write b c ≡ (ok tt, record c { sent = c.sent ++ b })
unfolding write
write_ok b c h = rw h

-- On a connection that takes every write, a request is written whole, behind what was sent before.
pub write_request-bytes :
    (id type : ℕ) (payload : Bytes) (c : Conn)
    → length payload < 2 ^ 32
    → c.faults ≡ []
    → write_request id type payload c
      ≡ (ok tt, record c { sent = c.sent ++ request_bytes id type payload })
unfolding write_request ◌>>=◌
write_request-bytes id type [] c h hf = rw (write_ok _ c hf) (unfold encode_header in refl)
write_request-bytes id type (b ∷ bs) c h hf =
    let n = length (b ∷ bs) in
    let fits : n % 2 ^ 32 ≡ n = omega arith in
    let hdr = encode_header (record { id = id; type = type; payload_len = n }) in
    rw
      (
        fits,
        write_ok hdr c hf,
        lt→ltb 0 n (omega arith),
        write_ok (b ∷ bs) (record c { sent = c.sent ++ hdr }) hf,
      )
      (rw append_assoc)

parse_request-bytes :
    (id type : ℕ) (payload rest : Bytes)
    → id < 2 ^ 32
    → type < 2 ^ 32
    → length payload < 2 ^ 32
    → parse_request (request_bytes id type payload ++ rest)
      ≡ (record { id = id; type = type; payload = payload }, rest)
parse_request-bytes id type payload rest hi ht hl = rw (
  uint32_le-put_uint32 id hi,
  uint32_le-put_uint32 type ht,
  uint32_le-put_uint32 (length payload) hl,
  take-append payload rest,
  drop-append payload rest,
)

-- On a connection that takes every write, a request is written behind what was sent before, and a
-- peer that knows the protocol takes the same id, type and payload off the stream, and what follows
-- them stays on it.
pub write_request-parse_request :
    (id type : ℕ) (payload rest : Bytes) (c : Conn)
    → id < 2 ^ 32
    → type < 2 ^ 32
    → length payload < 2 ^ 32
    → c.faults ≡ []
    → (bytes : Bytes) × (write_request id type payload c
        ≡ (ok tt, record c { sent = c.sent ++ bytes }))
      × (parse_request (bytes ++ rest) ≡ (record { id = id; type = type; payload = payload }, rest))
write_request-parse_request id type payload rest c hi ht hl hf = (
  request_bytes id type payload,
  write_request-bytes id type payload c hl hf,
  parse_request-bytes id type payload rest hi ht hl,
)
