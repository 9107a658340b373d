-- ===== src/Client/Stream.antt =====
-- requestStream of pkg/groutapi/client.go: a stream of items as the peer sends it.
use grout_cni.Base.{
  ◌==◌, ==_iff, length, All, length-append, Bytes, ok, ℕ, zero, suc, ◌+◌, ◌%◌, ◌^◌, ◌≤◌, ◌<◌, ◌≡◌,
  refl, ◌∙◌, false, List, [], ◌∷◌, ◌++◌, append-nil, append_assoc, arith,
}
use grout_cni.Base.State.{◌>>=◌}
use grout_cni.Wire.{max_msg_len}
use grout_cni.Wire.RoundTrip.{response, read_response-response, write_request-bytes}
use grout_cni.Client.Exchange.{after_write, after_exchange}
use grout_cni.Client.{Client, next_id, stream_loop, request_stream}

-- A stream as the peer sends it: one response for each item, and an empty one at the end.
abbrev pub stream : ℕ → List Bytes → Bytes
stream id [] = response id 0 []
stream id (item ∷ items) = response id 0 item ++ stream id items

-- The items that can be sent so: not empty, and within the limit on a message.
abbrev pub IsItem : Bytes → Type 0
IsItem item = (0 < length item) × (length item ≤ max_msg_len)

abbrev with_incoming : Client → Bytes → Client
with_incoming c b = record c { conn = record (c.conn) { incoming = b } }

pos→==_zero : (n : ℕ) → 0 < n → (n == 0) ≡ false
pos→==_zero n h = ground arith

stream_loop-stream :
    (items : List Bytes) (fuel id : ℕ) (acc : List Bytes) (rest : Bytes) (c : Client)
    → id < 2 ^ 32
    → All IsItem items
    → length items < fuel
    → c.conn.incoming ≡ stream id items ++ rest
    → stream_loop fuel id acc c ≡ (ok (acc ++ items), with_incoming c rest)
unfolding stream_loop ◌>>=◌
stream_loop-stream items zero id acc rest c hi h hf arrives = absurd (omega arith)
stream_loop-stream [] (suc fuel) id acc rest c hi h hf arrives = rw (
  read_response-response id 0 [] rest c.conn hi (omega arith) (omega arith) arrives,
  (==_iff id id).1 refl,
  append-nil,
)
stream_loop-stream (x ∷ xs) (suc fuel) id acc rest c hi (hx, hxs) hf arrives =
    let rest' = stream id xs ++ rest in
    let arrives' = arrives ∙ append_assoc (response id 0 x) (stream id xs) rest in
    rw (
      read_response-response id 0 x rest' c.conn hi (omega arith) hx.1 arrives',
      (==_iff id id).1 refl,
      pos→==_zero (length x) hx.0,
      stream_loop-stream xs fuel id (acc ++ (x ∷ [])) rest (with_incoming c rest') hi hxs
          (omega arith) refl,
      append_assoc,
    )

length-le-stream :
    (id : ℕ) (items : List Bytes) (rest : Bytes)
    → length items < suc (length (stream id items ++ rest))
length-le-stream id [] rest = omega arith
length-le-stream id (x ∷ xs) rest = omega (
  arith,
  length-append (x ++ stream id xs) rest,
  length-append x (stream id xs),
  length-append (stream id xs) rest,
  length-le-stream id xs rest,
)

-- A peer that answers with a stream of items: all of them are returned, in order, and what follows
-- the stream stays on it.
pub request_stream-stream :
    (type : ℕ) (payload rest : Bytes) (items : List Bytes) (c : Client)
    → length payload < 2 ^ 32
    → All IsItem items
    → c.conn.faults ≡ []
    → c.conn.incoming ≡ stream ((c.req_id + 1) % 2 ^ 32) items ++ rest
    → request_stream type payload c ≡ (ok items, after_exchange c type payload rest)
unfolding request_stream next_id ◌>>=◌
request_stream-stream type payload rest items c hp h hf arrives =
    let id = (c.req_id + 1) % 2 ^ 32 in
    rw (
      write_request-bytes id type payload c.conn hp hf,
      stream_loop-stream items (suc (length c.conn.incoming)) id [] rest
          (after_write c type payload) (omega arith) h (rw arrives (length-le-stream id items rest))
          arrives,
    )
