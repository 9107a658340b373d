-- ===== src/Client/Stopping.antt =====
-- requestStream of pkg/groutapi/client.go: where its loop stops, and with what.
use mathlib.Core.Path.{subst}
use grout_cni.Base.{
  ◌==◌, ==_iff, length, All, length-append, Bytes, reading_header, payload_too_large,
  reading_payload, id_mismatch, grout_status, new, in_stage, Result, ok, err, ℕ, zero, suc, ◌+◌,
  ◌%◌, ◌^◌, ◌≤◌, ◌<◌, ◌≡◌, refl, sym, ◌∙◌, ◌≢◌, false, List, [], ◌∷◌, ◌++◌, append-nil,
  append_assoc, arith,
}
use grout_cni.Base.State.{◌>>=◌}
use grout_cni.Wire.{max_msg_len, eof}
use grout_cni.Wire.RoundTrip.{response, header_bytes, read_response-response, write_request-bytes}
use grout_cni.Wire.Breaking.{
  read_response-cut_header, read_response-too_long, read_response-cut_payload,
}
use grout_cni.Client.{Client, next_id, stream_loop, request_stream}
use grout_cni.Client.Exchange.{after_write, after_exchange}
use grout_cni.Client.Stream.{IsItem}

-- What stops the loop of the request with the id, once it has these items: the bytes from there on,
-- what the loop returns, and the bytes that it leaves unread, which may be any.
pub data Stops (id : ℕ) (items : List Bytes) : Bytes → Result (List Bytes) → Bytes → Type 0 where
  finished : (rest : Bytes) → Stops id items (response id 0 [] ++ rest) (ok items) rest
  foreign :
      (for_id status : ℕ) (last rest : Bytes)
      → for_id ≢ id
      → for_id < 2 ^ 32
      → status < 2 ^ 32
      → length last ≤ max_msg_len
      → Stops id items (response for_id status last ++ rest) (err (new id_mismatch)) rest
  refused :
      (status : ℕ) (last rest : Bytes)
      → status ≢ 0
      → status < 2 ^ 32
      → length last ≤ max_msg_len
      → Stops id items (response id status last ++ rest) (err (new grout_status)) rest
  too_long :
      (for_id status n : ℕ) (rest : Bytes)
      → for_id < 2 ^ 32
      → status < 2 ^ 32
      → max_msg_len < n
      → n < 2 ^ 32
      → Stops id items (header_bytes for_id status n ++ rest) (err (new payload_too_large)) rest
  cut_header :
      (tail : Bytes) → length tail < 12 → Stops id items tail (err (in_stage reading_header eof)) []
  cut_payload :
      (for_id status n : ℕ) (tail : Bytes)
      → for_id < 2 ^ 32
      → status < 2 ^ 32
      → length tail < n
      → n ≤ max_msg_len
      → Stops id items
          (header_bytes for_id status n ++ tail)
          (err (in_stage reading_payload eof))
          []

-- Items as the peer sends them, without an end.
abbrev pub items_sent : ℕ → List Bytes → Bytes
items_sent id [] = []
items_sent id (item ∷ items) = response id 0 item ++ items_sent id items

abbrev left_with : Client → Bytes → Client
left_with c b = record c { conn = record (c.conn) { incoming = b } }

last_round :
    {id : ℕ} {items : List Bytes} {tail : Bytes} {out : Result (List Bytes)} {rest : Bytes}
    (fuel : ℕ) (c : Client)
    → id < 2 ^ 32
    → Stops id items tail out rest
    → c.conn.incoming ≡ tail
    → stream_loop (suc fuel) id items c ≡ (out, left_with c rest)
unfolding stream_loop ◌>>=◌
last_round {id} fuel c hi (finished rest) e = rw (
  read_response-response id 0 [] rest c.conn hi (omega arith) (omega arith) e,
  (==_iff id id).1 refl,
)
last_round {id} fuel c hi (foreign for_id status last rest d hf hs hl) e =
    let other : (for_id == id) ≡ false = ground arith in
    rw (read_response-response for_id status last rest c.conn hf hs hl e, other)
last_round {id} fuel c hi (refused status last rest d hs hl) e =
    let fails : (status == 0) ≡ false = ground arith in
    rw (read_response-response id status last rest c.conn hi hs hl e, (==_iff id id).1 refl, fails)
last_round fuel c hi (too_long for_id status n rest hf hs h hn) e =
    rw (read_response-too_long for_id status n rest c.conn hf hs e h hn)
last_round fuel c hi (cut_header tail h) e = rw (read_response-cut_header c.conn (rw e h))
last_round fuel c hi (cut_payload for_id status n tail hf hs h hn) e =
    rw (read_response-cut_payload for_id status n tail c.conn hf hs e h hn)

stream_loop-Stops :
    {id : ℕ} {all : List Bytes} {tail : Bytes} {out : Result (List Bytes)} {rest : Bytes}
    (items : List Bytes) (fuel : ℕ) (acc : List Bytes) (c : Client)
    → id < 2 ^ 32
    → Stops id all tail out rest
    → all ≡ acc ++ items
    → All IsItem items
    → length items < fuel
    → c.conn.incoming ≡ items_sent id items ++ tail
    → stream_loop fuel id acc c ≡ (out, left_with c rest)
unfolding stream_loop ◌>>=◌
stream_loop-Stops items zero acc c hi k q h hf arrives = absurd (omega arith)
stream_loop-Stops {id} {all} {tail} {out} {rest} [] (suc fuel) acc c hi k q h hf arrives =
    subst (λ a. stream_loop (suc fuel) id a c ≡ (out, left_with c rest)) (q ∙ append-nil acc)
      (last_round fuel c hi k arrives)
stream_loop-Stops {id} {all} {tail} (x ∷ xs) (suc fuel) acc c hi k q (hx, hxs) hf arrives =
    let later = items_sent id xs ++ tail in
    let arrives' = arrives ∙ append_assoc (response id 0 x) (items_sent id xs) tail in
    let more : (length x == 0) ≡ false = ground (arith, hx.0) in
    rw (
      read_response-response id 0 x later c.conn hi (omega arith) hx.1 arrives',
      (==_iff id id).1 refl,
      more,
      stream_loop-Stops xs fuel (acc ++ (x ∷ [])) (left_with c later) hi k
          (q ∙ sym (append_assoc acc (x ∷ []) xs)) hxs (omega arith) refl,
    )

length-items :
    (id : ℕ) (items : List Bytes) (tail : Bytes)
    → length items < suc (length (items_sent id items ++ tail))
length-items id [] tail = omega arith
length-items id (x ∷ xs) tail = omega (
  arith,
  length-append (x ++ items_sent id xs) tail,
  length-append x (items_sent id xs),
  length-append (items_sent id xs) tail,
  length-items id xs tail,
)

-- On a connection that takes every write, after a request with a payload under 2^32 bytes, the loop of
-- a stream takes the items of its request that the peer sends, each of one byte at least and at most
-- the longest a response may have, and stops at the first response that is empty, has a foreign id,
-- has a status or announces too much, or where the peer closes the connection before one is complete:
-- it returns the items in the first case, in order, and the error of the place in each other one, and
-- reads nothing behind it, whatever the peer goes on to send.
pub request_stream-Stops :
    (type : ℕ) (payload : Bytes) (items : List Bytes) (tail rest : Bytes)
    (out : Result (List Bytes)) (c : Client)
    → length payload < 2 ^ 32
    → All IsItem items
    → Stops ((c.req_id + 1) % 2 ^ 32) items tail out rest
    → c.conn.faults ≡ []
    → c.conn.incoming ≡ items_sent ((c.req_id + 1) % 2 ^ 32) items ++ tail
    → request_stream type payload c ≡ (out, after_exchange c type payload rest)
unfolding request_stream next_id ◌>>=◌
request_stream-Stops type payload items tail rest out c hp h k hf arrives =
    let id = (c.req_id + 1) % 2 ^ 32 in
    rw (
      write_request-bytes id type payload c.conn hp hf,
      stream_loop-Stops items (suc (length c.conn.incoming)) [] (after_write c type payload)
          (omega arith) k refl h (rw arrives (length-items id items tail)) arrives,
    )
