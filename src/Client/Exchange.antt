-- ===== src/Client/Exchange.antt =====
-- request of pkg/groutapi/client.go: what one exchange with grout does to the client.
use grout_cni.Base.{
  ◌==◌, if◌then◌else◌, Bool-cases, length, Bytes, id_mismatch, grout_status, new, Result, ok, err,
  ℕ, ◌+◌, ◌%◌, ◌^◌, ◌≤◌, ◌<◌, ◌≡◌, inl, inr, [], ◌++◌,
}
use grout_cni.Base.State.{◌>>=◌}
use grout_cni.Wire.{max_msg_len, write_request}
use grout_cni.Wire.RoundTrip.{response, read_response-response, request_bytes, write_request-bytes}
use grout_cni.Client.{Client, on_conn, next_id, request}

-- What the client has written after a request, on a connection that takes every write.
abbrev pub after_write : Client → ℕ → Bytes → Client
after_write c type payload =
    let id = (c.req_id + 1) % 2 ^ 32 in
    record {
      conn = record (c.conn) { sent = c.conn.sent ++ request_bytes id type payload };
      req_id = id;
    }

next-write :
    (c : Client) (type : ℕ) (payload : Bytes)
    → length payload < 2 ^ 32
    → c.conn.faults ≡ []
    → (next_id >>= λ id. on_conn (write_request id type payload)) c
      ≡ (ok tt, after_write c type payload)
unfolding next_id ◌>>=◌
next-write c type payload h hf =
    rw (write_request-bytes ((c.req_id + 1) % 2 ^ 32) type payload c.conn h hf)

-- The same client, once the response is off the stream.
abbrev pub after_exchange : Client → ℕ → Bytes → Bytes → Client
after_exchange c type payload rest =
    let c' = after_write c type payload in record c' { conn = record (c'.conn) { incoming = rest } }

-- What the client makes of a response: a foreign id and a status are errors.
abbrev pub verdict : ℕ → ℕ → ℕ → Bytes → Result Bytes
verdict id for_id status reply =
    if for_id == id
    then (if status == 0 then ok reply else err (new grout_status))
    else err (new id_mismatch)

-- On a connection that takes every write, a request takes one id and one whole response off the
-- stream, whatever the verdict on the response is.
pub request-response :
    (type for_id status : ℕ) (payload reply rest : Bytes) (c : Client)
    → length payload < 2 ^ 32
    → for_id < 2 ^ 32
    → status < 2 ^ 32
    → length reply ≤ max_msg_len
    → c.conn.faults ≡ []
    → c.conn.incoming ≡ response for_id status reply ++ rest
    → request type payload c
      ≡ (verdict ((c.req_id + 1) % 2 ^ 32) for_id status reply, after_exchange c type payload rest)
unfolding request next_id ◌>>=◌
request-response type for_id status payload reply rest c hp hi hs hr hf arrives =
    let id = (c.req_id + 1) % 2 ^ 32 in
    rw
      (
        write_request-bytes id type payload c.conn hp hf,
        read_response-response for_id status reply rest (after_write c type payload).conn hi hs hr
            arrives,
      )
      (elim (Bool-cases (for_id == id)) [
        | inl same_id ↦ rw same_id (elim (Bool-cases (status == 0)) [
          | inl success ↦ rw success
          | inr failure ↦ rw failure
        ])
        | inr foreign ↦ rw foreign
      ])
