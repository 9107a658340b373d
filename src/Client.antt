-- ===== src/Client.antt =====
-- pkg/groutapi/client.go: the client's state, one request with one response, and a request that is
-- answered by a stream. The mutex is held for a whole call, so calls do not interleave.
pub mod Exchange
pub mod Stream
pub mod Ending
pub mod Stopping
pub mod Interfaces
pub mod Layout
pub mod Encoding
pub mod Payload
pub mod Addresses
pub mod Routes
pub mod Floods
pub mod FloodList
pub mod Dialling
pub mod Adding
pub mod Flushing
use grout_cni.Base.{
  ◌==◌, length, Bytes, id_mismatch, grout_status, ok, panic, ℕ, zero, suc, ◌+◌, ◌%◌, ◌^◌, List, [],
  ◌∷◌, ◌++◌,
}
use grout_cni.Base.State.{State, pure, branch, guard, ◌>>=◌, ◌>>◌}
use grout_cni.Wire.{Conn, ResponseHeader, write_request, read_response}

pub record Client : Type 0 where
  pub conn : Conn
  pub req_id : ℕ

abbrev pub on_conn : {A : Type 0} → State Conn A → State Client A
on_conn m c = let (r, conn') = m c.conn in (r, record c { conn = conn' })

-- reqID.Add(1), which wraps
unfoldable pub next_id : State Client ℕ
next_id c = let id = (c.req_id + 1) % 2 ^ 32 in (ok id, record c { req_id = id })

-- The payload of the one response, once its id and status are in order.
unfoldable pub request : ℕ → Bytes → State Client Bytes
request type payload = do
  id ← next_id
  on_conn (write_request id type payload)
  r ← on_conn read_response
  guard (r.0.for_id == id) id_mismatch
  guard (r.0.status == 0) grout_status
  pure r.1

-- The loop of requestStream, until a response with no payload. Each round takes the twelve bytes of
-- a header off the stream or ends, so more rounds than there are bytes are never made. What arrives is
-- finite: a peer that goes on for ever, or stalls, is outside of the model; Go's loop has no bound then.
unfoldable pub stream_loop : ℕ → ℕ → List Bytes → State Client (List Bytes)
stream_loop zero id items c = (panic, c)
stream_loop (suc fuel) id items c =
    let again = λ (r : ResponseHeader × Bytes). stream_loop fuel id (items ++ (r.1 ∷ [])) in
    (do
      r ← on_conn read_response
      guard (r.0.for_id == id) id_mismatch
      guard (r.0.status == 0) grout_status
      branch (r.0.payload_len == 0) (pure items) (again r))
      c

unfoldable pub request_stream : ℕ → Bytes → State Client (List Bytes)
request_stream type payload = do
  id ← next_id
  on_conn (write_request id type payload)
  λ c. stream_loop (suc (length c.conn.incoming)) id [] c
