-- ===== src/Client/Dialling.antt =====
-- pkg/groutapi/client.go: Dial and its handshake.
use grout_cni.Base.{
  ◌==◌, if◌then◌else◌, Bool-cases, length, length-replicate, Bytes, codes, grout_status, connecting,
  handshake, external, new, in_stage, Result, ok, err, bind, wrap, ℕ, ◌+◌, ◌^◌, ◌≤◌, ◌<◌, ◌≡◌, refl,
  inl, inr, [], ◌++◌, arith,
}
use grout_cni.Base.Buffer.{write_at, zeros, put_uint32, length-write_at}
use grout_cni.Base.State.{State, pure, ◌>>=◌, ◌>>◌}
use grout_cni.Host.{Reply, value, failed}
use grout_cni.Wire.{Conn, max_msg_len, api_version, msg_type, module_main}
use grout_cni.Wire.RoundTrip.{response, request_bytes}
use grout_cni.Client.{Client, request}
use grout_cni.Client.Exchange.{request-response}

abbrev pub type_hello : ℕ
type_hello = msg_type module_main 0x1981

abbrev pub hello_payload : Bytes
hello_payload =
    write_at 4 (codes "grout-k-cni") (write_at 0 (put_uint32 api_version) (zeros (4 + 128)))

unfoldable pub hello : State Client (Unit {0})
hello = do request type_hello hello_payload; pure tt

-- Dial, over net.Dial. The connection that is closed after a failed handshake is not looked at again.
unfoldable pub dial : Reply Conn → Result Client
unfolding hello
dial (failed e) = err (in_stage connecting (external e))
dial (value conn) =
    let (r, c) = hello (record { conn = conn; req_id = 0 }) in bind (wrap handshake r) (λ _. ok c)

-- On a connection that takes every write, to a grout that answers the hello with a status and a
-- payload within the limit: with status 0 the client is connected, its counter at 1, and has sent
-- the version of the API; with another status Dial fails.
pub dial-response :
    (conn : Conn) (status : ℕ) (reply rest : Bytes)
    → status < 2 ^ 32
    → length reply ≤ max_msg_len
    → conn.faults ≡ []
    → conn.incoming ≡ response 1 status reply ++ rest
    → dial (value conn) ≡ (
        if status == 0
        then ok (record {
          conn = record conn {
            incoming = rest;
            sent = conn.sent ++ request_bytes 1 type_hello hello_payload;
          };
          req_id = 1;
        })
        else err (in_stage handshake (new grout_status)))
unfolding dial hello ◌>>=◌
dial-response conn status reply rest hs hr hf arrives =
    let l : length hello_payload ≡ 132 = simp (length-write_at, length-replicate) in
    let fresh : Client = record { conn = conn; req_id = 0 } in
    rw
      (request-response type_hello 1 status hello_payload reply rest fresh (omega (arith, l))
        (omega arith) hs hr hf arrives)
      (elim (Bool-cases (status == 0)) [ inl e ↦ rw e refl | inr e ↦ rw e refl ])
