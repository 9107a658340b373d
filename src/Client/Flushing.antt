-- ===== src/Client/Flushing.antt =====
-- AddressFlush of pkg/groutapi/client.go as two exchanges.
use grout_cni.Base.{
  ◌==◌, if◌then◌else◌, ==_iff, Bool-cases, length, Bytes, grout_status, flush4_failed,
  flush6_failed, new, in_stage, ok, err, ℕ, ◌+◌, ◌%◌, ◌^◌, ◌≤◌, ◌<◌, ◌≡◌, refl, inl, inr, [], ◌++◌,
  arith,
}
use grout_cni.Base.Buffer.{copy, write_at, put_uint16}
use grout_cni.Base.State.{◌>>=◌}
use grout_cni.Wire.{max_msg_len}
use grout_cni.Wire.RoundTrip.{response}
use grout_cni.Client.{Client}
use grout_cni.Client.Exchange.{after_exchange, request-response}
use grout_cni.Client.Addresses.{type_ip4_addr_flush, type_ip6_addr_flush, flush_addresses}

-- On a connection that takes every write, to a grout that answers two requests, each with the id that
-- the client's counter gives it and any status: AddressFlush succeeds if both are 0, having sent the
-- IPv4 flush and then the IPv6 flush of the interface; it fails in the IPv4 stage with the first
-- status, without the IPv6 flush, and in the IPv6 stage with the second.
pub flush_addresses-responses :
    (iface_id s4 s6 : ℕ) (r4 r6 rest : Bytes) (c : Client)
    → s4 < 2 ^ 32
    → s6 < 2 ^ 32
    → length r4 ≤ max_msg_len
    → length r6 ≤ max_msg_len
    → c.conn.faults ≡ []
    → c.conn.incoming
      ≡ response ((c.req_id + 1) % 2 ^ 32) s4 r4
        ++ (response (((c.req_id + 1) % 2 ^ 32 + 1) % 2 ^ 32) s6 r6 ++ rest)
    → let payload = put_uint16 iface_id in
      let rest4 = response (((c.req_id + 1) % 2 ^ 32 + 1) % 2 ^ 32) s6 r6 ++ rest in
      let half = after_exchange c type_ip4_addr_flush payload rest4 in
      flush_addresses iface_id c ≡ (
        if s4 == 0
        then (
          if s6 == 0 then ok tt else err (in_stage flush6_failed (new grout_status)),
          after_exchange half type_ip6_addr_flush payload rest,
        )
        else (err (in_stage flush4_failed (new grout_status)), half))
unfolding flush_addresses write_at copy ◌>>=◌
flush_addresses-responses iface_id s4 s6 r4 r6 rest c h4 h6 l4 l6 hf arrives =
    let id4 = (c.req_id + 1) % 2 ^ 32 in
    let id6 = (id4 + 1) % 2 ^ 32 in
    let payload = put_uint16 iface_id in
    let rest4 = response id6 s6 r6 ++ rest in
    let half = after_exchange c type_ip4_addr_flush payload rest4 in
    let first =
      request-response type_ip4_addr_flush id4 s4 payload r4 rest4 c (omega arith) (omega arith) h4
        l4 hf arrives in
    let second =
      request-response type_ip6_addr_flush id6 s6 payload r6 rest half (omega arith) (omega arith)
        h6 l6 hf refl in
    elim (Bool-cases (s4 == 0)) [
      | inl e ↦ elim (Bool-cases (s6 == 0)) [
        | inl f ↦ rw (first, (==_iff id4 id4).1 refl, e, second, (==_iff id6 id6).1 refl, f) refl
        | inr f ↦ rw (first, (==_iff id4 id4).1 refl, e, second, (==_iff id6 id6).1 refl, f) refl
      ]
      | inr e ↦ rw (first, (==_iff id4 id4).1 refl, e) refl
    ]
