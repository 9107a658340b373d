-- ===== src/Remote/Exchanges.antt =====
-- The calls of pkg/groutapi/client.go that the handlers make, each with the answer that grout sends.
-- A client on a connection that takes every write, by what will arrive, what was sent and the counter.
use grout_cni.Base.Buffer.{copy, write_at, put_uint16}
use grout_cni.Base.State.{◌>>=◌}
use grout_cni.Grout.{AddRequest, AddressRequest}
use grout_cni.Client.Interfaces.{
  type_iface_add, type_iface_del, type_iface_list, list_interfaces, iface_payload, add_interface,
  del_interface,
}
use grout_cni.Client.Addresses.{
  type_ip4_addr_add, type_ip4_addr_flush, type_ip6_addr_add, type_ip6_addr_flush, address_message,
  add_address, flush_addresses,
}
use grout_cni.Base.{
  ◌==◌, ==_iff, length, Bytes, grout_status, interface_list_failed, interface_add_failed,
  interface_del_failed, address_add_failed, flush4_failed, flush6_failed, new, in_stage, ok, err, ℕ,
  ◌+◌, ◌%◌, ◌^◌, ◌≤◌, ◌<◌, ◌≡◌, refl, ◌∙◌, ◌≢◌, false, [], ◌∷◌, ◌++◌, arith,
}
use grout_cni.Wire.{max_msg_len}
use grout_cni.Wire.RoundTrip.{response, read_response-response, request_bytes, write_request-bytes}
use grout_cni.Client.{Client, next_id, request, stream_loop, request_stream}
use grout_cni.Client.Exchange.{after_write, request-response}

abbrev pub dialled : Bytes → Bytes → ℕ → Client
dialled incoming sent id = record {
  conn = record { incoming = incoming; sent = sent; faults = [] };
  req_id = id;
}

-- The id of the next request.
abbrev pub next : ℕ → ℕ
next id = (id + 1) % 2 ^ 32

-- A status that grout sends with an error, and what it sends beside it.
abbrev pub IsRefusal : ℕ → Bytes → Type 0
IsRefusal status more = (status ≢ 0) × (status < 2 ^ 32) × (length more ≤ max_msg_len)

-- A flush as it is sent.
abbrev pub flush_request : ℕ → ℕ → ℕ → Bytes
flush_request id type iface_id = request_bytes (next id) type (put_uint16 iface_id)

module _ (rest sent : Bytes) (id : ℕ) where
  pub accepted :
      (type : ℕ) (payload more : Bytes)
      → length payload < 2 ^ 32
      → length more ≤ max_msg_len
      → request type payload (dialled (response (next id) 0 more ++ rest) sent id)
        ≡ (ok more, dialled rest (sent ++ request_bytes (next id) type payload) (next id))
  accepted type payload more hp hm =
      request-response type (next id) 0 payload more rest
        (dialled (response (next id) 0 more ++ rest) sent id) hp (omega arith) (omega arith) hm refl
        refl
      ∙ rw ((==_iff (next id) (next id)).1 refl)

  pub refused :
      (type status : ℕ) (payload more : Bytes)
      → length payload < 2 ^ 32
      → IsRefusal status more
      → request type payload (dialled (response (next id) status more ++ rest) sent id) ≡ (
        err (new grout_status),
        dialled rest (sent ++ request_bytes (next id) type payload) (next id),
      )
  refused type status payload more hp (nonzero, small, short) =
      let fails : (status == 0) ≡ false = ground arith in
      request-response type (next id) status payload more rest
        (dialled (response (next id) status more ++ rest) sent id) hp (omega arith) small short refl
        refl
      ∙ rw ((==_iff (next id) (next id)).1 refl, fails)

  pub stream-refused :
      (type status : ℕ) (payload more : Bytes)
      → length payload < 2 ^ 32
      → IsRefusal status more
      → request_stream type payload (dialled (response (next id) status more ++ rest) sent id) ≡ (
        err (new grout_status),
        dialled rest (sent ++ request_bytes (next id) type payload) (next id),
      )
  unfolding request_stream next_id stream_loop ◌>>=◌
  stream-refused type status payload more hp (nonzero, small, short) =
      let arriving = response (next id) status more ++ rest in
      let fails : (status == 0) ≡ false = ground arith in
      rw (
        write_request-bytes (next id) type payload (dialled arriving sent id).conn hp refl,
        read_response-response (next id) status more rest
            (after_write (dialled arriving sent id) type payload).conn (omega arith) small short
            refl,
        (==_iff (next id) (next id)).1 refl,
        fails,
      )

  pub list-refused :
      (status : ℕ) (more : Bytes)
      → IsRefusal status more
      → list_interfaces (dialled (response (next id) status more ++ rest) sent id) ≡ (
        err (in_stage interface_list_failed (new grout_status)),
        dialled rest (sent ++ request_bytes (next id) type_iface_list (0 ∷ [])) (next id),
      )
  unfolding list_interfaces ◌>>=◌
  list-refused status more h =
      rw (stream-refused type_iface_list status (0 ∷ []) more (omega arith) h)

  pub add-refused :
      (req : AddRequest) (status : ℕ) (payload more : Bytes)
      → iface_payload req ≡ ok payload
      → length payload < 2 ^ 32
      → IsRefusal status more
      → add_interface req (dialled (response (next id) status more ++ rest) sent id) ≡ (
        err (in_stage interface_add_failed (new grout_status)),
        dialled rest (sent ++ request_bytes (next id) type_iface_add payload) (next id),
      )
  unfolding add_interface ◌>>=◌
  add-refused req status payload more hp hl h =
      rw (hp, refused type_iface_add status payload more hl h)

  pub delete-accepted :
      (iface_id : ℕ) (more : Bytes)
      → length more ≤ max_msg_len
      → del_interface iface_id (dialled (response (next id) 0 more ++ rest) sent id) ≡ (
        ok tt,
        dialled rest
            (sent ++ request_bytes (next id) type_iface_del (put_uint16 iface_id))
            (next id),
      )
  unfolding del_interface write_at copy ◌>>=◌
  delete-accepted iface_id more h =
      rw (accepted type_iface_del (put_uint16 iface_id) more (omega arith) h)

  pub delete-refused :
      (iface_id status : ℕ) (more : Bytes)
      → IsRefusal status more
      → del_interface iface_id (dialled (response (next id) status more ++ rest) sent id) ≡ (
        err (in_stage interface_del_failed (new grout_status)),
        dialled rest
            (sent ++ request_bytes (next id) type_iface_del (put_uint16 iface_id))
            (next id),
      )
  unfolding del_interface write_at copy ◌>>=◌
  delete-refused iface_id status more h =
      rw (refused type_iface_del status (put_uint16 iface_id) more (omega arith) h)

  module _ (req : AddressRequest) (type : ℕ) (payload : Bytes)
      (makes : address_message type_ip4_addr_add type_ip6_addr_add req.iface_id req.address
          req.exist_ok
        ≡ ok (type, payload))
      (small : length payload < 2 ^ 32) where
    pub assign-accepted :
        (more : Bytes)
        → length more ≤ max_msg_len
        → add_address req (dialled (response (next id) 0 more ++ rest) sent id)
          ≡ (ok tt, dialled rest (sent ++ request_bytes (next id) type payload) (next id))
    unfolding add_address ◌>>=◌
    assign-accepted more h = rw (makes, accepted type payload more small h)

    pub assign-refused :
        (status : ℕ) (more : Bytes)
        → IsRefusal status more
        → add_address req (dialled (response (next id) status more ++ rest) sent id) ≡ (
          err (in_stage address_add_failed (new grout_status)),
          dialled rest (sent ++ request_bytes (next id) type payload) (next id),
        )
    unfolding add_address ◌>>=◌
    assign-refused status more h = rw (makes, refused type status payload more small h)

  module _ (iface_id : ℕ) where
    pub flush4-refused :
        (status : ℕ) (more : Bytes)
        → IsRefusal status more
        → flush_addresses iface_id (dialled (response (next id) status more ++ rest) sent id) ≡ (
          err (in_stage flush4_failed (new grout_status)),
          dialled rest (sent ++ flush_request id type_ip4_addr_flush iface_id) (next id),
        )
    unfolding flush_addresses write_at copy ◌>>=◌
    flush4-refused status more h =
        rw (refused type_ip4_addr_flush status (put_uint16 iface_id) more (omega arith) h)

-- The IPv6 flush follows the IPv4 flush.
module _ (rest sent : Bytes) (id iface_id : ℕ) (more4 : Bytes)
    (short4 : length more4 ≤ max_msg_len) where
  pub flush-accepted :
      (more6 : Bytes)
      → length more6 ≤ max_msg_len
      → flush_addresses iface_id (
          dialled
            (response (next id) 0 more4 ++ (response (next (next id)) 0 more6 ++ rest))
            sent
            id)
        ≡ (
          ok tt,
          dialled rest
              ((sent ++ flush_request id type_ip4_addr_flush iface_id)
                ++ flush_request (next id) type_ip6_addr_flush iface_id)
              (next (next id)),
        )
  unfolding flush_addresses write_at copy ◌>>=◌
  flush-accepted more6 h = rw (
    accepted (response (next (next id)) 0 more6 ++ rest) sent id type_ip4_addr_flush
        (put_uint16 iface_id) more4 (omega arith) short4,
    accepted rest (sent ++ flush_request id type_ip4_addr_flush iface_id) (next id)
        type_ip6_addr_flush (put_uint16 iface_id) more6 (omega arith) h,
  )

  pub flush6-refused :
      (status : ℕ) (more6 : Bytes)
      → IsRefusal status more6
      → flush_addresses iface_id (
          dialled
            (response (next id) 0 more4 ++ (response (next (next id)) status more6 ++ rest))
            sent
            id)
        ≡ (
          err (in_stage flush6_failed (new grout_status)),
          dialled rest
              ((sent ++ flush_request id type_ip4_addr_flush iface_id)
                ++ flush_request (next id) type_ip6_addr_flush iface_id)
              (next (next id)),
        )
  unfolding flush_addresses write_at copy ◌>>=◌
  flush6-refused status more6 h = rw (
    accepted (response (next (next id)) status more6 ++ rest) sent id type_ip4_addr_flush
        (put_uint16 iface_id) more4 (omega arith) short4,
    refused rest (sent ++ flush_request id type_ip4_addr_flush iface_id) (next id)
        type_ip6_addr_flush status (put_uint16 iface_id) more6 (omega arith) h,
  )
