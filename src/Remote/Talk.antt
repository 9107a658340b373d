-- ===== src/Remote/Talk.antt =====
-- What grout and *groutapi.Client say to each other while the handlers of pkg/cni/handler.go make their
-- calls.
-- The events of GroutClient.
use grout_cni.Base.{
  length, All, Bytes, Stage, grout_status, interface_list_failed, interface_add_failed,
  interface_del_failed, address_add_failed, flush4_failed, flush6_failed, Error, new, in_stage, ok,
  err, ℕ, ◌+◌, ◌^◌, ◌≤◌, ◌<◌, ◌≡◌, Bool, true, false, some, List, [], ◌∷◌, ◌++◌, map,
}
use grout_cni.Base.Buffer.{put_uint16}
use grout_cni.Grout.{VxlanConfig, AddRequest, AddressRequest}
use grout_cni.Host.{
  Reply, value, failed, Event, listed, iface_added, iface_deleted, address_added, addresses_flushed,
  Trace,
}
use grout_cni.Wire.{max_msg_len}
use grout_cni.Wire.RoundTrip.{response, request_bytes}
use grout_cni.Client.Stream.{stream}
use grout_cni.Client.Interfaces.{type_iface_add, type_iface_del, type_iface_list, iface_payload}
use grout_cni.Client.Encoding.{IsAddRequest}
use grout_cni.Client.Payload.{IsVxlan}
use grout_cni.Client.Addresses.{
  type_ip4_addr_add, type_ip4_addr_flush, type_ip6_addr_add, type_ip6_addr_flush, address_message,
}
use grout_cni.Client.Layout.{WireIface, wire_bytes, IsWireIface, iface_of}
use grout_cni.Remote.Exchanges.{next, IsRefusal, flush_request}

abbrev pub is_remote : Event → Bool
is_remote (listed r) = true
is_remote (iface_added req r) = true
is_remote (iface_deleted id r) = true
is_remote (address_added req r) = true
is_remote (addresses_flushed id r) = true
is_remote _ = false

module _ (code : Error → ℕ) where
  -- What the handlers see of a status.
  abbrev pub refusal : {A : Type 0} → Stage → Reply A
  refusal stage = failed (code (in_stage stage (new grout_status)))

  -- From the counter `start`, the transcript was made with these bytes from grout and these to it, and
  -- the counter is at the first index. grout answers each request once, by the id of the request: a list
  -- with its interfaces in their C layout, an addition with the new id, and others with an empty or any
  -- other payload; or it answers with a status. A request that cannot be encoded is not sent.
  pub data Talk (start : ℕ) : ℕ → Bytes → Bytes → Trace → Type 0 where
    begin : Talk start start [] [] []
    elsewhere :
        {id : ℕ} {i s : Bytes} {t : Trace} (e : Event)
        → is_remote e ≡ false
        → Talk start id i s t
        → Talk start id i s (e ∷ t)
    lists :
        {id : ℕ} {i s : Bytes} {t : Trace} (ws : List WireIface)
        → All IsWireIface ws
        → Talk start id i s t
        → Talk start
            (next id)
            (i ++ stream (next id) (map wire_bytes ws))
            (s ++ request_bytes (next id) type_iface_list (0 ∷ []))
            (listed (value (map iface_of ws)) ∷ t)
    list_fails :
        {id : ℕ} {i s : Bytes} {t : Trace} (status : ℕ) (more : Bytes)
        → IsRefusal status more
        → Talk start id i s t
        → Talk start
            (next id)
            (i ++ response (next id) status more)
            (s ++ request_bytes (next id) type_iface_list (0 ∷ []))
            (listed (refusal interface_list_failed) ∷ t)
    adds :
        {id : ℕ} {i s : Bytes} {t : Trace} (req : AddRequest) (payload : Bytes) (iface_id : ℕ)
        (more : Bytes)
        → IsAddRequest req
        → ((v : VxlanConfig) → req.vxlan ≡ some v → IsVxlan v)
        → iface_payload req ≡ ok payload
        → iface_id < 2 ^ 16
        → 2 + length more ≤ max_msg_len
        → Talk start id i s t
        → Talk start
            (next id)
            (i ++ response (next id) 0 (put_uint16 iface_id ++ more))
            (s ++ request_bytes (next id) type_iface_add payload)
            (iface_added req (value iface_id) ∷ t)
    add_fails :
        {id : ℕ} {i s : Bytes} {t : Trace} (req : AddRequest) (payload : Bytes) (status : ℕ)
        (more : Bytes)
        → IsAddRequest req
        → ((v : VxlanConfig) → req.vxlan ≡ some v → IsVxlan v)
        → iface_payload req ≡ ok payload
        → IsRefusal status more
        → Talk start id i s t
        → Talk start
            (next id)
            (i ++ response (next id) status more)
            (s ++ request_bytes (next id) type_iface_add payload)
            (iface_added req (refusal interface_add_failed) ∷ t)
    add_unsent :
        {id : ℕ} {i s : Bytes} {t : Trace} (req : AddRequest) (e : Error)
        → iface_payload req ≡ err e
        → Talk start id i s t
        → Talk start id i s (iface_added req (failed (code e)) ∷ t)
    deletes :
        {id : ℕ} {i s : Bytes} {t : Trace} (iface_id : ℕ) (more : Bytes)
        → length more ≤ max_msg_len
        → Talk start id i s t
        → Talk start
            (next id)
            (i ++ response (next id) 0 more)
            (s ++ request_bytes (next id) type_iface_del (put_uint16 iface_id))
            (iface_deleted iface_id (value tt) ∷ t)
    delete_fails :
        {id : ℕ} {i s : Bytes} {t : Trace} (iface_id status : ℕ) (more : Bytes)
        → IsRefusal status more
        → Talk start id i s t
        → Talk start
            (next id)
            (i ++ response (next id) status more)
            (s ++ request_bytes (next id) type_iface_del (put_uint16 iface_id))
            (iface_deleted iface_id (refusal interface_del_failed) ∷ t)
    assigns :
        {id : ℕ} {i s : Bytes} {t : Trace} (req : AddressRequest) (type : ℕ) (payload more : Bytes)
        → address_message type_ip4_addr_add type_ip6_addr_add req.iface_id req.address req.exist_ok
          ≡ ok (type, payload)
        → req.iface_id < 2 ^ 16
        → length more ≤ max_msg_len
        → Talk start id i s t
        → Talk start
            (next id)
            (i ++ response (next id) 0 more)
            (s ++ request_bytes (next id) type payload)
            (address_added req (value tt) ∷ t)
    assign_fails :
        {id : ℕ} {i s : Bytes} {t : Trace} (req : AddressRequest) (type status : ℕ)
        (payload more : Bytes)
        → address_message type_ip4_addr_add type_ip6_addr_add req.iface_id req.address req.exist_ok
          ≡ ok (type, payload)
        → req.iface_id < 2 ^ 16
        → IsRefusal status more
        → Talk start id i s t
        → Talk start
            (next id)
            (i ++ response (next id) status more)
            (s ++ request_bytes (next id) type payload)
            (address_added req (refusal address_add_failed) ∷ t)
    assign_unsent :
        {id : ℕ} {i s : Bytes} {t : Trace} (req : AddressRequest) (e : Error)
        → address_message type_ip4_addr_add type_ip6_addr_add req.iface_id req.address req.exist_ok
          ≡ err e
        → Talk start id i s t
        → Talk start id i s (address_added req (failed (code e)) ∷ t)
    flushes :
        {id : ℕ} {i s : Bytes} {t : Trace} (iface_id : ℕ) (more4 more6 : Bytes)
        → length more4 ≤ max_msg_len
        → length more6 ≤ max_msg_len
        → Talk start id i s t
        → Talk start
            (next (next id))
            (i ++ (response (next id) 0 more4 ++ response (next (next id)) 0 more6))
            (s
              ++ (flush_request id type_ip4_addr_flush iface_id
                  ++ flush_request (next id) type_ip6_addr_flush iface_id))
            (addresses_flushed iface_id (value tt) ∷ t)
    flush4_fails :
        {id : ℕ} {i s : Bytes} {t : Trace} (iface_id status : ℕ) (more : Bytes)
        → IsRefusal status more
        → Talk start id i s t
        → Talk start
            (next id)
            (i ++ response (next id) status more)
            (s ++ flush_request id type_ip4_addr_flush iface_id)
            (addresses_flushed iface_id (refusal flush4_failed) ∷ t)
    flush6_fails :
        {id : ℕ} {i s : Bytes} {t : Trace} (iface_id status : ℕ) (more4 more6 : Bytes)
        → length more4 ≤ max_msg_len
        → IsRefusal status more6
        → Talk start id i s t
        → Talk start
            (next (next id))
            (i ++ (response (next id) 0 more4 ++ response (next (next id)) status more6))
            (s
              ++ (flush_request id type_ip4_addr_flush iface_id
                  ++ flush_request (next id) type_ip6_addr_flush iface_id))
            (addresses_flushed iface_id (refusal flush6_failed) ∷ t)
