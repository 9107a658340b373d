-- ===== src/Remote/Following.antt =====
-- *groutapi.Client follows what grout sends: it gives the answers, and sends the requests.
use grout_cni.Base.Buffer.{put_uint16}
use grout_cni.Grout.{AddRequest, AddressRequest}
use grout_cni.Client.Adding.{iface_payload-length, add_interface-response}
use grout_cni.Client.Addresses.{
  type_ip4_addr_add, type_ip4_addr_flush, type_ip6_addr_add, type_ip6_addr_flush, address_message,
  add_address, flush_addresses, IsRead, address_message_lem,
}
use grout_cni.Wire.RoundTrip.{response}
use grout_cni.Client.Stream.{stream}
use grout_cni.Client.Interfaces.{list_interfaces, iface_payload, add_interface, del_interface}
use grout_cni.Client.Layout.{wire_bytes, iface_of, list_interfaces-stream}
use grout_cni.Remote.Talk.{
  is_remote, Talk, begin, elsewhere, lists, list_fails, adds, add_fails, add_unsent, deletes,
  delete_fails, assigns, assign_fails, assign_unsent, flushes, flush4_fails, flush6_fails,
}
use grout_cni.Base.{
  length, Bytes, grout_status, flush6_failed, Error, new, in_stage, Result, ok, err, ℕ, ◌^◌, ◌<◌,
  ◌≡◌, refl, sym, inl, inr, false, ◌∷◌, ◌++◌, map, append-nil, append_assoc, arith,
}
use grout_cni.Base.State.{State, ◌>>=◌}
use grout_cni.Host.{
  Event, listed, iface_added, iface_deleted, address_added, addresses_flushed, Trace,
}
use grout_cni.Client.{Client}
use grout_cni.Remote.{reply, client_at, remote, Answered}
use grout_cni.Remote.Exchanges.{
  dialled, next, flush_request, list-refused, add-refused, delete-accepted, delete-refused,
  assign-accepted, assign-refused, flush4-refused, flush-accepted, flush6-refused,
}

module _ (code : Error → ℕ) (start : ℕ) (sent rest : Bytes) where
  -- The client that was dialled with these bytes to come has what is left of them after the
  -- transcript, has sent these, and gave the transcript's answers.
  abbrev pub Follows : Bytes → Bytes → ℕ → Bytes → Trace → Type 0
  Follows incoming left id s t =
      (client_at (dialled incoming sent start) t ≡ dialled left (sent ++ s) id)
      × Answered (remote code (dialled incoming sent start)) t

  -- One more call: the bytes `r` are left for it, and it sends `w`.
  one_more :
      {A : Type 0} (op : State Client A) (x : Result A) (incoming left s w : Bytes) (id id' : ℕ)
      (t : Trace)
      → client_at (dialled incoming sent start) t ≡ dialled left (sent ++ s) id
      → op (dialled left (sent ++ s) id) ≡ (x, dialled rest ((sent ++ s) ++ w) id')
      → ((op (client_at (dialled incoming sent start) t)).1 ≡ dialled rest (sent ++ (s ++ w)) id')
        × (reply code (op (client_at (dialled incoming sent start) t)).0 ≡ reply code x)
  one_more op x incoming left s w id id' t p q = rw (p, q, append_assoc) (refl, refl)

  -- The call comes after what is known.
  then_call :
      {A : Type 0} (op : State Client A) (x : Result A) (i r s w : Bytes) (id id' : ℕ) (t : Trace)
      → Follows (i ++ (r ++ rest)) (r ++ rest) id s t
      → op (dialled (r ++ rest) (sent ++ s) id) ≡ (x, dialled rest ((sent ++ s) ++ w) id')
      → let c = client_at (dialled ((i ++ r) ++ rest) sent start) t in
        ((op c).1 ≡ dialled rest (sent ++ (s ++ w)) id')
        × ((reply code (op c).0 ≡ reply code x)
            × Answered (remote code (dialled ((i ++ r) ++ rest) sent start)) t)
  then_call op x i r s w id id' t h q =
      let (p, a) = rw (sym (append_assoc i r rest)) at h in
      let (left, gave) = one_more op x ((i ++ r) ++ rest) (r ++ rest) s w id id' t p q in
      (left, (gave, a))

  -- A call elsewhere changes nothing.
  silent :
      (incoming left : Bytes) (id : ℕ) (s : Bytes) (e : Event) (t : Trace)
      → is_remote e ≡ false
      → Follows incoming left id s t
      → Follows incoming left id s (e ∷ t)
  silent incoming left id s (listed r) t q h = cc q
  silent incoming left id s (iface_added req r) t q h = cc q
  silent incoming left id s (iface_deleted iface_id r) t q h = cc q
  silent incoming left id s (address_added req r) t q h = cc q
  silent incoming left id s (addresses_flushed iface_id r) t q h = cc q
  silent incoming left id s _ t q h = h

  -- A request that cannot be encoded is not sent.
  unsent :
      {A : Type 0} (op : State Client A) (x : Result A) (incoming left s : Bytes) (id : ℕ)
      (t : Trace)
      → Follows incoming left id s t
      → op (dialled left (sent ++ s) id) ≡ (x, dialled left (sent ++ s) id)
      → let c = client_at (dialled incoming sent start) t in
        ((op c).1 ≡ dialled left (sent ++ s) id)
        × ((reply code (op c).0 ≡ reply code x)
            × Answered (remote code (dialled incoming sent start)) t)
  unsent op x incoming left s id t (p, a) q = rw (p, q) (refl, (refl, a))

add-unsent :
    (req : AddRequest) (e : Error) (c : Client)
    → iface_payload req ≡ err e
    → add_interface req c ≡ (err e, c)
unfolding add_interface ◌>>=◌
add-unsent req e c h = rw h

assign-unsent :
    (req : AddressRequest) (e : Error) (c : Client)
    → address_message type_ip4_addr_add type_ip6_addr_add req.iface_id req.address req.exist_ok
      ≡ err e
    → add_address req c ≡ (err e, c)
unfolding add_address ◌>>=◌
assign-unsent req e c h = rw h

-- The messages of the addresses are short.
message-small :
    (req : AddressRequest) (type : ℕ) (payload : Bytes)
    → req.iface_id < 2 ^ 16
    → address_message type_ip4_addr_add type_ip6_addr_add req.iface_id req.address req.exist_ok
      ≡ ok (type, payload)
    → length payload < 2 ^ 32
message-small req type payload fits h = step (
    address_message_lem req.iface_id req.address fits type_ip4_addr_add type_ip6_addr_add
      req.exist_ok type payload h)
  where
    step :
        IsRead req.iface_id req.address type_ip4_addr_add type_ip6_addr_add req.exist_ok type
          payload
        → length payload < 2 ^ 32
    step (inl (_, _, _, l, _)) = omega arith
    step (inr (_, _, _, _, l, _)) = omega arith

module _ (code : Error → ℕ) (start : ℕ) (sent : Bytes) where
  pub follows :
      {id : ℕ} {i s : Bytes} {t : Trace} (rest : Bytes)
      → Talk code start id i s t
      → Follows code start sent rest (i ++ rest) rest id s t
  follows rest begin = (rw append-nil, tt)
  follows rest (elsewhere {id} {i} {s} {t} e q k) =
      silent code start sent rest (i ++ rest) rest id s e t q (follows rest k)
  follows rest (lists {id} {i} {s} {t} ws h k) =
      then_call code start sent rest list_interfaces (ok (map iface_of ws)) i
        (stream (next id) (map wire_bytes ws)) s _ id (next id) t
        (follows (stream (next id) (map wire_bytes ws) ++ rest) k)
        (list_interfaces-stream ws rest _ h refl refl)
  follows rest (list_fails {id} {i} {s} {t} status more h k) =
      then_call code start sent rest list_interfaces _ i (response (next id) status more) s _ id
        (next id) t (follows (response (next id) status more ++ rest) k)
        (list-refused rest (sent ++ s) id status more h)
  follows rest (adds {id} {i} {s} {t} req payload iface_id more hr hv hp hi hm k) =
      then_call code start sent rest (add_interface req) (ok iface_id) i
        (response (next id) 0 (put_uint16 iface_id ++ more)) s _ id (next id) t
        (follows (response (next id) 0 (put_uint16 iface_id ++ more) ++ rest) k)
        (add_interface-response req payload iface_id more rest _ hr hv hp hi hm refl refl)
  follows rest (add_fails {id} {i} {s} {t} req payload status more hr hv hp h k) =
      then_call code start sent rest (add_interface req) _ i (response (next id) status more) s _ id
        (next id) t (follows (response (next id) status more ++ rest) k)
        (add-refused rest (sent ++ s) id req status payload more hp
          (iface_payload-length req payload hr hv hp) h)
  follows rest (add_unsent {id} {i} {s} {t} req e h k) =
      unsent code start sent rest (add_interface req) (err e) (i ++ rest) rest s id t
        (follows rest k) (add-unsent req e _ h)
  follows rest (deletes {id} {i} {s} {t} iface_id more h k) =
      then_call code start sent rest (del_interface iface_id) (ok tt) i (response (next id) 0 more)
        s _ id (next id) t (follows (response (next id) 0 more ++ rest) k)
        (delete-accepted rest (sent ++ s) id iface_id more h)
  follows rest (delete_fails {id} {i} {s} {t} iface_id status more h k) =
      then_call code start sent rest (del_interface iface_id) _ i (response (next id) status more) s
        _ id (next id) t (follows (response (next id) status more ++ rest) k)
        (delete-refused rest (sent ++ s) id iface_id status more h)
  follows rest (assigns {id} {i} {s} {t} req type payload more hp hi h k) =
      then_call code start sent rest (add_address req) (ok tt) i (response (next id) 0 more) s _ id
        (next id) t (follows (response (next id) 0 more ++ rest) k)
        (assign-accepted rest (sent ++ s) id req type payload hp
          (message-small req type payload hi hp) more h)
  follows rest (assign_fails {id} {i} {s} {t} req type status payload more hp hi h k) =
      then_call code start sent rest (add_address req) _ i (response (next id) status more) s _ id
        (next id) t (follows (response (next id) status more ++ rest) k)
        (assign-refused rest (sent ++ s) id req type payload hp
          (message-small req type payload hi hp) status more h)
  follows rest (assign_unsent {id} {i} {s} {t} req e h k) =
      unsent code start sent rest (add_address req) (err e) (i ++ rest) rest s id t (follows rest k)
        (assign-unsent req e _ h)
  follows rest (flushes {id} {i} {s} {t} iface_id more4 more6 h4 h6 k) =
      then_call code start sent rest (flush_addresses iface_id) (ok tt) i
        (response (next id) 0 more4 ++ response (next (next id)) 0 more6) s
        (flush_request id type_ip4_addr_flush iface_id
          ++ flush_request (next id) type_ip6_addr_flush iface_id)
        id (next (next id)) t
        (follows ((response (next id) 0 more4 ++ response (next (next id)) 0 more6) ++ rest) k)
        (rw
          (
            append_assoc (response (next id) 0 more4) (response (next (next id)) 0 more6) rest,
            sym (
                append_assoc (sent ++ s) (flush_request id type_ip4_addr_flush iface_id)
                  (flush_request (next id) type_ip6_addr_flush iface_id)),
          )
          (flush-accepted rest (sent ++ s) id iface_id more4 h4 more6 h6))
  follows rest (flush4_fails {id} {i} {s} {t} iface_id status more h k) =
      then_call code start sent rest (flush_addresses iface_id) _ i (response (next id) status more)
        s _ id (next id) t (follows (response (next id) status more ++ rest) k)
        (flush4-refused rest (sent ++ s) id iface_id status more h)
  follows rest (flush6_fails {id} {i} {s} {t} iface_id status more4 more6 h4 h6 k) =
      then_call code start sent rest (flush_addresses iface_id)
        (err (in_stage flush6_failed (new grout_status))) i
        (response (next id) 0 more4 ++ response (next (next id)) status more6) s
        (flush_request id type_ip4_addr_flush iface_id
          ++ flush_request (next id) type_ip6_addr_flush iface_id)
        id (next (next id)) t
        (follows ((response (next id) 0 more4 ++ response (next (next id)) status more6) ++ rest) k)
        (rw
          (
            append_assoc (response (next id) 0 more4) (response (next (next id)) status more6) rest,
            sym (
                append_assoc (sent ++ s) (flush_request id type_ip4_addr_flush iface_id)
                  (flush_request (next id) type_ip6_addr_flush iface_id)),
          )
          (flush6-refused rest (sent ++ s) id iface_id more4 h4 status more6 h6))
