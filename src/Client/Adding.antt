-- ===== src/Client/Adding.antt =====
-- InterfaceAdd of pkg/groutapi/client.go as one exchange.
use grout_cni.Base.{
  ==_iff, length, Bytes, ok, ℕ, ◌+◌, ◌%◌, ◌^◌, ◌≤◌, ◌<◌, ◌≡◌, refl, inl, inr, some, [], ◌++◌, arith,
}
use grout_cni.Base.Buffer.{put_uint16, uint16_le-put_uint16}
use grout_cni.Base.State.{◌>>=◌}
use grout_cni.Grout.{VxlanConfig, AddRequest}
use grout_cni.Wire.{max_msg_len}
use grout_cni.Wire.RoundTrip.{response}
use grout_cni.Client.{Client}
use grout_cni.Client.Exchange.{after_exchange, request-response}
use grout_cni.Client.Interfaces.{type_iface_add, iface_payload, decode_id, add_interface}
use grout_cni.Client.Encoding.{IsAddRequest}
use grout_cni.Client.Payload.{HasInfo, IsVxlan, iface_payload_lem}

HasInfo-length : (req : AddRequest) (b : Bytes) → HasInfo req b → length b < 2 ^ 32
HasInfo-length req b (inl (_, l, _)) = omega arith
HasInfo-length req b (inr (inl (_, l, _))) = omega arith
HasInfo-length req b (inr (inr (_, _, l, _, _))) = omega arith

pub iface_payload-length :
    (req : AddRequest) (payload : Bytes)
    → IsAddRequest req
    → ((v : VxlanConfig) → req.vxlan ≡ some v → IsVxlan v)
    → iface_payload req ≡ ok payload
    → length payload < 2 ^ 32
iface_payload-length req payload hreq hv hp =
    HasInfo-length req payload (iface_payload_lem req hreq payload hv hp).1

-- On a connection that takes every write, to a grout that takes a request whose payload can be
-- made and whose name and numbers fit their fields, and answers with the id of the new interface,
-- and perhaps more: InterfaceAdd returns that id, with the payload sent and the answer off the
-- stream.
pub add_interface-response :
    (req : AddRequest) (payload : Bytes) (iface_id : ℕ) (more rest : Bytes) (c : Client)
    → IsAddRequest req
    → ((v : VxlanConfig) → req.vxlan ≡ some v → IsVxlan v)
    → iface_payload req ≡ ok payload
    → iface_id < 2 ^ 16
    → 2 + length more ≤ max_msg_len
    → c.conn.faults ≡ []
    → c.conn.incoming ≡ response ((c.req_id + 1) % 2 ^ 32) 0 (put_uint16 iface_id ++ more) ++ rest
    → add_interface req c ≡ (ok iface_id, after_exchange c type_iface_add payload rest)
unfolding add_interface decode_id ◌>>=◌
add_interface-response req payload iface_id more rest c hreq hv hp hi hm hf arrives =
    let id = (c.req_id + 1) % 2 ^ 32 in
    let small = iface_payload-length req payload hreq hv hp in
    rw (
      hp,
      request-response type_iface_add id 0 payload (put_uint16 iface_id ++ more) rest c small
          (omega arith) (omega arith) (omega arith) hf arrives,
      (==_iff id id).1 refl,
      uint16_le-put_uint16 iface_id hi,
    )
