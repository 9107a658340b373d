-- ===== src/Tests/OnClient.antt =====
-- The operations of the client at concrete inputs.
use grout_cni.Client.Routes.Messages.{IsRouted, route_message_lem}
use grout_cni.Client.Routes.Withdrawal.{IsWithdrawn, route_del_message_lem}
use grout_cni.Client.Flushing.{flush_addresses-responses}
use grout_cni.Base.{
  replicate, length-replicate, Bytes, codes, ok, ℕ, ◌<◌, ◌≡◌, refl, true, none, [], ◌∷◌, ◌++◌,
  arith,
}
use grout_cni.Base.Buffer.{copy, write_at, put_uint16}
use grout_cni.Net.{IpNet, to4, mask_ones}
use grout_cni.Host.{value}
use grout_cni.Grout.{type_bridge, AddRequest, RouteAddRequest, RouteDelRequest}
use grout_cni.Wire.{Conn}
use grout_cni.Wire.RoundTrip.{response, request_bytes}
use grout_cni.Client.{Client}
use grout_cni.Client.Exchange.{after_exchange}
use grout_cni.Client.Stream.{stream}
use grout_cni.Client.Interfaces.{
  type_iface_add, type_iface_list, list_interfaces, bridge_mac, iface_base, iface_payload,
  add_interface,
}
use grout_cni.Client.Layout.{WireIface, wire_bytes, IsNonzero, IsWireIface, list_interfaces-stream}
use grout_cni.Client.Encoding.{IsAddRequest, fields, requested}
use grout_cni.Client.Payload.{HasInfo, iface_payload_lem}
use grout_cni.Client.Adding.{add_interface-response}
use grout_cni.Client.Addresses.{
  type_ip4_addr_add, type_ip4_addr_flush, type_ip6_addr_add, type_ip6_addr_flush, address4_payload,
  address_message, flush_addresses, IsRead, address_message_lem,
}
use grout_cni.Client.Routes.{
  type_ip4_route_add, type_ip4_route_del, route4_payload, route_message, route_del_message,
}
use grout_cni.Client.Dialling.{type_hello, hello_payload, dial, dial-response}

abbrev pub at_seven : Bytes → Client
at_seven b = record { conn = record { incoming = b; sent = []; faults = [] }; req_id = 7 }

-- A bridge whose name replaced the longer one of a deleted interface.
abbrev old_buffer : WireIface
old_buffer = record {
  id = 4;
  type = type_bridge;
  mode = 1;
  flags = 1;
  at6 = 0;
  mtu = 1500;
  at10 = 0;
  domain = 0;
  at14 = 0;
  at16 = 0;
  name = codes "br-shared";
  stale = codes "virtio";
  info = replicate 256 0;
}

old_buffer-IsWireIface : IsWireIface old_buffer
old_buffer-IsWireIface = record {
  id_fits = omega arith;
  domain_fits = omega arith;
  name_text = (
    ne 98 (omega arith),
    (
      ne 114 (omega arith),
      (
        ne 45 (omega arith),
        (
          ne 115 (omega arith),
          (
            ne 104 (omega arith),
            (
              ne 97 (omega arith),
              (ne 114 (omega arith), (ne 101 (omega arith), (ne 100 (omega arith), tt))),
            ),
          ),
        ),
      ),
    ),
  );
  name_field = refl;
  is_whole = omega (arith, length-replicate {A = ℕ} 256 0);
  is_short = omega (arith, length-replicate {A = ℕ} 256 0);
}
  where
    ne : (n : ℕ) → 0 < n → IsNonzero n
    ne n h e = omega arith

abbrev listing : Bytes
listing = stream 8 (wire_bytes old_buffer ∷ []) ++ (9 ∷ [])

list_interfaces-stream_example : list_interfaces (at_seven listing) ≡ (
  ok (record { id = 4; type = type_bridge; name = codes "br-shared"; domain = 0 } ∷ []),
  after_exchange (at_seven listing) type_iface_list (0 ∷ []) (9 ∷ []),
)
list_interfaces-stream_example =
    list_interfaces-stream (old_buffer ∷ []) (9 ∷ []) (at_seven listing)
      (old_buffer-IsWireIface, tt) refl refl

abbrev new_bridge : AddRequest
new_bridge = record {
  name = codes "lan";
  type = type_bridge;
  domain_id = 0;
  mtu = 1500;
  vhost_user_path = [];
  vxlan = none;
}

new_bridge-IsAddRequest : IsAddRequest new_bridge
new_bridge-IsAddRequest = record {
  domain_fits = omega arith;
  mtu_fits = omega arith;
  name_text = ((λ e. omega arith), ((λ e. omega arith), ((λ e. omega arith), tt)));
  name_fits = omega arith;
}

abbrev bridge_payload : Bytes
bridge_payload = write_at 296 (bridge_mac (codes "lan")) (iface_base new_bridge 432)

new_bridge_test : iface_payload new_bridge ≡ ok bridge_payload
unfolding iface_payload
new_bridge_test = refl

iface_payload_lem_example :
    (fields bridge_payload ≡ requested new_bridge) × HasInfo new_bridge bridge_payload
iface_payload_lem_example =
    iface_payload_lem new_bridge new_bridge-IsAddRequest bridge_payload (λ v e. cc e)
      new_bridge_test

abbrev created : Bytes
created = response 8 0 (put_uint16 4 ++ []) ++ (9 ∷ [])

add_interface-response_example :
    add_interface new_bridge (at_seven created)
    ≡ (ok 4, after_exchange (at_seven created) type_iface_add bridge_payload (9 ∷ []))
add_interface-response_example =
    add_interface-response new_bridge bridge_payload 4 [] (9 ∷ []) (at_seven created)
      new_bridge-IsAddRequest (λ v e. cc e) new_bridge_test (omega arith) (omega arith) refl refl

-- 10.0.0.1/24
abbrev gateway : IpNet
gateway = record { ip = 10 ∷ 0 ∷ 0 ∷ 1 ∷ []; mask = 255 ∷ 255 ∷ 255 ∷ 0 ∷ [] }

abbrev gateway_payload : Bytes
gateway_payload = address4_payload 4 gateway true (10 ∷ 0 ∷ 0 ∷ 1 ∷ [])

address_message_test :
    address_message type_ip4_addr_add type_ip6_addr_add 4 gateway true
    ≡ ok (type_ip4_addr_add, gateway_payload)
unfolding address_message to4
address_message_test = refl

address_message_lem_example :
    IsRead 4 gateway type_ip4_addr_add type_ip6_addr_add true type_ip4_addr_add gateway_payload
address_message_lem_example =
    address_message_lem 4 gateway (omega arith) type_ip4_addr_add type_ip6_addr_add true
      type_ip4_addr_add gateway_payload address_message_test

abbrev route : RouteAddRequest
route = record {
  vrf_id = 0;
  destination = gateway;
  next_hop = 10 ∷ 0 ∷ 0 ∷ 7 ∷ [];
  iface_id = 0;
  exist_ok = true;
}

abbrev route_payload : Bytes
route_payload = route4_payload route (10 ∷ 0 ∷ 0 ∷ 1 ∷ []) (10 ∷ 0 ∷ 0 ∷ 7 ∷ [])

route_message_test : route_message route ≡ ok (type_ip4_route_add, route_payload)
unfolding route_message to4
route_message_test = refl

route_message_lem_example : IsRouted route type_ip4_route_add route_payload
route_message_lem_example =
    route_message_lem route (omega arith) type_ip4_route_add route_payload route_message_test

abbrev withdrawn : RouteDelRequest
withdrawn = record { vrf_id = 0; destination = gateway; missing_ok = true }

abbrev withdrawal_payload : Bytes
withdrawal_payload = 1 ∷ 0 ∷ 0 ∷ 0 ∷ 10 ∷ 0 ∷ 0 ∷ 1 ∷ 24 ∷ 0 ∷ 0 ∷ 0 ∷ 1 ∷ 0 ∷ 0 ∷ 0 ∷ []

withdrawal_test : route_del_message withdrawn ≡ ok (type_ip4_route_del, withdrawal_payload)
unfolding route_del_message to4 write_at copy mask_ones
withdrawal_test = refl

route_del_message_lem_example : IsWithdrawn withdrawn type_ip4_route_del withdrawal_payload
route_del_message_lem_example =
    route_del_message_lem withdrawn (omega arith) type_ip4_route_del withdrawal_payload
      withdrawal_test

abbrev greeted : Conn
greeted = record { incoming = response 1 0 [] ++ (9 ∷ []); sent = []; faults = [] }

dial-response_example :
    dial (value greeted)
    ≡ ok (record {
      conn = record greeted { incoming = 9 ∷ []; sent = request_bytes 1 type_hello hello_payload };
      req_id = 1;
    })
dial-response_example = dial-response greeted 0 [] (9 ∷ []) (omega arith) (omega arith) refl refl

abbrev both : Bytes
both = response 8 0 [] ++ (response 9 0 [] ++ (9 ∷ []))

flush_addresses-responses_example : flush_addresses 4 (at_seven both) ≡ (
  ok tt,
  after_exchange
      (after_exchange
        (at_seven both)
        type_ip4_addr_flush
        (put_uint16 4)
        (response 9 0 [] ++ (9 ∷ [])))
      type_ip6_addr_flush
      (put_uint16 4)
      (9 ∷ []),
)
flush_addresses-responses_example =
    flush_addresses-responses 4 0 0 [] [] (9 ∷ []) (at_seven both) (omega arith) (omega arith)
      (omega arith) (omega arith) refl refl
