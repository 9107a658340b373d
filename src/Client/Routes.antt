-- ===== src/Client/Routes.antt =====
-- pkg/groutapi/client.go: RouteAdd and RouteDel, and what their messages say.
pub mod Messages
pub mod Withdrawal
use grout_cni.Base.{
  ◌==◌, if◌then◌else◌, take, Bytes, route_add_failed, route_del_failed, invalid_next_hop,
  invalid_destination, new, Result, ok, err, ℕ, Option, none, some, [], ◌∷◌,
}
use grout_cni.Base.Buffer.{write_at, zeros, put_uint16}
use grout_cni.Base.State.{State, pure, lift, wrapped, ◌>>=◌, ◌>>◌}
use grout_cni.Net.{to4, to16}
use grout_cni.Grout.{RouteAddRequest, RouteDelRequest}
use grout_cni.Wire.{msg_type, module_ip4, module_ip6}
use grout_cni.Client.{Client, request}
use grout_cni.Client.Addresses.{prefix_len, put_flag}

abbrev pub type_ip4_route_add : ℕ
type_ip4_route_add = msg_type module_ip4 0x0001

abbrev pub type_ip4_route_del : ℕ
type_ip4_route_del = msg_type module_ip4 0x0002

abbrev pub type_ip6_route_add : ℕ
type_ip6_route_add = msg_type module_ip6 0x0001

abbrev pub type_ip6_route_del : ℕ
type_ip6_route_del = msg_type module_ip6 0x0002

-- `if vrfID == 0 { vrfID = grVRFDefaultID }`
abbrev pub vrf_or_default : ℕ → ℕ
vrf_or_default vrf_id = if vrf_id == 0 then 1 else vrf_id

-- The byte GR_NH_ORIGIN_STATIC
abbrev pub origin_static : ℕ
origin_static = 4

unfoldable pub route4_payload : RouteAddRequest → Bytes → Bytes → Bytes
route4_payload req dest next_hop = put_flag 21 req.exist_ok (
    write_at 20 (origin_static ∷ []) (
      write_at 12 (take 4 next_hop) (
        write_at 8 (prefix_len req.destination ∷ []) (
          write_at 4 (take 4 dest)
            (write_at 0 (put_uint16 (vrf_or_default req.vrf_id)) (zeros 24))))))

unfoldable pub route6_payload : RouteAddRequest → Bytes → Bytes → Bytes
route6_payload req dest next_hop = put_flag 41 req.exist_ok (
    write_at 40 (origin_static ∷ []) (
      write_at 19 (take 16 next_hop) (
        write_at 18 (prefix_len req.destination ∷ []) (
          write_at 2 (take 16 dest)
            (write_at 0 (put_uint16 (vrf_or_default req.vrf_id)) (zeros 44))))))

-- The message for To4 and To16 of the destination, and To4 and To16 of the next hop.
abbrev pub route_for :
    RouteAddRequest → Option Bytes → Option Bytes → Option Bytes → Option Bytes → Result (ℕ × Bytes)
route_for req (some dest) _ none _ = err (new invalid_next_hop)
route_for req (some dest) _ (some next_hop) _ =
    ok (type_ip4_route_add, route4_payload req dest next_hop)
route_for req none none _ _ = err (new invalid_destination)
route_for req none (some dest) _ none = err (new invalid_next_hop)
route_for req none (some dest) _ (some next_hop) =
    ok (type_ip6_route_add, route6_payload req dest next_hop)

-- The message of RouteAdd.
unfoldable pub route_message : RouteAddRequest → Result (ℕ × Bytes)
unfolding route4_payload route6_payload
route_message req =
    route_for req (to4 req.destination.ip) (to16 req.destination.ip) (to4 req.next_hop)
      (to16 req.next_hop)

-- RouteAdd
unfoldable pub add_route : RouteAddRequest → State Client (Unit {0})
unfolding route_message
add_route req = do
  message ← lift (route_message req)
  wrapped route_add_failed (request message.0 message.1)
  pure tt

-- The message of RouteDel.
unfoldable pub route_del_message : RouteDelRequest → Result (ℕ × Bytes)
route_del_message req = elim (to4 req.destination.ip) [
  | some dest ↦ ok (
    type_ip4_route_del,
    put_flag 12 req.missing_ok (
        write_at 8 (prefix_len req.destination ∷ []) (
          write_at 4 (take 4 dest)
            (write_at 0 (put_uint16 (vrf_or_default req.vrf_id)) (zeros 16)))),
  )
  | none ↦ elim (to16 req.destination.ip) [
    | none ↦ err (new invalid_destination)
    | some dest ↦ ok (
      type_ip6_route_del,
      put_flag 19 req.missing_ok (
          write_at 18 (prefix_len req.destination ∷ []) (
            write_at 2 (take 16 dest)
              (write_at 0 (put_uint16 (vrf_or_default req.vrf_id)) (zeros 20)))),
    )
  ]
]

-- RouteDel
unfoldable pub del_route : RouteDelRequest → State Client (Unit {0})
unfolding route_del_message
del_route req = do
  message ← lift (route_del_message req)
  wrapped route_del_failed (request message.0 message.1)
  pure tt
