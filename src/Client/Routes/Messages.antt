-- ===== src/Client/Routes/Messages.antt =====
-- RouteAdd of pkg/groutapi/client.go: what its messages say.
-- What grout reads of an IPv4 and of an IPv6 route, by the offsets of its structs.
use grout_cni.Base.{
  Bool-cases, length, get_or, Bytes, ok, ℕ, ◌^◌, ◌<◌, ◌≡◌, refl, ◌⊎◌, inl, inr, Option, none, some,
  [], ◌∷◌, arith,
}
use grout_cni.Base.Buffer.{copy, write_at, slice, uint16_le, uint16_le-put_uint16}
use grout_cni.Net.{to4, to16}
use grout_cni.Grout.{RouteAddRequest}
use grout_cni.Client.Encoding.{to4-length, to16-length}
use grout_cni.Client.Addresses.{prefix_len, flag_byte}
use grout_cni.Client.Routes.{
  type_ip4_route_add, type_ip6_route_add, vrf_or_default, origin_static, route4_payload,
  route6_payload, route_for, route_message,
}

pub record RouteMessage : Type 0 where
  pub vrf_id : ℕ
  pub dest : Bytes
  pub prefix : ℕ
  pub next_hop : Bytes
  pub origin : ℕ
  pub flag : ℕ

abbrev pub read_route4 : Bytes → RouteMessage
read_route4 b = record {
  vrf_id = uint16_le (slice 0 2 b);
  dest = slice 4 4 b;
  prefix = get_or b 8 0;
  next_hop = slice 12 4 b;
  origin = get_or b 20 0;
  flag = get_or b 21 0;
}

abbrev pub read_route6 : Bytes → RouteMessage
read_route6 b = record {
  vrf_id = uint16_le (slice 0 2 b);
  dest = slice 2 16 b;
  prefix = get_or b 18 0;
  next_hop = slice 19 16 b;
  origin = get_or b 40 0;
  flag = get_or b 41 0;
}

abbrev pub route_of : RouteAddRequest → Bytes → Bytes → RouteMessage
route_of req dest next_hop = record {
  vrf_id = vrf_or_default req.vrf_id;
  dest = dest;
  prefix = prefix_len req.destination;
  next_hop = next_hop;
  origin = origin_static;
  flag = flag_byte req.exist_ok;
}

module _ (req : RouteAddRequest) where
  -- What a message of RouteAdd says to grout.
  abbrev pub IsRouted : ℕ → Bytes → Type 0
  IsRouted type payload =
      ((dest : Bytes) × (next_hop : Bytes) × (to4 req.destination.ip ≡ some dest)
        × (to4 req.next_hop ≡ some next_hop)
        × (type ≡ type_ip4_route_add)
        × (length payload ≡ 24)
        × (read_route4 payload ≡ route_of req dest next_hop))
      ⊎ ((dest : Bytes) × (next_hop : Bytes) × (to4 req.destination.ip ≡ none)
          × (to16 req.destination.ip ≡ some dest)
          × (to16 req.next_hop ≡ some next_hop)
          × (type ≡ type_ip6_route_add)
          × (length payload ≡ 44)
          × (read_route6 payload ≡ route_of req dest next_hop))

module _ (req : RouteAddRequest) (fits : vrf_or_default req.vrf_id < 2 ^ 16) where
  route4_payload-read :
      (dest next_hop : Bytes)
      → length dest ≡ 4
      → length next_hop ≡ 4
      → (length (route4_payload req dest next_hop) ≡ 24)
        × (read_route4 (route4_payload req dest next_hop) ≡ route_of req dest next_hop)
  unfolding route4_payload write_at copy
  route4_payload-read (a ∷ b ∷ c ∷ d ∷ []) (e ∷ f ∷ g ∷ h ∷ []) l m =
      elim (Bool-cases req.exist_ok) [
        | inl x ↦ rw x (refl, rw (uint16_le-put_uint16 (vrf_or_default req.vrf_id) fits))
        | inr x ↦ rw x (refl, rw (uint16_le-put_uint16 (vrf_or_default req.vrf_id) fits))
      ]
  route4_payload-read _ _ l m = absurd (omega arith)

  route6_payload-read :
      (dest next_hop : Bytes)
      → length dest ≡ 16
      → length next_hop ≡ 16
      → (length (route6_payload req dest next_hop) ≡ 44)
        × (read_route6 (route6_payload req dest next_hop) ≡ route_of req dest next_hop)
  unfolding route6_payload write_at copy
  route6_payload-read (a ∷ b ∷ c ∷ d ∷ e ∷ f ∷ g ∷ i ∷ j ∷ k ∷ l ∷ m ∷ n ∷ o ∷ p ∷ q ∷ [])
        (a' ∷ b' ∷ c' ∷ d' ∷ e' ∷ f' ∷ g' ∷ i' ∷ j' ∷ k' ∷ l' ∷ m' ∷ n' ∷ o' ∷ p' ∷ q' ∷ []) h h' =
      elim (Bool-cases req.exist_ok) [
        | inl x ↦ rw x (refl, rw (uint16_le-put_uint16 (vrf_or_default req.vrf_id) fits))
        | inr x ↦ rw x (refl, rw (uint16_le-put_uint16 (vrf_or_default req.vrf_id) fits))
      ]
  route6_payload-read _ _ h h' = absurd (omega arith)

  -- A message of RouteAdd, for a VRF of 16 bits, has the type of its destination's family. For an
  -- IPv4 destination the next hop is IPv4 too, and for another one it goes out in its form of 16
  -- bytes. grout, reading at its offsets, gets the VRF, the default one for 0, the destination
  -- with the length of its prefix, the next hop, the static origin and the flag, in a message of
  -- the size of its struct.
  pub route_message_lem :
      (type : ℕ) (payload : Bytes)
      → route_message req ≡ ok (type, payload)
      → IsRouted req type payload
  unfolding route_message
  route_message_lem type payload h =
      by_dest (to4 req.destination.ip) (to16 req.destination.ip) (to4 req.next_hop)
        (to16 req.next_hop) refl refl refl refl h
    where
      by_dest :
          (dest dest6 hop hop6 : Option Bytes)
          → to4 req.destination.ip ≡ dest
          → to16 req.destination.ip ≡ dest6
          → to4 req.next_hop ≡ hop
          → to16 req.next_hop ≡ hop6
          → route_for req dest dest6 hop hop6 ≡ ok (type, payload)
          → IsRouted req type payload
      by_dest (some dest) dest6 (some hop) hop6 d d6 n n6 q =
          let (l, r) = route4_payload-read dest hop (to4-length _ dest d) (to4-length _ hop n) in
          let t : type ≡ type_ip4_route_add = cc q in
          let b : payload ≡ route4_payload req dest hop = cc q in
          inl (dest, hop, d, n, t, rw b l, rw b r)
      by_dest (some dest) dest6 none hop6 d d6 n n6 q = cc q
      by_dest none (some dest) hop (some hop6) d d6 n n6 q =
          let (l, r) =
            route6_payload-read dest hop6 (to16-length _ dest d6) (to16-length _ hop6 n6) in
          let t : type ≡ type_ip6_route_add = cc q in
          let b : payload ≡ route6_payload req dest hop6 = cc q in
          inr (dest, hop6, d, d6, n6, t, rw b l, rw b r)
      by_dest none (some dest) hop none d d6 n n6 q = cc q
      by_dest none none hop hop6 d d6 n n6 q = cc q
