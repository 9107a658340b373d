-- ===== src/Client/Routes/Withdrawal.antt =====
-- RouteDel of pkg/groutapi/client.go: what its messages say.
-- What grout reads of an IPv4 and of an IPv6 message, by the offsets of its structs.
use grout_cni.Base.{
  Bool-cases, length, get_or, take, Bytes, invalid_destination, new, Result, ok, err, ℕ, ◌^◌, ◌<◌,
  ◌≡◌, refl, ◌⊎◌, inl, inr, Option, none, some, [], ◌∷◌, arith,
}
use grout_cni.Base.Buffer.{
  copy, write_at, slice, zeros, put_uint16, uint16_le, uint16_le-put_uint16,
}
use grout_cni.Net.{to4, to16}
use grout_cni.Grout.{RouteDelRequest}
use grout_cni.Client.Encoding.{to4-length, to16-length}
use grout_cni.Client.Addresses.{prefix_len, put_flag, flag_byte}
use grout_cni.Client.Routes.{
  type_ip4_route_del, type_ip6_route_del, vrf_or_default, route_del_message,
}

pub record Withdrawal : Type 0 where
  pub vrf_id : ℕ
  pub dest : Bytes
  pub prefix : ℕ
  pub flag : ℕ

abbrev pub read_withdrawal4 : Bytes → Withdrawal
read_withdrawal4 b = record {
  vrf_id = uint16_le (slice 0 2 b);
  dest = slice 4 4 b;
  prefix = get_or b 8 0;
  flag = get_or b 12 0;
}

abbrev pub read_withdrawal6 : Bytes → Withdrawal
read_withdrawal6 b = record {
  vrf_id = uint16_le (slice 0 2 b);
  dest = slice 2 16 b;
  prefix = get_or b 18 0;
  flag = get_or b 19 0;
}

module _ (req : RouteDelRequest) where
  abbrev withdrawal_of : Bytes → Withdrawal
  withdrawal_of dest = record {
    vrf_id = vrf_or_default req.vrf_id;
    dest = dest;
    prefix = prefix_len req.destination;
    flag = flag_byte req.missing_ok;
  }

  -- What a message of RouteDel says to grout.
  abbrev pub IsWithdrawn : ℕ → Bytes → Type 0
  IsWithdrawn type payload =
      ((dest : Bytes) × (to4 req.destination.ip ≡ some dest)
        × (type ≡ type_ip4_route_del)
        × (length payload ≡ 16)
        × (read_withdrawal4 payload ≡ withdrawal_of dest))
      ⊎ ((dest : Bytes) × (to4 req.destination.ip ≡ none)
          × (to16 req.destination.ip ≡ some dest)
          × (type ≡ type_ip6_route_del)
          × (length payload ≡ 20)
          × (read_withdrawal6 payload ≡ withdrawal_of dest))

module _ (req : RouteDelRequest) (fits : vrf_or_default req.vrf_id < 2 ^ 16) where
  abbrev payload4 : Bytes → Bytes
  payload4 dest = put_flag 12 req.missing_ok (
      write_at 8 (prefix_len req.destination ∷ [])
        (write_at 4 (take 4 dest) (write_at 0 (put_uint16 (vrf_or_default req.vrf_id)) (zeros 16))))

  abbrev payload6 : Bytes → Bytes
  payload6 dest = put_flag 19 req.missing_ok (
      write_at 18 (prefix_len req.destination ∷ []) (
        write_at 2 (take 16 dest) (write_at 0 (put_uint16 (vrf_or_default req.vrf_id)) (zeros 20))))

  -- The message for To4 and To16 of the destination.
  abbrev for_dest : Option Bytes → Option Bytes → Result (ℕ × Bytes)
  for_dest dest dest6 = elim dest [
    | some d ↦ ok (type_ip4_route_del, payload4 d)
    | none ↦ elim dest6 [
      | none ↦ err (new invalid_destination)
      | some d ↦ ok (type_ip6_route_del, payload6 d)
    ]
  ]

  payload4-read :
      (dest : Bytes)
      → length dest ≡ 4
      → (length (payload4 dest) ≡ 16) × (read_withdrawal4 (payload4 dest) ≡ withdrawal_of req dest)
  unfolding write_at copy
  payload4-read (a ∷ b ∷ c ∷ d ∷ []) l = elim (Bool-cases req.missing_ok) [
    | inl x ↦ rw x (refl, rw (uint16_le-put_uint16 (vrf_or_default req.vrf_id) fits))
    | inr x ↦ rw x (refl, rw (uint16_le-put_uint16 (vrf_or_default req.vrf_id) fits))
  ]
  payload4-read _ l = absurd (omega arith)

  payload6-read :
      (dest : Bytes)
      → length dest ≡ 16
      → (length (payload6 dest) ≡ 20) × (read_withdrawal6 (payload6 dest) ≡ withdrawal_of req dest)
  unfolding write_at copy
  payload6-read (a ∷ b ∷ c ∷ d ∷ e ∷ f ∷ g ∷ i ∷ j ∷ k ∷ l ∷ m ∷ n ∷ o ∷ p ∷ q ∷ []) h =
      elim (Bool-cases req.missing_ok) [
        | inl x ↦ rw x (refl, rw (uint16_le-put_uint16 (vrf_or_default req.vrf_id) fits))
        | inr x ↦ rw x (refl, rw (uint16_le-put_uint16 (vrf_or_default req.vrf_id) fits))
      ]
  payload6-read _ h = absurd (omega arith)

  -- A message of RouteDel, for a VRF of 16 bits, has the type of its destination's family, and grout,
  -- reading at its offsets, gets the VRF, the default one for 0, the destination with the length of
  -- its prefix, and the flag, in a message of the size of its struct.
  pub route_del_message_lem :
      (type : ℕ) (payload : Bytes)
      → route_del_message req ≡ ok (type, payload)
      → IsWithdrawn req type payload
  unfolding route_del_message
  route_del_message_lem type payload h =
      by_dest (to4 req.destination.ip) (to16 req.destination.ip) refl refl h
    where
      by_dest :
          (dest dest6 : Option Bytes)
          → to4 req.destination.ip ≡ dest
          → to16 req.destination.ip ≡ dest6
          → for_dest dest dest6 ≡ ok (type, payload)
          → IsWithdrawn req type payload
      by_dest (some dest) dest6 d d6 q =
          let (l, r) = payload4-read dest (to4-length _ dest d) in
          let t : type ≡ type_ip4_route_del = cc q in
          let b : payload ≡ payload4 dest = cc q in inl (dest, d, t, rw b l, rw b r)
      by_dest none (some dest) d d6 q =
          let (l, r) = payload6-read dest (to16-length _ dest d6) in
          let t : type ≡ type_ip6_route_del = cc q in
          let b : payload ≡ payload6 dest = cc q in inr (dest, d, d6, t, rw b l, rw b r)
      by_dest none none d d6 q = cc q
