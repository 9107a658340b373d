-- ===== src/Tests/OnFloods.antt =====
-- FloodAdd, FloodDel and FloodList on concrete entries.
use grout_cni.Base.{Bytes, ok, ℕ, ◌≡◌, refl, false, some, [], ◌∷◌, ◌++◌, map, arith}
use grout_cni.Base.Buffer.{write_at, zeros, put_uint16, put_uint32}
use grout_cni.Net.{to4}
use grout_cni.Client.Exchange.{after_exchange}
use grout_cni.Client.Stream.{stream}
use grout_cni.Client.Interfaces.{put_l3_addr}
use grout_cni.Client.Addresses.{put_flag}
use grout_cni.Client.Floods.{
  type_flood_list, encode_flood_entry, flood_payload, list_floods, IsEntryOf,
  flood_payload-decode_floods,
}
use grout_cni.Client.FloodList.{WireFlood, flood_bytes, IsWireFlood, vtep_of, list_floods-stream}
use grout_cni.Tests.OnClient.{at_seven}

abbrev flooded : Bytes
flooded = put_flag 28 false (
    write_at 12 (10 ∷ 0 ∷ 0 ∷ 9 ∷ []) (
      write_at 8 (2 ∷ [])
        (write_at 4 (put_uint32 77) (write_at 2 (put_uint16 1) (write_at 0 (1 ∷ []) (zeros 32))))))

flood_payload_test : flood_payload 0 77 (10 ∷ 0 ∷ 0 ∷ 9 ∷ []) false ≡ ok flooded
unfolding flood_payload encode_flood_entry put_l3_addr to4
flood_payload_test = refl

flood_payload-decode_floods_example :
    (ip4 : Bytes) × (to4 (10 ∷ 0 ∷ 0 ∷ 9 ∷ []) ≡ some ip4) × IsEntryOf 0 77 ip4 false flooded
flood_payload-decode_floods_example =
    flood_payload-decode_floods 0 77 (10 ∷ 0 ∷ 0 ∷ 9 ∷ []) false flooded (omega arith) (omega arith)
      flood_payload_test

-- The VTEP of 10.0.0.9, and one with an address of IPv6.
abbrev vtep : ℕ → WireFlood
vtep family = record {
  type = 1;
  at1 = 0;
  vrf_id = 1;
  vni = 77;
  family = family;
  at9 = 0;
  at10 = 0;
  at11 = 0;
  ip0 = 10;
  ip1 = 0;
  ip2 = 0;
  ip3 = 9;
  more = zeros 12;
}

vtep-IsWireFlood : (family : ℕ) → IsWireFlood (vtep family)
vtep-IsWireFlood family = record {
  vni_fits = omega arith;
  is_whole = omega arith;
  is_short = omega arith;
}

abbrev flood_listing : Bytes
flood_listing = stream 8 (map flood_bytes (vtep 2 ∷ vtep 10 ∷ [])) ++ (9 ∷ [])

list_floods-stream_example : list_floods 0 (at_seven flood_listing) ≡ (
  ok (map vtep_of (vtep 2 ∷ vtep 10 ∷ [])),
  after_exchange (at_seven flood_listing) type_flood_list (1 ∷ 0 ∷ put_uint16 1) (9 ∷ []),
)
list_floods-stream_example =
    list_floods-stream 0 (vtep 2 ∷ vtep 10 ∷ []) (9 ∷ []) (at_seven flood_listing)
      (vtep-IsWireFlood 2, (vtep-IsWireFlood 10, tt)) refl refl
