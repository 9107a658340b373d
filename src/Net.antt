-- ===== src/Net.antt =====
-- What the program uses of Go's package net: IP addresses as byte slices, masks and networks.
use Prim.Native.Nat.{bit_and}
use grout_cni.Base.{
  ◌==◌, if◌then◌else◌, length, take, drop, Bytes, same, ℕ, ◌+◌, Bool, true, false, ◌&&◌, Option,
  none, some, [], ◌∷◌, ◌++◌,
}

-- net.IP and net.IPMask: 4 or 16 bytes when well formed; nil is the empty slice, as for their length.
pub record IpNet : Type 0 where
  pub ip : Bytes
  pub mask : Bytes

-- The prefix of an IPv4 address in its 16-byte form, ::ffff:0:0/96.
abbrev pub v4_in_v6_prefix : Bytes
v4_in_v6_prefix = 0 ∷ 0 ∷ 0 ∷ 0 ∷ 0 ∷ 0 ∷ 0 ∷ 0 ∷ 0 ∷ 0 ∷ 0xff ∷ 0xff ∷ []

-- ip.To4()
unfoldable pub to4 : Bytes → Option Bytes
to4 ip =
    if length ip == 4
    then some ip
    else if (length ip == 16) && same (take 12 ip) v4_in_v6_prefix
    then some (drop 12 ip)
    else none

-- ip.To16()
unfoldable pub to16 : Bytes → Option Bytes
to16 ip =
    if length ip == 4
    then some (v4_in_v6_prefix ++ ip)
    else if length ip == 16
    then some ip
    else none

abbrev pub is_v4 : Bytes → Bool
is_v4 ip = elim (to4 ip) [ none ↦ false | some _ ↦ true ]

-- ip.Equal(x)
unfoldable pub equal : Bytes → Bytes → Bool
equal ip x =
    if length ip == length x
    then same ip x
    else if (length ip == 4) && (length x == 16)
    then same (take 12 x) v4_in_v6_prefix && same ip (drop 12 x)
    else if (length ip == 16) && (length x == 4)
    then same (take 12 ip) v4_in_v6_prefix && same (drop 12 ip) x
    else false

unfoldable pub all_ff : Bytes → Bool
all_ff [] = true
all_ff (b ∷ bs) = b == 0xff && all_ff bs

unfoldable pub and_bytes : Bytes → Bytes → Bytes
and_bytes [] m = []
and_bytes (a ∷ as') [] = []
and_bytes (a ∷ as') (b ∷ bs) = bit_and a b ∷ and_bytes as' bs

-- ip.Mask(mask); nil where the lengths do not fit.
unfoldable pub mask_ip : Bytes → Bytes → Bytes
unfolding and_bytes all_ff
mask_ip ip mask =
    let mask' =
      if (length mask == 16) && (length ip == 4) && all_ff (take 12 mask)
      then drop 12 mask
      else mask in
    let ip' =
      if (length mask' == 4) && (length ip == 16) && same (take 12 ip) v4_in_v6_prefix
      then drop 12 ip
      else ip in
    if length ip' == length mask' then and_bytes ip' mask' else []

-- The leading ones of a byte, if only zeros follow them.
unfoldable pub byte_ones : ℕ → Option ℕ
byte_ones b =
    if b == 0
    then some 0
    else if b == 0x80
    then some 1
    else if b == 0xc0
    then some 2
    else if b == 0xe0
    then some 3
    else if b == 0xf0
    then some 4
    else if b == 0xf8
    then some 5
    else if b == 0xfc
    then some 6
    else if b == 0xfe
    then some 7
    else none

unfoldable pub all_zero : Bytes → Bool
all_zero [] = true
all_zero (b ∷ bs) = b == 0 && all_zero bs

-- The first result of mask.Size(): the length of the prefix, or 0 if the mask is not one.
unfoldable pub mask_ones : ℕ → Bytes → ℕ
unfolding byte_ones all_zero
mask_ones n [] = n
mask_ones n (b ∷ bs) =
    let rest = mask_ones (n + 8) bs in
    if b == 0xff
    then rest
    else elim (byte_ones b) [ none ↦ 0 | some k ↦ if all_zero bs then n + k else 0 ]
