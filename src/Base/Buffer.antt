-- ===== src/Base/Buffer.antt =====
-- Byte buffers: `make([]byte, n)`, `copy`, and the little-endian integers of encoding/binary.
use Prim.Native.Nat.{ℕ, zero, suc, ◌+◌, ◌*◌, ◌/◌, ◌%◌, ◌^◌, ◌≤◌, ◌<◌}
use mathlib.Core.Path.{◌≡◌, refl, ap}
use mathlib.Core.List.{[], ◌∷◌}
use native.Mathlib.Omega.{arith}
use grout_cni.Base.Lists.{Bytes, length, get_or, take, drop, replicate}

-- copy(dst, src): as many bytes as both have.
unfoldable pub copy : Bytes → Bytes → Bytes
copy [] src = []
copy (d ∷ ds) [] = d ∷ ds
copy (d ∷ ds) (s ∷ ss) = s ∷ copy ds ss

-- copy(dst[off:], src)
unfoldable pub write_at : ℕ → Bytes → Bytes → Bytes
unfolding copy
write_at zero src dst = copy dst src
write_at (suc n) src [] = []
write_at (suc n) src (d ∷ ds) = d ∷ write_at n src ds

-- buf[off : off+n]
abbrev pub slice : ℕ → ℕ → Bytes → Bytes
slice off n buf = take n (drop off buf)

-- make([]byte, n)
abbrev pub zeros : ℕ → Bytes
zeros n = replicate n 0

-- byteOrder.PutUint16 and PutUint32
abbrev pub put_uint16 : ℕ → Bytes
put_uint16 x = x % 256 ∷ x / 256 % 256 ∷ []

abbrev pub put_uint32 : ℕ → Bytes
put_uint32 x = x % 256 ∷ x / 256 % 256 ∷ x / 65536 % 256 ∷ x / 16777216 % 256 ∷ []

-- byteOrder.Uint16 and Uint32, of a slice that has the bytes.
abbrev pub uint16_le : Bytes → ℕ
uint16_le b = get_or b 0 0 + 256 * get_or b 1 0

abbrev pub uint32_le : Bytes → ℕ
uint32_le b = get_or b 0 0 + 256 * get_or b 1 0 + 65536 * get_or b 2 0 + 16777216 * get_or b 3 0

pub uint16_le-put_uint16 : (x : ℕ) → x < 2 ^ 16 → uint16_le (put_uint16 x) ≡ x
uint16_le-put_uint16 x h = omega arith

pub uint32_le-put_uint32 : (x : ℕ) → x < 2 ^ 32 → uint32_le (put_uint32 x) ≡ x
uint32_le-put_uint32 x h = omega arith

length-copy : (dst src : Bytes) → length (copy dst src) ≡ length dst
unfolding copy
length-copy [] src = refl
length-copy (d ∷ ds) [] = refl
length-copy (d ∷ ds) (s ∷ ss) = ap suc (length-copy ds ss)

pub length-write_at : (off : ℕ) (src dst : Bytes) → length (write_at off src dst) ≡ length dst
unfolding write_at
length-write_at zero src dst = length-copy dst src
length-write_at (suc n) src [] = refl
length-write_at (suc n) src (d ∷ ds) = ap suc (length-write_at n src ds)

take-copy :
    (n : ℕ) (src dst : Bytes) → length src ≤ n → take n (copy dst src) ≡ copy (take n dst) src
unfolding copy
take-copy zero [] [] h = refl
take-copy zero [] (d ∷ ds) h = refl
take-copy zero (s ∷ ss) dst h = absurd (omega arith)
take-copy (suc n) [] [] h = refl
take-copy (suc n) [] (d ∷ ds) h = refl
take-copy (suc n) (s ∷ ss) [] h = refl
take-copy (suc n) (s ∷ ss) (d ∷ ds) h = rw (take-copy n ss ds (omega arith))

-- What was written is read back, as far as the buffer went; the rest of the field is kept.
pub slice-write_at_self :
    (off n : ℕ) (src dst : Bytes)
    → length src ≤ n
    → slice off n (write_at off src dst) ≡ copy (slice off n dst) src
unfolding write_at
slice-write_at_self zero n src dst h = take-copy n src dst h
slice-write_at_self (suc off) zero src [] h = unfold copy in refl
slice-write_at_self (suc off) (suc n) src [] h = unfold copy in refl
slice-write_at_self (suc off) n src (d ∷ ds) h = slice-write_at_self off n src ds h

-- A write behind the field leaves it alone.
take-write_at :
    (n off' : ℕ) (src dst : Bytes) → n ≤ off' → take n (write_at off' src dst) ≡ take n dst
unfolding write_at
take-write_at zero off' src dst h = refl
take-write_at (suc n) zero src dst h = absurd (omega arith)
take-write_at (suc n) (suc off') src [] h = refl
take-write_at (suc n) (suc off') src (d ∷ ds) h = rw (take-write_at n off' src ds (omega arith))

pub slice-write_at_behind :
    (off n off' : ℕ) (src dst : Bytes)
    → off + n ≤ off'
    → slice off n (write_at off' src dst) ≡ slice off n dst
unfolding write_at
slice-write_at_behind zero n off' src dst h = take-write_at n off' src dst (omega arith)
slice-write_at_behind (suc off) n zero src dst h = absurd (omega arith)
slice-write_at_behind (suc off) n (suc off') src [] h = refl
slice-write_at_behind (suc off) n (suc off') src (d ∷ ds) h =
    slice-write_at_behind off n off' src ds (omega arith)

drop-copy : (off : ℕ) (src dst : Bytes) → length src ≤ off → drop off (copy dst src) ≡ drop off dst
unfolding copy
drop-copy zero [] [] h = refl
drop-copy zero [] (d ∷ ds) h = refl
drop-copy zero (s ∷ ss) dst h = absurd (omega arith)
drop-copy (suc off) [] [] h = refl
drop-copy (suc off) [] (d ∷ ds) h = refl
drop-copy (suc off) (s ∷ ss) [] h = refl
drop-copy (suc off) (s ∷ ss) (d ∷ ds) h = drop-copy off ss ds (omega arith)

drop-write_at :
    (off off' : ℕ) (src dst : Bytes)
    → off' + length src ≤ off
    → drop off (write_at off' src dst) ≡ drop off dst
unfolding write_at
drop-write_at off zero src dst h = drop-copy off src dst (omega arith)
drop-write_at zero (suc off') src dst h = absurd (omega arith)
drop-write_at (suc off) (suc off') src [] h = refl
drop-write_at (suc off) (suc off') src (d ∷ ds) h = drop-write_at off off' src ds (omega arith)

-- A write before the field leaves it alone.
pub slice-write_at_before :
    (off n off' : ℕ) (src dst : Bytes)
    → off' + length src ≤ off
    → slice off n (write_at off' src dst) ≡ slice off n dst
slice-write_at_before off n off' src dst h = ap (take n) (drop-write_at off off' src dst h)

-- A byte is a field of one byte.
pub get_or-slice : (off : ℕ) (buf : Bytes) → get_or buf off 0 ≡ get_or (slice off 1 buf) 0 0
get_or-slice zero [] = refl
get_or-slice zero (b ∷ bs) = refl
get_or-slice (suc off) [] = refl
get_or-slice (suc off) (b ∷ bs) = get_or-slice off bs
