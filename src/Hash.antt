-- ===== src/Hash.antt =====
-- What the program uses of hash/fnv: the FNV-1a sums over 32 and 64 bits.
use Prim.Native.Nat.{bit_xor}
use grout_cni.Base.{Bytes, ℕ, ◌*◌, ◌%◌, ◌^◌, [], ◌∷◌}

unfoldable pub fnv_step : ℕ → ℕ → ℕ → Bytes → ℕ
fnv_step width prime h [] = h
fnv_step width prime h (b ∷ bs) = fnv_step width prime (bit_xor h b * prime % 2 ^ width) bs

-- fnv.New32a over the bytes
unfoldable pub fnv32a : Bytes → ℕ
unfolding fnv_step
fnv32a b = fnv_step 32 16777619 2166136261 b

-- fnv.New64a over the bytes
unfoldable pub fnv64a : Bytes → ℕ
unfolding fnv_step
fnv64a b = fnv_step 64 1099511628211 14695981039346656037 b
