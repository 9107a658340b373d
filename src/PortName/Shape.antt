-- ===== src/PortName/Shape.antt =====
-- groutPortName of pkg/cni/portname.go: the shape of the names.
use grout_cni.Base.{
  leb, ◌==◌, length, take, All, Bytes, has_prefix, has_prefix-append, ℕ, zero, suc, ◌≤◌, ◌<◌, ◌≡◌,
  refl, Bool, true, ◌&&◌, ◌||◌, List, [], ◌∷◌, ◌++◌, map, arith,
}
use grout_cni.PortName.{port_prefix, digit, quintets, base32, to_lower, grout_port_name}

-- The characters of a port name: lower-case letters, the digits of base32 and the dash.
unfoldable pub is_port_char : ℕ → Bool
is_port_char c = leb b'a' c && leb c b'z' || leb b'2' c && leb c b'7' || c == b'-'

abbrev pub IsPortChar : ℕ → Type 0
IsPortChar c = is_port_char c ≡ true

abbrev pub IsByte : ℕ → Type 0
IsByte b = b < 256

-- What the documentation of crypto/sha256 says of Sum256: 32 bytes.
pub record IsSum256 (sha256 : Bytes → Bytes) : Type 0 where
  pub size : (b : Bytes) → length (sha256 b) ≡ 32
  pub bytes : (b : Bytes) → All IsByte (sha256 b)

digit-IsPortChar : (d : ℕ) → d < 32 → IsPortChar (to_lower (digit d))
unfolding is_port_char to_lower digit
digit-IsPortChar d h = ground arith

abbrev IsQuintet : ℕ → Type 0
IsQuintet q = q < 32

quintets-IsQuintet : (s : Bytes) → All IsByte s → All IsQuintet (quintets s)
unfolding quintets
quintets-IsQuintet [] h = tt
quintets-IsQuintet (a ∷ []) h = omega arith
quintets-IsQuintet (a ∷ b ∷ []) h = omega arith
quintets-IsQuintet (a ∷ b ∷ c ∷ []) h = omega arith
quintets-IsQuintet (a ∷ b ∷ c ∷ d ∷ []) h = omega arith
quintets-IsQuintet (a ∷ b ∷ c ∷ d ∷ e ∷ rest) (ha, (hb, (hc, (hd, (he, hr))))) =
    ground (arith, quintets-IsQuintet rest hr)

letters-IsPortChar :
    (n : ℕ) (qs : List ℕ) → All IsQuintet qs → All IsPortChar (take n (map to_lower (map digit qs)))
letters-IsPortChar zero qs h = tt
letters-IsPortChar (suc n) [] h = tt
letters-IsPortChar (suc n) (q ∷ qs) (hq, hqs) = (digit-IsPortChar q hq, letters-IsPortChar n qs hqs)

-- Seven bytes are enough for eleven digits.
length-letters :
    (s : Bytes) → 7 ≤ length s → length (take 11 (map to_lower (map digit (quintets s)))) ≡ 11
unfolding quintets
length-letters (a ∷ b ∷ c ∷ d ∷ e ∷ f ∷ g ∷ []) h = refl
length-letters (a ∷ b ∷ c ∷ d ∷ e ∷ f ∷ g ∷ h ∷ []) k = refl
length-letters (a ∷ b ∷ c ∷ d ∷ e ∷ f ∷ g ∷ h ∷ i ∷ []) k = refl
length-letters (a ∷ b ∷ c ∷ d ∷ e ∷ f ∷ g ∷ h ∷ i ∷ j ∷ rest) k = refl
length-letters _ k = absurd (omega arith)

-- A port name has 15 bytes, the limit of grout; it has the prefix, and only lower-case letters,
-- digits and dashes, so it can stand in a C string and in a path.
pub grout_port_name_shape :
    (sha256 : Bytes → Bytes) (container_id if_name : Bytes)
    → IsSum256 sha256
    → (length (grout_port_name sha256 container_id if_name) ≡ 15)
      × (has_prefix (grout_port_name sha256 container_id if_name) port_prefix ≡ true)
      × All IsPortChar (grout_port_name sha256 container_id if_name)
unfolding grout_port_name is_port_char
grout_port_name_shape sha256 container_id if_name h =
    let input = container_id ++ (0 ∷ if_name) in
    let letters = take 11 (map to_lower (base32 (sha256 input))) in
    (
      omega (arith, length-letters (sha256 input) (omega (arith, h.size input))),
      has_prefix-append port_prefix letters,
      (
        refl,
        (refl, (refl, (refl, letters-IsPortChar 11 _ (quintets-IsQuintet _ (h.bytes input))))),
      ),
    )
