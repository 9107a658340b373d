-- ===== src/Logging.antt =====
-- pkg/cni/logging.go: the log level of the configuration, a text in UTF-8.
use mathlib.Core.List.{reverse}
use grout_cni.Base.{
  leb, ◌==◌, if◌then◌else◌, Bytes, codes, same, ℕ, zero, suc, ◌-◌, Bool, ◌&&◌, ◌||◌, [], ◌∷◌,
}
use grout_cni.PortName.{to_lower}

pub data Level : Type 0 where
  debug info warn error : Level

-- unicode.IsSpace of an ASCII character, and of the characters that take two and three bytes in UTF-8.
unfoldable pub is_space : ℕ → Bool
is_space a = leb 9 a && leb a 13 || a == 32

unfoldable pub is_space2 : ℕ → ℕ → Bool
is_space2 a b = a == 0xc2 && (b == 0x85 || b == 0xa0)

unfoldable pub is_space3 : ℕ → ℕ → ℕ → Bool
is_space3 a b c =
    a == 0xe1 && b == 0x9a && c == 0x80
    || a == 0xe2
      && (b == 0x80 && (leb 0x80 c && leb c 0x8a || c == 0xa8 || c == 0xa9 || c == 0xaf)
          || b == 0x81 && c == 0x9f)
    || a == 0xe3 && b == 0x80 && c == 0x80

-- How many bytes the space at the front takes, 0 without one; and that of the space at the end, for the
-- bytes from the last to the first.
unfoldable pub space_front : Bytes → ℕ
unfolding is_space is_space2 is_space3
space_front [] = 0
space_front (a ∷ []) = if is_space a then 1 else 0
space_front (a ∷ b ∷ []) = if is_space a then 1 else if is_space2 a b then 2 else 0
space_front (a ∷ b ∷ c ∷ s) =
    if is_space a then 1 else if is_space2 a b then 2 else if is_space3 a b c then 3 else 0

unfoldable pub space_end : Bytes → ℕ
unfolding is_space is_space2 is_space3
space_end [] = 0
space_end (a ∷ []) = if is_space a then 1 else 0
space_end (b ∷ a ∷ []) = if is_space b then 1 else if is_space2 a b then 2 else 0
space_end (c ∷ b ∷ a ∷ s) =
    if is_space c then 1 else if is_space2 b c then 2 else if is_space3 a b c then 3 else 0

-- The bytes behind `skip` ones and the spaces there.
unfoldable pub trim : (Bytes → ℕ) → ℕ → Bytes → Bytes
trim space skip [] = []
trim space (suc skip) (c ∷ s) = trim space skip s
trim space zero (c ∷ s) =
    let width = space (c ∷ s) in
    let rest = trim space (width - 1) s in if width == 0 then c ∷ s else rest

-- strings.TrimSpace
unfoldable pub trim_space : Bytes → Bytes
unfolding trim space_front space_end
trim_space s = reverse (trim space_end 0 (reverse (trim space_front 0 s)))

-- The characters beyond ASCII whose lower case is an ASCII letter: U+0130, which becomes an i, and
-- U+212A, which becomes a k. They take two and three bytes.
abbrev pub lower_front : Bytes → ℕ × ℕ
lower_front [] = (0, 0)
lower_front (a ∷ []) = (to_lower a, 0)
lower_front (a ∷ b ∷ []) = if a == 0xc4 && b == 0xb0 then (b'i', 1) else (to_lower a, 0)
lower_front (a ∷ b ∷ c ∷ s) =
    if a == 0xc4 && b == 0xb0
    then (b'i', 1)
    else if a == 0xe2 && b == 0x84 && c == 0xaa
    then (b'k', 2)
    else (to_lower a, 0)

-- strings.ToLower, as far as its result is compared with ASCII texts: the bytes of any other character
-- beyond ASCII are left as they are, since its lower case is not ASCII either.
unfoldable pub lower : ℕ → Bytes → Bytes
unfolding to_lower
lower skip [] = []
lower (suc skip) (c ∷ s) = lower skip s
lower zero (c ∷ s) = let front = lower_front (c ∷ s) in front.0 ∷ lower front.1 s

-- strings.ToLower(strings.TrimSpace(s))
unfoldable pub normalize : Bytes → Bytes
unfolding trim_space lower
normalize s = lower 0 (trim_space s)

unfoldable pub parse_log_level : Bytes → Level
unfolding normalize
parse_log_level s =
    let level = normalize s in
    if same level (codes "debug")
    then debug
    else if same level (codes "info")
    then info
    else if same level (codes "warn") || same level (codes "warning")
    then warn
    else if same level (codes "error")
    then error
    else warn

unfoldable pub valid_log_level : Bytes → Bool
unfolding normalize
valid_log_level s =
    let level = normalize s in
    same level (codes "debug")
    || same level (codes "info")
    || same level (codes "warn")
    || same level (codes "warning")
    || same level (codes "error")
