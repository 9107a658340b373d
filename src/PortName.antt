-- ===== src/PortName.antt =====
-- pkg/cni/portname.go: the name of the grout port of an attachment, and the search for it.
pub mod Shape
use grout_cni.Base.{
  ltb, leb, if◌then◌else◌, take, Bytes, codes, same, ℕ, ◌+◌, ◌-◌, ◌*◌, ◌/◌, ◌%◌, ◌&&◌, Option, none,
  some, List, [], ◌∷◌, ◌++◌, map,
}
use grout_cni.Grout.{Iface}

abbrev pub port_prefix : Bytes
port_prefix = codes "grk-"

-- base32.StdEncoding: a digit as a byte of "A…Z2…7".
unfoldable pub digit : ℕ → ℕ
digit d = if ltb d 26 then b'A' + d else b'2' + (d - 26)

-- The groups of five bits, the last one filled up with zeros: five bytes make eight groups.
unfoldable pub quintets : Bytes → List ℕ
quintets [] = []
quintets (a ∷ []) = a / 8 ∷ a % 8 * 4 ∷ []
quintets (a ∷ b ∷ []) = a / 8 ∷ (a % 8 * 4 + b / 64) ∷ b / 2 % 32 ∷ b % 2 * 16 ∷ []
quintets (a ∷ b ∷ c ∷ []) =
    a / 8 ∷ (a % 8 * 4 + b / 64) ∷ b / 2 % 32 ∷ (b % 2 * 16 + c / 16) ∷ c % 16 * 2 ∷ []
quintets (a ∷ b ∷ c ∷ d ∷ []) =
    a / 8
    ∷ (a % 8 * 4 + b / 64)
    ∷ b / 2 % 32
    ∷ (b % 2 * 16 + c / 16)
    ∷ (c % 16 * 2 + d / 128)
    ∷ d / 4 % 32
    ∷ d % 4 * 8
    ∷ []
quintets (a ∷ b ∷ c ∷ d ∷ e ∷ rest) =
    a / 8
    ∷ (a % 8 * 4 + b / 64)
    ∷ b / 2 % 32
    ∷ (b % 2 * 16 + c / 16)
    ∷ (c % 16 * 2 + d / 128)
    ∷ d / 4 % 32
    ∷ (d % 4 * 8 + e / 32)
    ∷ e % 32
    ∷ quintets rest

-- EncodeToString without padding
unfoldable pub base32 : Bytes → Bytes
unfolding digit quintets
base32 s = map digit (quintets s)

-- strings.ToLower on an ASCII byte
unfoldable pub to_lower : ℕ → ℕ
to_lower c = if leb b'A' c && leb c b'Z' then c + 32 else c

-- groutPortName(containerID, ifName), over sha256.Sum256
unfoldable pub grout_port_name : (Bytes → Bytes) → Bytes → Bytes → Bytes
unfolding base32 to_lower
grout_port_name sha256 container_id if_name =
    let sum = sha256 (container_id ++ (0 ∷ if_name)) in
    port_prefix ++ take 11 (map to_lower (base32 sum))

-- findPortByName
unfoldable pub find_port_by_name : List Iface → Bytes → Option Iface
find_port_by_name [] name = none
find_port_by_name (iface ∷ rest) name =
    if same iface.name name then some iface else find_port_by_name rest name
