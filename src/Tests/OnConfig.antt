-- ===== src/Tests/OnConfig.antt =====
-- The configuration and the names at concrete inputs.
use grout_cni.Base.{
  length, replicate, All, Bytes, codes, same, has_prefix, Result, ok, ℕ, zero, suc, ◌≤◌, ◌≡◌, refl,
  ◌≢◌, ◌↔◌, true, false, [], ◌∷◌, ◌++◌, arith,
}
use grout_cni.Logging.{
  info, is_space, is_space2, is_space3, space_front, space_end, trim, trim_space, lower, normalize,
  parse_log_level, valid_log_level,
}
use grout_cni.Config.{PluginConf, bridge_name_for, validate, initial_conf, load_config}
use grout_cni.Config.BridgeName.{bridge_name_for_bounds, bridge_name_for_collides}
use grout_cni.Config.Validation.{IsAccepted, filled, validate_iff, IsReady, load_config-IsReady}
use grout_cni.PortName.{port_prefix, to_lower, grout_port_name}
use grout_cni.PortName.Shape.{IsPortChar, IsByte, IsSum256, grout_port_name_shape}
use grout_cni.Tests.Setting.{sum}

abbrev minimal : PluginConf
minimal = record initial_conf { name = codes "lan"; ipam_empty = false }

abbrev completed : PluginConf
completed = record minimal { bridge = codes "br-lan"; interface_type = codes "tap" }

-- The bridge and the interface type are filled in.
validate_test : validate minimal ≡ ok completed
unfolding validate bridge_name_for same
validate_test = refl

validate_iff_example :
    (validate minimal ≡ ok completed) ↔ (IsAccepted minimal × (completed ≡ filled minimal))
validate_iff_example = validate_iff minimal completed

-- A level with spaces of UTF-8 around it, and one with a capital I beyond ASCII.
level_test : valid_log_level (0xc2 ∷ 0xa0 ∷ codes " Debug" ++ (0xe3 ∷ 0x80 ∷ 0x80 ∷ [])) ≡ true
unfolding valid_log_level normalize trim_space trim lower space_front space_end is_space is_space2
    is_space3 to_lower same
level_test = refl

dotted_test : parse_log_level (0xc4 ∷ 0xb0 ∷ codes "NFO") ≡ info
unfolding parse_log_level normalize trim_space trim lower space_front space_end is_space is_space2
    is_space3 to_lower same
dotted_test = refl

unknown_test : valid_log_level (codes "trace") ≡ false
unfolding valid_log_level normalize trim_space trim lower space_front space_end is_space is_space2
    is_space3 to_lower same
unknown_test = refl

abbrev reader : Bytes → PluginConf → Result PluginConf
reader text conf = ok minimal

load_test : load_config reader (codes "{}") ≡ ok completed
unfolding load_config
load_test = validate_test

load_config-IsReady_example : IsReady completed
load_config-IsReady_example = load_config-IsReady reader (codes "{}") completed load_test

bridge_name_for_bounds_example :
    (length (bridge_name_for (codes "a-network-of-some-length")) ≤ 15)
    × (has_prefix (bridge_name_for (codes "a-network-of-some-length")) (codes "br-") ≡ true)
bridge_name_for_bounds_example = bridge_name_for_bounds (codes "a-network-of-some-length")

bridge_name_for_collides_example :
    (other : Bytes) × (length other ≡ 12)
    × (other ≢ codes "a-network-of-some-length")
    × (bridge_name_for other ≡ bridge_name_for (codes "a-network-of-some-length"))
bridge_name_for_collides_example =
    bridge_name_for_collides (codes "a-network-of-some-length") (omega arith)

sum-IsByte : (n : ℕ) → All IsByte (replicate n 7)
sum-IsByte zero = tt
sum-IsByte (suc n) = (omega arith, sum-IsByte n)

sum-IsSum256 : IsSum256 sum
sum-IsSum256 = record { size = λ b. refl; bytes = λ b. sum-IsByte 32 }

grout_port_name_shape_example :
    (length (grout_port_name sum (codes "c1") (codes "eth0")) ≡ 15)
    × (has_prefix (grout_port_name sum (codes "c1") (codes "eth0")) port_prefix ≡ true)
    × All IsPortChar (grout_port_name sum (codes "c1") (codes "eth0"))
grout_port_name_shape_example = grout_port_name_shape sum (codes "c1") (codes "eth0") sum-IsSum256
