-- ===== src/Config/Validation.antt =====
-- LoadConfig of pkg/cni/config.go: what it accepts, and what it fills in.
use grout_cni.Config.BridgeName.{bridge_name_for_bounds}
use mathlib.Core.Bool.{false≢true}
use grout_cni.Base.{
  if◌then◌else◌, length, Bytes, codes, same, same→eq, eq→same, has_prefix, parsing_config, Result,
  ok, err, panic, bind, wrap, ℕ, ◌≤◌, ◌<◌, ◌≡◌, sym, ap, ◌∙◌, ◌≢◌, ◌↔◌, ◌⊎◌, true, false, [], ◌∷◌,
  arith,
}
use grout_cni.Base.Integer.{pos, uint16}
use grout_cni.Logging.{normalize, valid_log_level}
use grout_cni.Config.{
  PluginConf, interface_type_tap, interface_type_virtio, bridge_name_for, validate, initial_conf,
  load_config,
}

-- The names of the log levels, in lower case and without spaces around them.
abbrev pub IsLevelName : Bytes → Type 0
IsLevelName level =
    (level ≡ codes "debug")
    ⊎ ((level ≡ codes "info")
        ⊎ ((level ≡ codes "warn") ⊎ ((level ≡ codes "warning") ⊎ (level ≡ codes "error"))))

valid_log_level_iff : (s : Bytes) → (valid_log_level s ≡ true) ↔ IsLevelName (normalize s)
unfolding valid_log_level
valid_log_level_iff s =
    let level = normalize s in
    (
      λ h. ground (
        arith,
        same→eq level (codes "debug"),
        same→eq level (codes "info"),
        same→eq level (codes "warn"),
        same→eq level (codes "warning"),
        same→eq level (codes "error"),
      ),
      λ h. ground (
        arith,
        eq→same level (codes "debug"),
        eq→same level (codes "info"),
        eq→same level (codes "warn"),
        eq→same level (codes "warning"),
        eq→same level (codes "error"),
      ),
    )

-- The condition on a configuration, independent of the order of the tests.
pub record IsAccepted (conf : PluginConf) : Type 0 where
  pub has_ipam : conf.ipam_empty ≡ false
  pub has_name : conf.name ≢ []
  pub mtu_fits : (n : ℕ) × (conf.mtu ≡ pos n) × (n ≤ 65535)
  pub bridge_fits : length conf.bridge ≤ 15
  pub type_known :
      (conf.interface_type ≡ [])
      ⊎ ((conf.interface_type ≡ interface_type_tap) ⊎ (conf.interface_type ≡ interface_type_virtio))
  pub level_known : (conf.log_level ≡ []) ⊎ IsLevelName (normalize conf.log_level)

-- The configuration with its defaults.
abbrev pub filled : PluginConf → PluginConf
filled conf = record conf {
  bridge = if same conf.bridge [] then bridge_name_for conf.name else conf.bridge;
  interface_type = if same conf.interface_type [] then interface_type_tap else conf.interface_type;
}

-- An accepted configuration is returned with its defaults.
validate-filled : (conf : PluginConf) → IsAccepted conf → validate conf ≡ ok (filled conf)
unfolding validate
validate-filled conf h = ground (
  arith,
  same→eq conf.name [],
  eq→same conf.interface_type [],
  eq→same conf.bridge [],
  same→eq conf.bridge [],
  eq→same conf.interface_type interface_type_tap,
  eq→same conf.interface_type interface_type_virtio,
  eq→same conf.log_level [],
  (valid_log_level_iff conf.log_level).1,
)

-- Whatever is returned was accepted, and only its defaults were filled in.
validate-IsAccepted :
    (conf c : PluginConf) → validate conf ≡ ok c → IsAccepted conf × (c ≡ filled conf)
unfolding validate
validate-IsAccepted conf c h = (
  ground (
    arith,
    eq→same conf.name [],
    same→eq conf.interface_type [],
    same→eq conf.bridge [],
    same→eq conf.interface_type interface_type_tap,
    same→eq conf.interface_type interface_type_virtio,
    same→eq conf.log_level [],
    (valid_log_level_iff conf.log_level).0,
  ),
  ground (arith),
)

-- LoadConfig accepts exactly the configurations that meet the condition, and returns them with the
-- defaults filled in and nothing else changed.
pub validate_iff :
    (conf c : PluginConf) → (validate conf ≡ ok c) ↔ (IsAccepted conf × (c ≡ filled conf))
validate_iff conf c = (validate-IsAccepted conf c, λ h. validate-filled conf h.0 ∙ ap ok (sym h.1))

-- What the handlers rely on.
pub record IsReady (c : PluginConf) : Type 0 where
  pub bridge_named : 0 < length c.bridge
  pub bridge_fits : length c.bridge ≤ 15
  pub type_known :
      (c.interface_type ≡ interface_type_tap) ⊎ (c.interface_type ≡ interface_type_virtio)
  pub mtu_exact : (n : ℕ) × (c.mtu ≡ pos n) × (uint16 c.mtu ≡ n)

pos_of_prefix : (s : Bytes) → has_prefix s (codes "br-") ≡ true → 0 < length s
unfolding has_prefix
pos_of_prefix [] h = absurd (false≢true h)
pos_of_prefix (c ∷ s) h = omega arith

pos_of_same : (s : Bytes) → same s [] ≡ false → 0 < length s
unfolding same
pos_of_same [] h = absurd (false≢true (sym h))
pos_of_same (c ∷ s) h = omega arith

filled-IsReady : (conf : PluginConf) → IsAccepted conf → IsReady (filled conf)
unfolding uint16
filled-IsReady conf h =
    let named = bridge_name_for_bounds conf.name in
    record {
      bridge_named =
          ground
            (arith, pos_of_prefix (bridge_name_for conf.name) named.1, pos_of_same conf.bridge);
      bridge_fits = ground (arith, named.0);
      type_known = ground (arith, same→eq conf.interface_type [], eq→same conf.interface_type []);
      mtu_exact = let (n, e, small) = h.mtu_fits in (n, e, rw e (omega arith));
    }

-- Whatever the text decodes to, a configuration that LoadConfig returns names a bridge of 1 to 15
-- bytes and a known interface type, and its MTU is the uint16 that the handlers convert it to.
pub load_config-IsReady :
    (unmarshal : Bytes → PluginConf → Result PluginConf) (stdin : Bytes) (c : PluginConf)
    → load_config unmarshal stdin ≡ ok c
    → IsReady c
unfolding load_config
load_config-IsReady unmarshal stdin c h = step (unmarshal stdin initial_conf) h
  where
    step : (r : Result PluginConf) → bind (wrap parsing_config r) validate ≡ ok c → IsReady c
    step (ok conf) e =
        let (accepted, p) = validate-IsAccepted conf c e in rw p (filled-IsReady conf accepted)
    step (err x) e = cc
    step panic e = cc
