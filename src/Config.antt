-- ===== src/Config.antt =====
-- pkg/cni/config.go: the network configuration, its validation and its defaults, and the name of a
-- network's bridge.
pub mod BridgeName
pub mod Validation
use grout_cni.Base.{
  ltb, leb, if◌then◌else◌, length, take, Bytes, codes, same, parsing_config, ipam_required,
  name_required, bad_mtu, bridge_name_too_long, bad_interface_type, bad_log_level, new, Result, ok,
  err, bind, wrap, ℕ, ◌+◌, ◌-◌, ◌/◌, ◌%◌, ◌^◌, Bool, true, ◌&&◌, ◌||◌, not, Option, none, some,
  List, [], ◌∷◌, ◌++◌,
}
use grout_cni.Base.Integer.{ℤ, pos, is_negative, exceeds}
use grout_cni.Hash.{fnv32a}
use grout_cni.Logging.{valid_log_level}

pub record Attachment : Type 0 where
  pub container_id : Bytes
  pub if_name : Bytes

-- PluginConf with the fields of types.NetConf that the program reads: `ipam_empty` is the answer of
-- IPAM.IsEmpty, and `raw_prev_result` is absent where the map is nil.
pub record PluginConf : Type 0 where
  pub name : Bytes
  pub ipam_empty : Bool
  pub raw_prev_result : Option Bytes
  pub valid_attachments : List Attachment
  pub grout_socket_path : Bytes
  pub bridge : Bytes
  pub mtu : ℤ
  pub interface_type : Bytes
  pub log_level : Bytes

abbrev pub default_socket_path : Bytes
default_socket_path = codes "/run/grout/grout.sock"

-- IFNAMSIZ, with the NUL
abbrev pub gr_iface_name_size : ℕ
gr_iface_name_size = 16

abbrev pub interface_type_tap : Bytes
interface_type_tap = codes "tap"

abbrev pub interface_type_virtio : Bytes
interface_type_virtio = codes "virtio"

-- A digit of %x
abbrev pub hex_digit : ℕ → ℕ
hex_digit d = if ltb d 10 then b'0' + d else b'a' + (d - 10)

-- fmt.Sprintf("-%04x", sum & 0xffff)
unfoldable pub hash_suffix : Bytes → Bytes
unfolding fnv32a
hash_suffix network =
    let sum = fnv32a network % 2 ^ 16 in
    b'-'
    ∷ hex_digit (sum / 4096)
    ∷ hex_digit (sum / 256 % 16)
    ∷ hex_digit (sum / 16 % 16)
    ∷ hex_digit (sum % 16)
    ∷ []

-- bridgeNameFor. The suffix has five bytes, so `head` is ten, and the test on it never holds.
unfoldable pub bridge_name_for : Bytes → Bytes
unfolding hash_suffix
bridge_name_for network =
    let name = codes "br-" ++ network in
    let max_len = gr_iface_name_size - 1 in
    let suffix = hash_suffix network in
    let head = max_len - length suffix in
    if leb (length name) max_len then name else take (if ltb head 3 then 3 else head) name ++ suffix

-- The `switch` on the interface type; none is the error.
unfoldable pub interface_type_for : Bytes → Option Bytes
interface_type_for t =
    if same t []
    then some interface_type_tap
    else if same t interface_type_tap || same t interface_type_virtio
    then some t
    else none

-- LoadConfig behind the call of json.Unmarshal.
unfoldable pub validate : PluginConf → Result PluginConf
unfolding interface_type_for
validate conf =
    if conf.ipam_empty
    then err (new ipam_required)
    else if same conf.name []
    then err (new name_required)
    else if is_negative conf.mtu || exceeds 65535 conf.mtu
    then err (new bad_mtu)
    else if not (same conf.bridge []) && leb gr_iface_name_size (length conf.bridge)
    then err (new bridge_name_too_long)
    else elim (interface_type_for conf.interface_type) [
      | none ↦ err (new bad_interface_type)
      | some t ↦
          if not (same conf.log_level []) && not (valid_log_level conf.log_level)
          then err (new bad_log_level)
          else ok (record conf {
            bridge = if same conf.bridge [] then bridge_name_for conf.name else conf.bridge;
            interface_type = t;
          })
    ]

-- What json.Unmarshal starts from.
abbrev pub initial_conf : PluginConf
initial_conf = record {
  name = [];
  ipam_empty = true;
  raw_prev_result = none;
  valid_attachments = [];
  grout_socket_path = default_socket_path;
  bridge = [];
  mtu = pos 0;
  interface_type = [];
  log_level = [];
}

-- LoadConfig, over json.Unmarshal, which fills in the fields that the text names.
unfoldable pub load_config : (Bytes → PluginConf → Result PluginConf) → Bytes → Result PluginConf
unfolding validate
load_config unmarshal stdin = bind (wrap parsing_config (unmarshal stdin initial_conf)) validate
