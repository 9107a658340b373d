-- ===== src/Tests/Setting.antt =====
-- A grout with one network, `lan`, and one pod on it; the answers do not depend on what happened.
use grout_cni.Base.{replicate, Bytes, codes, true, false, none, some, List, [], ◌∷◌}
use grout_cni.Base.Integer.{pos}
use grout_cni.Grout.{type_tap, type_bridge, Iface}
use grout_cni.Config.{PluginConf}
use grout_cni.Host.{value, acquired, IpConfig, CniResult, CmdArgs, Env}
use grout_cni.PortName.{grout_port_name}

abbrev pub sum : Bytes → Bytes
sum b = replicate 32 7

abbrev pub lan : PluginConf
lan = record {
  name = codes "lan";
  ipam_empty = false;
  raw_prev_result = none;
  valid_attachments = [];
  grout_socket_path = codes "/run/grout/grout.sock";
  bridge = codes "br-lan";
  mtu = pos 1500;
  interface_type = codes "tap";
  log_level = [];
}

abbrev pub pod : CmdArgs
pod = record {
  container_id = codes "c1";
  netns = codes "/run/netns/c1";
  if_name = codes "eth0";
  stdin_data = codes "{}";
}

abbrev pub bridge : Iface
bridge = record { id = 4; type = type_bridge; name = codes "br-lan"; domain = 0 }

abbrev pub port : Iface
port = record {
  id = 5;
  type = type_tap;
  name = grout_port_name sum (codes "c1") (codes "eth0");
  domain = 4;
}

-- 10.0.0.7/24, with the gateway left to the plugin
abbrev pub address : IpConfig
address = record {
  interface = none;
  address = record { ip = 10 ∷ 0 ∷ 0 ∷ 7 ∷ []; mask = 255 ∷ 255 ∷ 255 ∷ 0 ∷ [] };
  gateway = none;
}

abbrev pub reserved_result : CniResult
reserved_result = record {
  cni_version = codes "1.1.0";
  interfaces = [];
  ips = some address ∷ [];
  routes = [];
  dns = [];
}

-- What an ADD of the pod reports.
abbrev pub attached : CniResult
attached = record reserved_result {
  interfaces =
      record { name = codes "eth0"; mac = []; sandbox = codes "/run/netns/c1"; socket_path = [] }
      ∷ [];
  ips = some (record address { interface = some 0 }) ∷ [];
}

-- grout answers with these interfaces, and every call succeeds.
abbrev pub willing : List Iface → Env
willing ifaces = record {
  sha256 = sum;
  convert = λ raw. value reserved_result;
  parse_prev = λ raw. value none;
  mkdir = λ path t. value tt;
  open_lock = λ path t. value 3;
  wait_lock = λ fd t. acquired;
  add_ipam = λ stdin t. value (codes "{}");
  del_ipam = λ stdin t. value tt;
  gc_ipam = λ stdin t. value tt;
  list_all = λ t. value ifaces;
  add_iface = λ req t. value 5;
  del_iface = λ id t. value tt;
  add_address = λ req t. value tt;
  flush = λ id t. value tt;
  move = λ name netns t. value tt;
  configure = λ netns host pod mtu result t. value result;
  verify = λ netns name ips t. value tt;
  remove = λ path t. value tt;
  stat = λ path t. true;
}
