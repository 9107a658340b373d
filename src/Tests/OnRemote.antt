-- ===== src/Tests/OnRemote.antt =====
-- A command with *groutapi.Client behind the interface GroutClient.
use grout_cni.Remote.{with_client, client_at, remote}
use grout_cni.Remote.Exchanges.{dialled}
use grout_cni.Remote.Command.{command_over_client}
use grout_cni.Client.{Client}
use grout_cni.Base.{
  ◌==◌, replicate, All, Bytes, codes, same, Result, ok, ℕ, ◌≡◌, refl, Bool, true, ◌&&◌, not, Option,
  none, List, [], ◌∷◌, ◌++◌, arith,
}
use grout_cni.Base.State.{◌>>=◌}
use grout_cni.Grout.{Iface}
use grout_cni.Host.{
  value, CniResult, iface_deleted, Trace, Env, mkdir_all, open_file, ipam_del, interface_list,
  interface_del, address_flush, remove_file,
}
use grout_cni.Lock.{new_file_lock, lock, unlock, close, with_lock}
use grout_cni.Bridge.{gc_scan, collect_bridge, scan_and_collect, gc_bridge_if_empty}
use grout_cni.PortName.{grout_port_name, find_port_by_name}
use grout_cni.Config.{PluginConf, validate, load_config}
use grout_cni.Client.Layout.{WireIface, IsNonzero, IsWireIface}
use grout_cni.Main.{cni_del, load_and_dial, command}
use grout_cni.Handlers.Common.{remove_vhost_socket}
use grout_cni.Handlers.Del.{delete_port, del_body, handle_del}
use grout_cni.Remote.Talk.{Talk, begin, elsewhere, lists, deletes, flushes}
use grout_cni.Tests.Setting.{lan, pod, bridge, port, willing}

abbrev text : Bytes → Bool
text [] = true
text (c ∷ s) = not (c == 0) && text s

text-IsNonzero : (s : Bytes) → text s ≡ true → All IsNonzero s
text-IsNonzero [] h = tt
text-IsNonzero (c ∷ s) h = (λ e. ground arith, text-IsNonzero s (ground arith))

-- An interface as grout sends it.
abbrev on_wire : Iface → Bytes → WireIface
on_wire i stale = record {
  id = i.id;
  type = i.type;
  mode = 1;
  flags = 1;
  at6 = 0;
  mtu = 1500;
  at10 = 0;
  domain = i.domain;
  at14 = 0;
  at16 = 0;
  name = i.name;
  stale = stale;
  info = replicate 256 0;
}

bridge-IsWireIface : IsWireIface (on_wire bridge (replicate 9 0))
bridge-IsWireIface = record {
  id_fits = omega arith;
  domain_fits = omega arith;
  name_text = text-IsNonzero (codes "br-lan") refl;
  name_field = refl;
  is_whole = omega arith;
  is_short = omega arith;
}

port-IsWireIface : IsWireIface (on_wire port [])
unfolding grout_port_name
port-IsWireIface = record {
  id_fits = omega arith;
  domain_fits = omega arith;
  name_text = text-IsNonzero port.name refl;
  name_field = refl;
  is_whole = omega arith;
  is_short = omega arith;
}

-- The bridge and its one port, until something is deleted.
abbrev remaining : Trace → List Iface
remaining [] = bridge ∷ port ∷ []
remaining (iface_deleted id r ∷ t) = bridge ∷ []
remaining (e ∷ t) = remaining t

abbrev host : Env
host = record (willing []) { list_all = λ t. value (remaining t) }

abbrev decoded : Bytes → PluginConf → Result PluginConf
decoded text conf = ok lan

abbrev run : Result (Option CniResult) × Trace
run = command host decoded (λ path. value tt) cni_del pod []

-- The port is deleted, and then the empty bridge is flushed and deleted.
conversation : (id : ℕ) × (i : Bytes) × (o : Bytes) × Talk (λ e. 0) 7 id i o run.1
unfolding command load_and_dial load_config validate handle_del with_lock new_file_lock mkdir_all
    open_file lock unlock close interface_list same del_body find_port_by_name delete_port
    interface_del gc_bridge_if_empty scan_and_collect gc_scan collect_bridge address_flush ipam_del
    remove_vhost_socket remove_file grout_port_name ◌>>=◌
conversation = (
  _,
  _,
  _,
  elsewhere _ refl (
      elsewhere _ refl (
        elsewhere _ refl (
          deletes 4 [] (omega arith) (
            flushes 4 [] [] (omega arith) (omega arith) (
              lists (on_wire bridge (replicate 9 0) ∷ []) (bridge-IsWireIface, tt)
                (elsewhere _ refl (
                  deletes 5 [] (omega arith) (
                    lists (on_wire bridge (replicate 9 0) ∷ on_wire port [] ∷ [])
                      (bridge-IsWireIface, (port-IsWireIface, tt))
                      (elsewhere _ refl
                        (elsewhere _ refl (elsewhere _ refl (elsewhere _ refl begin)))))))))))),
)

-- The client, dialled with the counter at 7, and with a byte behind grout's answers.
abbrev client : Client
client = dialled (conversation.1 ++ (9 ∷ [])) [] 7

command_over_client_example :
    (command (with_client host (remote (λ e. 0) client)) decoded (λ path. value tt) cni_del pod []
      ≡ run)
    × (client_at client run.1 ≡ dialled (9 ∷ []) conversation.2 conversation.0)
command_over_client_example =
    command_over_client host decoded (λ path. value tt) (λ e. 0) cni_del pod run.0 run.1 7
      conversation.0 conversation.1 [] conversation.2 (9 ∷ []) refl conversation.3

run_test : run.0 ≡ ok none
unfolding command load_and_dial load_config validate handle_del with_lock new_file_lock mkdir_all
    open_file lock unlock close interface_list same del_body find_port_by_name delete_port
    interface_del gc_bridge_if_empty scan_and_collect gc_scan collect_bridge address_flush ipam_del
    remove_vhost_socket remove_file grout_port_name ◌>>=◌
run_test = refl
