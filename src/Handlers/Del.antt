-- ===== src/Handlers/Del.antt =====
-- HandleDel of pkg/cni/handler.go.
use grout_cni.Base.{◌==◌, listing_interfaces, Option, none, some}
use grout_cni.Base.State.{State, pure, wrapped, branch, attempt, ◌>>=◌, ◌>>◌}
use grout_cni.Grout.{Iface}
use grout_cni.PortName.{find_port_by_name}
use grout_cni.Config.{PluginConf}
use grout_cni.Host.{CmdArgs, Trace, Env, ipam_del, interface_list, interface_del}
use grout_cni.Lock.{with_lock}
use grout_cni.Bridge.{gc_bridge_if_empty}
use grout_cni.Handlers.Common.{port_name, remove_vhost_socket}

module _ (env : Env) (conf : PluginConf) (args : CmdArgs) where
  -- What HandleDel does with the port, if there is one.
  unfoldable pub delete_port : Option Iface → State Trace (Unit {0})
  unfolding remove_vhost_socket
  delete_port none = pure tt
  delete_port (some port) = do
    attempt (interface_del env port.id)
    remove_vhost_socket env conf (port_name env args)
    branch (port.domain == 0) (pure tt) (gc_bridge_if_empty env port.domain)

  -- HandleDel behind the lock.
  unfoldable pub del_body : State Trace (Unit {0})
  unfolding delete_port
  del_body = do
    ifaces ← wrapped listing_interfaces (interface_list env)
    delete_port (find_port_by_name ifaces (port_name env args))
    ipam_del env args

  -- HandleDel
  unfoldable pub handle_del : State Trace (Unit {0})
  handle_del = with_lock env conf.grout_socket_path del_body
