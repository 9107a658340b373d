-- ===== src/Handlers/Common.antt =====
-- What the handlers of pkg/cni/handler.go share: the attachment's names, and removeVhostSocket.
use grout_cni.Base.{Bytes, codes, same, Bool, [], ◌∷◌, ◌++◌}
use grout_cni.Base.State.{State}
use grout_cni.FilePath.{dir, join}
use grout_cni.PortName.{grout_port_name}
use grout_cni.Config.{PluginConf, interface_type_virtio}
use grout_cni.Host.{CmdArgs, Trace, Env, remove_file}

-- vhostSocketPath
unfoldable pub vhost_socket_path : Bytes → Bytes → Bytes
vhost_socket_path grout_socket_path tap_name =
    join (dir grout_socket_path ∷ codes "vhost" ∷ (tap_name ++ codes ".sock") ∷ [])

abbrev pub is_virtio : PluginConf → Bool
is_virtio conf = same conf.interface_type interface_type_virtio

-- The name of the attachment's port.
abbrev pub port_name : Env → CmdArgs → Bytes
port_name env args = grout_port_name env.sha256 args.container_id args.if_name

module _ (env : Env) (conf : PluginConf) where
  -- removeVhostSocket
  unfoldable pub remove_vhost_socket : Bytes → State Trace (Unit {0})
  remove_vhost_socket name = remove_file env (vhost_socket_path conf.grout_socket_path name)
