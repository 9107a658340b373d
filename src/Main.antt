-- ===== src/Main.antt =====
-- cmd/grout-cni/main.go: the commands that the runtime calls.
pub mod Locking
use grout_cni.Logging.{parse_log_level}
use grout_cni.Base.{
  Bytes, Stage, connecting, loading_config, cni_add_failed, status_unreachable, Result, ok, Option,
  none, some, ◌∷◌,
}
use grout_cni.Base.State.{State, pure, lift, wrapped, ◌>>=◌, ◌>>◌}
use grout_cni.Config.{PluginConf, load_config}
use grout_cni.Host.{Reply, answer, CniResult, CmdArgs, logging_set, Trace, Env}
use grout_cni.Handlers.Add.{handle_add}
use grout_cni.Handlers.Del.{handle_del}
use grout_cni.Handlers.Check.{handle_check}
use grout_cni.Handlers.Gc.{handle_gc}

-- The verbs of skel.CNIFuncs.
pub data Verb : Type 0 where
  cni_add cni_del cni_check cni_gc cni_status : Verb

-- ConfigureLogging: the level of the process's logger.
unfoldable pub configure_logging : PluginConf → State Trace (Unit {0})
unfolding parse_log_level
configure_logging conf t = (ok tt, logging_set (parse_log_level conf.log_level) ∷ t)

-- The `json` decoder, and groutapi.Dial with its handshake: whether the socket answers. The client's
-- Close at the end of a command has no result that the command looks at.
module _ (env : Env) (unmarshal : Bytes → PluginConf → Result PluginConf)
    (dial : Bytes → Reply (Unit {0})) where
  -- The configuration, its log level, and the connection to its socket.
  unfoldable pub load_and_dial : Stage → CmdArgs → State Trace PluginConf
  unfolding configure_logging
  load_and_dial unreachable args = do
    conf ← wrapped loading_config (lift (load_config unmarshal args.stdin_data))
    configure_logging conf
    wrapped unreachable (lift (answer (dial conf.grout_socket_path)))
    pure conf

  -- cmdAdd, cmdDel, cmdCheck, cmdGC and cmdStatus. Only ADD has a result, which it prints.
  unfoldable pub command : Verb → CmdArgs → State Trace (Option CniResult)
  unfolding load_and_dial
  command cni_add args = do
    conf ← load_and_dial connecting args
    result ← wrapped cni_add_failed (handle_add env conf args)
    pure (some result)
  command cni_del args = do
    conf ← load_and_dial connecting args
    handle_del env conf args
    pure none
  command cni_check args = do
    conf ← load_and_dial connecting args
    handle_check env conf args
    pure none
  command cni_gc args = do conf ← load_and_dial connecting args; handle_gc env conf args; pure none
  command cni_status args = do load_and_dial status_unreachable args; pure none
