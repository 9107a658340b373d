-- ===== src/Main/Locking.antt =====
-- The locking of the commands of cmd/grout-cni/main.go.
use mathlib.Core.Bool.{false≢true}
use grout_cni.Base.{Bytes, Stage, Result, ℕ, List}
use grout_cni.Base.Keeps.{Keeps, keeps_rules}
use grout_cni.Config.{PluginConf}
use grout_cni.Host.{Reply, CmdArgs, Trace, Env}
use grout_cni.Lock.Discipline.{IsIdle}
use grout_cni.Handlers.Locking.{
  handle_add-IsIdle, handle_del-IsIdle, handle_check-IsIdle, handle_gc-IsIdle,
}
use grout_cni.Main.{
  Verb, cni_add, cni_del, cni_check, cni_gc, cni_status, configure_logging, load_and_dial, command,
}

module _ (env : Env) (unmarshal : Bytes → PluginConf → Result PluginConf)
    (dial : Bytes → Reply (Unit {0})) (files : List ℕ) where
  configure_logging-IsIdle : (conf : PluginConf) → Keeps (IsIdle files) (configure_logging conf)
  unfolding configure_logging
  configure_logging-IsIdle conf = record {
    kept = λ t h. record {
      serialized = (λ e. absurd (false≢true e), h.serialized);
      free = h.free;
      open_as = h.open_as;
    };
  }

  load_and_dial-IsIdle :
      (unreachable : Stage) (args : CmdArgs)
      → Keeps (IsIdle files) (load_and_dial env unmarshal dial unreachable args)
  unfolding load_and_dial
  load_and_dial-IsIdle unreachable args = search (keeps_rules, configure_logging-IsIdle) depth 8

  command-Keeps :
      (verb : Verb) (args : CmdArgs) → Keeps (IsIdle files) (command env unmarshal dial verb args)
  unfolding command
  command-Keeps cni_add args = search (keeps_rules, load_and_dial-IsIdle, handle_add-IsIdle)
  command-Keeps cni_del args = search (keeps_rules, load_and_dial-IsIdle, handle_del-IsIdle)
  command-Keeps cni_check args = search (keeps_rules, load_and_dial-IsIdle, handle_check-IsIdle)
  command-Keeps cni_gc args = search (keeps_rules, load_and_dial-IsIdle, handle_gc-IsIdle)
  command-Keeps cni_status args = search (keeps_rules, load_and_dial-IsIdle)

  -- A command that starts with the lock free, and what is shared used under the lock so far, ends so
  -- too, whatever its outcome, and with the same lock files open.
  pub command-IsIdle :
      (verb : Verb) (args : CmdArgs) (t : Trace)
      → IsIdle files t
      → IsIdle files (command env unmarshal dial verb args t).1
  command-IsIdle verb args t h = (command-Keeps verb args).kept t h
