-- ===== src/Remote/Command.antt =====
-- The commands of cmd/grout-cni/main.go, with *groutapi.Client behind the interface GroutClient.
use grout_cni.Base.{Bytes, Stage, Error, Result, ℕ, ◌≡◌, sym, ◌∙◌, Option, [], ◌++◌}
use grout_cni.Host.{Reply, CniResult, CmdArgs, Trace, Env}
use grout_cni.Config.{PluginConf}
use grout_cni.Main.{Verb, cni_add, cni_del, cni_check, cni_gc, cni_status, load_and_dial, command}
use grout_cni.Remote.{GroutClient, with_client, client_at, remote, Answered}
use grout_cni.Remote.Calls.{call_rules}
use grout_cni.Remote.Handlers.{
  SameRun, Sim-handle_add, Sim-handle_del, Sim-handle_check, Sim-handle_gc,
}
use grout_cni.Remote.Exchanges.{dialled}
use grout_cni.Remote.Talk.{Talk}
use grout_cni.Remote.Following.{follows}
use mathlib.Core.Path.{subst}

module _ (env : Env) (g : GroutClient) (unmarshal : Bytes → PluginConf → Result PluginConf)
    (dial : Bytes → Reply (Unit {0})) where
  Sim-load_and_dial :
      (unreachable : Stage) (args : CmdArgs)
      → SameRun env g λ env. load_and_dial env unmarshal dial unreachable args
  unfolding load_and_dial
  Sim-load_and_dial unreachable args = search call_rules depth 8

  Sim-command :
      (verb : Verb) (args : CmdArgs) → SameRun env g λ env. command env unmarshal dial verb args
  unfolding command
  Sim-command cni_add args = search (call_rules, Sim-load_and_dial, Sim-handle_add)
  Sim-command cni_del args = search (call_rules, Sim-load_and_dial, Sim-handle_del)
  Sim-command cni_check args = search (call_rules, Sim-load_and_dial, Sim-handle_check)
  Sim-command cni_gc args = search (call_rules, Sim-load_and_dial, Sim-handle_gc)
  Sim-command cni_status args = search (call_rules, Sim-load_and_dial)

-- The commands do over the wire what they do over the interface. Where a command, on a host whose
-- grout answers calls, makes a transcript, and what grout sends on the connection answers the
-- requests of the transcript with the same answers, in order, the ids counted on from the client's
-- counter, then with *groutapi.Client as the GroutClient, on a connection that takes every write,
-- the command has the same outcome and transcript. It then has sent the requests of the transcript,
-- in order and nothing else, and what came behind grout's answers stays on the connection.
pub command_over_client :
    (env : Env) (unmarshal : Bytes → PluginConf → Result PluginConf)
    (dial : Bytes → Reply (Unit {0})) (code : Error → ℕ) (verb : Verb) (args : CmdArgs)
    (x : Result (Option CniResult)) (t : Trace) (start id : ℕ) (incoming sent out rest : Bytes)
    → command env unmarshal dial verb args [] ≡ (x, t)
    → Talk code start id incoming out t
    → let c = dialled (incoming ++ rest) sent start in
      (command (with_client env (remote code c)) unmarshal dial verb args [] ≡ (x, t))
      × (client_at c t ≡ dialled rest (sent ++ out) id)
command_over_client env unmarshal dial code verb args x t start id incoming sent out rest h k =
    let (left, gave) = follows code start sent rest k in
    let c = dialled (incoming ++ rest) sent start in
    let run = Sim-command env (remote code c) unmarshal dial verb args in
    (
      run.same_end [] (
            subst (λ (o : Result (Option CniResult) × Trace). Answered (remote code c) o.1) (sym h)
              gave)
          ∙ h,
      left,
    )
