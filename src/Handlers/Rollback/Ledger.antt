-- ===== src/Handlers/Rollback/Ledger.antt =====
-- What a CNI ADD owns: reservations of IPAM and ports of grout, counted over the transcript, and the
-- calls of HandleAdd that change neither.
use grout_cni.Base.{
  ◌==◌, if◌then◌else◌, Bytes, converting_ipam_result, Error, in_stage, Result, ok, err, panic, ℕ,
  ◌+◌, ◌≡◌, ◌⊎◌, Option, none, some, List, [], ◌∷◌, ◌++◌,
}
use grout_cni.Base.Keeps.{Keeps, Keeps-bind, keeps_rules}
use grout_cni.Base.Integer.{ℤ}
use grout_cni.Net.{IpNet}
use grout_cni.Grout.{type_tap, Iface, AddressRequest}
use grout_cni.Config.{PluginConf}
use grout_cni.Host.{
  Reply, value, failed, CniResult, CmdArgs, ipam_added, ipam_deleted, iface_added, iface_deleted,
  Trace, Env, mkdir_all, interface_list, interface_add, address_add, move_link, configure_pod_iface,
}
use grout_cni.Lock.Discipline.{remove_first}
use grout_cni.Bridge.{
  bridge_request, reuse_bridge, created_or_reused, found_or_created, ensure_bridge,
}
use grout_cni.Handlers.Add.{add_gateways, make_socket_dir}

-- How often IPAM has made a reservation, and how often one was released.
abbrev pub reserved : Trace → ℕ
reserved [] = 0
reserved (ipam_added (value raw) ∷ t) = 1 + reserved t
reserved (e ∷ t) = reserved t

abbrev pub released : Trace → ℕ
released [] = 0
released (ipam_deleted r ∷ t) = 1 + released t
released (e ∷ t) = released t

-- The ports that were created and whose deletion was not asked for, the newest first.
abbrev pub ports : Trace → List ℕ
ports [] = []
ports (iface_added req (value id) ∷ t) = if req.type == type_tap then id ∷ ports t else ports t
ports (iface_deleted id r ∷ t) = remove_first id (ports t)
ports (e ∷ t) = ports t

-- Since `start`, this many reservations more than releases, and just these ports more.
pub record IsLedger (start : Trace) (n : ℕ) (own : List ℕ) (t : Trace) : Type 0 where
  pub balance : reserved t + released start ≡ reserved start + released t + n
  pub ports_as : ports t ≡ own ++ ports start

module _ (env : Env) {start : Trace} {n : ℕ} {own : List ℕ} where
  pub list-IsLedger : Keeps (IsLedger start n own) (interface_list env)
  unfolding interface_list
  list-IsLedger = record { kept = λ t h. record { balance = h.balance; ports_as = h.ports_as } }

  pub mkdir-IsLedger : (path : Bytes) → Keeps (IsLedger start n own) (mkdir_all env path)
  unfolding mkdir_all
  mkdir-IsLedger path = record {
    kept = λ t h. record { balance = h.balance; ports_as = h.ports_as };
  }

  pub address-IsLedger : (req : AddressRequest) → Keeps (IsLedger start n own) (address_add env req)
  unfolding address_add
  address-IsLedger req = record {
    kept = λ t h. record { balance = h.balance; ports_as = h.ports_as };
  }

  pub move-IsLedger : (name netns : Bytes) → Keeps (IsLedger start n own) (move_link env name netns)
  unfolding move_link
  move-IsLedger name netns = record {
    kept = λ t h. record { balance = h.balance; ports_as = h.ports_as };
  }

  pub configure-IsLedger :
      (netns host pod : Bytes) (mtu : ℤ) (r : CniResult)
      → Keeps (IsLedger start n own) (configure_pod_iface env netns host pod mtu r)
  unfolding configure_pod_iface
  configure-IsLedger netns host pod mtu r = record {
    kept = λ t h. record { balance = h.balance; ports_as = h.ports_as };
  }

  pub bridge-IsLedger :
      (name : Bytes) → Keeps (IsLedger start n own) (interface_add env (bridge_request name))
  unfolding interface_add
  bridge-IsLedger name = record { kept = λ t h. step t (env.add_iface (bridge_request name) t) h }
    where
      step :
          (t : Trace) (r : Reply ℕ)
          → IsLedger start n own t
          → IsLedger start n own (iface_added (bridge_request name) r ∷ t)
      step t (value id) h = record { balance = h.balance; ports_as = h.ports_as }
      step t (failed e) h = record { balance = h.balance; ports_as = h.ports_as }

pub ruleset ledger_rules = (
  keeps_rules, list-IsLedger, mkdir-IsLedger, address-IsLedger, move-IsLedger, configure-IsLedger,
  bridge-IsLedger,
)

module _ (env : Env) {start : Trace} {n : ℕ} {own : List ℕ} where
  pub reuse_bridge-IsLedger :
      (name : Bytes) (e : Error) (r : Result (List Iface))
      → Keeps (IsLedger start n own) (reuse_bridge env name e r)
  unfolding reuse_bridge
  reuse_bridge-IsLedger name e (ok ifaces) = search ledger_rules
  reuse_bridge-IsLedger name e (err x) = search ledger_rules
  reuse_bridge-IsLedger name e panic = search ledger_rules

  pub created_or_reused-IsLedger :
      (name : Bytes) (r : Result ℕ) → Keeps (IsLedger start n own) (created_or_reused env name r)
  unfolding created_or_reused
  created_or_reused-IsLedger name (ok id) = search ledger_rules
  created_or_reused-IsLedger name (err e) = search (ledger_rules, reuse_bridge-IsLedger)
  created_or_reused-IsLedger name panic = search ledger_rules

  pub found_or_created-IsLedger :
      (name : Bytes) (o : Option ℕ) → Keeps (IsLedger start n own) (found_or_created env name o)
  unfolding found_or_created
  found_or_created-IsLedger name (some id) = search ledger_rules
  found_or_created-IsLedger name none = search (ledger_rules, created_or_reused-IsLedger)

  pub ensure_bridge-IsLedger :
      (name : Bytes) → Keeps (IsLedger start n own) (ensure_bridge env name)
  unfolding ensure_bridge
  ensure_bridge-IsLedger name = search (ledger_rules, found_or_created-IsLedger)

module _ (env : Env) (conf : PluginConf) (args : CmdArgs) {start : Trace} {n : ℕ}
    {own : List ℕ} where
  pub add_gateways-IsLedger :
      (id : ℕ) (gws : List IpNet) → Keeps (IsLedger start n own) (add_gateways env conf args id gws)
  unfolding add_gateways
  add_gateways-IsLedger id [] = search ledger_rules
  add_gateways-IsLedger id (gw ∷ gws) =
      Keeps-bind _ _ (address-IsLedger env _) (λ _. add_gateways-IsLedger id gws)

  pub make_socket_dir-IsLedger : Keeps (IsLedger start n own) (make_socket_dir env conf args)
  unfolding make_socket_dir
  make_socket_dir-IsLedger = search ledger_rules

-- A conversion of the IPAM result that failed.
abbrev pub IsConversion : Error → Type 0
IsConversion (in_stage converting_ipam_result e) = Unit
IsConversion _ = ⊥

-- What an ADD owns at its end: on success a reservation and one port; on an error nothing, but if the
-- conversion of the result failed, the reservation; on a panic the reservation.
abbrev pub Settled : Trace → Result CniResult → Trace → Type 0
Settled start (ok r) t = (id : ℕ) × IsLedger start 1 (id ∷ []) t
Settled start (err e) t = IsLedger start 0 [] t ⊎ (IsConversion e × IsLedger start 1 [] t)
Settled start panic t = IsLedger start 1 [] t
