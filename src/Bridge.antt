-- ===== src/Bridge.antt =====
-- The grout bridge of a network: ensureBridge, its searches, and gcBridgeIfEmpty of
-- pkg/cni/handler.go.
pub mod Collect
pub mod Ensure
use grout_cni.Base.{
  ◌==◌, if◌then◌else◌, Bytes, same, listing_interfaces, creating_bridge, Error, in_stage, Result,
  ok, err, panic, ℕ, Bool, false, ◌&&◌, ◌||◌, not, Option, none, some, List, [], ◌∷◌,
}
use grout_cni.Base.State.{State, pure, lift, wrapped, attempt, ◌>>=◌, ◌>>◌}
use grout_cni.Grout.{type_bridge, Iface, AddRequest}
use grout_cni.Host.{Trace, Env, interface_list, interface_add, interface_del, address_flush}

-- findBridgeID
unfoldable pub find_bridge_id : List Iface → Bytes → Option ℕ
find_bridge_id [] name = none
find_bridge_id (iface ∷ rest) name =
    if same iface.name name && (iface.type == type_bridge)
    then some iface.id
    else find_bridge_id rest name

-- findByName
unfoldable pub find_by_name : List Iface → Bytes → Option ℕ
find_by_name [] name = none
find_by_name (iface ∷ rest) name =
    if same iface.name name then some iface.id else find_by_name rest name

-- The request that creates a bridge.
abbrev pub bridge_request : Bytes → AddRequest
bridge_request name = record {
  name = name;
  type = type_bridge;
  domain_id = 0;
  mtu = 0;
  vhost_user_path = [];
  vxlan = none;
}

-- What gcBridgeIfEmpty concludes from the list: `keep` stands for its early returns.
pub data Verdict : Type 0 where
  keep : Verdict
  collect : Verdict

-- The loop of gcBridgeIfEmpty, with the flag bridgeFound.
unfoldable pub gc_scan : ℕ → Bool → List Iface → Verdict
gc_scan bridge_id found [] = if found then collect else keep
gc_scan bridge_id found (iface ∷ rest) =
    let is_bridge = iface.id == bridge_id in
    let later = gc_scan bridge_id (is_bridge || found) rest in
    if is_bridge && not (iface.type == type_bridge)
    then keep
    else if iface.domain == bridge_id
    then keep
    else later

abbrev pub id_or_error : Error → Option ℕ → Result ℕ
id_or_error e (some id) = ok id
id_or_error e none = err (in_stage creating_bridge e)

module _ (env : Env) where
  -- The second look of ensureBridge, after a failed create.
  unfoldable pub reuse_bridge : Bytes → Error → Result (List Iface) → State Trace ℕ
  reuse_bridge name e (ok ifaces) = lift (id_or_error e (find_by_name ifaces name))
  reuse_bridge name e (err _) = lift (err (in_stage creating_bridge e))
  reuse_bridge name e panic = lift panic

  unfoldable pub created_or_reused : Bytes → Result ℕ → State Trace ℕ
  unfolding reuse_bridge
  created_or_reused name (ok id) = pure id
  created_or_reused name (err e) = do
    again ← attempt (interface_list env)
    reuse_bridge name e again
  created_or_reused name panic = lift panic

  unfoldable pub found_or_created : Bytes → Option ℕ → State Trace ℕ
  unfolding created_or_reused
  found_or_created name (some id) = pure id
  found_or_created name none = do
    created ← attempt (interface_add env (bridge_request name))
    created_or_reused name created

  -- ensureBridge
  unfoldable pub ensure_bridge : Bytes → State Trace ℕ
  unfolding found_or_created
  ensure_bridge name = do
    ifaces ← wrapped listing_interfaces (interface_list env)
    found_or_created name (find_bridge_id ifaces name)

  -- The flush and the delete, whose errors are logged and dropped.
  unfoldable pub collect_bridge : ℕ → Verdict → State Trace (Unit {0})
  collect_bridge bridge_id keep = pure tt
  collect_bridge bridge_id collect = do
    attempt (address_flush env bridge_id)
    attempt (interface_del env bridge_id)
    pure tt

  unfoldable pub scan_and_collect : ℕ → Result (List Iface) → State Trace (Unit {0})
  unfolding gc_scan collect_bridge
  scan_and_collect bridge_id (ok ifaces) = collect_bridge bridge_id (gc_scan bridge_id false ifaces)
  scan_and_collect bridge_id (err e) = pure tt
  scan_and_collect bridge_id panic = lift panic

  -- gcBridgeIfEmpty
  unfoldable pub gc_bridge_if_empty : ℕ → State Trace (Unit {0})
  unfolding scan_and_collect
  gc_bridge_if_empty bridge_id = do
    ifaces ← attempt (interface_list env)
    scan_and_collect bridge_id ifaces
