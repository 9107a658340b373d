-- ===== src/Router.antt =====
-- grout behind the interface GroutClient of pkg/cni/handler.go: the interfaces that it holds, and what
-- the handlers rely on of the calls on them.
pub mod Views
pub mod Bare
pub mod Detach
pub mod Deletion
pub mod Reap
pub mod Collection
pub mod Ensure
pub mod Attach
pub mod Port
pub mod Addition
pub mod RoundTrip
pub mod Calm
pub mod Session
pub mod Progress
pub mod Reporting
pub mod Success
pub mod Checking
use grout_cni.Base.{◌==◌, ℕ, ◌≡◌, ◌≢◌, ◌↔◌, ◌⊎◌, Bool, true, false, List, ◌∷◌}
use grout_cni.Grout.{Iface, AddRequest}
use grout_cni.Host.{
  value, Event, iface_added, iface_deleted, address_added, addresses_flushed, Trace, Env,
}
use grout_cni.Bridge.Collect.{Any}

-- The list has this interface.
abbrev pub In : Iface → List Iface → Type 0
In i l = Any (λ x. x ≡ i) l

-- The interface that a request makes, under an id.
abbrev pub made : AddRequest → ℕ → Iface
made req id = record { id = id; type = req.type; name = req.name; domain = req.domain_id }

-- The events that change which interfaces there are.
abbrev pub changes : Event → Bool
changes (iface_added req (value id)) = true
changes (iface_deleted id (value u)) = true
changes _ = false

-- The events that may give the interface with this id an address.
abbrev pub assigns : ℕ → Event → Bool
assigns id (address_added req r) = req.iface_id == id
assigns id _ = false

-- What is documented of grout, at every transcript. It answers a list with the interfaces that it
-- holds, in an order of its own. Ids and names are unique, and a new interface has a fresh id that is
-- not 0, no members and no addresses. A flush succeeds and leaves no addresses, and the deletion of an interface
-- without addresses succeeds. No other call changes which interfaces there are.
pub record Router (env : Env) : Type 0 where
  pub held : Trace → List Iface
  pub addressed : Trace → ℕ → Bool
  pub listing : (t : Trace) → env.list_all t ≡ value (held t)
  pub flushing : (id : ℕ) (t : Trace) → env.flush id t ≡ value tt
  pub deleting :
      (i : Iface) (t : Trace)
      → In i (held t)
      → addressed t i.id ≡ false
      → env.del_iface i.id t ≡ value tt
  pub fresh :
      (req : AddRequest) (id : ℕ) (t : Trace)
      → env.add_iface req t ≡ value id
      → (id ≢ 0) × ((i : Iface) → In i (held t) → (i.id ≢ id) × (i.domain ≢ id))
  pub held-added :
      (req : AddRequest) (id : ℕ) (t : Trace)
      → env.add_iface req t ≡ value id
      → (i : Iface)
      → In i (held (iface_added req (value id) ∷ t)) ↔ ((i ≡ made req id) ⊎ In i (held t))
  pub held-deleted :
      (id : ℕ) (t : Trace)
      → env.del_iface id t ≡ value tt
      → (i : Iface) → In i (held (iface_deleted id (value tt) ∷ t)) ↔ (In i (held t) × (i.id ≢ id))
  pub held-kept : (e : Event) (t : Trace) → changes e ≡ false → held (e ∷ t) ≡ held t
  pub unique_ids : (t : Trace) (i j : Iface) → In i (held t) → In j (held t) → i.id ≡ j.id → i ≡ j
  pub unique_names :
      (t : Trace) (i j : Iface) → In i (held t) → In j (held t) → i.name ≡ j.name → i ≡ j
  pub addressed-added :
      (req : AddRequest) (id : ℕ) (t : Trace)
      → env.add_iface req t ≡ value id
      → addressed (iface_added req (value id) ∷ t) id ≡ false
  pub addressed-flushed :
      (id : ℕ) (t : Trace) → addressed (addresses_flushed id (value tt) ∷ t) id ≡ false
  pub addressed-kept :
      (e : Event) (id : ℕ) (t : Trace)
      → assigns id e ≡ false
      → addressed t id ≡ false
      → addressed (e ∷ t) id ≡ false
