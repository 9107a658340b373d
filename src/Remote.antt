-- ===== src/Remote.antt =====
-- The interface GroutClient of pkg/cni/handler.go, and *groutapi.Client of pkg/groutapi/client.go behind
-- it. Every handler calls the interface only, on the one client that its command has dialled.
pub mod Sim
pub mod Calls
pub mod Handlers
pub mod Exchanges
pub mod Talk
pub mod Following
pub mod Command
-- The methods, by what was called before.
use grout_cni.Base.{Error, Result, ok, err, panic, ℕ, ◌≡◌, List, [], ◌∷◌}
use grout_cni.Grout.{Iface, AddRequest, AddressRequest}
use grout_cni.Host.{
  Reply, value, failed, Event, listed, iface_added, iface_deleted, address_added, addresses_flushed,
  Trace, Env,
}
use grout_cni.Client.{Client}
use grout_cni.Client.Interfaces.{list_interfaces, add_interface, del_interface}
use grout_cni.Client.Addresses.{add_address, flush_addresses}

pub record GroutClient : Type 0 where
  pub interface_list : Trace → Reply (List Iface)
  pub interface_add : AddRequest → Trace → Reply ℕ
  pub interface_del : ℕ → Trace → Reply (Unit {0})
  pub address_add : AddressRequest → Trace → Reply (Unit {0})
  pub address_flush : ℕ → Trace → Reply (Unit {0})

-- The same host with this client.
abbrev pub with_client : Env → GroutClient → Env
with_client env g = record env {
  list_all = g.interface_list;
  add_iface = g.interface_add;
  del_iface = g.interface_del;
  add_address = g.address_add;
  flush = g.address_flush;
}

-- The answer of a method. The handlers only pass its errors on, so a code stands for each; the client
-- does not panic.
abbrev pub reply : {A : Type 0} → (Error → ℕ) → Result A → Reply A
reply code (ok a) = value a
reply code (err e) = failed (code e)
reply code panic = failed 0

-- The client after the calls of a transcript.
abbrev pub client_at : Client → Trace → Client
client_at c [] = c
client_at c (listed r ∷ t) = (list_interfaces (client_at c t)).1
client_at c (iface_added req r ∷ t) = (add_interface req (client_at c t)).1
client_at c (iface_deleted id r ∷ t) = (del_interface id (client_at c t)).1
client_at c (address_added req r ∷ t) = (add_address req (client_at c t)).1
client_at c (addresses_flushed id r ∷ t) = (flush_addresses id (client_at c t)).1
client_at c (e ∷ t) = client_at c t

-- *groutapi.Client as a GroutClient.
abbrev pub remote : (Error → ℕ) → Client → GroutClient
remote code c = record {
  interface_list = λ t. reply code (list_interfaces (client_at c t)).0;
  interface_add = λ req t. reply code (add_interface req (client_at c t)).0;
  interface_del = λ id t. reply code (del_interface id (client_at c t)).0;
  address_add = λ req t. reply code (add_address req (client_at c t)).0;
  address_flush = λ id t. reply code (flush_addresses id (client_at c t)).0;
}

-- The client gives the answers of the transcript.
abbrev pub Answered : GroutClient → Trace → Type 0
Answered g [] = Unit
Answered g (listed r ∷ t) = (g.interface_list t ≡ r) × Answered g t
Answered g (iface_added req r ∷ t) = (g.interface_add req t ≡ r) × Answered g t
Answered g (iface_deleted id r ∷ t) = (g.interface_del id t ≡ r) × Answered g t
Answered g (address_added req r ∷ t) = (g.address_add req t ≡ r) × Answered g t
Answered g (addresses_flushed id r ∷ t) = (g.address_flush id t ≡ r) × Answered g t
Answered g (e ∷ t) = Answered g t
