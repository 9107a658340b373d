-- ===== src/Host/Events.antt =====
-- Reading a transcript: who holds the lock, which files are open, and what an environment's calls
-- leave alone.
use grout_cni.Base.{Bytes, ℕ, ◌≡◌, refl, Bool, true, false, List, ◌∷◌}
use grout_cni.Base.Keeps.{Keeps, keeps_rules}
use grout_cni.Base.Integer.{ℤ}
use grout_cni.Net.{IpNet}
use grout_cni.Grout.{AddRequest, AddressRequest}
use grout_cni.Host.{
  CniResult, CmdArgs, Event, opened, flocked, unlocked, closed, ipam_added, ipam_deleted,
  ipam_collected, listed, iface_added, iface_deleted, address_added, addresses_flushed, link_moved,
  pod_configured, pod_verified, file_removed, Trace, Env, mkdir_all, ipam_add, ipam_del, gc_ipam,
  interface_list, interface_add, interface_del, address_add, address_flush, move_link,
  configure_pod_iface, verify_pod_iface, remove_file, file_exists,
}

-- The events of the lock itself.
abbrev pub is_lock : Event → Bool
is_lock (opened path r) = true
is_lock (flocked fd r) = true
is_lock (unlocked fd) = true
is_lock (closed fd) = true
is_lock _ = false

-- The calls on what concurrent CNI calls share.
abbrev pub is_shared : Event → Bool
is_shared (ipam_added r) = true
is_shared (ipam_deleted r) = true
is_shared (ipam_collected r) = true
is_shared (listed r) = true
is_shared (iface_added req r) = true
is_shared (iface_deleted id r) = true
is_shared (address_added req r) = true
is_shared (addresses_flushed id r) = true
is_shared (link_moved name netns r) = true
is_shared (pod_configured netns name r) = true
is_shared (pod_verified netns name ips r) = true
is_shared (file_removed path r) = true
is_shared _ = false

-- What every event keeps that is not one of the lock's.
pub record IsStable (P : Trace → Type 0) : Type 0 where
  pub steady : (e : Event) (t : Trace) → is_lock e ≡ false → P t → P (e ∷ t)

-- Every call but those on the lock keeps what is stable.
module _ (env : Env) {P : Trace → Type 0} (st : IsStable P) where
  pub Keeps-mkdir_all : (path : Bytes) → Keeps P (mkdir_all env path)
  unfolding mkdir_all
  Keeps-mkdir_all path = record { kept = λ t h. st.steady _ t refl h }

  pub Keeps-ipam_add : (args : CmdArgs) → Keeps P (ipam_add env args)
  unfolding ipam_add
  Keeps-ipam_add args = record { kept = λ t h. st.steady _ t refl h }

  pub Keeps-ipam_del : (args : CmdArgs) → Keeps P (ipam_del env args)
  unfolding ipam_del
  Keeps-ipam_del args = record { kept = λ t h. st.steady _ t refl h }

  pub Keeps-gc_ipam : (args : CmdArgs) → Keeps P (gc_ipam env args)
  unfolding gc_ipam
  Keeps-gc_ipam args = record { kept = λ t h. st.steady _ t refl h }

  pub Keeps-interface_list : Keeps P (interface_list env)
  unfolding interface_list
  Keeps-interface_list = record { kept = λ t h. st.steady _ t refl h }

  pub Keeps-interface_add : (req : AddRequest) → Keeps P (interface_add env req)
  unfolding interface_add
  Keeps-interface_add req = record { kept = λ t h. st.steady _ t refl h }

  pub Keeps-interface_del : (id : ℕ) → Keeps P (interface_del env id)
  unfolding interface_del
  Keeps-interface_del id = record { kept = λ t h. st.steady _ t refl h }

  pub Keeps-address_add : (req : AddressRequest) → Keeps P (address_add env req)
  unfolding address_add
  Keeps-address_add req = record { kept = λ t h. st.steady _ t refl h }

  pub Keeps-address_flush : (id : ℕ) → Keeps P (address_flush env id)
  unfolding address_flush
  Keeps-address_flush id = record { kept = λ t h. st.steady _ t refl h }

  pub Keeps-move_link : (name netns : Bytes) → Keeps P (move_link env name netns)
  unfolding move_link
  Keeps-move_link name netns = record { kept = λ t h. st.steady _ t refl h }

  pub Keeps-configure_pod_iface :
      (netns host pod : Bytes) (mtu : ℤ) (result : CniResult)
      → Keeps P (configure_pod_iface env netns host pod mtu result)
  unfolding configure_pod_iface
  Keeps-configure_pod_iface netns host pod mtu result = record {
    kept = λ t h. st.steady _ t refl h;
  }

  pub Keeps-verify_pod_iface :
      (netns name : Bytes) (ips : List IpNet) → Keeps P (verify_pod_iface env netns name ips)
  unfolding verify_pod_iface
  Keeps-verify_pod_iface netns name ips = record { kept = λ t h. st.steady _ t refl h }

  pub Keeps-remove_file : (path : Bytes) → Keeps P (remove_file env path)
  unfolding remove_file
  Keeps-remove_file path = record { kept = λ t h. st.steady _ t refl h }

  pub Keeps-file_exists : (path : Bytes) → Keeps P (file_exists env path)
  unfolding file_exists
  Keeps-file_exists path = record { kept = λ t h. st.steady _ t refl h }

pub ruleset host_rules = (
  keeps_rules, Keeps-mkdir_all, Keeps-ipam_add, Keeps-ipam_del, Keeps-gc_ipam, Keeps-interface_list,
  Keeps-interface_add, Keeps-interface_del, Keeps-address_add, Keeps-address_flush, Keeps-move_link,
  Keeps-configure_pod_iface, Keeps-verify_pod_iface, Keeps-remove_file, Keeps-file_exists,
)
