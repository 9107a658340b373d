-- ===== src/Handlers/Deletion.antt =====
-- HandleDel of pkg/cni/handler.go: what it deletes and releases.
use mathlib.Core.Path.{subst}
use grout_cni.Bridge.{gc_bridge_if_empty}
use grout_cni.Base.{
  ◌==◌, listing_interfaces, Result, ok, err, panic, wrap, ℕ, ◌≡◌, refl, ap, ◌≢◌, ◌⊎◌, inl, inr,
  Bool, true, false, Option, none, some, List, ◌∷◌, arith,
}
use grout_cni.Base.State.{State, pure, branch, continue, ◌>>=◌, ◌>>◌, bind-ok}
use grout_cni.Host.{
  Reply, value, failed, answer, CmdArgs, ipam_deleted, listed, iface_deleted, file_removed, Trace,
  Env, ipam_del, interface_list, interface_del, remove_file, dropped,
}
use grout_cni.Grout.{Iface}
use grout_cni.Config.{PluginConf}
use grout_cni.PortName.{find_port_by_name}
use grout_cni.Bridge.Collect.{Collected, gc_bridge_if_empty_lem}
use grout_cni.Handlers.Common.{vhost_socket_path, port_name, remove_vhost_socket}
use grout_cni.Handlers.Del.{delete_port, del_body}

module _ (env : Env) (conf : PluginConf) (args : CmdArgs) where
  -- The transcript once the port was asked to be deleted and its socket removed.
  abbrev pub without_port : Iface → Trace → Trace
  without_port port t =
      let path = vhost_socket_path conf.grout_socket_path (port_name env args) in
      let t1 = iface_deleted port.id (env.del_iface port.id t) ∷ t in
      file_removed path (env.remove path t1) ∷ t1

  -- What DEL does with the port that it found: nothing without one; else its deletion and that of its
  -- socket, and if it was a member of a bridge, one more look at grout's list, which decides on the
  -- bridge.
  abbrev pub Removed : Option Iface → Trace → Trace → Type 0
  Removed none t t' = t' ≡ t
  Removed (some port) t t' =
      ((port.domain ≡ 0) × (t' ≡ without_port port t))
      ⊎ ((port.domain ≢ 0) × Collected env port.domain (without_port port t) t')

  -- What a DEL behind the lock has done at its end, when it started at `t`.
  abbrev pub Deleted : Trace → Result (Unit {0}) → Trace → Type 0
  Deleted t (ok u) t' =
      (ifaces : List Iface) × (before : Trace) × (env.list_all t ≡ value ifaces)
      × Removed (find_port_by_name ifaces (port_name env args)) (listed (value ifaces) ∷ t) before
      × (t' ≡ ipam_deleted (env.del_ipam args.stdin_data before) ∷ before)
  Deleted t (err e) t' = (x : ℕ) × (env.list_all t ≡ failed x) × (t' ≡ listed (failed x) ∷ t)
  Deleted t panic t' = ⊥

  abbrev pub drop_bridge : Iface → Bool → State Trace (Unit {0})
  drop_bridge port b = branch b (pure tt) (gc_bridge_if_empty env port.domain)

  drop_bridge_lem :
      (port : Iface) (b : Bool) (t : Trace)
      → (port.domain == 0) ≡ b
      → ((drop_bridge port b (without_port port t)).0 ≡ ok tt)
        × Removed (some port) t (drop_bridge port b (without_port port t)).1
  unfolding branch pure
  drop_bridge_lem port true t z = (refl, inl (ground arith, refl))
  drop_bridge_lem port false t z =
      let (p, c) = gc_bridge_if_empty_lem env port.domain (without_port port t) in
      (p, inr (ground arith, c))

  pub delete_port_lem :
      (p : Option Iface) (t : Trace)
      → ((delete_port env conf args p t).0 ≡ ok tt) × Removed p t (delete_port env conf args p t).1
  unfolding delete_port interface_del remove_vhost_socket remove_file ◌>>=◌
  delete_port_lem none t = (refl, refl)
  delete_port_lem (some port) t =
      let t1 = iface_deleted port.id (env.del_iface port.id t) ∷ t in
      let rest =
        remove_vhost_socket env conf (port_name env args) >> drop_bridge port (port.domain == 0) in
      let e = dropped (env.del_iface port.id t) rest t1 in
      rw e (drop_bridge_lem port (port.domain == 0) t refl)

  -- DEL behind the lock never panics, and it fails only when the list cannot be read, and has then done
  -- nothing but read it. Otherwise it succeeds, whatever the calls it makes answer, and these are all
  -- of them, in order: it reads the list; with a port of the attachment's name in it, it asks for the
  -- deletion of that port and removes its socket, and if the port was a member of a bridge, reads
  -- the list again, and asks for the deletion of the bridge, behind a flush of its addresses, exactly
  -- if this second list is there and shows the bridge empty; and last it releases the addresses.
  pub del_body_lem :
      (t : Trace) → Deleted t (del_body env conf args t).0 (del_body env conf args t).1
  unfolding del_body interface_list ipam_del ◌>>=◌
  del_body_lem t = step (env.list_all t) refl
    where
      seen : Trace
      seen = listed (env.list_all t) ∷ t

      port_of : List Iface → Option Iface
      port_of ifaces = find_port_by_name ifaces (port_name env args)

      rest : List Iface → State Trace (Unit {0})
      rest ifaces = delete_port env conf args (port_of ifaces) >> ipam_del env args

      after : Reply (List Iface) → Result (Unit {0}) × Trace
      after r = continue (wrap listing_interfaces (answer r)) rest seen

      step : (r : Reply (List Iface)) → env.list_all t ≡ r → Deleted t (after r).0 (after r).1
      step (value ifaces) e =
          let m = delete_port env conf args (port_of ifaces) in
          let (p, d) = delete_port_lem (port_of ifaces) seen in
          rw (bind-ok m (λ _. ipam_del env args) seen p) (
            ifaces,
            (m seen).1,
            e,
            subst (λ r. Removed (port_of ifaces) (listed r ∷ t) (m seen).1) e d,
            refl,
          )
      step (failed x) e = (x, e, ap (λ r. listed r ∷ t) e)
