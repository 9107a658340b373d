-- ===== src/Router/Deletion.antt =====
-- HandleDel of pkg/cni/handler.go against grout, the lock included.
use grout_cni.Base.{
  ◌==◌, Bytes, Result, ok, err, panic, ℕ, ◌≡◌, refl, false, Option, none, some, ◌∷◌,
}
use grout_cni.Base.State.{◌>>=◌, ◌>>◌, bind-ok}
use grout_cni.Grout.{Iface}
use grout_cni.PortName.{find_port_by_name}
use grout_cni.Host.{
  value, CmdArgs, unlocked, closed, ipam_deleted, listed, iface_deleted, file_removed, Trace, Env,
  ipam_del, interface_list, interface_del, remove_file, dropped,
}
use grout_cni.Config.{PluginConf}
use grout_cni.Router.{In, Router}
use grout_cni.Router.Views.{
  View, changes-locking, assigns-locking, Shows, Shows-held, Shows-kept, Shows-deleted,
}
use grout_cni.Router.Detach.{detached, find_port_by_name-some, no_port, drop_bridge-Shows}
use grout_cni.Handlers.Del.{delete_port, del_body, handle_del}
use grout_cni.Handlers.Deletion.{drop_bridge, delete_port_lem}
use grout_cni.Handlers.Common.{vhost_socket_path, port_name, remove_vhost_socket}
use grout_cni.Lock.Outcome.{IsUntouched, with_lock-outcome}
use grout_cni.Base.Ends.{Ends}

module _ {env : Env} (r : Router env) (conf : PluginConf) (args : CmdArgs) where
  -- The interface of this name, if there is one, has no addresses.
  abbrev pub IsBare : Bytes → Trace → Type 0
  IsBare name t = (i : Iface) → In i (r.held t) → i.name ≡ name → r.addressed t i.id ≡ false

  delete_port-Shows :
      {s : View} (t : Trace) (o : Option Iface)
      → find_port_by_name (r.held t) (port_name env args) ≡ o
      → Shows r t s
      → IsBare (port_name env args) t
      → Shows r (delete_port env conf args o t).1 (detached (port_name env args) s)
  unfolding delete_port interface_del remove_vhost_socket remove_file ◌>>=◌
  delete_port-Shows t none e h bare = no_port r conf args (port_name env args) t h e
  delete_port-Shows {s} t (some p) e h bare =
      let name = port_name env args in
      let (m, named) = find_port_by_name-some (r.held t) name p e in
      let found = (h p).0 m in
      let t1 = iface_deleted p.id (env.del_iface p.id t) ∷ t in
      let path = vhost_socket_path conf.grout_socket_path name in
      let removed = file_removed path (env.remove path t1) in
      let later =
        remove_vhost_socket env conf name >> drop_bridge env conf args p (p.domain == 0) in
      let h1 = Shows-deleted r {s = s} p.id t (λ i k q. bare p m named) h in
      let h2 = Shows-kept r removed t1 refl h1 in
      rw (dropped (env.del_iface p.id t) later t1) (
        drop_bridge-Shows r conf args name t (removed ∷ t1) h p found named (p.domain == 0) refl h2)

  -- Where DEL succeeds the port is gone, and its bridge if that was the last member; where it fails, all
  -- is as it was.
  abbrev pub Detached : View → Result (Unit {0}) → Trace → Type 0
  Detached s (ok u) t = Shows r t (detached (port_name env args) s)
  Detached s (err e) t = Shows r t s
  Detached s panic t = ⊥

  abbrev pub IsBefore : View → Trace → Type 0
  IsBefore s t = Shows r t s × IsBare (port_name env args) t

  del_body-Shows : (s : View) → Ends (IsBefore s) (Detached s) (del_body env conf args)
  unfolding del_body interface_list ipam_del ◌>>=◌
  del_body-Shows s = record { ends = λ t h. step t h }
    where
      step :
          (t : Trace)
          → IsBefore s t
          → Detached s (del_body env conf args t).0 (del_body env conf args t).1
      step t (h, bare) =
          let seen = listed (value (r.held t)) ∷ t in
          let e = r.held-kept (listed (value (r.held t))) t refl in
          let port = find_port_by_name (r.held t) (port_name env args) in
          let m = delete_port env conf args port in
          let (p, _) = delete_port_lem env conf args port seen in
          let bare' : IsBare (port_name env args) seen = λ i k q.
            r.addressed-kept (listed (value (r.held t))) i.id t refl (bare i (rw e at k) q) in
          let h' = delete_port-Shows seen port (rw e) (Shows-kept r _ t refl h) bare' in
          rw (r.listing t, bind-ok m (λ _. ipam_del env args) seen p)
            (Shows-kept r (ipam_deleted (env.del_ipam args.stdin_data (m seen).1)) (m seen).1 refl
              h')

  IsBefore-IsUntouched : (s : View) → IsUntouched (IsBefore s)
  IsBefore-IsUntouched s = record {
    untouched = λ e t l (h, bare).
        let q = changes-locking e l in
        (
          Shows-kept r e t q h,
          λ i k n.
              r.addressed-kept e i.id t (assigns-locking i.id e l)
                (bare i (rw (r.held-kept e t q) at k) n),
        );
  }

  released :
      (s : View) (fd : ℕ) (u : Result (Unit {0})) (t : Trace)
      → Detached s u t
      → Detached s u (closed fd ∷ unlocked fd ∷ t)
  released s fd (ok u) t h =
      Shows-kept r (closed fd) (unlocked fd ∷ t) refl (Shows-kept r (unlocked fd) t refl h)
  released s fd (err e) t h =
      Shows-kept r (closed fd) (unlocked fd ∷ t) refl (Shows-kept r (unlocked fd) t refl h)
  released s fd panic t h = h

  pub handle_del-Detached : (s : View) → Ends (IsBefore s) (Detached s) (handle_del env conf args)
  unfolding handle_del
  handle_del-Detached s =
      with_lock-outcome env (IsBefore-IsUntouched s) (del_body env conf args) conf.grout_socket_path
        (del_body-Shows s) (λ e t' h. h.0) (released s)

  -- DEL against grout, if the attachment's port has no addresses of its own: it never panics. If it
  -- fails, grout holds the interfaces that it held. If it succeeds, grout holds just those that
  -- it held, less the one of the attachment's name, and less the bridge that this was a member of,
  -- if that is a bridge and nothing else was a member.
  pub handle_del_detaches :
      (t : Trace)
      → IsBare (port_name env args) t
      → Detached
          (λ i. In i (r.held t))
          (handle_del env conf args t).0
          (handle_del env conf args t).1
  handle_del_detaches t bare =
      (handle_del-Detached (λ i. In i (r.held t))).ends t (Shows-held r t, bare)
