-- ===== src/Handlers/Reaping.antt =====
-- HandleGC of pkg/cni/handler.go: what it deletes.
use grout_cni.Bridge.{find_bridge_id, gc_bridge_if_empty}
use grout_cni.Base.{
  if◌then◌else◌, Bool-cases, gc_listing, Result, ok, err, panic, wrap, ℕ, suc, ◌<◌, ◌≡◌, refl, ◌∙◌,
  ◌⊎◌, inl, inr, Bool, true, false, ◌||◌, Option, none, some, List, [], ◌∷◌, arith,
}
use grout_cni.Base.State.{State, pure, branch, reify, continue, ◌>>=◌, ◌>>◌, bind-ok}
use grout_cni.Grout.{Iface}
use grout_cni.Config.{PluginConf}
use grout_cni.Host.{
  Reply, value, failed, answer, CmdArgs, ipam_collected, listed, iface_deleted, file_removed, Trace,
  Env, gc_ipam, interface_list, interface_del, remove_file,
}
use grout_cni.Bridge.Collect.{Collected, gc_bridge_if_empty_lem}
use grout_cni.Handlers.Common.{vhost_socket_path, remove_vhost_socket}
use grout_cni.Handlers.Gc.{is_stale, after_reap, reap_one, reap, collect_on, gc_body}

module _ (env : Env) (conf : PluginConf) (args : CmdArgs) where
  -- The ports of the list that HandleGC reaps, in order.
  abbrev pub stale : ℕ → List Iface → List Iface
  stale bridge_id [] = []
  stale bridge_id (i ∷ is) =
      if is_stale env conf args bridge_id i then i ∷ stale bridge_id is else stale bridge_id is

  -- The transcript once HandleGC has asked for the deletion of a port: if that is answered with success,
  -- its socket is removed too.
  abbrev pub without : Iface → Reply (Unit {0}) → Trace → Trace
  without i (value u) t =
      let path = vhost_socket_path conf.grout_socket_path i.name in
      let t1 = iface_deleted i.id (value u) ∷ t in file_removed path (env.remove path t1) ∷ t1
  without i (failed e) t = iface_deleted i.id (failed e) ∷ t

  -- The same for each of the ports, in order.
  abbrev pub without_all : List Iface → Trace → Trace
  without_all [] t = t
  without_all (i ∷ is) t = without_all is (without i (env.del_iface i.id t) t)

  -- How many interfaces are gone.
  abbrev pub gone : Trace → ℕ
  gone [] = 0
  gone (iface_deleted id (value u) ∷ t) = suc (gone t)
  gone (e ∷ t) = gone t

  -- What the loop's flag `any`, which started as `reaped`, says of the transcripts around it.
  abbrev Tallied : Bool → Bool → Trace → Trace → Type 0
  Tallied reaped any t t' =
      ((any ≡ reaped) × (gone t' ≡ gone t)) ⊎ ((any ≡ true) × (gone t < gone t'))

  reap_one_lem :
      (i : Iface) (t : Trace)
      → (hit : Bool) × (reap_one env conf args i t ≡ (ok hit, without i (env.del_iface i.id t) t))
        × Tallied false hit t (without i (env.del_iface i.id t) t)
  unfolding reap_one interface_del remove_vhost_socket remove_file ◌>>=◌
  reap_one_lem i t = step (env.del_iface i.id t)
    where
      step :
          (r : Reply (Unit {0}))
          → (hit : Bool) × (continue
                (reify (answer r))
                (after_reap env conf args i)
                (iface_deleted i.id r ∷ t)
              ≡ (ok hit, without i r t))
            × Tallied false hit t (without i r t)
      step (value u) = (true, refl, inr (refl, omega arith))
      step (failed e) = (false, refl, inl (refl, refl))

  Tallied-step :
      (hit reaped any : Bool) (t t1 t2 : Trace)
      → Tallied false hit t t1
      → Tallied (hit || reaped) any t1 t2
      → Tallied reaped any t t2
  Tallied-step hit reaped any t t1 t2 (inl (e, k)) (inl (q, l)) = inl (ground (arith, e, q), l ∙ k)
  Tallied-step hit reaped any t t1 t2 (inr (e, k)) (inl (q, l)) =
      inr (ground (arith, e, q), omega (arith, k, l))
  Tallied-step hit reaped any t t1 t2 (inl (e, k)) (inr (q, l)) = inr (q, omega (arith, k, l))
  Tallied-step hit reaped any t t1 t2 (inr (e, k)) (inr (q, l)) = inr (q, omega (arith, k, l))

  reap_lem :
      (bridge_id : ℕ) (reaped : Bool) (ifaces : List Iface) (t : Trace)
      → (any : Bool) × (reap env conf args bridge_id reaped ifaces t
          ≡ (ok any, without_all (stale bridge_id ifaces) t))
        × Tallied reaped any t (without_all (stale bridge_id ifaces) t)
  unfolding reap ◌>>=◌
  reap_lem bridge_id reaped [] t = (reaped, refl, inl (refl, refl))
  reap_lem bridge_id reaped (i ∷ is) t = elim (Bool-cases (is_stale env conf args bridge_id i)) [
    | inl e ↦
        let t1 = without i (env.del_iface i.id t) t in
        let (hit, p, k) = reap_one_lem i t in
        let (any, q, l) = reap_lem bridge_id (hit || reaped) is t1 in
        (
          any,
          rw (e, p) q,
          rw e (Tallied-step hit reaped any t t1 (without_all (stale bridge_id is) t1) k l),
        )
    | inr e ↦ let (any, q, l) = reap_lem bridge_id reaped is t in (any, rw e q, rw e l)
  ]

  -- From the end `later` of a loop that started at `t`: where a port is gone, the bridge is looked at and
  -- perhaps taken away, and last the IPAM plugin collects.
  abbrev pub Swept : ℕ → Trace → Trace → Trace → Type 0
  Swept id t later t' =
      (last : Trace) × (((gone later ≡ gone t) × (last ≡ later))
        ⊎ ((gone t < gone later) × Collected env id later last))
      × (t' ≡ ipam_collected (env.gc_ipam args.stdin_data last) ∷ last)

  -- What a GC behind the lock has done at its end, when it started at `t`.
  abbrev pub Reaped : Trace → Result (Unit {0}) → Trace → Type 0
  Reaped t (ok u) t' =
      (ifaces : List Iface) × (env.list_all t ≡ value ifaces)
      × (let seen = listed (value ifaces) ∷ t in
          ((find_bridge_id ifaces conf.bridge ≡ none)
            × (t' ≡ ipam_collected (env.gc_ipam args.stdin_data seen) ∷ seen))
          ⊎ ((id : ℕ) × (find_bridge_id ifaces conf.bridge ≡ some id)
              × Swept id seen (without_all (stale id ifaces) seen) t'))
  Reaped t (err e) t' = (x : ℕ) × (env.list_all t ≡ failed x) × (t' ≡ listed (failed x) ∷ t)
  Reaped t panic t' = ⊥

  -- What HandleGC does behind its loop.
  abbrev pub after_loop : ℕ → Bool → State Trace (Unit {0})
  after_loop id any = do branch any (gc_bridge_if_empty env id) (pure tt); gc_ipam env args

  pub after_loop-ok : (id : ℕ) (any : Bool) (t : Trace) → (after_loop id any t).0 ≡ ok tt
  unfolding gc_ipam ◌>>=◌
  after_loop-ok id false t = refl
  after_loop-ok id true t =
      rw
        (bind-ok (gc_bridge_if_empty env id) (λ _. gc_ipam env args) t
          (gc_bridge_if_empty_lem env id t).0)
        refl

  finish_gc :
      (id : ℕ) (any : Bool) (t later : Trace)
      → Tallied false any t later
      → Swept id t later (after_loop id any later).1
  unfolding gc_ipam ◌>>=◌
  finish_gc id false t later (inl (e, k)) = (later, inl (k, refl), refl)
  finish_gc id false t later (inr (e, k)) = cc e
  finish_gc id true t later (inl (e, k)) = cc e
  finish_gc id true t later (inr (e, k)) =
      let (p, c) = gc_bridge_if_empty_lem env id later in
      let q = bind-ok (gc_bridge_if_empty env id) (λ _. gc_ipam env args) later p in
      ((gc_bridge_if_empty env id later).1, inr (k, c), rw q refl)

  sweep_lem :
      (ifaces : List Iface) (id : ℕ) (t : Trace)
      → ((collect_on env conf args ifaces (some id) t).0 ≡ ok tt)
        × Swept id t
            (without_all (stale id ifaces) t)
            (collect_on env conf args ifaces (some id) t).1
  unfolding collect_on ◌>>=◌
  sweep_lem ifaces id t =
      let (any, p, k) = reap_lem id false ifaces t in
      let later = without_all (stale id ifaces) t in
      rw p (after_loop-ok id any later, finish_gc id any t later k)

  -- HandleGC behind the lock never panics, and it fails only when the list cannot be read, and has then
  -- done nothing but read it. Otherwise it succeeds, whatever the calls it makes answer, and these are
  -- all of them, in order: it reads the list; with the bridge of the network in it, it asks for the
  -- deletion of the stale ports, each once and in the order of the list, and removes the socket of
  -- each that is gone; exactly if one is gone, it then reads the list again, and asks for the
  -- deletion of the bridge, behind a flush of its addresses, exactly if this second list is there and
  -- shows the bridge empty; and last it has the IPAM plugin collect.
  pub gc_body_lem : (t : Trace) → Reaped t (gc_body env conf args t).0 (gc_body env conf args t).1
  unfolding gc_body collect_on interface_list gc_ipam ◌>>=◌
  gc_body_lem t = step (env.list_all t) refl
    where
      after : Reply (List Iface) → Result (Unit {0}) × Trace
      after r =
          continue (wrap gc_listing (answer r))
            (λ ifaces. collect_on env conf args ifaces (find_bridge_id ifaces conf.bridge))
            (listed r ∷ t)

      decide :
          (ifaces : List Iface) (b : Option ℕ)
          → env.list_all t ≡ value ifaces
          → find_bridge_id ifaces conf.bridge ≡ b
          → Reaped t
              (collect_on env conf args ifaces b (listed (value ifaces) ∷ t)).0
              (collect_on env conf args ifaces b (listed (value ifaces) ∷ t)).1
      decide ifaces none e f = (ifaces, e, inl (f, refl))
      decide ifaces (some id) e f =
          let (p, s) = sweep_lem ifaces id (listed (value ifaces) ∷ t) in
          rw p (ifaces, e, inr (id, f, s))

      step : (r : Reply (List Iface)) → env.list_all t ≡ r → Reaped t (after r).0 (after r).1
      step (value ifaces) e = decide ifaces (find_bridge_id ifaces conf.bridge) e refl
      step (failed x) e = (x, e, refl)
