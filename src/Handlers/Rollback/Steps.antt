-- ===== src/Handlers/Rollback/Steps.antt =====
-- The steps of HandleAdd that take or give back what it owns.
use grout_cni.Base.{
  ==_iff, All, Bytes, same, Stage, interface_add_stage, moving_tap, configuring_pod, Result, ok,
  err, panic, wrap, ℕ, ◌≡◌, refl, ap, inl, List, [], ◌∷◌, arith,
}
use grout_cni.Base.State.{State, pure, lift, wrapped, on_error, reify, continue, ◌>>=◌}
use grout_cni.Base.Keeps.{Keeps}
use grout_cni.Base.Ends.{
  Ends, Ends-bind, Ends-wrapped, Ends-on_error, Ends-Keeps, Ends-branch, Ends-bind-lift,
}
use grout_cni.Base.Integer.{ℤ}
use grout_cni.Config.{PluginConf}
use grout_cni.Host.{
  Reply, value, failed, answer, PodIface, CniResult, CmdArgs, ipam_added, iface_added,
  iface_deleted, Trace, Env, ipam_add, ipam_del, interface_add, interface_del, move_link,
  configure_pod_iface,
}
use grout_cni.Ipam.{result_with, pod_result, vhost_result}
use grout_cni.Ipam.Gateways.{IsEntry, point_at_first_total}
use grout_cni.Handlers.Common.{is_virtio}
use grout_cni.Handlers.Add.{port_request, cleanup_after_add_failure, attach_tap, finish_add}
use grout_cni.Handlers.Rollback.Ledger.{IsLedger, Settled}

-- The middle of an ADD: on an error everything is given back.
abbrev pub Held : {A : Type 0} → Trace → Result A → Trace → Type 0
Held start (ok a) t = IsLedger start 1 [] t
Held start (err e) t = IsLedger start 0 [] t
Held start panic t = IsLedger start 1 [] t

module _ (env : Env) (args : CmdArgs) {start : Trace} where
  pub ipam_del-IsLedger :
      {own : List ℕ} (t : Trace)
      → IsLedger start 1 own t
      → IsLedger start 0 own (ipam_del env args t).1
  unfolding ipam_del
  ipam_del-IsLedger t h = record { balance = omega (arith, h.balance); ports_as = h.ports_as }

  pub ipam_add-Held : Ends (IsLedger start 0 []) (Held start) (ipam_add env args)
  unfolding ipam_add
  ipam_add-Held = record { ends = λ t h. step t (env.add_ipam args.stdin_data t) h }
    where
      step :
          (t : Trace) (r : Reply Bytes)
          → IsLedger start 0 [] t
          → Held start (answer r) (ipam_added r ∷ t)
      step t (value raw) h = record { balance = omega (arith, h.balance); ports_as = h.ports_as }
      step t (failed e) h = record { balance = h.balance; ports_as = h.ports_as }

  -- A step that touches neither, with the reservation released if it fails.
  pub Held-on_error :
      {A : Type 0} (m : State Trace A)
      → Keeps (IsLedger start 1 []) m
      → Ends (IsLedger start 1 []) (Held start) (on_error (ipam_del env args) m)
  Held-on_error m k =
      Ends-on_error _ _ (Ends-Keeps m k) (λ a t h. h) (λ e t h. ipam_del-IsLedger t h) (λ t h. h)

pub Held-wrap :
    {A : Type 0} (start : Trace) (c : Stage) (r : Result A) (t : Trace)
    → Held start r t
    → Held start (wrap c r) t
Held-wrap start c (ok a) t h = h
Held-wrap start c (err e) t h = h
Held-wrap start c panic t h = h

module _ (env : Env) (conf : PluginConf) (args : CmdArgs) (start : Trace) where
  -- The port is there once its creation succeeded, and not otherwise.
  abbrev pub Ported : Result ℕ → Trace → Type 0
  Ported (ok id) t = IsLedger start 1 (id ∷ []) t
  Ported (err e) t = IsLedger start 1 [] t
  Ported panic t = ⊥

  abbrev pub PortedOrFree : Result ℕ → Trace → Type 0
  PortedOrFree (ok id) t = IsLedger start 1 (id ∷ []) t
  PortedOrFree (err e) t = IsLedger start 0 [] t
  PortedOrFree panic t = ⊥

  pub interface_add-Ported :
      (bridge_id : ℕ)
      → Ends
          (IsLedger start 1 [])
          Ported
          (wrapped interface_add_stage (interface_add env (port_request env conf args bridge_id)))
  unfolding interface_add wrapped port_request
  interface_add-Ported bridge_id = record {
    ends = λ t h. step t (env.add_iface (port_request env conf args bridge_id) t) h;
  }
    where
      step :
          (t : Trace) (r : Reply ℕ)
          → IsLedger start 1 [] t
          → Ported
              (wrap interface_add_stage (answer r))
              (iface_added (port_request env conf args bridge_id) r ∷ t)
      step t (value id) h = record {
        balance = h.balance;
        ports_as = ap (λ (l : List ℕ). id ∷ l) h.ports_as;
      }
      step t (failed e) h = record { balance = h.balance; ports_as = h.ports_as }

  pub port_step :
      (bridge_id : ℕ)
      → Ends (IsLedger start 1 []) PortedOrFree (
          on_error (ipam_del env args) (
            wrapped interface_add_stage (interface_add env (port_request env conf args bridge_id))))
  port_step bridge_id =
      Ends-on_error _ _ (interface_add-Ported bridge_id) (λ a t h. h)
        (λ e t h. ipam_del-IsLedger env args t h) (λ t h. h)

  -- cleanupAfterAddFailure gives both back.
  pub cleanup-IsLedger :
      (id : ℕ) (t : Trace)
      → IsLedger start 1 (id ∷ []) t
      → IsLedger start 0 [] (cleanup_after_add_failure env conf args id t).1
  unfolding cleanup_after_add_failure interface_del ipam_del ◌>>=◌
  cleanup-IsLedger id t h = step (env.del_iface id t)
    where
      step :
          (r : Reply (Unit {0}))
          → IsLedger start 0 []
              ((continue (reify (answer r)) (λ _. ipam_del env args)) (iface_deleted id r ∷ t)).1
      step (value u) = record {
        balance = omega (arith, h.balance);
        ports_as = rw (h.ports_as, (==_iff id id).1 refl);
      }
      step (failed e) = record {
        balance = omega (arith, h.balance);
        ports_as = rw (h.ports_as, (==_iff id id).1 refl);
      }

  -- Both are still held, and the call returned.
  abbrev pub Ready : {A : Type 0} → ℕ → Result A → Trace → Type 0
  Ready id (ok a) t = IsLedger start 1 (id ∷ []) t
  Ready id (err e) t = IsLedger start 1 (id ∷ []) t
  Ready id panic t = ⊥

  pub Ready-wrap :
      {A : Type 0} (id : ℕ) (c : Stage) (r : Result A) (t : Trace)
      → Ready id r t
      → Ready id (wrap c r) t
  Ready-wrap id c (ok a) t h = h
  Ready-wrap id c (err e) t h = h
  Ready-wrap id c panic t h = h

  pub Ready-answer :
      {A : Type 0} (id : ℕ) (r : Reply A) (t : Trace)
      → IsLedger start 1 (id ∷ []) t
      → Ready id (answer r) t
  Ready-answer id (value a) t h = h
  Ready-answer id (failed e) t h = h

  pub move-Ready :
      (id : ℕ) (name netns : Bytes)
      → Ends (IsLedger start 1 (id ∷ [])) (Ready id) (move_link env name netns)
  unfolding move_link
  move-Ready id name netns = record {
    ends = λ t h.
        Ready-answer id (env.move name netns t) _
          (record { balance = h.balance; ports_as = h.ports_as });
  }

  pub configure-Ready :
      (id : ℕ) (netns host pod : Bytes) (mtu : ℤ) (r : CniResult)
      → Ends (IsLedger start 1 (id ∷ [])) (Ready id) (configure_pod_iface env netns host pod mtu r)
  unfolding configure_pod_iface
  configure-Ready id netns host pod mtu r = record {
    ends = λ t h.
        Ready-answer id (env.configure netns host pod mtu r t) _
          (record { balance = h.balance; ports_as = h.ports_as });
  }

  pub attach_tap-Settled :
      (id : ℕ) (r : CniResult)
      → Ends (IsLedger start 1 (id ∷ [])) (Settled start) (attach_tap env conf args id r)
  unfolding attach_tap
  attach_tap-Settled id r =
      Ends-on_error {R = Ready id} _ _
        (Ends-bind {R = Ready id} _ _
          (Ends-wrapped moving_tap _ (move-Ready id _ _) (Ready-wrap id moving_tap))
          (λ _.
            Ends-wrapped configuring_pod _ (configure-Ready id _ _ _ _ _)
              (Ready-wrap id configuring_pod))
          (λ e t h. h) (λ t h. h))
        (λ a t h. (id, h)) (λ e t h. inl (cleanup-IsLedger id t h)) (λ t h. absurd h)

  pub result_with-ok :
      (iface : PodIface) (ipam : CniResult)
      → All IsEntry ipam.ips
      → (r : CniResult) × (result_with iface ipam ≡ ok r)
  result_with-ok iface ipam entries =
      let (ips, e) = point_at_first_total ipam.ips entries in
      (record ipam { interfaces = iface ∷ []; ips = ips }, rw e)

  -- A result that can be made is passed on, with the port held.
  pub made_step :
      (id : ℕ) (r : Result CniResult) (f : CniResult → State Trace CniResult)
      → (made : CniResult) × (r ≡ ok made)
      → ((a : CniResult) → Ends (IsLedger start 1 (id ∷ [])) (Settled start) (f a))
      → Ends (IsLedger start 1 (id ∷ [])) (Settled start) (lift r >>= f)
  made_step id r f (made, e) k =
      Ends-bind-lift r f (λ a _. k a) (λ x t p h. cc (e, p)) (λ t p h. cc (e, p))

  pub made_end :
      (id : ℕ) (r : Result CniResult)
      → (made : CniResult) × (r ≡ ok made)
      → Ends (IsLedger start 1 (id ∷ [])) (Settled start) (lift r)
  unfolding lift
  made_end id r (made, e) = rw e (record { ends = λ t h. (id, h) })

  pub pure_end :
      (id : ℕ) (r : CniResult) → Ends (IsLedger start 1 (id ∷ [])) (Settled start) (pure r)
  unfolding pure
  pure_end id r = record { ends = λ t h. (id, h) }

  pub finish_add-Settled :
      (ipam : CniResult) (id : ℕ)
      → All IsEntry ipam.ips
      → Ends (IsLedger start 1 (id ∷ [])) (Settled start) (finish_add env conf args ipam id)
  unfolding finish_add pod_result vhost_result
  finish_add-Settled ipam id entries =
      Ends-branch (is_virtio conf) _ _ (λ _. made_end id _ (result_with-ok _ ipam entries))
        (λ _. made_step id _ _ (result_with-ok _ ipam entries) λ r.
          Ends-branch (same args.netns []) _ _ (λ _. pure_end id r) (λ _. attach_tap-Settled id r))
