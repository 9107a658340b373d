-- ===== src/Handlers/Rollback.antt =====
-- HandleAdd of pkg/cni/handler.go: what a CNI ADD leaves behind on every outcome.
pub mod Ledger
pub mod Steps
use mathlib.Core.Bool.{false≢true}
use grout_cni.Base.{
  Bytes, ipam_add_stage, converting_ipam_result, converting_result, ensuring_bridge,
  bridge_address_add, vhost_socket_dir, invoking_ipam, Result, ok, err, panic, wrap, ℕ, ◌≡◌, refl,
  inl, inr, true, List, [], ◌∷◌, arith,
}
use grout_cni.Base.State.{State, lift, wrapped, on_error, ◌>>=◌}
use grout_cni.Base.Keeps.{Keeps, Keeps-wrapped}
use grout_cni.Base.Ends.{Ends, Ends-bind, Ends-wrapped, Ends-bind-lift}
use grout_cni.Config.{PluginConf}
use grout_cni.Host.{
  Reply, value, failed, answer, CniResult, CmdArgs, Event, made_dir, opened, flocked, unlocked,
  closed, Trace, Env, ipam_del,
}
use grout_cni.Ipam.{gateways_for}
use grout_cni.Ipam.Gateways.{gateways_for-IsEntry, gateways_for-ne-err}
use grout_cni.Handlers.Add.{add_converted, add_body, handle_add}
use grout_cni.Lock.Outcome.{is_locking, IsUntouched, with_lock-outcome}
use grout_cni.Handlers.Rollback.Ledger.{
  IsLedger, ensure_bridge-IsLedger, add_gateways-IsLedger, make_socket_dir-IsLedger, IsConversion,
  Settled,
}
use grout_cni.Handlers.Rollback.Steps.{
  Held, ipam_add-Held, Held-on_error, Held-wrap, PortedOrFree, port_step, finish_add-Settled,
}

module _ (env : Env) (conf : PluginConf) (args : CmdArgs) (start : Trace) where
  held_rest :
      {A : Type 0} (m : State Trace A) (f : A → State Trace CniResult)
      → Keeps (IsLedger start 1 []) m
      → ((a : A) → Ends (IsLedger start 1 []) (Settled start) (f a))
      → Ends (IsLedger start 1 []) (Settled start) (on_error (ipam_del env args) m >>= f)
  held_rest m f k l =
      Ends-bind {R = Held start} _ _ (Held-on_error env args m k) l (λ e t h. inl h) (λ t h. h)

  converted-Settled :
      (ipam : CniResult)
      → Ends (IsLedger start 1 []) (Settled start) (add_converted env conf args ipam)
  unfolding add_converted
  converted-Settled ipam =
      held_rest _ _ (Keeps-wrapped ensuring_bridge _ (ensure_bridge-IsLedger env conf.bridge))
        λ bridge_id.
          Ends-bind-lift (gateways_for ipam) _
            (λ gws e.
              held_rest _ _
                (Keeps-wrapped bridge_address_add _
                  (add_gateways-IsLedger env conf args bridge_id gws))
                λ _.
                  held_rest _ _
                    (Keeps-wrapped vhost_socket_dir _ (make_socket_dir-IsLedger env conf args))
                    λ _.
                      Ends-bind {R = PortedOrFree env conf args start} _ _
                        (port_step env conf args start bridge_id)
                        (λ id.
                          finish_add-Settled env conf args start ipam id
                            (gateways_for-IsEntry ipam gws e))
                        (λ x t h. inl h) (λ t h. absurd h))
            (λ x t e h. absurd (gateways_for-ne-err ipam x e)) (λ t e h. h)

  -- An error in front of the conversion leaves nothing, and one in it leaves the reservation.
  abbrev Converted : Result CniResult → Trace → Type 0
  Converted (ok ipam) t = IsLedger start 1 [] t
  Converted (err e) t = IsConversion e × IsLedger start 1 [] t
  Converted panic t = ⊥

  convert-Converted :
      (raw : Bytes)
      → Ends (IsLedger start 1 []) Converted (
          wrapped converting_ipam_result
            (wrapped converting_result (lift (answer (env.convert raw)))))
  unfolding wrapped lift
  convert-Converted raw = record { ends = λ t h. step (env.convert raw) t h }
    where
      step :
          (r : Reply CniResult) (t : Trace)
          → IsLedger start 1 [] t
          → Converted (wrap converting_ipam_result (wrap converting_result (answer r))) t
      step (value ipam) t h = h
      step (failed e) t h = (tt, h)

  add_body-Settled : Ends (IsLedger start 0 []) (Settled start) (add_body env conf args)
  unfolding add_body
  add_body-Settled =
      Ends-bind {R = Held start} _ _
        (Ends-wrapped ipam_add_stage _
          (Ends-wrapped invoking_ipam _ (ipam_add-Held env args) (Held-wrap start invoking_ipam))
          (Held-wrap start ipam_add_stage))
        (λ raw.
          Ends-bind {R = Converted} _ _ (convert-Converted raw) converted-Settled (λ e t h. inr h)
            (λ t h. absurd h))
        (λ e t h. inl h) (λ t h. h)

  IsLedger-IsUntouched : (n : ℕ) (own : List ℕ) → IsUntouched (IsLedger start n own)
  IsLedger-IsUntouched n own = record { untouched = step }
    where
      step :
          (e : Event) (t : Trace)
          → is_locking e ≡ true
          → IsLedger start n own t
          → IsLedger start n own (e ∷ t)
      step (made_dir path r) t l h = record { balance = h.balance; ports_as = h.ports_as }
      step (opened path r) t l h = record { balance = h.balance; ports_as = h.ports_as }
      step (flocked fd r) t l h = record { balance = h.balance; ports_as = h.ports_as }
      step (unlocked fd) t l h = record { balance = h.balance; ports_as = h.ports_as }
      step (closed fd) t l h = record { balance = h.balance; ports_as = h.ports_as }
      step _ t l h = absurd (false≢true l)

  released_lock :
      (fd : ℕ) (r : Result CniResult) (t : Trace)
      → Settled start r t
      → Settled start r (closed fd ∷ unlocked fd ∷ t)
  released_lock fd (ok a) t (id, h) = (id, record { balance = h.balance; ports_as = h.ports_as })
  released_lock fd (err e) t (inl h) = inl (record { balance = h.balance; ports_as = h.ports_as })
  released_lock fd (err e) t (inr (c, h)) =
      inr (c, record { balance = h.balance; ports_as = h.ports_as })
  released_lock fd panic t h = record { balance = h.balance; ports_as = h.ports_as }

  handle_add-Ends : Ends (IsLedger start 0 []) (Settled start) (handle_add env conf args)
  unfolding handle_add
  handle_add-Ends =
      with_lock-outcome env (IsLedger-IsUntouched 0 []) (add_body env conf args)
        conf.grout_socket_path add_body-Settled (λ e t h. inl h) released_lock

  -- A CNI ADD on every outcome, counted in reservations that IPAM made and was not asked to
  -- release, and in ports that grout created and was not asked to delete. One that succeeds
  -- leaves one of each more than before. One that fails leaves neither, but the reservation may
  -- stay if it was the conversion of the IPAM result that failed. One that panics leaves the
  -- reservation and no port.
  pub handle_add_settles :
      Settled start (handle_add env conf args start).0 (handle_add env conf args start).1
  handle_add_settles =
      handle_add-Ends.ends start (record { balance = omega arith; ports_as = refl })
