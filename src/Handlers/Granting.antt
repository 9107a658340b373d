-- ===== src/Handlers/Granting.antt =====
-- HandleAdd of pkg/cni/handler.go: what a successful call leaves behind, the lock included.
use mathlib.Core.Path.{subst}
use grout_cni.Base.{
  Bytes, ipam_add_stage, converting_ipam_result, converting_result, invoking_ipam, Result, ok, err,
  panic, ℕ, ◌≡◌, refl, inl, inr, ◌∷◌,
}
use grout_cni.Base.State.{lift, wrapped, bind-inv, wrapped-inv, lift-inv}
use grout_cni.Base.Keeps.{Keeps-lift, Keeps-wrapped}
use grout_cni.Base.Ends.{Ends}
use grout_cni.Host.{
  value, answer, CniResult, CmdArgs, Event, unlocked, closed, ipam_added, Trace, Env, ipam_add,
}
use grout_cni.Host.Replies.{ipam_add-inv}
use grout_cni.Config.{PluginConf}
use grout_cni.Lock.Outcome.{with_lock-outcome}
use grout_cni.Handlers.Add.{add_converted, add_body, handle_add}
use grout_cni.Handlers.Locking.{Keeps-add_converted}
use grout_cni.Handlers.Attaching.{
  Occurs, Occurs-IsStable, carry, AllAssigned-later, IsAttached, add_converted-IsAttached,
}

module _ (env : Env) (conf : PluginConf) (args : CmdArgs) where
  -- The lease that the attachment was given, and what was done with it.
  abbrev pub IsGranted : Trace → Type 0
  IsGranted t =
      (raw : Bytes) × (ipam : CniResult) × Occurs (ipam_added (value raw)) t
      × (answer (env.convert raw) ≡ ok ipam)
      × IsAttached env conf args ipam t

  IsGranted-later : (e : Event) (t : Trace) → IsGranted t → IsGranted (e ∷ t)
  IsGranted-later e t (raw, ipam, o, c, (bridge_id, id, gws, b, g, a, p)) = (
    raw,
    ipam,
    inr o,
    c,
    (bridge_id, id, gws, b, g, AllAssigned-later env conf args bridge_id gws e t a, inr p),
  )

  add_body-IsGranted :
      (r : CniResult) (t t' : Trace) → add_body env conf args t ≡ (ok r, t') → IsGranted t'
  unfolding add_body
  add_body-IsGranted r t t' h =
      let (raw, t1, e1, q1) =
        bind-inv (wrapped ipam_add_stage (wrapped invoking_ipam (ipam_add env args))) _ t h in
      let convert =
        wrapped converting_ipam_result
          (wrapped converting_result (lift (answer (env.convert raw)))) in
      let (ipam, t2, e2, q2) = bind-inv convert (add_converted env conf args) t1 q1 in
      let lease = ipam_added (value raw) in
      let o : Occurs lease t1 =
        rw (ipam_add-inv env args t (wrapped-inv _ _ t (wrapped-inv _ _ t e1))) (inl refl) in
      let o2 =
        carry env conf args {P = Occurs lease} convert t1
          (Keeps-wrapped converting_ipam_result _
            (Keeps-wrapped converting_result _ (Keeps-lift (answer (env.convert raw)))))
          o e2 in
      let st = Occurs-IsStable lease in
      (
        raw,
        ipam,
        carry env conf args {P = Occurs lease} (add_converted env conf args ipam) t2
            (Keeps-add_converted env conf args st ipam) o2 q2,
        lift-inv (answer (env.convert raw)) t1 (wrapped-inv _ _ t1 (wrapped-inv _ _ t1 e2)),
        add_converted-IsAttached env conf args ipam r t2 t' q2,
      )

  abbrev IsGrantedIf : Result CniResult → Trace → Type 0
  IsGrantedIf (ok r) t = IsGranted t
  IsGrantedIf (err e) t = Unit
  IsGrantedIf panic t = Unit

  add_body-IsGrantedIf : Ends (λ t. Unit {0}) IsGrantedIf (add_body env conf args)
  add_body-IsGrantedIf = record { ends = λ t u. step t (add_body env conf args t) refl }
    where
      step :
          (t : Trace) (out : Result CniResult × Trace)
          → add_body env conf args t ≡ out
          → IsGrantedIf out.0 out.1
      step t (ok r, t') e = add_body-IsGranted r t t' e
      step t (err x, t') e = tt
      step t (panic, t') e = tt

  released :
      (fd : ℕ) (r : Result CniResult) (t : Trace)
      → IsGrantedIf r t
      → IsGrantedIf r (closed fd ∷ unlocked fd ∷ t)
  released fd (ok r) t h =
      IsGranted-later (closed fd) (unlocked fd ∷ t) (IsGranted-later (unlocked fd) t h)
  released fd (err x) t h = tt
  released fd panic t h = tt

  -- After a successful ADD the transcript holds a lease from the IPAM plugin, whose result
  -- converts to one for which gatewaysFor chooses gateways; each of them, put with success on the
  -- bridge whose id ensureBridge returns for the configured name; and the port that the attachment
  -- asks for, created as a member of that bridge. From an empty transcript, the calls are its own.
  pub handle_add_attaches :
      (r : CniResult) (t t' : Trace) → handle_add env conf args t ≡ (ok r, t') → IsGranted t'
  unfolding handle_add
  handle_add_attaches r t t' h =
      subst (λ (x : Result CniResult × Trace). IsGrantedIf x.0 x.1) h
        ((with_lock-outcome env (record { untouched = λ e t l u. u }) (add_body env conf args)
            conf.grout_socket_path add_body-IsGrantedIf (λ e t u. tt) released).ends
          t tt)
