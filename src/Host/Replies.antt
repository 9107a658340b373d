-- ===== src/Host/Replies.antt =====
-- A call of the host that succeeded has its answer in the transcript.
use grout_cni.Base.{Bytes, Result, ok, ℕ, ◌≡◌, ◌∷◌}
use grout_cni.Host.{
  Reply, value, failed, answer, CmdArgs, ipam_added, iface_added, address_added, Trace, Env,
  ipam_add, interface_add, address_add,
}
use grout_cni.Grout.{AddRequest, AddressRequest}

module _ (env : Env) (args : CmdArgs) where
  pub address_add-inv :
      (req : AddressRequest) (t : Trace) {u : Unit {0}} {t' : Trace}
      → address_add env req t ≡ (ok u, t')
      → t' ≡ address_added req (value tt) ∷ t
  unfolding address_add
  address_add-inv req t {u} {t'} h = step (env.add_address req t) h
    where
      step :
          (r : Reply (Unit {0}))
          → ◌≡◌ {A = Result (Unit {0}) × Trace} (answer r, address_added req r ∷ t) (ok u, t')
          → t' ≡ address_added req (value tt) ∷ t
      step (value x) q = cc q
      step (failed x) q = cc q

  pub ipam_add-inv :
      (t : Trace) {raw : Bytes} {t' : Trace}
      → ipam_add env args t ≡ (ok raw, t')
      → t' ≡ ipam_added (value raw) ∷ t
  unfolding ipam_add
  ipam_add-inv t {raw} {t'} h = step (env.add_ipam args.stdin_data t) h
    where
      step :
          (r : Reply Bytes)
          → ◌≡◌ {A = Result Bytes × Trace} (answer r, ipam_added r ∷ t) (ok raw, t')
          → t' ≡ ipam_added (value raw) ∷ t
      step (value x) q = cc q
      step (failed x) q = cc q

  pub interface_add-inv :
      (req : AddRequest) (t : Trace) {id : ℕ} {t' : Trace}
      → interface_add env req t ≡ (ok id, t')
      → t' ≡ iface_added req (value id) ∷ t
  unfolding interface_add
  interface_add-inv req t {id} {t'} h = step (env.add_iface req t) h
    where
      step :
          (r : Reply ℕ)
          → ◌≡◌ {A = Result ℕ × Trace} (answer r, iface_added req r ∷ t) (ok id, t')
          → t' ≡ iface_added req (value id) ∷ t
      step (value x) q = cc q
      step (failed x) q = cc q
