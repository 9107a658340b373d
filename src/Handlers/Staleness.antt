-- ===== src/Handlers/Staleness.antt =====
-- HandleGC of pkg/cni/handler.go: which ports it takes for stale.
use grout_cni.Grout.{Iface}
use grout_cni.Base.{
  All, Bytes, same→eq, eq→same, has_prefix, has_prefix-append, mem_bytes, ℕ, ◌≡◌, refl, ◌≢◌, ◌↔◌,
  true, false, List, [], ◌∷◌, ◌++◌, arith,
}
use grout_cni.Host.{CmdArgs, Env}
use grout_cni.Config.{Attachment, PluginConf}
use grout_cni.PortName.{port_prefix, grout_port_name}
use grout_cni.Handlers.Gc.{valid_names, is_stale}

has_prefix_split : (s p : Bytes) → has_prefix s p ≡ true → (suffix : Bytes) × (s ≡ p ++ suffix)
unfolding has_prefix
has_prefix_split s [] h = (s, refl)
has_prefix_split [] (c ∷ p) h = ground arith
has_prefix_split (d ∷ s) (c ∷ p) h =
    let (suffix, e) = has_prefix_split s p (ground arith) in
    let first : d ≡ c = ground arith in (suffix, cc (first, e))

module _ (env : Env) (conf : PluginConf) (args : CmdArgs) where
  -- No attachment that the runtime still knows has a port of this name.
  abbrev pub IsUnknown : Bytes → List Attachment → Type 0
  IsUnknown name attachments =
      All (λ a. grout_port_name env.sha256 a.container_id a.if_name ≢ name) attachments

  valid_names-IsUnknown :
      (name : Bytes) (attachments : List Attachment)
      → mem_bytes name (valid_names env conf args attachments) ≡ false
      → IsUnknown name attachments
  unfolding mem_bytes
  valid_names-IsUnknown name [] h = tt
  valid_names-IsUnknown name (a ∷ rest) h = ground (
    arith,
    eq→same (grout_port_name env.sha256 a.container_id a.if_name) name,
    valid_names-IsUnknown name rest,
  )

  IsUnknown-valid_names :
      (name : Bytes) (attachments : List Attachment)
      → IsUnknown name attachments
      → mem_bytes name (valid_names env conf args attachments) ≡ false
  unfolding mem_bytes
  IsUnknown-valid_names name [] h = refl
  IsUnknown-valid_names name (a ∷ rest) h = ground (
    arith,
    same→eq (grout_port_name env.sha256 a.container_id a.if_name) name,
    IsUnknown-valid_names name rest,
  )

  -- HandleGC takes an interface for stale exactly if it is a member of the network's bridge, its name
  -- starts with the prefix of the plugin's ports, and no attachment that the runtime names as valid
  -- has a port of that name.
  pub is_stale_iff :
      (bridge_id : ℕ) (iface : Iface)
      → (is_stale env conf args bridge_id iface ≡ true) ↔ (
          (iface.domain ≡ bridge_id)
          × ((suffix : Bytes) × (iface.name ≡ port_prefix ++ suffix))
          × IsUnknown iface.name conf.valid_attachments)
  unfolding is_stale
  is_stale_iff bridge_id iface = (
    λ h. (
      ground arith,
      has_prefix_split iface.name port_prefix (ground arith),
      valid_names-IsUnknown iface.name conf.valid_attachments (ground arith),
    ),
    λ h.
        let (d, (suffix, p), u) = h in
        let q : has_prefix iface.name port_prefix ≡ true =
          rw p (has_prefix-append port_prefix suffix) in
        let m = IsUnknown-valid_names iface.name conf.valid_attachments u in ground (arith, q, m),
  )
