-- ===== src/Client/Payload.antt =====
-- InterfaceAdd of pkg/groutapi/client.go: its payload as a whole.
use grout_cni.Base.{
  leb, ◌==◌, if◌then◌else◌, ==_iff, length, take, Bytes, vxlan_required, vxlan_local,
  devargs_too_long, not_ipv4, new, Result, ok, err, wrap, ◌^◌, ◌<◌, ◌≡◌, refl, sym, ap, ◌∙◌, ◌≢◌,
  ◌⊎◌, inl, inr, Bool, true, false, Option, none, some, [], ◌∷◌, arith,
}
use grout_cni.Base.Buffer.{
  write_at, slice, put_uint16, put_uint32, uint16_le, uint32_le, uint16_le-put_uint16,
  uint32_le-put_uint32, length-write_at, slice-write_at_behind,
}
use grout_cni.Grout.{type_bridge, type_vxlan, VxlanConfig, AddRequest}
use grout_cni.Net.{to4}
use grout_cni.Client.Interfaces.{
  bridge_mac, iface_base, put_l3_addr, vxlan_info, devargs_for, port_info, iface_payload,
}
use grout_cni.Client.Encoding.{
  IsAddRequest, fields, requested, fields-write_at, take_all, fields-iface_base, slice-write_at,
  slice-written, length-iface_base, to4-length,
}

-- The section behind the base, at its offsets: a MAC for a bridge; the VXLAN's numbers and its local
-- IPv4 address, tagged as one; or the devargs of a port, with room for a NUL.
abbrev pub HasInfo : AddRequest → Bytes → Type 0
HasInfo req b =
    ((req.type ≡ type_bridge) × (length b ≡ 432) × (slice 296 6 b ≡ bridge_mac req.name))
    ⊎ (((req.type ≡ type_vxlan)
          × (length b ≡ 328)
          × ((v : VxlanConfig) × (req.vxlan ≡ some v)
              × (uint32_le (slice 292 4 b) ≡ v.vni)
              × (uint16_le (slice 296 2 b) ≡ v.encap_vrf_id)
              × (uint16_le (slice 298 2 b) ≡ v.dst_port)
              × (slice 300 1 b ≡ 2 ∷ [])
              × (to4 v.local_addr ≡ some (slice 304 4 b))))
        ⊎ ((req.type ≢ type_bridge)
            × (req.type ≢ type_vxlan)
            × (length b ≡ 466)
            × (length (devargs_for req) < 128)
            × (slice 306 (length (devargs_for req)) b ≡ devargs_for req)))

pub record IsVxlan (v : VxlanConfig) : Type 0 where
  pub vni_fits : v.vni < 2 ^ 32
  pub vrf_fits : v.encap_vrf_id < 2 ^ 16
  pub port_fits : v.dst_port < 2 ^ 16

module _ (req : AddRequest) (h : IsAddRequest req) where
  bridge_part :
      req.type ≡ type_bridge
      → (fields (write_at 296 (bridge_mac req.name) (iface_base req 432)) ≡ requested req)
        × HasInfo req (write_at 296 (bridge_mac req.name) (iface_base req 432))
  bridge_part t = (
    fields-write_at 296 _ _ (omega arith) ∙ fields-iface_base req 396 h,
    inl (
      t,
      length-write_at 296 _ _ ∙ length-iface_base req 432,
      slice-written 296 6 (bridge_mac req.name) (iface_base req 432) (unfold bridge_mac in refl)
          (omega (arith, length-iface_base req 432)),
    ),
  )

  port_part :
      req.type ≢ type_bridge
      → req.type ≢ type_vxlan
      → length (devargs_for req) < 128
      → (fields (write_at 306 (devargs_for req) (iface_base req 466)) ≡ requested req)
        × HasInfo req (write_at 306 (devargs_for req) (iface_base req 466))
  port_part t t' l = (
    fields-write_at 306 _ _ (omega arith) ∙ fields-iface_base req 430 h,
    inr (
        inr (
          t,
          t',
          length-write_at 306 _ _ ∙ length-iface_base req 466,
          l,
          slice-write_at 306 (devargs_for req) (iface_base req 466)
              (omega (arith, length-iface_base req 466)),
        )),
  )

  -- The VXLAN section is written in this order.
  abbrev with_numbers : VxlanConfig → Bytes
  with_numbers v = write_at 298 (put_uint16 v.dst_port) (
      write_at 296 (put_uint16 v.encap_vrf_id)
        (write_at 292 (put_uint32 v.vni) (iface_base req 328)))

  abbrev with_address : VxlanConfig → Bytes → Bytes
  with_address v ip4 = write_at 304 ip4 (write_at 300 (2 ∷ []) (with_numbers v))

  length-with_address : (v : VxlanConfig) (ip4 : Bytes) → length (with_address v ip4) ≡ 328
  length-with_address v ip4 = simp (length-write_at, length-iface_base)

  fields-with_address :
      (v : VxlanConfig) (ip4 : Bytes) → fields (with_address v ip4) ≡ requested req
  fields-with_address v ip4 =
      fields-write_at 304 _ _ (omega arith)
      ∙ fields-write_at 300 _ _ (omega arith)
      ∙ fields-write_at 298 _ _ (omega arith)
      ∙ fields-write_at 296 _ _ (omega arith)
      ∙ fields-write_at 292 _ _ (omega arith)
      ∙ fields-iface_base req 292 h

  vni-with_address :
      (v : VxlanConfig) (ip4 : Bytes) → slice 292 4 (with_address v ip4) ≡ put_uint32 v.vni
  vni-with_address v ip4 =
      slice-write_at_behind 292 4 304 _ _ (omega arith)
      ∙ slice-write_at_behind 292 4 300 _ _ (omega arith)
      ∙ slice-write_at_behind 292 4 298 _ _ (omega arith)
      ∙ slice-write_at_behind 292 4 296 _ _ (omega arith)
      ∙ slice-written 292 4 (put_uint32 v.vni) (iface_base req 328) refl
          (omega (arith, length-iface_base req 328))

  vrf-with_address :
      (v : VxlanConfig) (ip4 : Bytes) → slice 296 2 (with_address v ip4) ≡ put_uint16 v.encap_vrf_id
  vrf-with_address v ip4 =
      let buf = write_at 292 (put_uint32 v.vni) (iface_base req 328) in
      let e : length buf ≡ 328 = simp (length-write_at, length-iface_base) in
      slice-write_at_behind 296 2 304 _ _ (omega arith)
      ∙ slice-write_at_behind 296 2 300 _ _ (omega arith)
      ∙ slice-write_at_behind 296 2 298 _ _ (omega arith)
      ∙ slice-written 296 2 (put_uint16 v.encap_vrf_id) buf refl (omega (arith, e))

  port-with_address :
      (v : VxlanConfig) (ip4 : Bytes) → slice 298 2 (with_address v ip4) ≡ put_uint16 v.dst_port
  port-with_address v ip4 =
      let buf =
        write_at 296 (put_uint16 v.encap_vrf_id)
          (write_at 292 (put_uint32 v.vni) (iface_base req 328)) in
      let e : length buf ≡ 328 = simp (length-write_at, length-iface_base) in
      slice-write_at_behind 298 2 304 _ _ (omega arith)
      ∙ slice-write_at_behind 298 2 300 _ _ (omega arith)
      ∙ slice-written 298 2 (put_uint16 v.dst_port) buf refl (omega (arith, e))

  family-with_address : (v : VxlanConfig) (ip4 : Bytes) → slice 300 1 (with_address v ip4) ≡ 2 ∷ []
  family-with_address v ip4 =
      let e : length (with_numbers v) ≡ 328 = simp (length-write_at, length-iface_base) in
      slice-write_at_behind 300 1 304 _ _ (omega arith)
      ∙ slice-written 300 1 (2 ∷ []) (with_numbers v) refl (omega (arith, e))

  address-with_address :
      (v : VxlanConfig) (ip4 : Bytes) → length ip4 ≡ 4 → slice 304 4 (with_address v ip4) ≡ ip4
  address-with_address v ip4 l =
      let buf = write_at 300 (2 ∷ []) (with_numbers v) in
      let e : length buf ≡ 328 = simp (length-write_at, length-iface_base) in
      slice-written 304 4 ip4 buf l (omega (arith, e))

  vxlan_part :
      (v : VxlanConfig) (payload : Bytes)
      → IsVxlan v
      → req.type ≡ type_vxlan
      → req.vxlan ≡ some v
      → vxlan_info v (iface_base req 328) ≡ ok payload
      → (fields payload ≡ requested req) × HasInfo req payload
  unfolding vxlan_info put_l3_addr
  vxlan_part v payload k t e p = step (to4 v.local_addr) refl p
    where
      step :
          (o : Option Bytes)
          → to4 v.local_addr ≡ o
          → wrap vxlan_local
              (elim o [ none ↦ err (new not_ipv4) | some ip4 ↦ ok (with_address v (take 4 ip4)) ])
            ≡ ok payload
          → (fields payload ≡ requested req) × HasInfo req payload
      step none q r = cc r
      step (some ip4) q r =
          let l = to4-length v.local_addr ip4 q in
          let a : payload ≡ with_address v ip4 = cc (r, take_all 4 ip4 (omega (arith, l))) in
          rw a (
            fields-with_address v ip4,
            inr (
                inl (
                  t,
                  length-with_address v ip4,
                  (
                    v,
                    e,
                    ap uint32_le (vni-with_address v ip4) ∙ uint32_le-put_uint32 v.vni k.vni_fits,
                    ap uint16_le (vrf-with_address v ip4)
                        ∙ uint16_le-put_uint16 v.encap_vrf_id k.vrf_fits,
                    ap uint16_le (port-with_address v ip4)
                        ∙ uint16_le-put_uint16 v.dst_port k.port_fits,
                    family-with_address v ip4,
                    q ∙ ap some (sym (address-with_address v ip4 l)),
                  ),
                )),
          )

  -- A payload that InterfaceAdd makes of a request whose name fits its field and has no NUL, and
  -- whose numbers fit theirs, read at grout's offsets, asks for an interface that is up, without
  -- an id, of this type, name, domain and MTU, and carries the section of its type; it has the
  -- size of the two together.
  pub iface_payload_lem :
      (payload : Bytes)
      → ((v : VxlanConfig) → req.vxlan ≡ some v → IsVxlan v)
      → iface_payload req ≡ ok payload
      → (fields payload ≡ requested req) × HasInfo req payload
  unfolding iface_payload port_info
  iface_payload_lem payload k p =
      by_type (req.type == type_bridge) (req.type == type_vxlan)
        (leb 128 (length (devargs_for req))) refl refl refl p
    where
      vxlan : Option VxlanConfig → Result Bytes
      vxlan o = elim o [
        | none ↦ err (new vxlan_required)
        | some v ↦ vxlan_info v (iface_base req 328)
      ]

      by_config :
          (o : Option VxlanConfig)
          → req.vxlan ≡ o
          → req.type ≡ type_vxlan
          → vxlan o ≡ ok payload
          → (fields payload ≡ requested req) × HasInfo req payload
      by_config none e t q = cc q
      by_config (some v) e t q = vxlan_part v payload (k v e) t e q

      by_type :
          (b x l : Bool)
          → (req.type == type_bridge) ≡ b
          → (req.type == type_vxlan) ≡ x
          → leb 128 (length (devargs_for req)) ≡ l
          → (if b
              then ok (write_at 296 (bridge_mac req.name) (iface_base req 432))
              else if x
              then vxlan req.vxlan
              else if l
              then err (new devargs_too_long)
              else ok (write_at 306 (devargs_for req) (iface_base req 466)))
            ≡ ok payload
          → (fields payload ≡ requested req) × HasInfo req payload
      by_type true x l e1 e2 e3 q =
          let a : payload ≡ write_at 296 (bridge_mac req.name) (iface_base req 432) = cc q in
          rw a (bridge_part ((==_iff req.type type_bridge).0 e1))
      by_type false true l e1 e2 e3 q =
          by_config req.vxlan refl ((==_iff req.type type_vxlan).0 e2) q
      by_type false false true e1 e2 e3 q = cc q
      by_type false false false e1 e2 e3 q =
          let a : payload ≡ write_at 306 (devargs_for req) (iface_base req 466) = cc q in
          rw a (port_part (ground arith) (ground arith) (ground arith))
