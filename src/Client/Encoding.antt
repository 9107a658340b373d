-- ===== src/Client/Encoding.antt =====
-- InterfaceAdd of pkg/groutapi/client.go: the base of gr_iface, read at grout's offsets.
use grout_cni.Net.{to4, to16}
use grout_cni.Base.{
  ◌==◌, ==_iff, Bool-cases, length, take, All, length-replicate, Bytes, length-drop, ℕ, zero, suc,
  ◌+◌, ◌^◌, ◌≤◌, ◌<◌, ◌≡◌, refl, ap, ◌∙◌, inl, inr, some, [], ◌∷◌, ◌++◌, arith,
}
use grout_cni.Base.Buffer.{
  copy, write_at, slice, zeros, uint16_le, uint16_le-put_uint16, length-write_at,
  slice-write_at_behind, get_or-slice,
}
use grout_cni.Grout.{Iface, AddRequest}
use grout_cni.Client.Interfaces.{if_name_size, c_string, decode_iface, iface_base}
use grout_cni.Client.Layout.{IsNonzero}

-- What an AddRequest can hold: the name fits its field, without a NUL.
pub record IsAddRequest (req : AddRequest) : Type 0 where
  pub domain_fits : req.domain_id < 2 ^ 16
  pub mtu_fits : req.mtu < 2 ^ 16
  pub name_text : All IsNonzero req.name
  pub name_fits : length req.name ≤ if_name_size

-- The fields of a gr_iface that the client sets.
pub record Fields : Type 0 where
  pub iface : Iface
  pub flags : ℕ
  pub mtu : ℕ

abbrev pub fields : Bytes → Fields
fields b = record {
  iface = decode_iface b;
  flags = uint16_le (slice 4 2 b);
  mtu = uint16_le (slice 8 2 b);
}

-- An interface that is up, without an id.
abbrev pub requested : AddRequest → Fields
requested req = record {
  iface = record { id = 0; type = req.type; name = req.name; domain = req.domain_id };
  flags = 1;
  mtu = req.mtu;
}

-- Nothing behind the base changes the fields.
pub fields-write_at :
    (off : ℕ) (src buf : Bytes) → 36 ≤ off → fields (write_at off src buf) ≡ fields buf
unfolding decode_iface
fields-write_at off src buf h = rw (
  get_or-slice 2 (write_at off src buf),
  get_or-slice 2 buf,
  slice-write_at_behind 0 2 off src buf (omega arith),
  slice-write_at_behind 2 1 off src buf (omega arith),
  slice-write_at_behind 4 2 off src buf (omega arith),
  slice-write_at_behind 8 2 off src buf (omega arith),
  slice-write_at_behind 12 2 off src buf (omega arith),
  slice-write_at_behind 20 16 off src buf (omega arith),
)

zeros_split : (n k : ℕ) → zeros (n + k) ≡ zeros n ++ zeros k
zeros_split zero k = let e : 0 + k ≡ k = omega arith in ap zeros e
zeros_split (suc n) k =
    let e : suc n + k ≡ suc (n + k) = omega arith in
    ap zeros e ∙ ap (λ (l : Bytes). 0 ∷ l) (zeros_split n k)

pub take_all : (n : ℕ) (b : Bytes) → length b ≤ n → take n b ≡ b
take_all zero [] h = refl
take_all zero (x ∷ b) h = absurd (omega arith)
take_all (suc n) [] h = refl
take_all (suc n) (x ∷ b) h = ap (λ (l : Bytes). x ∷ l) (take_all n b (omega arith))

c_string-copy :
    (n : ℕ) (name junk : Bytes)
    → All IsNonzero name
    → length name ≤ n
    → c_string (take n (copy (zeros n ++ junk) name)) ≡ name
unfolding c_string copy
c_string-copy zero [] [] h l = refl
c_string-copy zero [] (x ∷ junk) h l = refl
c_string-copy zero (c ∷ name) junk h l = absurd (omega arith)
c_string-copy (suc n) [] junk h l = refl
c_string-copy (suc n) (c ∷ name) junk (hc, h) l =
    let rest = c_string-copy n name junk h (omega arith) in ground (arith, rest)

pub fields-iface_base :
    (req : AddRequest) (rest : ℕ)
    → IsAddRequest req
    → fields (iface_base req (36 + rest)) ≡ requested req
unfolding iface_base decode_iface write_at copy
fields-iface_base req rest h =
    let name = c_string-copy 16 req.name (zeros rest) h.name_text h.name_fits in
    let whole = take_all 16 req.name h.name_fits in
    elim (Bool-cases (req.domain_id == 0)) [
      | inl d ↦ elim (Bool-cases (req.mtu == 0)) [
        | inl m ↦
            rw (zeros_split 36 rest, d, m, whole, name)
              (rw ((==_iff req.domain_id 0).0 d, (==_iff req.mtu 0).0 m))
        | inr m ↦
            rw (zeros_split 36 rest, d, m, whole, name, uint16_le-put_uint16 req.mtu h.mtu_fits)
              (rw ((==_iff req.domain_id 0).0 d))
      ]
      | inr d ↦ elim (Bool-cases (req.mtu == 0)) [
        | inl m ↦
            rw
              (
                zeros_split 36 rest,
                d,
                m,
                whole,
                name,
                uint16_le-put_uint16 req.domain_id h.domain_fits,
              )
              (rw ((==_iff req.mtu 0).0 m))
        | inr m ↦ rw (
          zeros_split 36 rest,
          d,
          m,
          whole,
          name,
          uint16_le-put_uint16 req.domain_id h.domain_fits,
          uint16_le-put_uint16 req.mtu h.mtu_fits,
        )
      ]
    ]

-- What was written in full is read back.
pub slice-write_at :
    (off : ℕ) (src buf : Bytes)
    → off + length src ≤ length buf
    → slice off (length src) (write_at off src buf) ≡ src
unfolding write_at copy
slice-write_at zero [] buf h = refl
slice-write_at zero (s ∷ ss) [] h = absurd (omega arith)
slice-write_at zero (s ∷ ss) (d ∷ ds) h =
    ap (λ (l : Bytes). s ∷ l) (slice-write_at zero ss ds (omega arith))
slice-write_at (suc off) src [] h = absurd (omega arith)
slice-write_at (suc off) src (d ∷ ds) h = slice-write_at off src ds (omega arith)

pub slice-written :
    (off n : ℕ) (src buf : Bytes)
    → length src ≡ n
    → off + n ≤ length buf
    → slice off n (write_at off src buf) ≡ src
slice-written off n src buf e h = rw (← e) (slice-write_at off src buf (omega (arith, e)))

pub length-iface_base : (req : AddRequest) (size : ℕ) → length (iface_base req size) ≡ size
unfolding iface_base
length-iface_base req size = elim (Bool-cases (req.domain_id == 0)) [
  | inl d ↦ elim (Bool-cases (req.mtu == 0)) [
    | inl m ↦ rw (d, m) (simp (length-write_at, length-replicate))
    | inr m ↦ rw (d, m) (simp (length-write_at, length-replicate))
  ]
  | inr d ↦ elim (Bool-cases (req.mtu == 0)) [
    | inl m ↦ rw (d, m) (simp (length-write_at, length-replicate))
    | inr m ↦ rw (d, m) (simp (length-write_at, length-replicate))
  ]
]

pub to4-length : (ip ip4 : Bytes) → to4 ip ≡ some ip4 → length ip4 ≡ 4
unfolding to4
to4-length ip ip4 h = ground (arith, length-drop 12 ip)

pub to16-length : (ip ip6 : Bytes) → to16 ip ≡ some ip6 → length ip6 ≡ 16
unfolding to16
to16-length ip ip6 h = ground (arith)
