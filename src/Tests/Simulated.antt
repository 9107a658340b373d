-- ===== src/Tests/Simulated.antt =====
-- A grout that starts empty and keeps its interfaces and addresses by the transcript.
use grout_cni.Base.{
  ◌==◌, if◌then◌else◌, Bool-cases, Bytes, same, same→eq, eq→same, ℕ, ◌+◌, ◌≤◌, ◌<◌, ◌≡◌, refl, sym,
  ap, ◌∙◌, ◌≢◌, ◌↔◌, ◌⊎◌, inl, inr, Bool, true, false, ◌&&◌, ◌||◌, not, List, [], ◌∷◌, arith,
}
use grout_cni.Grout.{Iface, AddRequest}
use grout_cni.Host.{
  value, failed, Event, iface_added, iface_deleted, address_added, addresses_flushed, Trace, Env,
}
use grout_cni.Router.{In, made, changes, assigns, Router}
use grout_cni.Tests.Setting.{willing}
use mathlib.Core.Path.{subst}

abbrev pub taken : Bytes → ℕ → List Iface → Bool
taken name id [] = false
taken name id (i ∷ is) = same i.name name || i.id == id || i.domain == id || taken name id is

taken_none :
    (name : Bytes) (id : ℕ) (l : List Iface)
    → taken name id l ≡ false
    → (i : Iface) → In i l
    → (i.name ≢ name) × (i.id ≢ id) × (i.domain ≢ id)
taken_none name id [] h i m = absurd m
taken_none name id (x ∷ xs) h i (inl e) = ground (arith, eq→same x.name name)
taken_none name id (x ∷ xs) h i (inr m) = taken_none name id xs (ground arith) i m

abbrev pub above : List Iface → ℕ
above [] = 1
above (i ∷ is) = i.id + i.domain + above is

above_pos : (l : List Iface) → 0 < above l
above_pos [] = omega arith
above_pos (i ∷ is) = omega (arith, above_pos is)

abbrev pub remove_id : ℕ → List Iface → List Iface
remove_id id [] = []
remove_id id (i ∷ is) = if i.id == id then remove_id id is else i ∷ remove_id id is

pub In-remove_id :
    (id : ℕ) (l : List Iface) (i : Iface) → In i (remove_id id l) ↔ (In i l × (i.id ≢ id))
In-remove_id id [] i = (λ m. absurd m, λ m. m.0)
In-remove_id id (x ∷ xs) i = elim (Bool-cases (x.id == id)) [
  | inl e ↦ rw e (
    λ m. let (k, n) = (In-remove_id id xs i).0 m in (inr k, n),
    λ m. elim (m.0) [
      | inl q ↦ absurd (m.1 (ap (λ (z : Iface). z.id) (sym q) ∙ ground arith))
      | inr k ↦ (In-remove_id id xs i).1 (k, m.1)
    ],
  )
  | inr e ↦ rw e (
    λ m. elim m [
      | inl q ↦ (inl q, λ p. absurd (ground arith))
      | inr k ↦ let (k', n) = (In-remove_id id xs i).0 k in (inr k', n)
    ],
    λ m. elim (m.0) [ inl q ↦ inl q | inr k ↦ inr ((In-remove_id id xs i).1 (k, m.1)) ],
  )
]

abbrev pub held_by : Trace → List Iface
held_by [] = []
held_by (iface_added req (value id) ∷ t) =
    let rest = held_by t in if taken req.name id rest then rest else made req id ∷ rest
held_by (iface_deleted id (value u) ∷ t) = remove_id id (held_by t)
held_by (e ∷ t) = held_by t

abbrev pub addressed_by : Trace → ℕ → Bool
addressed_by [] id = false
addressed_by (address_added req r ∷ t) id = req.iface_id == id || addressed_by t id
addressed_by (addresses_flushed fid (value u) ∷ t) id = not (fid == id) && addressed_by t id
addressed_by (iface_added req (value new_id) ∷ t) id = not (new_id == id) && addressed_by t id
addressed_by (e ∷ t) id = addressed_by t id

pub free_none :
    (name : Bytes) (id : ℕ) (l : List Iface)
    → ((i : Iface) → In i l → i.name ≢ name)
    → above l ≤ id
    → taken name id l ≡ false
free_none name id [] h b = refl
free_none name id (x ∷ xs) h b =
    let n = h x (inl refl) in
    let rest = free_none name id xs (λ i m. h i (inr m)) (omega arith) in
    ground (arith, same→eq x.name name, above_pos xs)

-- A host where every call succeeds that can.
abbrev pub simulated : Env
simulated = record (willing []) {
  list_all = λ t. value (held_by t);
  add_iface = λ req t.
      if taken req.name (above (held_by t)) (held_by t)
      then failed 17
      else value (above (held_by t));
  del_iface = λ id t. if addressed_by t id then failed 16 else value tt;
}

abbrev pub IsUnique : List Iface → Type 0
IsUnique l = (i j : Iface) → In i l → In j l → (i.id ≡ j.id) ⊎ (i.name ≡ j.name) → i ≡ j

remove_id-IsUnique : (id : ℕ) (l : List Iface) → IsUnique l → IsUnique (remove_id id l)
remove_id-IsUnique id l u i j m n =
    u i j ((In-remove_id id l i).0 m).0 ((In-remove_id id l j).0 n).0

differ :
    (i j : Iface) (P : Type 0)
    → (j.name ≢ i.name) × (j.id ≢ i.id) × (j.domain ≢ i.id)
    → (i.id ≡ j.id) ⊎ (i.name ≡ j.name)
    → P
differ i j P (a, b, _) (inl e) = absurd (b (sym e))
differ i j P (a, b, _) (inr e) = absurd (a (sym e))

other_way : (i j : Iface) → (i.id ≡ j.id) ⊎ (i.name ≡ j.name) → (j.id ≡ i.id) ⊎ (j.name ≡ i.name)
other_way i j (inl e) = inl (sym e)
other_way i j (inr e) = inr (sym e)

cons-IsUnique :
    (x : Iface) (l : List Iface) → taken x.name x.id l ≡ false → IsUnique l → IsUnique (x ∷ l)
cons-IsUnique x l h u i j (inl p) (inl q) s = sym p ∙ q
cons-IsUnique x l h u i j (inl p) (inr n) s =
    differ i j (i ≡ j)
      (subst (λ (y : Iface). (j.name ≢ y.name) × (j.id ≢ y.id) × (j.domain ≢ y.id)) p
        (taken_none x.name x.id l h j n))
      s
cons-IsUnique x l h u i j (inr m) (inl q) s =
    differ j i (i ≡ j)
      (subst (λ (y : Iface). (i.name ≢ y.name) × (i.id ≢ y.id) × (i.domain ≢ y.id)) q
        (taken_none x.name x.id l h i m))
      (other_way i j s)
cons-IsUnique x l h u i j (inr m) (inr n) s = u i j m n s

pub held_by-IsUnique : (t : Trace) → IsUnique (held_by t)
held_by-IsUnique [] = λ i j m. absurd m
held_by-IsUnique (iface_added req (value id) ∷ t) =
    step (held_by-IsUnique t) (taken req.name id (held_by t)) refl
  where
    step :
        IsUnique (held_by t)
        → (b : Bool) → taken req.name id (held_by t) ≡ b
        → IsUnique (if b then held_by t else made req id ∷ held_by t)
    step u true e = u
    step u false e = cons-IsUnique (made req id) (held_by t) e u
held_by-IsUnique (iface_deleted id (value u) ∷ t) =
    remove_id-IsUnique id (held_by t) (held_by-IsUnique t)
held_by-IsUnique (_ ∷ t) = held_by-IsUnique t

pub held_by-kept : (e : Event) (t : Trace) → changes e ≡ false → held_by (e ∷ t) ≡ held_by t
held_by-kept (iface_added req (value id)) t h = cc h
held_by-kept (iface_deleted id (value u)) t h = cc h
held_by-kept _ t h = refl

pub addressed_by-kept :
    (e : Event) (id : ℕ) (t : Trace)
    → assigns id e ≡ false
    → addressed_by t id ≡ false
    → addressed_by (e ∷ t) id ≡ false
addressed_by-kept (address_added req r) id t h k = ground arith
addressed_by-kept (addresses_flushed fid (value u)) id t h k = ground arith
addressed_by-kept (iface_added req (value new_id)) id t h k = ground arith
addressed_by-kept _ id t h k = k

module _ (req : AddRequest) (id : ℕ) (t : Trace) (h : simulated.add_iface req t ≡ value id) where
  free : (taken req.name id (held_by t) ≡ false) × (above (held_by t) ≡ id)
  free = step (taken req.name (above (held_by t)) (held_by t)) refl h
    where
      step :
          (b : Bool)
          → taken req.name (above (held_by t)) (held_by t) ≡ b
          → (if b then failed 17 else value (above (held_by t))) ≡ value id
          → (taken req.name id (held_by t) ≡ false) × (above (held_by t) ≡ id)
      step true e q = cc q
      step false e q =
          let p : above (held_by t) ≡ id = cc q in
          (subst (λ (n : ℕ). taken req.name n (held_by t) ≡ false) p e, p)

  pub added :
      (i : Iface)
      → In i (held_by (iface_added req (value id) ∷ t)) ↔ ((i ≡ made req id) ⊎ In i (held_by t))
  added i = rw (free.0) (
    λ m. elim m [ inl e ↦ inl (sym e) | inr k ↦ inr k ],
    λ m. elim m [ inl e ↦ inl (sym e) | inr k ↦ inr k ],
  )

  pub is_fresh : (id ≢ 0) × ((i : Iface) → In i (held_by t) → (i.id ≢ id) × (i.domain ≢ id))
  is_fresh = (
    λ e. absurd (omega (arith, above_pos (held_by t), free.1)),
    λ i m. let (_, a, d) = taken_none req.name id (held_by t) free.0 i m in (a, d),
  )

pub not_self : (id : ℕ) (b : Bool) → (not (id == id) && b) ≡ false
not_self id b = ground arith

-- The simulated grout does what is documented.
abbrev pub simulated_router : Router simulated
simulated_router = record {
  held = held_by;
  addressed = addressed_by;
  listing = λ t. refl;
  flushing = λ id t. refl;
  deleting = λ i t m a. rw a;
  fresh = is_fresh;
  held-added = added;
  held-deleted = λ id t e i. In-remove_id id (held_by t) i;
  held-kept = held_by-kept;
  unique_ids = λ t i j m n e. held_by-IsUnique t i j m n (inl e);
  unique_names = λ t i j m n e. held_by-IsUnique t i j m n (inr e);
  addressed-added = λ req id t e. not_self id (addressed_by t id);
  addressed-flushed = λ id t. not_self id (addressed_by t id);
  addressed-kept = addressed_by-kept;
}
