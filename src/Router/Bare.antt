-- ===== src/Router/Bare.antt =====
-- The ports of the plugin on grout: they have no addresses of their own, since the gateways go to the
-- bridge.
use grout_cni.Base.{Bytes, ℕ, ◌≡◌, refl, inl, inr, false, ◌∷◌, ◌++◌}
use grout_cni.Grout.{Iface, AddRequest}
use grout_cni.PortName.{port_prefix}
use grout_cni.Host.{Reply, value, failed, Event, iface_added, iface_deleted, Trace, Env}
use grout_cni.Router.{In, changes, assigns, Router}
use grout_cni.Router.Views.{View, Shows, Shows-kept}

module _ {env : Env} (r : Router env) where
  -- The ports of the plugin have no addresses.
  abbrev pub ArePortsBare : Trace → Type 0
  ArePortsBare t =
      (i : Iface)
      → In i (r.held t)
      → (suffix : Bytes) × (i.name ≡ port_prefix ++ suffix)
      → r.addressed t i.id ≡ false

  pub ArePortsBare-kept :
      (e : Event) (t : Trace)
      → changes e ≡ false
      → ((id : ℕ) → assigns id e ≡ false)
      → ArePortsBare t
      → ArePortsBare (e ∷ t)
  ArePortsBare-kept e t q a bare i m p =
      r.addressed-kept e i.id t (a i.id) (bare i (rw (r.held-kept e t q) at m) p)

  pub ArePortsBare-added :
      (req : AddRequest) (id : ℕ) (t : Trace)
      → env.add_iface req t ≡ value id
      → ArePortsBare t
      → ArePortsBare (iface_added req (value id) ∷ t)
  ArePortsBare-added req id t e bare i m p = elim ((r.held-added req id t e i).0 m) [
    | inl q ↦ rw q (r.addressed-added req id t e)
    | inr k ↦ r.addressed-kept (iface_added req (value id)) i.id t refl (bare i k p)
  ]

  pub ArePortsBare-deleted :
      (id : ℕ) (d : Reply (Unit {0})) (t : Trace)
      → env.del_iface id t ≡ d
      → ArePortsBare t
      → ArePortsBare (iface_deleted id d ∷ t)
  ArePortsBare-deleted id (value u) t e bare = λ i m p.
      r.addressed-kept (iface_deleted id (value u)) i.id t refl
        (bare i ((r.held-deleted id t e i).0 m).0 p)
  ArePortsBare-deleted id (failed x) t e bare =
      ArePortsBare-kept (iface_deleted id (failed x)) t refl (λ i. refl) bare

  -- The interfaces, and no addresses on the plugin's ports.
  abbrev pub At : View → Trace → Type 0
  At s t = Shows r t s × ArePortsBare t

  pub At-kept :
      (s : View) (e : Event) (t : Trace)
      → changes e ≡ false
      → ((id : ℕ) → assigns id e ≡ false)
      → At s t
      → At s (e ∷ t)
  At-kept s e t q a (h, bare) = (Shows-kept r {s = s} e t q h, ArePortsBare-kept e t q a bare)
