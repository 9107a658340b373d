-- ===== src/Netns/Configure.antt =====
-- configurePodInterface of pkg/cni/netns.go: its calls, in their order.
use grout_cni.Base.{
  if◌then◌else◌, Bytes, same, same→eq, eq→same, Stage, finding_moved_link, setting_down, renaming,
  refinding_link, setting_mtu, setting_mac, configuring_iface, Result, ok, wrap, ℕ, ◌≡◌, refl, ap,
  ◌∙◌, ◌≢◌, ◌⊎◌, inl, inr, Bool, true, false, Option, none, some, [], ◌∷◌, ◌++◌, arith,
}
use grout_cni.Base.Integer.{ℤ, exceeds}
use grout_cni.Base.State.{State, pure, wrapped, branch, reify, continue, ◌>>=◌, ◌>>◌, bind-inv}
use grout_cni.Host.{Reply, value, failed, answer, CniResult}
use grout_cni.Netns.{
  Link, LinkEvent, link_looked_up, set_down, renamed, mtu_set, mac_set, configured, LinkTrace,
  Namespace, link_by_name, link_set_down, link_set_name, link_set_mtu, link_set_mac,
  configure_iface, pod_mac_from_result, rename_link, set_mtu, set_mac, fill_mac, configure_inside,
}

-- A call that succeeds leaves its event.
called :
    {A : Type 0} (c : Stage) (r : Reply A) (event : Reply A → LinkEvent) (t : LinkTrace) {a : A}
    {t' : LinkTrace}
    → ◌≡◌ {A = Result A × LinkTrace} (wrap c (answer r), event r ∷ t) (ok a, t')
    → t' ≡ event (value a) ∷ t
called c (value x) event t h = cc h
called c (failed x) event t h = cc h

-- The calls of each step that succeeds, the newest first.
abbrev pub mac_calls : ℕ → Option Bytes → LinkTrace
mac_calls link none = []
mac_calls link (some mac) = mac_set link mac (value tt) ∷ []

abbrev pub mtu_calls : ℕ → ℤ → LinkTrace
mtu_calls link mtu = if exceeds 0 mtu then mtu_set link mtu (value tt) ∷ [] else []

-- How the link `link` under the pod's name comes from the one found under the host's.
abbrev pub IsRenamed : Bytes → Bytes → Link → Link → LinkTrace → Type 0
IsRenamed host_name pod_name found link calls =
    ((host_name ≡ pod_name) × (link ≡ found) × (calls ≡ []))
    ⊎ ((host_name ≢ pod_name)
        × (calls
            ≡ link_looked_up pod_name (value link)
              ∷ renamed found.handle pod_name (value tt)
              ∷ set_down found.handle (value tt)
              ∷ []))

module _ (ns : Namespace) where
  set_mac_calls :
      (mac : Option Bytes) (link : Link) (t t' : LinkTrace)
      → set_mac ns mac link t ≡ (ok tt, t')
      → t' ≡ mac_calls link.handle mac ++ t
  unfolding set_mac link_set_mac ◌>>=◌
  set_mac_calls none link t t' h = cc h
  set_mac_calls (some mac) link t t' h =
      called setting_mac (ns.hardware link.handle mac t) (mac_set link.handle mac) t h

  set_mtu_calls :
      (mtu : ℤ) (link : Link) (t t' : LinkTrace)
      → set_mtu ns mtu link t ≡ (ok tt, t')
      → t' ≡ mtu_calls link.handle mtu ++ t
  unfolding set_mtu link_set_mtu ◌>>=◌
  set_mtu_calls mtu link t t' h = step (exceeds 0 mtu) h
    where
      step :
          (b : Bool)
          → branch b (wrapped setting_mtu (link_set_mtu ns link.handle mtu)) (pure tt) t
            ≡ (ok tt, t')
          → t' ≡ (if b then mtu_set link.handle mtu (value tt) ∷ [] else []) ++ t
      step true q = called setting_mtu (ns.mtu link.handle mtu t) (mtu_set link.handle mtu) t q
      step false q = cc q

  rename_link_calls :
      (host_name pod_name : Bytes) (found link : Link) (t t' : LinkTrace)
      → rename_link ns host_name pod_name found t ≡ (ok link, t')
      → (calls : LinkTrace) × IsRenamed host_name pod_name found link calls × (t' ≡ calls ++ t)
  unfolding rename_link link_set_down link_set_name link_by_name ◌>>=◌
  rename_link_calls host_name pod_name found link t t' h = step (same host_name pod_name) refl h
    where
      chain : State LinkTrace Link
      chain = do
        wrapped setting_down (link_set_down ns found.handle)
        wrapped renaming (link_set_name ns found.handle pod_name)
        wrapped refinding_link (link_by_name ns pod_name)

      step :
          (b : Bool)
          → same host_name pod_name ≡ b
          → branch b (pure found) chain t ≡ (ok link, t')
          → (calls : LinkTrace) × IsRenamed host_name pod_name found link calls × (t' ≡ calls ++ t)
      step true e q = ([], inl (same→eq host_name pod_name e, cc q, refl), cc q)
      step false e q =
          let (_, t1, e1, q1) =
            bind-inv (wrapped setting_down (link_set_down ns found.handle))
              (λ _.
                wrapped renaming (link_set_name ns found.handle pod_name)
                >> wrapped refinding_link (link_by_name ns pod_name))
              t q in
          let (_, t2, e2, q2) =
            bind-inv (wrapped renaming (link_set_name ns found.handle pod_name))
              (λ _. wrapped refinding_link (link_by_name ns pod_name)) t1 q1 in
          let c1 = called setting_down (ns.down found.handle t) (set_down found.handle) t e1 in
          let c2 =
            called renaming (ns.rename found.handle pod_name t1) (renamed found.handle pod_name) t1
              e2 in
          let c3 = called refinding_link (ns.by_name pod_name t2) (link_looked_up pod_name) t2 q2 in
          (
            link_looked_up pod_name (value link)
                ∷ renamed found.handle pod_name (value tt)
                ∷ set_down found.handle (value tt)
                ∷ [],
            inr (λ p. ground (arith, eq→same host_name pod_name), refl),
            cc (c1, c2, c3),
          )

  -- A pod interface that configurePodInterface configures: the link found under the host's name is set
  -- down and renamed, if the names differ, and looked up again; then its MTU is set, if there is one,
  -- and its MAC, if the result has an address; only then ConfigureIface brings it up. These are all
  -- the calls, each with success, but that the last look for the MAC may fail.
  pub configure_inside_lem :
      (show : Bytes → Bytes) (host_name pod_name : Bytes) (mtu : ℤ) (result r : CniResult)
      (t t' : LinkTrace)
      → configure_inside ns show host_name pod_name mtu result t ≡ (ok r, t')
      → (found : Link) × (link : Link) × (calls : LinkTrace) × (again : Reply Link) × IsRenamed
          host_name pod_name found link calls
        × (t'
            ≡ link_looked_up pod_name again
              ∷ configured pod_name result (value tt)
              ∷ (mac_calls link.handle (pod_mac_from_result result)
                  ++ (mtu_calls link.handle mtu
                      ++ (calls ++ (link_looked_up host_name (value found) ∷ t)))))
  unfolding configure_inside link_by_name configure_iface ◌>>=◌
  configure_inside_lem show host_name pod_name mtu result r t t' h =
      let (found, t1, e1, q1) =
        bind-inv (wrapped finding_moved_link (link_by_name ns host_name)) _ t h in
      let (link, t2, e2, q2) = bind-inv (rename_link ns host_name pod_name found) _ t1 q1 in
      let (_, t3, e3, q3) = bind-inv (set_mtu ns mtu link) _ t2 q2 in
      let (_, t4, e4, q4) = bind-inv (set_mac ns (pod_mac_from_result result) link) _ t3 q3 in
      let (_, t5, e5, q5) =
        bind-inv (wrapped configuring_iface (configure_iface ns pod_name result)) _ t4 q4 in
      let c1 = called finding_moved_link (ns.by_name host_name t) (link_looked_up host_name) t e1 in
      let (calls, renamed_as, c2) = rename_link_calls host_name pod_name found link t1 t2 e2 in
      let c3 = set_mtu_calls mtu link t2 t3 e3 in
      let c4 = set_mac_calls (pod_mac_from_result result) link t3 t4 e4 in
      let c5 =
        called configuring_iface (ns.configure pod_name result t4) (configured pod_name result) t4
          e5 in
      let l = last_look (ns.by_name pod_name t5) t5 q5 in
      (
        found,
        link,
        calls,
        ns.by_name pod_name t5,
        renamed_as,
        l
            ∙ ap (λ (x : LinkTrace). link_looked_up pod_name (ns.by_name pod_name t5) ∷ x)
                (c5
                  ∙ ap (λ (x : LinkTrace). configured pod_name result (value tt) ∷ x)
                      (c4
                        ∙ ap
                            (λ (x : LinkTrace).
                              mac_calls link.handle (pod_mac_from_result result) ++ x)
                            (c3
                              ∙ ap (λ (x : LinkTrace). mtu_calls link.handle mtu ++ x)
                                  (c2 ∙ ap (λ (x : LinkTrace). calls ++ x) c1)))),
      )
    where
      last_look :
          (rep : Reply Link) (t5 : LinkTrace)
          → continue
              (reify (answer rep))
              (λ again. pure (fill_mac ns show again result))
              (link_looked_up pod_name rep ∷ t5)
            ≡ (ok r, t')
          → t' ≡ link_looked_up pod_name rep ∷ t5
      last_look (value link) t5 q = cc q
      last_look (failed x) t5 q = cc q
