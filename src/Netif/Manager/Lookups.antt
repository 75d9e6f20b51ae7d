-- ===== src/Netif/Manager/Lookups.antt =====
-- The interfaces that `DpdkNetifManager::init` makes, by `get_netif`.
use violet_gw.Prelude.{
  ℕ, zero, suc, true, false, Option, none, some, ◌≡◌, refl, sym, ap, subst, arith, ◌∙◌, ◌+◌, ◌==◌,
  ◌&&◌, ltb, leb, ◌≤◌, ◌<◌, if◌then◌else◌, Map, lookup, nat_eq, lookup-insert, Bool-cases,
  Option-cases, inl, inr,
}
use violet_gw.Datapath.{Params, DatapathMode, DatapathConfig}
use violet_gw.Ring.{RteRing}
use violet_gw.Netif.{DpdkNetif}
use violet_gw.Netif
use violet_gw.Netif.Manager.{
  Eal, NetifManager, new_manager, Starting, is_enabled, insert_new, start_port, start_ports,
  launch_params, launch_port, init, get_netif, starting, started, is_available,
}

lookup-insert_new :
    {R : Type 0} (k i : ℕ) (d : DpdkNetif R) (m : Map ℕ (DpdkNetif R))
    → lookup i m ≡ none
    → lookup k (insert_new i d m) ≡ (if i == k then some d else lookup k m)
lookup-insert_new k i d m free = rw (free, insert_new) (lookup-insert i k d m)

module _ {R W : Type 0} (rte : RteRing R) (eal : Eal W) (cfg : DatapathConfig) where
  launch_params-netifs :
      (u : Params) (i : ℕ) (st : Starting R W) → (launch_params rte eal u i st).netifs ≡ st.netifs
  unfolding launch_port
  launch_params-netifs (Params.pipeline_params p) i st = ground arith
  launch_params-netifs (Params.rtc_params r) i st = refl

  pub turn-netifs :
      (mode : DatapathMode) (i : ℕ) (st st' : Starting R W)
      → elim mode [
        | DatapathMode.rtc ↦ some st
        | DatapathMode.pipeline ↦ some (launch_params rte eal cfg.u i st)
      ]
        ≡ some st'
      → st'.netifs ≡ st.netifs
  turn-netifs DatapathMode.rtc i st st' e =
      let same : st ≡ st' = cc e in ap (λ x. x.netifs) (sym same)
  turn-netifs DatapathMode.pipeline i st st' e =
      let same : launch_params rte eal cfg.u i st ≡ st' = cc e in
      ap (λ x. x.netifs) (sym same) ∙ launch_params-netifs cfg.u i st

  -- A turn for a port that has no interface yet adds its interface and no other.
  start_port-netifs :
      (i : ℕ) (st st' : Starting R W)
      → lookup i st.netifs ≡ none
      → start_port rte eal cfg i st ≡ some st'
      → (d : DpdkNetif R) × (Netif.init rte i cfg ≡ some d)
        × (st'.netifs ≡ insert_new i d st.netifs)
  unfolding start_port
  start_port-netifs i st st' free e = elim (Option-cases (Netif.init rte i cfg)) [
    | inl exit ↦ cc (rw (exit, start_port) at e)
    | inr (d, made) ↦ (
      d,
      made,
      turn-netifs cfg.mode i (record st { netifs = insert_new i d st.netifs }) st'
          (rw (made, start_port) at e),
    )
  ]

  -- What the turns from `i` on leave under a port.
  found : ℕ → ℕ → ℕ → Starting R W → Option (DpdkNetif R)
  found port i n st =
      if leb i port && ltb port (i + n) && is_enabled cfg.port_mask port
      then Netif.init rte port cfg
      else lookup port st.netifs

  skipped :
      (n i port : ℕ) (st : Starting R W)
      → is_enabled cfg.port_mask i ≡ false
      → found port (i + 1) n st ≡ found port i (suc n) st
  unfolding found
  skipped n i port st off = elim (Bool-cases (i == port)) [
    | inl same ↦
        let e : i ≡ port = ground arith in
        let off' = subst (λ k. is_enabled cfg.port_mask k ≡ false) e off in rw off' (ground arith)
    | inr other ↦ ground arith
  ]

  added :
      (n i port : ℕ) (st st₁ : Starting R W) (d : DpdkNetif R)
      → is_enabled cfg.port_mask i ≡ true
      → Netif.init rte i cfg ≡ some d
      → lookup port st₁.netifs ≡ (if i == port then some d else lookup port st.netifs)
      → found port (i + 1) n st₁ ≡ found port i (suc n) st
  unfolding found
  added n i port st st₁ d on made there = elim (Bool-cases (i == port)) [
    | inl same ↦
        let e : i ≡ port = ground arith in
        let on' = subst (λ k. is_enabled cfg.port_mask k ≡ true) e on in
        let made' = subst (λ k. Netif.init rte k cfg ≡ some d) e made in
        rw (on', made', there) (ground arith)
    | inr other ↦ rw there (ground arith)
  ]

  later :
      (i k : ℕ) (d : DpdkNetif R) (m : Map ℕ (DpdkNetif R))
      → i < k
      → lookup k m ≡ none
      → (if i == k then some d else lookup k m) ≡ none
  later i k d m h free = ground arith

  start_ports-found :
      (n i port : ℕ) (st st' : Starting R W)
      → ((k : ℕ) → i ≤ k → lookup k st.netifs ≡ none)
      → start_ports rte eal cfg i n st ≡ some st'
      → lookup port st'.netifs ≡ found port i n st
  unfolding start_ports found
  start_ports-found zero i port st st' fresh e =
      let same : st ≡ st' = cc e in ap (λ x. lookup port x.netifs) (sym same) ∙ ground arith
  start_ports-found (suc n) i port st st' fresh e = elim (Bool-cases (is_enabled cfg.port_mask i)) [
    | inr off ↦
        let x =
          start_ports-found n (i + 1) port st st' (λ k h. fresh k (omega arith))
            (rw (off, start_ports) at e) in
        x ∙ skipped n i port st off
    | inl on ↦ elim (Option-cases (start_port rte eal cfg i st)) [
      | inl exit ↦ cc (rw (exit, start_ports) at (rw (on, start_ports) at e))
      | inr (st₁, turn) ↦
          let (d, made, netifs) = start_port-netifs i st st₁ (fresh i (omega arith)) turn in
          let there : (k : ℕ)
              → lookup k st₁.netifs ≡ (if i == k then some d else lookup k st.netifs) =
            λ k.
              ap (λ m. lookup k m) netifs
              ∙ lookup-insert_new k i d st.netifs (fresh i (omega arith)) in
          let x =
            start_ports-found n (i + 1) port st₁ st'
              (λ k h. there k ∙ later i k d st.netifs (omega arith) (fresh k (omega arith)))
              (rw (turn, start_ports) at (rw (on, start_ports) at e)) in
          x ∙ added n i port st st₁ d on made (there port)
    ]
  ]

  -- Where the turns from `i` on end, each enabled port among them has been made.
  start_ports_made :
      (n i port : ℕ) (st st' : Starting R W)
      → start_ports rte eal cfg i n st ≡ some st'
      → i ≤ port
      → port < i + n
      → is_enabled cfg.port_mask port ≡ true
      → (d : DpdkNetif R) × (Netif.init rte port cfg ≡ some d)
  unfolding start_ports start_port
  start_ports_made zero i port st st' e low high on = absurd (omega arith)
  start_ports_made (suc n) i port st st' e low high on =
      elim (Bool-cases (is_enabled cfg.port_mask i)) [
        | inr off ↦ elim (Bool-cases (i == port)) [
          | inl same ↦
              let q : i ≡ port = ground arith in
              cc (subst (λ k. is_enabled cfg.port_mask k ≡ false) q off, on)
          | inr other ↦
              start_ports_made n (i + 1) port st st' (rw (off, start_ports) at e) (ground arith)
                (omega arith) on
        ]
        | inl enabled ↦ elim (Option-cases (start_port rte eal cfg i st)) [
          | inl exit ↦ cc (rw (exit, start_ports) at (rw (enabled, start_ports) at e))
          | inr (st₁, turn) ↦ elim (Bool-cases (i == port)) [
            | inr other ↦
                start_ports_made n (i + 1) port st₁ st'
                  (rw (turn, start_ports) at (rw (enabled, start_ports) at e)) (ground arith)
                  (omega arith) on
            | inl same ↦
                let q : i ≡ port = ground arith in
                elim (Option-cases (Netif.init rte i cfg)) [
                  | inl none_made ↦ cc (rw (none_made, start_port) at turn)
                  | inr (d, made) ↦ (d, subst (λ k. Netif.init rte k cfg ≡ some d) q made)
                ]
          ]
        ]
      ]

  pub init_made :
      (mg mg' : NetifManager R) (w w' : W) (port : ℕ)
      → init rte eal cfg mg w ≡ some (mg', w')
      → port < 32
      → is_enabled cfg.port_mask port ≡ true
      → (d : DpdkNetif R) × (Netif.init rte port cfg ≡ some d)
  unfolding init
  init_made mg mg' w w' port e low on = elim (Bool-cases (is_available cfg)) [
    | inr off ↦ cc (rw (off, init) at e)
    | inl ok ↦
        let st = starting rte eal mg w in
        elim (Option-cases (start_ports rte eal cfg 0 32 st)) [
          | inl exit ↦ cc (rw (exit, init) at (rw (ok, init) at e))
          | inr (st', ports) ↦
              start_ports_made 32 0 port st st' ports (omega arith) (omega arith) on
        ]
  ]

  found_all :
      (w : W) (port : ℕ)
      → found port 0 32 (starting rte eal new_manager w)
        ≡ (if ltb port 32 && is_enabled cfg.port_mask port then Netif.init rte port cfg else none)
  unfolding found lookup
  found_all w port = ground arith

  -- A new manager whose `init` returns has the interface of each port below 32 that the mask has, as
  -- `DpdkNetif::init` makes it, and none for any other port.
  pub get_netif-init :
      (w : W) (mg : NetifManager R) (w' : W) (port : ℕ)
      → init rte eal cfg new_manager w ≡ some (mg, w')
      → get_netif port mg
        ≡ (if ltb port 32 && is_enabled cfg.port_mask port then Netif.init rte port cfg else none)
  unfolding init get_netif found
  get_netif-init w mg w' port e = elim (Bool-cases (is_available cfg)) [
    | inr off ↦ cc (rw (off, init) at e)
    | inl on ↦
        let st = starting rte eal new_manager w in
        elim (Option-cases (start_ports rte eal cfg 0 32 st)) [
          | inl exit ↦ cc (rw (exit, init) at (rw (on, init) at e))
          | inr (st', ports) ↦
              let same : started rte eal cfg st' ≡ (mg, w') =
                cc (rw (ports, init) at (rw (on, init) at e)) in
              let x = start_ports-found 32 0 port st st' (unfold lookup in λ k h. refl) ports in
              ap (λ p. lookup port p.0.netifs) (sym same) ∙ x ∙ found_all w port
        ]
  ]
