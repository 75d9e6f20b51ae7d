-- ===== src/Netif/Launches.antt =====
-- The lcores of `DpdkNetifManager::init`, where two ports share a pair of them.
use violet_gw.Prelude.{
  ℕ, zero, suc, true, false, some, ◌≡◌, ◌≢◌, ◌⊎◌, refl, sym, ap, subst, arith, ◌∙◌, ◌+◌, ◌==◌, ◌≤◌,
  ◌<◌, Bool-cases, Option-cases, inl, inr,
}
use violet_gw.Datapath.{DatapathMode, Params, PipelineParams, DatapathConfig}
use violet_gw.Ring.{RteRing}
use violet_gw.Netif.{DpdkNetif}
use violet_gw.Netif
use violet_gw.Netif.Manager.{
  Task, port_of, Eal, IsEal, NetifManager, Starting, is_enabled, insert_new, launch_port,
  start_port, start_ports, starting, started, is_available, init,
}

module _ {R W : Type 0} (rte : RteRing R) (eal : Eal W) (law : IsEal eal) where
  abbrev pub Busy : W → ℕ → Type 0
  Busy w l = (t : Task) × (law.runs w l ≡ some t)

  -- No lcore runs a task of the port.
  unfoldable pub Unserved : ℕ → W → Type 0
  Unserved port w = (l : ℕ) (t : Task) → law.runs w l ≡ some t → port_of t ≢ port

  launch-Busy : (w : W) (l k : ℕ) (t : Task) → Busy w k → Busy (eal.remote_launch w l t) k
  launch-Busy w l k t (old, e) = elim (Option-cases (law.runs w l)) [
    | inr (x, running) ↦ rw (law.busy w l t x running) (old, e)
    | inl idle ↦ elim (Bool-cases (k == l)) [
      | inl same ↦
          let q : k ≡ l = ground arith in
          (t, ap (law.runs (eal.remote_launch w l t)) q ∙ law.launched w l t idle)
      | inr other ↦ (old, law.others w l k t idle other ∙ e)
    ]
  ]

  launch_self : (w : W) (l : ℕ) (t : Task) → Busy (eal.remote_launch w l t) l
  launch_self w l t = elim (Option-cases (law.runs w l)) [
    | inr (x, running) ↦ rw (law.busy w l t x running) (x, running)
    | inl idle ↦ (t, law.launched w l t idle)
  ]

  launch-Unserved :
      (port l : ℕ) (t : Task) (w : W)
      → (port_of t ≢ port) ⊎ Busy w l
      → Unserved port w
      → Unserved port (eal.remote_launch w l t)
  unfolding Unserved
  launch-Unserved port l t w may u k t' e = elim (Option-cases (law.runs w l)) [
    | inr (x, running) ↦ u k t' (subst (λ y. law.runs y k ≡ some t') (law.busy w l t x running) e)
    | inl idle ↦ elim (Bool-cases (k == l)) [
      | inr other ↦ u k t' (sym (law.others w l k t idle other) ∙ e)
      | inl same ↦
          let q : k ≡ l = ground arith in
          let here : t ≡ t' = cc (law.launched w l t idle, e, q) in
          elim may [
            | inl foreign ↦ subst (λ x. port_of x ≢ port) here foreign
            | inr (x, running) ↦ cc (idle, running)
          ]
    ]
  ]

  -- Where the loop is: before the first port, between the two, or past them.
  abbrev Where : ℕ → ℕ → ℕ → Starting R W → Type 0
  Where a b i st =
      ((i ≤ a) × (st.cnt ≡ 0))
      ⊎ (((a < i) × (i ≤ b) × (st.cnt ≡ 1) × Busy st.world st.rx_id × Busy st.world st.tx_id)
          ⊎ (b < i))

  module _ (cfg : DatapathConfig) (p : PipelineParams) (a b : ℕ)
      (mode : cfg.mode ≡ DatapathMode.pipeline) (params : cfg.u ≡ Params.pipeline_params p)
      (rx : p.launch_rx_lcore ≡ true) (tx : p.launch_tx_lcore ≡ true) (less : a < b)
      (first : is_enabled cfg.port_mask a ≡ true)
      (only : (k : ℕ) → k < b → k ≢ a → is_enabled cfg.port_mask k ≡ false) where
    abbrev world_after : ℕ → Starting R W → W
    world_after i st =
        eal.remote_launch (eal.remote_launch st.world st.rx_id (Task.recv i)) st.tx_id (Task.send i)

    launch_port-world :
        (i : ℕ) (st : Starting R W) → (launch_port rte eal p i st).world ≡ world_after i st
    unfolding launch_port
    launch_port-world i st = rw (rx, tx) (ground arith)

    launch_port-Unserved :
        (i : ℕ) (st : Starting R W)
        → (i ≢ b) ⊎ (Busy st.world st.rx_id × Busy st.world st.tx_id)
        → Unserved b st.world
        → Unserved b (launch_port rte eal p i st).world
    launch_port-Unserved i st (inl foreign) u = rw (launch_port-world i st) (
        launch-Unserved b st.tx_id (Task.send i) _ (inl foreign)
          (launch-Unserved b st.rx_id (Task.recv i) st.world (inl foreign) u))
    launch_port-Unserved i st (inr (busy_rx, busy_tx)) u = rw (launch_port-world i st) (
        launch-Unserved b st.tx_id (Task.send i) _
          (inr (launch-Busy st.world st.rx_id st.tx_id (Task.recv i) busy_tx))
          (launch-Unserved b st.rx_id (Task.recv i) st.world (inr busy_rx) u))

    launch_port-first :
        (st : Starting R W) → st.cnt ≡ 0 → Where a b (a + 1) (launch_port rte eal p a st)
    unfolding launch_port
    launch_port-first st e =
        let w = eal.remote_launch st.world st.rx_id (Task.recv a) in
        rw (rx, tx)
          (rw e (
            inr (
              inl (
                omega arith,
                omega arith,
                refl,
                launch-Busy w st.tx_id st.rx_id (Task.send a)
                    (launch_self st.world st.rx_id (Task.recv a)),
                launch_self w st.tx_id (Task.send a),
              ))))

    Reaches : ℕ → Starting R W → Type 0
    Reaches i st = Where a b i st × Unserved b st.world

    at_other : (i : ℕ) → i < b → i ≢ a → is_enabled cfg.port_mask i ≡ true → ⊥
    at_other i low other on = cc (only i low other, on)

    launch_port-Reaches :
        (i : ℕ) (st : Starting R W)
        → is_enabled cfg.port_mask i ≡ true
        → Reaches i st
        → Reaches (i + 1) (launch_port rte eal p i st)
    unfolding Reaches
    launch_port-Reaches i st on (inl (low, zero_cnt), u) = elim (Bool-cases (i == a)) [
      | inr other ↦ absurd (at_other i (ground arith) (ground arith) on)
      | inl same ↦
          let q : a ≡ i = ground arith in
          subst
            (λ k.
              Where a b (k + 1) (launch_port rte eal p k st)
              × Unserved b (launch_port rte eal p k st).world)
            q (launch_port-first st zero_cnt, launch_port-Unserved a st (inl (omega arith)) u)
    ]
    launch_port-Reaches i st on (inr (inl (low, high, cnt, busy_rx, busy_tx)), u) =
        elim (Bool-cases (i == b)) [
          | inr other ↦ absurd (at_other i (ground arith) (omega arith) on)
          | inl same ↦
              (inr (inr (ground arith)), launch_port-Unserved i st (inr (busy_rx, busy_tx)) u)
        ]
    launch_port-Reaches i st on (inr (inr past), u) =
        (inr (inr (omega arith)), launch_port-Unserved i st (inl (omega arith)) u)

    skip-Reaches :
        (i : ℕ) (st : Starting R W)
        → is_enabled cfg.port_mask i ≡ false
        → Reaches i st
        → Reaches (i + 1) st
    unfolding Reaches
    skip-Reaches i st off (inl (low, zero_cnt), u) = elim (Bool-cases (i == a)) [
      | inr other ↦ (inl (ground arith, zero_cnt), u)
      | inl same ↦
          let q : i ≡ a = ground arith in
          cc (subst (λ k. is_enabled cfg.port_mask k ≡ false) q off, first)
    ]
    skip-Reaches i st off (inr (inl (low, high, cnt, busy_rx, busy_tx)), u) =
        elim (Bool-cases (i == b)) [
          | inr other ↦ (inr (inl (omega arith, ground arith, cnt, busy_rx, busy_tx)), u)
          | inl same ↦ (inr (inr (ground arith)), u)
        ]
    skip-Reaches i st off (inr (inr past), u) = (inr (inr (omega arith)), u)

    start_port-Reaches :
        (i : ℕ) (st st' : Starting R W)
        → is_enabled cfg.port_mask i ≡ true
        → start_port rte eal cfg i st ≡ some st'
        → Reaches i st
        → Reaches (i + 1) st'
    unfolding start_port
    start_port-Reaches i st st' on e r = elim (Option-cases (Netif.init rte i cfg)) [
      | inl exit ↦ cc (rw (exit, start_port) at e)
      | inr (d, made) ↦
          let st₁ : Starting R W = record st { netifs = insert_new i d st.netifs } in
          let same : launch_port rte eal p i st₁ ≡ st' =
            cc (rw params at (rw mode at (rw (made, start_port) at e))) in
          subst (λ s. Reaches (i + 1) s) same (launch_port-Reaches i st₁ on (unfold Reaches in r))
    ]

    start_ports-Reaches :
        (n i : ℕ) (st st' : Starting R W)
        → start_ports rte eal cfg i n st ≡ some st'
        → Reaches i st
        → Reaches (i + n) st'
    unfolding start_ports
    start_ports-Reaches zero i st st' e r =
        let same : st ≡ st' = cc e in
        let q : i ≡ i + 0 = omega arith in
        subst (λ k. Reaches k st') q (subst (λ s. Reaches i s) same r)
    start_ports-Reaches (suc n) i st st' e r =
        let q : i + 1 + n ≡ i + suc n = omega arith in
        elim (Bool-cases (is_enabled cfg.port_mask i)) [
          | inr off ↦
              subst (λ k. Reaches k st') q
                (start_ports-Reaches n (i + 1) st st' (rw (off, start_ports) at e)
                  (skip-Reaches i st off r))
          | inl on ↦ elim (Option-cases (start_port rte eal cfg i st)) [
            | inl exit ↦ cc (rw (exit, start_ports) at (rw (on, start_ports) at e))
            | inr (st₁, turn) ↦
                subst (λ k. Reaches k st') q
                  (start_ports-Reaches n (i + 1) st₁ st'
                    (rw (turn, start_ports) at (rw (on, start_ports) at e))
                    (start_port-Reaches i st st₁ on turn r))
          ]
        ]

    -- In the pipeline with both launches, where of the ports below `b` only `a` is enabled: the
    -- port `b` gets the lcores of `a`, which run already, so `init` leaves it without a receiving
    -- and without a sending task on any lcore, if none of its tasks ran before.
    pub init-Unserved :
        (mg mg' : NetifManager R) (w w' : W)
        → Unserved b w
        → init rte eal cfg mg w ≡ some (mg', w')
        → Unserved b w'
    unfolding init Reaches
    init-Unserved mg mg' w w' u e = elim (Bool-cases (is_available cfg)) [
      | inr off ↦ cc (rw (off, init) at e)
      | inl on ↦
          let st = starting rte eal mg w in
          elim (Option-cases (start_ports rte eal cfg 0 32 st)) [
            | inl exit ↦ cc (rw (exit, init) at (rw (on, init) at e))
            | inr (st', ports) ↦
                let same : started rte eal cfg st' ≡ (mg', w') =
                  cc (rw (ports, init) at (rw (on, init) at e)) in
                let world : st'.world ≡ w' = ap (λ x. x.1) same in
                subst (Unserved b) world
                  (start_ports-Reaches 32 0 st st' ports (inl (omega arith, refl), u)).1
          ]
    ]
