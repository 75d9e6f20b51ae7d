-- ===== src/Gateway/Loop/Safety.antt =====
-- A whole round of `VioletGW::run`: its timers, the burst and the end of the round.
use violet_gw.Prelude.{
  ℕ, suc, Option, some, List, [], ◌∷◌, ◌≡◌, refl, arith, ap, ◌+◌, ◌*◌, ◌≤◌, length,
}
use violet_gw.Dpdk.{Dpdk, Mbuf}
use violet_gw.Forward.Types.{ForwardConfig}
use violet_gw.Arp.{ArpConfig}
use violet_gw.Gateway.Loop.{
  no_batch, Port, LoopState, io_rx_burst, with_pool, run_timers, finish_round, run_round,
}
use violet_gw.Gateway.Loop.Waiting.{waiting, Fit}
use violet_gw.Gateway.Loop.Rounds.{run_timers-Fit}
use violet_gw.Gateway.Loop.Overflow.{serve_all-Served}

pub length-with_pool :
    (pool : ℕ → Option (List ℕ)) (i : ℕ) (rx : List Mbuf) → length (with_pool pool i rx) ≡ length rx
length-with_pool pool i [] = refl
length-with_pool pool i (m ∷ rx) = ap suc (length-with_pool pool (i + 1) rx)

module _ (dpdk : Dpdk) (cfg : ForwardConfig) (acfg : ArpConfig) {S : Type 0} (port : Port S) where
  -- A round returns without a fault, if twice the packets that it receives with those that wait are at
  -- most 33, the session table is valid and the queues stand under different addresses; both still
  -- hold after it.
  pub run_round-Fit :
      (pool : ℕ → Option (List ℕ)) (now : ℕ) (st : LoopState S)
      → Fit st.gw
      → waiting st.gw.arp_pending + 2 * length (port.recv_burst st.port io_rx_burst).0
        ≤ io_rx_burst + 1
      → (r : LoopState S × List Mbuf) × (run_round dpdk cfg acfg port pool now st ≡ some r)
        × Fit r.0.gw
  unfolding run_round finish_round
  run_round-Fit pool now st fit few =
      let t = run_timers now st.timers st.gw in
      let (fit', kept) = run_timers-Fit now st.timers st.gw fit in
      let rx = (port.recv_burst st.port io_rx_burst).0 in
      let (s, e, fit'') =
        serve_all-Served dpdk cfg acfg (with_pool pool 0 rx) now t.0 no_batch fit'
          (omega (arith, kept, few, length-with_pool pool 0 rx)) in
      rw (e, run_round) (_, refl, fit'')
