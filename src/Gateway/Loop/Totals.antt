-- ===== src/Gateway/Loop/Totals.antt =====
-- The account of the packets over a whole round of `VioletGW::run` in vgw.cpp. The port keeps the number
-- of packets that it has taken.
use violet_gw.Prelude.{
  ℕ, zero, suc, Option, some, List, [], ◌∷◌, ◌++◌, ◌≡◌, refl, arith, sym, ◌+◌, ◌==◌, ◌≤◌, length,
  drop, length-append, length-drop, Bool-cases, Option-cases, nat_eq, inl, inr, subst,
}
use violet_gw.Dpdk.{Dpdk, Mbuf}
use violet_gw.Forward.Types.{ForwardConfig}
use violet_gw.Arp.{ArpConfig}
use violet_gw.Gateway.{VioletGw}
use violet_gw.Gateway.Loop.{
  Batch, no_batch, serve_all, Port, send_loop, send_all, LoopState, io_rx_burst, Timers, with_pool,
  run_timers, finish_round, run_round,
}
use violet_gw.Gateway.Loop.Waiting.{waiting, Fit}
use violet_gw.Gateway.Loop.Counts.{count}
use violet_gw.Gateway.Loop.Accounts.{lost_in, probes_in, serve_all-Accounts}
use violet_gw.Gateway.Loop.Rounds.{run_timers-Fit}
use violet_gw.Gateway.Loop.Safety.{length-with_pool}

-- What the loop relies on of a port: it keeps the number of packets that it has taken, which are no
-- more than it is given, and receiving takes none.
pub record IsPort {S : Type 0} (port : Port S) : Type 0 where
  pub taken : S → ℕ
  pub receives : (s : S) (n : ℕ) → taken (port.recv_burst s n).1 ≡ taken s
  pub within : (s : S) (tx : List Mbuf) → (port.send_burst s tx).0 ≤ length tx
  pub sends :
      (s : S) (tx : List Mbuf) → taken (port.send_burst s tx).1 ≡ taken s + (port.send_burst s tx).0

module _ {S : Type 0} (port : Port S) (p : IsPort port) where
  send_loop-taken :
      (fuel : ℕ) (s : S) (tx : List Mbuf)
      → length (send_loop port fuel s tx).0 + p.taken (send_loop port fuel s tx).1
        ≡ length tx + p.taken s
  unfolding send_loop
  send_loop-taken zero s tx = refl
  send_loop-taken (suc fuel) s [] = refl
  send_loop-taken (suc fuel) s (m ∷ tx) =
      let r = port.send_burst s (m ∷ tx) in
      let within = p.within s (m ∷ tx) in
      let sends = p.sends s (m ∷ tx) in
      elim (Bool-cases (r.0 == 0)) [
        | inl over ↦
            let none_sent : r.0 ≡ 0 = ground arith in
            rw (over, send_loop) (omega (arith, sends, none_sent))
        | inr on ↦
            let later = send_loop-taken fuel r.1 (drop r.0 (m ∷ tx)) in
            rw (on, send_loop) (omega (arith, later, sends, within, length-drop r.0 (m ∷ tx)))
      ]

module _ (dpdk : Dpdk) (cfg : ForwardConfig) (acfg : ArpConfig) {S : Type 0} (port : Port S) where
  -- The packets that a round leaves: taken by the port, waiting or freed.
  abbrev pub held : IsPort port → LoopState S × List Mbuf → ℕ
  held p r = p.taken r.0.port + waiting r.0.gw.arp_pending + length r.1

  finish_round_total :
      (p : IsPort port) (timers : Timers) (freed : List Mbuf) (s : S) (x : VioletGw × Batch)
      → ((finish_round dpdk cfg acfg port timers freed s x).0.gw ≡ x.0)
        × (held p (finish_round dpdk cfg acfg port timers freed s x)
            ≡ p.taken s + length freed + count x)
  unfolding finish_round send_all
  finish_round_total p timers freed s (gw, b) =
      let sent = send_loop-taken port p (length b.tx) s b.tx in
      let rest = (send_loop port (length b.tx) s b.tx).0 in
      (
        refl,
        omega (
          arith,
          sent,
          length-append ((freed ++ b.freed) ++ rest) b.drop,
          length-append (freed ++ b.freed) rest,
          length-append freed b.freed,
        ),
      )

  -- Over a port that counts the packets that it takes, a valid session table and queues under different
  -- addresses: after a round that returns, the number of packets that wait, that the port has taken or that
  -- the round has freed, with those that were to wait for the address 0 and are lost, is exactly the
  -- number of those that waited, that the port had taken before and that were received, with the
  -- probes that the received packets cause; and the table and the queues are still so.
  pub run_round-Accounts :
      (p : IsPort port) (pool : ℕ → Option (List ℕ)) (now : ℕ) (st : LoopState S)
      (r : LoopState S × List Mbuf)
      → Fit st.gw
      → run_round dpdk cfg acfg port pool now st ≡ some r
      → let rx = (port.recv_burst st.port io_rx_burst).0 in
        let lost =
          lost_in dpdk cfg acfg
            (with_pool pool 0 rx)
            now
            ((run_timers now st.timers st.gw).0, no_batch) in
        let probes =
          probes_in dpdk cfg acfg
            (with_pool pool 0 rx)
            now
            ((run_timers now st.timers st.gw).0, no_batch) in
        Fit r.0.gw
        × (held p r + lost ≡ p.taken st.port + waiting st.gw.arp_pending + length rx + probes)
  unfolding run_round
  run_round-Accounts p pool now st r fit e =
      let t = run_timers now st.timers st.gw in
      let (fit', kept) = run_timers-Fit now st.timers st.gw fit in
      let got = port.recv_burst st.port io_rx_burst in
      let rx = with_pool pool 0 got.0 in
      elim (Option-cases (serve_all dpdk cfg acfg rx now (t.0, no_batch))) [
        | inl fault ↦ cc (rw (fault, run_round) at e)
        | inr (s, served) ↦
            let k = serve_all-Accounts dpdk cfg acfg rx now t.0 no_batch s fit' served in
            let q : finish_round dpdk cfg acfg port t.1 t.2 got.1 s ≡ r =
              cc (rw (served, run_round) at e) in
            let (same, total) = finish_round_total p t.1 t.2 got.1 s in
            let same' : r.0.gw ≡ s.0 =
              subst (λ (x : LoopState S × List Mbuf). x.0.gw ≡ s.0) q same in
            let total' : held p r ≡ p.taken got.1 + length t.2 + count s =
              subst
                (λ (x : LoopState S × List Mbuf). held p x ≡ p.taken got.1 + length t.2 + count s) q
                total in
            let taken = p.receives st.port io_rx_burst in
            let width = length-with_pool pool 0 got.0 in
            (subst Fit (sym same') k.fit, omega (arith, total', taken, kept, k.total, width))
      ]
