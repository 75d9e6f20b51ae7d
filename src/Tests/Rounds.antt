-- ===== src/Tests/Rounds.antt =====
-- A round of the worker over a port that counts what it takes.
use violet_gw.Prelude.{ℕ, List, [], ◌∷◌, some, ◌≡◌, refl, arith, ◌≤◌, ◌+◌, length, take}
use violet_gw.Dpdk.{Mbuf}
use violet_gw.Gateway.Loop.{Port, LoopState, run_round, run_timers, no_batch, with_pool}
use violet_gw.Gateway.Loop.Waiting.{Fit}
use violet_gw.Gateway.Loop.Safety.{run_round-Fit}
use violet_gw.Gateway.Loop.Accounts.{lost_in, probes_in}
use violet_gw.Gateway.Loop.Totals.{IsPort, held, run_round-Accounts}
use violet_gw.Tests.{machine, query}
use violet_gw.Tests.Gateways.{cfg, acfg, new_gw, buffer}
use violet_gw.Tests.Loops.{new_gw-Fit, timers}

-- A port that takes one packet at a time and counts them.
abbrev one_of : List Mbuf → ℕ
one_of [] = 0
one_of (m ∷ tx) = 1

abbrev counting_port : Port ℕ
counting_port = record {
  recv_burst = λ s n. (take n (query ∷ query ∷ []), s);
  send_burst = λ s tx. (one_of tx, s + one_of tx);
}

one_of-le : (tx : List Mbuf) → one_of tx ≤ length tx
one_of-le [] = omega arith
one_of-le (m ∷ tx) = omega arith

counting_port-IsPort : IsPort counting_port
counting_port-IsPort = record {
  taken = λ s. s;
  receives = λ s n. refl;
  within = λ s tx. one_of-le tx;
  sends = λ s tx. refl;
}

abbrev counted_state : LoopState ℕ
counted_state = record { gw = new_gw; timers = timers; port = 0 }

-- A round that receives two queries.
abbrev two_queries :
    (r : LoopState ℕ × List Mbuf) × (run_round machine cfg acfg counting_port
        (λ i. buffer)
        1000
        counted_state
      ≡ some r)
    × Fit r.0.gw
two_queries =
    run_round-Fit machine cfg acfg counting_port (λ i. buffer) 1000 counted_state new_gw-Fit
      (omega arith)

run_round-Accounts_example :
    let r = two_queries.0 in
    let lost =
      lost_in machine cfg acfg
        (with_pool (λ i. buffer) 0 (query ∷ query ∷ []))
        1000
        ((run_timers 1000 timers new_gw).0, no_batch) in
    let probes =
      probes_in machine cfg acfg
        (with_pool (λ i. buffer) 0 (query ∷ query ∷ []))
        1000
        ((run_timers 1000 timers new_gw).0, no_batch) in
    Fit r.0.gw × (held machine cfg acfg counting_port counting_port-IsPort r + lost ≡ 2 + probes)
unfolding counting_port-IsPort
run_round-Accounts_example =
    run_round-Accounts machine cfg acfg counting_port counting_port-IsPort (λ i. buffer) 1000
      counted_state two_queries.0 new_gw-Fit two_queries.1
