-- ===== src/Observe/Rates.antt =====
-- `observe_loop` of tools/ebpf/observe_loop.c over the map that the probes fill meanwhile.
use violet_gw.Prelude.{
  ℕ, true, some, List, [], ◌∷◌, ◌++◌, ◌≡◌, refl, arith, ◌+◌, ◌/◌, ◌%◌, ◌<◌, if◌then◌else◌, u64_mod,
  sub64,
}
use violet_gw.Observe.{
  idx_rx, idx_tx, idx_rx_calls, idx_tx_calls, PercpuArray, is_positive, Reading, Line, rates,
  totals, attached, observe_turns, Finals, elapsed_from, final_line, observe_loop,
}
use violet_gw.Observe.Totals.{
  Event, received, sent, run, fresh, reading, Tally, tally, tally_all, no_tally, Below, Tallies,
  run-Tallies, fresh-Tallies, sum_percpu-Sums,
}

-- The packets that the events report.
abbrev pub rx_of : Event → ℕ
rx_of (received cpu ret) = if is_positive ret then ret else 0
rx_of (sent cpu ret) = 0

abbrev pub tx_of : Event → ℕ
tx_of (received cpu ret) = 0
tx_of (sent cpu ret) = if is_positive ret then ret else 0

abbrev pub rx_in : List Event → ℕ
rx_in [] = 0
rx_in (e ∷ es) = rx_of e + rx_in es

abbrev pub tx_in : List Event → ℕ
tx_in [] = 0
tx_in (e ∷ es) = tx_of e + tx_in es

tally_packets :
    (e : Event) (t : Tally) → ((tally e t).rx ≡ t.rx + rx_of e) × ((tally e t).tx ≡ t.tx + tx_of e)
unfolding tally
tally_packets (received cpu ret) t = ground arith
tally_packets (sent cpu ret) t = ground arith

tally_all_packets :
    (es : List Event) (t : Tally)
    → ((tally_all es t).rx ≡ t.rx + rx_in es) × ((tally_all es t).tx ≡ t.tx + tx_in es)
tally_all_packets [] t = omega arith
tally_all_packets (e ∷ es) t = omega (arith, tally_packets e t, tally_all_packets es (tally e t))

-- What happens in a turn of the loop: before the sum of the received packets is read, and between
-- that and the sum of the sent ones.
abbrev pub Turn : Type 0
Turn = List Event × List Event

abbrev pub events_of : List Turn → List Event
events_of [] = []
events_of ((b, c) ∷ turns) = b ++ (c ++ events_of turns)

abbrev pub reads : ℕ → PercpuArray → List Turn → List (Reading × Reading)
reads n counts [] = []
reads n counts ((b, c) ∷ turns) =
    (reading n (run b counts) idx_rx, reading n (run c (run b counts)) idx_tx)
    ∷ reads n (run c (run b counts)) turns

abbrev pub finals : ℕ → PercpuArray → Finals
finals n counts = record {
  rx = reading n counts idx_rx;
  tx = reading n counts idx_tx;
  rx_calls = reading n counts idx_rx_calls;
  tx_calls = reading n counts idx_tx_calls;
}

-- The sums so far, and the packets since the sum before. `late` packets have been received since
-- the last sum of these.
abbrev pub turn_lines : ℕ → ℕ → ℕ → List Turn → List Line
turn_lines rx tx late [] = []
turn_lines rx tx late ((b, c) ∷ turns) =
    let new_rx = late + rx_in b in
    let new_tx = tx_in b + tx_in c in
    rates ((rx + new_rx) % u64_mod) ((tx + new_tx) % u64_mod) (new_rx % u64_mod) (new_tx % u64_mod)
    ∷ turn_lines (rx + new_rx) (tx + new_tx) (rx_in c) turns

abbrev pub totals_line : ℕ → Tally → Line
totals_line elapsed t =
    totals elapsed (t.rx % u64_mod) (t.tx % u64_mod) (t.rx % u64_mod / elapsed)
      (t.tx % u64_mod / elapsed) (t.rx_calls % u64_mod) (t.tx_calls % u64_mod)

Below-append : (n : ℕ) (xs ys : List Event) → Below n (xs ++ ys) → Below n xs × Below n ys
Below-append n [] ys h = (tt, h)
Below-append n (x ∷ xs) ys h = let (a, b) = Below-append n xs ys h.1 in ((h.0, a), b)

-- A difference of sums that wrap is the difference that wraps.
sub64_wraps : (a d : ℕ) → sub64 ((a + d) % u64_mod) (a % u64_mod) ≡ d % u64_mod
unfolding sub64
sub64_wraps a d = omega arith

module _ (n : ℕ) (some_cpu : 0 < n) where
  observe_turns-reads :
      (turns : List Turn) (rx tx late : ℕ) (counts : PercpuArray) (t : Tally)
      → Below n (events_of turns)
      → Tallies n counts t
      → t.rx ≡ rx + late
      → t.tx ≡ tx
      → observe_turns (rx % u64_mod) (tx % u64_mod) (reads n counts turns)
        ≡ (turn_lines rx tx late turns, true)
  unfolding observe_turns
  observe_turns-reads [] rx tx late counts t low s e f = refl
  observe_turns-reads ((b, c) ∷ turns) rx tx late counts t low s e f =
      let (in_b, more) = Below-append n b (c ++ events_of turns) low in
      let (in_c, rest) = Below-append n c (events_of turns) more in
      let t₁ = tally_all b t in
      let t₂ = tally_all c t₁ in
      let s₁ = run-Tallies n b counts t in_b s in
      let s₂ = run-Tallies n c (run b counts) t₁ in_c s₁ in
      let p₁ = tally_all_packets b t in
      let p₂ = tally_all_packets c t₁ in
      let new_rx : t₁.rx ≡ rx + (late + rx_in b) = omega (arith, p₁, e) in
      let new_tx : t₂.tx ≡ tx + (tx_in b + tx_in c) = omega (arith, p₁, p₂, f) in
      let read_rx = sum_percpu-Sums n (run b counts) idx_rx t₁.rx some_cpu s₁.rx in
      let read_tx = sum_percpu-Sums n (run c (run b counts)) idx_tx t₂.tx some_cpu s₂.tx in
      let later =
        observe_turns-reads turns (rx + (late + rx_in b)) (tx + (tx_in b + tx_in c)) (rx_in c)
          (run c (run b counts)) t₂ rest s₂ (omega (arith, p₂, new_rx)) new_tx in
      rw (read_rx, observe_turns)
        (rw read_tx (
          rw new_rx (
            rw new_tx (
              rw (sub64_wraps rx (late + rx_in b), sub64_wraps tx (tx_in b + tx_in c))
                (rw later refl)))))

  final_line-finals :
      (elapsed : ℕ) (counts : PercpuArray) (t : Tally)
      → Tallies n counts t
      → final_line elapsed (finals n counts) ≡ some (totals_line elapsed t)
  unfolding final_line
  final_line-finals elapsed counts t s =
      rw (sum_percpu-Sums n counts idx_rx t.rx some_cpu s.rx, final_line)
        (rw (sum_percpu-Sums n counts idx_tx t.tx some_cpu s.tx) (
          rw (sum_percpu-Sums n counts idx_rx_calls t.rx_calls some_cpu s.rx_calls)
            (rw (sum_percpu-Sums n counts idx_tx_calls t.tx_calls some_cpu s.tx_calls) refl)))

  -- Where each sum can be read and the probes fire on CPUs below the number that libbpf gives,
  -- `observe_loop` prints at each turn the packets so far and those since the sum before, modulo
  -- 2 ^ 64, and at the end the sums of all packets and calls, with the averages over the seconds that
  -- have passed, and returns 0.
  pub observe_loop-Rates :
      (start now : ℕ) (turns : List Turn) (late : List Event)
      → Below n (events_of turns ++ late)
      → let all = tally_all (events_of turns ++ late) no_tally in
        observe_loop start now
          (reads n (fresh n) turns)
          (finals n (run (events_of turns ++ late) (fresh n)))
        ≡ (attached ∷ turn_lines 0 0 0 turns ++ totals_line (elapsed_from start now) all ∷ [], 0)
  unfolding observe_loop
  observe_loop-Rates start now turns late low =
      let (first, _) = Below-append n (events_of turns) late low in
      let ended =
        run-Tallies n (events_of turns ++ late) (fresh n) no_tally low (fresh-Tallies n) in
      rw (observe_turns-reads turns 0 0 0 (fresh n) no_tally first (fresh-Tallies n) refl refl)
        (rw (final_line-finals (elapsed_from start now) _ _ ended) refl)
