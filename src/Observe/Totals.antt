-- ===== src/Observe/Totals.antt =====
-- The counts that the probes of tools/ebpf keep, and the sums that `sum_percpu` of observe_loop.c
-- makes of them.
use violet_gw.Prelude.{
  ℕ, true, false, some, ◌==◌, List, [], ◌∷◌, ◌≡◌, ◌≢◌, refl, arith, ap, ◌+◌, ◌%◌, ◌<◌, ◌∙◌,
  Bool-cases, inl, inr, length, replicate, length-replicate, if◌then◌else◌, Option-cases, get_elem?,
  get_elem?-lt, set, length-set, get_elem?-set_self, get_elem?-set_other, take_all, u64_mod,
}
use violet_gw.Observe.{
  idx_rx, idx_tx, idx_rx_calls, idx_tx_calls, PercpuArray, add_count, is_positive, trace_recv_ret,
  trace_send_ret, Reading, sum_percpu,
}
use violet_gw.Observe.Sums.{total, sum_loop-total, total-set, total-replicate}

-- A probe that fires: the CPU, and what the call of the gateway returned.
pub data Event : Type 0 where
  received : ℕ → ℕ → Event
  sent : ℕ → ℕ → Event

abbrev pub cpu_of : Event → ℕ
cpu_of (received cpu ret) = cpu
cpu_of (sent cpu ret) = cpu

abbrev pub fire : Event → PercpuArray → PercpuArray
fire (received cpu ret) = trace_recv_ret cpu ret
fire (sent cpu ret) = trace_send_ret cpu ret

abbrev pub run : List Event → PercpuArray → PercpuArray
run [] counts = counts
run (e ∷ es) counts = run es (fire e counts)

-- The map as the kernel makes it.
abbrev pub fresh : ℕ → PercpuArray
fresh n = replicate 4 (replicate n 0)

-- The lookup of a key.
abbrev pub reading : ℕ → PercpuArray → ℕ → Reading
reading n counts key = record { ncpus = n; has_memory = true; values = get_elem? counts key }

-- The packets and the calls that the events report.
pub record Tally : Type 0 where
  pub rx : ℕ
  pub tx : ℕ
  pub rx_calls : ℕ
  pub tx_calls : ℕ

unfoldable pub tally : Event → Tally → Tally
tally (received cpu ret) t =
    if is_positive ret then record t { rx = t.rx + ret; rx_calls = t.rx_calls + 1 } else t
tally (sent cpu ret) t =
    if is_positive ret then record t { tx = t.tx + ret; tx_calls = t.tx_calls + 1 } else t

abbrev pub tally_all : List Event → Tally → Tally
tally_all [] t = t
tally_all (e ∷ es) t = tally_all es (tally e t)

abbrev pub no_tally : Tally
no_tally = record { rx = 0; tx = 0; rx_calls = 0; tx_calls = 0 }

abbrev pub Below : ℕ → List Event → Type 0
Below n [] = Unit
Below n (e ∷ es) = (cpu_of e < n) × Below n es

module _ (n : ℕ) where
  -- The values of a key are one for each CPU, and sum to the number.
  pub record Sums (counts : PercpuArray) (key t : ℕ) : Type 0 where
    pub values : List ℕ
    pub found : get_elem? counts key ≡ some values
    pub width : length values ≡ n
    pub same : total values % u64_mod ≡ t % u64_mod

  add_count-Sums :
      (cpu key delta t : ℕ) (counts : PercpuArray)
      → cpu < n
      → Sums counts key t
      → Sums (add_count cpu key delta counts) key (t + delta)
  unfolding add_count
  add_count-Sums cpu key delta t counts low s =
      let (v, at) = get_elem?-lt s.values cpu (omega (arith, s.width)) in
      let moved = total-set s.values cpu v ((v + delta) % u64_mod) at in
      record {
        values = set s.values cpu ((v + delta) % u64_mod);
        found = rw (s.found, add_count) (rw at (get_elem?-set_self counts key s.values _ s.found));
        width = length-set s.values cpu _ ∙ s.width;
        same = omega (arith, moved, s.same);
      }

  get_elem?-add_count_other :
      (cpu key other delta : ℕ) (counts : PercpuArray)
      → key ≢ other
      → get_elem? (add_count cpu key delta counts) other ≡ get_elem? counts other
  unfolding add_count
  get_elem?-add_count_other cpu key other delta counts apart =
      elim (Option-cases (get_elem? counts key)) [
        | inl none_at ↦ rw (none_at, add_count) refl
        | inr (values, at) ↦ elim (Option-cases (get_elem? values cpu)) [
          | inl no_cpu ↦ rw (at, add_count) (rw no_cpu refl)
          | inr (v, here) ↦
              rw (at, add_count) (rw here (get_elem?-set_other counts key other _ apart))
        ]
      ]

  add_count-Sums_other :
      (cpu key other delta t : ℕ) (counts : PercpuArray)
      → key ≢ other
      → Sums counts other t
      → Sums (add_count cpu key delta counts) other t
  add_count-Sums_other cpu key other delta t counts apart s = record {
    values = s.values;
    found = get_elem?-add_count_other cpu key other delta counts apart ∙ s.found;
    width = s.width;
    same = s.same;
  }

  -- What a probe adds to two keys leaves a third one alone.
  add_count-add_count-Sums :
      (cpu key calls other delta t : ℕ) (counts : PercpuArray)
      → key ≢ other
      → calls ≢ other
      → Sums counts other t
      → Sums (add_count cpu calls 1 (add_count cpu key delta counts)) other t
  add_count-add_count-Sums cpu key calls other delta t counts k c s =
      add_count-Sums_other cpu calls other 1 t (add_count cpu key delta counts) c
        (add_count-Sums_other cpu key other delta t counts k s)

  -- The four sums of a map.
  pub record Tallies (counts : PercpuArray) (t : Tally) : Type 0 where
    pub rx : Sums counts idx_rx t.rx
    pub tx : Sums counts idx_tx t.tx
    pub rx_calls : Sums counts idx_rx_calls t.rx_calls
    pub tx_calls : Sums counts idx_tx_calls t.tx_calls

  fire-Tallies :
      (e : Event) (counts : PercpuArray) (t : Tally)
      → cpu_of e < n
      → Tallies counts t
      → Tallies (fire e counts) (tally e t)
  unfolding trace_recv_ret trace_send_ret tally
  fire-Tallies (received cpu ret) counts t low s = elim (Bool-cases (is_positive ret)) [
    | inr nothing ↦ rw nothing s
    | inl some_packets ↦
        let counted =
          add_count-Sums_other cpu idx_rx idx_rx_calls ret t.rx_calls counts (omega arith)
            s.rx_calls in
        let apart = add_count-add_count-Sums cpu idx_rx idx_rx_calls in
        rw some_packets (record {
          rx =
              add_count-Sums_other cpu idx_rx_calls idx_rx 1 (t.rx + ret) _ (omega arith)
                (add_count-Sums cpu idx_rx ret t.rx counts low s.rx);
          tx = apart idx_tx ret t.tx counts (omega arith) (omega arith) s.tx;
          rx_calls = add_count-Sums cpu idx_rx_calls 1 t.rx_calls _ low counted;
          tx_calls =
              apart idx_tx_calls ret t.tx_calls counts (omega arith) (omega arith) s.tx_calls;
        })
  ]
  fire-Tallies (sent cpu ret) counts t low s = elim (Bool-cases (is_positive ret)) [
    | inr nothing ↦ rw nothing s
    | inl some_packets ↦
        let counted =
          add_count-Sums_other cpu idx_tx idx_tx_calls ret t.tx_calls counts (omega arith)
            s.tx_calls in
        let apart = add_count-add_count-Sums cpu idx_tx idx_tx_calls in
        rw some_packets (record {
          rx = apart idx_rx ret t.rx counts (omega arith) (omega arith) s.rx;
          tx =
              add_count-Sums_other cpu idx_tx_calls idx_tx 1 (t.tx + ret) _ (omega arith)
                (add_count-Sums cpu idx_tx ret t.tx counts low s.tx);
          rx_calls =
              apart idx_rx_calls ret t.rx_calls counts (omega arith) (omega arith) s.rx_calls;
          tx_calls = add_count-Sums cpu idx_tx_calls 1 t.tx_calls _ low counted;
        })
  ]

  pub run-Tallies :
      (es : List Event) (counts : PercpuArray) (t : Tally)
      → Below n es
      → Tallies counts t
      → Tallies (run es counts) (tally_all es t)
  run-Tallies [] counts t low s = s
  run-Tallies (e ∷ es) counts t low s =
      run-Tallies es (fire e counts) (tally e t) low.1 (fire-Tallies e counts t low.0 s)

  fresh-Sums : (key : ℕ) → get_elem? (fresh n) key ≡ some (replicate n 0) → Sums (fresh n) key 0
  fresh-Sums key at = record {
    values = replicate n 0;
    found = at;
    width = length-replicate n 0;
    same = ap (λ x. x % u64_mod) (total-replicate n);
  }

  pub fresh-Tallies : Tallies (fresh n) no_tally
  fresh-Tallies = record {
    rx = fresh-Sums idx_rx refl;
    tx = fresh-Sums idx_tx refl;
    rx_calls = fresh-Sums idx_rx_calls refl;
    tx_calls = fresh-Sums idx_tx_calls refl;
  }

  -- The sum of a key is read whole.
  pub sum_percpu-Sums :
      (counts : PercpuArray) (key t : ℕ)
      → 0 < n
      → Sums counts key t
      → sum_percpu (reading n counts key) ≡ some (t % u64_mod)
  unfolding sum_percpu
  sum_percpu-Sums counts key t some_cpu s =
      let cpus : (n == 0) ≡ false = ground arith in
      rw cpus (
        rw s.found (
          rw (take_all s.values n (omega (arith, s.width)))
            (ap some (omega (arith, sum_loop-total 0 s.values (omega arith), s.same)))))
