-- ===== src/Tests/Observers.antt =====
-- Runs of the tools of tools/ebpf: two probes on two CPUs, read once and at the end.
use violet_gw.Prelude.{ℕ, true, false, List, [], ◌∷◌, ◌++◌, ◌≡◌, refl, arith, sub64}
use violet_gw.Prelude.Print.{text}
use violet_gw.Observe.{
  attached, rates, totals, observe_loop, observe_turns, sum_percpu, trace_recv_ret, add_count,
  trace_send_ret, sum_loop, elapsed_from,
}
use violet_gw.Observe.Totals.{received, sent, fresh, run, no_tally, tally_all}
use violet_gw.Observe.Rates.{
  Turn, reads, finals, events_of, turn_lines, totals_line, observe_loop-Rates,
}
use violet_gw.Observe.Probes.{Libbpf, Choice, Orderly, exit_code, main_with, main_with-Orderly}

-- 32 packets on CPU 0 and 8 on CPU 1, of which 16 are sent before the first reading of that sum.
abbrev turns : List Turn
turns = (received 0 32 ∷ received 1 8 ∷ [], sent 1 16 ∷ []) ∷ ([], sent 0 24 ∷ []) ∷ []

turns_shown :
    observe_loop 100 102 (reads 2 (fresh 2) turns) (finals 2 (run (events_of turns) (fresh 2)))
    ≡ (attached ∷ rates 40 16 40 16 ∷ rates 40 40 0 24 ∷ totals 2 40 40 20 20 2 2 ∷ [], 0)
unfolding observe_loop observe_turns sum_percpu trace_recv_ret add_count trace_send_ret sum_loop
    sub64 elapsed_from
turns_shown = refl

observe_loop-Rates_example :
    observe_loop 100 102
      (reads 2 (fresh 2) turns)
      (finals 2 (run (events_of turns ++ received 0 1 ∷ []) (fresh 2)))
    ≡ (
      attached ∷ turn_lines 0 0 0 turns
          ++ totals_line
              (elapsed_from 100 102)
              (tally_all (events_of turns ++ received 0 1 ∷ []) no_tally)
            ∷ [],
      0,
    )
observe_loop-Rates_example =
    observe_loop-Rates 2 (omega arith) 100 102 turns (received 0 1 ∷ []) (omega arith)

-- A system on which only one of the probes can be attached.
abbrev half : Libbpf ℕ
half = record {
  atoi = λ t. 7;
  any_pid = 0;
  can_read = λ b. true;
  can_open = true;
  can_load = true;
  can_attach = λ sym pid b. elim sym [ [] ↦ false | _ ∷ _ ↦ true ];
  observed = 0;
}

main_with-Orderly_example :
    Orderly half
      (exit_code half (Choice.pid (text "7") ∷ []))
      (main_with half (text "_rx") [] (Choice.pid (text "7") ∷ []))
main_with-Orderly_example = main_with-Orderly half (text "_rx") [] (Choice.pid (text "7") ∷ [])
