-- ===== src/Observe.antt =====
-- tools/ebpf: the probes on the bursts of the gateway, which count in a map of the kernel, and
-- `observe_loop`, which reads the map once a second. The map holds a value per key and CPU.
pub mod Sums
pub mod Totals
pub mod Rates
pub mod Probes
use violet_gw.Prelude.{
  ℕ, Bool, true, false, Option, none, some, List, [], ◌∷◌, ◌++◌, ◌+◌, ◌-◌, ◌/◌, ◌%◌, ◌&&◌, ◌==◌,
  ltb, leb, if◌then◌else◌, get_elem?, set, take, u64_mod, sub64,
}

-- The enumerators of counts.h.
abbrev pub idx_rx : ℕ
idx_rx = 0

abbrev pub idx_tx : ℕ
idx_tx = 1

abbrev pub idx_rx_calls : ℕ
idx_rx_calls = 2

abbrev pub idx_tx_calls : ℕ
idx_tx_calls = 3

-- The values of each CPU, by key.
abbrev pub PercpuArray : Type 0
PercpuArray = List (List ℕ)

-- A call on a CPU adds to the value of that CPU.
unfoldable pub add_count : ℕ → ℕ → ℕ → PercpuArray → PercpuArray
add_count cpu idx delta counts = elim (get_elem? counts idx) [
  | none ↦ counts
  | some values ↦ elim (get_elem? values cpu) [
    | none ↦ counts
    | some v ↦ set counts idx (set values cpu ((v + delta) % u64_mod))
  ]
]

-- `ret > 0` for a `long`, given by its 64 bits.
abbrev pub is_positive : ℕ → Bool
is_positive ret = ltb 0 ret && ltb ret 0x8000_0000_0000_0000

unfoldable pub trace_recv_ret : ℕ → ℕ → PercpuArray → PercpuArray
trace_recv_ret cpu ret counts =
    if is_positive ret
    then add_count cpu idx_rx_calls 1 (add_count cpu idx_rx ret counts)
    else counts

unfoldable pub trace_send_ret : ℕ → ℕ → PercpuArray → PercpuArray
trace_send_ret cpu ret counts =
    if is_positive ret
    then add_count cpu idx_tx_calls 1 (add_count cpu idx_tx ret counts)
    else counts

-- The probes of the pipeline, in a file of their own, do the same.
unfoldable pub trace_rx_ret : ℕ → ℕ → PercpuArray → PercpuArray
unfolding trace_recv_ret
trace_rx_ret cpu ret counts = trace_recv_ret cpu ret counts

unfoldable pub trace_tx_ret : ℕ → ℕ → PercpuArray → PercpuArray
unfolding trace_send_ret
trace_tx_ret cpu ret counts = trace_send_ret cpu ret counts

-- What a call of `sum_percpu` meets: the number of CPUs, which is 0 where libbpf gives an error,
-- memory for the buffer, and what the lookup fills it with, if it succeeds.
pub record Reading : Type 0 where
  pub ncpus : ℕ
  pub has_memory : Bool
  pub values : Option (List ℕ)

unfoldable pub sum_loop : ℕ → List ℕ → ℕ
sum_loop sum [] = sum
sum_loop sum (v ∷ values) = sum_loop ((sum + v) % u64_mod) values

-- `none` is the -1 of the code.
unfoldable pub sum_percpu : Reading → Option ℕ
sum_percpu r =
    if r.ncpus == 0
    then none
    else if r.has_memory
    then elim r.values [ none ↦ none | some values ↦ some (sum_loop 0 (take r.ncpus values)) ]
    else none

-- The lines that are printed, without their words and the tag.
pub data Line : Type 0 where
  attached lookup_failed final_failed : Line
  rates : ℕ → ℕ → ℕ → ℕ → Line
  totals : ℕ → ℕ → ℕ → ℕ → ℕ → ℕ → ℕ → Line

-- The lines of the loop, and whether it ended by the signal.
abbrev pub behind : Line → List Line × Bool → List Line × Bool
behind l (ls, ended) = (l ∷ ls, ended)

-- A turn of the loop for each pair of readings; after the last one the signal has come.
unfoldable pub observe_turns : ℕ → ℕ → List (Reading × Reading) → List Line × Bool
observe_turns prev_rx prev_tx [] = ([], true)
observe_turns prev_rx prev_tx ((r, t) ∷ rest) = elim (sum_percpu r) [
  | none ↦ (lookup_failed ∷ [], false)
  | some rx ↦ elim (sum_percpu t) [
    | none ↦ (lookup_failed ∷ [], false)
    | some tx ↦
        behind (rates rx tx (sub64 rx prev_rx) (sub64 tx prev_tx)) (observe_turns rx tx rest)
  ]
]

-- The last four readings.
pub record Finals : Type 0 where
  pub rx : Reading
  pub tx : Reading
  pub rx_calls : Reading
  pub tx_calls : Reading

-- `time(NULL) - start`, but at least 1.
unfoldable pub elapsed_from : ℕ → ℕ → ℕ
elapsed_from start now = if leb now start then 1 else now - start

unfoldable pub final_line : ℕ → Finals → Option Line
final_line elapsed f = elim (sum_percpu f.rx) [
  | none ↦ none
  | some rx ↦ elim (sum_percpu f.tx) [
    | none ↦ none
    | some tx ↦ elim (sum_percpu f.rx_calls) [
      | none ↦ none
      | some rx_calls ↦ elim (sum_percpu f.tx_calls) [
        | none ↦ none
        | some tx_calls ↦
            some (totals elapsed rx tx (rx / elapsed) (tx / elapsed) rx_calls tx_calls)
      ]
    ]
  ]
]

abbrev pub lines_with : List Line → Option Line → List Line × ℕ
lines_with before none = (before ++ final_failed ∷ [], 1)
lines_with before (some l) = (before ++ l ∷ [], 0)

abbrev pub after_turns : Option Line → List Line × Bool → List Line × ℕ
after_turns final (ls, false) = (attached ∷ ls, 1)
after_turns final (ls, true) = lines_with (attached ∷ ls) final

-- The lines, and the result.
unfoldable pub observe_loop : ℕ → ℕ → List (Reading × Reading) → Finals → List Line × ℕ
unfolding final_line
observe_loop start now turns finals =
    after_turns (final_line (elapsed_from start now) finals) (observe_turns 0 0 turns)
