-- ===== src/Gateway/Loop.antt =====
-- `VioletGW::run` of vgw.cpp: one round of its loop. The port of the worker is a parameter, the
-- record Port; what the mbuf pool gives to a probe is an argument. A write past the end of `tx` or `drop`
-- is a fault, which is `none`.
pub mod Waiting
pub mod Counts
pub mod Keeps
pub mod Overflow
pub mod Rounds
pub mod Sending
pub mod Safety
pub mod Accounts
pub mod Totals
use violet_gw.Prelude.{
  ℕ, zero, suc, Bool, true, false, Option, none, some, List, [], ◌∷◌, ◌++◌, ◌+◌, ◌-◌, ◌==◌, leb,
  if◌then◌else◌, length, drop, take, timed_out,
}
use violet_gw.Dpdk.{Dpdk, Mbuf}
use violet_gw.Forward.Types.{ForwardConfig, HandleResult, HandleOutcome}
use violet_gw.Arp.{ArpConfig}
use violet_gw.Gateway.{
  VioletGw, poll_control, expire_sessions, expire_neighbors, expire_pending, enqueue_pending,
  flush_pending, maybe_probe_arp, handle,
}

abbrev pub io_rx_burst : ℕ
io_rx_burst = 32

abbrev pub session_expire_interval_ms : ℕ
session_expire_interval_ms = 1000

abbrev pub arp_expire_interval_ms : ℕ
arp_expire_interval_ms = 60000

abbrev pub cp_poll_interval_ms : ℕ
cp_poll_interval_ms = 1000

pub record Timers : Type 0 where
  pub last_expire_ms : ℕ
  pub last_arp_expire_ms : ℕ
  pub last_cp_poll_ms : ℕ

unfoldable pub sessions_timer : ℕ → ℕ → VioletGw → VioletGw × ℕ
sessions_timer now last gw =
    if timed_out session_expire_interval_ms last now
    then (expire_sessions now gw, now)
    else (gw, last)

-- With the packets that `expire_pending` frees.
unfoldable pub arp_timer : ℕ → ℕ → VioletGw → VioletGw × ℕ × List Mbuf
arp_timer now last gw =
    if timed_out arp_expire_interval_ms last now
    then (let (gw', freed) = expire_pending now (expire_neighbors now gw) in (gw', now, freed))
    else (gw, last, [])

unfoldable pub cp_timer : ℕ → ℕ → VioletGw → VioletGw × ℕ
cp_timer now last gw =
    if timed_out cp_poll_interval_ms last now then ((poll_control gw).1, now) else (gw, last)

-- The timers at the start of a round, and the packets that they free.
unfoldable pub run_timers : ℕ → Timers → VioletGw → VioletGw × Timers × List Mbuf
unfolding sessions_timer arp_timer cp_timer
run_timers now t gw =
    let (gw₁, last_expire_ms) = sessions_timer now t.last_expire_ms gw in
    let (gw₂, last_arp_expire_ms, freed) = arp_timer now t.last_arp_expire_ms gw₁ in
    let (gw₃, last_cp_poll_ms) = cp_timer now t.last_cp_poll_ms gw₂ in
    (
      gw₃,
      record {
        last_expire_ms = last_expire_ms;
        last_arp_expire_ms = last_arp_expire_ms;
        last_cp_poll_ms = last_cp_poll_ms;
      },
      freed,
    )

-- The arrays `tx` and `drop` up to their counts, and the packets freed so far.
pub record Batch : Type 0 where
  pub tx : List Mbuf
  pub drop : List Mbuf
  pub freed : List Mbuf

abbrev pub no_batch : Batch
no_batch = record { tx = []; drop = []; freed = [] }

-- `tx[n_tx++] = m`, without a test in the code.
unfoldable pub put_tx : Mbuf → Batch → Option Batch
put_tx m b = if leb io_rx_burst (length b.tx) then none else some (record b { tx = b.tx ++ m ∷ [] })

-- `drop[n_drop++] = m`
unfoldable pub put_drop : Mbuf → Batch → Option Batch
put_drop m b =
    if leb io_rx_burst (length b.drop) then none else some (record b { drop = b.drop ++ m ∷ [] })

abbrev pub with_batch : VioletGw → Option Batch → Option (VioletGw × Batch)
with_batch gw none = none
with_batch gw (some b) = some (gw, b)

module _ (dpdk : Dpdk) (cfg : ForwardConfig) (acfg : ArpConfig) where
  unfoldable pub flush_learned : ℕ → ℕ → VioletGw → Batch → VioletGw × Batch
  flush_learned ip_be now gw b =
      if ip_be == 0
      then (gw, b)
      else (let (gw', tx, freed) = flush_pending dpdk cfg ip_be now b.tx io_rx_burst gw in
          (gw', record b { tx = tx; freed = b.freed ++ freed }))

  unfoldable pub hold : Option (List ℕ) → ℕ → Mbuf → ℕ → VioletGw → Batch → VioletGw × Batch
  hold buffer ip_be m now gw b =
      let (gw, freed) = enqueue_pending ip_be m now gw in
      let (gw, tx, freed') = maybe_probe_arp dpdk cfg acfg buffer ip_be now b.tx io_rx_burst gw in
      (gw, record b { tx = tx; freed = b.freed ++ freed ++ freed' })

  -- What becomes of a packet by its outcome.
  unfoldable pub dispatch :
      Option (List ℕ) → HandleOutcome → Mbuf → ℕ → VioletGw × Batch → Option (VioletGw × Batch)
  unfolding put_tx put_drop hold
  dispatch buffer o m now (gw, b) = elim o.result [
    | HandleResult.drop ↦ with_batch gw (put_drop m b)
    | HandleResult.pending_arp ↦ some (hold buffer o.arp_wait_ip_be m now gw b)
    | _ ↦ with_batch gw (put_tx m b)
  ]

  unfoldable pub serve : Option (List ℕ) → Mbuf → ℕ → VioletGw × Batch → Option (VioletGw × Batch)
  unfolding flush_learned dispatch
  serve buffer m now (gw, b) = elim (handle dpdk cfg acfg m now gw) [
    | none ↦ none
    | some r ↦
        let (o, m', gw') = r in dispatch buffer o m' now (flush_learned o.learned_ip_be now gw' b)
  ]

  -- The packets of a burst in their order, each with what the pool has for a probe.
  unfoldable pub serve_all :
      List (Mbuf × Option (List ℕ)) → ℕ → VioletGw × Batch → Option (VioletGw × Batch)
  unfolding serve
  serve_all [] now s = some s
  serve_all ((m, buffer) ∷ rx) now s = elim (serve buffer m now s) [
    | none ↦ none
    | some s' ↦ serve_all rx now s'
  ]

-- The worker's view of a port: what is received and how much of an array is sent.
pub record Port (S : Type 0) : Type 0 where
  pub recv_burst : S → ℕ → List Mbuf × S
  pub send_burst : S → List Mbuf → ℕ × S

module _ {S : Type 0} (port : Port S) where
  -- The loop that sends a batch. It ends by its tests; its array is fuel enough, since a round that
  -- goes on has sent a packet. What is left is freed.
  unfoldable pub send_loop : ℕ → S → List Mbuf → List Mbuf × S
  send_loop zero s tx = (tx, s)
  send_loop (suc fuel) s [] = ([], s)
  send_loop (suc fuel) s (m ∷ tx) =
      let (k, s') = port.send_burst s (m ∷ tx) in
      elim (k == 0) [ true ↦ (m ∷ tx, s') | false ↦ send_loop fuel s' (drop k (m ∷ tx)) ]

  unfoldable pub send_all : S → List Mbuf → List Mbuf × S
  unfolding send_loop
  send_all s tx = send_loop (length tx) s tx

pub record LoopState (S : Type 0) : Type 0 where
  pub gw : VioletGw
  pub timers : Timers
  pub port : S

-- Each packet of a burst with what the pool has for a probe that it causes.
abbrev pub with_pool : (ℕ → Option (List ℕ)) → ℕ → List Mbuf → List (Mbuf × Option (List ℕ))
with_pool pool i [] = []
with_pool pool i (m ∷ rx) = (m, pool i) ∷ with_pool pool (i + 1) rx

module _ (dpdk : Dpdk) (cfg : ForwardConfig) (acfg : ArpConfig) {S : Type 0} (port : Port S) where
  -- The end of a round: the batch is sent, and what is left of it and the drops are freed.
  unfoldable pub finish_round : Timers → List Mbuf → S → VioletGw × Batch → LoopState S × List Mbuf
  unfolding send_all
  finish_round timers freed s (gw, b) =
      let (rest, s') = send_all port s b.tx in
      (record { gw = gw; timers = timers; port = s' }, freed ++ b.freed ++ rest ++ b.drop)

  -- One round of the loop at the time `now`, with the packets that it frees.
  unfoldable pub run_round :
      (ℕ → Option (List ℕ)) → ℕ → LoopState S → Option (LoopState S × List Mbuf)
  unfolding run_timers serve_all finish_round
  run_round pool now st =
      let (gw, timers, freed) = run_timers now st.timers st.gw in
      let (rx, s) = port.recv_burst st.port io_rx_burst in
      elim (serve_all dpdk cfg acfg (with_pool pool 0 rx) now (gw, no_batch)) [
        | none ↦ none
        | some r ↦ some (finish_round timers freed s r)
      ]
