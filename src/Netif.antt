-- ===== src/Netif.antt =====
-- The network interface of dpdk/netif.hpp and dpdk/netif.cpp: `DpdkNetif` over the ring and the bursts of
-- the device, which are parameters. The other side of a ring runs on another lcore: where a loop
-- pushes, a schedule says how many packets the other side pops before each push.
pub mod Fifo
pub mod Sends
pub mod Manager
pub mod Launches
pub mod Release
pub mod Eal
use violet_gw.Prelude.{
  ℕ, zero, suc, Bool, true, false, Option, none, some, List, [], ◌∷◌, ◌++◌, ◌+◌, ◌==◌, leb,
  if◌then◌else◌, length, take, drop,
}
use violet_gw.Dpdk.{Mbuf}
use violet_gw.Datapath.{ℤ, DatapathMode, PipelineParams, Params, DatapathConfig}
use violet_gw.Ring.{min, RteRing, Ring, push_burst, pop_burst, make_ring}

abbrev pub io_rx_burst : ℕ
io_rx_burst = 32

abbrev pub io_tx_burst : ℕ
io_tx_burst = 32

abbrev pub io_ring_size : ℕ
io_ring_size = 32

-- The bursts of a device, by port and queue.
pub record Nic (N : Type 0) : Type 0 where
  pub rx_burst : N → ℕ → ℕ → ℕ → List Mbuf × N
  pub tx_burst : N → ℕ → ℕ → List Mbuf → ℕ × N

pub record PipelineState (R : Type 0) : Type 0 where
  pub rx_ring : Ring R
  pub tx_ring : Ring R
  pub stop : Bool
  pub tx_ring_full_sleep_us : ℤ

-- The union with `state_active_`.
pub data State (R : Type 0) : Type 0 where
  inactive : State R
  pipeline_state : PipelineState R → State R
  rtc_state : State R

pub record DpdkNetif (R : Type 0) : Type 0 where
  pub mode : DatapathMode
  pub port_id : ℕ
  pub queue_id : ℕ
  pub state : State R

-- What the loop of `nic_recv` has made of a burst.
pub record Received (R : Type 0) : Type 0 where
  pub popped : List Mbuf
  pub ring : Ring R
  pub freed : List Mbuf

module _ {R : Type 0} (rte : RteRing R) where
  abbrev pub new_netif : DpdkNetif R
  new_netif = record {
    mode = DatapathMode.pipeline;
    port_id = 0;
    queue_id = 0;
    state = State.inactive;
  }

  abbrev pub ring_cap : PipelineParams → ℕ
  ring_cap p = if p.ring_size == 0 then io_ring_size else p.ring_size

  abbrev pub with_rings :
      PipelineParams → Option (Ring R) → Option (Ring R) → Option (PipelineState R)
  with_rings p (some rx) (some tx) = some (record {
    rx_ring = rx;
    tx_ring = tx;
    stop = false;
    tx_ring_full_sleep_us = p.tx_ring_full_sleep_us;
  })
  with_rings p _ _ = none

  -- `none` is the exit of the program, where a ring cannot be made, and the read of parameters that are
  -- not those of the mode.
  unfoldable pub init : ℕ → DatapathConfig → Option (DpdkNetif R)
  init port cfg = elim cfg.mode [
    | DatapathMode.rtc ↦
        some (record {
          mode = DatapathMode.rtc;
          port_id = port;
          queue_id = 0;
          state = State.rtc_state;
        })
    | DatapathMode.pipeline ↦ elim cfg.u [
      | Params.rtc_params r ↦ none
      | Params.pipeline_params p ↦
          elim (with_rings p (make_ring rte (ring_cap p)) (make_ring rte (ring_cap p))) [
            | none ↦ none
            | some s ↦ some (record {
              mode = DatapathMode.pipeline;
              port_id = port;
              queue_id = 0;
              state = State.pipeline_state s;
            })
          ]
    ]
  ]

  -- The loop of `send_burst` over the transmit ring. It ends where the packets do; `none` is a loop
  -- that runs on after the schedule. With the packets that the other side has popped.
  unfoldable pub send_pipeline : List ℕ → Ring R → List Mbuf → Option (List Mbuf × Ring R)
  send_pipeline pops r [] = some ([], r)
  send_pipeline [] r (m ∷ pkts) = none
  send_pipeline (k ∷ pops) r (m ∷ pkts) =
      let (out, r₁) = pop_burst rte r k in
      let (en, r₂) = push_burst rte r₁ (m ∷ pkts) in
      elim (send_pipeline pops r₂ (drop en (m ∷ pkts))) [
        | none ↦ none
        | some s ↦ some (out ++ s.0, s.1)
      ]

  -- The loop of `nic_recv` over the receive ring, from its push `i` on. Each push that goes on has
  -- taken a packet, so the burst is fuel enough.
  unfoldable pub recv_loop : ℕ → (ℕ → ℕ) → ℕ → Ring R → List Mbuf → Received R
  recv_loop zero pops i r pkts = record { popped = []; ring = r; freed = pkts }
  recv_loop (suc fuel) pops i r [] = record { popped = []; ring = r; freed = [] }
  recv_loop (suc fuel) pops i r (m ∷ pkts) =
      let (out, r₁) = pop_burst rte r (pops i) in
      let (got, r₂) = push_burst rte r₁ (m ∷ pkts) in
      let x = recv_loop fuel pops (i + 1) r₂ (drop got (m ∷ pkts)) in
      if got == 0
      then record { popped = out; ring = r₂; freed = m ∷ pkts }
      else record x { popped = out ++ x.popped }

  module _ {N : Type 0} (nic : Nic N) where
    -- `none` is a use before `init`.
    unfoldable pub recv_burst : ℕ → DpdkNetif R × N → Option (List Mbuf × DpdkNetif R × N)
    recv_burst n (d, s) = elim d.state [
      | State.inactive ↦ none
      | State.pipeline_state p ↦
          let (pkts, ring) = pop_burst rte p.rx_ring n in
          some (pkts, record d { state = State.pipeline_state (record p { rx_ring = ring }) }, s)
      | State.rtc_state ↦
          let (pkts, s) = nic.rx_burst s d.port_id d.queue_id (min n 65535) in some (pkts, d, s)
    ]

    -- How many packets are sent. In the pipeline the loop ends with all of them.
    unfoldable pub send_burst : List ℕ → List Mbuf → DpdkNetif R × N → Option (ℕ × DpdkNetif R × N)
    unfolding send_pipeline
    send_burst pops pkts (d, s) = elim d.state [
      | State.inactive ↦ none
      | State.pipeline_state p ↦ elim (send_pipeline pops p.tx_ring pkts) [
        | none ↦ none
        | some x ↦
            some (
              length pkts,
              record d { state = State.pipeline_state (record p { tx_ring = x.1 }) },
              s,
            )
      ]
      | State.rtc_state ↦
          let (sent, s) =
            nic.tx_burst s d.port_id d.queue_id (take (min (length pkts) 65535) pkts) in
          some (sent, d, s)
    ]

    -- One turn of the receiving lcore: what the worker pops meanwhile, and what is freed. There is one
    -- receive queue.
    unfoldable pub nic_recv : ℕ → (ℕ → ℕ) → Ring R × N → Received R × N
    unfolding recv_loop
    nic_recv port pops (r, s) =
        let (pkts, s) = nic.rx_burst s port 0 io_rx_burst in
        (recv_loop (length pkts) pops 0 r pkts, s)

    -- One turn of the sending lcore, with the packets that it frees.
    unfoldable pub nic_send : ℕ → Ring R × N → List Mbuf × Ring R × N
    nic_send port (r, s) =
        let (pkts, r') = pop_burst rte r io_tx_burst in
        elim pkts [
          | [] ↦ ([], r', s)
          | m ∷ rest ↦
              let (sent, s') = nic.tx_burst s port 0 (m ∷ rest) in (drop sent (m ∷ rest), r', s')
        ]

    -- `run_recv`, by the value of `stop` at each turn and what the worker pops in it. With the packets
    -- that the worker pops and those that are freed.
    unfoldable pub run_recv :
        ℕ → List (Bool × (ℕ → ℕ)) → Ring R × N → List Mbuf × List Mbuf × Ring R × N
    unfolding nic_recv
    run_recv port [] (r, s) = ([], [], r, s)
    run_recv port ((true, pops) ∷ turns) (r, s) = ([], [], r, s)
    run_recv port ((false, pops) ∷ turns) (r, s) =
        let (x, s') = nic_recv port pops (r, s) in
        let (popped, freed, r', s'') = run_recv port turns (x.ring, s') in
        (x.popped ++ popped, x.freed ++ freed, r', s'')

    -- `run_send`, by the value of `stop` at each turn.
    unfoldable pub run_send : ℕ → List Bool → Ring R × N → List Mbuf × Ring R × N
    unfolding nic_send
    run_send port [] (r, s) = ([], r, s)
    run_send port (true ∷ stops) (r, s) = ([], r, s)
    run_send port (false ∷ stops) (r, s) =
        let (freed, r', s') = nic_send port (r, s) in
        let (freed', r'', s'') = run_send port stops (r', s') in (freed ++ freed', r'', s'')
