-- ===== src/Gateway/Run.antt =====
-- `VioletGW::run` of vgw.cpp as the rounds of its loop one after another, and `main` of main.cpp. The
-- loop ends with the program, so a run is the state after the rounds of a list: the time of each, what
-- the pool has for its probes, and the shared block as it finds it.
pub mod Totals
pub mod Worker
use violet_gw.Prelude.{
  ℕ, Bool, true, false, Option, none, some, List, [], ◌∷◌, ◌++◌, ◌+◌, ◌&&◌, not, if◌then◌else◌,
  length,
}
use violet_gw.Dpdk.{Dpdk, Mbuf}
use violet_gw.Forward.Types.{ForwardConfig}
use violet_gw.Arp.{ArpConfig}
use violet_gw.Datapath.Flags.{Flags, parse_vgw_command_line_flags}
use violet_gw.Netif.{DpdkNetif}
use violet_gw.Shm.{CpShm, CpShmBlock}
use violet_gw.Shm.Open.{Posix, open_shm}
use violet_gw.Gateway.Services.{lab_seed}
use violet_gw.Gateway.Attach.{cp_shm_name, view}
use violet_gw.Gateway.Startup.{Machine, Ready, Outcome}
use violet_gw.Gateway.Startup
use violet_gw.Gateway.Loop.{
  Port, LoopState, Timers, io_rx_burst, run_round, run_timers, no_batch, with_pool,
}
use violet_gw.Gateway.Loop.Accounts.{lost_in}

-- A round: its time, what the pool has for each packet of its burst, and the shared block as the
-- writers have left it by then.
pub record Turn : Type 0 where
  pub now : ℕ
  pub pool : ℕ → Option (List ℕ)
  pub block : CpShmBlock

-- The gateway once its mapping shows the block.
abbrev pub showing : {S : Type 0} → CpShmBlock → LoopState S → LoopState S
showing block st = record st { gw = record st.gw { cp = record st.gw.cp { hdr = block } } }

-- Which of the parts are there.
pub record Parts : Type 0 where
  pub netif : Bool
  pub forwarder : Bool
  pub sessions : Bool
  pub cp : Bool

unfoldable pub ready_for_run : Parts → Bool
ready_for_run p = p.netif && p.forwarder && p.sessions && p.cp

-- The first reading of the clock is that of all timers.
abbrev pub first_timers : ℕ → Timers
first_timers now = record { last_expire_ms = now; last_arp_expire_ms = now; last_cp_poll_ms = now }

-- How the program stands: it has exited, has returned, has met a fault, or runs, with the packets
-- that it has freed.
pub data Program (S : Type 0) : Type 0 where
  exited faulted : Program S
  returned : ℕ → Program S
  running : LoopState S → List Mbuf → Program S

module _ (dpdk : Dpdk) (cfg : ForwardConfig) (acfg : ArpConfig) {S : Type 0} (port : Port S) where
  abbrev pub freeing :
      List Mbuf → Option (LoopState S × List Mbuf) → Option (LoopState S × List Mbuf)
  freeing freed none = none
  freeing freed (some r) = some (r.0, freed ++ r.1)

  -- The loop.
  unfoldable pub run_turns : List Turn → LoopState S → Option (LoopState S × List Mbuf)
  run_turns [] st = some (st, [])
  run_turns (t ∷ turns) st = elim (run_round dpdk cfg acfg port t.pool t.now (showing t.block st)) [
    | none ↦ none
    | some r ↦ freeing r.1 (run_turns turns r.0)
  ]

  abbrev pub as_program : Option (LoopState S × List Mbuf) → Program S
  as_program none = faulted
  as_program (some r) = running r.0 r.1

  unfoldable pub run : Parts → List Turn → LoopState S → Program S
  unfolding ready_for_run
  run parts turns st =
      if not (ready_for_run parts) then returned 1 else as_program (run_turns turns st)

-- What `init` has set where it returns 0.
abbrev pub all_parts : Parts
all_parts = record { netif = true; forwarder = true; sessions = true; cp = true }

module _ {R W S : Type 0} (dpdk : Dpdk) (p : Posix) (machine : List (List ℕ) → Machine R W)
    (port : DpdkNetif R → Port S) where
  abbrev pub loop_from : ℕ → S → Ready R W → LoopState S
  loop_from start s r = record { gw = r.services.gw; timers = first_timers start; port = s }

  unfoldable pub run_after : ℕ → S → List Turn → Outcome R W → Program S
  run_after start s turns Outcome.exits = exited
  run_after start s turns Outcome.fails = returned 1
  run_after start s turns (Outcome.ready r) =
      run dpdk r.services.fcfg r.services.acfg (port r.netif) all_parts turns (loop_from start s r)

  -- `parse` is gflags; the machine answers to the arguments of the EAL. `start` is the reading of the
  -- clock before the loop, and `s` the state of the port then.
  unfoldable pub main :
      (List (List ℕ) → Flags → Flags)
      → List ℕ
      → List (List ℕ)
      → Flags
      → W
      → p.World
      → ℕ
      → S
      → List Turn
      → Program S
  main parse program args flags w pw start s turns =
      let (flags, eal_argv) = parse_vgw_command_line_flags parse program args flags in
      let shm = view p (open_shm p cp_shm_name true (some (lab_seed dpdk)) pw) in
      run_after start s turns (Startup.init dpdk (machine eal_argv) flags w shm)
