-- ===== src/Tests/Programs.antt =====
-- The program from its command line on, to a round that receives two queries.
use violet_gw.Prelude.{
  ℕ, true, none, some, List, [], ◌∷◌, ◌++◌, ◌≡◌, refl, arith, ◌≤◌, ◌+◌, ◌*◌, length, take, subst,
}
use violet_gw.Prelude
use violet_gw.Dpdk.{Mbuf}
use violet_gw.Datapath.{
  datapath_config_defaults, bytes_of_text, parse_datapath_mode, parse_rtc_steer, resolve_rtc_path,
}
use violet_gw.Datapath.Flags.{
  Flags, default_flags, parse_vgw_command_line_flags, datapath_config_from_flags,
}
use violet_gw.Netif.{Nic, DpdkNetif, new_netif, recv_burst}
use violet_gw.Netif
use violet_gw.Netif.Eal
use violet_gw.Netif.Eal.{start_dev}
use violet_gw.Netif.Manager
use violet_gw.Netif.Manager.{new_manager, is_enabled, get_netif}
use violet_gw.Upstream.{BalancePolicy}
use violet_gw.Shm.{CpShmBlock, publish}
use violet_gw.Shm.Open.{open_shm}
use violet_gw.Gateway.Services.{services_over, created_shm, lab_seed, init_services}
use violet_gw.Gateway.Attach.{cp_shm_name, view}
use violet_gw.Gateway.Startup
use violet_gw.Gateway.Startup.{Ready, Outcome}
use violet_gw.Gateway.Startup.Laws.{Starts, Follows, init-Follows}
use violet_gw.Gateway.Loop.{LoopState, Port, run_round}
use violet_gw.Gateway.Loop.Waiting.{Fit}
use violet_gw.Gateway.Loop.Safety.{run_round-Fit}
use violet_gw.Gateway.Loop.Totals.{IsPort, held}
use violet_gw.Gateway.Run.{Turn, showing, running, main, loop_from, run_turns, run_after, run}
use violet_gw.Gateway.Run.Totals.{received_in, lost_over, probes_over, main-Accounts}
use violet_gw.Gateway.Run.Worker.{IsNic, rtc_port, rtc_port-IsPort}
use violet_gw.Tests.{machine, query}
use violet_gw.Tests.Gateways.{buffer}
use violet_gw.Tests.Ports.{Queue, Table, rte, idle}
use violet_gw.Tests.Segments.{posix, host}
use violet_gw.Tests.Starts

-- A device that counts what it has sent, a packet at a time.
abbrev one_of : List Mbuf → ℕ
one_of [] = 0
one_of (m ∷ tx) = 1

abbrev counting_nic : Nic ℕ
counting_nic = record {
  rx_burst = λ s port queue n. (take n (query ∷ query ∷ []), s);
  tx_burst = λ s port queue tx. (one_of tx, s + one_of tx);
}

one_of-le : (tx : List Mbuf) → one_of tx ≤ length tx
one_of-le [] = omega arith
one_of-le (m ∷ tx) = omega arith

counting_nic-IsNic : IsNic counting_nic
counting_nic-IsNic = record {
  taken = λ s. s;
  received = λ s port queue n. refl;
  within = λ s port queue tx. one_of-le tx;
  sent = λ s port queue tx. refl;
}

abbrev worker : DpdkNetif Queue → Port ℕ
worker d = rtc_port rte counting_nic d

-- gflags finds the mode.
abbrev gflags : List (List ℕ) → Flags → Flags
gflags argv flags = record flags { datapath_mode = bytes_of_text "rtc" }

abbrev args : List (List ℕ)
args = bytes_of_text "--datapath_mode=rtc" ∷ []

abbrev started : Outcome Queue Table
started =
    Startup.init machine Starts.host (gflags [] default_flags) idle
      (view posix (open_shm posix cp_shm_name true (some (lab_seed machine)) (host true)))

abbrev ready : Ready Queue Table
ready = elim started [
  | Outcome.ready r ↦ r
  | _ ↦ record {
    datapath = datapath_config_defaults;
    manager = new_manager;
    lcores = idle;
    netif = new_netif rte;
    services = services_over machine (created_shm machine);
  }
]

started-ready : started ≡ Outcome.ready ready
unfolding Startup.init datapath_config_from_flags parse_datapath_mode parse_rtc_steer Eal.init
    is_enabled datapath_config_defaults start_dev Manager.init resolve_rtc_path Netif.init get_netif
    Prelude.lookup Prelude.insert init_services open_shm
started-ready = refl

ready-Starts : Starts machine Starts.host (gflags [] default_flags) ready
unfolding Follows
ready-Starts =
    subst
      (Follows machine Starts.host (gflags [] default_flags) idle
        (view posix (open_shm posix cp_shm_name true (some (lab_seed machine)) (host true))))
      started-ready
      (init-Follows machine Starts.host (gflags [] default_flags) idle
        (view posix (open_shm posix cp_shm_name true (some (lab_seed machine)) (host true))))

abbrev machine_of : List (List ℕ) → Startup.Machine Queue Table
machine_of eal_argv = Starts.host

abbrev first : LoopState ℕ
first = loop_from machine posix machine_of worker 0 0 ready

two_received : length ((worker ready.netif).recv_burst 0 32).0 ≡ 2
unfolding Startup.init datapath_config_from_flags parse_datapath_mode parse_rtc_steer Eal.init
    is_enabled datapath_config_defaults start_dev Manager.init resolve_rtc_path Netif.init get_netif
    Prelude.lookup Prelude.insert init_services open_shm recv_burst
two_received = refl

-- By the first round the control plane has published another endpoint.
abbrev published : CpShmBlock
published =
    publish
      (record {
        policy = BalancePolicy.rr;
        endpoints = record { ip_be = 0x0200_000a; port = 53 } ∷ [];
      })
      ready.services.gw.cp.hdr

abbrev round :
    (r : LoopState ℕ × List Mbuf) × (run_round machine ready.services.fcfg ready.services.acfg
        (worker ready.netif)
        (λ i. buffer)
        1000
        (showing published first)
      ≡ some r)
    × Fit r.0.gw
round =
    run_round-Fit machine ready.services.fcfg ready.services.acfg (worker ready.netif) (λ i. buffer)
      1000 (showing published first)
      (record { sessions = ready-Starts.fit.sessions; queues = ready-Starts.fit.queues })
      (omega (arith, ready-Starts.empty, two_received))

abbrev one_turn : List Turn
one_turn = record { now = 1000; pool = λ i. buffer; block = published } ∷ []

main_runs :
    main machine posix machine_of worker gflags [] args default_flags idle (host true) 0 0 one_turn
    ≡ running round.0.0 (round.0.1 ++ [])
unfolding main parse_vgw_command_line_flags run_after run run_turns
main_runs = rw started-ready (rw (round.1, run_turns) refl)

abbrev ports : (d : DpdkNetif Queue) → IsPort (worker d)
ports d = rtc_port-IsPort rte counting_nic d counting_nic-IsNic

-- What the run receives, holds and loses, from the start `r` on.
abbrev received_from : Ready Queue Table → ℕ
received_from r =
    received_in machine r.services.fcfg r.services.acfg (worker r.netif) one_turn
      (loop_from machine posix machine_of worker 0 0 r)

abbrev left_from : Ready Queue Table → ℕ
left_from r =
    held machine r.services.fcfg r.services.acfg (worker r.netif) (ports r.netif)
      (round.0.0, round.0.1 ++ [])
    + lost_over machine r.services.fcfg r.services.acfg (worker r.netif) one_turn
        (loop_from machine posix machine_of worker 0 0 r)

abbrev probes_from : Ready Queue Table → ℕ
probes_from r =
    probes_over machine r.services.fcfg r.services.acfg (worker r.netif) one_turn
      (loop_from machine posix machine_of worker 0 0 r)

main-Accounts_example :
    (r : Ready Queue Table) × Starts machine Starts.host (gflags [] default_flags) r
    × Fit round.0.0.gw
    × (left_from r ≡ (ports r.netif).taken 0 + received_from r + probes_from r)
unfolding parse_vgw_command_line_flags lost_over received_in probes_over
main-Accounts_example =
    main-Accounts machine posix machine_of worker ports gflags [] args default_flags idle
      (host true) 0 0 one_turn round.0.0 (round.0.1 ++ []) main_runs
