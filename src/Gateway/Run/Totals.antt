-- ===== src/Gateway/Run/Totals.antt =====
-- The account of the packets over a whole run of the program, from `main` of main.cpp on.
use violet_gw.Prelude.{
  ℕ, true, Option, none, some, List, [], ◌∷◌, ◌≡◌, refl, arith, ◌++◌, ◌+◌, ◌∙◌, length,
  length-append, Option-cases, inl, inr, subst, ap,
}
use violet_gw.Dpdk.{Dpdk, Mbuf}
use violet_gw.Forward.Types.{ForwardConfig}
use violet_gw.Arp.{ArpConfig}
use violet_gw.Datapath.Flags.{Flags, parse_vgw_command_line_flags}
use violet_gw.Netif.{DpdkNetif}
use violet_gw.Shm.Open.{Posix, open_shm}
use violet_gw.Gateway.Services.{lab_seed}
use violet_gw.Gateway.Attach.{cp_shm_name, view}
use violet_gw.Gateway.Startup.{Machine, Ready, Outcome}
use violet_gw.Gateway.Startup
use violet_gw.Gateway.Startup.Laws.{Follows, Starts, init-Follows}
use violet_gw.Gateway.Loop.{
  Port, LoopState, io_rx_burst, run_round, run_timers, no_batch, with_pool,
}
use violet_gw.Gateway.Loop.Waiting.{waiting, Fit}
use violet_gw.Gateway.Loop.Accounts.{lost_in, probes_in}
use violet_gw.Gateway.Loop.Totals.{IsPort, held, run_round-Accounts}
use violet_gw.Gateway.Run.{
  Turn, showing, freeing, run_turns, running, run, loop_from, run_after, main,
}

module _ (dpdk : Dpdk) (cfg : ForwardConfig) (acfg : ArpConfig) {S : Type 0} (port : Port S) where
  -- The packets that a round receives, and those of them that are lost.
  abbrev pub round_rx : LoopState S → List Mbuf
  round_rx st = (port.recv_burst st.port io_rx_burst).0

  abbrev pub round_lost : Turn → LoopState S → ℕ
  round_lost t st =
      lost_in dpdk cfg acfg (with_pool t.pool 0 (round_rx st)) t.now
        ((run_timers t.now st.timers (showing t.block st).gw).0, no_batch)

  -- The probes that they cause.
  abbrev pub round_probes : Turn → LoopState S → ℕ
  round_probes t st =
      probes_in dpdk cfg acfg (with_pool t.pool 0 (round_rx st)) t.now
        ((run_timers t.now st.timers (showing t.block st).gw).0, no_batch)

  -- The same of a run.
  unfoldable pub received_in : List Turn → LoopState S → ℕ
  received_in [] st = 0
  received_in (t ∷ turns) st =
      length (round_rx st)
      + (elim (run_round dpdk cfg acfg port t.pool t.now (showing t.block st)) [
        | none ↦ 0
        | some r ↦ received_in turns r.0
      ])

  unfoldable pub lost_over : List Turn → LoopState S → ℕ
  lost_over [] st = 0
  lost_over (t ∷ turns) st =
      round_lost t st + (elim (run_round dpdk cfg acfg port t.pool t.now (showing t.block st)) [
        | none ↦ 0
        | some r ↦ lost_over turns r.0
      ])

  unfoldable pub probes_over : List Turn → LoopState S → ℕ
  probes_over [] st = 0
  probes_over (t ∷ turns) st =
      round_probes t st + (elim (run_round dpdk cfg acfg port t.pool t.now (showing t.block st)) [
        | none ↦ 0
        | some r ↦ probes_over turns r.0
      ])

  freeing-some :
      (freed : List Mbuf) (x : Option (LoopState S × List Mbuf)) (r : LoopState S × List Mbuf)
      → freeing dpdk cfg acfg port freed x ≡ some r
      → (y : LoopState S × List Mbuf) × (x ≡ some y) × ((y.0, freed ++ y.1) ≡ r)
  freeing-some freed none r e = cc
  freeing-some freed (some y) r e = (y, refl, cc e)

  pub run_turns-Accounts :
      (p : IsPort port) (turns : List Turn) (st : LoopState S) (r : LoopState S × List Mbuf)
      → Fit st.gw
      → run_turns dpdk cfg acfg port turns st ≡ some r
      → let before = p.taken st.port + waiting st.gw.arp_pending + received_in turns st in
        let after = held dpdk cfg acfg port p r + lost_over turns st in
        Fit r.0.gw × (after ≡ before + probes_over turns st)
  unfolding run_turns received_in lost_over probes_over
  run_turns-Accounts p [] st r fit e =
      let q : (st, []) ≡ r = cc e in
      subst
        (λ (x : LoopState S × List Mbuf).
          Fit x.0.gw
          × (held dpdk cfg acfg port p x + 0 ≡ p.taken st.port + waiting st.gw.arp_pending + 0 + 0))
        q (fit, omega arith)
  run_turns-Accounts p (t ∷ turns) st r fit e =
      let fit' : Fit (showing t.block st).gw = record {
        sessions = fit.sessions;
        queues = fit.queues;
      } in
      elim (Option-cases (run_round dpdk cfg acfg port t.pool t.now (showing t.block st))) [
        | inl fault ↦ cc (rw (fault, run_turns) at e)
        | inr (x, done) ↦
            let (y, rest, q) =
              freeing-some x.1 (run_turns dpdk cfg acfg port turns x.0) r
                (rw (done, run_turns) at e) in
            let (fit₁, total₁) =
              run_round-Accounts dpdk cfg acfg port p t.pool t.now (showing t.block st) x fit'
                done in
            let (fit₂, total₂) = run_turns-Accounts p turns x.0 y fit₁ rest in
            let got : received_in (t ∷ turns) st ≡ length (round_rx st) + received_in turns x.0 =
              rw (done, received_in) refl in
            let lost : lost_over (t ∷ turns) st ≡ round_lost t st + lost_over turns x.0 =
              rw (done, lost_over) refl in
            let probes : probes_over (t ∷ turns) st ≡ round_probes t st + probes_over turns x.0 =
              rw (done, probes_over) refl in
            let same_gw : y.0 ≡ r.0 = ap (λ (z : LoopState S × List Mbuf). z.0) q in
            let both : held dpdk cfg acfg port p r ≡ held dpdk cfg acfg port p y + length x.1 =
              subst
                (λ (z : LoopState S × List Mbuf).
                  held dpdk cfg acfg port p z ≡ held dpdk cfg acfg port p y + length x.1)
                q (omega (arith, length-append x.1 y.1)) in
            (
              subst (λ (z : LoopState S). Fit z.gw) same_gw fit₂,
              omega (arith, total₁, total₂, got, lost, probes, both),
            )
      ]

running-eq :
    {S : Type 0} (a b : LoopState S) (c d : List Mbuf)
    → running a c ≡ running b d
    → ◌≡◌ {A = LoopState S × List Mbuf} (a, c) (b, d)
running-eq a b c d e = cc

module _ {R W S : Type 0} (dpdk : Dpdk) (posix : Posix) (machine : List (List ℕ) → Machine R W)
    (port : DpdkNetif R → Port S) where
  ready_running :
      (start : ℕ) (s : S) (turns : List Turn) (o : Outcome R W) (st : LoopState S)
      (freed : List Mbuf)
      → run_after dpdk posix machine port start s turns o ≡ running st freed
      → (r : Ready R W) × (o ≡ Outcome.ready r)
        × (run_turns dpdk r.services.fcfg r.services.acfg
              (port r.netif)
              turns
              (loop_from dpdk posix machine port start s r)
            ≡ some (st, freed))
  unfolding run_after run
  ready_running start s turns Outcome.exits st freed e = cc
  ready_running start s turns Outcome.fails st freed e = cc
  ready_running start s turns (Outcome.ready r) st freed e =
      elim (Option-cases (
        run_turns dpdk r.services.fcfg r.services.acfg (port r.netif) turns
          (loop_from dpdk posix machine port start s r))) [
            | inl fault ↦ cc (rw fault at e)
            | inr (x, done) ↦
                let same : running x.0 x.1 ≡ running st freed = rw done at e in
                (r, refl, done ∙ ap some (running-eq x.0 st x.1 freed same))
          ]

  -- For any flags, machine and shared memory, which other programs may write between the rounds: where the
  -- program runs, it has started as `init` is to leave it, the session table is valid and the queues stand
  -- under different addresses. The number of packets that wait, that the port has taken or that are freed,
  -- with those that were to wait for the address 0 and are lost, is exactly the number of those that
  -- the port had taken before and that were received since, with the probes that they caused.
  pub main-Accounts :
      (ports : (d : DpdkNetif R) → IsPort (port d)) (parse : List (List ℕ) → Flags → Flags)
      (program : List ℕ) (args : List (List ℕ)) (flags : Flags) (w : W) (pw : posix.World)
      (start : ℕ) (s : S) (turns : List Turn) (st : LoopState S) (freed : List Mbuf)
      → main dpdk posix machine port parse program args flags w pw start s turns ≡ running st freed
      → (r : Ready R W) × Starts dpdk
          (machine (parse_vgw_command_line_flags parse program args flags).1)
          (parse_vgw_command_line_flags parse program args flags).0
          r
        × Fit st.gw
        × (held dpdk r.services.fcfg r.services.acfg (port r.netif) (ports r.netif) (st, freed)
              + lost_over dpdk r.services.fcfg r.services.acfg
                  (port r.netif)
                  turns
                  (loop_from dpdk posix machine port start s r)
            ≡ (ports r.netif).taken s
              + received_in dpdk r.services.fcfg r.services.acfg
                  (port r.netif)
                  turns
                  (loop_from dpdk posix machine port start s r)
              + probes_over dpdk r.services.fcfg r.services.acfg
                  (port r.netif)
                  turns
                  (loop_from dpdk posix machine port start s r))
  unfolding main Follows
  main-Accounts ports parse program args flags w pw start s turns st freed e =
      let given = parse_vgw_command_line_flags parse program args flags in
      let shm = view posix (open_shm posix cp_shm_name true (some (lab_seed dpdk)) pw) in
      let (r, came, done) =
        ready_running start s turns (Startup.init dpdk (machine given.1) given.0 w shm) st freed
          e in
      let starts : Starts dpdk (machine given.1) given.0 r =
        subst (Follows dpdk (machine given.1) given.0 w shm) came
          (init-Follows dpdk (machine given.1) given.0 w shm) in
      let (fit, total) =
        run_turns-Accounts dpdk r.services.fcfg r.services.acfg (port r.netif) (ports r.netif) turns
          (loop_from dpdk posix machine port start s r) (st, freed) starts.fit done in
      (r, starts, fit, omega (arith, total, starts.empty))
