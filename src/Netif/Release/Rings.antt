-- ===== src/Netif/Release/Rings.antt =====
-- What the destructors of dpdk/netif.cpp free, beside what the interfaces hold.
use violet_gw.Prelude.{
  ℕ, some, List, [], ◌∷◌, ◌++◌, ◌≡◌, refl, Option-cases, inl, inr, Map, subst, nat_eq,
}
use violet_gw.Datapath.{DatapathMode, DatapathConfig, Params}
use violet_gw.Ring.{RteRing, Ring, make_ring}
use violet_gw.Netif.{DpdkNetif, State, PipelineState, new_netif, with_rings, ring_cap}
use violet_gw.Netif
use violet_gw.Netif.Manager.{launch_params}
use violet_gw.Netif.Manager
use violet_gw.Netif.Release.{reset_state, init_over, destroy, destroy_all}

-- The member of the union in use is that of the mode.
abbrev pub Agrees : {R : Type 0} → DpdkNetif R → Type 0
Agrees d = elim d.state [
  | State.inactive ↦ Unit
  | State.pipeline_state s ↦ d.mode ≡ DatapathMode.pipeline
  | State.rtc_state ↦ d.mode ≡ DatapathMode.rtc
]

-- The rings that a state holds.
abbrev pub held_rings : {R : Type 0} → State R → List (Ring R)
held_rings (State.pipeline_state s) = s.tx_ring ∷ s.rx_ring ∷ []
held_rings s = []

reset_state_made :
    {R : Type 0} (mode : DatapathMode) (port queue : ℕ) (s : State R)
    → Agrees (record { mode = mode; port_id = port; queue_id = queue; state = s })
    → reset_state (record { mode = mode; port_id = port; queue_id = queue; state = s })
      ≡ some (
        record { mode = mode; port_id = port; queue_id = queue; state = State.inactive },
        held_rings s,
      )
unfolding reset_state
reset_state_made mode port queue State.inactive a = refl
reset_state_made DatapathMode.pipeline port queue (State.pipeline_state s) a = refl
reset_state_made DatapathMode.rtc port queue (State.pipeline_state s) a = cc a
reset_state_made DatapathMode.pipeline port queue State.rtc_state a = cc a
reset_state_made DatapathMode.rtc port queue State.rtc_state a = refl

-- An interface whose state is that of its mode frees the rings that it holds, and is inactive then.
pub reset_state-Agrees :
    {R : Type 0} (d : DpdkNetif R)
    → Agrees d
    → reset_state d ≡ some (record d { state = State.inactive }, held_rings d.state)
reset_state-Agrees d a = reset_state_made d.mode d.port_id d.queue_id d.state a

init_made :
    {R : Type 0} (rte : RteRing R) (port mask worker : ℕ) (mode : DatapathMode) (u : Params)
    (d : DpdkNetif R)
    → Netif.init rte port (record { mode = mode; port_mask = mask; worker_port = worker; u = u })
      ≡ some d
    → Agrees d
unfolding Netif.init
init_made rte port mask worker DatapathMode.rtc u d e =
    let made : record {
      mode = DatapathMode.rtc;
      port_id = port;
      queue_id = 0;
      state = State.rtc_state;
    }
        ≡ d =
      cc e in
    subst Agrees made refl
init_made rte port mask worker DatapathMode.pipeline (Params.rtc_params r) d e = cc e
init_made rte port mask worker DatapathMode.pipeline (Params.pipeline_params p) d e =
    let ring = make_ring rte (ring_cap rte p) in
    elim (Option-cases (with_rings rte p ring ring)) [
      | inl exit ↦ cc (rw (exit, Netif.init) at e)
      | inr (s, made) ↦
          let same : record {
            mode = DatapathMode.pipeline;
            port_id = port;
            queue_id = 0;
            state = State.pipeline_state s;
          }
              ≡ d =
            cc (rw (made, Netif.init) at e) in
          subst Agrees same refl
    ]

-- What `init` makes has the state of its mode.
pub init-Agrees :
    {R : Type 0} (rte : RteRing R) (port : ℕ) (cfg : DatapathConfig) (d : DpdkNetif R)
    → Netif.init rte port cfg ≡ some d
    → Agrees d
init-Agrees rte port cfg d e = init_made rte port cfg.port_mask cfg.worker_port cfg.mode cfg.u d e

-- A new interface frees nothing, so `init` over it is that of Netif.
pub init_over-new_netif :
    {R : Type 0} (rte : RteRing R) (port : ℕ) (cfg : DatapathConfig) (d : DpdkNetif R)
    → Netif.init rte port cfg ≡ some d
    → init_over rte (new_netif rte) port cfg ≡ some (d, [])
unfolding init_over reset_state
init_over-new_netif rte port cfg d e = rw (e, init_over) refl

-- All interfaces of a map have the state of their mode.
abbrev pub AllAgree : {R : Type 0} → Map ℕ (DpdkNetif R) → Type 0
AllAgree [] = Unit
AllAgree ((i, d) ∷ rest) = Agrees d × AllAgree rest

-- The rings that the interfaces of a map hold.
abbrev pub all_rings : {R : Type 0} → Map ℕ (DpdkNetif R) → List (Ring R)
all_rings [] = []
all_rings ((i, d) ∷ rest) = held_rings d.state ++ all_rings rest

-- The destructor of the manager frees exactly the rings that its interfaces hold.
pub destroy_all-all_rings :
    {R : Type 0} (m : Map ℕ (DpdkNetif R)) → AllAgree m → destroy_all m ≡ some (all_rings m)
unfolding destroy_all destroy
destroy_all-all_rings [] a = refl
destroy_all-all_rings ((i, d) ∷ rest) a =
    let here = reset_state-Agrees d a.0 in
    let there = destroy_all-all_rings rest a.1 in
    rw (here, destroy_all) (rw (there, destroy_all) refl)
