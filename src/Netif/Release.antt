-- ===== src/Netif/Release.antt =====
-- `reset_state` of dpdk/netif.cpp, with which an interface gives back its rings, and the callers of
-- it: `init` over an interface that has been in use, and the two destructors. The rings that are
-- freed are a result; their list follows the entries of the map as Netif/Manager keeps them.
pub mod Rings
use violet_gw.Prelude.{
  ℕ, Option, none, some, List, [], ◌∷◌, ◌++◌, ◌+◌, ◌≡◌, refl, map, zero, suc, Bool-cases,
  Option-cases, inl, inr, Map, lookup, insert, subst, ap, ◌∙◌, ◌==◌, nat_eq,
}
use violet_gw.Datapath.{DatapathMode, DatapathConfig, Params}
use violet_gw.Ring.{RteRing, Ring, make_ring}
use violet_gw.Netif.{DpdkNetif, State, PipelineState, new_netif, with_rings, ring_cap}
use violet_gw.Netif
use violet_gw.Netif.Manager.{
  Eal, NetifManager, Starting, new_manager, is_enabled, insert_new, start_port, start_ports,
  launch_params, is_available, starting, started, stop_entry, stop, stopped,
}
use violet_gw.Netif.Manager
use violet_gw.Netif.Manager.Lookups.{turn-netifs}

-- The members of the pipeline's state are destroyed from the last one.
abbrev pub rings_of : {R : Type 0} → PipelineState R → List (Ring R)
rings_of s = s.tx_ring ∷ s.rx_ring ∷ []

-- `none` is the destructor of a member of the union that is not the one in use.
unfoldable pub reset_state : {R : Type 0} → DpdkNetif R → Option (DpdkNetif R × List (Ring R))
reset_state d = elim d.state [
  | State.inactive ↦ some (d, [])
  | State.pipeline_state s ↦ elim d.mode [
    | DatapathMode.pipeline ↦ some (record d { state = State.inactive }, rings_of s)
    | DatapathMode.rtc ↦ none
  ]
  | State.rtc_state ↦ elim d.mode [
    | DatapathMode.pipeline ↦ none
    | DatapathMode.rtc ↦ some (record d { state = State.inactive }, [])
  ]
]

-- `init` over the interface as it stands; Netif has what it makes after `reset_state`.
unfoldable pub init_over :
    {R : Type 0}
    → RteRing R
    → DpdkNetif R
    → ℕ
    → DatapathConfig
    → Option (DpdkNetif R × List (Ring R))
unfolding reset_state
init_over rte d port cfg = elim (reset_state d) [
  | none ↦ none
  | some (idle, rings) ↦ elim (Netif.init rte port cfg) [ none ↦ none | some d' ↦ some (d', rings) ]
]

-- The destructor of an interface.
unfoldable pub destroy : {R : Type 0} → DpdkNetif R → Option (List (Ring R))
unfolding reset_state
destroy d = elim (reset_state d) [ none ↦ none | some (idle, rings) ↦ some rings ]

-- The destructor of the manager.
unfoldable pub destroy_all : {R : Type 0} → Map ℕ (DpdkNetif R) → Option (List (Ring R))
unfolding destroy
destroy_all [] = some []
destroy_all ((i, d) ∷ rest) =
    let others = destroy_all rest in
    elim (destroy d) [
      | none ↦ none
      | some rings ↦ elim others [ none ↦ none | some more ↦ some (rings ++ more) ]
    ]
