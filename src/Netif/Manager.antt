-- ===== src/Netif/Manager.antt =====
-- `DpdkNetifManager` of dpdk/netif.cpp: the interfaces by port, and the lcores that serve them. What
-- the EAL runs on an lcore is a parameter, with what DPDK documents of it. `W` is the state of the
-- lcores.
pub mod Lookups
use violet_gw.Prelude.{
  ℕ, zero, suc, Bool, true, false, not, Option, none, some, List, [], ◌≡◌, ◌+◌, ◌^◌, ◌==◌, bit_and,
  if◌then◌else◌, Map, lookup, insert, map, nat_eq,
}
use violet_gw.Datapath.{
  io_tx_ring_full_sleep_us, datapath_config_defaults, DatapathMode, RtcResolvedPath, Params,
  PipelineParams, DatapathConfig, new_pipeline_params, resolve_rtc_path,
}
use violet_gw.Ring.{RteRing}
use violet_gw.Netif.{DpdkNetif, State}
use violet_gw.Netif

-- `run_recv` and `run_send` of the interface of a port.
pub data Task : Type 0 where
  recv : ℕ → Task
  send : ℕ → Task

abbrev pub port_of : Task → ℕ
port_of (recv port) = port
port_of (send port) = port

pub record Eal (W : Type 0) : Type 0 where
  pub lcore_id : ℕ
  pub next_lcore : ℕ → ℕ
  pub remote_launch : W → ℕ → Task → W

-- The documentation: a task is launched on an lcore that waits, and the call fails on one that runs.
-- The numbers are those of lcores that there are.
pub record IsEal {W : Type 0} (eal : Eal W) : Type 0 where
  pub runs : W → ℕ → Option Task
  pub busy : (w : W) (l : ℕ) (t old : Task) → runs w l ≡ some old → eal.remote_launch w l t ≡ w
  pub launched :
      (w : W) (l : ℕ) (t : Task) → runs w l ≡ none → runs (eal.remote_launch w l t) l ≡ some t
  pub others :
      (w : W) (l k : ℕ) (t : Task)
      → runs w l ≡ none
      → (k == l) ≡ false
      → runs (eal.remote_launch w l t) k ≡ runs w k

abbrev pub io_ports_per_rxtx_lcore_pair : ℕ
io_ports_per_rxtx_lcore_pair = 2

pub record NetifManager (R : Type 0) : Type 0 where
  pub netifs : Map ℕ (DpdkNetif R)
  pub cfg : DatapathConfig

abbrev pub new_manager : {R : Type 0} → NetifManager R
new_manager = record {
  netifs = [];
  cfg = record {
    mode = DatapathMode.pipeline;
    port_mask = 0;
    worker_port = 0;
    u = Params.pipeline_params new_pipeline_params;
  };
}

unfoldable pub is_enabled : ℕ → ℕ → Bool
is_enabled port_mask i = not (bit_and port_mask (2 ^ i) == 0)

-- `std::map::insert`, which keeps what is there.
abbrev pub insert_new : {R : Type 0} → ℕ → DpdkNetif R → Map ℕ (DpdkNetif R) → Map ℕ (DpdkNetif R)
insert_new i d m = elim (lookup i m) [ none ↦ insert i d m | some old ↦ m ]

-- The variables of the loop of `init`.
pub record Starting (R W : Type 0) : Type 0 where
  pub netifs : Map ℕ (DpdkNetif R)
  pub world : W
  pub rx_id : ℕ
  pub tx_id : ℕ
  pub cnt : ℕ

-- The test of the path; a read of parameters that are not those of the mode has no result.
abbrev pub is_direct : Params → Bool
is_direct (Params.pipeline_params p) = false
is_direct (Params.rtc_params r) = elim (resolve_rtc_path r false) [
  | RtcResolvedPath.direct ↦ true
  | _ ↦ false
]

abbrev pub is_available : DatapathConfig → Bool
is_available cfg = elim cfg.mode [
  | DatapathMode.pipeline ↦ true
  | DatapathMode.rtc ↦ is_direct cfg.u
]

pub record IoOptions : Type 0 where
  pub rx_lcore : Bool
  pub tx_lcore : Bool
  pub ring_size : ℕ

-- The parameters that `datapath_config_defaults` sets.
abbrev default_params : PipelineParams
default_params = record new_pipeline_params { tx_ring_full_sleep_us = io_tx_ring_full_sleep_us }

module _ {R W : Type 0} (rte : RteRing R) (eal : Eal W) where
  -- The launches for the port `i`, and the lcores for the next one.
  unfoldable pub launch_port : PipelineParams → ℕ → Starting R W → Starting R W
  launch_port p i st =
      let w₁ =
        if p.launch_rx_lcore then eal.remote_launch st.world st.rx_id (Task.recv i) else st.world in
      let w₂ = if p.launch_tx_lcore then eal.remote_launch w₁ st.tx_id (Task.send i) else w₁ in
      let rx_id = eal.next_lcore st.tx_id in
      if st.cnt + 1 == io_ports_per_rxtx_lcore_pair
      then record st { world = w₂; rx_id = rx_id; tx_id = eal.next_lcore rx_id; cnt = 0 }
      else record st { world = w₂; cnt = st.cnt + 1 }

  abbrev pub launch_params : Params → ℕ → Starting R W → Starting R W
  launch_params (Params.pipeline_params p) i st = launch_port p i st
  launch_params (Params.rtc_params r) i st = st

  -- One turn of the loop for an enabled port.
  unfoldable pub start_port : DatapathConfig → ℕ → Starting R W → Option (Starting R W)
  unfolding launch_port
  start_port cfg i st = elim (Netif.init rte i cfg) [
    | none ↦ none
    | some d ↦
        let st' : Starting R W = record st { netifs = insert_new i d st.netifs } in
        elim cfg.mode [
          | DatapathMode.rtc ↦ some st'
          | DatapathMode.pipeline ↦ some (launch_params cfg.u i st')
        ]
  ]

  -- The `n` turns of the loop from `i` on.
  unfoldable pub start_ports : DatapathConfig → ℕ → ℕ → Starting R W → Option (Starting R W)
  unfolding start_port
  start_ports cfg i zero st = some st
  start_ports cfg i (suc n) st = elim (is_enabled cfg.port_mask i) [
    | false ↦ start_ports cfg (i + 1) n st
    | true ↦ elim (start_port cfg i st) [ none ↦ none | some st' ↦ start_ports cfg (i + 1) n st' ]
  ]

  abbrev pub started : DatapathConfig → Starting R W → NetifManager R × W
  started cfg st = (record { netifs = st.netifs; cfg = cfg }, st.world)

  -- The first pair of lcores; in the other mode there is none, and the numbers are not used.
  abbrev pub starting : NetifManager R → W → Starting R W
  starting mg w = record {
    netifs = mg.netifs;
    world = w;
    rx_id = eal.next_lcore eal.lcore_id;
    tx_id = eal.next_lcore (eal.next_lcore eal.lcore_id);
    cnt = 0;
  }

  -- `none` is an exit of the program.
  unfoldable pub init : DatapathConfig → NetifManager R → W → Option (NetifManager R × W)
  unfolding start_ports
  init cfg mg w =
      if is_available cfg
      then elim (start_ports cfg 0 32 (starting mg w)) [
        | none ↦ none
        | some st ↦ some (started cfg st)
      ]
      else none

  -- The other two forms of `init`, of which the second sets what its options say.
  unfoldable pub init_defaults : NetifManager R → W → Option (NetifManager R × W)
  unfolding init
  init_defaults mg w = init datapath_config_defaults mg w

  unfoldable pub init_options : IoOptions → NetifManager R → W → Option (NetifManager R × W)
  unfolding init
  init_options opts mg w =
      init
        (record datapath_config_defaults {
          u = Params.pipeline_params (record default_params {
            ring_size = opts.ring_size;
            launch_rx_lcore = opts.rx_lcore;
            launch_tx_lcore = opts.tx_lcore;
          });
        })
        mg w

abbrev pub stopped : {R : Type 0} → State R → State R
stopped (State.pipeline_state p) = State.pipeline_state (record p { stop = true })
stopped s = s

abbrev pub stop_entry : {R : Type 0} → ℕ × DpdkNetif R → ℕ × DpdkNetif R
stop_entry (i, d) = (i, record d { state = stopped d.state })

unfoldable pub stop : {R : Type 0} → NetifManager R → NetifManager R
stop mg = record mg { netifs = map stop_entry mg.netifs }

unfoldable pub get_netif : {R : Type 0} → ℕ → NetifManager R → Option (DpdkNetif R)
get_netif port mg = lookup port mg.netifs
