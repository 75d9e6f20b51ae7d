-- ===== src/Datapath.antt =====
-- The configuration of the data path: dpdk/datapath_config.hpp, dpdk/datapath_config.cpp and the
-- constants of dpdk/config.hpp that it uses. The union of the parameters is a data type, and a read of
-- the member that is not the active one has no result.
pub mod Flags
pub mod Laws
pub mod Arguments
use Prim.Native.Char.{code}
use Prim.Native.String.{String}
use violet_gw.Prelude.{
  ℕ, Bool, true, false, Option, none, some, List, [], ◌∷◌, ◌==◌, leb, ◌&&◌, if◌then◌else◌,
}

-- An `int`, and a C string as its bytes.
pub data ℤ : Type 0 where
  pos : ℕ → ℤ
  negsuc : ℕ → ℤ

abbrev pub is_negative : ℤ → Bool
is_negative (pos n) = false
is_negative (negsuc n) = true

abbrev pub bytes_of_text : String → List ℕ
bytes_of_text String.[] = []
bytes_of_text (String.◌∷◌ c s) = code c ∷ bytes_of_text s

abbrev pub str_eq : List ℕ → List ℕ → Bool
str_eq [] [] = true
str_eq [] (d ∷ t) = false
str_eq (c ∷ s) [] = false
str_eq (c ∷ s) (d ∷ t) = c == d && str_eq s t

abbrev pub valid_port_marks : ℕ
valid_port_marks = 1

abbrev pub io_tx_ring_full_sleep_us : ℤ
io_tx_ring_full_sleep_us = pos 10

pub data DatapathMode : Type 0 where
  pipeline : DatapathMode
  rtc : DatapathMode

pub data RtcSteer : Type 0 where
  auto : RtcSteer
  hw_rss : RtcSteer
  soft_rr : RtcSteer

pub data RtcResolvedPath : Type 0 where
  direct : RtcResolvedPath
  hw_rss : RtcResolvedPath
  soft_rr : RtcResolvedPath

pub record PipelineParams : Type 0 where
  pub ring_size : ℕ
  pub launch_rx_lcore : Bool
  pub launch_tx_lcore : Bool
  pub tx_ring_full_sleep_us : ℤ

pub record RtcParams : Type 0 where
  pub steer : RtcSteer
  pub workers : ℕ
  pub rx_queues : ℕ
  pub tx_queues : ℕ
  pub dist_ring_size : ℕ

pub data Params : Type 0 where
  pipeline_params : PipelineParams → Params
  rtc_params : RtcParams → Params

pub record DatapathConfig : Type 0 where
  pub mode : DatapathMode
  pub port_mask : ℕ
  pub worker_port : ℕ
  pub u : Params

-- The members with their initializers.
abbrev pub new_pipeline_params : PipelineParams
new_pipeline_params = record {
  ring_size = 0;
  launch_rx_lcore = true;
  launch_tx_lcore = true;
  tx_ring_full_sleep_us = pos 10;
}

abbrev pub new_rtc_params : RtcParams
new_rtc_params = record {
  steer = RtcSteer.auto;
  workers = 1;
  rx_queues = 0;
  tx_queues = 0;
  dist_ring_size = 0;
}

unfoldable pub datapath_config_defaults : DatapathConfig
datapath_config_defaults = record {
  mode = DatapathMode.pipeline;
  port_mask = valid_port_marks;
  worker_port = 0;
  u = Params.pipeline_params (record {
    ring_size = 0;
    launch_rx_lcore = true;
    launch_tx_lcore = true;
    tx_ring_full_sleep_us = io_tx_ring_full_sleep_us;
  });
}

unfoldable pub resolve_rtc_path : RtcParams → Bool → RtcResolvedPath
resolve_rtc_path params hw_rss_usable =
    if leb params.workers 1 then RtcResolvedPath.direct else elim params.steer [
      | RtcSteer.hw_rss ↦ RtcResolvedPath.hw_rss
      | RtcSteer.soft_rr ↦ RtcResolvedPath.soft_rr
      | RtcSteer.auto ↦ if hw_rss_usable then RtcResolvedPath.hw_rss else RtcResolvedPath.soft_rr
    ]

-- The null tests are left out: a caller has a string and a place for the result.
unfoldable pub parse_datapath_mode : List ℕ → Option DatapathMode
parse_datapath_mode s =
    if str_eq s (bytes_of_text "pipeline")
    then some DatapathMode.pipeline
    else if str_eq s (bytes_of_text "rtc")
    then some DatapathMode.rtc
    else none

unfoldable pub parse_rtc_steer : List ℕ → Option RtcSteer
parse_rtc_steer s =
    if str_eq s (bytes_of_text "auto")
    then some RtcSteer.auto
    else if str_eq s (bytes_of_text "hw_rss")
    then some RtcSteer.hw_rss
    else if str_eq s (bytes_of_text "soft_rr")
    then some RtcSteer.soft_rr
    else none
