-- ===== src/Datapath/Flags.antt =====
-- The command line of the gateway: dpdk/datapath_flags.cpp. The parser of the flags' values is the
-- library gflags, a parameter here; `rte_exit` ends the program, with the reason as a value.
use violet_gw.Prelude.{
  ℕ, Bool, true, false, none, some, List, [], ◌∷◌, ◌==◌, ◌&&◌, ◌||◌, ◌%◌, not, leb, ltb,
  if◌then◌else◌, u16_mod, u32_mod,
}
use violet_gw.Datapath.{
  ℤ, is_negative, bytes_of_text, str_eq, DatapathMode, RtcSteer, Params, RtcParams, DatapathConfig,
  new_pipeline_params, new_rtc_params, datapath_config_defaults, parse_datapath_mode,
  parse_rtc_steer,
}

abbrev pub has_prefix : List ℕ → List ℕ → Bool
has_prefix value [] = true
has_prefix [] (d ∷ prefix) = false
has_prefix (c ∷ value) (d ∷ prefix) = c == d && has_prefix value prefix

unfoldable pub is_vgw_flag : List ℕ → Bool
is_vgw_flag arg =
    has_prefix arg (bytes_of_text "--datapath_")
    || has_prefix arg (bytes_of_text "--io_")
    || has_prefix arg (bytes_of_text "--noio_")
    || has_prefix arg (bytes_of_text "--rtc_")
    || has_prefix arg (bytes_of_text "--flagfile")
    || str_eq arg (bytes_of_text "--help")
    || str_eq arg (bytes_of_text "--helpfull")
    || str_eq arg (bytes_of_text "--helpshort")
    || str_eq arg (bytes_of_text "--helpxml")
    || str_eq arg (bytes_of_text "--version")

-- `arg.find('=')` found one, and the text before it.
abbrev pub has_separator : List ℕ → Bool
has_separator [] = false
has_separator (c ∷ s) = c == b'=' || has_separator s

abbrev pub name_of : List ℕ → List ℕ
name_of [] = []
name_of (c ∷ s) = if c == b'=' then [] else c ∷ name_of s

unfoldable pub flag_requires_value : List ℕ → Bool
flag_requires_value arg =
    let name = name_of arg in
    str_eq name (bytes_of_text "--datapath_mode")
    || str_eq name (bytes_of_text "--datapath_port_mask")
    || str_eq name (bytes_of_text "--datapath_worker_port")
    || str_eq name (bytes_of_text "--io_ring_size")
    || str_eq name (bytes_of_text "--io_tx_ring_full_sleep_us")
    || str_eq name (bytes_of_text "--rtc_steer")
    || str_eq name (bytes_of_text "--rtc_workers")
    || str_eq name (bytes_of_text "--rtc_dist_ring_size")
    || str_eq name (bytes_of_text "--flagfile")

abbrev pub takes_next : List ℕ → Bool
takes_next arg = flag_requires_value arg && not (has_separator arg)

abbrev pub end_mark : List ℕ
end_mark = bytes_of_text "--"

-- The arguments for the flags and those for the EAL.
pub record Split : Type 0 where
  pub vgw_argv : List (List ℕ)
  pub eal_argv : List (List ℕ)

-- The loop over `argv`. The flag is set while an option waits for its value, the next argument.
unfoldable pub split_from : Bool → List (List ℕ) → Split
split_from waits [] = record { vgw_argv = []; eal_argv = [] }
split_from true (arg ∷ rest) =
    let r = split_from false rest in record r { vgw_argv = arg ∷ r.vgw_argv }
split_from false (arg ∷ rest) =
    let r = split_from (is_vgw_flag arg && takes_next arg) rest in
    if str_eq arg end_mark
    then record { vgw_argv = []; eal_argv = arg ∷ rest }
    else if is_vgw_flag arg
    then record r { vgw_argv = arg ∷ r.vgw_argv }
    else record r { eal_argv = arg ∷ r.eal_argv }

-- The name of the program comes first in both.
unfoldable pub split_argv : List ℕ → List (List ℕ) → Split
unfolding split_from
split_argv program args =
    let r = split_from false args in
    record { vgw_argv = program ∷ r.vgw_argv; eal_argv = program ∷ r.eal_argv }

-- The values of the flags.
pub record Flags : Type 0 where
  pub datapath_mode : List ℕ
  pub datapath_port_mask : ℕ
  pub datapath_worker_port : ℕ
  pub io_ring_size : ℕ
  pub io_rx_lcore : Bool
  pub io_tx_lcore : Bool
  pub io_tx_ring_full_sleep_us : ℤ
  pub rtc_steer : List ℕ
  pub rtc_workers : ℕ
  pub rtc_dist_ring_size : ℕ

abbrev pub default_flags : Flags
default_flags = record {
  datapath_mode = bytes_of_text "pipeline";
  datapath_port_mask = 0;
  datapath_worker_port = 0;
  io_ring_size = 0;
  io_rx_lcore = true;
  io_tx_lcore = true;
  io_tx_ring_full_sleep_us = ℤ.pos 10;
  rtc_steer = bytes_of_text "auto";
  rtc_workers = 1;
  rtc_dist_ring_size = 0;
}

-- `parse` is `gflags::ParseCommandLineFlags`.
unfoldable pub parse_vgw_command_line_flags :
    (List (List ℕ) → Flags → Flags) → List ℕ → List (List ℕ) → Flags → Flags × List (List ℕ)
unfolding split_argv
parse_vgw_command_line_flags parse program args flags =
    let r = split_argv program args in (parse r.vgw_argv flags, r.eal_argv)

pub data Exit : Type 0 where
  bad_datapath_mode : Exit
  port_mask_too_large : Exit
  worker_port_too_large : Exit
  ring_size_too_large : Exit
  dist_ring_size_too_large : Exit
  negative_sleep : Exit
  bad_rtc_steer : Exit
  workers_too_large : Exit

pub data Configured : Type 0 where
  exits : Exit → Configured
  configured : DatapathConfig → Configured

-- What `check_uint16_flag` lets through.
abbrev pub check_uint16_flag : ℕ → Bool
check_uint16_flag value = leb value 65535

abbrev pub pipeline_from : Flags → DatapathConfig → DatapathConfig
pipeline_from f c = record c {
  u = Params.pipeline_params (record new_pipeline_params {
    ring_size = f.io_ring_size % u16_mod;
    launch_rx_lcore = f.io_rx_lcore;
    launch_tx_lcore = f.io_tx_lcore;
    tx_ring_full_sleep_us = f.io_tx_ring_full_sleep_us;
  });
}

abbrev pub workers_of : Flags → ℕ
workers_of f = if f.rtc_workers % u16_mod == 0 then 1 else f.rtc_workers % u16_mod

abbrev pub rtc_params_from : Flags → RtcSteer → RtcParams
rtc_params_from f steer = record new_rtc_params {
  steer = steer;
  workers = workers_of f;
  dist_ring_size = f.rtc_dist_ring_size % u16_mod;
}

unfoldable pub rtc_from : Flags → DatapathConfig → Configured
rtc_from f c = elim (parse_rtc_steer f.rtc_steer) [
  | none ↦ Configured.exits Exit.bad_rtc_steer
  | some steer ↦
      if check_uint16_flag f.rtc_workers
      then Configured.configured (record c { u = Params.rtc_params (rtc_params_from f steer) })
      else Configured.exits Exit.workers_too_large
]

-- The configuration up to its parameters.
abbrev pub common_from : Flags → DatapathMode → DatapathConfig
common_from f mode = record datapath_config_defaults {
  mode = mode;
  port_mask =
      if f.datapath_port_mask == 0
      then datapath_config_defaults.port_mask
      else f.datapath_port_mask % u32_mod;
  worker_port = f.datapath_worker_port % u16_mod;
}

abbrev pub params_from : Flags → DatapathMode → Configured
params_from f DatapathMode.pipeline =
    Configured.configured (pipeline_from f (common_from f DatapathMode.pipeline))
params_from f DatapathMode.rtc = rtc_from f (common_from f DatapathMode.rtc)

unfoldable pub datapath_config_from_flags : Flags → Configured
unfolding rtc_from
datapath_config_from_flags f = elim (parse_datapath_mode f.datapath_mode) [
  | none ↦ Configured.exits Exit.bad_datapath_mode
  | some mode ↦
      if ltb 0xffff_ffff f.datapath_port_mask
      then Configured.exits Exit.port_mask_too_large
      else if not (check_uint16_flag f.datapath_worker_port)
      then Configured.exits Exit.worker_port_too_large
      else if not (check_uint16_flag f.io_ring_size)
      then Configured.exits Exit.ring_size_too_large
      else if not (check_uint16_flag f.rtc_dist_ring_size)
      then Configured.exits Exit.dist_ring_size_too_large
      else if is_negative f.io_tx_ring_full_sleep_us
      then Configured.exits Exit.negative_sleep
      else params_from f mode
]
