-- ===== src/Datapath/Laws.antt =====
-- What becomes of the values of the flags.
use violet_gw.Prelude.{
  true, false, none, some, ◌≡◌, refl, arith, ◌==◌, ◌≤◌, ◌<◌, ltb, if◌then◌else◌, u16_mod, u32_mod,
  Bool-cases, Option-cases, inl, inr,
}
use violet_gw.Datapath.{
  is_negative, DatapathMode, RtcSteer, Params, PipelineParams, RtcParams, DatapathConfig,
  datapath_config_defaults, parse_datapath_mode, parse_rtc_steer,
}
use violet_gw.Datapath.Flags.{
  Flags, Exit, Configured, check_uint16_flag, rtc_from, common_from, params_from, workers_of,
  rtc_params_from, datapath_config_from_flags,
}

-- What a configuration has of the values of the flags.
pub record PipelineOf (f : Flags) (p : PipelineParams) : Type 0 where
  pub ring_size : (p.ring_size ≡ f.io_ring_size) × (p.ring_size < u16_mod)
  pub rx : p.launch_rx_lcore ≡ f.io_rx_lcore
  pub tx : p.launch_tx_lcore ≡ f.io_tx_lcore
  pub sleep :
      (p.tx_ring_full_sleep_us ≡ f.io_tx_ring_full_sleep_us)
      × (is_negative p.tx_ring_full_sleep_us ≡ false)

pub record RtcOf (f : Flags) (r : RtcParams) : Type 0 where
  pub steer : parse_rtc_steer f.rtc_steer ≡ some r.steer
  pub workers :
      (r.workers ≡ (if f.rtc_workers == 0 then 1 else f.rtc_workers))
      × (0 < r.workers)
      × (r.workers < u16_mod)
  pub dist_ring_size : (r.dist_ring_size ≡ f.rtc_dist_ring_size) × (r.dist_ring_size < u16_mod)

-- The active member of the union is the one of the mode.
abbrev pub ParamsOf : Flags → DatapathMode → Params → Type 0
ParamsOf f DatapathMode.pipeline (Params.pipeline_params p) = PipelineOf f p
ParamsOf f DatapathMode.rtc (Params.rtc_params r) = RtcOf f r
ParamsOf f _ _ = ⊥

pub record ConfigOf (f : Flags) (c : DatapathConfig) : Type 0 where
  pub mode : parse_datapath_mode f.datapath_mode ≡ some c.mode
  pub port_mask : c.port_mask ≡ (if f.datapath_port_mask == 0 then 1 else f.datapath_port_mask)
  pub mask_in_word : (0 < c.port_mask) × (c.port_mask < u32_mod)
  pub worker_port : (c.worker_port ≡ f.datapath_worker_port) × (c.worker_port < u16_mod)
  pub params : ParamsOf f c.mode c.u

abbrev pub Rejects : Exit → Flags → Type 0
Rejects Exit.bad_datapath_mode f = parse_datapath_mode f.datapath_mode ≡ none
Rejects Exit.port_mask_too_large f = u32_mod ≤ f.datapath_port_mask
Rejects Exit.worker_port_too_large f = u16_mod ≤ f.datapath_worker_port
Rejects Exit.ring_size_too_large f = u16_mod ≤ f.io_ring_size
Rejects Exit.dist_ring_size_too_large f = u16_mod ≤ f.rtc_dist_ring_size
Rejects Exit.negative_sleep f = is_negative f.io_tx_ring_full_sleep_us ≡ true
Rejects Exit.bad_rtc_steer f =
    (parse_datapath_mode f.datapath_mode ≡ some DatapathMode.rtc)
    × (parse_rtc_steer f.rtc_steer ≡ none)
Rejects Exit.workers_too_large f =
    (parse_datapath_mode f.datapath_mode ≡ some DatapathMode.rtc) × (u16_mod ≤ f.rtc_workers)

-- A configuration that has the values of the flags, or the reason of the exit.
unfoldable pub Answers : Flags → Configured → Type 0
Answers f (Configured.configured c) = ConfigOf f c
Answers f (Configured.exits x) = Rejects x f

-- The tests that both modes have passed.
record Passed (f : Flags) : Type 0 where
  mask : f.datapath_port_mask < u32_mod
  port : f.datapath_worker_port < u16_mod
  ring : f.io_ring_size < u16_mod
  dist : f.rtc_dist_ring_size < u16_mod
  sleep : is_negative f.io_tx_ring_full_sleep_us ≡ false

common-mask :
    (f : Flags) (mode : DatapathMode)
    → Passed f
    → let m = (common_from f mode).port_mask in
      (m ≡ (if f.datapath_port_mask == 0 then 1 else f.datapath_port_mask))
      × (0 < m)
      × (m < u32_mod)
unfolding datapath_config_defaults
common-mask f mode p = let low = p.mask in (ground arith, ground arith, ground arith)

workers_lem :
    (f : Flags)
    → f.rtc_workers < u16_mod
    → (workers_of f ≡ (if f.rtc_workers == 0 then 1 else f.rtc_workers))
      × (0 < workers_of f)
      × (workers_of f < u16_mod)
workers_lem f small = (ground arith, ground arith, ground arith)

rtc-ConfigOf :
    (f : Flags) (p : Passed f) (m : parse_datapath_mode f.datapath_mode ≡ some DatapathMode.rtc)
    (steer : RtcSteer)
    → parse_rtc_steer f.rtc_steer ≡ some steer
    → f.rtc_workers < u16_mod
    → ConfigOf f (record (common_from f DatapathMode.rtc) {
      u = Params.rtc_params (rtc_params_from f steer);
    })
rtc-ConfigOf f p m steer ok small =
    let (mask, some_port, in_word) = common-mask f DatapathMode.rtc p in
    record {
      mode = m;
      port_mask = mask;
      mask_in_word = (some_port, in_word);
      worker_port = let h = p.port in (omega arith, omega arith);
      params = record {
        steer = ok;
        workers =
            let (same, some_workers, in_word) = workers_lem f small in
            (same, some_workers, in_word);
        dist_ring_size = let h = p.dist in (omega arith, omega arith);
      };
    }

rtc_from-Answers :
    (f : Flags)
    → Passed f
    → parse_datapath_mode f.datapath_mode ≡ some DatapathMode.rtc
    → Answers f (rtc_from f (common_from f DatapathMode.rtc))
unfolding rtc_from Answers
rtc_from-Answers f p m = elim (Option-cases (parse_rtc_steer f.rtc_steer)) [
  | inl bad ↦ rw (bad, rtc_from, Answers) (m, bad)
  | inr (steer, ok) ↦ elim (Bool-cases (check_uint16_flag f.rtc_workers)) [
    | inl small ↦ rw (ok, rtc_from, Answers) (rw small (rtc-ConfigOf f p m steer ok (ground arith)))
    | inr large ↦ rw (ok, rtc_from, Answers) (rw large (m, ground arith))
  ]
]

params_from-Answers :
    (f : Flags) (mode : DatapathMode)
    → Passed f
    → parse_datapath_mode f.datapath_mode ≡ some mode
    → Answers f (params_from f mode)
unfolding Answers
params_from-Answers f DatapathMode.pipeline p m =
    let (mask, some_port, in_word) = common-mask f DatapathMode.pipeline p in
    record {
      mode = m;
      port_mask = mask;
      mask_in_word = (some_port, in_word);
      worker_port = let h = p.port in (omega arith, omega arith);
      params = record {
        ring_size = let h = p.ring in (omega arith, omega arith);
        rx = refl;
        tx = refl;
        sleep = (refl, p.sleep);
      };
    }
params_from-Answers f DatapathMode.rtc p m = rtc_from-Answers f p m

-- The flags give a configuration that has their values, none of them cut to its width, with the
-- parameters of its mode, or the program exits for a reason that the flags give.
pub datapath_config_from_flags-Answers : (f : Flags) → Answers f (datapath_config_from_flags f)
unfolding Answers datapath_config_from_flags
datapath_config_from_flags-Answers f = elim (Option-cases (parse_datapath_mode f.datapath_mode)) [
  | inl bad ↦ rw (bad, datapath_config_from_flags, Answers) bad
  | inr (mode, ok) ↦
      rw (ok, datapath_config_from_flags, Answers)
        (elim (Bool-cases (ltb 0xffff_ffff f.datapath_port_mask)) [
          | inl mask ↦ rw mask (ground arith)
          | inr mask ↦ elim (Bool-cases (check_uint16_flag f.datapath_worker_port)) [
            | inr port ↦ rw (mask, port) (ground arith)
            | inl port ↦ elim (Bool-cases (check_uint16_flag f.io_ring_size)) [
              | inr ring ↦ rw (mask, port, ring) (ground arith)
              | inl ring ↦ elim (Bool-cases (check_uint16_flag f.rtc_dist_ring_size)) [
                | inr dist ↦ rw (mask, port, ring) (rw dist (ground arith))
                | inl dist ↦ elim (Bool-cases (is_negative f.io_tx_ring_full_sleep_us)) [
                  | inl sleep ↦ rw (mask, port, ring) (rw (dist, sleep) sleep)
                  | inr sleep ↦
                      rw (mask, port, ring)
                        (rw (dist, sleep)
                          (params_from-Answers f mode
                            (record {
                              mask = ground arith;
                              port = ground arith;
                              ring = ground arith;
                              dist = ground arith;
                              sleep = sleep;
                            })
                            ok))
                ]
              ]
            ]
          ]
        ])
]
