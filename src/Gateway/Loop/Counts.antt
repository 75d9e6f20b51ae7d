-- ===== src/Gateway/Loop/Counts.antt =====
-- The packets that the gateway holds while it serves a burst: in its queues, in the arrays of the
-- batch, and those that it has freed.
use violet_gw.Prelude.{
  List-cases, ℕ, false, Option, List, [], ◌∷◌, ◌++◌, ◌≡◌, ◌≢◌, refl, arith, ap, ◌+◌, ◌==◌, ◌≤◌,
  ◌||◌, leb, length, length-append, nat_eq, insert-Distinct, Bool-cases, Option-cases, inl, inr,
}
use violet_gw.Prelude.{Bool, none, some, Map, lookup, sub64, ltb, if◌then◌else◌}
use violet_gw.Dpdk.{Dpdk, Mbuf}
use violet_gw.Forward.Types.{ForwardConfig}
use violet_gw.Arp.{ArpConfig}
use violet_gw.Arp
use violet_gw.Gateway.{
  VioletGw, arp_probe_interval_ms, arp_pending_max_per_ip, queue_of, enqueue_pending, flush_pending,
  flush_queue, maybe_probe_arp, probed_recently,
}
use violet_gw.Gateway.Queues.{flush_queue-Flushes}
use violet_gw.Gateway.Loop.{Batch, flush_learned, hold, io_rx_burst}
use violet_gw.Gateway.Loop.Waiting.{
  waiting, Fit, waiting-insert, waiting-put_back, put_back-Distinct,
}

abbrev pub count : VioletGw × Batch → ℕ
count (gw, b) = waiting gw.arp_pending + length b.tx + length b.drop + length b.freed

-- A step of the gateway that takes in `new` packets and makes `made` more.
pub record Keeps (new made : ℕ) (before after : VioletGw × Batch) : Type 0 where
  pub fit : Fit after.0
  pub total : count after ≡ count before + new + made

-- Whether the last probe for the address is too recent for another one.
abbrev pub recent : ℕ → ℕ → Map ℕ ℕ → Bool
recent ip now probed = elim (lookup ip probed) [
  | none ↦ false
  | some last ↦ ltb (sub64 now last) arp_probe_interval_ms
]

module _ (dpdk : Dpdk) (cfg : ForwardConfig) (acfg : ArpConfig) where
  -- How many probes a packet causes that waits for the address: one, but for the address 0, after a
  -- recent probe, and where the pool has no buffer for it.
  unfoldable pub probes_for : Option (List ℕ) → ℕ → ℕ → Map ℕ ℕ → ℕ
  probes_for buffer ip now probed =
      if ip == 0 || recent ip now probed
      then 0
      else elim (Arp.make_request dpdk acfg buffer ip) [ none ↦ 0 | some probe ↦ 1 ]

  pub probes_for-le :
      (buffer : Option (List ℕ)) (ip now : ℕ) (probed : Map ℕ ℕ)
      → probes_for buffer ip now probed ≤ 1
  unfolding probes_for
  probes_for-le buffer ip now probed = elim (Bool-cases (ip == 0 || recent ip now probed)) [
    | inl off ↦ rw (off, probes_for) (omega arith)
    | inr on ↦ elim (Option-cases (Arp.make_request dpdk acfg buffer ip)) [
      | inl no_mbuf ↦ rw (on, probes_for) (rw (no_mbuf, probes_for) (omega arith))
      | inr (probe, made) ↦ rw (on, probes_for) (rw (made, probes_for) (omega arith))
    ]
  ]

  flush_pending-count :
      (ip now tx_cap : ℕ) (tx : List Mbuf) (gw : VioletGw)
      → Fit gw
      → let r = flush_pending dpdk cfg ip now tx tx_cap gw in
        Fit r.0
        × (waiting r.0.arp_pending + length r.1 + length r.2 ≡ waiting gw.arp_pending + length tx)
  unfolding flush_pending
  flush_pending-count ip now tx_cap tx gw fit = elim (Bool-cases (ip == 0)) [
    | inl off ↦ rw (off, flush_pending) (fit, omega arith)
    | inr on ↦ elim (List-cases (queue_of ip gw)) [
      | inl e ↦ rw (on, flush_pending) (rw (e, flush_pending) (fit, omega arith))
      | inr (e, q, h) ↦
          let x = flush_queue-Flushes dpdk cfg gw.world.neighbors ip now tx_cap (e ∷ q) tx [] in
          let r = flush_queue dpdk cfg gw.world.neighbors ip now tx_cap (e ∷ q) tx [] in
          let w = waiting-put_back dpdk cfg ip r.remaining gw.arp_pending fit.queues in
          rw (on, flush_pending)
            (rw (h, flush_pending)
              (
                record {
                  sessions = fit.sessions;
                  queues = put_back-Distinct dpdk cfg ip r.remaining gw.arp_pending fit.queues;
                },
                omega (arith, w, x.conserved, ap length h),
              ))
    ]
  ]

  pub flush_learned-Keeps :
      (ip now : ℕ) (gw : VioletGw) (b : Batch)
      → Fit gw
      → Keeps 0 0 (gw, b) (flush_learned dpdk cfg acfg ip now gw b)
  unfolding flush_learned
  flush_learned-Keeps ip now gw b fit = elim (Bool-cases (ip == 0)) [
    | inl off ↦ rw off (record { fit = fit; total = omega arith })
    | inr on ↦
        let (fit', kept) = flush_pending-count ip now io_rx_burst b.tx gw fit in
        let r = flush_pending dpdk cfg ip now b.tx io_rx_burst gw in
        let more = length-append b.freed r.2 in
        rw on (record { fit = fit'; total = omega (arith, kept, more) })
  ]

  pub flush_learned-probed :
      (ip now : ℕ) (gw : VioletGw) (b : Batch)
      → (flush_learned dpdk cfg acfg ip now gw b).0.arp_probe_last_ms ≡ gw.arp_probe_last_ms
  unfolding flush_learned flush_pending
  flush_learned-probed ip now gw b = elim (Bool-cases (ip == 0)) [
    | inl off ↦ rw off refl
    | inr on ↦ elim (List-cases (queue_of ip gw)) [
      | inl e ↦ rw (on, flush_pending) (rw (e, flush_pending) refl)
      | inr (e, q, h) ↦ rw (on, flush_pending) (rw (h, flush_pending) refl)
    ]
  ]

  -- A probe is put into the array, freed, or not made.
  maybe_probe_arp-count :
      (buffer : Option (List ℕ)) (ip now tx_cap : ℕ) (tx : List Mbuf) (gw : VioletGw)
      → Fit gw
      → let r = maybe_probe_arp dpdk cfg acfg buffer ip now tx tx_cap gw in
        Fit r.0
        × (r.0.arp_pending ≡ gw.arp_pending)
        × (length r.1 + length r.2 ≡ length tx + probes_for buffer ip now gw.arp_probe_last_ms)
  unfolding maybe_probe_arp probes_for
  maybe_probe_arp-count buffer ip now tx_cap tx gw fit =
      elim (Bool-cases (ip == 0 || probed_recently dpdk cfg ip now gw)) [
        | inl off ↦ rw (off, maybe_probe_arp) (fit, refl, omega arith)
        | inr on ↦ elim (Option-cases (Arp.make_request dpdk acfg buffer ip)) [
          | inl no_mbuf ↦
              rw (on, maybe_probe_arp) (rw (no_mbuf, maybe_probe_arp) (fit, refl, omega arith))
          | inr (probe, made) ↦ elim (Bool-cases (leb tx_cap (length tx))) [
            | inl full ↦
                rw (on, maybe_probe_arp)
                  (rw (made, maybe_probe_arp) (rw (full, maybe_probe_arp) (fit, refl, omega arith)))
            | inr room ↦
                let longer = length-append tx (probe ∷ []) in
                rw (on, maybe_probe_arp)
                  (rw (made, maybe_probe_arp)
                    (rw (room, maybe_probe_arp)
                      (
                        record { sessions = fit.sessions; queues = fit.queues },
                        refl,
                        omega (arith, longer),
                      )))
          ]
        ]
      ]

  -- A packet that waits for an address other than 0 is queued or freed.
  enqueue_pending-count :
      (ip now : ℕ) (m : Mbuf) (gw : VioletGw)
      → Fit gw
      → ip ≢ 0
      → let r = enqueue_pending ip m now gw in
        Fit r.0
        × (waiting r.0.arp_pending + length r.1 ≡ waiting gw.arp_pending + 1)
        × (r.0.arp_probe_last_ms ≡ gw.arp_probe_last_ms)
  unfolding enqueue_pending
  enqueue_pending-count ip now m gw fit some_ip =
      let on : (ip == 0) ≡ false = ground arith in
      let q = queue_of ip gw in
      elim (Bool-cases (leb arp_pending_max_per_ip (length q))) [
        | inl full ↦
            rw (on, full)
              (
                record {
                  sessions = fit.sessions;
                  queues = insert-Distinct ip q gw.arp_pending fit.queues;
                },
                omega (arith, waiting-insert ip q gw.arp_pending),
                refl,
              )
        | inr room ↦
            let q' = q ++ record { m = m; enqueued_ms = now } ∷ [] in
            rw (on, room)
              (
                record {
                  sessions = fit.sessions;
                  queues = insert-Distinct ip q' gw.arp_pending fit.queues;
                },
                omega (
                  arith,
                  waiting-insert ip q' gw.arp_pending,
                  length-append q (record { m = m; enqueued_ms = now } ∷ []),
                ),
                refl,
              )
      ]

  pub hold-Keeps :
      (buffer : Option (List ℕ)) (ip now : ℕ) (m : Mbuf) (gw : VioletGw) (b : Batch)
      → Fit gw
      → ip ≢ 0
      → Keeps 1
          (probes_for buffer ip now gw.arp_probe_last_ms)
          (gw, b)
          (hold dpdk cfg acfg buffer ip m now gw b)
  unfolding hold
  hold-Keeps buffer ip now m gw b fit some_ip =
      let (fit', queued, probed) = enqueue_pending-count ip now m gw fit some_ip in
      let r = enqueue_pending ip m now gw in
      let (fit'', same, made) = maybe_probe_arp-count buffer ip now io_rx_burst b.tx r.0 fit' in
      let p = maybe_probe_arp dpdk cfg acfg buffer ip now b.tx io_rx_burst r.0 in
      let l = length-append (b.freed ++ r.1) p.2 in
      let l' = length-append b.freed r.1 in
      let w = ap waiting same in
      let as_before = ap (λ last. probes_for buffer ip now last) probed in
      let kept : Keeps 1 (probes_for buffer ip now gw.arp_probe_last_ms) (gw, b)
          (p.0, record b { tx = p.1; freed = b.freed ++ r.1 ++ p.2 }) =
        record { fit = fit''; total = omega (arith, queued, made, as_before, l, l', w) } in
      kept
