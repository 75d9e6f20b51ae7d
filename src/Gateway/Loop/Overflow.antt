-- ===== src/Gateway/Loop/Overflow.antt =====
-- The arrays of a burst, which the code indexes without a test: when they are large enough, and when
-- they are not.
use violet_gw.Prelude.{
  ℕ, true, false, Option, none, some, List, [], ◌∷◌, ◌++◌, ◌≡◌, ◌≢◌, refl, arith, ◌∙◌, ap, ◌+◌, ◌-◌,
  ◌*◌, ◌==◌, ◌<◌, ◌≤◌, leb, length, take, length-append, length-take, Bool-cases, inl, inr,
}
use violet_gw.Dpdk.{Dpdk, Mbuf}
use violet_gw.Forward.Types.{ForwardConfig, HandleResult, HandleOutcome}
use violet_gw.Arp.{ArpConfig}
use violet_gw.Gateway.{VioletGw, enqueue_pending, maybe_probe_arp, flush_pending, queue_of, handle}
use violet_gw.Gateway.Queues.{ready, flush_pending_lem}
use violet_gw.Gateway.Safety.{handle-Sound}
use violet_gw.Gateway.Loop.{
  Batch, no_batch, put_tx, put_drop, with_batch, flush_learned, hold, dispatch, serve, serve_all,
  io_rx_burst,
}
use violet_gw.Gateway.Loop.Waiting.{Fit}
use violet_gw.Gateway.Loop.Counts.{count, probes_for-le, flush_learned-Keeps, hold-Keeps}

module _ (dpdk : Dpdk) (cfg : ForwardConfig) (acfg : ArpConfig) where
  -- A packet that is to wait for the address 0 is neither queued nor freed: the gateway and the counts
  -- of the batch are as before, so its buffer is lost.
  pub hold_zero :
      (buffer : Option (List ℕ)) (m : Mbuf) (now : ℕ) (gw : VioletGw) (b : Batch)
      → ((hold dpdk cfg acfg buffer 0 m now gw b).0 ≡ gw)
        × (count (hold dpdk cfg acfg buffer 0 m now gw b) ≡ count (gw, b))
  unfolding hold enqueue_pending maybe_probe_arp
  hold_zero buffer m now gw b =
      (refl, omega (arith, length-append (b.freed ++ []) [], length-append b.freed []))

  -- A packet is served, and the packets that the gateway holds are at most two more.
  Served : VioletGw × Batch → Option (VioletGw × Batch) → Type 0
  Served x r = (s : VioletGw × Batch) × (r ≡ some s) × Fit s.0 × (count s ≤ count x + 2)

  put_tx-Served :
      (m : Mbuf) (gw : VioletGw) (b : Batch)
      → Fit gw
      → count (gw, b) < io_rx_burst
      → Served (gw, b) (with_batch gw (put_tx m b))
  unfolding Served put_tx
  put_tx-Served m gw b fit room =
      let free : leb io_rx_burst (length b.tx) ≡ false = ground arith in
      rw free (
        (gw, record b { tx = b.tx ++ m ∷ [] }),
        refl,
        fit,
        omega (arith, length-append b.tx (m ∷ [])),
      )

  put_drop-Served :
      (m : Mbuf) (gw : VioletGw) (b : Batch)
      → Fit gw
      → count (gw, b) < io_rx_burst
      → Served (gw, b) (with_batch gw (put_drop m b))
  unfolding Served put_drop
  put_drop-Served m gw b fit room =
      let free : leb io_rx_burst (length b.drop) ≡ false = ground arith in
      rw free (
        (gw, record b { drop = b.drop ++ m ∷ [] }),
        refl,
        fit,
        omega (arith, length-append b.drop (m ∷ [])),
      )

  hold-Served :
      (buffer : Option (List ℕ)) (ip now : ℕ) (m : Mbuf) (gw : VioletGw) (b : Batch)
      → Fit gw
      → Served (gw, b) (some (hold dpdk cfg acfg buffer ip m now gw b))
  unfolding Served
  hold-Served buffer ip now m gw b fit = elim (Bool-cases (ip == 0)) [
    | inl off ↦
        let e : ip ≡ 0 = ground arith in
        let z = hold_zero buffer m now gw b in rw e (_, refl, rw (z.0) fit, omega (arith, z.1))
    | inr on ↦
        let k = hold-Keeps dpdk cfg acfg buffer ip now m gw b fit (ground arith) in
        (
          _,
          refl,
          k.fit,
          omega (arith, k.total, probes_for-le dpdk cfg acfg buffer ip now gw.arp_probe_last_ms),
        )
  ]

  dispatch-Served :
      (buffer : Option (List ℕ)) (r : HandleResult) (ip learned : ℕ) (m : Mbuf) (now : ℕ)
      (gw : VioletGw) (b : Batch)
      → Fit gw
      → count (gw, b) < io_rx_burst
      → Served
          (gw, b)
          (dispatch dpdk cfg acfg buffer
            (record { result = r; arp_wait_ip_be = ip; learned_ip_be = learned })
            m
            now
            (gw, b))
  unfolding dispatch
  dispatch-Served buffer HandleResult.drop ip learned m now gw b fit room =
      put_drop-Served m gw b fit room
  dispatch-Served buffer HandleResult.tx_forward ip learned m now gw b fit room =
      put_tx-Served m gw b fit room
  dispatch-Served buffer HandleResult.tx_reverse ip learned m now gw b fit room =
      put_tx-Served m gw b fit room
  dispatch-Served buffer HandleResult.tx_arp ip learned m now gw b fit room =
      put_tx-Served m gw b fit room
  dispatch-Served buffer HandleResult.pending_arp ip learned m now gw b fit room =
      hold-Served buffer ip now m gw b fit

  serve-Served :
      (buffer : Option (List ℕ)) (m : Mbuf) (now : ℕ) (gw : VioletGw) (b : Batch)
      → Fit gw
      → count (gw, b) < io_rx_burst
      → Served (gw, b) (serve dpdk cfg acfg buffer m now (gw, b))
  unfolding serve Served
  serve-Served buffer m now gw b fit room =
      let x = handle-Sound dpdk cfg acfg m now gw fit.sessions in
      let fit' : Fit x.after = record { sessions = x.valid; queues = rw x.queues fit.queues } in
      let f = flush_learned dpdk cfg acfg x.out.learned_ip_be now x.after b in
      let flushed = flush_learned-Keeps dpdk cfg acfg x.out.learned_ip_be now x.after b fit' in
      let same : count (x.after, b) ≡ count (gw, b) = rw x.queues refl in
      let (s, e, fit'', high) =
        dispatch-Served buffer x.out.result x.out.arp_wait_ip_be x.out.learned_ip_be x.mbuf now f.0
          f.1 flushed.fit (omega (arith, same, flushed.total, room)) in
      rw (x.result, serve) (s, e, fit'', omega (arith, same, flushed.total, high))

  -- A burst of packets is served without a fault, if twice its packets with those that wait, are in
  -- the batch or are freed are at most 33, the session table is valid and the queues stand under
  -- different addresses; both still hold after it.
  pub serve_all-Served :
      (rx : List (Mbuf × Option (List ℕ))) (now : ℕ) (gw : VioletGw) (b : Batch)
      → Fit gw
      → count (gw, b) + 2 * length rx ≤ io_rx_burst + 1
      → (s : VioletGw × Batch) × (serve_all dpdk cfg acfg rx now (gw, b) ≡ some s) × Fit s.0
  unfolding serve_all Served
  serve_all-Served [] now gw b fit few = ((gw, b), refl, fit)
  serve_all-Served ((m, buffer) ∷ rx) now gw b fit few =
      let (s, e, fit', high) = serve-Served buffer m now gw b fit (omega arith) in
      rw (e, serve_all) (serve_all-Served rx now s.0 s.1 fit' (omega (arith, high, few)))

  -- A flush keeps what is in the array.
  flush_learned-tx :
      (ip now : ℕ) (gw : VioletGw) (b : Batch)
      → length b.tx ≤ length (flush_learned dpdk cfg acfg ip now gw b).1.tx
  unfolding flush_learned
  flush_learned-tx ip now gw b = elim (Bool-cases (ip == 0)) [
    | inl on ↦ rw on (omega arith)
    | inr off ↦
        let (sent, _, _) = flush_pending_lem dpdk cfg ip now io_rx_burst b.tx gw (ground arith) in
        rw off (
          omega (
            arith,
            ap length sent,
            length-append b.tx (
                take (io_rx_burst - length b.tx)
                  (ready dpdk cfg gw.world.neighbors ip now (queue_of ip gw))),
          ))
  ]

  tx_full :
      (buffer : Option (List ℕ)) (m : Mbuf) (now : ℕ) (gw gw' : VioletGw) (b : Batch)
      (o : HandleOutcome) (m' : Mbuf)
      → handle dpdk cfg acfg m now gw ≡ some (o, m', gw')
      → o.result ≡ HandleResult.tx_forward
      → io_rx_burst ≤ length b.tx
      → serve dpdk cfg acfg buffer m now (gw, b) ≡ none
  unfolding serve dispatch put_tx
  tx_full buffer m now gw gw' b o m' e r full =
      let f = flush_learned dpdk cfg acfg o.learned_ip_be now gw' b in
      let on : leb io_rx_burst (length f.1.tx) ≡ true =
        ground (arith, flush_learned-tx o.learned_ip_be now gw' b) in
      rw (e, serve) (rw r (rw on refl))

  served_drop :
      (m m' : Mbuf) (buffer : Option (List ℕ)) (now : ℕ) (gw gw' : VioletGw) (o : HandleOutcome)
      → handle dpdk cfg acfg m now gw ≡ some (o, m', gw')
      → o.result ≡ HandleResult.drop
      → o.learned_ip_be ≢ 0
      → let f = flush_pending dpdk cfg o.learned_ip_be now [] io_rx_burst gw' in
        serve dpdk cfg acfg buffer m now (gw, no_batch)
        ≡ some (f.0, record { tx = f.1; drop = m' ∷ []; freed = [] ++ f.2 })
  unfolding serve dispatch put_drop flush_learned
  served_drop m m' buffer now gw gw' o e r l =
      let on : (o.learned_ip_be == 0) ≡ false = ground arith in
      rw (e, serve) (rw r (rw (on, flush_learned) refl))

  -- A burst of two packets: the first is dropped and gives an address for which as many packets as
  -- the array holds can be sent, and the second, handled after they were put into the array, is to
  -- be forwarded. It is written past the end of the array.
  pub serve_all_overflow :
      (m m' m₂ m₂' : Mbuf) (buffer buffer₂ : Option (List ℕ)) (now : ℕ) (gw gw' gw₂ : VioletGw)
      (o o₂ : HandleOutcome)
      → handle dpdk cfg acfg m now gw ≡ some (o, m', gw')
      → o.result ≡ HandleResult.drop
      → o.learned_ip_be ≢ 0
      → io_rx_burst
        ≤ length
            (ready dpdk cfg gw'.world.neighbors o.learned_ip_be now (queue_of o.learned_ip_be gw'))
      → handle dpdk cfg acfg m₂ now
          (flush_pending dpdk cfg o.learned_ip_be now [] io_rx_burst gw').0
        ≡ some (o₂, m₂', gw₂)
      → o₂.result ≡ HandleResult.tx_forward
      → serve_all dpdk cfg acfg ((m, buffer) ∷ (m₂, buffer₂) ∷ []) now (gw, no_batch) ≡ none
  unfolding serve_all
  serve_all_overflow m m' m₂ m₂' buffer buffer₂ now gw gw' gw₂ o o₂ e r l many e₂ r₂ =
      let f = flush_pending dpdk cfg o.learned_ip_be now [] io_rx_burst gw' in
      let (sent, _, _) = flush_pending_lem dpdk cfg o.learned_ip_be now io_rx_burst [] gw' l in
      let full = ap length sent ∙ length-take io_rx_burst _ many in
      let b : Batch = record { tx = f.1; drop = m' ∷ []; freed = [] ++ f.2 } in
      let last = tx_full buffer₂ m₂ now f.0 gw₂ b o₂ m₂' e₂ r₂ (omega (arith, full)) in
      let first = served_drop m m' buffer now gw gw' o e r l in
      rw (first, serve_all) (rw (last, serve_all) refl)
