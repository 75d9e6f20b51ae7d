-- ===== src/Gateway/Loop/Keeps.antt =====
-- What a step of the burst in `VioletGW::run` of vgw.cpp does with a packet: the count of those that
-- the gateway holds, over `dispatch` and `serve`.
use violet_gw.Prelude.{
  ℕ, Option, some, List, [], ◌∷◌, ◌++◌, ◌≡◌, ◌≢◌, refl, arith, ◌⊎◌, leb, length, length-append,
  nat_eq, Bool-cases, inl, inr, subst, ap, ◌∙◌, Map,
}
use violet_gw.Dpdk.{Dpdk, Mbuf}
use violet_gw.Forward.Types.{ForwardConfig, HandleResult, HandleOutcome}
use violet_gw.Session.Invariant.{IsValid}
use violet_gw.Arp.{ArpConfig}
use violet_gw.Gateway.{VioletGw, handle}
use violet_gw.Gateway.Safety.{handle-Sound}
use violet_gw.Gateway.Loop.{
  Batch, put_tx, put_drop, with_batch, flush_learned, hold, dispatch, serve, io_rx_burst,
}
use violet_gw.Gateway.Loop.Waiting.{Fit}
use violet_gw.Gateway.Loop.Counts.{
  count, Keeps, probes_for, flush_learned-Keeps, flush_learned-probed, hold-Keeps,
}

put_tx-Keeps :
    (m : Mbuf) (gw : VioletGw) (b : Batch) (s : VioletGw × Batch)
    → Fit gw
    → with_batch gw (put_tx m b) ≡ some s
    → Keeps 1 0 (gw, b) s
unfolding put_tx
put_tx-Keeps m gw b s fit e = elim (Bool-cases (leb io_rx_burst (length b.tx))) [
  | inl full ↦ cc (rw full at e)
  | inr room ↦
      let longer = length-append b.tx (m ∷ []) in
      let q : (gw, record b { tx = b.tx ++ m ∷ [] }) ≡ s = cc (rw room at e) in
      subst (Keeps 1 0 (gw, b)) q (record { fit = fit; total = omega (arith, longer) })
]

put_drop-Keeps :
    (m : Mbuf) (gw : VioletGw) (b : Batch) (s : VioletGw × Batch)
    → Fit gw
    → with_batch gw (put_drop m b) ≡ some s
    → Keeps 1 0 (gw, b) s
unfolding put_drop
put_drop-Keeps m gw b s fit e = elim (Bool-cases (leb io_rx_burst (length b.drop))) [
  | inl full ↦ cc (rw full at e)
  | inr room ↦
      let longer = length-append b.drop (m ∷ []) in
      let q : (gw, record b { drop = b.drop ++ m ∷ [] }) ≡ s = cc (rw room at e) in
      subst (Keeps 1 0 (gw, b)) q (record { fit = fit; total = omega (arith, longer) })
]

-- The outcome does not wait for the address 0.
abbrev pub Waits : HandleOutcome → Type 0
Waits o = (o.result ≢ HandleResult.pending_arp) ⊎ (o.arp_wait_ip_be ≢ 0)

module _ (dpdk : Dpdk) (cfg : ForwardConfig) (acfg : ArpConfig) where
  -- The probes that an outcome causes.
  abbrev pub probes_of : HandleResult → ℕ → Option (List ℕ) → ℕ → Map ℕ ℕ → ℕ
  probes_of HandleResult.pending_arp ip buffer now probed =
      probes_for dpdk cfg acfg buffer ip now probed
  probes_of HandleResult.drop ip buffer now probed = 0
  probes_of HandleResult.tx_forward ip buffer now probed = 0
  probes_of HandleResult.tx_reverse ip buffer now probed = 0
  probes_of HandleResult.tx_arp ip buffer now probed = 0

  dispatch-Keeps :
      (buffer : Option (List ℕ)) (r : HandleResult) (ip learned : ℕ) (m : Mbuf) (now : ℕ)
      (gw : VioletGw) (b : Batch) (s : VioletGw × Batch)
      → Fit gw
      → Waits (record { result = r; arp_wait_ip_be = ip; learned_ip_be = learned })
      → dispatch dpdk cfg acfg buffer
          (record { result = r; arp_wait_ip_be = ip; learned_ip_be = learned })
          m
          now
          (gw, b)
        ≡ some s
      → Keeps 1 (probes_of r ip buffer now gw.arp_probe_last_ms) (gw, b) s
  unfolding dispatch
  dispatch-Keeps buffer HandleResult.drop ip learned m now gw b s fit w e =
      put_drop-Keeps m gw b s fit e
  dispatch-Keeps buffer HandleResult.tx_forward ip learned m now gw b s fit w e =
      put_tx-Keeps m gw b s fit e
  dispatch-Keeps buffer HandleResult.tx_reverse ip learned m now gw b s fit w e =
      put_tx-Keeps m gw b s fit e
  dispatch-Keeps buffer HandleResult.tx_arp ip learned m now gw b s fit w e =
      put_tx-Keeps m gw b s fit e
  dispatch-Keeps buffer HandleResult.pending_arp ip learned m now gw b s fit (inl never) e =
      absurd (never refl)
  dispatch-Keeps buffer HandleResult.pending_arp ip learned m now gw b s fit (inr some_ip) e =
      let q : hold dpdk cfg acfg buffer ip m now gw b ≡ s = cc e in
      subst (Keeps 1 (probes_for dpdk cfg acfg buffer ip now gw.arp_probe_last_ms) (gw, b)) q
        (hold-Keeps dpdk cfg acfg buffer ip now m gw b fit some_ip)

  -- Over a valid session table and queues under different addresses: a packet that is served
  -- without a fault and does not wait for the address 0 is in a queue, in the batch or freed after
  -- it, and so is every packet from before, by their number; the probe that it causes is there beside
  -- them, and the table and the queues are still so.
  pub serve-Keeps :
      (buffer : Option (List ℕ)) (m m' : Mbuf) (now : ℕ) (gw gw' : VioletGw) (b : Batch)
      (s : VioletGw × Batch) (o : HandleOutcome)
      → Fit gw
      → handle dpdk cfg acfg m now gw ≡ some (o, m', gw')
      → Waits o
      → serve dpdk cfg acfg buffer m now (gw, b) ≡ some s
      → Keeps 1 (probes_of o.result o.arp_wait_ip_be buffer now gw.arp_probe_last_ms) (gw, b) s
  unfolding serve
  serve-Keeps buffer m m' now gw gw' b s o fit h w e =
      let x = handle-Sound dpdk cfg acfg m now gw fit.sessions in
      let same_out : x.out ≡ o = cc (x.result, h) in
      let same_mbuf : x.mbuf ≡ m' = cc (x.result, h) in
      let same_gw : x.after ≡ gw' = cc (x.result, h) in
      let queues : gw'.arp_pending ≡ gw.arp_pending =
        subst (λ y. y.arp_pending ≡ gw.arp_pending) same_gw x.queues in
      let valid : IsValid gw'.world.sessions =
        subst (λ y. IsValid y.world.sessions) same_gw x.valid in
      let fit' : Fit gw' = record { sessions = valid; queues = rw queues fit.queues } in
      let f = flush_learned dpdk cfg acfg o.learned_ip_be now gw' b in
      let flushed = flush_learned-Keeps dpdk cfg acfg o.learned_ip_be now gw' b fit' in
      let same : count (gw', b) ≡ count (gw, b) = rw queues refl in
      let next =
        dispatch-Keeps buffer o.result o.arp_wait_ip_be o.learned_ip_be m' now f.0 f.1 s flushed.fit
          w (rw (h, serve) at e) in
      let probed : f.0.arp_probe_last_ms ≡ gw.arp_probe_last_ms =
        flush_learned-probed dpdk cfg acfg o.learned_ip_be now gw' b
        ∙ subst (λ y. y.arp_probe_last_ms ≡ gw.arp_probe_last_ms) same_gw x.probes in
      let made = ap (λ last. probes_of o.result o.arp_wait_ip_be buffer now last) probed in
      record { fit = next.fit; total = omega (arith, same, flushed.total, next.total, made) }
