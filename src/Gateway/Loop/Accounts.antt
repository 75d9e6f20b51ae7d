-- ===== src/Gateway/Loop/Accounts.antt =====
-- The account of the packets over a burst of `VioletGW::run` in vgw.cpp, with those that are lost.
use violet_gw.Prelude.{
  ℕ, Option, none, some, List, [], ◌∷◌, ◌≡◌, refl, arith, ap, sym, ◌+◌, ◌==◌, ◌⊎◌, length,
  Bool-cases, Option-cases, Distinct, nat_eq, inl, inr, subst, Map, if◌then◌else◌,
}
use violet_gw.Dpdk.{Dpdk, Mbuf}
use violet_gw.Forward.Types.{ForwardConfig, HandleResult, HandleOutcome}
use violet_gw.Arp.{ArpConfig}
use violet_gw.Gateway.{VioletGw, handle}
use violet_gw.Gateway.Safety.{handle-Sound}
use violet_gw.Gateway.Loop.{Batch, flush_learned, hold, dispatch, serve, serve_all}
use violet_gw.Gateway.Loop.Waiting.{waiting, Fit}
use violet_gw.Gateway.Loop.Counts.{count, probes_for, flush_learned-Keeps}
use violet_gw.Gateway.Loop.Keeps.{Waits, probes_of, serve-Keeps}
use violet_gw.Gateway.Loop.Overflow.{hold_zero}

-- A packet that is to wait for the address 0 is lost: it is neither queued nor freed.
abbrev pub lost_result : HandleResult → ℕ → ℕ
lost_result HandleResult.pending_arp ip = if ip == 0 then 1 else 0
lost_result HandleResult.drop ip = 0
lost_result HandleResult.tx_forward ip = 0
lost_result HandleResult.tx_reverse ip = 0
lost_result HandleResult.tx_arp ip = 0

-- A step that takes in `new` packets, loses `lost` of them, and makes `made` more.
pub record Accounts (new lost made : ℕ) (before after : VioletGw × Batch) : Type 0 where
  pub fit : Fit after.0
  pub total : count after + lost ≡ count before + new + made

module _ (dpdk : Dpdk) (cfg : ForwardConfig) (acfg : ArpConfig) where
  result-cases :
      (r : HandleResult) (ip learned : ℕ)
      → (Waits (record { result = r; arp_wait_ip_be = ip; learned_ip_be = learned })
          × (lost_result r ip ≡ 0))
        ⊎ ((r ≡ HandleResult.pending_arp) × (ip ≡ 0) × (lost_result r ip ≡ 1))
  result-cases HandleResult.drop ip learned = inl (inl (cc), refl)
  result-cases HandleResult.tx_forward ip learned = inl (inl (cc), refl)
  result-cases HandleResult.tx_reverse ip learned = inl (inl (cc), refl)
  result-cases HandleResult.tx_arp ip learned = inl (inl (cc), refl)
  result-cases HandleResult.pending_arp ip learned = elim (Bool-cases (ip == 0)) [
    | inl off ↦ inr (refl, ground arith, rw off refl)
    | inr on ↦ inl (inr (ground arith), rw on refl)
  ]

  unfoldable pub lost_by : Mbuf → ℕ → VioletGw → ℕ
  lost_by m now gw = elim (handle dpdk cfg acfg m now gw) [
    | none ↦ 0
    | some r ↦ lost_result r.0.result r.0.arp_wait_ip_be
  ]

  -- The packets of a burst that are lost.
  unfoldable pub lost_in : List (Mbuf × Option (List ℕ)) → ℕ → VioletGw × Batch → ℕ
  lost_in [] now s = 0
  lost_in ((m, buffer) ∷ rx) now s =
      lost_by m now s.0
      + (elim (serve dpdk cfg acfg buffer m now s) [ none ↦ 0 | some s' ↦ lost_in rx now s' ])

  unfoldable pub probes_by : Mbuf → Option (List ℕ) → ℕ → VioletGw → ℕ
  probes_by m buffer now gw = elim (handle dpdk cfg acfg m now gw) [
    | none ↦ 0
    | some r ↦ probes_of dpdk cfg acfg r.0.result r.0.arp_wait_ip_be buffer now gw.arp_probe_last_ms
  ]

  -- The probes that the packets of a burst cause.
  unfoldable pub probes_in : List (Mbuf × Option (List ℕ)) → ℕ → VioletGw × Batch → ℕ
  probes_in [] now s = 0
  probes_in ((m, buffer) ∷ rx) now s =
      probes_by m buffer now s.0
      + (elim (serve dpdk cfg acfg buffer m now s) [ none ↦ 0 | some s' ↦ probes_in rx now s' ])

  -- Nothing is asked about the address 0.
  probes_of_zero :
      (r : HandleResult) (ip : ℕ) (buffer : Option (List ℕ)) (now : ℕ) (probed : Map ℕ ℕ)
      → r ≡ HandleResult.pending_arp
      → ip ≡ 0
      → probes_of dpdk cfg acfg r ip buffer now probed ≡ 0
  unfolding probes_for
  probes_of_zero r ip buffer now probed waits zero_ip = rw waits (rw zero_ip refl)

  -- A packet that waits for the address 0 changes no count.
  dispatch_zero :
      (buffer : Option (List ℕ)) (o : HandleOutcome) (m : Mbuf) (now : ℕ) (gw : VioletGw)
      (b : Batch) (s : VioletGw × Batch)
      → o.result ≡ HandleResult.pending_arp
      → o.arp_wait_ip_be ≡ 0
      → dispatch dpdk cfg acfg buffer o m now (gw, b) ≡ some s
      → (s.0 ≡ gw) × (count s ≡ count (gw, b))
  unfolding dispatch
  dispatch_zero buffer o m now gw b s waits zero_ip e =
      let z = hold_zero dpdk cfg acfg buffer m now gw b in
      let held : some (hold dpdk cfg acfg buffer o.arp_wait_ip_be m now gw b) ≡ some s =
        rw (waits, dispatch) at e in
      let at_zero : hold dpdk cfg acfg buffer 0 m now gw b ≡ s = cc (rw zero_ip at held) in
      subst (λ (x : VioletGw × Batch). (x.0 ≡ gw) × (count x ≡ count (gw, b))) at_zero z

  serve-Accounts :
      (buffer : Option (List ℕ)) (m : Mbuf) (now : ℕ) (gw : VioletGw) (b : Batch)
      (s : VioletGw × Batch)
      → Fit gw
      → serve dpdk cfg acfg buffer m now (gw, b) ≡ some s
      → Accounts 1 (lost_by m now gw) (probes_by m buffer now gw) (gw, b) s
  unfolding lost_by probes_by
  serve-Accounts buffer m now gw b s fit e =
      let x = handle-Sound dpdk cfg acfg m now gw fit.sessions in
      let queues = subst (λ q. Distinct q) (sym x.queues) fit.queues in
      let fit' : Fit x.after = record { sessions = x.valid; queues = queues } in
      let lost : lost_by m now gw ≡ lost_result x.out.result x.out.arp_wait_ip_be =
        rw (x.result, lost_by) refl in
      let probes : probes_by m buffer now gw
          ≡ probes_of dpdk cfg acfg x.out.result x.out.arp_wait_ip_be buffer now
              gw.arp_probe_last_ms =
        rw (x.result, probes_by) refl in
      let f = flush_learned dpdk cfg acfg x.out.learned_ip_be now x.after b in
      let flushed = flush_learned-Keeps dpdk cfg acfg x.out.learned_ip_be now x.after b fit' in
      let same : count (x.after, b) ≡ count (gw, b) =
        ap (λ q. waiting q + length b.tx + length b.drop + length b.freed) x.queues in
      elim (result-cases x.out.result x.out.arp_wait_ip_be x.out.learned_ip_be) [
        | inl (waits, none_lost) ↦
            let k =
              serve-Keeps dpdk cfg acfg buffer m x.mbuf now gw x.after b s x.out fit x.result waits
                e in
            record { fit = k.fit; total = omega (arith, k.total, lost, none_lost, probes) }
        | inr (waits, zero_ip, one_lost) ↦
            let sent : dispatch dpdk cfg acfg buffer x.out x.mbuf now f ≡ some s =
              unfold serve in rw (x.result, serve) at e in
            let (gw_same, counted) =
              dispatch_zero buffer x.out x.mbuf now f.0 f.1 s waits zero_ip sent in
            let no_probe =
              probes_of_zero x.out.result x.out.arp_wait_ip_be buffer now gw.arp_probe_last_ms waits
                zero_ip in
            record {
              fit = subst Fit (sym gw_same) flushed.fit;
              total = omega (arith, same, counted, flushed.total, lost, one_lost, probes, no_probe);
            }
      ]

  pub serve_all-Accounts :
      (rx : List (Mbuf × Option (List ℕ))) (now : ℕ) (gw : VioletGw) (b : Batch)
      (s : VioletGw × Batch)
      → Fit gw
      → serve_all dpdk cfg acfg rx now (gw, b) ≡ some s
      → Accounts (length rx) (lost_in rx now (gw, b)) (probes_in rx now (gw, b)) (gw, b) s
  unfolding serve_all lost_in probes_in
  serve_all-Accounts [] now gw b s fit e =
      let q : (gw, b) ≡ s = cc e in
      subst (Accounts 0 0 0 (gw, b)) q (record { fit = fit; total = omega arith })
  serve_all-Accounts ((m, buffer) ∷ rx) now gw b s fit e =
      elim (Option-cases (serve dpdk cfg acfg buffer m now (gw, b))) [
        | inl fault ↦ cc (rw (fault, serve_all) at e)
        | inr (s', served) ↦
            let one = serve-Accounts buffer m now gw b s' fit served in
            let rest =
              serve_all-Accounts rx now s'.0 s'.1 s one.fit (rw (served, serve_all) at e) in
            let lost : lost_in ((m, buffer) ∷ rx) now (gw, b)
                ≡ lost_by m now gw + lost_in rx now s' =
              rw (served, lost_in) refl in
            let probes : probes_in ((m, buffer) ∷ rx) now (gw, b)
                ≡ probes_by m buffer now gw + probes_in rx now s' =
              rw (served, probes_in) refl in
            record { fit = rest.fit; total = omega (arith, one.total, rest.total, lost, probes) }
      ]
