-- ===== src/Gateway/Safety.antt =====
-- `handle` and `maybe_probe_arp` of vgw.cpp: one packet through the gateway, and its ARP requests.
use violet_gw.Prelude.{
  ℕ, true, Option, some, List, [], ◌≡◌, refl, arith, ◌∙◌, sym, ap, ◌==◌, ◌<◌, ◌||◌, leb, length,
  lookup, insert, nat_eq, lookup-insert, beq_refl, Bool-cases, Option-cases, subst, ◌⊎◌, inl, inr,
  sub64,
}
use violet_gw.Dpdk.{Dpdk, Mbuf}
use violet_gw.Packet.{ethertype}
use violet_gw.Packet.Layout.{ether_type_arp, ether_type_ipv4}
use violet_gw.Session.Invariant.{IsValid}
use violet_gw.Upstream.{UpstreamTable}
use violet_gw.Forward
use violet_gw.Forward.Types.{ForwardConfig, HandleOutcome, World}
use violet_gw.Forward.Safety.{Safe, handle-Safe}
use violet_gw.Arp
use violet_gw.Arp.{ArpConfig}
use violet_gw.Gateway.{
  VioletGw, arp_probe_interval_ms, pick_upstream, probed_recently, maybe_probe_arp, handle,
  handle_arp, handle_ipv4, after_forward, learned_neighbors,
}

module _ (dpdk : Dpdk) (cfg : ForwardConfig) (acfg : ArpConfig) where
  -- The gateway returns, its session table is valid, and its queues and probes are as before.
  pub record Sound (gw : VioletGw) (h : Option (HandleOutcome × Mbuf × VioletGw)) : Type 0 where
    pub out : HandleOutcome
    pub mbuf : Mbuf
    pub after : VioletGw
    pub result : h ≡ some (out, mbuf, after)
    pub valid : IsValid after.world.sessions
    pub queues : after.arp_pending ≡ gw.arp_pending
    pub probes : after.arp_probe_last_ms ≡ gw.arp_probe_last_ms
    pub control : after.cp ≡ gw.cp

  handle_ipv4-Sound :
      (m : Mbuf) (now_ms : ℕ) (gw : VioletGw)
      → IsValid gw.world.sessions
      → Sound gw (handle_ipv4 dpdk cfg m now_ms gw)
  unfolding handle_ipv4 after_forward
  handle_ipv4-Sound m now_ms gw v =
      let w : World UpstreamTable = record gw.world {
        neighbors = learned_neighbors dpdk cfg m now_ms gw.world.neighbors;
      } in
      let x : Safe dpdk (some pick_upstream) cfg m w
          (Forward.handle dpdk (some pick_upstream) cfg m now_ms w) =
        handle-Safe dpdk (some pick_upstream) cfg m now_ms w v in
      let r = after_forward dpdk cfg gw x.handled in
      record {
        out = r.0;
        mbuf = r.1;
        after = r.2;
        result = rw (x.result, handle_ipv4) refl;
        valid = x.valid;
        queues = refl;
        probes = refl;
        control = refl;
      }

  -- Over a valid session table the gateway handles every packet without a fault: the table stays
  -- valid, and the queues, the probes and the control block are as before.
  pub handle-Sound :
      (m : Mbuf) (now_ms : ℕ) (gw : VioletGw)
      → IsValid gw.world.sessions
      → Sound gw (handle dpdk cfg acfg m now_ms gw)
  unfolding handle handle_arp
  handle-Sound m now_ms gw v = elim (Bool-cases (ethertype dpdk m == ether_type_arp)) [
    | inl arp ↦
        let r = handle_arp dpdk cfg acfg m now_ms gw in
        rw arp (record {
          out = r.0;
          mbuf = r.1;
          after = r.2;
          result = refl;
          valid = v;
          queues = refl;
          probes = refl;
          control = refl;
        })
    | inr no_arp ↦ elim (Bool-cases (ethertype dpdk m == ether_type_ipv4)) [
      | inl ip ↦ rw (no_arp, ip) (handle_ipv4-Sound m now_ms gw v)
      | inr other ↦
          rw (no_arp, other)
            (record {
              out = _;
              mbuf = _;
              after = _;
              result = refl;
              valid = v;
              queues = refl;
              probes = refl;
              control = refl;
            })
    ]
  ]

  -- The gateway once it has probed for an address.
  abbrev pub probed : ℕ → ℕ → VioletGw → VioletGw
  probed ip_be now_ms gw = record gw {
    arp_probe_last_ms = insert ip_be now_ms gw.arp_probe_last_ms;
  }

  maybe_probe_arp-cases :
      (buffer : Option (List ℕ)) (ip_be now_ms : ℕ) (tx : List Mbuf) (tx_cap : ℕ) (gw : VioletGw)
      → ((maybe_probe_arp dpdk cfg acfg buffer ip_be now_ms tx tx_cap gw).1 ≡ tx)
        ⊎ ((maybe_probe_arp dpdk cfg acfg buffer ip_be now_ms tx tx_cap gw).0
            ≡ probed ip_be now_ms gw)
  unfolding maybe_probe_arp
  maybe_probe_arp-cases buffer ip_be now_ms tx tx_cap gw =
      elim (Bool-cases (ip_be == 0 || probed_recently dpdk cfg ip_be now_ms gw)) [
        | inl off ↦ rw (off, maybe_probe_arp) (inl refl)
        | inr on ↦ elim (Option-cases (Arp.make_request dpdk acfg buffer ip_be)) [
          | inl no_mbuf ↦ rw (on, maybe_probe_arp) (rw (no_mbuf, maybe_probe_arp) (inl refl))
          | inr (probe, made) ↦ elim (Bool-cases (leb tx_cap (length tx))) [
            | inl full ↦
                rw (on, maybe_probe_arp)
                  (rw (made, maybe_probe_arp) (rw (full, maybe_probe_arp) (inl refl)))
            | inr room ↦
                rw (on, maybe_probe_arp)
                  (rw (made, maybe_probe_arp) (rw (room, maybe_probe_arp) (inr refl)))
          ]
        ]
      ]

  maybe_probe_arp-probed :
      (buffer : Option (List ℕ)) (ip_be now_ms later_ms : ℕ) (tx : List Mbuf) (tx_cap : ℕ)
      (gw : VioletGw)
      → sub64 later_ms now_ms < arp_probe_interval_ms
      → maybe_probe_arp dpdk cfg acfg buffer ip_be later_ms tx tx_cap (probed ip_be now_ms gw)
        ≡ (probed ip_be now_ms gw, tx, [])
  unfolding maybe_probe_arp
  maybe_probe_arp-probed buffer ip_be now_ms later_ms tx tx_cap gw soon =
      let there : lookup ip_be (insert ip_be now_ms gw.arp_probe_last_ms) ≡ some now_ms =
        lookup-insert ip_be ip_be now_ms gw.arp_probe_last_ms ∙ rw (beq_refl ip_be) refl in
      let recent : probed_recently dpdk cfg ip_be later_ms (probed ip_be now_ms gw) ≡ true =
        rw (there, probed_recently) (ground arith) in
      let off : (ip_be == 0 || probed_recently dpdk cfg ip_be later_ms (probed ip_be now_ms gw))
          ≡ true =
        ground arith in
      rw (off, maybe_probe_arp) refl

  -- After a call that has put a probe for an address into the array, a call for the same address
  -- within the interval does nothing.
  maybe_probe_arp_twice :
      (buffer buffer' : Option (List ℕ)) (ip_be now_ms later_ms : ℕ) (tx tx' : List Mbuf)
      (tx_cap : ℕ) (gw : VioletGw)
      → length tx < length (maybe_probe_arp dpdk cfg acfg buffer ip_be now_ms tx tx_cap gw).1
      → sub64 later_ms now_ms < arp_probe_interval_ms
      → let gw' = (maybe_probe_arp dpdk cfg acfg buffer ip_be now_ms tx tx_cap gw).0 in
        maybe_probe_arp dpdk cfg acfg buffer' ip_be later_ms tx' tx_cap gw' ≡ (gw', tx', [])
  unfolding maybe_probe_arp
  maybe_probe_arp_twice buffer buffer' ip_be now_ms later_ms tx tx' tx_cap gw sent soon =
      elim (maybe_probe_arp-cases buffer ip_be now_ms tx tx_cap gw) [
        | inl none_sent ↦ absurd (omega (arith, ap length none_sent))
        | inr done ↦
            subst
              (λ g.
                maybe_probe_arp dpdk cfg acfg buffer' ip_be later_ms tx' tx_cap g ≡ (g, tx', []))
              (sym done) (maybe_probe_arp-probed buffer' ip_be now_ms later_ms tx' tx_cap gw soon)
      ]
