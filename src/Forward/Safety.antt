-- ===== src/Forward/Safety.antt =====
-- Faults of forward.cpp, and what `handle` leaves of the tables and of a packet.
use violet_gw.Prelude.{
  ℕ, Option, none, some, ◌≡◌, ◌≢◌, ◌⊎◌, inl, inr, refl, ◌∙◌, ◌==◌, ◌&&◌, Option-cases, Bool-cases,
}
use violet_gw.Dpdk.{Dpdk, Mbuf}
use violet_gw.Neighbor.{MacAddr}
use violet_gw.Packet.{parse_udp_ipv4, dst_ip, dst_port}
use violet_gw.Packet.Layout.{PacketView, Parse}
use violet_gw.Session
use violet_gw.Session.{Session}
use violet_gw.Session.Key.{FlowKey}
use violet_gw.Session.Invariant.{IsValid}
use violet_gw.Session.Keeps.{touch-IsValid}
use violet_gw.Forward.Types.{Upstream, ForwardConfig, HandleResult, World, Handled}
use violet_gw.Forward.Nat.{flow_key_from_view, apply_forward_nat, apply_reverse_nat}
use violet_gw.Forward.{
  dropped, resolve, lookup_next_hop_mac, send_forward, handle_forward, send_reverse, handle_reverse,
  classify, handle,
}
use violet_gw.Forward.Cases.{handle_forward-cases, deref-touch}

-- A decided outcome: a drop only where `done` is one.
pub resolve-result :
    (cfg : ForwardConfig) (done : HandleResult) (hop : ℕ) (mac : Option MacAddr) (m : Mbuf)
    → done ≢ HandleResult.drop
    → (resolve cfg done hop mac m).0.result ≢ HandleResult.drop
unfolding resolve
resolve-result cfg done hop none m h = λ e. cc
resolve-result cfg done hop (some mac) m h = h

module _ (dpdk : Dpdk) {P : Type 0} (picker : Option (FlowKey → P → Option Upstream × P))
    (cfg : ForwardConfig) where
  -- A packet after the NAT of the session `o`, with the fate of its next hop.
  abbrev pub sent_forward : PacketView → Mbuf → World P → Session → Handled P
  sent_forward v m w o =
      let r =
        resolve cfg HandleResult.tx_forward o.upstream_ip
          (lookup_next_hop_mac w.neighbors o.upstream_ip cfg.upstream_mac)
          (record m {
            bytes =
                apply_forward_nat dpdk v.udp o cfg.gateway_ip_be cfg.recompute_udp_checksum m.bytes;
          }) in
      record { outcome = r.0; mbuf = r.1; world = w }

  abbrev pub sent_reverse : PacketView → Mbuf → World P → Session → Handled P
  sent_reverse v m w o =
      let r =
        resolve cfg HandleResult.tx_reverse o.client_ip
          (lookup_next_hop_mac w.neighbors o.client_ip cfg.client_side_mac)
          (record m {
            bytes = apply_reverse_nat dpdk v.udp o cfg.recompute_udp_checksum m.bytes;
          }) in
      record { outcome = r.0; mbuf = r.1; world = w }

  pub send_forward_lem :
      (v : PacketView) (m : Mbuf) (w : World P) (s : ℕ) (o : Session)
      → Session.deref w.sessions s ≡ some o
      → send_forward dpdk picker cfg v m w s ≡ some (sent_forward v m w o)
  unfolding send_forward
  send_forward_lem v m w s o e = rw (e, send_forward) refl

  pub send_reverse_lem :
      (v : PacketView) (m : Mbuf) (w : World P) (s : ℕ) (o : Session)
      → Session.deref w.sessions s ≡ some o
      → send_reverse dpdk picker cfg v m w s ≡ some (sent_reverse v m w o)
  unfolding send_reverse
  send_reverse_lem v m w s o e = rw (e, send_reverse) refl

  -- The handler returns, the session table stays valid, the neighbors are not touched, and a dropped
  -- packet is left as it came.
  pub record Safe (m : Mbuf) (w : World P) (h : Option (Handled P)) : Type 0 where
    pub handled : Handled P
    pub result : h ≡ some handled
    pub valid : IsValid handled.world.sessions
    pub neighbors : handled.world.neighbors ≡ w.neighbors
    pub unchanged : (handled.outcome.result ≢ HandleResult.drop) ⊎ (handled.mbuf ≡ m)

  module _ (m : Mbuf) (v : PacketView) (now_ms : ℕ) (w : World P) (ok : IsValid w.sessions) where
    dropped-Safe : Safe m w (some (dropped dpdk picker cfg m w))
    dropped-Safe = record {
      handled = dropped dpdk picker cfg m w;
      result = refl;
      valid = ok;
      neighbors = refl;
      unchanged = inr refl;
    }

    handle_forward-Safe : Safe m w (handle_forward dpdk picker cfg v m now_ms w)
    handle_forward-Safe = elim (handle_forward-cases dpdk picker cfg m v now_ms w ok) [
      | inl d ↦ record {
        handled = dropped dpdk picker cfg m d.world;
        result = d.result;
        valid = d.valid;
        neighbors = d.neighbors;
        unchanged = inr refl;
      }
      | inr g ↦ record {
        handled = sent_forward v m g.world g.object;
        result = g.result ∙ send_forward_lem v m g.world g.session g.object g.held;
        valid = g.valid;
        neighbors = g.neighbors;
        unchanged = inl (resolve-result cfg HandleResult.tx_forward _ _ _ (λ x. cc));
      }
    ]

    handle_reverse-Safe : Safe m w (handle_reverse dpdk picker cfg v m now_ms w)
    unfolding handle_reverse
    handle_reverse-Safe =
        elim (Option-cases (Session.lookup_reverse (flow_key_from_view dpdk m v) w.sessions)) [
          | inl miss ↦ rw (miss, handle_reverse) dropped-Safe
          | inr (s, hit) ↦
              let (o, held, same) =
                ok.by_reverse.sound (flow_key_from_view dpdk m v) s
                  (unfold Session.lookup_reverse in hit) in
              let w' : World P = record w { sessions = Session.touch s now_ms w.sessions } in
              let o' : Session = record o { last_active_ms = now_ms } in
              let held' = deref-touch s now_ms w.sessions o (unfold Session.deref in held) in
              rw (hit, handle_reverse)
                (record {
                  handled = sent_reverse v m w' o';
                  result = send_reverse_lem v m w' s o' held';
                  valid = touch-IsValid s now_ms w.sessions ok;
                  neighbors = refl;
                  unchanged = inl (resolve-result cfg HandleResult.tx_reverse _ _ _ (λ x. cc));
                })
        ]

    classify-Safe : Safe m w (classify dpdk picker cfg v m now_ms w)
    unfolding classify
    classify-Safe =
        elim (Bool-cases (dst_ip m == cfg.vip.ip_be && dst_port dpdk m v == cfg.vip.port)) [
          | inl to_vip ↦ rw to_vip handle_forward-Safe
          | inr other ↦ rw other (elim (Bool-cases (dst_ip m == cfg.gateway_ip_be)) [
            | inl to_gateway ↦ rw to_gateway handle_reverse-Safe
            | inr elsewhere ↦ rw elsewhere dropped-Safe
          ])
        ]

  parsed-Safe :
      (m : Mbuf) (now_ms : ℕ) (w : World P) (p : Parse PacketView)
      → IsValid w.sessions
      → parse_udp_ipv4 dpdk cfg.verify_checksum m ≡ p
      → Safe m w (handle dpdk picker cfg m now_ms w)
  unfolding handle
  parsed-Safe m now_ms w (Parse.ok v) ok e = rw (e, handle) (classify-Safe m v now_ms w ok)
  parsed-Safe m now_ms w (Parse.fail s) ok e =
      rw (e, handle) (dropped-Safe m (record { udp = 0; payload = 0; payload_len = 0 }) now_ms w ok)

  -- Over a valid session table `handle` meets no null session and returns; the table stays valid, the
  -- neighbors are not touched, and a dropped packet is left as it came.
  pub handle-Safe :
      (m : Mbuf) (now_ms : ℕ) (w : World P)
      → IsValid w.sessions
      → Safe m w (handle dpdk picker cfg m now_ms w)
  handle-Safe m now_ms w ok = parsed-Safe m now_ms w _ ok refl
