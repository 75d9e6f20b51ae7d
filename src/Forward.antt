-- ===== src/Forward.antt =====
-- forward.hpp and forward.cpp: the path of a UDP packet through the gateway. A pointer to no
-- session would be a fault, which is `none`; the trace statements have no effect and are left out. A
-- checksum of DPDK is given the memory behind its pointers, and is no fault where that ends early.
pub mod Types
pub mod Nat
pub mod Fields
pub mod Flows
pub mod Cases
pub mod Safety
pub mod Replies
pub mod RoundTrip
use violet_gw.Prelude.{ℕ, Bool, true, false, Option, none, some, List, ◌==◌, ◌&&◌, if◌then◌else◌}
use violet_gw.Dpdk.{Dpdk, Mbuf}
use violet_gw.Neighbor
use violet_gw.Neighbor.{MacAddr, NeighborTable}
use violet_gw.Packet.{parse_udp_ipv4, dst_ip, dst_port}
use violet_gw.Packet.Layout.{Parse, PacketView}
use violet_gw.Session
use violet_gw.Session.{SessionTable}
use violet_gw.Session.Key.{FlowKey}
use violet_gw.Forward.Types.{
  Upstream, ForwardConfig, HandleResult, HandleOutcome, World, Handled, outcome,
}
use violet_gw.Forward.Nat.{flow_key_from_view, set_l2, apply_forward_nat, apply_reverse_nat}

abbrev pub pending_for : ℕ → HandleOutcome
pending_for next_hop_ip_be = record {
  result = HandleResult.pending_arp;
  arp_wait_ip_be = next_hop_ip_be;
  learned_ip_be = 0;
}

unfoldable pub lookup_next_hop_mac : Option NeighborTable → ℕ → MacAddr → Option MacAddr
lookup_next_hop_mac none ip_be fallback = some fallback
lookup_next_hop_mac (some neighbors) ip_be fallback = Neighbor.lookup ip_be neighbors

-- The L2 rewrite of a packet that is ready, or its wait for the address of the next hop.
unfoldable pub resolve :
    ForwardConfig → HandleResult → ℕ → Option MacAddr → Mbuf → HandleOutcome × Mbuf
resolve cfg done next_hop none m = (pending_for next_hop, m)
resolve cfg done next_hop (some dst_mac) m =
    (outcome done, record m { bytes = set_l2 cfg.gateway_mac dst_mac m.bytes })

module _ (dpdk : Dpdk) {P : Type 0} (picker : Option (FlowKey → P → Option Upstream × P))
    (cfg : ForwardConfig) where
  abbrev pub dropped : Mbuf → World P → Handled P
  dropped m w = record { outcome = outcome HandleResult.drop; mbuf = m; world = w }

  -- The part of `handle_forward` after the session `s` is there.
  unfoldable pub send_forward : PacketView → Mbuf → World P → ℕ → Option (Handled P)
  unfolding resolve lookup_next_hop_mac
  send_forward v m w s = elim (Session.deref w.sessions s) [
    | none ↦ none
    | some o ↦
        let rewritten = record m {
          bytes =
              apply_forward_nat dpdk v.udp o cfg.gateway_ip_be cfg.recompute_udp_checksum m.bytes;
        } in
        let mac = lookup_next_hop_mac w.neighbors o.upstream_ip cfg.upstream_mac in
        let (out, m') = resolve cfg HandleResult.tx_forward o.upstream_ip mac rewritten in
        some (record { outcome = out; mbuf = m'; world = w })
  ]

  unfoldable pub created :
      PacketView → Mbuf → World P → Option ℕ × SessionTable → Option (Handled P)
  unfolding send_forward
  created v m w (none, sessions) = some (dropped m (record w { sessions = sessions }))
  created v m w (some s, sessions) = send_forward v m (record w { sessions = sessions }) s

  unfoldable pub picked :
      FlowKey → PacketView → Mbuf → ℕ → World P → Option Upstream × P → Option (Handled P)
  unfolding created
  picked key v m now_ms w (none, upstreams) = some (dropped m (record w { upstreams = upstreams }))
  picked key v m now_ms w (some up, upstreams) =
      if up.ip_be == 0
      then some (dropped m (record w { upstreams = upstreams }))
      else created v m (record w { upstreams = upstreams })
          (Session.create key up.ip_be up.port now_ms w.sessions)

  unfoldable pub forward_miss :
      Option (FlowKey → P → Option Upstream × P)
      → FlowKey
      → PacketView
      → Mbuf
      → ℕ
      → World P
      → Option (Handled P)
  unfolding picked
  forward_miss none key v m now_ms w = some (dropped m w)
  forward_miss (some pick) key v m now_ms w = picked key v m now_ms w (pick key w.upstreams)

  unfoldable pub handle_forward : PacketView → Mbuf → ℕ → World P → Option (Handled P)
  unfolding forward_miss send_forward
  handle_forward v m now_ms w =
      let key = flow_key_from_view dpdk m v in
      elim (Session.lookup_forward key w.sessions) [
        | none ↦ forward_miss picker key v m now_ms w
        | some s ↦ send_forward v m (record w { sessions = Session.touch s now_ms w.sessions }) s
      ]

  unfoldable pub send_reverse : PacketView → Mbuf → World P → ℕ → Option (Handled P)
  unfolding resolve lookup_next_hop_mac
  send_reverse v m w s = elim (Session.deref w.sessions s) [
    | none ↦ none
    | some o ↦
        let rewritten = record m {
          bytes = apply_reverse_nat dpdk v.udp o cfg.recompute_udp_checksum m.bytes;
        } in
        let mac = lookup_next_hop_mac w.neighbors o.client_ip cfg.client_side_mac in
        let (out, m') = resolve cfg HandleResult.tx_reverse o.client_ip mac rewritten in
        some (record { outcome = out; mbuf = m'; world = w })
  ]

  unfoldable pub handle_reverse : PacketView → Mbuf → ℕ → World P → Option (Handled P)
  unfolding send_reverse
  handle_reverse v m now_ms w =
      elim (Session.lookup_reverse (flow_key_from_view dpdk m v) w.sessions) [
        | none ↦ some (dropped m w)
        | some s ↦ send_reverse v m (record w { sessions = Session.touch s now_ms w.sessions }) s
      ]

  -- The dispatch of `handle` on the destination.
  unfoldable pub classify : PacketView → Mbuf → ℕ → World P → Option (Handled P)
  classify v m now_ms w =
      if dst_ip m == cfg.vip.ip_be && dst_port dpdk m v == cfg.vip.port
      then handle_forward v m now_ms w
      else if dst_ip m == cfg.gateway_ip_be
      then handle_reverse v m now_ms w
      else some (dropped m w)

  unfoldable pub handle : Mbuf → ℕ → World P → Option (Handled P)
  unfolding classify
  handle m now_ms w = elim (parse_udp_ipv4 dpdk cfg.verify_checksum m) [
    | Parse.fail e ↦ some (dropped m w)
    | Parse.ok v ↦ classify v m now_ms w
  ]

  -- The L2 rewrite of a packet that has waited for the address of its next hop. `none` means false.
  unfoldable pub finish_l2 : Option NeighborTable → Mbuf → ℕ → Option Mbuf
  unfolding lookup_next_hop_mac
  finish_l2 neighbors m next_hop_ip_be = elim (parse_udp_ipv4 dpdk false m) [
    | Parse.fail e ↦ none
    | Parse.ok v ↦ elim (lookup_next_hop_mac neighbors next_hop_ip_be cfg.upstream_mac) [
      | none ↦ none
      | some mac ↦ some (record m { bytes = set_l2 cfg.gateway_mac mac m.bytes })
    ]
  ]
