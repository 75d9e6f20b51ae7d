-- ===== src/Forward/Replies.antt =====
-- What a query and its answer become in the two directions of `handle` in forward.cpp: the flow of
-- what is sent, and the session that the answer is looked up by.
use violet_gw.Prelude.{
  ℕ, Bool, true, Option, none, some, ◌≡◌, ◌≢◌, refl, sym, arith, ◌∙◌, ap, ◌==◌, ◌&&◌, ◌<◌, ◌≤◌,
  u16_mod, u32_mod, nat_eq,
}
use violet_gw.Dpdk.{Dpdk, IsDpdk, Mbuf}
use violet_gw.Neighbor.{MacAddr}
use violet_gw.Packet.{parse_udp_ipv4, dst_ip, dst_port}
use violet_gw.Packet.Layout.{PacketView, ok, eth_type, ipproto_udp}
use violet_gw.Packet.Laws.{view_bounds}
use violet_gw.Session
use violet_gw.Session.{Session, new_session}
use violet_gw.Session.Key.{FlowKey}
use violet_gw.Session.Invariant.{IsValid, Shaped}
use violet_gw.Forward.Types.{Upstream, ForwardConfig, HandleResult, World}
use violet_gw.Forward.Nat.{flow_key_from_view, apply_forward_nat, apply_reverse_nat}
use violet_gw.Forward.Flows.{IsMbuf, flow_key-rewrite, flow_key-set_l2}
use violet_gw.Forward.{resolve, handle_forward, handle_reverse, classify, handle}
use violet_gw.Forward.Cases.{deref-touch}
use violet_gw.Forward.Safety.{sent_forward, sent_reverse, send_reverse_lem}

-- The flow of a reply.
abbrev pub swap : FlowKey → FlowKey
swap k = record {
  src_ip = k.dst_ip;
  dst_ip = k.src_ip;
  src_port = k.dst_port;
  dst_port = k.src_port;
  proto = k.proto;
}

-- The addresses and ports of a session are machine words.
pub record Worded (o : Session) : Type 0 where
  pub ips : (o.client_ip < u32_mod) × (o.vip_ip < u32_mod) × (o.upstream_ip < u32_mod)
  pub ports :
      (o.client_port < u16_mod)
      × (o.vip_port < u16_mod)
      × (o.upstream_port < u16_mod)
      × (o.snat_port < u16_mod)

both_equal : (a b c d : ℕ) → a ≡ b → c ≡ d → (a == b && c == d) ≡ true
both_equal a b c d h k = ground arith

-- The reply to a packet over the session `o` has its reverse key.
pub swap-reverse_key :
    (gateway : ℕ) (o : Session)
    → Shaped gateway o
    → o.forward_key.proto ≡ ipproto_udp
    → swap (record {
      src_ip = gateway;
      dst_ip = o.upstream_ip;
      src_port = o.snat_port;
      dst_port = o.upstream_port;
      proto = ipproto_udp;
    })
      ≡ o.reverse_key
swap-reverse_key gateway o shaped proto = sym (
    shaped.reverse
    ∙ ap
        (λ p. record {
          src_ip = o.upstream_ip;
          dst_ip = gateway;
          src_port = o.upstream_port;
          dst_port = o.snat_port;
          proto = p;
        })
        proto)

-- The client and the VIP of the session are those of its first packet.
pub Shaped-swap :
    (gateway : ℕ) (o : Session) (key : FlowKey)
    → Shaped gateway o
    → o.forward_key ≡ key
    → key.proto ≡ ipproto_udp
    → record {
      src_ip = o.vip_ip;
      dst_ip = o.client_ip;
      src_port = o.vip_port;
      dst_port = o.client_port;
      proto = ipproto_udp;
    }
      ≡ swap key
Shaped-swap gateway o key shaped same proto =
    let a : o.vip_ip ≡ key.dst_ip = cc (shaped.vip.0, ap (λ (k : FlowKey). k.dst_ip) same) in
    let b : o.client_ip ≡ key.src_ip = cc (shaped.client.0, ap (λ (k : FlowKey). k.src_ip) same) in
    let c : o.vip_port ≡ key.dst_port = cc (shaped.vip.1, ap (λ (k : FlowKey). k.dst_port) same) in
    let d : o.client_port ≡ key.src_port =
      cc (shaped.client.1, ap (λ (k : FlowKey). k.src_port) same) in
    rw (a, b, c, d, proto) refl

module _ (dpdk : Dpdk) (laws : IsDpdk dpdk) {P : Type 0}
    (picker : Option (FlowKey → P → Option Upstream × P)) (cfg : ForwardConfig) where
  resolve-flow :
      (done : HandleResult) (hop : ℕ) (mac : Option MacAddr) (m : Mbuf) (v : PacketView)
      → eth_type ≤ v.udp
      → flow_key_from_view dpdk (resolve cfg done hop mac m).1 v ≡ flow_key_from_view dpdk m v
  unfolding resolve
  resolve-flow done hop none m v h = refl
  resolve-flow done hop (some mac) m v h = flow_key-set_l2 dpdk m v cfg.gateway_mac mac h

  module _ (m : Mbuf) (v : PacketView) (verify : Bool) (fits : IsMbuf m)
      (parsed : parse_udp_ipv4 dpdk verify m ≡ ok v) (w : World P) (o : Session)
      (words : Worded o) where
    pub sent_forward-flow :
        cfg.gateway_ip_be < u32_mod
        → flow_key_from_view dpdk (sent_forward dpdk picker cfg v m w o).mbuf v ≡ record {
          src_ip = cfg.gateway_ip_be;
          dst_ip = o.upstream_ip;
          src_port = o.snat_port;
          dst_port = o.upstream_port;
          proto = ipproto_udp;
        }
    unfolding apply_forward_nat
    sent_forward-flow h =
        resolve-flow HandleResult.tx_forward _ _ _ v
          (omega (arith, (view_bounds dpdk m verify v parsed).1))
        ∙ flow_key-rewrite dpdk laws m v verify _ _ _ _ cfg.recompute_udp_checksum fits parsed h
            words.ips.2 words.ports.3 words.ports.2

    pub sent_reverse-flow :
        flow_key_from_view dpdk (sent_reverse dpdk picker cfg v m w o).mbuf v ≡ record {
          src_ip = o.vip_ip;
          dst_ip = o.client_ip;
          src_port = o.vip_port;
          dst_port = o.client_port;
          proto = ipproto_udp;
        }
    unfolding apply_reverse_nat
    sent_reverse-flow =
        resolve-flow HandleResult.tx_reverse _ _ _ v
          (omega (arith, (view_bounds dpdk m verify v parsed).1))
        ∙ flow_key-rewrite dpdk laws m v verify _ _ _ _ cfg.recompute_udp_checksum fits parsed
            words.ips.1 words.ips.0 words.ports.1 words.ports.0

  -- A packet to the VIP is forwarded, one to the gateway goes back.
  pub handle_to_vip :
      (m : Mbuf) (v : PacketView) (now_ms : ℕ) (w : World P)
      → parse_udp_ipv4 dpdk cfg.verify_checksum m ≡ ok v
      → dst_ip m ≡ cfg.vip.ip_be
      → dst_port dpdk m v ≡ cfg.vip.port
      → handle dpdk picker cfg m now_ms w ≡ handle_forward dpdk picker cfg v m now_ms w
  unfolding handle classify
  handle_to_vip m v now_ms w parsed ip port =
      rw (parsed, handle) (rw (both_equal _ _ _ _ ip port) refl)

  pub handle_to_gateway :
      (m : Mbuf) (v : PacketView) (now_ms : ℕ) (w : World P)
      → parse_udp_ipv4 dpdk cfg.verify_checksum m ≡ ok v
      → cfg.gateway_ip_be ≢ cfg.vip.ip_be
      → dst_ip m ≡ cfg.gateway_ip_be
      → handle dpdk picker cfg m now_ms w ≡ handle_reverse dpdk picker cfg v m now_ms w
  unfolding handle classify
  handle_to_gateway m v now_ms w parsed other ip = rw (parsed, handle) (ground arith)

  pub handle_reverse_known :
      (m : Mbuf) (v : PacketView) (now_ms : ℕ) (w : World P) (s : ℕ) (o : Session)
      → IsValid w.sessions
      → Session.deref w.sessions s ≡ some o
      → flow_key_from_view dpdk m v ≡ o.reverse_key
      → handle_reverse dpdk picker cfg v m now_ms w
        ≡ some (
            sent_reverse dpdk picker cfg v m
              (record w { sessions = Session.touch s now_ms w.sessions })
              (record o { last_active_ms = now_ms }))
  unfolding handle_reverse
  handle_reverse_known m v now_ms w s o valid held same =
      let hit : Session.lookup_reverse (flow_key_from_view dpdk m v) w.sessions ≡ some s =
        unfold Session.lookup_reverse Session.deref in
        rw same (valid.by_reverse.complete s o held) in
      rw (hit, handle_reverse)
        (send_reverse_lem dpdk picker cfg v m _ s _ (deref-touch s now_ms w.sessions o held))
