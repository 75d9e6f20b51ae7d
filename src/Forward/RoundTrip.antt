-- ===== src/Forward/RoundTrip.antt =====
-- A query and the answer to it, through `handle` of forward.cpp.
use violet_gw.Prelude.{
  ℕ, Option, some, ◌≡◌, ◌≢◌, inl, inr, refl, sym, ◌∙◌, ap, subst, ◌<◌, u32_mod, lookup, nat_eq,
}
use violet_gw.Dpdk.{Dpdk, IsDpdk, Mbuf}
use violet_gw.Packet.{parse_udp_ipv4, dst_ip, dst_port}
use violet_gw.Packet.Layout.{PacketView, ok, ipproto_udp}
use violet_gw.Session
use violet_gw.Session.{Session, new_session}
use violet_gw.Session.Key.{FlowKey}
use violet_gw.Session.Invariant.{IsValid, Shaped}
use violet_gw.Forward.Types.{Upstream, ForwardConfig, HandleResult, World, Handled}
use violet_gw.Forward.Nat.{flow_key_from_view}
use violet_gw.Forward.Flows.{IsMbuf}
use violet_gw.Forward.{dropped, handle_forward, handle}
use violet_gw.Forward.Cases.{GoesOn, handle_forward-cases}
use violet_gw.Forward.Safety.{sent_forward, sent_reverse, send_forward_lem, resolve-result}
use violet_gw.Forward.Replies.{
  swap, Worded, sent_forward-flow, sent_reverse-flow, handle_to_vip, handle_to_gateway,
  handle_reverse_known, swap-reverse_key, Shaped-swap,
}

module _ (dpdk : Dpdk) (laws : IsDpdk dpdk) {P : Type 0}
    (picker : Option (FlowKey → P → Option Upstream × P)) (cfg : ForwardConfig) where
  module _ (m reply : Mbuf) (v v' : PacketView) (now_ms later_ms : ℕ) (w : World P)
      (g : GoesOn dpdk picker cfg m v now_ms
        (flow_key_from_view dpdk m v)
        w
        (handle_forward dpdk picker cfg v m now_ms w))
      (gw : w.sessions.gateway_ip ≡ cfg.gateway_ip_be) where
    held : lookup g.session g.world.sessions.heap ≡ some g.object
    held = unfold Session.deref in g.held

    shaped : Shaped cfg.gateway_ip_be g.object
    shaped =
        subst (λ a. Shaped a g.object) (g.gateway ∙ gw) (g.valid.snat.named g.session g.object held)

    -- The round trip over the session of the packet.
    reply_over :
        cfg.gateway_ip_be ≢ cfg.vip.ip_be
        → cfg.gateway_ip_be < u32_mod
        → IsMbuf m
        → IsMbuf reply
        → parse_udp_ipv4 dpdk cfg.verify_checksum m ≡ ok v
        → parse_udp_ipv4 dpdk cfg.verify_checksum reply ≡ ok v'
        → Worded g.object
        → flow_key_from_view dpdk reply v'
          ≡ swap
              (flow_key_from_view dpdk (sent_forward dpdk picker cfg v m g.world g.object).mbuf v)
        → (r' : Handled P) × (handle dpdk picker cfg reply later_ms g.world ≡ some r')
          × (r'.outcome.result ≢ HandleResult.drop)
          × (flow_key_from_view dpdk r'.mbuf v' ≡ swap (flow_key_from_view dpdk m v))
    reply_over apart small fits fits' parsed parsed' words answers =
        let proto : g.object.forward_key.proto ≡ ipproto_udp =
          ap (λ (k : FlowKey). k.proto) g.same_key ∙ (unfold flow_key_from_view in refl) in
        let out =
          sent_forward-flow dpdk laws picker cfg m v cfg.verify_checksum fits parsed g.world
            g.object words small in
        let same : flow_key_from_view dpdk reply v' ≡ g.object.reverse_key =
          answers ∙ ap swap out ∙ swap-reverse_key cfg.gateway_ip_be g.object shaped proto in
        let dst : dst_ip reply ≡ g.object.reverse_key.dst_ip =
          unfold flow_key_from_view in ap (λ (k : FlowKey). k.dst_ip) same in
        let to_gateway : dst_ip reply ≡ cfg.gateway_ip_be =
          dst ∙ ap (λ (k : FlowKey). k.dst_ip) shaped.reverse in
        let w' : World P = record g.world {
          sessions = Session.touch g.session later_ms g.world.sessions;
        } in
        let o' : Session = record g.object { last_active_ms = later_ms } in
        let words' : Worded o' = record { ips = words.ips; ports = words.ports } in
        (
          sent_reverse dpdk picker cfg v' reply w' o',
          handle_to_gateway dpdk laws picker cfg reply v' later_ms g.world parsed' apart to_gateway
              ∙ handle_reverse_known dpdk laws picker cfg reply v' later_ms g.world g.session
                  g.object g.valid g.held same,
          resolve-result cfg HandleResult.tx_reverse _ _ _ (λ x. cc),
          sent_reverse-flow dpdk laws picker cfg reply v' cfg.verify_checksum fits' parsed' w' o'
                words'
              ∙ Shaped-swap cfg.gateway_ip_be g.object (flow_key_from_view dpdk m v) shaped
                  g.same_key (unfold flow_key_from_view in refl),
        )

  -- A packet from a client to the VIP that is not dropped, and any reply to what was sent on: the
  -- reply is not dropped either, and arrives as one from the VIP to the client. Both packets parse
  -- and lie in their buffers; the table is valid and that of the gateway's address, which is a word
  -- and not that of the VIP; the sessions after the first packet hold words.
  pub nat_round_trip :
      (m reply : Mbuf) (v v' : PacketView) (now_ms later_ms : ℕ) (w : World P) (r : Handled P)
      → IsValid w.sessions
      → w.sessions.gateway_ip ≡ cfg.gateway_ip_be
      → cfg.gateway_ip_be ≢ cfg.vip.ip_be
      → cfg.gateway_ip_be < u32_mod
      → IsMbuf m
      → IsMbuf reply
      → parse_udp_ipv4 dpdk cfg.verify_checksum m ≡ ok v
      → parse_udp_ipv4 dpdk cfg.verify_checksum reply ≡ ok v'
      → dst_ip m ≡ cfg.vip.ip_be
      → dst_port dpdk m v ≡ cfg.vip.port
      → handle dpdk picker cfg m now_ms w ≡ some r
      → r.outcome.result ≢ HandleResult.drop
      → ((s : ℕ) (o : Session) → Session.deref r.world.sessions s ≡ some o → Worded o)
      → flow_key_from_view dpdk reply v' ≡ swap (flow_key_from_view dpdk r.mbuf v)
      → (r' : Handled P) × (handle dpdk picker cfg reply later_ms r.world ≡ some r')
        × (r'.outcome.result ≢ HandleResult.drop)
        × (flow_key_from_view dpdk r'.mbuf v' ≡ swap (flow_key_from_view dpdk m v))
  nat_round_trip m reply v v' now_ms later_ms w r valid gw apart small fits fits' parsed parsed' ip
        port handled alive words answers =
      let start = sym (handle_to_vip dpdk laws picker cfg m v now_ms w parsed ip port) ∙ handled in
      elim (handle_forward-cases dpdk picker cfg m v now_ms w valid) [
        | inl d ↦
            let e : dropped dpdk picker cfg m d.world ≡ r = cc (d.result, start) in
            absurd (alive (sym (ap (λ (x : Handled P). x.outcome.result) e)))
        | inr g ↦
            let sent = sent_forward dpdk picker cfg v m g.world g.object in
            let done =
              g.result ∙ send_forward_lem dpdk picker cfg v m g.world g.session g.object g.held in
            let e : sent ≡ r = cc (done, start) in
            let there = ap (λ (x : Handled P). Session.deref x.world.sessions g.session) e in
            subst
              (λ (x : World P).
                (r' : Handled P) × (handle dpdk picker cfg reply later_ms x ≡ some r')
                × (r'.outcome.result ≢ HandleResult.drop)
                × (flow_key_from_view dpdk r'.mbuf v' ≡ swap (flow_key_from_view dpdk m v)))
              (ap (λ (x : Handled P). x.world) e)
              (reply_over m reply v v' now_ms later_ms w g gw apart small fits fits' parsed parsed'
                (words g.session g.object (sym there ∙ g.held))
                (answers ∙ ap (λ (x : Handled P). swap (flow_key_from_view dpdk x.mbuf v)) (sym e)))
      ]
