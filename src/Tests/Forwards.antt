-- ===== src/Tests/Forwards.antt =====
-- A run of the forwarder: a query from a client, and the answer to it.
use violet_gw.Prelude
use violet_gw.Prelude.{
  ℕ, List, [], ◌∷◌, Option, none, some, ◌≡◌, ◌≢◌, refl, arith, ◌<◌, ◌≤◌, true, false, ◌==◌,
  Bool-cases, inl, inr, subst, u16_mod, u32_mod,
}
use violet_gw.Packet.{parse_udp_ipv4, ihl_of, udp_len_of, dst_ip, dst_port}
use violet_gw.Packet.Layout.{PacketView, ok}
use violet_gw.Packet
use violet_gw.Forward
use violet_gw.Session
use violet_gw.Session.{Session, SessionTable, init}
use violet_gw.Session.Key.{FlowKey}
use violet_gw.Session.Invariant.{IsValid, init-IsValid}
use violet_gw.Forward.Types.{Upstream, ForwardConfig, HandleResult, World, Handled, outcome}
use violet_gw.Forward.Nat.{flow_key_from_view}
use violet_gw.Forward.{handle}
use violet_gw.Forward.Safety.{handle-Safe}
use violet_gw.Forward.Replies.{Worded, swap}
use violet_gw.Forward.RoundTrip.{nat_round_trip}
use violet_gw.Tests.{
  machine, machine-IsDpdk, query, answer, gateway_ip, vip_ip, upstream_ip, client_ip, flow,
}

abbrev one_upstream : FlowKey → Unit {0} → Option Upstream × Unit {0}
one_upstream key u = (some (record { ip_be = upstream_ip; port = 53 }), u)

abbrev cfg : ForwardConfig
cfg = record {
  vip = record { ip_be = vip_ip; port = 53 };
  gateway_ip_be = gateway_ip;
  gateway_mac = 2 ∷ 0 ∷ 0 ∷ 0 ∷ 0 ∷ 1 ∷ [];
  upstream_mac = 2 ∷ 0 ∷ 0 ∷ 0 ∷ 0 ∷ 3 ∷ [];
  client_side_mac = 2 ∷ 0 ∷ 0 ∷ 0 ∷ 0 ∷ 3 ∷ [];
  verify_checksum = false;
  recompute_udp_checksum = true;
}

abbrev new_world : World (Unit {0})
new_world = record { sessions = init gateway_ip 1000 20000 20002; neighbors = none; upstreams = tt }

new_world-IsValid : IsValid new_world.sessions
new_world-IsValid =
    init-IsValid gateway_ip 1000 20000 20002 (omega arith) (omega arith) (omega arith)

abbrev view : PacketView
view = record { udp = 34; payload = 42; payload_len = 2 }

query-parses : parse_udp_ipv4 machine false query ≡ ok view
unfolding parse_udp_ipv4 Prelude.load8 Prelude.load16
query-parses = refl

answer-parses : parse_udp_ipv4 machine false answer ≡ ok view
unfolding parse_udp_ipv4 Prelude.load8 Prelude.load16
answer-parses = refl

-- What the query becomes: the session that it opens, and the packet to the upstream.
abbrev pub opened : Session
opened = record {
  forward_key = flow;
  reverse_key = record {
    src_ip = upstream_ip;
    dst_ip = gateway_ip;
    src_port = 53;
    dst_port = 20000;
    proto = 17;
  };
  client_ip = client_ip;
  client_port = 4096;
  vip_ip = vip_ip;
  vip_port = 53;
  upstream_ip = upstream_ip;
  upstream_port = 53;
  snat_port = 20000;
  last_active_ms = 7;
}

abbrev pub with_session : SessionTable
with_session = record {
  gateway_ip = gateway_ip;
  idle_timeout_ms = 1000;
  snat_begin = 20000;
  snat_end = 20002;
  snat_next = 20001;
  heap = (0, opened) ∷ [];
  fresh = 1;
  sessions = 0 ∷ [];
  forward = (flow, 0) ∷ [];
  reverse = (opened.reverse_key, 0) ∷ [];
  free_ports = [];
  port_in_use = Session.set_flag 20000 true (λ p. false);
}

abbrev sent : Handled (Unit {0})
sent = record {
  outcome = outcome HandleResult.tx_forward;
  mbuf = record {
    bytes =
        2 ∷ 0 ∷ 0 ∷ 0 ∷ 0 ∷ 3 ∷ 2 ∷ 0 ∷ 0 ∷ 0 ∷ 0 ∷ 1 ∷ 8 ∷ 0 ∷ 69 ∷ 0 ∷ 0 ∷ 30 ∷ 0 ∷ 0 ∷ 0 ∷ 0 ∷ 64
        ∷ 17 ∷ 175 ∷ 28 ∷ 192 ∷ 168 ∷ 1 ∷ 10 ∷ 10 ∷ 0 ∷ 0 ∷ 1 ∷ 78 ∷ 32 ∷ 0 ∷ 53 ∷ 0 ∷ 10 ∷ 177
        ∷ 160 ∷ 7 ∷ 8 ∷ [];
    data_len = 44;
    pkt_len = 44;
  };
  world = record { sessions = with_session; neighbors = none; upstreams = tt };
}

query-sent : handle machine (some one_upstream) cfg query 7 new_world ≡ some sent
unfolding handle parse_udp_ipv4 Prelude.load16 Prelude.load8 Prelude.load32 dst_ip dst_port
    Session.lookup_forward Prelude.lookup init Session.create Session.alloc_snat_port
    Session.alloc_from Session.scan_ports Session.snat_tries Session.deref Session.install
    Prelude.insert Session.new_session Session.next_port Forward.handle_forward Forward.send_forward
    Forward.picked Forward.created Forward.forward_miss Forward.resolve Forward.lookup_next_hop_mac
    Forward.Nat.apply_forward_nat Forward.Nat.rewrite Forward.Nat.finish_l4_checksum
    Forward.Nat.set_l2 flow_key_from_view Packet.refresh_udp_checksum Packet.refresh_ipv4_checksum
    Packet.verify_checksums Packet.is_fragment Packet.headers_fit ihl_of udp_len_of Prelude.read
    Prelude.write Prelude.store16 Prelude.store32 Session.Key.flow_key_beq
query-sent = refl

pub with_session-IsValid : IsValid with_session
with_session-IsValid =
    let x = handle-Safe machine (some one_upstream) cfg query 7 new_world new_world-IsValid in
    let same : x.handled ≡ sent = cc (x.result, query-sent) in
    subst (λ h. IsValid h.world.sessions) same x.valid

sent-alive : sent.outcome.result ≢ HandleResult.drop
sent-alive e = cc

opened-Worded : Worded opened
opened-Worded = record {
  ips = (omega arith, omega arith, omega arith);
  ports = (omega arith, omega arith, omega arith, omega arith);
}

sent-Worded : (s : ℕ) (o : Session) → Session.deref sent.world.sessions s ≡ some o → Worded o
unfolding Session.deref Prelude.lookup
sent-Worded s o e = elim (Bool-cases (0 == s)) [
  | inl same ↦ let q : opened ≡ o = cc (rw same at e) in subst Worded q opened-Worded
  | inr other ↦ cc (rw other at e)
]

answer-answers :
    flow_key_from_view machine answer view ≡ swap (flow_key_from_view machine sent.mbuf view)
unfolding flow_key_from_view dst_ip dst_port Prelude.load16 Prelude.load32 Packet.src_ip
    Packet.src_port
answer-answers = refl

nat_round_trip_example :
    (r : Handled (Unit {0})) × (handle machine (some one_upstream) cfg answer 9 sent.world ≡ some r)
    × (r.outcome.result ≢ HandleResult.drop)
    × (flow_key_from_view machine r.mbuf view ≡ swap (flow_key_from_view machine query view))
unfolding init dst_ip dst_port Prelude.load16 Prelude.load32
nat_round_trip_example =
    nat_round_trip machine machine-IsDpdk (some one_upstream) cfg query answer view view 7 9
      new_world sent new_world-IsValid refl (λ e. absurd (omega arith)) (omega arith) (omega arith)
      (omega arith) query-parses answer-parses refl refl query-sent sent-alive sent-Worded
      answer-answers
