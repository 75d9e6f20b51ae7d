-- ===== src/Tests/Loops.antt =====
-- Runs of the loop of the worker: a packet that waits, a burst, and a burst for which the array is
-- too small.
use violet_gw.Prelude
use violet_gw.Prelude.{
  when, timed_out, if◌then◌else◌, not, ℕ, zero, suc, List, [], ◌∷◌, ◌++◌, Option, none, some, ◌≡◌,
  ◌≢◌, true, false, refl, arith, ◌<◌, ◌≤◌, ◌+◌, ◌*◌, length, take, replicate, inr, lookup, nat_eq,
  timed_out, ◌-◌, ◌==◌, if◌then◌else◌, subst, sym,
}
use violet_gw.Prelude.Bytes.{bytes_of, overlay, word_of}
use violet_gw.Dpdk.{Mbuf}
use violet_gw.Session
use violet_gw.Session.Key.{flow_key_beq}
use violet_gw.Session.Invariant.{init-IsValid}
use violet_gw.Packet
use violet_gw.Forward
use violet_gw.Forward.Nat.{
  flow_key_from_view, apply_forward_nat, apply_reverse_nat, finish_l4_checksum, rewrite, set_l2,
}
use violet_gw.Forward.Types.{HandleResult, HandleOutcome, outcome}
use violet_gw.Arp
use violet_gw.Neighbor
use violet_gw.Upstream
use violet_gw.Gateway
use violet_gw.Gateway.{VioletGw, ArpPendingEntry, handle}
use violet_gw.Gateway.Queues.{ready}
use violet_gw.Gateway.Loop.{
  Port, LoopState, run_round, Timers, run_timers, send_all, no_batch, serve_all,
}
use violet_gw.Gateway.Loop.Waiting.{Fit}
use violet_gw.Gateway.Loop.Overflow.{serve_all_overflow}
use violet_gw.Tests.{machine, query, gateway_ip, upstream_ip}
use violet_gw.Gateway.Loop.Safety.{run_round-Fit}
use violet_gw.Gateway.Loop.Rounds.{run_timers_live}
use violet_gw.Gateway.Loop.Sending.{Sends, send_all-Sends}
use violet_gw.Session.{is_idle}
use violet_gw.Tests.Forwards.{with_session, with_session-IsValid}
use violet_gw.Tests.Gateways.{cfg, acfg, new_gw, buffer}

pub new_gw-Fit : Fit new_gw
new_gw-Fit = record {
  sessions = init-IsValid gateway_ip 1000 20000 20002 (omega arith) (omega arith) (omega arith);
  queues = tt;
}

-- The gateway after a run, where there is one.
abbrev handled : Mbuf → VioletGw → HandleOutcome × Mbuf × VioletGw
handled m gw = elim (handle machine cfg acfg m 7 gw) [
  | none ↦ (outcome HandleResult.drop, m, gw)
  | some r ↦ r
]

-- A gateway with a packet for each place of the array, all of which wait for the upstream.
abbrev full_gw : VioletGw
full_gw = record new_gw {
  arp_pending = (upstream_ip, replicate 32 (record { m = query; enqueued_ms = 5 })) ∷ [];
}

-- The upstream answers a probe.
abbrev reply : Mbuf
reply = record {
  bytes =
      2 ∷ 0 ∷ 0 ∷ 0 ∷ 0 ∷ 1 ∷ 2 ∷ 0 ∷ 0 ∷ 0 ∷ 0 ∷ 3 ∷ 8 ∷ 6 ∷ 0 ∷ 1 ∷ 8 ∷ 0 ∷ 6 ∷ 4 ∷ 0 ∷ 2 ∷ 2 ∷ 0
      ∷ 0 ∷ 0 ∷ 0 ∷ 3 ∷ 10 ∷ 0 ∷ 0 ∷ 1 ∷ 2 ∷ 0 ∷ 0 ∷ 0 ∷ 0 ∷ 1 ∷ 192 ∷ 168 ∷ 1 ∷ 10 ∷ [];
  data_len = 42;
  pkt_len = 42;
}

reply-learns :
    (handle machine cfg acfg reply 7 full_gw ≡ some (handled reply full_gw))
    × ((handled reply full_gw).0
        ≡ record { result = HandleResult.drop; arp_wait_ip_be = 0; learned_ip_be = upstream_ip })
unfolding handle Packet.ethertype Prelude.load16 Forward.handle Packet.parse_udp_ipv4 Prelude.load8
    Packet.dst_ip Prelude.load32 Packet.dst_port Forward.handle_forward Session.lookup_forward
    Prelude.lookup Session.init Gateway.pick_upstream Upstream.pick Upstream.hash_key
    flow_key_from_view Arp.handle Arp.handle_reply Arp.handle_request Arp.is_proxy_target
    Arp.is_zero_mac Arp.make_reply Arp.reply_bytes apply_forward_nat apply_reverse_nat
    finish_l4_checksum rewrite set_l2 Forward.classify Forward.created Forward.forward_miss
    Forward.handle_reverse Forward.lookup_next_hop_mac Forward.picked Forward.resolve
    Forward.send_forward Forward.send_reverse Gateway.after_forward Gateway.handle_arp
    Gateway.handle_ipv4 Gateway.ipv4_src_be Neighbor.learn Neighbor.lookup Packet.clear_udp_checksum
    Packet.first_octet Packet.headers_fit Packet.ihl_of Packet.ip_checksum_ok Packet.is_fragment
    Packet.parse_arp Packet.passive_learn_ipv4 Packet.refresh_ipv4_checksum
    Packet.refresh_udp_checksum Packet.src_ip Packet.src_port Packet.udp_checksum_ok
    Packet.udp_len_of Packet.verify_checksums bytes_of overlay Prelude.read Prelude.store16
    Prelude.store32 word_of Prelude.write Prelude.insert flow_key_beq Session.alloc_from
    Session.alloc_snat_port Session.create Session.deref Session.install Session.lookup_reverse
    Session.new_session Session.next_port Session.scan_ports Session.snat_tries Session.touch
    Upstream.pick_from Upstream.pick_index
reply-learns = (refl, refl)

abbrev learned_gw : VioletGw
learned_gw = (handled reply full_gw).2

all_ready :
    length (
      ready machine cfg learned_gw.world.neighbors upstream_ip 7
        (Gateway.queue_of upstream_ip learned_gw))
    ≡ 32
unfolding handle Packet.ethertype Prelude.load16 Forward.handle Packet.parse_udp_ipv4 Prelude.load8
    Packet.dst_ip Prelude.load32 Packet.dst_port Forward.handle_forward Session.lookup_forward
    Prelude.lookup Session.init Gateway.pick_upstream Upstream.pick Upstream.hash_key
    flow_key_from_view Arp.handle Arp.handle_reply Arp.handle_request Arp.is_proxy_target
    Arp.is_zero_mac Arp.make_reply Arp.reply_bytes apply_forward_nat apply_reverse_nat
    finish_l4_checksum rewrite set_l2 Forward.classify Forward.created Forward.forward_miss
    Forward.handle_reverse Forward.lookup_next_hop_mac Forward.picked Forward.resolve
    Forward.send_forward Forward.send_reverse Gateway.after_forward Gateway.handle_arp
    Gateway.handle_ipv4 Gateway.ipv4_src_be Neighbor.learn Neighbor.lookup Packet.clear_udp_checksum
    Packet.first_octet Packet.headers_fit Packet.ihl_of Packet.ip_checksum_ok Packet.is_fragment
    Packet.parse_arp Packet.passive_learn_ipv4 Packet.refresh_ipv4_checksum
    Packet.refresh_udp_checksum Packet.src_ip Packet.src_port Packet.udp_checksum_ok
    Packet.udp_len_of Packet.verify_checksums bytes_of overlay Prelude.read Prelude.store16
    Prelude.store32 word_of Prelude.write Prelude.insert flow_key_beq Session.alloc_from
    Session.alloc_snat_port Session.create Session.deref Session.install Session.lookup_reverse
    Session.new_session Session.next_port Session.scan_ports Session.snat_tries Session.touch
    Upstream.pick_from Upstream.pick_index Forward.finish_l2 Prelude.timed_out
all_ready = refl

abbrev flushed_gw : VioletGw
flushed_gw = (Gateway.flush_pending machine cfg upstream_ip 7 [] 32 learned_gw).0

query-forwards :
    (handle machine cfg acfg query 7 flushed_gw ≡ some (handled query flushed_gw))
    × ((handled query flushed_gw).0.result ≡ HandleResult.tx_forward)
unfolding handle Packet.ethertype Prelude.load16 Forward.handle Packet.parse_udp_ipv4 Prelude.load8
    Packet.dst_ip Prelude.load32 Packet.dst_port Forward.handle_forward Session.lookup_forward
    Prelude.lookup Session.init Gateway.pick_upstream Upstream.pick Upstream.hash_key
    flow_key_from_view Arp.handle Arp.handle_reply Arp.handle_request Arp.is_proxy_target
    Arp.is_zero_mac Arp.make_reply Arp.reply_bytes apply_forward_nat apply_reverse_nat
    finish_l4_checksum rewrite set_l2 Forward.classify Forward.created Forward.forward_miss
    Forward.handle_reverse Forward.lookup_next_hop_mac Forward.picked Forward.resolve
    Forward.send_forward Forward.send_reverse Gateway.after_forward Gateway.handle_arp
    Gateway.handle_ipv4 Gateway.ipv4_src_be Neighbor.learn Neighbor.lookup Packet.clear_udp_checksum
    Packet.first_octet Packet.headers_fit Packet.ihl_of Packet.ip_checksum_ok Packet.is_fragment
    Packet.parse_arp Packet.passive_learn_ipv4 Packet.refresh_ipv4_checksum
    Packet.refresh_udp_checksum Packet.src_ip Packet.src_port Packet.udp_checksum_ok
    Packet.udp_len_of Packet.verify_checksums bytes_of overlay Prelude.read Prelude.store16
    Prelude.store32 word_of Prelude.write Prelude.insert flow_key_beq Session.alloc_from
    Session.alloc_snat_port Session.create Session.deref Session.install Session.lookup_reverse
    Session.new_session Session.next_port Session.scan_ports Session.snat_tries Session.touch
    Upstream.pick_from Upstream.pick_index Forward.finish_l2 Gateway.flush_pending
query-forwards = (refl, refl)

serve_all_overflow_example :
    serve_all machine cfg acfg ((reply, none) ∷ (query, none) ∷ []) 7 (full_gw, no_batch) ≡ none
serve_all_overflow_example =
    let x = reply-learns.1 in
    let enough = subst (λ n. 32 ≤ n) (sym all_ready) (omega arith) in
    serve_all_overflow machine cfg acfg reply (handled reply full_gw).1 query
      (handled query flushed_gw).1 none none 7 full_gw learned_gw (handled query flushed_gw).2
      (record { result = HandleResult.drop; arp_wait_ip_be = 0; learned_ip_be = upstream_ip })
      (handled query flushed_gw).0
      (subst
        (λ o.
          handle machine cfg acfg reply 7 full_gw ≡ some (o, (handled reply full_gw).1, learned_gw))
        x reply-learns.0)
      refl (λ e. absurd (omega arith)) enough query-forwards.0 query-forwards.1

-- A port that takes one packet at a time, and as many as its state says.
abbrev slow_port : Port ℕ
slow_port = record {
  recv_burst = λ s n. (take n (query ∷ query ∷ []), s);
  send_burst = λ s tx. (if s == 0 then 0 else 1, s - 1);
}

send_all-Sends_example :
    (n : ℕ) × (n ≤ 2)
    × Sends slow_port 1 (query ∷ reply ∷ []) (send_all slow_port 1 (query ∷ reply ∷ [])) n
send_all-Sends_example = send_all-Sends slow_port 1 (query ∷ reply ∷ [])

abbrev pub timers : Timers
timers = record { last_expire_ms = 0; last_arp_expire_ms = 0; last_cp_poll_ms = 0 }

-- The gateway after the query of a client, with its session.
abbrev session_gw : VioletGw
session_gw = record new_gw { world = record new_gw.world { sessions = with_session } }

run_timers_live_example :
    let r = run_timers 1000 timers session_gw in
    (lookup 0 r.0.world.sessions.heap ≡ (
      if timed_out 1000 0 1000
      then when (λ o. not (is_idle with_session 1000 o)) (lookup 0 with_session.heap)
      else lookup 0 with_session.heap))
    × (r.1.last_expire_ms ≡ (if timed_out 1000 0 1000 then 1000 else 0))
    × (r.1.last_arp_expire_ms ≡ (if timed_out 60000 0 1000 then 1000 else 0))
    × (r.1.last_cp_poll_ms ≡ (if timed_out 1000 0 1000 then 1000 else 0))
run_timers_live_example = run_timers_live 1000 timers session_gw 0 with_session-IsValid

abbrev waiting_state : LoopState ℕ
waiting_state = record { gw = new_gw; timers = timers; port = 1 }

run_round-Fit_example :
    (r : LoopState ℕ × List Mbuf) × (run_round machine cfg acfg slow_port
        (λ i. buffer)
        1000
        waiting_state
      ≡ some r)
    × Fit r.0.gw
run_round-Fit_example =
    run_round-Fit machine cfg acfg slow_port (λ i. buffer) 1000 waiting_state new_gw-Fit
      (omega arith)
