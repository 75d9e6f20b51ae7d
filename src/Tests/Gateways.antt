-- ===== src/Tests/Gateways.antt =====
-- Runs of the gateway: a packet that waits for the address of the upstream.
use violet_gw.Prelude
use violet_gw.Prelude.{
  ℕ, List, [], ◌∷◌, ◌++◌, Option, none, some, ◌≡◌, ◌≢◌, true, false, refl, arith, ◌<◌, ◌≤◌, ◌+◌,
  ◌-◌, length, take, replicate, sub64,
}
use violet_gw.Dpdk.{Mbuf}
use violet_gw.Session.{init}
use violet_gw.Session.Invariant.{init-IsValid}
use violet_gw.Upstream.{BalancePolicy}
use violet_gw.Forward.Types.{ForwardConfig}
use violet_gw.Arp.{ArpConfig, make_request}
use violet_gw.Shm.{create_block}
use violet_gw.Gateway.{
  VioletGw, queue_of, enqueue_pending, flush_pending, expire_pending, maybe_probe_arp, handle,
}
use violet_gw.Gateway.Queues.{stay, ready, late, flush_pending_lem}
use violet_gw.Gateway.Bounds.{Short, Step, Reach, Reach-Short}
use violet_gw.Gateway.Safety.{Sound, handle-Sound}
use violet_gw.Tests.{machine, query, gateway_ip, vip_ip, upstream_ip}

abbrev pub cfg : ForwardConfig
cfg = record {
  vip = record { ip_be = vip_ip; port = 53 };
  gateway_ip_be = gateway_ip;
  gateway_mac = 2 ∷ 0 ∷ 0 ∷ 0 ∷ 0 ∷ 1 ∷ [];
  upstream_mac = 2 ∷ 0 ∷ 0 ∷ 0 ∷ 0 ∷ 3 ∷ [];
  client_side_mac = 2 ∷ 0 ∷ 0 ∷ 0 ∷ 0 ∷ 3 ∷ [];
  verify_checksum = false;
  recompute_udp_checksum = true;
}

abbrev pub acfg : ArpConfig
acfg = record { gateway_ip_be = gateway_ip; vip_ip_be = vip_ip; gateway_mac = cfg.gateway_mac }

abbrev pub new_gw : VioletGw
new_gw = record {
  world = record {
    sessions = init gateway_ip 1000 20000 20002;
    neighbors = some (record { entry_timeout_ms = 300000; entries = [] });
    upstreams = record {
      policy = BalancePolicy.mod';
      nodes = record { ip_be = upstream_ip; port = 53 } ∷ [];
      rr_counter = 0;
    };
  };
  cp = record { hdr = create_block none; last_applied = 0 };
  arp_pending = [];
  arp_probe_last_ms = [];
}

abbrev waiting : VioletGw
waiting = (enqueue_pending upstream_ip query 7 new_gw).0

flush_pending_lem_example :
    let r = flush_pending machine cfg upstream_ip 9 (query ∷ []) 32 waiting in
    let q = queue_of upstream_ip waiting in
    (r.1
      ≡ (query ∷ [])
        ++ take
            (32 - length (query ∷ []))
            (ready machine cfg waiting.world.neighbors upstream_ip 9 q))
    × (r.2 ≡ late machine cfg waiting.world.neighbors upstream_ip 9 q)
    × (queue_of upstream_ip r.0
        ≡ stay machine cfg waiting.world.neighbors upstream_ip 9 (32 - length (query ∷ [])) q)
flush_pending_lem_example =
    flush_pending_lem machine cfg upstream_ip 9 32 (query ∷ []) waiting (λ e. absurd (omega arith))

history : Reach machine cfg new_gw ((expire_pending 9000 waiting).0)
history = Reach.next (Reach.next Reach.here (Step.enqueues upstream_ip query 7)) (Step.expires 9000)

Reach-Short_example : Short ((expire_pending 9000 waiting).0).arp_pending
Reach-Short_example = Reach-Short machine cfg refl history

handle-Sound_example : Sound machine cfg acfg new_gw (handle machine cfg acfg query 7 new_gw)
handle-Sound_example =
    handle-Sound machine cfg acfg query 7 new_gw
      (init-IsValid gateway_ip 1000 20000 20002 (omega arith) (omega arith) (omega arith))

abbrev pub buffer : Option (List ℕ)
buffer = some (replicate 42 0)

one_sent :
    length {A = Mbuf} []
    < length (maybe_probe_arp machine cfg acfg buffer upstream_ip 7 [] 32 new_gw).1
unfolding maybe_probe_arp make_request Prelude.lookup
one_sent = omega arith
