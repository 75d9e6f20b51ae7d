-- ===== src/Gateway.antt =====
-- vgw.h, vgw.cpp and config.hpp: the gateway after `init_services`, so that its parts are there. The
-- packets that a function frees or puts into the array of its caller are part of its result.
pub mod Attach
pub mod Queues
pub mod Bounds
pub mod Safety
pub mod Services
pub mod Startup
pub mod Loop
pub mod Run
use violet_gw.Prelude.{
  ℕ, Bool, true, false, Option, none, some, List, [], ◌∷◌, ◌++◌, ◌+◌, ◌-◌, ◌==◌, ◌&&◌, ◌||◌, not,
  ltb, leb, if◌then◌else◌, length, Map, lookup, insert, erase, nat_eq, timed_out, sub64, load16,
  load32,
}
use violet_gw.Dpdk.{Dpdk, Mbuf}
use violet_gw.Neighbor
use violet_gw.Neighbor.{NeighborTable}
use violet_gw.Session
use violet_gw.Session.Key.{FlowKey}
use violet_gw.Upstream
use violet_gw.Upstream.{UpstreamTable, UpstreamEndpoint}
use violet_gw.Packet.{ethertype, passive_learn_ipv4}
use violet_gw.Packet.Layout.{
  ether_type_ipv4, ether_type_arp, eth_hdr_len, min_ip_hdr_len, eth_type, ip_src,
}
use violet_gw.Forward
use violet_gw.Forward.Types.{
  Upstream, ForwardConfig, HandleResult, HandleOutcome, World, Handled, outcome,
}
use violet_gw.Forward.{finish_l2}
use violet_gw.Arp
use violet_gw.Arp.{ArpConfig}
use violet_gw.Shm
use violet_gw.Shm.{CpShm}

abbrev pub arp_probe_interval_ms : ℕ
arp_probe_interval_ms = 1000

abbrev pub arp_pending_timeout_ms : ℕ
arp_pending_timeout_ms = 5000

abbrev pub arp_pending_max_per_ip : ℕ
arp_pending_max_per_ip = 64

pub record ArpPendingEntry : Type 0 where
  pub m : Mbuf
  pub enqueued_ms : ℕ

pub record VioletGw : Type 0 where
  pub world : World UpstreamTable
  pub cp : CpShm
  pub arp_pending : Map ℕ (List ArpPendingEntry)
  pub arp_probe_last_ms : Map ℕ ℕ

-- The picker that `init_services` gives to the forwarder.
unfoldable pub pick_upstream : FlowKey → UpstreamTable → Option Upstream × UpstreamTable
pick_upstream key t =
    let (ep, t') = Upstream.pick key t in
    (elim ep [ none ↦ none | some e ↦ some (record { ip_be = e.ip_be; port = e.port }) ], t')

unfoldable pub poll_control : VioletGw → Bool × VioletGw
poll_control gw =
    let (applied, cp, upstreams) = Shm.poll_apply gw.cp gw.world.upstreams in
    (applied, record gw { cp = cp; world = record gw.world { upstreams = upstreams } })

unfoldable pub expire_sessions : ℕ → VioletGw → VioletGw
expire_sessions now_ms gw = record gw {
  world = record gw.world { sessions = (Session.expire now_ms gw.world.sessions).1 };
}

abbrev pub expired_neighbors : ℕ → Option NeighborTable → Option NeighborTable
expired_neighbors now_ms none = none
expired_neighbors now_ms (some t) = some (Neighbor.expire now_ms t)

unfoldable pub expire_neighbors : ℕ → VioletGw → VioletGw
expire_neighbors now_ms gw = record gw {
  world = record gw.world { neighbors = expired_neighbors now_ms gw.world.neighbors };
}

abbrev pub is_expired : ℕ → ArpPendingEntry → Bool
is_expired now_ms e = timed_out arp_pending_timeout_ms e.enqueued_ms now_ms

-- One queue of `expire_pending`: what stays, and what is freed.
unfoldable pub expire_queue : ℕ → List ArpPendingEntry → List ArpPendingEntry × List Mbuf
expire_queue now_ms [] = ([], [])
expire_queue now_ms (e ∷ q) =
    let (kept, freed) = expire_queue now_ms q in
    if is_expired now_ms e then (kept, e.m ∷ freed) else (e ∷ kept, freed)

-- A queue that has become empty is erased from the map.
abbrev pub keep_queue :
    ℕ → List ArpPendingEntry → Map ℕ (List ArpPendingEntry) → Map ℕ (List ArpPendingEntry)
keep_queue ip [] others = others
keep_queue ip (e ∷ q) others = (ip, e ∷ q) ∷ others

unfoldable pub expire_queues :
    ℕ → Map ℕ (List ArpPendingEntry) → Map ℕ (List ArpPendingEntry) × List Mbuf
unfolding expire_queue
expire_queues now_ms [] = ([], [])
expire_queues now_ms ((ip, q) ∷ rest) =
    let (kept, freed) = expire_queue now_ms q in
    let (others, freed') = expire_queues now_ms rest in (keep_queue ip kept others, freed ++ freed')

unfoldable pub expire_pending : ℕ → VioletGw → VioletGw × List Mbuf
unfolding expire_queues
expire_pending now_ms gw =
    let (pending, freed) = expire_queues now_ms gw.arp_pending in
    (record gw { arp_pending = pending }, freed)

-- `arp_pending_[ip_be]`, which makes an empty queue where there is none.
abbrev pub as_queue : Option (List ArpPendingEntry) → List ArpPendingEntry
as_queue none = []
as_queue (some q) = q

abbrev pub queue_of : ℕ → VioletGw → List ArpPendingEntry
queue_of ip_be gw = as_queue (lookup ip_be gw.arp_pending)

unfoldable pub enqueue_pending : ℕ → Mbuf → ℕ → VioletGw → VioletGw × List Mbuf
enqueue_pending ip_be m now_ms gw =
    let q = queue_of ip_be gw in
    if ip_be == 0
    then (gw, [])
    else if leb arp_pending_max_per_ip (length q)
    then (record gw { arp_pending = insert ip_be q gw.arp_pending }, m ∷ [])
    else (
      record gw {
        arp_pending =
            insert ip_be (q ++ record { m = m; enqueued_ms = now_ms } ∷ []) gw.arp_pending;
      },
      [],
    )

-- What the loop of `flush_pending` has made of a queue.
pub record Flushed : Type 0 where
  pub remaining : List ArpPendingEntry
  pub tx : List Mbuf
  pub freed : List Mbuf

module _ (dpdk : Dpdk) (cfg : ForwardConfig) where
  -- `tx` is the array up to `n_tx`. A packet that finds it full waits on with its new addresses.
  unfoldable pub flush_queue :
      Option NeighborTable → ℕ → ℕ → ℕ → List ArpPendingEntry → List Mbuf → List Mbuf → Flushed
  flush_queue neighbors ip_be now_ms tx_cap [] tx freed = record {
    remaining = [];
    tx = tx;
    freed = freed;
  }
  flush_queue neighbors ip_be now_ms tx_cap (e ∷ q) tx freed = elim (is_expired now_ms e) [
    | true ↦ flush_queue neighbors ip_be now_ms tx_cap q tx (freed ++ e.m ∷ [])
    | false ↦ elim (finish_l2 dpdk (some pick_upstream) cfg neighbors e.m ip_be) [
      | none ↦
          let r = flush_queue neighbors ip_be now_ms tx_cap q tx freed in
          record r { remaining = e ∷ r.remaining }
      | some m ↦ elim (leb tx_cap (length tx)) [
        | true ↦
            let r = flush_queue neighbors ip_be now_ms tx_cap q tx freed in
            record r { remaining = record e { m = m } ∷ r.remaining }
        | false ↦ flush_queue neighbors ip_be now_ms tx_cap q (tx ++ m ∷ []) freed
      ]
    ]
  ]

  -- The pending map with what is left of a queue.
  abbrev pub put_back :
      ℕ → List ArpPendingEntry → Map ℕ (List ArpPendingEntry) → Map ℕ (List ArpPendingEntry)
  put_back ip_be [] pending = erase ip_be pending
  put_back ip_be (e ∷ q) pending = insert ip_be (e ∷ q) pending

  -- The gateway, the array and the packets that were freed.
  unfoldable pub flush_pending : ℕ → ℕ → List Mbuf → ℕ → VioletGw → VioletGw × List Mbuf × List Mbuf
  unfolding flush_queue
  flush_pending ip_be now_ms tx tx_cap gw =
      if ip_be == 0 then (gw, tx, []) else elim (queue_of ip_be gw) [
        | [] ↦ (gw, tx, [])
        | e ∷ q ↦
            let r = flush_queue gw.world.neighbors ip_be now_ms tx_cap (e ∷ q) tx [] in
            (record gw { arp_pending = put_back ip_be r.remaining gw.arp_pending }, r.tx, r.freed)
      ]

  abbrev pub probed_recently : ℕ → ℕ → VioletGw → Bool
  probed_recently ip_be now_ms gw = elim (lookup ip_be gw.arp_probe_last_ms) [
    | none ↦ false
    | some last ↦ ltb (sub64 now_ms last) arp_probe_interval_ms
  ]

  -- `buffer` is what the mbuf pool gives to `make_request`.
  unfoldable pub maybe_probe_arp :
      ArpConfig
      → Option (List ℕ)
      → ℕ
      → ℕ
      → List Mbuf
      → ℕ
      → VioletGw
      → VioletGw × List Mbuf × List Mbuf
  maybe_probe_arp acfg buffer ip_be now_ms tx tx_cap gw =
      if ip_be == 0 || probed_recently ip_be now_ms gw
      then (gw, tx, [])
      else elim (Arp.make_request dpdk acfg buffer ip_be) [
        | none ↦ (gw, tx, [])
        | some probe ↦ if leb tx_cap (length tx) then (gw, tx, probe ∷ []) else (
          record gw { arp_probe_last_ms = insert ip_be now_ms gw.arp_probe_last_ms },
          tx ++ probe ∷ [],
          [],
        )
      ]

  unfoldable pub ipv4_src_be : Mbuf → ℕ
  ipv4_src_be m =
      if ltb m.data_len (eth_hdr_len + min_ip_hdr_len)
      then 0
      else if dpdk.be_to_cpu_16 (load16 m.bytes eth_type) == ether_type_ipv4
      then load32 m.bytes ip_src
      else 0

  abbrev pub learned_neighbors : Mbuf → ℕ → Option NeighborTable → Option NeighborTable
  learned_neighbors m now_ms none = none
  learned_neighbors m now_ms (some t) = some (passive_learn_ipv4 dpdk m now_ms t)

  abbrev pub is_pending : ℕ → VioletGw → Bool
  is_pending ip_be gw = elim (lookup ip_be gw.arp_pending) [ none ↦ false | some q ↦ true ]

  -- The end of the IPv4 branch of `handle`, after the forwarder has returned.
  unfoldable pub after_forward : VioletGw → Handled UpstreamTable → HandleOutcome × Mbuf × VioletGw
  unfolding ipv4_src_be
  after_forward gw h =
      let src = ipv4_src_be h.mbuf in
      let learned = if not (src == 0) && is_pending src gw then src else h.outcome.learned_ip_be in
      (record h.outcome { learned_ip_be = learned }, h.mbuf, record gw { world = h.world })

  unfoldable pub handle_arp : ArpConfig → Mbuf → ℕ → VioletGw → HandleOutcome × Mbuf × VioletGw
  handle_arp acfg m now_ms gw =
      let h = Arp.handle dpdk acfg m now_ms gw.world.neighbors in
      (
        record {
          result = h.outcome.result;
          arp_wait_ip_be = 0;
          learned_ip_be = h.outcome.learned_ip_be;
        },
        h.mbuf,
        record gw { world = record gw.world { neighbors = h.neighbors } },
      )

  -- `none` is a fault of the forwarder.
  unfoldable pub handle_ipv4 : Mbuf → ℕ → VioletGw → Option (HandleOutcome × Mbuf × VioletGw)
  unfolding after_forward
  handle_ipv4 m now_ms gw =
      let w : World UpstreamTable = record gw.world {
        neighbors = learned_neighbors m now_ms gw.world.neighbors;
      } in
      elim (Forward.handle dpdk (some pick_upstream) cfg m now_ms w) [
        | none ↦ none
        | some h ↦ some (after_forward gw h)
      ]

  unfoldable pub handle : ArpConfig → Mbuf → ℕ → VioletGw → Option (HandleOutcome × Mbuf × VioletGw)
  unfolding handle_arp handle_ipv4
  handle acfg m now_ms gw =
      if ethertype dpdk m == ether_type_arp
      then some (handle_arp acfg m now_ms gw)
      else if ethertype dpdk m == ether_type_ipv4
      then handle_ipv4 m now_ms gw
      else some (outcome HandleResult.drop, m, gw)
