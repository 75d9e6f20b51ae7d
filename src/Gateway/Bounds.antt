-- ===== src/Gateway/Bounds.antt =====
-- The length of the queues of vgw.cpp along a history, against ARP_PENDING_MAX_PER_IP.
use violet_gw.Prelude.{
  List-cases, ℕ, List, [], ◌∷◌, ◌≡◌, arith, ap, ◌==◌, ◌≤◌, leb, length, length-append, Map, lookup,
  insert, erase, nat_eq, Bool-cases, inl, inr,
}
use violet_gw.Dpdk.{Dpdk, Mbuf}
use violet_gw.Forward.Types.{ForwardConfig}
use violet_gw.Gateway.{
  ArpPendingEntry, VioletGw, arp_pending_max_per_ip, expire_queue, expire_queues, expire_pending,
  keep_queue, as_queue, queue_of, enqueue_pending, flush_pending, put_back,
}
use violet_gw.Gateway.Queues.{flush_queue-Flushes}

-- Every queue has room for no more than the limit.
abbrev pub Short : Map ℕ (List ArpPendingEntry) → Type 0
Short [] = Unit
Short ((ip, q) ∷ m) = (length q ≤ arp_pending_max_per_ip) × Short m

insert-Short :
    (ip : ℕ) (q : List ArpPendingEntry) (m : Map ℕ (List ArpPendingEntry))
    → length q ≤ arp_pending_max_per_ip
    → Short m
    → Short (insert ip q m)
unfolding insert
insert-Short ip q [] h s = (h, tt)
insert-Short ip q ((j, r) ∷ m) h s = elim (Bool-cases (j == ip)) [
  | inl same ↦ rw same (h, s.1)
  | inr other ↦ rw other (s.0, insert-Short ip q m h s.1)
]

erase-Short : (ip : ℕ) (m : Map ℕ (List ArpPendingEntry)) → Short m → Short (erase ip m)
unfolding erase
erase-Short ip [] s = tt
erase-Short ip ((j, r) ∷ m) s = elim (Bool-cases (j == ip)) [
  | inl same ↦ rw same (erase-Short ip m s.1)
  | inr other ↦ rw other (s.0, erase-Short ip m s.1)
]

queue-Short :
    (ip : ℕ) (m : Map ℕ (List ArpPendingEntry))
    → Short m
    → length (as_queue (lookup ip m)) ≤ arp_pending_max_per_ip
unfolding lookup
queue-Short ip [] s = omega arith
queue-Short ip ((j, r) ∷ m) s = elim (Bool-cases (j == ip)) [
  | inl same ↦ rw same s.0
  | inr other ↦ rw other (queue-Short ip m s.1)
]

length-expire_queue :
    (now_ms : ℕ) (q : List ArpPendingEntry) → length (expire_queue now_ms q).0 ≤ length q
unfolding expire_queue
length-expire_queue now_ms [] = omega arith
length-expire_queue now_ms (e ∷ q) = ground (arith, length-expire_queue now_ms q)

keep_queue-Short :
    (ip : ℕ) (q : List ArpPendingEntry) (m : Map ℕ (List ArpPendingEntry))
    → length q ≤ arp_pending_max_per_ip
    → Short m
    → Short (keep_queue ip q m)
keep_queue-Short ip [] m h s = s
keep_queue-Short ip (e ∷ q) m h s = (h, s)

expire_queues-Short :
    (now_ms : ℕ) (m : Map ℕ (List ArpPendingEntry)) → Short m → Short (expire_queues now_ms m).0
unfolding expire_queues
expire_queues-Short now_ms [] s = tt
expire_queues-Short now_ms ((j, r) ∷ m) s =
    keep_queue-Short j (expire_queue now_ms r).0 (expire_queues now_ms m).0
      (omega (arith, length-expire_queue now_ms r, s.0)) (expire_queues-Short now_ms m s.1)

put_back-Short :
    (dpdk : Dpdk) (cfg : ForwardConfig) (ip : ℕ) (q : List ArpPendingEntry)
    (m : Map ℕ (List ArpPendingEntry))
    → length q ≤ arp_pending_max_per_ip
    → Short m
    → Short (put_back dpdk cfg ip q m)
put_back-Short dpdk cfg ip [] m h s = erase-Short ip m s
put_back-Short dpdk cfg ip (e ∷ q) m h s = insert-Short ip (e ∷ q) m h s

module _ (dpdk : Dpdk) (cfg : ForwardConfig) where
  -- What the loop of the gateway does to the queues.
  pub data Step (gw : VioletGw) : VioletGw → Type 0 where
    enqueues : (ip_be : ℕ) (m : Mbuf) (now_ms : ℕ) → Step gw ((enqueue_pending ip_be m now_ms gw).0)
    flushes :
        (ip_be now_ms : ℕ) (tx : List Mbuf) (tx_cap : ℕ)
        → Step gw ((flush_pending dpdk cfg ip_be now_ms tx tx_cap gw).0)
    expires : (now_ms : ℕ) → Step gw ((expire_pending now_ms gw).0)

  pub data Reach (gw : VioletGw) : VioletGw → Type 0 where
    here : Reach gw gw
    next : {u w : VioletGw} → Reach gw u → Step u w → Reach gw w

  enqueue_pending-Short :
      (ip_be : ℕ) (m : Mbuf) (now_ms : ℕ) (gw : VioletGw)
      → Short gw.arp_pending
      → Short (enqueue_pending ip_be m now_ms gw).0.arp_pending
  unfolding enqueue_pending
  enqueue_pending-Short ip_be m now_ms gw s =
      let q = queue_of ip_be gw in
      let low = queue-Short ip_be gw.arp_pending s in
      elim (Bool-cases (ip_be == 0)) [
        | inl off ↦ rw off s
        | inr on ↦ elim (Bool-cases (leb arp_pending_max_per_ip (length q))) [
          | inl full ↦ rw (on, full) (insert-Short ip_be q gw.arp_pending low s)
          | inr room ↦
              rw (on, room)
                (insert-Short ip_be _ gw.arp_pending
                  (ground (arith, length-append q (record { m = m; enqueued_ms = now_ms } ∷ []))) s)
        ]
      ]

  flush_pending-Short :
      (ip_be now_ms : ℕ) (tx : List Mbuf) (tx_cap : ℕ) (gw : VioletGw)
      → Short gw.arp_pending
      → Short (flush_pending dpdk cfg ip_be now_ms tx tx_cap gw).0.arp_pending
  unfolding flush_pending
  flush_pending-Short ip_be now_ms tx tx_cap gw s = elim (Bool-cases (ip_be == 0)) [
    | inl off ↦ rw (off, flush_pending) s
    | inr on ↦ elim (List-cases (queue_of ip_be gw)) [
      | inl e ↦ rw (on, flush_pending) (rw (e, flush_pending) s)
      | inr (e, q, h) ↦
          let x =
            flush_queue-Flushes dpdk cfg gw.world.neighbors ip_be now_ms tx_cap (e ∷ q) tx [] in
          let low = queue-Short ip_be gw.arp_pending s in
          rw (on, flush_pending)
            (rw (h, flush_pending)
              (put_back-Short dpdk cfg ip_be _ gw.arp_pending
                (omega (arith, x.conserved, ap length x.sent, ap length h, low, length-append tx _))
                s))
    ]
  ]

  Step-Short : {u w : VioletGw} → Step u w → Short u.arp_pending → Short w.arp_pending
  unfolding expire_pending
  Step-Short {u} (enqueues ip_be m now_ms) s = enqueue_pending-Short ip_be m now_ms u s
  Step-Short {u} (flushes ip_be now_ms tx tx_cap) s = flush_pending-Short ip_be now_ms tx tx_cap u s
  Step-Short {u} (expires now_ms) s = expire_queues-Short now_ms u.arp_pending s

  -- From a gateway without waiting packets, no history of enqueuing, flushing and expiring makes a
  -- queue longer than the limit per address.
  pub Reach-Short : {gw u : VioletGw} → gw.arp_pending ≡ [] → Reach gw u → Short u.arp_pending
  Reach-Short e here = rw e tt
  Reach-Short e (next r s) = Step-Short s (Reach-Short e r)
