-- ===== src/Gateway/Queues.antt =====
-- The queues of packets that wait for the address of their next hop: `flush_pending` of vgw.cpp.
use violet_gw.Prelude.{
  List-cases, ℕ, zero, suc, false, Option, none, some, List, [], ◌∷◌, ◌++◌, ◌≡◌, refl, arith, ◌∙◌,
  sym, ap, ◌+◌, ◌-◌, ◌==◌, leb, length, take, length-append, lookup, insert, erase, nat_eq,
  lookup-insert, lookup-erase, beq_refl, ◌≢◌, Bool-cases, Option-cases, inl, inr, if◌then◌else◌,
}
use mathlib.Core.List.{append_assoc, append-nil}
use violet_gw.Dpdk.{Dpdk, Mbuf}
use violet_gw.Neighbor.{NeighborTable}
use violet_gw.Forward.Types.{ForwardConfig}
use violet_gw.Forward.{finish_l2}
use violet_gw.Gateway.{
  ArpPendingEntry, VioletGw, Flushed, is_expired, as_queue, queue_of, flush_queue, flush_pending,
  put_back, pick_upstream,
}

take-nil : (n : ℕ) → take {A = Mbuf} n [] ≡ []
take-nil zero = refl
take-nil (suc n) = refl

module _ (dpdk : Dpdk) (cfg : ForwardConfig) (neighbors : Option NeighborTable)
    (ip_be now_ms : ℕ) where
  -- The packets of a queue that can be sent, in its order, with their new addresses.
  abbrev pub ready : List ArpPendingEntry → List Mbuf
  ready [] = []
  ready (e ∷ q) =
      if is_expired now_ms e
      then ready q
      else elim (finish_l2 dpdk (some pick_upstream) cfg neighbors e.m ip_be) [
        | none ↦ ready q
        | some m ↦ m ∷ ready q
      ]

  -- The packets of a queue that have waited too long.
  abbrev pub late : List ArpPendingEntry → List Mbuf
  late [] = []
  late (e ∷ q) = if is_expired now_ms e then e.m ∷ late q else late q

  -- The entries of a queue that stay while the array has room for `room` packets: those without an
  -- address as they are, and those that find the array full with their new addresses, each with the
  -- time at which it was queued.
  abbrev pub stay : ℕ → List ArpPendingEntry → List ArpPendingEntry
  stay room [] = []
  stay room (e ∷ q) =
      let waits = e ∷ stay room q in
      let full : Mbuf → List ArpPendingEntry =
        λ m. record { m = m; enqueued_ms = e.enqueued_ms } ∷ stay 0 q in
      let late = stay room q in
      if is_expired now_ms e
      then late
      else elim (finish_l2 dpdk (some pick_upstream) cfg neighbors e.m ip_be) [
        | none ↦ waits
        | some m ↦ elim room [ zero ↦ full m | suc more ↦ stay more q ]
      ]

  -- What the loop makes of a queue: it sends the packets that can be sent, in their order, as far as
  -- the array has room, frees exactly those that have waited too long, and keeps the others.
  pub record Flushes (tx_cap : ℕ) (q : List ArpPendingEntry) (tx freed : List Mbuf) (r : Flushed)
      : Type 0 where
    pub sent : r.tx ≡ tx ++ take (tx_cap - length tx) (ready q)
    pub dropped : r.freed ≡ freed ++ late q
    pub stays : r.remaining ≡ stay (tx_cap - length tx) q
    pub conserved :
        length r.remaining + length r.tx + length r.freed ≡ length q + length tx + length freed

  pub flush_queue-Flushes :
      (tx_cap : ℕ) (q : List ArpPendingEntry) (tx freed : List Mbuf)
      → Flushes tx_cap q tx freed (flush_queue dpdk cfg neighbors ip_be now_ms tx_cap q tx freed)
  unfolding flush_queue
  flush_queue-Flushes tx_cap [] tx freed = record {
    sent = sym (ap (λ l. tx ++ l) (take-nil (tx_cap - length tx)) ∙ append-nil tx);
    dropped = sym (append-nil freed);
    stays = refl;
    conserved = refl;
  }
  flush_queue-Flushes tx_cap (e ∷ q) tx freed = elim (Bool-cases (is_expired now_ms e)) [
    | inl old ↦
        let x = flush_queue-Flushes tx_cap q tx (freed ++ e.m ∷ []) in
        rw (old, flush_queue)
          (record {
            sent = rw old x.sent;
            dropped = rw old (x.dropped ∙ append_assoc freed (e.m ∷ []) (late q));
            stays = rw old x.stays;
            conserved = omega (arith, x.conserved, length-append freed (e.m ∷ []));
          })
    | inr young ↦
        elim (Option-cases (finish_l2 dpdk (some pick_upstream) cfg neighbors e.m ip_be)) [
          | inl waits ↦
              let x = flush_queue-Flushes tx_cap q tx freed in
              rw (young, flush_queue)
                (rw (waits, flush_queue)
                  (record {
                    sent = rw young (rw waits x.sent);
                    dropped = rw young x.dropped;
                    stays = rw young (rw waits (ap (◌∷◌ e) x.stays));
                    conserved = omega (arith, x.conserved);
                  }))
          | inr (m, done) ↦ elim (Bool-cases (leb tx_cap (length tx))) [
            | inl full ↦
                let x = flush_queue-Flushes tx_cap q tx freed in
                let none_left : tx_cap - length tx ≡ 0 = ground arith in
                rw (young, flush_queue)
                  (rw (done, flush_queue)
                    (rw (full, flush_queue)
                      (record {
                        sent = rw young (rw done (x.sent ∙ rw none_left refl));
                        dropped = rw young x.dropped;
                        stays = rw young (
                            rw done (
                              rw none_left
                                (ap (◌∷◌ (record e { m = m })) (x.stays ∙ rw none_left refl))));
                        conserved = omega (arith, x.conserved);
                      })))
            | inr room ↦
                let x = flush_queue-Flushes tx_cap q (tx ++ m ∷ []) freed in
                let longer = length-append tx (m ∷ []) in
                let more : tx_cap - length tx ≡ suc (tx_cap - length (tx ++ m ∷ [])) =
                  ground (arith, longer) in
                rw (young, flush_queue)
                  (rw (done, flush_queue)
                    (rw (room, flush_queue)
                      (record {
                        sent =
                            rw young (rw done (x.sent ∙ append_assoc tx (m ∷ []) _ ∙ rw more refl));
                        dropped = rw young x.dropped;
                        stays = rw young (rw done (rw more x.stays));
                        conserved = omega (arith, x.conserved, longer);
                      })))
          ]
        ]
  ]

queue_of-put_back :
    (dpdk : Dpdk) (cfg : ForwardConfig) (ip_be : ℕ) (q : List ArpPendingEntry) (gw : VioletGw)
    → queue_of ip_be (record gw { arp_pending = put_back dpdk cfg ip_be q gw.arp_pending }) ≡ q
queue_of-put_back dpdk cfg ip_be [] gw =
    let gone : lookup ip_be (erase ip_be gw.arp_pending) ≡ none =
      lookup-erase ip_be ip_be gw.arp_pending ∙ rw (beq_refl ip_be) refl in
    ap as_queue gone
queue_of-put_back dpdk cfg ip_be (e ∷ q) gw =
    let there : lookup ip_be (insert ip_be (e ∷ q) gw.arp_pending) ≡ some (e ∷ q) =
      lookup-insert ip_be ip_be (e ∷ q) gw.arp_pending ∙ rw (beq_refl ip_be) refl in
    ap as_queue there

module _ (dpdk : Dpdk) (cfg : ForwardConfig) (ip_be now_ms tx_cap : ℕ) (tx : List Mbuf)
    (gw : VioletGw) where
  -- `flush_pending` for an address other than 0 sends the packets of its queue that can be sent, in their
  -- order, as far as the array has room, and frees those that have waited too long; exactly the others
  -- stay queued, in their order and with their times, those for which the array had no room with their
  -- new addresses.
  pub flush_pending_lem :
      ip_be ≢ 0
      → let r = flush_pending dpdk cfg ip_be now_ms tx tx_cap gw in
        let q = queue_of ip_be gw in
        (r.1 ≡ tx ++ take (tx_cap - length tx) (ready dpdk cfg gw.world.neighbors ip_be now_ms q))
        × (r.2 ≡ late dpdk cfg gw.world.neighbors ip_be now_ms q)
        × (queue_of ip_be r.0
            ≡ stay dpdk cfg gw.world.neighbors ip_be now_ms (tx_cap - length tx) q)
  unfolding flush_pending
  flush_pending_lem some_ip =
      let off : (ip_be == 0) ≡ false = ground arith in
      elim (List-cases (queue_of ip_be gw)) [
        | inl e ↦
            rw (off, flush_pending)
              (rw (e, flush_pending)
                (sym (ap (λ l. tx ++ l) (take-nil (tx_cap - length tx)) ∙ append-nil tx), refl, e))
        | inr (e, q, h) ↦
            let x =
              flush_queue-Flushes dpdk cfg gw.world.neighbors ip_be now_ms tx_cap (e ∷ q) tx [] in
            let kept =
              queue_of-put_back dpdk cfg ip_be
                (flush_queue dpdk cfg gw.world.neighbors ip_be now_ms tx_cap (e ∷ q) tx
                  []).remaining
                gw in
            rw (off, flush_pending) (rw (h, flush_pending) (x.sent, x.dropped, kept ∙ x.stays))
      ]
