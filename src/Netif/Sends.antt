-- ===== src/Netif/Sends.antt =====
-- When the loop of `send_burst` in netif.cpp ends: it waits while the transmit ring is full.
use violet_gw.Prelude.{
  ℕ, zero, suc, none, some, List, [], ◌∷◌, ◌≡◌, refl, sym, ap, arith, ◌∙◌, ◌+◌, ◌<◌, ◌≤◌, length,
  take, drop, length-drop, length-append, replicate,
}
use violet_gw.Dpdk.{Mbuf}
use violet_gw.Ring.{min, RteRing, IsRteRing, Ring, push_burst, pop_burst}
use violet_gw.Netif.{send_pipeline}
use violet_gw.Netif.Fifo.{pop_burst-held}

-- The other side pops at least one packet each time, where there is one.
abbrev pub Pops : List ℕ → Type 0
Pops [] = Unit
Pops (k ∷ pops) = (0 < k) × Pops pops

module _ {R : Type 0} (rte : RteRing R) (law : IsRteRing rte) where
  -- The entries that a ring has in all.
  abbrev pub capacity : Ring R → ℕ
  capacity r = law.free r.ring + length (law.items r.ring)

  -- The counts of one turn: what is popped, and what is then pushed.
  record Turn (r : Ring R) (k : ℕ) (pkts : List Mbuf) (popped pushed : ℕ) (after : Ring R)
      : Type 0 where
    popped_lem : popped ≡ min k (length (law.items r.ring))
    pushed_lem : pushed ≡ min (length pkts) (law.free r.ring + popped)
    free : law.free after.ring + pushed ≡ law.free r.ring + popped
    items : length (law.items after.ring) + popped ≡ length (law.items r.ring) + pushed

  length-take-min : (k : ℕ) (xs : List Mbuf) → length (take k xs) ≡ min k (length xs)
  length-take-min zero xs = ground arith
  length-take-min (suc k) [] = ground arith
  length-take-min (suc k) (x ∷ xs) = ground (arith, length-take-min k xs)

  push_pop-Turn :
      (r : Ring R) (k : ℕ) (pkts : List Mbuf)
      → let p = pop_burst rte r k in
        let u = push_burst rte p.1 pkts in Turn r k pkts (length p.0) u.0 u.1
  unfolding push_burst pop_burst
  push_pop-Turn r k pkts =
      let p = rte.dequeue_burst r.ring k in
      let u = rte.enqueue_burst p.2 pkts in
      let popped = ap length (law.dequeued r.ring k) ∙ length-take-min k (law.items r.ring) in
      let freed = law.dequeue_free r.ring k in
      let pushed = law.taken p.2 pkts ∙ ap (λ n. min (length pkts) n) freed in
      let kept = ap length (pop_burst-held rte law r k) in
      let kept' = sym (length-append p.0 (law.items p.2)) ∙ unfold pop_burst in kept in
      let after =
        ap length (law.enqueued p.2 pkts) ∙ length-append (law.items p.2) (take u.0 pkts) in
      let taken = length-take-min u.0 pkts in
      record {
        popped_lem = popped;
        pushed_lem = pushed;
        free = law.enqueue_free p.2 pkts ∙ freed;
        items = ground (arith, kept', after, taken, pushed);
      }

  -- If the other side pops a packet at each turn where there is one, the ring has room for an entry
  -- in all, and the schedule has a turn for each packet, then the loop ends with all packets sent.
  pub send_pipeline_done :
      (pops : List ℕ) (r : Ring R) (pkts : List Mbuf)
      → Pops pops
      → 0 < capacity r
      → length pkts ≤ length pops
      → (x : List Mbuf × Ring R) × (send_pipeline rte pops r pkts ≡ some x)
  unfolding send_pipeline
  send_pipeline_done pops r [] p room enough = (([], r), refl)
  send_pipeline_done [] r (m ∷ pkts) p room enough = absurd (omega arith)
  send_pipeline_done (k ∷ pops) r (m ∷ pkts) p room enough =
      let u = push_burst rte (pop_burst rte r k).1 (m ∷ pkts) in
      let rest = drop u.0 (m ∷ pkts) in
      let t = push_pop-Turn r k (m ∷ pkts) in
      let some_sent : 0 < u.0 = ground (arith, t.popped_lem, t.pushed_lem) in
      let (x, e) =
        send_pipeline_done pops u.1 rest p.1 (omega (arith, t.free, t.items))
          (omega (arith, length-drop u.0 (m ∷ pkts), some_sent)) in
      rw (e, send_pipeline) (_, refl)

  -- If the other side does not run, the loop has not ended after any number of turns where the ring
  -- has not room for all the packets.
  pub send_pipeline_stuck :
      (turns : ℕ) (r : Ring R) (pkts : List Mbuf)
      → law.free r.ring < length pkts
      → send_pipeline rte (replicate turns 0) r pkts ≡ none
  unfolding send_pipeline
  send_pipeline_stuck turns r [] few = absurd (omega arith)
  send_pipeline_stuck zero r (m ∷ pkts) few = refl
  send_pipeline_stuck (suc turns) r (m ∷ pkts) few =
      let u = push_burst rte (pop_burst rte r 0).1 (m ∷ pkts) in
      let rest = drop u.0 (m ∷ pkts) in
      let t = push_pop-Turn r 0 (m ∷ pkts) in
      let left = length-drop u.0 (m ∷ pkts) in
      let more =
        send_pipeline_stuck turns u.1 rest
          (ground (arith, t.popped_lem, t.pushed_lem, t.free, left)) in
      rw (more, send_pipeline) refl
