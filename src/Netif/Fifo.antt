-- ===== src/Netif/Fifo.antt =====
-- The rings of netif.cpp as queues: no loop over them loses a packet or changes the order.
use violet_gw.Prelude.{
  List-cases, ℕ, zero, suc, some, List, [], ◌∷◌, ◌++◌, ◌≡◌, ◌≢◌, ◌⊎◌, refl, sym, ap, arith, ◌∙◌,
  ◌+◌, ◌==◌, ◌<◌, ◌≤◌, length, take, drop, length-drop, length-append, length-take-le, take-drop,
  append_assoc, append-nil, Bool-cases, Option-cases, inl, inr,
}
use violet_gw.Dpdk.{Mbuf}
use violet_gw.Ring.{RteRing, IsRteRing, Ring, push_burst, pop_burst}
use violet_gw.Netif.{
  Nic, Received, send_pipeline, recv_loop, nic_recv, nic_send, io_rx_burst, io_tx_burst,
}

module _ {R : Type 0} (rte : RteRing R) (law : IsRteRing rte) where
  abbrev pub held : Ring R → List Mbuf
  held r = law.items r.ring

  pub pop_burst-held :
      (r : Ring R) (n : ℕ) → (pop_burst rte r n).0 ++ held (pop_burst rte r n).1 ≡ held r
  unfolding pop_burst
  pop_burst-held r n =
      rw (law.dequeued r.ring n, law.remaining r.ring n) (take-drop n (law.items r.ring))

  pop_burst-le : (r : Ring R) (n : ℕ) → length (pop_burst rte r n).0 ≤ n
  unfolding pop_burst
  pop_burst-le r n = rw (law.dequeued r.ring n) (length-take-le n (law.items r.ring))

  push_burst-held :
      (r : Ring R) (pkts : List Mbuf)
      → held (push_burst rte r pkts).1 ≡ held r ++ take (push_burst rte r pkts).0 pkts
  unfolding push_burst
  push_burst-held r pkts = law.enqueued r.ring pkts

  -- One turn of a loop over a ring: a pop of the other side, then a push.
  turn-held :
      (r : Ring R) (k : ℕ) (pkts more outs after : List Mbuf)
      → let r₁ = (pop_burst rte r k).1 in
        held (push_burst rte r₁ pkts).1 ++ more ≡ outs ++ after
        → held r ++ take (push_burst rte r₁ pkts).0 pkts ++ more
          ≡ ((pop_burst rte r k).0 ++ outs) ++ after
  turn-held r k pkts more outs after e =
      let p = pop_burst rte r k in
      let u = push_burst rte p.1 pkts in
      let en = take u.0 pkts in
      ap (λ l. l ++ en ++ more) (sym (pop_burst-held r k))
      ∙ ap (λ l. l ++ more) (append_assoc p.0 (held p.1) en)
      ∙ append_assoc p.0 (held p.1 ++ en) more
      ∙ ap (λ l. p.0 ++ l) (ap (λ l. l ++ more) (sym (push_burst-held p.1 pkts)) ∙ e)
      ∙ sym (append_assoc p.0 outs after)

  -- Where `send_burst` ends in the pipeline, all its packets have come behind those of the ring, from
  -- which the other side has popped the first ones.
  pub send_pipeline-Fifo :
      (pops : List ℕ) (r : Ring R) (pkts out : List Mbuf) (r' : Ring R)
      → send_pipeline rte pops r pkts ≡ some (out, r')
      → held r ++ pkts ≡ out ++ held r'
  unfolding send_pipeline
  send_pipeline-Fifo pops r [] out r' e =
      let nothing : [] ≡ out = cc e in
      let same : r ≡ r' = cc e in
      append-nil (held r) ∙ ap held same ∙ ap (λ l. l ++ held r') nothing
  send_pipeline-Fifo [] r (m ∷ pkts) out r' e = cc e
  send_pipeline-Fifo (k ∷ pops) r (m ∷ pkts) out r' e =
      let p = pop_burst rte r k in
      let u = push_burst rte p.1 (m ∷ pkts) in
      let rest = drop u.0 (m ∷ pkts) in
      elim (Option-cases (send_pipeline rte pops u.1 rest)) [
        | inl more ↦ cc (rw (more, send_pipeline) at e)
        | inr ((outs, r''), more) ↦
            let q : p.0 ++ outs ≡ out = cc (rw (more, send_pipeline) at e) in
            let same : r'' ≡ r' = cc (rw (more, send_pipeline) at e) in
            let x = send_pipeline-Fifo pops u.1 rest outs r'' more in
            ap (λ l. held r ++ l) (sym (take-drop u.0 (m ∷ pkts)))
            ∙ sym (append_assoc (held r) (take u.0 (m ∷ pkts)) rest)
            ∙ turn-held r k (m ∷ pkts) rest outs (held r'') x
            ∙ ap (λ l. l ++ held r'') q
            ∙ ap (λ z. out ++ held z) same
      ]

  -- Of a burst the first packets are pushed in order and the rest are freed, which is only where the
  -- ring is full.
  pub record Receives (pkts : List Mbuf) (r : Ring R) (x : Received R) : Type 0 where
    pub pushed : List Mbuf
    pub burst : pkts ≡ pushed ++ x.freed
    pub order : held r ++ pushed ≡ x.popped ++ held x.ring
    pub full : (x.freed ≡ []) ⊎ (law.free x.ring.ring ≡ 0)

  refused :
      (r : Ring R) (k : ℕ) (pkts : List Mbuf)
      → let p = pop_burst rte r k in
        let u = push_burst rte p.1 pkts in
        0 < length pkts
        → u.0 ≡ 0
        → Receives pkts r (record { popped = p.0; ring = u.1; freed = pkts })
  unfolding push_burst pop_burst
  refused r k pkts some_pkts off =
      let p = rte.dequeue_burst r.ring k in
      let u = rte.enqueue_burst p.2 pkts in
      let nothing : law.items u.2 ≡ law.items p.2 =
        law.enqueued p.2 pkts
        ∙ ap (λ n. law.items p.2 ++ take n pkts) off
        ∙ append-nil (law.items p.2) in
      let t = law.taken p.2 pkts in
      let f = law.enqueue_free p.2 pkts in
      record {
        pushed = [];
        burst = refl;
        order = append-nil (held r) ∙ sym (pop_burst-held r k) ∙ ap (λ l. p.0 ++ l) (sym nothing);
        full = inr (ground (arith, t, f));
      }

  recv_loop-Receives :
      (fuel : ℕ) (pops : ℕ → ℕ) (i : ℕ) (r : Ring R) (pkts : List Mbuf)
      → length pkts ≤ fuel
      → Receives pkts r (recv_loop rte fuel pops i r pkts)
  unfolding recv_loop
  recv_loop-Receives zero pops i r [] enough = record {
    pushed = [];
    burst = refl;
    order = append-nil (held r);
    full = inl refl;
  }
  recv_loop-Receives zero pops i r (m ∷ pkts) enough = absurd (omega arith)
  recv_loop-Receives (suc fuel) pops i r [] enough = record {
    pushed = [];
    burst = refl;
    order = append-nil (held r);
    full = inl refl;
  }
  recv_loop-Receives (suc fuel) pops i r (m ∷ pkts) enough =
      let p = pop_burst rte r (pops i) in
      let u = push_burst rte p.1 (m ∷ pkts) in
      let rest = drop u.0 (m ∷ pkts) in
      elim (Bool-cases (u.0 == 0)) [
        | inl none_taken ↦
            rw (none_taken, recv_loop) (refused r (pops i) (m ∷ pkts) (omega arith) (ground arith))
        | inr on ↦
            let some_taken : u.0 ≢ 0 = ground arith in
            let shorter = length-drop u.0 (m ∷ pkts) in
            let x =
              recv_loop-Receives fuel pops (i + 1) u.1 rest
                (omega (arith, shorter, some_taken, enough)) in
            rw (on, recv_loop)
              (record {
                pushed = take u.0 (m ∷ pkts) ++ x.pushed;
                burst =
                    sym (take-drop u.0 (m ∷ pkts))
                    ∙ ap (λ l. take u.0 (m ∷ pkts) ++ l) x.burst
                    ∙ sym (append_assoc (take u.0 (m ∷ pkts)) x.pushed _);
                order =
                    sym (append_assoc (held r) (take u.0 (m ∷ pkts)) x.pushed)
                    ∙ turn-held r (pops i) (m ∷ pkts) x.pushed _ _ x.order;
                full = x.full;
              })
      ]

module _ {R N : Type 0} (rte : RteRing R) (law : IsRteRing rte) (nic : Nic N) where
  -- Of the burst that the device has, `nic_recv` pushes the first packets in their order behind those
  -- of the ring, while the worker pops from its front, and frees the rest, which is only where the
  -- ring is full.
  pub nic_recv-Receives :
      (port : ℕ) (pops : ℕ → ℕ) (r : Ring R) (s : N)
      → Receives rte law
          (nic.rx_burst s port 0 io_rx_burst).0
          r
          (nic_recv rte nic port pops (r, s)).0
  unfolding nic_recv
  nic_recv-Receives port pops r s =
      let pkts = (nic.rx_burst s port 0 io_rx_burst).0 in
      recv_loop-Receives rte law (length pkts) pops 0 r pkts (omega arith)

  -- `nic_send` takes the first packets of the ring, no more than a burst, of which the device sends
  -- a beginning and the rest is freed.
  pub nic_send-Fifo :
      (port : ℕ) (r : Ring R) (s : N)
      → let x = nic_send rte nic port (r, s) in
        (sent : List Mbuf) × (held rte law r ≡ (sent ++ x.0) ++ held rte law x.1)
        × (length sent + length x.0 ≤ io_tx_burst)
  unfolding nic_send
  nic_send-Fifo port r s = elim (List-cases (pop_burst rte r io_tx_burst).0) [
    | inl e ↦
        rw (e, nic_send)
          (
            [],
            sym (pop_burst-held rte law r io_tx_burst)
                ∙ ap (λ l. l ++ held rte law (pop_burst rte r io_tx_burst).1) e,
            omega arith,
          )
    | inr (m, rest, e) ↦
        let k = (nic.tx_burst s port 0 (m ∷ rest)).0 in
        let whole = take-drop k (m ∷ rest) in
        let after = held rte law (pop_burst rte r io_tx_burst).1 in
        let few =
          ap length e
          ∙ sym (ap length whole)
          ∙ length-append (take k (m ∷ rest)) (drop k (m ∷ rest)) in
        rw (e, nic_send)
          (
            take k (m ∷ rest),
            sym (pop_burst-held rte law r io_tx_burst) ∙ ap (λ l. l ++ after) (e ∙ sym whole),
            omega (arith, sym few, pop_burst-le rte law r io_tx_burst),
          )
  ]
