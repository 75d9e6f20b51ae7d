-- ===== src/Session/Keeps.antt =====
-- What `create`, `touch` and `erase_session` do to a valid table.
use violet_gw.Prelude.{
  ℕ, true, false, none, some, List, ◌∷◌, ◌≡◌, refl, arith, ◌<◌, ◌≤◌, nat_eq, lookup, erase,
  Option-cases, inl, inr, ap, subst, ◌⊎◌,
}
use violet_gw.Session.{
  Session, SessionTable, lookup_forward, touch, set_flag, alloc_snat_port, new_session, install,
  create, remove_first, erase_session,
}
use violet_gw.Session.Key.{FlowKey, flow_key_eq}
use violet_gw.Session.Pool.{PortsValid, taken, moved}
use violet_gw.Session.Ports.{alloc_snat_port-cases, free_snat_port-PortsValid, free_snat_port_lem}
use violet_gw.Session.Index.{Indexes-insert, Indexes-erase, Indexes-update}
use violet_gw.Session.Invariant.{
  Holds, IsValid, Shaped, Lists-fresh, Lists-insert, Lists-erase, Lists-update,
}
use violet_gw.Session.Owners.{Owns-insert, Owns-erase, Owns-update}

-- The last use of a session may change at any time.
pub touch-IsValid : (s now_ms : ℕ) (t : SessionTable) → IsValid t → IsValid (touch s now_ms t)
unfolding touch
touch-IsValid s now_ms t v = elim (Option-cases (lookup s t.heap)) [
  | inl e ↦ rw (e, touch) v
  | inr (o, e) ↦
      let o' : Session = record o { last_active_ms = now_ms } in
      rw (e, touch)
        (record {
          ports = v.ports;
          vector = Lists-update t.heap t.fresh t.sessions s o o' v.vector e;
          snat = Owns-update _ _ _ _ t.heap v.snat s o o' e refl (record {
            reverse = (v.snat.named s o e).reverse;
            client = (v.snat.named s o e).client;
            vip = (v.snat.named s o e).vip;
          });
          by_forward = Indexes-update _ t.heap t.forward s o o' v.by_forward e refl;
          by_reverse = Indexes-update _ t.heap t.reverse s o o' v.by_reverse e refl;
        })
]

module _ (key : FlowKey) (upstream_ip_be upstream_port now_ms : ℕ) (t : SessionTable) where
  -- The session that `create` makes over the port `p`.
  abbrev pub made : ℕ → Session
  made p = new_session t key upstream_ip_be upstream_port now_ms p

  -- The table once it has the session over the port `p`.
  abbrev pub extended : ℕ → ℕ → List ℕ → SessionTable
  extended p next free = install (made p) (taken t p next free)

  create-taken :
      (p next : ℕ) (free : List ℕ)
      → alloc_snat_port t ≡ (p, taken t p next free)
      → 0 < p
      → create key upstream_ip_be upstream_port now_ms t ≡ (some t.fresh, extended p next free)
  unfolding create new_session
  create-taken p next free e h = rw (e, create) (ground arith)

  create_failed :
      (next : ℕ)
      → alloc_snat_port t ≡ (0, moved t next)
      → create key upstream_ip_be upstream_port now_ms t ≡ (none, moved t next)
  unfolding create
  create_failed next e = rw (e, create) refl

  -- No session has the reverse key of a port that is not in use.
  reverse_unused :
      (p : ℕ) → IsValid t → t.port_in_use p ≡ false → lookup (made p).reverse_key t.reverse ≡ none
  unfolding new_session
  reverse_unused p v u = elim (Option-cases (lookup (made p).reverse_key t.reverse)) [
    | inl e ↦ e
    | inr (a, e) ↦
        let (o, held, same) = v.by_reverse.sound _ a e in
        absurd (
          ground (
            arith,
            v.snat.in_use a o held,
            ap (λ (k : FlowKey). k.dst_port) (v.snat.named a o held).reverse,
            ap (λ (k : FlowKey). k.dst_port) same,
          ))
  ]

  extended-IsValid :
      (p next : ℕ) (free : List ℕ)
      → IsValid t
      → lookup_forward key t ≡ none
      → t.snat_begin ≤ p
      → p < t.snat_end
      → t.port_in_use p ≡ false
      → PortsValid (taken t p next free)
      → IsValid (extended p next free)
  unfolding install new_session lookup_forward
  extended-IsValid p next free v new low high u ports =
      let unused = Lists-fresh t.heap t.fresh t.sessions v.vector in
      let shaped : Shaped t.gateway_ip (made p) = record {
        reverse = refl;
        client = (refl, refl);
        vip = (refl, refl);
      } in
      record {
        ports = ports;
        vector = Lists-insert t.heap t.fresh t.sessions v.vector (made p);
        snat = Owns-insert _ _ _ _ t.heap v.snat t.fresh (made p) unused u low high shaped;
        by_forward =
            Indexes-insert (λ o. o.forward_key) t.heap t.forward t.fresh (made p) v.by_forward
              unused new;
        by_reverse =
            Indexes-insert (λ o. o.reverse_key) t.heap t.reverse t.fresh (made p) v.by_reverse
              unused (reverse_unused p v u);
      }

  -- A call of `create` for a key without a session: either the table has one more session, under a
  -- port of the range that no session used, or the range is exhausted and nothing has changed.
  pub create-cases :
      IsValid t
      → lookup_forward key t ≡ none
      → ((p : ℕ) × (next : ℕ) × (free : List ℕ) × (create key upstream_ip_be upstream_port now_ms t
            ≡ (some t.fresh, extended p next free))
          × (t.snat_begin ≤ p)
          × (p < t.snat_end)
          × (t.port_in_use p ≡ false)
          × IsValid (extended p next free))
        ⊎ ((next : ℕ) × (create key upstream_ip_be upstream_port now_ms t ≡ (none, moved t next))
            × ((p : ℕ) → t.snat_begin ≤ p → p < t.snat_end → t.port_in_use p ≡ true)
            × IsValid (moved t next))
  create-cases v new = elim (alloc_snat_port-cases t v.ports) [
    | inl (p, next, free, e, low, high, u, ports) ↦ inl (
      p,
      next,
      free,
      create-taken p next free e (omega (arith, v.ports.begin_pos)),
      low,
      high,
      u,
      extended-IsValid p next free v new low high u ports,
    )
    | inr (next, e, ports, all) ↦ inr (
      next,
      create_failed next e,
      all,
      record {
        ports = ports;
        vector = v.vector;
        snat = v.snat;
        by_forward = v.by_forward;
        by_reverse = v.by_reverse;
      },
    )
  ]

  -- `create` keeps the table valid, on success and on failure.
  pub create-IsValid :
      IsValid t
      → lookup_forward key t ≡ none
      → IsValid (create key upstream_ip_be upstream_port now_ms t).1
  create-IsValid v new = elim (create-cases v new) [
    | inl (p, next, free, e, _, _, _, w) ↦ rw e w
    | inr (next, e, _, w) ↦ rw e w
  ]

-- The table without the session `o` at `s`.
abbrev pub erased : ℕ → Session → SessionTable → SessionTable
erased s o t = record t {
  forward = erase o.forward_key t.forward;
  reverse = erase o.reverse_key t.reverse;
  free_ports = o.snat_port ∷ t.free_ports;
  port_in_use = set_flag o.snat_port false t.port_in_use;
  sessions = remove_first s t.sessions;
  heap = erase s t.heap;
}

module _ (s : ℕ) (o : Session) (t : SessionTable) (v : IsValid t) (held : Holds t s o) where
  pub erase_session_lem : erase_session s o t ≡ erased s o t
  unfolding erase_session
  erase_session_lem =
      let r = v.snat.in_range s o held in
      rw
        (free_snat_port_lem o.snat_port
          (record t {
            forward = erase o.forward_key t.forward;
            reverse = erase o.reverse_key t.reverse;
          })
          (omega (arith, v.ports.begin_pos)) (omega (arith, v.ports.in_word))
          (v.snat.in_use s o held))
        refl

  pub erase_session-IsValid : IsValid (erase_session s o t)
  erase_session-IsValid =
      let r = v.snat.in_range s o held in
      rw erase_session_lem (record {
        ports =
            subst (λ (u : SessionTable). PortsValid u)
              (free_snat_port_lem o.snat_port t (omega (arith, v.ports.begin_pos))
                (omega (arith, v.ports.in_word)) (v.snat.in_use s o held))
              (free_snat_port-PortsValid o.snat_port t v.ports r.0 r.1);
        vector = Lists-erase t.heap t.fresh t.sessions s v.vector;
        snat = Owns-erase _ _ _ _ t.heap v.snat s o held;
        by_forward = Indexes-erase (λ o. o.forward_key) t.heap t.forward s o v.by_forward held;
        by_reverse = Indexes-erase (λ o. o.reverse_key) t.heap t.reverse s o v.by_reverse held;
      })
