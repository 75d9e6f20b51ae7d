-- ===== src/Session/Ports.antt =====
-- The pool of SNAT ports: what `alloc_snat_port` and `free_snat_port` do with it.
use violet_gw.Prelude.{
  ℕ, zero, suc, true, false, List, [], ◌∷◌, ◌≡◌, refl, arith, ◌<◌, ◌≤◌, ◌-◌, ◌+◌, leb,
  if◌then◌else◌, u16_mod, Bool-cases, inl, inr, ◌⊎◌, subst, ap, ◌↔◌,
}
use violet_gw.Session.{
  SessionTable, set_flag, next_port, scan_ports, snat_tries, alloc_from, alloc_snat_port,
  free_snat_port,
}
use violet_gw.Session.Pool.{
  FreeOk, FreeOk-absent, FreeOk-take, FreeOk-return, PortsValid, moved, taken, Takes, Fails,
}

-- How many steps of the cursor lead to the port.
ahead : SessionTable → ℕ → ℕ
ahead t p =
    if leb t.snat_next p then p - t.snat_next else p + t.snat_end - t.snat_next - t.snat_begin

next_port-PortsValid : (t : SessionTable) → PortsValid t → PortsValid (moved t (next_port t))
unfolding next_port
next_port-PortsValid t v = ground arith

ahead-next_port :
    (t : SessionTable) (p : ℕ)
    → PortsValid t
    → t.snat_begin ≤ p
    → p < t.snat_end
    → (p ≡ t.snat_next) ⊎ (ahead t p ≡ suc (ahead (moved t (next_port t)) p))
unfolding next_port ahead
ahead-next_port t p v h k = ground arith

-- The scan takes the first free port ahead, or has seen as many ports in use as it had rounds.
Scans : ℕ → SessionTable → ℕ × SessionTable → Type 0
Scans tries t r =
    Takes t r
    ⊎ ((next : ℕ) × (r ≡ (0, moved t next))
        × PortsValid (moved t next)
        × ((p : ℕ)
            → t.snat_begin ≤ p
            → p < t.snat_end
            → ahead t p < tries
            → t.port_in_use p ≡ true))

Scans-used :
    (tries : ℕ) (t : SessionTable) (r : ℕ × SessionTable)
    → PortsValid t
    → t.port_in_use t.snat_next ≡ true
    → Scans tries (moved t (next_port t)) r
    → Scans (suc tries) t r
unfolding Scans
Scans-used tries t r v used (inl found) = inl found
Scans-used tries t r v used (inr (next, e, w, seen)) =
    inr (next, e, w, λ p h k l. ground (arith, ahead-next_port t p v h k, seen p h k))

taken-PortsValid :
    (t : SessionTable) (p next : ℕ)
    → PortsValid (moved t next)
    → t.free_ports ≡ []
    → PortsValid (taken t p next t.free_ports)
taken-PortsValid t p next v e = record {
  begin_pos = v.begin_pos;
  ordered = v.ordered;
  in_word = v.in_word;
  next_low = v.next_low;
  next_high = v.next_high;
  free_ok = rw e tt;
}

scan_ports-suc :
    (tries : ℕ) (t : SessionTable)
    → scan_ports (suc tries) t ≡ (
        if t.port_in_use t.snat_next
        then scan_ports tries (moved t (next_port t))
        else (t.snat_next, taken t t.snat_next (next_port t) t.free_ports))
unfolding scan_ports
scan_ports-suc tries t = refl

-- The free list is empty whenever the scan runs.
scan_ports-Scans :
    (tries : ℕ) (t : SessionTable)
    → PortsValid t
    → t.free_ports ≡ []
    → Scans tries t (scan_ports tries t)
unfolding Scans
scan_ports-Scans zero t v e =
    inr (t.snat_next, (unfold scan_ports in refl), v, λ p h k l. absurd (omega arith))
scan_ports-Scans (suc tries) t v e = elim (Bool-cases (t.port_in_use t.snat_next)) [
  | inl used ↦
      rw (scan_ports-suc, used)
        (Scans-used tries t _ v used
          (scan_ports-Scans tries (moved t (next_port t)) (next_port-PortsValid t v) e))
  | inr free ↦
      rw (scan_ports-suc, free)
        (inl (
          t.snat_next,
          next_port t,
          t.free_ports,
          refl,
          v.next_low,
          v.next_high,
          free,
          taken-PortsValid t _ _ (next_port-PortsValid t v) e,
        ))
]

snat_tries_lem : (t : SessionTable) → PortsValid t → snat_tries t ≡ t.snat_end - t.snat_begin
unfolding snat_tries
snat_tries_lem t v = omega arith

ahead-lt :
    (t : SessionTable) (p : ℕ)
    → PortsValid t
    → t.snat_begin ≤ p
    → p < t.snat_end
    → ahead t p < t.snat_end - t.snat_begin
unfolding ahead
ahead-lt t p v h k = ground arith

-- A scan as long as the range misses no port of it.
Scans-all :
    (t : SessionTable) (r : ℕ × SessionTable)
    → PortsValid t
    → Scans (snat_tries t) t r
    → Takes t r ⊎ Fails t r
unfolding Scans
Scans-all t r v (inl found) = inl found
Scans-all t r v (inr (next, e, w, seen)) =
    inr (next, e, w, λ p h k. seen p h k (omega (arith, ahead-lt t p v h k, snat_tries_lem t v)))

alloc_from-cases :
    (ps : List ℕ) (t : SessionTable)
    → PortsValid t
    → t.free_ports ≡ ps
    → Takes t (alloc_from ps t) ⊎ Fails t (alloc_from ps t)
unfolding alloc_from
alloc_from-cases [] t v e = Scans-all t _ v (scan_ports-Scans (snat_tries t) t v e)
alloc_from-cases (p ∷ ps) t v e =
    let f = subst (FreeOk t.snat_begin t.snat_end t.port_in_use) e v.free_ok in
    inl (
      p,
      t.snat_next,
      ps,
      refl,
      f.1,
      f.2,
      f.0,
      record {
        begin_pos = v.begin_pos;
        ordered = v.ordered;
        in_word = v.in_word;
        next_low = v.next_low;
        next_high = v.next_high;
        free_ok = FreeOk-take t.snat_begin t.snat_end t.port_in_use ps p f.3 f.4;
      },
    )

-- `alloc_snat_port` takes a port of the range that is not in use, or else all of them are in use.
pub alloc_snat_port-cases :
    (t : SessionTable) → PortsValid t → Takes t (alloc_snat_port t) ⊎ Fails t (alloc_snat_port t)
unfolding alloc_snat_port
alloc_snat_port-cases t v = alloc_from-cases t.free_ports t v refl

-- The result 0 means exactly that every port of the range is in use.
pub alloc_snat_port-eq-zero :
    (t : SessionTable)
    → PortsValid t
    → ((alloc_snat_port t).0 ≡ 0)
      ↔ ((p : ℕ) → t.snat_begin ≤ p → p < t.snat_end → t.port_in_use p ≡ true)
alloc_snat_port-eq-zero t v = elim (alloc_snat_port-cases t v) [
  | inl (p, next, free, e, low, high, unused, w) ↦ (
    (λ z. absurd (omega (arith, v.begin_pos, ap (λ (r : ℕ × SessionTable). r.0) e))),
    λ all. cc (unused, all p low high),
  )
  | inr (next, e, w, all) ↦ ((λ z. all), λ _. ap (λ (r : ℕ × SessionTable). r.0) e)
]

-- `free_snat_port` keeps the pool valid.
pub free_snat_port-PortsValid :
    (port : ℕ) (t : SessionTable)
    → PortsValid t
    → t.snat_begin ≤ port
    → port < t.snat_end
    → PortsValid (free_snat_port port t)
unfolding free_snat_port
free_snat_port-PortsValid port t v h k = ground (
  arith,
  FreeOk-absent t.snat_begin t.snat_end t.port_in_use t.free_ports port v.free_ok,
  FreeOk-return t.snat_begin t.snat_end t.port_in_use t.free_ports port v.free_ok,
)

-- A port in use is given back by it.
pub free_snat_port_lem :
    (port : ℕ) (t : SessionTable)
    → 0 < port
    → port < u16_mod
    → t.port_in_use port ≡ true
    → free_snat_port port t ≡ record t {
      free_ports = port ∷ t.free_ports;
      port_in_use = set_flag port false t.port_in_use;
    }
unfolding free_snat_port
free_snat_port_lem port t h k u = ground arith
