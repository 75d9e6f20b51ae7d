-- ===== src/Session/Pool.antt =====
-- The form of the pool of SNAT ports in session.cpp, and what a port that is taken or given back does
-- to its free list.
use violet_gw.Prelude.{
  ℕ, Bool, true, false, List, [], ◌∷◌, ◌≡◌, refl, arith, ◌==◌, ◌<◌, ◌≤◌, u16_mod, contains,
  Bool-cases, inl, inr,
}
use violet_gw.Session.{SessionTable, set_flag}

-- Every port on the free list lies in the range, is not in use, and stands there once.
abbrev pub FreeOk : ℕ → ℕ → (ℕ → Bool) → List ℕ → Type 0
FreeOk lo hi used [] = Unit
FreeOk lo hi used (p ∷ ps) =
    (used p ≡ false) × (lo ≤ p) × (p < hi) × (contains p ps ≡ false) × FreeOk lo hi used ps

pub record Pool (lo hi next : ℕ) (used : ℕ → Bool) (free : List ℕ) : Type 0 where
  pub begin_pos : 0 < lo
  pub ordered : lo < hi
  pub in_word : hi < u16_mod
  pub next_low : lo ≤ next
  pub next_high : next < hi
  pub free_ok : FreeOk lo hi used free

abbrev pub PortsValid : SessionTable → Type 0
PortsValid t = Pool t.snat_begin t.snat_end t.snat_next t.port_in_use t.free_ports

pub FreeOk-absent :
    (lo hi : ℕ) (used : ℕ → Bool) (ps : List ℕ) (p : ℕ)
    → FreeOk lo hi used ps
    → used p ≡ true
    → contains p ps ≡ false
FreeOk-absent lo hi used [] p f u = refl
FreeOk-absent lo hi used (q ∷ ps) p f u = elim (Bool-cases (q == p)) [
  | inl same ↦ absurd (ground arith)
  | inr other ↦ ground (arith, FreeOk-absent lo hi used ps p f.4 u)
]

pub FreeOk-take :
    (lo hi : ℕ) (used : ℕ → Bool) (ps : List ℕ) (p : ℕ)
    → contains p ps ≡ false
    → FreeOk lo hi used ps
    → FreeOk lo hi (set_flag p true used) ps
FreeOk-take lo hi used [] p h f = tt
FreeOk-take lo hi used (q ∷ ps) p h f = ground (arith, FreeOk-take lo hi used ps p)

pub FreeOk-return :
    (lo hi : ℕ) (used : ℕ → Bool) (ps : List ℕ) (p : ℕ)
    → FreeOk lo hi used ps
    → FreeOk lo hi (set_flag p false used) ps
FreeOk-return lo hi used [] p f = tt
FreeOk-return lo hi used (q ∷ ps) p f = ground (arith, FreeOk-return lo hi used ps p f.4)

-- The table after the pool has moved its cursor.
abbrev pub moved : SessionTable → ℕ → SessionTable
moved t next = record t { snat_next = next }

-- The table after the pool has given out a port.
abbrev pub taken : SessionTable → ℕ → ℕ → List ℕ → SessionTable
taken t p next free = record t {
  snat_next = next;
  free_ports = free;
  port_in_use = set_flag p true t.port_in_use;
}

-- A port of the range that no session uses was taken.
abbrev pub Takes : SessionTable → ℕ × SessionTable → Type 0
Takes t r =
    (p : ℕ) × (next : ℕ) × (free : List ℕ) × (r ≡ (p, taken t p next free))
    × (t.snat_begin ≤ p)
    × (p < t.snat_end)
    × (t.port_in_use p ≡ false)
    × PortsValid (taken t p next free)

-- All ports of the range are in use, and only the cursor has moved.
abbrev pub Fails : SessionTable → ℕ × SessionTable → Type 0
Fails t r =
    (next : ℕ) × (r ≡ (0, moved t next))
    × PortsValid (moved t next)
    × ((p : ℕ) → t.snat_begin ≤ p → p < t.snat_end → t.port_in_use p ≡ true)
