-- ===== src/Neighbor/Laws.antt =====
-- What lookups find after the operations of the neighbor table, alone and in histories.
use violet_gw.Prelude.{
  ℕ, true, false, none, some, List, [], ◌∷◌, ◌≡◌, arith, ◌&&◌, not, ◌==◌, ◌<◌, ◌≤◌, ◌-◌, ltb,
  if◌then◌else◌, Distinct, nat_eq, u64_mod, timed_out_lem, when, lookup-insert, lookup-retain,
  insert-Distinct, retain-Distinct,
}
use violet_gw.Prelude.Maps
use violet_gw.Neighbor.{
  NeighborEntry, NeighborTable, MacAddr, seed, lookup, learn, expire, survives, holds_static,
  static_entry, dynamic_entry,
}

-- The keys of the table are distinct, as those of every `unordered_map` are.
abbrev pub IsValid : NeighborTable → Type 0
IsValid t = Distinct t.entries

-- `seed` sets the address of its own key and of no other.
pub lookup-seed :
    (ip_be j : ℕ) (mac : MacAddr) (t : NeighborTable)
    → lookup j (seed ip_be mac t) ≡ (if ip_be == j then some mac else lookup j t)
unfolding lookup seed
lookup-seed ip_be j mac t = ground (arith, lookup-insert ip_be j (static_entry ip_be mac) t.entries)

-- `learn` sets the address of its key, unless a static entry holds it, and of no other.
pub lookup-learn :
    (ip_be j : ℕ) (mac : MacAddr) (now_ms : ℕ) (t : NeighborTable)
    → lookup j (learn ip_be mac now_ms t) ≡ (
        if ip_be == j && not (holds_static (Maps.lookup ip_be t.entries))
        then some mac
        else lookup j t)
unfolding lookup learn
lookup-learn ip_be j mac now_ms t =
    ground (arith, lookup-insert ip_be j (dynamic_entry ip_be mac now_ms) t.entries)

-- The entry under a key after each operation.
entry-expire :
    (j now_ms : ℕ) (t : NeighborTable)
    → IsValid t
    → Maps.lookup j (expire now_ms t).entries
      ≡ when (survives t.entry_timeout_ms now_ms) (Maps.lookup j t.entries)
unfolding expire
entry-expire j now_ms t v = lookup-retain _ j t.entries v

-- What the rest of the gateway does to the table while it runs.
pub data Event : Type 0 where
  learns : ℕ → MacAddr → ℕ → Event
  expires : ℕ → Event

unfoldable pub step : NeighborTable → Event → NeighborTable
step t (learns ip_be mac now_ms) = learn ip_be mac now_ms t
step t (expires now_ms) = expire now_ms t

unfoldable pub run : NeighborTable → List Event → NeighborTable
run t [] = t
run t (e ∷ es) = run (step t e) es

pub step-IsValid : (t : NeighborTable) (e : Event) → IsValid t → IsValid (step t e)
unfolding step learn expire
step-IsValid t (learns ip_be mac now_ms) v =
    ground (arith, insert-Distinct ip_be (dynamic_entry ip_be mac now_ms) t.entries v)
step-IsValid t (expires now_ms) v = retain-Distinct _ t.entries v

pub seed-IsValid :
    (ip_be : ℕ) (mac : MacAddr) (t : NeighborTable) → IsValid t → IsValid (seed ip_be mac t)
unfolding seed
seed-IsValid ip_be mac t v = insert-Distinct _ _ t.entries v

-- A static entry is left as it is by every event.
step-static :
    (t : NeighborTable) (ev : Event) (j : ℕ) (e : NeighborEntry)
    → IsValid t
    → e.is_static ≡ true
    → Maps.lookup j t.entries ≡ some e
    → Maps.lookup j (step t ev).entries ≡ some e
unfolding step learn survives
step-static t (learns ip_be mac now_ms) j e v s h =
    ground (arith, lookup-insert ip_be j (dynamic_entry ip_be mac now_ms) t.entries)
step-static t (expires now_ms) j e v s h = ground (arith, entry-expire j now_ms t v)

run-static :
    (t : NeighborTable) (es : List Event) (j : ℕ) (e : NeighborEntry)
    → IsValid t
    → e.is_static ≡ true
    → Maps.lookup j t.entries ≡ some e
    → Maps.lookup j (run t es).entries ≡ some e
unfolding run
run-static t [] j e v s h = h
run-static t (x ∷ es) j e v s h =
    run-static (step t x) es j e (step-IsValid t x v) s (step-static t x j e v s h)

-- A seeded address is found after any history of learning and expiry on a valid table.
pub lookup-run-seed :
    (ip_be : ℕ) (mac : MacAddr) (t : NeighborTable) (es : List Event)
    → IsValid t
    → lookup ip_be (run (seed ip_be mac t) es) ≡ some mac
unfolding lookup seed
lookup-run-seed ip_be mac t es v = ground (
  arith,
  run-static (seed ip_be mac t) es ip_be (static_entry ip_be mac) (seed-IsValid ip_be mac t v),
  lookup-insert ip_be ip_be (static_entry ip_be mac) t.entries,
)

-- On a valid table without a static entry for it, a learned address is found until its timeout has
-- passed and not from then on, if the clock does not run backwards.
pub lookup-expire-learn :
    (ip_be then_ms now_ms : ℕ) (mac : MacAddr) (t : NeighborTable)
    → IsValid t
    → holds_static (Maps.lookup ip_be t.entries) ≡ false
    → then_ms ≤ now_ms
    → now_ms < u64_mod
    → lookup ip_be (expire now_ms (learn ip_be mac then_ms t))
      ≡ (if ltb (now_ms - then_ms) t.entry_timeout_ms then some mac else none)
unfolding lookup learn survives step
lookup-expire-learn ip_be then_ms now_ms mac t v s past now = ground (
  arith,
  entry-expire ip_be now_ms (learn ip_be mac then_ms t)
      (step-IsValid t (learns ip_be mac then_ms) v),
  lookup-insert ip_be ip_be (dynamic_entry ip_be mac then_ms) t.entries,
  timed_out_lem t.entry_timeout_ms then_ms now_ms,
)
