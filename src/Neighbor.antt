-- ===== src/Neighbor.antt =====
-- neighbor.hpp and neighbor.cpp: the cache from IPv4 addresses to MAC addresses.
-- `lookup` returns the address instead of writing it through `out`, which no caller leaves null.
pub mod Laws
use violet_gw.Prelude.{
  ℕ, Bool, true, false, Option, none, some, List, [], length, if◌then◌else◌, Map, ◌||◌, not,
  timed_out, nat_eq,
}
use violet_gw.Prelude.Maps

-- `rte_ether_addr`: six bytes. Addresses are words in network order, as the headers hold them.
abbrev pub MacAddr : Type 0
MacAddr = List ℕ

pub record NeighborEntry : Type 0 where
  pub ip_be : ℕ
  pub mac : MacAddr
  pub last_seen_ms : ℕ
  pub is_static : Bool

pub record NeighborTable : Type 0 where
  pub entry_timeout_ms : ℕ
  pub entries : Map ℕ NeighborEntry

unfoldable pub init : ℕ → NeighborTable
init entry_timeout_ms = record { entry_timeout_ms = entry_timeout_ms; entries = [] }

abbrev pub static_entry : ℕ → MacAddr → NeighborEntry
static_entry ip_be mac = record { ip_be = ip_be; mac = mac; last_seen_ms = 0; is_static = true }

abbrev pub dynamic_entry : ℕ → MacAddr → ℕ → NeighborEntry
dynamic_entry ip_be mac now_ms = record {
  ip_be = ip_be;
  mac = mac;
  last_seen_ms = now_ms;
  is_static = false;
}

unfoldable pub seed : ℕ → MacAddr → NeighborTable → NeighborTable
seed ip_be mac t = record t { entries = Maps.insert ip_be (static_entry ip_be mac) t.entries }

unfoldable pub lookup : ℕ → NeighborTable → Option MacAddr
lookup ip_be t = elim (Maps.lookup ip_be t.entries) [ none ↦ none | some e ↦ some e.mac ]

abbrev pub holds_static : Option NeighborEntry → Bool
holds_static none = false
holds_static (some e) = e.is_static

unfoldable pub learn : ℕ → MacAddr → ℕ → NeighborTable → NeighborTable
learn ip_be mac now_ms t =
    if holds_static (Maps.lookup ip_be t.entries)
    then t
    else record t { entries = Maps.insert ip_be (dynamic_entry ip_be mac now_ms) t.entries }

-- The loop of `expire` keeps an entry exactly if it is static or has not timed out.
unfoldable pub survives : ℕ → ℕ → NeighborEntry → Bool
survives timeout now_ms e = e.is_static || not (timed_out timeout e.last_seen_ms now_ms)

unfoldable pub expire : ℕ → NeighborTable → NeighborTable
expire now_ms t = record t { entries = Maps.retain (survives t.entry_timeout_ms now_ms) t.entries }

unfoldable pub size : NeighborTable → ℕ
size t = length t.entries
