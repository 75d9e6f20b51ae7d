-- ===== src/Upstream.antt =====
-- upstream.hpp and upstream.cpp: the published endpoints and the choice among them. The atomic
-- cells are fields; `pick` takes `out` to be there, and returns what it would write.
pub mod Balance
use violet_gw.Prelude.{
  ℕ, Option, none, some, List, [], ◌∷◌, ◌+◌, ◌*◌, ◌/◌, ◌%◌, ◌^◌, length, get_elem?, bit_xor,
  u32_mod, u64_mod,
}
use violet_gw.Session.Key.{FlowKey}

pub record UpstreamEndpoint : Type 0 where
  pub ip_be : ℕ
  pub port : ℕ

pub data BalancePolicy : Type 0 where
  mod' rr : BalancePolicy

pub record UpstreamTable : Type 0 where
  pub policy : BalancePolicy
  pub nodes : List UpstreamEndpoint
  pub rr_counter : ℕ

unfoldable pub init : UpstreamTable
init = record { policy = BalancePolicy.mod'; nodes = []; rr_counter = 0 }

unfoldable pub set : List UpstreamEndpoint → UpstreamTable → UpstreamTable
set endpoints t = record t { nodes = endpoints }

unfoldable pub set_policy : BalancePolicy → UpstreamTable → UpstreamTable
set_policy policy t = record t { policy = policy }

-- Arithmetic at `uint32_t`.
unfoldable pub hash_key : FlowKey → ℕ
hash_key key =
    let h = bit_xor key.src_ip (key.src_port * 0x9e37_79b9 % u32_mod) in
    let h = bit_xor h (h / 2 ^ 16) in let h = h * 0x85eb_ca6b % u32_mod in bit_xor h (h / 2 ^ 13)

-- The index that the policy chooses, and the counter after `fetch_add`.
unfoldable pub pick_index : BalancePolicy → FlowKey → UpstreamTable → ℕ × UpstreamTable
pick_index BalancePolicy.rr key t =
    (t.rr_counter % length t.nodes, record t { rr_counter = (t.rr_counter + 1) % u64_mod })
pick_index BalancePolicy.mod' key t = (hash_key key % length t.nodes, t)

unfoldable pub pick_from :
    List UpstreamEndpoint → FlowKey → UpstreamTable → Option UpstreamEndpoint × UpstreamTable
unfolding pick_index
pick_from [] key t = (none, t)
pick_from (n ∷ ns) key t = let (idx, t') = pick_index t.policy key t in (get_elem? (n ∷ ns) idx, t')

unfoldable pub pick : FlowKey → UpstreamTable → Option UpstreamEndpoint × UpstreamTable
unfolding pick_from
pick key t = pick_from t.nodes key t

unfoldable pub size : UpstreamTable → ℕ
size t = length t.nodes
