-- ===== src/Shm.antt =====
-- vgw_cp_shm.h, cp_shm.hpp and cp_shm.cpp: the configuration block that the control plane publishes
-- in shared memory. The block is a value, and a reader that runs while a writer does is given what
-- each of its loads returned.
pub mod Leaks
pub mod Open
pub mod Publish
pub mod Races
use violet_gw.Prelude.{
  ℕ, zero, suc, Bool, true, false, Option, none, some, List, [], ◌∷◌, ◌++◌, ◌+◌, ◌-◌, ◌%◌, ◌==◌,
  ◌||◌, not, ltb, leb, if◌then◌else◌, length, take, replicate, map, u16_mod, u32_mod, get_elem?,
}
use violet_gw.Upstream
use violet_gw.Upstream.{UpstreamEndpoint, BalancePolicy, UpstreamTable}

abbrev pub shm_magic : ℕ
shm_magic = 0x5647_5743

abbrev pub max_ep : ℕ
max_ep = 64

pub record CpEndpoint : Type 0 where
  pub ip_be : ℕ
  pub port : ℕ
  pub pad : ℕ

pub record CpShmBlock : Type 0 where
  pub magic : ℕ
  pub version : ℕ
  pub policy : ℕ
  pub flags : ℕ
  pub count : ℕ
  pub endpoints : List CpEndpoint

pub record CpShmSeed : Type 0 where
  pub policy : BalancePolicy
  pub endpoints : List UpstreamEndpoint

-- A reader: the block that it has mapped, and the last version that it applied.
pub record CpShm : Type 0 where
  pub hdr : CpShmBlock
  pub last_applied : ℕ

abbrev pub no_endpoint : CpEndpoint
no_endpoint = record { ip_be = 0; port = 0; pad = 0 }

abbrev pub to_cp : UpstreamEndpoint → CpEndpoint
to_cp e = record { ip_be = e.ip_be; port = e.port; pad = 0 }

abbrev pub from_cp : CpEndpoint → UpstreamEndpoint
from_cp e = record { ip_be = e.ip_be; port = e.port }

-- The value of the enumerator.
abbrev pub policy_code : BalancePolicy → ℕ
policy_code BalancePolicy.mod' = 0
policy_code BalancePolicy.rr = 1

abbrev pub policy_of : ℕ → BalancePolicy
policy_of policy = if policy == 1 then BalancePolicy.rr else BalancePolicy.mod'

unfoldable pub clamp : ℕ → ℕ
clamp n = if ltb max_ep n then max_ep else n

-- The number of endpoints that are written: the size as a `uint16_t`, then clamped.
unfoldable pub seed_count : CpShmSeed → ℕ
unfolding clamp
seed_count seed = clamp (length seed.endpoints % u16_mod)

unfoldable pub write_seed_unlocked : CpShmSeed → ℕ → CpShmBlock → CpShmBlock
unfolding seed_count
write_seed_unlocked seed version hdr =
    let n = seed_count seed in
    record {
      magic = hdr.magic;
      version = version;
      policy = policy_code seed.policy;
      flags = 0;
      count = n;
      endpoints = map to_cp (take n seed.endpoints) ++ replicate (max_ep - n) no_endpoint;
    }

-- A new block, zeroed, with the magic number; with a seed it begins at version 1.
unfoldable pub create_block : Option CpShmSeed → CpShmBlock
unfolding write_seed_unlocked
create_block seed =
    let zeroed : CpShmBlock = record {
      magic = shm_magic;
      version = 0;
      policy = 0;
      flags = 0;
      count = 0;
      endpoints = replicate max_ep no_endpoint;
    } in
    elim seed [ none ↦ zeroed | some s ↦ write_seed_unlocked s 1 zeroed ]

unfoldable pub next_version : CpShmBlock → ℕ
next_version hdr = let next = (hdr.version + 1) % u32_mod in if next == 0 then 1 else next

unfoldable pub publish : CpShmSeed → CpShmBlock → CpShmBlock
unfolding next_version write_seed_unlocked
publish seed hdr = write_seed_unlocked seed (next_version hdr) hdr

-- What the loads of one `poll_apply` return: the block as the first loads of magic and version see
-- it, the block as the copy sees it, and the version at the second look.
pub record Seen : Type 0 where
  pub first : CpShmBlock
  pub copied : CpShmBlock
  pub recheck : ℕ

unfoldable pub apply_seen : Seen → UpstreamTable → UpstreamTable
unfolding clamp
apply_seen seen table =
    Upstream.set (map from_cp (take (clamp seen.copied.count) seen.copied.endpoints))
      (Upstream.set_policy (policy_of seen.copied.policy) table)

-- The result, the last applied version, and the table.
unfoldable pub poll_seen : Seen → ℕ → UpstreamTable → Bool × ℕ × UpstreamTable
unfolding apply_seen
poll_seen seen last_applied table =
    if not (seen.first.magic == shm_magic)
    then (false, last_applied, table)
    else if seen.first.version == 0 || seen.first.version == last_applied
    then (false, last_applied, table)
    else if not (seen.recheck == seen.first.version)
    then (false, last_applied, table)
    else (true, seen.first.version, apply_seen seen table)

-- A poll while nobody writes.
unfoldable pub poll_apply : CpShm → UpstreamTable → Bool × CpShm × UpstreamTable
unfolding poll_seen
poll_apply shm table =
    let seen : Seen = record { first = shm.hdr; copied = shm.hdr; recheck = shm.hdr.version } in
    let (applied, last, table') = poll_seen seen shm.last_applied table in
    (applied, record shm { last_applied = last }, table')
