-- ===== src/Shm/Publish.antt =====
-- What a poll makes of a published configuration.
use violet_gw.Prelude.{
  ℕ, zero, suc, true, List, [], ◌∷◌, ◌++◌, ◌≡◌, ◌≢◌, refl, arith, ap, ◌-◌, ◌%◌, ◌<◌, ◌≤◌, ◌⊎◌, ◌∙◌,
  sym, inl, inr, take_all, length, take, replicate, map, u16_mod, u32_mod,
}
use violet_gw.Upstream
use violet_gw.Upstream.{UpstreamEndpoint, BalancePolicy, UpstreamTable}
use violet_gw.Shm.{
  CpShmBlock, CpShmSeed, CpShm, shm_magic, max_ep, no_endpoint, to_cp, from_cp, policy_code,
  policy_of, clamp, seed_count, next_version, publish, poll_apply,
}

-- The table with the configuration: its policy, and the endpoints that 64 entries have room for.
abbrev pub configured : CpShmSeed → UpstreamTable → UpstreamTable
configured seed table = record table { policy = seed.policy; nodes = take 64 seed.endpoints }

pub policy_of_code : (p : BalancePolicy) → policy_of (policy_code p) ≡ p
policy_of_code BalancePolicy.mod' = refl
policy_of_code BalancePolicy.rr = refl

-- What the writer has put into the array is what the reader takes from it.
take_written :
    (n k : ℕ) (eps : List UpstreamEndpoint)
    → n ≤ length eps
    → map from_cp (take n (map to_cp (take n eps) ++ replicate k no_endpoint)) ≡ take n eps
take_written zero k eps h = refl
take_written (suc n) k [] h = absurd (omega arith)
take_written (suc n) k (e ∷ eps) h = ap (◌∷◌ e) (take_written n k eps (omega arith))

seed_count-le : (n : ℕ) → clamp (n % u16_mod) ≤ n
unfolding clamp
seed_count-le n = ground arith

pub seed_count-bounds :
    (seed : CpShmSeed)
    → (seed_count seed ≤ length seed.endpoints) × (clamp (seed_count seed) ≡ seed_count seed)
unfolding seed_count
seed_count-bounds seed = (seed_count-le (length seed.endpoints), ground arith)

-- Where the number of endpoints is a `uint16_t`, the writer takes those that there is room for.
pub take-seed_count :
    (seed : CpShmSeed)
    → length seed.endpoints < u16_mod
    → take (seed_count seed) seed.endpoints ≡ take 64 seed.endpoints
unfolding seed_count clamp
take-seed_count seed small =
    let n = length seed.endpoints in
    let exact : (seed_count seed ≡ 64) ⊎ ((seed_count seed ≡ n) × (n ≤ 64)) = ground arith in
    elim exact [
      | inl full ↦ rw full refl
      | inr (all, room) ↦
          rw all (take_all seed.endpoints n (omega arith) ∙ sym (take_all seed.endpoints 64 room))
    ]

-- The version that a publication takes: never 0, and never the one before it.
pub next_version-bounds :
    (hdr : CpShmBlock)
    → hdr.version < u32_mod
    → (next_version hdr ≢ 0) × (next_version hdr ≢ hdr.version)
unfolding next_version
next_version-bounds hdr h = ground arith

-- A poll after a publication of less than 65536 endpoints applies it: the policy and the first 64 of
-- the endpoints, under the new version, whatever the table held. The block has its magic number and
-- its version is a word; the reader has not applied the new version before.
pub poll_apply-publish :
    (seed : CpShmSeed) (shm : CpShm) (table : UpstreamTable)
    → length seed.endpoints < u16_mod
    → shm.hdr.magic ≡ shm_magic
    → shm.hdr.version < u32_mod
    → shm.last_applied ≢ next_version shm.hdr
    → poll_apply (record shm { hdr = publish seed shm.hdr }) table ≡ (
      true,
      record { hdr = publish seed shm.hdr; last_applied = next_version shm.hdr },
      configured seed table,
    )
unfolding poll_apply publish Upstream.set Upstream.set_policy
poll_apply-publish seed shm table short magic small new =
    let bounds = seed_count-bounds seed in
    let fresh = next_version-bounds shm.hdr small in
    ground (
      arith,
      policy_of_code seed.policy,
      take_written (seed_count seed) (max_ep - seed_count seed) seed.endpoints bounds.0,
      take-seed_count seed short,
    )
