-- ===== src/Shm/Races.antt =====
-- A reader that polls while the writer of `write_seed_unlocked` is between two of its stores.
use violet_gw.Prelude.{
  ℕ, zero, suc, true, List, [], ◌∷◌, ◌++◌, ◌≡◌, ◌≢◌, refl, sym, arith, ◌∙◌, ap, ◌+◌, ◌-◌, ◌<◌, ◌≤◌,
  u16_mod, length, take, replicate, map, set, length-append, set-append, length-map, length-take,
  length-replicate,
}
use mathlib.Core.List.{append_assoc}
use violet_gw.Upstream
use violet_gw.Upstream.{UpstreamEndpoint, BalancePolicy, UpstreamTable}
use violet_gw.Shm.{
  CpShmBlock, CpShmSeed, CpEndpoint, shm_magic, max_ep, no_endpoint, to_cp, from_cp, policy_code,
  clamp, seed_count, write_seed_unlocked, next_version, publish, apply_seen, poll_seen,
}
use violet_gw.Shm.Publish.{seed_count-bounds, take-seed_count, policy_of_code}

-- One store of the writer to the block.
pub data Store : Type 0 where
  set_policy set_flags set_count set_version : ℕ → Store
  set_endpoint : ℕ → CpEndpoint → Store

unfoldable pub store : Store → CpShmBlock → CpShmBlock
store (set_policy p) b = record b { policy = p }
store (set_flags f) b = record b { flags = f }
store (set_count n) b = record b { count = n }
store (set_version v) b = record b { version = v }
store (set_endpoint i e) b = record b { endpoints = set b.endpoints i e }

unfoldable pub run : List Store → CpShmBlock → CpShmBlock
unfolding store
run [] b = b
run (s ∷ ss) b = run ss (store s b)

-- The two loops over the array, from index `i` on.
unfoldable pub endpoint_stores : ℕ → List CpEndpoint → List Store
endpoint_stores i [] = []
endpoint_stores i (e ∷ es) = set_endpoint i e ∷ endpoint_stores (i + 1) es

abbrev pub array_of : CpShmSeed → List CpEndpoint
array_of seed =
    map to_cp (take (seed_count seed) seed.endpoints)
    ++ replicate (max_ep - seed_count seed) no_endpoint

-- The stores before that of the version, in the order of the code.
unfoldable pub data_stores : CpShmSeed → List Store
unfolding endpoint_stores
data_stores seed =
    set_policy (policy_code seed.policy)
    ∷ set_flags 0
    ∷ set_count (seed_count seed)
    ∷ endpoint_stores 0 (array_of seed)

unfoldable pub publish_stores : CpShmSeed → CpShmBlock → List Store
unfolding data_stores
publish_stores seed hdr = data_stores seed ++ set_version (next_version hdr) ∷ []

run-append : (xs ys : List Store) (b : CpShmBlock) → run (xs ++ ys) b ≡ run ys (run xs b)
unfolding run
run-append [] ys b = refl
run-append (x ∷ xs) ys b = run-append xs ys (store x b)

run-endpoint_stores :
    (es old pre : List CpEndpoint) (b : CpShmBlock)
    → b.endpoints ≡ pre ++ old
    → length old ≡ length es
    → run (endpoint_stores (length pre) es) b ≡ record b { endpoints = pre ++ es }
unfolding run store endpoint_stores
run-endpoint_stores [] [] pre b e h = λ i. record b { endpoints = e i }
run-endpoint_stores [] (o ∷ old) pre b e h = absurd (omega arith)
run-endpoint_stores (x ∷ es) [] pre b e h = absurd (omega arith)
run-endpoint_stores (x ∷ es) (o ∷ old) pre b e h =
    let pre' = pre ++ x ∷ [] in
    let len : length pre' ≡ length pre + 1 = length-append pre (x ∷ []) in
    let b' : CpShmBlock = record b { endpoints = set b.endpoints (length pre) x } in
    let e' : b'.endpoints ≡ pre' ++ old =
      ap (λ l. set l (length pre) x) e ∙ set-append pre old o x in
    rw (← len) (
      run-endpoint_stores es old pre' b' e' (omega arith)
      ∙ ap (λ l. record b { endpoints = l }) (append_assoc pre (x ∷ []) es))

length-array_of : (seed : CpShmSeed) → length (array_of seed) ≡ max_ep
unfolding seed_count clamp
length-array_of seed =
    let n = seed_count seed in
    let small = seed_count-bounds seed in
    let some_eps = take n seed.endpoints in
    ground (
      arith,
      length-append (map to_cp some_eps) (replicate (max_ep - n) no_endpoint),
      length-map to_cp some_eps,
      length-take n seed.endpoints small.0,
      length-replicate (max_ep - n) no_endpoint,
    )

-- A block whose stores of data are under way: the version is that of the last publication.
keeps_version :
    (i : ℕ) (es : List CpEndpoint) (k : ℕ) (b : CpShmBlock)
    → ((run (take k (endpoint_stores i es)) b).version ≡ b.version)
      × ((run (take k (endpoint_stores i es)) b).magic ≡ b.magic)
unfolding run store endpoint_stores
keeps_version i es zero b = (refl, refl)
keeps_version i [] (suc k) b = (refl, refl)
keeps_version i (e ∷ es) (suc k) b =
    keeps_version (i + 1) es k (record b { endpoints = set b.endpoints i e })

run-publish_stores_end :
    (seed : CpShmSeed) (hdr : CpShmBlock)
    → length hdr.endpoints ≡ max_ep
    → run (publish_stores seed hdr) hdr ≡ publish seed hdr
unfolding publish_stores data_stores publish write_seed_unlocked run store
run-publish_stores_end seed hdr h =
    let b : CpShmBlock = record hdr {
      policy = policy_code seed.policy;
      flags = 0;
      count = seed_count seed;
    } in
    run-append (endpoint_stores 0 (array_of seed)) (set_version (next_version hdr) ∷ []) b
    ∙ ap (λ c. store (set_version (next_version hdr)) c)
        (run-endpoint_stores (array_of seed) hdr.endpoints [] b refl
          (h ∙ sym (length-array_of seed)))

-- The block once the first `k` stores of a publication are made.
abbrev pub partly : CpShmSeed → CpShmBlock → ℕ → CpShmBlock
partly seed hdr k = run (take k (publish_stores seed hdr)) hdr

take-append_early {ℓ} :
    {A : Type ℓ} (k : ℕ) (xs ys : List A) → k ≤ length xs → take k (xs ++ ys) ≡ take k xs
take-append_early zero xs ys h = refl
take-append_early (suc k) [] ys h = absurd (omega arith)
take-append_early (suc k) (x ∷ xs) ys h = ap (◌∷◌ x) (take-append_early k xs ys (omega arith))

data_keeps_version :
    (seed : CpShmSeed) (k : ℕ) (b : CpShmBlock)
    → (run (take k (data_stores seed)) b).version ≡ b.version
unfolding data_stores run store
data_keeps_version seed zero b = refl
data_keeps_version seed (suc zero) b = refl
data_keeps_version seed (suc (suc zero)) b = refl
data_keeps_version seed (suc (suc (suc k))) b = (keeps_version 0 (array_of seed) k _).0

-- The writer stores the version last: as long as a store of the publication is missing, the block has
-- its old version. With all of them the block, which had its whole array, has the next version, the
-- policy, and the number and the entries of the endpoints that 64 entries have room for, with
-- zeroed entries behind them. There are less than 65536 endpoints.
pub run-publish_stores :
    (seed : CpShmSeed) (hdr : CpShmBlock) (k : ℕ)
    → length seed.endpoints < u16_mod
    → length hdr.endpoints ≡ 64
    → k < length (publish_stores seed hdr)
    → ((partly seed hdr k).version ≡ hdr.version)
      × (run (publish_stores seed hdr) hdr ≡ record {
        magic = hdr.magic;
        version = next_version hdr;
        policy = policy_code seed.policy;
        flags = 0;
        count = length (take 64 seed.endpoints);
        endpoints =
            map to_cp (take 64 seed.endpoints)
            ++ replicate (64 - length (take 64 seed.endpoints)) no_endpoint;
      })
unfolding publish_stores publish write_seed_unlocked
run-publish_stores seed hdr k short whole early =
    let stores = length-append (data_stores seed) (set_version (next_version hdr) ∷ []) in
    let before =
      take-append_early k (data_stores seed) (set_version (next_version hdr) ∷ [])
        (omega (arith, stores, early)) in
    let few : seed_count seed ≡ length (take 64 seed.endpoints) =
      sym (length-take (seed_count seed) seed.endpoints (seed_count-bounds seed).0)
      ∙ ap length (take-seed_count seed short) in
    (
      ap (λ l. (run l hdr).version) before ∙ data_keeps_version seed k hdr,
      run-publish_stores_end seed hdr whole ∙ rw (take-seed_count seed short) (rw few refl),
    )

-- A reader that has not applied the version of the block polls while the writer has made its first
-- three stores: it takes the new policy and the new count with the old array, and accepts them under
-- the old version, since the version is stored last. The block has its magic number and a version
-- that is not 0.
pub poll_seen_torn :
    (seed : CpShmSeed) (hdr : CpShmBlock) (last_applied : ℕ) (table : UpstreamTable)
    → hdr.magic ≡ shm_magic
    → hdr.version ≢ 0
    → hdr.version ≢ last_applied
    → poll_seen
        (record {
          first = hdr;
          copied = run (take 3 (publish_stores seed hdr)) hdr;
          recheck = (run (take 3 (publish_stores seed hdr)) hdr).version;
        })
        last_applied
        table
      ≡ (
        true,
        hdr.version,
        record table {
          policy = seed.policy;
          nodes = map from_cp (take (seed_count seed) hdr.endpoints);
        },
      )
unfolding poll_seen apply_seen publish_stores data_stores run store Upstream.set Upstream.set_policy
poll_seen_torn seed hdr last_applied table magic zero' new =
    let bounds = seed_count-bounds seed in ground (arith, policy_of_code seed.policy)
