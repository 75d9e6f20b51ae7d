-- ===== src/Tests/Tables.antt =====
-- Runs of the neighbor table, the upstream table and the shared block.
use violet_gw.Prelude
use violet_gw.Prelude.{
  ℕ, List, [], ◌∷◌, Option, none, some, ◌≡◌, ◌≢◌, refl, arith, ◌<◌, true, false, ◌-◌, ltb,
  if◌then◌else◌, length, get_elem?, ◌%◌, ◌+◌, ◌⊎◌, replicate, map, take, ◌++◌,
}
use violet_gw.Neighbor
use violet_gw.Neighbor.{MacAddr, NeighborTable, learn}
use violet_gw.Neighbor.Laws.{lookup-expire-learn}
use violet_gw.Upstream.{BalancePolicy, UpstreamTable}
use violet_gw.Upstream.Balance.{picks, picks-rr_fair}
use violet_gw.Shm.{
  CpShmBlock, CpShmSeed, CpShm, publish, poll_apply, poll_seen, shm_magic, max_ep, no_endpoint,
  from_cp, seed_count, next_version, clamp, to_cp,
}
use violet_gw.Shm.Publish.{configured, poll_apply-publish}
use violet_gw.Shm.Races.{
  partly, data_stores, endpoint_stores, run, publish_stores, run-publish_stores, poll_seen_torn,
}
use violet_gw.Tests.{client_ip, upstream_ip, flow}

abbrev mac : MacAddr
mac = 2 ∷ 0 ∷ 0 ∷ 0 ∷ 0 ∷ 3 ∷ []

abbrev no_neighbors : NeighborTable
no_neighbors = record { entry_timeout_ms = 300; entries = [] }

lookup-expire-learn_example :
    Neighbor.lookup client_ip (Neighbor.expire 305 (learn client_ip mac 5 no_neighbors))
    ≡ (if ltb (305 - 5) 300 then some mac else none)
unfolding Prelude.lookup
lookup-expire-learn_example =
    lookup-expire-learn client_ip 5 305 mac no_neighbors tt refl (omega arith) (omega arith)

abbrev two_nodes : UpstreamTable
two_nodes = record {
  policy = BalancePolicy.rr;
  nodes = record { ip_be = upstream_ip; port = 53 } ∷ record { ip_be = client_ip; port = 54 } ∷ [];
  rr_counter = 5;
}

picks-rr_fair_example :
    (j : ℕ) × (j < 2)
    × (get_elem? (picks (flow ∷ flow ∷ []) two_nodes) j ≡ some (get_elem? two_nodes.nodes 0))
picks-rr_fair_example =
    picks-rr_fair (flow ∷ flow ∷ []) two_nodes 0 refl refl (omega arith) (omega arith)

-- A configuration of two endpoints, published over a block at version 1.
abbrev two_seed : CpShmSeed
two_seed = record { policy = BalancePolicy.rr; endpoints = two_nodes.nodes }

abbrev block : CpShmBlock
block = record {
  magic = shm_magic;
  version = 1;
  policy = 0;
  flags = 0;
  count = 1;
  endpoints = replicate max_ep no_endpoint;
}

abbrev reader : CpShm
reader = record { hdr = block; last_applied = 1 }

poll_apply-publish_example :
    poll_apply (record { hdr = publish two_seed block; last_applied = 1 }) two_nodes ≡ (
      true,
      record { hdr = publish two_seed block; last_applied = next_version block },
      configured two_seed two_nodes,
    )
unfolding next_version
poll_apply-publish_example =
    poll_apply-publish two_seed reader two_nodes (omega arith) refl (omega arith)
      (λ e. absurd (omega arith))

run-publish_stores_example :
    ((partly two_seed block 4).version ≡ 1)
    × (run (publish_stores two_seed block) block ≡ record {
      magic = shm_magic;
      version = next_version block;
      policy = 1;
      flags = 0;
      count = 2;
      endpoints = map to_cp two_nodes.nodes ++ replicate 62 no_endpoint;
    })
unfolding publish_stores data_stores endpoint_stores seed_count clamp
run-publish_stores_example = run-publish_stores two_seed block 4 (omega arith) refl (omega arith)

poll_seen_torn_example :
    poll_seen
      (record {
        first = block;
        copied = run (take 3 (publish_stores two_seed block)) block;
        recheck = (run (take 3 (publish_stores two_seed block)) block).version;
      })
      0
      two_nodes
    ≡ (
      true,
      1,
      record two_nodes {
        policy = BalancePolicy.rr;
        nodes = map from_cp (take (seed_count two_seed) block.endpoints);
      },
    )
poll_seen_torn_example =
    poll_seen_torn two_seed block 0 two_nodes refl (λ e. absurd (omega arith))
      (λ e. absurd (omega arith))
