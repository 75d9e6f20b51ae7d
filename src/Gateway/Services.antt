-- ===== src/Gateway/Services.antt =====
-- `init_services` of vgw.cpp with the constants of config.hpp, and the state that it leaves.
use violet_gw.Prelude.{
  ℕ, Bool, false, Option, none, some, List, [], ◌∷◌, ◌≡◌, refl, arith, ◌+◌, ◌*◌, ◌^◌, if◌then◌else◌,
}
use violet_gw.Dpdk.{Dpdk}
use violet_gw.Neighbor
use violet_gw.Neighbor.{MacAddr}
use violet_gw.Neighbor.Laws.{Event, lookup-run-seed}
use violet_gw.Session
use violet_gw.Session.Invariant.{IsValid, init-IsValid}
use violet_gw.Upstream
use violet_gw.Upstream.{UpstreamEndpoint, BalancePolicy, UpstreamTable}
use violet_gw.Forward.Types.{ForwardConfig}
use violet_gw.Arp.{ArpConfig}
use violet_gw.Shm
use violet_gw.Shm.{CpShm, CpShmSeed, policy_of}
use violet_gw.Gateway.{VioletGw}

-- What `init_services` sets up.
pub record Services : Type 0 where
  pub gw : VioletGw
  pub fcfg : ForwardConfig
  pub acfg : ArpConfig

abbrev pub gateway_mac : MacAddr
gateway_mac = 2 ∷ 0 ∷ 0 ∷ 0 ∷ 0 ∷ 1 ∷ []

-- Of the upstream and of the client alike.
abbrev pub next_hop_mac : MacAddr
next_hop_mac = 2 ∷ 0 ∷ 0 ∷ 0 ∷ 0 ∷ 3 ∷ []

module _ (dpdk : Dpdk) where
  unfoldable pub ipv4_from : ℕ → ℕ → ℕ → ℕ → ℕ
  ipv4_from a b c d = dpdk.cpu_to_be_32 (a * 2 ^ 24 + b * 2 ^ 16 + c * 2 ^ 8 + d)

  abbrev pub upstream0_ip : ℕ
  upstream0_ip = ipv4_from 10 0 0 1

  abbrev pub lab_seed : CpShmSeed
  lab_seed = record {
    policy = policy_of 0;
    endpoints = record { ip_be = upstream0_ip; port = 53 } ∷ [];
  }

  -- The upstream table: what the block holds, or else the seed.
  unfoldable pub first_upstreams : Bool × CpShm × UpstreamTable → UpstreamTable
  first_upstreams (applied, cp, upstreams) =
      if applied
      then upstreams
      else Upstream.set lab_seed.endpoints (Upstream.set_policy lab_seed.policy upstreams)

  unfoldable pub services_over : CpShm → Services
  unfolding first_upstreams
  services_over cp =
      let vip_ip = ipv4_from 192 168 1 100 in
      let gw_ip = ipv4_from 192 168 1 10 in
      let polled = Shm.poll_apply cp Upstream.init in
      record {
        gw = record {
          world = record {
            sessions = Session.init gw_ip 60000 10000 60000;
            neighbors = some (Neighbor.seed upstream0_ip next_hop_mac (Neighbor.init 300000));
            upstreams = first_upstreams polled;
          };
          cp = polled.1;
          arp_pending = [];
          arp_probe_last_ms = [];
        };
        fcfg = record {
          vip = record { ip_be = vip_ip; port = 53 };
          gateway_ip_be = gw_ip;
          gateway_mac = gateway_mac;
          upstream_mac = next_hop_mac;
          client_side_mac = next_hop_mac;
          verify_checksum = false;
          recompute_udp_checksum = false;
        };
        acfg = record { gateway_ip_be = gw_ip; vip_ip_be = vip_ip; gateway_mac = gateway_mac };
      }

  -- The argument is what `CpShm::open` returns; without it the result is 1, which is `none`.
  unfoldable pub init_services : Option CpShm → Option Services
  unfolding services_over
  init_services none = none
  init_services (some cp) = some (services_over cp)

  -- The view of a block that `CpShm::open` has made from the seed.
  abbrev pub created_shm : CpShm
  created_shm = record { hdr = Shm.create_block (some lab_seed); last_applied = 0 }

  -- The table with the one endpoint 10.0.0.1:53, under the policy that takes the hash of a flow.
  abbrev pub lab_upstreams : UpstreamTable
  lab_upstreams = record {
    policy = BalancePolicy.mod';
    nodes = record { ip_be = dpdk.cpu_to_be_32 0x0a00_0001; port = 53 } ∷ [];
    rr_counter = 0;
  }

  pub services_over-IsValid : (cp : CpShm) → IsValid (services_over cp).gw.world.sessions
  unfolding services_over
  services_over-IsValid cp =
      init-IsValid (ipv4_from 192 168 1 10) 60000 10000 60000 (omega arith) (omega arith)
        (omega arith)

  -- Over a block that was made by this gateway, which holds the seed at version 1, the services start
  -- with a valid session table, with the one endpoint of the seed under its policy, applied at
  -- version 1, and with an address for that endpoint that no learning and expiry takes away.
  pub init_services_created :
      (es : List Event)
      → (s : Services) × (init_services (some created_shm) ≡ some s)
        × IsValid s.gw.world.sessions
        × (s.gw.world.upstreams ≡ lab_upstreams)
        × (s.gw.cp.last_applied ≡ 1)
        × (Neighbor.lookup upstream0_ip (
              Neighbor.Laws.run (Neighbor.seed upstream0_ip next_hop_mac (Neighbor.init 300000)) es)
            ≡ some next_hop_mac)
        × (s.gw.world.neighbors
            ≡ some (Neighbor.seed upstream0_ip next_hop_mac (Neighbor.init 300000)))
  unfolding init_services Shm.poll_apply Shm.create_block Shm.seed_count Shm.clamp ipv4_from
      Upstream.set Upstream.set_policy Upstream.init Neighbor.init
  init_services_created es = (
    services_over created_shm,
    refl,
    services_over-IsValid created_shm,
    refl,
    refl,
    lookup-run-seed upstream0_ip next_hop_mac (record { entry_timeout_ms = 300000; entries = [] })
        es tt,
    refl,
  )
