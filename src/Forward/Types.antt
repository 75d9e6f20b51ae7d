-- ===== src/Forward/Types.antt =====
-- The configuration and the outcomes of the forwarder.
use violet_gw.Prelude.{ℕ, Bool, Option}
use violet_gw.Dpdk.{Mbuf}
use violet_gw.Neighbor.{MacAddr, NeighborTable}
use violet_gw.Session.{SessionTable}

pub record Upstream : Type 0 where
  pub ip_be : ℕ
  pub port : ℕ

pub record VipEndpoint : Type 0 where
  pub ip_be : ℕ
  pub port : ℕ

pub record ForwardConfig : Type 0 where
  pub vip : VipEndpoint
  pub gateway_ip_be : ℕ
  pub gateway_mac : MacAddr
  pub upstream_mac : MacAddr
  pub client_side_mac : MacAddr
  pub verify_checksum : Bool
  pub recompute_udp_checksum : Bool

pub data HandleResult : Type 0 where
  drop tx_forward tx_reverse tx_arp pending_arp : HandleResult

pub record HandleOutcome : Type 0 where
  pub result : HandleResult
  pub arp_wait_ip_be : ℕ
  pub learned_ip_be : ℕ

-- `HandleOutcome{}` with another result.
abbrev pub outcome : HandleResult → HandleOutcome
outcome r = record { result = r; arp_wait_ip_be = 0; learned_ip_be = 0 }

-- What the forwarder points to: the sessions, the neighbor table if there is one, and the state `P`
-- of the upstream picker.
pub record World (P : Type 0) : Type 0 where
  pub sessions : SessionTable
  pub neighbors : Option NeighborTable
  pub upstreams : P

pub record Handled (P : Type 0) : Type 0 where
  pub outcome : HandleOutcome
  pub mbuf : Mbuf
  pub world : World P
