-- ===== src/Gateway/Startup.antt =====
-- `VioletGW::init` of vgw.cpp: the configuration, the ports and the services in their order. The devices,
-- the lcores, the rings and the shared block are those of the components; `mac_of` is
-- `DPDK_ether_addr`, and `max_ports` RTE_MAX_ETHPORTS.
pub mod Laws
use violet_gw.Prelude.{
  ℕ, Bool, true, false, Option, none, some, List, ◌≡◌, ◌≢◌, refl, sym, ap, subst, arith, ◌∙◌, ◌<◌,
  ◌==◌, ◌&&◌, ltb, if◌then◌else◌, Bool-cases, Option-cases, inl, inr,
}
use violet_gw.Dpdk.{Dpdk}
use violet_gw.Neighbor.{MacAddr}
use violet_gw.Shm.{CpShm}
use violet_gw.Datapath.{DatapathConfig}
use violet_gw.Datapath.Flags.{Flags, Configured, datapath_config_from_flags}
use violet_gw.Ring.{RteRing}
use violet_gw.Netif.{DpdkNetif}
use violet_gw.Netif
use violet_gw.Netif.Manager.{Eal, NetifManager, new_manager, is_enabled, get_netif}
use violet_gw.Netif.Manager
use violet_gw.Netif.Eal.{Ethdev, Links}
use violet_gw.Netif.Eal
use violet_gw.Gateway.Services.{Services, init_services}

-- What there is of the machine.
pub record Machine (R W : Type 0) : Type 0 where
  pub rte : RteRing R
  pub eal : Eal W
  pub eal_ok : Bool
  pub pool_ok : Bool
  pub eth : Ethdev
  pub devices : List ℕ
  pub links : ℕ → Links
  pub mac_of : ℕ → MacAddr
  pub max_ports : ℕ

-- What `run` starts from.
pub record Ready (R W : Type 0) : Type 0 where
  pub datapath : DatapathConfig
  pub manager : NetifManager R
  pub lcores : W
  pub netif : DpdkNetif R
  pub services : Services

-- The program exits, or `init` returns 1 or 0.
pub data Outcome (R W : Type 0) : Type 0 where
  exits : Outcome R W
  fails : Outcome R W
  ready : Ready R W → Outcome R W

-- `set_gateway_mac` of the forwarder and of the ARP handler.
abbrev pub set_gateway_mac : MacAddr → Services → Services
set_gateway_mac mac s = record s {
  fcfg = record s.fcfg { gateway_mac = mac };
  acfg = record s.acfg { gateway_mac = mac };
}

module _ {R W : Type 0} (dpdk : Dpdk) (mc : Machine R W) where
  abbrev pub with_nic_mac : ℕ → Services → Services
  with_nic_mac port s = if ltb port mc.max_ports then set_gateway_mac (mc.mac_of port) s else s

  abbrev pub with_services :
      DatapathConfig → NetifManager R × W → DpdkNetif R → Option Services → Outcome R W
  with_services c m d none = Outcome.fails
  with_services c m d (some s) = Outcome.ready (record {
    datapath = c;
    manager = m.0;
    lcores = m.1;
    netif = d;
    services = with_nic_mac d.port_id s;
  })

  unfoldable pub with_netif : DatapathConfig → NetifManager R × W → Option CpShm → Outcome R W
  with_netif c m shm = elim (get_netif c.worker_port m.0) [
    | none ↦ Outcome.fails
    | some d ↦ with_services c m d (init_services dpdk shm)
  ]

  unfoldable pub with_datapath : DatapathConfig → W → Option CpShm → Outcome R W
  unfolding with_netif
  with_datapath c w shm =
      elim (Eal.init mc.eal_ok mc.pool_ok mc.eth mc.devices mc.links c.port_mask) [
        | none ↦ Outcome.exits
        | some ports ↦ elim (Manager.init mc.rte mc.eal c new_manager w) [
          | none ↦ Outcome.exits
          | some m ↦ with_netif c m shm
        ]
      ]

  unfoldable pub init : Flags → W → Option CpShm → Outcome R W
  unfolding with_datapath
  init flags w shm = elim (datapath_config_from_flags flags) [
    | Configured.exits x ↦ Outcome.exits
    | Configured.configured c ↦ with_datapath c w shm
  ]
