-- ===== src/Gateway/Startup/Laws.antt =====
-- What `VioletGW::init` leaves for `run`.
use violet_gw.Prelude.{
  ℕ, true, false, Option, none, some, ◌≡◌, ◌⊎◌, refl, arith, ◌∙◌, ◌<◌, ◌&&◌, ltb, ap, if◌then◌else◌,
  List, subst, Bool-cases, Option-cases, inl, inr,
}
use violet_gw.Dpdk.{Dpdk}
use violet_gw.Shm.{CpShm}
use violet_gw.Datapath.{DatapathMode, Params, DatapathConfig}
use violet_gw.Datapath.Flags.{Flags, Exit, Configured, datapath_config_from_flags}
use violet_gw.Ring.{RteRing, make_ring}
use violet_gw.Netif.{DpdkNetif, ring_cap, with_rings}
use violet_gw.Netif
use violet_gw.Netif.Manager.{NetifManager, new_manager, is_enabled, get_netif}
use violet_gw.Netif.Manager
use violet_gw.Netif.Manager.Lookups.{get_netif-init, init_made}
use violet_gw.Netif.Eal
use violet_gw.Netif.Eal.{effective_port_mask}
use violet_gw.Netif.Eal.Links.{Shows, init-Shows}
use violet_gw.Datapath.Laws.{ConfigOf, Rejects, Answers, datapath_config_from_flags-Answers}
use violet_gw.Gateway.Services.{gateway_mac, init_services, services_over, services_over-IsValid}
use violet_gw.Gateway.Loop.Waiting.{waiting, Fit}
use violet_gw.Gateway.Startup.{
  Machine, Ready, Outcome, with_nic_mac, with_services, with_netif, with_datapath, init,
}

Configured-cases :
    (r : Configured)
    → ((x : Exit) × (r ≡ Configured.exits x))
      ⊎ ((c : DatapathConfig) × (r ≡ Configured.configured c))
Configured-cases (Configured.exits x) = inl (x, refl)
Configured-cases (Configured.configured c) = inr (c, refl)

module _ {R : Type 0} (rte : RteRing R) (i : ℕ) (cfg : DatapathConfig) where
  init_fields :
      (mode : DatapathMode) (u : Params) (d : DpdkNetif R)
      → cfg.mode ≡ mode
      → cfg.u ≡ u
      → Netif.init rte i cfg ≡ some d
      → (d.port_id ≡ i) × (d.mode ≡ mode)
  unfolding Netif.init
  init_fields DatapathMode.rtc u d m p e = let x = rw (m, Netif.init) at e in (cc x, cc x)
  init_fields DatapathMode.pipeline (Params.rtc_params r) d m p e =
      cc (rw p at (rw (m, Netif.init) at e))
  init_fields DatapathMode.pipeline (Params.pipeline_params q) d m p e =
      let x = rw p at (rw (m, Netif.init) at e) in
      elim (Option-cases
        (with_rings rte q (make_ring rte (ring_cap rte q)) (make_ring rte (ring_cap rte q)))) [
          | inl none_made ↦ cc (rw none_made at x)
          | inr (s, made) ↦ let y = rw made at x in (cc y, cc y)
        ]

module _ {R W : Type 0} (dpdk : Dpdk) (mc : Machine R W) where
  -- What `dpdk::init` shows with the port mask of the configuration.
  abbrev pub Devices : DatapathConfig → Option (List ℕ × ℕ) → Type 0
  Devices c =
      Shows mc.eal_ok mc.pool_ok mc.eth mc.devices mc.links (effective_port_mask c.port_mask)

  -- The configuration has the values of the flags; the devices have started and a link is up; the worker
  -- has the interface that the manager has for its port, which is enabled, in the mode of the
  -- configuration; the gateway can run and nothing waits; both handlers have the MAC address of the
  -- port, or that of the lab for a port that DPDK has no address of.
  pub record Starts (flags : Flags) (r : Ready R W) : Type 0 where
    pub conf : ConfigOf flags r.datapath
    pub enabled :
        (r.datapath.worker_port < 32)
        × (is_enabled r.datapath.port_mask r.datapath.worker_port ≡ true)
    pub port : r.netif.port_id ≡ r.datapath.worker_port
    pub mode : r.netif.mode ≡ r.datapath.mode
    pub fit : Fit r.services.gw
    pub empty : waiting r.services.gw.arp_pending ≡ 0
    pub macs : r.services.fcfg.gateway_mac ≡ r.services.acfg.gateway_mac
    pub mac : r.services.fcfg.gateway_mac ≡ (
        if ltb r.datapath.worker_port mc.max_ports
        then mc.mac_of r.datapath.worker_port
        else gateway_mac)
    pub found : get_netif r.datapath.worker_port r.manager ≡ some r.netif
    pub started : (x : List ℕ × ℕ) × Devices r.datapath (some x)

  unfoldable pub Follows : Flags → W → Option CpShm → Outcome R W → Type 0
  Follows flags w shm Outcome.exits =
      ((x : Exit) × Rejects x flags)
      ⊎ ((c : DatapathConfig) × ConfigOf flags c
          × (Devices c none ⊎ (Manager.init mc.rte mc.eal c new_manager w ≡ none)))
  Follows flags w shm (Outcome.ready r) = Starts flags r
  Follows flags w shm Outcome.fails =
      (shm ≡ none)
      ⊎ ((c : DatapathConfig) × ConfigOf flags c
          × ((ltb c.worker_port 32 && is_enabled c.port_mask c.worker_port) ≡ false))

  -- The services, with the MAC address of the device or of the lab.
  with_nic_mac-Fit :
      (port : ℕ) (cp : CpShm)
      → let s = with_nic_mac dpdk mc port (services_over dpdk cp) in
        Fit s.gw
        × (waiting s.gw.arp_pending ≡ 0)
        × (s.fcfg.gateway_mac ≡ s.acfg.gateway_mac)
        × (s.fcfg.gateway_mac ≡ (if ltb port mc.max_ports then mc.mac_of port else gateway_mac))
  unfolding services_over
  with_nic_mac-Fit port cp =
      let fit : Fit (services_over dpdk cp).gw = record {
        sessions = services_over-IsValid dpdk cp;
        queues = tt;
      } in
      elim (Bool-cases (ltb port mc.max_ports)) [
        | inl on ↦ rw on (fit, refl, refl, refl)
        | inr off ↦ rw off (fit, refl, refl, refl)
      ]

  services_Starts :
      (c : DatapathConfig) (m : NetifManager R × W) (d : DpdkNetif R) (shm : Option CpShm)
      → (ltb c.worker_port 32 && is_enabled c.port_mask c.worker_port) ≡ true
      → (d.port_id ≡ c.worker_port) × (d.mode ≡ c.mode)
      → (flags : Flags) (w : W) → ConfigOf flags c
      → get_netif c.worker_port m.0 ≡ some d
      → ((x : List ℕ × ℕ) × Devices c (some x))
      → Follows flags w shm (with_services dpdk mc c m d (init_services dpdk shm))
  unfolding Follows init_services
  services_Starts c m d none on same flags w conf found started = inl refl
  services_Starts c m d (some cp) on (port, mode) flags w conf found started =
      let (fit, empty, macs, mac) = with_nic_mac-Fit d.port_id cp in
      record {
        conf = conf;
        enabled = (ground arith, ground arith);
        port = port;
        mode = mode;
        fit = fit;
        empty = empty;
        macs = macs;
        mac = mac ∙ ap (λ p. if ltb p mc.max_ports then mc.mac_of p else gateway_mac) port;
        found = found;
        started = started;
      }

  with_netif-Follows :
      (flags : Flags) (c : DatapathConfig) (m : NetifManager R × W) (w : W) (shm : Option CpShm)
      → ConfigOf flags c
      → Manager.init mc.rte mc.eal c new_manager w ≡ some m
      → ((x : List ℕ × ℕ) × Devices c (some x))
      → Follows flags w shm (with_netif dpdk mc c m shm)
  unfolding with_netif Follows
  with_netif-Follows flags c m w shm conf e started =
      let found = get_netif-init mc.rte mc.eal c w m.0 m.1 c.worker_port e in
      elim (Bool-cases (ltb c.worker_port 32 && is_enabled c.port_mask c.worker_port)) [
        | inr off ↦ rw (rw off at found, with_netif) (inr (c, conf, off))
        | inl on ↦
            let (d, made) =
              init_made mc.rte mc.eal c new_manager m.0 w m.1 c.worker_port e (ground arith)
                (ground arith) in
            let same = init_fields mc.rte c.worker_port c c.mode c.u d refl refl made in
            let there = rw on at found ∙ made in
            rw (there, with_netif) (services_Starts c m d shm on same flags w conf there started)
      ]

  -- `init` gives `run` a configuration with the values of the flags, and the interface of its worker
  -- port, which is enabled, in its mode, after the EAL, the pool and the enabled devices have started and
  -- a link has come up, with a valid session table, empty queues and the MAC address of that port in
  -- both handlers, or that of the lab for a port that DPDK has no address of; or it returns 1, for want of the shared block or since the worker port of such a
  -- configuration is not an enabled one; or the program exits, since a flag is rejected, or the EAL, the pool
  -- or an enabled device does not start or no link of one comes up, or since the manager of the
  -- interfaces exits.
  pub init-Follows :
      (flags : Flags) (w : W) (shm : Option CpShm) → Follows flags w shm (init dpdk mc flags w shm)
  unfolding init with_datapath Follows Answers
  init-Follows flags w shm = elim (Configured-cases (datapath_config_from_flags flags)) [
    | inl (x, e) ↦
        rw (e, init) (inl (x, subst (Answers flags) e (datapath_config_from_flags-Answers flags)))
    | inr (c, e) ↦
        let conf : ConfigOf flags c =
          subst (Answers flags) e (datapath_config_from_flags-Answers flags) in
        let shows = init-Shows mc.eal_ok mc.pool_ok mc.eth mc.devices mc.links c.port_mask in
        elim (Option-cases (Eal.init mc.eal_ok mc.pool_ok mc.eth mc.devices mc.links c.port_mask)) [
          | inl exit ↦
              rw (e, init)
                (rw (exit, with_datapath) (inr (c, conf, inl (subst (Devices c) exit shows))))
          | inr (ports, started) ↦
              elim (Option-cases (Manager.init mc.rte mc.eal c new_manager w)) [
                | inl exit ↦
                    rw (e, init)
                      (rw (started, with_datapath)
                        (rw (exit, with_datapath) (inr (c, conf, inr exit))))
                | inr (m, made) ↦
                    rw (e, init)
                      (rw (started, with_datapath)
                        (rw (made, with_datapath)
                          (with_netif-Follows flags c m w shm conf made
                            (ports, subst (Devices c) started shows))))
              ]
        ]
  ]
