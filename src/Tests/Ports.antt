-- ===== src/Tests/Ports.antt =====
-- Runs of the rings and the interfaces, over a queue for the ring of DPDK, a list of packets for the
-- device and a table of tasks for the lcores.
use violet_gw.Prelude.{
  ℕ, List, [], ◌∷◌, ◌++◌, Option, none, some, ◌≡◌, ◌≢◌, true, false, refl, sym, ap, arith, ◌<◌, ◌+◌,
  ◌-◌, ◌==◌, ◌&&◌, ltb, leb, length, take, drop, if◌then◌else◌, lookup, insert,
}
use violet_gw.Dpdk.{Mbuf}
use violet_gw.Datapath.{DatapathConfig, datapath_config_defaults, new_pipeline_params}
use violet_gw.Ring.{min, RteRing, IsRteRing, Ring, push_burst, pop_burst, make_ring}
use violet_gw.Netif
use violet_gw.Netif.{Nic, DpdkNetif, send_pipeline, nic_recv, io_rx_burst}
use violet_gw.Netif.Fifo.{held, send_pipeline-Fifo, Receives, nic_recv-Receives}
use violet_gw.Netif.Sends.{send_pipeline_done}
use violet_gw.Netif.Manager.{
  Task, port_of, Eal, IsEal, NetifManager, new_manager, is_enabled, get_netif,
}
use violet_gw.Netif.Manager
use violet_gw.Netif.Manager.Lookups.{get_netif-init}
use violet_gw.Netif.Release.{reset_state, destroy, destroy_all}
use violet_gw.Netif.Launches.{Unserved, init-Unserved}
use violet_gw.Netif.Eal.{Ethdev, Links, effective_port_mask}
use violet_gw.Netif.Eal
use violet_gw.Netif.Eal.Links.{Shows, init-Shows}
use violet_gw.Tests.{query, answer}

pub record Queue : Type 0 where
  pub room : ℕ
  pub packets : List Mbuf

abbrev pub rte : RteRing Queue
rte = record {
  create = λ count. some (record { room = count - 1; packets = [] });
  enqueue_burst = λ q xs. (
    min (length xs) q.room,
    q.room - min (length xs) q.room,
    record {
      room = q.room - min (length xs) q.room;
      packets = q.packets ++ take (min (length xs) q.room) xs;
    },
  );
  dequeue_burst = λ q n. (
    take n q.packets,
    length (drop n q.packets),
    record { room = q.room + length (take n q.packets); packets = drop n q.packets },
  );
}

rte-IsRteRing : IsRteRing rte
rte-IsRteRing = record {
  items = λ q. q.packets;
  free = λ q. q.room;
  create_items = λ count r e.
      let q : record { room = count - 1; packets = [] } ≡ r = cc e in ap (λ x. x.packets) (sym q);
  create_free = λ count r e.
      let q : record { room = count - 1; packets = [] } ≡ r = cc e in ap (λ x. x.room) (sym q);
  taken = λ r xs. refl;
  enqueued = λ r xs. refl;
  enqueue_free = λ r xs. ground arith;
  free_space = λ r xs. refl;
  dequeued = λ r n. refl;
  remaining = λ r n. refl;
  dequeue_free = λ r n. refl;
  available = λ r n. refl;
}

abbrev ring : Ring Queue
ring = record { ring = record { room = 1; packets = query ∷ [] }; free_space = 1 }

abbrev burst : List Mbuf
burst = answer ∷ query ∷ answer ∷ []

abbrev sent : List Mbuf × Ring Queue
sent = elim (send_pipeline rte (0 ∷ 0 ∷ 1 ∷ 1 ∷ []) ring burst) [ none ↦ ([], ring) | some x ↦ x ]

burst-sent : send_pipeline rte (0 ∷ 0 ∷ 1 ∷ 1 ∷ []) ring burst ≡ some sent
unfolding send_pipeline push_burst pop_burst
burst-sent = refl

send_pipeline-Fifo_example :
    held rte rte-IsRteRing ring ++ burst ≡ sent.0 ++ held rte rte-IsRteRing sent.1
send_pipeline-Fifo_example =
    send_pipeline-Fifo rte rte-IsRteRing (0 ∷ 0 ∷ 1 ∷ 1 ∷ []) ring burst sent.0 sent.1 burst-sent

send_pipeline_done_example :
    (x : List Mbuf × Ring Queue) × (send_pipeline rte (1 ∷ 3 ∷ 1 ∷ []) ring burst ≡ some x)
unfolding rte-IsRteRing
send_pipeline_done_example =
    send_pipeline_done rte rte-IsRteRing (1 ∷ 3 ∷ 1 ∷ []) ring burst
      (omega arith, (omega arith, (omega arith, tt))) (omega arith) (omega arith)

-- A device with packets to receive, which takes all that is sent.
abbrev nic : Nic (List Mbuf)
nic = record {
  rx_burst = λ s port queue n. (take n s, drop n s);
  tx_burst = λ s port queue xs. (length xs, s);
}

nic_recv-Receives_example :
    Receives rte rte-IsRteRing
      (nic.rx_burst burst 0 0 io_rx_burst).0
      ring
      (nic_recv rte nic 0 (λ i. 0) (ring, burst)).0
nic_recv-Receives_example = nic_recv-Receives rte rte-IsRteRing nic 0 (λ i. 0) ring burst

abbrev pub Table : Type 0
Table = ℕ → Option Task

abbrev if_idle : Table → ℕ → Task → Option Task → Table
if_idle w l t none = λ k. if k == l then some t else w k
if_idle w l t (some old) = w

abbrev pub eal : Eal Table
eal = record { lcore_id = 0; next_lcore = λ l. l + 1; remote_launch = λ w l t. if_idle w l t (w l) }

eal-IsEal : IsEal eal
eal-IsEal = record {
  runs = λ w l. w l;
  busy = λ w l t old e. rw e refl;
  launched = λ w l t e. rw e (ground arith);
  others = λ w l k t e other. rw (e, other) refl;
}

abbrev cfg : DatapathConfig
cfg = record datapath_config_defaults { port_mask = 3 }

abbrev pub idle : Table
idle = λ l. none

abbrev made : NetifManager Queue × Table
made = elim (Manager.init rte eal cfg new_manager idle) [ none ↦ (new_manager, idle) | some x ↦ x ]

manager-made : Manager.init rte eal cfg new_manager idle ≡ some made
unfolding Manager.init Manager.start_ports datapath_config_defaults is_enabled Netif.init make_ring
manager-made = refl

get_netif-init_example :
    get_netif 1 made.0
    ≡ (if ltb 1 32 && is_enabled cfg.port_mask 1 then Netif.init rte 1 cfg else none)
get_netif-init_example = get_netif-init rte eal cfg idle made.0 made.1 1 manager-made

only_first : (k : ℕ) → k < 1 → k ≢ 0 → is_enabled cfg.port_mask k ≡ false
only_first k low other = absurd (omega arith)

first_enabled : is_enabled cfg.port_mask 0 ≡ true
unfolding is_enabled
first_enabled = refl

idle-Unserved : Unserved rte eal eal-IsEal 1 idle
unfolding eal-IsEal Unserved
idle-Unserved l t e = cc e

-- The second port has an interface, but nothing serves it.
init-Unserved_example : Unserved rte eal eal-IsEal 1 made.1
unfolding datapath_config_defaults
init-Unserved_example =
    init-Unserved rte eal eal-IsEal cfg (record new_pipeline_params { ring_size = 0 }) 0 1 refl refl
      refl refl (omega arith) first_enabled only_first new_manager made.0 idle made.1 idle-Unserved
      manager-made

abbrev count_freed : Option (List (Ring Queue)) → ℕ
count_freed none = 0
count_freed (some rings) = length rings

-- The two ports have a pair of rings each.
rings_freed : count_freed (destroy_all made.0.netifs) ≡ 4
unfolding Manager.init Manager.start_ports datapath_config_defaults is_enabled Netif.init make_ring
    destroy_all destroy reset_state lookup insert
rings_freed = refl

abbrev pub eth : Ethdev
eth = record {
  info_get = λ port. true;
  configure = λ port. true;
  adjust_desc = λ port. true;
  rx_queue_setup = λ port queue. true;
  tx_queue_setup = λ port queue. true;
  start = λ port. true;
}

-- The link of port 0 comes up at the third attempt.
abbrev pub links : ℕ → Links
links attempt port = some (leb 3 attempt && port == 0)

init-Shows_example :
    Shows true true eth
      (0 ∷ 1 ∷ [])
      links
      (effective_port_mask 0)
      (Eal.init true true eth (0 ∷ 1 ∷ []) links 0)
init-Shows_example = init-Shows true true eth (0 ∷ 1 ∷ []) links 0
