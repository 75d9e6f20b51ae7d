-- ===== src/Netif/Eal.antt =====
-- `dpdk::init` of dpdk/netif.cpp: the ports are started and their links awaited. The device calls are
-- parameters: a Boolean is whether the call succeeds. `rte_exit` is `none`.
pub mod Links
use violet_gw.Prelude.{
  ℕ, zero, suc, Bool, true, false, not, Option, none, some, List, [], ◌∷◌, ◌==◌, ◌&&◌, ◌||◌, ◌+◌,
  if◌then◌else◌,
}
use violet_gw.Datapath.{valid_port_marks}
use violet_gw.Netif.Manager.{is_enabled}

abbrev pub rx_queue_num : ℕ
rx_queue_num = 1

abbrev pub tx_queue_num : ℕ
tx_queue_num = 1

abbrev pub link_check_attempts : ℕ
link_check_attempts = 4

-- Whether each call for a port succeeds.
pub record Ethdev : Type 0 where
  pub info_get : ℕ → Bool
  pub configure : ℕ → Bool
  pub adjust_desc : ℕ → Bool
  pub rx_queue_setup : ℕ → ℕ → Bool
  pub tx_queue_setup : ℕ → ℕ → Bool
  pub start : ℕ → Bool

-- The queues from `q` on.
abbrev pub setup_queues : (ℕ → Bool) → ℕ → ℕ → Bool
setup_queues setup q zero = true
setup_queues setup q (suc n) = setup q && setup_queues setup (q + 1) n

-- The calls for one port in their order.
unfoldable pub start_dev : Ethdev → ℕ → Bool
start_dev eth port =
    eth.info_get port
    && eth.configure port
    && eth.adjust_desc port
    && setup_queues (eth.rx_queue_setup port) 0 rx_queue_num
    && setup_queues (eth.tx_queue_setup port) 0 tx_queue_num
    && eth.start port

-- The ports that are started, in the order of the devices.
unfoldable pub start_devs : Ethdev → ℕ → List ℕ → Option (List ℕ)
start_devs eth port_mask [] = some []
start_devs eth port_mask (port ∷ rest) =
    let others = start_devs eth port_mask rest in
    if not (is_enabled port_mask port)
    then others
    else if start_dev eth port
    then elim others [ none ↦ none | some ports ↦ some (port ∷ ports) ]
    else none

-- `devices` are the ports of the devices there are.
unfoldable pub port_init : Ethdev → List ℕ → ℕ → Option (List ℕ)
unfolding start_devs
port_init eth [] port_mask = none
port_init eth (port ∷ rest) port_mask = start_devs eth port_mask (port ∷ rest)

-- The links at one attempt: whether one is up, or that it cannot be read.
abbrev pub Links : Type 0
Links = ℕ → Option Bool

abbrev pub is_up : Option Bool → Bool
is_up none = false
is_up (some up) = up

unfoldable pub check_link_status : List ℕ → Links → ℕ → Bool
check_link_status [] links port_mask = false
check_link_status (port ∷ rest) links port_mask =
    (is_enabled port_mask port && is_up (links port)) || check_link_status rest links port_mask

-- The loop over the attempts, from `attempt` on, with its seconds of sleep; `links` is what each
-- attempt finds.
unfoldable pub await_links : List ℕ → (ℕ → Links) → ℕ → ℕ → ℕ → Bool × ℕ
unfolding check_link_status
await_links devices links port_mask attempt zero = (false, 0)
await_links devices links port_mask attempt (suc n) =
    let (ok, slept) = await_links devices links port_mask (attempt + 1) n in
    if check_link_status devices (links attempt) port_mask
    then (true, 0)
    else if n == 0
    then (false, 0)
    else (ok, slept + 1)

abbrev pub effective_port_mask : ℕ → ℕ
effective_port_mask port_mask = if port_mask == 0 then valid_port_marks else port_mask

-- `eal` and `pool` are whether `rte_eal_init` and `rte_pktmbuf_pool_create` succeed. With the ports
-- that are started and the seconds of sleep.
unfoldable pub init : Bool → Bool → Ethdev → List ℕ → (ℕ → Links) → ℕ → Option (List ℕ × ℕ)
unfolding port_init await_links
init eal pool eth devices links port_mask =
    let mask = effective_port_mask port_mask in
    let (ok, slept) = await_links devices links mask 1 link_check_attempts in
    if not eal then none else if not pool then none else elim (port_init eth devices mask) [
      | none ↦ none
      | some ports ↦ if ok then some (ports, slept) else none
    ]
