-- ===== src/Gateway/Run/Worker.antt =====
-- The bursts of `DpdkNetif` in netif.cpp as the worker's loop in vgw.cpp uses them, in the mode that
-- runs to completion: they go to the device, which counts the packets that it has taken.
use violet_gw.Prelude.{
  ℕ, none, some, List, [], ◌∷◌, ◌≡◌, refl, arith, ◌+◌, ◌≤◌, length, take, length-take-le,
}
use violet_gw.Dpdk.{Mbuf}
use violet_gw.Ring.{RteRing, min}
use violet_gw.Netif.{Nic, DpdkNetif, State, recv_burst, send_burst, send_pipeline}
use violet_gw.Gateway.Loop.{Port}
use violet_gw.Gateway.Loop.Totals.{IsPort}

-- The documentation: a device takes a beginning of the array, and what it receives takes nothing.
pub record IsNic {N : Type 0} (nic : Nic N) : Type 0 where
  pub taken : N → ℕ
  pub received : (s : N) (port queue n : ℕ) → taken (nic.rx_burst s port queue n).1 ≡ taken s
  pub within :
      (s : N) (port queue : ℕ) (tx : List Mbuf) → (nic.tx_burst s port queue tx).0 ≤ length tx
  pub sent :
      (s : N) (port queue : ℕ) (tx : List Mbuf)
      → taken (nic.tx_burst s port queue tx).1 ≡ taken s + (nic.tx_burst s port queue tx).0

module _ {R N : Type 0} (rte : RteRing R) (nic : Nic N) (d : DpdkNetif R) where
  -- The state of the interface does not change in this mode; the state of the device does.
  abbrev pub rtc_port : Port N
  rtc_port = record {
    recv_burst = λ s n. elim (recv_burst rte nic n (d, s)) [ none ↦ ([], s) | some r ↦ (r.0, r.2) ];
    send_burst =
        λ s tx. elim (send_burst rte nic [] tx (d, s)) [ none ↦ (0, s) | some r ↦ (r.0, r.2) ];
  }

  rtc_port_receives :
      (documented : IsNic nic) (st : State R) (s : N) (n : ℕ)
      → d.state ≡ st
      → documented.taken (rtc_port.recv_burst s n).1 ≡ documented.taken s
  unfolding recv_burst
  rtc_port_receives documented State.inactive s n e = rw (e, recv_burst) refl
  rtc_port_receives documented (State.pipeline_state p) s n e = rw (e, recv_burst) refl
  rtc_port_receives documented State.rtc_state s n e =
      rw (e, recv_burst) (documented.received s d.port_id d.queue_id (min n 65535))

  rtc_port_sends :
      (documented : IsNic nic) (st : State R) (s : N) (tx : List Mbuf)
      → d.state ≡ st
      → ((rtc_port.send_burst s tx).0 ≤ length tx)
        × (documented.taken (rtc_port.send_burst s tx).1
            ≡ documented.taken s + (rtc_port.send_burst s tx).0)
  unfolding send_burst send_pipeline
  rtc_port_sends documented State.inactive s tx e = rw (e, send_burst) (omega arith)
  rtc_port_sends documented (State.pipeline_state p) s [] e = rw (e, send_burst) (omega arith)
  rtc_port_sends documented (State.pipeline_state p) s (m ∷ tx) e = rw (e, send_burst) (omega arith)
  rtc_port_sends documented State.rtc_state s tx e =
      let given = take (min (length tx) 65535) tx in
      let within = documented.within s d.port_id d.queue_id given in
      let sent = documented.sent s d.port_id d.queue_id given in
      let short = length-take-le (min (length tx) 65535) tx in
      let few : min (length tx) 65535 ≤ length tx = ground arith in
      rw (e, send_burst) (omega (arith, within, short, few), sent)

  -- The worker's port keeps what the loop relies on, if the device does.
  pub rtc_port-IsPort : IsNic nic → IsPort rtc_port
  rtc_port-IsPort documented = record {
    taken = documented.taken;
    receives = λ s n. rtc_port_receives documented d.state s n refl;
    within = λ s tx. (rtc_port_sends documented d.state s tx refl).0;
    sends = λ s tx. (rtc_port_sends documented d.state s tx refl).1;
  }
