-- ===== src/Tests/Sessions.antt =====
-- Runs of the session table.
use violet_gw.Prelude.{
  ℕ, Option, none, some, ◌≡◌, ◌≢◌, refl, arith, ◌<◌, ◌≤◌, ◌↔◌, true, false, Bool-cases, inl, inr,
  ◌==◌,
}
use violet_gw.Prelude
use violet_gw.Session
use violet_gw.Session.{
  SessionTable, init, lookup_forward, lookup_reverse, create, expire, alloc_snat_port,
}
use violet_gw.Session.Key.{flow_key_eq, flow_key_beq, flow_key_beq_iff}
use violet_gw.Session.Invariant.{IsValid, init-IsValid}
use violet_gw.Session.Keeps.{create-IsValid}
use violet_gw.Session.Expiry.{Expires, expire-Expires}
use violet_gw.Session.Lookups.{
  Creates, Step, Reach, create-Creates, create-eq-none, init-Reach-IsValid,
}
use violet_gw.Tests.{flow, gateway_ip, upstream_ip}

-- A new table over two ports, and the same with one session.
abbrev new_table : SessionTable
new_table = init gateway_ip 1000 20000 20002

abbrev one_session : SessionTable
one_session = (create flow upstream_ip 53 7 new_table).1

new_table-IsValid : IsValid new_table
new_table-IsValid =
    init-IsValid gateway_ip 1000 20000 20002 (omega arith) (omega arith) (omega arith)

no_flow : lookup_forward flow new_table ≡ none
unfolding lookup_forward init Prelude.lookup
no_flow = refl

one_session-IsValid : IsValid one_session
one_session-IsValid = create-IsValid flow upstream_ip 53 7 new_table new_table-IsValid no_flow

made : create flow upstream_ip 53 7 new_table ≡ (some 0, one_session)
unfolding create init alloc_snat_port Session.alloc_from Session.scan_ports Session.snat_tries
made = refl

flow_key_beq_iff_example : (flow_key_beq flow flow ≡ true) ↔ (flow ≡ flow)
flow_key_beq_iff_example = flow_key_beq_iff flow flow

expire-Expires_example : Expires 2000 0 one_session (expire 2000 one_session)
expire-Expires_example = expire-Expires 2000 one_session one_session-IsValid

create-Creates_example : Creates flow upstream_ip 53 7 new_table 0 one_session
create-Creates_example =
    create-Creates flow upstream_ip 53 7 new_table 0 one_session new_table-IsValid no_flow made

create-eq-none_example :
    ((create flow upstream_ip 53 7 new_table).0 ≡ none)
    ↔ ((p : ℕ) → 20000 ≤ p → p < 20002 → new_table.port_in_use p ≡ true)
unfolding init
create-eq-none_example = create-eq-none flow upstream_ip 53 7 new_table new_table-IsValid no_flow

-- A session is made, used and dropped.
history : Reach new_table ((expire 2000 one_session).1)
history =
    Reach.next (Reach.next Reach.here (Step.creates flow upstream_ip 53 7 no_flow))
      (Step.expires 2000)

init-Reach-IsValid_example : IsValid ((expire 2000 one_session).1)
init-Reach-IsValid_example =
    init-Reach-IsValid gateway_ip 1000 20000 20002 ((expire 2000 one_session).1) (omega arith)
      (omega arith) (omega arith) history
