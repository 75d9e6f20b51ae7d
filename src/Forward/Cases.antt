-- ===== src/Forward/Cases.antt =====
-- The ways of a packet through `handle_forward` and `handle_reverse` over a valid session table.
use violet_gw.Prelude.{
  ℕ, Option, none, some, ◌≡◌, ◌⊎◌, inl, inr, refl, arith, ◌==◌, ◌<◌, lookup-insert, beq_refl,
  Option-cases, Bool-cases, nat_eq,
}
use violet_gw.Dpdk.{Dpdk, Mbuf}
use violet_gw.Packet.Layout.{PacketView}
use violet_gw.Session
use violet_gw.Session.{Session, SessionTable, new_session}
use violet_gw.Session.Key.{FlowKey}
use violet_gw.Session.Invariant.{IsValid}
use violet_gw.Session.Keeps.{touch-IsValid, create-cases, made, extended}
use violet_gw.Session.Pool.{moved}
use violet_gw.Session.Lookups.{deref-extended}
use violet_gw.Forward.Types.{Upstream, ForwardConfig, World, Handled}
use violet_gw.Forward.Nat.{flow_key_from_view}
use violet_gw.Forward.{dropped, send_forward, created, picked, forward_miss, handle_forward}

-- A touched session is the same but for its last use.
pub deref-touch :
    (s now_ms : ℕ) (t : SessionTable) (o : Session)
    → Session.deref t s ≡ some o
    → Session.deref (Session.touch s now_ms t) s ≡ some (record o { last_active_ms = now_ms })
unfolding Session.deref Session.touch
deref-touch s now_ms t o e = rw (e, Session.touch) (rw (lookup-insert, beq_refl s) refl)

pub gateway-touch :
    (s now_ms : ℕ) (t : SessionTable) → (Session.touch s now_ms t).gateway_ip ≡ t.gateway_ip
unfolding Session.touch
gateway-touch s now_ms t = ground arith

module _ (dpdk : Dpdk) {P : Type 0} (picker : Option (FlowKey → P → Option Upstream × P))
    (cfg : ForwardConfig) (m : Mbuf) (v : PacketView) (now_ms : ℕ) where
  -- The packet is dropped as it is.
  pub record Drops (w : World P) (h : Option (Handled P)) : Type 0 where
    pub world : World P
    pub result : h ≡ some (dropped dpdk picker cfg m world)
    pub valid : IsValid world.sessions
    pub neighbors : world.neighbors ≡ w.neighbors

  -- The packet goes on over the session `o` for `key`, one that was there or a new one.
  pub record GoesOn (key : FlowKey) (w : World P) (h : Option (Handled P)) : Type 0 where
    pub world : World P
    pub session : ℕ
    pub object : Session
    pub result : h ≡ send_forward dpdk picker cfg v m world session
    pub held : Session.deref world.sessions session ≡ some object
    pub same_key : object.forward_key ≡ key
    pub valid : IsValid world.sessions
    pub neighbors : world.neighbors ≡ w.neighbors
    pub gateway : world.sessions.gateway_ip ≡ w.sessions.gateway_ip
    pub origin :
        ((old : Session) × (Session.deref w.sessions session ≡ some old)
          × (object ≡ record old { last_active_ms = now_ms }))
        ⊎ ((pick : FlowKey → P → Option Upstream × P) × (up : Upstream) × (u : P) × (p : ℕ)
            × (picker ≡ some pick)
            × (pick key w.upstreams ≡ (some up, u))
            × (p < w.sessions.snat_end)
            × (object ≡ new_session w.sessions key up.ip_be up.port now_ms p))

  module _ (key : FlowKey) (w : World P) (ok : IsValid w.sessions)
      (new : Session.lookup_forward key w.sessions ≡ none) where
    created-cases :
        (pick : FlowKey → P → Option Upstream × P) (up : Upstream) (u : P)
        → picker ≡ some pick
        → pick key w.upstreams ≡ (some up, u)
        → let h =
            created dpdk picker cfg v m
              (record w { upstreams = u })
              (Session.create key up.ip_be up.port now_ms w.sessions) in
          Drops w h ⊎ GoesOn key w h
    unfolding created Session.install new_session
    created-cases pick up u is_pick chosen =
        elim (create-cases key up.ip_be up.port now_ms w.sessions ok new) [
          | inl (p, next, free, e, low, high, unused, valid) ↦ inr (record {
            world = record w {
              upstreams = u;
              sessions = extended key up.ip_be up.port now_ms w.sessions p next free;
            };
            session = w.sessions.fresh;
            object = made key up.ip_be up.port now_ms w.sessions p;
            result = rw e refl;
            held = deref-extended key up.ip_be up.port now_ms w.sessions p next free;
            same_key = refl;
            valid = valid;
            neighbors = refl;
            gateway = refl;
            origin = inr (pick, up, u, p, is_pick, chosen, high, refl);
          })
          | inr (next, e, all, valid) ↦ inl (record {
            world = record w { upstreams = u; sessions = moved w.sessions next };
            result = rw e refl;
            valid = valid;
            neighbors = refl;
          })
        ]

    picked-cases :
        (pick : FlowKey → P → Option Upstream × P) (r : Option Upstream × P)
        → picker ≡ some pick
        → pick key w.upstreams ≡ r
        → let h = picked dpdk picker cfg key v m now_ms w r in Drops w h ⊎ GoesOn key w h
    unfolding picked
    picked-cases pick (none, u) is_pick chosen =
        inl (record {
          world = record w { upstreams = u };
          result = refl;
          valid = ok;
          neighbors = refl;
        })
    picked-cases pick (some up, u) is_pick chosen = elim (Bool-cases (up.ip_be == 0)) [
      | inl nowhere ↦ rw nowhere (
          inl (record {
            world = record w { upstreams = u };
            result = refl;
            valid = ok;
            neighbors = refl;
          }))
      | inr there ↦ rw there (created-cases pick up u is_pick chosen)
    ]

    forward_miss-cases :
        (p : Option (FlowKey → P → Option Upstream × P))
        → picker ≡ p
        → let h = forward_miss dpdk picker cfg p key v m now_ms w in Drops w h ⊎ GoesOn key w h
    unfolding forward_miss
    forward_miss-cases none is_pick =
        inl (record { world = w; result = refl; valid = ok; neighbors = refl })
    forward_miss-cases (some pick) is_pick = picked-cases pick (pick key w.upstreams) is_pick refl

  -- `handle_forward` drops the packet or sends it over a session of its flow.
  pub handle_forward-cases :
      (w : World P)
      → IsValid w.sessions
      → Drops w (handle_forward dpdk picker cfg v m now_ms w)
        ⊎ GoesOn (flow_key_from_view dpdk m v) w (handle_forward dpdk picker cfg v m now_ms w)
  unfolding handle_forward
  handle_forward-cases w ok =
      let key = flow_key_from_view dpdk m v in
      elim (Option-cases (Session.lookup_forward key w.sessions)) [
        | inl miss ↦ rw (miss, handle_forward) (forward_miss-cases key w ok miss picker refl)
        | inr (s, hit) ↦
            let (o, held, same) =
              ok.by_forward.sound key s (unfold Session.lookup_forward in hit) in
            rw (hit, handle_forward)
              (inr (record {
                world = record w { sessions = Session.touch s now_ms w.sessions };
                session = s;
                object = record o { last_active_ms = now_ms };
                result = refl;
                held = deref-touch s now_ms w.sessions o (unfold Session.deref in held);
                same_key = same;
                valid = touch-IsValid s now_ms w.sessions ok;
                neighbors = refl;
                gateway = gateway-touch s now_ms w.sessions;
                origin = inl (o, (unfold Session.deref in held), refl);
              }))
      ]
