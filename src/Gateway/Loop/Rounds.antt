-- ===== src/Gateway/Loop/Rounds.antt =====
-- The timers of a round of `VioletGW::run`: what they keep, and the sessions that they end.
use violet_gw.Prelude.{
  ℕ, false, not, none, List, [], ◌∷◌, ◌≡◌, refl, arith, ◌+◌, ◌==◌, ap, ◌∙◌, length, length-append,
  Map, Distinct, lookup, timed_out, when, nat_eq, if◌then◌else◌, Bool-cases, inl, inr,
}
use violet_gw.Session.{is_idle}
use violet_gw.Session.Invariant.{IsValid}
use violet_gw.Session.Expiry.{expire-Expires}
use violet_gw.Gateway.{
  ArpPendingEntry, VioletGw, expire_queue, expire_queues, expire_pending, expire_sessions,
  expire_neighbors, keep_queue, poll_control,
}
use violet_gw.Gateway.Loop.{
  Timers, run_timers, sessions_timer, arp_timer, cp_timer, session_expire_interval_ms,
  arp_expire_interval_ms, cp_poll_interval_ms,
}
use violet_gw.Gateway.Loop.Waiting.{waiting, Fit}

expire_queue-length :
    (now : ℕ) (q : List ArpPendingEntry)
    → length (expire_queue now q).0 + length (expire_queue now q).1 ≡ length q
unfolding expire_queue
expire_queue-length now [] = refl
expire_queue-length now (e ∷ q) = ground (arith, expire_queue-length now q)

keep_queue-waiting :
    (ip : ℕ) (q : List ArpPendingEntry) (m : Map ℕ (List ArpPendingEntry))
    → waiting (keep_queue ip q m) ≡ length q + waiting m
keep_queue-waiting ip [] m = omega arith
keep_queue-waiting ip (e ∷ q) m = refl

expire_queues-waiting :
    (now : ℕ) (m : Map ℕ (List ArpPendingEntry))
    → waiting (expire_queues now m).0 + length (expire_queues now m).1 ≡ waiting m
unfolding expire_queues
expire_queues-waiting now [] = refl
expire_queues-waiting now ((ip, q) ∷ m) =
    let r = expire_queue now q in
    let w = keep_queue-waiting ip r.0 (expire_queues now m).0 in
    omega (
      arith,
      w,
      expire_queue-length now q,
      expire_queues-waiting now m,
      length-append r.1 (expire_queues now m).1,
    )

keep_queue-lookup :
    (k ip : ℕ) (q : List ArpPendingEntry) (m : Map ℕ (List ArpPendingEntry))
    → (ip == k) ≡ false
    → lookup k m ≡ none
    → lookup k (keep_queue ip q m) ≡ none
unfolding lookup
keep_queue-lookup k ip [] m other h = h
keep_queue-lookup k ip (e ∷ q) m other h = rw other h

expire_queues-lookup :
    (now k : ℕ) (m : Map ℕ (List ArpPendingEntry))
    → lookup k m ≡ none
    → lookup k (expire_queues now m).0 ≡ none
unfolding expire_queues lookup
expire_queues-lookup now k [] h = refl
expire_queues-lookup now k ((ip, q) ∷ m) h = elim (Bool-cases (ip == k)) [
  | inl same ↦ cc (rw same at h)
  | inr other ↦
      keep_queue-lookup k ip (expire_queue now q).0 (expire_queues now m).0 other
        (expire_queues-lookup now k m (rw other at h))
]

keep_queue-Distinct :
    (ip : ℕ) (q : List ArpPendingEntry) (m : Map ℕ (List ArpPendingEntry))
    → lookup ip m ≡ none
    → Distinct m
    → Distinct (keep_queue ip q m)
keep_queue-Distinct ip [] m absent d = d
keep_queue-Distinct ip (e ∷ q) m absent d = (absent, d)

expire_queues-Distinct :
    (now : ℕ) (m : Map ℕ (List ArpPendingEntry)) → Distinct m → Distinct (expire_queues now m).0
unfolding expire_queues
expire_queues-Distinct now [] d = tt
expire_queues-Distinct now ((ip, q) ∷ m) d =
    keep_queue-Distinct ip (expire_queue now q).0 (expire_queues now m).0
      (expire_queues-lookup now ip m d.0) (expire_queues-Distinct now m d.1)

sessions_timer-Fit :
    (now last : ℕ) (gw : VioletGw)
    → Fit gw
    → Fit (sessions_timer now last gw).0
      × ((sessions_timer now last gw).0.arp_pending ≡ gw.arp_pending)
unfolding sessions_timer expire_sessions
sessions_timer-Fit now last gw fit =
    elim (Bool-cases (timed_out session_expire_interval_ms last now)) [
      | inl due ↦ rw due (
        record {
          sessions = (expire-Expires now gw.world.sessions fit.sessions).valid;
          queues = fit.queues;
        },
        refl,
      )
      | inr early ↦ rw early (fit, refl)
    ]

arp_timer-Fit :
    (now last : ℕ) (gw : VioletGw)
    → Fit gw
    → let r = arp_timer now last gw in
      Fit r.0 × (waiting r.0.arp_pending + length r.2 ≡ waiting gw.arp_pending)
unfolding arp_timer expire_neighbors expire_pending
arp_timer-Fit now last gw fit = elim (Bool-cases (timed_out arp_expire_interval_ms last now)) [
  | inl due ↦ rw due (
    record {
      sessions = fit.sessions;
      queues = expire_queues-Distinct now gw.arp_pending fit.queues;
    },
    expire_queues-waiting now gw.arp_pending,
  )
  | inr early ↦ rw early (fit, omega arith)
]

cp_timer-Fit :
    (now last : ℕ) (gw : VioletGw)
    → Fit gw
    → Fit (cp_timer now last gw).0 × ((cp_timer now last gw).0.arp_pending ≡ gw.arp_pending)
unfolding cp_timer poll_control
cp_timer-Fit now last gw fit = elim (Bool-cases (timed_out cp_poll_interval_ms last now)) [
  | inl due ↦ rw due (record { sessions = fit.sessions; queues = fit.queues }, refl)
  | inr early ↦ rw early (fit, refl)
]

-- Whatever timers are due, the session table stays valid and the queues stay apart, and each packet
-- that waited is waiting still or is freed.
pub run_timers-Fit :
    (now : ℕ) (t : Timers) (gw : VioletGw)
    → Fit gw
    → let r = run_timers now t gw in
      Fit r.0 × (waiting r.0.arp_pending + length r.2 ≡ waiting gw.arp_pending)
unfolding run_timers
run_timers-Fit now t gw fit =
    let x = sessions_timer now t.last_expire_ms gw in
    let (fit₁, same₁) = sessions_timer-Fit now t.last_expire_ms gw fit in
    let y = arp_timer now t.last_arp_expire_ms x.0 in
    let (fit₂, kept) = arp_timer-Fit now t.last_arp_expire_ms x.0 fit₁ in
    let (fit₃, same₃) = cp_timer-Fit now t.last_cp_poll_ms y.0 fit₂ in
    (fit₃, omega (arith, ap waiting same₁, ap waiting same₃, kept))

timers-sessions :
    (now last last' : ℕ) (gw : VioletGw)
    → (cp_timer now last' (arp_timer now last gw).0).0.world.sessions ≡ gw.world.sessions
unfolding cp_timer arp_timer poll_control expire_neighbors expire_pending
timers-sessions now last last' gw = ground arith

-- What the timers of a round leave, over a valid session table: where the sessions are due, every second,
-- each address has its session from before, or nothing if that one was idle; where they are not due,
-- the sessions are as before. In both cases each of the three intervals starts again from now, if it
-- was over, and goes on otherwise.
pub run_timers_live :
    (now : ℕ) (t : Timers) (gw : VioletGw) (a : ℕ)
    → IsValid gw.world.sessions
    → let r = run_timers now t gw in
      (lookup a r.0.world.sessions.heap ≡ (
        if timed_out 1000 t.last_expire_ms now
        then when (λ o. not (is_idle gw.world.sessions now o)) (lookup a gw.world.sessions.heap)
        else lookup a gw.world.sessions.heap))
      × (r.1.last_expire_ms
          ≡ (if timed_out 1000 t.last_expire_ms now then now else t.last_expire_ms))
      × (r.1.last_arp_expire_ms
          ≡ (if timed_out 60000 t.last_arp_expire_ms now then now else t.last_arp_expire_ms))
      × (r.1.last_cp_poll_ms
          ≡ (if timed_out 1000 t.last_cp_poll_ms now then now else t.last_cp_poll_ms))
unfolding run_timers sessions_timer arp_timer cp_timer
run_timers_live now t gw a valid =
    let x = sessions_timer now t.last_expire_ms gw in
    let later = timers-sessions now t.last_arp_expire_ms t.last_cp_poll_ms x.0 in
    let kept = (expire-Expires now gw.world.sessions valid).kept a in
    let after = run_timers now t gw in
    let found : lookup a after.0.world.sessions.heap ≡ lookup a x.0.world.sessions.heap =
      ap (λ u. lookup a u.heap) later in
    let here : lookup a x.0.world.sessions.heap ≡ (
        if timed_out 1000 t.last_expire_ms now
        then when (λ o. not (is_idle gw.world.sessions now o)) (lookup a gw.world.sessions.heap)
        else lookup a gw.world.sessions.heap) =
      elim (Bool-cases (timed_out session_expire_interval_ms t.last_expire_ms now)) [
        | inl due ↦ rw due (unfold expire_sessions in kept)
        | inr early ↦ rw early refl
      ] in
    (found ∙ here, ground arith, ground arith, ground arith)
