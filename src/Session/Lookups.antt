-- ===== src/Session/Lookups.antt =====
-- What the callers of the session table see, along any history of calls.
use violet_gw.Prelude.{
  ℕ, Bool, true, false, Option, none, some, ◌≡◌, ◌≢◌, refl, sym, arith, ◌<◌, ◌≤◌, ◌↔◌, List, subst,
  Map, nat_eq, lookup, lookup-insert, beq_refl, Bool-cases, Option-cases, inl, inr, ap, not,
  u16_mod, Eq, when, ◌∙◌, if◌then◌else◌,
}
use violet_gw.Session.{
  Session, SessionTable, init, lookup_forward, lookup_reverse, deref, touch, new_session, install,
  create, is_idle, expire,
}
use violet_gw.Session.Key.{FlowKey, flow_key_eq}
use violet_gw.Session.Index.{Indexes}
use violet_gw.Session.Invariant.{IsValid, Lists-fresh, init-IsValid}
use violet_gw.Session.Keeps.{touch-IsValid, made, extended, create-cases, create-IsValid}
use violet_gw.Session.Expiry.{expire-Expires}

-- The session of a flow from a client to the VIP over the port `snat`, used last at `now_ms`.
abbrev pub session_for : ℕ → FlowKey → ℕ → ℕ → ℕ → ℕ → Session
session_for gateway_ip key upstream_ip upstream_port now_ms snat = record {
  forward_key = key;
  reverse_key = record {
    src_ip = upstream_ip;
    dst_ip = gateway_ip;
    src_port = upstream_port;
    dst_port = snat;
    proto = key.proto;
  };
  client_ip = key.src_ip;
  client_port = key.src_port;
  vip_ip = key.dst_ip;
  vip_port = key.dst_port;
  upstream_ip = upstream_ip;
  upstream_port = upstream_port;
  snat_port = snat;
  last_active_ms = now_ms;
}

-- The session made by a successful `create`, and what its caller can rely on.
pub record Creates (key : FlowKey) (upstream_ip upstream_port now_ms : ℕ) (t : SessionTable) (s : ℕ)
    (t' : SessionTable) : Type 0 where
  pub port : ℕ
  pub in_range : (t.snat_begin ≤ port) × (port < t.snat_end)
  pub unused : t.port_in_use port ≡ false
  pub held : deref t' s ≡ some (session_for t.gateway_ip key upstream_ip upstream_port now_ms port)
  pub by_forward : lookup_forward key t' ≡ some s
  pub by_reverse :
      lookup_reverse
        (session_for t.gateway_ip key upstream_ip upstream_port now_ms port).reverse_key
        t'
      ≡ some s
  pub others : (a : ℕ) (o : Session) → deref t a ≡ some o → (deref t' a ≡ some o) × (a ≢ s)
  pub other_keys : (k : FlowKey) → k ≢ key → lookup_forward k t' ≡ lookup_forward k t
  pub other_reverse :
      (k : FlowKey)
      → k ≢ (session_for t.gateway_ip key upstream_ip upstream_port now_ms port).reverse_key
      → lookup_reverse k t' ≡ lookup_reverse k t
  pub others_only : (a : ℕ) → a ≢ s → deref t' a ≡ deref t a
  pub valid : IsValid t'

module _ (key : FlowKey) (upstream_ip_be upstream_port now_ms : ℕ) (t : SessionTable) where
  pub deref-extended :
      (p next : ℕ) (free : List ℕ)
      → deref (extended key upstream_ip_be upstream_port now_ms t p next free) t.fresh
        ≡ some (made key upstream_ip_be upstream_port now_ms t p)
  unfolding install deref
  deref-extended p next free = rw (lookup-insert, beq_refl t.fresh) refl

  extended-Creates :
      (p next : ℕ) (free : List ℕ)
      → IsValid t
      → t.snat_begin ≤ p
      → p < t.snat_end
      → t.port_in_use p ≡ false
      → IsValid (extended key upstream_ip_be upstream_port now_ms t p next free)
      → Creates key upstream_ip_be upstream_port now_ms t t.fresh
          (extended key upstream_ip_be upstream_port now_ms t p next free)
  unfolding install new_session lookup_forward lookup_reverse deref
  extended-Creates p next free v low high u w =
      let o = made key upstream_ip_be upstream_port now_ms t p in
      let unused = Lists-fresh t.heap t.fresh t.sessions v.vector in
      record {
        port = p;
        in_range = (low, high);
        unused = u;
        held = rw (lookup-insert, beq_refl t.fresh) refl;
        by_forward = rw (lookup-insert, beq_refl key) refl;
        by_reverse = rw (lookup-insert, beq_refl o.reverse_key) refl;
        others = λ a q e. (ground (arith, lookup-insert t.fresh a o t.heap), λ same. ground arith);
        other_keys = λ k ne.
            ground
              (arith, lookup-insert o.forward_key k t.fresh t.forward, flow_key_eq.beq_iff key k);
        other_reverse = λ k ne. ground (
          arith,
          lookup-insert o.reverse_key k t.fresh t.reverse,
          flow_key_eq.beq_iff o.reverse_key k,
        );
        others_only = λ a ne. ground (arith, lookup-insert t.fresh a o t.heap);
        valid = w;
      }

  -- A successful `create` on a valid table, for a key without a session, gives a new session, with the
  -- values of the call, under a port of the range that no session used; both of its keys lead to it,
  -- every other session, forward key and reverse key is as before, and the table is valid.
  pub create-Creates :
      (s : ℕ) (t' : SessionTable)
      → IsValid t
      → lookup_forward key t ≡ none
      → create key upstream_ip_be upstream_port now_ms t ≡ (some s, t')
      → Creates key upstream_ip_be upstream_port now_ms t s t'
  create-Creates s t' v new made_it =
      elim (create-cases key upstream_ip_be upstream_port now_ms t v new) [
        | inl (p, next, free, e, low, high, u, w) ↦
            let x = extended-Creates p next free v low high u w in
            let q : t.fresh ≡ s = cc (e, made_it) in
            let r : extended key upstream_ip_be upstream_port now_ms t p next free ≡ t' =
              cc (e, made_it) in
            subst (λ a. Creates key upstream_ip_be upstream_port now_ms t a t') q
              (subst (λ u. Creates key upstream_ip_be upstream_port now_ms t t.fresh u) r x)
        | inr (next, e, all, w) ↦ cc (e, made_it)
      ]

  -- `create` on a valid table, for a key without a session, gives none exactly when every port of the
  -- range is in use.
  pub create-eq-none :
      IsValid t
      → lookup_forward key t ≡ none
      → ((create key upstream_ip_be upstream_port now_ms t).0 ≡ none)
        ↔ ((p : ℕ) → t.snat_begin ≤ p → p < t.snat_end → t.port_in_use p ≡ true)
  create-eq-none v new = elim (create-cases key upstream_ip_be upstream_port now_ms t v new) [
    | inl (p, next, free, e, low, high, u, w) ↦
        ((λ h. cc (ap (λ (r : Option ℕ × SessionTable). r.0) e)), λ all. cc (u, all p low high))
    | inr (next, e, all, w) ↦ ((λ h. all), λ h. ap (λ (r : Option ℕ × SessionTable). r.0) e)
  ]

-- A pointer, if the object that it leads to passes the test.
abbrev pub through : (Session → Bool) → Map ℕ Session → Option ℕ → Option ℕ
through p heap none = none
through p heap (some a) = elim (lookup a heap) [
  | none ↦ none
  | some o ↦ if p o then some a else none
]

-- The result of a lookup once the idle sessions are gone.
abbrev pub unless_idle : SessionTable → ℕ → Option ℕ → Option ℕ
unless_idle t now_ms = through (λ o. not (is_idle t now_ms o)) t.heap

when-eq-some {ℓ} :
    {A : Type ℓ} (p : A → Bool) (o : Option A) (a : A)
    → when p o ≡ some a
    → (o ≡ some a) × (p a ≡ true)
when-eq-some p none a h = cc
when-eq-some p (some b) a h = elim (Bool-cases (p b)) [
  | inl keeps ↦ let q : b ≡ a = cc (rw keeps at h) in (ap some q, subst (λ c. p c ≡ true) q keeps)
  | inr drops ↦ cc (rw drops at h)
]

-- The calls of the gateway on its table: a session is created only where the lookup has missed.
pub data Step (t : SessionTable) : SessionTable → Type 0 where
  touches : (s now_ms : ℕ) → Step t (touch s now_ms t)
  creates :
      (key : FlowKey) (upstream_ip_be upstream_port now_ms : ℕ)
      → lookup_forward key t ≡ none
      → Step t ((create key upstream_ip_be upstream_port now_ms t).1)
  expires : (now_ms : ℕ) → Step t ((expire now_ms t).1)

pub data Reach (t : SessionTable) : SessionTable → Type 0 where
  here : Reach t t
  next : {u w : SessionTable} → Reach t u → Step u w → Reach t w

Step-IsValid : {t u : SessionTable} → Step t u → IsValid t → IsValid u
Step-IsValid {t} (touches s now_ms) v = touch-IsValid s now_ms t v
Step-IsValid {t} (creates key ip port now_ms new) v = create-IsValid key ip port now_ms t v new
Step-IsValid {t} (expires now_ms) v = (expire-Expires now_ms t v).valid

Reach-IsValid : {t u : SessionTable} → IsValid t → Reach t u → IsValid u
Reach-IsValid v here = v
Reach-IsValid v (next r s) = Step-IsValid s (Reach-IsValid v r)

-- Whatever calls of `touch`, of `expire`, and of `create` for a key that has no session then, are made on
-- a new table over a proper range of ports, the table stays valid: both maps index exactly the live
-- sessions, no two of which share a SNAT port.
pub init-Reach-IsValid :
    (gateway_ip idle_timeout_ms lo hi : ℕ) (t : SessionTable)
    → 0 < lo
    → lo < hi
    → hi < u16_mod
    → Reach (init gateway_ip idle_timeout_ms lo hi) t
    → IsValid t
init-Reach-IsValid gateway_ip idle_timeout_ms lo hi t h k l =
    Reach-IsValid (init-IsValid gateway_ip idle_timeout_ms lo hi h k l)

-- An index of the objects that a test keeps, against the index of all.
Indexes-kept :
    {K : Type 0} ⦃e : Eq K⦄ (key : Session → K) (p : Session → Bool) (heap heap' : Map ℕ Session)
    (m m' : Map K ℕ)
    → Indexes key heap m
    → Indexes key heap' m'
    → ((a : ℕ) → lookup a heap' ≡ when p (lookup a heap))
    → (k : K) → lookup k m' ≡ through p heap (lookup k m)
Indexes-kept key p heap heap' m m' x x' kept k = elim (Option-cases (lookup k m')) [
  | inl gone ↦ elim (Option-cases (lookup k m)) [
    | inl e ↦ rw (gone, e) refl
    | inr (a, e) ↦
        let (v, held, same) = x.sound k a e in
        elim (Bool-cases (p v)) [
          | inl stays ↦
              let held' : lookup a heap' ≡ some v = rw (kept a, held) (rw stays refl) in
              cc (gone, subst (λ j. lookup j m' ≡ some a) same (x'.complete a v held'))
          | inr goes ↦ rw (gone, e) (rw (held, through) (rw goes refl))
        ]
  ]
  | inr (a, found) ↦
      let (v, held', same) = x'.sound k a found in
      let (held, stays) = when-eq-some p (lookup a heap) v (sym (kept a) ∙ held') in
      rw (found, subst (λ j. lookup j m ≡ some a) same (x.complete a v held))
        (rw (held, through) (rw stays refl))
]

-- After `expire` on a valid table, both lookups lead to the session they led to before, if that one is not idle, and
-- nowhere otherwise.
lookups-expire :
    (key : FlowKey) (now_ms : ℕ) (t : SessionTable)
    → IsValid t
    → (lookup_forward key ((expire now_ms t).1) ≡ unless_idle t now_ms (lookup_forward key t))
      × (lookup_reverse key ((expire now_ms t).1) ≡ unless_idle t now_ms (lookup_reverse key t))
unfolding lookup_forward lookup_reverse
lookups-expire key now_ms t v =
    let x = expire-Expires now_ms t v in
    let t' = (expire now_ms t).1 in
    let p = λ (o : Session). not (is_idle t now_ms o) in
    (
      Indexes-kept (λ o. o.forward_key) p t.heap t'.heap t.forward t'.forward v.by_forward
          x.valid.by_forward x.kept key,
      Indexes-kept (λ o. o.reverse_key) p t.heap t'.heap t.reverse t'.reverse v.by_reverse
          x.valid.by_reverse x.kept key,
    )
