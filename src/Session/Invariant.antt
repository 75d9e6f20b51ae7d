-- ===== src/Session/Invariant.antt =====
-- The well-formedness of the session table, and the vector of its sessions.
use violet_gw.Prelude.{
  ℕ, Bool, true, false, none, some, List, [], ◌∷◌, ◌++◌, ◌≡◌, arith, ◌==◌, ◌<◌, ◌≤◌, ◌+◌,
  if◌then◌else◌, Map, nat_eq, lookup, insert, erase, lookup-insert, lookup-erase, u16_mod, contains,
  contains-append, Once, Once-append_one, Bool-cases, Option-cases, inl, inr,
}
use violet_gw.Session.{Session, SessionTable, init, remove_first}
use violet_gw.Session.Key.{flow_key_eq}
use violet_gw.Session.Pool.{PortsValid}
use violet_gw.Session.Index.{Indexes}

-- The pointer `a` is to the session `o`.
abbrev pub Holds : SessionTable → ℕ → Session → Type 0
Holds t a o = lookup a t.heap ≡ some o

-- The vector `sessions_` lists the live sessions, each once, below the next address.
pub record Lists (heap : Map ℕ Session) (fresh : ℕ) (xs : List ℕ) : Type 0 where
  pub stored : (a : ℕ) → contains a xs ≡ true → (o : Session) × (lookup a heap ≡ some o)
  pub listed : (a : ℕ) (o : Session) → lookup a heap ≡ some o → contains a xs ≡ true
  pub below : (a : ℕ) (o : Session) → lookup a heap ≡ some o → a < fresh
  pub once : Once xs

-- The fields of a session agree with its two keys, as `create` fills them in.
pub record Shaped (gateway : ℕ) (o : Session) : Type 0 where
  pub reverse : o.reverse_key ≡ record {
    src_ip = o.upstream_ip;
    dst_ip = gateway;
    src_port = o.upstream_port;
    dst_port = o.snat_port;
    proto = o.forward_key.proto;
  }
  pub client : (o.client_ip ≡ o.forward_key.src_ip) × (o.client_port ≡ o.forward_key.src_port)
  pub vip : (o.vip_ip ≡ o.forward_key.dst_ip) × (o.vip_port ≡ o.forward_key.dst_port)

-- Each live session has a SNAT port of the range for itself, which its reverse key names, and each
-- port in use has a session.
pub record Owns (gateway lo hi : ℕ) (used : ℕ → Bool) (heap : Map ℕ Session) : Type 0 where
  pub in_range :
      (a : ℕ) (o : Session) → lookup a heap ≡ some o → (lo ≤ o.snat_port) × (o.snat_port < hi)
  pub in_use : (a : ℕ) (o : Session) → lookup a heap ≡ some o → used o.snat_port ≡ true
  pub named : (a : ℕ) (o : Session) → lookup a heap ≡ some o → Shaped gateway o
  pub alone :
      (a b : ℕ) (o p : Session)
      → lookup a heap ≡ some o
      → lookup b heap ≡ some p
      → o.snat_port ≡ p.snat_port
      → a ≡ b
  pub owned :
      (p : ℕ)
      → lo ≤ p
      → p < hi
      → used p ≡ true
      → (a : ℕ) × (o : Session) × (lookup a heap ≡ some o) × (o.snat_port ≡ p)

pub record IsValid (t : SessionTable) : Type 0 where
  pub ports : PortsValid t
  pub vector : Lists t.heap t.fresh t.sessions
  pub snat : Owns t.gateway_ip t.snat_begin t.snat_end t.port_in_use t.heap
  pub by_forward : Indexes (λ o. o.forward_key) t.heap t.forward
  pub by_reverse : Indexes (λ o. o.reverse_key) t.heap t.reverse

-- A table over a proper range of ports begins valid.
pub init-IsValid :
    (gateway_ip idle_timeout_ms lo hi : ℕ)
    → 0 < lo
    → lo < hi
    → hi < u16_mod
    → IsValid (init gateway_ip idle_timeout_ms lo hi)
unfolding init lookup
init-IsValid gateway_ip idle_timeout_ms lo hi h k l = record {
  ports = ground arith;
  vector = record { stored = λ a c. cc; listed = λ a o c. cc; below = λ a o c. cc; once = tt };
  snat = record {
    in_range = λ a o c. cc;
    in_use = λ a o c. cc;
    named = λ a o c. cc;
    alone = λ a b o p c d e. cc;
    owned = λ p q r u. cc;
  };
  by_forward = record { sound = λ k a c. cc; complete = λ a o c. cc };
  by_reverse = record { sound = λ k a c. cc; complete = λ a o c. cc };
}

module _ (heap : Map ℕ Session) (fresh : ℕ) (xs : List ℕ) (l : Lists heap fresh xs) where
  pub Lists-fresh : lookup fresh heap ≡ none
  Lists-fresh = elim (Option-cases (lookup fresh heap)) [
    | inl e ↦ e
    | inr (o, e) ↦ absurd (omega (arith, l.below fresh o e))
  ]

  pub Lists-insert : (o : Session) → Lists (insert fresh o heap) (fresh + 1) (xs ++ fresh ∷ [])
  Lists-insert o = record {
    stored = λ a c. elim (Bool-cases (fresh == a)) [
      | inl same ↦ (o, ground (arith, lookup-insert fresh a o heap))
      | inr other ↦
          let (p, e) = l.stored a (ground (arith, contains-append a xs (fresh ∷ []))) in
          (p, ground (arith, lookup-insert fresh a o heap))
    ];
    listed = λ a p e.
        ground
          (arith, contains-append a xs (fresh ∷ []), lookup-insert fresh a o heap, l.listed a p);
    below = λ a p e. ground (arith, lookup-insert fresh a o heap, l.below a p);
    once =
        Once-append_one xs fresh
          (elim (Bool-cases (contains fresh xs)) [
            | inl old ↦ absurd (let (p, e) = l.stored fresh old in cc (e, Lists-fresh))
            | inr new ↦ new
          ])
          l.once;
  }

contains-remove_first :
    (a s : ℕ) (xs : List ℕ)
    → Once xs
    → contains a (remove_first s xs) ≡ (if s == a then false else contains a xs)
unfolding remove_first
contains-remove_first a s [] o = ground arith
contains-remove_first a s (x ∷ xs) o = ground (arith, contains-remove_first a s xs o.1)

Once-remove_first : (s : ℕ) (xs : List ℕ) → Once xs → Once (remove_first s xs)
unfolding remove_first
Once-remove_first s [] o = tt
Once-remove_first s (x ∷ xs) o =
    ground (arith, contains-remove_first x s xs o.1, Once-remove_first s xs o.1)

pub Lists-erase :
    (heap : Map ℕ Session) (fresh : ℕ) (xs : List ℕ) (s : ℕ)
    → Lists heap fresh xs
    → Lists (erase s heap) fresh (remove_first s xs)
Lists-erase heap fresh xs s l = record {
  stored = λ a c.
      let (p, e) = l.stored a (ground (arith, contains-remove_first a s xs l.once)) in
      (p, ground (arith, lookup-erase s a heap, contains-remove_first a s xs l.once));
  listed = λ a p e.
      ground (arith, contains-remove_first a s xs l.once, lookup-erase s a heap, l.listed a p);
  below = λ a p e. ground (arith, lookup-erase s a heap, l.below a p);
  once = Once-remove_first s xs l.once;
}

pub Lists-update :
    (heap : Map ℕ Session) (fresh : ℕ) (xs : List ℕ) (s : ℕ) (u v : Session)
    → Lists heap fresh xs
    → lookup s heap ≡ some u
    → Lists (insert s v heap) fresh xs
Lists-update heap fresh xs s u v l held = record {
  stored = λ a c. elim (Bool-cases (s == a)) [
    | inl same ↦ (v, ground (arith, lookup-insert s a v heap))
    | inr other ↦ let (p, e) = l.stored a c in (p, ground (arith, lookup-insert s a v heap))
  ];
  listed = λ a p e. ground (arith, lookup-insert s a v heap, l.listed a p, l.listed s u);
  below = λ a p e. ground (arith, lookup-insert s a v heap, l.below a p, l.below s u);
  once = l.once;
}
