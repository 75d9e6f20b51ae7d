-- ===== src/Session/Owners.antt =====
-- Who owns the SNAT ports, as sessions come and go.
use violet_gw.Prelude.{
  ℕ, Bool, true, false, none, some, ◌≡◌, arith, ◌==◌, ◌<◌, ◌≤◌, Map, nat_eq, lookup, insert, erase,
  lookup-insert, lookup-erase, Bool-cases, inl, inr, subst,
}
use violet_gw.Session.{Session, set_flag}
use violet_gw.Session.Invariant.{Owns, Shaped}

module _ (gateway lo hi : ℕ) (used : ℕ → Bool) (heap : Map ℕ Session)
    (w : Owns gateway lo hi used heap) where
  named-insert :
      (s : ℕ) (v : Session)
      → Shaped gateway v
      → (a : ℕ) (o : Session) → lookup a (insert s v heap) ≡ some o
      → Shaped gateway o
  named-insert s v shaped a o e = elim (Bool-cases (s == a)) [
    | inl same ↦
        let q : v ≡ o = ground (arith, lookup-insert s a v heap) in
        subst (λ x. Shaped gateway x) q shaped
    | inr other ↦ w.named a o (ground (arith, lookup-insert s a v heap))
  ]

  pub Owns-insert :
      (s : ℕ) (v : Session)
      → lookup s heap ≡ none
      → used v.snat_port ≡ false
      → lo ≤ v.snat_port
      → v.snat_port < hi
      → Shaped gateway v
      → Owns gateway lo hi (set_flag v.snat_port true used) (insert s v heap)
  Owns-insert s v new unused low high shaped = record {
    in_range = λ a o e. ground (arith, lookup-insert s a v heap, w.in_range a o);
    in_use = λ a o e. ground (arith, lookup-insert s a v heap, w.in_use a o);
    named = named-insert s v shaped;
    alone = λ a b o p d e same. ground (
      arith,
      lookup-insert s a v heap,
      lookup-insert s b v heap,
      w.alone a b o p,
      w.in_use a o,
      w.in_use b p,
    );
    owned = λ p h k u. elim (Bool-cases (p == v.snat_port)) [
      | inl here ↦ (s, v, ground (arith, lookup-insert s s v heap), ground arith)
      | inr there ↦
          let (a, o, e, q) = w.owned p h k (ground arith) in
          (a, o, ground (arith, lookup-insert s a v heap), q)
    ];
  }

  pub Owns-erase :
      (s : ℕ) (v : Session)
      → lookup s heap ≡ some v
      → Owns gateway lo hi (set_flag v.snat_port false used) (erase s heap)
  Owns-erase s v held = record {
    in_range = λ a o e. ground (arith, lookup-erase s a heap, w.in_range a o);
    in_use = λ a o e. ground (arith, lookup-erase s a heap, w.in_use a o, w.alone a s o v);
    named = λ a o e. w.named a o (ground (arith, lookup-erase s a heap));
    alone = λ a b o p d e same.
        ground (arith, lookup-erase s a heap, lookup-erase s b heap, w.alone a b o p);
    owned = λ p h k u.
        let (a, o, e, q) = w.owned p h k (ground arith) in
        (a, o, ground (arith, lookup-erase s a heap), q);
  }

  pub Owns-update :
      (s : ℕ) (u v : Session)
      → lookup s heap ≡ some u
      → v.snat_port ≡ u.snat_port
      → Shaped gateway v
      → Owns gateway lo hi used (insert s v heap)
  Owns-update s u v held port shaped = record {
    in_range =
        λ a o e. ground (arith, lookup-insert s a v heap, w.in_range a o, w.in_range s u held);
    in_use = λ a o e. ground (arith, lookup-insert s a v heap, w.in_use a o, w.in_use s u held);
    named = named-insert s v shaped;
    alone = λ a b o p d e same. ground (
      arith,
      lookup-insert s a v heap,
      lookup-insert s b v heap,
      w.alone a b o p,
      w.alone a s o u,
      w.alone s b u p,
    );
    owned = λ p h k q.
        let (a, o, e, r) = w.owned p h k q in
        elim (Bool-cases (s == a)) [
          | inl here ↦ (s, v, ground (arith, lookup-insert s s v heap), ground arith)
          | inr there ↦ (a, o, ground (arith, lookup-insert s a v heap), r)
        ];
  }
