-- ===== src/Session/Index.antt =====
-- A map from keys to addresses as an index of the objects on a heap, as `forward_` and `reverse_`
-- are of the sessions.
use violet_gw.Prelude.{
  ℕ, none, some, ◌≡◌, arith, ◌==◌, Map, Eq, nat_eq, lookup, insert, erase, lookup-insert,
  lookup-erase, Bool-cases, inl, inr, ap,
}

module _ {ℓ κ} {K : Type ℓ} {V : Type κ} ⦃e : Eq K⦄ where
  -- The index leads from the key of every object to the object, and leads nowhere else.
  pub record Indexes (key : V → K) (heap : Map ℕ V) (m : Map K ℕ) : Type (ℓ ⊔ κ) where
    pub sound :
        (k : K) (a : ℕ) → lookup k m ≡ some a → (v : V) × (lookup a heap ≡ some v) × (key v ≡ k)
    pub complete : (a : ℕ) (v : V) → lookup a heap ≡ some v → lookup (key v) m ≡ some a

module _ {ℓ κ} {K : Type ℓ} {V : Type κ} ⦃e : Eq K⦄ (key : V → K) (heap : Map ℕ V)
    (m : Map K ℕ) where
  pub Indexes-insert :
      (a : ℕ) (v : V)
      → Indexes key heap m
      → lookup a heap ≡ none
      → lookup (key v) m ≡ none
      → Indexes key (insert a v heap) (insert (key v) a m)
  Indexes-insert a v x unused new = record {
    sound = λ k b h. elim (Bool-cases (e.beq (key v) k)) [
      | inl same ↦ (
        v,
        ground (arith, lookup-insert (key v) k a m, lookup-insert a b v heap),
        (e.beq_iff (key v) k).0 same,
      )
      | inr other ↦
          let (w, p, q) = x.sound k b (ground (arith, lookup-insert (key v) k a m)) in
          (w, ground (arith, lookup-insert a b v heap), q)
    ];
    complete = λ b w h. elim (Bool-cases (a == b)) [
      | inl same ↦
          let p : v ≡ w = ground (arith, lookup-insert a b v heap) in
          ground (arith, lookup-insert (key v) (key w) a m, e.beq_iff (key v) (key w), ap key p)
      | inr other ↦
          let p : lookup b heap ≡ some w = ground (arith, lookup-insert a b v heap) in
          ground
            (arith, lookup-insert (key v) (key w) a m, e.beq_iff (key v) (key w), x.complete b w p)
    ];
  }

  pub Indexes-erase :
      (a : ℕ) (v : V)
      → Indexes key heap m
      → lookup a heap ≡ some v
      → Indexes key (erase a heap) (erase (key v) m)
  Indexes-erase a v x held = record {
    sound = λ k b h.
        let h' : lookup k m ≡ some b = ground (arith, lookup-erase (key v) k m) in
        let (w, p, q) = x.sound k b h' in
        (
          w,
          ground (arith, lookup-erase (key v) k m, lookup-erase a b heap, e.beq_iff (key v) k),
          q,
        );
    complete = λ b w h.
        let p : lookup b heap ≡ some w = ground (arith, lookup-erase a b heap) in
        let q = x.complete b w p in
        let r = x.complete a v held in
        ground
          (arith, lookup-erase (key v) (key w) m, lookup-erase a b heap, e.beq_iff (key v) (key w));
  }

  -- A write to an object that keeps its key.
  pub Indexes-update :
      (a : ℕ) (v w : V)
      → Indexes key heap m
      → lookup a heap ≡ some v
      → key w ≡ key v
      → Indexes key (insert a w heap) m
  Indexes-update a v w x held same = record {
    sound = λ k b h. elim (Bool-cases (a == b)) [
      | inl here ↦
          let (u, p, q) = x.sound k b h in
          (w, ground (arith, lookup-insert a b w heap), ground arith)
      | inr other ↦
          let (u, p, q) = x.sound k b h in (u, ground (arith, lookup-insert a b w heap), q)
    ];
    complete = λ b u h. elim (Bool-cases (a == b)) [
      | inl here ↦
          let p = x.complete a v held in
          let q : w ≡ u = ground (arith, lookup-insert a b w heap) in ground arith
      | inr other ↦ x.complete b u (ground (arith, lookup-insert a b w heap))
    ];
  }
