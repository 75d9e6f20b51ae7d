-- ===== src/Gateway/Loop/Waiting.antt =====
-- The packets that wait in all the queues of vgw.cpp together.
use violet_gw.Prelude.{
  ℕ, none, List, [], ◌∷◌, ◌≡◌, refl, arith, ◌+◌, ◌==◌, length, Map, Distinct, lookup, insert, erase,
  nat_eq, insert-Distinct, erase-Distinct, Bool-cases, inl, inr, subst,
}
use violet_gw.Dpdk.{Dpdk}
use violet_gw.Forward.Types.{ForwardConfig}
use violet_gw.Session.Invariant.{IsValid}
use violet_gw.Gateway.{ArpPendingEntry, VioletGw, as_queue, put_back}

-- The packets in all queues.
abbrev pub waiting : Map ℕ (List ArpPendingEntry) → ℕ
waiting [] = 0
waiting ((ip, q) ∷ m) = length q + waiting m

-- The session table is valid and the queues stand under different addresses.
pub record Fit (gw : VioletGw) : Type 0 where
  pub sessions : IsValid gw.world.sessions
  pub queues : Distinct gw.arp_pending

pub waiting-insert :
    (ip : ℕ) (q : List ArpPendingEntry) (m : Map ℕ (List ArpPendingEntry))
    → waiting (insert ip q m) + length (as_queue (lookup ip m)) ≡ waiting m + length q
unfolding insert lookup
waiting-insert ip q [] = omega arith
waiting-insert ip q ((j, r) ∷ m) = elim (Bool-cases (j == ip)) [
  | inl same ↦ rw same (omega arith)
  | inr other ↦ rw other (omega (arith, waiting-insert ip q m))
]

waiting-erase-none :
    (ip : ℕ) (m : Map ℕ (List ArpPendingEntry))
    → lookup ip m ≡ none
    → waiting (erase ip m) ≡ waiting m
unfolding erase lookup
waiting-erase-none ip [] h = refl
waiting-erase-none ip ((j, r) ∷ m) h = elim (Bool-cases (j == ip)) [
  | inl same ↦ cc (rw same at h)
  | inr other ↦ rw other (omega (arith, waiting-erase-none ip m (rw other at h)))
]

pub waiting-erase :
    (ip : ℕ) (m : Map ℕ (List ArpPendingEntry))
    → Distinct m
    → waiting (erase ip m) + length (as_queue (lookup ip m)) ≡ waiting m
unfolding erase lookup
waiting-erase ip [] d = refl
waiting-erase ip ((j, r) ∷ m) d = elim (Bool-cases (j == ip)) [
  | inl same ↦
      let e : j ≡ ip = ground arith in
      let gone : lookup ip m ≡ none = subst (λ k. lookup k m ≡ none) e d.0 in
      rw same (omega (arith, waiting-erase-none ip m gone))
  | inr other ↦ rw other (omega (arith, waiting-erase ip m d.1))
]

module _ (dpdk : Dpdk) (cfg : ForwardConfig) where
  pub waiting-put_back :
      (ip : ℕ) (q : List ArpPendingEntry) (m : Map ℕ (List ArpPendingEntry))
      → Distinct m
      → waiting (put_back dpdk cfg ip q m) + length (as_queue (lookup ip m)) ≡ waiting m + length q
  waiting-put_back ip [] m d = omega (arith, waiting-erase ip m d)
  waiting-put_back ip (e ∷ q) m d = waiting-insert ip (e ∷ q) m

  pub put_back-Distinct :
      (ip : ℕ) (q : List ArpPendingEntry) (m : Map ℕ (List ArpPendingEntry))
      → Distinct m
      → Distinct (put_back dpdk cfg ip q m)
  put_back-Distinct ip [] m d = erase-Distinct ip m d
  put_back-Distinct ip (e ∷ q) m d = insert-Distinct ip (e ∷ q) m d
