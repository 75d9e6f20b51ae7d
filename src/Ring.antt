-- ===== src/Ring.antt =====
-- `Ring` of base/ring.hpp over the ring of DPDK, whose two burst operations and creation are
-- parameters, with what DPDK documents of them. `R` is the state of a ring.
pub mod Laws
use violet_gw.Prelude.{
  ℕ, Bool, Option, none, some, List, ◌++◌, [], ◌≡◌, ◌+◌, ◌-◌, ◌≤◌, leb, if◌then◌else◌, length, take,
  drop,
}
use violet_gw.Dpdk.{Mbuf}

abbrev pub min : ℕ → ℕ → ℕ
min a b = if leb a b then a else b

-- `enqueue_burst` gives the number of packets taken and the free space after it, `dequeue_burst` the
-- packets and the number of entries that remain.
pub record RteRing (R : Type 0) : Type 0 where
  pub create : ℕ → Option R
  pub enqueue_burst : R → List Mbuf → ℕ × ℕ × R
  pub dequeue_burst : R → ℕ → List Mbuf × ℕ × R

-- The documentation: a queue of at most `count - 1` entries, of which a burst takes what it can.
pub record IsRteRing {R : Type 0} (rte : RteRing R) : Type 0 where
  pub items : R → List Mbuf
  pub free : R → ℕ
  pub create_items : (count : ℕ) (r : R) → rte.create count ≡ some r → items r ≡ []
  pub create_free : (count : ℕ) (r : R) → rte.create count ≡ some r → free r ≡ count - 1
  pub taken : (r : R) (xs : List Mbuf) → (rte.enqueue_burst r xs).0 ≡ min (length xs) (free r)
  pub enqueued :
      (r : R) (xs : List Mbuf)
      → items (rte.enqueue_burst r xs).2 ≡ items r ++ take (rte.enqueue_burst r xs).0 xs
  pub enqueue_free :
      (r : R) (xs : List Mbuf)
      → free (rte.enqueue_burst r xs).2 + (rte.enqueue_burst r xs).0 ≡ free r
  pub free_space :
      (r : R) (xs : List Mbuf) → (rte.enqueue_burst r xs).1 ≡ free (rte.enqueue_burst r xs).2
  pub dequeued : (r : R) (n : ℕ) → (rte.dequeue_burst r n).0 ≡ take n (items r)
  pub remaining : (r : R) (n : ℕ) → items (rte.dequeue_burst r n).2 ≡ drop n (items r)
  pub dequeue_free :
      (r : R) (n : ℕ) → free (rte.dequeue_burst r n).2 ≡ free r + length (rte.dequeue_burst r n).0
  pub available :
      (r : R) (n : ℕ) → (rte.dequeue_burst r n).1 ≡ length (items (rte.dequeue_burst r n).2)

pub record Ring (R : Type 0) : Type 0 where
  pub ring : R
  pub free_space : ℕ

module _ {R : Type 0} (rte : RteRing R) where
  unfoldable pub push_burst : Ring R → List Mbuf → ℕ × Ring R
  push_burst r eles =
      let (nb_en, free, ring) = rte.enqueue_burst r.ring eles in
      (nb_en, record { ring = ring; free_space = free })

  -- The last argument of `rte_ring_dequeue_burst` gets the entries that remain.
  unfoldable pub pop_burst : Ring R → ℕ → List Mbuf × Ring R
  pop_burst r size =
      let (eles, available, ring) = rte.dequeue_burst r.ring size in
      (eles, record { ring = ring; free_space = available })

  -- `none` is the exit of the program.
  unfoldable pub make_ring : ℕ → Option (Ring R)
  make_ring count = elim (rte.create count) [
    | none ↦ none
    | some ring ↦ some (record { ring = ring; free_space = count })
  ]

  abbrev pub free_size : Ring R → ℕ
  free_size r = r.free_space
