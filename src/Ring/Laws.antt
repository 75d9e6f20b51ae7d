-- ===== src/Ring/Laws.antt =====
-- What the counter of `Ring` in base/ring.hpp shows, against the ring below it.
use violet_gw.Prelude.{ℕ, List, ◌≡◌, ap, ◌∙◌, ◌+◌, ◌-◌, length, length-drop}
use violet_gw.Dpdk.{Mbuf}
use violet_gw.Ring.{RteRing, IsRteRing, Ring, push_burst, pop_burst, free_size}

module _ {R : Type 0} (rte : RteRing R) (law : IsRteRing rte) where
  -- After a push `free_size` is the free space of the ring; after a pop it is the number of entries
  -- that remain, and the free space is by the popped packets larger than before.
  pub free_size-pop_burst :
      (r : Ring R) (eles : List Mbuf) (size : ℕ)
      → (free_size rte (push_burst rte r eles).1 ≡ law.free (push_burst rte r eles).1.ring)
        × (free_size rte (pop_burst rte r size).1 ≡ length (law.items r.ring) - size)
        × (law.free (pop_burst rte r size).1.ring
            ≡ law.free r.ring + length (pop_burst rte r size).0)
  unfolding push_burst pop_burst
  free_size-pop_burst r eles size = (
    law.free_space r.ring eles,
    law.available r.ring size
        ∙ ap length (law.remaining r.ring size)
        ∙ length-drop size (law.items r.ring),
    law.dequeue_free r.ring size,
  )
