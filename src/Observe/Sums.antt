-- ===== src/Observe/Sums.antt =====
-- The sum over the CPUs that `sum_percpu` of observe_loop.c makes of the values of a key.
use violet_gw.Prelude.{
  ℕ, zero, suc, some, List, [], ◌∷◌, ◌≡◌, refl, arith, ◌+◌, ◌%◌, ◌<◌, ◌∙◌, replicate, get_elem?,
  set, u64_mod,
}
use violet_gw.Observe.{sum_loop}

pub total : List ℕ → ℕ
total [] = 0
total (v ∷ vs) = v + total vs

pub sum_loop-total :
    (sum : ℕ) (vs : List ℕ) → sum < u64_mod → sum_loop sum vs ≡ (sum + total vs) % u64_mod
unfolding sum_loop total
sum_loop-total sum [] h = omega arith
sum_loop-total sum (v ∷ vs) h = sum_loop-total ((sum + v) % u64_mod) vs (omega arith) ∙ omega arith

pub total-set :
    (vs : List ℕ) (i v w : ℕ) → get_elem? vs i ≡ some v → total (set vs i w) + v ≡ total vs + w
unfolding total
total-set [] i v w h = cc
total-set (x ∷ vs) zero v w h = ground arith
total-set (x ∷ vs) (suc i) v w h = omega (arith, total-set vs i v w h)

pub total-replicate : (n : ℕ) → total (replicate n 0) ≡ 0
unfolding total
total-replicate zero = refl
total-replicate (suc n) = omega (arith, total-replicate n)
