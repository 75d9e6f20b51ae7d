-- ===== src/Prelude/Words.antt =====
-- Machine integers as native numbers with their wrap-around written out.
use Prim.Native.Nat.{ℕ, ◌+◌, ◌-◌, ◌%◌, ◌≤◌, ◌<◌}
use mathlib.Core.Path.{◌≡◌}
use mathlib.Core.Bool.{Bool}
use native.Mathlib.Omega.{arith}
use violet_gw.Prelude.Tests.{leb}

abbrev pub u16_mod : ℕ
u16_mod = 0x10000

abbrev pub u32_mod : ℕ
u32_mod = 0x1_0000_0000

abbrev pub u64_mod : ℕ
u64_mod = 0x1_0000_0000_0000_0000

-- `a - b` at `uint64_t`.
unfoldable pub sub64 : ℕ → ℕ → ℕ
sub64 a b = (a + u64_mod - b) % u64_mod

-- Between clock readings in order, the difference is the time that has passed.
pub sub64_lem : (a b : ℕ) → a < u64_mod → b ≤ a → sub64 a b ≡ a - b
unfolding sub64
sub64_lem a b h k = omega arith

-- `now - since >= limit` at `uint64_t`, the test of every timeout.
unfoldable pub timed_out : ℕ → ℕ → ℕ → Bool
unfolding sub64
timed_out limit since now = leb limit (sub64 now since)

-- With the clock readings in order, the test is of the time that has passed.
pub timed_out_lem :
    (limit since now : ℕ)
    → since ≤ now
    → now < u64_mod
    → timed_out limit since now ≡ leb limit (now - since)
unfolding timed_out
timed_out_lem limit since now h k = rw (sub64_lem now since k h)
