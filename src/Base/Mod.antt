-- ===== src/Base/Mod.antt =====
-- Remainders round a ring.
use native.Mathlib.Decide.{dec_lt}
use native.Mathlib.Nat.{mod-add-mod, mod-eq_of_lt, mod-eq-sub-mod, mod-lt}
use native.Mathlib.Omega.{arith}
use Prim.Native.Nat.{ℕ, ◌+◌, ◌-◌, ◌%◌, ◌<◌}
use mathlib.Core.Logic.{◌≢◌}

ne_below : (r d m : ℕ) → r < m → 0 < d → d < m → (r + d) % m ≢ r
ne_below r d m hr pos hd = elim (dec_lt (r + d) m) [
  | yes p ↦ omega (arith, mod-eq_of_lt p)
  | no p ↦ omega (
    arith,
    mod-eq-sub-mod {n = r + d} {m = m} (omega arith),
    mod-eq_of_lt {n = r + d - m} {m = m} (omega arith),
  )
]

-- Fewer than `m` steps round a ring of `m` do not come back to the start.
pub mod_ne : (a d m : ℕ) → 0 < d → d < m → (a + d) % m ≢ a % m
mod_ne a d m pos hd e = ne_below (a % m) d m (mod-lt a (omega arith)) pos hd (rw mod-add-mod e)
