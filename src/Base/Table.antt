-- ===== src/Base/Table.antt =====
-- A finite check by evaluation, and its use at a variable.
use Prim.Native.Nat.{ℕ, zero, suc, ◌<◌}
use mathlib.Core.Path.{◌≡◌}
use mathlib.Core.Bool.{Bool, true, ◌&&◌}
use native.Mathlib.Omega.{arith}

unfoldable pub all_below : ℕ → (ℕ → Bool) → Bool
all_below zero p = true
all_below (suc n) p = p n && all_below n p

pub all_below_sound :
    (bound k : ℕ) (test : ℕ → Bool) → k < bound → all_below bound test ≡ true → test k ≡ true
unfolding all_below
all_below_sound zero k test small all = absurd (omega arith)
all_below_sound (suc bound) k test small all = ground (arith, all_below_sound bound k test)
