-- ===== src/Base/Integers.antt =====
-- Go's int where a number can be negative: `negsuc n` is `-(n + 1)`. No number here comes near its bounds.
use mathlib.Core.Path.{◌≡◌, refl, ap}
use mathlib.Core.Logic.{◌↔◌}
use mathlib.Core.Bool.{Bool, true, false}
use Prim.Native.Nat.{ℕ, zero, suc, ◌+◌, ◌≤◌, ◌<◌}
use native.Mathlib.Omega.{arith}
use go_port_forward.Base.Tests.{ltb, ◌==◌, ==_iff}

pub data ℤ : Type 0 where
  pos : ℕ → ℤ
  negsuc : ℕ → ℤ

abbrev pub int_eq : ℤ → ℤ → Bool
int_eq (pos a) (pos b) = a == b
int_eq (negsuc a) (negsuc b) = a == b
int_eq (pos a) (negsuc b) = false
int_eq (negsuc a) (pos b) = false

pub int_eq_iff : (a b : ℤ) → (int_eq a b ≡ true) ↔ (a ≡ b)
int_eq_iff (pos a) (pos b) = (λ h. ap pos ((==_iff a b).0 h), λ e. ground (arith, e))
int_eq_iff (negsuc a) (negsuc b) = (λ h. ap negsuc ((==_iff a b).0 h), λ e. ground (arith, e))
int_eq_iff (pos a) (negsuc b) = (λ h. absurd (cc h), λ e. absurd (cc e))
int_eq_iff (negsuc a) (pos b) = (λ h. absurd (cc h), λ e. absurd (cc e))

-- `z < 0`
abbrev pub is_negative : ℤ → Bool
is_negative (pos a) = false
is_negative (negsuc a) = true

-- `z > n`
abbrev pub exceeds : ℤ → ℕ → Bool
exceeds (pos a) n = ltb n a
exceeds (negsuc a) n = false

-- A port number: from 1 to 65535.
pub record IsPort (z : ℤ) : Type 0 where
  pub number : ℕ
  pub is_number : z ≡ pos number
  pub above_zero : 0 < number
  pub fits : number ≤ 65535

pub exceeds-IsPort : (z : ℤ) → exceeds z 0 ≡ true → exceeds z 65535 ≡ false → IsPort z
exceeds-IsPort (pos n) h g = record {
  number = n;
  is_number = refl;
  above_zero = ground (arith, h);
  fits = ground (arith, g);
}
exceeds-IsPort (negsuc n) h g = absurd (cc h)

-- `z + 1` and `z - 1`.
abbrev pub int_succ : ℤ → ℤ
int_succ (pos a) = pos (a + 1)
int_succ (negsuc zero) = pos 0
int_succ (negsuc (suc a)) = negsuc a

abbrev pub int_pred : ℤ → ℤ
int_pred (pos zero) = negsuc 0
int_pred (pos (suc a)) = pos a
int_pred (negsuc a) = negsuc (a + 1)
