-- ===== src/Base/Xor.antt =====
-- The laws of `^` on numbers, from the digit recursion, and on byte strings.
use Prim.Native.Nat.{bit_xor, bit_xor-bitwise, bitwise, digits, differ}
use Prim.Native.Nat.{ℕ, zero, suc, ◌+◌, ◌*◌, ◌/◌, ◌%◌, ◌≤◌, ◌<◌}
use mathlib.Core.Path.{◌≡◌, refl, ap, sym, ◌∙◌}
use native.Mathlib.Omega.{arith}
use native.Mathlib.Nat.{le_refl}
use mathlib.Core.List.{List, [], ◌∷◌}
use go_port_forward.Base.Lists.{length}
use go_port_forward.Base.Array.{get_or}

-- The library's recursion for `^`, on fuel; any fuel from the first number on gives the same.
abbrev xor_digits : (fuel a b : ℕ) → ℕ
xor_digits = digits (λ y. y) differ

xor_digits_enough :
    (a fuel more b : ℕ) → a ≤ more → a ≤ fuel → xor_digits more a b ≡ xor_digits fuel a b
xor_digits_enough zero zero zero b le enough = refl
xor_digits_enough zero zero (suc more) b le enough = refl
xor_digits_enough zero (suc fuel) zero b le enough = refl
xor_digits_enough zero (suc fuel) (suc more) b le enough = refl
xor_digits_enough (suc a) zero more b le enough = absurd (omega arith)
xor_digits_enough (suc a) (suc fuel) zero b le enough = absurd (omega arith)
xor_digits_enough (suc a) (suc fuel) (suc more) b le enough =
    let half : suc a / 2 ≤ fuel = omega arith in
    rw (xor_digits_enough (suc a / 2) fuel more (b / 2) (omega arith) half)

xor_digits-suc :
    (a b : ℕ)
    → bitwise (λ y. y) differ (suc a) b
      ≡ bitwise (λ y. y) differ (suc a / 2) (b / 2) * 2 + differ (suc a % 2) (b % 2)
xor_digits-suc a b =
    let half : suc a / 2 ≤ a = omega arith in
    omega (arith, xor_digits_enough (suc a / 2) (suc a / 2) a (b / 2) half (le_refl _))

differ_bits : (x y : ℕ) → x < 2 → y < 2 → differ x y ≡ (x + y) % 2
differ_bits zero zero p q = refl
differ_bits zero (suc zero) p q = refl
differ_bits (suc zero) zero p q = refl
differ_bits (suc zero) (suc zero) p q = refl
differ_bits zero (suc (suc y)) p q = absurd (omega arith)
differ_bits (suc zero) (suc (suc y)) p q = absurd (omega arith)
differ_bits (suc (suc x)) y p q = absurd (omega arith)

pub zero-bit_xor : (b : ℕ) → bit_xor 0 b ≡ b
zero-bit_xor b = bit_xor-bitwise 0 b

-- One equation for the lowest digit.
pub bit_xor_step : (a b : ℕ) → bit_xor a b ≡ bit_xor (a / 2) (b / 2) * 2 + (a % 2 + b % 2) % 2
bit_xor_step zero b = omega (arith, zero-bit_xor b, zero-bit_xor (b / 2))
bit_xor_step (suc a) b = simp bit_xor-bitwise (
    xor_digits-suc a b
    ∙ ap (λ (r : ℕ). bitwise (λ y. y) differ (suc a / 2) (b / 2) * 2 + r)
        (differ_bits (suc a % 2) (b % 2) (omega arith) (omega arith)))

xor_comm_fuel : (n a b : ℕ) → a + b ≤ n → bit_xor a b ≡ bit_xor b a
xor_comm_fuel zero zero zero h = refl
xor_comm_fuel zero zero (suc b) h = absurd (omega arith)
xor_comm_fuel zero (suc a) b h = absurd (omega arith)
xor_comm_fuel (suc n) zero zero h = refl
xor_comm_fuel (suc n) zero (suc b) h = omega (
  arith,
  bit_xor_step 0 (suc b),
  bit_xor_step (suc b) 0,
  xor_comm_fuel n 0 (suc b / 2) (omega arith),
)
xor_comm_fuel (suc n) (suc a) b h = omega (
  arith,
  bit_xor_step (suc a) b,
  bit_xor_step b (suc a),
  xor_comm_fuel n (suc a / 2) (b / 2) (omega arith),
)

pub bit_xor_comm : (a b : ℕ) → bit_xor a b ≡ bit_xor b a
bit_xor_comm a b = xor_comm_fuel (a + b) a b (le_refl _)

pub bit_xor-zero : (a : ℕ) → bit_xor a 0 ≡ a
bit_xor-zero a = bit_xor_comm a 0 ∙ zero-bit_xor a

xor_self_fuel : (n a : ℕ) → a ≤ n → bit_xor a a ≡ 0
xor_self_fuel n zero h = refl
xor_self_fuel zero (suc a) h = absurd (omega arith)
xor_self_fuel (suc n) (suc a) h =
    omega (arith, bit_xor_step (suc a) (suc a), xor_self_fuel n (suc a / 2) (omega arith))

pub bit_xor_self : (a : ℕ) → bit_xor a a ≡ 0
bit_xor_self a = xor_self_fuel a a (le_refl _)

-- The upper digits of an exclusive or.
half-bit_xor : (a b : ℕ) → bit_xor a b / 2 ≡ bit_xor (a / 2) (b / 2)
half-bit_xor a b = omega (arith, bit_xor_step a b)

xor_assoc_step :
    (a b c : ℕ)
    → bit_xor (bit_xor (a / 2) (b / 2)) (c / 2) ≡ bit_xor (a / 2) (bit_xor (b / 2) (c / 2))
    → bit_xor (bit_xor a b) c ≡ bit_xor a (bit_xor b c)
xor_assoc_step a b c ih = omega (
  arith,
  bit_xor_step a b,
  bit_xor_step b c,
  bit_xor_step (bit_xor a b) c,
  bit_xor_step a (bit_xor b c),
  ap (λ (t : ℕ). bit_xor t (c / 2)) (half-bit_xor a b),
  ap (λ (t : ℕ). bit_xor (a / 2) t) (half-bit_xor b c),
  ih,
)

xor_assoc_fuel : (n a b c : ℕ) → a + b + c ≤ n → bit_xor (bit_xor a b) c ≡ bit_xor a (bit_xor b c)
xor_assoc_fuel n zero b c h =
    ap (λ (t : ℕ). bit_xor t c) (zero-bit_xor b) ∙ sym (zero-bit_xor (bit_xor b c))
xor_assoc_fuel zero (suc a) b c h = absurd (omega arith)
xor_assoc_fuel (suc n) (suc a) b c h =
    xor_assoc_step (suc a) b c (xor_assoc_fuel n (suc a / 2) (b / 2) (c / 2) (omega arith))

pub bit_xor_assoc : (a b c : ℕ) → bit_xor (bit_xor a b) c ≡ bit_xor a (bit_xor b c)
bit_xor_assoc a b c = xor_assoc_fuel (a + b + c) a b c (le_refl _)

-- `dst[i] ^= b` for each byte of the second string, which is not the longer one.
unfoldable pub xor_into : List ℕ → List ℕ → List ℕ
xor_into [] ys = []
xor_into (x ∷ xs) [] = x ∷ xs
xor_into (x ∷ xs) (y ∷ ys) = bit_xor x y ∷ xor_into xs ys

pub length-xor_into : (xs ys : List ℕ) → length (xor_into xs ys) ≡ length xs
unfolding xor_into
length-xor_into [] ys = refl
length-xor_into (x ∷ xs) [] = refl
length-xor_into (x ∷ xs) (y ∷ ys) = ap suc (length-xor_into xs ys)

pub get_or-xor_into :
    (xs ys : List ℕ) (i : ℕ)
    → length ys ≤ length xs
    → get_or (xor_into xs ys) i 0 ≡ bit_xor (get_or xs i 0) (get_or ys i 0)
unfolding xor_into
get_or-xor_into [] [] i h = refl
get_or-xor_into [] (y ∷ ys) i h = absurd (omega arith)
get_or-xor_into (x ∷ xs) [] i h = sym (bit_xor-zero (get_or (x ∷ xs) i 0))
get_or-xor_into (x ∷ xs) (y ∷ ys) zero h = refl
get_or-xor_into (x ∷ xs) (y ∷ ys) (suc i) h = get_or-xor_into xs ys i (omega arith)
