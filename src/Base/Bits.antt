-- ===== src/Base/Bits.antt =====
-- Single bits of a byte, and an array of bytes read as an array of bits.
use Prim.Native.Nat.{ℕ, ◌*◌, ◌/◌, ◌%◌, ◌^◌, ◌<◌, bit_and, bit_or, bit_xor, bit_and-bitwise}
use mathlib.Core.Path.{◌≡◌, refl}
use mathlib.Core.Bool.{Bool, true, false, not, ◌&&◌}
use mathlib.Core.List.{List}
use native.Mathlib.Omega.{arith}
use go_port_forward.Base.Tests.{◌==◌, ltb, if◌then◌else◌, bool_eq, bool_eq-eq}
use go_port_forward.Base.Lists.{length, replicate}
use go_port_forward.Base.Array.{get_or, set, length-set, get_or-set, get_or-replicate}
use go_port_forward.Base.Table.{all_below, all_below_sound}

-- `b & (1 << k) != 0`
unfoldable pub test_bit : ℕ → ℕ → Bool
test_bit b k = not (bit_and b (2 ^ k) == 0)

-- `b | 1 << k`
unfoldable pub with_bit : ℕ → ℕ → ℕ
with_bit b k = bit_or b (2 ^ k)

-- `b &^ (1 << k)`, the complement taken in eight bits.
pub without_bit : ℕ → ℕ → ℕ
without_bit b k = bit_and b (bit_xor 255 (2 ^ k))

-- What a write to bit `k` of the byte `b` does to bit `j`, over all bytes and positions.
with_bit_row : ℕ → ℕ → ℕ → Bool
unfolding test_bit with_bit
with_bit_row b k j =
    bool_eq (test_bit (with_bit b k) j) (if k == j then true else test_bit b j)
    && ltb (with_bit b k) 256

without_bit_row : ℕ → ℕ → ℕ → Bool
unfolding test_bit without_bit
without_bit_row b k j =
    bool_eq (test_bit (without_bit b k) j) (if k == j then false else test_bit b j)
    && ltb (without_bit b k) 256

with_bit_table : all_below 256 (λ b. all_below 8 (λ k. all_below 8 (with_bit_row b k))) ≡ true
unfolding all_below with_bit_row
with_bit_table = refl

without_bit_table : all_below 256 (λ b. all_below 8 (λ k. all_below 8 (without_bit_row b k))) ≡ true
unfolding all_below without_bit_row
without_bit_table = refl

at_table :
    (row : ℕ → ℕ → ℕ → Bool)
    → all_below 256 (λ b. all_below 8 (λ k. all_below 8 (row b k))) ≡ true
    → (b k j : ℕ) → b < 256
    → k < 8
    → j < 8
    → row b k j ≡ true
at_table row h b k j hb hk hj =
    let of_byte = all_below_sound 256 b (λ b. all_below 8 (λ k. all_below 8 (row b k))) hb h in
    let of_bit = all_below_sound 8 k (λ k. all_below 8 (row b k)) hk of_byte in
    all_below_sound 8 j (row b k) hj of_bit

test_bit-with_bit :
    (b k j : ℕ)
    → b < 256
    → k < 8
    → j < 8
    → (test_bit (with_bit b k) j ≡ (if k == j then true else test_bit b j)) × (with_bit b k < 256)
unfolding with_bit_row
test_bit-with_bit b k j hb hk hj = ground (
  arith,
  at_table with_bit_row with_bit_table b k j hb hk hj,
  bool_eq-eq (test_bit (with_bit b k) j) (if k == j then true else test_bit b j),
)

test_bit-without_bit :
    (b k j : ℕ)
    → b < 256
    → k < 8
    → j < 8
    → (test_bit (without_bit b k) j ≡ (if k == j then false else test_bit b j))
      × (without_bit b k < 256)
unfolding without_bit_row
test_bit-without_bit b k j hb hk hj = ground (
  arith,
  at_table without_bit_row without_bit_table b k j hb hk hj,
  bool_eq-eq (test_bit (without_bit b k) j) (if k == j then false else test_bit b j),
)

-- A Go byte array holds values below 256.
abbrev pub IsBytes : List ℕ → Type 0
IsBytes bits = (i : ℕ) → get_or bits i 0 < 256

-- The bit of offset `o` in a bitmap: bit `o % 8` of the byte `o / 8`.
unfoldable pub bit_at : List ℕ → ℕ → Bool
bit_at bits o = test_bit (get_or bits (o / 8) 0) (o % 8)

-- `bits[o / 8] |= 1 << (o % 8)`
unfoldable pub set_bit : List ℕ → ℕ → List ℕ
set_bit bits o = set bits (o / 8) (with_bit (get_or bits (o / 8) 0) (o % 8))

-- `bits[o / 8] &^= 1 << (o % 8)`
unfoldable pub clear_bit : List ℕ → ℕ → List ℕ
clear_bit bits o = set bits (o / 8) (without_bit (get_or bits (o / 8) 0) (o % 8))

module _ (bits : List ℕ) (bytes : IsBytes bits) (o : ℕ) (fits : o < 8 * length bits) where
  pub bit_at-set_bit :
      (p : ℕ) → bit_at (set_bit bits o) p ≡ (if o == p then true else bit_at bits p)
  unfolding bit_at set_bit
  bit_at-set_bit p = ground (
    arith,
    get_or-set bits (o / 8) (p / 8) (with_bit (get_or bits (o / 8) 0) (o % 8)) 0,
    test_bit-with_bit (get_or bits (o / 8) 0) (o % 8) (p % 8) (bytes (o / 8)),
  )

  pub bit_at-clear_bit :
      (p : ℕ) → bit_at (clear_bit bits o) p ≡ (if o == p then false else bit_at bits p)
  unfolding bit_at clear_bit
  bit_at-clear_bit p = ground (
    arith,
    get_or-set bits (o / 8) (p / 8) (without_bit (get_or bits (o / 8) 0) (o % 8)) 0,
    test_bit-without_bit (get_or bits (o / 8) 0) (o % 8) (p % 8) (bytes (o / 8)),
  )

  pub set_bit-IsBytes : IsBytes (set_bit bits o)
  unfolding set_bit
  set_bit-IsBytes i = ground (
    arith,
    bytes i,
    get_or-set bits (o / 8) i (with_bit (get_or bits (o / 8) 0) (o % 8)) 0,
    test_bit-with_bit (get_or bits (o / 8) 0) (o % 8) 0 (bytes (o / 8)),
  )

  pub clear_bit-IsBytes : IsBytes (clear_bit bits o)
  unfolding clear_bit
  clear_bit-IsBytes i = ground (
    arith,
    bytes i,
    get_or-set bits (o / 8) i (without_bit (get_or bits (o / 8) 0) (o % 8)) 0,
    test_bit-without_bit (get_or bits (o / 8) 0) (o % 8) 0 (bytes (o / 8)),
  )

pub length-set_bit : (bits : List ℕ) (o : ℕ) → length (set_bit bits o) ≡ length bits
unfolding set_bit
length-set_bit bits o = length-set bits (o / 8) _

pub length-clear_bit : (bits : List ℕ) (o : ℕ) → length (clear_bit bits o) ≡ length bits
unfolding clear_bit
length-clear_bit bits o = length-set bits (o / 8) _

pub bit_at-replicate : (n o : ℕ) → bit_at (replicate n 0) o ≡ false
unfolding bit_at test_bit
bit_at-replicate n o =
    ground (arith, get_or-replicate {A = ℕ} n 0 (o / 8), zero-bit_and (2 ^ (o % 8)))
  where
    zero-bit_and : (b : ℕ) → bit_and 0 b ≡ 0
    zero-bit_and b = bit_and-bitwise 0 b
