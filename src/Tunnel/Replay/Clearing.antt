-- ===== src/Tunnel/Replay/Clearing.antt =====
-- The loop of acceptCounter that clears the bits of the counters that leave the window.
use go_port_forward.Base.{
  ℕ, zero, suc, ◌+◌, ◌%◌, ◌≤◌, ◌<◌, ◌≡◌, ◌≢◌, refl, ◌∙◌, List, false, arith, length, ℕ_discrete,
}
use go_port_forward.Base.Bits.{
  IsBytes, bit_at, clear_bit, bit_at-clear_bit, clear_bit-IsBytes, length-clear_bit,
}
use go_port_forward.Tunnel.Replay.{clear_run}

-- A bitmap with one bit for each counter of a window.
pub record IsBitmap (bits : List ℕ) : Type 0 where
  pub full : length bits ≡ 1024
  pub bytes : IsBytes bits

pub clear_bit-IsBitmap :
    (bits : List ℕ) (o : ℕ) → IsBitmap bits → o < 8192 → IsBitmap (clear_bit bits o)
clear_bit-IsBitmap bits o b h = record {
  full = length-clear_bit bits o ∙ b.full;
  bytes = clear_bit-IsBytes bits b.bytes o (omega (arith, b.full));
}

pub clear_run-IsBitmap :
    (n start i : ℕ) (bits : List ℕ) → IsBitmap bits → IsBitmap (clear_run n start i bits)
unfolding clear_run
clear_run-IsBitmap zero start i bits b = b
clear_run-IsBitmap (suc n) start i bits b =
    clear_run-IsBitmap n start (i + 1) _
      (clear_bit-IsBitmap bits ((start + i) % 8192) b (omega arith))

-- A bit that the loop does not visit keeps its value.
pub clear_run_miss :
    (n start i : ℕ) (bits : List ℕ) (p : ℕ)
    → IsBitmap bits
    → ((j : ℕ) → i ≤ j → j < i + n → (start + j) % 8192 ≢ p)
    → bit_at (clear_run n start i bits) p ≡ bit_at bits p
unfolding clear_run
clear_run_miss zero start i bits p b miss = refl
clear_run_miss (suc n) start i bits p b miss =
    clear_run_miss n start (i + 1) _ p
      (clear_bit-IsBitmap bits ((start + i) % 8192) b (omega arith))
      (λ j lo hi. miss j (omega arith) (omega arith))
    ∙ ground (
      arith,
      miss i,
      b.full,
      bit_at-clear_bit bits b.bytes ((start + i) % 8192) (omega (arith, b.full)) p,
    )

-- A bit that is clear stays clear.
pub clear_run_clear :
    (n start i : ℕ) (bits : List ℕ) (p : ℕ)
    → IsBitmap bits
    → bit_at bits p ≡ false
    → bit_at (clear_run n start i bits) p ≡ false
unfolding clear_run
clear_run_clear zero start i bits p b clear = clear
clear_run_clear (suc n) start i bits p b clear =
    clear_run_clear n start (i + 1) _ p
      (clear_bit-IsBitmap bits ((start + i) % 8192) b (omega arith))
      (ground (
        arith,
        b.full,
        bit_at-clear_bit bits b.bytes ((start + i) % 8192) (omega (arith, b.full)) p,
      ))

-- A bit that the loop visits is clear afterwards.
pub clear_run_hit :
    (n start i : ℕ) (bits : List ℕ) (j : ℕ)
    → IsBitmap bits
    → i ≤ j
    → j < i + n
    → bit_at (clear_run n start i bits) ((start + j) % 8192) ≡ false
unfolding clear_run
clear_run_hit zero start i bits j b lo hi = absurd (omega arith)
clear_run_hit (suc n) start i bits j b lo hi =
    let b' = clear_bit-IsBitmap bits ((start + i) % 8192) b (omega arith) in
    elim (ℕ_discrete i j) [
      | yes e ↦ clear_run_clear n start (i + 1) _ _ b' (
          ground (
            arith,
            b.full,
            bit_at-clear_bit bits b.bytes ((start + i) % 8192) (omega (arith, b.full))
                ((start + j) % 8192),
          ))
      | no ne ↦ clear_run_hit n start (i + 1) _ j b' (omega arith) (omega arith)
    ]
