-- ===== src/Tunnel/Replay/Advance.antt =====
-- acceptCounter, the part that moves the window forward.
use go_port_forward.Base.{
  ℕ, ◌+◌, ◌-◌, ◌%◌, ◌≤◌, ◌<◌, ◌≡◌, false, min, ◌∙◌, List, arith, ltb, dec_lt, Bool-cases, inl, inr,
}
use go_port_forward.Base.Bits.{bit_at}
use go_port_forward.Tunnel.Replay.{Receiver, clear_run, window_base, advance}
use go_port_forward.Tunnel.Replay.Clearing.{
  IsBitmap, clear_run-IsBitmap, clear_run_miss, clear_run_hit,
}
use go_port_forward.Tunnel.Replay.Spec.{Seen, Refines}

-- Clearing the bits of the counters from `b` up to `nb` leaves the bits of the window at `nb`.
module _ (r : Receiver) (s : Seen) (v : Refines r s) (nb : ℕ) (up : r.recv_base < nb) where
  cleared : List ℕ
  cleared = clear_run (min (nb - r.recv_base) 8192) (r.recv_base % 8192) 0 r.recv_bits

  high-lt : s.high < r.recv_base + 8192
  unfolding window_base
  high-lt = ground (arith, v.base)

  unseen_above : (d : ℕ) → s.high < d → s.seen d ≡ false
  unseen_above d h = elim (Bool-cases (s.seen d)) [
    | inl e ↦ absurd (omega (arith, v.below d e))
    | inr e ↦ e
  ]

  cleared-kept : (d : ℕ) → nb ≤ d → d < r.recv_base + 8192 → bit_at cleared (d % 8192) ≡ s.seen d
  unfolding cleared
  cleared-kept d lo hi =
      clear_run_miss _ (r.recv_base % 8192) 0 r.recv_bits (d % 8192) v.bitmap (λ j p q. omega arith)
      ∙ v.bits d (omega arith) hi

  cleared-new :
      (d : ℕ) → r.recv_base + 8192 ≤ d → d < nb + 8192 → bit_at cleared (d % 8192) ≡ s.seen d
  unfolding cleared
  cleared-new d lo hi =
      let j = (d - r.recv_base) % 8192 in
      let same : (r.recv_base % 8192 + j) % 8192 ≡ d % 8192 = omega arith in
      rw (unseen_above d (omega (arith, high-lt)), ← same)
        (clear_run_hit (min (nb - r.recv_base) 8192) (r.recv_base % 8192) 0 r.recv_bits j v.bitmap
          (omega arith) (omega arith))

  cleared-bits : (d : ℕ) → nb ≤ d → d < nb + 8192 → bit_at cleared (d % 8192) ≡ s.seen d
  cleared-bits d lo hi = elim (dec_lt d (r.recv_base + 8192)) [
    | yes h ↦ cleared-kept d lo h
    | no h ↦ cleared-new d (omega arith) hi
  ]

window_base_mono : (a b : ℕ) → a ≤ b → window_base a ≤ window_base b
unfolding window_base
window_base_mono a b h = ground arith

-- The window that ends at the new highest counter `c`, before the mark.
module _ (r : Receiver) (s : Seen) (v : Refines r s) (c : ℕ) (up : r.recv_max < c) where
  pub advance-bits :
      (d : ℕ)
      → window_base c ≤ d
      → d < window_base c + 8192
      → bit_at (advance r c).recv_bits (d % 8192) ≡ s.seen d
  unfolding advance cleared
  advance-bits d lo hi = elim (dec_lt r.recv_base (window_base c)) [
    | yes h ↦ ground (arith, cleared-bits r s v (window_base c) h d lo hi)
    | no h ↦ ground (arith, v.bits d, v.base, v.high, window_base_mono s.high c)
  ]

  pub advance-IsBitmap : IsBitmap (advance r c).recv_bits
  unfolding advance
  advance-IsBitmap = elim (Bool-cases (ltb r.recv_base (window_base c))) [
    | inl e ↦ rw e (clear_run-IsBitmap _ _ 0 r.recv_bits v.bitmap)
    | inr e ↦ rw e v.bitmap
  ]
