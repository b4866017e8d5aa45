-- ===== src/Tunnel/Replay/Spec.antt =====
-- The specification of acceptCounter: the set of the counters seen so far, and the highest of them.
use go_port_forward.Base.{
  ℕ, ◌+◌, ◌%◌, ◌≤◌, ◌<◌, ◌≡◌, Bool, true, false, ◌||◌, max, leb, ◌==◌, if◌then◌else◌,
}
use go_port_forward.Base.Bits.{bit_at}
use go_port_forward.Tunnel.Replay.{recv_window, Receiver, window_base}
use go_port_forward.Tunnel.Replay.Clearing.{IsBitmap}

pub record Seen : Type 0 where
  pub seen : ℕ → Bool
  pub high : ℕ

-- A counter is accepted if it is not 0, not a window or more below the highest, and new.
unfoldable pub fresh : Seen → ℕ → Bool
fresh s c =
    if c == 0 || leb (c + recv_window) s.high then false else if s.seen c then false else true

unfoldable pub see : Seen → ℕ → Seen
see s c = record { seen = λ d. if c == d then true else s.seen d; high = max s.high c }

unfoldable pub spec_accept : Seen → ℕ → Seen × Bool
spec_accept s c = if fresh s c then (see s c, true) else (s, false)

-- The bitmap holds the seen counters of the window, and nothing else.
pub record Refines (r : Receiver) (s : Seen) : Type 0 where
  pub high : r.recv_max ≡ s.high
  pub base : r.recv_base ≡ window_base s.high
  pub bitmap : IsBitmap r.recv_bits
  pub below : (c : ℕ) → s.seen c ≡ true → c ≤ s.high
  pub bits :
      (c : ℕ) → r.recv_base ≤ c → c < r.recv_base + 8192 → bit_at r.recv_bits (c % 8192) ≡ s.seen c
