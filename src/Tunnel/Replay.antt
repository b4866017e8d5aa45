-- ===== src/Tunnel/Replay.antt =====
-- pkg/tunnel/session.go, acceptCounter: the sliding window against replayed packets. A counter is a
-- uint64 from the wire and stays a plain number: no sum or difference of the function leaves the
-- range. `now` is the time that the accepted packet arrives.
pub mod Clearing
pub mod Spec
pub mod Advance
pub mod Window
pub mod History
pub mod Counts
pub mod Loss
mod Examples
use go_port_forward.Base.{
  ℕ, zero, suc, ◌+◌, ◌-◌, ◌%◌, ◌≡◌, List, Bool, true, false, min, [], ◌∷◌, ltb, leb, ◌==◌,
  if◌then◌else◌, replicate,
}
use go_port_forward.Base.Bits.{bit_at, set_bit, clear_bit}
use go_port_forward.Tunnel.Stats.{Stats, add_u64, observe_arrival, new_stats}

abbrev pub recv_window : ℕ
recv_window = 8192

pub record Receiver : Type 0 where
  pub recv_max : ℕ
  pub recv_base : ℕ
  pub recv_bits : List ℕ
  pub stats : Stats

unfoldable pub new_receiver : Receiver
new_receiver = record {
  recv_max = 0;
  recv_base = 1;
  recv_bits = replicate 1024 0;
  stats = new_stats;
}

-- `for i := 0; i < n; i++`, with `left` rounds to go: clears the bits of the counters that leave.
unfoldable pub clear_run : (left start i : ℕ) → List ℕ → List ℕ
clear_run zero start i bits = bits
clear_run (suc left) start i bits =
    clear_run left start (i + 1) (clear_bit bits ((start + i) % recv_window))

unfoldable pub window_base : ℕ → ℕ
window_base c = if ltb recv_window c then c - recv_window + 1 else 1

-- The window moves forward to end at `c`.
unfoldable pub advance : Receiver → ℕ → Receiver
advance r c =
    let new_base = window_base c in
    let n = min (new_base - r.recv_base) recv_window in
    let cleared = clear_run n (r.recv_base % recv_window) 0 r.recv_bits in
    record r {
      recv_bits = if ltb r.recv_base new_base then cleared else r.recv_bits;
      recv_base = new_base;
      recv_max = c;
    }

unfoldable pub count_replayed : Receiver → Receiver
count_replayed r = record r { stats = record s { rx_replayed = add_u64 s.rx_replayed 1 } }
  where
    s : Stats
    s = r.stats

unfoldable pub count_accepted : ℕ → Bool → Receiver → Receiver
count_accepted now reordered r = record r {
  stats = observe_arrival now (record s {
    rx_high = r.recv_max;
    rx_accepted = add_u64 s.rx_accepted 1;
    rx_reordered = if reordered then add_u64 s.rx_reordered 1 else s.rx_reordered;
  });
}
  where
    s : Stats
    s = r.stats

-- The test and the mark of `c`, once the window covers it.
unfoldable pub mark : ℕ → Bool → Receiver → ℕ → Receiver × Bool
mark now reordered r c =
    if ltb c r.recv_base
    then (count_replayed r, false)
    else if bit_at r.recv_bits (c % recv_window)
    then (count_replayed r, false)
    else (
      count_accepted now reordered (record r { recv_bits = set_bit r.recv_bits (c % recv_window) }),
      true,
    )

unfoldable pub accept_counter : ℕ → Receiver → ℕ → Receiver × Bool
unfolding mark advance
accept_counter now r c =
    if c == 0
    then (count_replayed r, false)
    else mark now (leb c r.recv_max) (if ltb r.recv_max c then advance r c else r) c

-- The counters that a sequence of packets gets accepted, each packet with its arrival time.
pub accepted : List (ℕ × ℕ) → Receiver → List ℕ
accepted [] r = []
accepted ((now, c) ∷ cs) r =
    let step = accept_counter now r c in
    let rest = accepted cs step.0 in if step.1 then c ∷ rest else rest

-- The state after a sequence of packets.
pub after : List (ℕ × ℕ) → Receiver → Receiver
after [] r = r
after ((now, c) ∷ cs) r = after cs (accept_counter now r c).0
