-- ===== src/Tunnel/Stats.antt =====
-- pkg/tunnel/stats.go: the packet counters of a session. Counters are uint64 and wrap; times are
-- nanoseconds since the epoch. The floating-point milliseconds of the view are left in nanoseconds.
pub mod Bounds
use go_port_forward.Base.{
  ℕ, ◌+◌, ◌-◌, ◌*◌, ◌/◌, ◌%◌, ◌^◌, ◌≤◌, ◌&&◌, ◌||◌, ltb, leb, ◌==◌, if◌then◌else◌, arith,
}

pub record Stats : Type 0 where
  pub rx_high : ℕ
  pub rx_accepted : ℕ
  pub rx_reordered : ℕ
  pub rx_replayed : ℕ
  pub rx_auth_fail : ℕ
  pub rx_bad : ℕ
  pub last_arrival_nanos : ℕ
  pub last_gap_nanos : ℕ
  pub jitter_nanos : ℕ
  pub rtt_nanos : ℕ
  pub tx_packets : ℕ
  pub tx_dropped : ℕ
  pub fec_sent : ℕ
  pub fec_recovered : ℕ
  pub fec_give_up : ℕ
  pub dup_sent : ℕ
  pub tun_dropped : ℕ

abbrev pub new_stats : Stats
new_stats = record {
  rx_high = 0;
  rx_accepted = 0;
  rx_reordered = 0;
  rx_replayed = 0;
  rx_auth_fail = 0;
  rx_bad = 0;
  last_arrival_nanos = 0;
  last_gap_nanos = 0;
  jitter_nanos = 0;
  rtt_nanos = 0;
  tx_packets = 0;
  tx_dropped = 0;
  fec_sent = 0;
  fec_recovered = 0;
  fec_give_up = 0;
  dup_sent = 0;
  tun_dropped = 0;
}

-- `Add(n)` on an atomic.Uint64.
abbrev pub add_u64 : ℕ → ℕ → ℕ
add_u64 c n = (c + n) % 2 ^ 64

-- `cur + (x - cur) >> 4` on int64: the shift rounds towards minus infinity.
unfoldable pub smooth : ℕ → ℕ → ℕ
smooth cur x = if leb cur x then cur + (x - cur) / 16 else cur - (cur - x + 15) / 16

distance : ℕ → ℕ → ℕ
distance a b = if ltb a b then b - a else a - b

unfoldable pub observe_arrival : ℕ → Stats → Stats
unfolding smooth distance
observe_arrival now s =
    let prev = s.last_arrival_nanos in
    let gap = now - prev in
    let last = s.last_gap_nanos in
    let arrived = record s { last_arrival_nanos = now } in
    let spaced = record arrived { last_gap_nanos = gap } in
    if prev == 0 || leb now prev
    then arrived
    else if last == 0
    then spaced
    else record spaced { jitter_nanos = smooth s.jitter_nanos (distance gap last) }

-- A duration that is not positive is `0` here.
unfoldable pub observe_rtt : ℕ → Stats → Stats
unfolding smooth
observe_rtt d s =
    if d == 0
    then s
    else if s.rtt_nanos == 0
    then record s { rtt_nanos = d }
    else record s { rtt_nanos = smooth s.rtt_nanos d }

unfoldable pub add_tx_dropped : ℕ → Stats → Stats
add_tx_dropped n s = record s { tx_dropped = add_u64 s.tx_dropped n }

unfoldable pub add_tun_dropped : ℕ → Stats → Stats
add_tun_dropped n s = record s { tun_dropped = add_u64 s.tun_dropped n }

-- Parts per million of `part` in `whole`, as uint64 arithmetic has it.
unfoldable pub ppm : ℕ → ℕ → ℕ
ppm part whole = part * 1000000 % 2 ^ 64 / whole

pub record StatsView : Type 0 where
  pub stats : Stats
  pub open stats use *
  pub rx_expected : ℕ
  pub loss_ppm : ℕ
  pub reorder_ppm : ℕ

unfoldable pub view : Stats → StatsView
unfolding ppm
view s =
    let ready = ltb 0 s.rx_high && leb s.rx_accepted s.rx_high in
    record {
      stats = s;
      rx_expected = s.rx_high;
      loss_ppm = if ready then ppm (s.rx_high - s.rx_accepted) s.rx_high else 0;
      reorder_ppm = if ready then ppm s.rx_reordered s.rx_high else 0;
    }
