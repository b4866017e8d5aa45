-- ===== src/Tunnel/Replay/Examples.antt =====
-- Counters that arrive twice, out of order and far ahead; and samples of round trips.
use go_port_forward.Base.{ℕ, ◌≡◌, ◌≤◌, ◌<◌, ◌+◌, ◌^◌, refl, List, [], ◌∷◌, arith}
use go_port_forward.Tunnel.Stats.{new_stats, view}
use go_port_forward.Tunnel.Stats.Bounds.{observe_rtts, observe_rtts-range}
use go_port_forward.Tunnel.Replay.{
  new_receiver, clear_run, window_base, advance, mark, count_replayed, count_accepted,
  accept_counter, accepted, after,
}
use go_port_forward.Tunnel.Replay.Spec.{spec_accept}
use go_port_forward.Tunnel.Replay.Window.{Agrees, accept_counter-Agrees}
use go_port_forward.Tunnel.Replay.History.{nothing_seen, accepted-Nodup, new_receiver-Refines}
use go_port_forward.Tunnel.Replay.Counts.{AreCounters, highest, after-accepted_le, after-counted}
use go_port_forward.Tunnel.Replay.Loss.{view-loss_ppm}
use mathlib.Core.List.{Nodup}
use go_port_forward.Base.Bits.{bit_at, set_bit, clear_bit, test_bit, with_bit}

abbrev packets : List (ℕ × ℕ)
packets = (10, 3) ∷ (20, 3) ∷ (30, 2) ∷ (40, 0) ∷ (50, 5) ∷ []

accepted_once : accepted packets new_receiver ≡ 3 ∷ 2 ∷ 5 ∷ []
unfolding accepted accept_counter mark advance clear_run window_base count_replayed count_accepted
    new_receiver bit_at set_bit clear_bit test_bit with_bit
accepted_once = refl

window_end : (after packets new_receiver).recv_max ≡ 5
unfolding after accept_counter mark advance clear_run window_base count_replayed count_accepted
    new_receiver bit_at set_bit clear_bit test_bit with_bit
window_end = refl

first-Agrees : Agrees (accept_counter 10 new_receiver 3) (spec_accept nothing_seen 3)
first-Agrees = accept_counter-Agrees 10 new_receiver nothing_seen 3 new_receiver-Refines

-- The second arrival of counter 3.
accept_counter-Agrees_example :
    Agrees
      (accept_counter 20 (accept_counter 10 new_receiver 3).0 3)
      (spec_accept (spec_accept nothing_seen 3).0 3)
accept_counter-Agrees_example =
    accept_counter-Agrees 20 (accept_counter 10 new_receiver 3).0 (spec_accept nothing_seen 3).0 3
      first-Agrees.0

packets-AreCounters : AreCounters packets
packets-AreCounters = (omega arith, (omega arith, (omega arith, (omega arith, (omega arith, tt)))))

after-accepted_le_example :
    ((after packets new_receiver).stats.rx_high ≡ (after packets new_receiver).recv_max)
    × ((after packets new_receiver).stats.rx_accepted ≤ (after packets new_receiver).stats.rx_high)
after-accepted_le_example = after-accepted_le packets packets-AreCounters

-- Three of five counters: 3, 2 and 5.
highest_accepted : highest (accepted packets new_receiver) ≡ 5
unfolding accepted accept_counter mark advance clear_run window_base count_replayed count_accepted
    new_receiver bit_at set_bit clear_bit test_bit with_bit highest
highest_accepted = refl

view-loss_ppm_example :
    ((view (after packets new_receiver).stats).loss_ppm ≡ 400000)
    × (3 ≤ 5)
    × ((view (after packets new_receiver).stats).loss_ppm ≤ 1000000)
unfolding accepted accept_counter mark advance clear_run window_base count_replayed count_accepted
    new_receiver bit_at set_bit clear_bit test_bit with_bit highest
view-loss_ppm_example =
    view-loss_ppm packets packets-AreCounters (omega (arith, highest_accepted))
      (omega (arith, highest_accepted))

new_receiver-counts : new_receiver.stats.rx_accepted + new_receiver.stats.rx_replayed + 5 < 2 ^ 64
unfolding new_receiver
new_receiver-counts = omega arith

after-counted_example :
    (after packets new_receiver).stats.rx_accepted + (after packets new_receiver).stats.rx_replayed
    ≡ new_receiver.stats.rx_accepted + new_receiver.stats.rx_replayed + 5
after-counted_example = after-counted packets new_receiver new_receiver-counts

observe_rtts-range_example :
    (20 ≤ (observe_rtts (50 ∷ 20 ∷ 90 ∷ []) new_stats).rtt_nanos)
    × ((observe_rtts (50 ∷ 20 ∷ 90 ∷ []) new_stats).rtt_nanos ≤ 90)
observe_rtts-range_example =
    observe_rtts-range 20 90 50 (20 ∷ 90 ∷ []) (omega arith)
      (omega arith, omega arith, (omega arith, omega arith, (omega arith, omega arith, tt)))

accepted-Nodup_example : Nodup (accepted packets new_receiver)
accepted-Nodup_example = accepted-Nodup packets
