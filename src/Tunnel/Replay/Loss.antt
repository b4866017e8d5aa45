-- ===== src/Tunnel/Replay/Loss.antt =====
-- What the statistics say of a session's packets: the loss that View reports.
use go_port_forward.Base.{
  ℕ, ◌-◌, ◌*◌, ◌/◌, ◌%◌, ◌^◌, ◌≤◌, ◌<◌, ◌≡◌, refl, ltb, leb, length, ◌∙◌, List, arith, true,
}
use go_port_forward.Tunnel.Replay.{new_receiver, accepted, after}
use go_port_forward.Tunnel.Replay.Counts.{AreCounters, after-accepted, after-accepted_le, highest}
use go_port_forward.Tunnel.Stats.{ppm, view}
use native.Mathlib.Nat.{div-le_of_le-mul}

ppm-exact :
    (part whole : ℕ)
    → part ≤ whole
    → whole < 2 ^ 44
    → (ppm part whole ≡ part * 1000000 / whole) × (ppm part whole ≤ 1000000)
unfolding ppm
ppm-exact part whole h fits =
    let small : part * 1000000 % 2 ^ 64 ≡ part * 1000000 = omega arith in
    let scaled : part * 1000000 ≤ whole * 1000000 = omega arith in
    rw small (refl, div-le_of_le-mul whole scaled)

-- After any packets with counters of eight bytes at a new session, of which the highest accepted
-- counter is above 0 and below 2 ^ 44: no more packets were accepted than this counter says, and
-- the loss that View reports is the part of the counters up to it that were not accepted, in
-- millionths and rounded down, at most 1000000.
pub view-loss_ppm :
    (cs : List (ℕ × ℕ))
    → AreCounters cs
    → let got = accepted cs new_receiver in
      0 < highest got
      → highest got < 2 ^ 44
      → ((view (after cs new_receiver).stats).loss_ppm
          ≡ (highest got - length got) * 1000000 / highest got)
        × (length got ≤ highest got)
        × ((view (after cs new_receiver).stats).loss_ppm ≤ 1000000)
unfolding view
view-loss_ppm cs h pos fits =
    let r = after cs new_receiver in
    let got = accepted cs new_receiver in
    let (same, le) = after-accepted_le cs h in
    let (count, top) = after-accepted cs h in
    let whole : r.stats.rx_high ≡ highest got = same ∙ top in
    let (exact, most) = ppm-exact (highest got - length got) (highest got) (omega arith) fits in
    let some_packet : ltb 0 (highest got) ≡ true = ground arith in
    let bound : length got ≤ highest got = omega (arith, count, whole, le) in
    let sound : leb (length got) (highest got) ≡ true = ground (arith, bound) in
    rw (whole, count, some_packet, sound) (exact, bound, most)
