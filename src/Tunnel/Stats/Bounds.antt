-- ===== src/Tunnel/Stats/Bounds.antt =====
-- The values that the statistics of a session can take.
use go_port_forward.Base.{ℕ, ◌≤◌, ◌<◌, List, [], ◌∷◌, min, max, arith}
use go_port_forward.Tunnel.Stats.{Stats, new_stats, smooth, observe_rtt}

smooth_range : (cur x : ℕ) → (min cur x ≤ smooth cur x) × (smooth cur x ≤ max cur x)
unfolding smooth
smooth_range cur x = ground arith

-- The samples of round trips that a session takes, one after the other.
unfoldable pub observe_rtts : List ℕ → Stats → Stats
observe_rtts [] s = s
observe_rtts (d ∷ ds) s = observe_rtts ds (observe_rtt d s)

abbrev pub InRange : (lo hi : ℕ) → List ℕ → Type 0
InRange lo hi [] = Unit {0}
InRange lo hi (d ∷ ds) = (lo ≤ d) × (d ≤ hi) × InRange lo hi ds

observe_rtts-from :
    (lo hi : ℕ) (ds : List ℕ) (s : Stats)
    → 0 < lo
    → lo ≤ s.rtt_nanos
    → s.rtt_nanos ≤ hi
    → InRange lo hi ds
    → (lo ≤ (observe_rtts ds s).rtt_nanos) × ((observe_rtts ds s).rtt_nanos ≤ hi)
unfolding observe_rtts observe_rtt
observe_rtts-from lo hi [] s pos low high h = (low, high)
observe_rtts-from lo hi (d ∷ ds) s pos low high h =
    let step = observe_rtt d s in
    let range = smooth_range s.rtt_nanos d in
    observe_rtts-from lo hi ds step pos (ground (arith, range, h)) (ground (arith, range, h)) h.2

-- If the samples of a new session lie between two bounds, the lower one above 0, then so does the
-- smoothed round-trip time after one sample or more.
pub observe_rtts-range :
    (lo hi d : ℕ) (ds : List ℕ)
    → 0 < lo
    → InRange lo hi (d ∷ ds)
    → let rtt = (observe_rtts (d ∷ ds) new_stats).rtt_nanos in (lo ≤ rtt) × (rtt ≤ hi)
unfolding observe_rtts observe_rtt
observe_rtts-range lo hi d ds pos h =
    observe_rtts-from lo hi ds (observe_rtt d new_stats) pos (ground (arith, h)) (ground (arith, h))
      h.2
