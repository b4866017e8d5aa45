-- ===== src/Tunnel/Replay/Counts.antt =====
-- The statistics that acceptCounter keeps, against the set of the counters seen.
use go_port_forward.Base.{
  ℕ, zero, suc, ◌+◌, ◌-◌, ◌^◌, ◌≤◌, ◌<◌, ◌≡◌, refl, sym, ap, ◌∙◌, Bool, true, false, List, [], ◌∷◌,
  arith, inl, inr, ◌==◌, if◌then◌else◌, length, max, Bool-cases,
}
use go_port_forward.Tunnel.Stats.{observe_arrival, add_u64}
use go_port_forward.Tunnel.Replay.{
  Receiver, new_receiver, accept_counter, accepted, after, count_accepted, count_replayed,
}
use go_port_forward.Tunnel.Replay.Spec.{Seen, fresh, see, Refines}
use go_port_forward.Tunnel.Replay.Window.{accept_counter-cases}
use go_port_forward.Tunnel.Replay.History.{nothing_seen, new_receiver-Refines}

-- How many of the counters 1, …, n were seen.
pub count_seen : (ℕ → Bool) → ℕ → ℕ
count_seen p zero = 0
count_seen p (suc n) = count_seen p n + (if p (suc n) then 1 else 0)

count_seen-le : (p : ℕ → Bool) (n : ℕ) → count_seen p n ≤ n
unfolding count_seen
count_seen-le p zero = omega arith
count_seen-le p (suc n) = ground (arith, count_seen-le p n)

-- Nothing is seen above `m`.
count_seen-above :
    (p : ℕ → Bool) (m k : ℕ)
    → ((d : ℕ) → m < d → p d ≡ false)
    → count_seen p (k + m) ≡ count_seen p m
unfolding count_seen
count_seen-above p m zero h = ap (count_seen p) (omega arith)
count_seen-above p m (suc k) h =
    let e : suc k + m ≡ suc (k + m) = omega arith in
    rw e (ground (arith, count_seen-above p m k h, h (suc (k + m))))

abbrev also : (ℕ → Bool) → ℕ → ℕ → Bool
also p c d = if c == d then true else p d

count_seen-also_above : (p : ℕ → Bool) (c n : ℕ) → n < c → count_seen (also p c) n ≡ count_seen p n
unfolding count_seen
count_seen-also_above p c zero h = refl
count_seen-also_above p c (suc n) h = ground (arith, count_seen-also_above p c n)

count_seen-also :
    (p : ℕ → Bool) (c n : ℕ)
    → p c ≡ false
    → 0 < c
    → c ≤ n
    → count_seen (also p c) n ≡ count_seen p n + 1
unfolding count_seen
count_seen-also p c zero new pos h = absurd (omega arith)
count_seen-also p c (suc n) new pos h =
    ground (arith, count_seen-also p c n, count_seen-also_above p c n, ap p)

-- The statistics show the highest counter and the number of counters accepted.
pub record IsCounted (r : Receiver) (s : Seen) : Type 0 where
  pub high : r.stats.rx_high ≡ s.high
  pub accepted : r.stats.rx_accepted ≡ count_seen s.seen s.high

pub IsCounted-le : (r : Receiver) (s : Seen) → IsCounted r s → r.stats.rx_accepted ≤ r.stats.rx_high
IsCounted-le r s v = omega (arith, v.high, v.accepted, count_seen-le s.seen s.high)

-- What a call does to the counters of the statistics, told by its answer.
stats_accepted :
    (now : ℕ) (r : Receiver) (c : ℕ)
    → (accept_counter now r c).1 ≡ true
    → let q = (accept_counter now r c).0 in
      (q.stats.rx_high ≡ q.recv_max)
      × (q.stats.rx_accepted ≡ add_u64 r.stats.rx_accepted 1)
      × (q.stats.rx_replayed ≡ r.stats.rx_replayed)
unfolding accept_counter count_accepted observe_arrival
stats_accepted now r c h = ground arith

stats_replayed :
    (now : ℕ) (r : Receiver) (c : ℕ)
    → (accept_counter now r c).1 ≡ false
    → let q = (accept_counter now r c).0 in
      (q.stats.rx_high ≡ r.stats.rx_high)
      × (q.stats.rx_accepted ≡ r.stats.rx_accepted)
      × (q.stats.rx_replayed ≡ add_u64 r.stats.rx_replayed 1)
unfolding accept_counter count_replayed
stats_replayed now r c h = ground arith

unseen :
    (s : Seen) → ((d : ℕ) → s.seen d ≡ true → d ≤ s.high) → (d : ℕ) → s.high < d → s.seen d ≡ false
unseen s below d h = elim (Bool-cases (s.seen d)) [
  | inl e ↦ absurd (omega (arith, below d e))
  | inr e ↦ e
]

count_seen-see :
    (s : Seen) (c : ℕ)
    → fresh s c ≡ true
    → ((d : ℕ) → s.seen d ≡ true → d ≤ s.high)
    → count_seen (see s c).seen (see s c).high ≡ count_seen s.seen s.high + 1
unfolding see fresh
count_seen-see s c new below =
    let top = max s.high c in
    let k = top - s.high in
    let split : k + s.high ≡ top = omega arith in
    count_seen-also s.seen c top (ground arith) (ground arith) (omega arith)
    ∙ ap (λ (n : ℕ). count_seen s.seen n + 1) (sym split)
    ∙ ap (λ (n : ℕ). n + 1) (count_seen-above s.seen s.high k (unseen s below))

-- What a call adds: an accepted counter is one more, and may be the highest.
abbrev IsAdded : Bool → Receiver → ℕ → Receiver → Type 0
IsAdded said r c q =
    (q.stats.rx_accepted ≡ (if said then r.stats.rx_accepted + 1 else r.stats.rx_accepted))
    × (q.recv_max ≡ (if said then max r.recv_max c else r.recv_max))

-- One call keeps the statistics right, as long as the counters stay below 2 ^ 64.
accept_counter-IsCounted :
    (now : ℕ) (r : Receiver) (s : Seen) (c : ℕ)
    → Refines r s
    → IsCounted r s
    → s.high < 2 ^ 64
    → c < 2 ^ 64
    → (s' : Seen) × Refines (accept_counter now r c).0 s'
      × IsCounted (accept_counter now r c).0 s'
      × (s'.high < 2 ^ 64)
      × IsAdded (accept_counter now r c).1 r c (accept_counter now r c).0
unfolding see
accept_counter-IsCounted now r s c v n hi small = elim (accept_counter-cases now r s c v) [
  | inl (new, said, v') ↦
      let (a, b, _) = stats_accepted now r c said in
      let e = count_seen-see s c new v.below in
      let le = count_seen-le (see s c).seen (see s c).high in
      (
        see s c,
        v',
        record { high = a ∙ v'.high; accepted = omega (arith, b, n.accepted, e, le) },
        omega arith,
        rw said (omega (arith, b, n.accepted, e, le), omega (arith, v.high, v'.high)),
      )
  | inr (_, said, v') ↦
      let (a, b, _) = stats_replayed now r c said in
      (
        s,
        v',
        record { high = a ∙ n.high; accepted = b ∙ n.accepted },
        hi,
        rw said (b, v'.high ∙ sym v.high),
      )
]

-- Counters off the wire are eight bytes.
abbrev pub AreCounters : List (ℕ × ℕ) → Type 0
AreCounters [] = Unit {0}
AreCounters ((now, c) ∷ cs) = (c < 2 ^ 64) × AreCounters cs

after-IsCounted :
    (cs : List (ℕ × ℕ)) (r : Receiver) (s : Seen)
    → Refines r s
    → IsCounted r s
    → s.high < 2 ^ 64
    → AreCounters cs
    → (s' : Seen) × Refines (after cs r) s' × IsCounted (after cs r) s'
unfolding after
after-IsCounted [] r s v n hi h = (s, v, n)
after-IsCounted ((now, c) ∷ cs) r s v n hi h =
    let (s', v', n', hi', _) = accept_counter-IsCounted now r s c v n hi h.0 in
    after-IsCounted cs _ s' v' n' hi' h.1

new_receiver-IsCounted : IsCounted new_receiver nothing_seen
unfolding new_receiver count_seen
new_receiver-IsCounted = record { high = refl; accepted = refl }

unfoldable pub highest : List ℕ → ℕ
highest [] = 0
highest (c ∷ cs) = max c (highest cs)

after-added :
    (cs : List (ℕ × ℕ)) (r : Receiver) (s : Seen)
    → Refines r s
    → IsCounted r s
    → s.high < 2 ^ 64
    → AreCounters cs
    → ((after cs r).stats.rx_accepted ≡ r.stats.rx_accepted + length (accepted cs r))
      × ((after cs r).recv_max ≡ max r.recv_max (highest (accepted cs r)))
unfolding after accepted highest
after-added [] r s v n hi h = (omega arith, omega arith)
after-added ((now, c) ∷ cs) r s v n hi h =
    let (s', v', n', hi', (a, m)) = accept_counter-IsCounted now r s c v n hi h.0 in
    let (b, t) = after-added cs _ s' v' n' hi' h.1 in
    elim (Bool-cases (accept_counter now r c).1) [
      | inl said ↦ ground (arith, said, a, m, b, t)
      | inr said ↦ ground (arith, said, a, m, b, t)
    ]

-- The statistics count the accepted packets, and the window ends at the highest of them.
pub after-accepted :
    (cs : List (ℕ × ℕ))
    → AreCounters cs
    → ((after cs new_receiver).stats.rx_accepted ≡ length (accepted cs new_receiver))
      × ((after cs new_receiver).recv_max ≡ highest (accepted cs new_receiver))
unfolding new_receiver
after-accepted cs h =
    let (a, m) =
      after-added cs new_receiver nothing_seen new_receiver-Refines new_receiver-IsCounted
        (omega arith) h in
    (omega (arith, a), omega (arith, m))

-- After any packets with counters of eight bytes at a new session, the highest counter that the
-- statistics show is that of the window, and at most as many packets were accepted as it says were
-- sent.
pub after-accepted_le :
    (cs : List (ℕ × ℕ))
    → AreCounters cs
    → let r = after cs new_receiver in
      (r.stats.rx_high ≡ r.recv_max) × (r.stats.rx_accepted ≤ r.stats.rx_high)
after-accepted_le cs h =
    let (s, v, n) =
      after-IsCounted cs new_receiver nothing_seen new_receiver-Refines new_receiver-IsCounted
        (omega arith) h in
    (n.high ∙ sym v.high, IsCounted-le (after cs new_receiver) s n)

-- As long as the sum stays below 2 ^ 64, every packet is counted once, as accepted or as replayed.
pub after-counted :
    (cs : List (ℕ × ℕ)) (r : Receiver)
    → r.stats.rx_accepted + r.stats.rx_replayed + length cs < 2 ^ 64
    → (after cs r).stats.rx_accepted + (after cs r).stats.rx_replayed
      ≡ r.stats.rx_accepted + r.stats.rx_replayed + length cs
unfolding after
after-counted [] r h = omega arith
after-counted ((now, c) ∷ cs) r h =
    let q = (accept_counter now r c).0 in
    let e : q.stats.rx_accepted + q.stats.rx_replayed
        ≡ r.stats.rx_accepted + r.stats.rx_replayed + 1 =
      elim (Bool-cases (accept_counter now r c).1) [
        | inl said ↦ omega (arith, stats_accepted now r c said)
        | inr said ↦ omega (arith, stats_replayed now r c said)
      ] in
    omega (arith, after-counted cs q (omega arith))
