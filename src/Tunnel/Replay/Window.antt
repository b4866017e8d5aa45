-- ===== src/Tunnel/Replay/Window.antt =====
-- pkg/tunnel/session.go: acceptCounter against its specification.
use go_port_forward.Base.{
  ℕ, ◌+◌, ◌%◌, ◌≤◌, ◌<◌, ◌≡◌, ◌≢◌, refl, Bool, true, false, max, ◌∙◌, List, arith, ltb, ltb→lt,
  ◌==◌, ==_iff, if◌then◌else◌, Bool-cases, ◌⊎◌, inl, inr,
}
use go_port_forward.Base.Bits.{bit_at, set_bit, bit_at-set_bit, set_bit-IsBytes, length-set_bit}
use go_port_forward.Tunnel.Replay.{
  Receiver, window_base, advance, mark, accept_counter, count_replayed, count_accepted,
}
use go_port_forward.Tunnel.Replay.Clearing.{IsBitmap}
use go_port_forward.Tunnel.Replay.Spec.{Seen, fresh, see, spec_accept, Refines}
use go_port_forward.Tunnel.Replay.Advance.{advance-bits, advance-IsBitmap}

-- The state before the mark: the window ends at `c` or above and still shows the counters of `s`.
record Covers (r : Receiver) (s : Seen) (c : ℕ) : Type 0 where
  some_counter : c ≢ 0
  high : r.recv_max ≡ max s.high c
  base : r.recv_base ≡ window_base r.recv_max
  bitmap : IsBitmap r.recv_bits
  below : (d : ℕ) → s.seen d ≡ true → d ≤ s.high
  bits :
      (d : ℕ) → r.recv_base ≤ d → d < r.recv_base + 8192 → bit_at r.recv_bits (d % 8192) ≡ s.seen d

-- A state with the window of `r` and other statistics.
pub Refines-same :
    {r q : Receiver} {s : Seen}
    → Refines r s
    → q.recv_max ≡ r.recv_max
    → q.recv_base ≡ r.recv_base
    → q.recv_bits ≡ r.recv_bits
    → Refines q s
Refines-same {r} {q} {s} v m b e = record {
  high = m ∙ v.high;
  base = b ∙ v.base;
  bitmap = rw e v.bitmap;
  below = v.below;
  bits = λ d lo hi. ground (arith, v.bits d);
}

module _ (r : Receiver) (s : Seen) (c : ℕ) (v : Covers r s c) (lo : r.recv_base ≤ c) where
  c-lt : c < r.recv_base + 8192
  unfolding window_base
  c-lt = ground (arith, v.base, v.high)

  marked : List ℕ
  marked = set_bit r.recv_bits (c % 8192)

  marked-bits :
      (d : ℕ)
      → r.recv_base ≤ d
      → d < r.recv_base + 8192
      → bit_at marked (d % 8192) ≡ (if c == d then true else s.seen d)
  unfolding marked
  marked-bits d p q = ground (
    arith,
    c-lt,
    v.bits d,
    v.bitmap.full,
    bit_at-set_bit r.recv_bits v.bitmap.bytes (c % 8192) (omega (arith, v.bitmap.full)) (d % 8192),
  )

  marked-IsBitmap : IsBitmap marked
  unfolding marked
  marked-IsBitmap = record {
    full = length-set_bit r.recv_bits (c % 8192) ∙ v.bitmap.full;
    bytes = set_bit-IsBytes r.recv_bits v.bitmap.bytes (c % 8192) (omega (arith, v.bitmap.full));
  }

  marked-Refines : Refines (record r { recv_bits = marked }) (see s c)
  unfolding see
  marked-Refines = record {
    high = v.high;
    base = ground (arith, v.base, v.high);
    bitmap = marked-IsBitmap;
    below = λ d h. ground (arith, v.below d);
    bits = marked-bits;
  }

-- A counter that the window or a set bit rejects is not fresh, and the window did not move.
module _ (r : Receiver) (s : Seen) (c : ℕ) (v : Covers r s c) where
  stale_below : c < r.recv_base → (fresh s c ≡ false) × (c ≤ s.high)
  unfolding fresh window_base
  stale_below h = ground (arith, v.base, v.high, v.some_counter)

  stale_seen : s.seen c ≡ true → (fresh s c ≡ false) × (c ≤ s.high)
  unfolding fresh
  stale_seen h = ground (arith, v.below c h)

  fresh_unseen : r.recv_base ≤ c → s.seen c ≡ false → fresh s c ≡ true
  unfolding fresh window_base
  fresh_unseen h e = ground (arith, v.base, v.high, v.some_counter)

  replayed-Refines : c ≤ s.high → Refines (count_replayed r) s
  unfolding count_replayed
  replayed-Refines h = record {
    high = omega (arith, v.high);
    base = ground (arith, v.base, v.high);
    bitmap = v.bitmap;
    below = v.below;
    bits = v.bits;
  }

-- `mark` agrees with the specification, in its answer and in the state.
abbrev pub Agrees : Receiver × Bool → Seen × Bool → Type 0
Agrees p q = Refines p.0 q.0 × (p.1 ≡ q.1)

mark-Agrees :
    (now : ℕ) (again : Bool) (r : Receiver) (s : Seen) (c : ℕ)
    → Covers r s c
    → Agrees (mark now again r c) (spec_accept s c)
unfolding mark spec_accept count_accepted marked
mark-Agrees now again r s c v = elim (Bool-cases (ltb c r.recv_base)) [
  | inl e ↦
      let (f, h) = stale_below r s c v (ltb→lt c r.recv_base e) in
      rw (e, f) (replayed-Refines r s c v h, refl)
  | inr e ↦
      let lo : r.recv_base ≤ c = ground arith in
      let b = v.bits c lo (c-lt r s c v lo) in
      elim (Bool-cases (s.seen c)) [
        | inl old ↦
            let (f, h) = stale_seen r s c v old in
            rw (e, b, old, f) (replayed-Refines r s c v h, refl)
        | inr new ↦
            rw (e, b, new, fresh_unseen r s c v lo new)
              (Refines-same (marked-Refines r s c v lo) refl refl refl, refl)
      ]
]

advance-Covers :
    (r : Receiver) (s : Seen) (c : ℕ) → Refines r s → r.recv_max < c → Covers (advance r c) s c
unfolding advance
advance-Covers r s c v up = record {
  some_counter = λ e. omega arith;
  high = omega (arith, v.high);
  base = refl;
  bitmap = advance-IsBitmap r s v c up;
  below = v.below;
  bits = advance-bits r s v c up;
}

stay-Covers :
    (r : Receiver) (s : Seen) (c : ℕ) → Refines r s → c ≢ 0 → c ≤ r.recv_max → Covers r s c
stay-Covers r s c v ne old = record {
  some_counter = ne;
  high = omega (arith, v.high);
  base = ground (arith, v.base, v.high);
  bitmap = v.bitmap;
  below = v.below;
  bits = v.bits;
}

zero-Agrees :
    (r : Receiver) (s : Seen) → Refines r s → Agrees (count_replayed r, false) (spec_accept s 0)
unfolding spec_accept fresh count_replayed
zero-Agrees r s v = (Refines-same v refl refl refl, refl)

-- From related states, `accept_counter` accepts exactly the counters that the specification does,
-- and the states after the call are related again.
pub accept_counter-Agrees :
    (now : ℕ) (r : Receiver) (s : Seen) (c : ℕ)
    → Refines r s
    → Agrees (accept_counter now r c) (spec_accept s c)
unfolding accept_counter
accept_counter-Agrees now r s c v = elim (Bool-cases (c == 0)) [
  | inl z ↦ rw (z, (==_iff c 0).0 z) (zero-Agrees r s v)
  | inr nz ↦ elim (Bool-cases (ltb r.recv_max c)) [
    | inl up ↦ rw (nz, up) (mark-Agrees now _ _ s c (advance-Covers r s c v (ltb→lt _ _ up)))
    | inr old ↦
        rw (nz, old) (mark-Agrees now _ r s c (stay-Covers r s c v (ground arith) (ground arith)))
  ]
]

-- The two outcomes of a call, with the state after it.
pub accept_counter-cases :
    (now : ℕ) (r : Receiver) (s : Seen) (c : ℕ)
    → Refines r s
    → ((fresh s c ≡ true)
        × ((accept_counter now r c).1 ≡ true)
        × Refines (accept_counter now r c).0 (see s c))
      ⊎ ((fresh s c ≡ false)
          × ((accept_counter now r c).1 ≡ false)
          × Refines (accept_counter now r c).0 s)
unfolding spec_accept
accept_counter-cases now r s c v =
    let (v', same) = accept_counter-Agrees now r s c v in
    elim (Bool-cases (fresh s c)) [
      | inl new ↦ inl (new, (rw new at same), (rw new at v'))
      | inr old ↦ inr (old, (rw old at same), (rw old at v'))
    ]
