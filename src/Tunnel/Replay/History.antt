-- ===== src/Tunnel/Replay/History.antt =====
-- acceptCounter over the life of a session.
use mathlib.Core.HLevel.{⊥_prop}
use mathlib.Core.List.{Mem, Nodup, mem-cons, not-mem-nil, Nodup-cons, Nodup-nil}
use mathlib.Core.Logic.Or
use go_port_forward.Base.{
  ℕ, ◌%◌, ◌≡◌, refl, ap, true, false, List, [], ◌∷◌, arith, inl, inr, length-replicate,
  get_or-replicate,
}
use go_port_forward.Base.Bits.{bit_at-replicate}
use go_port_forward.Tunnel.Replay.{Receiver, new_receiver, accepted, window_base}
use go_port_forward.Tunnel.Replay.Spec.{Seen, fresh, see, Refines}
use go_port_forward.Tunnel.Replay.Window.{accept_counter-cases}

abbrev pub nothing_seen : Seen
nothing_seen = record { seen = λ c. false; high = 0 }

-- A new session has seen nothing.
pub new_receiver-Refines : Refines new_receiver nothing_seen
unfolding new_receiver window_base
new_receiver-Refines = record {
  high = refl;
  base = refl;
  bitmap = record {
    full = length-replicate {A = ℕ} 1024 0;
    bytes = λ i. ground (arith, get_or-replicate {A = ℕ} 1024 0 i);
  };
  below = λ c h. cc;
  bits = λ c lo hi. bit_at-replicate 1024 (c % 8192);
}

see-old : (s : Seen) (c d : ℕ) → s.seen d ≡ true → (see s c).seen d ≡ true
unfolding see
see-old s c d h = ground arith

pub see-new : (s : Seen) (c : ℕ) → (see s c).seen c ≡ true
unfolding see
see-new s c = ground arith

fresh-unseen : (s : Seen) (c : ℕ) → fresh s c ≡ true → s.seen c ≡ false
unfolding fresh
fresh-unseen s c h = ground arith

-- A counter that was seen is not accepted again, by any later packets.
accepted-unseen :
    (cs : List (ℕ × ℕ)) (r : Receiver) (s : Seen) (c : ℕ)
    → Refines r s
    → s.seen c ≡ true
    → ¬ Mem c (accepted cs r)
unfolding accepted
accepted-unseen [] r s c v old = not-mem-nil
accepted-unseen ((now, d) ∷ cs) r s c v old = elim (accept_counter-cases now r s d v) [
  | inl (new, said, v') ↦ rw said λ m.
      Or.elim ⊥_prop (mem-cons.0 m) (λ e. cc (fresh-unseen s d new, old, ap s.seen e))
        (accepted-unseen cs _ (see s d) c v' (see-old s d c old))
  | inr (_, said, v') ↦ rw said (accepted-unseen cs _ s c v' old)
]

accepted-distinct :
    (cs : List (ℕ × ℕ)) (r : Receiver) (s : Seen) → Refines r s → Nodup (accepted cs r)
unfolding accepted
accepted-distinct [] r s v = Nodup-nil
accepted-distinct ((now, d) ∷ cs) r s v = elim (accept_counter-cases now r s d v) [
  | inl (new, said, v') ↦ rw said (
      Nodup-cons.1
        (accepted-unseen cs _ (see s d) d v' (see-new s d), accepted-distinct cs _ (see s d) v'))
  | inr (_, said, v') ↦ rw said (accepted-distinct cs _ s v')
]

-- However the packets of a new session are repeated and reordered, no counter is accepted twice.
pub accepted-Nodup : (cs : List (ℕ × ℕ)) → Nodup (accepted cs new_receiver)
accepted-Nodup cs = accepted-distinct cs new_receiver nothing_seen new_receiver-Refines
