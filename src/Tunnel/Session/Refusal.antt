-- ===== src/Tunnel/Session/Refusal.antt =====
-- pkg/tunnel/session.go: the session after a packet that OpenInto refuses.
use go_port_forward.Base.{
  ℕ, ◌+◌, ◌-◌, ◌≡◌, refl, List, [], ◌∷◌, ltb, length, take, drop, get_or, Bool-cases, Option-cases,
  inl, inr,
}
use go_port_forward.Base.Bytes.{get_be}
use go_port_forward.Tunnel.Protocol.{err, TunnelError}
use go_port_forward.Tunnel.Stats.{Stats}
use go_port_forward.Tunnel.Replay.Spec.{Seen, Refines}
use go_port_forward.Tunnel.Replay.Window.{Refines-same, accept_counter-cases}
use go_port_forward.Tunnel.Session.{
  Aead, Session, nonce_of, with_stats, count_bad, count_auth_fail, admit, open_into,
}

-- All but the statistics are those of `s`, and the counters that its window holds are `seen`.
pub record IsUnmoved (s : Session) (seen : Seen) (t : Session) : Type 0 where
  pub keys : (t.send_key ≡ s.send_key) × (t.recv_key ≡ s.recv_key)
  pub settings : (t.send_ctr ≡ s.send_ctr) × (t.feats ≡ s.feats) × (t.mtu ≡ s.mtu)
  pub fec : t.fec ≡ s.fec
  pub window : Refines t.receiver seen

with_stats-IsUnmoved :
    (f : Stats → Stats) (s : Session) (seen : Seen)
    → Refines s.receiver seen
    → IsUnmoved s seen (with_stats f s)
with_stats-IsUnmoved f s seen v = record {
  keys = (refl, refl);
  settings = (refl, refl, refl);
  fec = refl;
  window = Refines-same v refl refl refl;
}

unmoved : (s : Session) (seen : Seen) → Refines s.receiver seen → IsUnmoved s seen s
unmoved s seen v = record {
  keys = (refl, refl);
  settings = (refl, refl, refl);
  fec = refl;
  window = v;
}

admit-IsUnmoved :
    (a : Aead) (now typ counter : ℕ) (body plain : List ℕ) (s : Session) (seen : Seen)
    (e : TunnelError)
    → Refines s.receiver seen
    → (admit a now typ counter body plain s).1 ≡ err e
    → IsUnmoved s seen (admit a now typ counter body plain s).0
unfolding admit
admit-IsUnmoved a now typ counter body plain s seen e v refused =
    elim (accept_counter-cases now s.receiver seen counter v) [
      | inl (_, said, _) ↦ absurd (cc (rw said at refused))
      | inr (_, said, v') ↦
          rw said
            (record { keys = (refl, refl); settings = (refl, refl, refl); fec = refl; window = v' })
    ]

-- Whatever the packet and the error: a session whose window holds the counters `seen` has the same
-- keys, send counter, settings and error correction after a packet that it refused, and its window
-- holds the same counters.
pub open_into-IsUnmoved :
    (a : Aead) (now base room : ℕ) (p : List ℕ) (s : Session) (seen : Seen) (e : TunnelError)
    → Refines s.receiver seen
    → (open_into a now base room p s).1 ≡ err e
    → IsUnmoved s seen (open_into a now base room p s).0
unfolding open_into
open_into-IsUnmoved a now base room p s seen e v refused = elim (Bool-cases (ltb (length p) 25)) [
  | inl short ↦ rw short (with_stats-IsUnmoved count_bad s seen v)
  | inr long ↦ elim (Bool-cases (ltb room (base + length (drop 9 p) - 16 + 12))) [
    | inl narrow ↦ rw (long, narrow) (unmoved s seen v)
    | inr wide ↦
        let box =
          a.open_box s.recv_key (nonce_of (get_be (take 8 (drop 1 p)))) (drop 9 p)
            (get_or p 0 0 ∷ []) in
        elim (Option-cases box) [
          | inl forged ↦ rw (long, wide, forged) (with_stats-IsUnmoved count_auth_fail s seen v)
          | inr (plain, opened) ↦
              rw (long, wide, opened)
                (admit-IsUnmoved a now (get_or p 0 0) (get_be (take 8 (drop 1 p))) (drop 9 p) plain
                  s seen e v (rw (long, wide, opened) at refused))
        ]
  ]
]
