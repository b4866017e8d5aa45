-- ===== src/Tunnel/Session/Opening.antt =====
-- pkg/tunnel/session.go: OpenInto on what SealInto made, the first time and again.
use go_port_forward.Base.{
  ℕ, ◌+◌, ◌-◌, ◌^◌, ◌≡◌, ◌≤◌, ◌<◌, refl, sym, ap, ◌∙◌, List, [], ◌∷◌, ◌++◌, some, true, false, ltb,
  ◌==◌, length, take, drop, get_or, arith, Bool-cases, Option-cases, inl, inr, take-append,
  drop-append, length-append,
}
use go_port_forward.Base.Bytes.{put_be, get_be, get_be-put_be, length-put_be}
use go_port_forward.Tunnel.Protocol.{ok, err, err_replay, type_data}
use go_port_forward.Tunnel.Replay.{accept_counter}
use go_port_forward.Tunnel.Replay.Spec.{Seen, fresh, see, Refines}
use go_port_forward.Tunnel.Replay.Window.{accept_counter-cases, Refines-same}
use go_port_forward.Tunnel.Replay.History.{see-new}
use go_port_forward.Tunnel.Session.{
  Aead, Session, next_counter, nonce_of, seal_counter, seal_into, feed_fec, admit, open_into,
}

-- Feeding the error correction changes neither the keys nor the window.
feed_fec-window :
    (a : Aead) (typ counter : ℕ) (body : List ℕ) (s : Session)
    → ((feed_fec a typ counter body s).recv_key ≡ s.recv_key)
      × ((feed_fec a typ counter body s).receiver.recv_max ≡ s.receiver.recv_max)
      × ((feed_fec a typ counter body s).receiver.recv_base ≡ s.receiver.recv_base)
      × ((feed_fec a typ counter body s).receiver.recv_bits ≡ s.receiver.recv_bits)
unfolding feed_fec
feed_fec-window a typ counter body s = elim (Option-cases s.fec) [
  | inl e ↦ rw e (refl, refl, refl, refl)
  | inr (f, e) ↦ elim (Bool-cases (typ == type_data)) [
    | inl d ↦ rw (e, d) (refl, refl, refl, refl)
    | inr d ↦ rw (e, d) (refl, refl, refl, refl)
  ]
]

-- What `admit` does with a fresh counter, and with one that is not.
admit-fresh :
    (a : Aead) (now typ counter : ℕ) (body plain : List ℕ) (s : Session) (seen : Seen)
    → Refines s.receiver seen
    → fresh seen counter ≡ true
    → let r = admit a now typ counter body plain s in
      (r.1 ≡ ok (plain, typ))
      × (r.0.recv_key ≡ s.recv_key)
      × Refines r.0.receiver (see seen counter)
unfolding admit
admit-fresh a now typ counter body plain s seen v new =
    elim (accept_counter-cases now s.receiver seen counter v) [
      | inl (_, said, v') ↦
          let w =
            feed_fec-window a typ counter body
              (record s { receiver = (accept_counter now s.receiver counter).0 }) in
          rw said (refl, w.0, Refines-same v' w.1 w.2 w.3)
      | inr (old, _, _) ↦ absurd (cc (old, new))
    ]

admit-stale :
    (a : Aead) (now typ counter : ℕ) (body plain : List ℕ) (s : Session) (seen : Seen)
    → Refines s.receiver seen
    → fresh seen counter ≡ false
    → let r = admit a now typ counter body plain s in
      (r.1 ≡ err err_replay) × Refines r.0.receiver seen × (r.0.fec ≡ s.fec)
unfolding admit
admit-stale a now typ counter body plain s seen v old =
    elim (accept_counter-cases now s.receiver seen counter v) [
      | inl (new, _, _) ↦ absurd (cc (old, new))
      | inr (_, said, v') ↦ rw said (refl, v', refl)
    ]

-- A packet in parts, of which the box opens.
open_into-parts :
    (a : Aead) (now base room typ counter : ℕ) (p body plain : List ℕ) (s : Session)
    → 25 ≤ length p
    → get_or p 0 0 ≡ typ
    → get_be (take 8 (drop 1 p)) ≡ counter
    → drop 9 p ≡ body
    → base + length body - 16 + 12 ≤ room
    → a.open_box s.recv_key (nonce_of counter) body (typ ∷ []) ≡ some plain
    → open_into a now base room p s ≡ admit a now typ counter body plain s
unfolding open_into
open_into-parts a now base room typ counter p body plain s long t c b fits opens =
    let size : ltb (length p) 25 ≡ false = ground arith in
    let space : ltb room (base + length (drop 9 p) - 16 + 12) ≡ false = rw b (ground arith) in
    let opens_here : a.open_box s.recv_key (nonce_of (get_be (take 8 (drop 1 p)))) (drop 9 p)
          (get_or p 0 0 ∷ [])
        ≡ some plain =
      rw (t, c, b) opens in
    rw (size, space, opens_here) (cc (t, c, b))

seen-stale : (s : Seen) (c : ℕ) → fresh (see s c) c ≡ false
unfolding fresh
seen-stale s c = ground (arith, see-new s c)

module _ (a : Aead) (from to : Session) (keys : from.send_key ≡ to.recv_key) (typ : ℕ)
    (plain : List ℕ) where
  abbrev packet : List ℕ
  packet = (seal_into a typ [] plain from).1

  abbrev counter : ℕ
  counter = next_counter from

  abbrev body : List ℕ
  body = a.seal from.send_key (nonce_of counter) plain (typ ∷ [])

  packet-parts : packet ≡ typ ∷ (put_be 8 counter ++ body)
  unfolding seal_into seal_counter
  packet-parts = refl

  counter_fits : counter < 256 ^ 8
  unfolding next_counter
  counter_fits = omega arith

  open_into-packet :
      (now base room : ℕ) (s : Session)
      → s.recv_key ≡ to.recv_key
      → base + length plain + 12 ≤ room
      → open_into a now base room packet s ≡ admit a now typ counter body plain s
  open_into-packet now base room s same fits =
      let size = length-put_be 8 counter in
      let long = a.length-seal from.send_key (nonce_of counter) plain (typ ∷ []) in
      rw packet-parts (
        open_into-parts a now base room typ counter (typ ∷ (put_be 8 counter ++ body)) body plain s
          (omega (arith, length-append (put_be 8 counter) body, size, long)) refl
          (ap get_be (take-append 8 (put_be 8 counter) body size)
            ∙ get_be-put_be 8 counter counter_fits)
          (drop-append 8 (put_be 8 counter) body size) (omega (arith, long))
          (rw (same, sym keys) (a.open_seal from.send_key (nonce_of counter) plain (typ ∷ []))))

  -- Where one side seals with the key that the other opens with, the receiver's window holds the
  -- counters `seen`, the counter of the packet is fresh for them and the buffer has room for the
  -- plain text and twelve bytes: the packet opens to its plain text and type, and then it is seen.
  -- The same packet again is refused as a replay.
  pub open_into-seal_into :
      (now later base room : ℕ) (seen : Seen)
      → Refines to.receiver seen
      → fresh seen (next_counter from) ≡ true
      → base + length plain + 12 ≤ room
      → let first = open_into a now base room (seal_into a typ [] plain from).1 to in
        let second = open_into a later base room (seal_into a typ [] plain from).1 first.0 in
        (first.1 ≡ ok (plain, typ))
        × (second.1 ≡ err err_replay)
        × Refines second.0.receiver (see seen (next_counter from))
  open_into-seal_into now later base room seen v new fits =
      let one = open_into-packet now base room to refl fits in
      let (good, key, v') = admit-fresh a now typ counter body plain to seen v new in
      let s = (admit a now typ counter body plain to).0 in
      let (bad, v2, same) =
        admit-stale a later typ counter body plain s (see seen counter) v'
          (seen-stale seen counter) in
      rw (one, open_into-packet later base room s key fits) (good, bad, v2)
