-- ===== src/Tunnel/Session/Probes.antt =====
-- pkg/tunnel/session.go: pings and pongs, sealed on one side and opened on the other.
use go_port_forward.Base.{
  ℕ, ◌+◌, ◌≡◌, ◌≤◌, refl, ap, ◌∙◌, List, [], ◌∷◌, true, false, ltb, ◌==◌, length, take, min,
  replicate, get_or, arith, length-replicate, take-eq_self,
}
use go_port_forward.Base.Bytes.{put_be, get_be, get_be-put_be, length-put_be}
use go_port_forward.Tunnel.Protocol.{ok, type_ping, type_pong}
use go_port_forward.Tunnel.Replay.Spec.{Seen, fresh, Refines}
use go_port_forward.Tunnel.Session.{
  Aead, Session, next_counter, seal_into, seal_counter, seal_ping, seal_pong, open_into, open_typed,
  open_ping, open_pong,
}
use go_port_forward.Tunnel.Session.Opening.{open_into-seal_into}

open_typed-open_into :
    (a : Aead) (typ now base room : ℕ) (p plain : List ℕ) (s : Session)
    → 1 ≤ length p
    → get_or p 0 0 ≡ typ
    → (open_into a now base room p s).1 ≡ ok (plain, typ)
    → (open_typed a typ now base room p s).1 ≡ ok plain
unfolding open_typed
open_typed-open_into a typ now base room p plain s some_byte t opened =
    let size : ltb (length p) 1 ≡ false = ground arith in
    let same : (get_or p 0 0 == typ) ≡ true = ground (arith, t) in rw (size, same, opened) refl

module _ (a : Aead) (from to : Session) (keys : from.send_key ≡ to.recv_key) (now : ℕ) (seen : Seen)
    (v : Refines to.receiver seen) (new : fresh seen (next_counter from) ≡ true) where
  open_typed-seal_into :
      (typ : ℕ) (plain : List ℕ)
      → length plain + 12 ≤ 2000
      → (open_typed a typ now 0 2000 (seal_into a typ [] plain from).1 to).1 ≡ ok plain
  unfolding seal_into seal_counter
  open_typed-seal_into typ plain fits =
      let opened =
        (open_into-seal_into a from to keys typ plain now now 0 2000 seen v new (omega arith)).0 in
      open_typed-open_into a typ now 0 2000 (seal_into a typ [] plain from).1 plain to (omega arith)
        refl opened

  -- Where one side seals with the key that the other opens with and the counter is fresh, a ping
  -- with at most 1987 bytes of padding opens to its probe and the length of its plain text.
  pub open_ping-seal_ping :
      (probe pad : ℕ)
      → pad ≤ 1987
      → (open_ping a now (seal_ping a [] probe pad from).1 to).1 ≡ ok (probe, pad + 1)
  unfolding open_ping seal_ping
  open_ping-seal_ping probe pad fits =
      let size = length-replicate {A = ℕ} pad 0 in
      rw (open_typed-seal_into type_ping (probe ∷ replicate pad 0) (omega (arith, size)))
        (ground (arith, size))

  -- Where one side seals with the key that the other opens with and the counter is fresh, a pong
  -- opens to its probe and the observed length, which is cut to 65535.
  pub open_pong-seal_pong :
      (probe observed : ℕ)
      → (open_pong a now (seal_pong a [] probe observed from).1 to).1
        ≡ ok (probe, min observed 65535)
  unfolding open_pong seal_pong
  open_pong-seal_pong probe observed =
      let size = length-put_be 2 (min observed 65535) in
      let value : get_be (take 2 (put_be 2 (min observed 65535))) ≡ min observed 65535 =
        ap get_be (take-eq_self 2 (put_be 2 (min observed 65535)) size)
        ∙ get_be-put_be 2 (min observed 65535) (omega arith) in
      rw
        (open_typed-seal_into type_pong (probe ∷ put_be 2 (min observed 65535))
          (omega (arith, size)))
        (ground (arith, size, value))
