-- ===== src/Relay/Replies.antt =====
-- internal/tunnelapp/tunnelapp.go, handleHello: what it sends back.
use go_port_forward.Base.{
  ℕ, ◌≡◌, ◌<◌, ◌⊎◌, inl, inr, refl, ap, sym, subst, ◌∙◌, List, [], ◌∷◌, none, some, length, arith,
  Bool-cases, Option-cases,
}
use go_port_forward.Base.Keys.{Eq}
use go_port_forward.Tunnel.Protocol.{
  err_auth, err_bad_packet, err_replay, err_old_version, err_short_buffer, TunnelError, reason_byte,
}
use go_port_forward.Tunnel.Mac.{Hmac}
use go_port_forward.Tunnel.Handshake.Hello.{ClientHello}
use go_port_forward.Tunnel.Handshake.Hello.RoundTrip.{peek_hello-ok}
use go_port_forward.Tunnel.Handshake.Accept.RoundTrip.{length-marshal}
use go_port_forward.Tunnel.Handshake.Accept
use go_port_forward.Tunnel.Handshake.Accept.{
  Addr, as4, is4, ServerAccept, new_server_accept, accept_mac,
}
use go_port_forward.Tunnel.Handshake.Reject.{length-marshal as length-marshal-reject}
use go_port_forward.Tunnel.Legacy.{legacy_version_reject, peek_legacy_hello_uid}
use go_port_forward.Tunnel.Legacy.Probe.{length-legacy_version_reject}
use go_port_forward.Tunnel.Session.{Hkdf}
use go_port_forward.Tunnel.Signed.{
  IsSigned, legacy_version_reject-IsSigned, parse_client_hello-IsSigned,
}
use go_port_forward.Relay.{Identity, Relay, Binder, RelayState}
use go_port_forward.Relay.Hello.{
  Fresh, Answer, silent, open_session, answer, admit_hello, handle_hello, answer_bad,
  reply_version_mismatch,
}
use go_port_forward.Relay.Routes.{
  Result-cases, Way, refused, passed, way, Route, bad, ignored, authenticated, route,
}

-- At most one datagram, shorter than the packet.
abbrev pub IsSmall : List (List ℕ) → ℕ → Type 0
IsSmall ws n = (ws ≡ []) ⊎ ((w : List ℕ) × (ws ≡ w ∷ []) × (length w < n))

module _ {Str AddrPort D Push : Type 0} ⦃es : Eq Str⦄ ⦃ea : Eq AddrPort⦄ (k : Binder Str AddrPort D)
    (r : Relay) (m : Hmac) (kdf : Hkdf) (fresh : Fresh) (from : AddrPort)
    (st : RelayState Str AddrPort D Push) where
  replies_as : {x y : Answer Str AddrPort D Push} → x ≡ y → x.replies ≡ y.replies
  replies_as e = ap (λ (z : Answer Str AddrPort D Push). z.replies) e

  IsSmall-as :
      {x y : Answer Str AddrPort D Push} (n : ℕ) → x ≡ y → IsSmall y.replies n → IsSmall x.replies n
  IsSmall-as n e h = subst (λ (z : Answer Str AddrPort D Push). IsSmall z.replies n) (sym e) h

  answer-IsSmall :
      (ident : Identity Str) (h : ClientHello) (a : Addr) (st₁ : RelayState Str AddrPort D Push)
      → length (as4 a) ≡ 4
      → length (as4 r.gateway) ≡ 4
      → length fresh.eph ≡ 32
      → IsSmall (answer r m kdf fresh ident h a from st₁).replies 154
  unfolding answer open_session
  answer-IsSmall ident h a st₁ ha hg he =
      elim (Result-cases (
        new_server_accept m ident.secret h.eph a r.gateway r.pool_bits r.tun_mtu r.feats
          fresh.eph)) [
            | inl (e, f) ↦ inl (ground (arith, f))
            | inr (accept, f) ↦ elim (Bool-cases fresh.written) [
              | inr t ↦ inl (ground (arith, f, t))
              | inl t ↦
                  let size =
                    length-marshal m ident.secret h.eph a r.gateway r.pool_bits r.tun_mtu r.feats
                      fresh.eph accept ha hg he f in
                  inr (Accept.marshal accept, ground (arith, f, t), omega (arith, size))
            ]
          ]

  reply_version_mismatch-IsSmall :
      (pkt : List ℕ) → IsSmall (reply_version_mismatch k m fresh.now pkt st) (length pkt)
  unfolding reply_version_mismatch
  reply_version_mismatch-IsSmall pkt = elim (Option-cases (peek_legacy_hello_uid pkt)) [
    | inl n ↦ inl (ground (arith, n))
    | inr (uid, f) ↦ elim (Option-cases (k.identity uid st.store)) [
      | inl n ↦ inl (ground (arith, f, n))
      | inr (ident, g) ↦ elim (Option-cases (legacy_version_reject m ident.secret fresh.now pkt)) [
        | inl n ↦ inl (ground (arith, f, g, n))
        | inr (wire, w) ↦
            let size = length-legacy_version_reject m ident.secret fresh.now pkt wire w in
            inr (wire, ground (arith, f, g, w), omega (arith, size))
      ]
    ]
  ]

  answer_bad-IsSmall :
      (pkt : List ℕ) (e : TunnelError)
      → IsSmall (answer_bad k m fresh.now pkt st e).replies (length pkt)
  unfolding answer_bad
  answer_bad-IsSmall pkt err_old_version = reply_version_mismatch-IsSmall pkt
  answer_bad-IsSmall pkt err_auth = inl refl
  answer_bad-IsSmall pkt err_bad_packet = inl refl
  answer_bad-IsSmall pkt err_replay = inl refl
  answer_bad-IsSmall pkt err_short_buffer = inl refl

  module _ (gateway_size : length (as4 r.gateway) ≡ 4) (eph_size : length fresh.eph ≡ 32)
      (sized : (uid : List ℕ) (i : Identity Str) (a : Addr)
        → k.identity uid st.store ≡ some i
        → i.tun_ip ≡ some a
        → length (as4 a) ≡ 4) where
    admit_hello-IsSmall :
        (uid : List ℕ) (ident : Identity Str) (h : ClientHello)
        → k.identity uid st.store ≡ some ident
        → Way k r m kdf fresh from st ident h
        → IsSmall (admit_hello k r m kdf fresh ident h from st).replies 154
    admit_hello-IsSmall uid ident h known (refused reason st₁ e) = IsSmall-as 154 e (
        inr
          (_, refl, omega (arith, length-marshal-reject m ident.secret h.eph (reason_byte reason))))
    admit_hello-IsSmall uid ident h known (passed a f own t q e) =
        IsSmall-as 154 e
          (answer-IsSmall ident h a _ (sized uid ident a known own) gateway_size eph_size)

    handled-IsSmall :
        (pkt : List ℕ)
        → Route k r m kdf fresh from st pkt
        → IsSmall (handle_hello k r m kdf fresh pkt from st).replies (length pkt)
    handled-IsSmall pkt (bad e f q) = IsSmall-as (length pkt) q (answer_bad-IsSmall pkt e)
    handled-IsSmall pkt (ignored q) = IsSmall-as (length pkt) q (inl refl)
    handled-IsSmall pkt (authenticated uid v ident h f g b q) = IsSmall-as (length pkt) q (
        subst (λ n. IsSmall (admit_hello k r m kdf fresh ident h from st).replies n)
          (sym (peek_hello-ok pkt f).0)
          (admit_hello-IsSmall uid ident h g (way k r m kdf fresh from st ident h)))

    -- With addresses of four bytes and a key of 32, the relay answers any packet with at most one
    -- datagram, and one that is shorter than the packet.
    pub handle_hello-IsSmall :
        (pkt : List ℕ) → IsSmall (handle_hello k r m kdf fresh pkt from st).replies (length pkt)
    handle_hello-IsSmall pkt = handled-IsSmall pkt (route k r m kdf fresh from st pkt)

  -- No code in the store has a key that gives the MAC in the packet.
  abbrev pub HasNoKey : List ℕ → Type 0
  HasNoKey pkt =
      (uid : List ℕ) (i : Identity Str)
      → k.identity uid st.store ≡ some i
      → ¬ IsSigned m i.secret pkt

  reply_version_mismatch-silent :
      (pkt : List ℕ) → HasNoKey pkt → reply_version_mismatch k m fresh.now pkt st ≡ []
  unfolding reply_version_mismatch
  reply_version_mismatch-silent pkt no_key = elim (Option-cases (peek_legacy_hello_uid pkt)) [
    | inl n ↦ ground (arith, n)
    | inr (uid, f) ↦ elim (Option-cases (k.identity uid st.store)) [
      | inl n ↦ ground (arith, f, n)
      | inr (ident, g) ↦ elim (Option-cases (legacy_version_reject m ident.secret fresh.now pkt)) [
        | inl n ↦ ground (arith, f, g, n)
        | inr (wire, w) ↦ absurd (
            no_key uid ident g (legacy_version_reject-IsSigned m ident.secret fresh.now pkt wire w))
      ]
    ]
  ]

  answer_bad-silent :
      (pkt : List ℕ) (e : TunnelError)
      → HasNoKey pkt
      → answer_bad k m fresh.now pkt st e ≡ silent st
  unfolding answer_bad
  answer_bad-silent pkt err_old_version no_key =
      λ i. record { state = st; replies = reply_version_mismatch-silent pkt no_key i; made = none }
  answer_bad-silent pkt err_auth no_key = refl
  answer_bad-silent pkt err_bad_packet no_key = refl
  answer_bad-silent pkt err_replay no_key = refl
  answer_bad-silent pkt err_short_buffer no_key = refl

  handled-silent :
      (pkt : List ℕ)
      → HasNoKey pkt
      → Route k r m kdf fresh from st pkt
      → handle_hello k r m kdf fresh pkt from st ≡ silent st
  handled-silent pkt no_key (bad e f q) = q ∙ answer_bad-silent pkt e no_key
  handled-silent pkt no_key (ignored q) = q
  handled-silent pkt no_key (authenticated uid v ident h f g b q) =
      absurd (no_key uid ident g (parse_client_hello-IsSigned m ident.secret fresh.now pkt h b))

  -- Where no code of the store has a secret that gives the MAC in the packet, in the layout of the
  -- version that the packet states, the relay sends nothing and changes nothing.
  pub handle_hello-silent :
      (pkt : List ℕ) → HasNoKey pkt → handle_hello k r m kdf fresh pkt from st ≡ silent st
  handle_hello-silent pkt no_key = handled-silent pkt no_key (route k r m kdf fresh from st pkt)
