-- ===== src/Relay/Routes.antt =====
-- internal/tunnelapp/tunnelapp.go, handleHello: the ways through it.
use go_port_forward.Base.{
  ℕ, ◌≡◌, ◌⊎◌, inl, inr, refl, List, none, some, Bool, true, false, arith, Bool-cases, Option-cases,
}
use go_port_forward.Base.Keys.{Eq, nat_eq}
use go_port_forward.Tunnel.Protocol.{
  Result, ok, err, err_auth, err_bad_packet, err_replay, err_old_version, err_short_buffer,
  TunnelError, RejectReason, reject_addr_invalid, reject_device_mismatch, reject_tunnel_limit,
}
use go_port_forward.Tunnel.Mac.{Hmac}
use go_port_forward.Tunnel.Handshake.Hello.{ClientHello, peek_hello, parse_client_hello}
use go_port_forward.Tunnel.Handshake.Accept.{Addr}
use go_port_forward.Tunnel.Session.{Hkdf}
use go_port_forward.Relay.{addr_eq, Identity, Relay, Binder, RelayState}
use go_port_forward.Relay.Hello.{
  Fresh, first_reason, second_fingerprint, bind_step, at_limit, silent, refuse, answer, admit_hello,
  handle_hello, answer_bad,
}

pub Result-cases {ℓ} :
    {A : Type ℓ} (o : Result A) → ((e : TunnelError) × (o ≡ err e)) ⊎ ((a : A) × (o ≡ ok a))
Result-cases (err e) = inl (e, refl)
Result-cases (ok a) = inr (a, refl)

module _ {Str AddrPort D Push : Type 0} ⦃es : Eq Str⦄ ⦃ea : Eq AddrPort⦄ (k : Binder Str AddrPort D)
    (r : Relay) (m : Hmac) (kdf : Hkdf) (fresh : Fresh) (from : AddrPort)
    (st : RelayState Str AddrPort D Push) where
  -- The result of the step for the device.
  abbrev pub stepped : Identity Str → ClientHello → D × Bool
  stepped ident h = bind_step k ident h.device (second_fingerprint h) from st.store

  -- The ways through the part after the authentication.
  pub data Way (ident : Identity Str) (h : ClientHello) : Type 0 where
    refused :
        (reason : RejectReason) (st₁ : RelayState Str AddrPort D Push)
        → admit_hello k r m kdf fresh ident h from st ≡ refuse m ident h reason st₁
        → Way ident h
    passed :
        (a : Addr)
        → first_reason r ident ≡ none
        → ident.tun_ip ≡ some a
        → (stepped ident h).1 ≡ true
        → at_limit ident st.peers ≡ false
        → admit_hello k r m kdf fresh ident h from st
          ≡ answer r m kdf fresh ident h a from (record st { store = (stepped ident h).0 })
        → Way ident h

  pub way : (ident : Identity Str) (h : ClientHello) → Way ident h
  unfolding admit_hello
  way ident h = elim (Option-cases (first_reason r ident)) [
    | inr (reason, f) ↦ refused reason st (ground (arith, f))
    | inl f ↦ elim (Option-cases ident.tun_ip) [
      | inl n ↦ refused reject_addr_invalid st (ground (arith, f, n))
      | inr (a, own) ↦ elim (Bool-cases (stepped ident h).1) [
        | inr t ↦
            refused reject_device_mismatch (record st { store = (stepped ident h).0 })
              (ground (arith, f, own, t))
        | inl t ↦ elim (Bool-cases (at_limit ident st.peers)) [
          | inl q ↦
              refused reject_tunnel_limit (record st { store = (stepped ident h).0 })
                (ground (arith, f, own, t, q))
          | inr q ↦ passed a f own t q (ground (arith, f, own, t, q))
        ]
      ]
    ]
  ]

  -- The ways through the whole handler.
  pub data Route (pkt : List ℕ) : Type 0 where
    bad :
        (e : TunnelError)
        → peek_hello pkt ≡ err e
        → handle_hello k r m kdf fresh pkt from st ≡ answer_bad k m fresh.now pkt st e
        → Route pkt
    ignored : handle_hello k r m kdf fresh pkt from st ≡ silent st → Route pkt
    authenticated :
        (uid : List ℕ) (v : ℕ) (ident : Identity Str) (h : ClientHello)
        → peek_hello pkt ≡ ok (uid, v)
        → k.identity uid st.store ≡ some ident
        → parse_client_hello m ident.secret fresh.now pkt ≡ ok h
        → handle_hello k r m kdf fresh pkt from st ≡ admit_hello k r m kdf fresh ident h from st
        → Route pkt

  pub route : (pkt : List ℕ) → Route pkt
  unfolding handle_hello
  route pkt = elim (Result-cases (peek_hello pkt)) [
    | inl (e, f) ↦ bad e f (ground (arith, f))
    | inr (q, f) ↦ elim (Option-cases (k.identity q.0 st.store)) [
      | inl n ↦ ignored (ground (arith, f, n))
      | inr (ident, g) ↦ elim (Result-cases (parse_client_hello m ident.secret fresh.now pkt)) [
        | inl (e, b) ↦ ignored (ground (arith, f, g, b))
        | inr (h, b) ↦ authenticated q.0 q.1 ident h f g b (ground (arith, f, g, b))
      ]
    ]
  ]

  pub answer_bad-made :
      (now : ℕ) (pkt : List ℕ) (e : TunnelError) → (answer_bad k m now pkt st e).made ≡ none
  unfolding answer_bad
  answer_bad-made now pkt err_old_version = refl
  answer_bad-made now pkt err_auth = refl
  answer_bad-made now pkt err_bad_packet = refl
  answer_bad-made now pkt err_replay = refl
  answer_bad-made now pkt err_short_buffer = refl
