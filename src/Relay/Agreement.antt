-- ===== src/Relay/Agreement.antt =====
-- internal/tunnelapp/tunnelapp.go, handleHello, and the client's half in pkg/tunnel: the answer that the
-- client reads, and the keys of both ends.
use go_port_forward.Base.{
  ℕ, ◌≡◌, ◌≤◌, List, [], ◌∷◌, some, length, arith, Bool-cases, inl, inr, refl, subst, sym, ap, ◌∙◌,
  append-nil,
}
use go_port_forward.Base.Keys.{Eq, nat_eq, lookup, lookup-insert, beq_refl}
use go_port_forward.PeerTable.{Peer}
use go_port_forward.Tunnel.Protocol.{ok}
use go_port_forward.Tunnel.Mac.{Hmac}
use go_port_forward.Tunnel.Handshake.Hello.{ClientHello, parse_client_hello}
use go_port_forward.Tunnel.Handshake.Accept
use go_port_forward.Tunnel.Handshake.Accept.{
  Addr, addr4, ServerAccept, new_server_accept, parse_server_accept, tun_mtu,
}
use go_port_forward.Tunnel.Handshake.Accept.RoundTrip.{parse-new_server_accept}
use go_port_forward.Tunnel.Session.{
  Session, Hkdf, derive_session_keys, new_session, new_client_session, new_server_session,
}
use go_port_forward.Relay.{addr_eq, Identity, Relay, Binder, Live, RelayState}
use go_port_forward.Relay.Hello.{
  Fresh, Answer, silent, open_session, answer, admit_hello, handle_hello,
}
use go_port_forward.Relay.Routes.{
  Way, refused, passed, way, Route, bad, ignored, authenticated, route, answer_bad-made,
}

-- What the client makes of the answer.
abbrev client_session : Hkdf → Fresh → List ℕ → ClientHello → ServerAccept → Session
client_session kdf fresh secret h a =
    let keys = derive_session_keys kdf fresh.shared secret h.eph a.eph in
    new_client_session keys.0 keys.1 a.feats (tun_mtu a)

-- The two ends of a session: the one answer, which the client reads, carries the address of the code,
-- and each end opens with the key that the other seals with.
pub record IsAgreed {Str AddrPort D Push : Type 0} (k : Binder Str AddrPort D) (r : Relay)
    (m : Hmac) (kdf : Hkdf) (fresh : Fresh) (pkt : List ℕ) (st : RelayState Str AddrPort D Push)
    (x : Answer Str AddrPort D Push) (p : Peer Str AddrPort Addr) : Type 0 where
  pub uid : List ℕ
  pub ident : Identity Str
  pub hello : ClientHello
  pub accept : ServerAccept
  pub live : Live
  pub known : k.identity uid st.store ≡ some ident
  pub authentic : parse_client_hello m ident.secret fresh.now pkt ≡ ok hello
  pub reply : x.replies ≡ Accept.marshal accept ∷ []
  pub read : parse_server_accept m ident.secret (Accept.marshal accept) hello.eph ≡ ok accept
  pub address : p.tun_ip ≡ addr4 accept.tun_ip
  pub stored : lookup p.ref x.state.sessions ≡ some live
  pub up : (client_session kdf fresh ident.secret hello accept).send_key ≡ live.sess.recv_key
  pub down : live.sess.send_key ≡ (client_session kdf fresh ident.secret hello accept).recv_key

module _ {Str AddrPort D Push : Type 0} ⦃es : Eq Str⦄ ⦃ea : Eq AddrPort⦄ (k : Binder Str AddrPort D)
    (r : Relay) (m : Hmac) (kdf : Hkdf) (fresh : Fresh) (from : AddrPort)
    (st : RelayState Str AddrPort D Push) (p : Peer Str AddrPort Addr) (gw : List ℕ)
    (gateway4 : r.gateway ≡ addr4 gw) (gateway_size : length gw ≡ 4)
    (eph_size : length fresh.eph ≡ 32) (bits_low : 1 ≤ r.pool_bits) (bits_high : r.pool_bits ≤ 32)
    (sized : (uid : List ℕ) (i : Identity Str) (a : Addr)
      → k.identity uid st.store ≡ some i
      → i.tun_ip ≡ some a
      → (t : List ℕ) × (a ≡ addr4 t) × (length t ≡ 4)) where
  open_session-IsAgreed :
      (uid pkt : List ℕ) (ident : Identity Str) (h : ClientHello) (accept : ServerAccept)
      (st₁ : RelayState Str AddrPort D Push)
      → k.identity uid st.store ≡ some ident
      → parse_client_hello m ident.secret fresh.now pkt ≡ ok h
      → parse_server_accept m ident.secret (Accept.marshal accept) h.eph ≡ ok accept
      → (open_session r kdf fresh ident h accept (addr4 accept.tun_ip) from st₁).made ≡ some p
      → IsAgreed k r m kdf fresh pkt st
          (open_session r kdf fresh ident h accept (addr4 accept.tun_ip) from st₁)
          p
  unfolding open_session new_client_session new_server_session new_session
  open_session-IsAgreed uid pkt ident h accept st₁ known authentic read made =
      let x : Answer Str AddrPort D Push =
        open_session r kdf fresh ident h accept (addr4 accept.tun_ip) from st₁ in
      let keys = derive_session_keys kdf fresh.shared ident.secret h.eph accept.eph in
      let live : Live = record {
        sess = new_server_session keys.0 keys.1 r.feats r.tun_mtu;
        mtu = r.tun_mtu;
      } in
      let p₀ : Peer Str AddrPort Addr = record {
        ref = st₁.next_ref;
        code_id = ident.code_id;
        user_id = ident.user_id;
        tun_ip = addr4 accept.tun_ip;
        addr_port = from;
      } in
      let same : p₀ ≡ p = cc made in
      subst (λ (q : Peer Str AddrPort Addr). IsAgreed k r m kdf fresh pkt st x q) same
        (record {
          uid = uid;
          ident = ident;
          hello = h;
          accept = accept;
          live = live;
          known = known;
          authentic = authentic;
          reply = refl;
          read = read;
          address = refl;
          stored = ground (
            arith,
            lookup-insert st₁.next_ref st₁.next_ref live st₁.sessions,
            beq_refl nat_eq st₁.next_ref,
          );
          up = refl;
          down = refl;
        })

  answer-IsAgreed :
      (uid pkt : List ℕ) (ident : Identity Str) (h : ClientHello) (a : Addr)
      (st₁ : RelayState Str AddrPort D Push)
      → k.identity uid st.store ≡ some ident
      → parse_client_hello m ident.secret fresh.now pkt ≡ ok h
      → ident.tun_ip ≡ some a
      → (answer r m kdf fresh ident h a from st₁).made ≡ some p
      → IsAgreed k r m kdf fresh pkt st (answer r m kdf fresh ident h a from st₁) p
  unfolding answer
  answer-IsAgreed uid pkt ident h a st₁ known authentic own made =
      let (t, is_t, t_size) = sized uid ident a known own in
      let built =
        parse-new_server_accept m ident.secret h.eph t gw fresh.eph [] r.pool_bits r.tun_mtu r.feats
          t_size gateway_size eph_size bits_low bits_high in
      let acc : ServerAccept = built.0 in
      let read : parse_server_accept m ident.secret (Accept.marshal acc) h.eph ≡ ok acc =
        subst (λ w. parse_server_accept m ident.secret w h.eph ≡ ok acc)
          (append-nil (Accept.marshal acc)) built.2 in
      let same : a ≡ addr4 acc.tun_ip = is_t ∙ ap addr4 (sym built.3) in
      let accepted : new_server_accept m ident.secret h.eph a r.gateway r.pool_bits r.tun_mtu
            r.feats fresh.eph
          ≡ ok acc =
        subst
          (λ b.
            new_server_accept m ident.secret h.eph b r.gateway r.pool_bits r.tun_mtu r.feats
              fresh.eph
            ≡ ok acc)
          (sym is_t)
          (subst
            (λ g.
              new_server_accept m ident.secret h.eph (addr4 t) g r.pool_bits r.tun_mtu r.feats
                fresh.eph
              ≡ ok acc)
            (sym gateway4) built.1) in
      let settle : (x : Answer Str AddrPort D Push)
          → answer r m kdf fresh ident h a from st₁ ≡ x
          → (x.made ≡ some p → IsAgreed k r m kdf fresh pkt st x p)
          → IsAgreed k r m kdf fresh pkt st (answer r m kdf fresh ident h a from st₁) p =
        λ x e g.
          subst (λ (y : Answer Str AddrPort D Push). IsAgreed k r m kdf fresh pkt st y p) (sym e)
            (g (ap (λ (y : Answer Str AddrPort D Push). y.made) (sym e) ∙ made)) in
      elim (Bool-cases fresh.written) [
        | inr t ↦ settle (silent st₁) (ground (arith, accepted, t)) (λ q. absurd (cc q))
        | inl t ↦
            settle (open_session r kdf fresh ident h acc a from st₁) (ground (arith, accepted, t)) (
              subst
                (λ b.
                  (open_session r kdf fresh ident h acc b from st₁).made ≡ some p
                  → IsAgreed k r m kdf fresh pkt st
                      (open_session r kdf fresh ident h acc b from st₁) p)
                (sym same) (open_session-IsAgreed uid pkt ident h acc st₁ known authentic read))
      ]

  admit_hello-IsAgreed :
      (uid pkt : List ℕ) (ident : Identity Str) (h : ClientHello)
      → k.identity uid st.store ≡ some ident
      → parse_client_hello m ident.secret fresh.now pkt ≡ ok h
      → Way k r m kdf fresh from st ident h
      → (admit_hello k r m kdf fresh ident h from st).made ≡ some p
      → IsAgreed k r m kdf fresh pkt st (admit_hello k r m kdf fresh ident h from st) p
  admit_hello-IsAgreed uid pkt ident h known authentic (refused reason st₁ e) made =
      absurd (cc (ap (λ (y : Answer Str AddrPort D Push). y.made) e, made))
  admit_hello-IsAgreed uid pkt ident h known authentic (passed a f own t q e) made =
      subst (λ (y : Answer Str AddrPort D Push). IsAgreed k r m kdf fresh pkt st y p) (sym e)
        (answer-IsAgreed uid pkt ident h a _ known authentic own
          (ap (λ (y : Answer Str AddrPort D Push). y.made) (sym e) ∙ made))

  handled-IsAgreed :
      (pkt : List ℕ)
      → Route k r m kdf fresh from st pkt
      → (handle_hello k r m kdf fresh pkt from st).made ≡ some p
      → IsAgreed k r m kdf fresh pkt st (handle_hello k r m kdf fresh pkt from st) p
  handled-IsAgreed pkt (bad e f q) made = absurd (
      cc (
        ap (λ (y : Answer Str AddrPort D Push). y.made) q,
        answer_bad-made k r m kdf fresh from st fresh.now pkt e,
        made,
      ))
  handled-IsAgreed pkt (ignored q) made =
      absurd (cc (ap (λ (y : Answer Str AddrPort D Push). y.made) q, made))
  handled-IsAgreed pkt (authenticated uid v ident h f g b q) made =
      subst (λ (y : Answer Str AddrPort D Push). IsAgreed k r m kdf fresh pkt st y p) (sym q)
        (admit_hello-IsAgreed uid pkt ident h g b (way k r m kdf fresh from st ident h)
          (ap (λ (y : Answer Str AddrPort D Push). y.made) (sym q) ∙ made))

  -- When a packet makes a session, with IPv4 addresses, a key of 32 bytes and a pool of 1 to 32
  -- bits: one answer goes back, the client who sent the hello reads exactly it, with the session's
  -- address, and the session that is stored opens with the key that the client seals with, and
  -- seals with the one that the client opens with.
  pub handle_hello-IsAgreed :
      (pkt : List ℕ)
      → (handle_hello k r m kdf fresh pkt from st).made ≡ some p
      → IsAgreed k r m kdf fresh pkt st (handle_hello k r m kdf fresh pkt from st) p
  handle_hello-IsAgreed pkt made = handled-IsAgreed pkt (route k r m kdf fresh from st pkt) made
