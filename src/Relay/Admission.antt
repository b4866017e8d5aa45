-- ===== src/Relay/Admission.antt =====
-- internal/tunnelapp/tunnelapp.go, handleHello: what holds of a session that it makes, and of its answers.
use go_port_forward.Base.{
  ℕ, ◌≡◌, ◌≢◌, ◌⊎◌, inl, inr, refl, ap, sym, subst, ◌∙◌, List, none, some, Bool, true, false, arith,
  Bool-cases,
}
use go_port_forward.Base.Bytes.{bytes_eq, bytes_eq-eq}
use go_port_forward.Base.Keys.{Eq, nat_eq}
use go_port_forward.PeerTable.{Peer, upsert}
use go_port_forward.Tunnel.Protocol.{ok}
use go_port_forward.Tunnel.Mac.{Hmac}
use go_port_forward.Tunnel.Handshake.Hello.{ClientHello, parse_client_hello, has_device2}
use go_port_forward.Tunnel.Handshake.Accept.{Addr, ServerAccept, new_server_accept}
use go_port_forward.Tunnel.Session.{Hkdf}
use go_port_forward.Tunnel.Signed.{IsSigned, parse_client_hello-IsSigned}
use go_port_forward.Relay.{addr_eq, Identity, Relay, Binder, RelayState}
use go_port_forward.Relay.Routes.{
  Way, refused, passed, way, Route, bad, ignored, authenticated, route, Result-cases,
  answer_bad-made, stepped,
}
use go_port_forward.Relay.Hello.{
  Fresh, usable, first_reason, is_empty, second_fingerprint, bind_step, at_limit, Answer, silent,
  open_session, answer, admit_hello, handle_hello,
}

-- The fingerprint that the code has in the store: the first one of the hello, or the second one where
-- the hello has another.
abbrev pub IsOneOf : (bound fp fp2 : List ℕ) → Type 0
IsOneOf bound fp fp2 = (bound ≡ fp) ⊎ ((is_empty fp2 ≡ false) × (bound ≡ fp2))

-- The store holds the device of a hello that passed the step.
bind_step-bound :
    {Str AddrPort D : Type 0} (k : Binder Str AddrPort D) (ident : Identity Str) (fp fp2 : List ℕ)
    (from : AddrPort) (d : D)
    → ident.fingerprint ≡ k.bound_to ident.code_id d
    → (bind_step k ident fp fp2 from d).1 ≡ true
    → IsOneOf (k.bound_to ident.code_id (bind_step k ident fp fp2 from d).0) fp fp2
unfolding bind_step
bind_step-bound {D = D} k ident fp fp2 from d known fit =
    let code = ident.code_id in
    let settle : (x : D × Bool)
        → bind_step k ident fp fp2 from d ≡ x
        → (x.1 ≡ true → IsOneOf (k.bound_to code x.0) fp fp2)
        → IsOneOf (k.bound_to code (bind_step k ident fp fp2 from d).0) fp fp2 =
      λ x e h.
        subst (λ (y : D × Bool). IsOneOf (k.bound_to code y.0) fp fp2) (sym e)
          (h (ap (λ (y : D × Bool). y.1) (sym e) ∙ fit)) in
    elim (Bool-cases (bytes_eq ident.fingerprint fp)) [
      | inl same ↦
          let held : k.bound_to code d ≡ fp = sym known ∙ bytes_eq-eq ident.fingerprint fp same in
          elim (Bool-cases (is_empty fp2)) [
            | inl e ↦ settle (d, true) (ground (arith, same, e)) (λ t. inl held)
            | inr e ↦
                settle ((k.migrate_device code fp fp2 from d).0, true) (ground (arith, same, e))
                  (λ t. elim (Bool-cases (k.migrate_device code fp fp2 from d).1) [
                    | inl moved ↦ inr (e, k.migrate_device_ok code fp fp2 from d moved)
                    | inr kept ↦ inl (k.migrate_device_no code fp fp2 from d kept ∙ held)
                  ])
          ]
      | inr other ↦ elim (Bool-cases (is_empty fp2)) [
        | inl e ↦
            settle (k.bind_device code fp from d) (ground (arith, other, e))
              (λ t. inl (k.bind_device_ok code fp from d t))
        | inr e ↦ elim (Bool-cases (bytes_eq ident.fingerprint fp2)) [
          | inl second ↦
              settle (d, true) (ground (arith, other, e, second))
                (λ t. inr (e, sym known ∙ bytes_eq-eq ident.fingerprint fp2 second))
          | inr third ↦
              settle (k.bind_device code fp2 from d) (ground (arith, other, e, third))
                (λ t. inr (e, k.bind_device_ok code fp2 from d t))
        ]
      ]
    ]

second_fingerprint-sent :
    (h : ClientHello)
    → is_empty (second_fingerprint h) ≡ false
    → (has_device2 h ≡ true) × (second_fingerprint h ≡ h.device2)
unfolding second_fingerprint
second_fingerprint-sent h e = elim (Bool-cases (has_device2 h)) [
  | inr t ↦ absurd (ground (arith, e, t))
  | inl t ↦ elim (Bool-cases (bytes_eq h.device2 h.device)) [
    | inl u ↦ absurd (ground (arith, e, t, u))
    | inr u ↦ (t, ground (arith, t, u))
  ]
]

-- The store has one of the fingerprints that the hello carries.
abbrev pub IsSent : List ℕ → ClientHello → Type 0
IsSent bound h = (bound ≡ h.device) ⊎ ((has_device2 h ≡ true) × (bound ≡ h.device2))

IsOneOf-IsSent :
    (bound : List ℕ) (h : ClientHello)
    → IsOneOf bound h.device (second_fingerprint h)
    → IsSent bound h
IsOneOf-IsSent bound h (inl e) = inl e
IsOneOf-IsSent bound h (inr (e, q)) = let (t, u) = second_fingerprint-sent h e in inr (t, q ∙ u)

-- What a session in the table was checked for.
pub record IsAdmitted {Str AddrPort D Push : Type 0} ⦃es : Eq Str⦄ ⦃ea : Eq AddrPort⦄
    (k : Binder Str AddrPort D) (r : Relay) (m : Hmac) (fresh : Fresh) (pkt : List ℕ)
    (st st' : RelayState Str AddrPort D Push) (p : Peer Str AddrPort Addr) : Type 0 where
  pub uid : List ℕ
  pub ident : Identity Str
  pub hello : ClientHello
  pub known : k.identity uid st.store ≡ some ident
  pub authentic : parse_client_hello m ident.secret fresh.now pkt ≡ ok hello
  pub signed : IsSigned m ident.secret pkt
  pub enabled : (ident.code_disabled ≡ false) × (ident.user_disabled ≡ false)
  pub addressed :
      (ident.tun_ip ≡ some p.tun_ip) × (r.contains p.tun_ip ≡ true) × (p.tun_ip ≢ r.gateway)
  pub device : IsSent (k.bound_to ident.code_id st'.store) hello
  pub room : at_limit ident st.peers ≡ false
  pub owner : (p.code_id ≡ ident.code_id) × (p.user_id ≡ ident.user_id)
  pub listed : st'.peers ≡ (upsert p st.peers).0

first_reason-none :
    {Str : Type 0} (r : Relay) (ident : Identity Str) (a : Addr)
    → first_reason r ident ≡ none
    → ident.tun_ip ≡ some a
    → (ident.code_disabled ≡ false)
      × (ident.user_disabled ≡ false)
      × (r.contains a ≡ true)
      × (a ≢ r.gateway)
unfolding first_reason usable
first_reason-none r ident a h own = (
  ground (arith, h),
  ground (arith, h),
  ground (arith, h, own),
  λ e. ground (arith, h, own, (addr_eq.beq_iff a r.gateway).1 e),
)

module _ {Str AddrPort D Push : Type 0} ⦃es : Eq Str⦄ ⦃ea : Eq AddrPort⦄ (r : Relay) (m : Hmac)
    (kdf : Hkdf) (fresh : Fresh) (ident : Identity Str) (h : ClientHello) (a : Addr)
    (from : AddrPort) (st : RelayState Str AddrPort D Push) where
  -- What is known of a session from the last part of the handler.
  abbrev IsMade : Peer Str AddrPort Addr → Answer Str AddrPort D Push → Type 0
  IsMade p x =
      (p.tun_ip ≡ a)
      × (p.code_id ≡ ident.code_id)
      × (p.user_id ≡ ident.user_id)
      × (x.state.peers ≡ (upsert p st.peers).0)
      × (x.state.store ≡ st.store)

  open_session-IsMade :
      (accept : ServerAccept) (p : Peer Str AddrPort Addr)
      → (open_session r kdf fresh ident h accept a from st).made ≡ some p
      → IsMade p (open_session r kdf fresh ident h accept a from st)
  unfolding open_session
  open_session-IsMade accept p made =
      subst
        (λ (q : Peer Str AddrPort Addr).
          IsMade q (open_session r kdf fresh ident h accept a from st))
        (cc made) (refl, refl, refl, refl, refl)

  answer-IsMade :
      (p : Peer Str AddrPort Addr)
      → (answer r m kdf fresh ident h a from st).made ≡ some p
      → IsMade p (answer r m kdf fresh ident h a from st)
  unfolding answer
  answer-IsMade p made =
      let settle : (x : Answer Str AddrPort D Push)
          → answer r m kdf fresh ident h a from st ≡ x
          → (x.made ≡ some p → IsMade p x)
          → IsMade p (answer r m kdf fresh ident h a from st) =
        λ x e g.
          subst (IsMade p) (sym e)
            (g (ap (λ (y : Answer Str AddrPort D Push). y.made) (sym e) ∙ made)) in
      elim (Result-cases (
        new_server_accept m ident.secret h.eph a r.gateway r.pool_bits r.tun_mtu r.feats
          fresh.eph)) [
            | inl (e, f) ↦ settle (silent st) (ground (arith, f)) (λ q. absurd (cc q))
            | inr (accept, f) ↦ elim (Bool-cases fresh.written) [
              | inl t ↦
                  settle (open_session r kdf fresh ident h accept a from st) (ground (arith, f, t))
                    (open_session-IsMade accept p)
              | inr t ↦ settle (silent st) (ground (arith, f, t)) (λ q. absurd (cc q))
            ]
          ]

module _ {Str AddrPort D Push : Type 0} ⦃es : Eq Str⦄ ⦃ea : Eq AddrPort⦄ (k : Binder Str AddrPort D)
    (r : Relay) (m : Hmac) (kdf : Hkdf) (fresh : Fresh) (from : AddrPort)
    (st : RelayState Str AddrPort D Push) where
  admit_hello-IsAdmitted :
      (uid pkt : List ℕ) (ident : Identity Str) (h : ClientHello) (p : Peer Str AddrPort Addr)
      → k.identity uid st.store ≡ some ident
      → parse_client_hello m ident.secret fresh.now pkt ≡ ok h
      → Way k r m kdf fresh from st ident h
      → (admit_hello k r m kdf fresh ident h from st).made ≡ some p
      → IsAdmitted k r m fresh pkt st (admit_hello k r m kdf fresh ident h from st).state p
  admit_hello-IsAdmitted uid pkt ident h p known authentic (refused reason st₁ e) made =
      absurd (cc (ap (λ (y : Answer Str AddrPort D Push). y.made) e, made))
  admit_hello-IsAdmitted uid pkt ident h p known authentic (passed a f own t q e) made =
      let st' : RelayState Str AddrPort D Push = record st {
        store = (stepped k r m kdf fresh from st ident h).0;
      } in
      let here : (answer r m kdf fresh ident h a from st').made ≡ some p =
        ap (λ (y : Answer Str AddrPort D Push). y.made) (sym e) ∙ made in
      let v = answer-IsMade r m kdf fresh ident h a from st' p here in
      let c = first_reason-none r ident a f own in
      subst (λ (y : Answer Str AddrPort D Push). IsAdmitted k r m fresh pkt st y.state p) (sym e)
        (record {
          uid = uid;
          ident = ident;
          hello = h;
          known = known;
          authentic = authentic;
          signed = parse_client_hello-IsSigned m ident.secret fresh.now pkt h authentic;
          enabled = (c.0, c.1);
          addressed =
              subst (λ x. (ident.tun_ip ≡ some x) × (r.contains x ≡ true) × (x ≢ r.gateway))
                (sym v.0) (own, c.2, c.3);
          device =
              subst (λ d. IsSent (k.bound_to ident.code_id d) h) (sym v.4)
                (IsOneOf-IsSent _ h (
                  bind_step-bound k ident h.device (second_fingerprint h) from st.store
                    (k.identity_bound uid st.store ident known) t));
          room = q;
          owner = (v.1, v.2);
          listed = v.3;
        })

  made_as : {x y : Answer Str AddrPort D Push} → x ≡ y → x.made ≡ y.made
  made_as e = ap (λ (z : Answer Str AddrPort D Push). z.made) e

  handled-IsAdmitted :
      (pkt : List ℕ) (p : Peer Str AddrPort Addr)
      → Route k r m kdf fresh from st pkt
      → (handle_hello k r m kdf fresh pkt from st).made ≡ some p
      → IsAdmitted k r m fresh pkt st (handle_hello k r m kdf fresh pkt from st).state p
  handled-IsAdmitted pkt p (bad e f q) made =
      absurd (cc (made_as q, answer_bad-made k r m kdf fresh from st fresh.now pkt e, made))
  handled-IsAdmitted pkt p (ignored q) made = absurd (cc (made_as q, made))
  handled-IsAdmitted pkt p (authenticated uid v ident h f g b q) made =
      subst (λ (y : Answer Str AddrPort D Push). IsAdmitted k r m fresh pkt st y.state p) (sym q)
        (admit_hello-IsAdmitted uid pkt ident h p g b (way k r m kdf fresh from st ident h)
          (made_as (sym q) ∙ made))

  -- When a packet makes a session: the store knows the code, the packet carries the MAC that the
  -- code's secret gives and is read as a hello, neither the code nor the user is disabled, the
  -- session has the code's address, which lies in the pool and is not the gateway's, the store
  -- then holds for the code the hello's fingerprint, or its second one where it has one, the bound
  -- on tunnels left room, and the table is the old one with the session put in.
  pub handle_hello-IsAdmitted :
      (pkt : List ℕ) (p : Peer Str AddrPort Addr)
      → (handle_hello k r m kdf fresh pkt from st).made ≡ some p
      → IsAdmitted k r m fresh pkt st (handle_hello k r m kdf fresh pkt from st).state p
  handle_hello-IsAdmitted pkt p made =
      handled-IsAdmitted pkt p (route k r m kdf fresh from st pkt) made
