-- ===== src/Relay/Hello.antt =====
-- internal/tunnelapp/tunnelapp.go: the handler of a hello, which makes a session or refuses it. The
-- generated key pair, the key that is agreed on with it, the clock and the success of the write are
-- arguments. The log lines are left out, and with them the search for another session at the source
-- address, which only warns.
use go_port_forward.Base.{
  ℕ, ◌+◌, List, [], ◌∷◌, Option, none, some, Bool, true, false, ◌&&◌, ◌||◌, not, leb, ◌==◌,
  if◌then◌else◌,
}
use go_port_forward.Base.Bytes.{bytes_eq}
use go_port_forward.Base.Keys.{Eq, nat_eq, insert, remove}
use go_port_forward.PeerTable.{Peer, PeerIndex, upsert, online, count_by_user}
use go_port_forward.Tunnel.Protocol.{
  ok, err, TunnelError, err_auth, err_bad_packet, err_replay, err_old_version, err_short_buffer,
  RejectReason, reject_device_mismatch, reject_code_disabled, reject_user_disabled,
  reject_tunnel_limit, reject_addr_invalid, reason_byte,
}
use go_port_forward.Tunnel.Mac.{Hmac}
use go_port_forward.Tunnel.Handshake.Hello.{
  ClientHello, peek_hello, parse_client_hello, has_device2,
}
use go_port_forward.Tunnel.Handshake.Accept.{Addr, ServerAccept, new_server_accept}
use go_port_forward.Tunnel.Handshake.Reject.{new_server_reject}
use go_port_forward.Tunnel.Handshake.Accept
use go_port_forward.Tunnel.Handshake.Reject
use go_port_forward.Tunnel.Legacy.{peek_legacy_hello_uid, legacy_version_reject}
use go_port_forward.Tunnel.Session.{Hkdf, derive_session_keys, new_server_session}
use go_port_forward.Relay.{addr_eq, Identity, Relay, Binder, Live, RelayState}

-- What one call brings from outside: the clock in nanoseconds, the public half of the new key pair,
-- the key that its private half and the client's key agree on, and whether the answer could be sent.
pub record Fresh : Type 0 where
  pub now : ℕ
  pub eph : List ℕ
  pub shared : List ℕ
  pub written : Bool

unfoldable pub usable : Relay → Option Addr → Bool
usable r none = false
usable r (some a) = r.contains a && not (addr_eq.beq a r.gateway)

-- The refusals before the device is looked at.
unfoldable pub first_reason : {Str : Type 0} → Relay → Identity Str → Option RejectReason
first_reason r ident =
    if ident.code_disabled
    then some reject_code_disabled
    else if ident.user_disabled
    then some reject_user_disabled
    else if usable r ident.tun_ip
    then none
    else some reject_addr_invalid

abbrev pub is_empty : List ℕ → Bool
is_empty [] = true
is_empty (x ∷ xs) = false

-- `fp2`, empty where the client has no other fingerprint than the first.
unfoldable pub second_fingerprint : ClientHello → List ℕ
second_fingerprint h =
    if has_device2 h then if bytes_eq h.device2 h.device then [] else h.device2 else []

-- The device of the hello; `false` is another device than the one that is bound.
unfoldable pub bind_step :
    {Str AddrPort D : Type 0} (k : Binder Str AddrPort D)
    → Identity Str
    → (fp fp2 : List ℕ) → AddrPort
    → D
    → D × Bool
bind_step k ident fp fp2 from d =
    if bytes_eq ident.fingerprint fp && not (is_empty fp2)
    then ((k.migrate_device ident.code_id fp fp2 from d).0, true)
    else if not (bytes_eq ident.fingerprint fp)
        && (is_empty fp2 || not (bytes_eq ident.fingerprint fp2))
    then k.bind_device ident.code_id (if is_empty fp2 then fp else fp2) from d
    else (d, true)

unfoldable pub at_limit :
    {Str AddrPort : Type 0} ⦃es : Eq Str⦄ ⦃ea : Eq AddrPort⦄
    → Identity Str
    → PeerIndex Str AddrPort Addr
    → Bool
at_limit ident peers = elim ident.max_tunnels [
  | none ↦ false
  | some n ↦
      if online ident.code_id peers
      then false
      else n == 0 || leb n (count_by_user ident.user_id peers)
]

-- The state after a call, the datagrams that go back to the source, and the session that was made.
pub record Answer (Str AddrPort D Push : Type 0) : Type 0 where
  pub state : RelayState Str AddrPort D Push
  pub replies : List (List ℕ)
  pub made : Option (Peer Str AddrPort Addr)

abbrev pub silent :
    {Str AddrPort D Push : Type 0} → RelayState Str AddrPort D Push → Answer Str AddrPort D Push
silent st = record { state = st; replies = []; made = none }

abbrev pub refuse :
    {Str AddrPort D Push : Type 0}
    → Hmac
    → Identity Str
    → ClientHello
    → RejectReason
    → RelayState Str AddrPort D Push
    → Answer Str AddrPort D Push
refuse m ident h reason st = record {
  state = st;
  replies = Reject.marshal (new_server_reject m ident.secret h.eph (reason_byte reason)) ∷ [];
  made = none;
}

module _ {Str AddrPort D Push : Type 0} ⦃es : Eq Str⦄ ⦃ea : Eq AddrPort⦄ (r : Relay) where
  -- From the answer that was sent to the session in the table. `a` is the tunnel address.
  unfoldable pub open_session :
      Hkdf
      → Fresh
      → Identity Str
      → ClientHello
      → ServerAccept
      → Addr
      → AddrPort
      → RelayState Str AddrPort D Push
      → Answer Str AddrPort D Push
  open_session kdf fresh ident h accept a from st =
      let keys = derive_session_keys kdf fresh.shared ident.secret h.eph accept.eph in
      let p : Peer Str AddrPort Addr = record {
        ref = st.next_ref;
        code_id = ident.code_id;
        user_id = ident.user_id;
        tun_ip = a;
        addr_port = from;
      } in
      let live : Live = record {
        sess = new_server_session keys.0 keys.1 r.feats r.tun_mtu;
        mtu = r.tun_mtu;
      } in
      record {
        state = record st {
          peers = (upsert p st.peers).0;
          sessions = insert st.next_ref live st.sessions;
          next_ref = st.next_ref + 1;
          pushed = remove ident.code_id st.pushed;
        };
        replies = Accept.marshal accept ∷ [];
        made = some p;
      }

  unfoldable pub answer :
      Hmac
      → Hkdf
      → Fresh
      → Identity Str
      → ClientHello
      → Addr
      → AddrPort
      → RelayState Str AddrPort D Push
      → Answer Str AddrPort D Push
  answer m kdf fresh ident h a from st =
      elim (new_server_accept m ident.secret h.eph a r.gateway r.pool_bits r.tun_mtu r.feats
        fresh.eph) [
          | err e ↦ silent st
          | ok accept ↦
              if fresh.written then open_session kdf fresh ident h accept a from st else silent st
        ]

unfoldable pub reply_version_mismatch :
    {Str AddrPort D Push : Type 0} (k : Binder Str AddrPort D)
    → Hmac
    → (now : ℕ) → List ℕ
    → RelayState Str AddrPort D Push
    → List (List ℕ)
reply_version_mismatch k m now pkt st = elim (peek_legacy_hello_uid pkt) [
  | none ↦ []
  | some uid ↦ elim (k.identity uid st.store) [
    | none ↦ []
    | some ident ↦ elim (legacy_version_reject m ident.secret now pkt) [
      | none ↦ []
      | some wire ↦ wire ∷ []
    ]
  ]
]

-- A packet that is no hello of this version.
unfoldable pub answer_bad :
    {Str AddrPort D Push : Type 0} (k : Binder Str AddrPort D)
    → Hmac
    → (now : ℕ) → List ℕ
    → RelayState Str AddrPort D Push
    → TunnelError
    → Answer Str AddrPort D Push
answer_bad k m now pkt st err_old_version = record {
  state = st;
  replies = reply_version_mismatch k m now pkt st;
  made = none;
}
answer_bad k m now pkt st err_auth = silent st
answer_bad k m now pkt st err_bad_packet = silent st
answer_bad k m now pkt st err_replay = silent st
answer_bad k m now pkt st err_short_buffer = silent st

module _ {Str AddrPort D Push : Type 0} ⦃es : Eq Str⦄ ⦃ea : Eq AddrPort⦄ (k : Binder Str AddrPort D)
    (r : Relay) where
  -- After the authentication.
  unfoldable pub admit_hello :
      Hmac
      → Hkdf
      → Fresh
      → Identity Str
      → ClientHello
      → AddrPort
      → RelayState Str AddrPort D Push
      → Answer Str AddrPort D Push
  admit_hello m kdf fresh ident h from st = elim (first_reason r ident) [
    | some reason ↦ refuse m ident h reason st
    | none ↦ elim ident.tun_ip [
      | none ↦ refuse m ident h reject_addr_invalid st
      | some a ↦
          let bound = bind_step k ident h.device (second_fingerprint h) from st.store in
          let st' = record st { store = bound.0 } in
          if not bound.1
          then refuse m ident h reject_device_mismatch st'
          else if at_limit ident st.peers
          then refuse m ident h reject_tunnel_limit st'
          else answer r m kdf fresh ident h a from st'
    ]
  ]

  unfoldable pub handle_hello :
      Hmac
      → Hkdf
      → Fresh
      → List ℕ
      → AddrPort
      → RelayState Str AddrPort D Push
      → Answer Str AddrPort D Push
  handle_hello m kdf fresh pkt from st = elim (peek_hello pkt) [
    | err e ↦ answer_bad k m fresh.now pkt st e
    | ok p ↦ elim (k.identity p.0 st.store) [
      | none ↦ silent st
      | some ident ↦ elim (parse_client_hello m ident.secret fresh.now pkt) [
        | err _ ↦ silent st
        | ok h ↦ admit_hello m kdf fresh ident h from st
      ]
    ]
  ]
