-- ===== src/Relay/Limit.antt =====
-- internal/tunnelapp/tunnelapp.go, handleHello: the bound on the tunnels of a user.
use go_port_forward.Base.{
  ℕ, ◌+◌, ◌≡◌, ◌≤◌, max, List, some, true, false, arith, Bool-cases, inl, inr, subst, sym,
}
use go_port_forward.Base.Keys.{Eq, lookup}
use go_port_forward.PeerTable.{Peer, PeerIndex, upsert, online, count_by_user}
use go_port_forward.PeerTable.Counting.{
  count_by_user-upsert, count_by_user-upsert_same, online-lookup,
}
use go_port_forward.Tunnel.Mac.{Hmac}
use go_port_forward.Tunnel.Handshake.Accept.{Addr}
use go_port_forward.Tunnel.Session.{Hkdf}
use go_port_forward.Relay.{addr_eq, Identity, Relay, Binder, RelayState}
use go_port_forward.Relay.Hello.{Fresh, at_limit, handle_hello}
use go_port_forward.Relay.Admission.{handle_hello-IsAdmitted}

module _ {Str AddrPort : Type 0} ⦃es : Eq Str⦄ ⦃ea : Eq AddrPort⦄ where
  -- A session that the bound lets in, where the table's session of the code is one of the same user.
  upsert-limit :
      (ident : Identity Str) (p : Peer Str AddrPort Addr) (ix : PeerIndex Str AddrPort Addr) (n : ℕ)
      → ident.max_tunnels ≡ some n
      → at_limit ident ix ≡ false
      → p.code_id ≡ ident.code_id
      → p.user_id ≡ ident.user_id
      → ((q : Peer Str AddrPort Addr)
          → lookup p.code_id ix.by_code ≡ some q
          → q.user_id ≡ p.user_id)
      → count_by_user p.user_id (upsert p ix).0 ≤ max n (count_by_user p.user_id ix)
  unfolding at_limit
  upsert-limit ident p ix n bounded room code user same =
      elim (Bool-cases (online ident.code_id ix)) [
        | inl t ↦
            let (q, f) =
              online-lookup p.code_id ix (subst (λ c. online c ix ≡ true) (sym code) t) in
            omega (arith, count_by_user-upsert_same p q p.user_id ix f (same q f))
        | inr t ↦
            let free : count_by_user ident.user_id ix + 1 ≤ n = ground (arith, room, bounded, t) in
            let own : count_by_user p.user_id ix + 1 ≤ n =
              subst (λ u. count_by_user u ix + 1 ≤ n) (sym user) free in
            omega (arith, count_by_user-upsert p p.user_id ix)
      ]

module _ {Str AddrPort D Push : Type 0} ⦃es : Eq Str⦄ ⦃ea : Eq AddrPort⦄ (k : Binder Str AddrPort D)
    (r : Relay) (m : Hmac) (kdf : Hkdf) (fresh : Fresh) (from : AddrPort)
    (st : RelayState Str AddrPort D Push) (pkt : List ℕ) (p : Peer Str AddrPort Addr)
    (made : (handle_hello k r m kdf fresh pkt from st).made ≡ some p) where
  -- When a packet makes a session for a code whose user may have `n` tunnels, and a session that
  -- the code has already is one of the same user: the number of the user's sessions afterwards is
  -- at most the greater of `n` and the number before.
  pub handle_hello-limit :
      (n : ℕ)
      → (handle_hello-IsAdmitted k r m kdf fresh from st pkt p made).ident.max_tunnels ≡ some n
      → ((q : Peer Str AddrPort Addr)
          → lookup p.code_id st.peers.by_code ≡ some q
          → q.user_id ≡ p.user_id)
      → count_by_user p.user_id (handle_hello k r m kdf fresh pkt from st).state.peers
        ≤ max n (count_by_user p.user_id st.peers)
  handle_hello-limit n bounded same =
      let v = handle_hello-IsAdmitted k r m kdf fresh from st pkt p made in
      subst (λ ix. count_by_user p.user_id ix ≤ max n (count_by_user p.user_id st.peers))
        (sym v.listed) (upsert-limit v.ident p st.peers n bounded v.room v.owner.0 v.owner.1 same)
