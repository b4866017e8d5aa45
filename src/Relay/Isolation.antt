-- ===== src/Relay/Isolation.antt =====
-- internal/tunnelapp: which packets reach the TUN device and the clients.
use go_port_forward.Base.{
  ℕ, ◌≡◌, ◌≤◌, ◌⊎◌, inl, inr, refl, ap, sym, subst, ◌∙◌, List, [], ◌∷◌, ◌++◌, some, true, false,
  ltb, ◌==◌, length, get_or, arith, Bool-cases, Option-cases,
}
use go_port_forward.Base.Keys.{Eq, nat_eq, lookup}
use go_port_forward.PeerTable.{Peer, by_tunnel_ip}
use go_port_forward.Tunnel.Protocol.{Result, ok, err}
use go_port_forward.Tunnel.Handshake.Accept.{Addr}
use go_port_forward.Tunnel.Session.{Aead, open_data}
use go_port_forward.Tunnel.Session.Parity.{Sealed, seal_data_fec}
use go_port_forward.Relay.{addr_eq, Relay, Live, RelayState}
use go_port_forward.Relay.Packets.{
  src_ip4, dst_ip4, is_tcp_connect_attempt, is_tunnel_internal, allow_return_to_gateway, crosses,
  passes, deliver_opened, deliver_inbound, answer_ping, take_pong, handle_session_packet, Drains,
  dry, restores, Outbound, is_private_source, datagrams, send_to, forward_outbound, keep_out,
}

-- The packet carries the session's own address as its source, and its destination is outside of the
-- tunnel, or the relay itself in a packet that opens no TCP connection.
pub record IsIsolated (r : Relay) (own : Addr) (plain : List ℕ) : Type 0 where
  pub own_source : src_ip4 plain ≡ some own
  pub outside :
      (dst : Addr)
      → dst_ip4 plain ≡ some dst
      → (r.contains dst ≡ false) ⊎ ((dst ≡ r.gateway) × (is_tcp_connect_attempt plain ≡ false))

abbrev pub AllIsolated : Relay → Addr → List (List ℕ) → Type 0
AllIsolated r own [] = Unit
AllIsolated r own (p ∷ ps) = IsIsolated r own p × AllIsolated r own ps

AllIsolated-append :
    (r : Relay) (own : Addr) (ps qs : List (List ℕ))
    → AllIsolated r own ps
    → AllIsolated r own qs
    → AllIsolated r own (ps ++ qs)
AllIsolated-append r own [] qs h g = g
AllIsolated-append r own (p ∷ ps) qs h g = (h.0, AllIsolated-append r own ps qs h.1 g)

passes-IsIsolated :
    (r : Relay) (own : Addr) (plain : List ℕ) → passes r own plain ≡ true → IsIsolated r own plain
unfolding passes crosses allow_return_to_gateway is_tunnel_internal
passes-IsIsolated r own plain h = elim (Option-cases (src_ip4 plain)) [
  | inl n ↦ absurd (ground (arith, h, n))
  | inr (src, f) ↦ elim (Bool-cases (addr_eq.beq src own)) [
    | inr t ↦ absurd (ground (arith, h, f, t))
    | inl t ↦ record {
      own_source = f ∙ ap some ((addr_eq.beq_iff src own).0 t);
      outside = λ dst g. elim (Bool-cases (r.contains dst)) [
        | inr c ↦ inl c
        | inl c ↦ elim (Bool-cases (addr_eq.beq dst r.gateway)) [
          | inr b ↦ absurd (ground (arith, h, f, t, g, c, b))
          | inl b ↦ inr ((addr_eq.beq_iff dst r.gateway).0 b, ground (arith, h, f, t, g, c, b))
        ]
      ];
    }
  ]
]

module _ {Str AddrPort : Type 0} (a : Aead) (r : Relay) (now room : ℕ)
    (ps : Peer Str AddrPort Addr) where
  deliver_opened-AllIsolated :
      (l : Live) (o : Result (List ℕ))
      → AllIsolated r ps.tun_ip (deliver_opened a r now room ps l o).to_tun
  unfolding deliver_opened
  deliver_opened-AllIsolated l (err e) = tt
  deliver_opened-AllIsolated l (ok plain) = elim (Bool-cases (passes r ps.tun_ip plain)) [
    | inl t ↦ rw t (passes-IsIsolated r ps.tun_ip plain t, tt)
    | inr t ↦ rw t tt
  ]

  deliver_inbound-AllIsolated :
      (pkt : List ℕ) (l : Live)
      → AllIsolated r ps.tun_ip (deliver_inbound a r now room ps pkt l).to_tun
  unfolding deliver_inbound
  deliver_inbound-AllIsolated pkt l =
      deliver_opened-AllIsolated (record l { sess = (open_data a now 0 room pkt l.sess).0 })
        (open_data a now 0 room pkt l.sess).1

  answer_ping-to_tun :
      (l : Live) (o : Result (ℕ × ℕ)) → (answer_ping a r now room ps l o).to_tun ≡ []
  unfolding answer_ping
  answer_ping-to_tun l (err e) = refl
  answer_ping-to_tun l (ok (probe, size)) = refl

  take_pong-to_tun :
      (sent : ℕ) (l : Live) (o : Result (ℕ × ℕ)) → (take_pong a r now room ps sent l o).to_tun ≡ []
  unfolding take_pong
  take_pong-to_tun sent l (err e) = refl
  take_pong-to_tun sent l (ok probe) = refl

  -- Whatever a client sends in a session, a packet that is written to the device has the session's
  -- tunnel address as its source, and its destination is outside of the tunnel or the gateway, the
  -- latter only in a packet that opens no TCP connection.
  pub handle_session_packet-AllIsolated :
      (sent : ℕ) (pkt : List ℕ) (l : Live)
      → AllIsolated r ps.tun_ip (handle_session_packet a r now room ps sent pkt l).to_tun
  unfolding handle_session_packet
  handle_session_packet-AllIsolated sent pkt l =
      let nothing : (x : List (List ℕ)) → x ≡ [] → AllIsolated r ps.tun_ip x =
        λ x e. subst (AllIsolated r ps.tun_ip) (sym e) tt in
      elim (Bool-cases (get_or pkt 0 0 == 5)) [
        | inl t ↦ rw t (nothing _ (answer_ping-to_tun _ _))
        | inr t ↦ elim (Bool-cases (get_or pkt 0 0 == 6)) [
          | inl u ↦ rw (t, u) (nothing _ (take_pong-to_tun sent _ _))
          | inr u ↦ elim (Bool-cases (get_or pkt 0 0 == 8)) [
            | inl v ↦ rw (t, u, v) tt
            | inr v ↦ elim (Bool-cases (get_or pkt 0 0 == 3)) [
              | inl w ↦ rw (t, u, v, w) (deliver_inbound-AllIsolated pkt l)
              | inr w ↦ rw (t, u, v, w) tt
            ]
          ]
        ]
      ]

  -- Every packet that the loop over the packets restored by parity writes to the device, however
  -- long the loop is, has the session's tunnel address as its source, and its destination is
  -- outside of the tunnel or the gateway, the latter only in a packet that opens no TCP
  -- connection.
  pub Drains-AllIsolated :
      (l l' : Live) (out : List (List ℕ))
      → Drains a r now room ps l out l'
      → AllIsolated r ps.tun_ip out
  Drains-AllIsolated l l1 out (dry h) = tt
  Drains-AllIsolated l l1 out (restores {rest} wire h d) =
      AllIsolated-append r ps.tun_ip _ rest (deliver_inbound-AllIsolated wire _)
        (Drains-AllIsolated _ l1 rest d)

outside-private :
    (r : Relay) (pkt : List ℕ)
    → is_private_source r pkt ≡ false
    → (src : Addr) → src_ip4 pkt ≡ some src
    → (r.contains src ≡ false) ⊎ (src ≡ r.gateway)
unfolding is_private_source is_tunnel_internal
outside-private r pkt h src f = elim (Bool-cases (r.contains src)) [
  | inr c ↦ inl c
  | inl c ↦ inr ((addr_eq.beq_iff src r.gateway).0 (ground (arith, h, f, c)))
]

-- Where a datagram goes, and what the packet in it was.
pub record IsRouted {Str AddrPort D Push : Type 0} ⦃es : Eq Str⦄ ⦃ea : Eq AddrPort⦄ (r : Relay)
    (pkt : List ℕ) (st : RelayState Str AddrPort D Push) (to : AddrPort) : Type 0 where
  pub dst : Addr
  pub ps : Peer Str AddrPort Addr
  pub live : Live
  pub destination : dst_ip4 pkt ≡ some dst
  pub owner : by_tunnel_ip dst st.peers ≡ some ps
  pub session : lookup ps.ref st.sessions ≡ some live
  pub address : to ≡ ps.addr_port
  pub fits : length pkt ≤ live.mtu
  pub outside : (src : Addr) → src_ip4 pkt ≡ some src → (r.contains src ≡ false) ⊎ (src ≡ r.gateway)

module _ {Str AddrPort D Push : Type 0} ⦃es : Eq Str⦄ ⦃ea : Eq AddrPort⦄ (a : Aead) (r : Relay)
    (now : ℕ) where
  abbrev pub AllRouted : List ℕ → RelayState Str AddrPort D Push → List (List ℕ × AddrPort) → Type 0
  AllRouted pkt st [] = Unit
  AllRouted pkt st (d ∷ ds) = IsRouted r pkt st d.1 × AllRouted pkt st ds

  datagrams-AllRouted :
      (pkt : List ℕ) (st : RelayState Str AddrPort D Push) (x : Sealed) (to : AddrPort)
      → IsRouted r pkt st to
      → AllRouted pkt st (datagrams x to)
  datagrams-AllRouted pkt st x to v = elim (Option-cases x.extra) [
    | inl n ↦ rw n (v, tt)
    | inr (e, f) ↦ rw f (v, (v, tt))
  ]

  send_to-AllRouted :
      (last_dup : ℕ) (pkt : List ℕ) (dst : Addr) (ps : Peer Str AddrPort Addr) (l : Live)
      (st : RelayState Str AddrPort D Push)
      → dst_ip4 pkt ≡ some dst
      → by_tunnel_ip dst st.peers ≡ some ps
      → lookup ps.ref st.sessions ≡ some l
      → AllRouted pkt st (send_to a r now last_dup pkt ps l st).sent
  unfolding send_to
  send_to-AllRouted last_dup pkt dst ps l st f g h = elim (Bool-cases (is_private_source r pkt)) [
    | inl t ↦ rw t tt
    | inr t ↦ elim (Bool-cases (ltb l.mtu (length pkt))) [
      | inl u ↦ rw (t, u) tt
      | inr u ↦
          rw (t, u)
            (datagrams-AllRouted pkt st (seal_data_fec a now last_dup pkt l.sess) ps.addr_port
              (record {
                dst = dst;
                ps = ps;
                live = l;
                destination = f;
                owner = g;
                session = h;
                address = refl;
                fits = ground (arith, u);
                outside = outside-private r pkt t;
              }))
    ]
  ]

  -- Every datagram that a packet of the device leads to goes to the source address of the session
  -- that holds the packet's destination, and the packet fits the session's MTU and has a source
  -- outside of the tunnel or that of the gateway.
  pub forward_outbound-AllRouted :
      (last_dup : ℕ) (pkt : List ℕ) (st : RelayState Str AddrPort D Push)
      → AllRouted pkt st (forward_outbound a r now last_dup pkt st).sent
  unfolding forward_outbound
  forward_outbound-AllRouted last_dup pkt st =
      let settle : (x : Outbound Str AddrPort D Push)
          → forward_outbound a r now last_dup pkt st ≡ x
          → AllRouted pkt st x.sent
          → AllRouted pkt st (forward_outbound a r now last_dup pkt st).sent =
        λ x e h. subst (λ (y : Outbound Str AddrPort D Push). AllRouted pkt st y.sent) (sym e) h in
      elim (Option-cases (dst_ip4 pkt)) [
        | inl n ↦ settle (keep_out last_dup st) (ground (arith, n)) tt
        | inr (dst, f) ↦ elim (Option-cases (by_tunnel_ip dst st.peers)) [
          | inl n ↦ settle (keep_out last_dup st) (ground (arith, f, n)) tt
          | inr (ps, g) ↦ elim (Option-cases (lookup ps.ref st.sessions)) [
            | inl n ↦ settle (keep_out last_dup st) (ground (arith, f, g, n)) tt
            | inr (l, h) ↦
                settle (send_to a r now last_dup pkt ps l st) (ground (arith, f, g, h))
                  (send_to-AllRouted last_dup pkt dst ps l st f g h)
          ]
        ]
      ]
