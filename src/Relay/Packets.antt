-- ===== src/Relay/Packets.antt =====
-- internal/tunnelapp: the packets of a session on their way to the TUN device, and those of the device on
-- their way to a session. A call gives what it writes; the batches in which the system calls go, and
-- the log lines, are left out, and a slot of a batch is its room. `active` says that the call marks
-- the session as active.
use go_port_forward.Base.{
  ℕ, ◌+◌, ◌-◌, ◌*◌, ◌/◌, ◌%◌, ◌≡◌, List, [], ◌∷◌, ◌++◌, Option, none, some, Bool, true, false, ◌&&◌,
  ◌||◌, not, ltb, ◌==◌, if◌then◌else◌, length, take, drop, get_or, bit_and,
}
use go_port_forward.Base.Keys.{Eq, nat_eq, lookup, insert}
use go_port_forward.PeerTable.{Peer, by_tunnel_ip}
use go_port_forward.Tunnel.Protocol.{Result, ok, err, type_data, type_ping, type_pong, type_fec}
use go_port_forward.Tunnel.Stats.{Stats, add_u64, observe_rtt}
use go_port_forward.Tunnel.Handshake.Accept.{Addr, addr4}
use go_port_forward.Tunnel.Session.{Aead, open_data, open_ping, open_pong, seal_pong, with_stats}
use go_port_forward.Tunnel.Session.Parity.{Sealed, seal_data_fec, handle_fec, recover}
use go_port_forward.Relay.{addr_eq, Relay, Live, RelayState}

-- srcIP4 and dstIP4.
unfoldable pub ip4_at : (from : ℕ) → List ℕ → Option Addr
ip4_at from pkt =
    if ltb (length pkt) 20 || not (get_or pkt 0 0 / 16 == 4)
    then none
    else some (addr4 (take 4 (drop from pkt)))

abbrev pub src_ip4 : List ℕ → Option Addr
src_ip4 pkt = ip4_at 12 pkt

abbrev pub dst_ip4 : List ℕ → Option Addr
dst_ip4 pkt = ip4_at 16 pkt

unfoldable pub is_tcp_connect_attempt : List ℕ → Bool
is_tcp_connect_attempt pkt =
    let ihl = get_or pkt 0 0 % 16 * 4 in
    let flags = get_or pkt (ihl + 13) 0 in
    if ltb (length pkt) 20 || not (get_or pkt 0 0 / 16 == 4)
    then false
    else if not (get_or pkt 9 0 == 6)
    then false
    else if ltb ihl 20 || ltb (length pkt) (ihl + 14)
    then false
    else not (bit_and flags 0x02 == 0) && bit_and flags 0x10 == 0

unfoldable pub is_tunnel_internal : Relay → Addr → Bool
is_tunnel_internal r ip = r.contains ip

unfoldable pub allow_return_to_gateway : Relay → List ℕ → Addr → Bool
allow_return_to_gateway r pkt dst = addr_eq.beq dst r.gateway && not (is_tcp_connect_attempt pkt)

-- The session after a packet from the client, what is written to the device, and what is sent back.
pub record Inbound : Type 0 where
  pub live : Live
  pub to_tun : List (List ℕ)
  pub replies : List (List ℕ)
  pub active : Bool

abbrev pub quiet : Live → Inbound
quiet l = record { live = l; to_tun = []; replies = []; active = false }

-- The destination is a private address of the tunnel, and the packet no answer to the relay.
unfoldable pub crosses : Relay → List ℕ → Bool
crosses r plain = elim (dst_ip4 plain) [
  | none ↦ false
  | some dst ↦ is_tunnel_internal r dst && not (allow_return_to_gateway r plain dst)
]

-- The checks on a packet that was opened; `own` is the session's tunnel address.
unfoldable pub passes : Relay → (own : Addr) → List ℕ → Bool
passes r own plain = elim (src_ip4 plain) [
  | none ↦ false
  | some src ↦ if addr_eq.beq src own then not (crosses r plain) else false
]

module _ {Str AddrPort : Type 0} (a : Aead) (r : Relay) (now room : ℕ)
    (ps : Peer Str AddrPort Addr) where
  unfoldable pub deliver_opened : Live → Result (List ℕ) → Inbound
  deliver_opened l (err e) = quiet l
  deliver_opened l (ok plain) = record {
    live = l;
    to_tun = if passes r ps.tun_ip plain then plain ∷ [] else [];
    replies = [];
    active = true;
  }

  unfoldable pub deliver_inbound : List ℕ → Live → Inbound
  deliver_inbound pkt l =
      let (s', opened) = open_data a now 0 room pkt l.sess in
      deliver_opened (record l { sess = s' }) opened

  unfoldable pub answer_ping : Live → Result (ℕ × ℕ) → Inbound
  answer_ping l (err e) = quiet l
  answer_ping l (ok (probe, size)) =
      let (s', pong) = seal_pong a [] probe size l.sess in
      record { live = record l { sess = s' }; to_tun = []; replies = pong ∷ []; active = true }

  -- `sent` is the time of the last ping, 0 if there was none.
  unfoldable pub take_pong : (sent : ℕ) → Live → Result (ℕ × ℕ) → Inbound
  take_pong sent l (err e) = quiet l
  take_pong sent l (ok probe) = record {
    live =
        if ltb 0 sent then record l { sess = with_stats (observe_rtt (now - sent)) l.sess } else l;
    to_tun = [];
    replies = [];
    active = true;
  }

  -- A packet of a session, but for the packets that its parity restores.
  unfoldable pub handle_session_packet : (sent : ℕ) → List ℕ → Live → Inbound
  handle_session_packet sent pkt l =
      let typ = get_or pkt 0 0 in
      if typ == type_ping
      then (let (s', probe) = open_ping a now pkt l.sess in
          answer_ping (record l { sess = s' }) probe)
      else if typ == type_pong
      then (let (s', probe) = open_pong a now pkt l.sess in
          take_pong sent (record l { sess = s' }) probe)
      else if typ == type_fec
      then (let (s', added) = handle_fec a now pkt l.sess in
          record (quiet (record l { sess = s' })) { active = added })
      else if typ == type_data
      then deliver_inbound pkt l
      else quiet l

  -- The loop that follows a parity packet, and what it writes to the device.
  pub data Drains : Live → List (List ℕ) → Live → Type 0 where
    dry :
        {l : Live}
        → (recover l.sess).1 ≡ none
        → Drains l [] (record l { sess = (recover l.sess).0 })
    restores :
        {l l' : Live} {rest : List (List ℕ)} (wire : List ℕ)
        → (recover l.sess).1 ≡ some wire
        → Drains (deliver_inbound wire (record l { sess = (recover l.sess).0 })).live rest l'
        → Drains l
            ((deliver_inbound wire (record l { sess = (recover l.sess).0 })).to_tun ++ rest)
            l'

-- A packet of the device on its way to a client: the state, the datagrams with their destination.
pub record Outbound (Str AddrPort D Push : Type 0) : Type 0 where
  pub state : RelayState Str AddrPort D Push
  pub sent : List (List ℕ × AddrPort)
  pub last_dup : ℕ

abbrev pub keep_out :
    {Str AddrPort D Push : Type 0}
    → (last_dup : ℕ) → RelayState Str AddrPort D Push
    → Outbound Str AddrPort D Push
keep_out last_dup st = record { state = st; sent = []; last_dup = last_dup }

-- The source is an address of the tunnel other than the relay's own.
unfoldable pub is_private_source : Relay → List ℕ → Bool
is_private_source r pkt = elim (src_ip4 pkt) [
  | none ↦ false
  | some src ↦ is_tunnel_internal r src && not (addr_eq.beq src r.gateway)
]

abbrev pub count_tun_dropped : Stats → Stats
count_tun_dropped s = record s { tun_dropped = add_u64 s.tun_dropped 1 }

abbrev pub datagrams : {AddrPort : Type 0} → Sealed → AddrPort → List (List ℕ × AddrPort)
datagrams x to = (x.wire, to) ∷ elim x.extra [ none ↦ [] | some e ↦ (e, to) ∷ [] ]

module _ {Str AddrPort D Push : Type 0} ⦃es : Eq Str⦄ ⦃ea : Eq AddrPort⦄ (a : Aead) (r : Relay)
    (now : ℕ) where
  abbrev pub put_live : ℕ → Live → RelayState Str AddrPort D Push → RelayState Str AddrPort D Push
  put_live ref l st = record st { sessions = insert ref l st.sessions }

  unfoldable pub send_to :
      (last_dup : ℕ)
      → List ℕ
      → Peer Str AddrPort Addr
      → Live
      → RelayState Str AddrPort D Push
      → Outbound Str AddrPort D Push
  send_to last_dup pkt ps l st =
      let x = seal_data_fec a now last_dup pkt l.sess in
      if is_private_source r pkt
      then keep_out last_dup st
      else if ltb l.mtu (length pkt)
      then keep_out last_dup
          (put_live ps.ref (record l { sess = with_stats count_tun_dropped l.sess }) st)
      else record {
        state = put_live ps.ref (record l { sess = x.session }) st;
        sent = datagrams x ps.addr_port;
        last_dup = x.last_dup;
      }

  -- `last_dup` is that of the session that the packet goes to.
  unfoldable pub forward_outbound :
      (last_dup : ℕ) → List ℕ → RelayState Str AddrPort D Push → Outbound Str AddrPort D Push
  forward_outbound last_dup pkt st = elim (dst_ip4 pkt) [
    | none ↦ keep_out last_dup st
    | some dst ↦ elim (by_tunnel_ip dst st.peers) [
      | none ↦ keep_out last_dup st
      | some ps ↦ elim (lookup ps.ref st.sessions) [
        | none ↦ keep_out last_dup st
        | some l ↦ send_to last_dup pkt ps l st
      ]
    ]
  ]
