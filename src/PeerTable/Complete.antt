-- ===== src/PeerTable/Complete.antt =====
-- internal/tunnelapp/registry.go: whether the indices by address lead to every live session, and what
-- happens to a session whose address another code has used.
use go_port_forward.Base.{
  ◌≡◌, ◌≢◌, refl, ap, ◌∙◌, Option, none, some, arith, Option-cases, inl, inr,
}
use go_port_forward.Base.Keys.{Eq, Map, lookup, remove, lookup-insert, lookup-remove}
use go_port_forward.PeerTable.{
  Peer, PeerIndex, remove_own_ip, forget_addresses, upsert, evict, drop_peer,
}
use go_port_forward.PeerTable.Sound.{IsSound}

module _ {Str AddrPort Addr : Type 0} ⦃es : Eq Str⦄ ⦃ea : Eq AddrPort⦄ ⦃ei : Eq Addr⦄ where
  -- The indices by address lead to every live session.
  pub record IsComplete (ix : PeerIndex Str AddrPort Addr) : Type 0 where
    pub addr :
        (c : Str) (p : Peer Str AddrPort Addr)
        → lookup c ix.by_code ≡ some p
        → lookup p.addr_port ix.by_addr ≡ some p
    pub ip :
        (c : Str) (p : Peer Str AddrPort Addr)
        → lookup c ix.by_code ≡ some p
        → lookup p.tun_ip ix.by_tun_ip ≡ some p

  -- No other code uses the addresses of this session.
  pub record IsFresh (ps : Peer Str AddrPort Addr) (ix : PeerIndex Str AddrPort Addr) : Type 0 where
    pub addr :
        (c : Str) (q : Peer Str AddrPort Addr)
        → lookup c ix.by_code ≡ some q
        → c ≢ ps.code_id
        → q.addr_port ≢ ps.addr_port
    pub ip :
        (c : Str) (q : Peer Str AddrPort Addr)
        → lookup c ix.by_code ≡ some q
        → c ≢ ps.code_id
        → q.tun_ip ≢ ps.tun_ip

  remove_own_ip-other :
      (p : Peer Str AddrPort Addr) (i : Addr) (m : Map Addr (Peer Str AddrPort Addr))
      → p.tun_ip ≢ i
      → lookup i (remove_own_ip p m) ≡ lookup i m
  unfolding remove_own_ip
  remove_own_ip-other p i m ne = ground (arith, lookup-remove p.tun_ip i m, ei.beq_iff p.tun_ip i)

  module _ (ix : PeerIndex Str AddrPort Addr) (v : IsSound ix) (w : IsComplete ix) (c : Str)
      (prev : Peer Str AddrPort Addr) (held : lookup c ix.by_code ≡ some prev) where
    -- Sessions of other codes keep their entries when `prev` leaves.
    keep-addr :
        (d : Str) (q : Peer Str AddrPort Addr)
        → lookup d ix.by_code ≡ some q
        → d ≢ c
        → lookup q.addr_port (remove prev.addr_port ix.by_addr) ≡ some q
    keep-addr d q h ne = ground (
      arith,
      w.addr c prev held,
      w.addr d q h,
      v.code_key c prev held,
      v.code_key d q h,
      lookup-remove prev.addr_port q.addr_port ix.by_addr,
      ea.beq_iff prev.addr_port q.addr_port,
    )

    keep-ip :
        (d : Str) (q : Peer Str AddrPort Addr)
        → lookup d ix.by_code ≡ some q
        → d ≢ c
        → lookup q.tun_ip (remove_own_ip prev ix.by_tun_ip) ≡ some q
    keep-ip d q h ne =
        let other : prev.tun_ip ≢ q.tun_ip = λ e. ground (
          arith,
          w.ip c prev held,
          w.ip d q h,
          v.code_key c prev held,
          v.code_key d q h,
          ap (λ i. lookup i ix.by_tun_ip) e,
        ) in
        remove_own_ip-other prev q.tun_ip ix.by_tun_ip other ∙ w.ip d q h

  -- In a sound table where every live session is reachable by its addresses, an eviction keeps it
  -- so for those that stay.
  pub evict-IsComplete :
      (c : Str) (ix : PeerIndex Str AddrPort Addr)
      → IsSound ix
      → IsComplete ix
      → IsComplete (evict c ix).0
  unfolding evict drop_peer
  evict-IsComplete c ix v w = elim (Option-cases (lookup c ix.by_code)) [
    | inl e ↦ rw (e, evict) w
    | inr (p, e) ↦
        rw (e, evict)
          (record {
            addr = λ d q h.
                keep-addr ix v w c p e d q
                  (ground (arith, lookup-remove c d ix.by_code, es.beq_iff c d))
                  (ground (arith, lookup-remove c d ix.by_code, es.beq_iff c d));
            ip = λ d q h.
                keep-ip ix v w c p e d q
                  (ground (arith, lookup-remove c d ix.by_code, es.beq_iff c d))
                  (ground (arith, lookup-remove c d ix.by_code, es.beq_iff c d));
          })
  ]

  -- Likewise when a session is replaced.
  forget_addresses-keeps :
      (ix : PeerIndex Str AddrPort Addr) (c d : Str) (q : Peer Str AddrPort Addr)
      → IsSound ix
      → IsComplete ix
      → lookup d ix.by_code ≡ some q
      → d ≢ c
      → let next = forget_addresses (lookup c ix.by_code) ix in
        (next.by_code ≡ ix.by_code)
        × (lookup q.addr_port next.by_addr ≡ some q)
        × (lookup q.tun_ip next.by_tun_ip ≡ some q)
  unfolding forget_addresses
  forget_addresses-keeps ix c d q v w h ne = elim (Option-cases (lookup c ix.by_code)) [
    | inl e ↦ rw (e, forget_addresses) (refl, w.addr d q h, w.ip d q h)
    | inr (prev, e) ↦
        rw (e, forget_addresses)
          (refl, keep-addr ix v w c prev e d q h ne, keep-ip ix v w c prev e d q h ne)
  ]

  forget_addresses-codes :
      (ix : PeerIndex Str AddrPort Addr) (o : Option (Peer Str AddrPort Addr))
      → (forget_addresses o ix).by_code ≡ ix.by_code
  unfolding forget_addresses
  forget_addresses-codes ix none = refl
  forget_addresses-codes ix (some p) = refl

  -- In a sound table where every live session is reachable by its addresses, a handshake from
  -- addresses that no other code uses keeps it so, with the new session among them.
  pub upsert-IsComplete :
      (ps : Peer Str AddrPort Addr) (ix : PeerIndex Str AddrPort Addr)
      → IsSound ix
      → IsComplete ix
      → IsFresh ps ix
      → IsComplete (upsert ps ix).0
  unfolding upsert
  upsert-IsComplete ps ix v w f =
      let next = forget_addresses (lookup ps.code_id ix.by_code) ix in
      let codes = forget_addresses-codes ix (lookup ps.code_id ix.by_code) in
      record {
        addr = λ d q h. ground (
          arith,
          codes,
          lookup-insert ps.code_id d ps next.by_code,
          es.beq_iff ps.code_id d,
          lookup-insert ps.addr_port q.addr_port ps next.by_addr,
          ea.beq_iff ps.addr_port q.addr_port,
          forget_addresses-keeps ix ps.code_id d q v w,
          f.addr d q,
        );
        ip = λ d q h. ground (
          arith,
          codes,
          lookup-insert ps.code_id d ps next.by_code,
          es.beq_iff ps.code_id d,
          lookup-insert ps.tun_ip q.tun_ip ps next.by_tun_ip,
          ei.beq_iff ps.tun_ip q.tun_ip,
          forget_addresses-keeps ix ps.code_id d q v w,
          f.ip d q,
        );
      }

  -- Where code `q` took over the source address that code `p` had used, the next handshake of `p`
  -- from another address leaves `q` live, while its source address leads to no session any more.
  pub upsert_forgets_other :
      (ix : PeerIndex Str AddrPort Addr) (p p' q : Peer Str AddrPort Addr)
      → lookup p.code_id ix.by_code ≡ some p
      → lookup q.code_id ix.by_code ≡ some q
      → p.code_id ≢ q.code_id
      → p.addr_port ≡ q.addr_port
      → p'.code_id ≡ p.code_id
      → p'.addr_port ≢ q.addr_port
      → let next = (upsert p' ix).0 in
        (lookup q.code_id next.by_code ≡ some q) × (lookup q.addr_port next.by_addr ≡ none)
  unfolding upsert forget_addresses
  upsert_forgets_other ix p p' q hp hq ne same code other =
      let held : lookup p'.code_id ix.by_code ≡ some p = ap (λ c. lookup c ix.by_code) code ∙ hp in
      rw held (
        ground (
          arith,
          lookup-insert p'.code_id q.code_id p' ix.by_code,
          es.beq_iff p'.code_id q.code_id,
          hq,
          code,
          ne,
        ),
        ground (
          arith,
          lookup-insert p'.addr_port q.addr_port p' (remove p.addr_port ix.by_addr),
          ea.beq_iff p'.addr_port q.addr_port,
          lookup-remove p.addr_port q.addr_port ix.by_addr,
          ea.beq_iff p.addr_port q.addr_port,
          same,
          other,
        ),
      )
