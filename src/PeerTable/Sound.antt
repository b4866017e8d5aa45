-- ===== src/PeerTable/Sound.antt =====
-- internal/tunnelapp/registry.go: what the entries of the three indices lead to.
use go_port_forward.Base.{◌≡◌, ◌≢◌, refl, some, arith, Option-cases, inl, inr}
use go_port_forward.Base.Keys.{
  Eq, Map, lookup, remove, lookup-insert, lookup-remove, HasDistinctKeys, remove-HasDistinctKeys,
  insert-HasDistinctKeys,
}
use go_port_forward.PeerTable.{
  Peer, PeerIndex, new_registry, remove_own_ip, forget_addresses, upsert, drop_peer, evict,
}

module _ {Str AddrPort Addr : Type 0} ⦃es : Eq Str⦄ ⦃ea : Eq AddrPort⦄ ⦃ei : Eq Addr⦄ where
  -- Every entry of an index is a live session, under its own key.
  pub record IsSound (ix : PeerIndex Str AddrPort Addr) : Type 0 where
    pub code_key :
        (c : Str) (p : Peer Str AddrPort Addr) → lookup c ix.by_code ≡ some p → p.code_id ≡ c
    pub distinct : HasDistinctKeys ix.by_code
    pub addr_live :
        (a : AddrPort) (p : Peer Str AddrPort Addr)
        → lookup a ix.by_addr ≡ some p
        → (p.addr_port ≡ a) × (lookup p.code_id ix.by_code ≡ some p)
    pub ip_live :
        (i : Addr) (p : Peer Str AddrPort Addr)
        → lookup i ix.by_tun_ip ≡ some p
        → (p.tun_ip ≡ i) × (lookup p.code_id ix.by_code ≡ some p)

  pub new_registry-IsSound : IsSound new_registry
  unfolding new_registry lookup
  new_registry-IsSound = record {
    code_key = λ c p h. cc;
    distinct = tt;
    addr_live = λ a p h. cc;
    ip_live = λ i p h. cc;
  }

  -- What is left at a tunnel address after a session took its own entry back.
  lookup-remove_own_ip :
      (p q : Peer Str AddrPort Addr) (i : Addr) (m : Map Addr (Peer Str AddrPort Addr))
      → lookup i (remove_own_ip p m) ≡ some q
      → (lookup i m ≡ some q) × ¬ ((p.tun_ip ≡ i) × (q ≡ p))
  unfolding remove_own_ip
  lookup-remove_own_ip p q i m h = ground (arith, lookup-remove p.tun_ip i m, ei.beq_iff p.tun_ip i)

  -- After the session `prev` of the code `c` has left them, the indices by address hold live
  -- sessions of other codes.
  module _ (ix : PeerIndex Str AddrPort Addr) (v : IsSound ix) (c : Str)
      (prev : Peer Str AddrPort Addr) (held : lookup c ix.by_code ≡ some prev) where
    forget-addr :
        (a : AddrPort) (p : Peer Str AddrPort Addr)
        → lookup a (remove prev.addr_port ix.by_addr) ≡ some p
        → (p.addr_port ≡ a) × (lookup p.code_id ix.by_code ≡ some p) × (p.code_id ≢ c)
    forget-addr a p h = ground (
      arith,
      v.addr_live a p,
      lookup-remove prev.addr_port a ix.by_addr,
      ea.beq_iff prev.addr_port a,
    )

    forget-ip :
        (i : Addr) (p : Peer Str AddrPort Addr)
        → lookup i (remove_own_ip prev ix.by_tun_ip) ≡ some p
        → (p.tun_ip ≡ i) × (lookup p.code_id ix.by_code ≡ some p) × (p.code_id ≢ c)
    forget-ip i p h = ground (arith, v.ip_live i p, lookup-remove_own_ip prev p i ix.by_tun_ip h)

  -- The indices after `upsert` has removed what it replaces.
  record IsCleared (ix : PeerIndex Str AddrPort Addr) (c : Str) (next : PeerIndex Str AddrPort Addr)
      : Type 0 where
    codes : next.by_code ≡ ix.by_code
    addrs :
        (a : AddrPort) (p : Peer Str AddrPort Addr)
        → lookup a next.by_addr ≡ some p
        → (p.addr_port ≡ a) × (lookup p.code_id ix.by_code ≡ some p) × (p.code_id ≢ c)
    ips :
        (i : Addr) (p : Peer Str AddrPort Addr)
        → lookup i next.by_tun_ip ≡ some p
        → (p.tun_ip ≡ i) × (lookup p.code_id ix.by_code ≡ some p) × (p.code_id ≢ c)

  forget_addresses-IsCleared :
      (ix : PeerIndex Str AddrPort Addr) (c : Str)
      → IsSound ix
      → IsCleared ix c (forget_addresses (lookup c ix.by_code) ix)
  unfolding forget_addresses
  forget_addresses-IsCleared ix c v = elim (Option-cases (lookup c ix.by_code)) [
    | inl e ↦
        rw (e, forget_addresses)
          (record {
            codes = refl;
            addrs = λ a p h. ground (arith, v.addr_live a p h);
            ips = λ i p h. ground (arith, v.ip_live i p h);
          })
    | inr (prev, e) ↦
        rw (e, forget_addresses)
          (record {
            codes = refl;
            addrs = forget-addr ix v c prev e;
            ips = forget-ip ix v c prev e;
          })
  ]

  pub upsert-IsSound :
      (ps : Peer Str AddrPort Addr) (ix : PeerIndex Str AddrPort Addr)
      → IsSound ix
      → IsSound (upsert ps ix).0
  unfolding upsert
  upsert-IsSound ps ix v =
      let next = forget_addresses (lookup ps.code_id ix.by_code) ix in
      let w = forget_addresses-IsCleared ix ps.code_id v in
      record {
        code_key = λ c p h. ground (
          arith,
          v.code_key c p,
          w.codes,
          lookup-insert ps.code_id c ps next.by_code,
          es.beq_iff ps.code_id c,
        );
        distinct = insert-HasDistinctKeys ps.code_id ps next.by_code (rw w.codes v.distinct);
        addr_live = λ a p h. ground (
          arith,
          w.addrs a p,
          w.codes,
          lookup-insert ps.addr_port a ps next.by_addr,
          ea.beq_iff ps.addr_port a,
          lookup-insert ps.code_id p.code_id ps next.by_code,
          es.beq_iff ps.code_id p.code_id,
        );
        ip_live = λ i p h. ground (
          arith,
          w.ips i p,
          w.codes,
          lookup-insert ps.tun_ip i ps next.by_tun_ip,
          ei.beq_iff ps.tun_ip i,
          lookup-insert ps.code_id p.code_id ps next.by_code,
          es.beq_iff ps.code_id p.code_id,
        );
      }

  pub drop_peer-IsSound :
      (c : Str) (p : Peer Str AddrPort Addr) (ix : PeerIndex Str AddrPort Addr)
      → IsSound ix
      → lookup c ix.by_code ≡ some p
      → IsSound (drop_peer c p ix)
  unfolding drop_peer
  drop_peer-IsSound c p ix v held = record {
    code_key =
        λ d q h. ground (arith, v.code_key d q, lookup-remove c d ix.by_code, es.beq_iff c d);
    distinct = remove-HasDistinctKeys c ix.by_code v.distinct;
    addr_live = λ a q h. ground (
      arith,
      forget-addr ix v c p held a q h,
      lookup-remove c q.code_id ix.by_code,
      es.beq_iff c q.code_id,
    );
    ip_live = λ i q h. ground (
      arith,
      forget-ip ix v c p held i q h,
      lookup-remove c q.code_id ix.by_code,
      es.beq_iff c q.code_id,
    );
  }

  pub evict-IsSound :
      (c : Str) (ix : PeerIndex Str AddrPort Addr) → IsSound ix → IsSound (evict c ix).0
  unfolding evict
  evict-IsSound c ix v = elim (Option-cases (lookup c ix.by_code)) [
    | inl e ↦ rw (e, evict) v
    | inr (p, e) ↦ rw (e, evict) (drop_peer-IsSound c p ix v e)
  ]
