-- ===== src/PeerTable/History.antt =====
-- The table after a history of handshakes, evictions and idle sweeps.
use go_port_forward.Base.{
  ℕ, ◌≡◌, Bool, List, [], ◌∷◌, Option, none, some, if◌then◌else◌, arith, inl, inr, Bool-cases,
}
use go_port_forward.Base.Keys.{Eq, Map, lookup, lookup-remove, beq_refl, HasDistinctKeys}
use go_port_forward.PeerTable.{
  Peer, PeerIndex, new_registry, drop_peer, drop_dead, find_dead, is_idle, reap, Op, upserts,
  evicts, reaps, step, run, by_address, by_tunnel_ip,
}
use go_port_forward.PeerTable.Sound.{
  IsSound, new_registry-IsSound, upsert-IsSound, evict-IsSound, drop_peer-IsSound,
}

module _ {Str AddrPort Addr : Type 0} ⦃es : Eq Str⦄ ⦃ea : Eq AddrPort⦄ ⦃ei : Eq Addr⦄ where
  -- These sessions are live, each under its own code.
  abbrev Live : List (Peer Str AddrPort Addr) → (Str → Option (Peer Str AddrPort Addr)) → Type 0
  Live [] f = Unit {0}
  Live (p ∷ ps) f = (f p.code_id ≡ some p) × Live ps (λ c. if es.beq p.code_id c then none else f c)

  Live-mono :
      (ps : List (Peer Str AddrPort Addr)) (f g : Str → Option (Peer Str AddrPort Addr))
      → ((c : Str) (q : Peer Str AddrPort Addr) → f c ≡ some q → g c ≡ some q)
      → Live ps f
      → Live ps g
  Live-mono [] f g le h = tt
  Live-mono (p ∷ ps) f g le h = (
    le p.code_id p h.0,
    Live-mono ps (λ c. if es.beq p.code_id c then none else f c)
        (λ c. if es.beq p.code_id c then none else g c) (λ c q e. ground (arith, le c q)) h.1,
  )

  find_dead-Live :
      (last_seen : ℕ → ℕ) (now idle : ℕ) (m : Map Str (Peer Str AddrPort Addr))
      → HasDistinctKeys m
      → ((c : Str) (p : Peer Str AddrPort Addr) → lookup c m ≡ some p → p.code_id ≡ c)
      → Live (find_dead last_seen now idle m) (λ c. lookup c m)
  unfolding find_dead lookup
  find_dead-Live last_seen now idle [] d key = tt
  find_dead-Live last_seen now idle ((c, p) ∷ m) d key =
      let rest =
        find_dead-Live last_seen now idle m d.1
          (λ a q e. key a q (ground (arith, es.beq_iff c a))) in
      let own = key c p (ground (arith, beq_refl es c)) in
      elim (Bool-cases (is_idle last_seen now idle p)) [
        | inl e ↦ rw e (
          ground (arith, own, es.beq_iff c p.code_id),
          Live-mono (find_dead last_seen now idle m) (λ a. lookup a m) _
              (λ a q h. ground (arith, own, d.0, es.beq_iff c a, es.beq_iff p.code_id a)) rest,
        )
        | inr e ↦ rw e (
            Live-mono (find_dead last_seen now idle m) (λ a. lookup a m) _
              (λ a q h. ground (arith, d.0, es.beq_iff c a)) rest)
      ]

  drop_dead-IsSound :
      (ps : List (Peer Str AddrPort Addr)) (ix : PeerIndex Str AddrPort Addr)
      → IsSound ix
      → Live ps (λ c. lookup c ix.by_code)
      → IsSound (drop_dead ps ix)
  unfolding drop_dead
  drop_dead-IsSound [] ix v h = v
  drop_dead-IsSound (p ∷ ps) ix v h =
      drop_dead-IsSound ps (drop_peer p.code_id p ix) (drop_peer-IsSound p.code_id p ix v h.0) (
        Live-mono ps (λ c. if es.beq p.code_id c then none else lookup c ix.by_code)
          (λ c. lookup c (drop_peer p.code_id p ix).by_code)
          (λ c q e. unfold drop_peer in ground (arith, lookup-remove p.code_id c ix.by_code)) h.1)

  step-IsSound :
      (ix : PeerIndex Str AddrPort Addr) (op : Op Str AddrPort Addr)
      → IsSound ix
      → IsSound (step ix op)
  unfolding step reap
  step-IsSound ix (upserts p) v = upsert-IsSound p ix v
  step-IsSound ix (evicts c) v = evict-IsSound c ix v
  step-IsSound ix (reaps last_seen now idle) v =
      drop_dead-IsSound (find_dead last_seen now idle ix.by_code) ix v
        (find_dead-Live last_seen now idle ix.by_code v.distinct v.code_key)

  -- Handshakes, evictions and idle sweeps in any order keep a sound table sound: every entry of an
  -- index is a live session, under its own key.
  pub run-IsSound :
      (ix : PeerIndex Str AddrPort Addr) (ops : List (Op Str AddrPort Addr))
      → IsSound ix
      → IsSound (run ix ops)
  unfolding run
  run-IsSound ix [] v = v
  run-IsSound ix (op ∷ ops) v = run-IsSound (step ix op) ops (step-IsSound ix op v)

  -- After any history of handshakes, evictions and idle sweeps from a new table, the session that
  -- a source address or a tunnel address leads to has that address, and is the live session of its
  -- code.
  pub run-lookup_live :
      (ops : List (Op Str AddrPort Addr)) (valid : AddrPort → Bool) (a : AddrPort) (i : Addr)
      (p q : Peer Str AddrPort Addr)
      → let ix = run new_registry ops in
        (by_address valid a ix ≡ some p
          → (p.addr_port ≡ a) × (lookup p.code_id ix.by_code ≡ some p))
        × (by_tunnel_ip i ix ≡ some q → (q.tun_ip ≡ i) × (lookup q.code_id ix.by_code ≡ some q))
  unfolding by_address by_tunnel_ip
  run-lookup_live ops valid a i p q =
      let v = run-IsSound new_registry ops new_registry-IsSound in
      (λ h. v.addr_live a p (ground arith), λ h. v.ip_live i q h)
