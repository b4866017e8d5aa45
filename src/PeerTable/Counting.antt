-- ===== src/PeerTable/Counting.antt =====
-- internal/tunnelapp/registry.go: the sessions of a user after a handshake.
use go_port_forward.Base.{
  ◌+◌, ◌≡◌, ◌≤◌, [], ◌∷◌, some, true, arith, Option-cases, inl, inr, subst, sym,
}
use go_port_forward.Base.Keys.{Eq, Map, lookup, insert, remove}
use go_port_forward.PeerTable.{
  Peer, PeerIndex, upsert, forget_addresses, online, count_user, count_by_user,
}

module _ {Str AddrPort Addr : Type 0} ⦃es : Eq Str⦄ ⦃ea : Eq AddrPort⦄ ⦃ei : Eq Addr⦄ where
  count_user-remove :
      (u c : Str) (m : Map Str (Peer Str AddrPort Addr))
      → count_user u (remove c m) ≤ count_user u m
  unfolding count_user remove
  count_user-remove u c [] = ground arith
  count_user-remove u c ((d, p) ∷ m) = ground (arith, count_user-remove u c m)

  count_user-remove_own :
      (u c : Str) (p : Peer Str AddrPort Addr) (m : Map Str (Peer Str AddrPort Addr))
      → lookup c m ≡ some p
      → p.user_id ≡ u
      → count_user u (remove c m) + 1 ≤ count_user u m
  unfolding count_user remove lookup
  count_user-remove_own u c p [] h e = absurd (cc h)
  count_user-remove_own u c p ((d, q) ∷ m) h e =
      ground (arith, count_user-remove u c m, count_user-remove_own u c p m, es.beq_iff p.user_id u)

  by_code-upsert :
      (p : Peer Str AddrPort Addr) (ix : PeerIndex Str AddrPort Addr)
      → (upsert p ix).0.by_code ≡ insert p.code_id p ix.by_code
  unfolding upsert forget_addresses
  by_code-upsert p ix = ground (arith, Option-cases (lookup p.code_id ix.by_code))

  count_user-insert :
      (u c : Str) (p : Peer Str AddrPort Addr) (m : Map Str (Peer Str AddrPort Addr))
      → count_user u (insert c p m) ≤ count_user u m + 1
  unfolding count_user insert
  count_user-insert u c p m = ground (arith, count_user-remove u c m)

  count_user-insert_same :
      (u c : Str) (p q : Peer Str AddrPort Addr) (m : Map Str (Peer Str AddrPort Addr))
      → lookup c m ≡ some q
      → q.user_id ≡ p.user_id
      → count_user u (insert c p m) ≤ count_user u m
  unfolding count_user insert
  count_user-insert_same u c p q m h e =
      ground
        (arith, count_user-remove u c m, count_user-remove_own u c q m h, e, es.beq_iff p.user_id u)

  -- One handshake adds at most one session of a user.
  pub count_by_user-upsert :
      (p : Peer Str AddrPort Addr) (u : Str) (ix : PeerIndex Str AddrPort Addr)
      → count_by_user u (upsert p ix).0 ≤ count_by_user u ix + 1
  unfolding count_by_user
  count_by_user-upsert p u ix =
      subst (λ m. count_user u m ≤ count_user u ix.by_code + 1) (sym (by_code-upsert p ix))
        (count_user-insert u p.code_id p ix.by_code)

  -- A session that takes the place of one of the same user does not count.
  pub count_by_user-upsert_same :
      (p q : Peer Str AddrPort Addr) (u : Str) (ix : PeerIndex Str AddrPort Addr)
      → lookup p.code_id ix.by_code ≡ some q
      → q.user_id ≡ p.user_id
      → count_by_user u (upsert p ix).0 ≤ count_by_user u ix
  unfolding count_by_user
  count_by_user-upsert_same p q u ix h e =
      subst (λ m. count_user u m ≤ count_user u ix.by_code) (sym (by_code-upsert p ix))
        (count_user-insert_same u p.code_id p q ix.by_code h e)

  pub online-lookup :
      (c : Str) (ix : PeerIndex Str AddrPort Addr)
      → online c ix ≡ true
      → (q : Peer Str AddrPort Addr) × (lookup c ix.by_code ≡ some q)
  unfolding online
  online-lookup c ix h = elim (Option-cases (lookup c ix.by_code)) [
    | inl n ↦ absurd (ground (arith, h, n))
    | inr (q, f) ↦ (q, f)
  ]
