-- ===== src/PeerTable.antt =====
-- internal/tunnelapp/registry.go: the table of the tunnel's live sessions, with its three indices.
-- A session object is a record with the number `ref` that stands for its address in memory, by
-- which the code compares pointers; its mutable field `lastSeen` is a function of `ref`. Strings,
-- netip.AddrPort and netip.Addr are comparable types. The lock makes each operation one step.
pub mod Sound
pub mod History
pub mod Complete
pub mod Counting
mod Examples
use go_port_forward.Base.{
  ℕ, zero, suc, ◌+◌, ◌*◌, Bool, true, false, List, [], ◌∷◌, Option, none, some, ltb, ◌==◌,
  if◌then◌else◌, length,
}
use go_port_forward.Base.Keys.{Eq, Map, lookup, insert, remove}

pub record Peer (Str AddrPort Addr : Type 0) : Type 0 where
  pub ref : ℕ
  pub code_id : Str
  pub user_id : Str
  pub tun_ip : Addr
  pub addr_port : AddrPort

pub record PeerIndex (Str AddrPort Addr : Type 0) : Type 0 where
  pub by_code : Map Str (Peer Str AddrPort Addr)
  pub by_addr : Map AddrPort (Peer Str AddrPort Addr)
  pub by_tun_ip : Map Addr (Peer Str AddrPort Addr)

-- peerIdleTimeout, in nanoseconds.
abbrev pub peer_idle_timeout : ℕ
peer_idle_timeout = 180 * 1000000000

-- What the tunnel does to the table.
pub data Op (Str AddrPort Addr : Type 0) : Type 0 where
  upserts : Peer Str AddrPort Addr → Op Str AddrPort Addr
  evicts : Str → Op Str AddrPort Addr
  reaps : (last_seen : ℕ → ℕ) → (now idle : ℕ) → Op Str AddrPort Addr

module _ {Str AddrPort Addr : Type 0} ⦃es : Eq Str⦄ ⦃ea : Eq AddrPort⦄ ⦃ei : Eq Addr⦄ where
  unfoldable pub new_registry : PeerIndex Str AddrPort Addr
  new_registry = record { by_code = []; by_addr = []; by_tun_ip = [] }

  -- `if cur, ok := m[p.tunIP]; ok && cur == p { delete(m, p.tunIP) }`
  unfoldable pub remove_own_ip :
      Peer Str AddrPort Addr → Map Addr (Peer Str AddrPort Addr) → Map Addr (Peer Str AddrPort Addr)
  remove_own_ip p m = elim (lookup p.tun_ip m) [
    | none ↦ m
    | some cur ↦ if cur.ref == p.ref then remove p.tun_ip m else m
  ]

  -- The addresses of the session that `upsert` replaces leave the indices.
  unfoldable pub forget_addresses :
      Option (Peer Str AddrPort Addr) → PeerIndex Str AddrPort Addr → PeerIndex Str AddrPort Addr
  forget_addresses none ix = ix
  forget_addresses (some prev) ix = record ix {
    by_addr = remove prev.addr_port ix.by_addr;
    by_tun_ip = remove_own_ip prev ix.by_tun_ip;
  }

  unfoldable pub upsert :
      Peer Str AddrPort Addr
      → PeerIndex Str AddrPort Addr
      → PeerIndex Str AddrPort Addr × Option (Peer Str AddrPort Addr)
  upsert ps ix =
      let prev = lookup ps.code_id ix.by_code in
      let next = forget_addresses prev ix in
      (
        record {
          by_code = insert ps.code_id ps next.by_code;
          by_addr = insert ps.addr_port ps next.by_addr;
          by_tun_ip = insert ps.tun_ip ps next.by_tun_ip;
        },
        prev,
      )

  -- `valid` is netip's `AddrPort.IsValid`.
  pub by_address :
      (AddrPort → Bool) → AddrPort → PeerIndex Str AddrPort Addr → Option (Peer Str AddrPort Addr)
  by_address valid ap ix = if valid ap then lookup ap ix.by_addr else none

  unfoldable pub by_tunnel_ip : Addr → PeerIndex Str AddrPort Addr → Option (Peer Str AddrPort Addr)
  by_tunnel_ip ip ix = lookup ip ix.by_tun_ip

  unfoldable pub online : Str → PeerIndex Str AddrPort Addr → Bool
  online code ix = elim (lookup code ix.by_code) [ none ↦ false | some p ↦ true ]

  unfoldable pub count_user : Str → Map Str (Peer Str AddrPort Addr) → ℕ
  count_user user [] = 0
  count_user user ((c, p) ∷ m) =
      let n = count_user user m in if es.beq p.user_id user then n + 1 else n

  unfoldable pub count_by_user : Str → PeerIndex Str AddrPort Addr → ℕ
  count_by_user user ix = count_user user ix.by_code

  pub count : PeerIndex Str AddrPort Addr → ℕ
  count ix = length ix.by_code

  -- One session leaves all three indices, under the code `code`.
  unfoldable pub drop_peer :
      Str → Peer Str AddrPort Addr → PeerIndex Str AddrPort Addr → PeerIndex Str AddrPort Addr
  drop_peer code p ix = record {
    by_code = remove code ix.by_code;
    by_addr = remove p.addr_port ix.by_addr;
    by_tun_ip = remove_own_ip p ix.by_tun_ip;
  }

  unfoldable pub evict :
      Str
      → PeerIndex Str AddrPort Addr
      → PeerIndex Str AddrPort Addr × Option (Peer Str AddrPort Addr)
  evict code ix = elim (lookup code ix.by_code) [
    | none ↦ (ix, none)
    | some p ↦ (drop_peer code p ix, some p)
  ]

  -- `ps.idleFor(now) > idle`, with `last_seen` in seconds and the others in nanoseconds.
  is_idle : (last_seen : ℕ → ℕ) → (now idle : ℕ) → Peer Str AddrPort Addr → Bool
  is_idle last_seen now idle p = ltb (last_seen p.ref * 1000000000 + idle) now

  pub find_dead :
      (last_seen : ℕ → ℕ)
      → (now idle : ℕ) → Map Str (Peer Str AddrPort Addr)
      → List (Peer Str AddrPort Addr)
  unfolding is_idle
  find_dead last_seen now idle [] = []
  find_dead last_seen now idle ((c, p) ∷ m) =
      let rest = find_dead last_seen now idle m in
      if is_idle last_seen now idle p then p ∷ rest else rest

  pub drop_dead :
      List (Peer Str AddrPort Addr) → PeerIndex Str AddrPort Addr → PeerIndex Str AddrPort Addr
  drop_dead [] ix = ix
  drop_dead (p ∷ ps) ix = drop_dead ps (drop_peer p.code_id p ix)

  pub reap :
      (last_seen : ℕ → ℕ)
      → (now idle : ℕ) → PeerIndex Str AddrPort Addr
      → PeerIndex Str AddrPort Addr × List (Peer Str AddrPort Addr)
  reap last_seen now idle ix =
      let dead = find_dead last_seen now idle ix.by_code in (drop_dead dead ix, dead)

  pub step : PeerIndex Str AddrPort Addr → Op Str AddrPort Addr → PeerIndex Str AddrPort Addr
  step ix (upserts p) = (upsert p ix).0
  step ix (evicts c) = (evict c ix).0
  step ix (reaps last_seen now idle) = (reap last_seen now idle ix).0

  pub run : PeerIndex Str AddrPort Addr → List (Op Str AddrPort Addr) → PeerIndex Str AddrPort Addr
  run ix [] = ix
  run ix (op ∷ ops) = run (step ix op) ops
