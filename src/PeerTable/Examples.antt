-- ===== src/PeerTable/Examples.antt =====
-- A relay with three clients: runs of the table of sessions, and the theorems at them.
use go_port_forward.Base.{ℕ, ◌≡◌, refl, true, List, [], ◌∷◌, none, some, arith}
use go_port_forward.Base.Keys.{nat_eq, lookup, insert, remove}
use go_port_forward.PeerTable.{
  Peer, PeerIndex, Op, upserts, reaps, new_registry, remove_own_ip, forget_addresses, upsert, evict,
  drop_peer, drop_dead, find_dead, is_idle, reap, step, run, by_address, by_tunnel_ip, count_user,
  count_by_user, count,
}
use go_port_forward.PeerTable.Sound.{IsSound, upsert-IsSound, new_registry-IsSound}
use go_port_forward.PeerTable.History.{run-IsSound, run-lookup_live}
use go_port_forward.PeerTable.Complete.{
  IsComplete, IsFresh, evict-IsComplete, upsert-IsComplete, upsert_forgets_other,
}

-- Two sessions of code 7, the second after a roam; a session of code 8; and one of code 9, at the
-- address that code 7 had first.
abbrev first : Peer ℕ ℕ ℕ
first = record { ref = 1; code_id = 7; user_id = 1; tun_ip = 20; addr_port = 100 }

abbrev roamed : Peer ℕ ℕ ℕ
roamed = record { ref = 2; code_id = 7; user_id = 1; tun_ip = 20; addr_port = 101 }

abbrev other : Peer ℕ ℕ ℕ
other = record { ref = 3; code_id = 8; user_id = 1; tun_ip = 21; addr_port = 102 }

abbrev taker : Peer ℕ ℕ ℕ
taker = record { ref = 4; code_id = 9; user_id = 2; tun_ip = 22; addr_port = 100 }

abbrev history : List (Op ℕ ℕ ℕ)
history =
    upserts first ∷ upserts other ∷ upserts roamed ∷ reaps (λ r. r) 190000000003 180000000000 ∷ []

roamed_found :
    by_address
      (λ a. true)
      101
      (run new_registry (upserts first ∷ upserts other ∷ upserts roamed ∷ []))
    ≡ some roamed
unfolding by_address run step upsert forget_addresses remove_own_ip new_registry lookup insert
    remove
roamed_found = refl

old_address_gone :
    by_address
      (λ a. true)
      100
      (run new_registry (upserts first ∷ upserts other ∷ upserts roamed ∷ []))
    ≡ none
unfolding by_address run step upsert forget_addresses remove_own_ip new_registry lookup insert
    remove
old_address_gone = refl

user_counted :
    count_by_user 1
      (run new_registry (upserts first ∷ upserts other ∷ upserts roamed ∷ upserts taker ∷ []))
    ≡ 2
unfolding count_by_user count_user run step upsert forget_addresses remove_own_ip new_registry
    lookup insert remove
user_counted = refl

all_reaped : count (run new_registry history) ≡ 0
unfolding count run step reap drop_dead find_dead is_idle drop_peer upsert forget_addresses
    remove_own_ip new_registry lookup insert remove
all_reaped = refl

run-IsSound_example : IsSound (run new_registry history)
run-IsSound_example = run-IsSound new_registry history new_registry-IsSound

run-lookup_live_example :
    (by_address (λ a. true) 101 (run new_registry history) ≡ some roamed
      → (roamed.addr_port ≡ 101) × (lookup 7 (run new_registry history).by_code ≡ some roamed))
    × (by_tunnel_ip 21 (run new_registry history) ≡ some other
        → (other.tun_ip ≡ 21) × (lookup 8 (run new_registry history).by_code ≡ some other))
run-lookup_live_example = run-lookup_live history (λ a. true) 101 21 roamed other

new_registry-IsComplete : IsComplete {Str = ℕ} {AddrPort = ℕ} {Addr = ℕ} new_registry
unfolding new_registry lookup
new_registry-IsComplete = record { addr = λ c p h. cc; ip = λ c p h. cc }

first-IsFresh : IsFresh first new_registry
unfolding new_registry lookup
first-IsFresh = record { addr = λ c p h. cc; ip = λ c p h. cc }

with_first-IsSound : IsSound (upsert first new_registry).0
with_first-IsSound = upsert-IsSound first new_registry new_registry-IsSound

other-IsFresh : IsFresh other (upsert first new_registry).0
unfolding new_registry lookup upsert forget_addresses insert remove
other-IsFresh = record { addr = λ c p h ne. ground arith; ip = λ c p h ne. ground arith }

with_first-IsComplete : IsComplete (upsert first new_registry).0
with_first-IsComplete =
    upsert-IsComplete first new_registry new_registry-IsSound new_registry-IsComplete first-IsFresh

upsert-IsComplete_example : IsComplete (upsert other (upsert first new_registry).0).0
upsert-IsComplete_example =
    upsert-IsComplete other (upsert first new_registry).0 with_first-IsSound with_first-IsComplete
      other-IsFresh

evict-IsComplete_example : IsComplete (evict 7 (upsert first new_registry).0).0
evict-IsComplete_example =
    evict-IsComplete 7 (upsert first new_registry).0 with_first-IsSound with_first-IsComplete

abbrev taken_over : PeerIndex ℕ ℕ ℕ
taken_over = run new_registry (upserts first ∷ upserts taker ∷ [])

upsert_forgets_other_example :
    (lookup 9 (upsert roamed taken_over).0.by_code ≡ some taker)
    × (lookup 100 (upsert roamed taken_over).0.by_addr ≡ none)
unfolding run step upsert forget_addresses remove_own_ip new_registry lookup insert remove
upsert_forgets_other_example =
    upsert_forgets_other taken_over first roamed taker refl refl (omega arith) refl refl
      (omega arith)
