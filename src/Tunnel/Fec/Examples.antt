-- ===== src/Tunnel/Fec/Examples.antt =====
-- A group of three packets of which the second is lost.
use go_port_forward.Base.{ℕ, ◌≡◌, ◌++◌, refl, true, List, [], ◌∷◌, arith, replicate, none, some}
use go_port_forward.Base.Bytes.{put_be}
use go_port_forward.Tunnel.Stats.{new_stats}
use go_port_forward.Tunnel.Fec.{FecState, new_fec_state, empty_slot}
use go_port_forward.Tunnel.Fec.Send.{put_counters, take_group}
use go_port_forward.Tunnel.Fec.Receive.{lookup, add_group, pop_recovered, put_slot}
use go_port_forward.Tunnel.Fec.Group.{
  Member, AreMembers, add_members, counters_of, parity, IsEmptyGroup, new_fec_state-IsEmptyGroup,
  take_group-payload, take_group-IsEmptyGroup,
}
use go_port_forward.Tunnel.Fec.Arrival.{add_group-recovers}

abbrev box : ℕ → List ℕ
box b = b ∷ replicate 19 0

abbrev members : List Member
members = (1, box 11) ∷ (2, box 12) ∷ (3, box 13) ∷ []

members-AreMembers : AreMembers members
members-AreMembers = (
  omega arith,
  omega arith,
  omega arith,
  (omega arith, omega arith, omega arith, (omega arith, omega arith, omega arith, tt)),
)

-- The receiver that has the first and the third packet.
abbrev receiver : FecState
receiver = put_slot (put_slot new_fec_state 1 (box 11)) 3 (box 13)

take_group-payload_example :
    (take_group (add_members new_fec_state members)).1
    ≡ 3 ∷ (put_counters (counters_of members) ++ parity new_fec_state members)
take_group-payload_example =
    take_group-payload new_fec_state new_fec_state-IsEmptyGroup members members-AreMembers
      (omega arith) (omega arith)

take_group-IsEmptyGroup_example : IsEmptyGroup (take_group (add_members new_fec_state members)).0
take_group-IsEmptyGroup_example =
    take_group-IsEmptyGroup new_fec_state new_fec_state-IsEmptyGroup members members-AreMembers
      (omega arith)

lookup_first : lookup receiver 1 ≡ some (box 11)
unfolding lookup put_slot new_fec_state empty_slot
lookup_first = refl

lookup_second : lookup receiver 2 ≡ none
unfolding lookup put_slot new_fec_state empty_slot
lookup_second = refl

lookup_third : lookup receiver 3 ≡ some (box 13)
unfolding lookup put_slot new_fec_state empty_slot
lookup_third = refl

add_group-recovers_example :
    ((add_group (take_group (add_members new_fec_state members)).1 receiver new_stats).1 ≡ true)
    × ((pop_recovered
          (add_group (take_group (add_members new_fec_state members)).1 receiver new_stats).0.0).1
        ≡ some (3 ∷ (put_be 8 2 ++ box 12)))
unfolding put_slot new_fec_state
add_group-recovers_example =
    add_group-recovers new_fec_state new_fec_state-IsEmptyGroup ((1, box 11) ∷ [])
      ((3, box 13) ∷ []) 2 (box 12) members-AreMembers (omega arith) (omega arith) receiver
      new_stats (lookup_first, tt) lookup_second (lookup_third, tt) refl (omega arith) refl
