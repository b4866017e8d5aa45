-- ===== src/Forward/Tuples/Examples.antt =====
-- A player whose socket dies under a session that lives on, while the next session binds anew.
use go_port_forward.Base.{ℕ, ◌≡◌, refl, [], none, some, true, false, arith}
use go_port_forward.Base.Integers.{pos}
use go_port_forward.Base.Keys.{nat_eq, lookup, insert, remove}
use go_port_forward.Forward.Tuples.{
  TupleEntry, TupleRegistry, new_tuple_registry, new_handle, update, place_holder, begin_acquire,
  holds, finish_acquire, release, drop_dead_entry, close_registry, Reaches, starts, then_step,
  begins, finishes, drops, refuses,
}
use go_port_forward.Forward.Tuples.Open.{HasSocket}
use go_port_forward.Forward.Tuples.Closing.{
  Reaches-HasSocket, begin_acquire-close_registry, release_removes_other,
}

abbrev bound_once : TupleRegistry ℕ
bound_once = (finish_acquire 7 0 true (begin_acquire 7 new_tuple_registry).0).0

abbrev bound_twice : TupleRegistry ℕ
bound_twice = (finish_acquire 7 1 true (begin_acquire 7 (drop_dead_entry 0 bound_once)).0).0

abbrev dead : TupleEntry ℕ
dead = record { key = 7; open_socket = false; refs = pos 1; subs = []; creating = false }

abbrev alive : TupleEntry ℕ
alive = record { key = 7; open_socket = true; refs = pos 1; subs = []; creating = false }

bound_twice-Reaches : Reaches bound_twice
bound_twice-Reaches =
    let r0 : TupleRegistry ℕ = new_tuple_registry in
    let r1 = (begin_acquire 7 r0).0 in
    let r2 = (finish_acquire 7 0 true r1).0 in
    let r3 = drop_dead_entry 0 r2 in
    let r4 = (begin_acquire 7 r3).0 in
    let s1 = then_step r0 r1 starts (begins 7 r0) in
    let s2 = then_step r1 r2 s1 (finishes 7 0 true r1) in
    let s3 = then_step r2 r3 s2 (drops 0 r2) in
    let s4 = then_step r3 r4 s3 (begins 7 r3) in then_step r4 bound_twice s4 (finishes 7 1 true r4)

second_mapped : lookup 7 bound_twice.entries ≡ some 1
unfolding finish_acquire begin_acquire drop_dead_entry holds update new_handle place_holder
    new_tuple_registry lookup insert remove
second_mapped = refl

Reaches-HasSocket_example :
    (t : TupleEntry ℕ) × (lookup 1 bound_twice.store ≡ some t) × HasSocket 7 t
Reaches-HasSocket_example = Reaches-HasSocket bound_twice bound_twice-Reaches 7 1 second_mapped

once_open : bound_once.closed ≡ false
unfolding finish_acquire begin_acquire holds update new_handle place_holder new_tuple_registry
    lookup insert remove
once_open = refl

begin_acquire-close_registry_example :
    begin_acquire 7 (close_registry bound_once) ≡ (close_registry bound_once, refuses)
begin_acquire-close_registry_example = begin_acquire-close_registry bound_once 7 once_open

release_removes_other_example :
    (lookup 7 (release (new_handle 0) bound_twice).0.entries ≡ none)
    × (lookup 1 (release (new_handle 0) bound_twice).0.store ≡ some alive)
unfolding finish_acquire begin_acquire drop_dead_entry holds update new_handle place_holder
    new_tuple_registry lookup insert remove
release_removes_other_example =
    release_removes_other (new_handle 0) bound_twice dead alive 1 refl refl refl refl (omega arith)
      refl
