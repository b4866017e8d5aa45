-- ===== src/Tunnel/Fec/Arrival.antt =====
-- pkg/tunnel/fec.go: a parity payload arrives at a receiver that lacks one member of its group.
use mathlib.Core.List.{map-append}
use go_port_forward.Base.{
  ℕ, suc, ◌+◌, ◌*◌, ◌%◌, ◌≡◌, ◌≤◌, ◌<◌, refl, sym, ap, ◌∙◌, Bool, true, false, List, [], ◌∷◌, ◌++◌,
  none, some, map, length, arith, length-append, get_or, set, get_or-set, take, drop, take-append,
}
use go_port_forward.Base.Bytes.{put_be}
use go_port_forward.Tunnel.Stats.{Stats}
use go_port_forward.Tunnel.Fec.{FecState, Pending, empty_pending}
use go_port_forward.Tunnel.Fec.Send.{put_counters, take_group}
use go_port_forward.Tunnel.Fec.Receive.{
  lookup, push_recovered, pop_recovered, add_group, unused, get_counters, bad_group, register,
  padded, place_group, free_pending,
}
use go_port_forward.Tunnel.Fec.Group.{
  Member, AreMembers, counters_of, longest, parity, IsEmptyGroup, add_members, take_group-payload,
  get_counters-put_counters, drop-put_counters, length-put_counters,
}
use go_port_forward.Tunnel.Fec.Gap.{AreCached}
use go_port_forward.Tunnel.Fec.Recovery.{try_recover-gap, parity-length, longest-max}

length-map {ℓ κ} :
    {A : Type ℓ} {B : Type κ} (f : A → B) (xs : List A) → length (map f xs) ≡ length xs
length-map f [] = refl
length-map f (x ∷ xs) = ap suc (length-map f xs)

get_or-middle :
    (pre : List ℕ) (c : ℕ) (post rest : List ℕ)
    → get_or ((pre ++ c ∷ post) ++ rest) (length pre) 0 ≡ c
get_or-middle [] c post rest = refl
get_or-middle (x ∷ pre) c post rest = get_or-middle pre c post rest

module _ (f : FecState) (v : IsEmptyGroup f) (pre post : List Member) (c : ℕ) (box : List ℕ)
    (h : AreMembers (pre ++ (c, box) ∷ post)) (two : 2 ≤ length (pre ++ (c, box) ∷ post))
    (eight : length (pre ++ (c, box) ∷ post) ≤ 8) where
  abbrev group : List Member
  group = pre ++ (c, box) ∷ post

  abbrev k : ℕ
  k = length group

  abbrev payload : List ℕ
  payload = k ∷ (put_counters (counters_of group) ++ parity f group)

  payload-frame : drop (1 + k * 8) payload ≡ parity f group
  payload-frame =
      ap (λ (n : ℕ). drop n payload)
        (let e : 1 + k * 8 ≡ suc (length (counters_of group) * 8) =
            omega (arith, length-map (λ (m : Member). m.0) group) in
          e)
      ∙ drop-put_counters (counters_of group) (parity f group)

  length-payload : length payload ≡ 1 + k * 8 + 2 + longest 0 group
  length-payload = omega (
    arith,
    length-append (put_counters (counters_of group)) (parity f group),
    length-put_counters (counters_of group),
    length-map (λ (m : Member). m.0) group,
    parity-length f v pre post c box h,
  )

  payload-good : bad_group payload ≡ false
  unfolding bad_group
  payload-good = ground (arith, length-payload, longest-max 0 group h (omega arith))

  payload-counters : get_counters k (drop 1 payload) ≡ counters_of group
  payload-counters = get_counters-put_counters group (parity f group) h

  registered : Pending → Pending
  registered old = register k payload (parity f group) old

  registered-IsGroup :
      (old : Pending)
      → let p = registered old in
        (take p.count p.counters ≡ counters_of group)
        × (take p.frame_len p.xor_frame ≡ parity f group)
        × (get_or p.counters (length pre) 0 ≡ c)
  unfolding registered register padded
  registered-IsGroup old =
      let split = map-append (λ (m : Member). m.0) pre ((c, box) ∷ post) in
      let n = length-map (λ (m : Member). m.0) in
      rw payload-counters (
        take-append k (counters_of group) _ (n group),
        take-append (length (parity f group)) (parity f group) _ refl,
        ap (λ (l : List ℕ). get_or (l ++ drop k old.counters) (length pre) 0) split
            ∙ ap
                (λ (i : ℕ).
                  get_or ((counters_of pre ++ c ∷ counters_of post) ++ drop k old.counters) i 0)
                (sym (n pre))
            ∙ get_or-middle (counters_of pre) c (counters_of post) (drop k old.counters),
      )

  -- What the receiver makes of the payload.
  module _ (g : FecState) (s : Stats) (hpre : AreCached g pre) (gone : lookup g c ≡ none)
      (hpost : AreCached g post) (room : g.rec_count < 2) where
    abbrev place : ℕ
    place = (free_pending g.pending s).0

    abbrev arrived : Pending
    arrived = registered (get_or g.pending place empty_pending)

    abbrev after : (FecState × Stats) × Bool
    after = (
      (
        record (push_recovered g (3 ∷ (put_be 8 c ++ box))) {
          pending = set g.pending place (unused arrived);
        },
        (free_pending g.pending s).1,
      ),
      true,
    )

    add_group-payload : add_group payload g s ≡ after
    unfolding add_group place_group registered
    add_group-payload =
        let old = get_or g.pending place empty_pending in
        let s' = (free_pending g.pending s).1 in
        rw payload-good (
          ap
            (λ (l : List ℕ).
              let q : (FecState × Stats) × Bool =
                (place_group g s' (register k payload l old) place, true) in
              q)
            payload-frame
          ∙ ap
              (λ (t : FecState × Pending).
                let q : (FecState × Stats) × Bool =
                  ((record (t.0) { pending = set g.pending place t.1 }, s'), true) in
                q)
              (try_recover-gap f v pre post c box h g arrived hpre gone hpost room
                (registered-IsGroup old)))

-- The packet that was put back is the next one out of an empty queue.
pop-push_recovered :
    (g : FecState) (ps : List Pending) (wire : List ℕ)
    → g.rec_count ≡ 0
    → g.rec_head < 2
    → length g.recovered ≡ 2
    → (pop_recovered (record (push_recovered g wire) { pending = ps })).1 ≡ some wire
unfolding pop_recovered push_recovered
pop-push_recovered g ps wire none_yet head size = ground (
  arith,
  get_or-set g.recovered ((g.rec_head + g.rec_count) % 2) g.rec_head wire [] (omega arith),
)

-- FEC works: two to eight packets, with boxes of 16 to 1416 bytes and counters of eight bytes, are
-- sent from an empty group. A receiver that has all of their boxes but one in its cache, and a
-- queue of two recovered packets that is empty, accepts the parity payload of the sender and hands
-- out exactly the missing packet, in its form on the wire, whatever other groups it waits for.
pub add_group-recovers :
    (f : FecState) (v : IsEmptyGroup f) (pre post : List Member) (c : ℕ) (box : List ℕ)
    (h : AreMembers (pre ++ (c, box) ∷ post))
    → 2 ≤ length (pre ++ (c, box) ∷ post)
    → length (pre ++ (c, box) ∷ post) ≤ 8
    → (g : FecState) (s : Stats) → AreCached g pre
    → lookup g c ≡ none
    → AreCached g post
    → g.rec_count ≡ 0
    → g.rec_head < 2
    → length g.recovered ≡ 2
    → let sent = (take_group (add_members f (pre ++ (c, box) ∷ post))).1 in
      let r = add_group sent g s in
      (r.1 ≡ true) × ((pop_recovered r.0.0).1 ≡ some (3 ∷ (put_be 8 c ++ box)))
add_group-recovers f v pre post c box h two eight g s hpre gone hpost none_yet head size =
    let sent = take_group-payload f v (pre ++ (c, box) ∷ post) h (omega arith) eight in
    let got = add_group-payload f v pre post c box h two eight g s hpre gone hpost (omega arith) in
    rw (sent, got) (refl, pop-push_recovered g _ (3 ∷ (put_be 8 c ++ box)) none_yet head size)
