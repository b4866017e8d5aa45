-- ===== src/Tunnel/Fec/Group.antt =====
-- What the sender puts into a parity payload.
use go_port_forward.Base.{
  ℕ, suc, ◌+◌, ◌*◌, ◌^◌, ◌≡◌, ◌≤◌, ◌<◌, refl, sym, ap, ap₂, ◌∙◌, false, List, [], ◌∷◌, ◌++◌, map,
  length, get_or, set, drop, take, arith, max, ◌==◌, length-append, length-set, take-set,
  take-append, drop-append, append_assoc, append-nil,
}
use go_port_forward.Base.Bytes.{put_be, get_be, length-put_be, get_be-put_be}
use go_port_forward.Base.Xor.{xor_into}
use go_port_forward.Tunnel.Fec.{
  FecState, frame_of, new_fec_state, length-zero_frame, get_or-zero_frame,
}
use go_port_forward.Tunnel.Fec.Send.{add_member, take_group, put_counters}
use go_port_forward.Tunnel.Fec.Receive.{get_counters}
use go_port_forward.Tunnel.Fec.Xors.{xor_all}

abbrev pub Member : Type 0
Member = ℕ × List ℕ

abbrev pub counters_of : List Member → List ℕ
counters_of = map (λ m. m.0)

abbrev pub frames_of : List Member → List (List ℕ)
frames_of = map (λ m. frame_of m.1)

-- The members of a group, added one after the other.
unfoldable pub add_members : FecState → List Member → FecState
add_members f [] = f
add_members f (m ∷ ms) = add_members (add_member f m.0 m.1).0 ms

-- Boxes have a tag and fit the largest packet; counters have eight bytes.
abbrev pub AreMembers : List Member → Type 0
AreMembers [] = Unit {0}
AreMembers (m ∷ ms) = (16 ≤ length m.1) × (length m.1 ≤ 1416) × (m.0 < 2 ^ 64) × AreMembers ms

unfoldable pub longest : ℕ → List Member → ℕ
longest n [] = n
longest n (m ∷ ms) = longest (max n (length m.1)) ms

-- Adding a box that is not too long.
add_member-fits :
    (f : FecState) (c : ℕ) (b : List ℕ)
    → length b ≤ 1416
    → let g = (add_member f c b).0 in
      (g.acc ≡ xor_into f.acc (frame_of b))
      × (g.n ≡ f.n + 1)
      × (g.max_box ≡ max f.max_box (length b))
      × (g.counters ≡ set f.counters f.n c)
unfolding add_member
add_member-fits f c b h = ground arith

add_members-acc :
    (f : FecState) (ms : List Member)
    → AreMembers ms
    → (add_members f ms).acc ≡ xor_all f.acc (frames_of ms)
unfolding add_members xor_all
add_members-acc f [] h = refl
add_members-acc f (m ∷ ms) h =
    add_members-acc (add_member f m.0 m.1).0 ms h.3
    ∙ ap (λ (a : List ℕ). xor_all a (frames_of ms)) (add_member-fits f m.0 m.1 h.1).0

add_members-n :
    (f : FecState) (ms : List Member) → AreMembers ms → (add_members f ms).n ≡ f.n + length ms
unfolding add_members
add_members-n f [] h = omega arith
add_members-n f (m ∷ ms) h =
    omega (arith, add_members-n (add_member f m.0 m.1).0 ms h.3, add_member-fits f m.0 m.1 h.1)

add_members-max_box :
    (f : FecState) (ms : List Member)
    → AreMembers ms
    → (add_members f ms).max_box ≡ longest f.max_box ms
unfolding add_members longest
add_members-max_box f [] h = refl
add_members-max_box f (m ∷ ms) h =
    add_members-max_box (add_member f m.0 m.1).0 ms h.3
    ∙ ap (λ (n : ℕ). longest n ms) (add_member-fits f m.0 m.1 h.1).2

add_members-counters :
    (f : FecState) (ms : List Member)
    → AreMembers ms
    → f.n + length ms ≤ length f.counters
    → take (f.n + length ms) (add_members f ms).counters ≡ take f.n f.counters ++ counters_of ms
unfolding add_members
add_members-counters f [] h fits =
    ap (λ (n : ℕ). take n f.counters) (let e : f.n + 0 ≡ f.n = omega arith in e)
    ∙ sym (append-nil _)
add_members-counters f (m ∷ ms) h fits =
    let g = (add_member f m.0 m.1).0 in
    let e = add_member-fits f m.0 m.1 h.1 in
    let n : f.n + suc (length ms) ≡ g.n + length ms = omega (arith, e.1) in
    let room : g.n + length ms ≤ length g.counters =
      omega (arith, e.1, ap (length {A = ℕ}) e.3, length-set f.counters f.n m.0) in
    ap (λ (k : ℕ). take k (add_members g ms).counters) n
    ∙ add_members-counters g ms h.3 room
    ∙ ap (λ (l : List ℕ). l ++ counters_of ms)
        (ap₂ (λ (k : ℕ) (l : List ℕ). take k l) (let q : g.n ≡ suc f.n = omega (arith, e.1) in q)
            e.3
          ∙ take-set f.n f.counters m.0 (omega arith))
    ∙ append_assoc (take f.n f.counters) (m.0 ∷ []) (counters_of ms)

length-counters :
    (f : FecState) (ms : List Member)
    → AreMembers ms
    → length (add_members f ms).counters ≡ length f.counters
unfolding add_members
length-counters f [] h = refl
length-counters f (m ∷ ms) h =
    length-counters (add_member f m.0 m.1).0 ms h.3
    ∙ ap (length {A = ℕ}) (add_member-fits f m.0 m.1 h.1).3
    ∙ length-set f.counters f.n m.0

-- Between two groups nothing is gathered.
pub record IsEmptyGroup (f : FecState) : Type 0 where
  pub no_member : f.n ≡ 0
  pub no_box : f.max_box ≡ 0
  pub room : length f.counters ≡ 8
  pub size : length f.acc ≡ 1418
  pub zeros : (i : ℕ) → get_or f.acc i 0 ≡ 0

pub new_fec_state-IsEmptyGroup : IsEmptyGroup new_fec_state
unfolding new_fec_state
new_fec_state-IsEmptyGroup = record {
  no_member = refl;
  no_box = refl;
  room = refl;
  size = length-zero_frame;
  zeros = get_or-zero_frame;
}

-- The parity frame of a group.
unfoldable pub parity : FecState → List Member → List ℕ
parity f ms = take (2 + longest 0 ms) (xor_all f.acc (frames_of ms))

module _ (f : FecState) (v : IsEmptyGroup f) (ms : List Member) (h : AreMembers ms) where
  abbrev gathered : FecState
  gathered = add_members f ms

  gathered-n : gathered.n ≡ length ms
  gathered-n = omega (arith, add_members-n f ms h, v.no_member)

  gathered-counters : length ms ≤ 8 → take gathered.n gathered.counters ≡ counters_of ms
  gathered-counters fits =
      ap (λ (k : ℕ). take k gathered.counters)
        (let q : gathered.n ≡ f.n + length ms = omega (arith, add_members-n f ms h) in q)
      ∙ add_members-counters f ms h (omega (arith, v.no_member, v.room))
      ∙ ap (λ (k : ℕ). take k f.counters ++ counters_of ms) v.no_member

  gathered-parity : take (2 + gathered.max_box) gathered.acc ≡ parity f ms
  unfolding parity
  gathered-parity =
      ap₂ (λ (k : ℕ) (a : List ℕ). take (2 + k) a)
        (add_members-max_box f ms h ∙ ap (λ (n : ℕ). longest n ms) v.no_box)
        (add_members-acc f ms h)

  -- One to eight packets, with boxes of 16 to 1416 bytes, added to an empty group make a payload
  -- of their number, their counters in order and their parity frame.
  pub take_group-payload :
      0 < length ms
      → length ms ≤ 8
      → (take_group gathered).1 ≡ length ms ∷ (put_counters (counters_of ms) ++ parity f ms)
  unfolding take_group
  take_group-payload some_member fits =
      let busy : (gathered.n == 0) ≡ false = ground (arith, gathered-n) in
      rw (busy, gathered-counters fits, gathered-parity, gathered-n)

  -- Taking the group, after one packet or more with boxes of 16 to 1416 bytes were added to an
  -- empty one, leaves an empty group.
  pub take_group-IsEmptyGroup : 0 < length ms → IsEmptyGroup (take_group gathered).0
  unfolding take_group
  take_group-IsEmptyGroup some_member =
      let busy : (gathered.n == 0) ≡ false = ground (arith, gathered-n) in
      rw busy (record {
        no_member = refl;
        no_box = refl;
        room = length-counters f ms h ∙ v.room;
        size = length-zero_frame;
        zeros = get_or-zero_frame;
      })

pub length-put_counters : (cs : List ℕ) → length (put_counters cs) ≡ length cs * 8
unfolding put_counters
length-put_counters [] = refl
length-put_counters (c ∷ cs) =
    omega (
      arith,
      length-append (put_be 8 c) (put_counters cs),
      length-put_be 8 c,
      length-put_counters cs,
    )

pub drop-put_counters : (cs rest : List ℕ) → drop (length cs * 8) (put_counters cs ++ rest) ≡ rest
drop-put_counters cs rest =
    drop-append (length cs * 8) (put_counters cs) rest (length-put_counters cs)

-- The counters are read back as they were written.
pub get_counters-put_counters :
    (ms : List Member) (rest : List ℕ)
    → AreMembers ms
    → get_counters (length ms) (put_counters (counters_of ms) ++ rest) ≡ counters_of ms
unfolding get_counters put_counters
get_counters-put_counters [] rest h = refl
get_counters-put_counters (m ∷ ms) rest h =
    let tail = put_counters (counters_of ms) ++ rest in
    let e = append_assoc (put_be 8 m.0) (put_counters (counters_of ms)) rest in
    let n = length-put_be 8 m.0 in
    ap (λ (l : List ℕ). get_be (take 8 l) ∷ get_counters (length ms) (drop 8 l)) e
    ∙ ap₂ ◌∷◌ (ap get_be (take-append 8 (put_be 8 m.0) tail n) ∙ get_be-put_be 8 m.0 h.2) (
        ap (get_counters (length ms)) (drop-append 8 (put_be 8 m.0) tail n)
        ∙ get_counters-put_counters ms rest h.3)
