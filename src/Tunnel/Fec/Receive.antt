-- ===== src/Tunnel/Fec/Receive.antt =====
-- The receiver's half: boxes are cached, groups wait for all but one member, and the missing box is
-- restored from the others.
use go_port_forward.Base.{
  ℕ, zero, suc, ◌+◌, ◌-◌, ◌*◌, ◌%◌, Bool, true, false, ◌&&◌, ◌||◌, not, List, [], ◌∷◌, ◌++◌, Option,
  none, some, ltb, leb, ◌==◌, if◌then◌else◌, length, take, drop, replicate, get_or, set,
}
use go_port_forward.Base.Bytes.{put_be, get_be}
use go_port_forward.Base.Xor.{xor_into}
use go_port_forward.Tunnel.Protocol.{tag_size, counter_size, type_data}
use go_port_forward.Tunnel.Stats.{Stats, add_u64}
use go_port_forward.Tunnel.Fec.{
  FecState, Pending, fec_group, fec_slots, fec_max_box, fec_frame_header, fec_recovered_max,
  frame_size, frame_of, empty_slot, empty_pending,
}

-- The cached box of a counter.
unfoldable pub lookup : FecState → ℕ → Option (List ℕ)
lookup f counter =
    let slot = get_or f.slots (counter % fec_slots) empty_slot in
    if slot.counter == counter then slot.box else none

-- How many members of a group the cache lacks.
pub data Scan : Type 0 where
  complete : Scan
  missing : ℕ → Scan
  too_many : Scan

-- One round of that loop, for member `i`.
unfoldable pub note : ℕ → Option (List ℕ) → Scan → Scan
note i (some box) found = found
note i none complete = missing i
note i none (missing k) = too_many
note i none too_many = too_many

-- The loop over the members from index `i` on.
unfoldable pub scan : FecState → (i : ℕ) → Scan → List ℕ → Scan
unfolding note
scan f i found [] = found
scan f i found (c ∷ cs) = scan f (i + 1) (note i (lookup f c) found) cs

-- A nil box has length 0.
abbrev pub bytes_of : Option (List ℕ) → List ℕ
bytes_of none = []
bytes_of (some box) = box

-- The loop that takes the members at hand out of the parity; `none` is a member longer than it.
unfoldable pub xor_members : FecState → (gap i : ℕ) → List ℕ → List ℕ → Option (List ℕ)
xor_members f gap i [] frame = some frame
xor_members f gap i (c ∷ cs) frame =
    let box = bytes_of (lookup f c) in
    let skip = i == gap in
    let rest =
      xor_members f gap (i + 1) cs (if skip then frame else xor_into frame (frame_of box)) in
    if skip then rest else if ltb (length frame) (fec_frame_header + length box) then none else rest

unfoldable pub push_recovered : FecState → List ℕ → FecState
push_recovered f wire = record f {
  recovered = set f.recovered ((f.rec_head + f.rec_count) % fec_recovered_max) wire;
  rec_count = f.rec_count + 1;
}

abbrev pub unused : Pending → Pending
unused p = record p { used = false }

-- The missing frame, back in the form that it had on the wire.
unfoldable pub restore : FecState → Pending → ℕ → Option (List ℕ) → FecState × Pending
restore f p gap none = (f, unused p)
restore f p gap (some frame) =
    let box_len = get_be (take fec_frame_header frame) in
    let wire =
      type_data
      ∷ (put_be counter_size (get_or p.counters gap 0)
          ++ take box_len (drop fec_frame_header frame)) in
    if ltb box_len tag_size || ltb (length frame) (fec_frame_header + box_len)
    then (f, unused p)
    else (push_recovered f wire, unused p)

unfoldable pub recover : FecState → Pending → Scan → FecState × Pending
recover f p too_many = (f, p)
recover f p complete = (f, unused p)
recover f p (missing gap) =
    if leb fec_recovered_max f.rec_count
    then (f, p)
    else restore f p gap
        (xor_members f gap 0 (take p.count p.counters) (take p.frame_len p.xor_frame))

-- The state after the attempt, and the group.
unfoldable pub try_recover : FecState → Pending → FecState × Pending
try_recover f p = recover f p (scan f 0 complete (take p.count p.counters))

-- The counters of a group leave the window of the cache.
unfoldable pub expired : ℕ → Pending → Bool
expired newest p = ltb p.max_seen newest && ltb fec_slots (newest - p.max_seen)

abbrev pub give_up : Stats → Stats
give_up s = record s { fec_give_up = add_u64 s.fec_give_up 1 }

-- One round of tryRecoverAll.
unfoldable pub recover_one : ℕ → FecState → Stats → Pending → FecState × Stats × Pending
unfolding expired
recover_one newest f s p =
    if not p.used
    then (f, s, p)
    else if expired newest p
    then (f, give_up s, unused p)
    else let (f', p') = try_recover f p in (f', s, p')

unfoldable pub recover_each : ℕ → FecState → Stats → List Pending → FecState × Stats × List Pending
recover_each newest f s [] = (f, s, [])
recover_each newest f s (p ∷ ps) =
    let (f1, s1, p1) = recover_one newest f s p in
    let (f2, s2, ps2) = recover_each newest f1 s1 ps in (f2, s2, p1 ∷ ps2)

unfoldable pub try_recover_all : ℕ → FecState → Stats → FecState × Stats
try_recover_all newest f s =
    let (f', s', ps) = recover_each newest f s f.pending in (record f' { pending = ps }, s')

-- `append(old[:0], box...)` on a nil slice stays nil if the box is empty.
unfoldable pub stored : Option (List ℕ) → List ℕ → Option (List ℕ)
stored none [] = none
stored (some old) [] = some []
stored old (b ∷ bs) = some (b ∷ bs)

unfoldable pub put_slot : FecState → ℕ → List ℕ → FecState
unfolding stored
put_slot f counter box =
    let o = counter % fec_slots in
    record f {
      slots =
          set f.slots o
            (record { counter = counter; box = stored (get_or f.slots o empty_slot).box box });
    }

unfoldable pub cache_box : ℕ → List ℕ → FecState → Stats → FecState × Stats
cache_box counter box f s =
    if counter == 0 || ltb fec_max_box (length box)
    then (f, s)
    else try_recover_all counter (put_slot f counter box) s

-- The first `n` counters of a payload after its count.
unfoldable pub get_counters : ℕ → List ℕ → List ℕ
get_counters zero bs = []
get_counters (suc n) bs = get_be (take 8 bs) ∷ get_counters n (drop 8 bs)

unfoldable pub max_of : ℕ → List ℕ → ℕ
max_of m [] = m
max_of m (c ∷ cs) = max_of (if ltb m c then c else m) cs

-- The index of the first free group from `i` on.
unfoldable pub first_free : ℕ → List Pending → Option ℕ
first_free i [] = none
first_free i (p ∷ ps) = if p.used then first_free (i + 1) ps else some i

-- The index of the group whose highest counter is least, from `i` on.
unfoldable pub oldest_from : (best best_seen i : ℕ) → List Pending → ℕ
oldest_from best best_seen i [] = best
oldest_from best best_seen i (p ∷ ps) =
    let older = ltb p.max_seen best_seen in
    oldest_from (if older then i else best) (if older then p.max_seen else best_seen) (i + 1) ps

unfoldable pub free_pending : List Pending → Stats → ℕ × Stats
unfolding first_free oldest_from
free_pending ps s = elim (first_free 0 ps) [
  | some i ↦ (i, s)
  | none ↦ (oldest_from 0 (get_or ps 0 empty_pending).max_seen 1 (drop 1 ps), give_up s)
]

-- `clear(dst); copy(dst, frame)`
unfoldable pub padded : List ℕ → List ℕ
padded frame = frame ++ replicate (frame_size - length frame) 0

unfoldable pub register : (count : ℕ) → (payload frame : List ℕ) → Pending → Pending
unfolding max_of padded
register count payload frame old =
    let cs = get_counters count (drop 1 payload) in
    record {
      used = true;
      count = count;
      counters = cs ++ drop count old.counters;
      max_seen = max_of 0 cs;
      xor_frame = padded frame;
      frame_len = length frame;
    }

-- The group is stored in a free place and tried at once.
unfoldable pub place_group : FecState → Stats → Pending → ℕ → FecState × Stats
place_group f s p i =
    let (f', p') = try_recover f p in (record f' { pending = set f.pending i p' }, s)

unfoldable pub bad_group : List ℕ → Bool
bad_group payload =
    let count = get_or payload 0 0 in
    let head = 1 + count * counter_size in
    ltb (length payload) 1
    || (ltb count 2 || ltb fec_group count)
    || ltb (length payload) (head + fec_frame_header)
    || ltb (fec_frame_header + fec_max_box) (length payload - head)

unfoldable pub add_group : List ℕ → FecState → Stats → (FecState × Stats) × Bool
add_group payload f s =
    let count = get_or payload 0 0 in
    let frame = drop (1 + count * counter_size) payload in
    let (i, s') = free_pending f.pending s in
    let p = register count payload frame (get_or f.pending i empty_pending) in
    if bad_group payload then ((f, s), false) else (place_group f s' p i, true)

unfoldable pub pop_recovered : FecState → FecState × Option (List ℕ)
pop_recovered f = if f.rec_count == 0 then (f, none) else (
  record f { rec_head = (f.rec_head + 1) % fec_recovered_max; rec_count = f.rec_count - 1 },
  some (get_or f.recovered f.rec_head []),
)
