-- ===== src/Tunnel/Fec/Recovery.antt =====
-- pkg/tunnel/fec.go: the sender's parity against the receiver's boxes, one of which is missing.
use mathlib.Core.List.{map-append}
use go_port_forward.Base.{
  ℕ, zero, suc, ◌+◌, ◌^◌, ◌≡◌, ◌≤◌, ◌<◌, refl, ap, ap₂, ◌∙◌, false, List, [], ◌∷◌, ◌++◌, none, some,
  length, arith, length-append, get_or, take, drop, take-append, drop-append, length-take, max, ltb,
  leb, append_assoc, bit_xor,
}
use go_port_forward.Base.Bytes.{put_be, length-put_be, get_be-put_be}
use go_port_forward.Base.Xor.{zero-bit_xor}
use go_port_forward.Tunnel.Protocol.{type_data}
use go_port_forward.Tunnel.Fec.{FecState, Pending, frame_of}
use go_port_forward.Tunnel.Fec.Receive.{
  lookup, scan, complete, xor_members, restore, recover, try_recover, push_recovered, unused,
}
use go_port_forward.Tunnel.Fec.Xors.{
  xor_all, length-xor_all, get_or-xor_all, Fit, column, column-append, bit_xor_gap,
  eq_append_of_get_or,
}
use go_port_forward.Tunnel.Fec.Group.{
  Member, AreMembers, counters_of, frames_of, longest, parity, IsEmptyGroup,
}
use go_port_forward.Tunnel.Fec.Gap.{AreCached, length-frame_of, scan-gap, xor_members-gap}

longest-le : (n : ℕ) (ms : List Member) → n ≤ longest n ms
unfolding longest
longest-le n [] = omega arith
longest-le n (m ∷ ms) = omega (arith, longest-le (max n (length m.1)) ms)

longest_mono : (n k : ℕ) (ms : List Member) → n ≤ k → longest n ms ≤ longest k ms
unfolding longest
longest_mono n k [] h = h
longest_mono n k (m ∷ ms) h =
    longest_mono (max n (length m.1)) (max k (length m.1)) ms (omega arith)

pub longest-max : (n : ℕ) (ms : List Member) → AreMembers ms → n ≤ 1416 → longest n ms ≤ 1416
unfolding longest
longest-max n [] h lim = lim
longest-max n (m ∷ ms) h lim = longest-max (max n (length m.1)) ms h.3 (omega (arith, h.1))

-- Every frame of a group fits its parity.
longest-Fit : (n : ℕ) (ms : List Member) → Fit (2 + longest n ms) (frames_of ms)
unfolding longest
longest-Fit n [] = tt
longest-Fit n (m ∷ ms) = (
  omega (arith, length-frame_of m.1, longest-le (max n (length m.1)) ms),
  longest-Fit (max n (length m.1)) ms,
)

Fit-mono : (n k : ℕ) (fs : List (List ℕ)) → n ≤ k → Fit n fs → Fit k fs
Fit-mono n k [] le h = tt
Fit-mono n k (f ∷ fs) le h = (omega (arith, h.0), Fit-mono n k fs le h.1)

Fit-left : (n : ℕ) (fs gs : List (List ℕ)) → Fit n (fs ++ gs) → Fit n fs
Fit-left n [] gs h = tt
Fit-left n (f ∷ fs) gs h = (h.0, Fit-left n fs gs h.1)

Fit-right : (n : ℕ) (fs gs : List (List ℕ)) → Fit n (fs ++ gs) → Fit n gs
Fit-right n [] gs h = h
Fit-right n (f ∷ fs) gs h = Fit-right n fs gs h.1

get_or-take : (n : ℕ) (xs : List ℕ) (i : ℕ) → i < n → get_or (take n xs) i 0 ≡ get_or xs i 0
get_or-take zero xs i h = absurd (omega arith)
get_or-take (suc n) [] i h = refl
get_or-take (suc n) (x ∷ xs) zero h = refl
get_or-take (suc n) (x ∷ xs) (suc i) h = get_or-take n xs i (omega arith)

middle :
    (pre : List Member) (m : Member) (post : List Member)
    → AreMembers (pre ++ m ∷ post)
    → (16 ≤ length m.1) × (length m.1 ≤ 1416) × (m.0 < 2 ^ 64)
middle [] m post h = (h.0, h.1, h.2)
middle (x ∷ pre) m post h = middle pre m post h.3

-- A frame that begins with the frame of a box gives that box back.
restore-frame :
    (g : FecState) (p : Pending) (gap c : ℕ) (box slack : List ℕ)
    → get_or p.counters gap 0 ≡ c
    → 16 ≤ length box
    → length box ≤ 1416
    → restore g p gap (some (put_be 2 (length box) ++ (box ++ slack)))
      ≡ (push_recovered g (type_data ∷ (put_be 8 c ++ box)), unused p)
unfolding restore
restore-frame g p gap c box slack at lo hi =
    let n = length box in
    let frame = put_be 2 n ++ (box ++ slack) in
    let two = length-put_be 2 n in
    let read = get_be-put_be 2 n (omega arith) in
    let long : ltb n 16 ≡ false = ground arith in
    let size : ltb (length frame) (2 + n) ≡ false =
      ground (arith, length-append (put_be 2 n) (box ++ slack), two, length-append box slack) in
    rw (
      take-append 2 (put_be 2 n) (box ++ slack) two,
      drop-append 2 (put_be 2 n) (box ++ slack) two,
      read,
      long,
      size,
      take-append n box slack refl,
      at,
    )

-- A group with one member singled out.
module _ (f : FecState) (v : IsEmptyGroup f) (pre post : List Member) (c : ℕ) (box : List ℕ)
    (h : AreMembers (pre ++ (c, box) ∷ post)) where
  abbrev pub group : List Member
  group = pre ++ (c, box) ∷ post

  abbrev others : List ℕ
  others = xor_all (xor_all (parity f group) (frames_of pre)) (frames_of post)

  pub parity-length : length (parity f group) ≡ 2 + longest 0 group
  unfolding parity
  parity-length = omega (
    arith,
    length-take (2 + longest 0 group) (xor_all f.acc (frames_of group)),
    length-xor_all f.acc (frames_of group),
    v.size,
    longest-max 0 group h (omega arith),
  )

  frames-split : frames_of group ≡ frames_of pre ++ frame_of box ∷ frames_of post
  frames-split = map-append _ pre ((c, box) ∷ post)

  group-Fit : Fit (2 + longest 0 group) (frames_of pre ++ frame_of box ∷ frames_of post)
  group-Fit = rw (← frames-split) (longest-Fit 0 group)

  frame-fits : length (frame_of box) ≤ 2 + longest 0 group
  frame-fits =
      (Fit-right (2 + longest 0 group) (frames_of pre) (frame_of box ∷ frames_of post) group-Fit).0

  abbrev size : ℕ
  size = length (parity f group)

  pre-Fit : Fit size (frames_of pre)
  pre-Fit =
      rw parity-length
        (Fit-left (2 + longest 0 group) (frames_of pre) (frame_of box ∷ frames_of post) group-Fit)

  post-Fit : Fit size (frames_of post)
  post-Fit =
      rw parity-length
        (Fit-right (2 + longest 0 group) (frames_of pre) (frame_of box ∷ frames_of post)
          group-Fit).1

  acc-Fit : Fit (length f.acc) (frames_of group)
  acc-Fit =
      Fit-mono (2 + longest 0 group) (length f.acc) (frames_of group)
        (omega (arith, v.size, longest-max 0 group h (omega arith))) (longest-Fit 0 group)

  -- A byte of the parity is the exclusive or of that byte of all frames.
  parity-get_or :
      (i : ℕ)
      → i < 2 + longest 0 group
      → get_or (parity f group) i 0
        ≡ bit_xor
            (column i (frames_of pre))
            (bit_xor (get_or (frame_of box) i 0) (column i (frames_of post)))
  unfolding parity column
  parity-get_or i lt =
      get_or-take (2 + longest 0 group) (xor_all f.acc (frames_of group)) i lt
      ∙ get_or-xor_all f.acc (frames_of group) i acc-Fit
      ∙ ap (λ (t : ℕ). bit_xor t (column i (frames_of group))) (v.zeros i)
      ∙ zero-bit_xor (column i (frames_of group))
      ∙ ap (column i) frames-split
      ∙ column-append i (frames_of pre) (frame_of box ∷ frames_of post)

  -- What is left when the others are taken out of the parity begins with the missing frame.
  others-get_or :
      (i : ℕ) → i < length (frame_of box) → get_or others i 0 ≡ get_or (frame_of box) i 0
  others-get_or i lt =
      let mid = xor_all (parity f group) (frames_of pre) in
      let p = column i (frames_of pre) in
      let q = column i (frames_of post) in
      get_or-xor_all mid (frames_of post) i
        (rw (length-xor_all (parity f group) (frames_of pre)) post-Fit)
      ∙ ap (λ (t : ℕ). bit_xor t q)
          (get_or-xor_all (parity f group) (frames_of pre) i pre-Fit
            ∙ ap (λ (t : ℕ). bit_xor t p) (parity-get_or i (omega (arith, frame-fits))))
      ∙ bit_xor_gap p (get_or (frame_of box) i 0) q

  length-others : length others ≡ size
  length-others =
      length-xor_all (xor_all (parity f group) (frames_of pre)) (frames_of post)
      ∙ length-xor_all (parity f group) (frames_of pre)

  abbrev slack : List ℕ
  slack = drop (length (frame_of box)) others

  others-eq : others ≡ put_be 2 (length box) ++ (box ++ slack)
  unfolding frame_of
  others-eq =
      eq_append_of_get_or others (frame_of box)
        (omega (arith, length-others, parity-length, frame-fits)) others-get_or
      ∙ append_assoc (put_be 2 (length box)) box slack

  box-range : (16 ≤ length box) × (length box ≤ 1416)
  box-range = let m = middle pre (c, box) post h in (m.0, m.1)

  -- The packet that is put back, in its form on the wire.
  abbrev pub wire : List ℕ
  wire = type_data ∷ (put_be 8 c ++ box)

  restore-others :
      (g : FecState) (p : Pending)
      → get_or p.counters (length pre) 0 ≡ c
      → restore g p (length pre) (some others) ≡ (push_recovered g wire, unused p)
  unfolding restore
  restore-others g p at =
      ap (λ (l : List ℕ). restore g p (length pre) (some l)) others-eq
      ∙ restore-frame g p (length pre) c box slack at box-range.0 box-range.1

  -- The group as the receiver holds it.
  abbrev pub IsGroup : Pending → Type 0
  IsGroup p =
      (take p.count p.counters ≡ counters_of group)
      × (take p.frame_len p.xor_frame ≡ parity f group)
      × (get_or p.counters (length pre) 0 ≡ c)

  pub try_recover-gap :
      (g : FecState) (p : Pending)
      → AreCached g pre
      → lookup g c ≡ none
      → AreCached g post
      → g.rec_count < 2
      → IsGroup p
      → try_recover g p ≡ (push_recovered g wire, unused p)
  unfolding try_recover recover
  try_recover-gap g p hpre gone hpost room q =
      let cs : take p.count p.counters ≡ counters_of pre ++ c ∷ counters_of post =
        q.0 ∙ map-append _ pre ((c, box) ∷ post) in
      let free : leb 2 g.rec_count ≡ false = ground arith in
      let taken : xor_members g (length pre) 0 (take p.count p.counters)
            (take p.frame_len p.xor_frame)
          ≡ some others =
        ap₂ (xor_members g (length pre) 0) cs q.1
        ∙ xor_members-gap g pre post c (parity f group) hpre hpost pre-Fit post-Fit in
      ap (λ (l : List ℕ). recover g p (scan g 0 complete l)) cs
      ∙ ap (recover g p) (scan-gap g pre post c hpre gone hpost)
      ∙ rw free (ap (restore g p (length pre)) taken ∙ restore-others g p q.2)
