-- ===== src/Tunnel/Fec/Gap.antt =====
-- The receiver's loops over a group of which one member is missing.
use go_port_forward.Base.{
  ℕ, suc, ◌+◌, ◌≡◌, ◌≤◌, ◌<◌, refl, sym, ap, ◌∙◌, List, [], ◌∷◌, ◌++◌, Option, none, some, length,
  arith, true, false, length-append, ltb, ◌==◌, ◌≢◌, append-nil,
}
use go_port_forward.Base.Bytes.{put_be, length-put_be}
use go_port_forward.Base.Xor.{xor_into, length-xor_into}
use go_port_forward.Tunnel.Fec.{FecState, frame_of}
use go_port_forward.Tunnel.Fec.Receive.{lookup, Scan, complete, missing, scan, note, xor_members}
use go_port_forward.Tunnel.Fec.Xors.{xor_all, length-xor_all, Fit}
use go_port_forward.Tunnel.Fec.Group.{Member, counters_of, frames_of}

-- The cache holds these members.
abbrev pub AreCached : FecState → List Member → Type 0
AreCached g [] = Unit {0}
AreCached g (m ∷ ms) = (lookup g m.0 ≡ some m.1) × AreCached g ms

scan-cached :
    (g : FecState) (i : ℕ) (found : Scan) (ms : List Member) (rest : List ℕ)
    → AreCached g ms
    → scan g i found (counters_of ms ++ rest) ≡ scan g (i + length ms) found rest
unfolding scan
scan-cached g i found [] rest h =
    ap (λ (k : ℕ). scan g k found rest) (let e : i ≡ i + 0 = omega arith in e)
scan-cached g i found (m ∷ ms) rest h =
    ap (λ (o : Option (List ℕ)). scan g (i + 1) (note i o found) (counters_of ms ++ rest)) h.0
    ∙ scan-cached g (i + 1) found ms rest h.1
    ∙ ap (λ (k : ℕ). scan g k found rest)
        (let e : i + 1 + length ms ≡ i + suc (length ms) = omega arith in e)

-- One missing member is found at its place.
pub scan-gap :
    (g : FecState) (pre post : List Member) (c : ℕ)
    → AreCached g pre
    → lookup g c ≡ none
    → AreCached g post
    → scan g 0 complete (counters_of pre ++ c ∷ counters_of post) ≡ missing (length pre)
unfolding scan
scan-gap g pre post c hpre gone hpost =
    scan-cached g 0 complete pre (c ∷ counters_of post) hpre
    ∙ ap
        (λ (o : Option (List ℕ)).
          scan g (0 + length pre + 1) (note (0 + length pre) o complete) (counters_of post))
        gone
    ∙ ap (scan g (0 + length pre + 1) (missing (0 + length pre)))
        (sym (append-nil (counters_of post)))
    ∙ scan-cached g (0 + length pre + 1) (missing (0 + length pre)) post [] hpost
    ∙ ap missing (let e : 0 + length pre ≡ length pre = omega arith in e)

pub length-frame_of : (b : List ℕ) → length (frame_of b) ≡ 2 + length b
unfolding frame_of
length-frame_of b = omega (arith, length-append (put_be 2 (length b)) b, length-put_be 2 (length b))

module _ (g : FecState) (gap : ℕ) where
  xor_members-at :
      (i c : ℕ) (b cs frame : List ℕ)
      → lookup g c ≡ some b
      → i ≢ gap
      → length (frame_of b) ≤ length frame
      → xor_members g gap i (c ∷ cs) frame
        ≡ xor_members g gap (i + 1) cs (xor_into frame (frame_of b))
  unfolding xor_members
  xor_members-at i c b cs frame h other fit =
      let skip : (i == gap) ≡ false = ground arith in
      let long : ltb (length frame) (2 + length b) ≡ false = ground (arith, length-frame_of b) in
      rw (skip, h, long)

  xor_members-before :
      (i : ℕ) (ms : List Member) (rest frame : List ℕ)
      → AreCached g ms
      → Fit (length frame) (frames_of ms)
      → i + length ms ≤ gap
      → xor_members g gap i (counters_of ms ++ rest) frame
        ≡ xor_members g gap (i + length ms) rest (xor_all frame (frames_of ms))
  unfolding xor_all
  xor_members-before i [] rest frame h fit lo =
      ap (λ (k : ℕ). xor_members g gap k rest frame) (let e : i ≡ i + 0 = omega arith in e)
  xor_members-before i (m ∷ ms) rest frame h fit lo =
      xor_members-at i m.0 m.1 (counters_of ms ++ rest) frame h.0 (omega arith) fit.0
      ∙ xor_members-before (i + 1) ms rest (xor_into frame (frame_of m.1)) h.1
          (rw (length-xor_into frame (frame_of m.1)) fit.1) (omega arith)
      ∙ ap
          (λ (k : ℕ).
            xor_members g gap k rest (xor_all (xor_into frame (frame_of m.1)) (frames_of ms)))
          (let e : i + 1 + length ms ≡ i + suc (length ms) = omega arith in e)

  xor_members-after :
      (i : ℕ) (ms : List Member) (frame : List ℕ)
      → AreCached g ms
      → Fit (length frame) (frames_of ms)
      → gap < i
      → xor_members g gap i (counters_of ms) frame ≡ some (xor_all frame (frames_of ms))
  unfolding xor_members xor_all
  xor_members-after i [] frame h fit lo = refl
  xor_members-after i (m ∷ ms) frame h fit lo =
      xor_members-at i m.0 m.1 (counters_of ms) frame h.0 (omega arith) fit.0
      ∙ xor_members-after (i + 1) ms (xor_into frame (frame_of m.1)) h.1
          (rw (length-xor_into frame (frame_of m.1)) fit.1) (omega arith)

-- All members but the missing one are taken out of the parity.
pub xor_members-gap :
    (g : FecState) (pre post : List Member) (c : ℕ) (frame : List ℕ)
    → AreCached g pre
    → AreCached g post
    → Fit (length frame) (frames_of pre)
    → Fit (length frame) (frames_of post)
    → xor_members g (length pre) 0 (counters_of pre ++ c ∷ counters_of post) frame
      ≡ some (xor_all (xor_all frame (frames_of pre)) (frames_of post))
unfolding xor_members
xor_members-gap g pre post c frame hpre hpost fpre fpost =
    let gap = length pre in
    let mid = xor_all frame (frames_of pre) in
    let at : (0 + gap == gap) ≡ true = ground arith in
    xor_members-before g gap 0 pre (c ∷ counters_of post) frame hpre fpre (omega arith)
    ∙ rw at (
        xor_members-after g gap (0 + gap + 1) post mid hpost
          (rw (length-xor_all frame (frames_of pre)) fpost) (omega arith))
