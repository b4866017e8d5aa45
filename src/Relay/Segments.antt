-- ===== src/Relay/Segments.antt =====
-- internal/tunnelapp/gso.go: which packets go out as one message, and how a message is cut.
use native.Mathlib.Nat.{
  add-mul-div_right, div_self, div-eq_of_lt, mod_self, add-mul-mod_self_right, mod-eq_of_lt,
}
use go_port_forward.Base.{
  ℕ, ◌+◌, ◌*◌, ◌/◌, ◌%◌, ◌≡◌, ◌≤◌, ◌<◌, List, [], ◌∷◌, ◌++◌, Bool, true, false, ◌||◌, ltb, leb,
  ◌==◌, if◌then◌else◌, arith, Bool-cases, ◌⊎◌, inl, inr, length, sym, ap, ap₂, subst, ◌∙◌,
}

abbrev pub gso_max_burst : ℕ
gso_max_burst = 32 * 1024

pub record SegRun : Type 0 where
  pub total : ℕ
  pub seg_size : ℕ
  pub closed : Bool

abbrev pub seg_of : SegRun → ℕ
seg_of r = if r.seg_size == 0 then r.total else r.seg_size

unfoldable pub can_append : SegRun → ℕ → Bool
can_append r n =
    if r.closed || n == 0 || r.total == 0
    then false
    else if ltb gso_max_burst (r.total + n)
    then false
    else leb n (seg_of r)

unfoldable pub append_packet : SegRun → ℕ → SegRun
append_packet r n = record { total = r.total + n; seg_size = seg_of r; closed = ltb n (seg_of r) }

unfoldable pub control_size : SegRun → ℕ
control_size r = if r.seg_size == 0 || leb r.total r.seg_size then 0 else r.seg_size

unfoldable pub gro_segments : (total seg_size : ℕ) → ℕ
gro_segments total seg_size =
    if seg_size == 0 || leb total seg_size
    then 1
    else total / seg_size + (if total % seg_size == 0 then 0 else 1)

-- The start and the end of a segment.
unfoldable pub gro_segment_at : (total seg_size i : ℕ) → ℕ × ℕ
gro_segment_at total seg_size i = if seg_size == 0 || leb total seg_size then (0, total) else (
  i * seg_size,
  (if ltb total (i * seg_size + seg_size) then total else i * seg_size + seg_size),
)

unfoldable pub sum : List ℕ → ℕ
sum [] = 0
sum (n ∷ ns) = n + sum ns

-- A message of packets, the last one first.
pub data Packed : List ℕ → SegRun → Type 0 where
  first_packet :
      (n : ℕ) → 0 < n → Packed (n ∷ []) (record { total = n; seg_size = 0; closed = false })
  next_packet :
      (n : ℕ) (ns : List ℕ) (r : SegRun)
      → Packed ns r
      → can_append r n ≡ true
      → Packed (n ∷ ns) (append_packet r n)

abbrev pub AreAll : ℕ → List ℕ → Type 0
AreAll s [] = Unit
AreAll s (n ∷ ns) = (n ≡ s) × AreAll s ns

all-sum : (s : ℕ) (ns : List ℕ) → AreAll s ns → sum ns ≡ length ns * s
unfolding sum
all-sum s [] h = omega arith
all-sum s (n ∷ ns) h = ap₂ (λ a b. a + b) h.0 (all-sum s ns h.1) ∙ omega arith

-- What holds of a message with the last packet `n` after `ns`.
record IsUniform (n : ℕ) (ns : List ℕ) (r : SegRun) : Type 0 where
  whole : n + sum ns ≡ r.total
  all : AreAll (seg_of r) ns
  some_bytes : 0 < n
  short : n ≤ seg_of r
  shut : r.closed ≡ ltb n (seg_of r)

accepting-same :
    (n m : ℕ) (ms : List ℕ) (r : SegRun)
    → IsUniform m ms r
    → can_append r n ≡ true
    → (m ≡ seg_of r) × (0 < n) × (n ≤ seg_of r)
unfolding can_append
accepting-same n m ms r u h = ground (arith, h, u.shut, u.short)

append-seg : (n : ℕ) (r : SegRun) → 0 < seg_of r → seg_of (append_packet r n) ≡ seg_of r
unfolding append_packet
append-seg n r h = ground (arith, h)

Packed-some : (ns : List ℕ) (r : SegRun) → Packed ns r → 0 < length ns
Packed-some ns _ (first_packet _ h) = omega arith
Packed-some ns _ (next_packet _ _ r p h) = omega arith

Packed-IsUniform : (n : ℕ) (ns : List ℕ) (r : SegRun) → Packed (n ∷ ns) r → IsUniform n ns r
unfolding sum append_packet
Packed-IsUniform n _ _ (first_packet _ h) = record {
  whole = omega arith;
  all = tt;
  some_bytes = h;
  short = omega arith;
  shut = ground arith;
}
Packed-IsUniform n [] _ (next_packet _ _ r p h) = absurd (ground (arith, Packed-some [] r p))
Packed-IsUniform n (m ∷ ms) _ (next_packet _ _ r p h) =
    let u : IsUniform m ms r = Packed-IsUniform m ms r p in
    let (e, low, high) = accepting-same n m ms r u h in
    let q : seg_of (append_packet r n) ≡ seg_of r = append-seg n r (omega (arith, low, high)) in
    record {
      whole = omega (arith, u.whole);
      all = subst (λ s. AreAll s (m ∷ ms)) (sym q) (e, u.all);
      some_bytes = low;
      short = subst (λ s. n ≤ s) (sym q) high;
      shut = ap (λ s. ltb n s) (sym q);
    }

control-several :
    (n m : ℕ) (ms : List ℕ) (r : SegRun)
    → Packed (n ∷ m ∷ ms) r
    → (control_size r ≡ seg_of r) × (seg_of r < r.total)
unfolding control_size append_packet
control-several n m ms _ (next_packet _ _ r p h) =
    let u : IsUniform m ms r = Packed-IsUniform m ms r p in
    let (e, low, high) = accepting-same n m ms r u h in
    ground (arith, e, low, high, u.whole, append-seg n r)

control-one : (n : ℕ) (r : SegRun) → Packed (n ∷ []) r → (control_size r ≡ 0) × (r.total ≡ n)
unfolding control_size
control-one n _ (first_packet _ h) = ground arith
control-one n _ (next_packet _ _ r p h) = absurd (ground (arith, Packed-some [] r p))

AreAll-later :
    (s : ℕ) (post : List ℕ) (n : ℕ) (pre : List ℕ)
    → AreAll s (post ++ n ∷ pre)
    → (n ≡ s) × AreAll s pre × (s + sum pre ≤ sum (post ++ n ∷ pre))
unfolding sum
AreAll-later s [] n pre h = (h.0, h.1, omega (arith, h.0))
AreAll-later s (k ∷ post) n pre h =
    let (e, a, b) = AreAll-later s post n pre h.1 in (e, a, omega (arith, b))

-- A segment of the size `s` that starts after `before`.
cut-at :
    (total s i before n : ℕ)
    → before ≡ i * s
    → s < total
    → 0 < s
    → n ≤ s
    → (n ≡ s) ⊎ (before + n ≡ total)
    → before + n ≤ total
    → gro_segment_at total s i ≡ (before, before + n)
unfolding gro_segment_at
cut-at total s i before n e h p k (inl q) b = ground (arith, e, h, p, q, b)
cut-at total s i before n e h p k (inr q) b = ground (arith, e, h, p, q, k)

single-segment : (n : ℕ) → gro_segment_at n 0 0 ≡ (0, 0 + n)
unfolding gro_segment_at
single-segment n = ap (λ z. (0, z)) (omega arith)

inner-segment :
    (k : ℕ) (post : List ℕ) (n : ℕ) (pre : List ℕ) (r : SegRun)
    → Packed (k ∷ (post ++ n ∷ pre)) r
    → control_size r ≡ seg_of r
    → seg_of r < r.total
    → gro_segment_at r.total (control_size r) (length pre) ≡ (sum pre, sum pre + n)
inner-segment k post n pre r p c l =
    let u : IsUniform k (post ++ n ∷ pre) r = Packed-IsUniform k (post ++ n ∷ pre) r p in
    let (e, a, b) = AreAll-later (seg_of r) post n pre u.all in
    subst (λ z. gro_segment_at r.total z (length pre) ≡ (sum pre, sum pre + n)) (sym c)
      (cut-at r.total (seg_of r) (length pre) (sum pre) n (all-sum (seg_of r) pre a) l
        (omega (arith, u.some_bytes, u.short)) (omega (arith, e)) (inl e)
        (omega (arith, e, b, u.whole)))

-- Where `canAppend` let each packet join the message of the packets before it: cut by the segment
-- size that is set for the message, with 0 for a message of one packet, the segment at the place
-- of a packet has exactly the bytes of this packet.
pub segment_at-packets :
    (post : List ℕ) (n : ℕ) (pre : List ℕ) (r : SegRun)
    → Packed (post ++ n ∷ pre) r
    → gro_segment_at r.total (control_size r) (length pre) ≡ (sum pre, sum pre + n)
unfolding sum
segment_at-packets [] n [] r p =
    let (c, t) = control-one n r p in ap₂ (λ a b. gro_segment_at a b 0) t c ∙ single-segment n
segment_at-packets [] n (m ∷ ms) r p =
    let (c, l) = control-several n m ms r p in
    let u : IsUniform n (m ∷ ms) r = Packed-IsUniform n (m ∷ ms) r p in
    subst (λ z. gro_segment_at r.total z (length (m ∷ ms)) ≡ (sum (m ∷ ms), sum (m ∷ ms) + n))
      (sym c)
      (cut-at r.total (seg_of r) (length (m ∷ ms)) (sum (m ∷ ms)) n
        (all-sum (seg_of r) (m ∷ ms) u.all) l (omega (arith, u.some_bytes, u.short)) u.short
        (inr (omega (arith, u.whole))) (omega (arith, u.whole)))
segment_at-packets (k ∷ []) n pre r p =
    let (c, l) = control-several k n pre r p in inner-segment k [] n pre r p c l
segment_at-packets (k ∷ j ∷ post) n pre r p =
    let (c, l) = control-several k j (post ++ n ∷ pre) r p in
    inner-segment k (j ∷ post) n pre r p c l

rounded :
    (n s k : ℕ)
    → 0 < s
    → 0 < n
    → n ≤ s
    → (n + k * s) / s + (if (n + k * s) % s == 0 then 0 else 1) ≡ k + 1
rounded n s k p b h =
    let q : (n + k * s) / s ≡ n / s + k = add-mul-div_right n k p in
    let m : (n + k * s) % s ≡ n % s = add-mul-mod_self_right n k s in
    elim (Bool-cases (n == s)) [
      | inl t ↦
          let e : n ≡ s = ground (arith, t) in
          let d : n / s ≡ 1 = ap (λ z. z / s) e ∙ div_self p in
          let z : n % s ≡ 0 = ap (λ z. z % s) e ∙ mod_self s in ground (arith, q, m, d, z)
      | inr f ↦
          let l : n < s = ground (arith, h, f) in
          let d : n / s ≡ 0 = div-eq_of_lt l in
          let z : n % s ≡ n = mod-eq_of_lt l in ground (arith, q, m, d, z, b)
    ]

segments-rounded :
    (total s : ℕ)
    → 0 < s
    → s < total
    → gro_segments total s ≡ total / s + (if total % s == 0 then 0 else 1)
unfolding gro_segments
segments-rounded total s p l = ground (arith, p, l)

-- Where `canAppend` let each packet join the message of the packets before it: the number of
-- segments, by the segment size that is set for the message, is the number of the packets.
pub segments-packets :
    (ns : List ℕ) (r : SegRun) → Packed ns r → gro_segments r.total (control_size r) ≡ length ns
unfolding gro_segments
segments-packets [] r p = absurd (ground (arith, Packed-some [] r p))
segments-packets (n ∷ []) r p = let (c, t) = control-one n r p in ground (arith, c)
segments-packets (n ∷ m ∷ ms) r p =
    let (c, l) = control-several n m ms r p in
    let u : IsUniform n (m ∷ ms) r = Packed-IsUniform n (m ∷ ms) r p in
    let k : ℕ = length (m ∷ ms) in
    let s : ℕ = seg_of r in
    let a : sum (m ∷ ms) ≡ k * s = all-sum s (m ∷ ms) u.all in
    let t : r.total ≡ n + k * s = sym u.whole ∙ ap (λ z. n + z) a in
    let low : 0 < s = omega (arith, u.some_bytes, u.short) in
    ap (gro_segments r.total) c
    ∙ segments-rounded r.total s low l
    ∙ ap (λ z. z / s + (if z % s == 0 then 0 else 1)) t
    ∙ rounded n s k low u.some_bytes u.short
    ∙ omega arith
