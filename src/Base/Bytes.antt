-- ===== src/Base/Bytes.antt =====
-- Byte strings, and big-endian integers in them (encoding/binary).
use Prim.Native.Nat.{ℕ, zero, suc, ◌+◌, ◌*◌, ◌/◌, ◌%◌, ◌^◌, ◌<◌, ◌≤◌}
use mathlib.Core.Path.{◌≡◌, refl, ap, ap₂, sym, ◌∙◌}
use mathlib.Core.Bool.{Bool, true, false, ◌&&◌}
use mathlib.Core.List.{List, [], ◌∷◌, ◌++◌, append-nil, append_assoc}
use native.Mathlib.Nat.{pow-suc, mul-le-mul_right}
use native.Mathlib.Omega.{arith}
use go_port_forward.Base.Tests.{ltb, ◌==◌}
use go_port_forward.Base.Lists.{length, length-append, take, drop}

-- `hmac.Equal` and the comparison of byte arrays.
unfoldable pub bytes_eq : List ℕ → List ℕ → Bool
bytes_eq [] [] = true
bytes_eq [] (y ∷ ys) = false
bytes_eq (x ∷ xs) [] = false
bytes_eq (x ∷ xs) (y ∷ ys) = x == y && bytes_eq xs ys

pub bytes_eq-eq : (xs ys : List ℕ) → bytes_eq xs ys ≡ true → xs ≡ ys
unfolding bytes_eq
bytes_eq-eq [] [] h = refl
bytes_eq-eq [] (y ∷ ys) h = cc
bytes_eq-eq (x ∷ xs) [] h = cc
bytes_eq-eq (x ∷ xs) (y ∷ ys) h = ground (arith, bytes_eq-eq xs ys)

pub bytes_eq_refl : (xs : List ℕ) → bytes_eq xs xs ≡ true
unfolding bytes_eq
bytes_eq_refl [] = refl
bytes_eq_refl (x ∷ xs) = ground (arith, bytes_eq_refl xs)

-- Every element is a byte.
abbrev pub AreBytes : List ℕ → Type 0
AreBytes [] = Unit {0}
AreBytes (x ∷ xs) = (x < 256) × AreBytes xs

-- The same as a test.
abbrev pub are_bytes : List ℕ → Bool
are_bytes [] = true
are_bytes (x ∷ xs) = ltb x 256 && are_bytes xs

pub are_bytes-AreBytes : (xs : List ℕ) → are_bytes xs ≡ true → AreBytes xs
are_bytes-AreBytes [] e = tt
are_bytes-AreBytes (x ∷ xs) e = (ground (arith, e), are_bytes-AreBytes xs (ground (arith, e)))

pub AreBytes-append : (xs ys : List ℕ) → AreBytes xs → AreBytes ys → AreBytes (xs ++ ys)
AreBytes-append [] ys h k = k
AreBytes-append (x ∷ xs) ys h k = (h.0, AreBytes-append xs ys h.1 k)

pub AreBytes-take : (n : ℕ) (xs : List ℕ) → AreBytes xs → AreBytes (take n xs)
AreBytes-take zero xs h = tt
AreBytes-take (suc n) [] h = tt
AreBytes-take (suc n) (x ∷ xs) h = (h.0, AreBytes-take n xs h.1)

pub AreBytes-drop : (n : ℕ) (xs : List ℕ) → AreBytes xs → AreBytes (drop n xs)
AreBytes-drop zero xs h = h
AreBytes-drop (suc n) [] h = tt
AreBytes-drop (suc n) (x ∷ xs) h = AreBytes-drop n xs h.1

-- The `k` low bytes of `v`, the highest first.
unfoldable pub put_be : ℕ → ℕ → List ℕ
put_be zero v = []
put_be (suc k) v = put_be k (v / 256) ++ v % 256 ∷ []

unfoldable pub get_be_from : ℕ → List ℕ → ℕ
get_be_from acc [] = acc
get_be_from acc (b ∷ bs) = get_be_from (acc * 256 + b) bs

unfoldable pub get_be : List ℕ → ℕ
get_be bs = get_be_from 0 bs

pub length-put_be : (k v : ℕ) → length (put_be k v) ≡ k
unfolding put_be
length-put_be zero v = refl
length-put_be (suc k) v =
    omega (arith, length-append (put_be k (v / 256)) (v % 256 ∷ []), length-put_be k (v / 256))

pub put_be-AreBytes : (k v : ℕ) → AreBytes (put_be k v)
unfolding put_be
put_be-AreBytes zero v = tt
put_be-AreBytes (suc k) v =
    AreBytes-append (put_be k (v / 256)) (v % 256 ∷ []) (put_be-AreBytes k (v / 256))
      (omega arith, tt)

get_be_from-append :
    (acc : ℕ) (xs ys : List ℕ) → get_be_from acc (xs ++ ys) ≡ get_be_from (get_be_from acc xs) ys
unfolding get_be_from
get_be_from-append acc [] ys = refl
get_be_from-append acc (x ∷ xs) ys = get_be_from-append (acc * 256 + x) xs ys

-- Reading back what was written, for a value that fits.
pub get_be-put_be : (k v : ℕ) → v < 256 ^ k → get_be (put_be k v) ≡ v
unfolding get_be put_be get_be_from
get_be-put_be zero v h = omega arith
get_be-put_be (suc k) v h =
    get_be_from-append 0 (put_be k (v / 256)) (v % 256 ∷ [])
    ∙ omega (arith, get_be-put_be k (v / 256) (omega (arith, pow-suc 256 k)))

-- The digits of a value with one digit more at the low end.
put_be-snoc : (k v b : ℕ) → b < 256 → put_be (suc k) (v * 256 + b) ≡ put_be k v ++ b ∷ []
unfolding put_be
put_be-snoc k v b h = ap₂ (λ (q r : ℕ). put_be k q ++ r ∷ []) (omega arith) (omega arith)

put_be-get_be_from :
    (k v : ℕ) (bs : List ℕ)
    → AreBytes bs
    → put_be (length bs + k) (get_be_from v bs) ≡ put_be k v ++ bs
unfolding get_be_from
put_be-get_be_from k v [] h = ap (λ (n : ℕ). put_be n v) (omega arith) ∙ sym (append-nil _)
put_be-get_be_from k v (x ∷ xs) h =
    ap (λ (n : ℕ). put_be n (get_be_from (v * 256 + x) xs)) (omega arith)
    ∙ put_be-get_be_from (suc k) (v * 256 + x) xs h.1
    ∙ ap (λ (l : List ℕ). l ++ xs) (put_be-snoc k v x h.0)
    ∙ append_assoc (put_be k v) (x ∷ []) xs

-- Writing again what was read gives the same bytes.
pub put_be-get_be : (k : ℕ) (bs : List ℕ) → AreBytes bs → length bs ≡ k → put_be k (get_be bs) ≡ bs
unfolding get_be put_be
put_be-get_be k bs h e =
    ap (λ (n : ℕ). put_be n (get_be_from 0 bs)) (let q : k ≡ length bs + 0 = omega arith in q)
    ∙ put_be-get_be_from 0 0 bs h

-- What was read is in range.
get_be_from-lt :
    (acc : ℕ) (bs : List ℕ) → AreBytes bs → get_be_from acc bs < (acc + 1) * 256 ^ length bs
unfolding get_be_from
get_be_from-lt acc [] h = omega arith
get_be_from-lt acc (x ∷ xs) h =
    let p = 256 ^ length xs in
    let q : acc * 256 + x + 1 ≤ (acc + 1) * 256 = omega (arith, h.0) in
    omega (
      arith,
      get_be_from-lt (acc * 256 + x) xs h.1,
      mul-le-mul_right p q,
      ap (λ (t : ℕ). (acc + 1) * t) (pow-suc 256 (length xs)),
    )

pub get_be-lt : (bs : List ℕ) → AreBytes bs → get_be bs < 256 ^ length bs
unfolding get_be
get_be-lt bs h = omega (arith, get_be_from-lt 0 bs h)
