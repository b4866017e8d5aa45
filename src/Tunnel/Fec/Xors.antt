-- ===== src/Tunnel/Fec/Xors.antt =====
-- Exclusive or of many frames, byte by byte.
use go_port_forward.Base.{
  ℕ, suc, ◌≡◌, ◌≤◌, ◌<◌, refl, sym, ap, ◌∙◌, List, [], ◌∷◌, ◌++◌, length, get_or, drop, arith,
  bit_xor,
}
use go_port_forward.Base.Xor.{
  xor_into, length-xor_into, get_or-xor_into, bit_xor_comm, bit_xor_assoc, bit_xor_self,
  bit_xor-zero, zero-bit_xor,
}

unfoldable pub xor_all : List ℕ → List (List ℕ) → List ℕ
xor_all acc [] = acc
xor_all acc (f ∷ fs) = xor_all (xor_into acc f) fs

-- No frame is longer than `n`.
abbrev pub Fit : ℕ → List (List ℕ) → Type 0
Fit n [] = Unit {0}
Fit n (f ∷ fs) = (length f ≤ n) × Fit n fs

pub Fit-append : (n : ℕ) (fs gs : List (List ℕ)) → Fit n fs → Fit n gs → Fit n (fs ++ gs)
Fit-append n [] gs h k = k
Fit-append n (f ∷ fs) gs h k = (h.0, Fit-append n fs gs h.1 k)

pub length-xor_all : (acc : List ℕ) (fs : List (List ℕ)) → length (xor_all acc fs) ≡ length acc
unfolding xor_all
length-xor_all acc [] = refl
length-xor_all acc (f ∷ fs) = length-xor_all (xor_into acc f) fs ∙ length-xor_into acc f

-- The exclusive or of byte `i` of the frames.
unfoldable pub column : ℕ → List (List ℕ) → ℕ
column i [] = 0
column i (f ∷ fs) = bit_xor (get_or f i 0) (column i fs)

pub get_or-xor_all :
    (acc : List ℕ) (fs : List (List ℕ)) (i : ℕ)
    → Fit (length acc) fs
    → get_or (xor_all acc fs) i 0 ≡ bit_xor (get_or acc i 0) (column i fs)
unfolding xor_all column
get_or-xor_all acc [] i h = sym (bit_xor-zero (get_or acc i 0))
get_or-xor_all acc (f ∷ fs) i h =
    get_or-xor_all (xor_into acc f) fs i (rw (length-xor_into acc f) h.1)
    ∙ ap (λ (t : ℕ). bit_xor t (column i fs)) (get_or-xor_into acc f i h.0)
    ∙ bit_xor_assoc (get_or acc i 0) (get_or f i 0) (column i fs)

pub column-append :
    (i : ℕ) (fs gs : List (List ℕ)) → column i (fs ++ gs) ≡ bit_xor (column i fs) (column i gs)
unfolding column
column-append i [] gs = sym (zero-bit_xor (column i gs))
column-append i (f ∷ fs) gs =
    ap (bit_xor (get_or f i 0)) (column-append i fs gs)
    ∙ sym (bit_xor_assoc (get_or f i 0) (column i fs) (column i gs))

bit_xor_cancel : (a b : ℕ) → bit_xor (bit_xor a b) b ≡ a
bit_xor_cancel a b = bit_xor_assoc a b b ∙ ap (bit_xor a) (bit_xor_self b) ∙ bit_xor-zero a

bit_xor_right_comm : (a b c : ℕ) → bit_xor (bit_xor a b) c ≡ bit_xor (bit_xor a c) b
bit_xor_right_comm a b c =
    bit_xor_assoc a b c ∙ ap (bit_xor a) (bit_xor_comm b c) ∙ sym (bit_xor_assoc a c b)

-- Taking all parts but one out of a sum leaves that one.
pub bit_xor_gap : (p m q : ℕ) → bit_xor (bit_xor (bit_xor p (bit_xor m q)) p) q ≡ m
bit_xor_gap p m q =
    ap (λ (t : ℕ). bit_xor (bit_xor t p) q) (bit_xor_comm p (bit_xor m q))
    ∙ ap (λ (t : ℕ). bit_xor t q) (bit_xor_cancel (bit_xor m q) p)
    ∙ bit_xor_cancel m q

-- A string that agrees with a shorter one on its length begins with it.
pub eq_append_of_get_or :
    (xs ys : List ℕ)
    → length ys ≤ length xs
    → ((i : ℕ) → i < length ys → get_or xs i 0 ≡ get_or ys i 0)
    → xs ≡ ys ++ drop (length ys) xs
eq_append_of_get_or xs [] h e = refl
eq_append_of_get_or [] (y ∷ ys) h e = absurd (omega arith)
eq_append_of_get_or (x ∷ xs) (y ∷ ys) h e =
    ap (λ (z : ℕ). z ∷ xs) (e 0 (omega arith))
    ∙ ap (◌∷◌ y) (eq_append_of_get_or xs ys (omega arith) (λ i lt. e (suc i) (omega arith)))
