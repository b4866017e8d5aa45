-- ===== src/Forward/Sessions/LogStore.antt =====
-- internal/storage/acl.go: the rows of the log of connections, one bucket for each user. A key, the time
-- with a uuid behind it, is a number in the order of its bytes; whether a transaction is committed is an
-- argument, and one that is not leaves the store as it was. JSON is left out, and with it its errors.
use go_port_forward.Base.{
  ℕ, ◌+◌, ◌-◌, ◌≡◌, ◌≤◌, ◌<◌, List, [], ◌∷◌, Option, none, some, Bool, true, ltb, ◌==◌,
  if◌then◌else◌, length, length-drop, drop, not, ◌||◌, arith, Bool-cases, ap, sym, subst, ◌∙◌, inl,
  inr,
}
use go_port_forward.Base.Keys.{Eq, Map, lookup, insert, lookup-insert}

-- `b.Put` of a key in a bucket, whose rows stand in the order of their keys.
unfoldable pub put_row : {E : Type 0} → (key : ℕ) → E → List (ℕ × E) → List (ℕ × E)
put_row key x [] = (key, x) ∷ []
put_row key x ((k, y) ∷ rows) =
    let rest = put_row key x rows in
    if ltb key k
    then (key, x) ∷ (k, y) ∷ rows
    else if key == k
    then (key, x) ∷ rows
    else (k, y) ∷ rest

-- The rows with the lowest keys go.
unfoldable pub trim_rows : {E : Type 0} → (max : ℕ) → List (ℕ × E) → List (ℕ × E)
trim_rows max rows = if ltb max (length rows) then drop (length rows - max) rows else rows

abbrev pub LogRows : Type 0 → Type 0 → Type 0
LogRows Str E = Map Str (List (ℕ × E))

unfoldable pub trim_all : {Str E : Type 0} → (max : ℕ) → LogRows Str E → LogRows Str E
trim_all max [] = []
trim_all max ((u, rows) ∷ s) = (u, trim_rows max rows) ∷ trim_all max s

unfoldable pub trim_conn_logs :
    {Str E : Type 0} → (committed : Bool) → (max : ℕ) → LogRows Str E → LogRows Str E
trim_conn_logs committed max s =
    if committed then trim_all (if max == 0 then 2000 else max) s else s

put_row-size :
    {E : Type 0} (key : ℕ) (x : E) (rows : List (ℕ × E))
    → length (put_row key x rows) ≤ length rows + 1
unfolding put_row
put_row-size key x [] = omega arith
put_row-size key x ((k, y) ∷ rows) = ground (arith, put_row-size key x rows)

trim_rows-size : {E : Type 0} (max : ℕ) (rows : List (ℕ × E)) → length (trim_rows max rows) ≤ max
unfolding trim_rows
trim_rows-size max rows = ground (arith, length-drop (length rows - max) rows)

module _ {Str E : Type 0} ⦃es : Eq Str⦄ where
  abbrev pub rows_of : Str → LogRows Str E → List (ℕ × E)
  rows_of u s = elim (lookup u s) [ none ↦ [] | some rows ↦ rows ]

  -- `user` is the user of the entry; an entry without one is not written.
  unfoldable pub append_conn_log :
      (empty : Str)
      → (committed : Bool) → (key : ℕ) → (user : Str) → E
      → LogRows Str E
      → Option (LogRows Str E)
  append_conn_log empty committed key user x s =
      if es.beq user empty || not committed
      then none
      else some (insert user (put_row key x (rows_of user s)) s)

  pub append-size :
      (empty : Str) (committed : Bool) (key : ℕ) (user : Str) (x : E) (s s' : LogRows Str E)
      (u : Str)
      → append_conn_log empty committed key user x s ≡ some s'
      → length (rows_of u s') ≤ length (rows_of u s) + 1
  unfolding append_conn_log
  append-size empty committed key user x s s' u h =
      let new : List (ℕ × E) = put_row key x (rows_of user s) in
      let put : s' ≡ insert user new s = ground (arith, h) in
      let q : lookup u s' ≡ (if es.beq user u then some new else lookup u s) =
        ap (lookup u) put ∙ lookup-insert user u new s in
      elim (Bool-cases (es.beq user u)) [
        | inl t ↦
            let own : rows_of u s' ≡ new = ground (arith, q, t) in
            let same : rows_of u s ≡ rows_of user s =
              ap (λ z. rows_of z s) (sym ((es.beq_iff user u).0 t)) in
            omega (arith, ap length own, ap length same, put_row-size key x (rows_of user s))
        | inr t ↦
            let other : rows_of u s' ≡ rows_of u s = ground (arith, q, t) in
            omega (arith, ap length other)
      ]

  trim_all-size :
      (max : ℕ) (s : LogRows Str E) (u : Str) → length (rows_of u (trim_all max s)) ≤ max
  unfolding trim_all lookup
  trim_all-size max [] u = omega arith
  trim_all-size max ((k, rows) ∷ s) u = elim (Bool-cases (es.beq k u)) [
    | inl t ↦
        let e : rows_of u (trim_all max ((k, rows) ∷ s)) ≡ trim_rows max rows = ground (arith, t) in
        omega (arith, ap length e, trim_rows-size max rows)
    | inr t ↦
        let e : rows_of u (trim_all max ((k, rows) ∷ s)) ≡ rows_of u (trim_all max s) =
          ground (arith, t) in
        omega (arith, ap length e, trim_all-size max s u)
  ]

  pub trim-size :
      (max : ℕ) (s : LogRows Str E) (u : Str)
      → 0 < max
      → length (rows_of u (trim_conn_logs true max s)) ≤ max
  unfolding trim_conn_logs
  trim-size max s u pos =
      let e : trim_conn_logs true max s ≡ trim_all max s = ground (arith, pos) in
      subst (λ z. length (rows_of u z) ≤ max) (sym e) (trim_all-size max s u)
