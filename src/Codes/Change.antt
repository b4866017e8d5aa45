-- ===== src/Codes/Change.antt =====
-- internal/storage/accesscode.go: what a transaction does to the users and the addresses in the bucket.
use go_port_forward.Base.{
  ℕ, ◌≡◌, ◌<◌, List, [], ◌∷◌, Option, none, some, Bool, true, false, ◌&&◌, ◌||◌, ltb, leb, arith,
  Bool-cases, Option-cases, inl, inr, refl, subst,
}
use go_port_forward.Base.Keys.{Eq, lookup, insert}
use go_port_forward.Base.Outcome.{Outcome-cases, done}
use go_port_forward.Codes.{AccessCode, Prefix, masked, last_addr, elem, is_gateway}
use go_port_forward.Codes.Alloc.{is_free, alloc_tun_ip-least}
use go_port_forward.Codes.Bucket.{
  Bucket, used_ips, taken_ips, count_codes, place_code, create_access_code, save_access_code,
  delete_access_code, remove_all, bind_device, unbind_device, migrate_device, touch_access_code,
  stamped, seen, bound, refreshed, unbound, migrated,
}

is_free-taken_ips :
    {Str : Type 0} ⦃es : Eq Str⦄ (gateway : Option ℕ) (a : ℕ) (b : Bucket Str)
    → is_free gateway (taken_ips gateway b) a ≡ true
    → elem a (used_ips b) ≡ false
unfolding elem
is_free-taken_ips none a b h = ground (arith, h)
is_free-taken_ips (some g) a b h = ground (arith, h)

module _ {Str : Type 0} ⦃es : Eq Str⦄ (empty : Str) (pool : Prefix) (gateway : Option ℕ)
    (max_codes : ℕ) where
  -- What a transaction on the codes does to the bucket: it puts a record with the same user and address
  -- in place of another, adds one, or removes some.
  pub data Change (b : Bucket Str) : Bucket Str → Type 0 where
    same : Change b b
    rewrites :
        (id : Str) (old new : AccessCode Str)
        → lookup id b ≡ some old
        → new.tun_ip ≡ old.tun_ip
        → new.user_id ≡ old.user_id
        → Change b (insert id new b)
    adds :
        (new : AccessCode Str) (a : ℕ)
        → new.tun_ip ≡ some a
        → elem a (used_ips b) ≡ false
        → (masked pool < a) × (a < last_addr pool) × (is_gateway gateway a ≡ false)
        → (0 < max_codes → count_codes new.user_id b < max_codes)
        → Change b (insert new.id new b)
    drops : (ks : List Str) → Change b (remove_all ks b)

  abbrev pub into : {b b₁ b₂ : Bucket Str} → b₁ ≡ b₂ → Change b b₁ → Change b b₂
  into {b} e = subst (Change b) e

  pub bind-Change :
      (id fp label : Str) (at : ℕ) (addr : Str) (b b' : Bucket Str)
      → bind_device empty id fp label at addr b ≡ done b'
      → Change b b'
  unfolding bind_device
  bind-Change id fp label at addr b b' h = elim (Option-cases (lookup id b)) [
    | inl n ↦ absurd (ground (arith, h, n))
    | inr (c, f) ↦ elim (Bool-cases (es.beq c.device_fingerprint empty)) [
      | inl t ↦
          into (ground (arith, h, f, t)) (rewrites id c (bound fp label at addr c) f refl refl)
      | inr t ↦ elim (Bool-cases (es.beq c.device_fingerprint fp)) [
        | inl u ↦
            into (ground (arith, h, f, t, u)) (rewrites id c (refreshed at addr c) f refl refl)
        | inr u ↦ absurd (ground (arith, h, f, t, u))
      ]
    ]
  ]

  pub unbind-Change :
      (id : Str) (now : ℕ) (label : Str) (b b' : Bucket Str)
      → unbind_device empty id now b ≡ done (b', label)
      → Change b b'
  unfolding unbind_device
  unbind-Change id now label b b' h = elim (Option-cases (lookup id b)) [
    | inl n ↦ absurd (ground (arith, h, n))
    | inr (c, f) ↦ into (ground (arith, h, f)) (rewrites id c (unbound empty now c) f refl refl)
  ]

  pub migrate-Change :
      (id from to label : Str) (at : ℕ) (addr : Str) (ok : Bool) (b b' : Bucket Str)
      → migrate_device id from to label at addr b ≡ done (b', ok)
      → Change b b'
  unfolding migrate_device
  migrate-Change id from to label at addr ok b b' h = elim (Option-cases (lookup id b)) [
    | inl n ↦ absurd (ground (arith, h, n))
    | inr (c, f) ↦ elim (Bool-cases (es.beq c.device_fingerprint from)) [
      | inl t ↦
          into (ground (arith, h, f, t)) (rewrites id c (migrated to label at addr c) f refl refl)
      | inr t ↦ into (ground (arith, h, f, t)) same
    ]
  ]

  pub touch-Change :
      (id : Str) (at : ℕ) (addr : Str) (b b' : Bucket Str)
      → touch_access_code id at addr b ≡ done b'
      → Change b b'
  unfolding touch_access_code
  touch-Change id at addr b b' h = elim (Option-cases (lookup id b)) [
    | inl n ↦ absurd (ground (arith, h, n))
    | inr (c, f) ↦ into (ground (arith, h, f)) (rewrites id c (seen at addr c) f refl refl)
  ]

  pub delete-Change :
      (id : Str) (b b' : Bucket Str) → delete_access_code id b ≡ done b' → Change b b'
  unfolding delete_access_code remove_all
  delete-Change id b b' h = elim (Option-cases (lookup id b)) [
    | inl n ↦ absurd (ground (arith, h, n))
    | inr (c, f) ↦ into (ground (arith, h, f)) (drops (id ∷ []))
  ]

  pub save-Change :
      (c old : AccessCode Str) (now : ℕ) (b b' : Bucket Str)
      → lookup c.id b ≡ some old
      → c.tun_ip ≡ old.tun_ip
      → c.user_id ≡ old.user_id
      → save_access_code empty c now b ≡ done b'
      → Change b b'
  unfolding save_access_code
  save-Change c old now b b' f ip user h = elim (Bool-cases (es.beq c.id empty)) [
    | inl t ↦ absurd (ground (arith, h, t))
    | inr t ↦
        into (ground (arith, h, f, t)) (rewrites c.id old (record c { updated_at = now }) f ip user)
  ]

  place_code-fresh :
      (c : AccessCode Str) (a : ℕ) (b : Bucket Str)
      → c.tun_ip ≡ none
      → place_code c (some pool) gateway b ≡ done a
      → (elem a (used_ips b) ≡ false)
        × (masked pool < a)
        × (a < last_addr pool)
        × (is_gateway gateway a ≡ false)
  unfolding place_code elem
  place_code-fresh c a b no_ip h =
      let r =
        (alloc_tun_ip-least pool gateway (taken_ips gateway b)).0 a (ground (arith, h, no_ip)) in
      let free : is_free gateway (taken_ips gateway b) a ≡ true = r.2 in
      (is_free-taken_ips gateway a b free, r.0, r.1, ground (arith, free))

  pub create-Change :
      (c c' : AccessCode Str) (now : ℕ) (b b' : Bucket Str)
      → c.tun_ip ≡ none
      → create_access_code empty c (some pool) gateway max_codes now b ≡ done (b', c')
      → Change b b'
  unfolding create_access_code
  create-Change c c' now b b' no_ip h =
      elim (Bool-cases (es.beq c.id empty || es.beq c.user_id empty)) [
        | inl t ↦ absurd (ground (arith, h, t))
        | inr t ↦ elim (Bool-cases (ltb 0 max_codes && leb max_codes (count_codes c.user_id b))) [
          | inl q ↦ absurd (ground (arith, h, t, q))
          | inr q ↦ elim (Outcome-cases (place_code c (some pool) gateway b)) [
            | inl (e, f) ↦ absurd (ground (arith, h, t, q, f))
            | inr (a, f) ↦
                let r = place_code-fresh c a b no_ip f in
                into (ground (arith, h, t, q, f)) (
                  adds (stamped a now c) a refl r.0 (r.1, r.2, r.3) (λ pos. ground (arith, q, pos)))
          ]
        ]
      ]
