-- ===== src/Codes/Devices.antt =====
-- internal/storage/accesscode.go: the device that a code is bound to, and RegenerateSecret of
-- internal/users/accesscode.go, which reads a code in one transaction and saves it in another.
use go_port_forward.Base.{
  ℕ, ◌≡◌, ◌≢◌, List, [], ◌∷◌, some, Bool, true, ◌&&◌, if◌then◌else◌, arith, Bool-cases,
  Option-cases, inl, inr, refl, ap, sym, subst,
}
use go_port_forward.Base.Keys.{Eq, lookup, insert, lookup-insert, beq_refl}
use go_port_forward.Base.Outcome.{failed, done}
use go_port_forward.Codes.{err_device_mismatch, AccessCode}
use go_port_forward.Codes.Bucket.{
  Bucket, bind_device, migrate_device, touch_access_code, bound, refreshed, migrated, seen,
}

-- What a connecting client makes the relay do.
pub data DeviceOp (Str : Type 0) : Type 0 where
  binds : (id fp label : Str) (at : ℕ) (addr : Str) → DeviceOp Str
  migrates : (id from to label : Str) (at : ℕ) (addr : Str) → DeviceOp Str
  touches : (id : Str) (at : ℕ) (addr : Str) → DeviceOp Str

module _ {Str : Type 0} ⦃es : Eq Str⦄ (empty : Str) where
  -- A transaction that fails changes nothing.
  unfoldable pub run_op : DeviceOp Str → Bucket Str → Bucket Str
  run_op (binds id fp label at addr) b = elim (bind_device empty id fp label at addr b) [
    | failed e ↦ b
    | done b' ↦ b'
  ]
  run_op (migrates id from to label at addr) b = elim (migrate_device id from to label at addr b) [
    | failed e ↦ b
    | done r ↦ r.0
  ]
  run_op (touches id at addr) b = elim (touch_access_code id at addr b) [
    | failed e ↦ b
    | done b' ↦ b'
  ]

  unfoldable pub run_ops : List (DeviceOp Str) → Bucket Str → Bucket Str
  run_ops [] b = b
  run_ops (op ∷ ops) b = run_ops ops (run_op op b)

  -- The operation does not carry the code `id` over from the device `fp` to another.
  unfoldable pub keeps : Str → Str → DeviceOp Str → Bool
  keeps id fp (migrates j from to label at addr) =
      if es.beq j id then if es.beq from fp then es.beq to fp else true else true
  keeps id fp (binds j fp' label at addr) = true
  keeps id fp (touches j at addr) = true

  unfoldable pub all_keep : Str → Str → List (DeviceOp Str) → Bool
  all_keep id fp [] = true
  all_keep id fp (op ∷ ops) = keeps id fp op && all_keep id fp ops

  abbrev pub Holds : Str → Str → Bucket Str → Type 0
  Holds id fp b = (c : AccessCode Str) × (lookup id b ≡ some c) × (c.device_fingerprint ≡ fp)

  put-Holds :
      (id fp j : Str) (new : AccessCode Str) (b : Bucket Str)
      → (es.beq j id ≡ true → new.device_fingerprint ≡ fp)
      → Holds id fp b
      → Holds id fp (insert j new b)
  put-Holds id fp j new b same (c, f, d) = elim (Bool-cases (es.beq j id)) [
    | inl t ↦ (new, ground (arith, lookup-insert j id new b, t), same t)
    | inr t ↦ (c, ground (arith, lookup-insert j id new b, t, f), d)
  ]

  held_by :
      (id fp j : Str) (c old : AccessCode Str) (b : Bucket Str)
      → lookup id b ≡ some c
      → c.device_fingerprint ≡ fp
      → lookup j b ≡ some old
      → es.beq j id ≡ true
      → old.device_fingerprint ≡ fp
  held_by id fp j c old b f d g t =
      let same : old ≡ c = ground (arith, f, g, t, es.beq_iff j id) in
      cc (d, ap (λ r. r.device_fingerprint) same)

  run_op-Holds :
      (id fp : Str) (op : DeviceOp Str) (b : Bucket Str)
      → fp ≢ empty
      → keeps id fp op ≡ true
      → Holds id fp b
      → Holds id fp (run_op op b)
  unfolding run_op keeps bind_device migrate_device touch_access_code
  run_op-Holds id fp (binds j fp' label at addr) b ne k (c, f, d) =
      let out : Bucket Str = run_op (binds j fp' label at addr) b in
      let settle : (b' : Bucket Str) → out ≡ b' → Holds id fp b' → Holds id fp out =
        λ b' e h. subst (Holds id fp) (sym e) h in
      elim (Option-cases (lookup j b)) [
        | inl n ↦ settle b (ground (arith, n)) (c, f, d)
        | inr (old, g) ↦
            let own = held_by id fp j c old b f d g in
            elim (Bool-cases (es.beq old.device_fingerprint empty)) [
              | inl t ↦ settle (insert j (bound fp' label at addr old) b) (ground (arith, g, t)) (
                  put-Holds id fp j (bound fp' label at addr old) b
                    (λ m. absurd (ne (cc (own m, (es.beq_iff old.device_fingerprint empty).0 t))))
                    (c, f, d))
              | inr t ↦ elim (Bool-cases (es.beq old.device_fingerprint fp')) [
                | inl u ↦
                    settle (insert j (refreshed at addr old) b) (ground (arith, g, t, u))
                      (put-Holds id fp j (refreshed at addr old) b own (c, f, d))
                | inr u ↦ settle b (ground (arith, g, t, u)) (c, f, d)
              ]
            ]
      ]
  run_op-Holds id fp (migrates j from to label at addr) b ne k (c, f, d) =
      let out : Bucket Str = run_op (migrates j from to label at addr) b in
      let settle : (b' : Bucket Str) → out ≡ b' → Holds id fp b' → Holds id fp out =
        λ b' e h. subst (Holds id fp) (sym e) h in
      elim (Option-cases (lookup j b)) [
        | inl n ↦ settle b (ground (arith, n)) (c, f, d)
        | inr (old, g) ↦
            let own = held_by id fp j c old b f d g in
            elim (Bool-cases (es.beq old.device_fingerprint from)) [
              | inl t ↦ settle (insert j (migrated to label at addr old) b) (ground (arith, g, t)) (
                  put-Holds id fp j (migrated to label at addr old) b
                    (λ m. ground (
                      arith,
                      own m,
                      k,
                      m,
                      t,
                      es.beq_iff from fp,
                      es.beq_iff to fp,
                      es.beq_iff old.device_fingerprint from,
                    ))
                    (c, f, d))
              | inr t ↦ settle b (ground (arith, g, t)) (c, f, d)
            ]
      ]
  run_op-Holds id fp (touches j at addr) b ne k (c, f, d) =
      let out : Bucket Str = run_op (touches j at addr) b in
      let settle : (b' : Bucket Str) → out ≡ b' → Holds id fp b' → Holds id fp out =
        λ b' e h. subst (Holds id fp) (sym e) h in
      elim (Option-cases (lookup j b)) [
        | inl n ↦ settle b (ground (arith, n)) (c, f, d)
        | inr (old, g) ↦
            settle (insert j (seen at addr old) b) (ground (arith, g))
              (put-Holds id fp j (seen at addr old) b (held_by id fp j c old b f d g) (c, f, d))
      ]

  run_ops-Holds :
      (id fp : Str) (ops : List (DeviceOp Str)) (b : Bucket Str)
      → fp ≢ empty
      → all_keep id fp ops ≡ true
      → Holds id fp b
      → Holds id fp (run_ops ops b)
  unfolding run_ops all_keep
  run_ops-Holds id fp [] b ne k h = h
  run_ops-Holds id fp (op ∷ ops) b ne k h =
      run_ops-Holds id fp ops (run_op op b) ne (ground (arith, k))
        (run_op-Holds id fp op b ne (ground (arith, k)) h)

  pub bind-Holds :
      (id fp label : Str) (at : ℕ) (addr : Str) (b b' : Bucket Str)
      → bind_device empty id fp label at addr b ≡ done b'
      → Holds id fp b'
  unfolding bind_device
  bind-Holds id fp label at addr b b' h =
      let settle : (b₁ : Bucket Str) → b' ≡ b₁ → Holds id fp b₁ → Holds id fp b' =
        λ b₁ e g. subst (Holds id fp) (sym e) g in
      let put : (new : AccessCode Str)
          → new.device_fingerprint ≡ fp
          → Holds id fp (insert id new b) =
        λ new e. (new, ground (arith, lookup-insert id id new b, beq_refl es id), e) in
      elim (Option-cases (lookup id b)) [
        | inl n ↦ absurd (ground (arith, h, n))
        | inr (c, f) ↦ elim (Bool-cases (es.beq c.device_fingerprint empty)) [
          | inl t ↦
              settle (insert id (bound fp label at addr c) b) (ground (arith, h, f, t))
                (put (bound fp label at addr c) refl)
          | inr t ↦ elim (Bool-cases (es.beq c.device_fingerprint fp)) [
            | inl u ↦
                settle (insert id (refreshed at addr c) b) (ground (arith, h, f, t, u))
                  (put (refreshed at addr c) ((es.beq_iff c.device_fingerprint fp).0 u))
            | inr u ↦ absurd (ground (arith, h, f, t, u))
          ]
        ]
      ]

  other_refused :
      (id fp fp' label : Str) (at : ℕ) (addr : Str) (b : Bucket Str) (c : AccessCode Str)
      → fp ≢ empty
      → fp' ≢ fp
      → lookup id b ≡ some c
      → c.device_fingerprint ≡ fp
      → bind_device empty id fp' label at addr b ≡ failed err_device_mismatch
  unfolding bind_device
  other_refused id fp fp' label at addr b c ne other f d =
      elim (Bool-cases (es.beq c.device_fingerprint empty)) [
        | inl t ↦ absurd (ne (cc (d, (es.beq_iff c.device_fingerprint empty).0 t)))
        | inr t ↦ elim (Bool-cases (es.beq c.device_fingerprint fp')) [
          | inl u ↦ absurd (other (cc (d, (es.beq_iff c.device_fingerprint fp').0 u)))
          | inr u ↦ ground (arith, f, t, u)
        ]
      ]

  -- Once a device with a fingerprint that is not empty was bound to a code, another device is
  -- refused, whatever clients bind, migrate and touch in between, unless a migration takes the
  -- code from this fingerprint to another.
  pub run_ops-exclusive :
      (id fp fp' label label' : Str) (at at' : ℕ) (addr addr' : Str) (ops : List (DeviceOp Str))
      (b b' : Bucket Str)
      → fp ≢ empty
      → bind_device empty id fp label at addr b ≡ done b'
      → all_keep id fp ops ≡ true
      → fp' ≢ fp
      → bind_device empty id fp' label' at' addr' (run_ops ops b') ≡ failed err_device_mismatch
  run_ops-exclusive id fp fp' label label' at at' addr addr' ops b b' ne h k other =
      let last = run_ops-Holds id fp ops b' ne k (bind-Holds id fp label at addr b b' h) in
      other_refused id fp fp' label' at' addr' (run_ops ops b') last.0 ne other last.1 last.2
