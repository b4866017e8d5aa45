-- ===== src/Codes/Races.antt =====
-- internal/users/accesscode.go: a save of RegenerateSecret with other transactions between its read and
-- its write.
use go_port_forward.Base.{ℕ, ◌≡◌, some, arith, Bool-cases, Option-cases, inl, inr, sym, subst, ◌∙◌}
use go_port_forward.Base.Keys.{Eq, lookup, insert, lookup-insert, beq_refl}
use go_port_forward.Base.Outcome.{Outcome-cases, done}
use go_port_forward.Codes.{AccessCode}
use go_port_forward.Codes.Bucket.{Bucket, get_access_code, save_access_code, bind_device, bound}
use go_port_forward.Codes.Service.{Changed, save_secret}

module _ {Str : Type 0} ⦃es : Eq Str⦄ (empty : Str) where
  save_access_code-bucket :
      (c : AccessCode Str) (now : ℕ) (b b' : Bucket Str)
      → save_access_code empty c now b ≡ done b'
      → b' ≡ insert c.id (record c { updated_at = now }) b
  unfolding save_access_code
  save_access_code-bucket c now b b' h = elim (Bool-cases (es.beq c.id empty)) [
    | inl t ↦ absurd (ground (arith, h, t))
    | inr t ↦ elim (Option-cases (lookup c.id b)) [
      | inl n ↦ absurd (ground (arith, h, t, n))
      | inr (old, f) ↦ ground (arith, h, t, f)
    ]
  ]

  bind-unbound :
      (id fp label : Str) (at : ℕ) (addr : Str) (b : Bucket Str) (c : AccessCode Str)
      → lookup id b ≡ some c
      → c.device_fingerprint ≡ empty
      → bind_device empty id fp label at addr b ≡ done (insert id (bound fp label at addr c) b)
  unfolding bind_device
  bind-unbound id fp label at addr b c f u =
      ground (arith, f, u, es.beq_iff c.device_fingerprint empty)

  -- Where RegenerateSecret read a code that is not bound, a device is bound, and RegenerateSecret
  -- then saves: the next device to come, whichever it is, is bound without an error.
  pub save_secret-forgets_device :
      (fp fp' label label' secret : Str) (at at' now : ℕ) (addr addr' : Str) (b b' : Bucket Str)
      (c : AccessCode Str) (s : Changed Str)
      → get_access_code c.id b ≡ done c
      → c.device_fingerprint ≡ empty
      → bind_device empty c.id fp label at addr b ≡ done b'
      → save_secret empty secret c now b' ≡ done s
      → (r : Bucket Str) × (bind_device empty c.id fp' label' at' addr' s.bucket ≡ done r)
  unfolding save_secret
  save_secret-forgets_device fp fp' label label' secret at at' now addr addr' b b' c s h unbound_yet
        h1 h2 =
      let c' : AccessCode Str = record c { secret = secret } in
      let new : AccessCode Str = record c' { updated_at = now } in
      elim (Outcome-cases (save_access_code empty c' now b')) [
        | inl (e, f) ↦ absurd (ground (arith, h2, f))
        | inr (b₁, f) ↦
            let put : b₁ ≡ insert c.id new b' = save_access_code-bucket c' now b' b₁ f in
            let last : s.bucket ≡ b₁ = ground (arith, h2, f) in
            let found : lookup c.id s.bucket ≡ some new =
              subst (λ t. lookup c.id t ≡ some new) (sym (last ∙ put))
                (ground (arith, lookup-insert c.id c.id new b', beq_refl es c.id)) in
            (
              insert c.id (bound fp' label' at' addr' new) s.bucket,
              bind-unbound c.id fp' label' at' addr' s.bucket new found unbound_yet,
            )
      ]
