-- ===== src/Relay/Binding.antt =====
-- The identity provider and the binder of the relay over the access codes: Service.Identity,
-- BindDevice and MigrateDevice of internal/users/accesscode.go, and the conversion in main.go. Texts are
-- lists of bytes. The users, with their quotas, are an argument, as are the text of a code's id, the
-- label of a fingerprint, the text of an address and the clock.
use go_port_forward.Base.{
  ℕ, ◌≡◌, ◌↔◌, List, [], Option, none, some, Bool, true, false, arith, Bool-cases, Option-cases,
  inl, inr, refl, sym, ap, subst, ◌∙◌,
}
use go_port_forward.Base.Bytes.{bytes_eq, bytes_eq-eq, bytes_eq_refl}
use go_port_forward.Base.Keys.{Eq, lookup, insert, lookup-insert, beq_refl}
use go_port_forward.Base.Outcome.{Outcome, failed, done}
use go_port_forward.Codes.{CodeError, err_code_not_found, AccessCode}
use go_port_forward.Codes.Bucket.{Bucket, bind_device, migrate_device, bound, refreshed, migrated}
use go_port_forward.Codes.Devices.{bind-Holds}
use go_port_forward.Tunnel.Handshake.Accept.{Addr}
use go_port_forward.Relay.{Identity, Binder}

pub bytes_eq_iff : (a b : List ℕ) → (bytes_eq a b ≡ true) ↔ (a ≡ b)
bytes_eq_iff a b = (bytes_eq-eq a b, λ e. subst (λ x. bytes_eq a x ≡ true) e (bytes_eq_refl a))

instance abbrev pub text_eq : Eq (List ℕ)
text_eq = record { beq = bytes_eq; beq_iff = bytes_eq_iff }

-- A user's account; `none` is no bound on the tunnels.
pub record Account : Type 0 where
  pub account_id : List ℕ
  pub account_disabled : Bool
  pub account_tunnels : Option ℕ

-- Codes stand under their own ids.
abbrev pub IsKeyed : Bucket (List ℕ) → Type 0
IsKeyed b = (i : List ℕ) (c : AccessCode (List ℕ)) → lookup i b ≡ some c → c.id ≡ i

abbrev pub Store : Type 0
Store = (b : Bucket (List ℕ)) × IsKeyed b

pub insert-IsKeyed :
    (id : List ℕ) (c old : AccessCode (List ℕ)) (b : Bucket (List ℕ))
    → lookup id b ≡ some old
    → c.id ≡ old.id
    → IsKeyed b
    → IsKeyed (insert id c b)
insert-IsKeyed id c old b held same keyed i x h = elim (Bool-cases (bytes_eq id i)) [
  | inl t ↦
      let e : c ≡ x = ground (arith, h, t, lookup-insert id i c b) in
      ap (λ (y : AccessCode (List ℕ)). y.id) (sym e) ∙ same ∙ keyed id old held ∙ bytes_eq-eq id i t
  | inr t ↦ keyed i x (ground (arith, h, t, lookup-insert id i c b))
]

pub bind_device-IsKeyed :
    (id fp label : List ℕ) (at : ℕ) (addr : List ℕ) (b b' : Bucket (List ℕ))
    → bind_device [] id fp label at addr b ≡ done b'
    → IsKeyed b
    → IsKeyed b'
unfolding bind_device
bind_device-IsKeyed id fp label at addr b b' h keyed = elim (Option-cases (lookup id b)) [
  | inl n ↦ absurd (ground (arith, h, n))
  | inr (c, f) ↦
      let put : (new : AccessCode (List ℕ)) → new.id ≡ c.id → b' ≡ insert id new b → IsKeyed b' =
        λ new e g. subst IsKeyed (sym g) (insert-IsKeyed id new c b f e keyed) in
      elim (Bool-cases (bytes_eq c.device_fingerprint [])) [
        | inl t ↦ put (bound fp label at addr c) refl (ground (arith, h, f, t))
        | inr t ↦ elim (Bool-cases (bytes_eq c.device_fingerprint fp)) [
          | inl u ↦ put (refreshed at addr c) refl (ground (arith, h, f, t, u))
          | inr u ↦ absurd (ground (arith, h, f, t, u))
        ]
      ]
]

-- What a migration does.
pub data Move (id from to label : List ℕ) (at : ℕ) (addr : List ℕ) (b : Bucket (List ℕ))
    : Type 0 where
  missing :
      (e : CodeError)
      → migrate_device id from to label at addr b ≡ failed e
      → Move id from to label at addr b
  kept :
      migrate_device id from to label at addr b ≡ done (b, false) → Move id from to label at addr b
  moved :
      (c : AccessCode (List ℕ))
      → lookup id b ≡ some c
      → migrate_device id from to label at addr b
        ≡ done (insert id (migrated to label at addr c) b, true)
      → Move id from to label at addr b

pub move :
    (id from to label : List ℕ) (at : ℕ) (addr : List ℕ) (b : Bucket (List ℕ))
    → Move id from to label at addr b
unfolding migrate_device
move id from to label at addr b = elim (Option-cases (lookup id b)) [
  | inl n ↦ missing err_code_not_found (ground (arith, n))
  | inr (c, f) ↦ elim (Bool-cases (bytes_eq c.device_fingerprint from)) [
    | inl t ↦ moved c f (ground (arith, f, t))
    | inr t ↦ kept (ground (arith, f, t))
  ]
]

module _ (text_of : List ℕ → List ℕ) (account : List ℕ → Option Account) (ip_of : ℕ → Addr)
    (label_of : List ℕ → List ℕ) {AddrPort : Type 0} (text_of_addr : AddrPort → List ℕ)
    (at : ℕ) where
  -- Service.Identity, and its conversion.
  unfoldable pub identity_of : List ℕ → Store → Option (Identity (List ℕ))
  identity_of uid (b, keyed) = elim (lookup (text_of uid) b) [
    | none ↦ none
    | some c ↦ elim (account c.user_id) [
      | none ↦ none
      | some u ↦ elim c.tun_ip [
        | none ↦ none
        | some a ↦ some (record {
          code_id = c.id;
          user_id = u.account_id;
          secret = c.secret;
          tun_ip = some (ip_of a);
          code_disabled = c.disabled;
          user_disabled = u.account_disabled;
          fingerprint = c.device_fingerprint;
          max_tunnels = u.account_tunnels;
        })
      ]
    ]
  ]

  -- BindDevice: an error keeps the store.
  unfoldable pub bind_in :
      (id fp : List ℕ) (from : AddrPort) (d : Store) (o : Outcome CodeError (Bucket (List ℕ)))
      → bind_device [] id fp (label_of fp) at (text_of_addr from) d.0 ≡ o
      → Store × Bool
  bind_in id fp from d (failed e) h = (d, false)
  bind_in id fp from d (done b') h =
      ((b', bind_device-IsKeyed id fp (label_of fp) at (text_of_addr from) d.0 b' h d.1), true)

  -- MigrateDevice
  unfoldable pub migrate_in :
      (id old new : List ℕ) (from : AddrPort) (d : Store)
      → Move id old new (label_of new) at (text_of_addr from) d.0
      → Store × Bool
  migrate_in id old new from d (missing e h) = (d, false)
  migrate_in id old new from d (kept h) = (d, false)
  migrate_in id old new from d (moved c f h) = (
    (
      insert id (migrated new (label_of new) at (text_of_addr from) c) d.0,
      insert-IsKeyed id (migrated new (label_of new) at (text_of_addr from) c) c d.0 f refl d.1,
    ),
    true,
  )

  abbrev pub held_by_code : List ℕ → Store → List ℕ
  held_by_code id (b, keyed) = elim (lookup id b) [ none ↦ [] | some c ↦ c.device_fingerprint ]

  pub identity_of-bound :
      (uid : List ℕ) (d : Store) (i : Identity (List ℕ))
      → identity_of uid d ≡ some i
      → i.fingerprint ≡ held_by_code i.code_id d
  unfolding identity_of
  identity_of-bound uid (b, keyed) i h = elim (Option-cases (lookup (text_of uid) b)) [
    | inl n ↦ absurd (ground (arith, h, n))
    | inr (c, f) ↦ elim (Option-cases (account c.user_id)) [
      | inl n ↦ absurd (ground (arith, h, f, n))
      | inr (u, g) ↦ elim (Option-cases c.tun_ip) [
        | inl n ↦ absurd (ground (arith, h, f, g, n))
        | inr (a, q) ↦
            let fp : i.fingerprint ≡ c.device_fingerprint = ground (arith, h, f, g, q) in
            let own : i.code_id ≡ c.id = ground (arith, h, f, g, q) in
            let here : lookup i.code_id b ≡ some c =
              subst (λ x. lookup x b ≡ some c) (sym (own ∙ keyed (text_of uid) c f)) f in
            ground (arith, fp, here)
      ]
    ]
  ]

  pub bind_in-ok :
      (id fp : List ℕ) (from : AddrPort) (d : Store) (o : Outcome CodeError (Bucket (List ℕ)))
      (h : bind_device [] id fp (label_of fp) at (text_of_addr from) d.0 ≡ o)
      → (bind_in id fp from d o h).1 ≡ true
      → held_by_code id (bind_in id fp from d o h).0 ≡ fp
  unfolding bind_in
  bind_in-ok id fp from d (failed e) h t = absurd (cc t)
  bind_in-ok id fp from d (done b') h t =
      let (c, f, g) = bind-Holds [] id fp (label_of fp) at (text_of_addr from) d.0 b' h in
      ground (arith, f, g)

  pub migrate_in-ok :
      (id old new : List ℕ) (from : AddrPort) (d : Store)
      (v : Move id old new (label_of new) at (text_of_addr from) d.0)
      → (migrate_in id old new from d v).1 ≡ true
      → held_by_code id (migrate_in id old new from d v).0 ≡ new
  unfolding migrate_in
  migrate_in-ok id old new from d (missing e h) t = absurd (cc t)
  migrate_in-ok id old new from d (kept h) t = absurd (cc t)
  migrate_in-ok id old new from d (moved c f h) t =
      let new_code : AccessCode (List ℕ) = migrated new (label_of new) at (text_of_addr from) c in
      ground (arith, lookup-insert id id new_code d.0, beq_refl text_eq id)

  pub migrate_in-no :
      (id old new : List ℕ) (from : AddrPort) (d : Store)
      (v : Move id old new (label_of new) at (text_of_addr from) d.0)
      → (migrate_in id old new from d v).1 ≡ false
      → held_by_code id (migrate_in id old new from d v).0 ≡ held_by_code id d
  unfolding migrate_in
  migrate_in-no id old new from d (missing e h) t = refl
  migrate_in-no id old new from d (kept h) t = refl
  migrate_in-no id old new from d (moved c f h) t = absurd (cc t)

  -- The access codes fill the relay's interface.
  unfoldable pub code_binder : Binder (List ℕ) AddrPort Store
  code_binder = record {
    identity = identity_of;
    bind_device = λ id fp from d.
        bind_in id fp from d (bind_device [] id fp (label_of fp) at (text_of_addr from) d.0) refl;
    migrate_device = λ id old new from d.
        migrate_in id old new from d (move id old new (label_of new) at (text_of_addr from) d.0);
    bound_to = held_by_code;
    identity_bound = identity_of-bound;
    bind_device_ok = λ id fp from d.
        bind_in-ok id fp from d (bind_device [] id fp (label_of fp) at (text_of_addr from) d.0)
          refl;
    migrate_device_ok = λ id old new from d.
        migrate_in-ok id old new from d (move id old new (label_of new) at (text_of_addr from) d.0);
    migrate_device_no = λ id old new from d.
        migrate_in-no id old new from d (move id old new (label_of new) at (text_of_addr from) d.0);
  }
