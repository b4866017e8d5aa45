-- ===== src/Codes/Service.antt =====
-- internal/users/accesscode.go: what the service does with access codes over the store. Where a
-- method ends the live tunnel of a code, `evicts` names that code. The random secret is an argument, and
-- the logs are left out.
use go_port_forward.Base.{
  ℕ, List, [], ◌∷◌, Option, none, some, Bool, true, false, ◌&&◌, not, ltb, ◌==◌, if◌then◌else◌,
}
use go_port_forward.Base.Keys.{Eq, nat_eq, Map, insert}
use go_port_forward.Base.Outcome.{Outcome, failed, done}
use go_port_forward.Codes.{CodeError, err_invalid_name, AccessCode}
use go_port_forward.Codes.Bucket.{
  Bucket, list_codes, list_by_user, get_access_code, save_access_code, delete_access_code,
  unbind_device,
}

-- The bucket after a call, the code that the caller gets, and the code whose tunnel ends.
pub record Changed (Str : Type 0) : Type 0 where
  pub bucket : Bucket Str
  pub code : AccessCode Str
  pub evicts : Option Str

module _ {Str : Type 0} ⦃es : Eq Str⦄ (empty : Str) where
  -- The second transaction of RegenerateSecret, for the code `c` that the first one read.
  unfoldable pub save_secret :
      (secret : Str) → AccessCode Str → (now : ℕ) → Bucket Str → Outcome CodeError (Changed Str)
  save_secret secret c now b =
      let c' = record c { secret = secret } in
      elim (save_access_code empty c' now b) [
        | failed e ↦ failed e
        | done b' ↦
            done (record { bucket = b'; code = record c' { updated_at = now }; evicts = some c.id })
      ]

  unfoldable pub regenerate_secret :
      (id secret : Str) → (now : ℕ) → Bucket Str → Outcome CodeError (Changed Str)
  regenerate_secret id secret now b = elim (get_access_code id b) [
    | failed e ↦ failed e
    | done c ↦ save_secret secret c now b
  ]

  -- `trim` is strings.TrimSpace, and `size` the number of bytes of a text.
  unfoldable pub validate_access_code_name : (size : Str → ℕ) → Str → Outcome CodeError Str
  validate_access_code_name size name =
      if size name == 0
      then failed err_invalid_name
      else if ltb 64 (size name)
      then failed err_invalid_name
      else done name

  unfoldable pub new_name :
      (trim : Str → Str) → (size : Str → ℕ) → Option Str → Str → Outcome CodeError Str
  new_name trim size none old = done old
  new_name trim size (some name) old = validate_access_code_name size (trim name)

  abbrev pub new_disabled : Option Bool → Bool → Bool
  new_disabled none old = old
  new_disabled (some d) old = d

  -- The second transaction of UpdateAccessCode, for the code `c` that the first one read.
  unfoldable pub save_update :
      (trim : Str → Str)
      → (size : Str → ℕ) → (name : Option Str) → (disable : Option Bool) → AccessCode Str
      → (now : ℕ) → Bucket Str
      → Outcome CodeError (Changed Str)
  save_update trim size name disable c now b = elim (new_name trim size name c.name) [
    | failed e ↦ failed e
    | done n ↦
        let d = new_disabled disable c.disabled in
        let c' : AccessCode Str = record c { name = n; disabled = d } in
        elim (save_access_code empty c' now b) [
          | failed e ↦ failed e
          | done b' ↦ done (record {
            bucket = b';
            code = record c' { updated_at = now };
            evicts = if d && not c.disabled then some c.id else none;
          })
        ]
  ]

  unfoldable pub update_access_code :
      (trim : Str → Str)
      → (size : Str → ℕ) → (id : Str) → (name : Option Str) → (disable : Option Bool) → (now : ℕ)
      → Bucket Str
      → Outcome CodeError (Changed Str)
  update_access_code trim size id name disable now b = elim (get_access_code id b) [
    | failed e ↦ failed e
    | done c ↦ save_update trim size name disable c now b
  ]

  unfoldable pub remove_access_code : Str → Bucket Str → Outcome CodeError (Changed Str)
  remove_access_code id b = elim (get_access_code id b) [
    | failed e ↦ failed e
    | done c ↦ elim (delete_access_code id b) [
      | failed e ↦ failed e
      | done b' ↦ done (record { bucket = b'; code = c; evicts = some id })
    ]
  ]

  unfoldable pub unbind_code : Str → (now : ℕ) → Bucket Str → Outcome CodeError (Changed Str)
  unbind_code id now b = elim (unbind_device empty id now b) [
    | failed e ↦ failed e
    | done r ↦ elim (get_access_code id r.0) [
      | failed e ↦ failed e
      | done c ↦ done (record { bucket = r.0; code = c; evicts = some id })
    ]
  ]

-- The map of TunIPsOf and AllTunIPs over a list of codes.
module _ {Str : Type 0} where
  unfoldable pub ips_of : (only_enabled : Bool) → List (AccessCode Str) → Map ℕ Str → Map ℕ Str
  ips_of only [] m = m
  ips_of only (c ∷ cs) m =
      let skipped = ips_of only cs m in
      elim c.tun_ip [
        | none ↦ skipped
        | some a ↦
            let kept = ips_of only cs (insert a c.id m) in
            if only && c.disabled then skipped else kept
      ]

module _ {Str : Type 0} ⦃es : Eq Str⦄ where
  unfoldable pub tun_ips_of : Str → Bucket Str → Map ℕ Str
  tun_ips_of user b = ips_of true (list_by_user user b) []

  unfoldable pub all_tun_ips : Bucket Str → Map ℕ Str
  all_tun_ips b = ips_of false (list_codes b) []
