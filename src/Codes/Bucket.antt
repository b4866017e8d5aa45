-- ===== src/Codes/Bucket.antt =====
-- internal/storage/accesscode.go: the transactions on the bucket of access codes. A bucket is a map
-- from ids to records, and a transaction one step; that JSON gives back what was written and that the
-- database works is left out.
use go_port_forward.Base.{
  ℕ, ◌+◌, List, [], ◌∷◌, Option, none, some, Bool, true, false, ◌&&◌, ◌||◌, ltb, leb, ◌==◌, length,
  if◌then◌else◌,
}
use go_port_forward.Base.Keys.{Eq, Map, lookup, insert, remove}
use go_port_forward.Base.Outcome.{Outcome, failed, done}
use go_port_forward.Codes.{
  CodeError, err_required, err_code_not_found, err_code_quota, err_device_mismatch, AccessCode,
  Prefix, alloc_tun_ip,
}

abbrev pub Bucket : Type 0 → Type 0
Bucket Str = Map Str (AccessCode Str)

module _ {Str : Type 0} ⦃es : Eq Str⦄ where
  unfoldable pub used_ips : Bucket Str → List ℕ
  used_ips [] = []
  used_ips ((k, c) ∷ b) = elim c.tun_ip [ none ↦ used_ips b | some a ↦ a ∷ used_ips b ]

  unfoldable pub list_codes : Bucket Str → List (AccessCode Str)
  list_codes [] = []
  list_codes ((k, c) ∷ b) = c ∷ list_codes b

  unfoldable pub list_by_user : Str → Bucket Str → List (AccessCode Str)
  list_by_user user [] = []
  list_by_user user ((k, c) ∷ b) =
      let rest = list_by_user user b in if es.beq c.user_id user then c ∷ rest else rest

  unfoldable pub count_codes : Str → Bucket Str → ℕ
  count_codes user [] = 0
  count_codes user ((k, c) ∷ b) =
      let n = count_codes user b in if es.beq c.user_id user then n + 1 else n

  unfoldable pub get_access_code : Str → Bucket Str → Outcome CodeError (AccessCode Str)
  get_access_code id b = elim (lookup id b) [ none ↦ failed err_code_not_found | some c ↦ done c ]

  abbrev pub taken_ips : Option ℕ → Bucket Str → List ℕ
  taken_ips none b = used_ips b
  taken_ips (some g) b = g ∷ used_ips b

  -- The address that a new code gets.
  unfoldable pub place_code :
      AccessCode Str → Option Prefix → Option ℕ → Bucket Str → Outcome CodeError ℕ
  place_code c pool gateway b = elim c.tun_ip [
    | some a ↦ done a
    | none ↦ alloc_tun_ip pool gateway (taken_ips gateway b)
  ]

  abbrev pub stamped : ℕ → ℕ → AccessCode Str → AccessCode Str
  stamped a now c = record c {
    tun_ip = some a;
    created_at = if c.created_at == 0 then now else c.created_at;
    updated_at = now;
  }

  unfoldable pub delete_access_code : Str → Bucket Str → Outcome CodeError (Bucket Str)
  delete_access_code id b = elim (lookup id b) [
    | none ↦ failed err_code_not_found
    | some c ↦ done (remove id b)
  ]

  unfoldable pub keys_of : Str → Bucket Str → List Str
  keys_of user [] = []
  keys_of user ((k, c) ∷ b) =
      let rest = keys_of user b in if es.beq c.user_id user then k ∷ rest else rest

  unfoldable pub remove_all : List Str → Bucket Str → Bucket Str
  remove_all [] b = b
  remove_all (k ∷ ks) b = remove_all ks (remove k b)

  unfoldable pub delete_by_user : Str → Bucket Str → Bucket Str × ℕ
  delete_by_user user b = (remove_all (keys_of user b) b, length (keys_of user b))

  abbrev pub seen : ℕ → Str → AccessCode Str → AccessCode Str
  seen at addr c = record c { last_seen_at = at; last_seen_addr = addr }

  abbrev pub bound : (fp label : Str) → (at : ℕ) → (addr : Str) → AccessCode Str → AccessCode Str
  bound fp label at addr c = record c {
    device_fingerprint = fp;
    device_label = label;
    bound_at = at;
    last_seen_at = at;
    last_seen_addr = addr;
    updated_at = at;
  }

  abbrev pub refreshed : (at : ℕ) → (addr : Str) → AccessCode Str → AccessCode Str
  refreshed at addr c = record c { last_seen_at = at; last_seen_addr = addr; updated_at = at }

  abbrev pub migrated : (to label : Str) → (at : ℕ) → (addr : Str) → AccessCode Str → AccessCode Str
  migrated to label at addr c = record c {
    device_fingerprint = to;
    device_label = label;
    last_seen_at = at;
    last_seen_addr = addr;
    updated_at = at;
  }

  unfoldable pub migrate_device :
      (id from to label : Str)
      → (at : ℕ) → (addr : Str) → Bucket Str
      → Outcome CodeError (Bucket Str × Bool)
  migrate_device id from to label at addr b = elim (lookup id b) [
    | none ↦ failed err_code_not_found
    | some c ↦
        if es.beq c.device_fingerprint from
        then done (insert id (migrated to label at addr c) b, true)
        else done (b, false)
  ]

  unfoldable pub touch_access_code :
      (id : Str) → (at : ℕ) → (addr : Str) → Bucket Str → Outcome CodeError (Bucket Str)
  touch_access_code id at addr b = elim (lookup id b) [
    | none ↦ failed err_code_not_found
    | some c ↦ done (insert id (seen at addr c) b)
  ]

-- `empty` is the empty text.
module _ {Str : Type 0} ⦃es : Eq Str⦄ (empty : Str) where
  -- A bound of 0 or less on the codes is none.
  unfoldable pub create_access_code :
      AccessCode Str
      → Option Prefix
      → (gateway : Option ℕ) → (max_codes now : ℕ) → Bucket Str
      → Outcome CodeError (Bucket Str × AccessCode Str)
  create_access_code c pool gateway max_codes now b =
      if es.beq c.id empty || es.beq c.user_id empty
      then failed err_required
      else if ltb 0 max_codes && leb max_codes (count_codes c.user_id b)
      then failed err_code_quota
      else elim (place_code c pool gateway b) [
        | failed e ↦ failed e
        | done a ↦ done (insert c.id (stamped a now c) b, stamped a now c)
      ]

  unfoldable pub save_access_code :
      AccessCode Str → (now : ℕ) → Bucket Str → Outcome CodeError (Bucket Str)
  save_access_code c now b =
      if es.beq c.id empty then failed err_required else elim (lookup c.id b) [
        | none ↦ failed err_code_not_found
        | some old ↦ done (insert c.id (record c { updated_at = now }) b)
      ]

  unfoldable pub bind_device :
      (id fp label : Str) → (at : ℕ) → (addr : Str) → Bucket Str → Outcome CodeError (Bucket Str)
  bind_device id fp label at addr b = elim (lookup id b) [
    | none ↦ failed err_code_not_found
    | some c ↦
        if es.beq c.device_fingerprint empty
        then done (insert id (bound fp label at addr c) b)
        else if es.beq c.device_fingerprint fp
        then done (insert id (refreshed at addr c) b)
        else failed err_device_mismatch
  ]

  abbrev pub unbound : (now : ℕ) → AccessCode Str → AccessCode Str
  unbound now c = record c {
    device_fingerprint = empty;
    device_label = empty;
    bound_at = 0;
    updated_at = now;
  }

  -- With the label of the device that was bound.
  unfoldable pub unbind_device :
      (id : Str) → (now : ℕ) → Bucket Str → Outcome CodeError (Bucket Str × Str)
  unbind_device id now b = elim (lookup id b) [
    | none ↦ failed err_code_not_found
    | some c ↦ done (insert id (unbound now c) b, c.device_label)
  ]
