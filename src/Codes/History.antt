-- ===== src/Codes/History.antt =====
-- internal/storage/accesscode.go: transactions in any order, as a step relation.
use go_port_forward.Base.{ℕ, ◌≡◌, ◌≤◌, ◌<◌, [], Option, none, some, Bool, arith, ap}
use go_port_forward.Base.Keys.{Eq, lookup, insert}
use go_port_forward.Base.Outcome.{done}
use go_port_forward.Codes.{AccessCode, Prefix}
use go_port_forward.Codes.Bucket.{
  Bucket, count_codes, create_access_code, save_access_code, delete_access_code, keys_of,
  delete_by_user, bind_device, unbind_device, migrate_device, touch_access_code,
}
use go_port_forward.Codes.Change.{
  Change, same, rewrites, adds, drops, into, bind-Change, unbind-Change, migrate-Change,
  touch-Change, delete-Change, save-Change, create-Change,
}
use go_port_forward.Codes.Placed.{
  IsPlaced, count-remove, count-remove_own, count-remove_all, remove_all-IsPlaced, rewrite-IsPlaced,
  fresh-IsPlaced,
}

-- The transactions that the callers make: a new code has no address yet, and a save keeps the user and
-- the address of the code that is there.
pub data Step {Str : Type 0} ⦃es : Eq Str⦄ (empty : Str) (pool : Prefix) (gateway : Option ℕ)
    (max_codes : ℕ) : Bucket Str → Bucket Str → Type 0 where
  creates :
      {b b' : Bucket Str} (c c' : AccessCode Str) (now : ℕ)
      → c.tun_ip ≡ none
      → create_access_code empty c (some pool) gateway max_codes now b ≡ done (b', c')
      → Step empty pool gateway max_codes b b'
  saves :
      {b b' : Bucket Str} (c old : AccessCode Str) (now : ℕ)
      → lookup c.id b ≡ some old
      → c.tun_ip ≡ old.tun_ip
      → c.user_id ≡ old.user_id
      → save_access_code empty c now b ≡ done b'
      → Step empty pool gateway max_codes b b'
  deletes :
      {b b' : Bucket Str} (id : Str)
      → delete_access_code id b ≡ done b'
      → Step empty pool gateway max_codes b b'
  deletes_user :
      {b b' : Bucket Str} (user : Str) (n : ℕ)
      → delete_by_user user b ≡ (b', n)
      → Step empty pool gateway max_codes b b'
  binds :
      {b b' : Bucket Str} (id fp label : Str) (at : ℕ) (addr : Str)
      → bind_device empty id fp label at addr b ≡ done b'
      → Step empty pool gateway max_codes b b'
  unbinds :
      {b b' : Bucket Str} (id : Str) (now : ℕ) (label : Str)
      → unbind_device empty id now b ≡ done (b', label)
      → Step empty pool gateway max_codes b b'
  migrates :
      {b b' : Bucket Str} (id from to label : Str) (at : ℕ) (addr : Str) (ok : Bool)
      → migrate_device id from to label at addr b ≡ done (b', ok)
      → Step empty pool gateway max_codes b b'
  touches :
      {b b' : Bucket Str} (id : Str) (at : ℕ) (addr : Str)
      → touch_access_code id at addr b ≡ done b'
      → Step empty pool gateway max_codes b b'

pub data Reach {Str : Type 0} ⦃es : Eq Str⦄ (empty : Str) (pool : Prefix) (gateway : Option ℕ)
    (max_codes : ℕ) : Bucket Str → Type 0 where
  start : Reach empty pool gateway max_codes []
  next :
      {b b' : Bucket Str}
      → Reach empty pool gateway max_codes b
      → Step empty pool gateway max_codes b b'
      → Reach empty pool gateway max_codes b'

module _ {Str : Type 0} ⦃es : Eq Str⦄ (empty : Str) (pool : Prefix) (gateway : Option ℕ)
    (max_codes : ℕ) where
  step-Change :
      (b b' : Bucket Str)
      → Step empty pool gateway max_codes b b'
      → Change empty pool gateway max_codes b b'
  unfolding delete_by_user
  step-Change b b1 (creates c c' now e h) =
      create-Change empty pool gateway max_codes c c' now b b1 e h
  step-Change b b1 (saves c old now f ip user h) =
      save-Change empty pool gateway max_codes c old now b b1 f ip user h
  step-Change b b1 (deletes id h) = delete-Change empty pool gateway max_codes id b b1 h
  step-Change b b1 (deletes_user user n h) =
      into empty pool gateway max_codes (ap (λ r. r.0) h) (drops (keys_of user b))
  step-Change b b1 (binds id fp label at addr h) =
      bind-Change empty pool gateway max_codes id fp label at addr b b1 h
  step-Change b b1 (unbinds id now label h) =
      unbind-Change empty pool gateway max_codes id now label b b1 h
  step-Change b b1 (migrates id from to label at addr ok h) =
      migrate-Change empty pool gateway max_codes id from to label at addr ok b b1 h
  step-Change b b1 (touches id at addr h) =
      touch-Change empty pool gateway max_codes id at addr b b1 h

  Change-IsPlaced :
      (b b' : Bucket Str)
      → Change empty pool gateway max_codes b b'
      → IsPlaced pool gateway b
      → IsPlaced pool gateway b'
  Change-IsPlaced b b1 same v = v
  Change-IsPlaced b b1 (rewrites id old new f ip user) v =
      rewrite-IsPlaced pool gateway id old new b f ip v
  Change-IsPlaced b b1 (adds new a own free ok room) v =
      fresh-IsPlaced pool gateway new.id new a b own free ok v
  Change-IsPlaced b b1 (drops ks) v = remove_all-IsPlaced pool gateway ks b v

  Change-count :
      (b b' : Bucket Str)
      → Change empty pool gateway max_codes b b'
      → 0 < max_codes
      → ((u : Str) → count_codes u b ≤ max_codes)
      → (u : Str) → count_codes u b' ≤ max_codes
  unfolding count_codes insert
  Change-count b b1 same pos v u = v u
  Change-count b b1 (rewrites id old new f ip user) pos v u = ground (
    arith,
    v u,
    count-remove u id b,
    count-remove_own u id old b f,
    user,
    es.beq_iff new.user_id u,
  )
  Change-count b b1 (adds new a own free ok room) pos v u =
      ground (arith, v u, count-remove u new.id b, room pos, es.beq_iff new.user_id u)
  Change-count b b1 (drops ks) pos v u = ground (arith, count-remove_all u ks b, v u)

  Reach-Change :
      {P : Bucket Str → Type 0} (b : Bucket Str)
      → P []
      → ((b b' : Bucket Str) → Change empty pool gateway max_codes b b' → P b → P b')
      → Reach empty pool gateway max_codes b
      → P b
  Reach-Change b0 base keep start = base
  Reach-Change b2 base keep (next {b} r s) =
      keep b b2 (step-Change b b2 s) (Reach-Change b base keep r)

  -- After any transactions from an empty bucket, in which new codes have no address yet and saves
  -- keep the address and the user of the stored code, every code's address lies strictly inside
  -- the pool, is not the gateway's, and is no other code's.
  pub Reach-IsPlaced :
      (b : Bucket Str) → Reach empty pool gateway max_codes b → IsPlaced pool gateway b
  unfolding lookup
  Reach-IsPlaced b r =
      Reach-Change b
        (record { alone = λ i j c d a h g e f. absurd (cc h); inside = λ i c a h e. absurd (cc h) })
        Change-IsPlaced r

  -- After any such transactions, in which every creation has the same bound above 0, no user has
  -- more codes than the bound.
  pub Reach-count :
      (b : Bucket Str) (u : Str)
      → 0 < max_codes
      → Reach empty pool gateway max_codes b
      → count_codes u b ≤ max_codes
  unfolding count_codes
  Reach-count b u pos r =
      Reach-Change {P = λ b. (u : Str) → count_codes u b ≤ max_codes} b (λ u. ground arith)
        (λ b b' s. Change-count b b' s pos) r u
