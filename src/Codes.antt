-- ===== src/Codes.antt =====
-- internal/storage/accesscode.go: the record of an access code, and allocTunIP of user.go, which gives
-- a code its tunnel address. The transactions stand in Codes/Bucket. An IPv4 address is a number, and
-- `none` the empty text. Times are numbers.
pub mod Alloc
pub mod Bucket
pub mod Placed
pub mod Change
pub mod History
pub mod Devices
pub mod Service
pub mod Races
mod Examples
use go_port_forward.Base.{
  ◌≡◌, ℕ, zero, suc, ◌+◌, ◌-◌, ◌*◌, ◌/◌, ◌^◌, List, [], ◌∷◌, Option, none, some, Bool, true, false,
  ◌&&◌, ◌||◌, not, ltb, leb, ◌==◌, if◌then◌else◌,
}
use go_port_forward.Base.Outcome.{Outcome, failed, done}

pub data CodeError : Type 0 where
  err_required err_code_not_found err_code_quota err_device_mismatch err_tun_prefix
        err_tun_pool_full err_invalid_name :
      CodeError

-- models.AccessCode and codeRecord, which have the same fields.
pub record AccessCode (Str : Type 0) : Type 0 where
  pub created_at : ℕ
  pub updated_at : ℕ
  pub id : Str
  pub user_id : Str
  pub name : Str
  pub tun_ip : Option ℕ
  pub secret : Str
  pub disabled : Bool
  pub device_fingerprint : Str
  pub device_label : Str
  pub bound_at : ℕ
  pub last_seen_at : ℕ
  pub last_seen_addr : Str

-- netip.Prefix for IPv4.
pub record Prefix : Type 0 where
  pub addr : ℕ
  pub bits : ℕ

abbrev pub size_of : Prefix → ℕ
size_of p = 2 ^ (32 - p.bits)

abbrev pub masked : Prefix → ℕ
masked p = p.addr / size_of p * size_of p

abbrev pub last_addr : Prefix → ℕ
last_addr p = masked p + (size_of p - 1)

unfoldable pub elem : ℕ → List ℕ → Bool
elem a [] = false
elem a (b ∷ bs) = a == b || elem a bs

abbrev pub is_gateway : Option ℕ → ℕ → Bool
is_gateway none a = false
is_gateway (some g) a = a == g

-- The loop of allocTunIP, with `left` addresses before the broadcast address.
unfoldable pub first_unused : (left addr : ℕ) → Option ℕ → List ℕ → Option ℕ
first_unused zero addr gateway used = none
first_unused (suc left) addr gateway used =
    let rest = first_unused left (addr + 1) gateway used in
    if is_gateway gateway addr then rest else if elem addr used then rest else some addr

-- `none` is a prefix that is not valid, or not of IPv4.
unfoldable pub alloc_tun_ip : Option Prefix → Option ℕ → List ℕ → Outcome CodeError ℕ
alloc_tun_ip none gateway used = failed err_tun_prefix
alloc_tun_ip (some p) gateway used =
    elim (first_unused (last_addr p - (masked p + 1)) (masked p + 1) gateway used) [
      | none ↦ failed err_tun_pool_full
      | some a ↦ done a
    ]
