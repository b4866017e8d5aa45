-- ===== src/Forward/Acl.antt =====
-- internal/forward/acl.go, ACLGuard: the black and white lists of source addresses, compiled from the
-- stored entries. Parameters are Go's `net.ParseCIDR`, `IPNet.Contains` and `strings.EqualFold`.
pub mod Policy
mod Examples
use go_port_forward.Base.{
  ℕ, ◌≡◌, Bool, true, false, ◌&&◌, ◌||◌, not, Option, none, some, List, [], ◌∷◌, ◌++◌,
  if◌then◌else◌, arith, refl,
}
use go_port_forward.Base.Bytes.{bytes_eq}

-- models.ACLEntry; the id, the comment and the time of creation are not read. Text is its bytes.
pub record AclEntry : Type 0 where
  pub cidr : List ℕ
  pub action : List ℕ
  pub rule_id : List ℕ

-- models.ACLActionDeny, "deny".
abbrev pub acl_action_deny : List ℕ
acl_action_deny = 100 ∷ 101 ∷ 110 ∷ 121 ∷ []

pub record Net (IpNet Ip : Type 0) : Type 0 where
  pub parse_cidr : List ℕ → Option IpNet
  pub contains : IpNet → Ip → Bool
  pub equal_fold : List ℕ → List ℕ → Bool

pub record ScopedNet (IpNet : Type 0) : Type 0 where
  pub ip_net : IpNet
  pub global : Bool
  pub rule_id : List ℕ

pub record AclSnapshot (IpNet : Type 0) : Type 0 where
  pub denies : List (ScopedNet IpNet)
  pub allows : List (ScopedNet IpNet)

unfoldable pub scope_match : {IpNet : Type 0} → List ℕ → ScopedNet IpNet → Bool
scope_match rule sc = sc.global || bytes_eq sc.rule_id rule

module _ {IpNet Ip : Type 0} (net : Net IpNet Ip) where
  -- An entry whose network is `n` joins one of the lists.
  unfoldable pub add_entry : AclEntry → IpNet → AclSnapshot IpNet → AclSnapshot IpNet
  add_entry e n s =
      if net.equal_fold e.action acl_action_deny
      then record s { denies = s.denies ++ (sc ∷ []) }
      else record s { allows = s.allows ++ (sc ∷ []) }
    where
      sc : ScopedNet IpNet
      sc = record { ip_net = n; global = bytes_eq e.rule_id []; rule_id = e.rule_id }

  -- The loop of compileACL, from the snapshot `s` on.
  unfoldable pub compile_from : AclSnapshot IpNet → List AclEntry → AclSnapshot IpNet
  compile_from s [] = s
  compile_from s (e ∷ es) = elim (net.parse_cidr e.cidr) [
    | none ↦ compile_from s es
    | some n ↦ compile_from (add_entry e n s) es
  ]

  unfoldable pub compile_acl : List AclEntry → AclSnapshot IpNet
  compile_acl es = compile_from (record { denies = []; allows = [] }) es

  -- The first loop of Allowed: does a `deny` of the rule hold the address?
  unfoldable pub is_denied : List ℕ → Ip → List (ScopedNet IpNet) → Bool
  is_denied rule ip [] = false
  is_denied rule ip (sc ∷ scs) =
      let rest = is_denied rule ip scs in
      if scope_match rule sc && net.contains sc.ip_net ip then true else rest

  -- The second loop, which carries `allowScoped` and `matchedAllow`.
  unfoldable pub scan_allows : List ℕ → Ip → List (ScopedNet IpNet) → Bool × Bool → Bool × Bool
  scan_allows rule ip [] flags = flags
  scan_allows rule ip (sc ∷ scs) flags = scan_allows rule ip scs (
      if not (scope_match rule sc)
      then flags
      else (true, if net.contains sc.ip_net ip then true else flags.1))

  unfoldable pub decide : List ℕ → Ip → AclSnapshot IpNet → Bool
  decide rule ip s =
      let flags = scan_allows rule ip s.allows (false, false) in
      if is_denied rule ip s.denies then false else if flags.0 && not flags.1 then false else true

  -- Without a guard, an address or a snapshot everything is allowed.
  unfoldable pub allowed : Option (Option (AclSnapshot IpNet)) → List ℕ → Option Ip → Bool
  allowed none rule ip = true
  allowed (some s) rule none = true
  allowed (some none) rule (some ip) = true
  allowed (some (some s)) rule (some ip) = decide rule ip s
