-- ===== src/Forward/Acl/Policy.antt =====
-- internal/forward/acl.go: the policy that the stored entries state, against the compiled lists.
use go_port_forward.Base.{
  ℕ, ◌≡◌, Bool, true, false, ◌&&◌, ◌||◌, not, none, some, List, [], ◌∷◌, ◌++◌, if◌then◌else◌, arith,
  refl, Option-cases, Bool-cases, inl, inr,
}
use go_port_forward.Base.Bytes.{bytes_eq}
use go_port_forward.Forward.Acl.{
  AclEntry, acl_action_deny, Net, ScopedNet, AclSnapshot, scope_match, add_entry, compile_from,
  compile_acl, is_denied, scan_allows, decide, allowed,
}

abbrev pub any : {A : Type 0} → (A → Bool) → List A → Bool
any p [] = false
any p (x ∷ xs) = p x || any p xs

any-append :
    {A : Type 0} (p : A → Bool) (xs ys : List A) → any p (xs ++ ys) ≡ (any p xs || any p ys)
any-append p [] ys = refl
any-append p (x ∷ xs) ys = ground (arith, any-append p xs ys)

module _ {IpNet Ip : Type 0} (net : Net IpNet Ip) (rule : List ℕ) (ip : Ip) where
  -- The entry is for the rule, and its text is a network.
  abbrev pub applies : AclEntry → Bool
  applies e = elim (net.parse_cidr e.cidr) [
    | none ↦ false
    | some n ↦ bytes_eq e.rule_id [] || bytes_eq e.rule_id rule
  ]

  abbrev pub holds : AclEntry → Bool
  holds e = elim (net.parse_cidr e.cidr) [ none ↦ false | some n ↦ net.contains n ip ]

  abbrev pub denies : AclEntry → Bool
  denies e = net.equal_fold e.action acl_action_deny && (applies e && holds e)

  abbrev pub has_allow : AclEntry → Bool
  has_allow e = not (net.equal_fold e.action acl_action_deny) && applies e

  abbrev pub allows : AclEntry → Bool
  allows e = has_allow e && holds e

  abbrev pub policy : List AclEntry → Bool
  policy es = not (any denies es) && (not (any has_allow es) || any allows es)

  -- What the loops ask of one network of the snapshot.
  abbrev hits : ScopedNet IpNet → Bool
  hits sc = scope_match rule sc && net.contains sc.ip_net ip

  is_denied-any : (scs : List (ScopedNet IpNet)) → is_denied net rule ip scs ≡ any hits scs
  unfolding is_denied
  is_denied-any [] = refl
  is_denied-any (sc ∷ scs) = ground (arith, is_denied-any scs)

  scan_allows-any :
      (scs : List (ScopedNet IpNet)) (a b : Bool)
      → scan_allows net rule ip scs (a, b)
        ≡ ((a || any (scope_match rule) scs), (b || any hits scs))
  unfolding scan_allows
  scan_allows-any [] true true = refl
  scan_allows-any [] true false = refl
  scan_allows-any [] false true = refl
  scan_allows-any [] false false = refl
  scan_allows-any (sc ∷ scs) a b = elim (Bool-cases (scope_match rule sc)) [
    | inl e ↦
        rw e
          (ground (arith, scan_allows-any scs true (if net.contains sc.ip_net ip then true else b)))
    | inr e ↦ rw e (ground (arith, scan_allows-any scs a b))
  ]

  add_entry-denies :
      (e : AclEntry) (n : IpNet) (s : AclSnapshot IpNet)
      → net.parse_cidr e.cidr ≡ some n
      → any hits (add_entry net e n s).denies ≡ (any hits s.denies || denies e)
  unfolding add_entry scope_match
  add_entry-denies e n s h = ground (
    arith,
    h,
    any-append hits s.denies
        (record { ip_net = n; global = bytes_eq e.rule_id []; rule_id = e.rule_id } ∷ []),
  )

  add_entry-has_allow :
      (e : AclEntry) (n : IpNet) (s : AclSnapshot IpNet)
      → net.parse_cidr e.cidr ≡ some n
      → any (scope_match rule) (add_entry net e n s).allows
        ≡ (any (scope_match rule) s.allows || has_allow e)
  unfolding add_entry scope_match
  add_entry-has_allow e n s h = ground (
    arith,
    h,
    any-append (scope_match rule) s.allows
        (record { ip_net = n; global = bytes_eq e.rule_id []; rule_id = e.rule_id } ∷ []),
  )

  add_entry-allows :
      (e : AclEntry) (n : IpNet) (s : AclSnapshot IpNet)
      → net.parse_cidr e.cidr ≡ some n
      → any hits (add_entry net e n s).allows ≡ (any hits s.allows || allows e)
  unfolding add_entry scope_match
  add_entry-allows e n s h = ground (
    arith,
    h,
    any-append hits s.allows
        (record { ip_net = n; global = bytes_eq e.rule_id []; rule_id = e.rule_id } ∷ []),
  )

  compile_from-denies :
      (s : AclSnapshot IpNet) (es : List AclEntry)
      → any hits (compile_from net s es).denies ≡ (any hits s.denies || any denies es)
  unfolding compile_from
  compile_from-denies s [] = ground arith
  compile_from-denies s (e ∷ es) = elim (Option-cases (net.parse_cidr e.cidr)) [
    | inl h ↦ ground (arith, h, compile_from-denies s es)
    | inr (n, h) ↦
        let rest = compile_from-denies (add_entry net e n s) es in
        let here = add_entry-denies e n s h in ground (arith, h, rest, here)
  ]

  compile_from-has_allow :
      (s : AclSnapshot IpNet) (es : List AclEntry)
      → any (scope_match rule) (compile_from net s es).allows
        ≡ (any (scope_match rule) s.allows || any has_allow es)
  unfolding compile_from
  compile_from-has_allow s [] = ground arith
  compile_from-has_allow s (e ∷ es) = elim (Option-cases (net.parse_cidr e.cidr)) [
    | inl h ↦ ground (arith, h, compile_from-has_allow s es)
    | inr (n, h) ↦
        let rest = compile_from-has_allow (add_entry net e n s) es in
        let here = add_entry-has_allow e n s h in ground (arith, h, rest, here)
  ]

  compile_from-allows :
      (s : AclSnapshot IpNet) (es : List AclEntry)
      → any hits (compile_from net s es).allows ≡ (any hits s.allows || any allows es)
  unfolding compile_from
  compile_from-allows s [] = ground arith
  compile_from-allows s (e ∷ es) = elim (Option-cases (net.parse_cidr e.cidr)) [
    | inl h ↦ ground (arith, h, compile_from-allows s es)
    | inr (n, h) ↦
        let rest = compile_from-allows (add_entry net e n s) es in
        let here = add_entry-allows e n s h in ground (arith, h, rest, here)
  ]

  -- The compiled snapshot decides as the policy that the entries state: no deny entry for the rule
  -- or for all rules holds the address, and, if there is such an allow entry, one of them holds
  -- it. Entries whose text is not a network count for nothing.
  pub allowed-policy :
      (es : List AclEntry)
      → allowed net (some (some (compile_acl net es))) rule (some ip) ≡ policy es
  unfolding allowed decide compile_acl
  allowed-policy es = ground (
    arith,
    is_denied-any (compile_acl net es).denies,
    scan_allows-any (compile_acl net es).allows false false,
    compile_from-denies (record { denies = []; allows = [] }) es,
    compile_from-has_allow (record { denies = []; allows = [] }) es,
    compile_from-allows (record { denies = []; allows = [] }) es,
  )
