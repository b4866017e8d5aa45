-- ===== src/Forward/Rules/Manager.antt =====
-- internal/forward/manager.go: the operations on the rules.
use go_port_forward.Base.{
  Option, none, some, Bool, true, false, ◌&&◌, ◌||◌, not, bool_eq, if◌then◌else◌,
}
use go_port_forward.Base.Keys.{Eq, Map, lookup, insert, remove}
use go_port_forward.Base.Outcome.{Outcome, failed, done}
use go_port_forward.Base.Integers.{ℤ, int_eq}
use go_port_forward.Forward.Rules.{
  Protocol, protocol_eq, RuleError, err_invalid_rule, err_port_conflict, err_rule_not_found,
  err_store, NetherNetTls, ForwardRule, Texts, normalize_listen_addr, normalize_tls,
  validate_forward_rule, validate_create_rule_request, rule_port_endpoints, port_conflict,
  transparent_duplicate,
}

-- The rules, and which of them have their listeners running.
pub record Manager (Str : Type 0) : Type 0 where
  pub rules : Map Str (ForwardRule Str)
  pub running : Map Str (ForwardRule Str)

-- The fields of an update request; `none` keeps a field.
pub record UpdateRuleRequest (Str : Type 0) : Type 0 where
  pub name : Option Str
  pub listen_addr : Option Str
  pub listen_port : Option ℤ
  pub protocol : Option Protocol
  pub target_addr : Option Str
  pub target_port : Option ℤ
  pub user_id : Option Str
  pub comment : Option Str
  pub enabled : Option Bool
  pub add_firewall : Option Bool
  pub proxy_protocol : Option Bool
  pub transparent : Option Bool
  pub nethernet : Option Bool
  pub nethernet_tls : Option (NetherNetTls Str)

abbrev pub or_else {ℓ} : {A : Type ℓ} → Option A → A → A
or_else none old = old
or_else (some new) old = new

module _ {Str : Type 0} ⦃es : Eq Str⦄ (x : Texts Str) where
  unfoldable pub apply_update : ForwardRule Str → UpdateRuleRequest Str → ForwardRule Str
  apply_update r q = record r {
    name = or_else q.name r.name;
    listen_addr = or_else q.listen_addr r.listen_addr;
    listen_port = or_else q.listen_port r.listen_port;
    protocol = or_else q.protocol r.protocol;
    target_addr = or_else q.target_addr r.target_addr;
    target_port = or_else q.target_port r.target_port;
    user_id = or_else q.user_id r.user_id;
    comment = or_else q.comment r.comment;
    enabled = or_else q.enabled r.enabled;
    add_firewall = or_else q.add_firewall r.add_firewall;
    proxy_protocol = or_else q.proxy_protocol r.proxy_protocol;
    transparent = or_else q.transparent r.transparent;
    nethernet = or_else q.nethernet r.nethernet;
    nethernet_tls = elim q.nethernet_tls [
      | none ↦ r.nethernet_tls
      | some t ↦ normalize_tls x (some t)
    ];
  }

  -- checkNetherNetCertRef
  unfoldable pub bad_certificate : ForwardRule Str → Bool
  bad_certificate r = elim r.nethernet_tls [
    | none ↦ false
    | some t ↦
        r.nethernet
        && t.enabled
        && not (es.beq t.cert_id x.empty)
        && not (x.has_certificate t.cert_id)
  ]

  -- The checks of the manager on a rule that is valid.
  unfoldable pub check_rule :
      (excluded : Str)
      → ForwardRule Str
      → Map Str (ForwardRule Str)
      → Outcome RuleError (ForwardRule Str)
  check_rule excluded r rules =
      if bad_certificate r
      then failed err_invalid_rule
      else if port_conflict x excluded (rule_port_endpoints x r) rules
      then failed err_port_conflict
      else if r.transparent && transparent_duplicate x excluded r.target_addr r.target_port rules
      then failed err_invalid_rule
      else done r

  -- stopForwarders, then startForwarders for an enabled rule; `starts` is its success.
  unfoldable pub restart :
      (starts : Bool) → ForwardRule Str → Map Str (ForwardRule Str) → Map Str (ForwardRule Str)
  restart starts r running =
      if r.enabled && starts then insert r.id r running else remove r.id running

  -- `id` is the new uuid, and `saved` says that the store took the rule.
  unfoldable pub add_rule :
      (id : Str)
      → (saved starts : Bool) → ForwardRule Str
      → Manager Str
      → Outcome RuleError (Manager Str)
  add_rule id saved starts req m = elim (validate_create_rule_request x req) [
    | failed e ↦ failed e
    | done valid ↦ elim (check_rule x.empty valid m.rules) [
      | failed e ↦ failed e
      | done r ↦
          let new = record r { id = id } in
          if not saved
          then failed err_store
          else done
              (record { rules = insert id new m.rules; running = restart starts new m.running })
    ]
  ]

  unfoldable pub tls_equal : Option (NetherNetTls Str) → Option (NetherNetTls Str) → Bool
  tls_equal none none = true
  tls_equal none (some b) = false
  tls_equal (some a) none = false
  tls_equal (some a) (some b) =
      bool_eq a.enabled b.enabled
      && bool_eq a.dual b.dual
      && es.beq a.cert_id b.cert_id
      && es.beq a.cert_pem b.cert_pem
      && es.beq a.key_pem b.key_pem
      && int_eq a.signal_port b.signal_port
      && int_eq a.data_port b.data_port

  unfoldable pub requires_restart : ForwardRule Str → ForwardRule Str → Bool
  requires_restart before after =
      not (bool_eq before.enabled after.enabled)
      || not (
          es.beq (normalize_listen_addr x before.listen_addr)
            (normalize_listen_addr x after.listen_addr))
      || not (int_eq before.listen_port after.listen_port)
      || not (protocol_eq before.protocol after.protocol)
      || not (es.beq before.target_addr after.target_addr)
      || not (int_eq before.target_port after.target_port)
      || not (bool_eq before.proxy_protocol after.proxy_protocol)
      || not (bool_eq before.transparent after.transparent)
      || not (bool_eq before.nethernet after.nethernet)
      || not (tls_equal before.nethernet_tls after.nethernet_tls)

  unfoldable pub update_rule :
      (id : Str)
      → (saved starts : Bool) → UpdateRuleRequest Str
      → Manager Str
      → Outcome RuleError (Manager Str)
  update_rule id saved starts req m = elim (lookup id m.rules) [
    | none ↦ failed err_rule_not_found
    | some current ↦ elim (validate_forward_rule x (apply_update current req)) [
      | failed e ↦ failed e
      | done valid ↦ elim (check_rule id valid m.rules) [
        | failed e ↦ failed e
        | done next ↦
            if not saved
            then failed err_store
            else done (record {
              rules = insert id next m.rules;
              running =
                  if requires_restart current next
                  then restart starts next m.running
                  else m.running;
            })
      ]
    ]
  ]

  unfoldable pub delete_rule :
      (id : Str) → (saved : Bool) → Manager Str → Outcome RuleError (Manager Str)
  delete_rule id saved m = elim (lookup id m.rules) [
    | none ↦ failed err_rule_not_found
    | some current ↦
        if not saved
        then failed err_store
        else done (record { rules = remove id m.rules; running = remove id m.running })
  ]

  abbrev pub only_enabled : Bool → UpdateRuleRequest Str
  only_enabled on = record {
    name = none;
    listen_addr = none;
    listen_port = none;
    protocol = none;
    target_addr = none;
    target_port = none;
    user_id = none;
    comment = none;
    enabled = some on;
    add_firewall = none;
    proxy_protocol = none;
    transparent = none;
    nethernet = none;
    nethernet_tls = none;
  }

  unfoldable pub toggle_rule :
      (id : Str) → (saved starts on : Bool) → Manager Str → Outcome RuleError (Manager Str)
  toggle_rule id saved starts on m = update_rule id saved starts (only_enabled on) m
