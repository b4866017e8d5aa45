-- ===== src/Forward/Rules/Examples.antt =====
-- internal/forward/manager.go: the rules, on examples where a text is a number.
use go_port_forward.Base.{
  ℕ, ◌≡◌, ◌+◌, ◌%◌, [], ◌∷◌, none, some, true, false, arith, refl, ltb, ◌==◌,
}
use go_port_forward.Base.Keys.{lookup, insert, remove, nat_eq}
use go_port_forward.Base.Integers.{pos, negsuc, IsPort}
use go_port_forward.Base.Outcome.{Outcome, failed, done}
use go_port_forward.Forward.Rules.{
  udp, both, ForwardRule, Texts, clash_any, rule_port_endpoints, endpoint, err_port_conflict,
  err_invalid_rule, NetherNetTls, clash_all, port_conflict, same_target, transparent_duplicate,
  validate_forward_rule, bad_rule, bad_name, all_allowed, protocol_eq, bad_nethernet, bad_tls,
  normalize_tls, normalize_listen_addr, validate_create_rule_request,
}
use go_port_forward.Forward.Rules.Manager.{
  Manager, add_rule, update_rule, toggle_rule, only_enabled, check_rule, bad_certificate, restart,
  apply_update, requires_restart, tls_equal,
}
use go_port_forward.Forward.Rules.Disjoint.{AreDisjoint}
use go_port_forward.Forward.Rules.Running.{IsServing}
use go_port_forward.Forward.Rules.Reached.{
  Reached, at_start, after_add, after_update, Reached-AreDisjoint, Reached-IsServing,
  Reached-running_apart,
}
use go_port_forward.Forward.Rules.Valid.{AreLawful, validate-twice, validate-ports}

-- Below 100 a text is trimmed; 0 is the empty text.
abbrev texts : Texts ℕ
texts = record {
  trim = λ a. a % 100;
  empty = 0;
  all_interfaces = 1;
  runes = λ a. a ∷ [];
  size = λ a. a;
  allowed_rune = λ c. ltb c 90;
  is_key_pair = λ a b. (a % 100 + 1) == (b % 100);
  parse_ip = λ a. some a;
  has_certificate = λ a. a == 5;
}

texts-AreLawful : AreLawful texts
texts-AreLawful = record {
  trim_twice = λ a. ground arith;
  trim_all_interfaces = refl;
  trim_size = λ a. ground arith;
}

abbrev web : ForwardRule ℕ
web = record {
  id = 0;
  name = 107;
  listen_addr = 0;
  listen_port = pos 80;
  protocol = both;
  target_addr = 20;
  target_port = pos 8080;
  user_id = 0;
  comment = 0;
  enabled = true;
  add_firewall = false;
  proxy_protocol = false;
  transparent = false;
  nethernet = false;
  nethernet_tls = none;
}

abbrev game : ForwardRule ℕ
game = record web {
  listen_port = pos 19132;
  protocol = udp;
  transparent = true;
  nethernet = true;
  nethernet_tls = some (record {
    enabled = true;
    dual = false;
    cert_id = 0;
    cert_pem = 130;
    key_pem = 31;
    signal_port = pos 443;
    data_port = pos 0;
  });
}

abbrev nothing : Manager ℕ
nothing = record { rules = []; running = [] }

abbrev or_nothing : {E : Type 0} → Outcome E (Manager ℕ) → Manager ℕ
or_nothing (failed e) = nothing
or_nothing (done m) = m

abbrev one : Manager ℕ
one = or_nothing (add_rule texts 7 true true web nothing)

abbrev two : Manager ℕ
two = or_nothing (add_rule texts 8 true true game one)

abbrev off : Manager ℕ
off = or_nothing (toggle_rule texts 7 true true false two)

-- A second rule on the ports of the first is refused.
add_rule-conflict : add_rule texts 9 true true web two ≡ failed err_port_conflict
unfolding add_rule validate_create_rule_request validate_forward_rule bad_rule bad_name all_allowed
    protocol_eq bad_nethernet bad_tls normalize_tls normalize_listen_addr check_rule bad_certificate
    port_conflict insert remove clash_all rule_port_endpoints clash_any restart same_target
    transparent_duplicate lookup
add_rule-conflict = refl

two-Reached : Reached texts nothing two
unfolding add_rule validate_create_rule_request validate_forward_rule bad_rule bad_name all_allowed
    protocol_eq bad_nethernet bad_tls normalize_tls normalize_listen_addr check_rule bad_certificate
    port_conflict insert remove clash_all rule_port_endpoints clash_any restart same_target
    transparent_duplicate lookup
two-Reached =
    after_add 8 true true game one two
      (after_add 7 true true web nothing one at_start refl refl refl) refl refl refl

off-Reached : Reached texts nothing off
unfolding add_rule validate_create_rule_request validate_forward_rule bad_rule bad_name all_allowed
    protocol_eq bad_nethernet bad_tls normalize_tls normalize_listen_addr check_rule bad_certificate
    port_conflict insert remove clash_all rule_port_endpoints clash_any restart same_target
    transparent_duplicate lookup update_rule toggle_rule apply_update requires_restart tls_equal
off-Reached = after_update 7 true true (only_enabled texts false) two off two-Reached refl

nothing-AreDisjoint : AreDisjoint texts (nothing.rules)
unfolding lookup
nothing-AreDisjoint = record {
  keyed = λ k r h. absurd (cc h);
  alone = λ e k j r s h. absurd (cc h);
}

nothing-IsServing : IsServing texts nothing
unfolding lookup
nothing-IsServing = record { served = λ k r h. absurd (cc h) }

abbrev game_rule : ForwardRule ℕ
game_rule = record game {
  id = 8;
  name = 7;
  listen_addr = 1;
  nethernet_tls = some (record {
    enabled = true;
    dual = false;
    cert_id = 0;
    cert_pem = 30;
    key_pem = 31;
    signal_port = pos 443;
    data_port = pos 0;
  });
}

Reached-AreDisjoint_example : AreDisjoint texts (off.rules)
Reached-AreDisjoint_example = Reached-AreDisjoint texts nothing off off-Reached nothing-AreDisjoint

Reached-IsServing_example : IsServing texts off
Reached-IsServing_example =
    Reached-IsServing texts nothing off off-Reached nothing-AreDisjoint nothing-IsServing

abbrev game_id : ℕ
game_id = 8

Reached-running_apart_example : game_id ≡ game_id
unfolding add_rule validate_create_rule_request validate_forward_rule bad_rule bad_name all_allowed
    protocol_eq bad_nethernet bad_tls normalize_tls normalize_listen_addr check_rule bad_certificate
    port_conflict insert remove clash_all rule_port_endpoints clash_any restart same_target
    transparent_duplicate lookup
Reached-running_apart_example =
    Reached-running_apart texts nothing two two-Reached nothing-AreDisjoint nothing-IsServing
      (endpoint texts 1 (pos 443) true) game_id game_id game_rule game_rule refl refl refl refl

game-pair :
    (t : NetherNetTls ℕ)
    → game.nethernet_tls ≡ some t
    → texts.is_key_pair t.cert_pem t.key_pem ≡ true
    → texts.is_key_pair (texts.trim t.cert_pem) (texts.trim t.key_pem) ≡ true
game-pair t e h = ground (arith, h)

-- A negative port is refused.
web-negative :
    validate_forward_rule texts (record web { listen_port = negsuc 79 }) ≡ failed err_invalid_rule
unfolding validate_forward_rule bad_rule bad_name all_allowed protocol_eq bad_nethernet bad_tls
    normalize_tls normalize_listen_addr
web-negative = refl

validate-twice_example : validate_forward_rule texts game_rule ≡ done game_rule
unfolding validate_forward_rule bad_rule bad_name all_allowed protocol_eq bad_nethernet bad_tls
    normalize_tls normalize_listen_addr
validate-twice_example =
    validate-twice texts (record game { id = 8 }) game_rule texts-AreLawful game-pair refl

validate-ports_example : IsPort (pos 8080) × IsPort (pos 443)
unfolding validate_forward_rule bad_rule bad_name all_allowed protocol_eq bad_nethernet bad_tls
    normalize_tls normalize_listen_addr clash_any rule_port_endpoints
validate-ports_example =
    validate-ports texts (endpoint texts 1 (pos 443) true) (record game { id = 8 }) game_rule refl
      refl
