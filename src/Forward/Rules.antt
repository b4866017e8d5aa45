-- ===== src/Forward/Rules.antt =====
-- internal/forward/manager.go: the forwarding rules, their checks and the operations that change them,
-- with the parts of internal/models/models.go that they call. The text of a protocol is its value here,
-- texts are a comparable type, and what the libraries do with them is in `Texts`. Whether the store and
-- the start of a listener succeed is an argument; the lock makes a call one step. Messages, times,
-- statuses and the counters of the listeners are left out.
pub mod Disjoint
pub mod Examples
pub mod Manager
pub mod Reached
pub mod Running
pub mod Valid
use go_port_forward.Base.{
  ℕ, ◌+◌, ◌*◌, ◌≡◌, List, [], ◌∷◌, ◌++◌, Option, none, some, Bool, true, false, ◌&&◌, ◌||◌, not,
  ltb, leb, ◌==◌, bool_eq, if◌then◌else◌, length,
}
use go_port_forward.Base.Keys.{Eq, Map, lookup, insert, remove}
use go_port_forward.Base.Outcome.{Outcome, failed, done}
use go_port_forward.Base.Integers.{ℤ, int_eq, is_negative, exceeds}

pub data Protocol : Type 0 where
  tcp udp both no_protocol unknown_protocol : Protocol

unfoldable pub protocol_eq : Protocol → Protocol → Bool
protocol_eq tcp tcp = true
protocol_eq udp udp = true
protocol_eq both both = true
protocol_eq no_protocol no_protocol = true
protocol_eq unknown_protocol unknown_protocol = true
protocol_eq _ _ = false

pub data RuleError : Type 0 where
  err_invalid_rule err_port_conflict err_rule_not_found err_store : RuleError

pub record NetherNetTls (Str : Type 0) : Type 0 where
  pub enabled : Bool
  pub dual : Bool
  pub cert_id : Str
  pub cert_pem : Str
  pub key_pem : Str
  pub signal_port : ℤ
  pub data_port : ℤ

pub record ForwardRule (Str : Type 0) : Type 0 where
  pub id : Str
  pub name : Str
  pub listen_addr : Str
  pub listen_port : ℤ
  pub protocol : Protocol
  pub target_addr : Str
  pub target_port : ℤ
  pub user_id : Str
  pub comment : Str
  pub enabled : Bool
  pub add_firewall : Bool
  pub proxy_protocol : Bool
  pub transparent : Bool
  pub nethernet : Bool
  pub nethernet_tls : Option (NetherNetTls Str)

-- strings.TrimSpace, the empty text, "0.0.0.0", the runes and the bytes of a text, the runes that a
-- name may have, tls.X509KeyPair, net.ParseIP with IP.Equal, and the certificates of the service.
pub record Texts (Str : Type 0) : Type 0 where
  pub trim : Str → Str
  pub empty : Str
  pub all_interfaces : Str
  pub runes : Str → List ℕ
  pub size : Str → ℕ
  pub allowed_rune : ℕ → Bool
  pub is_key_pair : Str → Str → Bool
  pub parse_ip : Str → Option Str
  pub has_certificate : Str → Bool

-- A port on an address, with TCP or UDP.
pub record Endpoint (Str : Type 0) : Type 0 where
  pub addr : Str
  pub port : ℤ
  pub is_tcp : Bool

abbrev pub port_or : {Str : Type 0} → (NetherNetTls Str → ℤ) → ℤ → Option (NetherNetTls Str) → ℤ
port_or field listen_port none = listen_port
port_or field listen_port (some t) = if exceeds (field t) 0 then field t else listen_port

-- NetherNetPorts
abbrev pub signal_port_of : {Str : Type 0} → ℤ → Option (NetherNetTls Str) → ℤ
signal_port_of listen_port t = port_or (λ x. x.signal_port) listen_port t

abbrev pub data_port_of : {Str : Type 0} → ℤ → Option (NetherNetTls Str) → ℤ
data_port_of listen_port t = port_or (λ x. x.data_port) listen_port t

abbrev pub is_transport : Protocol → Bool
is_transport tcp = true
is_transport udp = true
is_transport both = true
is_transport no_protocol = false
is_transport unknown_protocol = false

abbrev pub bad_port : ℤ → Bool
bad_port p = not (exceeds p 0) || exceeds p 65535

unfoldable pub all_allowed : (ℕ → Bool) → List ℕ → Bool
all_allowed allowed [] = true
all_allowed allowed (c ∷ cs) = allowed c && all_allowed allowed cs

module _ {Str : Type 0} ⦃es : Eq Str⦄ (x : Texts Str) where
  unfoldable pub normalize_listen_addr : Str → Str
  normalize_listen_addr addr =
      if es.beq (x.trim addr) x.empty then x.all_interfaces else x.trim addr

  unfoldable pub normalize_tls : Option (NetherNetTls Str) → Option (NetherNetTls Str)
  normalize_tls none = none
  normalize_tls (some t) = some (record t {
    cert_id = x.trim t.cert_id;
    cert_pem = x.trim t.cert_pem;
    key_pem = x.trim t.key_pem;
  })

  unfoldable pub bad_tls : Option (NetherNetTls Str) → Bool
  bad_tls none = false
  bad_tls (some t) =
      if is_negative t.data_port
        || exceeds t.data_port 65535
        || is_negative t.signal_port
        || exceeds t.signal_port 65535
      then true
      else if not t.enabled
      then false
      else if not (es.beq (x.trim t.cert_id) x.empty)
      then false
      else if es.beq (x.trim t.cert_pem) x.empty || es.beq (x.trim t.key_pem) x.empty
      then true
      else if ltb 131072 (x.size t.cert_pem) || ltb 131072 (x.size t.key_pem)
      then true
      else not (x.is_key_pair t.cert_pem t.key_pem)

  unfoldable pub bad_name : Str → Bool
  bad_name name =
      es.beq name x.empty
      || ltb 64 (length (x.runes name))
      || not (all_allowed x.allowed_rune (x.runes name))

  unfoldable pub bad_nethernet : ForwardRule Str → Bool
  bad_nethernet r =
      r.nethernet
      && (not r.transparent
          || not (protocol_eq r.protocol udp)
          || exceeds (data_port_of r.listen_port r.nethernet_tls) 65535)

  abbrev pub normalized : ForwardRule Str → ForwardRule Str
  normalized r = record r {
    name = x.trim r.name;
    target_addr = x.trim r.target_addr;
    listen_addr = normalize_listen_addr r.listen_addr;
    comment = x.trim r.comment;
  }

  -- The checks of ValidateForwardRule, which are those of ValidateCreateRuleRequest too.
  unfoldable pub bad_rule : ForwardRule Str → Bool
  bad_rule r =
      bad_name r.name
      || es.beq r.target_addr x.empty
      || bad_port r.listen_port
      || bad_port r.target_port
      || not (is_transport r.protocol)
      || (r.transparent && r.proxy_protocol)
      || (r.transparent && not (protocol_eq r.protocol udp))
      || bad_nethernet r
      || bad_tls r.nethernet_tls

  unfoldable pub validate_forward_rule : ForwardRule Str → Outcome RuleError (ForwardRule Str)
  validate_forward_rule r =
      let n = normalized r in
      if bad_rule n
      then failed err_invalid_rule
      else done (record n { nethernet_tls = normalize_tls n.nethernet_tls })

  -- An empty protocol of a request is TCP.
  unfoldable pub validate_create_rule_request :
      ForwardRule Str → Outcome RuleError (ForwardRule Str)
  validate_create_rule_request r =
      validate_forward_rule
        (record r { protocol = if protocol_eq r.protocol no_protocol then tcp else r.protocol })

  abbrev pub endpoint : Str → ℤ → Bool → Endpoint Str
  endpoint addr port is_tcp = record { addr = addr; port = port; is_tcp = is_tcp }

  abbrev pub transport_endpoints : Str → ℤ → Protocol → List (Endpoint Str)
  transport_endpoints addr port tcp = endpoint addr port true ∷ []
  transport_endpoints addr port udp = endpoint addr port false ∷ []
  transport_endpoints addr port both = endpoint addr port true ∷ endpoint addr port false ∷ []
  transport_endpoints addr port no_protocol = []
  transport_endpoints addr port unknown_protocol = []

  abbrev pub nethernet_endpoints : Str → (signal port udp_port : ℤ) → List (Endpoint Str)
  nethernet_endpoints addr signal port udp_port =
      endpoint addr signal true
      ∷ (if int_eq udp_port port
          then endpoint addr udp_port false ∷ []
          else endpoint addr port false ∷ endpoint addr udp_port false ∷ [])

  -- getRulePortEndpoints
  unfoldable pub rule_port_endpoints : ForwardRule Str → List (Endpoint Str)
  rule_port_endpoints r =
      let addr = normalize_listen_addr r.listen_addr in
      if r.nethernet
      then nethernet_endpoints addr (signal_port_of r.listen_port r.nethernet_tls) r.listen_port
          (data_port_of r.listen_port r.nethernet_tls)
      else transport_endpoints addr r.listen_port r.protocol

  abbrev pub clash : Endpoint Str → Endpoint Str → Bool
  clash a b = bool_eq a.is_tcp b.is_tcp && int_eq a.port b.port && es.beq a.addr b.addr

  unfoldable pub clash_any : Endpoint Str → List (Endpoint Str) → Bool
  clash_any a [] = false
  clash_any a (b ∷ bs) = clash a b || clash_any a bs

  unfoldable pub clash_all : List (Endpoint Str) → List (Endpoint Str) → Bool
  clash_all [] bs = false
  clash_all (a ∷ rest) bs = clash_any a bs || clash_all rest bs

  -- checkPortConflictEx; the rule with the id `excluded` is passed over.
  unfoldable pub port_conflict :
      (excluded : Str) → List (Endpoint Str) → Map Str (ForwardRule Str) → Bool
  port_conflict excluded eps [] = false
  port_conflict excluded eps ((k, r) ∷ rules) =
      let rest = port_conflict excluded eps rules in
      if es.beq r.id excluded then rest else clash_all eps (rule_port_endpoints r) || rest

  -- Two texts of the same target.
  unfoldable pub same_target : Str → Str → Bool
  same_target a b = elim (x.parse_ip a) [
    | none ↦ es.beq b a
    | some i ↦ elim (x.parse_ip b) [ none ↦ es.beq b a | some j ↦ es.beq i j ]
  ]

  -- checkTransparentTargetDuplicate
  unfoldable pub transparent_duplicate :
      (excluded : Str) → (target : Str) → (port : ℤ) → Map Str (ForwardRule Str) → Bool
  transparent_duplicate excluded target port [] = false
  transparent_duplicate excluded target port ((k, r) ∷ rules) =
      let rest = transparent_duplicate excluded target port rules in
      if es.beq k excluded
      then rest
      else (r.transparent
          && int_eq r.target_port port
          && same_target (x.trim target) (x.trim r.target_addr))
        || rest
