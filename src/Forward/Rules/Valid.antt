-- ===== src/Forward/Rules/Valid.antt =====
-- internal/models/models.go: what the checks of a rule give.
use go_port_forward.Base.{
  ◌≡◌, ◌≤◌, List, [], ◌∷◌, Option, none, some, true, false, arith, inl, inr, Bool-cases, sym, subst,
  ap, ◌∙◌, refl, if◌then◌else◌,
}
use go_port_forward.Base.Keys.{Eq}
use go_port_forward.Base.Outcome.{failed, done}
use go_port_forward.Base.Integers.{ℤ, int_eq, int_eq_iff, exceeds, IsPort, exceeds-IsPort}
use go_port_forward.Forward.Rules.{
  err_invalid_rule, Protocol, tcp, udp, both, no_protocol, unknown_protocol, Endpoint, NetherNetTls,
  ForwardRule, Texts, clash, clash_any, port_or, data_port_of, transport_endpoints,
  nethernet_endpoints, rule_port_endpoints, normalize_listen_addr, normalize_tls, bad_tls, bad_rule,
  bad_nethernet, normalized, validate_forward_rule,
}

module _ {Str : Type 0} ⦃es : Eq Str⦄ (x : Texts Str) where
  -- What strings.TrimSpace does.
  pub record AreLawful : Type 0 where
    pub trim_twice : (a : Str) → x.trim (x.trim a) ≡ x.trim a
    pub trim_all_interfaces : x.trim x.all_interfaces ≡ x.all_interfaces
    pub trim_size : (a : Str) → x.size (x.trim a) ≤ x.size a

  port_or-IsPort :
      (field : NetherNetTls Str → ℤ) (p : ℤ) (t : Option (NetherNetTls Str))
      → IsPort p
      → ((s : NetherNetTls Str) → t ≡ some s → exceeds (field s) 65535 ≡ false)
      → IsPort (port_or field p t)
  port_or-IsPort field p none b h = b
  port_or-IsPort field p (some s) b h = elim (Bool-cases (exceeds (field s) 0)) [
    | inl q ↦ rw q (exceeds-IsPort (field s) q (h s refl))
    | inr q ↦ rw q b
  ]

  -- The ports of the settings are not too large.
  abbrev HasNoLargePort : Option (NetherNetTls Str) → Type 0
  HasNoLargePort t =
      (s : NetherNetTls Str)
      → t ≡ some s
      → (exceeds s.signal_port 65535 ≡ false) × (exceeds s.data_port 65535 ≡ false)

  tls-HasNoLargePort : (t : Option (NetherNetTls Str)) → bad_tls x t ≡ false → HasNoLargePort t
  unfolding bad_tls
  tls-HasNoLargePort t h s e = (ground (arith, h, e), ground (arith, h, e))

  normalize-HasNoLargePort :
      (t : Option (NetherNetTls Str)) → HasNoLargePort t → HasNoLargePort (normalize_tls x t)
  unfolding normalize_tls
  normalize-HasNoLargePort none h s e = absurd (cc e)
  normalize-HasNoLargePort (some t) h s e =
      let (a, b) = h t refl in (ground (arith, a, e), ground (arith, b, e))

  AreAllPorts : List (Endpoint Str) → Type 0
  AreAllPorts [] = Unit
  AreAllPorts (b ∷ bs) = IsPort b.port × AreAllPorts bs

  clash_any-IsPort :
      (e : Endpoint Str) (bs : List (Endpoint Str))
      → AreAllPorts bs
      → clash_any x e bs ≡ true
      → IsPort e.port
  unfolding clash_any AreAllPorts
  clash_any-IsPort e [] v c = absurd (cc c)
  clash_any-IsPort e (b ∷ bs) v c = elim (Bool-cases (clash x e b)) [
    | inl t ↦
        let same : e.port ≡ b.port = (int_eq_iff e.port b.port).0 (ground (arith, t)) in
        subst IsPort (sym same) v.0
    | inr t ↦ clash_any-IsPort e bs v.1 (ground (arith, t, c))
  ]

  transport-AreAllPorts :
      (addr : Str) (port : ℤ) (p : Protocol)
      → IsPort port
      → AreAllPorts (transport_endpoints x addr port p)
  unfolding AreAllPorts
  transport-AreAllPorts addr port tcp b = (b, tt)
  transport-AreAllPorts addr port udp b = (b, tt)
  transport-AreAllPorts addr port both b = (b, (b, tt))
  transport-AreAllPorts addr port no_protocol b = tt
  transport-AreAllPorts addr port unknown_protocol b = tt

  nethernet-AreAllPorts :
      (addr : Str) (signal port udp_port : ℤ)
      → IsPort signal
      → IsPort port
      → IsPort udp_port
      → AreAllPorts (nethernet_endpoints x addr signal port udp_port)
  unfolding AreAllPorts
  nethernet-AreAllPorts addr signal port udp_port s p u = elim (Bool-cases (int_eq udp_port port)) [
    | inl t ↦ rw t (s, (u, tt))
    | inr t ↦ rw t (s, (p, (u, tt)))
  ]

  endpoints-AreAllPorts :
      (r : ForwardRule Str)
      → IsPort r.listen_port
      → HasNoLargePort r.nethernet_tls
      → AreAllPorts (rule_port_endpoints x r)
  unfolding rule_port_endpoints
  endpoints-AreAllPorts r b h =
      let signal =
        port_or-IsPort (λ s. s.signal_port) r.listen_port r.nethernet_tls b (λ s e. (h s e).0) in
      let udp_port =
        port_or-IsPort (λ s. s.data_port) r.listen_port r.nethernet_tls b (λ s e. (h s e).1) in
      elim (Bool-cases r.nethernet) [
        | inl y ↦ rw y (nethernet-AreAllPorts _ _ _ _ signal b udp_port)
        | inr y ↦ rw y (transport-AreAllPorts _ r.listen_port r.protocol b)
      ]

  rule-IsPort :
      (n : ForwardRule Str)
      → bad_rule x n ≡ false
      → IsPort n.listen_port × IsPort n.target_port × (bad_tls x n.nethernet_tls ≡ false)
  unfolding bad_rule
  rule-IsPort n h = (
    exceeds-IsPort n.listen_port (ground (arith, h)) (ground (arith, h)),
    exceeds-IsPort n.target_port (ground (arith, h)) (ground (arith, h)),
    ground (arith, h),
  )

  trim-listen_addr :
      (a : Str)
      → AreLawful
      → normalize_listen_addr x (normalize_listen_addr x a) ≡ normalize_listen_addr x a
  unfolding normalize_listen_addr
  trim-listen_addr a v = ground (arith, v.trim_twice a, v.trim_all_interfaces)

  trim-tls :
      (t : Option (NetherNetTls Str))
      → AreLawful
      → normalize_tls x (normalize_tls x t) ≡ normalize_tls x t
  unfolding normalize_tls
  trim-tls none v = refl
  trim-tls (some t) v = cc (v.trim_twice t.cert_id, v.trim_twice t.cert_pem, v.trim_twice t.key_pem)

  -- A key pair of the settings is one when its texts are trimmed.
  abbrev KeepsPair : Option (NetherNetTls Str) → Type 0
  KeepsPair t =
      (s : NetherNetTls Str)
      → t ≡ some s
      → x.is_key_pair s.cert_pem s.key_pem ≡ true
      → x.is_key_pair (x.trim s.cert_pem) (x.trim s.key_pem) ≡ true

  trim-bad_tls :
      (t : Option (NetherNetTls Str))
      → AreLawful
      → KeepsPair t
      → bad_tls x t ≡ false
      → bad_tls x (normalize_tls x t) ≡ false
  unfolding normalize_tls bad_tls
  trim-bad_tls none v k h = refl
  trim-bad_tls (some t) v k h = ground (
    arith,
    h,
    v.trim_twice t.cert_id,
    v.trim_twice t.cert_pem,
    v.trim_twice t.key_pem,
    v.trim_size t.cert_pem,
    v.trim_size t.key_pem,
    k t refl,
  )

  trim-data_port :
      (p : ℤ) (t : Option (NetherNetTls Str))
      → data_port_of p (normalize_tls x t) ≡ data_port_of p t
  unfolding normalize_tls
  trim-data_port p none = refl
  trim-data_port p (some t) = refl

  -- A rule that passes the checks passes them again with its texts trimmed.
  trimmed-rule :
      (n : ForwardRule Str)
      → AreLawful
      → KeepsPair n.nethernet_tls
      → bad_rule x n ≡ false
      → bad_rule x (record n { nethernet_tls = normalize_tls x n.nethernet_tls }) ≡ false
  unfolding bad_rule bad_nethernet
  trimmed-rule n v k h =
      ground
        (arith, h, trim-data_port n.listen_port n.nethernet_tls, trim-bad_tls n.nethernet_tls v k)

  abbrev clean : ForwardRule Str → ForwardRule Str
  clean r = let n = normalized x r in record n { nethernet_tls = normalize_tls x n.nethernet_tls }

  clean-twice : (r : ForwardRule Str) → AreLawful → normalized x (clean r) ≡ clean r
  clean-twice r v = cc (
    v.trim_twice r.name,
    v.trim_twice r.target_addr,
    v.trim_twice r.comment,
    trim-listen_addr r.listen_addr v,
  )

  valid-rule :
      (r n : ForwardRule Str)
      → validate_forward_rule x r ≡ done n
      → (bad_rule x (normalized x r) ≡ false) × (n ≡ clean r)
  unfolding validate_forward_rule
  valid-rule r n h = ground (arith, h)

  passing-rule :
      (n : ForwardRule Str)
      → bad_rule x (normalized x n) ≡ false
      → validate_forward_rule x n ≡ done (clean n)
  unfolding validate_forward_rule
  passing-rule n h = ap (λ t. if t then failed err_invalid_rule else done (clean n)) h

  clean-stays :
      (r : ForwardRule Str)
      → AreLawful
      → KeepsPair r.nethernet_tls
      → bad_rule x (normalized x r) ≡ false
      → validate_forward_rule x (clean r) ≡ done (clean r)
  clean-stays r v k h =
      let n : ForwardRule Str = normalized x r in
      let q : normalized x (clean r) ≡ clean r = clean-twice r v in
      let t : clean (clean r) ≡ clean r = cc (q, trim-tls n.nethernet_tls v) in
      passing-rule (clean r) (ap (bad_rule x) q ∙ trimmed-rule n v k h) ∙ ap done t

  -- Where trimming a text twice is trimming it once, leaves the text for all interfaces and makes
  -- no text longer, and the key pair of the rule, if it is one, is still one when its texts are
  -- trimmed: a rule that the validation gave passes the validation again, unchanged.
  pub validate-twice :
      (r n : ForwardRule Str)
      → AreLawful
      → ((t : NetherNetTls Str)
          → r.nethernet_tls ≡ some t
          → x.is_key_pair t.cert_pem t.key_pem ≡ true
          → x.is_key_pair (x.trim t.cert_pem) (x.trim t.key_pem) ≡ true)
      → validate_forward_rule x r ≡ done n
      → validate_forward_rule x n ≡ done n
  validate-twice r n v k h =
      let (b, q) = valid-rule r n h in
      subst (λ z. validate_forward_rule x z ≡ done z) (sym q) (clean-stays r v k b)

  -- Of a rule that passed the validation, whose ports may be any integers before: the target port
  -- and every port that the rule listens on, the default ones and those of its TLS settings
  -- included, lie from 1 to 65535.
  pub validate-ports :
      (e : Endpoint Str) (r n : ForwardRule Str)
      → validate_forward_rule x r ≡ done n
      → clash_any x e (rule_port_endpoints x n) ≡ true
      → IsPort n.target_port × IsPort e.port
  validate-ports e r n h c =
      let (b, q) = valid-rule r n h in
      let (listen, target, t) = rule-IsPort (normalized x r) b in
      let small = normalize-HasNoLargePort r.nethernet_tls (tls-HasNoLargePort r.nethernet_tls t) in
      (
        subst (λ z. IsPort z.target_port) (sym q) target,
        clash_any-IsPort e (rule_port_endpoints x (clean r))
            (endpoints-AreAllPorts (clean r) listen small)
            (subst (λ z. clash_any x e (rule_port_endpoints x z) ≡ true) q c),
      )
