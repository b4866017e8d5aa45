-- ===== src/Forward/Rules/Running.antt =====
-- internal/forward/manager.go: which listeners run, and for which version of a rule.
use go_port_forward.Base.{
  ◌≡◌, Option, none, some, Bool, true, false, arith, inl, inr, Bool-cases, sym, subst, ap, ◌∙◌,
  refl, bool_eq-eq,
}
use go_port_forward.Base.Keys.{Eq, Map, lookup, insert, remove, lookup-remove, lookup-insert}
use go_port_forward.Base.Integers.{int_eq_iff}
use go_port_forward.Forward.Rules.{
  Protocol, protocol_eq, tcp, udp, both, no_protocol, unknown_protocol, NetherNetTls, ForwardRule,
  Texts, rule_port_endpoints, normalize_listen_addr,
}
use go_port_forward.Forward.Rules.Manager.{Manager, tls_equal, requires_restart, restart}

protocol_eq-eq : (a b : Protocol) → protocol_eq a b ≡ true → a ≡ b
unfolding protocol_eq
protocol_eq-eq tcp b h = ground arith
protocol_eq-eq udp b h = ground arith
protocol_eq-eq both b h = ground arith
protocol_eq-eq no_protocol b h = ground arith
protocol_eq-eq unknown_protocol b h = ground arith

module _ {Str : Type 0} ⦃es : Eq Str⦄ (x : Texts Str) where
  tls_equal-eq : (a b : Option (NetherNetTls Str)) → tls_equal x a b ≡ true → a ≡ b
  unfolding tls_equal
  tls_equal-eq none none h = refl
  tls_equal-eq none (some b) h = absurd (cc h)
  tls_equal-eq (some a) none h = absurd (cc h)
  tls_equal-eq (some a) (some b) h = ground (
    arith,
    h,
    es.beq_iff a.cert_id b.cert_id,
    es.beq_iff a.cert_pem b.cert_pem,
    es.beq_iff a.key_pem b.key_pem,
    bool_eq-eq a.enabled b.enabled,
    int_eq_iff a.signal_port b.signal_port,
    int_eq_iff a.data_port b.data_port,
    bool_eq-eq a.dual b.dual,
  )

  -- `before` and `after` agree on what their listeners are started with.
  pub record IsServedBy (after before : ForwardRule Str) : Type 0 where
    pub endpoints : rule_port_endpoints x before ≡ rule_port_endpoints x after
    pub target_addr : before.target_addr ≡ after.target_addr
    pub target_port : before.target_port ≡ after.target_port
    pub proxy_protocol : before.proxy_protocol ≡ after.proxy_protocol
    pub transparent : before.transparent ≡ after.transparent
    pub enabled : before.enabled ≡ after.enabled
    pub nethernet : before.nethernet ≡ after.nethernet
    pub tls : before.nethernet_tls ≡ after.nethernet_tls

  kept-IsServedBy :
      (before after : ForwardRule Str)
      → requires_restart x before after ≡ false
      → IsServedBy after before
  unfolding requires_restart rule_port_endpoints
  kept-IsServedBy before after h =
      let t : before.nethernet_tls ≡ after.nethernet_tls =
        tls_equal-eq before.nethernet_tls after.nethernet_tls (ground (arith, h)) in
      let p : before.protocol ≡ after.protocol =
        protocol_eq-eq before.protocol after.protocol (ground (arith, h)) in
      let l : before.listen_port ≡ after.listen_port =
        (int_eq_iff before.listen_port after.listen_port).0 (ground (arith, h)) in
      let n : before.nethernet ≡ after.nethernet =
        bool_eq-eq before.nethernet after.nethernet (ground (arith, h)) in
      let a : normalize_listen_addr x before.listen_addr
          ≡ normalize_listen_addr x after.listen_addr =
        (es.beq_iff (normalize_listen_addr x before.listen_addr)
            (normalize_listen_addr x after.listen_addr)).0
          (ground (arith, h)) in
      record {
        endpoints = cc (t, p, l, n, a);
        target_addr = (es.beq_iff before.target_addr after.target_addr).0 (ground (arith, h));
        target_port = (int_eq_iff before.target_port after.target_port).0 (ground (arith, h));
        proxy_protocol = bool_eq-eq before.proxy_protocol after.proxy_protocol (ground (arith, h));
        transparent = bool_eq-eq before.transparent after.transparent (ground (arith, h));
        enabled = bool_eq-eq before.enabled after.enabled (ground (arith, h));
        nethernet = n;
        tls = t;
      }

  pub record IsServing (m : Manager Str) : Type 0 where
    pub served :
        (k : Str) (r : ForwardRule Str)
        → lookup k m.running ≡ some r
        → (s : ForwardRule Str) × (lookup k m.rules ≡ some s) × IsServedBy s r × (s.enabled ≡ true)

  same-IsServedBy : (r : ForwardRule Str) → IsServedBy r r
  same-IsServedBy r = record {
    endpoints = refl;
    target_addr = refl;
    target_port = refl;
    proxy_protocol = refl;
    transparent = refl;
    enabled = refl;
    nethernet = refl;
    tls = refl;
  }

  later-IsServedBy : (a b c : ForwardRule Str) → IsServedBy b a → IsServedBy c b → IsServedBy c a
  later-IsServedBy a b c u v = record {
    endpoints = u.endpoints ∙ v.endpoints;
    target_addr = u.target_addr ∙ v.target_addr;
    target_port = u.target_port ∙ v.target_port;
    proxy_protocol = u.proxy_protocol ∙ v.proxy_protocol;
    transparent = u.transparent ∙ v.transparent;
    enabled = u.enabled ∙ v.enabled;
    nethernet = u.nethernet ∙ v.nethernet;
    tls = u.tls ∙ v.tls;
  }

  restart-own :
      (starts : Bool) (new : ForwardRule Str) (m : Map Str (ForwardRule Str)) (k : Str)
      (r : ForwardRule Str)
      → lookup k (restart x starts new m) ≡ some r
      → es.beq new.id k ≡ true
      → (r ≡ new) × (new.enabled ≡ true)
  unfolding restart
  restart-own starts new m k r l t =
      ground (arith, l, t, lookup-remove new.id k m, lookup-insert new.id k new m)

  restart-other :
      (starts : Bool) (new : ForwardRule Str) (m : Map Str (ForwardRule Str)) (k : Str)
      (o : Option (ForwardRule Str))
      → lookup k (restart x starts new m) ≡ o
      → es.beq new.id k ≡ false
      → lookup k m ≡ o
  unfolding restart
  restart-other starts new m k o l t =
      ground (arith, l, t, lookup-remove new.id k m, lookup-insert new.id k new m)

  pub restarted-IsServing :
      (id : Str) (starts : Bool) (new : ForwardRule Str) (m : Manager Str)
      → IsServing m
      → new.id ≡ id
      → IsServing
          (record { rules = insert id new m.rules; running = restart x starts new m.running })
  restarted-IsServing id starts new m v i = record {
    served = λ k r l. elim (Bool-cases (es.beq id k)) [
      | inl t ↦
          let (q, e) = restart-own starts new m.running k r l (ground (arith, i, t)) in
          (
            new,
            ground (arith, t, lookup-insert id k new m.rules),
            subst (λ z. IsServedBy new z) (sym q) (same-IsServedBy new),
            e,
          )
      | inr f ↦
          let (s, h, g, e) =
            v.served k r (restart-other starts new m.running k (some r) l (ground (arith, i, f))) in
          (s, ground (arith, f, h, lookup-insert id k new m.rules), g, e)
    ];
  }

  pub rewritten-IsServing :
      (id : Str) (current new : ForwardRule Str) (m : Manager Str)
      → IsServing m
      → lookup id m.rules ≡ some current
      → requires_restart x current new ≡ false
      → IsServing (record { rules = insert id new m.rules; running = m.running })
  rewritten-IsServing id current new m v c n = record {
    served = λ k r l. elim (Bool-cases (es.beq id k)) [
      | inl t ↦
          let (s, h, g, e) = v.served k r l in
          let same : s ≡ current = ground (arith, h, c, t, es.beq_iff id k) in
          let kept : IsServedBy new current = kept-IsServedBy current new n in
          (
            new,
            ground (arith, t, lookup-insert id k new m.rules),
            later-IsServedBy r current new (subst (λ z. IsServedBy z r) same g) kept,
            sym kept.enabled ∙ ap (λ z. z.enabled) (sym same) ∙ e,
          )
      | inr f ↦
          let (s, h, g, e) = v.served k r l in
          (s, ground (arith, f, h, lookup-insert id k new m.rules), g, e)
    ];
  }

  pub deleted-IsServing :
      (id : Str) (m : Manager Str)
      → IsServing m
      → IsServing (record { rules = remove id m.rules; running = remove id m.running })
  deleted-IsServing id m v = record {
    served = λ k r l. elim (Bool-cases (es.beq id k)) [
      | inl t ↦ absurd (ground (arith, t, l, lookup-remove id k m.running))
      | inr f ↦
          let (s, h, g, e) = v.served k r (ground (arith, f, l, lookup-remove id k m.running)) in
          (s, ground (arith, f, h, lookup-remove id k m.rules), g, e)
    ];
  }
