-- ===== src/Forward/Rules/Disjoint.antt =====
-- internal/forward/manager.go: no two rules listen on one endpoint, whatever the operations do.
use go_port_forward.Base.{
  ◌≡◌, List, [], ◌∷◌, some, Bool, true, false, arith, inl, inr, Bool-cases, Option-cases, sym,
  subst, ap, ◌∙◌, refl, if◌then◌else◌,
}
use go_port_forward.Base.Keys.{
  Eq, Map, lookup, insert, remove, inserted-eq, inserted-other, lookup-remove,
}
use go_port_forward.Base.Outcome.{Outcome-cases, done}
use go_port_forward.Base.Integers.{int_eq_iff}
use go_port_forward.Forward.Rules.{
  Endpoint, ForwardRule, Texts, clash, clash_any, clash_all, rule_port_endpoints, port_conflict,
  validate_forward_rule, validate_create_rule_request,
}
use go_port_forward.Forward.Rules.Manager.{
  Manager, UpdateRuleRequest, apply_update, check_rule, requires_restart, restart, add_rule,
  update_rule, delete_rule,
}

module _ {Str : Type 0} ⦃es : Eq Str⦄ (x : Texts Str) where
  clash_any-same :
      (a e : Endpoint Str) (bs : List (Endpoint Str))
      → clash x e a ≡ true
      → clash_any x e bs ≡ true
      → clash_any x a bs ≡ true
  unfolding clash_any
  clash_any-same a e [] c h = h
  clash_any-same a e (b ∷ bs) c h = ground (
    arith,
    c,
    h,
    clash_any-same a e bs c,
    es.beq_iff e.addr a.addr,
    es.beq_iff e.addr b.addr,
    es.beq_iff a.addr b.addr,
    int_eq_iff e.port a.port,
    int_eq_iff e.port b.port,
    int_eq_iff a.port b.port,
  )

  clash_all-common :
      (e : Endpoint Str) (bs cs : List (Endpoint Str))
      → clash_all x bs cs ≡ false
      → clash_any x e bs ≡ true
      → clash_any x e cs ≡ false
  unfolding clash_any clash_all
  clash_all-common e [] cs h f = absurd (cc f)
  clash_all-common e (b ∷ bs) cs h f = elim (Bool-cases (clash x e b)) [
    | inl c ↦ ground (arith, h, clash_any-same b e cs c)
    | inr c ↦ clash_all-common e bs cs (ground (arith, h)) (ground (arith, c, f))
  ]

  conflict-lookup :
      (k excluded : Str) (r : ForwardRule Str) (eps : List (Endpoint Str))
      (m : Map Str (ForwardRule Str))
      → port_conflict x excluded eps m ≡ false
      → lookup k m ≡ some r
      → es.beq r.id excluded ≡ false
      → clash_all x eps (rule_port_endpoints x r) ≡ false
  unfolding port_conflict lookup
  conflict-lookup k excluded r eps [] h l n = absurd (cc l)
  conflict-lookup k excluded r eps ((j, s) ∷ m) h l n =
      ground (arith, h, l, n, conflict-lookup k excluded r eps m)

  -- The id is the key and is not empty, and no endpoint belongs to two rules.
  pub record AreDisjoint (m : Map Str (ForwardRule Str)) : Type 0 where
    pub keyed :
        (k : Str) (r : ForwardRule Str)
        → lookup k m ≡ some r
        → (r.id ≡ k) × (es.beq k x.empty ≡ false)
    pub alone :
        (e : Endpoint Str) (k j : Str) (r s : ForwardRule Str)
        → lookup k m ≡ some r
        → lookup j m ≡ some s
        → clash_any x e (rule_port_endpoints x r) ≡ true
        → clash_any x e (rule_port_endpoints x s) ≡ true
        → k ≡ j

  conflict-endpoint :
      (e : Endpoint Str) (k excluded : Str) (r new : ForwardRule Str)
      (m : Map Str (ForwardRule Str))
      → AreDisjoint m
      → port_conflict x excluded (rule_port_endpoints x new) m ≡ false
      → lookup k m ≡ some r
      → es.beq k excluded ≡ false
      → clash_any x e (rule_port_endpoints x new) ≡ true
      → clash_any x e (rule_port_endpoints x r) ≡ false
  conflict-endpoint e k excluded r new m v h l n c =
      clash_all-common e (rule_port_endpoints x new) (rule_port_endpoints x r)
        (conflict-lookup k excluded r (rule_port_endpoints x new) m h l
          (ground (arith, n, v.keyed k r l)))
        c

  insert-apart :
      (id excluded : Str) (new : ForwardRule Str) (m : Map Str (ForwardRule Str))
      → AreDisjoint m
      → port_conflict x excluded (rule_port_endpoints x new) m ≡ false
      → ((k : Str)
          → es.beq id k ≡ false
          → (r : ForwardRule Str) → lookup k m ≡ some r
          → es.beq k excluded ≡ false)
      → (e : Endpoint Str) (k j : Str) (r s : ForwardRule Str) → lookup k (insert id new m) ≡ some r
      → lookup j (insert id new m) ≡ some s
      → clash_any x e (rule_port_endpoints x r) ≡ true
      → clash_any x e (rule_port_endpoints x s) ≡ true
      → es.beq id k ≡ true
      → es.beq id j ≡ false
      → ⊥
  insert-apart id excluded new m v h o e k j r s l g c d t u =
      let old : lookup j m ≡ some s = inserted-other id j new (some s) m g u in
      let mine : clash_any x e (rule_port_endpoints x new) ≡ true =
        subst (λ z. clash_any x e (rule_port_endpoints x z) ≡ true) (inserted-eq id k new r m l t)
          c in
      let other = conflict-endpoint e j excluded s new m v h old (o j u s old) mine in cc (d, other)

  pub insert-AreDisjoint :
      (id excluded : Str) (new : ForwardRule Str) (m : Map Str (ForwardRule Str))
      → AreDisjoint m
      → new.id ≡ id
      → es.beq id x.empty ≡ false
      → port_conflict x excluded (rule_port_endpoints x new) m ≡ false
      → ((k : Str)
          → es.beq id k ≡ false
          → (r : ForwardRule Str) → lookup k m ≡ some r
          → es.beq k excluded ≡ false)
      → AreDisjoint (insert id new m)
  insert-AreDisjoint id excluded new m v i n h o = record {
    keyed = λ k r l. elim (Bool-cases (es.beq id k)) [
      | inl t ↦
          let same : id ≡ k = (es.beq_iff id k).0 t in
          let q : r ≡ new = inserted-eq id k new r m l t in
          (ap (λ z. z.id) q ∙ i ∙ same, subst (λ z. es.beq z x.empty ≡ false) same n)
      | inr f ↦ v.keyed k r (inserted-other id k new (some r) m l f)
    ];
    alone = λ e k j r s l g c d. elim (Bool-cases (es.beq id k)) [
      | inl t ↦ elim (Bool-cases (es.beq id j)) [
        | inl u ↦ sym ((es.beq_iff id k).0 t) ∙ (es.beq_iff id j).0 u
        | inr u ↦ absurd (insert-apart id excluded new m v h o e k j r s l g c d t u)
      ]
      | inr t ↦ elim (Bool-cases (es.beq id j)) [
        | inl u ↦ absurd (insert-apart id excluded new m v h o e j k s r g l d c u t)
        | inr u ↦
            v.alone e k j r s (inserted-other id k new (some r) m l t)
              (inserted-other id j new (some s) m g u) c d
      ]
    ];
  }

  pub remove-AreDisjoint :
      (id : Str) (m : Map Str (ForwardRule Str)) → AreDisjoint m → AreDisjoint (remove id m)
  remove-AreDisjoint id m v = record {
    keyed = λ k r l. v.keyed k r (ground (arith, l, lookup-remove id k m));
    alone = λ e k j r s l g.
        v.alone e k j r s (ground (arith, l, lookup-remove id k m))
          (ground (arith, g, lookup-remove id j m));
  }

  checked-conflict :
      (excluded : Str) (r n : ForwardRule Str) (m : Map Str (ForwardRule Str))
      → check_rule x excluded r m ≡ done n
      → (n ≡ r) × (port_conflict x excluded (rule_port_endpoints x r) m ≡ false)
  unfolding check_rule
  checked-conflict excluded r n m h = ground (arith, h)

  valid-id : (r n : ForwardRule Str) → validate_forward_rule x r ≡ done n → n.id ≡ r.id
  unfolding validate_forward_rule
  valid-id r n h = ground (arith, h)

  pub added-rules :
      (id : Str) (saved starts : Bool) (req : ForwardRule Str) (m n : Manager Str)
      → add_rule x id saved starts req m ≡ done n
      → (r : ForwardRule Str) × (r.id ≡ id)
        × (port_conflict x x.empty (rule_port_endpoints x r) m.rules ≡ false)
        × (n ≡ record { rules = insert id r m.rules; running = restart x starts r m.running })
  unfolding add_rule rule_port_endpoints
  added-rules id saved starts req m n h =
      elim (Outcome-cases (validate_create_rule_request x req)) [
        | inl (e, f) ↦ absurd (ground (arith, h, f))
        | inr (valid, f) ↦ elim (Outcome-cases (check_rule x x.empty valid m.rules)) [
          | inl (e, g) ↦ absurd (ground (arith, h, f, g))
          | inr (r, g) ↦
              let (q, c) = checked-conflict x.empty valid r m.rules g in
              (
                record r { id = id },
                refl,
                subst (λ z. port_conflict x x.empty (rule_port_endpoints x z) m.rules ≡ false)
                    (sym q) c,
                ground (arith, h, f, g),
              )
        ]
      ]

  pub updated-rules :
      (id : Str) (saved starts : Bool) (req : UpdateRuleRequest Str) (m n : Manager Str)
      → update_rule x id saved starts req m ≡ done n
      → (current r : ForwardRule Str) × (lookup id m.rules ≡ some current)
        × (r.id ≡ current.id)
        × (port_conflict x id (rule_port_endpoints x r) m.rules ≡ false)
        × (n ≡ record {
          rules = insert id r m.rules;
          running =
              if requires_restart x current r then restart x starts r m.running else m.running;
        })
  unfolding update_rule apply_update
  updated-rules id saved starts req m n h = elim (Option-cases (lookup id m.rules)) [
    | inl l ↦ absurd (ground (arith, h, l))
    | inr (current, l) ↦
        elim (Outcome-cases (validate_forward_rule x (apply_update x current req))) [
          | inl (e, f) ↦ absurd (ground (arith, h, l, f))
          | inr (valid, f) ↦ elim (Outcome-cases (check_rule x id valid m.rules)) [
            | inl (e, g) ↦ absurd (ground (arith, h, l, f, g))
            | inr (r, g) ↦
                let (q, c) = checked-conflict id valid r m.rules g in
                (
                  current,
                  r,
                  l,
                  ap (λ z. z.id) q ∙ valid-id (apply_update x current req) valid f,
                  subst (λ z. port_conflict x id (rule_port_endpoints x z) m.rules ≡ false) (sym q)
                      c,
                  ground (arith, h, l, f, g),
                )
          ]
        ]
  ]

  pub deleted-rules :
      (id : Str) (saved : Bool) (m n : Manager Str)
      → delete_rule x id saved m ≡ done n
      → n ≡ record { rules = remove id m.rules; running = remove id m.running }
  unfolding delete_rule
  deleted-rules id saved m n h = elim (Option-cases (lookup id m.rules)) [
    | inl l ↦ absurd (ground (arith, h, l))
    | inr (current, l) ↦ ground (arith, h, l)
  ]
