-- ===== src/Forward/Rules/Reached.antt =====
-- internal/forward/manager.go: sequences of the operations on the rules.
use go_port_forward.Base.{
  ◌≡◌, none, some, Bool, true, false, arith, inl, inr, Bool-cases, sym, subst, ◌∙◌,
}
use go_port_forward.Base.Keys.{Eq, lookup}
use go_port_forward.Base.Outcome.{done}
use go_port_forward.Forward.Rules.{Endpoint, ForwardRule, Texts, clash_any, rule_port_endpoints}
use go_port_forward.Forward.Rules.Manager.{
  Manager, UpdateRuleRequest, requires_restart, add_rule, update_rule, delete_rule,
}
use go_port_forward.Forward.Rules.Disjoint.{
  AreDisjoint, insert-AreDisjoint, remove-AreDisjoint, added-rules, updated-rules, deleted-rules,
}
use go_port_forward.Forward.Rules.Running.{
  IsServing, restarted-IsServing, rewritten-IsServing, deleted-IsServing,
}

module _ {Str : Type 0} ⦃es : Eq Str⦄ (x : Texts Str) where
  -- The calls that succeed, in any order; the uuid of a new rule is no id of the table.
  pub data Reached (from : Manager Str) : Manager Str → Type 0 where
    at_start : Reached from from
    after_add :
        (id : Str) (saved starts : Bool) (req : ForwardRule Str) (m n : Manager Str)
        → Reached from m
        → lookup id m.rules ≡ none
        → es.beq id x.empty ≡ false
        → add_rule x id saved starts req m ≡ done n
        → Reached from n
    after_update :
        (id : Str) (saved starts : Bool) (req : UpdateRuleRequest Str) (m n : Manager Str)
        → Reached from m
        → update_rule x id saved starts req m ≡ done n
        → Reached from n
    after_delete :
        (id : Str) (saved : Bool) (m n : Manager Str)
        → Reached from m
        → delete_rule x id saved m ≡ done n
        → Reached from n

  -- After any successful additions of rules under fresh ids, updates and deletions, from a table
  -- where this holds: the id of a rule is its key and is not empty, and no port of an address with
  -- TCP or UDP belongs to two rules.
  pub Reached-AreDisjoint :
      (from m : Manager Str) → Reached from m → AreDisjoint x from.rules → AreDisjoint x m.rules
  Reached-AreDisjoint from _ at_start v = v
  Reached-AreDisjoint from _ (after_add id saved starts req m n p new e h) v =
      let w : AreDisjoint x m.rules = Reached-AreDisjoint from m p v in
      let (r, i, c, q) = added-rules x id saved starts req m n h in
      subst (λ z. AreDisjoint x z.rules) (sym q)
        (insert-AreDisjoint x id x.empty r m.rules w i e c (λ k t s l. (w.keyed k s l).1))
  Reached-AreDisjoint from _ (after_update id saved starts req m n p h) v =
      let w : AreDisjoint x m.rules = Reached-AreDisjoint from m p v in
      let (current, r, l, i, c, q) = updated-rules x id saved starts req m n h in
      let (own, e) = w.keyed id current l in
      subst (λ z. AreDisjoint x z.rules) (sym q)
        (insert-AreDisjoint x id id r m.rules w (i ∙ own) e c
          (λ k t s g. ground (arith, t, es.beq_iff id k, es.beq_iff k id)))
  Reached-AreDisjoint from _ (after_delete id saved m n p h) v =
      subst (λ z. AreDisjoint x z.rules) (sym (deleted-rules x id saved m n h))
        (remove-AreDisjoint x id m.rules (Reached-AreDisjoint from m p v))

  -- From a state where this and the condition on the ports hold, and after any such operations: a
  -- rule with running listeners is in the table and is enabled there, and what the listeners were
  -- started with, the ports, the target, the flags and the TLS settings, is what the table has.
  pub Reached-IsServing :
      (from m : Manager Str)
      → Reached from m
      → AreDisjoint x from.rules
      → IsServing x from
      → IsServing x m
  Reached-IsServing from _ at_start d v = v
  Reached-IsServing from _ (after_add id saved starts req m n p new e h) d v =
      let (r, i, c, q) = added-rules x id saved starts req m n h in
      subst (IsServing x) (sym q)
        (restarted-IsServing x id starts r m (Reached-IsServing from m p d v) i)
  Reached-IsServing from _ (after_update id saved starts req m n p h) d v =
      let w : IsServing x m = Reached-IsServing from m p d v in
      let (current, r, l, i, c, q) = updated-rules x id saved starts req m n h in
      let own : current.id ≡ id = ((Reached-AreDisjoint from m p d).keyed id current l).0 in
      elim (Bool-cases (requires_restart x current r)) [
        | inl t ↦
            subst (IsServing x) (sym (q ∙ ground (arith, t)))
              (restarted-IsServing x id starts r m w (i ∙ own))
        | inr t ↦
            subst (IsServing x) (sym (q ∙ ground (arith, t)))
              (rewritten-IsServing x id current r m w l t)
      ]
  Reached-IsServing from _ (after_delete id saved m n p h) d v =
      subst (IsServing x) (sym (deleted-rules x id saved m n h))
        (deleted-IsServing x id m (Reached-IsServing from m p d v))

  -- From a state where both conditions hold, and after any such operations: rules with running
  -- listeners that were started on a common port of an address with TCP or UDP are one rule.
  pub Reached-running_apart :
      (from m : Manager Str)
      → Reached from m
      → AreDisjoint x from.rules
      → IsServing x from
      → (e : Endpoint Str) (k j : Str) (r s : ForwardRule Str) → lookup k m.running ≡ some r
      → lookup j m.running ≡ some s
      → clash_any x e (rule_port_endpoints x r) ≡ true
      → clash_any x e (rule_port_endpoints x s) ≡ true
      → k ≡ j
  Reached-running_apart from m p d v e k j r s l g a b =
      let w : IsServing x m = Reached-IsServing from m p d v in
      let (r', h, u, _) = w.served k r l in
      let (s', i, t, _) = w.served j s g in
      (Reached-AreDisjoint from m p d).alone e k j r' s' h i
        (subst (λ z. clash_any x e z ≡ true) u.endpoints a)
        (subst (λ z. clash_any x e z ≡ true) t.endpoints b)
