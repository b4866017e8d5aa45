-- ===== src/Codes/Placed.antt =====
-- internal/storage/accesscode.go: the addresses in a bucket and the numbers of codes, when a record
-- comes, goes or changes.
use go_port_forward.Base.{
  ℕ, ◌+◌, ◌≡◌, ◌≤◌, ◌<◌, List, [], ◌∷◌, Option, some, true, false, arith, Bool-cases, Option-cases,
  inl, inr, ap, sym, subst,
}
use go_port_forward.Base.Keys.{
  Eq, lookup, insert, remove, inserted-eq, inserted-other, lookup-remove,
}
use go_port_forward.Codes.{AccessCode, Prefix, masked, last_addr, elem, is_gateway}
use go_port_forward.Codes.Bucket.{Bucket, used_ips, count_codes, remove_all}

module _ {Str : Type 0} ⦃es : Eq Str⦄ where
  pub elem-used_ips :
      (b : Bucket Str) (i : Str) (c : AccessCode Str) (a : ℕ)
      → lookup i b ≡ some c
      → c.tun_ip ≡ some a
      → elem a (used_ips b) ≡ true
  unfolding lookup elem used_ips
  elem-used_ips [] i c a h e = absurd (cc h)
  elem-used_ips ((k, d) ∷ b) i c a h e = elim (Option-cases d.tun_ip) [
    | inl n ↦ ground (arith, h, e, n, elem-used_ips b i c a)
    | inr (x, q) ↦ ground (arith, h, e, q, elem-used_ips b i c a)
  ]

  pub count-remove : (u k : Str) (b : Bucket Str) → count_codes u (remove k b) ≤ count_codes u b
  unfolding count_codes remove
  count-remove u k [] = ground arith
  count-remove u k ((j, c) ∷ b) = ground (arith, count-remove u k b)

  pub count-remove_own :
      (u k : Str) (c : AccessCode Str) (b : Bucket Str)
      → lookup k b ≡ some c
      → c.user_id ≡ u
      → count_codes u (remove k b) + 1 ≤ count_codes u b
  unfolding count_codes remove lookup
  count-remove_own u k c [] h e = absurd (cc h)
  count-remove_own u k c ((j, d) ∷ b) h e =
      ground (arith, count-remove u k b, count-remove_own u k c b, es.beq_iff c.user_id u)

  pub count-remove_all :
      (u : Str) (ks : List Str) (b : Bucket Str) → count_codes u (remove_all ks b) ≤ count_codes u b
  unfolding remove_all
  count-remove_all u [] b = ground arith
  count-remove_all u (k ∷ ks) b =
      ground (arith, count-remove u k b, count-remove_all u ks (remove k b))

  -- Every address in the bucket lies inside the pool, is not the gateway's, and is the address of one
  -- code.
  pub record IsPlaced (pool : Prefix) (gateway : Option ℕ) (b : Bucket Str) : Type 0 where
    pub alone :
        (i j : Str) (c d : AccessCode Str) (a : ℕ)
        → lookup i b ≡ some c
        → lookup j b ≡ some d
        → c.tun_ip ≡ some a
        → d.tun_ip ≡ some a
        → i ≡ j
    pub inside :
        (i : Str) (c : AccessCode Str) (a : ℕ)
        → lookup i b ≡ some c
        → c.tun_ip ≡ some a
        → (masked pool < a) × (a < last_addr pool) × (is_gateway gateway a ≡ false)

  module _ (pool : Prefix) (gateway : Option ℕ) where
    pub remove-IsPlaced :
        (k : Str) (b : Bucket Str) → IsPlaced pool gateway b → IsPlaced pool gateway (remove k b)
    remove-IsPlaced k b v = record {
      alone = λ i j c d a h g e f.
          v.alone i j c d a (ground (arith, h, lookup-remove k i b))
            (ground (arith, g, lookup-remove k j b)) e f;
      inside = λ i c a h e. v.inside i c a (ground (arith, h, lookup-remove k i b)) e;
    }

    pub remove_all-IsPlaced :
        (ks : List Str) (b : Bucket Str)
        → IsPlaced pool gateway b
        → IsPlaced pool gateway (remove_all ks b)
    unfolding remove_all
    remove_all-IsPlaced [] b v = v
    remove_all-IsPlaced (k ∷ ks) b v = remove_all-IsPlaced ks (remove k b) (remove-IsPlaced k b v)

    pub rewrite-IsPlaced :
        (id : Str) (old new : AccessCode Str) (b : Bucket Str)
        → lookup id b ≡ some old
        → new.tun_ip ≡ old.tun_ip
        → IsPlaced pool gateway b
        → IsPlaced pool gateway (insert id new b)
    rewrite-IsPlaced id old new b held same v =
        let find : (i : Str) (c : AccessCode Str) (a : ℕ)
            → lookup i (insert id new b) ≡ some c
            → c.tun_ip ≡ some a
            → (c' : AccessCode Str) × (lookup i b ≡ some c') × (c'.tun_ip ≡ some a) =
          λ i c a h e. elim (Bool-cases (es.beq id i)) [
            | inl t ↦ (
              old,
              ground (arith, held, t, es.beq_iff id i),
              cc (same, e, ap (λ r. r.tun_ip) (inserted-eq id i new c b h t)),
            )
            | inr f ↦ (c, inserted-other id i new (some c) b h f, e)
          ] in
        record {
          alone = λ i j c d a h g e f.
              let s = find i c a h e in
              let t = find j d a g f in v.alone i j s.0 t.0 a s.1 t.1 s.2 t.2;
          inside = λ i c a h e. let s = find i c a h e in v.inside i s.0 a s.1 s.2;
        }

    pub fresh-IsPlaced :
        (id : Str) (new : AccessCode Str) (a : ℕ) (b : Bucket Str)
        → new.tun_ip ≡ some a
        → elem a (used_ips b) ≡ false
        → (masked pool < a) × (a < last_addr pool) × (is_gateway gateway a ≡ false)
        → IsPlaced pool gateway b
        → IsPlaced pool gateway (insert id new b)
    fresh-IsPlaced id new a b own free ok v = record {
      alone = λ i j c d x h g e f.
          let clash : (j : Str) (d : AccessCode Str) (i : Str) (c : AccessCode Str)
              → lookup j b ≡ some d
              → d.tun_ip ≡ some x
              → lookup i (insert id new b) ≡ some c
              → es.beq id i ≡ true
              → c.tun_ip ≡ some x
              → i ≡ j =
            λ j d i c g f h s e.
              let there = elem-used_ips b j d x g f in
              let same : some x ≡ some a =
                cc (own, e, ap (λ r. r.tun_ip) (inserted-eq id i new c b h s)) in
              ground (arith, there, same, free) in
          elim (Bool-cases (es.beq id i)) [
            | inl s ↦ elim (Bool-cases (es.beq id j)) [
              | inl t ↦ ground (arith, s, t, es.beq_iff id i, es.beq_iff id j)
              | inr t ↦ clash j d i c (inserted-other id j new (some d) b g t) f h s e
            ]
            | inr s ↦ elim (Bool-cases (es.beq id j)) [
              | inl t ↦ sym (clash i c j d (inserted-other id i new (some c) b h s) e g t f)
              | inr t ↦
                  v.alone i j c d x (inserted-other id i new (some c) b h s)
                    (inserted-other id j new (some d) b g t) e f
            ]
          ];
      inside = λ i c x h e. elim (Bool-cases (es.beq id i)) [
        | inl s ↦
            let same : some x ≡ some a =
              cc (own, e, ap (λ r. r.tun_ip) (inserted-eq id i new c b h s)) in
            let eq : x ≡ a = ground (arith, same) in
            subst (λ t. (masked pool < t) × (t < last_addr pool) × (is_gateway gateway t ≡ false))
              (sym eq) ok
        | inr s ↦ v.inside i c x (inserted-other id i new (some c) b h s) e
      ];
    }
