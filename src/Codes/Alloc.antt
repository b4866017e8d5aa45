-- ===== src/Codes/Alloc.antt =====
-- internal/storage/user.go, allocTunIP: which address it gives.
use go_port_forward.Base.{
  ℕ, zero, suc, ◌+◌, ◌-◌, ◌≡◌, ◌≤◌, ◌<◌, List, Option, none, some, Bool, true, false, if◌then◌else◌,
  arith, Bool-cases, Option-cases, inl, inr, ℕ_discrete, subst,
}
use go_port_forward.Base.Outcome.{failed, done}
use go_port_forward.Codes.{
  CodeError, err_tun_pool_full, Prefix, masked, last_addr, elem, is_gateway, first_unused,
  alloc_tun_ip,
}

-- The address is neither the gateway nor in use.
abbrev pub is_free : Option ℕ → List ℕ → ℕ → Bool
is_free gateway used a = if is_gateway gateway a then false else if elem a used then false else true

first_unused-some :
    (left addr : ℕ) (gateway : Option ℕ) (used : List ℕ) (a : ℕ)
    → first_unused left addr gateway used ≡ some a
    → (addr ≤ a)
      × (a < addr + left)
      × (is_free gateway used a ≡ true)
      × ((b : ℕ) → addr ≤ b → b < a → is_free gateway used b ≡ false)
unfolding first_unused
first_unused-some zero addr gateway used a h = absurd (cc h)
first_unused-some (suc left) addr gateway used a h = elim (Bool-cases (is_free gateway used addr)) [
  | inl free ↦ ground (arith, h, free)
  | inr taken ↦ ground (arith, h, taken, first_unused-some left (addr + 1) gateway used a)
]

first_unused-none :
    (left addr : ℕ) (gateway : Option ℕ) (used : List ℕ)
    → first_unused left addr gateway used ≡ none
    → (b : ℕ) → addr ≤ b
    → b < addr + left
    → is_free gateway used b ≡ false
unfolding first_unused
first_unused-none zero addr gateway used h b lo hi = absurd (omega arith)
first_unused-none (suc left) addr gateway used h b lo hi = elim (ℕ_discrete b addr) [
  | yes e ↦ ground (arith, h, e)
  | no ne ↦
      first_unused-none left (addr + 1) gateway used (ground (arith, h)) b (omega arith)
        (omega arith)
]

-- In an IPv4 prefix: an address that is given lies strictly between the network address and the
-- broadcast address, is neither the gateway's nor in use, and is the least such address; an error
-- says that the pool is full, and then there is no such address.
pub alloc_tun_ip-least :
    (p : Prefix) (gateway : Option ℕ) (used : List ℕ)
    → ((a : ℕ)
        → alloc_tun_ip (some p) gateway used ≡ done a
        → (masked p < a)
          × (a < last_addr p)
          × (is_free gateway used a ≡ true)
          × ((b : ℕ) → masked p < b → b < a → is_free gateway used b ≡ false))
      × ((e : CodeError)
          → alloc_tun_ip (some p) gateway used ≡ failed e
          → (e ≡ err_tun_pool_full)
            × ((b : ℕ) → masked p < b → b < last_addr p → is_free gateway used b ≡ false))
unfolding alloc_tun_ip
alloc_tun_ip-least p gateway used =
    elim (Option-cases (first_unused (last_addr p - (masked p + 1)) (masked p + 1) gateway used)) [
      | inl none_left ↦ (
        λ a h. absurd (cc (h, none_left)),
        λ e h. (
          cc (h, none_left),
          λ b lo hi.
              first_unused-none (last_addr p - (masked p + 1)) (masked p + 1) gateway used none_left
                b (omega arith) (omega arith),
        ),
      )
      | inr (a0, found) ↦ (
        λ a h.
            let r =
              first_unused-some (last_addr p - (masked p + 1)) (masked p + 1) gateway used a0
                found in
            let same : a0 ≡ a = ground (arith, h, found) in
            let q : (masked p + 1 ≤ a)
                × (a < masked p + 1 + (last_addr p - (masked p + 1)))
                × (is_free gateway used a ≡ true)
                × ((b : ℕ) → masked p + 1 ≤ b → b < a → is_free gateway used b ≡ false) =
              subst
                (λ t.
                  (masked p + 1 ≤ t)
                  × (t < masked p + 1 + (last_addr p - (masked p + 1)))
                  × (is_free gateway used t ≡ true)
                  × ((b : ℕ) → masked p + 1 ≤ b → b < t → is_free gateway used b ≡ false))
                same r in
            let low : masked p + 1 ≤ a = q.0 in
            let high : a < masked p + 1 + (last_addr p - (masked p + 1)) = q.1 in
            (omega arith, omega arith, q.2, λ b lo hi. q.3 b (omega arith) hi),
        λ e h. absurd (cc (h, found)),
      )
    ]
