-- ===== src/Tunnel/Signed.antt =====
-- pkg/tunnel: what it is for a hello of any version to have the MAC of a key, said of the bytes of the
-- packet, and that the readers of handshake.go and legacy.go demand it.
use go_port_forward.Base.{
  ℕ, ◌≡◌, ap, true, List, [], ◌∷◌, ◌++◌, some, take, drop, drop-drop, get_or, ◌==◌, arith,
  Bool-cases, Option-cases, inl, inr,
}
use go_port_forward.Base.Bytes.{bytes_eq, bytes_eq-eq, get_be}
use go_port_forward.Tunnel.Protocol.{ok, >>=-eq-ok}
use go_port_forward.Tunnel.Mac.{Hmac, mac_psk}
use go_port_forward.Tunnel.Handshake.Hello.{
  ClientHello, hello_domain, hello_domain5, hello_domain6, hello_mac, hello_domain_for, u64be,
  peek_hello, fields, authenticate, parse_client_hello,
}
use go_port_forward.Tunnel.Handshake.Hello.RoundTrip.{peek_hello-ok}
use go_port_forward.Tunnel.Legacy.{
  hello_domain_v3, hello_domain_for_legacy, slice, check_legacy, inspect_legacy_hello,
  legacy_version_reject,
}

-- The MAC of a layout covers the version, the code, the fingerprint, the key and the time stamp, and
-- stands behind them; the newer layout has a second fingerprint between.
abbrev short_mac : Hmac → (secret domain b : List ℕ) → (ver : ℕ) → List ℕ
short_mac m secret domain b ver =
    mac_psk m secret domain
      ((ver ∷ []) ∷ slice b 2 16 ∷ slice b 18 32 ∷ slice b 50 32 ∷ slice b 82 8 ∷ [])

abbrev long_mac : Hmac → (secret domain b : List ℕ) → (ver : ℕ) → (stamp : List ℕ) → List ℕ
long_mac m secret domain b ver stamp =
    mac_psk m secret domain
      ((ver ∷ []) ∷ slice b 2 16 ∷ slice b 18 32 ∷ slice b 50 32 ∷ slice b 82 32 ∷ stamp ∷ [])

-- The bytes of a hello carry the MAC that the key gives, by the version that they state.
pub data IsSigned (m : Hmac) (secret b : List ℕ) : Type 0 where
  version_3 :
      get_or b 1 0 ≡ 3
      → short_mac m secret hello_domain_v3 b 3 ≡ slice b 90 32
      → IsSigned m secret b
  version_4 :
      get_or b 1 0 ≡ 4 → short_mac m secret hello_domain b 4 ≡ slice b 90 32 → IsSigned m secret b
  version_5 :
      get_or b 1 0 ≡ 5
      → long_mac m secret hello_domain5 b 5 (slice b 114 8) ≡ slice b 122 32
      → IsSigned m secret b
  version_6 :
      get_or b 1 0 ≡ 6
      → long_mac m secret hello_domain6 b 6 (u64be (get_be (slice b 114 8))) ≡ slice b 122 32
      → IsSigned m secret b

second_byte : (b : List ℕ) → take 2 b ≡ 1 ∷ 6 ∷ [] → get_or b 1 0 ≡ 6
second_byte [] e = absurd (cc e)
second_byte (x ∷ []) e = absurd (cc e)
second_byte (x ∷ y ∷ r) e = cc e

module _ (m : Hmac) (secret : List ℕ) (now : ℕ) (b : List ℕ) where
  check_legacy-mac :
      (ver : ℕ) (domain : List ℕ) (second : List (List ℕ)) (eph_off ts_off mac_off : ℕ)
      (q : List ℕ × ℕ)
      → check_legacy m secret now ver domain second eph_off ts_off mac_off b ≡ some q
      → mac_psk m secret domain (
          (ver ∷ [])
          ∷ slice b 2 16
          ∷ slice b 18 32
          ∷ (second ++ (slice b eph_off 32 ∷ slice b ts_off 8 ∷ [])))
        ≡ slice b mac_off 32
  unfolding check_legacy
  check_legacy-mac ver domain second eph_off ts_off mac_off q h = bytes_eq-eq _ _ (
      let t : bytes_eq
            (mac_psk m secret domain (
              (ver ∷ [])
              ∷ slice b 2 16
              ∷ slice b 18 32
              ∷ (second ++ (slice b eph_off 32 ∷ slice b ts_off 8 ∷ []))))
            (slice b mac_off 32)
          ≡ true =
        ground (arith, h) in
      t)

  inspect-IsSigned :
      (q : List ℕ × ℕ) → inspect_legacy_hello m secret now b ≡ some q → IsSigned m secret b
  unfolding inspect_legacy_hello hello_domain_for_legacy
  inspect-IsSigned q h = elim (Bool-cases (get_or b 1 0 == 3)) [
    | inl t ↦
        let v : get_or b 1 0 ≡ 3 = ground (arith, t) in
        version_3 v (check_legacy-mac 3 hello_domain_v3 [] 50 82 90 q (ground (arith, h, v)))
    | inr f ↦ elim (Bool-cases (get_or b 1 0 == 4)) [
      | inl t ↦
          let v : get_or b 1 0 ≡ 4 = ground (arith, t) in
          version_4 v (check_legacy-mac 4 hello_domain [] 50 82 90 q (ground (arith, h, v)))
      | inr g ↦ elim (Bool-cases (get_or b 1 0 == 5)) [
        | inl t ↦
            let v : get_or b 1 0 ≡ 5 = ground (arith, t) in
            version_5 v (
              check_legacy-mac 5 hello_domain5 (slice b 50 32 ∷ []) 82 114 122 q
                (ground (arith, h, v)))
        | inr i ↦ absurd (ground (arith, h, f, g, i))
      ]
    ]
  ]

  pub legacy_version_reject-IsSigned :
      (wire : List ℕ) → legacy_version_reject m secret now b ≡ some wire → IsSigned m secret b
  unfolding legacy_version_reject
  legacy_version_reject-IsSigned wire h =
      elim (Option-cases (inspect_legacy_hello m secret now b)) [
        | inl n ↦ absurd (ground (arith, h, n))
        | inr (q, f) ↦ inspect-IsSigned q f
      ]

  authenticate-mac :
      (f h : ClientHello) → authenticate m secret now f ≡ ok h → hello_mac m f secret f.ver ≡ f.mac
  unfolding authenticate
  authenticate-mac f h e =
      bytes_eq-eq _ _
        (let t : bytes_eq (hello_mac m f secret f.ver) f.mac ≡ true = ground (arith, e) in t)

  field-mac :
      let f = fields b (take 16 (drop 2 b)) 6 in
      hello_mac m f secret 6 ≡ f.mac
      → long_mac m secret hello_domain6 b 6 (u64be (get_be (slice b 114 8))) ≡ slice b 122 32
  unfolding fields hello_mac hello_domain_for
  field-mac e =
      let d1 : drop 32 (drop 18 b) ≡ drop 50 b = drop-drop 18 32 b in
      let d2 : drop 32 (drop 50 b) ≡ drop 82 b = drop-drop 50 32 b in
      let d3 : drop 32 (drop 82 b) ≡ drop 114 b = drop-drop 82 32 b in
      let d4 : drop 8 (drop 114 b) ≡ drop 122 b = drop-drop 114 8 b in rw (d1, d2, d3, d4) at e

  pub parse_client_hello-IsSigned :
      (h : ClientHello) → parse_client_hello m secret now b ≡ ok h → IsSigned m secret b
  unfolding parse_client_hello fields
  parse_client_hello-IsSigned h e =
      let (p, peeked, read) = >>=-eq-ok (peek_hello b) _ e in
      let (len, two, what) = peek_hello-ok b peeked in
      let f = fields b (take 16 (drop 2 b)) 6 in
      let mac =
        authenticate-mac f h (rw (ap (λ (q : List ℕ × ℕ). fields b q.0 q.1) what) at read) in
      version_6 (second_byte b two) (field-mac mac)
