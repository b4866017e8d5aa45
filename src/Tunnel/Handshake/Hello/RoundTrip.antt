-- ===== src/Tunnel/Handshake/Hello/RoundTrip.antt =====
-- pkg/tunnel/handshake.go: writing and reading the client's packet.
use go_port_forward.Base.{
  ℕ, ◌^◌, ◌≡◌, ◌<◌, sym, ap, true, List, [], ◌∷◌, ◌++◌, length, take, drop, arith, length-append,
  take-append, drop-append, take-append-drop, take-eq_self, length-take, length-drop,
}
use go_port_forward.Base.Bytes.{
  length-put_be, get_be-put_be, put_be-get_be, bytes_eq_refl, bytes_eq-eq, AreBytes, AreBytes-take,
  AreBytes-drop,
}
use go_port_forward.Tunnel.Protocol.{ok, >>=-eq-ok}
use go_port_forward.Tunnel.Mac.{Hmac}
use go_port_forward.Tunnel.Handshake.Hello.{
  ClientHello, hello_mac, marshal, peek_hello, in_time, fields, authenticate, parse_client_hello,
  u64be,
}

-- The sizes of the Go arrays of a version 6 hello.
pub record IsHello (h : ClientHello) : Type 0 where
  pub uid_length : length h.uid ≡ 16
  pub device_length : length h.device ≡ 32
  pub device2_length : length h.device2 ≡ 32
  pub eph_length : length h.eph ≡ 32
  pub mac_length : length h.mac ≡ 32
  pub ts_fits : h.ts < 2 ^ 64
  pub current : h.ver ≡ 6

-- What follows the two leading bytes.
abbrev body : ClientHello → List ℕ
body h = h.uid ++ (h.device ++ (h.device2 ++ (h.eph ++ (u64be h.ts ++ h.mac))))

authenticate_self :
    (m : Hmac) (secret : List ℕ) (now : ℕ) (h : ClientHello)
    → h.ver ≡ 6
    → h.mac ≡ hello_mac m h secret 6
    → in_time now h.ts ≡ true
    → authenticate m secret now h ≡ ok h
unfolding authenticate
authenticate_self m secret now h six signed fresh =
    ground (arith, bytes_eq_refl h.mac, ap (hello_mac m h secret) six)

authenticate-ok :
    (m : Hmac) (secret : List ℕ) (now : ℕ) (h k : ClientHello)
    → authenticate m secret now h ≡ ok k
    → (h ≡ k) × (in_time now h.ts ≡ true) × (hello_mac m h secret h.ver ≡ h.mac)
unfolding authenticate
authenticate-ok m secret now h k e = ground (arith, bytes_eq-eq (hello_mac m h secret h.ver) h.mac)

module _ (h : ClientHello) (v : IsHello h) where
  length-body : length (body h) ≡ 152
  length-body = omega (
    arith,
    length-append h.uid (h.device ++ (h.device2 ++ (h.eph ++ (u64be h.ts ++ h.mac)))),
    length-append h.device (h.device2 ++ (h.eph ++ (u64be h.ts ++ h.mac))),
    length-append h.device2 (h.eph ++ (u64be h.ts ++ h.mac)),
    length-append h.eph (u64be h.ts ++ h.mac),
    length-append (u64be h.ts) h.mac,
    length-put_be 8 h.ts,
    v,
  )

  peek_hello-body : peek_hello (1 ∷ 6 ∷ body h) ≡ ok (h.uid, 6)
  unfolding peek_hello
  peek_hello-body = ground (arith, length-body, take-append 16 h.uid _ v.uid_length)

  fields-body : fields (1 ∷ 6 ∷ body h) h.uid 6 ≡ h
  unfolding fields
  fields-body =
      rw
        (
          drop-append 16 h.uid (h.device ++ (h.device2 ++ (h.eph ++ (u64be h.ts ++ h.mac))))
              v.uid_length,
          take-append 32 h.device (h.device2 ++ (h.eph ++ (u64be h.ts ++ h.mac))) v.device_length,
          drop-append 32 h.device (h.device2 ++ (h.eph ++ (u64be h.ts ++ h.mac))) v.device_length,
          take-append 32 h.device2 (h.eph ++ (u64be h.ts ++ h.mac)) v.device2_length,
          drop-append 32 h.device2 (h.eph ++ (u64be h.ts ++ h.mac)) v.device2_length,
          take-append 32 h.eph (u64be h.ts ++ h.mac) v.eph_length,
          drop-append 32 h.eph (u64be h.ts ++ h.mac) v.eph_length,
          take-append 8 (u64be h.ts) h.mac (length-put_be 8 h.ts),
          drop-append 8 (u64be h.ts) h.mac (length-put_be 8 h.ts),
        )
        (λ i. record h {
          ts = get_be-put_be 8 h.ts v.ts_fits i;
          mac = take-eq_self 32 h.mac v.mac_length i;
          ver = sym v.current i;
        })

  marshal-body : marshal h ≡ 1 ∷ 6 ∷ body h
  unfolding marshal
  marshal-body = ground (arith, v.current)

  -- A version 6 hello whose fields have the sizes of the Go arrays, whose MAC is the one that the
  -- key gives and whose time stamp is at most ten minutes from now is read back as it was written.
  pub parse_client_hello-marshal :
      (m : Hmac) (secret : List ℕ) (now : ℕ)
      → h.mac ≡ hello_mac m h secret 6
      → in_time now h.ts ≡ true
      → parse_client_hello m secret now (marshal h) ≡ ok h
  unfolding parse_client_hello
  parse_client_hello-marshal m secret now signed fresh =
      rw (marshal-body, peek_hello-body, fields-body)
        (authenticate_self m secret now h v.current signed fresh)

-- What `peek_hello` lets through.
pub peek_hello-ok :
    (b : List ℕ) {p : List ℕ × ℕ}
    → peek_hello b ≡ ok p
    → (length b ≡ 154) × (take 2 b ≡ 1 ∷ 6 ∷ []) × (p ≡ (take 16 (drop 2 b), 6))
unfolding peek_hello
peek_hello-ok [] e = ground arith
peek_hello-ok (x ∷ []) e = ground arith
peek_hello-ok (x ∷ y ∷ r) e = ground arith

-- Writing what the fields of a packet hold gives the packet again.
marshal-fields :
    (b : List ℕ)
    → AreBytes b
    → length b ≡ 154
    → take 2 b ≡ 1 ∷ 6 ∷ []
    → marshal (fields b (take 16 (drop 2 b)) 6) ≡ b
unfolding marshal fields
marshal-fields [] bytes len two = absurd (omega arith)
marshal-fields (x ∷ []) bytes len two = absurd (omega arith)
marshal-fields (x ∷ y ∷ r) bytes len two =
    let r1 = drop 16 r in
    let r2 = drop 32 r1 in
    let r3 = drop 32 r2 in
    let r4 = drop 32 r3 in
    let r5 = drop 8 r4 in
    let size : length r ≡ 152 = omega arith in
    let n1 = length-drop 16 r in
    let n2 = length-drop 32 r1 in
    let n3 = length-drop 32 r2 in
    let n4 = length-drop 32 r3 in
    let n5 = length-drop 8 r4 in
    let stamp = AreBytes-take 8 r4 (
      AreBytes-drop 32 r3
        (AreBytes-drop 32 r2 (AreBytes-drop 32 r1 (AreBytes-drop 16 r bytes.1.1)))) in
    rw
      (
        put_be-get_be 8 (take 8 r4) stamp (omega (arith, length-take 8 r4)),
        take-eq_self 32 r5 (omega arith),
        take-append-drop 8 r4,
        take-append-drop 32 r3,
        take-append-drop 32 r2,
        take-append-drop 32 r1,
        take-append-drop 16 r,
      )
      (sym (ap (λ (l : List ℕ). l ++ r) two))

-- A packet of bytes that is read as a hello is what writing the hello gives; its MAC is the one
-- that the key gives, and its time stamp is at most ten minutes from now.
pub marshal-parse_client_hello :
    (m : Hmac) (secret : List ℕ) (now : ℕ) (b : List ℕ) (h : ClientHello)
    → AreBytes b
    → parse_client_hello m secret now b ≡ ok h
    → (marshal h ≡ b) × (h.mac ≡ hello_mac m h secret h.ver) × (in_time now h.ts ≡ true)
unfolding parse_client_hello
marshal-parse_client_hello m secret now b h bytes e =
    let (p, peeked, read) = >>=-eq-ok (peek_hello b) _ e in
    let (len, two, what) = peek_hello-ok b peeked in
    let f = fields b (take 16 (drop 2 b)) 6 in
    let (same, fresh, signed) =
      authenticate-ok m secret now f h
        (rw (ap (λ (q : List ℕ × ℕ). fields b q.0 q.1) what) at read) in
    rw (← same) (marshal-fields b bytes len two, sym signed, fresh)
