-- ===== src/Tunnel/Handshake/Accept/RoundTrip.antt =====
-- pkg/tunnel/handshake.go: writing and reading the server's answer.
use go_port_forward.Base.{
  ℕ, ◌^◌, ◌≡◌, ◌≤◌, ◌<◌, refl, sym, ap, List, [], ◌∷◌, ◌++◌, length, take, drop, arith,
  length-append, take-append, drop-append, append_assoc, take-take-drop, length-take, length-drop,
  get_or-take-drop_one,
}
use go_port_forward.Base.Bytes.{
  put_be, length-put_be, get_be-put_be, put_be-get_be, bytes_eq_refl, bytes_eq-eq, AreBytes,
  AreBytes-take, AreBytes-drop,
}
use go_port_forward.Tunnel.Protocol.{ok, >>=-eq-ok, clamp_tun_mtu}
use go_port_forward.Tunnel.Mac.{Hmac, length-mac_psk}
use go_port_forward.Tunnel.Handshake.Accept.{
  ServerAccept, accept_mac, marshal, peek_accept, fields, check_accept, parse_server_accept,
  new_server_accept, addr4, Addr, as4,
}

-- The sizes of the Go arrays and numbers.
pub record IsAccept (a : ServerAccept) : Type 0 where
  pub eph_length : length a.eph ≡ 32
  pub tun_ip_length : length a.tun_ip ≡ 4
  pub gateway_length : length a.gateway ≡ 4
  pub mac_length : length a.mac ≡ 32
  pub mtu_fits : a.mtu < 2 ^ 16

module _ (a : ServerAccept) (v : IsAccept a) (rest : List ℕ) where
  t6 : List ℕ
  t6 = a.mac ++ rest

  t4 : List ℕ
  unfolding t6
  t4 = put_be 2 a.mtu ++ a.feats ∷ t6

  t1 : List ℕ
  unfolding t4
  t1 = a.tun_ip ++ a.prefix ∷ (a.gateway ++ t4)

  marshal-parts : marshal a ++ rest ≡ 2 ∷ 5 ∷ (a.eph ++ t1)
  unfolding marshal t1
  marshal-parts = simp append_assoc

  fields-parts : fields (2 ∷ 5 ∷ (a.eph ++ t1)) ≡ a
  unfolding fields t1
  fields-parts =
      rw
        (
          take-append 32 a.eph
              (a.tun_ip ++ a.prefix ∷ (a.gateway ++ (put_be 2 a.mtu ++ a.feats ∷ (a.mac ++ rest))))
              v.eph_length,
          drop-append 32 a.eph
              (a.tun_ip ++ a.prefix ∷ (a.gateway ++ (put_be 2 a.mtu ++ a.feats ∷ (a.mac ++ rest))))
              v.eph_length,
          take-append 4 a.tun_ip
              (a.prefix ∷ (a.gateway ++ (put_be 2 a.mtu ++ a.feats ∷ (a.mac ++ rest))))
              v.tun_ip_length,
          drop-append 4 a.tun_ip
              (a.prefix ∷ (a.gateway ++ (put_be 2 a.mtu ++ a.feats ∷ (a.mac ++ rest))))
              v.tun_ip_length,
          take-append 4 a.gateway (put_be 2 a.mtu ++ a.feats ∷ (a.mac ++ rest)) v.gateway_length,
          drop-append 4 a.gateway (put_be 2 a.mtu ++ a.feats ∷ (a.mac ++ rest)) v.gateway_length,
          take-append 2 (put_be 2 a.mtu) (a.feats ∷ (a.mac ++ rest)) (length-put_be 2 a.mtu),
          drop-append 2 (put_be 2 a.mtu) (a.feats ∷ (a.mac ++ rest)) (length-put_be 2 a.mtu),
          take-append 32 a.mac rest v.mac_length,
        )
        (λ i. record a { mtu = get_be-put_be 2 a.mtu v.mtu_fits i })

  length-parts : 78 ≤ length (2 ∷ 5 ∷ (a.eph ++ t1))
  unfolding t1
  length-parts = omega (
    arith,
    length-append a.eph
        (a.tun_ip ++ a.prefix ∷ (a.gateway ++ (put_be 2 a.mtu ++ a.feats ∷ (a.mac ++ rest)))),
    length-append a.tun_ip
        (a.prefix ∷ (a.gateway ++ (put_be 2 a.mtu ++ a.feats ∷ (a.mac ++ rest)))),
    length-append a.gateway (put_be 2 a.mtu ++ a.feats ∷ (a.mac ++ rest)),
    length-append (put_be 2 a.mtu) (a.feats ∷ (a.mac ++ rest)),
    length-append a.mac rest,
    length-put_be 2 a.mtu,
    v,
  )

  peek-parts : peek_accept (2 ∷ 5 ∷ (a.eph ++ t1)) ≡ ok tt
  unfolding peek_accept
  peek-parts = ground (arith, length-parts)

  -- An answer whose fields have the sizes of the Go arrays, with the right MAC and a prefix from 1
  -- to 32, is read back as it was written, whatever follows it in the datagram.
  pub parse_server_accept-marshal :
      (m : Hmac) (secret client_eph : List ℕ)
      → a.mac ≡ accept_mac m a secret client_eph
      → 1 ≤ a.prefix
      → a.prefix ≤ 32
      → parse_server_accept m secret (marshal a ++ rest) client_eph ≡ ok a
  unfolding parse_server_accept check_accept
  parse_server_accept-marshal m secret client_eph signed lo hi =
      rw (marshal-parts, peek-parts, fields-parts) (ground (arith, bytes_eq_refl a.mac))

clamp_range : (mtu : ℕ) → (1000 ≤ clamp_tun_mtu mtu) × (clamp_tun_mtu mtu ≤ 1400)
unfolding clamp_tun_mtu
clamp_range mtu = ground arith

-- For IPv4 addresses, a key of 32 bytes and a prefix from 1 to 32 the server has an answer, and
-- the client reads exactly it: with the addresses, the prefix and the features of the server and
-- an MTU from 1000 to 1400.
pub parse-new_server_accept :
    (m : Hmac) (secret client_eph tun gw eph rest : List ℕ) (prefix mtu feats : ℕ)
    → length tun ≡ 4
    → length gw ≡ 4
    → length eph ≡ 32
    → 1 ≤ prefix
    → prefix ≤ 32
    → (a : ServerAccept) × (new_server_accept m secret client_eph
          (addr4 tun)
          (addr4 gw)
          prefix
          mtu
          feats
          eph
        ≡ ok a)
      × (parse_server_accept m secret (marshal a ++ rest) client_eph ≡ ok a)
      × (a.tun_ip ≡ tun)
      × (a.gateway ≡ gw)
      × (a.prefix ≡ prefix)
      × (a.feats ≡ feats)
      × (1000 ≤ a.mtu)
      × (a.mtu ≤ 1400)
unfolding new_server_accept accept_mac
parse-new_server_accept m secret client_eph tun gw eph rest prefix mtu feats ht hg he lo hi = (
  a,
  ground arith,
  parse_server_accept-marshal a valid rest m secret client_eph refl lo hi,
  refl,
  refl,
  refl,
  refl,
  (clamp_range mtu).0,
  (clamp_range mtu).1,
)
  where
    unsigned : ServerAccept
    unsigned = record {
      eph = eph;
      tun_ip = tun;
      prefix = prefix;
      gateway = gw;
      mtu = clamp_tun_mtu mtu;
      feats = feats;
      mac = [];
    }

    a : ServerAccept
    a = record unsigned { mac = accept_mac m unsigned secret client_eph }

    valid : IsAccept a
    valid = record {
      eph_length = he;
      tun_ip_length = ht;
      gateway_length = hg;
      mac_length = length-mac_psk m secret _ _;
      mtu_fits = omega (arith, clamp_range mtu);
    }

peek_accept-ok : (b : List ℕ) → peek_accept b ≡ ok tt → (78 ≤ length b) × (take 2 b ≡ 2 ∷ 5 ∷ [])
unfolding peek_accept
peek_accept-ok [] e = ground arith
peek_accept-ok (x ∷ []) e = ground arith
peek_accept-ok (x ∷ y ∷ r) e = ground arith

-- Writing what the fields of a packet hold gives its first 78 bytes.
marshal-fields :
    (b : List ℕ)
    → AreBytes b
    → 78 ≤ length b
    → take 2 b ≡ 2 ∷ 5 ∷ []
    → marshal (fields b) ≡ take 78 b
unfolding marshal fields
marshal-fields [] bytes len two = absurd (omega arith)
marshal-fields (x ∷ []) bytes len two = absurd (omega arith)
marshal-fields (x ∷ y ∷ r) bytes len two =
    let r1 = drop 32 r in
    let r2 = drop 4 r1 in
    let r3 = drop 1 r2 in
    let r4 = drop 4 r3 in
    let r5 = drop 2 r4 in
    let r6 = drop 1 r5 in
    let n1 = length-drop 32 r in
    let n2 = length-drop 4 r1 in
    let n3 = length-drop 1 r2 in
    let n4 = length-drop 4 r3 in
    let n5 = length-drop 2 r4 in
    let mtu = AreBytes-take 2 r4 (
      AreBytes-drop 4 r3
        (AreBytes-drop 1 r2 (AreBytes-drop 4 r1 (AreBytes-drop 32 r bytes.1.1)))) in
    rw
      (
        put_be-get_be 2 (take 2 r4) mtu (omega (arith, length-take 2 r4)),
        get_or-take-drop_one 32 r5 0 (omega arith),
        take-take-drop 2 33 r4,
        take-take-drop 4 35 r3,
        get_or-take-drop_one 39 r2 0 (omega arith),
        take-take-drop 4 40 r1,
        take-take-drop 32 44 r,
      )
      (sym (ap (λ (l : List ℕ). l ++ take 76 r) two))

check_accept-ok :
    (m : Hmac) (secret client_eph : List ℕ) (f a : ServerAccept)
    → check_accept m secret client_eph f ≡ ok a
    → (f ≡ a) × (accept_mac m f secret client_eph ≡ f.mac) × (1 ≤ f.prefix) × (f.prefix ≤ 32)
unfolding check_accept
check_accept-ok m secret client_eph f a e =
    ground (arith, bytes_eq-eq (accept_mac m f secret client_eph) f.mac)

-- A packet of bytes that is read as an answer starts with the 78 bytes that writing the answer
-- gives; its MAC is the one for this key pair, and its prefix is from 1 to 32.
pub marshal-parse_server_accept :
    (m : Hmac) (secret b client_eph : List ℕ) (a : ServerAccept)
    → AreBytes b
    → parse_server_accept m secret b client_eph ≡ ok a
    → (marshal a ≡ take 78 b)
      × (a.mac ≡ accept_mac m a secret client_eph)
      × (1 ≤ a.prefix)
      × (a.prefix ≤ 32)
unfolding parse_server_accept
marshal-parse_server_accept m secret b client_eph a bytes e =
    let (_, peeked, checked) = >>=-eq-ok (peek_accept b) _ e in
    let (len, two) = peek_accept-ok b peeked in
    let f = fields b in
    let written = marshal-fields b bytes len two in
    let same = check_accept-ok m secret client_eph f a checked in
    rw (← same.0) (written, sym same.1, same.2, same.3)

length-fields :
    (a : ServerAccept)
    → length a.eph ≡ 32
    → length a.tun_ip ≡ 4
    → length a.gateway ≡ 4
    → length a.mac ≡ 32
    → length (marshal a) ≡ 78
unfolding marshal
length-fields a he ht hg hm = omega (
  arith,
  length-append a.eph (a.tun_ip ++ a.prefix ∷ (a.gateway ++ (put_be 2 a.mtu ++ a.feats ∷ a.mac))),
  length-append a.tun_ip (a.prefix ∷ (a.gateway ++ (put_be 2 a.mtu ++ a.feats ∷ a.mac))),
  length-append a.gateway (put_be 2 a.mtu ++ a.feats ∷ a.mac),
  length-append (put_be 2 a.mtu) (a.feats ∷ a.mac),
  length-put_be 2 a.mtu,
)

-- An answer has 78 bytes.
pub length-marshal :
    (m : Hmac) (secret client_eph : List ℕ) (tun gw : Addr) (prefix mtu feats : ℕ) (eph : List ℕ)
    (a : ServerAccept)
    → length (as4 tun) ≡ 4
    → length (as4 gw) ≡ 4
    → length eph ≡ 32
    → new_server_accept m secret client_eph tun gw prefix mtu feats eph ≡ ok a
    → length (marshal a) ≡ 78
unfolding new_server_accept accept_mac
length-marshal m secret client_eph tun gw prefix mtu feats eph a ht hg he h =
    length-fields a (ground (arith, h, he)) (ground (arith, h, ht)) (ground (arith, h, hg)) (
      let mac : length (accept_mac m unsigned secret client_eph) ≡ 32 =
        length-mac_psk m secret _ _ in
      ground (arith, h, mac))
  where
    unsigned : ServerAccept
    unsigned = record {
      eph = eph;
      tun_ip = as4 tun;
      prefix = prefix;
      gateway = as4 gw;
      mtu = clamp_tun_mtu mtu;
      feats = feats;
      mac = [];
    }
