-- ===== src/Tunnel/Handshake/Accept.antt =====
-- The server's answer that opens a session. Addresses are `netip.Addr` values of which the packet
-- keeps the four bytes; the ephemeral public key is an argument.
pub mod RoundTrip
use go_port_forward.Base.{
  ℕ, zero, suc, ◌+◌, Bool, true, false, ◌&&◌, ◌||◌, not, List, [], ◌∷◌, ◌++◌, ltb, leb, ◌==◌,
  if◌then◌else◌, length, take, drop, get_or,
}
use go_port_forward.Base.Bytes.{bytes_eq, put_be, get_be}
use go_port_forward.Tunnel.Protocol.{
  Result, ok, err, ◌>>=◌, TunnelError, err_auth, err_bad_packet, err_old_version, type_accept,
  version, clamp_tun_mtu,
}
use go_port_forward.Tunnel.Mac.{Hmac, mac_psk}

-- "pfapp-accept-v5"
abbrev pub accept_domain : List ℕ
accept_domain =
    b'p' ∷ b'f' ∷ b'a' ∷ b'p' ∷ b'p' ∷ b'-' ∷ b'a' ∷ b'c' ∷ b'c' ∷ b'e' ∷ b'p' ∷ b't' ∷ b'-' ∷ b'v'
    ∷ b'5' ∷ []

abbrev pub accept_len : ℕ
accept_len = 1 + 1 + 32 + 4 + 1 + 4 + 2 + 1 + 32

-- What the packet uses of `netip.Addr`.
pub data Addr : Type 0 where
  addr4 : List ℕ → Addr
  addr6 : List ℕ → Addr

unfoldable pub is4 : Addr → Bool
is4 (addr4 b) = true
is4 (addr6 b) = false

-- `As4`, called after `Is4` only.
unfoldable pub as4 : Addr → List ℕ
as4 (addr4 b) = b
as4 (addr6 b) = drop 12 b

pub record ServerAccept : Type 0 where
  pub eph : List ℕ
  pub tun_ip : List ℕ
  pub prefix : ℕ
  pub gateway : List ℕ
  pub mtu : ℕ
  pub feats : ℕ
  pub mac : List ℕ

unfoldable pub accept_mac : Hmac → ServerAccept → (secret client_eph : List ℕ) → List ℕ
accept_mac m a secret client_eph = mac_psk m secret accept_domain (
    (version ∷ [])
    ∷ a.eph
    ∷ client_eph
    ∷ a.tun_ip
    ∷ (a.prefix ∷ [])
    ∷ a.gateway
    ∷ put_be 2 a.mtu
    ∷ (a.feats ∷ [])
    ∷ [])

unfoldable pub bad_prefix : ℕ → Bool
bad_prefix p = ltb p 1 || ltb 32 p

-- NewServerAccept. A prefix that is not positive is 0 here, as is an MTU.
unfoldable pub new_server_accept :
    Hmac
    → (secret client_eph : List ℕ) → (tun_ip gateway : Addr) → (prefix mtu feats : ℕ)
    → (eph : List ℕ) → Result ServerAccept
unfolding bad_prefix is4 as4
new_server_accept m secret client_eph tun_ip gateway prefix mtu feats eph =
    if not (is4 tun_ip) || not (is4 gateway)
    then err err_bad_packet
    else if bad_prefix prefix
    then err err_bad_packet
    else ok (record a { mac = accept_mac m a secret client_eph })
  where
    a : ServerAccept
    a = record {
      eph = eph;
      tun_ip = as4 tun_ip;
      prefix = prefix;
      gateway = as4 gateway;
      mtu = clamp_tun_mtu mtu;
      feats = feats;
      mac = [];
    }

-- TunMTU
pub tun_mtu : ServerAccept → ℕ
tun_mtu a = clamp_tun_mtu a.mtu

unfoldable pub marshal : ServerAccept → List ℕ
marshal a =
    type_accept
    ∷ version
    ∷ (a.eph ++ (a.tun_ip ++ a.prefix ∷ (a.gateway ++ (put_be 2 a.mtu ++ a.feats ∷ a.mac))))

pub fields : List ℕ → ServerAccept
fields b =
    let r0 = drop 2 b in
    let r1 = drop 32 r0 in
    let r2 = drop 4 r1 in
    let r3 = drop 1 r2 in
    let r4 = drop 4 r3 in
    let r5 = drop 2 r4 in
    let r6 = drop 1 r5 in
    record {
      eph = take 32 r0;
      tun_ip = take 4 r1;
      prefix = get_or r2 0 0;
      gateway = take 4 r3;
      mtu = get_be (take 2 r4);
      feats = get_or r5 0 0;
      mac = take 32 r6;
    }

pub check_accept : Hmac → (secret client_eph : List ℕ) → ServerAccept → Result ServerAccept
unfolding bad_prefix
check_accept m secret client_eph a =
    if bytes_eq (accept_mac m a secret client_eph) a.mac
    then if bad_prefix a.prefix then err err_bad_packet else ok a
    else err err_auth

-- The checks of the type, the version and the length, in the order of the code.
pub peek_accept : List ℕ → Result (Unit {0})
peek_accept b =
    if ltb (length b) 1 || not (get_or b 0 0 == type_accept)
    then err err_bad_packet
    else if leb 2 (length b) && not (get_or b 1 0 == version)
    then err err_old_version
    else if ltb (length b) accept_len
    then err err_bad_packet
    else ok tt

pub parse_server_accept : Hmac → (secret b client_eph : List ℕ) → Result ServerAccept
parse_server_accept m secret b client_eph =
    peek_accept b >>= λ _. check_accept m secret client_eph (fields b)
