-- ===== src/Tunnel/Handshake/Hello.antt =====
-- The client's packet. The ephemeral key pair comes from nacl/box and is an argument.
pub mod RoundTrip
use go_port_forward.Base.{
  ℕ, zero, suc, ◌+◌, ◌*◌, ◌≡◌, ◌<◌, Bool, true, false, ◌&&◌, ◌||◌, not, List, [], ◌∷◌, ◌++◌, ltb,
  leb, ◌==◌, if◌then◌else◌, length, take, drop, replicate, get_or,
}
use go_port_forward.Base.Bytes.{bytes_eq, put_be, get_be}
use go_port_forward.Tunnel.Protocol.{
  Result, ok, err, ◌>>=◌, TunnelError, err_auth, err_bad_packet, err_old_version, type_hello,
  uid_size, fingerprint_size, version_v3, version_v4,
}
use go_port_forward.Tunnel.Mac.{Hmac, mac_psk}

-- The ASCII domain labels "pfapp-hello-v4", "-v5" and "-v6".
abbrev pub hello_label : ℕ → List ℕ
hello_label v =
    b'p' ∷ b'f' ∷ b'a' ∷ b'p' ∷ b'p' ∷ b'-' ∷ b'h' ∷ b'e' ∷ b'l' ∷ b'l' ∷ b'o' ∷ b'-' ∷ b'v' ∷ v
    ∷ []

abbrev pub hello_domain : List ℕ
hello_domain = hello_label b'4'

abbrev pub hello_domain5 : List ℕ
hello_domain5 = hello_label b'5'

abbrev pub hello_domain6 : List ℕ
hello_domain6 = hello_label b'6'

abbrev pub hello_ver_v4 : ℕ
hello_ver_v4 = 0x04

abbrev pub hello_ver_v5 : ℕ
hello_ver_v5 = 0x05

abbrev pub hello_ver_v6 : ℕ
hello_ver_v6 = 0x06

-- Ten minutes.
abbrev pub hello_max_age : ℕ
hello_max_age = 600 * 1000000000

abbrev pub hello_len : ℕ
hello_len = 1 + 1 + uid_size + fingerprint_size + 32 + 8 + 32

abbrev pub hello_len_v5 : ℕ
hello_len_v5 = hello_len + fingerprint_size

abbrev pub hello_len_v1 : ℕ
hello_len_v1 = 1 + 32 + 8 + 32

abbrev pub hello_len_v2 : ℕ
hello_len_v2 = 1 + 1 + uid_size + 32 + 8 + 32

pub record ClientHello : Type 0 where
  pub uid : List ℕ
  pub device : List ℕ
  pub device2 : List ℕ
  pub eph : List ℕ
  pub ts : ℕ
  pub mac : List ℕ
  pub ver : ℕ

-- The eight bytes of a uint64.
abbrev pub u64be : ℕ → List ℕ
u64be v = put_be 8 v

unfoldable pub hello_domain_for : ℕ → List ℕ
hello_domain_for ver = if ver == hello_ver_v5 then hello_domain5 else hello_domain6

unfoldable pub hello_mac : Hmac → ClientHello → List ℕ → ℕ → List ℕ
unfolding hello_domain_for
hello_mac m h secret ver =
    if ver == hello_ver_v5 || ver == hello_ver_v6
    then mac_psk m secret (hello_domain_for ver)
        ((ver ∷ []) ∷ h.uid ∷ h.device ∷ h.device2 ∷ h.eph ∷ u64be h.ts ∷ [])
    else mac_psk m secret hello_domain ((ver ∷ []) ∷ h.uid ∷ h.device ∷ h.eph ∷ u64be h.ts ∷ [])

abbrev pub zero_fingerprint : List ℕ
zero_fingerprint = replicate 32 0

abbrev pub unsigned : (uid device device2 eph : List ℕ) → (ts ver : ℕ) → ClientHello
unsigned uid device device2 eph ts ver = record {
  uid = uid;
  device = device;
  device2 = device2;
  eph = eph;
  ts = ts;
  mac = [];
  ver = ver;
}

-- NewClientHello, the old form. `eph` is the generated public key and `now` the time in seconds.
pub new_client_hello : Hmac → (secret uid device eph : List ℕ) → (now : ℕ) → ClientHello
new_client_hello m secret uid device eph now =
    let h = unsigned uid device zero_fingerprint eph now hello_ver_v4 in
    record h { mac = hello_mac m h secret hello_ver_v4 }

unfoldable pub new_client_hello_v6 :
    Hmac → (secret uid device device2 eph : List ℕ) → (now : ℕ) → ClientHello
new_client_hello_v6 m secret uid device device2 eph now =
    let second = if bytes_eq device2 zero_fingerprint then device else device2 in
    let h = unsigned uid device second eph now hello_ver_v6 in
    record h { mac = hello_mac m h secret hello_ver_v6 }

unfoldable pub has_device2 : ClientHello → Bool
has_device2 h = not (bytes_eq h.device2 zero_fingerprint)

unfoldable pub marshal : ClientHello → List ℕ
marshal h =
    if h.ver == hello_ver_v6
    then type_hello
      ∷ hello_ver_v6
      ∷ (h.uid ++ (h.device ++ (h.device2 ++ (h.eph ++ (u64be h.ts ++ h.mac)))))
    else type_hello ∷ hello_ver_v4 ∷ (h.uid ++ (h.device ++ (h.eph ++ (u64be h.ts ++ h.mac))))

-- The checks on the version, once the length is none of the two oldest ones.
unfoldable pub check_version : List ℕ → Result (List ℕ × ℕ)
check_version b =
    if length b == hello_len_v5
    then if get_or b 1 0 == hello_ver_v6
      then ok (take uid_size (drop 2 b), get_or b 1 0)
      else err err_old_version
    else if leb hello_len (length b)
    then err err_old_version
    else err err_bad_packet

-- peekHello: the claimed code and the version byte.
unfoldable pub peek_hello : List ℕ → Result (List ℕ × ℕ)
unfolding check_version
peek_hello b =
    if ltb (length b) 1 || not (get_or b 0 0 == type_hello)
    then err err_bad_packet
    else if length b == hello_len_v1 || length b == hello_len_v2
    then err err_old_version
    else check_version b

-- `age < -helloMaxAge || age > helloMaxAge` is false. `time.Since` saturates, and a time stamp
-- that is negative as an int64 is as far away as the number that it is here.
unfoldable pub in_time : (now ts : ℕ) → Bool
in_time now ts =
    leb now (ts * 1000000000 + hello_max_age) && leb (ts * 1000000000) (now + hello_max_age)

-- The fields of a packet that `peek_hello` let through.
unfoldable pub fields : List ℕ → List ℕ → ℕ → ClientHello
fields b uid ver =
    let r0 = drop (2 + uid_size) b in
    let r1 = drop fingerprint_size r0 in
    let second = ver == hello_ver_v6 in
    let r2 = if second then drop fingerprint_size r1 else r1 in
    let r3 = drop 32 r2 in
    let r4 = drop 8 r3 in
    record {
      uid = uid;
      device = take fingerprint_size r0;
      device2 = if second then take fingerprint_size r1 else zero_fingerprint;
      eph = take 32 r2;
      ts = get_be (take 8 r3);
      mac = take 32 r4;
      ver = ver;
    }

unfoldable pub authenticate : Hmac → List ℕ → ℕ → ClientHello → Result ClientHello
authenticate m secret now h =
    if in_time now h.ts
    then if bytes_eq (hello_mac m h secret h.ver) h.mac then ok h else err err_auth
    else err err_auth

unfoldable pub parse_client_hello : Hmac → List ℕ → ℕ → List ℕ → Result ClientHello
parse_client_hello m secret now b =
    peek_hello b >>= λ p. authenticate m secret now (fields b p.0 p.1)
