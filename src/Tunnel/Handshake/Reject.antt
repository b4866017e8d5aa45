-- ===== src/Tunnel/Handshake/Reject.antt =====
-- The server's answer that refuses a session.
use go_port_forward.Base.{
  ℕ, ◌+◌, ◌≡◌, ◌&&◌, ◌||◌, not, List, [], ◌∷◌, ltb, leb, ◌==◌, if◌then◌else◌, length, take, drop,
  get_or, arith, take-eq_self,
}
use go_port_forward.Base.Bytes.{bytes_eq, bytes_eq-eq, bytes_eq_refl}
use go_port_forward.Tunnel.Protocol.{
  Result, ok, err, ◌>>=◌, err_auth, err_bad_packet, err_old_version, type_reject, version,
}
use go_port_forward.Tunnel.Mac.{Hmac, mac_psk, length-mac_psk}

-- "pfapp-reject-v"
abbrev pub reject_label : ℕ → List ℕ
reject_label v =
    b'p' ∷ b'f' ∷ b'a' ∷ b'p' ∷ b'p' ∷ b'-' ∷ b'r' ∷ b'e' ∷ b'j' ∷ b'e' ∷ b'c' ∷ b't' ∷ b'-' ∷ b'v'
    ∷ v ∷ []

abbrev pub reject_domain : List ℕ
reject_domain = reject_label b'5'

abbrev pub reject_domain_v4 : List ℕ
reject_domain_v4 = reject_label b'4'

abbrev pub reject_len : ℕ
reject_len = 1 + 1 + 1 + 32

-- The reason is a byte.
pub record ServerReject : Type 0 where
  pub reason : ℕ
  pub mac : List ℕ

pub reject_mac : Hmac → (secret client_eph : List ℕ) → ℕ → List ℕ
reject_mac m secret client_eph reason =
    mac_psk m secret reject_domain ((version ∷ []) ∷ (reason ∷ []) ∷ client_eph ∷ [])

pub new_server_reject : Hmac → (secret client_eph : List ℕ) → ℕ → ServerReject
new_server_reject m secret client_eph reason = record {
  reason = reason;
  mac = reject_mac m secret client_eph reason;
}

pub marshal : ServerReject → List ℕ
marshal r = type_reject ∷ version ∷ r.reason ∷ r.mac

fields : List ℕ → ServerReject
fields b = record { reason = get_or b 2 0; mac = take 32 (drop 3 b) }

check_reject : Hmac → (secret client_eph : List ℕ) → ServerReject → Result ServerReject
check_reject m secret client_eph r =
    if bytes_eq (reject_mac m secret client_eph r.reason) r.mac then ok r else err err_auth

peek_reject : List ℕ → Result (Unit {0})
peek_reject b =
    if ltb (length b) 1 || not (get_or b 0 0 == type_reject)
    then err err_bad_packet
    else if leb 2 (length b) && not (get_or b 1 0 == version)
    then err err_old_version
    else if ltb (length b) reject_len
    then err err_bad_packet
    else ok tt

pub parse_server_reject : Hmac → (secret b client_eph : List ℕ) → Result ServerReject
parse_server_reject m secret b client_eph =
    peek_reject b >>= λ _. check_reject m secret client_eph (fields b)

-- The client reads exactly the refusal that the server made for the same key and key pair.
pub parse_server_reject-marshal :
    (m : Hmac) (secret client_eph : List ℕ) (reason : ℕ)
    → parse_server_reject m secret
        (marshal (new_server_reject m secret client_eph reason))
        client_eph
      ≡ ok (new_server_reject m secret client_eph reason)
unfolding parse_server_reject marshal new_server_reject peek_reject check_reject fields
parse_server_reject-marshal m secret client_eph reason =
    let mac = reject_mac m secret client_eph reason in
    let size : length mac ≡ 32 = unfold reject_mac in length-mac_psk m secret reject_domain _ in
    ground (arith, size, take-eq_self 32 mac size, bytes_eq_refl mac)

-- A packet that is read as a refusal has the type and the version of one, and its third byte as
-- the reason; its MAC is the one of that reason for this key pair.
pub parse_server_reject-ok :
    (m : Hmac) (secret b client_eph : List ℕ) (r : ServerReject)
    → parse_server_reject m secret b client_eph ≡ ok r
    → (r.mac ≡ reject_mac m secret client_eph r.reason)
      × (get_or b 0 0 ≡ type_reject)
      × (get_or b 1 0 ≡ version)
      × (r.reason ≡ get_or b 2 0)
unfolding parse_server_reject peek_reject check_reject fields
parse_server_reject-ok m secret b client_eph r e =
    ground (arith, bytes_eq-eq (reject_mac m secret client_eph (get_or b 2 0)) (take 32 (drop 3 b)))

pub length-marshal :
    (m : Hmac) (secret client_eph : List ℕ) (reason : ℕ)
    → length (marshal (new_server_reject m secret client_eph reason)) ≡ 35
unfolding marshal new_server_reject reject_mac
length-marshal m secret client_eph reason = omega (
  arith,
  length-mac_psk m secret reject_domain ((version ∷ []) ∷ (reason ∷ []) ∷ client_eph ∷ []),
)
