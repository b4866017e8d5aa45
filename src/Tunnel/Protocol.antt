-- ===== src/Tunnel/Protocol.antt =====
-- pkg/tunnel/protocol.go: packet types, sizes, MTU limits and reject reasons.
use go_port_forward.Base.{ℕ, ◌+◌, ◌*◌, ◌||◌, Bool, true, false, ltb, if◌then◌else◌, ◌≡◌, refl}

-- Packet types.
abbrev pub type_hello : ℕ
type_hello = 0x01

abbrev pub type_accept : ℕ
type_accept = 0x02

abbrev pub type_data : ℕ
type_data = 0x03

abbrev pub type_ctrl : ℕ
type_ctrl = 0x04

abbrev pub type_ping : ℕ
type_ping = 0x05

abbrev pub type_pong : ℕ
type_pong = 0x06

abbrev pub type_reject : ℕ
type_reject = 0x07

abbrev pub type_fec : ℕ
type_fec = 0x08

-- Sizes in bytes.
abbrev pub nonce_size : ℕ
nonce_size = 12

abbrev pub counter_size : ℕ
counter_size = 8

abbrev pub tag_size : ℕ
tag_size = 16

abbrev pub seal_overhead : ℕ
seal_overhead = 1 + counter_size + tag_size

abbrev pub max_packet : ℕ
max_packet = 2000

abbrev pub max_tun_mtu : ℕ
max_tun_mtu = 1400

abbrev pub min_tun_mtu : ℕ
min_tun_mtu = 1000

abbrev pub wire_overhead : ℕ
wire_overhead = 20 + 8 + seal_overhead

abbrev pub uid_size : ℕ
uid_size = 16

abbrev pub fingerprint_size : ℕ
fingerprint_size = 32

abbrev pub probe_buf_size : ℕ
probe_buf_size = 2 * max_tun_mtu + seal_overhead + nonce_size

-- Versions.
abbrev pub version : ℕ
version = 0x05

abbrev pub version_v4 : ℕ
version_v4 = 0x04

abbrev pub version_v3 : ℕ
version_v3 = 0x03

-- Session features, `1 << 0` and `1 << 1`.
abbrev pub feat_fec : ℕ
feat_fec = 1

abbrev pub feat_tail_dup : ℕ
feat_tail_dup = 2

pub data TunnelError : Type 0 where
  err_auth err_bad_packet err_replay err_old_version err_short_buffer : TunnelError

pub data Result {ℓ} (A : Type ℓ) : Type ℓ where
  ok : A → Result A
  err : TunnelError → Result A

infixl 5 ◌>>=◌
abbrev pub ◌>>=◌ {ℓ κ} : {A : Type ℓ} {B : Type κ} → Result A → (A → Result B) → Result B
err e >>= next = err e
ok x >>= next = next x

-- The values of a reject reason that the source names; the reason itself is a byte.
pub data RejectReason : Type 0 where
  reject_unknown reject_device_mismatch reject_code_disabled reject_user_disabled : RejectReason
  reject_tunnel_limit reject_addr_invalid reject_version_mismatch : RejectReason

-- The byte of a reason.
pub reason_byte : RejectReason → ℕ
reason_byte reject_unknown = 0
reason_byte reject_device_mismatch = 1
reason_byte reject_code_disabled = 2
reason_byte reject_user_disabled = 3
reason_byte reject_tunnel_limit = 4
reason_byte reject_addr_invalid = 5
reason_byte reject_version_mismatch = 6

-- Whether a client that is told this reason stops reconnecting.
pub terminal : RejectReason → Bool
terminal reject_device_mismatch = true
terminal reject_code_disabled = true
terminal reject_user_disabled = true
terminal reject_addr_invalid = true
terminal reject_version_mismatch = true
terminal reject_unknown = false
terminal reject_tunnel_limit = false

-- A value out of range falls back to the largest MTU.
unfoldable pub clamp_tun_mtu : ℕ → ℕ
clamp_tun_mtu mtu = if ltb mtu min_tun_mtu || ltb max_tun_mtu mtu then max_tun_mtu else mtu

-- Inversion of a successful chain.
pub >>=-eq-ok {ℓ κ} :
    {A : Type ℓ} {B : Type κ} (r : Result A) (next : A → Result B) {y : B}
    → (r >>= next) ≡ ok y
    → (x : A) × (r ≡ ok x) × (next x ≡ ok y)
>>=-eq-ok (err e) next said = cc
>>=-eq-ok (ok x) next said = (x, refl, said)
