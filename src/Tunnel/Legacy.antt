-- ===== src/Tunnel/Legacy.antt =====
-- pkg/tunnel/legacy.go: hellos of older versions, the server's answer to them, and the client's probe
-- of an older server. The generated key and the clock are arguments.
pub mod Probe
mod Examples
use go_port_forward.Base.{
  ℕ, ◌+◌, Bool, true, false, ◌||◌, ◌&&◌, not, List, [], ◌∷◌, ◌++◌, Option, none, some, ltb, leb,
  ◌==◌, if◌then◌else◌, length, take, drop, get_or,
}
use go_port_forward.Base.Bytes.{bytes_eq, get_be}
use go_port_forward.Tunnel.Protocol.{
  type_hello, type_accept, type_reject, uid_size, version_v3, version_v4,
}
use go_port_forward.Tunnel.Mac.{Hmac, mac_psk}
use go_port_forward.Tunnel.Handshake.Hello.{
  hello_label, hello_domain, hello_domain5, hello_ver_v5, hello_len, in_time, u64be,
}
use go_port_forward.Tunnel.Handshake.Reject.{reject_label, reject_domain_v4}

abbrev pub hello_domain_v3 : List ℕ
hello_domain_v3 = hello_label b'3'

abbrev pub reject_domain_v3 : List ℕ
reject_domain_v3 = reject_label b'3'

unfoldable pub build_hello :
    Hmac → (secret uid device eph : List ℕ) → (now ver : ℕ) → (domain : List ℕ) → List ℕ
build_hello m secret uid device eph now ver domain =
    type_hello
    ∷ ver
    ∷ (uid
        ++ (device
            ++ (eph
                ++ (u64be now
                    ++ mac_psk m secret domain
                        ((ver ∷ []) ∷ uid ∷ device ∷ eph ∷ u64be now ∷ [])))))

unfoldable pub new_legacy_probe_hello : Hmac → (secret uid device eph : List ℕ) → (now : ℕ) → List ℕ
new_legacy_probe_hello m secret uid device eph now =
    build_hello m secret uid device eph now version_v3 hello_domain_v3

unfoldable pub peek_legacy_hello_uid : List ℕ → Option (List ℕ)
peek_legacy_hello_uid b =
    if ltb (length b) hello_len || not (get_or b 0 0 == type_hello)
    then none
    else if get_or b 1 0 == version_v3 || get_or b 1 0 == version_v4 || get_or b 1 0 == hello_ver_v5
    then some (take uid_size (drop 2 b))
    else none

unfoldable pub hello_domain_for_legacy : ℕ → List ℕ
hello_domain_for_legacy ver = if ver == version_v3 then hello_domain_v3 else hello_domain

-- `b[from : from+n]`
abbrev pub slice : List ℕ → (from n : ℕ) → List ℕ
slice b from n = take n (drop from b)

-- The checks once the layout is known; `second` is the second fingerprint, where the layout has one.
unfoldable pub check_legacy :
    Hmac
    → (secret : List ℕ) → (now ver : ℕ) → (domain : List ℕ) → (second : List (List ℕ))
    → (eph_off ts_off mac_off : ℕ) → List ℕ
    → Option (List ℕ × ℕ)
check_legacy m secret now ver domain second eph_off ts_off mac_off b =
    let ts = slice b ts_off 8 in
    let eph = slice b eph_off 32 in
    if ltb (length b) (mac_off + 32)
    then none
    else if in_time now (get_be ts)
    then if bytes_eq
        (mac_psk m secret domain
          ((ver ∷ []) ∷ slice b 2 16 ∷ slice b 18 32 ∷ (second ++ (eph ∷ ts ∷ []))))
        (slice b mac_off 32)
      then some (eph, ver)
      else none
    else none

-- The ephemeral key and the version of an older hello with the right MAC. `now` is in nanoseconds.
unfoldable pub inspect_legacy_hello :
    Hmac → (secret : List ℕ) → (now : ℕ) → List ℕ → Option (List ℕ × ℕ)
inspect_legacy_hello m secret now b =
    let ver = get_or b 1 0 in
    if ltb (length b) hello_len || not (get_or b 0 0 == type_hello)
    then none
    else if ver == version_v3 || ver == version_v4
    then check_legacy m secret now ver (hello_domain_for_legacy ver) [] 50 82 90 b
    else if ver == hello_ver_v5
    then check_legacy m secret now ver hello_domain5 (slice b 50 32 ∷ []) 82 114 122 b
    else none

-- The refusal in the form of an older version, with the reason RejectUnknown.
unfoldable pub legacy_reject :
    Hmac → (secret eph : List ℕ) → (out_ver : ℕ) → (domain : List ℕ) → List ℕ
legacy_reject m secret eph out_ver domain =
    type_reject ∷ out_ver ∷ 0 ∷ mac_psk m secret domain ((out_ver ∷ []) ∷ (0 ∷ []) ∷ eph ∷ [])

unfoldable pub legacy_version_reject :
    Hmac → (secret : List ℕ) → (now : ℕ) → List ℕ → Option (List ℕ)
legacy_version_reject m secret now hello = elim (inspect_legacy_hello m secret now hello) [
  | none ↦ none
  | some p ↦
      if p.1 == version_v3
      then some (legacy_reject m secret p.0 version_v3 reject_domain_v3)
      else if p.1 == version_v4 || p.1 == hello_ver_v5
      then some (legacy_reject m secret p.0 version_v4 reject_domain_v4)
      else none
]

pub data ProbeVerdict : Type 0 where
  probe_no_reply probe_server_legacy probe_version_skew : ProbeVerdict

unfoldable pub classify_legacy_probe_reply : List ℕ → ProbeVerdict
classify_legacy_probe_reply b =
    if ltb (length b) 3 || not (get_or b 1 0 == version_v3)
    then probe_no_reply
    else if get_or b 0 0 == type_accept
    then probe_server_legacy
    else if get_or b 0 0 == type_reject
    then if get_or b 2 0 == 0 then probe_version_skew else probe_server_legacy
    else probe_no_reply
