-- ===== src/Tunnel/Legacy/Probe.antt =====
-- pkg/tunnel/legacy.go: the server's answers to older hellos, and to the client's probe.
use go_port_forward.Base.{
  ℕ, zero, suc, ◌+◌, ◌^◌, ◌≡◌, ◌≤◌, ◌<◌, refl, ap, ◌∙◌, true, List, [], ◌∷◌, ◌++◌, some, length,
  take, drop, get_or, arith, length-append, take-append, drop-append, take-eq_self, Option-cases,
  inl, inr,
}
use go_port_forward.Base.Bytes.{bytes_eq_refl, length-put_be, get_be, get_be-put_be}
use go_port_forward.Tunnel.Mac.{Hmac, mac_psk, length-mac_psk}
use go_port_forward.Tunnel.Handshake.Reject.{reject_domain_v4}
use go_port_forward.Tunnel.Handshake.Hello.{in_time, u64be}
use go_port_forward.Tunnel.Legacy.{
  build_hello, new_legacy_probe_hello, hello_domain_v3, reject_domain_v3, inspect_legacy_hello,
  check_legacy, hello_domain_for_legacy, slice, legacy_reject, legacy_version_reject,
  classify_legacy_probe_reply, probe_version_skew,
}

drop_past {ℓ} :
    {A : Type ℓ} (k m : ℕ) (xs ys : List A) → k ≡ length xs + m → drop k (xs ++ ys) ≡ drop m ys
drop_past k m [] ys e = ap (λ (t : ℕ). drop t ys) (let same : k ≡ m = omega arith in same)
drop_past zero m (x ∷ xs) ys e = absurd (omega arith)
drop_past (suc k) m (x ∷ xs) ys e = drop_past k m xs ys (omega arith)

module _ (m : Hmac) (secret uid device eph : List ℕ) (ts : ℕ) (uid_length : length uid ≡ 16)
    (device_length : length device ≡ 32) (eph_length : length eph ≡ 32)
    (ts_fits : ts < 2 ^ 64) where
  mac3 : List ℕ
  mac3 = mac_psk m secret hello_domain_v3 ((3 ∷ []) ∷ uid ∷ device ∷ eph ∷ u64be ts ∷ [])

  probe : List ℕ
  probe = 1 ∷ 3 ∷ (uid ++ (device ++ (eph ++ (u64be ts ++ mac3))))

  length-probe : length probe ≡ 122
  unfolding probe mac3
  length-probe = omega (
    arith,
    length-append uid (device ++ (eph ++ (u64be ts ++ mac3))),
    length-append device (eph ++ (u64be ts ++ mac3)),
    length-append eph (u64be ts ++ mac3),
    length-append (u64be ts) mac3,
    length-put_be 8 ts,
    length-mac_psk m secret hello_domain_v3 ((3 ∷ []) ∷ uid ∷ device ∷ eph ∷ u64be ts ∷ []),
  )

  slice-uid : slice probe 2 16 ≡ uid
  unfolding probe
  slice-uid = take-append 16 uid _ uid_length

  slice-device : slice probe 18 32 ≡ device
  unfolding probe
  slice-device =
      rw (drop-append 16 uid (device ++ (eph ++ (u64be ts ++ mac3))) uid_length)
        (take-append 32 device _ device_length)

  after_device :
      (n k : ℕ)
      → k ≡ 48 + n
      → drop k (uid ++ (device ++ (eph ++ (u64be ts ++ mac3)))) ≡ drop n (eph ++ (u64be ts ++ mac3))
  after_device n k e =
      drop_past k (32 + n) uid _ (omega (arith, e, uid_length))
      ∙ drop_past (32 + n) n device _ (omega (arith, device_length))

  slice-eph : slice probe 50 32 ≡ eph
  unfolding probe
  slice-eph = ap (take 32) (after_device 0 48 refl) ∙ take-append 32 eph _ eph_length

  slice-ts : slice probe 82 8 ≡ u64be ts
  unfolding probe
  slice-ts =
      ap (take 8) (after_device 32 80 refl ∙ drop-append 32 eph (u64be ts ++ mac3) eph_length)
      ∙ take-append 8 (u64be ts) _ (length-put_be 8 ts)

  length-mac3 : length mac3 ≡ 32
  unfolding mac3
  length-mac3 = length-mac_psk m secret hello_domain_v3 _

  slice-mac : slice probe 90 32 ≡ mac3
  unfolding probe
  slice-mac =
      ap (take 32) (
        after_device 40 88 refl
        ∙ drop_past 40 8 eph (u64be ts ++ mac3) (omega (arith, eph_length))
        ∙ drop-append 8 (u64be ts) mac3 (length-put_be 8 ts))
      ∙ take-eq_self 32 mac3 length-mac3

  fresh_ts : (now : ℕ) → in_time now ts ≡ true → in_time now (get_be (u64be ts)) ≡ true
  fresh_ts now fresh = rw (get_be-put_be 8 ts ts_fits) fresh

  check-probe :
      (now : ℕ)
      → in_time now ts ≡ true
      → check_legacy m secret now 3 hello_domain_v3 [] 50 82 90 probe ≡ some (eph, 3)
  unfolding check_legacy mac3
  check-probe now fresh =
      rw
        (
          length-probe,
          slice-uid,
          slice-device,
          slice-eph,
          slice-ts,
          slice-mac,
          fresh_ts now fresh,
          bytes_eq_refl mac3,
        )
        refl

  get_or-probe : (get_or probe 0 0 ≡ 1) × (get_or probe 1 0 ≡ 3)
  unfolding probe
  get_or-probe = (refl, refl)

  inspect-probe :
      (now : ℕ) → in_time now ts ≡ true → inspect_legacy_hello m secret now probe ≡ some (eph, 3)
  unfolding inspect_legacy_hello hello_domain_for_legacy
  inspect-probe now fresh =
      rw (length-probe, get_or-probe.0, get_or-probe.1) (check-probe now fresh)

  reject-probe :
      (now : ℕ)
      → in_time now ts ≡ true
      → legacy_version_reject m secret now probe
        ≡ some (legacy_reject m secret eph 3 reject_domain_v3)
  unfolding legacy_version_reject
  reject-probe now fresh = rw (inspect-probe now fresh, legacy_version_reject) refl

  -- The client's probe in the form of version 3, with fields of the right sizes and a time stamp
  -- at most ten minutes from the server's clock, is answered by a server with the same key, and
  -- the client takes the answer for a difference of versions.
  pub classify-probe :
      (now : ℕ)
      → in_time now ts ≡ true
      → (wire : List ℕ) × (legacy_version_reject m secret now
            (new_legacy_probe_hello m secret uid device eph ts)
          ≡ some wire)
        × (classify_legacy_probe_reply wire ≡ probe_version_skew)
  unfolding new_legacy_probe_hello build_hello probe mac3 classify_legacy_probe_reply legacy_reject
  classify-probe now fresh = (
    legacy_reject m secret eph 3 reject_domain_v3,
    reject-probe now fresh,
    ground (arith, length-mac_psk m secret reject_domain_v3 ((3 ∷ []) ∷ (0 ∷ []) ∷ eph ∷ [])),
  )

length-legacy_reject :
    (m : Hmac) (secret eph : List ℕ) (v : ℕ) (domain : List ℕ)
    → length (legacy_reject m secret eph v domain) ≡ 35
unfolding legacy_reject
length-legacy_reject m secret eph v domain =
    omega (arith, length-mac_psk m secret domain ((v ∷ []) ∷ (0 ∷ []) ∷ eph ∷ []))

-- An answer to an older hello has 35 bytes, and the hello has at least 122.
pub length-legacy_version_reject :
    (m : Hmac) (secret : List ℕ) (now : ℕ) (b wire : List ℕ)
    → legacy_version_reject m secret now b ≡ some wire
    → (length wire ≡ 35) × (122 ≤ length b)
unfolding legacy_version_reject inspect_legacy_hello
length-legacy_version_reject m secret now b wire h =
    elim (Option-cases (inspect_legacy_hello m secret now b)) [
      | inl n ↦ absurd (ground (arith, h, n))
      | inr (p, f) ↦ (
        ground (
          arith,
          h,
          f,
          length-legacy_reject m secret p.0 3 reject_domain_v3,
          length-legacy_reject m secret p.0 4 reject_domain_v4,
        ),
        ground (arith, f),
      )
    ]
