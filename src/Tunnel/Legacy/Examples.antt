-- ===== src/Tunnel/Legacy/Examples.antt =====
-- A probe of a client, at a server of this version.
use go_port_forward.Base.{ℕ, ◌≡◌, ◌+◌, refl, List, [], ◌∷◌, some, true, arith, replicate}
use go_port_forward.Base.Bytes.{put_be, get_be, length-put_be, put_be-AreBytes}
use go_port_forward.Tunnel.Mac.{Hmac}
use go_port_forward.Tunnel.Handshake.Hello.{in_time}
use go_port_forward.Tunnel.Legacy.{
  new_legacy_probe_hello, legacy_version_reject, classify_legacy_probe_reply, probe_version_skew,
}
use go_port_forward.Tunnel.Legacy.Probe.{classify-probe}

-- A sum in place of the keyed hash.
abbrev sum_mac : Hmac
sum_mac = record {
  sum = λ secret message. put_be 32 (get_be secret + get_be message);
  length-sum = λ secret message. length-put_be 32 (get_be secret + get_be message);
  sum-AreBytes = λ secret message. put_be-AreBytes 32 (get_be secret + get_be message);
}

fresh : in_time 1700000000000000000 1700000000 ≡ true
unfolding in_time
fresh = refl

classify-probe_example :
    (wire : List ℕ) × (legacy_version_reject sum_mac (7 ∷ []) 1700000000000000000 (
        new_legacy_probe_hello sum_mac
          (7 ∷ [])
          (replicate 16 1)
          (replicate 32 2)
          (replicate 32 3)
          1700000000)
      ≡ some wire)
    × (classify_legacy_probe_reply wire ≡ probe_version_skew)
classify-probe_example =
    classify-probe sum_mac (7 ∷ []) (replicate 16 1) (replicate 32 2) (replicate 32 3) 1700000000
      refl refl refl (omega arith) 1700000000000000000 fresh
