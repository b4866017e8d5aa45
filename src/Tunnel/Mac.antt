-- ===== src/Tunnel/Mac.antt =====
-- macPSK of pkg/tunnel/handshake.go over crypto/hmac, which is a parameter: HMAC-SHA256 gives 32
-- bytes and nothing else of it is assumed.
use go_port_forward.Base.{ℕ, ◌≡◌, List, [], ◌∷◌, ◌++◌, length}
use go_port_forward.Base.Bytes.{AreBytes}

pub record Hmac : Type 0 where
  pub sum : (secret message : List ℕ) → List ℕ
  pub length-sum : (secret message : List ℕ) → length (sum secret message) ≡ 32
  pub sum-AreBytes : (secret message : List ℕ) → AreBytes (sum secret message)

concat : List (List ℕ) → List ℕ
concat [] = []
concat (p ∷ ps) = p ++ concat ps

-- HMAC-SHA256(secret, domain || parts...).
unfoldable pub mac_psk : Hmac → List ℕ → List ℕ → List (List ℕ) → List ℕ
unfolding concat
mac_psk m secret domain parts = m.sum secret (domain ++ concat parts)

pub length-mac_psk :
    (m : Hmac) (secret domain : List ℕ) (parts : List (List ℕ))
    → length (mac_psk m secret domain parts) ≡ 32
unfolding mac_psk
length-mac_psk m secret domain parts = m.length-sum secret (domain ++ concat parts)

pub mac_psk-AreBytes :
    (m : Hmac) (secret domain : List ℕ) (parts : List (List ℕ))
    → AreBytes (mac_psk m secret domain parts)
unfolding mac_psk
mac_psk-AreBytes m secret domain parts = m.sum-AreBytes secret (domain ++ concat parts)
