-- ===== src/Tunnel/Session.antt =====
-- pkg/tunnel/session.go: a session after the handshake, its sealed packets and what opens them. The
-- AEAD and HKDF are parameters. A buffer is its contents; the room that the caller left in it is a
-- number. The type that Go returns beside an error is left out, since no caller reads it.
pub mod Opening
pub mod Refusal
pub mod Probes
pub mod Parity
mod Examples
use go_port_forward.Base.{
  ℕ, ◌+◌, ◌-◌, ◌%◌, ◌≡◌, List, [], ◌∷◌, ◌++◌, Option, none, some, Bool, ◌&&◌, not, ltb, ◌==◌,
  if◌then◌else◌, length, take, drop, replicate, get_or, bit_and, min,
}
use go_port_forward.Base.Bytes.{put_be, get_be}
use go_port_forward.Tunnel.Protocol.{
  Result, ok, err, ◌>>=◌, err_bad_packet, err_short_buffer, err_auth, err_replay, type_data,
  type_ping, type_pong, seal_overhead, counter_size, tag_size, nonce_size, max_packet, feat_fec,
  clamp_tun_mtu,
}
use go_port_forward.Tunnel.Stats.{Stats, add_u64}
use go_port_forward.Tunnel.Replay.{Receiver, new_receiver, accept_counter}
use go_port_forward.Tunnel.Fec.{FecState, new_fec_state}
use go_port_forward.Tunnel.Fec.Receive.{cache_box}

-- chacha20poly1305: what is sealed opens under the same key, nonce and associated data, and is 16
-- bytes longer.
pub record Aead : Type 0 where
  pub seal : (key nonce plain aad : List ℕ) → List ℕ
  pub open_box : (key nonce body aad : List ℕ) → Option (List ℕ)
  pub length-seal :
      (key nonce plain aad : List ℕ) → length (seal key nonce plain aad) ≡ length plain + 16
  pub open_seal :
      (key nonce plain aad : List ℕ)
      → open_box key nonce (seal key nonce plain aad) aad ≡ some plain

-- crypto/hkdf with SHA-256, without errors.
pub record Hkdf : Type 0 where
  pub extract : (secret salt : List ℕ) → List ℕ
  pub expand : (prk info : List ℕ) → (size : ℕ) → List ℕ

-- "pf-tunnel-v4 " and the two letters and the digit between them.
abbrev kdf_label : (from to : ℕ) → List ℕ
kdf_label from to =
    112 ∷ 102 ∷ 45 ∷ 116 ∷ 117 ∷ 110 ∷ 110 ∷ 101 ∷ 108 ∷ 45 ∷ 118 ∷ 52 ∷ 32 ∷ from ∷ 50 ∷ to ∷ []

abbrev pub kdf_label_c2s : List ℕ
kdf_label_c2s = kdf_label 99 115

abbrev pub kdf_label_s2c : List ℕ
kdf_label_s2c = kdf_label 115 99

-- DeriveSessionKeys: the key from the client to the server, and the other.
unfoldable pub derive_session_keys :
    Hkdf → (shared psk client_eph server_eph : List ℕ) → List ℕ × List ℕ
derive_session_keys k shared psk client_eph server_eph =
    let prk = k.extract (shared ++ psk) [] in
    (
      k.expand prk (kdf_label_c2s ++ (client_eph ++ server_eph)) 32,
      k.expand prk (kdf_label_s2c ++ (client_eph ++ server_eph)) 32,
    )

pub record Session : Type 0 where
  pub send_key : List ℕ
  pub recv_key : List ℕ
  pub send_ctr : ℕ
  pub feats : ℕ
  pub receiver : Receiver
  pub mtu : ℕ
  pub fec : Option FecState

unfoldable pub new_session : (send_key recv_key : List ℕ) → (feats mtu : ℕ) → Session
new_session send_key recv_key feats mtu = record {
  send_key = send_key;
  recv_key = recv_key;
  send_ctr = 0;
  feats = feats;
  receiver = new_receiver;
  mtu = clamp_tun_mtu mtu;
  fec = if bit_and feats feat_fec == 0 then none else some new_fec_state;
}

unfoldable pub new_client_session : (c2s s2c : List ℕ) → (feats mtu : ℕ) → Session
new_client_session c2s s2c feats mtu = new_session c2s s2c feats mtu

unfoldable pub new_server_session : (c2s s2c : List ℕ) → (feats mtu : ℕ) → Session
new_server_session c2s s2c feats mtu = new_session s2c c2s feats mtu

unfoldable pub set_mtu : ℕ → Session → Session
set_mtu mtu s = record s { mtu = clamp_tun_mtu mtu }

abbrev pub seal_size : ℕ → ℕ
seal_size n = n + seal_overhead

-- The counter that a packet takes, counted from 1.
unfoldable pub next_counter : Session → ℕ
next_counter s = add_u64 s.send_ctr 1

-- `clear(nonce)`, then the counter in its last eight bytes.
abbrev pub nonce_of : ℕ → List ℕ
nonce_of counter = replicate (nonce_size - counter_size) 0 ++ put_be counter_size counter

abbrev count_sent : Stats → Stats
count_sent s = record s { tx_packets = add_u64 s.tx_packets 1 }

abbrev pub count_bad : Stats → Stats
count_bad s = record s { rx_bad = add_u64 s.rx_bad 1 }

abbrev pub count_auth_fail : Stats → Stats
count_auth_fail s = record s { rx_auth_fail = add_u64 s.rx_auth_fail 1 }

-- A change of the statistics, which stand with the receiver's state.
abbrev pub with_stats : (Stats → Stats) → Session → Session
with_stats f s = record s { receiver = record r { stats = f r.stats } }
  where
    r : Receiver
    r = s.receiver

module _ (a : Aead) where
  unfoldable pub seal_counter :
      (typ counter : ℕ) → (dst plain : List ℕ) → Session → Session × List ℕ
  seal_counter typ counter dst plain s = (
    with_stats count_sent s,
    dst
        ++ typ
          ∷ (put_be counter_size counter ++ a.seal s.send_key (nonce_of counter) plain (typ ∷ [])),
  )

  unfoldable pub seal_into : (typ : ℕ) → (dst plain : List ℕ) → Session → Session × List ℕ
  seal_into typ dst plain s =
      let counter = next_counter s in
      seal_counter typ counter dst plain (record s { send_ctr = counter })

  unfoldable pub seal_data : (dst packet : List ℕ) → Session → Session × List ℕ
  seal_data dst packet s = seal_into type_data dst packet s

  -- The padding is not negative here.
  unfoldable pub seal_ping : (dst : List ℕ) → (probe pad : ℕ) → Session → Session × List ℕ
  seal_ping dst probe pad s = seal_into type_ping dst (probe ∷ replicate pad 0) s

  unfoldable pub seal_pong : (dst : List ℕ) → (probe observed : ℕ) → Session → Session × List ℕ
  seal_pong dst probe observed s =
      seal_into type_pong dst (probe ∷ put_be 2 (min observed 0xffff)) s

  -- The box of an accepted data packet goes to the error correction.
  unfoldable pub feed_fec : (typ counter : ℕ) → List ℕ → Session → Session
  feed_fec typ counter body s = elim s.fec [
    | none ↦ s
    | some f ↦
        let (f', stats) = cache_box counter body f s.receiver.stats in
        if typ == type_data then record (with_stats (λ old. stats) s) { fec = some f' } else s
  ]

  -- After authentication.
  unfoldable pub admit :
      (now typ counter : ℕ) → (body plain : List ℕ) → Session → Session × Result (List ℕ × ℕ)
  admit now typ counter body plain s =
      let (r, fresh) = accept_counter now s.receiver counter in
      let seen = record s { receiver = r } in
      if fresh then (feed_fec typ counter body seen, ok (plain, typ)) else (seen, err err_replay)

  -- `base` is the length of `dst`, `room` its capacity.
  unfoldable pub open_into :
      (now base room : ℕ) → (p : List ℕ) → Session → Session × Result (List ℕ × ℕ)
  open_into now base room p s =
      let typ = get_or p 0 0 in
      let counter = get_be (take counter_size (drop 1 p)) in
      let body = drop (1 + counter_size) p in
      if ltb (length p) seal_overhead
      then (with_stats count_bad s, err err_bad_packet)
      else if ltb room (base + length body - tag_size + nonce_size)
      then (s, err err_short_buffer)
      else elim (a.open_box s.recv_key (nonce_of counter) body (typ ∷ [])) [
        | none ↦ (with_stats count_auth_fail s, err err_auth)
        | some plain ↦ admit now typ counter body plain s
      ]

  -- The test of the type that OpenData, OpenPing and OpenPong share.
  unfoldable pub open_typed :
      (typ now base room : ℕ) → (p : List ℕ) → Session → Session × Result (List ℕ)
  open_typed typ now base room p s =
      let (s', r) = open_into now base room p s in
      if ltb (length p) 1
      then (with_stats count_bad s, err err_bad_packet)
      else if get_or p 0 0 == typ
      then (s', r >>= λ q. ok (q.0))
      else (with_stats count_bad s, err err_bad_packet)

  unfoldable pub open_data :
      (now base room : ℕ) → (p : List ℕ) → Session → Session × Result (List ℕ)
  open_data now base room p s = open_typed type_data now base room p s

  -- The probe and the length of the plain text.
  unfoldable pub open_ping : (now : ℕ) → (p : List ℕ) → Session → Session × Result (ℕ × ℕ)
  open_ping now p s =
      let (s', r) = open_typed type_ping now 0 max_packet p s in
      (
        s',
        r >>= λ plain.
            if ltb (length plain) 1
            then err err_bad_packet
            else ok (get_or plain 0 0, length plain),
      )

  -- The probe and the length that the other side saw.
  unfoldable pub open_pong : (now : ℕ) → (p : List ℕ) → Session → Session × Result (ℕ × ℕ)
  open_pong now p s =
      let (s', r) = open_typed type_pong now 0 max_packet p s in
      (
        s',
        r >>= λ plain.
            if ltb (length plain) 3
            then err err_bad_packet
            else ok (get_or plain 0 0, get_be (take 2 (drop 1 plain))),
      )
