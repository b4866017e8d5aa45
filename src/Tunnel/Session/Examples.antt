-- ===== src/Tunnel/Session/Examples.antt =====
-- A client and a server with a sum in place of the cipher: no secrecy, but what is sealed opens.
use go_port_forward.Base.{
  ℕ, ◌+◌, ◌≡◌, refl, List, [], ◌∷◌, ◌++◌, true, none, some, if◌then◌else◌, take, drop, replicate,
  arith, take-append, drop-append, length-append, min,
}
use go_port_forward.Base.Bytes.{put_be, get_be, get_be_from, length-put_be, bytes_eq, bytes_eq_refl}
use go_port_forward.Tunnel.Protocol.{ok, err, err_replay, err_auth}
use go_port_forward.Tunnel.Replay.Spec.{fresh, see, Refines}
use go_port_forward.Tunnel.Replay.History.{nothing_seen, new_receiver-Refines}
use go_port_forward.Tunnel.Session.{
  Aead, Session, new_session, new_client_session, new_server_session, next_counter, seal_into,
  seal_ping, seal_pong, open_into, open_ping, open_pong,
}
use go_port_forward.Tunnel.Session.Opening.{open_into-seal_into}
use go_port_forward.Tunnel.Session.Refusal.{IsUnmoved, open_into-IsUnmoved}
use go_port_forward.Tunnel.Session.Probes.{open_ping-seal_ping, open_pong-seal_pong}

abbrev tag : (key nonce aad : List ℕ) → List ℕ
tag key nonce aad = put_be 16 (get_be key + get_be nonce + get_be aad)

abbrev sum_aead : Aead
sum_aead = record {
  seal = λ key nonce plain aad. tag key nonce aad ++ plain;
  open_box = λ key nonce body aad.
      if bytes_eq (take 16 body) (tag key nonce aad) then some (drop 16 body) else none;
  length-seal = λ key nonce plain aad. omega (
    arith,
    length-append (tag key nonce aad) plain,
    length-put_be 16 (get_be key + get_be nonce + get_be aad),
  );
  open_seal = λ key nonce plain aad.
      let size = length-put_be 16 (get_be key + get_be nonce + get_be aad) in
      rw
        (
          take-append 16 (tag key nonce aad) plain size,
          drop-append 16 (tag key nonce aad) plain size,
          bytes_eq_refl (tag key nonce aad),
        )
        refl;
}

-- Features and MTU: error correction on, and 1280.
abbrev client : Session
client = new_client_session (1 ∷ []) (2 ∷ []) 1 1280

abbrev server : Session
server = new_server_session (1 ∷ []) (2 ∷ []) 1 1280

same_key : client.send_key ≡ server.recv_key
unfolding new_client_session new_server_session new_session
same_key = refl

server-Refines : Refines server.receiver nothing_seen
unfolding new_server_session new_session
server-Refines = new_receiver-Refines

first_fresh : fresh nothing_seen (next_counter client) ≡ true
unfolding fresh next_counter new_client_session new_session
first_fresh = refl

forged_refused : (open_into sum_aead 5 0 2000 (3 ∷ replicate 40 9) server).1 ≡ err err_auth
unfolding open_into new_server_session new_session put_be get_be get_be_from bytes_eq
forged_refused = refl

open_into-seal_into_example :
    let sealed = (seal_into sum_aead 3 [] (69 ∷ 0 ∷ 0 ∷ 20 ∷ []) client).1 in
    let first = open_into sum_aead 5 0 2000 sealed server in
    let second = open_into sum_aead 6 0 2000 sealed first.0 in
    (first.1 ≡ ok (69 ∷ 0 ∷ 0 ∷ 20 ∷ [], 3))
    × (second.1 ≡ err err_replay)
    × Refines second.0.receiver (see nothing_seen (next_counter client))
open_into-seal_into_example =
    open_into-seal_into sum_aead client server same_key 3 (69 ∷ 0 ∷ 0 ∷ 20 ∷ []) 5 6 0 2000
      nothing_seen server-Refines first_fresh (omega arith)

open_into-IsUnmoved_example :
    IsUnmoved server nothing_seen (open_into sum_aead 5 0 2000 (3 ∷ replicate 40 9) server).0
open_into-IsUnmoved_example =
    open_into-IsUnmoved sum_aead 5 0 2000 (3 ∷ replicate 40 9) server nothing_seen err_auth
      server-Refines forged_refused

open_ping-seal_ping_example :
    (open_ping sum_aead 5 (seal_ping sum_aead [] 4 1200 client).1 server).1 ≡ ok (4, 1201)
open_ping-seal_ping_example =
    open_ping-seal_ping sum_aead client server same_key 5 nothing_seen server-Refines first_fresh 4
      1200 (omega arith)

open_pong-seal_pong_example :
    (open_pong sum_aead 5 (seal_pong sum_aead [] 4 1201 client).1 server).1 ≡ ok (4, min 1201 65535)
open_pong-seal_pong_example =
    open_pong-seal_pong sum_aead client server same_key 5 nothing_seen server-Refines first_fresh 4
      1201
