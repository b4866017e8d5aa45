-- ===== src/Relay/PacketExamples.antt =====
-- A session that sends a packet to the outside, one that parity restored, and a packet of the device.
use go_port_forward.Base.{
  ℕ, ◌≡◌, ◌++◌, refl, Bool, false, List, [], ◌∷◌, none, some, arith, replicate, take, drop, get_or,
  ◌==◌, if◌then◌else◌,
}
use go_port_forward.Base.Bytes.{get_be, get_be_from, put_be, bytes_eq}
use go_port_forward.Base.Keys.{nat_eq}
use go_port_forward.PeerTable.{Peer, PeerIndex}
use go_port_forward.Tunnel.Fec.{new_fec_state, empty_pending}
use go_port_forward.Tunnel.Fec.Receive.{
  push_recovered, pop_recovered, cache_box, try_recover_all, recover_each, put_slot, recover_one,
}
use go_port_forward.Tunnel.Handshake.Accept.{Addr, addr4, addr6}
use go_port_forward.Tunnel.Session.{
  Aead, new_client_session, new_server_session, seal_data, open_data, open_typed, open_into,
  seal_into, seal_counter, admit, next_counter, new_session, feed_fec,
}
use go_port_forward.Tunnel.Replay.{accept_counter, new_receiver, window_base, count_accepted}
use go_port_forward.Tunnel.Stats.{observe_arrival}
use go_port_forward.Base.Bits.{bit_at, set_bit, test_bit, with_bit}
use go_port_forward.Tunnel.Session.Parity.{recover}
use go_port_forward.Relay.{addr_eq, Relay, Live, RelayState}
use go_port_forward.Relay.Packets.{
  deliver_opened, deliver_inbound, handle_session_packet, passes, crosses, ip4_at,
  is_tunnel_internal, Drains, dry, restores, forward_outbound,
}
use go_port_forward.Relay.Isolation.{
  IsIsolated, AllIsolated, handle_session_packet-AllIsolated, Drains-AllIsolated, AllRouted,
  forward_outbound-AllRouted,
}

-- A tag of zeros before the plain text.
abbrev open_cipher : Aead
open_cipher = record {
  seal = λ key nonce plain aad. replicate 16 0 ++ plain;
  open_box = λ key nonce body aad. if get_or body 0 0 == 0 then some (drop 16 body) else none;
  length-seal = λ key nonce plain aad. omega arith;
  open_seal = λ key nonce plain aad. refl;
}

abbrev in_pool : Addr → Bool
in_pool (addr4 b) = bytes_eq (take 3 b) (10 ∷ 66 ∷ 0 ∷ [])
in_pool (addr6 b) = false

abbrev relay : Relay
relay = record {
  gateway = addr4 (10 ∷ 66 ∷ 0 ∷ 1 ∷ []);
  contains = in_pool;
  pool_bits = 24;
  tun_mtu = 1280;
  feats = 3;
}

abbrev client : Peer ℕ ℕ Addr
client = record {
  ref = 1;
  code_id = 7;
  user_id = 5;
  tun_ip = addr4 (10 ∷ 66 ∷ 0 ∷ 2 ∷ []);
  addr_port = 4000;
}

-- IPv4 headers from the client to 8.8.8.8, and back.
abbrev outward : List ℕ
outward = 69 ∷ 0 ∷ 0 ∷ 20 ∷ 0 ∷ 0 ∷ 0 ∷ 0 ∷ 64 ∷ 17 ∷ 0 ∷ 0 ∷ 10 ∷ 66 ∷ 0 ∷ 2 ∷ 8 ∷ 8 ∷ 8 ∷ 8 ∷ []

abbrev inward : List ℕ
inward = 69 ∷ 0 ∷ 0 ∷ 20 ∷ 0 ∷ 0 ∷ 0 ∷ 0 ∷ 64 ∷ 17 ∷ 0 ∷ 0 ∷ 8 ∷ 8 ∷ 8 ∷ 8 ∷ 10 ∷ 66 ∷ 0 ∷ 2 ∷ []

abbrev live : Live
live = record { sess = new_server_session (1 ∷ []) (2 ∷ []) 1 1280; mtu = 1280 }

abbrev wire : List ℕ
wire = (seal_data open_cipher [] outward (new_client_session (1 ∷ []) (2 ∷ []) 1 1280)).1

handle_session_packet-AllIsolated_example :
    AllIsolated relay client.tun_ip
      (handle_session_packet open_cipher relay 5 2000 client 0 wire live).to_tun
handle_session_packet-AllIsolated_example =
    handle_session_packet-AllIsolated open_cipher relay 5 2000 client 0 wire live

-- The packet in the queue of what parity restored.
abbrev queued : Live
queued = record live {
  sess = record (live.sess) { fec = some (push_recovered new_fec_state wire) };
}

restored : (recover queued.sess).1 ≡ some wire
unfolding recover pop_recovered push_recovered new_fec_state
restored = refl

abbrev after : Live
after =
    (deliver_inbound open_cipher relay 5 2000 client wire
      (record queued { sess = (recover queued.sess).0 })).live

emptied : (recover after.sess).1 ≡ none
unfolding recover pop_recovered push_recovered new_fec_state deliver_inbound deliver_opened
    open_data open_typed open_into get_be get_be_from seal_data seal_into seal_counter put_be admit
    accept_counter new_receiver count_accepted observe_arrival bit_at set_bit test_bit with_bit
    passes crosses ip4_at is_tunnel_internal bytes_eq next_counter new_client_session new_session
    new_server_session window_base feed_fec cache_box try_recover_all recover_each put_slot
    recover_one empty_pending
emptied = refl

-- The loop writes exactly the restored packet.
drained :
    Drains open_cipher relay 5 2000 client queued
      (outward ∷ [])
      (record after { sess = (recover after.sess).0 })
unfolding recover pop_recovered push_recovered new_fec_state deliver_inbound deliver_opened
    open_data open_typed open_into get_be get_be_from seal_data seal_into seal_counter put_be admit
    accept_counter new_receiver count_accepted observe_arrival bit_at set_bit test_bit with_bit
    passes crosses ip4_at is_tunnel_internal bytes_eq next_counter new_client_session new_session
    new_server_session window_base
drained = restores wire restored (dry emptied)

Drains-AllIsolated_example : IsIsolated relay client.tun_ip outward × Unit {0}
Drains-AllIsolated_example =
    Drains-AllIsolated open_cipher relay 5 2000 client queued
      (record after { sess = (recover after.sess).0 }) (outward ∷ []) drained

abbrev peers : PeerIndex ℕ ℕ Addr
peers = record {
  by_code = (7, client) ∷ [];
  by_addr = (4000, client) ∷ [];
  by_tun_ip = (client.tun_ip, client) ∷ [];
}

abbrev state : RelayState ℕ ℕ ℕ ℕ
state = record { peers = peers; sessions = (1, live) ∷ []; next_ref = 2; store = 0; pushed = [] }

forward_outbound-AllRouted_example :
    AllRouted open_cipher relay 5 inward state
      (forward_outbound open_cipher relay 5 0 inward state).sent
forward_outbound-AllRouted_example = forward_outbound-AllRouted open_cipher relay 5 0 inward state
