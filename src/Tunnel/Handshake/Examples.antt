-- ===== src/Tunnel/Handshake/Examples.antt =====
-- One handshake, with a sum in place of the keyed hash.
use go_port_forward.Base.{
  ℕ, ◌≡◌, ◌≤◌, ◌+◌, ◌++◌, refl, true, List, [], ◌∷◌, arith, replicate, take, get_or,
}
use go_port_forward.Base.Bytes.{
  put_be, get_be, get_be_from, length-put_be, put_be-AreBytes, bytes_eq, AreBytes,
  are_bytes-AreBytes,
}
use go_port_forward.Tunnel.Protocol.{ok}
use go_port_forward.Tunnel.Mac.{Hmac, mac_psk}
use go_port_forward.Tunnel.Handshake.Hello.{
  hello_domain_for, ClientHello, new_client_hello_v6, hello_mac, in_time, parse_client_hello,
}
use go_port_forward.Tunnel.Handshake.Hello.RoundTrip.{
  IsHello, parse_client_hello-marshal, marshal-parse_client_hello,
}
use go_port_forward.Tunnel.Handshake.Accept.{
  Addr, addr4, ServerAccept, new_server_accept, accept_mac, parse_server_accept,
}
use go_port_forward.Tunnel.Handshake.Accept.RoundTrip.{
  IsAccept, parse_server_accept-marshal, parse-new_server_accept, marshal-parse_server_accept,
}
use go_port_forward.Tunnel.Handshake.Reject.{
  ServerReject, new_server_reject, reject_mac, parse_server_reject, parse_server_reject-marshal,
  parse_server_reject-ok,
}
use go_port_forward.Tunnel.Handshake.Hello
use go_port_forward.Tunnel.Handshake.Accept
use go_port_forward.Tunnel.Handshake.Reject

abbrev sum_mac : Hmac
sum_mac = record {
  sum = λ secret message. put_be 32 (get_be secret + get_be message);
  length-sum = λ secret message. length-put_be 32 (get_be secret + get_be message);
  sum-AreBytes = λ secret message. put_be-AreBytes 32 (get_be secret + get_be message);
}

abbrev secret : List ℕ
secret = 7 ∷ 9 ∷ []

abbrev hello : ClientHello
hello =
    new_client_hello_v6 sum_mac secret (replicate 16 1) (replicate 32 2) (replicate 32 3)
      (replicate 32 4) 1700000000

hello-IsHello : IsHello hello
unfolding new_client_hello_v6 hello_mac mac_psk bytes_eq put_be
hello-IsHello = record {
  uid_length = refl;
  device_length = refl;
  device2_length = refl;
  eph_length = refl;
  mac_length = refl;
  ts_fits = omega arith;
  current = refl;
}

hello_bytes : List ℕ
hello_bytes = Hello.marshal hello

hello_bytes-AreBytes : AreBytes hello_bytes
unfolding hello_bytes Hello.marshal new_client_hello_v6 hello_mac mac_psk put_be get_be get_be_from
    bytes_eq hello_domain_for
hello_bytes-AreBytes = are_bytes-AreBytes hello_bytes refl

hello_read : parse_client_hello sum_mac secret 1700000100000000000 hello_bytes ≡ ok hello
unfolding hello_bytes new_client_hello_v6 hello_mac in_time bytes_eq
hello_read =
    parse_client_hello-marshal hello hello-IsHello sum_mac secret 1700000100000000000 refl refl

marshal-parse_client_hello_example :
    (Hello.marshal hello ≡ hello_bytes)
    × (hello.mac ≡ hello_mac sum_mac hello secret hello.ver)
    × (in_time 1700000100000000000 hello.ts ≡ true)
marshal-parse_client_hello_example =
    marshal-parse_client_hello sum_mac secret 1700000100000000000 hello_bytes hello
      hello_bytes-AreBytes hello_read

parse_client_hello-marshal_example :
    parse_client_hello sum_mac secret 1700000100000000000 (Hello.marshal hello) ≡ ok hello
unfolding new_client_hello_v6 hello_mac in_time bytes_eq
parse_client_hello-marshal_example =
    parse_client_hello-marshal hello hello-IsHello sum_mac secret 1700000100000000000 refl refl

abbrev client_eph : List ℕ
client_eph = replicate 32 4

parse-new_server_accept_example :
    (a : ServerAccept) × (new_server_accept sum_mac secret client_eph
        (addr4 (10 ∷ 0 ∷ 0 ∷ 5 ∷ []))
        (addr4 (10 ∷ 0 ∷ 0 ∷ 1 ∷ []))
        24
        9000
        1
        (replicate 32 6)
      ≡ ok a)
    × (parse_server_accept sum_mac secret (Accept.marshal a ++ []) client_eph ≡ ok a)
    × (a.tun_ip ≡ 10 ∷ 0 ∷ 0 ∷ 5 ∷ [])
    × (a.gateway ≡ 10 ∷ 0 ∷ 0 ∷ 1 ∷ [])
    × (a.prefix ≡ 24)
    × (a.feats ≡ 1)
    × (1000 ≤ a.mtu)
    × (a.mtu ≤ 1400)
parse-new_server_accept_example =
    parse-new_server_accept sum_mac secret client_eph (10 ∷ 0 ∷ 0 ∷ 5 ∷ []) (10 ∷ 0 ∷ 0 ∷ 1 ∷ [])
      (replicate 32 6) [] 24 9000 1 refl refl refl (omega arith) (omega arith)

abbrev unsigned : ServerAccept
unsigned = record {
  eph = replicate 32 6;
  tun_ip = 10 ∷ 0 ∷ 0 ∷ 5 ∷ [];
  prefix = 24;
  gateway = 10 ∷ 0 ∷ 0 ∷ 1 ∷ [];
  mtu = 1280;
  feats = 1;
  mac = [];
}

abbrev answer : ServerAccept
answer = record unsigned { mac = accept_mac sum_mac unsigned secret client_eph }

answer-IsAccept : IsAccept answer
unfolding accept_mac mac_psk put_be
answer-IsAccept = record {
  eph_length = refl;
  tun_ip_length = refl;
  gateway_length = refl;
  mac_length = refl;
  mtu_fits = omega arith;
}

answer-signed : answer.mac ≡ accept_mac sum_mac answer secret client_eph
unfolding accept_mac
answer-signed = refl

parse_server_accept-marshal_example :
    parse_server_accept sum_mac secret (Accept.marshal answer ++ (9 ∷ [])) client_eph ≡ ok answer
parse_server_accept-marshal_example =
    parse_server_accept-marshal answer answer-IsAccept (9 ∷ []) sum_mac secret client_eph
      answer-signed (omega arith) (omega arith)

answer_bytes : List ℕ
answer_bytes = Accept.marshal answer ++ (9 ∷ [])

answer_bytes-AreBytes : AreBytes answer_bytes
unfolding answer_bytes Accept.marshal accept_mac mac_psk put_be get_be get_be_from
answer_bytes-AreBytes = are_bytes-AreBytes answer_bytes refl

answer_read : parse_server_accept sum_mac secret answer_bytes client_eph ≡ ok answer
unfolding answer_bytes
answer_read =
    parse_server_accept-marshal answer answer-IsAccept (9 ∷ []) sum_mac secret client_eph
      answer-signed (omega arith) (omega arith)

marshal-parse_server_accept_example :
    (Accept.marshal answer ≡ take 78 answer_bytes)
    × (answer.mac ≡ accept_mac sum_mac answer secret client_eph)
    × (1 ≤ answer.prefix)
    × (answer.prefix ≤ 32)
marshal-parse_server_accept_example =
    marshal-parse_server_accept sum_mac secret answer_bytes client_eph answer answer_bytes-AreBytes
      answer_read

parse_server_reject-marshal_example :
    parse_server_reject sum_mac secret
      (Reject.marshal (new_server_reject sum_mac secret client_eph 3))
      client_eph
    ≡ ok (new_server_reject sum_mac secret client_eph 3)
parse_server_reject-marshal_example = parse_server_reject-marshal sum_mac secret client_eph 3

refusal : ServerReject
refusal = new_server_reject sum_mac secret client_eph 3

refusal_read : parse_server_reject sum_mac secret (Reject.marshal refusal) client_eph ≡ ok refusal
unfolding refusal
refusal_read = parse_server_reject-marshal sum_mac secret client_eph 3

parse_server_reject-ok_example :
    (refusal.mac ≡ reject_mac sum_mac secret client_eph refusal.reason)
    × (get_or (Reject.marshal refusal) 0 0 ≡ 7)
    × (get_or (Reject.marshal refusal) 1 0 ≡ 5)
    × (refusal.reason ≡ get_or (Reject.marshal refusal) 2 0)
parse_server_reject-ok_example =
    parse_server_reject-ok sum_mac secret (Reject.marshal refusal) client_eph refusal refusal_read
