-- ===== src/Relay/Examples.antt =====
-- A relay with one access code: a client that connects, and the theorems at it.
use go_port_forward.Base.{
  ℕ, ◌≡◌, ◌≤◌, ◌++◌, refl, Bool, true, false, List, [], ◌∷◌, some, arith, replicate, length, take,
  max, subst, sym,
}
use go_port_forward.Base.Bytes.{put_be, get_be, get_be_from, bytes_eq, are_bytes-AreBytes}
use go_port_forward.Base.Keys.{nat_eq, lookup, insert, remove}
use go_port_forward.Codes.{AccessCode}
use go_port_forward.Codes.Bucket.{Bucket, bind_device}
use go_port_forward.PeerTable.{
  Peer, new_registry, upsert, forget_addresses, remove_own_ip, online, count_user, count_by_user,
}
use go_port_forward.Tunnel.Mac.{Hmac, mac_psk}
use go_port_forward.Tunnel.Handshake.Hello
use go_port_forward.Tunnel.Handshake.Hello.{
  ClientHello, new_client_hello_v6, hello_mac, hello_domain_for, in_time, parse_client_hello,
  peek_hello, check_version, authenticate, has_device2,
}
use go_port_forward.Tunnel.Handshake.Accept.{
  Addr, addr4, addr6, is4, as4, bad_prefix, new_server_accept, accept_mac,
}
use go_port_forward.Tunnel.Session.{Hkdf}
use go_port_forward.Tunnel.Signed.{version_3, version_4, version_5, version_6}
use go_port_forward.Relay.{addr_eq, Identity, Relay, Binder, RelayState}
use go_port_forward.Relay.Binding.{text_eq, Store, IsKeyed, code_binder, identity_of, bind_in}
use go_port_forward.Relay.Hello.{
  Fresh, silent, usable, first_reason, second_fingerprint, bind_step, at_limit, open_session,
  answer, admit_hello, handle_hello,
}
use go_port_forward.Relay.Admission.{IsAdmitted, handle_hello-IsAdmitted}
use go_port_forward.Relay.Replies.{IsSmall, handle_hello-IsSmall, HasNoKey, handle_hello-silent}
use go_port_forward.Relay.Limit.{handle_hello-limit}
use go_port_forward.Relay.Agreement.{IsAgreed, handle_hello-IsAgreed}

-- A constant in place of the keyed hash and of the key derivation.
abbrev constant_mac : Hmac
constant_mac = record {
  sum = λ secret message. replicate 32 9;
  length-sum = λ secret message. refl;
  sum-AreBytes = λ secret message. are_bytes-AreBytes (replicate 32 9) refl;
}

abbrev kdf : Hkdf
kdf = record { extract = λ secret salt. secret; expand = λ prk info size. replicate size 1 }

abbrev uid : List ℕ
uid = replicate 16 7

abbrev code : AccessCode (List ℕ)
code = record {
  created_at = 1;
  updated_at = 1;
  id = uid;
  user_id = 5 ∷ [];
  name = 30 ∷ [];
  tun_ip = some 172097538;
  secret = 77 ∷ [];
  disabled = false;
  device_fingerprint = [];
  device_label = [];
  bound_at = 0;
  last_seen_at = 0;
  last_seen_addr = [];
}

abbrev bucket : Bucket (List ℕ)
bucket = (uid, code) ∷ []

bucket-IsKeyed : IsKeyed bucket
unfolding lookup
bucket-IsKeyed i c h = ground (arith, h, text_eq.beq_iff uid i)

abbrev store : Store
store = (bucket, bucket-IsKeyed)

abbrev binder : Binder (List ℕ) ℕ Store
binder =
    code_binder (λ u. u)
      (λ u. some (record { account_id = u; account_disabled = false; account_tunnels = some 2 }))
      (λ n. addr4 (put_be 4 n)) (λ fp. take 4 fp) (λ from. from ∷ []) 50

abbrev in_pool : Addr → Bool
in_pool (addr4 b) = bytes_eq (take 3 b) (10 ∷ 66 ∷ 0 ∷ [])
in_pool (addr6 b) = false

abbrev relay : Relay
relay = record {
  gateway = addr4 (10 ∷ 66 ∷ 0 ∷ 1 ∷ []);
  contains = in_pool;
  pool_bits = 24;
  tun_mtu = 1280;
  feats = 3;
}

abbrev state : RelayState (List ℕ) ℕ Store ℕ
state = record { peers = new_registry; sessions = []; next_ref = 1; store = store; pushed = [] }

abbrev fresh : Fresh
fresh = record {
  now = 1700000000000000000;
  eph = replicate 32 4;
  shared = replicate 32 6;
  written = true;
}

abbrev packet : List ℕ
packet = Hello.marshal (
    new_client_hello_v6 constant_mac (77 ∷ []) uid (replicate 32 2) (replicate 32 3)
      (replicate 32 5) 1700000000)

abbrev session : Peer (List ℕ) ℕ Addr
session = record {
  ref = 1;
  code_id = uid;
  user_id = 5 ∷ [];
  tun_ip = addr4 (10 ∷ 66 ∷ 0 ∷ 2 ∷ []);
  addr_port = 4000;
}

connected : (handle_hello binder relay constant_mac kdf fresh packet 4000 state).made ≡ some session
unfolding handle_hello admit_hello answer open_session first_reason usable bind_step at_limit
    second_fingerprint code_binder identity_of bind_in bind_device lookup insert remove new_registry
    upsert forget_addresses remove_own_ip online count_user count_by_user peek_hello check_version
    parse_client_hello authenticate has_device2 Hello.fields Hello.marshal new_client_hello_v6
    hello_mac hello_domain_for in_time mac_psk new_server_accept bad_prefix is4 as4 accept_mac
    put_be get_be get_be_from bytes_eq
connected = refl

handle_hello-IsAdmitted_example :
    IsAdmitted binder relay constant_mac fresh packet state
      (handle_hello binder relay constant_mac kdf fresh packet 4000 state).state
      session
handle_hello-IsAdmitted_example =
    handle_hello-IsAdmitted binder relay constant_mac kdf fresh 4000 state packet session connected

-- What the store says of the one code.
known_code :
    (u : List ℕ) (i : Identity (List ℕ))
    → binder.identity u store ≡ some i
    → (i.tun_ip ≡ some (addr4 (10 ∷ 66 ∷ 0 ∷ 2 ∷ []))) × (i.max_tunnels ≡ some 2)
unfolding code_binder identity_of lookup put_be
known_code u i h = (ground (arith, h), ground (arith, h))

known_address :
    (u : List ℕ) (i : Identity (List ℕ)) (a : Addr)
    → binder.identity u store ≡ some i
    → i.tun_ip ≡ some a
    → a ≡ addr4 (10 ∷ 66 ∷ 0 ∷ 2 ∷ [])
known_address u i a h own = cc ((known_code u i h).0, own)

known_size :
    (u : List ℕ) (i : Identity (List ℕ)) (a : Addr)
    → binder.identity u store ≡ some i
    → i.tun_ip ≡ some a
    → length (as4 a) ≡ 4
unfolding as4
known_size u i a h own = subst (λ x. length (as4 x) ≡ 4) (sym (known_address u i a h own)) refl

nobody : (q : Peer (List ℕ) ℕ Addr) → lookup uid state.peers.by_code ≡ some q → q.user_id ≡ 5 ∷ []
unfolding new_registry lookup
nobody q h = absurd (cc h)

bounded :
    (handle_hello-IsAdmitted binder relay constant_mac kdf fresh 4000 state packet session
      connected).ident.max_tunnels
    ≡ some 2
bounded =
    let v =
      handle_hello-IsAdmitted binder relay constant_mac kdf fresh 4000 state packet session
        connected in
    (known_code v.uid v.ident v.known).1

handle_hello-IsAgreed_example :
    IsAgreed binder relay constant_mac kdf fresh packet state
      (handle_hello binder relay constant_mac kdf fresh packet 4000 state)
      session
handle_hello-IsAgreed_example =
    handle_hello-IsAgreed binder relay constant_mac kdf fresh 4000 state session
      (10 ∷ 66 ∷ 0 ∷ 1 ∷ []) refl refl refl (omega arith) (omega arith)
      (λ u i a h own. (10 ∷ 66 ∷ 0 ∷ 2 ∷ [], known_address u i a h own, refl)) packet connected

handle_hello-IsSmall_example :
    IsSmall
      (handle_hello binder relay constant_mac kdf fresh packet 4000 state).replies
      (length packet)
handle_hello-IsSmall_example =
    handle_hello-IsSmall binder relay constant_mac kdf fresh 4000 state (unfold as4 in refl) refl
      known_size packet

handle_hello-limit_example :
    count_by_user
      (5 ∷ [])
      (handle_hello binder relay constant_mac kdf fresh packet 4000 state).state.peers
    ≤ max 2 (count_by_user (5 ∷ []) state.peers)
handle_hello-limit_example =
    handle_hello-limit binder relay constant_mac kdf fresh 4000 state packet session connected 2
      bounded nobody

-- The packet with another MAC.
abbrev forged : List ℕ
forged = take 122 packet ++ replicate 32 8

forged-HasNoKey : HasNoKey binder relay constant_mac kdf fresh 4000 state forged
unfolding Hello.marshal new_client_hello_v6 hello_mac hello_domain_for bytes_eq mac_psk put_be
    get_be get_be_from
forged-HasNoKey u i h (version_3 v e) = absurd (cc v)
forged-HasNoKey u i h (version_4 v e) = absurd (cc v)
forged-HasNoKey u i h (version_5 v e) = absurd (cc v)
forged-HasNoKey u i h (version_6 v e) = absurd (cc e)

handle_hello-silent_example :
    handle_hello binder relay constant_mac kdf fresh forged 4000 state ≡ silent state
handle_hello-silent_example =
    handle_hello-silent binder relay constant_mac kdf fresh 4000 state forged forged-HasNoKey
