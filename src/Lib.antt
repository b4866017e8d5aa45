-- ===== src/Lib.antt =====
-- Verification of go-port-forward: a port forwarder, and a relay that carries game traffic over an
-- encrypted UDP tunnel.
--
-- The parts and the files that model them. Paths are from the root of the repository.
--
--   Tunnel/Protocol   pkg/tunnel/protocol.go: packet types, sizes, versions, errors, reject reasons,
--                     ClampTunMTU. A Go pair of a value and an error is a `Result`.
--   Tunnel/Stats      pkg/tunnel/stats.go: the counters of a session and the view of them. uint64
--                     counters wrap at 2 ^ 64; times are nanoseconds, also where the view has
--                     milliseconds in floating point.
--   Tunnel/Replay     pkg/tunnel/session.go, acceptCounter: the window of 8192 counters against
--                     replay, as a bitmap of 1024 bytes. `Receiver` is the receiving half of a
--                     `Session`, `accept_counter` the function; `Replay/Spec` holds what it promises.
--   Tunnel/Mac        pkg/tunnel/handshake.go, macPSK. HMAC-SHA256 is a parameter, of which only
--                     the 32 bytes of its result are assumed.
--   Tunnel/Handshake  pkg/tunnel/handshake.go: the hello, the answer and the refusal, each with its
--                     constructor, its form on the wire and its parser. Random keys and the clock
--                     are arguments. A failure of the random source is left out.
--   Tunnel/Fec        pkg/tunnel/fec.go: a parity packet for each group of eight. `Fec/Send` is the
--                     sender's half of `fecState`, `Fec/Receive` the receiver's. A nil box is `none`.
--   PeerTable         internal/tunnelapp/registry.go: the table of sessions of the relay with its
--                     three indices. A Go map is an association list with one entry for a key, a
--                     pointer to a session its number `ref`; the pointer of the snapshot that
--                     readers load is the state itself, since every writer holds the lock. A session
--                     in the table does not change but for its last-seen time, which is a function
--                     of the session's number.
--   Forward/Acl       internal/forward/acl.go, ACLGuard: the black and white lists of addresses.
--                     `net.ParseCIDR`, `IPNet.Contains` and `strings.EqualFold` are parameters.
--   Tunnel/Session    pkg/tunnel/session.go: the keys, sealing and opening, pings and pongs. The AEAD
--                     and HKDF are parameters; of the AEAD it is assumed that what it seals opens
--                     again and is 16 bytes longer. A buffer is its contents, and the room in it a
--                     number. Control messages, which are JSON, are left out.
--   Forward/Tuples    internal/forward/tuple_registry.go: the sockets bound to players' addresses. An
--                     entry, which handles point to, is a number with its record in a store; each
--                     section under the lock is a step, and the socket a flag. The factory's result
--                     is an argument, and a wait for another creation is a result of its own.
--   Forward/Sessions  internal/forward/acl.go: the registry of client sessions, and the logger of
--                     connections. Its channel is a list with a bound of 1024. `LogStore` is the rows
--                     of each user in internal/storage/acl.go; whether a transaction of the database
--                     is committed is an argument.
--   Codes             internal/storage/accesscode.go, allocTunIP of internal/storage/user.go, and
--                     internal/users/accesscode.go: access codes, the devices bound to them and
--                     their tunnel addresses. A bucket of the database is a map, a transaction one
--                     step, an IPv4 address a number; Codes/History has the steps as a relation.
--   Tunnel/Legacy     pkg/tunnel/legacy.go: older versions; Tunnel/Signed says what the MAC of a hello
--                     is, by its bytes. `Tunnel/Session/Parity` is
--                     pkg/tunnel/session_fec.go, the error correction around a session.
--   Relay             internal/tunnelapp/tunnelapp.go: `Relay/Hello` is handleHello, `Relay/Packets` the
--                     packets of a session to and from the TUN device. What they use of the user
--                     service is the interface `Binder`, which `Relay/Binding` fills with the access
--                     codes. What comes from outside in a call is its argument; a session object is a
--                     record under its number. The loop after a parity packet is the relation
--                     `Drains`.
--   Forward/Rules     internal/forward/manager.go: the rules and the operations on them, with their
--                     checks in internal/models/models.go. Texts are a comparable type, and what the
--                     libraries do with them is the record `Texts`. The store's answer and the
--                     success of a start are arguments; `Reached` is the relation of the operations.
--   Relay/Segments    internal/tunnelapp/gso.go: the packets that go out as one message and the cutting
--                     of a message into segments. A packet is its length.
--
-- The handshake parts make and check the packets that open a session; the replay window and the
-- error correction work on the packets of the session, with its statistics; the table of sessions
-- leads from a packet to its session; the forwarder asks the lists before it opens a connection.
--
-- Base has what they share: tests on numbers, lists measured by native numbers, arrays, bits,
-- big-endian bytes, exclusive or, maps, and integers for the numbers that can be negative. All other
-- numbers are naturals: where Go's integers could wrap, the remainder is written out. Every loop is a recursion over the list or the count that it goes through,
-- so that no fuel is needed.
--
-- Not modelled: the ciphers and the key agreement, which are library code; sockets, timers and goroutines, of
-- which a locked section is one step; the web interface, the rest of storage, certificates, mail and the
-- helpers for operating systems, which are input and output; and the parts of the forwarder, the relay and the
-- user service that are not named above.
pub mod Base
pub mod Codes
pub mod Forward
pub mod PeerTable
pub mod Relay
pub mod Tunnel
