-- ===== src/Tunnel/Handshake.antt =====
-- pkg/tunnel/handshake.go: the three handshake packets. Byte arrays are lists of bytes; the
-- cursor `off` of a parser is the rest of the packet. Times are nanoseconds since the epoch.
pub mod Hello
pub mod Accept
pub mod Reject
mod Examples
