-- ===== src/Forward.antt =====
-- internal/forward: the parts of the forwarding engine.
pub mod Acl
pub mod Tuples
pub mod Sessions
pub mod Rules
