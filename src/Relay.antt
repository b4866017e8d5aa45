-- ===== src/Relay.antt =====
-- internal/tunnelapp: the relay. The types that its handlers share. An access code's id, an address of
-- the network and a text are comparable types; `Binder` is what the relay uses of the user service.
pub mod Hello
pub mod Routes
pub mod Admission
pub mod Replies
pub mod Limit
pub mod Agreement
pub mod Binding
pub mod Packets
pub mod SegmentExamples
pub mod Segments
pub mod Isolation
mod Examples
mod PacketExamples
use go_port_forward.Base.{ℕ, ◌≡◌, refl, ap, ◌↔◌, List, Option, none, some, Bool, true, false, arith}
use go_port_forward.Base.Bytes.{bytes_eq, bytes_eq-eq, bytes_eq_refl}
use go_port_forward.Base.Keys.{Eq, Map}
use go_port_forward.PeerTable.{PeerIndex}
use go_port_forward.Tunnel.Session.{Session}
use go_port_forward.Tunnel.Handshake.Accept.{Addr, addr4, addr6}

abbrev pub addr_beq : Addr → Addr → Bool
addr_beq (addr4 a) (addr4 b) = bytes_eq a b
addr_beq (addr6 a) (addr6 b) = bytes_eq a b
addr_beq (addr4 a) (addr6 b) = false
addr_beq (addr6 a) (addr4 b) = false

pub addr_beq_iff : (a b : Addr) → (addr_beq a b ≡ true) ↔ (a ≡ b)
addr_beq_iff (addr4 a) (addr4 b) =
    (λ h. ap addr4 (bytes_eq-eq a b h), λ e. ground (arith, e, bytes_eq_refl a))
addr_beq_iff (addr6 a) (addr6 b) =
    (λ h. ap addr6 (bytes_eq-eq a b h), λ e. ground (arith, e, bytes_eq_refl a))
addr_beq_iff (addr4 a) (addr6 b) = (λ h. absurd (cc h), λ e. absurd (cc e))
addr_beq_iff (addr6 a) (addr4 b) = (λ h. absurd (cc h), λ e. absurd (cc e))

instance abbrev pub addr_eq : Eq Addr
addr_eq = record { beq = addr_beq; beq_iff = addr_beq_iff }

-- A fingerprint is its bytes, and the empty list where none is bound. `none` is an address that is not
-- valid, or no bound on the tunnels.
pub record Identity (Str : Type 0) : Type 0 where
  pub code_id : Str
  pub user_id : Str
  pub secret : List ℕ
  pub tun_ip : Option Addr
  pub code_disabled : Bool
  pub user_disabled : Bool
  pub fingerprint : List ℕ
  pub max_tunnels : Option ℕ

-- The settings of the server; `contains` is the tunnel pool's `Contains`.
pub record Relay : Type 0 where
  pub gateway : Addr
  pub contains : Addr → Bool
  pub pool_bits : ℕ
  pub tun_mtu : ℕ
  pub feats : ℕ

-- The identity provider and DeviceBinder over the store `D`. `bound_to` is the fingerprint that the
-- store holds for a code.
pub record Binder (Str AddrPort D : Type 0) : Type 0 where
  pub identity : List ℕ → D → Option (Identity Str)
  pub bind_device : Str → List ℕ → AddrPort → D → D × Bool
  pub migrate_device : Str → (from to : List ℕ) → AddrPort → D → D × Bool
  pub bound_to : Str → D → List ℕ
  pub identity_bound :
      (uid : List ℕ) (d : D) (i : Identity Str)
      → identity uid d ≡ some i
      → i.fingerprint ≡ bound_to i.code_id d
  pub bind_device_ok :
      (code : Str) (fp : List ℕ) (from : AddrPort) (d : D)
      → (bind_device code fp from d).1 ≡ true
      → bound_to code (bind_device code fp from d).0 ≡ fp
  pub migrate_device_ok :
      (code : Str) (old new : List ℕ) (from : AddrPort) (d : D)
      → (migrate_device code old new from d).1 ≡ true
      → bound_to code (migrate_device code old new from d).0 ≡ new
  pub migrate_device_no :
      (code : Str) (old new : List ℕ) (from : AddrPort) (d : D)
      → (migrate_device code old new from d).1 ≡ false
      → bound_to code (migrate_device code old new from d).0 ≡ bound_to code d

-- A session object, under its number in `sessions`; `pushed` is the record of the pushed routes.
pub record Live : Type 0 where
  pub sess : Session
  pub mtu : ℕ

pub record RelayState (Str AddrPort D Push : Type 0) : Type 0 where
  pub peers : PeerIndex Str AddrPort Addr
  pub sessions : Map ℕ Live
  pub next_ref : ℕ
  pub store : D
  pub pushed : Map Str Push
