-- ===== src/Tunnel/Fec.antt =====
-- pkg/tunnel/fec.go: forward error correction over groups of eight data boxes. The state is one
-- record; the scratch buffers (groupBuf, sendBuf, scratch) hold no state between calls and have no
-- field. `nil` for a box is `none`.
pub mod Send
pub mod Receive
pub mod Xors
pub mod Group
pub mod Gap
pub mod Recovery
pub mod Arrival
mod Examples
use go_port_forward.Base.{
  ℕ, zero, suc, ◌+◌, ◌*◌, ◌%◌, Bool, false, List, [], ◌∷◌, ◌++◌, Option, none, length, replicate,
  ◌≡◌, get_or, length-replicate, get_or-replicate,
}
use go_port_forward.Base.Bytes.{put_be}
use go_port_forward.Tunnel.Protocol.{max_tun_mtu, tag_size, counter_size}

abbrev pub fec_group : ℕ
fec_group = 8

abbrev pub fec_slots : ℕ
fec_slots = 32

abbrev pub fec_pending_max : ℕ
fec_pending_max = 2

abbrev pub fec_recovered_max : ℕ
fec_recovered_max = 2

abbrev pub fec_frame_header : ℕ
fec_frame_header = 2

abbrev pub fec_max_box : ℕ
fec_max_box = max_tun_mtu + tag_size

abbrev pub fec_overhead : ℕ
fec_overhead = fec_frame_header + 1 + fec_group * counter_size + tag_size

-- A cached box; counter 0 is an empty slot.
pub record Slot : Type 0 where
  pub counter : ℕ
  pub box : Option (List ℕ)

-- A group whose parity has arrived.
pub record Pending : Type 0 where
  pub used : Bool
  pub count : ℕ
  pub counters : List ℕ
  pub max_seen : ℕ
  pub xor_frame : List ℕ
  pub frame_len : ℕ

pub record FecState : Type 0 where
  pub acc : List ℕ
  pub counters : List ℕ
  pub n : ℕ
  pub max_box : ℕ
  pub slots : List Slot
  pub pending : List Pending
  pub recovered : List (List ℕ)
  pub rec_head : ℕ
  pub rec_count : ℕ

abbrev pub frame_size : ℕ
frame_size = fec_frame_header + fec_max_box

-- A frame buffer after `clear`.
unfoldable pub zero_frame : List ℕ
zero_frame = replicate frame_size 0

pub length-zero_frame : length zero_frame ≡ 1418
unfolding zero_frame
length-zero_frame = length-replicate {A = ℕ} 1418 0

pub get_or-zero_frame : (i : ℕ) → get_or zero_frame i 0 ≡ 0
unfolding zero_frame
get_or-zero_frame i = get_or-replicate {A = ℕ} 1418 0 i

unfoldable pub empty_slot : Slot
empty_slot = record { counter = 0; box = none }

unfoldable pub empty_pending : Pending
empty_pending = record {
  used = false;
  count = 0;
  counters = replicate fec_group 0;
  max_seen = 0;
  xor_frame = zero_frame;
  frame_len = 0;
}

unfoldable pub new_fec_state : FecState
new_fec_state = record {
  acc = zero_frame;
  counters = replicate fec_group 0;
  n = 0;
  max_box = 0;
  slots = replicate fec_slots empty_slot;
  pending = replicate fec_pending_max empty_pending;
  recovered = replicate fec_recovered_max [];
  rec_head = 0;
  rec_count = 0;
}

-- The frame of a box: its length in two bytes, then the box.
unfoldable pub frame_of : List ℕ → List ℕ
frame_of box = put_be fec_frame_header (length box) ++ box
