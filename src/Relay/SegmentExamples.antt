-- ===== src/Relay/SegmentExamples.antt =====
-- internal/tunnelapp/gso.go: a message of three packets.
use go_port_forward.Base.{◌≡◌, ◌∷◌, [], false, arith, refl}
use go_port_forward.Relay.Segments.{
  sum, SegRun, Packed, first_packet, next_packet, append_packet, can_append, control_size,
  gro_segments, gro_segment_at, segment_at-packets, segments-packets,
}

abbrev first : SegRun
first = record { total = 1000; seg_size = 0; closed = false }

abbrev message : SegRun
message = append_packet (append_packet first 1000) 300

message-Packed : Packed (300 ∷ 1000 ∷ 1000 ∷ []) message
unfolding can_append append_packet
message-Packed =
    next_packet 300 (1000 ∷ 1000 ∷ []) (append_packet first 1000)
      (next_packet 1000 (1000 ∷ []) first (first_packet 1000 (omega arith)) refl) refl

segment_at-packets_example : gro_segment_at 2300 (control_size message) 2 ≡ (2000, 2300)
unfolding append_packet control_size sum
segment_at-packets_example = segment_at-packets [] 300 (1000 ∷ 1000 ∷ []) message message-Packed

segments-packets_example : gro_segments 2300 (control_size message) ≡ 3
unfolding append_packet control_size
segments-packets_example = segments-packets (300 ∷ 1000 ∷ 1000 ∷ []) message message-Packed
