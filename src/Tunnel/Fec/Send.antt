-- ===== src/Tunnel/Fec/Send.antt =====
-- The sender's half: boxes are gathered into a group, and the group gives a parity payload.
use go_port_forward.Base.{
  ℕ, ◌+◌, Bool, false, List, [], ◌∷◌, ◌++◌, ltb, leb, ◌==◌, if◌then◌else◌, length, take, set,
}
use go_port_forward.Base.Bytes.{put_be}
use go_port_forward.Base.Xor.{xor_into}
use go_port_forward.Tunnel.Fec.{
  FecState, fec_group, fec_max_box, fec_frame_header, zero_frame, frame_of,
}

-- `true` says that the group is full and its parity has to be sent.
unfoldable pub add_member : FecState → ℕ → List ℕ → FecState × Bool
add_member f counter box = if ltb fec_max_box (length box) then (f, false) else (
  record f {
    acc = xor_into f.acc (frame_of box);
    max_box = if ltb f.max_box (length box) then length box else f.max_box;
    counters = set f.counters f.n counter;
    n = f.n + 1;
  },
  leb fec_group (f.n + 1),
)

-- The counters in a payload, eight bytes each.
unfoldable pub put_counters : List ℕ → List ℕ
put_counters [] = []
put_counters (c ∷ cs) = put_be 8 c ++ put_counters cs

-- The payload is empty where the source returns nil: no member has been added.
unfoldable pub take_group : FecState → FecState × List ℕ
take_group f = if f.n == 0 then (f, []) else (
  record f { acc = zero_frame; n = 0; max_box = 0 },
  f.n ∷ (put_counters (take f.n f.counters) ++ take (fec_frame_header + f.max_box) f.acc),
)
