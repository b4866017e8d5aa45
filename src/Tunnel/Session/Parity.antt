-- ===== src/Tunnel/Session/Parity.antt =====
-- pkg/tunnel/session_fec.go: parity packets and second copies around the sealing of a data packet, and
-- the packets that parity restores. The time of the last copy is an argument and a result.
use go_port_forward.Base.{
  ℕ, ◌+◌, ◌*◌, List, [], Option, none, some, Bool, true, false, ◌&&◌, ◌||◌, not, ltb, leb, ◌==◌,
  if◌then◌else◌, length, drop, get_or, bit_and,
}
use go_port_forward.Tunnel.Protocol.{
  Result, ok, err, type_data, type_fec, counter_size, max_packet, feat_fec, feat_tail_dup,
}
use go_port_forward.Tunnel.Stats.{Stats, add_u64}
use go_port_forward.Tunnel.Fec.{FecState}
use go_port_forward.Tunnel.Fec.Send.{add_member, take_group}
use go_port_forward.Tunnel.Fec.Receive.{add_group, pop_recovered}
use go_port_forward.Tunnel.Session.{
  Session, Aead, next_counter, seal_counter, open_into, with_stats,
}

abbrev pub dup_max_size : ℕ
dup_max_size = 256

-- Twenty milliseconds.
abbrev pub dup_min_interval : ℕ
dup_min_interval = 20 * 1000000

unfoldable pub allow_dup : (now last : ℕ) → Bool
allow_dup now last = leb (last + dup_min_interval) now

abbrev pub count_fec_sent : Stats → Stats
count_fec_sent s = record s { fec_sent = add_u64 s.fec_sent 1 }

abbrev pub count_dup_sent : Stats → Stats
count_dup_sent s = record s { dup_sent = add_u64 s.dup_sent 1 }

abbrev pub count_recovered : Stats → Stats
count_recovered s = record s { fec_recovered = add_u64 s.fec_recovered 1 }

-- What a call sends, and the time of the last copy.
pub record Sealed : Type 0 where
  pub session : Session
  pub wire : List ℕ
  pub extra : Option (List ℕ)
  pub last_dup : ℕ

module _ (a : Aead) where
  unfoldable pub seal_group : FecState → Session → Session × Option (List ℕ)
  seal_group f s =
      let (f', payload) = take_group f in
      let s' = record s { fec = some f' } in
      let counter = next_counter s' in
      let (sent, wire) =
        seal_counter a type_fec counter [] payload (record s' { send_ctr = counter }) in
      if length payload == 0 then (s', none) else (with_stats count_fec_sent sent, some wire)

  -- The parity packet, once the group is full.
  unfoldable pub feed_group : (counter : ℕ) → (wire : List ℕ) → Session → Session × Option (List ℕ)
  feed_group counter wire s = elim s.fec [
    | none ↦ (s, none)
    | some f ↦
        let (f', full) = add_member f counter (drop (1 + counter_size) wire) in
        if bit_and s.feats feat_fec == 0
        then (s, none)
        else if full
        then seal_group f' s
        else (record s { fec = some f' }, none)
  ]

  unfoldable pub seal_data_fec : (now last_dup : ℕ) → (packet : List ℕ) → Session → Sealed
  seal_data_fec now last_dup packet s =
      let counter = next_counter s in
      let (s₁, wire) =
        seal_counter a type_data counter [] packet (record s { send_ctr = counter }) in
      let (s₂, group) = feed_group counter wire s₁ in
      let copied =
        not (bit_and s.feats feat_tail_dup == 0)
        && leb (length packet) dup_max_size
        && allow_dup now last_dup in
      elim group [
        | some parity ↦ record {
          session = s₂;
          wire = wire;
          extra = some parity;
          last_dup = last_dup;
        }
        | none ↦
            if copied
            then record {
              session = with_stats count_dup_sent s₂;
              wire = wire;
              extra = some wire;
              last_dup = now;
            }
            else record { session = s₂; wire = wire; extra = none; last_dup = last_dup }
      ]

  -- The payload of a parity packet goes to the receiver's half.
  unfoldable pub take_parity : FecState → Session → Result (List ℕ × ℕ) → Session × Bool
  take_parity f s (err e) = (s, false)
  take_parity f s (ok (payload, typ)) =
      let ((f', stats), added) = add_group payload f s.receiver.stats in
      (record (with_stats (λ old. stats) s) { fec = some f' }, added)

  unfoldable pub handle_fec : (now : ℕ) → (p : List ℕ) → Session → Session × Bool
  handle_fec now p s = elim s.fec [
    | none ↦ (s, false)
    | some f ↦
        let (s', r) = open_into a now 0 max_packet p s in
        if ltb (length p) 1 || not (get_or p 0 0 == type_fec)
        then (s, false)
        else take_parity f s' r
  ]

unfoldable pub recover : Session → Session × Option (List ℕ)
recover s = elim s.fec [
  | none ↦ (s, none)
  | some f ↦
      let (f', out) = pop_recovered f in
      let s' = record s { fec = some f' } in
      elim out [ none ↦ (s', none) | some wire ↦ (with_stats count_recovered s', some wire) ]
]

unfoldable pub fec_enabled : Session → Bool
fec_enabled s = elim s.fec [ none ↦ false | some f ↦ true ]
