-- ===== src/Forward/Sessions.antt =====
-- internal/forward/acl.go: the registry of live client sessions, what a session logs when it ends, and
-- the logger of connections with its bounded queue and its trims.
pub mod LogStore
pub mod Logging
mod Examples
use go_port_forward.Base.{
  ℕ, ◌+◌, ◌%◌, ◌≡◌, ◌≤◌, List, [], ◌∷◌, ◌++◌, Option, none, some, Bool, true, false, ◌&&◌, ◌||◌,
  ltb, leb, ◌==◌, if◌then◌else◌, length, map,
}
use go_port_forward.Base.Keys.{Eq, Map, lookup, insert, remove}
use go_port_forward.Forward.Sessions.LogStore.{LogRows, append_conn_log, trim_conn_logs}

-- sessionInfo, with the counts of its bytes; `about` is what the view shows of it besides.
pub record SessionInfo (Str About : Type 0) : Type 0 where
  pub key : Str
  pub about : About
  pub bytes_in : ℕ
  pub bytes_out : ℕ

-- models.ConnLogEntry of a session; `event` is the kind of its end.
pub record ConnLogEntry (About Event : Type 0) : Type 0 where
  pub about : About
  pub event : Event
  pub bytes_in : ℕ
  pub bytes_out : ℕ

module _ {Str About : Type 0} ⦃e : Eq Str⦄ where
  -- A missing registry hands the fresh session back.
  unfoldable pub obtain :
      Str
      → SessionInfo Str About
      → Option (Map Str (SessionInfo Str About))
      → Option (Map Str (SessionInfo Str About)) × SessionInfo Str About
  obtain key fresh none = (none, fresh)
  obtain key fresh (some m) = elim (lookup key m) [
    | some si ↦ (some m, si)
    | none ↦ (some (insert key fresh m), fresh)
  ]

  unfoldable pub remove_session :
      Str → Option (Map Str (SessionInfo Str About)) → Option (Map Str (SessionInfo Str About))
  remove_session key none = none
  remove_session key (some m) = some (remove key m)

  unfoldable pub snapshot : Option (Map Str (SessionInfo Str About)) → List (SessionInfo Str About)
  snapshot none = []
  snapshot (some m) = map (λ q. q.1) m

-- Capacity of the channel of the logger, and the number of writes from one trim to the next.
abbrev pub log_queue : ℕ
log_queue = 1024

abbrev pub trim_every : ℕ
trim_every = 256

-- connLogger: the configured bound, the waiting entries and the number of writes so far.
pub record ConnLogger (E : Type 0) : Type 0 where
  pub max_entries : ℕ
  pub queue : List E
  pub appends : ℕ

unfoldable pub new_conn_logger : {E : Type 0} → ℕ → ConnLogger E
new_conn_logger max = record { max_entries = max; queue = []; appends = 0 }

-- The bound of the configuration, or 2000.
unfoldable pub configured_max : {E : Type 0} → ConnLogger E → ℕ
configured_max l = if l.max_entries == 0 then 2000 else l.max_entries

-- The bound in force. `provided` is what the settings say, if they are attached; a number that is not
-- positive is 0 here.
unfoldable pub effective_max : {E : Type 0} → (provided : Option ℕ) → ConnLogger E → ℕ
effective_max none l = configured_max l
effective_max (some v) l = if ltb 0 v then v else configured_max l

-- Log: a full queue drops the entry.
unfoldable pub log : {E : Type 0} → E → ConnLogger E → ConnLogger E
log x l = if ltb (length l.queue) log_queue then record l { queue = l.queue ++ (x ∷ []) } else l

-- An entry that the loop takes, with the user and the key of its row, and whether the transactions of
-- its write and of the trim after it, if there is one, are committed.
pub record Taken (Str E : Type 0) : Type 0 where
  pub user : Str
  pub entry : E
  pub key : ℕ
  pub written : Bool
  pub trimmed : Bool

-- One entry out of the channel. The error of a trim is ignored.
unfoldable pub write :
    {Str E : Type 0} ⦃e : Eq Str⦄ (empty : Str)
    → (provided : Option ℕ) → Taken Str E
    → ConnLogger E
    → LogRows Str E
    → ConnLogger E × LogRows Str E
write empty provided x l s = elim (append_conn_log empty x.written x.key x.user x.entry s) [
  | none ↦ (l, s)
  | some s' ↦
      let next = record l { appends = l.appends + 1 } in
      (
        next,
        if next.appends % trim_every == 0
            then trim_conn_logs x.trimmed (effective_max provided next) s'
            else s',
      )
]

-- The loop of the logger over the entries that it takes.
unfoldable pub write_all :
    {Str E : Type 0} ⦃e : Eq Str⦄ (empty : Str)
    → (provided : Option ℕ) → List (Taken Str E)
    → ConnLogger E
    → LogRows Str E
    → ConnLogger E × LogRows Str E
write_all empty provided [] l s = (l, s)
write_all empty provided (x ∷ xs) l s =
    let (l', s') = write empty provided x l s in write_all empty provided xs l' s'

-- finish: a session without traffic, or without a logger, leaves no entry.
unfoldable pub finish :
    {Str About Event : Type 0}
    → Event
    → SessionInfo Str About
    → Option (ConnLogger (ConnLogEntry About Event))
    → Option (ConnLogger (ConnLogEntry About Event))
finish ev si none = none
finish ev si (some l) =
    if si.bytes_in == 0 && si.bytes_out == 0
    then some l
    else some (
        log
          (record {
            about = si.about;
            event = ev;
            bytes_in = si.bytes_in;
            bytes_out = si.bytes_out;
          })
          l)
