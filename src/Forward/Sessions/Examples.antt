-- ===== src/Forward/Sessions/Examples.antt =====
-- A log that is trimmed with its next entry, and one session of a client that comes back.
use go_port_forward.Base.{
  ℕ, ◌+◌, ◌%◌, ◌≡◌, ◌≤◌, refl, List, [], ◌∷◌, some, true, false, arith, length,
}
use go_port_forward.Base.Keys.{nat_eq, lookup, insert, remove}
use go_port_forward.Forward.Sessions.LogStore.{
  LogRows, rows_of, append_conn_log, put_row, trim_conn_logs, trim_all, trim_rows,
}
use go_port_forward.Forward.Sessions.{
  SessionInfo, obtain, remove_session, ConnLogger, new_conn_logger, configured_max, effective_max,
  Taken, write, write_all, finish,
}
use go_port_forward.Forward.Sessions.Logging.{write_all-size, obtain-obtain}

-- User 1 has two rows, user 2 none; an entry without a user, and one whose transaction is not
-- committed.
abbrev store : LogRows ℕ ℕ
store = (1, (10, 70) ∷ (11, 71) ∷ []) ∷ []

abbrev taken : List (Taken ℕ ℕ)
taken =
    record { user = 1; entry = 72; key = 12; written = true; trimmed = true }
    ∷ record { user = 0; entry = 73; key = 13; written = true; trimmed = true }
    ∷ record { user = 2; entry = 74; key = 14; written = false; trimmed = true }
    ∷ []

abbrev logger : ConnLogger ℕ
logger = new_conn_logger 100

-- The next write is the last one before a trim.
abbrev due : ConnLogger ℕ
due = record logger { appends = 255 }

written_rows : rows_of 1 (write_all 0 (some 2) taken due store).1 ≡ (11, 71) ∷ (12, 72) ∷ []
unfolding write_all write append_conn_log put_row trim_conn_logs trim_all trim_rows effective_max
    configured_max new_conn_logger lookup insert remove
written_rows = refl

store-starts : length (rows_of 1 store) ≤ effective_max (some 2) due + due.appends % 256
unfolding new_conn_logger lookup
store-starts = omega arith

write_all-size_example :
    length (rows_of 1 (write_all 0 (some 2) taken due store).1) ≤ effective_max (some 2) due + 255
write_all-size_example =
    write_all-size 0 (some 2) 1 taken due store (refl, (refl, (refl, tt))) store-starts

bound_of_settings : effective_max (some 2) logger ≡ 2
unfolding effective_max configured_max new_conn_logger
bound_of_settings = refl

abbrev session : ℕ → SessionInfo ℕ ℕ
session n = record { key = 9; about = n; bytes_in = 0; bytes_out = n }

obtain-obtain_example :
    ((obtain 9 (session 2) (obtain 9 (session 1) (some [])).0).1
      ≡ (obtain 9 (session 1) (some [])).1)
    × ((obtain 9 (session 3) (remove_session 9 (obtain 9 (session 1) (some [])).0)).1 ≡ session 3)
obtain-obtain_example = obtain-obtain 9 (session 1) (session 2) (session 3) []

quiet_session :
    finish {Event = ℕ} 1 (session 0) (some (new_conn_logger 5)) ≡ some (new_conn_logger 5)
unfolding finish new_conn_logger
quiet_session = refl
