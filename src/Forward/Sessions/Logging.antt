-- ===== src/Forward/Sessions/Logging.antt =====
-- internal/forward/acl.go: the size of the log of connections, and the sessions that obtain gives.
use go_port_forward.Base.{
  ℕ, ◌+◌, ◌%◌, ◌≡◌, ◌≤◌, ◌<◌, length, refl, List, [], ◌∷◌, Option, none, some, true, ◌==◌, arith,
  Bool-cases, Option-cases, inl, inr,
}
use go_port_forward.Base.Keys.{
  Eq, Map, lookup, insert, remove, lookup-insert, lookup-remove, beq_refl,
}
use go_port_forward.Forward.Sessions.LogStore.{
  LogRows, rows_of, append_conn_log, append-size, trim-size,
}
use go_port_forward.Forward.Sessions.{
  SessionInfo, obtain, remove_session, ConnLogger, configured_max, effective_max, Taken, write,
  write_all,
}

module _ {Str E : Type 0} ⦃e : Eq Str⦄ (empty : Str) (provided : Option ℕ) where
  max-positive : (l : ConnLogger E) → 0 < effective_max provided l
  unfolding effective_max configured_max
  max-positive l = elim (Option-cases provided) [
    | inl h ↦ ground (arith, h)
    | inr (v, h) ↦ ground (arith, h)
  ]

  -- The bound does not depend on the number of writes.
  same_max :
      (l : ConnLogger E)
      → effective_max provided (record l { appends = l.appends + 1 }) ≡ effective_max provided l
  unfolding effective_max configured_max
  same_max l = elim (Option-cases provided) [
    | inl h ↦ rw (h, effective_max) refl
    | inr (v, h) ↦ rw (h, effective_max) refl
  ]

  write-size :
      (u : Str) (x : Taken Str E) (l : ConnLogger E) (s : LogRows Str E)
      → x.trimmed ≡ true
      → length (rows_of u s) ≤ effective_max provided l + l.appends % 256
      → let (l', s') = write empty provided x l s in
        (effective_max provided l' ≡ effective_max provided l)
        × (length (rows_of u s') ≤ effective_max provided l + l'.appends % 256)
  unfolding write
  write-size u x l s fine h =
      elim (Option-cases (append_conn_log empty x.written x.key x.user x.entry s)) [
        | inl failed ↦ simp (failed, write) (refl, h)
        | inr (s', done) ↦
            let next : ConnLogger E = record l { appends = l.appends + 1 } in
            let bound = same_max l in
            let added = append-size empty x.written x.key x.user x.entry s s' u done in
            elim (Bool-cases ((l.appends + 1) % 256 == 0)) [
              | inl due ↦
                  simp (done, write, due, fine)
                    (
                      bound,
                      omega (
                        arith,
                        trim-size (effective_max provided next) s' u (max-positive next),
                        bound,
                      ),
                    )
              | inr later ↦
                  let counted : (l.appends + 1) % 256 ≡ l.appends % 256 + 1 = ground arith in
                  simp (done, write, later) (bound, omega (arith, added, counted))
            ]
      ]

  -- Every trim is committed.
  abbrev pub AreTrimmed : List (Taken Str E) → Type 0
  AreTrimmed [] = Unit
  AreTrimmed (x ∷ xs) = (x.trimmed ≡ true) × AreTrimmed xs

  -- Where the trims are committed: a user's log that starts within the bound in force and the
  -- writes since the last trim never exceeds that bound by more than 255 rows, however many
  -- entries of whichever users the logger takes and whichever writes fail.
  pub write_all-size :
      (u : Str) (xs : List (Taken Str E)) (l : ConnLogger E) (s : LogRows Str E)
      → AreTrimmed xs
      → length (rows_of u s) ≤ effective_max provided l + l.appends % 256
      → length (rows_of u (write_all empty provided xs l s).1) ≤ effective_max provided l + 255
  unfolding write_all
  write_all-size u [] l s v h = omega arith
  write_all-size u (x ∷ xs) l s v h =
      let step = write-size u x l s v.0 h in
      let l' = (write empty provided x l s).0 in
      let s' = (write empty provided x l s).1 in
      let rest = write_all-size u xs l' s' v.1 (omega (arith, step)) in omega (arith, rest, step)

module _ {Str About : Type 0} ⦃e : Eq Str⦄ where
  obtain_held :
      (key : Str) (x si : SessionInfo Str About) (m : Map Str (SessionInfo Str About))
      → lookup key m ≡ some si
      → (obtain key x (some m)).1 ≡ si
  unfolding obtain
  obtain_held key x si m h = simp (h, obtain) refl

  obtain_new :
      (key : Str) (x : SessionInfo Str About) (m : Map Str (SessionInfo Str About))
      → lookup key m ≡ none
      → (obtain key x (some m)).1 ≡ x
  unfolding obtain
  obtain_new key x m h = simp (h, obtain) refl

  removed : (key : Str) (m : Map Str (SessionInfo Str About)) → lookup key (remove key m) ≡ none
  removed key m = ground (arith, lookup-remove key key m, beq_refl e key)

  -- After a session was obtained for a key, the next call for the key gives the same session,
  -- whatever fresh one it brings, and once the key was removed the fresh one.
  pub obtain-obtain :
      (key : Str) (a b c : SessionInfo Str About) (m : Map Str (SessionInfo Str About))
      → let first = obtain key a (some m) in
        ((obtain key b first.0).1 ≡ first.1) × ((obtain key c (remove_session key first.0)).1 ≡ c)
  unfolding obtain remove_session
  obtain-obtain key a b c m = elim (Option-cases (lookup key m)) [
    | inl h ↦
        simp (h, obtain, remove_session)
          (
            obtain_held key b a (insert key a m)
                (ground (arith, lookup-insert key key a m, beq_refl e key)),
            obtain_new key c (remove key (insert key a m)) (removed key (insert key a m)),
          )
    | inr (si, h) ↦
        simp (h, obtain, remove_session) (refl, obtain_new key c (remove key m) (removed key m))
  ]
