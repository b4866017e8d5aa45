-- ===== src/Forward/Tuples/Closing.antt =====
-- internal/forward/tuple_registry.go: Close, the map after any steps, and a release that comes late.
use go_port_forward.Base.{
  ℕ, ◌≡◌, ◌≢◌, refl, ap, ◌∙◌, [], ◌∷◌, Option, none, some, true, false, ◌==◌, if◌then◌else◌, arith,
  Bool-cases, Option-cases, inl, inr,
}
use go_port_forward.Base.Integers.{pos, int_eq, int_pred}
use go_port_forward.Base.Keys.{
  Eq, nat_eq, Map, lookup, insert, remove, lookup-insert, lookup-remove,
}
use go_port_forward.Forward.Tuples.{
  TupleSub, TupleEntry, TupleHandle, TupleRegistry, update, shut, begin_acquire, detach, unref,
  release, shut_all, close_registry, Step, Reaches, begins, finishes, attaches, releases, drops,
  closes, starts, then_step, refuses,
}
use go_port_forward.Forward.Tuples.Open.{
  HasSocket, IsBound, new_tuple_registry-IsBound, begin_acquire-IsBound, finish_acquire-IsBound,
  attach-IsBound, release-IsBound, detach-key, drop_dead_entry-IsBound,
}

module _ {K : Type 0} ⦃e : Eq K⦄ where
  abbrev shut_made : TupleEntry K → TupleEntry K
  shut_made t = if t.creating then t else shut t

  -- A change of one record, as the map and the numbers see it.
  update-rest :
      (i : ℕ) (f : TupleEntry K → TupleEntry K) (r : TupleRegistry K)
      → ((update i f r).entries ≡ r.entries)
        × ((update i f r).next ≡ r.next)
        × ((update i f r).closed ≡ r.closed)
  unfolding update
  update-rest i f r = elim (Option-cases (lookup i r.store)) [
    | inl h ↦ simp (h, update) (refl, refl, refl)
    | inr (t, h) ↦ simp (h, update) (refl, refl, refl)
  ]

  update-used :
      (i : ℕ) (f : TupleEntry K → TupleEntry K) (r : TupleRegistry K) (j : ℕ) (t : TupleEntry K)
      → lookup j (update i f r).store ≡ some t
      → (u : TupleEntry K) × (lookup j r.store ≡ some u)
  unfolding update
  update-used i f r j t h = elim (Option-cases (lookup i r.store)) [
    | inl g ↦ (t, (simp (g, update) at h))
    | inr (u, g) ↦ elim (Bool-cases (i == j)) [
      | inl same ↦ let ij : i ≡ j = ground arith in (u, rw (← ij) g)
      | inr other ↦
          let h' : lookup j (insert i (f u) r.store) ≡ some t = simp (g, update) at h in
          (t, ground (arith, h', lookup-insert i j (f u) r.store))
    ]
  ]

  -- What one round of the loop leaves.
  shut_one : K → ℕ → TupleRegistry K → TupleRegistry K
  shut_one key i r =
      let s = update i (λ t. if t.creating then t else shut t) r in
      record s { entries = remove key s.entries }

  shut_one-entries :
      (key : K) (i : ℕ) (r : TupleRegistry K) → (shut_one key i r).entries ≡ remove key r.entries
  unfolding shut_one
  shut_one-entries key i r = ap (remove key) (update-rest i shut_made r).0

  shut_all-none :
      (m : Map K ℕ) (r : TupleRegistry K) (k : K)
      → lookup k r.entries ≡ none
      → lookup k (shut_all m r).entries ≡ none
  unfolding shut_all shut_one
  shut_all-none [] r k h = h
  shut_all-none ((key, i) ∷ m) r k h =
      shut_all-none m (shut_one key i r) k
        (rw (shut_one-entries key i r) (ground (arith, h, lookup-remove key k r.entries)))

  shut_all-gone :
      (m : Map K ℕ) (r : TupleRegistry K) (k : K) (j : ℕ)
      → lookup k m ≡ some j
      → lookup k (shut_all m r).entries ≡ none
  unfolding shut_all shut_one lookup
  shut_all-gone [] r k j h = absurd (cc h)
  shut_all-gone ((key, i) ∷ m) r k j h = elim (Bool-cases (e.beq key k)) [
    | inl same ↦
        shut_all-none m (shut_one key i r) k
          (rw (shut_one-entries key i r) (ground (arith, same, lookup-remove key k r.entries)))
    | inr other ↦ shut_all-gone m (shut_one key i r) k j (rw other at h)
  ]

  shut_all-rest :
      (m : Map K ℕ) (r : TupleRegistry K)
      → ((shut_all m r).next ≡ r.next) × ((shut_all m r).closed ≡ r.closed)
  unfolding shut_all shut_one
  shut_all-rest [] r = (refl, refl)
  shut_all-rest ((key, i) ∷ m) r =
      let rest = shut_all-rest m (shut_one key i r) in
      let one = update-rest i shut_made r in (rest.0 ∙ one.1, rest.1 ∙ one.2)

  shut_all-used :
      (m : Map K ℕ) (r : TupleRegistry K) (j : ℕ) (t : TupleEntry K)
      → lookup j (shut_all m r).store ≡ some t
      → (u : TupleEntry K) × (lookup j r.store ≡ some u)
  unfolding shut_all shut_one
  shut_all-used [] r j t h = (t, h)
  shut_all-used ((key, i) ∷ m) r j t h =
      let (u, g) = shut_all-used m (shut_one key i r) j t h in update-used i shut_made r j u g

  -- After Close the map of an open registry is empty.
  closed_empty :
      (r : TupleRegistry K) (k : K) → r.closed ≡ false → lookup k (close_registry r).entries ≡ none
  unfolding close_registry
  closed_empty r k o = elim (Option-cases (lookup k r.entries)) [
    | inl h ↦ simp (o, close_registry) (shut_all-none r.entries (record r { closed = true }) k h)
    | inr (j, h) ↦
        simp (o, close_registry) (shut_all-gone r.entries (record r { closed = true }) k j h)
  ]

  close_registry-IsBound : (r : TupleRegistry K) → IsBound r → IsBound (close_registry r)
  unfolding close_registry
  close_registry-IsBound r v = elim (Bool-cases r.closed) [
    | inl c ↦ simp (c, close_registry) v
    | inr o ↦
        simp (o, close_registry)
          (record {
            entry = λ k i g. absurd (cc (g, (simp (o, close_registry) at (closed_empty r k o))));
            used = λ j t g.
                let (u, h) = shut_all-used r.entries (record r { closed = true }) j t g in
                let same = (shut_all-rest r.entries (record r { closed = true })).0 in
                ground (arith, same, v.used j u h);
          })
  ]

  Step-IsBound : (r s : TupleRegistry K) → Step r s → IsBound r → IsBound s
  Step-IsBound p q (begins key r) v = begin_acquire-IsBound key r v
  Step-IsBound p q (finishes key i bound r) v = finish_acquire-IsBound key i bound r v
  Step-IsBound p q (attaches sub h r) v = attach-IsBound sub h r v
  Step-IsBound p q (releases h r) v = release-IsBound h r v
  Step-IsBound p q (drops i r) v = drop_dead_entry-IsBound i r v
  Step-IsBound p q (closes r) v = close_registry-IsBound r v

  Reaches-IsBound : (r : TupleRegistry K) → Reaches r → IsBound r
  Reaches-IsBound p starts = new_tuple_registry-IsBound
  Reaches-IsBound p (then_step q r h s) = Step-IsBound q r s (Reaches-IsBound q h)

  -- After any steps of the registry, with handles and results of the factory that need not fit, an
  -- entry that the map has for a key is an entry of that key, and has an open socket unless it is
  -- being created.
  pub Reaches-HasSocket :
      (r : TupleRegistry K)
      → Reaches r
      → (k : K) (i : ℕ) → lookup k r.entries ≡ some i
      → (t : TupleEntry K) × (lookup i r.store ≡ some t) × HasSocket k t
  Reaches-HasSocket r h k i g = (Reaches-IsBound r h).entry k i g

  -- After Close of a registry that was not closed, a call of acquire is refused and changes
  -- nothing.
  pub begin_acquire-close_registry :
      (r : TupleRegistry K) (k : K)
      → r.closed ≡ false
      → begin_acquire k (close_registry r) ≡ (close_registry r, refuses)
  unfolding begin_acquire
  begin_acquire-close_registry r k o =
      let shut_down : (close_registry r).closed ≡ true =
        unfold close_registry in simp o (shut_all-rest r.entries (record r { closed = true })).1 in
      simp (closed_empty r k o, shut_down, begin_acquire) refl

  detach-refs : (o : Option (TupleSub K)) (t : TupleEntry K) → (detach o t).refs ≡ t.refs
  unfolding detach
  detach-refs none t = refl
  detach-refs (some s) t = refl

  -- Where the map has another entry for the key of the handle's entry, as after a socket that
  -- died, the release of the last handle of the old entry takes the new entry out of the map, and
  -- leaves its record in the store as it was, with its socket open if it was.
  pub release_removes_other :
      (h : TupleHandle K) (r : TupleRegistry K) (t u : TupleEntry K) (j : ℕ)
      → h.released ≡ false
      → lookup h.entry r.store ≡ some t
      → t.refs ≡ pos 1
      → lookup t.key r.entries ≡ some j
      → h.entry ≢ j
      → lookup j r.store ≡ some u
      → let s = (release h r).0 in (lookup t.key s.entries ≡ none) × (lookup j s.store ≡ some u)
  unfolding release unref
  release_removes_other h r t u j live own last now other there =
      let left : TupleEntry K = record (detach h.sub t) { refs = int_pred (detach h.sub t).refs } in
      let zero_left : int_eq (int_pred (detach h.sub t).refs) (pos 0) ≡ true =
        ap (λ z. int_eq (int_pred z) (pos 0)) (detach-refs h.sub t ∙ last) in
      simp (live, own, release, zero_left)
        (
          ground (
            arith,
            detach-key h.sub t,
            lookup-remove (detach h.sub t).key t.key r.entries,
            e.beq_iff (detach h.sub t).key t.key,
          ),
          ground (arith, there, other, lookup-insert h.entry j (shut left) r.store),
        )
