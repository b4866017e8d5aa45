-- ===== src/Forward/Tuples/Open.antt =====
-- internal/forward/tuple_registry.go: the sockets of the entries in the map, step by step.
use go_port_forward.Base.{
  ℕ, ◌≡◌, ◌<◌, refl, sym, [], ◌∷◌, ◌++◌, Option, none, some, Bool, true, false, ◌&&◌, not, ◌==◌,
  arith, Bool-cases, Option-cases, inl, inr,
}
use go_port_forward.Base.Integers.{pos, int_eq, int_pred}
use go_port_forward.Base.Keys.{Eq, nat_eq, lookup, insert, remove, lookup-insert, lookup-remove}
use go_port_forward.Forward.Tuples.{
  TupleSub, TupleEntry, TupleHandle, TupleRegistry, new_tuple_registry, update, add_ref, shut,
  bind_socket, place_holder, begin_acquire, holds, finish_acquire, subs_at, attach, detach, unref,
  release, drop_dead_entry,
}

module _ {K : Type 0} ⦃e : Eq K⦄ where
  -- An entry under its own key that has a socket, unless it is being created.
  abbrev pub HasSocket : K → TupleEntry K → Type 0
  HasSocket k t = (t.key ≡ k) × (t.creating ≡ false → t.open_socket ≡ true)

  pub record IsBound (r : TupleRegistry K) : Type 0 where
    pub entry :
        (k : K) (i : ℕ)
        → lookup k r.entries ≡ some i
        → (t : TupleEntry K) × (lookup i r.store ≡ some t) × HasSocket k t
    pub used : (i : ℕ) (t : TupleEntry K) → lookup i r.store ≡ some t → i < r.next

  pub new_tuple_registry-IsBound : IsBound new_tuple_registry
  unfolding new_tuple_registry lookup
  new_tuple_registry-IsBound = record {
    entry = λ k i h. absurd (cc h);
    used = λ i t h. absurd (cc h);
  }

  -- A change of one record that keeps its key and its socket.
  update-IsBound :
      (i : ℕ) (f : TupleEntry K → TupleEntry K) (r : TupleRegistry K)
      → ((k : K) (t : TupleEntry K) → HasSocket k t → HasSocket k (f t))
      → IsBound r
      → IsBound (update i f r)
  unfolding update
  update-IsBound i f r keeps v = elim (Option-cases (lookup i r.store)) [
    | inl h ↦ rw (h, update) v
    | inr (t, h) ↦
        rw (h, update)
          (record {
            entry = λ k j g.
                let (u, su, hu) = v.entry k j g in
                elim (Bool-cases (i == j)) [
                  | inl same ↦
                      let ij : i ≡ j = ground arith in
                      let tu : u ≡ t = cc (h, su, ij) in
                      (
                        f t,
                        rw (lookup-insert i j (f t) r.store, same) refl,
                        keeps k t (rw tu at hu),
                      )
                  | inr other ↦ (u, rw (lookup-insert i j (f t) r.store, other) su, hu)
                ];
            used =
                λ j u g. ground (arith, lookup-insert i j (f t) r.store, v.used j u, v.used i t h);
          })
  ]

  -- The entry of a record leaves the map, and the record changes in any way.
  unmap-IsBound :
      (i : ℕ) (key : K) (t u : TupleEntry K) (r : TupleRegistry K)
      → lookup i r.store ≡ some t
      → t.key ≡ key
      → IsBound r
      → IsBound (record r { entries = remove key r.entries; store = insert i u r.store })
  unmap-IsBound i key t u r h at_key v = record {
    entry = λ k j g.
        let kept : lookup k r.entries ≡ some j = ground (arith, lookup-remove key k r.entries) in
        let (w, sw, hw) = v.entry k j kept in
        let other : (i == j) ≡ false =
          ground (arith, h, sw, hw.0, at_key, lookup-remove key k r.entries, e.beq_iff key k) in
        (w, rw (lookup-insert i j u r.store, other) sw, hw);
    used = λ j w g. ground (arith, lookup-insert i j u r.store, v.used j w, v.used i t h);
  }

  remove-IsBound :
      (k : K) (r : TupleRegistry K)
      → IsBound r
      → IsBound (record r { entries = remove k r.entries })
  remove-IsBound k r v = record {
    entry = λ j i g. v.entry j i (ground (arith, lookup-remove k j r.entries));
    used = v.used;
  }

  pub begin_acquire-IsBound :
      (key : K) (r : TupleRegistry K) → IsBound r → IsBound (begin_acquire key r).0
  unfolding begin_acquire place_holder
  begin_acquire-IsBound key r v = elim (Option-cases (lookup key r.entries)) [
    | inl h ↦ elim (Bool-cases r.closed) [
      | inl c ↦ simp (h, c, begin_acquire) v
      | inr c ↦
          rw (h, c, begin_acquire)
            (record {
              entry = λ k i g. elim (Bool-cases (e.beq key k)) [
                | inl same ↦
                    let here : r.next ≡ i = ground (arith, lookup-insert key k r.next r.entries) in
                    (
                      place_holder key,
                      ground (arith, lookup-insert r.next i (place_holder key) r.store),
                      ((e.beq_iff key k).0 same, λ c. absurd (cc c)),
                    )
                | inr other ↦
                    let (t, st, ht) =
                      v.entry k i (ground (arith, lookup-insert key k r.next r.entries)) in
                    let apart : (r.next == i) ≡ false = ground (arith, v.used i t st) in
                    (t, rw (lookup-insert r.next i (place_holder key) r.store, apart) st, ht)
              ];
              used = λ j w g.
                  ground (arith, lookup-insert r.next j (place_holder key) r.store, v.used j w);
            })
    ]
    | inr (i, h) ↦ elim (Option-cases (lookup i r.store)) [
      | inl g ↦ rw (h, g, begin_acquire) v
      | inr (t, g) ↦ elim (Bool-cases t.creating) [
        | inl c ↦ rw (h, g, c, begin_acquire) v
        | inr c ↦ rw (h, g, c, begin_acquire) (update-IsBound i add_ref r (λ k u w. w) v)
      ]
    ]
  ]

  pub finish_acquire-IsBound :
      (key : K) (i : ℕ) (bound : Bool) (r : TupleRegistry K)
      → IsBound r
      → IsBound (finish_acquire key i bound r).0
  unfolding finish_acquire
  finish_acquire-IsBound key i bound r v =
      elim (Bool-cases (bound && (not r.closed && holds key i r))) [
        | inl good ↦ rw good (update-IsBound i bind_socket r (λ k u w. (w.0, λ c. refl)) v)
        | inr bad ↦ elim (Bool-cases (holds key i r)) [
          | inl mine ↦ rw (bad, mine) (remove-IsBound key r v)
          | inr lost ↦ rw (bad, lost) v
        ]
      ]

  pub attach-IsBound :
      (sub : TupleSub K) (h : TupleHandle K) (r : TupleRegistry K)
      → IsBound r
      → IsBound (attach sub h r).0
  unfolding attach
  attach-IsBound sub h r v =
      update-IsBound h.entry
        (λ t. record t {
          subs = insert sub.backend_key (subs_at sub.backend_key t.subs ++ (sub ∷ [])) t.subs;
        })
        r (λ k u w. w) v

  detach-HasSocket :
      (o : Option (TupleSub K)) (k : K) (t : TupleEntry K)
      → HasSocket k t
      → HasSocket k (detach o t)
  unfolding detach
  detach-HasSocket none k t w = w
  detach-HasSocket (some s) k t w = w

  -- A record changes, and keeps its key and its socket.
  store-IsBound :
      (i : ℕ) (t u : TupleEntry K) (r : TupleRegistry K)
      → lookup i r.store ≡ some t
      → ((k : K) → HasSocket k t → HasSocket k u)
      → IsBound r
      → IsBound (record r { store = insert i u r.store })
  store-IsBound i t u r h keeps v = record {
    entry = λ k j g.
        let (w, sw, hw) = v.entry k j g in
        elim (Bool-cases (i == j)) [
          | inl same ↦
              let ij : i ≡ j = ground arith in
              let tw : w ≡ t = cc (h, sw, ij) in
              (u, rw (lookup-insert i j u r.store, same) refl, keeps k (rw tw at hw))
          | inr other ↦ (w, rw (lookup-insert i j u r.store, other) sw, hw)
        ];
    used = λ j w g. ground (arith, lookup-insert i j u r.store, v.used j w, v.used i t h);
  }

  pub detach-key : (o : Option (TupleSub K)) (t : TupleEntry K) → (detach o t).key ≡ t.key
  unfolding detach
  detach-key none t = refl
  detach-key (some s) t = refl

  pub release-IsBound :
      (h : TupleHandle K) (r : TupleRegistry K) → IsBound r → IsBound (release h r).0
  unfolding release unref
  release-IsBound h r v = elim (Bool-cases h.released) [
    | inl d ↦ simp (d, release) v
    | inr d ↦ elim (Option-cases (lookup h.entry r.store)) [
      | inl g ↦ simp (d, g, release) v
      | inr (t, g) ↦
          let t' = detach h.sub t in
          let left : TupleEntry K = record t' { refs = int_pred t'.refs } in
          elim (Bool-cases (int_eq (int_pred t'.refs) (pos 0))) [
            | inl last ↦
                simp (d, g, release, last)
                  (unmap-IsBound h.entry t'.key t (shut left) r g (sym (detach-key h.sub t)) v)
            | inr more ↦
                simp (d, g, release, more)
                  (store-IsBound h.entry t left r g (λ k w. detach-HasSocket h.sub k t w) v)
          ]
    ]
  ]

  pub drop_dead_entry-IsBound :
      (i : ℕ) (r : TupleRegistry K) → IsBound r → IsBound (drop_dead_entry i r)
  unfolding drop_dead_entry
  drop_dead_entry-IsBound i r v = elim (Option-cases (lookup i r.store)) [
    | inl g ↦ rw (g, drop_dead_entry) v
    | inr (t, g) ↦ elim (Bool-cases (holds t.key i r)) [
      | inl mine ↦ rw (g, mine, drop_dead_entry) (unmap-IsBound i t.key t (shut t) r g refl v)
      | inr lost ↦ rw (g, lost, drop_dead_entry) v
    ]
  ]
