-- ===== src/Forward/Tuples.antt =====
-- internal/forward/tuple_registry.go: the sockets bound to players' addresses, shared by all rules. An
-- entry is a number with its record in a store, so that a handle can still lead to an entry that the
-- map has lost. A section under the lock is one step; between the two sections of acquire the factory
-- binds the socket, with a result that is an argument.
pub mod Open
pub mod Closing
mod Examples
use go_port_forward.Base.{
  ℕ, ◌+◌, ◌-◌, ◌≡◌, List, [], ◌∷◌, ◌++◌, Option, none, some, Bool, true, false, ◌&&◌, not, ◌==◌,
  if◌then◌else◌,
}
use go_port_forward.Base.Integers.{ℤ, pos, int_eq, int_succ, int_pred}
use go_port_forward.Base.Keys.{Eq, nat_eq, Map, lookup, insert, remove}

-- tupleSub: what it leads to (forwarder, session and player) is its number.
pub record TupleSub (K : Type 0) : Type 0 where
  pub ref : ℕ
  pub backend_key : K

-- `open_socket` says that the entry has a socket that is bound.
pub record TupleEntry (K : Type 0) : Type 0 where
  pub key : K
  pub open_socket : Bool
  pub refs : ℤ
  pub subs : Map K (List (TupleSub K))
  pub creating : Bool

pub record TupleHandle (K : Type 0) : Type 0 where
  pub entry : ℕ
  pub sub : Option (TupleSub K)
  pub released : Bool

pub record TupleRegistry (K : Type 0) : Type 0 where
  pub entries : Map K ℕ
  pub store : Map ℕ (TupleEntry K)
  pub next : ℕ
  pub closed : Bool

-- What the first section of acquire leads to.
pub data Begin (K : Type 0) : Type 0 where
  shares : TupleHandle K → Begin K
  waits : Begin K
  refuses : Begin K
  creates : ℕ → Begin K

module _ {K : Type 0} ⦃e : Eq K⦄ where
  unfoldable pub new_tuple_registry : TupleRegistry K
  new_tuple_registry = record { entries = []; store = []; next = 0; closed = false }

  unfoldable pub new_handle : ℕ → TupleHandle K
  new_handle i = record { entry = i; sub = none; released = false }

  -- The change of one record of the store.
  unfoldable pub update : ℕ → (TupleEntry K → TupleEntry K) → TupleRegistry K → TupleRegistry K
  update i f r = elim (lookup i r.store) [
    | none ↦ r
    | some t ↦ record r { store = insert i (f t) r.store }
  ]

  abbrev pub add_ref : TupleEntry K → TupleEntry K
  add_ref t = record t { refs = int_succ t.refs }

  abbrev pub shut : TupleEntry K → TupleEntry K
  shut t = record t { open_socket = false }

  abbrev pub bind_socket : TupleEntry K → TupleEntry K
  bind_socket t = record t { open_socket = true; creating = false; refs = int_succ t.refs }

  unfoldable pub place_holder : K → TupleEntry K
  place_holder key = record {
    key = key;
    open_socket = false;
    refs = pos 0;
    subs = [];
    creating = true;
  }

  -- acquire up to the call of the factory. The wait for `ready` ends in a new call.
  unfoldable pub begin_acquire : K → TupleRegistry K → TupleRegistry K × Begin K
  begin_acquire key r = elim (lookup key r.entries) [
    | some i ↦ elim (lookup i r.store) [
      | none ↦ (r, waits)
      | some t ↦ if t.creating then (r, waits) else (update i add_ref r, shares (new_handle i))
    ]
    | none ↦ if r.closed then (r, refuses) else (
      record r {
        entries = insert key r.next r.entries;
        store = insert r.next (place_holder key) r.store;
        next = r.next + 1;
      },
      creates r.next,
    )
  ]

  -- `r.entries[key] == e`
  unfoldable pub holds : K → ℕ → TupleRegistry K → Bool
  holds key i r = elim (lookup key r.entries) [ none ↦ false | some j ↦ j == i ]

  -- acquire after the factory, which bound the socket or did not.
  unfoldable pub finish_acquire :
      K → ℕ → (bound : Bool) → TupleRegistry K → TupleRegistry K × Option (TupleHandle K)
  finish_acquire key i bound r =
      if bound && (not r.closed && holds key i r)
      then (update i bind_socket r, some (new_handle i))
      else if holds key i r
      then (record r { entries = remove key r.entries }, none)
      else (r, none)

  abbrev pub subs_at : K → Map K (List (TupleSub K)) → List (TupleSub K)
  subs_at key m = elim (lookup key m) [ none ↦ [] | some l ↦ l ]

  unfoldable pub attach :
      TupleSub K → TupleHandle K → TupleRegistry K → TupleRegistry K × TupleHandle K
  attach sub h r =
      let b = sub.backend_key in
      (
        update h.entry (λ t. record t { subs = insert b (subs_at b t.subs ++ (sub ∷ [])) t.subs })
            r,
        record h { sub = some sub },
      )

  unfoldable pub drop_sub : ℕ → List (TupleSub K) → List (TupleSub K)
  drop_sub i [] = []
  drop_sub i (s ∷ l) = if s.ref == i then l else s ∷ drop_sub i l

  -- The subscription of a handle leaves its list, and an empty list the map.
  unfoldable pub detach : Option (TupleSub K) → TupleEntry K → TupleEntry K
  detach none t = t
  detach (some s) t =
      let rest = drop_sub s.ref (subs_at s.backend_key t.subs) in
      record t {
        subs = elim rest [
          | [] ↦ remove s.backend_key t.subs
          | x ∷ xs ↦ insert s.backend_key (x ∷ xs) t.subs
        ];
      }

  -- One reference less, where a handle that was not released holds one; the last one closes the socket and takes the entry of its key out of the map.
  unfoldable pub unref : ℕ → TupleEntry K → TupleRegistry K → TupleRegistry K
  unref i t r =
      let left = record t { refs = int_pred t.refs } in
      if int_eq left.refs (pos 0)
      then record r { entries = remove t.key r.entries; store = insert i (shut left) r.store }
      else record r { store = insert i left r.store }

  unfoldable pub release : TupleHandle K → TupleRegistry K → TupleRegistry K × TupleHandle K
  release h r = if h.released then (r, h) else (
    elim (lookup h.entry r.store) [ none ↦ r | some t ↦ unref h.entry (detach h.sub t) r ],
    record h { sub = none; released = true },
  )

  -- The subscribers that get a packet from `src`.
  unfoldable pub deliver : K → TupleEntry K → List (TupleSub K)
  deliver src t = subs_at src t.subs

  unfoldable pub drop_dead_entry : ℕ → TupleRegistry K → TupleRegistry K
  drop_dead_entry i r = elim (lookup i r.store) [
    | none ↦ r
    | some t ↦
        if holds t.key i r
        then record r { entries = remove t.key r.entries; store = insert i (shut t) r.store }
        else r
  ]

  -- Every entry of the map is shut; those under creation have no socket yet.
  unfoldable pub shut_all : Map K ℕ → TupleRegistry K → TupleRegistry K
  shut_all [] r = r
  shut_all ((key, i) ∷ m) r =
      let s = update i (λ t. if t.creating then t else shut t) r in
      shut_all m (record s { entries = remove key s.entries })

  unfoldable pub close_registry : TupleRegistry K → TupleRegistry K
  close_registry r = if r.closed then r else shut_all r.entries (record r { closed = true })

  -- The steps of the registry, with any arguments.
  pub data Step : TupleRegistry K → TupleRegistry K → Type 0 where
    begins : (key : K) (r : TupleRegistry K) → Step r (begin_acquire key r).0
    finishes :
        (key : K) (i : ℕ) (bound : Bool) (r : TupleRegistry K)
        → Step r (finish_acquire key i bound r).0
    attaches :
        (sub : TupleSub K) (h : TupleHandle K) (r : TupleRegistry K) → Step r (attach sub h r).0
    releases : (h : TupleHandle K) (r : TupleRegistry K) → Step r (release h r).0
    drops : (i : ℕ) (r : TupleRegistry K) → Step r (drop_dead_entry i r)
    closes : (r : TupleRegistry K) → Step r (close_registry r)

  pub data Reaches : TupleRegistry K → Type 0 where
    starts : Reaches new_tuple_registry
    then_step : (r s : TupleRegistry K) → Reaches r → Step r s → Reaches s
