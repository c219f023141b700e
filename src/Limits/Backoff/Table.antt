-- ===== src/Limits/Backoff/Table.antt =====
-- The backoff table stays within its bound, and what a success and a cleanup take out of it.
use veritra.Prelude.{
  ℕ, ◌≤◌, ◌<◌, ◌≡◌, refl, ap, ◌∙◌, String, true, false, List, [], ◌∷◌, Option, some, none, arith,
  leb, str_eq, eq_iff, if◌then◌else◌, length, if_cases, Bool-cases, inl, inr,
}
use veritra.Prelude.GoMap.{
  HasUniqueKeys, lookup, insert, delete, lookup-delete, length-insert, length-delete_le,
}
use veritra.Limits.Backoff.{
  LoginBackoffEntry, LoginBackoff, Table, is_live, seen_before, drop_expired, live_now,
  entry_or_zero, failed_entry, make_room, fail_one, fail_loop, failed_any, delete_all,
  succeeded_any, remove_expired, unique_backoff_identities, unique_from,
}
use veritra.Limits.Backoff.Eviction.{Visits, evict_one_locked-MadeRoom}

abbrev pub IsBounded : LoginBackoff → Type 0
IsBounded b = (0 < b.max_entries) × (length b.by_id ≤ b.max_entries)

drop_expired_le :
    (now : ℕ) (k : String) (o : Option LoginBackoffEntry) (t : Table)
    → length (drop_expired now k o t) ≤ length t
unfolding drop_expired
drop_expired_le now k none t = omega arith
drop_expired_le now k (some e) t = ground (arith, length-delete_le k t)

-- A new key finds room; the entry of a live key is replaced.
make_room-lt :
    (order : Table → List String) (now : ℕ) (b : LoginBackoff)
    → Visits order
    → IsBounded b
    → (length (make_room order now false b).by_id < b.max_entries)
      × ((make_room order now false b).max_entries ≡ b.max_entries)
unfolding make_room
make_room-lt order now b visits bound =
    if_cases
      (λ (x : LoginBackoff). (length x.by_id < b.max_entries) × (x.max_entries ≡ b.max_entries))
      (leb b.max_entries (length b.by_id)) _ _
      (λ h. evict_one_locked-MadeRoom order now b visits bound.0 bound.1)
      (λ h. (ground arith, refl))

make_room_live :
    (order : Table → List String) (now : ℕ) (b : LoginBackoff) → make_room order now true b ≡ b
unfolding make_room
make_room_live order now b = refl

replaced :
    (now : ℕ) (k : String) (o : Option LoginBackoffEntry) (e : LoginBackoffEntry) (t : Table)
    → live_now o now ≡ true
    → lookup k t ≡ o
    → length (insert k e (drop_expired now k o t)) ≡ length t
unfolding drop_expired
replaced now k none e t live eq = cc
replaced now k (some old) e t live eq = ground (arith, length-insert k e t)

module _ (order : Table → List String) (visits : Visits order) where
  fail_one-IsBounded :
      (now : ℕ) (k : String) (b : LoginBackoff) → IsBounded b → IsBounded (fail_one order now k b).0
  unfolding fail_one
  fail_one-IsBounded now k b bound = go (lookup k b.by_id) refl
    where
      fitted :
          (b' : LoginBackoff) (e : LoginBackoffEntry)
          → b'.max_entries ≡ b.max_entries
          → length b'.by_id < b.max_entries
          → IsBounded (record b' { by_id = insert k e b'.by_id })
      fitted b' e same room =
          (omega (arith, bound, same), omega (arith, length-insert k e b'.by_id, same, room))

      go :
          (o : Option LoginBackoffEntry)
          → lookup k b.by_id ≡ o
          → IsBounded (
              let e = failed_entry (entry_or_zero o) (live_now o now) now in
              let b' =
                make_room order now
                  (live_now o now)
                  (record b { by_id = drop_expired now k o b.by_id }) in
              record b' { by_id = insert k e b'.by_id })
      go o eq = elim (Bool-cases (live_now o now)) [
        | inl live ↦
            rw (live, make_room_live)
              (bound.0, omega (arith, bound.1, replaced now k o _ b.by_id live eq))
        | inr dead ↦
            let dropped : LoginBackoff = record b { by_id = drop_expired now k o b.by_id } in
            let (room, same) =
              make_room-lt order now dropped visits
                (bound.0, omega (arith, bound.1, drop_expired_le now k o b.by_id)) in
            rw dead (fitted (make_room order now false dropped) _ same room)
      ]

  fail_loop-IsBounded :
      (key : String → String) (now : ℕ) (ks : List String) (longest : ℕ) (b : LoginBackoff)
      → IsBounded b
      → IsBounded (fail_loop order key now ks longest b).0
  unfolding fail_loop
  fail_loop-IsBounded key now [] longest b bound = bound
  fail_loop-IsBounded key now (k ∷ ks) longest b bound =
      fail_loop-IsBounded key now ks _ (fail_one order now (key k) b).0
        (fail_one-IsBounded now (key k) b bound)

  -- Recording failures, for any identities at any time and any order in which the map is visited
  -- that covers its keys, keeps the backoff table within its bound.
  pub failed_any-IsBounded :
      (key : String → String) (now : ℕ) (identities : List String) (b : LoginBackoff)
      → IsBounded b
      → IsBounded (failed_any order key now identities b).0
  unfolding failed_any
  failed_any-IsBounded key now identities b bound = fail_loop-IsBounded key now _ 0 b bound

-- Whether an identity is among those given, the ones seen before apart.
unique_from-seen :
    (k : String) (seen ks : List String)
    → seen_before k seen ≡ false
    → seen_before k (unique_from seen ks) ≡ seen_before k ks
unfolding unique_from
unique_from-seen k seen [] h = refl
unique_from-seen k seen (j ∷ js) h =
    ground (arith, eq_iff j k, unique_from-seen k seen js, unique_from-seen k (j ∷ seen) js)

delete_all_keeps :
    (key : String → String) (ks : List String) (t : Table) (x : String)
    → lookup x t ≡ none
    → lookup x (delete_all key ks t) ≡ none
unfolding delete_all
delete_all_keeps key [] t x h = h
delete_all_keeps key (j ∷ js) t x h =
    delete_all_keeps key js (delete (key j) t) x (rw lookup-delete (ground arith))

delete_all-lookup :
    (key : String → String) (ks : List String) (t : Table) (k : String)
    → seen_before k ks ≡ true
    → lookup (key k) (delete_all key ks t) ≡ none
unfolding delete_all
delete_all-lookup key [] t k h = cc
delete_all-lookup key (j ∷ js) t k h = elim (Bool-cases (str_eq j k)) [
  | inl e ↦
      delete_all_keeps key js _ (key k)
        (rw lookup-delete (ground (arith, eq_iff (key j) (key k), ap key ((eq_iff j k).0 e))))
  | inr e ↦ delete_all-lookup key js _ k (rw e at h)
]

-- A success forgets every identity given, whatever repetitions the list has.
pub succeeded_any_lem :
    (key : String → String) (identities : List String) (b : LoginBackoff) (k : String)
    → seen_before k identities ≡ true
    → lookup (key k) (succeeded_any key identities b).by_id ≡ none
unfolding succeeded_any unique_backoff_identities
succeeded_any_lem key identities b k h =
    delete_all-lookup key _ b.by_id k (unique_from-seen k [] identities refl ∙ h)

abbrev pub live_or_none : Option LoginBackoffEntry → ℕ → Option LoginBackoffEntry
live_or_none none now = none
live_or_none (some e) now = if is_live e now then some e else none

remove_expired_keeps :
    (now : ℕ) (t : Table) (x : String) → lookup x t ≡ none → lookup x (remove_expired now t) ≡ none
unfolding remove_expired lookup
remove_expired_keeps now [] x h = refl
remove_expired_keeps now ((k, e) ∷ t) x h = ground (arith, remove_expired_keeps now t x)

-- The cleanup of a table without repeated keys takes out the expired entries and no other.
pub lookup-remove_expired :
    (now : ℕ) (t : Table) (k : String)
    → HasUniqueKeys t
    → lookup k (remove_expired now t) ≡ live_or_none (lookup k t) now
unfolding remove_expired lookup
lookup-remove_expired now [] k u = refl
lookup-remove_expired now ((j, e) ∷ t) k u =
    ground (arith, lookup-remove_expired now t k u.1, eq_iff j k, u.0, remove_expired_keeps now t j)
