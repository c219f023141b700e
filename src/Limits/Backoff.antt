-- ===== src/Limits/Backoff.antt =====
-- The backoff of failed logins (server/internal/httpapi/login_backoff.go). Each exported method
-- holds the lock, so it is a function of the table. The key of an identity, a salted hash of it,
-- and the order in which Go visits a map are parameters.
pub mod Eviction
pub mod Table
pub mod Delay
mod Tests
use veritra.Prelude.{
  ℕ, zero, suc, ◌+◌, ◌-◌, ◌*◌, ◌^◌, String, Bool, true, false, not, ◌&&◌, ◌||◌, List, [], ◌∷◌,
  Option, some, none, ltb, leb, ◌==◌, str_eq, if◌then◌else◌, length,
}
use veritra.Prelude.GoMap.{Map, lookup, insert, delete}

abbrev pub second : ℕ
second = 1_000_000_000

abbrev pub minute : ℕ
minute = 60 * second

abbrev pub max_login_backoff_entries : ℕ
max_login_backoff_entries = 32768

abbrev pub backoff_eviction_sample_size : ℕ
backoff_eviction_sample_size = 32

pub record LoginBackoffEntry : Type 0 where
  pub failures : ℕ
  pub blocked_until : ℕ
  pub expires_at : ℕ

abbrev pub zero_entry : LoginBackoffEntry
zero_entry = record { failures = 0; blocked_until = 0; expires_at = 0 }

abbrev pub Table : Type 0
Table = Map LoginBackoffEntry

pub record LoginBackoff : Type 0 where
  pub max_entries : ℕ
  pub by_id : Table
  pub evictions : ℕ

abbrev pub new_login_backoff : LoginBackoff
new_login_backoff = record { max_entries = max_login_backoff_entries; by_id = []; evictions = 0 }

-- t.After(now)
abbrev pub after : ℕ → ℕ → Bool
after t now = ltb now t

abbrev pub is_live : LoginBackoffEntry → ℕ → Bool
is_live e now = after e.expires_at now

-- Whether a is a better victim than b.
unfoldable pub evicts_before : ℕ → LoginBackoffEntry → LoginBackoffEntry → Bool
evicts_before now a b =
    let a_blocked = after a.blocked_until now in
    let b_blocked = after b.blocked_until now in
    if not (a.failures == b.failures)
    then ltb a.failures b.failures
    else if (a_blocked && not b_blocked) || (not a_blocked && b_blocked)
    then not a_blocked
    else ltb a.expires_at b.expires_at

abbrev pub Victim : Type 0
Victim = Option (String × LoginBackoffEntry)

unfoldable pub better : ℕ → String → LoginBackoffEntry → Victim → Victim
better now k e none = some (k, e)
better now k e (some (v, ve)) = if evicts_before now e ve then some (k, e) else some (v, ve)

-- The loop of `evictOneLocked` over the keys as Go visits them; a key that is gone is not produced.
-- The victim is none on the early return, for which an expired entry has made room.
unfoldable pub evict_loop : ℕ → ℕ → List String → ℕ → Victim → Table → Table × Victim
evict_loop max now [] sampled victim t = (t, victim)
evict_loop max now (k ∷ ks) sampled victim t = elim (lookup k t) [
  | none ↦ evict_loop max now ks sampled victim t
  | some e ↦ elim (is_live e now) [
    | true ↦ elim (leb backoff_eviction_sample_size (suc sampled)) [
      | true ↦ (t, better now k e victim)
      | false ↦ evict_loop max now ks (suc sampled) (better now k e victim) t
    ]
    | false ↦ elim (ltb (length (delete k t)) max) [
      | true ↦ (delete k t, none)
      | false ↦ evict_loop max now ks sampled victim (delete k t)
    ]
  ]
]

abbrev pub take_out : Victim → Table → Table
take_out none t = t
take_out (some (k, e)) t = delete k t

abbrev pub counted : Victim → ℕ → ℕ
counted none n = n
counted (some v) n = n + 1

-- `order` is the order of the visits.
unfoldable pub evict_one_locked : (Table → List String) → ℕ → LoginBackoff → LoginBackoff
evict_one_locked order now b =
    let (t, victim) = evict_loop b.max_entries now (order b.by_id) 0 none b.by_id in
    if ltb (length b.by_id) b.max_entries
    then b
    else record b { by_id = take_out victim t; evictions = counted victim b.evictions }

-- seen[identity], by the keys of the map.
abbrev pub seen_before : String → List String → Bool
seen_before k [] = false
seen_before k (j ∷ js) = str_eq j k || seen_before k js

unfoldable pub unique_from : List String → List String → List String
unique_from seen [] = []
unique_from seen (k ∷ ks) =
    let rest = unique_from (k ∷ seen) ks in
    if seen_before k seen then unique_from seen ks else k ∷ rest

unfoldable pub unique_backoff_identities : List String → List String
unique_backoff_identities ks = unique_from [] ks

unfoldable pub bounded_backoff : ℕ → ℕ
bounded_backoff d = if ltb (60 * second) d then 60 * second else d

-- What an entry adds to the longest delay.
abbrev pub longer : ℕ → ℕ → ℕ → ℕ
longer longest blocked_until now =
    if after blocked_until now && ltb longest (blocked_until - now)
    then blocked_until - now
    else longest

unfoldable pub retry_loop : (String → String) → ℕ → List String → ℕ → Table → Table × ℕ
retry_loop key now [] longest t = (t, longest)
retry_loop key now (k ∷ ks) longest t = elim (lookup (key k) t) [
  | none ↦ retry_loop key now ks longest t
  | some e ↦ elim (is_live e now) [
    | true ↦ retry_loop key now ks (longer longest e.blocked_until now) t
    | false ↦ retry_loop key now ks longest (delete (key k) t)
  ]
]

unfoldable pub retry_after_any :
    (String → String) → ℕ → List String → LoginBackoff → LoginBackoff × ℕ
retry_after_any key now identities b =
    let (t, longest) = retry_loop key now (unique_backoff_identities identities) 0 b.by_id in
    (record b { by_id = t }, bounded_backoff longest)

-- shift := min(failures - 3, 5)
abbrev pub shift : ℕ → ℕ
shift failures = if ltb 5 (failures - 3) then 5 else failures - 3

-- The delay after this many failures, from the third on.
unfoldable pub delay : ℕ → ℕ
delay failures = second * 2 ^ shift failures

-- entry, exists := byID[k]
abbrev pub entry_or_zero : Option LoginBackoffEntry → LoginBackoffEntry
entry_or_zero none = zero_entry
entry_or_zero (some e) = e

abbrev pub live_now : Option LoginBackoffEntry → ℕ → Bool
live_now none now = false
live_now (some e) now = is_live e now

-- Deletes the entry of the key if it has expired; its value stays in the variable `entry`.
unfoldable pub drop_expired : ℕ → String → Option LoginBackoffEntry → Table → Table
drop_expired now k none t = t
drop_expired now k (some e) t = if is_live e now then t else delete k t

-- One more failure on the variable `entry`; `exists` says whether it was a live entry. The test for
-- an expired entry under `exists` can never pass, since such an entry does not exist any more.
unfoldable pub failed_entry : LoginBackoffEntry → Bool → ℕ → LoginBackoffEntry
failed_entry entry exists now =
    let e : LoginBackoffEntry = record entry {
      failures = entry.failures + 1;
      expires_at =
          if not exists
          then now + 15 * minute
          else if not (after entry.expires_at now)
          then now + 15 * minute
          else entry.expires_at;
    } in
    if leb 3 e.failures then record e { blocked_until = now + delay e.failures } else e

-- One round of the loop of `FailedAny`, for the key k.
unfoldable pub make_room : (Table → List String) → ℕ → Bool → LoginBackoff → LoginBackoff
make_room order now exists b =
    if not exists && leb b.max_entries (length b.by_id) then evict_one_locked order now b else b

unfoldable pub fail_one :
    (Table → List String) → ℕ → String → LoginBackoff → LoginBackoff × LoginBackoffEntry
fail_one order now k b =
    let found = lookup k b.by_id in
    let exists = live_now found now in
    let e = failed_entry (entry_or_zero found) exists now in
    let b' = make_room order now exists (record b { by_id = drop_expired now k found b.by_id }) in
    (record b' { by_id = insert k e b'.by_id }, e)

unfoldable pub fail_loop :
    (Table → List String)
    → (String → String)
    → ℕ
    → List String
    → ℕ
    → LoginBackoff
    → LoginBackoff × ℕ
fail_loop order key now [] longest b = (b, longest)
fail_loop order key now (k ∷ ks) longest b =
    let (b', e) = fail_one order now (key k) b in
    fail_loop order key now ks (longer longest e.blocked_until now) b'

unfoldable pub failed_any :
    (Table → List String) → (String → String) → ℕ → List String → LoginBackoff → LoginBackoff × ℕ
failed_any order key now identities b =
    let (b', longest) = fail_loop order key now (unique_backoff_identities identities) 0 b in
    (b', bounded_backoff longest)

unfoldable pub delete_all : (String → String) → List String → Table → Table
delete_all key [] t = t
delete_all key (k ∷ ks) t = delete_all key ks (delete (key k) t)

unfoldable pub succeeded_any : (String → String) → List String → LoginBackoff → LoginBackoff
succeeded_any key identities b = record b {
  by_id = delete_all key (unique_backoff_identities identities) b.by_id;
}

-- `removeExpiredLocked`; the order of the visits does not matter.
unfoldable pub remove_expired : ℕ → Table → Table
remove_expired now [] = []
remove_expired now ((k, e) ∷ t) =
    let rest = remove_expired now t in if is_live e now then (k, e) ∷ rest else rest
