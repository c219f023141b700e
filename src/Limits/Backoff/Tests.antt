-- ===== src/Limits/Backoff/Tests.antt =====
-- The login backoff on short runs: the key of an identity is the identity itself, and the visits
-- go in the order of the table.
use veritra.Prelude.{ℕ, ◌*◌, ◌≡◌, refl, String, List, [], ◌∷◌, arith, eq_iff}
use veritra.Prelude.GoMap.{HasUniqueKeys, lookup, insert, delete}
use veritra.Limits.Backoff.{
  LoginBackoffEntry, LoginBackoff, Table, minute, failed_any, evict_one_locked, evicts_before,
  fail_loop, fail_one, unique_backoff_identities, unique_from, make_room, drop_expired, evict_loop,
  better,
}
use veritra.Limits.Backoff.Eviction.{Visits}
use veritra.Limits.Backoff.Table.{IsBounded, failed_any-IsBounded}

abbrev by_table : Table → List String
by_table [] = []
by_table ((k, e) ∷ t) = k ∷ by_table t

by_table-Visits : Visits by_table
unfolding lookup
by_table-Visits [] k e h = cc
by_table-Visits ((j, d) ∷ t) k e h = ground (arith, eq_iff j k, by_table-Visits t k e)

abbrev same : String → String
same s = s

abbrev entry : ℕ → LoginBackoffEntry
entry n = record { failures = n; blocked_until = 0; expires_at = 10 * minute }

-- Two places, both taken.
abbrev full : LoginBackoff
full = record { max_entries = 2; by_id = ("a", entry 4) ∷ ("b", entry 1) ∷ []; evictions = 0 }

full-IsBounded : IsBounded full
full-IsBounded = (omega arith, omega arith)

-- A new identity pushes out the one with the fewest failures.
pushed_out : (failed_any by_table same minute ("c" ∷ []) full).0.evictions ≡ 1
unfolding failed_any fail_loop fail_one unique_backoff_identities unique_from make_room drop_expired
    evict_one_locked evict_loop evicts_before better lookup insert delete
pushed_out = refl

failed_any-IsBounded_example : IsBounded (failed_any by_table same minute ("c" ∷ "a" ∷ []) full).0
failed_any-IsBounded_example =
    failed_any-IsBounded by_table by_table-Visits same minute ("c" ∷ "a" ∷ []) full full-IsBounded

unique_keys : HasUniqueKeys full.by_id
unfolding lookup
unique_keys = (refl, (refl, tt))
