-- ===== src/Limits/Rate/Tests.antt =====
-- The rate limiter with two places in each table; the visits go in the order of the table.
use veritra.Prelude.{
  ◌-◌, ◌*◌, ◌≡◌, refl, String, true, false, List, [], ◌∷◌, some, none, arith, ltb, if◌then◌else◌,
}
use veritra.Prelude.GoMap.{Map, lookup, insert, delete}
use veritra.Limits.Rate.Buckets.{
  Bucket, fresh, second, minute, bucket_locked, evict_one_locked, evict_loop, after_sample,
  considered, lighter, bucket_at, write_at,
}
use veritra.Limits.Rate.Limiter.{
  RateLimiter, credential_route, ordinary_route, scope_auth, scope_signed_in, refused,
  served_with_charge, rate_limits_from_config, new_charge, request, authenticated, unauthenticated,
  settle_unused, bounded_retry_after, counted,
}
use veritra.Limits.Rate.Evict.{evict_one_locked-Protects, Protects}
use veritra.Limits.Rate.Bounded.{
  Reach, here, next, request_step, unauthenticated_step, IsCapped, Reach-IsCapped,
}
use veritra.Limits.Rate.Spent.{spent_stays_refused}
use veritra.Limits.Rate.Answers.{IsSettled, request_signed_in, charges-IsSettled}

abbrev by_table : Map Bucket → List String
by_table [] = []
by_table ((k, b) ∷ t) = k ∷ by_table t

abbrev guessed : Bucket
guessed = record { general = 10; auth = 10; enrollment = 0; signed_in = 0; reset = minute }

abbrev browsed : Bucket
browsed = record { general = 3; auth = 0; enrollment = 0; signed_in = 5; reset = minute }

abbrev full : RateLimiter
full = record {
  limits = rate_limits_from_config 120 600 1200;
  max_entries = 2;
  addresses = record { table = ("bad", guessed) ∷ ("good", browsed) ∷ []; overflow = fresh 0 };
  accounts = record { table = []; overflow = fresh 0 };
  evictions = 0;
  rejections = record { general = 0; auth = 0; enrollment = 0; account = 0; signed_in = 0 };
}

-- A new address pushes out the bucket without credential requests.
pushed_out :
    lookup "good" (request by_table second "new" credential_route false full).0.addresses.table
    ≡ none
unfolding request bucket_locked evict_one_locked evict_loop after_sample considered lighter
    bucket_at write_at counted lookup insert delete
pushed_out = refl

run :
    Reach by_table minute full
      (unauthenticated by_table
        (2 * second)
        (new_charge "other")
        (request by_table second "new" credential_route false full).0).0
run =
    next (next here (request_step full second "new" credential_route false (omega arith)))
      (unauthenticated_step _ (2 * second) (new_charge "other") (omega arith))

Reach-IsCapped_example :
    IsCapped
      (unauthenticated by_table
        (2 * second)
        (new_charge "other")
        (request by_table second "new" credential_route false full).0).0
Reach-IsCapped_example = Reach-IsCapped by_table minute full _ run (omega arith, omega arith)

there : lookup "bad" full.addresses.table ≡ some guessed
unfolding lookup
there = refl

spent_stays_refused_example :
    (request by_table
      (3 * second)
      "bad"
      credential_route
      false
      (unauthenticated by_table
        (2 * second)
        (new_charge "other")
        (request by_table second "new" credential_route false full).0).0).1
    ≡ refused scope_auth (bounded_retry_after (minute - 3 * second))
spent_stays_refused_example =
    spent_stays_refused by_table "bad" guessed full _ (3 * second) false there (omega arith)
      (omega arith) run (omega arith)

evict_one_locked-Protects_example :
    Protects "bad" guessed (evict_one_locked by_table 2 second full.addresses.table)
evict_one_locked-Protects_example =
    evict_one_locked-Protects by_table 2 second full.addresses.table "bad" guessed there refl refl

good_there : lookup "good" full.addresses.table ≡ some browsed
unfolding lookup
good_there = refl

request_signed_in_example : (request by_table second "good" ordinary_route true full).1 ≡ (
    if ltb 1200 6
    then refused scope_signed_in (bounded_retry_after (minute - second))
    else served_with_charge)
request_signed_in_example =
    request_signed_in by_table second "good" full browsed good_there (omega arith)

charges-IsSettled_example :
    IsSettled by_table (authenticated by_table second "k" (new_charge "good") full).1
    × IsSettled by_table (unauthenticated by_table second (new_charge "good") full).1
    × IsSettled by_table (settle_unused by_table second (new_charge "good") full).1
    × ((authenticated by_table second "k" (new_charge "good") full).0.addresses ≡ full.addresses)
    × ((unauthenticated by_table second (new_charge "good") full).0.accounts ≡ full.accounts)
    × ((settle_unused by_table second (new_charge "good") full).0.accounts ≡ full.accounts)
    × ((settle_unused by_table second (new_charge "good") full).0.rejections ≡ full.rejections)
charges-IsSettled_example = charges-IsSettled by_table second "k" (new_charge "good") full
