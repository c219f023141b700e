-- ===== src/Limits/Rate/Buckets.antt =====
-- A bucket table with its overflow bucket (`bucketLocked` and `evictOneLocked` of
-- server/internal/app/app.go). The order in which Go visits a map is a parameter.
use veritra.Prelude.{
  ℕ, suc, ◌+◌, ◌*◌, String, Bool, true, false, not, ◌&&◌, List, [], ◌∷◌, Option, some, none, ltb,
  leb, ◌==◌, if◌then◌else◌, length,
}
use veritra.Prelude.GoMap.{Map, lookup, insert, delete}

abbrev pub second : ℕ
second = 1_000_000_000

abbrev pub minute : ℕ
minute = 60 * second

abbrev pub max_rate_limit_entries : ℕ
max_rate_limit_entries = 65536

abbrev pub rate_limit_eviction_sample_size : ℕ
rate_limit_eviction_sample_size = 32

pub record Bucket : Type 0 where
  pub general : ℕ
  pub auth : ℕ
  pub enrollment : ℕ
  pub signed_in : ℕ
  pub reset : ℕ

abbrev pub fresh : ℕ → Bucket
fresh reset = record { general = 0; auth = 0; enrollment = 0; signed_in = 0; reset = reset }

abbrev pub before : ℕ → ℕ → Bool
before t now = ltb t now

abbrev pub after : ℕ → ℕ → Bool
after t now = ltb now t

-- Neither of the budgets that bound guessing is used.
abbrev pub spares : Bucket → Bool
spares b = (b.auth == 0) && (b.enrollment == 0)

-- The least used bucket so far, with its load.
abbrev pub Victim : Type 0
Victim = Option (String × ℕ)

abbrev pub load : Bucket → ℕ
load b = b.general + b.signed_in

unfoldable pub lighter : String → Bucket → Victim → Victim
lighter k b none = some (k, load b)
lighter k b (some (v, least)) = if ltb (load b) least then some (k, load b) else some (v, least)

unfoldable pub considered : String → Bucket → Victim → Victim
considered k b v = if spares b then lighter k b v else v

-- What the loop over the sample found: room that an expired bucket made, or a victim, if any.
pub data Sampled : Type 0 where
  made_room : Sampled
  chosen : Victim → Sampled

unfoldable pub evict_loop : ℕ → ℕ → List String → ℕ → Victim → Map Bucket → Map Bucket × Sampled
evict_loop max now [] sampled victim t = (t, chosen victim)
evict_loop max now (k ∷ ks) sampled victim t = elim (lookup k t) [
  | none ↦ evict_loop max now ks sampled victim t
  | some b ↦ elim (after b.reset now) [
    | true ↦ elim (leb rate_limit_eviction_sample_size (suc sampled)) [
      | true ↦ (t, chosen (considered k b victim))
      | false ↦ evict_loop max now ks (suc sampled) (considered k b victim) t
    ]
    | false ↦ elim (ltb (length (delete k t)) max) [
      | true ↦ (delete k t, made_room)
      | false ↦ evict_loop max now ks sampled victim (delete k t)
    ]
  ]
]

-- The table, whether there is room, and how much the count of evictions grows.
unfoldable pub after_sample : Map Bucket × Sampled → Map Bucket × Bool × ℕ
after_sample (t, made_room) = (t, true, 0)
after_sample (t, chosen none) = (t, false, 0)
after_sample (t, chosen (some (k, least))) = (delete k t, true, 1)

unfoldable pub evict_one_locked :
    (Map Bucket → List String) → ℕ → ℕ → Map Bucket → Map Bucket × Bool × ℕ
evict_one_locked order max now t =
    if ltb (length t) max
    then (t, true, 0)
    else after_sample (evict_loop max now (order t) 0 none t)

-- A table and the bucket that serves the keys for which it has no room.
pub record Buckets : Type 0 where
  pub table : Map Bucket
  pub overflow : Bucket

-- Which bucket `bucketLocked` returns a pointer to.
pub data Place : Type 0 where
  in_table : Place
  in_overflow : Place

abbrev pub with_fresh : String → ℕ → Buckets → Buckets
with_fresh key now bs = record bs { table = insert key (fresh (now + minute)) bs.table }

abbrev pub with_overflow : ℕ → Buckets → Buckets
with_overflow now bs =
    if before bs.overflow.reset now then record bs { overflow = fresh (now + minute) } else bs

-- A new key, after an eviction has said whether there is room.
abbrev pub admit_new : String → ℕ → Buckets → Map Bucket × Bool × ℕ → Buckets × Place × ℕ
admit_new key now bs (t, room, n) =
    if room
    then (with_fresh key now (record bs { table = t }), in_table, n)
    else (with_overflow now (record bs { table = t }), in_overflow, n + 1)

-- The buckets, the place of the one returned, and how much the count of evictions grows.
unfoldable pub bucket_locked :
    (Map Bucket → List String) → ℕ → String → ℕ → Buckets → Buckets × Place × ℕ
bucket_locked order max key now bs = elim (lookup key bs.table) [
  | some b ↦
      if not (before b.reset now) then (bs, in_table, 0) else (with_fresh key now bs, in_table, 0)
  | none ↦
      if leb max (length bs.table)
      then admit_new key now bs (evict_one_locked order max now bs.table)
      else (with_fresh key now bs, in_table, 0)
]

-- The bucket that the pointer leads to, and writing through it.
abbrev pub or_fresh : Option Bucket → Bucket
or_fresh none = fresh 0
or_fresh (some b) = b

unfoldable pub bucket_at : Place → String → Buckets → Bucket
bucket_at in_table key bs = or_fresh (lookup key bs.table)
bucket_at in_overflow key bs = bs.overflow

unfoldable pub write_at : Place → String → Bucket → Buckets → Buckets
write_at in_table key b bs = record bs { table = insert key b bs.table }
write_at in_overflow key b bs = record bs { overflow = b }

-- One round of the cleanup, over one table; the order of the visits does not matter.
unfoldable pub remove_expired : ℕ → Map Bucket → Map Bucket
remove_expired now [] = []
remove_expired now ((k, b) ∷ t) =
    let rest = remove_expired now t in if before b.reset now then rest else (k, b) ∷ rest
