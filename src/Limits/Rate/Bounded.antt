-- ===== src/Limits/Rate/Bounded.antt =====
-- The bucket that `bucketLocked` returns is open, and both tables stay within their bound.
use veritra.Prelude.{
  ℕ, ◌+◌, ◌≤◌, ◌<◌, ◌≡◌, String, Bool, true, false, not, List, [], ◌∷◌, Option, some, arith, leb,
  length, if_cases, Option-cases, inl, inr, tests,
}
use veritra.Prelude.GoMap.{Map, lookup, lookup-insert_same, length-insert_le, length-insert_present}
use veritra.Limits.Rate.Buckets.{
  Bucket, Buckets, Place, in_table, in_overflow, before, fresh, minute, with_fresh, admit_new,
  bucket_locked, write_at, remove_expired,
}
use veritra.Limits.Rate.Limiter.{
  RateLimiter, RouteClass, Scope, AccountCharge, request, settle_locked, settle_account,
  settle_address, authenticated, unauthenticated, settle_unused, cleanup,
}
use veritra.Limits.Rate.Evict.{HasRoom, evict_one_locked-HasRoom}

-- The place leads to a bucket whose minute has not ended.
abbrev pub IsOpen : ℕ → String → Buckets × Place × ℕ → Type 0
IsOpen now key (bs, in_table, n) = (b : Bucket) × (lookup key bs.table ≡ some b) × (now ≤ b.reset)
IsOpen now key (bs, in_overflow, n) = now ≤ bs.overflow.reset

abbrev pub IsFit : ℕ → ℕ → String → Buckets × Place × ℕ → Type 0
IsFit max now key r = (length r.0.table ≤ max) × IsOpen now key r

admit_new-IsFit :
    (max now : ℕ) (key : String) (bs : Buckets) (t : Map Bucket) (room : Bool) (n : ℕ)
    → HasRoom max (t, room, n)
    → IsFit max now key (admit_new key now bs (t, room, n))
admit_new-IsFit max now key bs t true n h = (
  omega (arith, length-insert_le key (fresh (now + minute)) t, h),
  (fresh (now + minute), lookup-insert_same key _ t, omega arith),
)
admit_new-IsFit max now key bs t false n h =
    if_cases (λ (x : Buckets). IsFit max now key (x, in_overflow, n + 1))
      (before bs.overflow.reset now) _ _ (λ e. (h, omega arith)) (λ e. (h, omega tests))

with_fresh-IsFit :
    (max now : ℕ) (key : String) (bs : Buckets)
    → length (with_fresh key now bs).table ≤ max
    → IsFit max now key (with_fresh key now bs, in_table, 0)
with_fresh-IsFit max now key bs h =
    (h, (fresh (now + minute), lookup-insert_same key _ bs.table, omega arith))

bucket_locked-IsFit :
    (order : Map Bucket → List String) (max now : ℕ) (key : String) (bs : Buckets)
    → length bs.table ≤ max
    → IsFit max now key (bucket_locked order max key now bs)
unfolding bucket_locked
bucket_locked-IsFit order max now key bs h = elim (Option-cases (lookup key bs.table)) [
  | inl missing ↦
      rw (missing, bucket_locked)
        (if_cases (IsFit max now key) (leb max (length bs.table)) _ _
          (λ full.
            admit_new-IsFit max now key bs _ _ _
              (evict_one_locked-HasRoom order max now bs.table h))
          (λ room.
            with_fresh-IsFit max now key bs
              (ground (arith, length-insert_le key (fresh (now + minute)) bs.table))))
  | inr (b, there) ↦
      rw (there, bucket_locked)
        (if_cases (IsFit max now key) (not (before b.reset now)) _ _
          (λ open_still. (h, (b, there, ground arith)))
          (λ ended.
            with_fresh-IsFit max now key bs (
              omega (arith, h, length-insert_present key (fresh (now + minute)) b bs.table there))))
]

write_at_le :
    (max now : ℕ) (key : String) (new : Bucket) (bs : Buckets) (place : Place) (n : ℕ)
    → IsFit max now key (bs, place, n)
    → length (write_at place key new bs).table ≤ max
unfolding write_at
write_at_le max now key new bs in_table n (h, (b, there, l)) =
    omega (arith, h, length-insert_present key new b bs.table there)
write_at_le max now key new bs in_overflow n (h, l) = h

remove_expired_le : (now : ℕ) (t : Map Bucket) → length (remove_expired now t) ≤ length t
unfolding remove_expired
remove_expired_le now [] = omega arith
remove_expired_le now ((k, b) ∷ t) = ground (arith, remove_expired_le now t)

-- Both tables are within the bound.
abbrev pub IsCapped : RateLimiter → Type 0
IsCapped rl =
    (length rl.addresses.table ≤ rl.max_entries) × (length rl.accounts.table ≤ rl.max_entries)

module _ (order : Map Bucket → List String) where
  -- A request, a charge that is settled in one of the three ways, or a round of the cleanup, at a
  -- time before the deadline.
  pub data Step : ℕ → RateLimiter → RateLimiter → Type 0 where
    request_step :
        {deadline : ℕ} (rl : RateLimiter) (now : ℕ) (host : String) (class : RouteClass)
        (has_token : Bool)
        → now < deadline
        → Step deadline rl (request order now host class has_token rl).0
    authenticated_step :
        {deadline : ℕ} (rl : RateLimiter) (now : ℕ) (account_key : String) (c : AccountCharge)
        → now < deadline
        → Step deadline rl (authenticated order now account_key c rl).0
    unauthenticated_step :
        {deadline : ℕ} (rl : RateLimiter) (now : ℕ) (c : AccountCharge)
        → now < deadline
        → Step deadline rl (unauthenticated order now c rl).0
    settle_unused_step :
        {deadline : ℕ} (rl : RateLimiter) (now : ℕ) (c : AccountCharge)
        → now < deadline
        → Step deadline rl (settle_unused order now c rl).0
    cleanup_step :
        {deadline : ℕ} (rl : RateLimiter) (now : ℕ)
        → now < deadline
        → Step deadline rl (cleanup now rl)

  pub data Reach : ℕ → RateLimiter → RateLimiter → Type 0 where
    here : {deadline : ℕ} {rl : RateLimiter} → Reach deadline rl rl
    next :
        {deadline : ℕ} {a b c : RateLimiter}
        → Reach deadline a b
        → Step deadline b c
        → Reach deadline a c

  settle_address-IsCapped :
      (now : ℕ) (scope : Option Scope) (c : AccountCharge) (rl : RateLimiter)
      → IsCapped rl
      → IsCapped (settle_address order now scope c rl).0
  unfolding settle_address settle_locked
  settle_address-IsCapped now scope c rl (l, r) = (
    write_at_le rl.max_entries now _ _ _ _ _
        (bucket_locked-IsFit order rl.max_entries now c.host rl.addresses l),
    r,
  )

  settle_account-IsCapped :
      (now : ℕ) (key : String) (c : AccountCharge) (rl : RateLimiter)
      → IsCapped rl
      → IsCapped (settle_account order now key c rl).0
  unfolding settle_account settle_locked
  settle_account-IsCapped now key c rl (l, r) = (
    l,
    write_at_le rl.max_entries now _ _ _ _ _
        (bucket_locked-IsFit order rl.max_entries now key rl.accounts r),
  )

  Step-IsCapped : (deadline : ℕ) (a b : RateLimiter) → Step deadline a b → IsCapped a → IsCapped b
  unfolding request authenticated unauthenticated settle_unused cleanup
  Step-IsCapped deadline _ _ (request_step rl now host class has_token before_end) (l, r) = (
    write_at_le rl.max_entries now _ _ _ _ _
        (bucket_locked-IsFit order rl.max_entries now host rl.addresses l),
    r,
  )
  Step-IsCapped deadline _ _ (authenticated_step rl now key c before_end) i =
      if_cases (λ (x : RateLimiter × AccountCharge). IsCapped x.0) (not c.done) _ _
        (λ h. settle_account-IsCapped now key c rl i) (λ h. i)
  Step-IsCapped deadline _ _ (unauthenticated_step rl now c before_end) i =
      if_cases (λ (x : RateLimiter × AccountCharge). IsCapped x.0) (not c.done) _ _
        (λ h. settle_address-IsCapped now _ c rl i) (λ h. i)
  Step-IsCapped deadline _ _ (settle_unused_step rl now c before_end) i =
      if_cases (λ (x : RateLimiter × AccountCharge). IsCapped x.0) (not c.done) _ _
        (λ h. settle_address-IsCapped now _ c rl i) (λ h. i)
  Step-IsCapped deadline _ _ (cleanup_step rl now before_end) (l, r) = (
    omega (arith, l, remove_expired_le now rl.addresses.table),
    omega (arith, r, remove_expired_le now rl.accounts.table),
  )

  -- Any sequence of requests, settlements and cleanups keeps both bucket tables of the rate
  -- limiter within the bound, if they start within it.
  pub Reach-IsCapped :
      (deadline : ℕ) (a b : RateLimiter) → Reach deadline a b → IsCapped a → IsCapped b
  Reach-IsCapped deadline a _ here i = i
  Reach-IsCapped deadline a c (next {b = b} r s) i =
      Step-IsCapped deadline b c s (Reach-IsCapped deadline a b r i)
