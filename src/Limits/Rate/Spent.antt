-- ===== src/Limits/Rate/Spent.antt =====
-- A credential budget that is spent stays spent until its minute ends.
use veritra.Prelude.{
  ℕ, ◌+◌, ◌-◌, ◌≤◌, ◌<◌, ◌≡◌, refl, ◌∙◌, ap, String, Bool, true, false, not, List, [], ◌∷◌, Option,
  some, arith, leb, str_eq, eq_iff, length, if_cases, Bool-cases, Option-cases, inl, inr, lt→ltb,
  le→ltb_false,
}
use veritra.Prelude.GoMap.{Map, lookup, lookup-insert}
use veritra.Limits.Rate.Buckets.{
  Bucket, Buckets, Place, in_table, in_overflow, before, admit_new, bucket_locked, bucket_at,
  write_at, remove_expired,
}
use veritra.Limits.Rate.Limiter.{
  RateLimits, RateLimiter, RouteClass, credential_route, Scope, scope_auth, AccountCharge, refused,
  request, settle_locked, settle_account, settle_address, authenticated, unauthenticated,
  settle_unused, cleanup, is_signed_in, is_credential, counted, exceeded, bounded_retry_after,
}
use veritra.Limits.Rate.Evict.{evict_one_locked-Protects}
use veritra.Limits.Rate.Bounded.{
  Step, request_step, authenticated_step, unauthenticated_step, settle_unused_step, cleanup_step,
  Reach, here, next,
}

-- The bucket of the address x is live with at least n credential requests, of which there is one.
abbrev IsKept : String → ℕ → ℕ → Map Bucket → Type 0
IsKept x reset n t = (b : Bucket) × (lookup x t ≡ some b) × (b.reset ≡ reset) × (n ≤ b.auth)

module _ (order : Map Bucket → List String) (max : ℕ) (x : String) (c : Bucket) (now : ℕ)
    (key : String) where
  admit_new-lookup :
      (bs : Buckets) (t : Map Bucket) (room : Bool) (n : ℕ)
      → str_eq key x ≡ false
      → lookup x t ≡ some c
      → lookup x (admit_new key now bs (t, room, n)).0.table ≡ some c
  admit_new-lookup bs t true n other there = rw (lookup-insert, other) there
  admit_new-lookup bs t false n other there =
      if_cases (λ (b : Buckets). lookup x b.table ≡ some c) (before bs.overflow.reset now) _ _
        (λ e. there) (λ e. there)

  -- `bucketLocked`, for any key, leaves the bucket of x in place.
  bucket_locked-lookup :
      (bs : Buckets)
      → lookup x bs.table ≡ some c
      → now < c.reset
      → 0 < c.auth
      → lookup x (bucket_locked order max key now bs).0.table ≡ some c
  unfolding bucket_locked
  bucket_locked-lookup bs there live used = elim (Option-cases (lookup key bs.table)) [
    | inl missing ↦
        let other : str_eq key x ≡ false = ground (arith, eq_iff key x, missing, there) in
        rw (missing, bucket_locked)
          (if_cases (λ (r : Buckets × Place × ℕ). lookup x r.0.table ≡ some c)
            (leb max (length bs.table)) _ _
            (λ full. admit_new-lookup bs _ _ _ other (
              evict_one_locked-Protects order max now bs.table x c there (lt→ltb now c.reset live)
                (ground arith)))
            (λ room. rw (lookup-insert, other) there))
    | inr (b, here_too) ↦
        rw (here_too, bucket_locked)
          (if_cases (λ (r : Buckets × Place × ℕ). lookup x r.0.table ≡ some c)
            (not (before b.reset now)) _ _ (λ open_still. there)
            (λ ended. rw lookup-insert (ground (arith, eq_iff key x, there, here_too))))
  ]

-- Writing a bucket whose count of credential requests has not shrunk.
write_at-IsKept :
    (x key : String) (n reset : ℕ) (c new : Bucket) (place : Place) (bs : Buckets)
    → lookup x bs.table ≡ some c
    → c.reset ≡ reset
    → n ≤ c.auth
    → new.reset ≡ (bucket_at place key bs).reset
    → (bucket_at place key bs).auth ≤ new.auth
    → IsKept x reset n (write_at place key new bs).table
unfolding write_at bucket_at
write_at-IsKept x key n reset c new in_overflow bs there ends enough same grown =
    (c, there, ends, enough)
write_at-IsKept x key n reset c new in_table bs there ends enough same grown =
    elim (Bool-cases (str_eq key x)) [
      | inl e ↦
          let at : lookup key bs.table ≡ some c = rw ((eq_iff key x).0 e) there in
          (
            new,
            rw (lookup-insert, e) refl,
            ground (arith, at, same, ends),
            ground (arith, at, enough, grown),
          )
      | inr e ↦ (c, rw (lookup-insert, e) there, ends, enough)
    ]

counted_grows :
    (class : RouteClass) (signed_in : Bool) (b : Bucket)
    → ((counted class signed_in b).reset ≡ b.reset) × (b.auth ≤ (counted class signed_in b).auth)
unfolding counted
counted_grows class signed_in b = (
  refl,
  if_cases (λ (n : ℕ). b.auth ≤ n) (is_credential class) _ _ (λ h. omega arith) (λ h. omega arith),
)

remove_expired-lookup :
    (now : ℕ) (x : String) (c : Bucket) (t : Map Bucket)
    → now < c.reset
    → lookup x t ≡ some c
    → lookup x (remove_expired now t) ≡ some c
unfolding remove_expired lookup
remove_expired-lookup now x c [] live there = cc
remove_expired-lookup now x c ((k, b) ∷ t) live there =
    ground (arith, remove_expired-lookup now x c t)

module _ (order : Map Bucket → List String) (x : String) (n reset : ℕ) (used : 0 < n) where
  -- The address x keeps its bucket; the limits do not change.
  abbrev Keeps : RateLimits → RateLimiter → Type 0
  Keeps limits rl = IsKept x reset n rl.addresses.table × (rl.limits ≡ limits)

  settle_address-Keeps :
      (limits : RateLimits) (now : ℕ) (scope : Option Scope) (charge : AccountCharge)
      (rl : RateLimiter)
      → now < reset
      → Keeps limits rl
      → Keeps limits (settle_address order now scope charge rl).0
  unfolding settle_address settle_locked
  settle_address-Keeps limits now scope charge rl live ((b, there, same, enough), eq) =
      let there' =
        bucket_locked-lookup order rl.max_entries x b now charge.host rl.addresses there
          (omega (arith, live, same)) (omega (arith, used, enough)) in
      (write_at-IsKept x charge.host n reset b _ _ _ there' same enough refl (omega arith), eq)

  request-Keeps :
      (limits : RateLimits) (now : ℕ) (host : String) (class : RouteClass) (has_token : Bool)
      (rl : RateLimiter)
      → now < reset
      → Keeps limits rl
      → Keeps limits (request order now host class has_token rl).0
  unfolding request
  request-Keeps limits now host class has_token rl live ((b, there, same, enough), eq) =
      let there' =
        bucket_locked-lookup order rl.max_entries x b now host rl.addresses there
          (omega (arith, live, same)) (omega (arith, used, enough)) in
      let (kept, grown) = counted_grows class (is_signed_in class has_token) _ in
      (write_at-IsKept x host n reset b _ _ _ there' same enough kept grown, eq)

  settle_account-Keeps :
      (limits : RateLimits) (now : ℕ) (key : String) (charge : AccountCharge) (rl : RateLimiter)
      → Keeps limits rl
      → Keeps limits (settle_account order now key charge rl).0
  unfolding settle_account
  settle_account-Keeps limits now key charge rl kept = kept

  Step-Keeps :
      (limits : RateLimits) (a b : RateLimiter)
      → Step order reset a b
      → Keeps limits a
      → Keeps limits b
  unfolding authenticated unauthenticated settle_unused cleanup
  Step-Keeps limits _ _ (request_step rl now host class has_token live) i =
      request-Keeps limits now host class has_token rl live i
  Step-Keeps limits _ _ (authenticated_step rl now key charge live) i =
      if_cases (λ (r : RateLimiter × AccountCharge). Keeps limits r.0) (not charge.done) _ _
        (λ h. settle_account-Keeps limits now key charge rl i) (λ h. i)
  Step-Keeps limits _ _ (unauthenticated_step rl now charge live) i =
      if_cases (λ (r : RateLimiter × AccountCharge). Keeps limits r.0) (not charge.done) _ _
        (λ h. settle_address-Keeps limits now _ charge rl live i) (λ h. i)
  Step-Keeps limits _ _ (settle_unused_step rl now charge live) i =
      if_cases (λ (r : RateLimiter × AccountCharge). Keeps limits r.0) (not charge.done) _ _
        (λ h. settle_address-Keeps limits now _ charge rl live i) (λ h. i)
  Step-Keeps limits _ _ (cleanup_step rl now live) ((b, there, same, enough), eq) = (
    (
      b,
      remove_expired-lookup now x b rl.addresses.table (omega (arith, live, same)) there,
      same,
      enough,
    ),
    eq,
  )

  Reach-Keeps :
      (limits : RateLimits) (a b : RateLimiter)
      → Reach order reset a b
      → Keeps limits a
      → Keeps limits b
  Reach-Keeps limits a _ here i = i
  Reach-Keeps limits a c (next {b = b} r s) i = Step-Keeps limits b c s (Reach-Keeps limits a b r i)

-- A live bucket is found again, as it is.
pub bucket_locked_again :
    (order : Map Bucket → List String) (max now : ℕ) (x : String) (bs : Buckets) (c : Bucket)
    → lookup x bs.table ≡ some c
    → now < c.reset
    → bucket_locked order max x now bs ≡ (bs, in_table, 0)
unfolding bucket_locked
bucket_locked_again order max now x bs c there live =
    rw (there, bucket_locked) (rw (le→ltb_false c.reset now (omega (arith, live))) refl)

-- A credential request at an address whose bucket is live and spent.
request_spent :
    (order : Map Bucket → List String) (now : ℕ) (x : String) (has_token : Bool) (rl : RateLimiter)
    (c : Bucket)
    → lookup x rl.addresses.table ≡ some c
    → now < c.reset
    → rl.limits.auth ≤ c.auth
    → (request order now x credential_route has_token rl).1
      ≡ refused scope_auth (bounded_retry_after (c.reset - now))
unfolding request bucket_at exceeded counted
request_spent order now x has_token rl c there live spent =
    rw (bucket_locked_again order rl.max_entries now x rl.addresses c there live) (
      rw (there, bucket_at, counted)
        (rw (lt→ltb rl.limits.auth (c.auth + 1) (omega (arith, spent))) refl))

-- Once the live bucket of an address has used its credential budget, any steps of the rate
-- limiter before the end of its minute, evictions and cleanups included, leave it so that a
-- credential request of that address is refused with the auth scope and the time left.
pub spent_stays_refused :
    (order : Map Bucket → List String) (x : String) (c : Bucket) (a b : RateLimiter) (now : ℕ)
    (has_token : Bool)
    → lookup x a.addresses.table ≡ some c
    → 0 < c.auth
    → a.limits.auth ≤ c.auth
    → Reach order c.reset a b
    → now < c.reset
    → (request order now x credential_route has_token b).1
      ≡ refused scope_auth (bounded_retry_after (c.reset - now))
spent_stays_refused order x c a b now has_token there used spent run live =
    let ((d, there', same, enough), eq) =
      Reach-Keeps order x c.auth c.reset used a.limits a b run
        ((c, there, refl, omega arith), refl) in
    request_spent order now x has_token b d there' (omega (arith, live, same))
      (ground (arith, eq, spent, enough))
    ∙ ap (λ (r : ℕ). refused scope_auth (bounded_retry_after (r - now))) same
