-- ===== src/Limits/Rate/Limiter.antt =====
-- Requests at the rate limiter and the charges that settle them (`middleware`, `accountCharge`
-- and `cleanupLoop` of server/internal/app/app.go). Each function is what its Go counterpart does
-- under the lock, at the time `now`. The keys are the salted hashes of an address, and of an account
-- with an address.
use veritra.Prelude.{
  ℕ, ◌+◌, ◌-◌, ◌*◌, ◌/◌, ◌%◌, String, Bool, true, false, not, ◌&&◌, List, [], Option, some, none,
  ltb, leb, if◌then◌else◌,
}
use veritra.Prelude.GoMap.{Map}
use veritra.Limits.Rate.Buckets.{
  Bucket, Buckets, fresh, second, max_rate_limit_entries, bucket_locked, bucket_at, write_at,
  remove_expired,
}

pub record RateLimits : Type 0 where
  pub general : ℕ
  pub auth : ℕ
  pub enrollment : ℕ
  pub account : ℕ
  pub signed_in : ℕ

abbrev pub credential_requests_per_minute : ℕ
credential_requests_per_minute = 10

abbrev pub enrollment_requests_per_minute : ℕ
enrollment_requests_per_minute = 5

-- The limits of the configuration, its defaults filled in.
abbrev pub rate_limits_from_config : ℕ → ℕ → ℕ → RateLimits
rate_limits_from_config address_per_minute account_per_minute signed_in_address_per_minute =
    record {
      general = address_per_minute;
      auth = credential_requests_per_minute;
      enrollment = enrollment_requests_per_minute;
      account = account_per_minute;
      signed_in = signed_in_address_per_minute;
    }

pub data Scope : Type 0 where
  scope_general : Scope
  scope_auth : Scope
  scope_enrollment : Scope
  scope_account : Scope
  scope_signed_in : Scope

-- The rejections of each scope.
pub record Rejections : Type 0 where
  pub general : ℕ
  pub auth : ℕ
  pub enrollment : ℕ
  pub account : ℕ
  pub signed_in : ℕ

unfoldable pub count_rejection : Scope → Rejections → Rejections
count_rejection scope_general r = record r { general = r.general + 1 }
count_rejection scope_auth r = record r { auth = r.auth + 1 }
count_rejection scope_enrollment r = record r { enrollment = r.enrollment + 1 }
count_rejection scope_account r = record r { account = r.account + 1 }
count_rejection scope_signed_in r = record r { signed_in = r.signed_in + 1 }

pub record RateLimiter : Type 0 where
  pub limits : RateLimits
  pub max_entries : ℕ
  pub addresses : Buckets
  pub accounts : Buckets
  pub evictions : ℕ
  pub rejections : Rejections

abbrev pub no_buckets : Buckets
no_buckets = record { table = []; overflow = fresh 0 }

abbrev pub new_rate_limiter : RateLimits → RateLimiter
new_rate_limiter limits = record {
  limits = limits;
  max_entries = max_rate_limit_entries;
  addresses = no_buckets;
  accounts = no_buckets;
  evictions = 0;
  rejections = record { general = 0; auth = 0; enrollment = 0; account = 0; signed_in = 0 };
}

-- `httpapi.RouteClass`
pub data RouteClass : Type 0 where
  ordinary_route : RouteClass
  credential_route : RouteClass
  enrollment_route : RouteClass
  public_route : RouteClass

abbrev pub is_credential : RouteClass → Bool
is_credential credential_route = true
is_credential _ = false

abbrev pub is_enrollment : RouteClass → Bool
is_enrollment enrollment_route = true
is_enrollment _ = false

abbrev pub is_ordinary : RouteClass → Bool
is_ordinary ordinary_route = true
is_ordinary _ = false

-- Duration.Round(time.Second), for a duration that is not negative: half a second rounds up.
abbrev pub rounded_seconds : ℕ → ℕ
rounded_seconds d = if ltb (2 * (d % second)) second then d / second else d / second + 1

unfoldable pub bounded_retry_after : ℕ → ℕ
bounded_retry_after d =
    let seconds = rounded_seconds d in
    if ltb seconds 1 then 1 else if ltb 60 seconds then 60 else seconds

-- The counts of a request.
unfoldable pub counted : RouteClass → Bool → Bucket → Bucket
counted class signed_in b = record b {
  general = if signed_in then b.general else b.general + 1;
  auth = if is_credential class then b.auth + 1 else b.auth;
  enrollment = if is_enrollment class then b.enrollment + 1 else b.enrollment;
  signed_in = if signed_in then b.signed_in + 1 else b.signed_in;
}

-- The first budget that the counted bucket exceeds.
unfoldable pub exceeded : RateLimits → RouteClass → Bool → Bucket → Option Scope
exceeded limits class signed_in b =
    if is_credential class && ltb limits.auth b.auth
    then some scope_auth
    else if is_enrollment class && ltb limits.enrollment b.enrollment
    then some scope_enrollment
    else if signed_in && ltb limits.signed_in b.signed_in
    then some scope_signed_in
    else if not signed_in && ltb limits.general b.general
    then some scope_general
    else none

-- 429 with its Retry-After, or the handler runs; a request with a token carries a charge.
pub data Verdict : Type 0 where
  refused : Scope → ℕ → Verdict
  served : Verdict
  served_with_charge : Verdict

abbrev pub verdict : Option Scope → Bool → ℕ → Verdict
verdict (some scope) signed_in retry_after = refused scope retry_after
verdict none true retry_after = served_with_charge
verdict none false retry_after = served

abbrev pub rejected : Option Scope → Rejections → Rejections
rejected none r = r
rejected (some scope) r = count_rejection scope r

-- A session token counts on an ordinary route alone.
abbrev pub is_signed_in : RouteClass → Bool → Bool
is_signed_in class has_token = is_ordinary class && has_token

-- The part of `middleware` before the handler, for the address with the key `host`.
unfoldable pub request :
    (Map Bucket → List String)
    → ℕ
    → String
    → RouteClass
    → Bool
    → RateLimiter
    → RateLimiter × Verdict
request order now host class has_token rl =
    let signed_in = is_signed_in class has_token in
    let (bs, place, evicted) = bucket_locked order rl.max_entries host now rl.addresses in
    let b = counted class signed_in (bucket_at place host bs) in
    let scope = exceeded rl.limits class signed_in b in
    (
      record rl {
        addresses = write_at place host b bs;
        evictions = rl.evictions + evicted;
        rejections = rejected scope rl.rejections;
      },
      verdict scope signed_in (bounded_retry_after (b.reset - now)),
    )

pub record AccountCharge : Type 0 where
  pub host : String
  pub done : Bool
  pub ok : Bool
  pub retry_after : ℕ

abbrev pub new_charge : String → AccountCharge
new_charge host = record { host = host; done = false; ok = false; retry_after = 0 }

-- `settleLocked` on a table: the buckets, the charge, the evictions, and whether it is refused.
unfoldable pub settle_locked :
    (Map Bucket → List String)
    → ℕ
    → ℕ
    → String
    → ℕ
    → AccountCharge
    → Buckets
    → Buckets × AccountCharge × ℕ
settle_locked order max now key limit c bs =
    let (bs', place, evicted) = bucket_locked order max key now bs in
    let old = bucket_at place key bs' in
    let b : Bucket = record old { general = old.general + 1 } in
    (
      write_at place key b bs',
      record c {
        done = true;
        ok = leb b.general limit;
        retry_after = bounded_retry_after (b.reset - now);
      },
      evicted,
    )

-- A refusal is counted under the scope, if there is one.
abbrev pub settled_rejections : Bool → Option Scope → Rejections → Rejections
settled_rejections true scope r = r
settled_rejections false scope r = rejected scope r

unfoldable pub settle_account :
    (Map Bucket → List String)
    → ℕ
    → String
    → AccountCharge
    → RateLimiter
    → RateLimiter × AccountCharge
settle_account order now account_key c rl =
    let (bs, c', evicted) =
      settle_locked order rl.max_entries now account_key rl.limits.account c rl.accounts in
    (
      record rl {
        accounts = bs;
        evictions = rl.evictions + evicted;
        rejections = settled_rejections c'.ok (some scope_account) rl.rejections;
      },
      c',
    )

unfoldable pub settle_address :
    (Map Bucket → List String)
    → ℕ
    → Option Scope
    → AccountCharge
    → RateLimiter
    → RateLimiter × AccountCharge
settle_address order now scope c rl =
    let (bs, c', evicted) =
      settle_locked order rl.max_entries now c.host rl.limits.general c rl.addresses in
    (
      record rl {
        addresses = bs;
        evictions = rl.evictions + evicted;
        rejections = settled_rejections c'.ok scope rl.rejections;
      },
      c',
    )

-- `Authenticated`: the charge to an account at the address; c.ok and c.retry_after are the answer.
unfoldable pub authenticated :
    (Map Bucket → List String)
    → ℕ
    → String
    → AccountCharge
    → RateLimiter
    → RateLimiter × AccountCharge
authenticated order now account_key c rl =
    if not c.done then settle_account order now account_key c rl else (rl, c)

unfoldable pub unauthenticated :
    (Map Bucket → List String) → ℕ → AccountCharge → RateLimiter → RateLimiter × AccountCharge
unauthenticated order now c rl =
    if not c.done then settle_address order now (some scope_general) c rl else (rl, c)

unfoldable pub settle_unused :
    (Map Bucket → List String) → ℕ → AccountCharge → RateLimiter → RateLimiter × AccountCharge
settle_unused order now c rl = if not c.done then settle_address order now none c rl else (rl, c)

unfoldable pub cleanup : ℕ → RateLimiter → RateLimiter
cleanup now rl = record rl {
  addresses = record rl.addresses { table = remove_expired now rl.addresses.table };
  accounts = record rl.accounts { table = remove_expired now rl.accounts.table };
}
