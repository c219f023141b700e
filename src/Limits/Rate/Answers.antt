-- ===== src/Limits/Rate/Answers.antt =====
-- The answers of the rate limiter: which budget decides, and that a charge is settled once.
use veritra.Prelude.{
  ℕ, ◌+◌, ◌-◌, ◌<◌, ◌≡◌, refl, String, Bool, true, false, not, List, some, none, ltb, if◌then◌else◌,
  Bool-cases, inl, inr,
}
use veritra.Prelude.GoMap.{Map, lookup}
use veritra.Limits.Rate.Buckets.{Bucket, bucket_at}
use veritra.Limits.Rate.Limiter.{
  Rejections, settled_rejections, RateLimiter, ordinary_route, scope_signed_in, AccountCharge,
  refused, served_with_charge, request, settle_locked, settle_account, settle_address,
  authenticated, unauthenticated, settle_unused, counted, exceeded, bounded_retry_after,
}
use veritra.Limits.Rate.Spent.{bucket_locked_again}

-- On a live bucket, a request with a session token on an ordinary route is refused exactly when
-- the signed-in count exceeds its limit, whatever the general count is.
pub request_signed_in :
    (order : Map Bucket → List String) (now : ℕ) (x : String) (rl : RateLimiter) (c : Bucket)
    → lookup x rl.addresses.table ≡ some c
    → now < c.reset
    → (request order now x ordinary_route true rl).1 ≡ (
        if ltb rl.limits.signed_in (c.signed_in + 1)
        then refused scope_signed_in (bounded_retry_after (c.reset - now))
        else served_with_charge)
unfolding request bucket_at exceeded counted
request_signed_in order now x rl c there live =
    rw (bucket_locked_again order rl.max_entries now x rl.addresses c there live) (
      rw (there, bucket_at, counted)
        (elim (Bool-cases (ltb rl.limits.signed_in (c.signed_in + 1))) [
          | inl over ↦ rw over refl
          | inr within ↦ rw within refl
        ]))

-- On any limiter and at any time, a settlement of the charge changes nothing.
abbrev pub IsSettled : (Map Bucket → List String) → AccountCharge → Type 0
IsSettled order c =
    (rl : RateLimiter) (now : ℕ)
    → ((key : String) → authenticated order now key c rl ≡ (rl, c))
      × (unauthenticated order now c rl ≡ (rl, c))
      × (settle_unused order now c rl ≡ (rl, c))

done-IsSettled :
    (order : Map Bucket → List String) (c : AccountCharge) → c.done ≡ true → IsSettled order c
unfolding authenticated unauthenticated settle_unused
done-IsSettled order c h rl now = (λ key. rw h refl, rw h refl, rw h refl)

unscoped : (fits : Bool) (r : Rejections) → settled_rejections fits none r ≡ r
unscoped true r = refl
unscoped false r = refl

-- A charge to an account leaves the buckets of the addresses, and the two charges to an address
-- leave those of the accounts, the one of an unused token also the counts of refusals.
budgets_apart :
    (order : Map Bucket → List String) (now : ℕ) (key : String) (c : AccountCharge)
    (rl : RateLimiter)
    → ((authenticated order now key c rl).0.addresses ≡ rl.addresses)
      × ((unauthenticated order now c rl).0.accounts ≡ rl.accounts)
      × ((settle_unused order now c rl).0.accounts ≡ rl.accounts)
      × ((settle_unused order now c rl).0.rejections ≡ rl.rejections)
unfolding authenticated unauthenticated settle_unused settle_account settle_address settle_locked
budgets_apart order now key c rl = elim (Bool-cases c.done) [
  | inl e ↦ rw e (refl, refl, refl, refl)
  | inr e ↦ rw e (refl, refl, refl, unscoped _ rl.rejections)
]

-- Once a charge is settled in one of the three ways, every later settlement of it leaves the charge
-- and the limiter as they are, whatever requests have changed the limiter in between. A settlement
-- for an account leaves the buckets of the addresses, the two others leave those of the accounts,
-- and the one of an unused token leaves the counts of refusals.
pub charges-IsSettled :
    (order : Map Bucket → List String) (now : ℕ) (key : String) (c : AccountCharge)
    (rl : RateLimiter)
    → IsSettled order (authenticated order now key c rl).1
      × IsSettled order (unauthenticated order now c rl).1
      × IsSettled order (settle_unused order now c rl).1
      × ((authenticated order now key c rl).0.addresses ≡ rl.addresses)
      × ((unauthenticated order now c rl).0.accounts ≡ rl.accounts)
      × ((settle_unused order now c rl).0.accounts ≡ rl.accounts)
      × ((settle_unused order now c rl).0.rejections ≡ rl.rejections)
unfolding authenticated unauthenticated settle_unused settle_account settle_address settle_locked
charges-IsSettled order now key c rl =
    let (one, two, three, four) = budgets_apart order now key c rl in
    (
      done-IsSettled order _ (settles c _ refl),
      done-IsSettled order _ (settles c _ refl),
      done-IsSettled order _ (settles c _ refl),
      one,
      two,
      three,
      four,
    )
  where
    settles :
        (c : AccountCharge) (r : RateLimiter × AccountCharge)
        → r.1.done ≡ true
        → (if not c.done then r else (rl, c)).1.done ≡ true
    settles c r h = elim (Bool-cases c.done) [ inl e ↦ rw e refl | inr e ↦ rw e h ]
