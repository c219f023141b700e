-- ===== src/Limits/Backoff/Delay.antt =====
-- The delays that failed attempts earn.
use veritra.Prelude.{
  ℕ, zero, suc, ◌+◌, ◌*◌, ◌^◌, ◌≤◌, ◌<◌, ◌≡◌, inl, inr, refl, sym, ◌∙◌, String, Bool, true, false,
  List, [], ◌∷◌, Option, some, none, arith, le→leb, ltb→lt, ltb_false→le, leb, ltb, Bool-cases,
  if◌then◌else◌, ap,
}
use text.Mathlib.TextPositions.{eq_refl}
use veritra.Prelude.GoMap.{lookup, lookup-insert}
use veritra.Limits.Backoff.{
  LoginBackoffEntry, LoginBackoff, Table, is_live, live_now, entry_or_zero, failed_entry, delay,
  shift, second, fail_one, fail_loop, failed_any, bounded_backoff, retry_loop, retry_after_any,
  longer, unique_backoff_identities, unique_from,
}

-- The powers that a shift of at most 5 takes.
power_bounds : (i : ℕ) → i ≤ 5 → (1 ≤ 2 ^ i) × (2 ^ i ≤ 32)
power_bounds zero h = (omega arith, omega arith)
power_bounds (suc zero) h = (omega arith, omega arith)
power_bounds (suc (suc zero)) h = (omega arith, omega arith)
power_bounds (suc (suc (suc zero))) h = (omega arith, omega arith)
power_bounds (suc (suc (suc (suc zero)))) h = (omega arith, omega arith)
power_bounds (suc (suc (suc (suc (suc zero))))) h = (omega arith, omega arith)
power_bounds (suc (suc (suc (suc (suc (suc i)))))) h = absurd (omega (arith, h))

shift_le : (n : ℕ) → shift n ≤ 5
shift_le n = ground arith

shift_mono : (n m : ℕ) → n ≤ m → shift n ≤ shift m
shift_mono n m h = ground arith

-- 1, 2, 4, 8, 16, 32 seconds, and never more.
pub delay_bounds : (n : ℕ) → (second ≤ delay n) × (delay n ≤ 32 * second)
unfolding delay
delay_bounds n =
    let (low, high) = power_bounds (shift n) (shift_le n) in
    (omega (arith, low), omega (arith, high))

after_later : (now d : ℕ) → 0 < d → d ≤ 60 * second → bounded_backoff (longer 0 (now + d) now) ≡ d
unfolding bounded_backoff
after_later now d pos bound = ground arith

retry_loop_live :
    (key : String → String) (now : ℕ) (k : String) (t : Table) (e : LoginBackoffEntry)
    → lookup (key k) t ≡ some e
    → is_live e now ≡ true
    → (retry_loop key now (k ∷ []) 0 t).1 ≡ longer 0 e.blocked_until now
unfolding retry_loop
retry_loop_live key now k t e h live = rw (h, retry_loop) (rw (live, retry_loop) refl)

-- The delay in seconds for this many failures before.
abbrev pub seconds_after : ℕ → ℕ
seconds_after zero = 0
seconds_after (suc zero) = 0
seconds_after (suc (suc zero)) = 1
seconds_after (suc (suc (suc zero))) = 2
seconds_after (suc (suc (suc (suc zero)))) = 4
seconds_after (suc (suc (suc (suc (suc zero))))) = 8
seconds_after (suc (suc (suc (suc (suc (suc zero)))))) = 16
seconds_after (suc (suc (suc (suc (suc (suc (suc n))))))) = 32

largest_shift : (n : ℕ) → 8 ≤ n → shift n ≡ 5
largest_shift n h = ground arith

delay-seconds_after : (n : ℕ) → 2 ≤ n → delay (n + 1) ≡ second * seconds_after n
unfolding delay
delay-seconds_after zero h = absurd (omega (arith, h))
delay-seconds_after (suc zero) h = absurd (omega (arith, h))
delay-seconds_after (suc (suc zero)) h = refl
delay-seconds_after (suc (suc (suc zero))) h = refl
delay-seconds_after (suc (suc (suc (suc zero)))) h = refl
delay-seconds_after (suc (suc (suc (suc (suc zero))))) h = refl
delay-seconds_after (suc (suc (suc (suc (suc (suc zero)))))) h = refl
delay-seconds_after (suc (suc (suc (suc (suc (suc (suc n))))))) h =
    ap (λ i. second * 2 ^ i)
      (largest_shift (suc (suc (suc (suc (suc (suc (suc n)))))) + 1) (omega arith))

no_delay : (n : ℕ) → n < 2 → second * seconds_after n ≡ 0
no_delay zero h = refl
no_delay (suc zero) h = refl
no_delay (suc (suc n)) h = absurd (omega (arith, h))

not_blocked : (u now : ℕ) → u ≤ now → bounded_backoff (longer 0 u now) ≡ 0
unfolding bounded_backoff
not_blocked u now h = ground arith

-- What one more failure on an entry is answered with.
entry_answer :
    (e : LoginBackoffEntry) (live : Bool) (now : ℕ)
    → (e.failures < 2 → e.blocked_until ≤ now)
    → bounded_backoff (longer 0 (failed_entry e live now).blocked_until now)
      ≡ second * seconds_after e.failures
unfolding failed_entry
entry_answer e live now clear = elim (Bool-cases (ltb e.failures 2)) [
  | inl less ↦
      let few = ltb→lt e.failures 2 less in
      let under : leb 3 (e.failures + 1) ≡ false = ground arith in
      rw under (not_blocked e.blocked_until now (clear few) ∙ sym (no_delay e.failures few))
  | inr more ↦
      let many = ltb_false→le e.failures 2 more in
      let (low, high) = delay_bounds (e.failures + 1) in
      rw (le→leb 3 (e.failures + 1) (omega (arith, many))) (
        after_later now _ (omega (arith, low)) (omega (arith, high))
        ∙ delay-seconds_after e.failures many)
]

module _ (order : Table → List String) (key : String → String) (now : ℕ) (k : String)
    (b : LoginBackoff) where
  abbrev pub found : Option LoginBackoffEntry
  found = lookup (key k) b.by_id

  -- The failures that the call finds recorded, whether the entry has expired or not.
  abbrev pub recorded : ℕ
  recorded = (entry_or_zero found).failures

  pub failed_any_stores :
      lookup (key k) (failed_any order key now (k ∷ []) b).0.by_id
      ≡ some (failed_entry (entry_or_zero found) (live_now found now) now)
  unfolding failed_any fail_loop fail_one unique_backoff_identities unique_from
  failed_any_stores = rw (lookup-insert, eq_refl) refl

  answered :
      (failed_any order key now (k ∷ []) b).1
      ≡ bounded_backoff
          (longer 0 (failed_entry (entry_or_zero found) (live_now found now) now).blocked_until now)
  unfolding failed_any fail_loop fail_one unique_backoff_identities unique_from
  answered = refl

  -- The failures of an entry that has not expired.
  abbrev pub live_failures : ℕ
  live_failures = if live_now found now then recorded else 0

  -- An entry that has expired is counted on as one that has not: from two recorded failures on, the
  -- answer is the delay of the old count with this failure.
  pub failed_any_expired :
      (e : LoginBackoffEntry)
      → found ≡ some e
      → is_live e now ≡ false
      → 2 ≤ e.failures
      → (failed_any order key now (k ∷ []) b).1 ≡ second * seconds_after e.failures
  failed_any_expired e there old many =
      answered
      ∙ rw there (entry_answer e (is_live e now) now (λ few. absurd (omega (arith, few, many))))

  stays_live : is_live (failed_entry (entry_or_zero found) (live_now found now) now) now ≡ true
  unfolding failed_entry
  stays_live = go found
    where
      go :
          (o : Option LoginBackoffEntry)
          → is_live (failed_entry (entry_or_zero o) (live_now o now) now) now ≡ true
      go none = ground arith
      go (some e) = ground arith

  -- Asking for the delay of an identity at the moment of its failure gives the answer that the
  -- failure got.
  pub retry_after_any-failed_any :
      (retry_after_any key now (k ∷ []) (failed_any order key now (k ∷ []) b).0).1
      ≡ (failed_any order key now (k ∷ []) b).1
  unfolding failed_any fail_loop fail_one unique_backoff_identities unique_from retry_after_any
  retry_after_any-failed_any =
      ap bounded_backoff (retry_loop_live key now k _ _ failed_any_stores stays_live)
