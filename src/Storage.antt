-- ===== src/Storage.antt =====
-- The SQLite store (server/internal/storage), whose tables are lists of rows. A write runs in one
-- transaction on the single writer connection: it is a function of the tables, and an error rolls
-- the tables back. Errors of the database driver are left out. Times are numbers: `formatTime`
-- writes them so that the order of the texts is that of the times.
pub mod Tables
pub mod Mls
pub mod Links
pub mod Receipts
use veritra.Prelude.{ℕ, suc, ◌≡◌, refl, subst, String, Bool, true, false, Option, none, some}
use veritra.Prelude.GoMap.{Map, lookup, insert}

pub data StoreError : Type 0 where
  invalid_input unauthorized forbidden posting_restricted not_found not_member : StoreError
  idempotency_conflict storage_quota enrollment_invalid : StoreError
  device_link_invalid device_link_not_ready device_link_verification_failed : StoreError
  device_link_session_unavailable device_limit device_link_limit : StoreError
  conversation_limit conversation_member_limit key_package_claim_limit : StoreError
  key_package_unavailable mls_epoch_conflict mls_group_legacy mls_not_in_group : StoreError
  mls_bundle_required mls_change_pending : StoreError
  -- mlsSelfUpdateLimitError with its retryAfter
  mls_self_update_limit : ℕ → StoreError
  -- a UNIQUE constraint of the schema that an INSERT runs into
  constraint_failed : StoreError

-- What a write, or a check in it, returns. `refuse` is an error that counts at a limit.
pub data Answer {ℓ} (A : Type ℓ) : Type ℓ where
  ok : A → Answer A
  err : StoreError → Answer A
  refuse : String → StoreError → Answer A

infixl 5 ◌>>=◌ ◌>>◌
abbrev pub ◌>>=◌ {ℓ κ} : {A : Type ℓ} {B : Type κ} → Answer A → (A → Answer B) → Answer B
ok a >>= f = f a
err e >>= f = err e
refuse limit e >>= f = refuse limit e

abbrev pub ◌>>◌ {ℓ} : {B : Type ℓ} → Answer (Unit {0}) → Answer B → Answer B
m >> k = m >>= λ _. k

-- if condition { return err }
abbrev pub refuse_if : Bool → StoreError → Answer (Unit {0})
refuse_if true e = err e
refuse_if false e = ok tt

pub >>=-eq-ok {ℓ κ} :
    {A : Type ℓ} {B : Type κ} (m : Answer A) (next : A → Answer B) {b : B}
    → (m >>= next) ≡ ok b
    → (a : A) × (m ≡ ok a) × (next a ≡ ok b)
>>=-eq-ok (ok a) next h = (a, refl, h)
>>=-eq-ok (err e) next h = cc
>>=-eq-ok (refuse limit e) next h = cc

ok_injective {ℓ} : {A : Type ℓ} (a b : A) → Answer.ok a ≡ ok b → a ≡ b
ok_injective a b h = cc

-- What one of two equal successes returns, the other does: a predicate carries over.
pub ok-subst {ℓ κ} : {A : Type ℓ} (P : A → Type κ) (a b : A) → Answer.ok a ≡ ok b → P a → P b
ok-subst P a b h p = subst P (ok_injective a b h) p

pub err_not_ok {ℓ} : {A : Type ℓ} (e : StoreError) (a : A) → Answer.err e ≡ ok a → ⊥
err_not_ok e a h = cc

pub refuse_not_ok {ℓ} :
    {A : Type ℓ} (limit : String) (e : StoreError) (a : A) → Answer.refuse limit e ≡ ok a → ⊥
refuse_not_ok limit e a h = cc

-- A check that was passed did not apply.
pub refuse_if-passed {ℓ} :
    {B : Type ℓ} (c : Bool) (e : StoreError) (k : Answer B) {b : B}
    → (refuse_if c e >> k) ≡ ok b
    → (c ≡ false) × (k ≡ ok b)
refuse_if-passed true e k h = cc
refuse_if-passed false e k h = (refl, h)

-- admission.Counters: the refusals by limit, in memory and so never rolled back.
abbrev pub Counters : Type 0
Counters = Map ℕ

abbrev pub counter : Option ℕ → ℕ
counter none = 0
counter (some n) = n

abbrev pub reject : String → Counters → Counters
reject limit c = insert limit (suc (counter (lookup limit c))) c

-- What the functions take from the host: package strings, the order in which SQLite compares
-- texts, and the random id of the row that is stored with the given sync event.
pub record Host : Type 0 where
  pub trim_space : String → String
  pub len : String → ℕ
  pub leq : String → String → Bool
  pub new_id : ℕ → String
