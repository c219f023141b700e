-- ===== src/Storage/Mls/Retry.antt =====
-- A commit bundle that is sent again.
use text.Mathlib.TextPositions.{eq_refl}
use veritra.Prelude.{
  ℕ, ◌≡◌, inl, inr, refl, ap, sym, ◌∙◌, String, Bool, true, false, none, some, List, [], ◌∷◌, arith,
}
use veritra.Prelude.Rows.{any, find, bytes_equal_same, find-append_none}
use veritra.Storage.{Answer, ok, Host}
use veritra.Storage.Tables.{Tables, MlsMessage, is_member}
use veritra.Storage.Mls.Revocations.{mls_group_epoch, drop_stale_mls_revocations}
use veritra.Storage.Mls.Messages.{
  MlsCommitBundleInput, MlsCommitBundleResult, has_commit, trimmed, is_sender, has_key,
  is_malformed, lists_wrong_devices,
}
use veritra.Storage.Mls.Bundle.{
  or_zero, open_group, accept_bundle, create_mls_commit_bundle, retry_commit, stored_result,
  stored_before,
}
use veritra.Storage.Mls.Accepted.{Accepted}
use veritra.Storage.Mls.Fresh.{
  Start, stands, is_new, Fresh, first_commit-Fresh, accept_bundle-cases,
}
use veritra.Storage.Mls.Epochs.{Fresh-epoch, retry_commit-result}

-- The base tables of a commit have the accounts, the devices and the messages of the tables.
pub Start-rest :
    (now : ℕ) (input : MlsCommitBundleInput) (epoch : ℕ) (t base : Tables)
    → Start now input t epoch base
    → (base.devices ≡ t.devices)
      × (base.memberships ≡ t.memberships)
      × (base.mls_messages ≡ t.mls_messages)
unfolding open_group drop_stale_mls_revocations
Start-rest now input epoch t base (stands _ e _) = (refl, refl, refl)
Start-rest now input _ t _ (is_new e _) = (refl, refl, refl)

find-none : {A : Type 0} (p : A → Bool) (rows : List A) → any p rows ≡ false → find p rows ≡ none
unfolding any find
find-none p [] h = refl
find-none p (row ∷ rows) h = ground (arith, find-none p rows)

find-first :
    {A : Type 0} (p : A → Bool) (row : A) (rows : List A)
    → p row ≡ true
    → find p (row ∷ rows) ≡ some row
unfolding find
find-first p row rows h = rw h refl

has_key-own :
    (m : MlsMessage) (device key : String)
    → m.sender_device_id ≡ device
    → m.idempotency_key ≡ key
    → has_key device key m ≡ true
has_key-own m device key d k = rw (d, k, eq_refl device, eq_refl key) refl

-- The commit is found under its key.
found_after :
    (now : ℕ) (input : MlsCommitBundleInput) (epoch : ℕ) (t u : Tables) (r : MlsCommitBundleResult)
    (a : Accepted now input epoch t u r)
    → find (has_key input.sender_device_id input.idempotency_key) u.mls_messages ≡ some a.commit
unfolding find
found_after now input epoch t u r a =
    ap (find (has_key input.sender_device_id input.idempotency_key)) a.messages
    ∙ find-append_none (has_key input.sender_device_id input.idempotency_key) t.mls_messages
        (a.commit ∷ a.welcomes) (find-none _ t.mls_messages a.free)
    ∙ find-first (has_key input.sender_device_id input.idempotency_key) a.commit a.welcomes (
        has_key-own a.commit input.sender_device_id input.idempotency_key
          (ap (λ (m : MlsMessage). m.sender_device_id) a.is_row)
          (ap (λ (m : MlsMessage). m.idempotency_key) a.is_row))

is_sender-congr :
    (t u : Tables) (conversation account device : String)
    → u.devices ≡ t.devices
    → u.memberships ≡ t.memberships
    → is_sender u conversation account device ≡ is_sender t conversation account device
unfolding is_sender is_member
is_sender-congr t u conversation account device d m = rw (d, m) refl

retry_commit-again :
    (existing : MlsMessage) (input : MlsCommitBundleInput) (t : Tables)
    → existing.conversation_id ≡ input.conversation_id
    → existing.kind ≡ "commit"
    → existing.payload ≡ input.commit
    → retry_commit existing input t ≡ ok (t, stored_result existing input t)
unfolding retry_commit
retry_commit-again existing input t c k p = rw (c, k, p, eq_refl, bytes_equal_same) refl

-- What makes the bundle a retry of the stored commit.
retried_again :
    (host : Host) (minutes now : ℕ) (input : MlsCommitBundleInput) (u : Tables)
    (existing : MlsMessage)
    → is_malformed host input ≡ false
    → lists_wrong_devices input ≡ false
    → is_sender u input.conversation_id input.sender_account_id input.sender_device_id ≡ true
    → stored_before u input ≡ some existing
    → retry_commit existing input u ≡ ok (u, stored_result existing input u)
    → accept_bundle host minutes now input u ≡ ok (u, stored_result existing input u)
unfolding accept_bundle
retried_again host minutes now input u existing formed right sender found again =
    rw (formed, right, sender, found, again) refl

-- The result of a retry, from that of the first call.
result_again :
    (input : MlsCommitBundleInput) (m : MlsMessage) (u : Tables) (r : MlsCommitBundleResult)
    → r.commit ≡ some m
    → or_zero (mls_group_epoch u input.conversation_id) ≡ r.epoch
    → ◌≡◌ {A = Answer (Tables × MlsCommitBundleResult)}
        (ok (u, stored_result m input u))
        (ok (u, record r { welcomes = []; duplicate = true; revocation_completed_event_id = 0 }))
result_again input m u r c e = rw (c, e) refl

find_before :
    (t : Tables) (input : MlsCommitBundleInput)
    → has_commit input ≡ true
    → stored_before t input
      ≡ find (has_key input.sender_device_id input.idempotency_key) t.mls_messages
find_before t input c = rw c refl

Fresh-retry :
    (host : Host) (minutes now later : ℕ) (input : MlsCommitBundleInput) (t u : Tables)
    (r : MlsCommitBundleResult)
    → is_malformed host input ≡ false
    → lists_wrong_devices input ≡ false
    → is_sender t input.conversation_id input.sender_account_id input.sender_device_id ≡ true
    → has_commit input ≡ true
    → Fresh now input t u r
    → accept_bundle host minutes later input u
      ≡ ok (u, record r { welcomes = []; duplicate = true; revocation_completed_event_id = 0 })
Fresh-retry host minutes now later input t u r formed right sender c f =
    let a = f.submitted.accepted in
    let (devices, memberships, messages) = Start-rest now input f.epoch t f.base f.start in
    let (at_epoch, answered, after, others) = Fresh-epoch now input t u r f in
    retried_again host minutes later input u a.commit formed right
      (is_sender-congr t u input.conversation_id input.sender_account_id input.sender_device_id
          (a.devices ∙ devices) (a.memberships ∙ memberships)
        ∙ sender)
      (find_before u input c ∙ found_after now input f.epoch f.base u r a)
      (retry_commit-again a.commit input u (ap (λ (m : MlsMessage). m.conversation_id) a.is_row)
        (ap (λ (m : MlsMessage). m.kind) a.is_row) (ap (λ (m : MlsMessage). m.payload) a.is_row))
    ∙ result_again input a.commit u r a.result.0 (ap or_zero after ∙ sym answered)

-- A bundle with a commit that was accepted, sent again at any time before other writes, is
-- answered with the same commit and epoch, as a duplicate without Welcomes and without an event,
-- and the tables stay.
pub create_mls_commit_bundle-retry :
    (host : Host) (minutes now later : ℕ) (input : MlsCommitBundleInput) (t u : Tables)
    (r : MlsCommitBundleResult)
    → create_mls_commit_bundle host minutes now input t ≡ ok (u, r)
    → has_commit input ≡ true
    → create_mls_commit_bundle host minutes later input u
      ≡ ok (u, record r { welcomes = []; duplicate = true; revocation_completed_event_id = 0 })
unfolding create_mls_commit_bundle
create_mls_commit_bundle-retry host minutes now later input t u r h c =
    let (formed, right, sender, which) =
      accept_bundle-cases host minutes now (trimmed host input) t u r h in
    elim which [
      | inl again ↦
          let (same, result) =
            retry_commit-result (trimmed host input) again.existing t u r again.retry in
          rw (same, result)
            (retried_again host minutes later (trimmed host input) t again.existing formed right
              sender again.found (rw (same, result) at again.retry))
      | inr (new, first) ↦
          Fresh-retry host minutes now later (trimmed host input) t u r formed right sender c
            (first_commit-Fresh host minutes now (trimmed host input) t u r c first)
    ]
