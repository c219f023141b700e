-- ===== src/Storage/Mls/SelfUpdate.antt =====
-- The periodic self-update of a device of a group.
use veritra.Prelude.{
  ℕ, ◌+◌, ◌*◌, ◌≡◌, ◌≤◌, refl, ap, ◌∙◌, true, false, none, some, [], inl, inr, Option-cases,
  le→ltb_false, eq→==,
}
use veritra.Prelude.Rows.{any, find, find-any}
use veritra.Storage.{ok, Host}
use veritra.Storage.Tables.{Tables}
use veritra.Storage.Mls.Revocations.{mls_group_epoch, active_mls_device}
use veritra.Storage.Mls.Messages.{
  ℤ, pos, is_epoch, MlsCommitBundleInput, MlsCommitBundleResult, has_commit, trimmed, is_malformed,
  lists_wrong_devices, is_sender, has_key, insert_row, insert_mls_message, is_roster_row,
  last_self_update, minute, removal_is_pending, check_mls_self_update, check_added, check_removed,
}
use veritra.Storage.Mls.Commit.{welcome_devices, close_commit, store_commit}
use veritra.Storage.Mls.Bundle.{
  submit_commit, change_group, first_commit, accept_bundle, create_mls_commit_bundle, or_zero,
}
use veritra.Storage.Mls.Epochs.{create_mls_commit_bundle-epoch}

-- A commit under a free key that adds no device is stored.
store_commit-free :
    (host : Host) (now : ℕ) (input : MlsCommitBundleInput) (epoch : ℕ) (t : Tables)
    → input.added ≡ []
    → any (has_key input.sender_device_id input.idempotency_key) t.mls_messages ≡ false
    → (u : Tables) × (r : MlsCommitBundleResult) × (store_commit host now input epoch t ≡ ok (u, r))
      × (r.duplicate ≡ false)
unfolding store_commit insert_mls_message insert_row welcome_devices close_commit
store_commit-free host now input epoch t none_added free = rw (none_added, free) (_, _, refl, refl)

-- The conditions under which a self-update is due.
pub record IsDue (minutes now : ℕ) (input : MlsCommitBundleInput) (epoch : ℕ) (t : Tables)
    : Type 0 where
  pub has_payload : has_commit input ≡ true
  pub no_added : input.added ≡ []
  pub no_removed : input.removed ≡ []
  pub no_revocation : input.revocation_device_id ≡ ""
  pub sender :
      is_sender t input.conversation_id input.sender_account_id input.sender_device_id ≡ true
  pub new_key : find (has_key input.sender_device_id input.idempotency_key) t.mls_messages ≡ none
  pub current : mls_group_epoch t input.conversation_id ≡ some epoch
  pub at_epoch : input.epoch ≡ pos epoch
  pub inside : active_mls_device t input.conversation_id input.sender_device_id ≡ true
  pub nothing_pending : removal_is_pending t input.conversation_id ≡ false
  pub rested :
      (last : ℕ)
      → last_self_update
          (find (is_roster_row input.conversation_id input.sender_device_id) t.mls_devices)
        ≡ some last
      → last + minutes * minute ≤ now

check_mls_self_update-IsDue :
    (minutes now : ℕ) (input : MlsCommitBundleInput) (epoch : ℕ) (t : Tables)
    → IsDue minutes now input epoch t
    → check_mls_self_update minutes now input.conversation_id input.sender_device_id t ≡ ok tt
unfolding check_mls_self_update
check_mls_self_update-IsDue minutes now input epoch t d =
    elim (Option-cases (
      last_self_update
        (find (is_roster_row input.conversation_id input.sender_device_id) t.mls_devices))) [
          | inl e ↦ rw (d.nothing_pending, e) refl
          | inr (last, e) ↦
              rw
                (d.nothing_pending, e, le→ltb_false now (last + minutes * minute) (d.rested last e))
                refl
        ]

submit_commit-IsDue :
    (host : Host) (minutes now : ℕ) (input : MlsCommitBundleInput) (epoch : ℕ) (t : Tables)
    → IsDue minutes now input epoch t
    → submit_commit host minutes now input epoch t ≡ store_commit host now input epoch t
unfolding submit_commit check_added check_removed
submit_commit-IsDue host minutes now input epoch t d =
    rw
      (
        d.no_added,
        d.no_removed,
        d.no_revocation,
        d.has_payload,
        check_mls_self_update-IsDue minutes now input epoch t d,
      )
      refl

lists_no_devices :
    (input : MlsCommitBundleInput)
    → input.removed ≡ []
    → input.revocation_device_id ≡ ""
    → lists_wrong_devices input ≡ false
unfolding any
lists_no_devices input r v = rw (r, v) refl

is_epoch-same : (epoch : ℕ) (given : ℤ) → given ≡ pos epoch → is_epoch epoch given ≡ true
is_epoch-same epoch given h = rw h (eq→== epoch epoch refl)

first_commit-IsDue :
    (host : Host) (minutes now : ℕ) (input : MlsCommitBundleInput) (epoch : ℕ) (t : Tables)
    → IsDue minutes now input epoch t
    → first_commit host minutes now input t ≡ store_commit host now input epoch t
unfolding first_commit change_group
first_commit-IsDue host minutes now input epoch t d =
    rw
      (
        d.current,
        first_commit,
        change_group,
        d.inside,
        d.has_payload,
        is_epoch-same epoch input.epoch d.at_epoch,
      )
      (submit_commit-IsDue host minutes now input epoch t d)

-- A well-formed self-update of an active device of a member, on the current epoch, under a new
-- key, is accepted and moves the group to the next epoch, if no removal is pending and the
-- interval since its last one is over.
pub create_mls_commit_bundle-self_update :
    (host : Host) (minutes now : ℕ) (input : MlsCommitBundleInput) (epoch : ℕ) (t : Tables)
    → is_malformed host (trimmed host input) ≡ false
    → IsDue minutes now (trimmed host input) epoch t
    → (u : Tables) × (r : MlsCommitBundleResult) × (create_mls_commit_bundle host minutes now input
          t
        ≡ ok (u, r))
      × (r.duplicate ≡ false)
      × (mls_group_epoch u (host.trim_space input.conversation_id) ≡ some (epoch + 1))
unfolding create_mls_commit_bundle accept_bundle
create_mls_commit_bundle-self_update host minutes now raw epoch t formed d =
    let input = trimmed host raw in
    let (u, r, done, new) =
      store_commit-free host now input epoch t d.no_added (
        find-any (has_key input.sender_device_id input.idempotency_key) t.mls_messages d.new_key) in
    let answer : create_mls_commit_bundle host minutes now raw t ≡ ok (u, r) =
      rw
        (
          formed,
          lists_no_devices input d.no_removed d.no_revocation,
          d.sender,
          d.has_payload,
          d.new_key,
        )
        (first_commit-IsDue host minutes now input epoch t d ∙ done) in
    let (at_epoch, answered, after, others) =
      create_mls_commit_bundle-epoch host minutes now raw t u r answer d.has_payload new in
    (u, r, answer, new, after ∙ ap (λ o. some (or_zero o + 1)) d.current)
