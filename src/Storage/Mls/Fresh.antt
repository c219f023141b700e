-- ===== src/Storage/Mls/Fresh.antt =====
-- A bundle whose commit is not a retry: what it passed before its writes.
use veritra.Prelude.{
  ℕ, ◌≡◌, ◌⊎◌, inl, inr, true, false, not, ◌&&◌, ◌||◌, none, some, if◌then◌else◌, str_eq, arith,
  Option-cases,
}
use veritra.Storage.{
  Answer, ok, Host, >>=-eq-ok, refuse_if-passed, invalid_input, not_member, mls_not_in_group,
  mls_group_legacy, mls_epoch_conflict, forbidden,
}
use veritra.Storage.Tables.{Tables, MlsMessage}
use veritra.Storage.Mls.Revocations.{
  mls_group_epoch, active_mls_device, has_mls_messages, mls_revocation_commit_allowed,
}
use veritra.Storage.Mls.Messages.{
  MlsCommitBundleInput, MlsCommitBundleResult, is_epoch, has_commit, has_any, update_only,
  is_malformed, lists_wrong_devices, is_sender, check_mls_self_update, check_added, check_removed,
}
use veritra.Storage.Mls.Commit.{store_commit}
use veritra.Storage.Mls.Bundle.{
  submit_commit, open_group, create_group, change_group, stored_before, retry_commit, first_commit,
  accept_bundle,
}
use veritra.Storage.Mls.Accepted.{Accepted, store_commit-Accepted}

-- The checks of the change and the writes.
pub record Submitted (now : ℕ) (input : MlsCommitBundleInput) (epoch : ℕ) (t u : Tables)
    (r : MlsCommitBundleResult) : Type 0 where
  pub added : check_added input.conversation_id t input.added ≡ ok tt
  pub removed :
      check_removed input.conversation_id input.revocation_device_id t input.removed ≡ ok tt
  pub accepted : Accepted now input epoch t u r

unit_eq : (x : Unit {0}) (m : Answer (Unit {0})) → m ≡ ok x → m ≡ ok tt
unit_eq tt m h = h

pub submit_commit-Submitted :
    (host : Host) (minutes now : ℕ) (input : MlsCommitBundleInput) (epoch : ℕ) (t u : Tables)
    (r : MlsCommitBundleResult)
    → submit_commit host minutes now input epoch t ≡ ok (u, r)
    → Submitted now input epoch t u r
unfolding submit_commit
submit_commit-Submitted host minutes now input epoch t u r h =
    let (x, limited, h1) =
      >>=-eq-ok
        (if update_only input
          then check_mls_self_update minutes now input.conversation_id input.sender_device_id t
          else ok tt)
        _ h in
    let (y, added, h2) = >>=-eq-ok (check_added input.conversation_id t input.added) _ h1 in
    let (z, removed, h3) =
      >>=-eq-ok (check_removed input.conversation_id input.revocation_device_id t input.removed) _
        h2 in
    let (allowed, stored) =
      refuse_if-passed
        (not (str_eq input.revocation_device_id "")
          && not (
              mls_revocation_commit_allowed host t input.conversation_id input.revocation_device_id
                input.sender_device_id))
        forbidden (store_commit host now input epoch t) h3 in
    record {
      added = added;
      removed = removed;
      accepted = store_commit-Accepted host now input epoch t u r stored;
    }

-- The group that the commit is for: it stands and the sender is in it, or it is new.
pub data Start (now : ℕ) (input : MlsCommitBundleInput) (t : Tables) : ℕ → Tables → Type 0 where
  stands :
      (epoch : ℕ)
      → mls_group_epoch t input.conversation_id ≡ some epoch
      → active_mls_device t input.conversation_id input.sender_device_id ≡ true
      → Start now input t epoch t
  is_new :
      mls_group_epoch t input.conversation_id ≡ none
      → has_mls_messages t input.conversation_id ≡ false
      → Start now input t 0 (open_group now input t)

pub record Fresh (now : ℕ) (input : MlsCommitBundleInput) (t u : Tables) (r : MlsCommitBundleResult)
    : Type 0 where
  pub epoch : ℕ
  pub base : Tables
  pub start : Start now input t epoch base
  pub at_epoch : is_epoch epoch input.epoch ≡ true
  pub submitted : Submitted now input epoch base u r

create_group-Fresh :
    (host : Host) (minutes now : ℕ) (input : MlsCommitBundleInput) (t u : Tables)
    (r : MlsCommitBundleResult)
    → mls_group_epoch t input.conversation_id ≡ none
    → has_commit input ≡ true
    → create_group host minutes now input t ≡ ok (u, r)
    → Fresh now input t u r
unfolding create_group
create_group-Fresh host minutes now input t u r is_none c h =
    let (some_change, h1) = refuse_if-passed (update_only input) mls_not_in_group _ h in
    let (unused, h2) =
      refuse_if-passed (has_mls_messages t input.conversation_id) mls_group_legacy _ h1 in
    let (at_zero, h3) =
      refuse_if-passed
        (not (is_epoch 0 input.epoch)
          || (has_any input.removed || not (str_eq input.revocation_device_id "")))
        mls_epoch_conflict _ h2 in
    record {
      epoch = 0;
      base = open_group now input t;
      start = is_new is_none unused;
      at_epoch = ground arith;
      submitted =
          submit_commit-Submitted host minutes now input 0 (open_group now input t) u r
            (rw c at h3);
    }

change_group-Fresh :
    (host : Host) (minutes now : ℕ) (input : MlsCommitBundleInput) (epoch : ℕ) (t u : Tables)
    (r : MlsCommitBundleResult)
    → mls_group_epoch t input.conversation_id ≡ some epoch
    → has_commit input ≡ true
    → change_group host minutes now input epoch t ≡ ok (u, r)
    → Fresh now input t u r
unfolding change_group
change_group-Fresh host minutes now input epoch t u r is_some c h =
    let (inside, h1) =
      refuse_if-passed (not (active_mls_device t input.conversation_id input.sender_device_id))
        mls_not_in_group _ h in
    let (current, h2) =
      refuse_if-passed (not (is_epoch epoch input.epoch)) mls_epoch_conflict
        (submit_commit host minutes now input epoch t) (rw c at h1) in
    record {
      epoch = epoch;
      base = t;
      start = stands epoch is_some (ground arith);
      at_epoch = ground arith;
      submitted = submit_commit-Submitted host minutes now input epoch t u r h2;
    }

pub first_commit-Fresh :
    (host : Host) (minutes now : ℕ) (input : MlsCommitBundleInput) (t u : Tables)
    (r : MlsCommitBundleResult)
    → has_commit input ≡ true
    → first_commit host minutes now input t ≡ ok (u, r)
    → Fresh now input t u r
unfolding first_commit
first_commit-Fresh host minutes now input t u r c h =
    elim (Option-cases (mls_group_epoch t input.conversation_id)) [
      | inl e ↦ create_group-Fresh host minutes now input t u r e c (rw (e, first_commit) at h)
      | inr (epoch, e) ↦
          change_group-Fresh host minutes now input epoch t u r e c (rw (e, first_commit) at h)
    ]

-- A commit is a retry of a stored one, which the result gives back, or it is fresh.
pub record Retried (input : MlsCommitBundleInput) (t u : Tables) (r : MlsCommitBundleResult)
    : Type 0 where
  pub existing : MlsMessage
  pub found : stored_before t input ≡ some existing
  pub retry : retry_commit existing input t ≡ ok (u, r)

pub accept_bundle-cases :
    (host : Host) (minutes now : ℕ) (input : MlsCommitBundleInput) (t u : Tables)
    (r : MlsCommitBundleResult)
    → accept_bundle host minutes now input t ≡ ok (u, r)
    → (is_malformed host input ≡ false)
      × (lists_wrong_devices input ≡ false)
      × (is_sender t input.conversation_id input.sender_account_id input.sender_device_id ≡ true)
      × (Retried input t u r
          ⊎ ((stored_before t input ≡ none) × (first_commit host minutes now input t ≡ ok (u, r))))
unfolding accept_bundle
accept_bundle-cases host minutes now input t u r h =
    let (formed, h1) = refuse_if-passed (is_malformed host input) invalid_input _ h in
    let (right, h2) = refuse_if-passed (lists_wrong_devices input) invalid_input _ h1 in
    let (sender, h3) =
      refuse_if-passed
        (not (is_sender t input.conversation_id input.sender_account_id input.sender_device_id))
        not_member _ h2 in
    (
      formed,
      right,
      ground arith,
      elim (Option-cases (stored_before t input)) [
        | inl e ↦ inr (e, rw e at h3)
        | inr (m, e) ↦ inl record { existing = m; found = e; retry = rw e at h3 }
      ],
    )
