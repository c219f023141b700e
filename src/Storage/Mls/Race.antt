-- ===== src/Storage/Mls/Race.antt =====
-- Two commits that are made on the same epoch.
use veritra.Prelude.{ℕ, ◌+◌, ◌≡◌, refl, ap, ◌∙◌, true, false, none, some, arith}
use veritra.Prelude.Rows.{find}
use veritra.Storage.{ok, err, Host, mls_epoch_conflict}
use veritra.Storage.Tables.{Tables}
use veritra.Storage.Mls.Revocations.{mls_group_epoch, active_mls_device}
use veritra.Storage.Mls.Messages.{
  ℤ, pos, is_epoch, MlsCommitBundleInput, MlsCommitBundleResult, has_commit, trimmed, is_malformed,
  lists_wrong_devices, is_sender, has_key,
}
use veritra.Storage.Mls.Bundle.{
  or_zero, change_group, first_commit, accept_bundle, create_mls_commit_bundle,
}
use veritra.Storage.Mls.Epochs.{create_mls_commit_bundle-epoch}

-- A well-formed commit of an active device of a member, under a new key.
pub record IsContender (host : Host) (input : MlsCommitBundleInput) (t : Tables) : Type 0 where
  pub formed : is_malformed host input ≡ false
  pub right : lists_wrong_devices input ≡ false
  pub has_payload : has_commit input ≡ true
  pub sender :
      is_sender t input.conversation_id input.sender_account_id input.sender_device_id ≡ true
  pub new_key : find (has_key input.sender_device_id input.idempotency_key) t.mls_messages ≡ none
  pub inside : active_mls_device t input.conversation_id input.sender_device_id ≡ true

not_epoch : (epoch : ℕ) (given : ℤ) → given ≡ pos epoch → is_epoch (epoch + 1) given ≡ false
not_epoch epoch given h = rw h (ground arith)

late_commit :
    (host : Host) (minutes now epoch : ℕ) (input : MlsCommitBundleInput) (t : Tables)
    → IsContender host input t
    → mls_group_epoch t input.conversation_id ≡ some (epoch + 1)
    → input.epoch ≡ pos epoch
    → accept_bundle host minutes now input t ≡ err mls_epoch_conflict
unfolding accept_bundle first_commit change_group
late_commit host minutes now epoch input t c current given =
    rw
      (
        c.formed,
        c.right,
        c.sender,
        c.has_payload,
        c.new_key,
        first_commit,
        current,
        change_group,
        c.inside,
        c.has_payload,
        not_epoch epoch input.epoch given,
      )
      refl

-- Once a commit of a conversation is accepted, a well-formed commit that an active device of a
-- member makes for the conversation on the same epoch, under a new key, is refused with the epoch
-- conflict.
pub create_mls_commit_bundle-race :
    (host : Host) (minutes now later : ℕ) (first second : MlsCommitBundleInput) (t u : Tables)
    (r : MlsCommitBundleResult)
    → create_mls_commit_bundle host minutes now first t ≡ ok (u, r)
    → has_commit first ≡ true
    → r.duplicate ≡ false
    → host.trim_space second.conversation_id ≡ host.trim_space first.conversation_id
    → second.epoch ≡ first.epoch
    → IsContender host (trimmed host second) u
    → create_mls_commit_bundle host minutes later second u ≡ err mls_epoch_conflict
unfolding create_mls_commit_bundle
create_mls_commit_bundle-race host minutes now later first second t u r h c new same epoch k =
    let (at_epoch, answered, after, others) =
      create_mls_commit_bundle-epoch host minutes now first t u r h c new in
    late_commit host minutes later
      (or_zero (mls_group_epoch t (host.trim_space first.conversation_id))) (trimmed host second) u
      k (ap (mls_group_epoch u) same ∙ after) (epoch ∙ at_epoch)
