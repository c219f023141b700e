-- ===== src/Storage/Mls/Bundle.antt =====
-- `CreateMLSCommitBundle` (server/internal/storage/mls_group_store.go): one commit with its
-- Welcomes and roster change. And `CreateMLSMessage` (mls_message_store.go), for a group without a
-- roster.
use veritra.Prelude.{
  ℕ, String, Bool, true, false, not, ◌&&◌, ◌||◌, Option, none, some, [], ◌∷◌, ◌++◌, length, ltb,
  str_eq, if◌then◌else◌,
}
use veritra.Prelude.GoMap.{insert}
use veritra.Prelude.Rows.{Bytes, bytes_equal, any, find}
use veritra.Storage.{
  invalid_input, forbidden, not_member, idempotency_conflict, mls_epoch_conflict, mls_group_legacy,
  mls_not_in_group, mls_bundle_required, Answer, ok, err, ◌>>=◌, ◌>>◌, refuse_if, Host,
}
use veritra.Storage.Tables.{Tables, Device, MlsMessage, is_null, is_member}
use veritra.Storage.Mls.Revocations.{
  mls_group_epoch, active_mls_device, is_rostered, has_mls_messages, mls_revocation_commit_allowed,
  drop_stale_mls_revocations,
}
use veritra.Storage.Mls.Messages.{
  max_mls_handshake, is_epoch, MlsCommitBundleInput, MlsCommitBundleResult, trimmed, has_any,
  has_commit, update_only, is_malformed, lists_wrong_devices, is_sender, has_key, insert_row,
  check_mls_self_update, check_added, check_removed,
}
use veritra.Storage.Mls.Commit.{advanced, new_row, submit_revocation, store_commit}

-- What an accepted place in the group leads to: the checks of the change, and its writes.
unfoldable pub submit_commit :
    Host → ℕ → ℕ → MlsCommitBundleInput → ℕ → Tables → Answer (Tables × MlsCommitBundleResult)
submit_commit host minutes now input epoch t = do
  (if update_only input
      then check_mls_self_update minutes now input.conversation_id input.sender_device_id t
      else ok tt)
  check_added input.conversation_id t input.added
  check_removed input.conversation_id input.revocation_device_id t input.removed
  refuse_if
      (not (str_eq input.revocation_device_id "")
        && not (
            mls_revocation_commit_allowed host t input.conversation_id input.revocation_device_id
              input.sender_device_id))
      forbidden
  store_commit host now input epoch t

-- A new group, with the sender as its device.
unfoldable pub open_group : ℕ → MlsCommitBundleInput → Tables → Tables
open_group now input t = drop_stale_mls_revocations input.conversation_id (record t {
  mls_groups = insert input.conversation_id (advanced now none) t.mls_groups;
  mls_devices =
      t.mls_devices
      ++ (new_row input.conversation_id 0 0
            (record { account_id = input.sender_account_id; device_id = input.sender_device_id })
          ∷ []);
})

abbrev pub without_commit : ℕ → Bool → MlsCommitBundleResult
without_commit epoch duplicate = record {
  commit = none;
  welcomes = [];
  epoch = epoch;
  duplicate = duplicate;
  revocation_completed_event_id = 0;
}

unfoldable pub create_group :
    Host → ℕ → ℕ → MlsCommitBundleInput → Tables → Answer (Tables × MlsCommitBundleResult)
create_group host minutes now input t = do
  refuse_if (update_only input) mls_not_in_group
  refuse_if (has_mls_messages t input.conversation_id) mls_group_legacy
  refuse_if
      (not (is_epoch 0 input.epoch)
        || (has_any input.removed || not (str_eq input.revocation_device_id "")))
      mls_epoch_conflict
  (if has_commit input
      then submit_commit host minutes now input 0 (open_group now input t)
      else ok (open_group now input t, without_commit 0 false))

unfoldable pub change_group :
    Host → ℕ → ℕ → MlsCommitBundleInput → ℕ → Tables → Answer (Tables × MlsCommitBundleResult)
change_group host minutes now input epoch t = do
  refuse_if (not (active_mls_device t input.conversation_id input.sender_device_id))
      mls_not_in_group
  (if has_commit input
      then (do
        refuse_if (not (is_epoch epoch input.epoch)) mls_epoch_conflict
        submit_commit host minutes now input epoch t)
      else ok (t, without_commit epoch true))

-- The stored message under the sender's key, if there is a commit.
abbrev pub stored_before : Tables → MlsCommitBundleInput → Option MlsMessage
stored_before t input =
    if has_commit input
    then find (has_key input.sender_device_id input.idempotency_key) t.mls_messages
    else none

abbrev pub or_zero : Option ℕ → ℕ
or_zero none = 0
or_zero (some n) = n

abbrev pub stored_result : MlsMessage → MlsCommitBundleInput → Tables → MlsCommitBundleResult
stored_result existing input t = record {
  commit = some existing;
  welcomes = [];
  epoch = or_zero (mls_group_epoch t input.conversation_id);
  duplicate = true;
  revocation_completed_event_id = 0;
}

unfoldable pub retry_commit :
    MlsMessage → MlsCommitBundleInput → Tables → Answer (Tables × MlsCommitBundleResult)
retry_commit existing input t = do
  refuse_if
      (not (str_eq existing.conversation_id input.conversation_id)
        || (not (str_eq existing.kind "commit") || not (bytes_equal existing.payload input.commit)))
      idempotency_conflict
  ok (t, stored_result existing input t)

unfoldable pub first_commit :
    Host → ℕ → ℕ → MlsCommitBundleInput → Tables → Answer (Tables × MlsCommitBundleResult)
first_commit host minutes now input t = elim (mls_group_epoch t input.conversation_id) [
  | none ↦ create_group host minutes now input t
  | some epoch ↦ change_group host minutes now input epoch t
]

unfoldable pub accept_bundle :
    Host → ℕ → ℕ → MlsCommitBundleInput → Tables → Answer (Tables × MlsCommitBundleResult)
accept_bundle host minutes now input t = do
  refuse_if (is_malformed host input) invalid_input
  refuse_if (lists_wrong_devices input) invalid_input
  refuse_if (not (is_sender t input.conversation_id input.sender_account_id input.sender_device_id))
      not_member
  elim (stored_before t input) [
    | some existing ↦ retry_commit existing input t
    | none ↦ first_commit host minutes now input t
  ]

-- For the given limit of minutes between self-updates, and the time.
unfoldable pub create_mls_commit_bundle :
    Host → ℕ → ℕ → MlsCommitBundleInput → Tables → Answer (Tables × MlsCommitBundleResult)
create_mls_commit_bundle host minutes now input t =
    accept_bundle host minutes now (trimmed host input) t

pub record CreateMlsMessageInput : Type 0 where
  pub conversation_id : String
  pub sender_account_id : String
  pub sender_device_id : String
  pub recipient_device_id : String
  pub revocation_device_id : String
  pub kind : String
  pub payload : Bytes
  pub idempotency_key : String

abbrev pub trimmed_message : Host → CreateMlsMessageInput → CreateMlsMessageInput
trimmed_message host input = record input {
  conversation_id = host.trim_space input.conversation_id;
  recipient_device_id = host.trim_space input.recipient_device_id;
  revocation_device_id = host.trim_space input.revocation_device_id;
  kind = host.trim_space input.kind;
  idempotency_key = host.trim_space input.idempotency_key;
}

unfoldable pub message_is_malformed : Host → CreateMlsMessageInput → Bool
message_is_malformed host input =
    any (λ b. b)
      (str_eq input.conversation_id ""
        ∷ str_eq input.sender_account_id ""
        ∷ str_eq input.sender_device_id ""
        ∷ (not (str_eq input.kind "welcome") && not (str_eq input.kind "commit"))
        ∷ not (has_any input.payload)
        ∷ ltb max_mls_handshake (length input.payload)
        ∷ str_eq input.idempotency_key ""
        ∷ ltb 128 (host.len input.idempotency_key)
        ∷ (str_eq input.kind "welcome" && str_eq input.recipient_device_id "")
        ∷ str_eq input.recipient_device_id input.sender_device_id
        ∷ (not (str_eq input.revocation_device_id "")
            && (not (str_eq input.kind "commit") || not (str_eq input.recipient_device_id "")))
        ∷ [])

abbrev pub message_row : ℕ → CreateMlsMessageInput → MlsMessage
message_row now input = record {
  id = "";
  conversation_id = input.conversation_id;
  sender_account_id = input.sender_account_id;
  sender_device_id = input.sender_device_id;
  recipient_device_id = input.recipient_device_id;
  revocation_device_id = input.revocation_device_id;
  kind = input.kind;
  payload = input.payload;
  idempotency_key = input.idempotency_key;
  sync_event_id = 0;
  created_at = now;
}

unfoldable pub same_message : MlsMessage → CreateMlsMessageInput → Bool
same_message existing input =
    str_eq existing.conversation_id input.conversation_id
    && str_eq existing.kind input.kind
    && str_eq existing.recipient_device_id input.recipient_device_id
    && str_eq existing.revocation_device_id input.revocation_device_id
    && bytes_equal existing.payload input.payload

-- The account of the live device of a member.
unfoldable pub recipient_account : Tables → String → String → Option Device
recipient_account t conversation device =
    find (λ d. str_eq d.id device && is_null d.revoked_at && is_member t conversation d.account_id)
      t.devices

-- The writes; the event is for the recipient's account, or for the conversation.
unfoldable pub store_message :
    Host → ℕ → CreateMlsMessageInput → Option String → Tables → Answer (Tables × (MlsMessage × ℕ))
store_message host now input account t = do
  (logged, message) ← insert_row host account none (message_row now input) t
  let (after, event) =
      submit_revocation input.conversation_id input.revocation_device_id input.sender_device_id
        message.id now logged
  ok (after, (message, event))

unfoldable pub first_message :
    Host → ℕ → CreateMlsMessageInput → Tables → Answer (Tables × (MlsMessage × ℕ))
first_message host now input t = do
  refuse_if
      (not (str_eq input.revocation_device_id "")
        && not (
            mls_revocation_commit_allowed host t input.conversation_id input.revocation_device_id
              input.sender_device_id))
      forbidden
  (if str_eq input.recipient_device_id ""
      then store_message host now input none t
      else elim (recipient_account t input.conversation_id input.recipient_device_id) [
        | none ↦ err forbidden
        | some d ↦ store_message host now input (some d.account_id) t
      ])

unfoldable pub accept_message :
    Host → ℕ → CreateMlsMessageInput → Tables → Answer (Tables × (MlsMessage × ℕ))
accept_message host now input t = do
  refuse_if (message_is_malformed host input) invalid_input
  refuse_if (not (is_sender t input.conversation_id input.sender_account_id input.sender_device_id))
      not_member
  refuse_if (is_rostered t input.conversation_id) mls_bundle_required
  elim (find (has_key input.sender_device_id input.idempotency_key) t.mls_messages) [
    | some existing ↦
        if same_message existing input then ok (t, (existing, 0)) else err idempotency_conflict
    | none ↦ first_message host now input t
  ]

-- The tables, the message, and the event of a revocation that it completed, else 0.
unfoldable pub create_mls_message :
    Host → ℕ → CreateMlsMessageInput → Tables → Answer (Tables × (MlsMessage × ℕ))
create_mls_message host now input t = accept_message host now (trimmed_message host input) t
