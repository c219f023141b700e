-- ===== src/Storage/Mls/Messages.antt =====
-- The messages of an MLS group: commit bundles (server/internal/storage/mls_group_store.go) and the
-- single messages of groups without a roster (mls_message_store.go).
use veritra.Prelude.{
  ℕ, suc, ◌+◌, ◌-◌, ◌*◌, String, Bool, true, false, not, ◌&&◌, ◌||◌, Option, none, some, List, [],
  ◌∷◌, ◌++◌, length, ltb, ◌==◌, str_eq, if◌then◌else◌,
}
use veritra.Prelude.Rows.{Bytes, any, find}
use veritra.Storage.{
  forbidden, mls_change_pending, mls_self_update_limit, constraint_failed, Answer, ok, refuse, ◌>>◌,
  refuse_if, Host,
}
use veritra.Storage.Tables.{Tables, MlsMessage, MlsDevice, is_null, is_member, is_live}
use veritra.Storage.Mls.Revocations.{
  is_active_row, active_mls_device, is_pending, is_revocation, insert_sync_event,
}

abbrev pub max_mls_bundle_changes : ℕ
max_mls_bundle_changes = 256

abbrev pub max_mls_handshake : ℕ
max_mls_handshake = 4_194_304

-- int64
pub data ℤ : Type 0 where
  pos negsuc : ℕ → ℤ

abbrev pub is_negative : ℤ → Bool
is_negative (pos n) = false
is_negative (negsuc n) = true

abbrev pub is_epoch : ℕ → ℤ → Bool
is_epoch epoch (pos n) = n == epoch
is_epoch epoch (negsuc n) = false

pub record MlsDeviceRef : Type 0 where
  pub account_id : String
  pub device_id : String

pub record MlsCommitBundleInput : Type 0 where
  pub conversation_id : String
  pub sender_account_id : String
  pub sender_device_id : String
  pub epoch : ℤ
  pub idempotency_key : String
  pub commit : Bytes
  pub welcome : Bytes
  pub added : List MlsDeviceRef
  pub removed : List MlsDeviceRef
  pub revocation_device_id : String

pub record MlsCommitBundleResult : Type 0 where
  pub commit : Option MlsMessage
  pub welcomes : List MlsMessage
  pub epoch : ℕ
  pub duplicate : Bool
  pub revocation_completed_event_id : ℕ

abbrev pub has_any {ℓ} : {A : Type ℓ} → List A → Bool
has_any [] = false
has_any (x ∷ xs) = true

abbrev pub is_listed : String → List MlsDeviceRef → Bool
is_listed device refs = any (λ ref. str_eq ref.device_id device) refs

-- The loop of validMLSDeviceRefs, with the refs that it has seen.
unfoldable pub refs_are_valid : Host → List MlsDeviceRef → List MlsDeviceRef → Bool
refs_are_valid host seen [] = true
refs_are_valid host seen (ref ∷ refs) =
    let others = refs_are_valid host (ref ∷ seen) refs in
    if str_eq (host.trim_space ref.account_id) ""
      || (str_eq (host.trim_space ref.device_id) ""
          || (ltb 128 (host.len ref.account_id)
              || (ltb 128 (host.len ref.device_id) || is_listed ref.device_id seen)))
    then false
    else others

unfoldable pub valid_mls_device_refs : Host → List MlsDeviceRef → Bool
valid_mls_device_refs host refs =
    not (ltb max_mls_bundle_changes (length refs)) && refs_are_valid host [] refs

-- The trimmed input.
abbrev pub trimmed : Host → MlsCommitBundleInput → MlsCommitBundleInput
trimmed host input = record input {
  conversation_id = host.trim_space input.conversation_id;
  idempotency_key = host.trim_space input.idempotency_key;
  revocation_device_id = host.trim_space input.revocation_device_id;
}

abbrev pub has_commit : MlsCommitBundleInput → Bool
has_commit input = has_any input.commit

abbrev pub update_only : MlsCommitBundleInput → Bool
update_only input = has_commit input && not (has_any input.added) && not (has_any input.removed)

abbrev pub differ : Bool → Bool → Bool
differ a b = if a then not b else b

unfoldable pub is_malformed : Host → MlsCommitBundleInput → Bool
is_malformed host input =
    any (λ b. b)
      (str_eq input.conversation_id ""
        ∷ str_eq input.sender_account_id ""
        ∷ str_eq input.sender_device_id ""
        ∷ is_negative input.epoch
        ∷ str_eq input.idempotency_key ""
        ∷ ltb 96 (host.len input.idempotency_key)
        ∷ ltb max_mls_handshake (length input.commit)
        ∷ ltb max_mls_handshake (length input.welcome)
        ∷ not (valid_mls_device_refs host input.added)
        ∷ not (valid_mls_device_refs host input.removed)
        ∷ differ (has_any input.added) (has_any input.welcome)
        ∷ (not (has_commit input)
            && (has_any input.added || (has_any input.removed || not (is_epoch 0 input.epoch))))
        ∷ [])

-- The sender removes itself, or the revoked device is not removed.
abbrev pub lists_wrong_devices : MlsCommitBundleInput → Bool
lists_wrong_devices input =
    is_listed input.sender_device_id input.removed
    || (not (str_eq input.revocation_device_id "")
        && not (is_listed input.revocation_device_id input.removed))

-- The sender's device is a live one of an account that is a member.
unfoldable pub is_sender : Tables → String → String → String → Bool
is_sender t conversation account device =
    is_member t conversation account
    && any (λ d. str_eq d.account_id account && str_eq d.id device && is_null d.revoked_at)
        t.devices

-- UNIQUE(sender_device_id, idempotency_key)
abbrev pub has_key : String → String → MlsMessage → Bool
has_key device key m = str_eq m.sender_device_id device && str_eq m.idempotency_key key

-- The message with its id and event; the event is for an account, a device or the conversation.
unfoldable pub insert_row :
    Host → Option String → Option String → MlsMessage → Tables → Answer (Tables × MlsMessage)
insert_row host account device row t =
    let id = host.new_id (suc t.last_event_id) in
    let (logged, event) =
      insert_sync_event "mls.message.created" account device row.conversation_id
        (("mls_message_id", id) ∷ ("kind", row.kind) ∷ []) row.created_at t in
    let stored : MlsMessage = record row { id = id; sync_event_id = event } in
    do
      refuse_if (any (has_key row.sender_device_id row.idempotency_key) t.mls_messages)
          constraint_failed
      ok (record logged { mls_messages = t.mls_messages ++ (stored ∷ []) }, stored)

-- A text that stands for a missing value where it is empty.
abbrev pub nonempty : String → Option String
nonempty text = if str_eq text "" then none else some text

-- insertMLSMessage, with row.recipientAccountID.
unfoldable pub insert_mls_message :
    Host → String → MlsMessage → Tables → Answer (Tables × MlsMessage)
insert_mls_message host recipient_account row t =
    insert_row host (nonempty recipient_account) (nonempty row.recipient_device_id) row t

-- The row of the sender in the roster.
abbrev pub is_roster_row : String → String → MlsDevice → Bool
is_roster_row conversation device r =
    str_eq r.conversation_id conversation && str_eq r.device_id device

abbrev pub last_self_update : Option MlsDevice → Option ℕ
last_self_update none = none
last_self_update (some r) = r.last_self_update_at

abbrev pub minute : ℕ
minute = 60_000_000_000

-- A device that the group waits to remove.
unfoldable pub removal_is_pending : Tables → String → Bool
removal_is_pending t conversation =
    any (λ r. str_eq r.conversation_id conversation && is_pending r.state) t.mls_revocations
    || any
        (λ r.
          str_eq r.conversation_id conversation
          && is_null r.removed_after_event_id
          && is_live t r.device_id
          && not (is_member t conversation r.account_id))
        t.mls_devices

unfoldable pub check_mls_self_update : ℕ → ℕ → String → String → Tables → Answer (Unit {0})
check_mls_self_update minutes now conversation device t = do
  refuse_if (removal_is_pending t conversation) mls_change_pending
  elim (last_self_update (find (is_roster_row conversation device) t.mls_devices)) [
    | none ↦ ok tt
    | some last ↦
        if ltb now (last + minutes * minute)
        then refuse "mls_self_updates" (mls_self_update_limit (last + minutes * minute - now))
        else ok tt
  ]

-- The loop over Added.
unfoldable pub check_added : String → Tables → List MlsDeviceRef → Answer (Unit {0})
check_added conversation t [] = ok tt
check_added conversation t (ref ∷ refs) = do
  refuse_if
      (not (is_sender t conversation ref.account_id ref.device_id)
        || active_mls_device t conversation ref.device_id)
      forbidden
  check_added conversation t refs

-- The account of the active row.
abbrev pub is_row_of : String → Option MlsDevice → Bool
is_row_of account none = false
is_row_of account (some r) = str_eq r.account_id account

-- The server wants the device gone.
abbrev pub is_removable : Tables → String → MlsDeviceRef → Bool
is_removable t conversation ref =
    not (is_member t conversation ref.account_id) || not (is_live t ref.device_id)

abbrev pub revocation_is_pending : Tables → String → String → Bool
revocation_is_pending t conversation device =
    any (λ r. is_revocation conversation device r && is_pending r.state) t.mls_revocations

-- The loop over Removed.
unfoldable pub check_removed : String → String → Tables → List MlsDeviceRef → Answer (Unit {0})
check_removed conversation revocation t [] = ok tt
check_removed conversation revocation t (ref ∷ refs) = do
  refuse_if
      (not
        (is_row_of ref.account_id (find (is_active_row conversation ref.device_id) t.mls_devices)))
      forbidden
  refuse_if (not (is_removable t conversation ref)) forbidden
  refuse_if
      (revocation_is_pending t conversation ref.device_id && not (str_eq ref.device_id revocation))
      forbidden
  check_removed conversation revocation t refs
