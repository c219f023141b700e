-- ===== src/Storage/Mls/Commit.antt =====
-- The writes of an accepted commit of a group (the end of `CreateMLSCommitBundle`,
-- server/internal/storage/mls_group_store.go).
use veritra.Prelude.{
  ℕ, ◌+◌, String, false, ◌&&◌, Option, none, some, List, [], ◌∷◌, ◌++◌, str_eq, if◌then◌else◌,
}
use Prim.Native.String.{◌++◌ as str_append}
use veritra.Prelude.GoMap.{Map, lookup, insert}
use veritra.Prelude.Rows.{any, update}
use veritra.Storage.{Answer, ok, ◌>>=◌, Host}
use veritra.Storage.Tables.{
  Tables, MlsMessage, MlsGroup, MlsDevice, MlsRevocation, commit_submitted,
}
use veritra.Storage.Mls.Revocations.{
  is_active_row, is_pending, is_revocation, is_required, drop_stale_mls_revocations,
  complete_mls_revocation_if_confirmed, confirmed,
}
use veritra.Storage.Mls.Messages.{
  MlsDeviceRef, MlsCommitBundleInput, MlsCommitBundleResult, update_only, insert_mls_message,
  is_roster_row,
}

-- The row of the commit, of one Welcome, or of a single message, before it is stored.
abbrev pub commit_row : ℕ → MlsCommitBundleInput → MlsMessage
commit_row now input = record {
  id = "";
  conversation_id = input.conversation_id;
  sender_account_id = input.sender_account_id;
  sender_device_id = input.sender_device_id;
  recipient_device_id = "";
  revocation_device_id = input.revocation_device_id;
  kind = "commit";
  payload = input.commit;
  idempotency_key = input.idempotency_key;
  sync_event_id = 0;
  created_at = now;
}

abbrev pub welcome_row : ℕ → MlsCommitBundleInput → MlsDeviceRef → MlsMessage
welcome_row now input ref = record {
  id = "";
  conversation_id = input.conversation_id;
  sender_account_id = input.sender_account_id;
  sender_device_id = input.sender_device_id;
  recipient_device_id = ref.device_id;
  revocation_device_id = "";
  kind = "welcome";
  payload = input.welcome;
  idempotency_key = str_append input.idempotency_key (str_append ":welcome:" ref.device_id);
  sync_event_id = 0;
  created_at = now;
}

-- UPDATE conversation_mls_groups SET epoch = epoch + 1
abbrev pub advanced : ℕ → Option MlsGroup → MlsGroup
advanced now none = record { epoch = 0; updated_at = now }
advanced now (some g) = record { epoch = g.epoch + 1; updated_at = now }

unfoldable pub advance_epoch : String → ℕ → Map MlsGroup → Map MlsGroup
advance_epoch conversation now groups = elim (lookup conversation groups) [
  | none ↦ groups
  | some g ↦ insert conversation (advanced now (some g)) groups
]

abbrev pub self_updated : ℕ → MlsDevice → MlsDevice
self_updated now r = record r { last_self_update_at = some now }

unfoldable pub record_self_update : ℕ → MlsCommitBundleInput → List MlsDevice → List MlsDevice
record_self_update now input rows =
    if update_only input
    then update (is_roster_row input.conversation_id input.sender_device_id) (self_updated now) rows
    else rows

abbrev pub taken_out : ℕ → MlsDevice → MlsDevice
taken_out event r = record r { removed_after_event_id = some event }

-- The loop over Removed.
unfoldable pub remove_devices : String → ℕ → List MlsDeviceRef → List MlsDevice → List MlsDevice
remove_devices conversation event [] rows = rows
remove_devices conversation event (ref ∷ refs) rows =
    remove_devices conversation event refs
      (update (is_active_row conversation ref.device_id) (taken_out event) rows)

abbrev pub joined : ℕ → ℕ → MlsDeviceRef → MlsDevice → MlsDevice
joined event epoch ref r = record r {
  account_id = ref.account_id;
  joined_after_event_id = event;
  joined_epoch = epoch;
  removed_after_event_id = none;
}

abbrev pub new_row : String → ℕ → ℕ → MlsDeviceRef → MlsDevice
new_row conversation event epoch ref = record {
  conversation_id = conversation;
  device_id = ref.device_id;
  account_id = ref.account_id;
  joined_after_event_id = event;
  joined_epoch = epoch;
  removed_after_event_id = none;
  last_self_update_at = none;
}

-- INSERT ... ON CONFLICT(conversation_id, device_id) DO UPDATE
unfoldable pub join_device : String → ℕ → ℕ → MlsDeviceRef → List MlsDevice → List MlsDevice
join_device conversation event epoch ref rows =
    if any (is_roster_row conversation ref.device_id) rows
    then update (is_roster_row conversation ref.device_id) (joined event epoch ref) rows
    else rows ++ (new_row conversation event epoch ref ∷ [])

-- One turn of the loop over Added: the event and the epoch are those of the commit.
unfoldable pub welcome_device :
    Host → ℕ → MlsCommitBundleInput → ℕ → ℕ → MlsDeviceRef → Tables → Answer (Tables × MlsMessage)
welcome_device host now input event epoch ref t =
    insert_mls_message host ref.account_id (welcome_row now input ref)
      (record t { mls_devices = join_device input.conversation_id event epoch ref t.mls_devices })

unfoldable pub welcome_devices :
    Host
    → ℕ
    → MlsCommitBundleInput
    → ℕ
    → ℕ
    → List MlsDeviceRef
    → Tables
    → Answer (Tables × List MlsMessage)
welcome_devices host now input event epoch [] t = ok (t, [])
welcome_devices host now input event epoch (ref ∷ refs) t = do
  (sent, welcome) ← welcome_device host now input event epoch ref t
  (done, welcomes) ← welcome_devices host now input event epoch refs sent
  ok (done, welcome ∷ welcomes)

abbrev pub submitted : String → MlsRevocation → MlsRevocation
submitted message r = record r { state = commit_submitted; commit_message_id = some message }

-- What a commit with a revocation does to it.
unfoldable pub submit_revocation : String → String → String → String → ℕ → Tables → Tables × ℕ
submit_revocation conversation revocation sender message now t =
    if str_eq revocation ""
    then (t, 0)
    else complete_mls_revocation_if_confirmed conversation revocation now (record t {
      mls_revocations =
          update (λ r. is_revocation conversation revocation r && is_pending r.state)
            (submitted message) t.mls_revocations;
      required_devices =
          update (λ q. is_required conversation revocation q && str_eq q.device_id sender)
            (confirmed now) t.required_devices;
    })

-- The epoch, the self-update and the removals, once the commit is stored.
unfoldable pub move_group : ℕ → MlsCommitBundleInput → ℕ → Tables → Tables
move_group now input event t = record t {
  mls_groups = advance_epoch input.conversation_id now t.mls_groups;
  mls_devices =
      remove_devices input.conversation_id event input.removed
        (record_self_update now input t.mls_devices);
}

-- The revocation, and those that the new roster leaves nothing to commit for.
unfoldable pub close_commit :
    ℕ
    → MlsCommitBundleInput
    → ℕ
    → MlsMessage
    → Tables
    → List MlsMessage
    → Tables × MlsCommitBundleResult
close_commit now input epoch commit t welcomes =
    let (closed, completed_event) =
      submit_revocation input.conversation_id input.revocation_device_id input.sender_device_id
        commit.id now t in
    (
      drop_stale_mls_revocations input.conversation_id closed,
      record {
        commit = some commit;
        welcomes = welcomes;
        epoch = epoch + 1;
        duplicate = false;
        revocation_completed_event_id = completed_event;
      },
    )

-- The writes of an accepted commit.
unfoldable pub store_commit :
    Host → ℕ → MlsCommitBundleInput → ℕ → Tables → Answer (Tables × MlsCommitBundleResult)
store_commit host now input epoch t = do
  (logged, commit) ← insert_mls_message host "" (commit_row now input) t
  (joined, welcomes) ←
      welcome_devices host now input commit.sync_event_id (epoch + 1) input.added
        (move_group now input commit.sync_event_id logged)
  ok (close_commit now input epoch commit joined welcomes)
