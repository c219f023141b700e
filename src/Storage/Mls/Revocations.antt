-- ===== src/Storage/Mls/Revocations.antt =====
-- Revocations of group devices (server/internal/storage/mls_revocation_store.go, and the end of
-- mls_message_store.go), and the queries on groups that they share with the commits.
use veritra.Prelude.{
  ℕ, suc, String, Bool, true, false, not, ◌&&◌, ◌||◌, Option, none, some, List, [], ◌∷◌, ◌++◌, leb,
  ◌==◌, str_eq, if◌then◌else◌,
}
use veritra.Prelude.GoMap.{lookup}
use veritra.Prelude.Rows.{any, count, select, update, delete_rows}
use veritra.Storage.{forbidden, Answer, ok, err, Host}
use veritra.Storage.Tables.{
  Tables, Device, SyncEvent, MlsMessage, MlsGroup, MlsDevice, MlsRevocation, RequiredDevice,
  RevocationState, pending, commit_submitted, completed, is_null, is_member,
}

abbrev pub epoch_in : Option MlsGroup → Option ℕ
epoch_in none = none
epoch_in (some g) = some g.epoch

unfoldable pub mls_group_epoch : Tables → String → Option ℕ
mls_group_epoch t conversation = epoch_in (lookup conversation t.mls_groups)

-- A row of the roster that is active.
unfoldable pub is_active_row : String → String → MlsDevice → Bool
is_active_row conversation device r =
    str_eq r.conversation_id conversation
    && str_eq r.device_id device
    && is_null r.removed_after_event_id

unfoldable pub active_mls_device : Tables → String → String → Bool
active_mls_device t conversation device = any (is_active_row conversation device) t.mls_devices

abbrev pub is_rostered : Tables → String → Bool
is_rostered t conversation = not (is_null (mls_group_epoch t conversation))

-- The conversation has MLS messages.
unfoldable pub has_mls_messages : Tables → String → Bool
has_mls_messages t conversation = any (λ m. str_eq m.conversation_id conversation) t.mls_messages

abbrev pub is_pending : RevocationState → Bool
is_pending pending = true
is_pending commit_submitted = false
is_pending completed = false

abbrev pub is_submitted : RevocationState → Bool
is_submitted pending = false
is_submitted commit_submitted = true
is_submitted completed = false

-- SELECT MIN(created_at): none where there is no row
abbrev pub older : ℕ → Option ℕ → ℕ
older n none = n
older n (some m) = if leb n m then n else m

unfoldable pub oldest_message : String → List MlsMessage → Option ℕ
oldest_message conversation [] = none
oldest_message conversation (m ∷ ms) =
    let rest = oldest_message conversation ms in
    if str_eq m.conversation_id conversation then some (older m.created_at rest) else rest

-- created_at <= MIN(...), false where MIN is NULL
abbrev pub no_newer : ℕ → Option ℕ → Bool
no_newer at none = false
no_newer at (some oldest) = leb at oldest

unfoldable pub mls_legacy_leaf_evidence : Tables → String → Device → Bool
mls_legacy_leaf_evidence t conversation d =
    any (λ m. str_eq m.conversation_id conversation && str_eq m.sender_device_id d.id)
      t.mls_messages
    || (any
          (λ m.
            str_eq m.conversation_id conversation
            && str_eq m.kind "welcome"
            && str_eq m.recipient_device_id d.id)
          t.mls_messages
        || no_newer d.created_at (oldest_message conversation t.mls_messages))

-- The test of one row of devices.
unfoldable pub may_commit_revocation : Tables → MlsRevocation → Device → Bool
may_commit_revocation t r d =
    is_member t r.conversation_id d.account_id
    && (is_null d.revoked_at
        && (not (str_eq d.id r.revoked_device_id)
            && (active_mls_device t r.conversation_id d.id
                || (not (is_rostered t r.conversation_id)
                    && mls_legacy_leaf_evidence t r.conversation_id d))))

unfoldable pub mls_revocation_eligible_device : Tables → MlsRevocation → String → Bool
mls_revocation_eligible_device t r device =
    any (λ d. str_eq d.id device && may_commit_revocation t r d) t.devices

unfoldable pub mls_revocation_target_in_group : Tables → MlsRevocation → Bool
mls_revocation_target_in_group t r =
    if is_rostered t r.conversation_id
    then active_mls_device t r.conversation_id r.revoked_device_id
    else has_mls_messages t r.conversation_id

-- SELECT MIN(id)
abbrev pub smaller : Host → String → Option String → String
smaller host id none = id
smaller host id (some other) = if host.leq id other then id else other

unfoldable pub lowest_id : Host → (Device → Bool) → List Device → Option String
lowest_id host p [] = none
lowest_id host p (d ∷ ds) =
    let rest = lowest_id host p ds in if p d then some (smaller host d.id rest) else rest

unfoldable pub mls_revocation_coordinator : Host → Tables → MlsRevocation → Option String
mls_revocation_coordinator host t r =
    if not (mls_revocation_target_in_group t r)
    then none
    else if mls_revocation_eligible_device t r r.coordinator_device_id
    then some r.coordinator_device_id
    else lowest_id host (λ d. mls_revocation_eligible_device t r d.id) t.devices

abbrev pub names : String → Option String → Bool
names device none = false
names device (some other) = str_eq other device

-- The row of a revocation, by its primary key.
abbrev pub is_revocation : String → String → MlsRevocation → Bool
is_revocation conversation revoked r =
    str_eq r.conversation_id conversation && str_eq r.revoked_device_id revoked

unfoldable pub mls_revocation_commit_allowed : Host → Tables → String → String → String → Bool
mls_revocation_commit_allowed host t conversation revoked device =
    any
      (λ r.
        is_revocation conversation revoked r
        && is_pending r.state
        && names device (mls_revocation_coordinator host t r))
      t.mls_revocations

-- A pending revocation whose device has no leaf in the group's roster.
unfoldable pub is_stale : Tables → String → MlsRevocation → Bool
is_stale t conversation r =
    str_eq r.conversation_id conversation
    && is_pending r.state
    && is_rostered t conversation
    && not (active_mls_device t conversation r.revoked_device_id)

-- The rows of required_devices go with their revocation, by the foreign key.
unfoldable pub drop_stale_mls_revocations : String → Tables → Tables
drop_stale_mls_revocations conversation t = record t {
  mls_revocations = delete_rows (is_stale t conversation) t.mls_revocations;
  required_devices =
      delete_rows
        (λ q.
          any
            (λ r.
              is_stale t conversation r && is_revocation q.conversation_id q.revoked_device_id r)
            t.mls_revocations)
        t.required_devices;
}

-- The event and its id.
unfoldable pub insert_sync_event :
    String
    → Option String
    → Option String
    → String
    → List (String × String)
    → ℕ
    → Tables
    → Tables × ℕ
insert_sync_event event_type account device conversation payload created_at t =
    let event : SyncEvent = record {
      id = suc t.last_event_id;
      event_type = event_type;
      account_id = account;
      device_id = device;
      conversation_id = conversation;
      payload = payload;
      created_at = created_at;
    } in
    (
      record t { last_event_id = suc t.last_event_id; sync_events = t.sync_events ++ (event ∷ []) },
      suc t.last_event_id,
    )

-- The rows of a revocation's required devices.
abbrev pub is_required : String → String → RequiredDevice → Bool
is_required conversation revoked q =
    str_eq q.conversation_id conversation && str_eq q.revoked_device_id revoked

abbrev pub finished : ℕ → MlsRevocation → MlsRevocation
finished now r = record r { state = completed; completed_at = some now }

-- The event is 0 where nothing changed.
unfoldable pub complete_mls_revocation_if_confirmed : String → String → ℕ → Tables → Tables × ℕ
complete_mls_revocation_if_confirmed conversation revoked now t =
    let waiting =
      count (λ q. is_required conversation revoked q && is_null q.confirmed_at)
        t.required_devices in
    let picked : MlsRevocation → Bool =
      λ r. is_revocation conversation revoked r && is_submitted r.state in
    let after : Tables = record t {
      mls_revocations = update picked (finished now) t.mls_revocations;
    } in
    if not (waiting == 0)
    then (t, 0)
    else if not (count picked t.mls_revocations == 1)
    then (after, 0)
    else insert_sync_event "mls.revocation.completed" none none conversation
        (("device_id", revoked) ∷ []) now after

-- COALESCE(confirmed_at, now)
abbrev pub confirmed : ℕ → RequiredDevice → RequiredDevice
confirmed now q = record q { confirmed_at = some now }

-- The rows that a confirmation of the device may change.
unfoldable pub confirmable : Tables → String → String → String → String → RequiredDevice → Bool
confirmable t conversation revoked account device q =
    is_required conversation revoked q
    && str_eq q.device_id device
    && is_null q.confirmed_at
    && is_member t conversation account
    && any (λ r. is_revocation conversation revoked r && is_submitted r.state) t.mls_revocations

unfoldable pub confirm_mls_revocation :
    String → String → String → String → ℕ → Tables → Answer (Tables × ℕ)
confirm_mls_revocation conversation revoked account device now t =
    let picked = confirmable t conversation revoked account device in
    let after : Tables = record t {
      required_devices = update picked (confirmed now) t.required_devices;
    } in
    if count picked t.required_devices == 0
    then (if any
          (λ q.
            is_required conversation revoked q
            && str_eq q.device_id device
            && not (is_null q.confirmed_at))
          t.required_devices
        then ok (t, 0)
        else err forbidden)
    else ok (complete_mls_revocation_if_confirmed conversation revoked now after)

-- ORDER BY conversation_id, revoked_device_id
abbrev pub comes_first : Host → RequiredDevice → RequiredDevice → Bool
comes_first host q r =
    if str_eq q.conversation_id r.conversation_id
    then host.leq q.revoked_device_id r.revoked_device_id
    else host.leq q.conversation_id r.conversation_id

unfoldable pub place : Host → RequiredDevice → List RequiredDevice → List RequiredDevice
place host q [] = q ∷ []
place host q (r ∷ rs) =
    let after = place host q rs in if comes_first host q r then q ∷ r ∷ rs else r ∷ after

unfoldable pub in_order : Host → List RequiredDevice → List RequiredDevice
in_order host [] = []
in_order host (q ∷ qs) = place host q (in_order host qs)

-- The loop over the released rows.
unfoldable pub complete_each : List RequiredDevice → ℕ → Tables → Tables
complete_each [] now t = t
complete_each (q ∷ qs) now t =
    complete_each qs now
      (complete_mls_revocation_if_confirmed q.conversation_id q.revoked_device_id now t).0

abbrev pub waits_for : String → RequiredDevice → Bool
waits_for device q = str_eq q.device_id device && is_null q.confirmed_at

unfoldable pub release_mls_revocation_confirmations : Host → String → ℕ → Tables → Tables
release_mls_revocation_confirmations host device now t =
    complete_each (in_order host (select (waits_for device) t.required_devices)) now
      (record t { required_devices = update (waits_for device) (confirmed now) t.required_devices })
