-- ===== src/Storage/Links/State.antt =====
-- The rows behind device links (server/internal/storage/device_link_v3_store.go) and the query that
-- finds one.
use veritra.Prelude.{
  ℕ, ◌+◌, String, Bool, true, false, not, ◌&&◌, ◌||◌, Option, none, some, List, ltb, str_eq,
  if◌then◌else◌,
}
use veritra.Prelude.Rows.{Bytes, any, find, count}
use veritra.Storage.{device_limit, device_link_invalid, Answer, ok, err, refuse}
use veritra.Storage.Tables.{Account, Device, SyncEvent, is_null}

pub data LinkState : Type 0 where
  pending claimed approved consumed revoked : LinkState

-- deviceLinkV3Record; a missing text is "" and missing bytes are [].
pub record DeviceLink : Type 0 where
  pub id : String
  pub code : String
  pub account_id : String
  pub source_device_id : String
  pub server_origin : String
  pub ttl_seconds : ℕ
  pub state : LinkState
  pub link_nonce : Bytes
  pub reservation_request_id : String
  pub recipient_device_id : String
  pub challenge : Bytes
  pub device_name : String
  pub key_package : Bytes
  pub signing_key : Bytes
  pub transfer_public_key : Bytes
  pub transcript_hash : Bytes
  pub claim_tag : Bytes
  pub approval_tag : Bytes
  pub claim_token_hash : String
  pub device_secret_hash : String
  pub initial_session_hash : String
  pub claim_request_hash : String
  pub created_at : ℕ
  pub expires_at : ℕ
  pub claimed_at : Option ℕ
  pub approved_at : Option ℕ
  pub transfer_expires_at : Option ℕ
  pub completed_at : Option ℕ
  pub revoked_at : Option ℕ

pub record Session : Type 0 where
  pub token_hash : String
  pub account_id : String
  pub device_id : String
  pub expires_at : ℕ
  pub created_at : ℕ
  pub last_used_at : ℕ
  pub absolute_expires_at : ℕ

-- A row of device_key_packages.
pub record KeyPackageRow : Type 0 where
  pub id : String
  pub device_id : String
  pub key_package : Bytes
  pub created_at : ℕ
  pub expires_at : ℕ

-- The tables that links read and write; `older_links` are the rows of the table device_links, which
-- count as pending too.
pub record LinkTables : Type 0 where
  pub accounts : List Account
  pub devices : List Device
  pub links : List DeviceLink
  pub older_links : List DeviceLink
  pub sessions : List Session
  pub key_packages : List KeyPackageRow
  pub last_event_id : ℕ
  pub sync_events : List SyncEvent

abbrev pub is_active_account : String → Account → Bool
is_active_account id a = str_eq a.id id && str_eq a.status "active" && is_null a.deleted_at

-- A device of the account that is not revoked.
abbrev pub is_device_of : String → String → Device → Bool
is_device_of account id d = str_eq d.id id && str_eq d.account_id account && is_null d.revoked_at

abbrev pub is_open : LinkState → Bool
is_open pending = true
is_open claimed = true
is_open approved = false
is_open consumed = false
is_open revoked = false

-- The joins of deviceLinkV3Select: a link of an active account and a live device, for a live device
-- once there is one.
unfoldable pub is_visible : LinkTables → DeviceLink → Bool
is_visible t v =
    is_null v.revoked_at
    && any (is_active_account v.account_id) t.accounts
    && any (is_device_of v.account_id v.source_device_id) t.devices
    && (is_open v.state || any (is_device_of v.account_id v.recipient_device_id) t.devices)

-- loadDeviceLinkV3, with the predicate that is added to the query.
unfoldable pub load_device_link : LinkTables → (DeviceLink → Bool) → Answer DeviceLink
load_device_link t p = elim (find (λ v. is_visible t v && p v) t.links) [
  | none ↦ err device_link_invalid
  | some v ↦ ok v
]

abbrev pub is_after : Option ℕ → ℕ → Bool
is_after none now = false
is_after (some at) now = ltb now at

unfoldable pub valid_window : DeviceLink → ℕ → Bool
valid_window v now = elim v.state [
  | pending ↦ ltb now v.expires_at
  | claimed ↦ ltb now v.expires_at
  | approved ↦ is_after v.transfer_expires_at now
  | consumed ↦ is_after v.transfer_expires_at now
  | revoked ↦ false
]

-- The public part of a link, without its code; what stays in the record is left out by its type.
abbrev pub without_code : DeviceLink → DeviceLink
without_code v = record v { code = "" }

-- checkDevices, for the limit of devices of an account.
unfoldable pub check_devices : ℕ → LinkTables → String → Answer (Unit {0})
check_devices limit t account =
    if not (ltb (count (λ d. str_eq d.account_id account && is_null d.revoked_at) t.devices) limit)
    then refuse "devices" device_limit
    else ok tt

-- An open link of the account that has not expired.
unfoldable pub is_waiting : String → ℕ → DeviceLink → Bool
is_waiting account now v =
    str_eq v.account_id account && is_open v.state && is_null v.revoked_at && ltb now v.expires_at

unfoldable pub count_pending_device_links : LinkTables → String → ℕ → ℕ
count_pending_device_links t account now =
    count (is_waiting account now) t.older_links + count (is_waiting account now) t.links
