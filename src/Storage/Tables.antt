-- ===== src/Storage/Tables.antt =====
-- The rows of the tables (server/migrations), with the columns that the modelled statements read
-- or write. A missing value is `none`.
use veritra.Prelude.{ℕ, String, Bool, true, false, ◌&&◌, Option, none, some, List, str_eq}
use veritra.Prelude.GoMap.{Map}
use veritra.Prelude.Rows.{Bytes, any}

pub record Account : Type 0 where
  pub id : String
  pub status : String
  pub deleted_at : Option ℕ

pub record Device : Type 0 where
  pub id : String
  pub account_id : String
  pub name : String
  pub key_package : Bytes
  pub signing_key : Bytes
  pub auth_secret_hash : String
  pub created_at : ℕ
  pub revoked_at : Option ℕ

-- The memberships of conversations.
pub record Membership : Type 0 where
  pub conversation_id : String
  pub account_id : String
  pub role : String

pub record SyncEvent : Type 0 where
  pub id : ℕ
  pub event_type : String
  pub account_id : Option String
  pub device_id : Option String
  pub conversation_id : String
  pub payload : List (String × String)
  pub created_at : ℕ

-- domain.MLSMessage, stored with an empty text as a missing value.
pub record MlsMessage : Type 0 where
  pub id : String
  pub conversation_id : String
  pub sender_account_id : String
  pub sender_device_id : String
  pub recipient_device_id : String
  pub revocation_device_id : String
  pub kind : String
  pub payload : Bytes
  pub idempotency_key : String
  pub sync_event_id : ℕ
  pub created_at : ℕ

-- A row of conversation_mls_groups under its primary key, the conversation.
pub record MlsGroup : Type 0 where
  pub epoch : ℕ
  pub updated_at : ℕ

-- A row of conversation_mls_devices.
pub record MlsDevice : Type 0 where
  pub conversation_id : String
  pub device_id : String
  pub account_id : String
  pub joined_after_event_id : ℕ
  pub joined_epoch : ℕ
  pub removed_after_event_id : Option ℕ
  pub last_self_update_at : Option ℕ

pub data RevocationState : Type 0 where
  pending commit_submitted completed : RevocationState

pub record MlsRevocation : Type 0 where
  pub conversation_id : String
  pub revoked_device_id : String
  pub coordinator_device_id : String
  pub state : RevocationState
  pub commit_message_id : Option String
  pub completed_at : Option ℕ

-- A row of mls_revocation_required_devices.
pub record RequiredDevice : Type 0 where
  pub conversation_id : String
  pub revoked_device_id : String
  pub device_id : String
  pub confirmed_at : Option ℕ

-- `last_event_id` is the AUTOINCREMENT counter of sync_events.
pub record Tables : Type 0 where
  pub devices : List Device
  pub memberships : List Membership
  pub last_event_id : ℕ
  pub sync_events : List SyncEvent
  pub mls_messages : List MlsMessage
  pub mls_groups : Map MlsGroup
  pub mls_devices : List MlsDevice
  pub mls_revocations : List MlsRevocation
  pub required_devices : List RequiredDevice

-- column IS NULL
abbrev pub is_null {ℓ} : {A : Type ℓ} → Option A → Bool
is_null none = true
is_null (some a) = false

-- The membership of an account in a conversation.
unfoldable pub is_member : Tables → String → String → Bool
is_member t conversation account =
    any (λ m. str_eq m.conversation_id conversation && str_eq m.account_id account) t.memberships

-- A device that is not revoked.
unfoldable pub is_live : Tables → String → Bool
is_live t device = any (λ d. str_eq d.id device && is_null d.revoked_at) t.devices
