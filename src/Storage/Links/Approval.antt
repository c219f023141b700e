-- ===== src/Storage/Links/Approval.antt =====
-- From the approval of a device link on (server/internal/storage/device_link_v3_store.go).
use veritra.Prelude.{
  ℕ, suc, ◌+◌, ◌*◌, String, Bool, not, ◌&&◌, ◌||◌, none, some, [], ◌∷◌, ◌++◌, length, ltb, ◌==◌,
  str_eq,
}
use veritra.Prelude.Rows.{Bytes, any, find, update}
use veritra.Storage.{
  idempotency_conflict, device_link_invalid, device_link_not_ready, device_link_verification_failed,
  device_link_session_unavailable, constraint_failed, Answer, ok, err, ◌>>=◌, ◌>>◌, refuse_if,
}
use veritra.Storage.Tables.{Device, SyncEvent}
use veritra.Storage.Links.State.{
  pending, claimed, approved, consumed, revoked, DeviceLink, Session, KeyPackageRow, LinkTables,
  is_active_account, is_device_of, is_open, load_device_link, valid_window, without_code,
  check_devices,
}
use veritra.Storage.Links.Proof.{LinkHost, valid_hash, same_bytes}
use veritra.Storage.Links.Methods.{minute, transfer_lifetime, has_id, in_claimed, in_approved}

-- The device that a link makes.
abbrev pub linked_device : String → ℕ → DeviceLink → Device
linked_device account now v = record {
  id = v.recipient_device_id;
  account_id = account;
  name = v.device_name;
  key_package = v.key_package;
  signing_key = v.signing_key;
  auth_secret_hash = v.device_secret_hash;
  created_at = now;
  revoked_at = none;
}

-- insertInitialDeviceKeyPackage
abbrev pub initial_key_package : String → ℕ → DeviceLink → KeyPackageRow
initial_key_package id now v = record {
  id = id;
  device_id = v.recipient_device_id;
  key_package = v.key_package;
  created_at = now;
  expires_at = now + 30 * 24 * 60 * minute;
}

abbrev pub approved_link : Bytes → ℕ → DeviceLink → DeviceLink
approved_link tag now v = record v {
  state = approved;
  approval_tag = tag;
  approved_at = some now;
  transfer_expires_at = some (now + transfer_lifetime);
}

abbrev pub device_updated : LinkHost → ℕ → String → String → ℕ → DeviceLink → SyncEvent
device_updated h id account link now v = record {
  id = id;
  event_type = "device.updated";
  account_id = some account;
  device_id = none;
  conversation_id = "";
  payload =
      (
        "device",
        h.device_json v.recipient_device_id account v.device_name v.key_package v.signing_key now,
      )
      ∷ ("device_link_id", link)
      ∷ [];
  created_at = now;
}

-- The rows after an approval; the key package gets the given id.
unfoldable pub with_device :
    LinkHost → String → String → Bytes → String → ℕ → DeviceLink → LinkTables → LinkTables
with_device h key_package_id account tag id now v t = record t {
  devices = t.devices ++ (linked_device account now v ∷ []);
  key_packages = t.key_packages ++ (initial_key_package key_package_id now v ∷ []);
  links = update (λ w. has_id id w && in_claimed w) (approved_link tag now) t.links;
  last_event_id = suc t.last_event_id;
  sync_events = t.sync_events ++ (device_updated h (suc t.last_event_id) account id now v ∷ []);
}

-- An approved link is answered again, with the time of its approval.
unfoldable pub approve_again :
    String → Bytes → DeviceLink → LinkTables → Answer (LinkTables × (DeviceLink × (Device × ℕ)))
approve_again account tag v t = do
  refuse_if (not (same_bytes v.approval_tag tag)) idempotency_conflict
  elim v.approved_at [
    | none ↦ err device_link_invalid
    | some at ↦ ok (t, (without_code v, (linked_device account at v, 0)))
  ]

unfoldable pub approve_claim :
    LinkHost
    → ℕ
    → String
    → String
    → Bytes
    → String
    → ℕ
    → DeviceLink
    → LinkTables
    → Answer (LinkTables × (DeviceLink × (Device × ℕ)))
approve_claim h limit key_package_id account tag id now v t =
    let after = with_device h key_package_id account tag id now v t in
    do
      refuse_if (not (in_claimed v) || not (ltb now v.expires_at)) device_link_invalid
      check_devices limit t account
      refuse_if (any (λ d. str_eq d.id v.recipient_device_id) t.devices) constraint_failed
      w ← load_device_link after (has_id id)
      ok (after, (without_code w, (linked_device account now v, after.last_event_id)))

-- The link, the device, and the event, 0 for a repeated approval.
unfoldable pub approve_device_link :
    LinkHost
    → ℕ
    → ℕ
    → String
    → String
    → String
    → String
    → String
    → Bytes
    → Bytes
    → LinkTables
    → Answer (LinkTables × (DeviceLink × (Device × ℕ)))
approve_device_link h limit now key_package_id id account source request_hash transcript tag t = do
  refuse_if
      (not (valid_hash h request_hash) || (not (length transcript == 32) || not (length tag == 32)))
      device_link_verification_failed
  v ←
      load_device_link t
        (λ v. str_eq v.id id && str_eq v.account_id account && str_eq v.source_device_id source)
  refuse_if (not (valid_window v now)) device_link_invalid
  refuse_if
      (not (str_eq v.claim_request_hash request_hash)
        || not (same_bytes v.transcript_hash transcript))
      device_link_verification_failed
  elim v.state [
    | approved ↦ approve_again account tag v t
    | consumed ↦ approve_again account tag v t
    | pending ↦ approve_claim h limit key_package_id account tag id now v t
    | claimed ↦ approve_claim h limit key_package_id account tag id now v t
    | revoked ↦ approve_claim h limit key_package_id account tag id now v t
  ]

-- s.sessions
pub record SessionLimits : Type 0 where
  pub idle : ℕ
  pub absolute : ℕ

-- The session of a link, with the expiry times of sessionLifetime without a requested one.
abbrev pub initial_session : SessionLimits → String → ℕ → DeviceLink → Session
initial_session limits token_hash now v = record {
  token_hash = token_hash;
  account_id = v.account_id;
  device_id = v.recipient_device_id;
  expires_at = now + limits.idle;
  created_at = now;
  last_used_at = now;
  absolute_expires_at = now + limits.absolute;
}

-- The session's own token, and sessionValidity.
unfoldable pub session_is_active :
    SessionLimits → LinkTables → String → DeviceLink → ℕ → Session → Bool
session_is_active limits t token_hash v now s =
    str_eq s.token_hash token_hash
    && str_eq s.account_id v.account_id
    && str_eq s.device_id v.recipient_device_id
    && ltb now s.expires_at
    && ltb now s.absolute_expires_at
    && ltb now (s.last_used_at + limits.idle)
    && any (is_active_account v.account_id) t.accounts
    && any (is_device_of v.account_id v.recipient_device_id) t.devices

pub record Completion : Type 0 where
  pub link_id : String
  pub account_id : String
  pub device_id : String
  pub server_origin : String
  pub claim_request_hash : String
  pub transcript_hash : Bytes
  pub initial_session_token_hash : String
  pub completed_at : ℕ

abbrev pub completion : String → String → String → ℕ → DeviceLink → Completion
completion id request_hash session_hash at v = record {
  link_id = id;
  account_id = v.account_id;
  device_id = v.recipient_device_id;
  server_origin = v.server_origin;
  claim_request_hash = request_hash;
  transcript_hash = v.transcript_hash;
  initial_session_token_hash = session_hash;
  completed_at = at;
}

abbrev pub consumed_link : ℕ → DeviceLink → DeviceLink
consumed_link now v = record v { state = consumed; completed_at = some now }

unfoldable pub with_session :
    SessionLimits → String → String → ℕ → DeviceLink → LinkTables → LinkTables
with_session limits id session_hash now v t = record t {
  sessions = t.sessions ++ (initial_session limits session_hash now v ∷ []);
  links = update (λ w. has_id id w && in_approved w) (consumed_link now) t.links;
}

-- The completion of an approved link.
unfoldable pub open_session :
    SessionLimits
    → ℕ
    → String
    → String
    → String
    → DeviceLink
    → LinkTables
    → Answer (LinkTables × (Completion × Bytes))
open_session limits now id request_hash session_hash v t = do
  refuse_if (not (ltb now v.expires_at)) device_link_invalid
  refuse_if (any (λ s. str_eq s.token_hash session_hash) t.sessions) constraint_failed
  ok (
    with_session limits id session_hash now v t,
    (completion id request_hash session_hash now v, v.approval_tag),
  )

-- The completion of a consumed link.
unfoldable pub recover_session :
    SessionLimits
    → ℕ
    → String
    → String
    → String
    → DeviceLink
    → LinkTables
    → Answer (LinkTables × (Completion × Bytes))
recover_session limits now id request_hash session_hash v t = do
  refuse_if (not (any (session_is_active limits t session_hash v now) t.sessions))
      device_link_session_unavailable
  elim v.completed_at [
    | none ↦ err device_link_invalid
    | some at ↦ ok (t, (completion id request_hash session_hash at v, v.approval_tag))
  ]

-- The receipt and the approval tag.
unfoldable pub complete_device_link :
    LinkHost
    → SessionLimits
    → ℕ
    → String
    → String
    → String
    → String
    → Bytes
    → LinkTables
    → Answer (LinkTables × (Completion × Bytes))
complete_device_link h limits now id token_hash request_hash session_hash transcript t = do
  refuse_if
      (not (valid_hash h token_hash)
        || (not (valid_hash h request_hash)
            || (not (valid_hash h session_hash) || not (length transcript == 32))))
      device_link_verification_failed
  v ← load_device_link t (λ v. str_eq v.id id && str_eq v.claim_token_hash token_hash)
  refuse_if (not (valid_window v now)) device_link_invalid
  refuse_if
      (not (str_eq v.claim_request_hash request_hash)
        || (not (str_eq v.initial_session_hash session_hash)
            || not (same_bytes v.transcript_hash transcript)))
      device_link_verification_failed
  elim v.state [
    | claimed ↦ err device_link_not_ready
    | approved ↦ open_session limits now id request_hash session_hash v t
    | consumed ↦ recover_session limits now id request_hash session_hash v t
    | pending ↦ err device_link_invalid
    | revoked ↦ err device_link_invalid
  ]

abbrev pub revoked_link : ℕ → DeviceLink → DeviceLink
revoked_link now v = record v { state = revoked; revoked_at = some now }

-- The link of an active account and a live device, whatever its state is.
abbrev pub is_own_link : LinkTables → String → String → String → DeviceLink → Bool
is_own_link t id account device v =
    str_eq v.id id
    && str_eq v.account_id account
    && str_eq v.source_device_id device
    && any (is_active_account account) t.accounts
    && any (is_device_of account device) t.devices

abbrev pub cancelled : String → ℕ → LinkTables → LinkTables
cancelled id now t = record t {
  links = update (λ w. has_id id w && is_open w.state) (revoked_link now) t.links;
}

unfoldable pub cancel_device_link : ℕ → String → String → String → LinkTables → Answer LinkTables
cancel_device_link now id account device t = elim (find (is_own_link t id account device) t.links) [
  | none ↦ err device_link_invalid
  | some v ↦ elim v.state [
    | revoked ↦ ok t
    | pending ↦ ok (cancelled id now t)
    | claimed ↦ ok (cancelled id now t)
    | approved ↦ err idempotency_conflict
    | consumed ↦ err idempotency_conflict
  ]
]

-- What the source device and the claiming device read of a link.
unfoldable pub device_link_for_source :
    ℕ → String → String → String → LinkTables → Answer DeviceLink
device_link_for_source now id account device t = do
  v ←
      load_device_link t
        (λ v. str_eq v.id id && str_eq v.account_id account && str_eq v.source_device_id device)
  refuse_if (not (valid_window v now)) device_link_invalid
  ok (without_code v)

unfoldable pub device_link_for_claim :
    LinkHost → ℕ → String → String → LinkTables → Answer DeviceLink
device_link_for_claim h now id token_hash t = do
  refuse_if (not (valid_hash h token_hash)) device_link_invalid
  v ← load_device_link t (λ v. str_eq v.id id && str_eq v.claim_token_hash token_hash)
  refuse_if (not (valid_window v now)) device_link_invalid
  ok (without_code v)
