-- ===== src/Storage/Links/Tests.antt =====
-- A link from its creation to the session of the new device.
use Prim.Native.String.{◌++◌ as str_append}
use veritra.Prelude.{
  ℕ, ◌==◌, ◌≡◌, ◌⊎◌, refl, String, true, false, Option, none, some, List, [], ◌∷◌, replicate,
  str_eq, if◌then◌else◌,
}
use veritra.Prelude.Rows.{Bytes, any, find, count, update, bytes_equal}
use veritra.Storage.{Answer, ok, err, refuse}
use veritra.Storage.Tables.{Device}
use veritra.Storage.Links.State.{
  DeviceLink, LinkTables, is_visible, load_device_link, valid_window, check_devices,
  count_pending_device_links,
}
use veritra.Storage.Links.Proof.{
  Url, LinkHost, DeviceLinkClaimInput, valid_hash, valid_device_link_origin, origin_of_url,
  has_extra_parts, canonical_port, same_bytes, valid_name, prefixed_fields, claim_is_malformed,
  device_link_proof_message, encode_enrollment_challenge,
}
use veritra.Storage.Links.Methods.{
  new_link, create_device_link, insert_link, reserve_device_link, store_claim, claim_device_link,
}
use veritra.Storage.Links.Approval.{
  linked_device, with_device, approve_claim, approve_device_link, SessionLimits, Completion,
  completion, with_session, open_session, complete_device_link,
}
use veritra.Storage.Links.Signed.{claim_fields, device_link_proof_message_binds}
use veritra.Storage.Links.Removal.{delete_account_links}
use veritra.Storage.Links.Follows.{Follows}
use veritra.Storage.Links.Approved.{Makes, Repeats, approve_device_link-Outcome}
use veritra.Storage.Links.Completed.{Opens, Recovers, complete_device_link-Outcome}
use veritra.Storage.Links.Reach.{
  reserve, claim, approve, complete, delete_account, start, next, Reach-Follows,
}

abbrev ones : Bytes
ones = replicate 32 1

-- Three texts stand for hashes, and "z" for that of every message.
abbrev bytes_of : String → Option Bytes
bytes_of s =
    if str_eq s "a"
    then some ones
    else if str_eq s "b"
    then some (replicate 32 2)
    else if str_eq s "c"
    then some (replicate 32 3)
    else some (replicate 32 9)

abbrev text_of : Bytes → String
text_of [] = ""
text_of (b ∷ bs) = if b == 1 then "a" else if b == 2 then "b" else if b == 3 then "c" else "z"

abbrev url : Url
url = record {
  scheme = "https";
  opaque_part = "";
  has_user = false;
  host = "x";
  hostname = "x";
  port = "";
  path = "";
  raw_query = "";
  force_query = false;
}

abbrev host : LinkHost
host = record {
  decode_hex = bytes_of;
  encode_hex = text_of;
  sha256 = λ b. replicate 32 9;
  verify = λ key message signature. true;
  to_bytes = λ s. 1 ∷ [];
  trim_space = λ s. s;
  is_utf8 = λ s. true;
  contains = λ s part. false;
  to_lower = λ s. s;
  append = str_append;
  parse_url = λ s. some url;
  is_loopback = λ s. false;
  atoi = λ s. none;
  itoa = λ n. "";
  device_json = λ id account name key_package signing_key created. "{}";
}

abbrev limits : SessionLimits
limits = record { idle = 100; absolute = 1000 }

abbrev tables : LinkTables
tables = record {
  accounts = record { id = "alice"; status = "active"; deleted_at = none } ∷ [];
  devices =
      record {
        id = "d1";
        account_id = "alice";
        name = "";
        key_package = [];
        signing_key = ones;
        auth_secret_hash = "";
        created_at = 0;
        revoked_at = none;
      }
      ∷ [];
  links = [];
  older_links = [];
  sessions = [];
  key_packages = [];
  last_event_id = 0;
  sync_events = [];
}

abbrev input : DeviceLinkClaimInput
input = record {
  code = "a";
  protocol_version = "veritra-device-link-v3";
  server_origin = "https://x";
  reservation_request_id = "a";
  enrollment_reservation_id = "l1";
  device_name = "phone";
  device_key_package = replicate 64 5;
  signing_key = ones;
  transfer_public_key = ones;
  transcript_hash = ones;
  claim_tag = ones;
  claim_token_hash = "a";
  device_secret_hash = "b";
  initial_session_token_hash = "c";
  challenge_signature = replicate 64 7;
}

abbrev tables_or : {A : Type 0} → LinkTables → Answer (LinkTables × A) → LinkTables
tables_or t (ok (u, a)) = u
tables_or t (err e) = t
tables_or t (refuse limit e) = t

abbrev value_or : {A : Type 0} → A → Answer (LinkTables × A) → A
value_or d (ok (u, a)) = a
value_or d (err e) = d
value_or d (refuse limit e) = d

abbrev answer_or : {A : Type 0} → A → Answer A → A
answer_or d (ok a) = a
answer_or d (err e) = d
answer_or d (refuse limit e) = d

abbrev no_link : DeviceLink
no_link = new_link "" "" "" "" "" 0 [] 0

abbrev no_approval : DeviceLink × (Device × ℕ)
no_approval = (no_link, (linked_device "" 0 no_link, 0))

abbrev no_completion : Completion × Bytes
no_completion = (completion "" "" "" 0 no_link, [])

abbrev created : LinkTables
created =
    tables_or tables
      (create_device_link host 10 0 "alice" "d1" "a" "https://x" 0 "l1" (1 ∷ []) tables)

abbrev created_value : DeviceLink
created_value =
    value_or no_link
      (create_device_link host 10 0 "alice" "d1" "a" "https://x" 0 "l1" (1 ∷ []) tables)

created_ok :
    create_device_link host 10 0 "alice" "d1" "a" "https://x" 0 "l1" (1 ∷ []) tables
    ≡ ok (created, created_value)
unfolding create_device_link valid_hash valid_device_link_origin origin_of_url has_extra_parts
    canonical_port any find is_visible insert_link check_devices count count_pending_device_links
    reserve_device_link load_device_link update encode_enrollment_challenge claim_device_link
    valid_window device_link_proof_message claim_is_malformed valid_name prefixed_fields store_claim
    approve_device_link same_bytes bytes_equal approve_claim with_device complete_device_link
    open_session with_session
created_ok = refl

abbrev reserved_ : LinkTables
reserved_ = tables_or created (reserve_device_link host 1 "a" "a" "d2" (2 ∷ []) created)

abbrev reserved_value : DeviceLink
reserved_value = value_or no_link (reserve_device_link host 1 "a" "a" "d2" (2 ∷ []) created)

reserved_ok :
    reserve_device_link host 1 "a" "a" "d2" (2 ∷ []) created ≡ ok (reserved_, reserved_value)
unfolding create_device_link valid_hash valid_device_link_origin origin_of_url has_extra_parts
    canonical_port any find is_visible insert_link check_devices count count_pending_device_links
    reserve_device_link load_device_link update encode_enrollment_challenge claim_device_link
    valid_window device_link_proof_message claim_is_malformed valid_name prefixed_fields store_claim
    approve_device_link same_bytes bytes_equal approve_claim with_device complete_device_link
    open_session with_session
reserved_ok = refl

abbrev claimed_ : LinkTables
claimed_ = tables_or reserved_ (claim_device_link host 2 input reserved_)

abbrev claimed_value : DeviceLink
claimed_value = value_or no_link (claim_device_link host 2 input reserved_)

claimed_ok : claim_device_link host 2 input reserved_ ≡ ok (claimed_, claimed_value)
unfolding create_device_link valid_hash valid_device_link_origin origin_of_url has_extra_parts
    canonical_port any find is_visible insert_link check_devices count count_pending_device_links
    reserve_device_link load_device_link update encode_enrollment_challenge claim_device_link
    valid_window device_link_proof_message claim_is_malformed valid_name prefixed_fields store_claim
    approve_device_link same_bytes bytes_equal approve_claim with_device complete_device_link
    open_session with_session
claimed_ok = refl

abbrev approved_ : LinkTables
approved_ =
    tables_or claimed_ (approve_device_link host 10 3 "kp" "l1" "alice" "d1" "z" ones ones claimed_)

abbrev approved_value : DeviceLink × (Device × ℕ)
approved_value =
    value_or no_approval
      (approve_device_link host 10 3 "kp" "l1" "alice" "d1" "z" ones ones claimed_)

approved_ok :
    approve_device_link host 10 3 "kp" "l1" "alice" "d1" "z" ones ones claimed_
    ≡ ok (approved_, approved_value)
unfolding create_device_link valid_hash valid_device_link_origin origin_of_url has_extra_parts
    canonical_port any find is_visible insert_link check_devices count count_pending_device_links
    reserve_device_link load_device_link update encode_enrollment_challenge claim_device_link
    valid_window device_link_proof_message claim_is_malformed valid_name prefixed_fields store_claim
    approve_device_link same_bytes bytes_equal approve_claim with_device complete_device_link
    open_session with_session
approved_ok = refl

abbrev completed_ : LinkTables
completed_ =
    tables_or approved_ (complete_device_link host limits 4 "l1" "a" "z" "c" ones approved_)

abbrev completed_value : Completion × Bytes
completed_value =
    value_or no_completion (complete_device_link host limits 4 "l1" "a" "z" "c" ones approved_)

completed_ok :
    complete_device_link host limits 4 "l1" "a" "z" "c" ones approved_
    ≡ ok (completed_, completed_value)
unfolding create_device_link valid_hash valid_device_link_origin origin_of_url has_extra_parts
    canonical_port any find is_visible insert_link check_devices count count_pending_device_links
    reserve_device_link load_device_link update encode_enrollment_challenge claim_device_link
    valid_window device_link_proof_message claim_is_malformed valid_name prefixed_fields store_claim
    approve_device_link same_bytes bytes_equal approve_claim with_device complete_device_link
    open_session with_session
completed_ok = refl

approve_device_link-Outcome_example :
    (v : DeviceLink) × (is_visible claimed_ v ≡ true)
    × (v.id ≡ "l1")
    × (v.account_id ≡ "alice")
    × (v.source_device_id ≡ "d1")
    × (v.claim_request_hash ≡ "z")
    × (v.transcript_hash ≡ ones)
    × (Makes host 10 3 "kp" "alice" ones "l1" v claimed_ approved_
        ⊎ Repeats ones v claimed_ approved_)
approve_device_link-Outcome_example =
    approve_device_link-Outcome host 10 3 "kp" "l1" "alice" "d1" "z" ones ones claimed_ approved_
      approved_value approved_ok

complete_device_link-Outcome_example :
    (v : DeviceLink) × (is_visible approved_ v ≡ true)
    × (v.id ≡ "l1")
    × (v.claim_token_hash ≡ "a")
    × (v.claim_request_hash ≡ "z")
    × (v.initial_session_hash ≡ "c")
    × (v.transcript_hash ≡ ones)
    × (Opens limits 4 "l1" "c" v approved_ completed_
        ⊎ Recovers limits 4 "c" v approved_ completed_)
complete_device_link-Outcome_example =
    complete_device_link-Outcome host limits 4 "l1" "a" "z" "c" ones approved_ completed_
      completed_value completed_ok

abbrev ids : List String
ids = "l1" ∷ []

Reach-Follows_example :
    Follows ("l1" ∷ []) created.links (delete_account_links "alice" completed_).links
Reach-Follows_example =
    Reach-Follows host 10 limits ("l1" ∷ []) created ("l1" ∷ [])
      (delete_account_links "alice" completed_)
      (next
        (next
          (next
            (next
              (next start
                (reserve ids 1 "a" "a" "d2" (2 ∷ []) created reserved_ reserved_value reserved_ok))
              (claim ids 2 input reserved_ claimed_ claimed_value claimed_ok))
            (approve ids 3 "kp" "l1" "alice" "d1" "z" ones ones claimed_ approved_ approved_value
              approved_ok))
          (complete ids 4 "l1" "a" "z" "c" ones approved_ completed_ completed_value completed_ok))
        (delete_account ids "alice" completed_))

abbrev signed : Bytes
signed = answer_or [] (device_link_proof_message host input "l1" "alice" "d2" (2 ∷ []))

signed_ok : device_link_proof_message host input "l1" "alice" "d2" (2 ∷ []) ≡ ok signed
unfolding device_link_proof_message claim_is_malformed any valid_device_link_origin origin_of_url
    has_extra_parts canonical_port valid_hash valid_name prefixed_fields
signed_ok = refl

device_link_proof_message_binds_example :
    (claim_fields host input "l1" "alice" "d2" (2 ∷ [])
      ≡ claim_fields host input "l1" "alice" "d2" (2 ∷ []))
    × (input.signing_key ≡ input.signing_key)
    × (host.sha256 input.device_key_package ≡ host.sha256 input.device_key_package)
    × (input.transfer_public_key ≡ input.transfer_public_key)
    × (input.transcript_hash ≡ input.transcript_hash)
    × (input.claim_tag ≡ input.claim_tag)
device_link_proof_message_binds_example =
    device_link_proof_message_binds host input input "l1" "alice" "d2" "l1" "alice" "d2" (2 ∷ [])
      (2 ∷ []) signed refl signed_ok signed_ok
