-- ===== src/Storage/Links/Methods.antt =====
-- The writes of device links (server/internal/storage/device_link_v3_store.go). Random ids and
-- nonces are arguments, and one time stands for all readings of the clock in a call.
use veritra.Prelude.{
  ℕ, ◌+◌, ◌*◌, ◌/◌, ◌%◌, String, Bool, true, false, not, ◌&&◌, ◌||◌, none, some, [], ◌∷◌, ◌++◌,
  length, ltb, leb, ◌==◌, str_eq, if◌then◌else◌,
}
use veritra.Prelude.Rows.{Bytes, any, find, update}
use veritra.Storage.{
  invalid_input, unauthorized, idempotency_conflict, enrollment_invalid, device_link_invalid,
  device_link_limit, constraint_failed, Answer, ok, refuse, ◌>>=◌, ◌>>◌, refuse_if,
}
use veritra.Storage.Links.State.{
  pending, claimed, approved, DeviceLink, LinkTables, is_active_account, is_device_of, is_open,
  is_visible, load_device_link, valid_window, without_code, check_devices,
  count_pending_device_links,
}
use veritra.Storage.Links.Proof.{
  LinkHost, DeviceLinkClaimInput, valid_hash, valid_device_link_origin, device_link_proof_message,
  encode_enrollment_challenge,
}

abbrev pub second : ℕ
second = 1_000_000_000

abbrev pub minute : ℕ
minute = 60 * second

-- config.PendingDeviceLinksPerAccount
abbrev pub pending_device_links_per_account : ℕ
pending_device_links_per_account = 3

-- deviceLinkV3TransferLifetime
abbrev pub transfer_lifetime : ℕ
transfer_lifetime = 7 * 24 * 60 * minute

abbrev pub has_id : String → DeviceLink → Bool
has_id id v = str_eq v.id id

-- The link is in one state.
abbrev pub in_pending : DeviceLink → Bool
in_pending v = elim v.state [ pending ↦ true | _ ↦ false ]

abbrev pub in_claimed : DeviceLink → Bool
in_claimed v = elim v.state [ claimed ↦ true | _ ↦ false ]

abbrev pub in_approved : DeviceLink → Bool
in_approved v = elim v.state [ approved ↦ true | _ ↦ false ]

-- A live device with a key, of an active account.
abbrev pub may_create : LinkTables → String → String → Bool
may_create t account device =
    any (is_active_account account) t.accounts
    && any (λ d. is_device_of account device d && length d.signing_key == 32) t.devices

abbrev pub new_link : String → String → String → String → String → ℕ → Bytes → ℕ → DeviceLink
new_link id code account device origin ttl nonce now = record {
  id = id;
  code = code;
  account_id = account;
  source_device_id = device;
  server_origin = origin;
  ttl_seconds = ttl / second;
  state = pending;
  link_nonce = nonce;
  reservation_request_id = "";
  recipient_device_id = "";
  challenge = [];
  device_name = "";
  key_package = [];
  signing_key = [];
  transfer_public_key = [];
  transcript_hash = [];
  claim_tag = [];
  approval_tag = [];
  claim_token_hash = "";
  device_secret_hash = "";
  initial_session_hash = "";
  claim_request_hash = "";
  created_at = now;
  expires_at = now + ttl;
  claimed_at = none;
  approved_at = none;
  transfer_expires_at = none;
  completed_at = none;
  revoked_at = none;
}

-- A link that stands under the code is given back to its creator.
unfoldable pub same_link :
    LinkTables → ℕ → String → String → String → ℕ → DeviceLink → Answer (LinkTables × DeviceLink)
same_link t now account device origin ttl v = do
  refuse_if
      (not (
        str_eq v.account_id account
        && str_eq v.source_device_id device
        && str_eq v.server_origin origin
        && v.ttl_seconds == ttl / second))
      idempotency_conflict
  refuse_if (not (valid_window v now)) device_link_invalid
  ok (t, v)

unfoldable pub insert_link : ℕ → ℕ → DeviceLink → LinkTables → Answer (LinkTables × DeviceLink)
insert_link limit now v t = do
  refuse_if (any (λ w. str_eq w.code v.code) t.links) device_link_invalid
  check_devices limit t v.account_id
  (if leb pending_device_links_per_account (count_pending_device_links t v.account_id now)
      then refuse "device_links" device_link_limit
      else ok (record t { links = t.links ++ (v ∷ []) }, v))

-- The time to live in nanoseconds, 0 for the default; a negative one is refused too.
unfoldable pub create_device_link :
    LinkHost
    → ℕ
    → ℕ
    → String
    → String
    → String
    → String
    → ℕ
    → String
    → Bytes
    → LinkTables
    → Answer (LinkTables × DeviceLink)
create_device_link h limit now account device code origin given id nonce t =
    let ttl = if given == 0 then 10 * minute else given in
    do
      refuse_if
          (not (valid_hash h code)
            || (not (valid_device_link_origin h origin)
                || (ltb (30 * minute) given || not (given % second == 0))))
          invalid_input
      refuse_if (not (may_create t account device)) unauthorized
      elim (find (λ v. is_visible t v && str_eq v.code code) t.links) [
        | some v ↦ same_link t now account device origin ttl v
        | none ↦ insert_link limit now (new_link id code account device origin ttl nonce now) t
      ]

abbrev pub reserved : LinkHost → String → String → Bytes → DeviceLink → DeviceLink
reserved h request device nonce v = record v {
  reservation_request_id = request;
  recipient_device_id = device;
  challenge = encode_enrollment_challenge h v.id v.account_id device nonce;
}

-- The link with its reservation: the first request names the device that may claim it.
unfoldable pub reserve_device_link :
    LinkHost → ℕ → String → String → String → Bytes → LinkTables → Answer (LinkTables × DeviceLink)
reserve_device_link h now code request device nonce t = do
  refuse_if (not (valid_hash h code) || not (valid_hash h request)) enrollment_invalid
  v ← load_device_link t (λ v. str_eq v.code code)
  refuse_if (not (ltb now v.expires_at) || not (is_open v.state)) device_link_invalid
  refuse_if
      (not (str_eq v.reservation_request_id "") && not (str_eq v.reservation_request_id request))
      idempotency_conflict
  (if str_eq v.reservation_request_id ""
      then ok (
        record t {
          links =
              update (λ w. has_id v.id w && str_eq w.reservation_request_id "")
                (reserved h request device nonce) t.links;
        },
        reserved h request device nonce v,
      )
      else ok (t, v))

abbrev pub claimed_link : DeviceLinkClaimInput → String → ℕ → DeviceLink → DeviceLink
claimed_link input hash now v = record v {
  state = claimed;
  device_name = input.device_name;
  key_package = input.device_key_package;
  signing_key = input.signing_key;
  transfer_public_key = input.transfer_public_key;
  transcript_hash = input.transcript_hash;
  claim_tag = input.claim_tag;
  claim_token_hash = input.claim_token_hash;
  device_secret_hash = input.device_secret_hash;
  initial_session_hash = input.initial_session_token_hash;
  claim_request_hash = hash;
  claimed_at = some now;
}

-- claim_token_hash and initial_session_token_hash are UNIQUE.
abbrev pub hash_is_taken : DeviceLinkClaimInput → DeviceLink → Bool
hash_is_taken input v =
    str_eq v.claim_token_hash input.claim_token_hash
    || str_eq v.initial_session_hash input.initial_session_token_hash

abbrev pub repeats_a_hash : DeviceLinkClaimInput → Bool
repeats_a_hash input =
    str_eq input.claim_token_hash input.device_secret_hash
    || (str_eq input.claim_token_hash input.initial_session_token_hash
        || str_eq input.device_secret_hash input.initial_session_token_hash)

-- The claim of a pending link, for the hash of its signed message.
unfoldable pub store_claim :
    DeviceLinkClaimInput → String → ℕ → DeviceLink → LinkTables → Answer (LinkTables × DeviceLink)
store_claim input hash now v t =
    let after : LinkTables = record t {
      links = update (λ w. has_id v.id w && in_pending w) (claimed_link input hash now) t.links;
    } in
    do
      refuse_if (repeats_a_hash input) enrollment_invalid
      refuse_if (any (λ w. not (has_id v.id w) && hash_is_taken input w) t.links) constraint_failed
      w ← load_device_link after (has_id v.id)
      ok (after, without_code w)

unfoldable pub claim_device_link :
    LinkHost → ℕ → DeviceLinkClaimInput → LinkTables → Answer (LinkTables × DeviceLink)
claim_device_link h now input t = do
  v ←
      load_device_link t
        (λ v. str_eq v.id input.enrollment_reservation_id && str_eq v.code input.code)
  refuse_if
      (not (valid_window v now)
        || (str_eq v.reservation_request_id ""
            || (not (str_eq input.reservation_request_id v.reservation_request_id)
                || not (str_eq input.server_origin v.server_origin))))
      enrollment_invalid
  proof ← device_link_proof_message h input v.id v.account_id v.recipient_device_id v.challenge
  refuse_if
      (not (length input.challenge_signature == 64)
        || not (h.verify input.signing_key proof input.challenge_signature))
      enrollment_invalid
  let hash = h.encode_hex (h.sha256 proof)
  (if not (in_pending v)
      then (do
        refuse_if (not (str_eq v.claim_request_hash hash)) idempotency_conflict
        ok (t, without_code v))
      else store_claim input hash now v t)
