-- ===== src/Storage/Links/Proof.antt =====
-- What the new device signs when it claims a link (server/internal/storage/device_link_v3_store.go,
-- enrollment_store.go). Hashes, signatures, hex texts and addresses are those of Go's packages.
use veritra.Prelude.{
  ℕ, String, Bool, false, not, ◌&&◌, ◌||◌, Option, none, some, List, [], ◌∷◌, ◌++◌, length, ltb,
  ◌==◌, str_eq, if◌then◌else◌,
}
use veritra.Prelude.Rows.{Bytes, any, bytes_equal}
use veritra.Prelude.Fields.{put_uint16, prefixed_by}
use veritra.Storage.{enrollment_invalid, Answer, ok, ◌>>=◌, ◌>>◌, refuse_if}

pub record Url : Type 0 where
  pub scheme : String
  pub opaque_part : String
  pub has_user : Bool
  pub host : String
  pub hostname : String
  pub port : String
  pub path : String
  pub raw_query : String
  pub force_query : Bool

-- The functions of encoding/hex, crypto, net, net/url, strconv, strings and unicode/utf8.
pub record LinkHost : Type 0 where
  pub decode_hex : String → Option Bytes
  pub encode_hex : Bytes → String
  pub sha256 : Bytes → Bytes
  pub verify : Bytes → Bytes → Bytes → Bool
  pub to_bytes : String → Bytes
  pub trim_space : String → String
  pub is_utf8 : String → Bool
  pub contains : String → String → Bool
  pub to_lower : String → String
  pub append : String → String → String
  pub parse_url : String → Option Url
  -- net.ParseIP(host) != nil && ip.IsLoopback()
  pub is_loopback : String → Bool
  pub atoi : String → Option ℕ
  pub itoa : ℕ → String
  -- json.Marshal of a domain.Device, of its id, account, name, key package, signing key and creation
  pub device_json : String → String → String → Bytes → Bytes → ℕ → String

-- http is for the local host.
abbrev pub plain_is_local : LinkHost → Url → Bool
plain_is_local h u =
    not (str_eq u.scheme "http") || (str_eq u.hostname "localhost" || h.is_loopback u.hostname)

-- The port as it is written in a canonical origin, none where it may not stand there.
unfoldable pub canonical_port : LinkHost → Url → Option String
canonical_port h u = if str_eq u.port "" then some "" else elim (h.atoi u.port) [
  | none ↦ none
  | some value ↦
      if ltb 65535 value
        || (not (str_eq (h.itoa value) u.port)
            || ((str_eq u.scheme "https" && value == 443)
                || (str_eq u.scheme "http" && value == 80)))
      then none
      else some (h.append ":" u.port)
]

abbrev pub canonical_host : LinkHost → Url → String
canonical_host h u =
    if h.contains u.hostname ":" then h.append "[" (h.append u.hostname "]") else u.hostname

-- The parts that an origin may not have.
unfoldable pub has_extra_parts : LinkHost → String → Url → Bool
has_extra_parts h origin u =
    any (λ b. b)
      (not (str_eq u.opaque_part "")
        ∷ u.has_user
        ∷ not (str_eq u.path "")
        ∷ not (str_eq u.raw_query "")
        ∷ u.force_query
        ∷ h.contains origin "#"
        ∷ str_eq u.host ""
        ∷ (not (str_eq u.scheme "https") && not (str_eq u.scheme "http"))
        ∷ [])

unfoldable pub origin_of_url : LinkHost → String → Url → Bool
origin_of_url h origin u =
    if has_extra_parts h origin u
      || (str_eq u.hostname ""
          || (not (str_eq u.hostname (h.to_lower u.hostname)) || not (plain_is_local h u)))
    then false
    else elim (canonical_port h u) [
      | none ↦ false
      | some port ↦
          str_eq origin (h.append u.scheme (h.append "://" (h.append (canonical_host h u) port)))
    ]

unfoldable pub valid_device_link_origin : LinkHost → String → Bool
valid_device_link_origin h origin =
    if str_eq origin ""
      || (ltb 2048 (length (h.to_bytes origin))
          || (not (h.is_utf8 origin) || not (str_eq (h.trim_space origin) origin)))
    then false
    else elim (h.parse_url origin) [ none ↦ false | some u ↦ origin_of_url h origin u ]

unfoldable pub valid_hash : LinkHost → String → Bool
valid_hash h value = elim (h.decode_hex value) [
  | none ↦ false
  | some decoded ↦ length decoded == 32 && str_eq (h.encode_hex decoded) value
]

unfoldable pub same_bytes : Bytes → Bytes → Bool
same_bytes left right = length left == length right && bytes_equal left right

unfoldable pub valid_name : LinkHost → String → Bool
valid_name h name =
    not (str_eq name "")
    && not (ltb 64 (length (h.to_bytes name)))
    && h.is_utf8 name
    && str_eq (h.trim_space name) name

pub record DeviceLinkClaimInput : Type 0 where
  pub code : String
  pub protocol_version : String
  pub server_origin : String
  pub reservation_request_id : String
  pub enrollment_reservation_id : String
  pub device_name : String
  pub device_key_package : Bytes
  pub signing_key : Bytes
  pub transfer_public_key : Bytes
  pub transcript_hash : Bytes
  pub claim_tag : Bytes
  pub claim_token_hash : String
  pub device_secret_hash : String
  pub initial_session_token_hash : String
  pub challenge_signature : Bytes

-- A field behind its length.
abbrev pub prefixed : Bytes → Bytes
prefixed = prefixed_by put_uint16

-- The loop over the variable-width fields.
unfoldable pub prefixed_fields : List Bytes → Answer Bytes
prefixed_fields [] = ok []
prefixed_fields (field ∷ fields) = do
  refuse_if (length field == 0 || ltb 65535 (length field)) enrollment_invalid
  rest ← prefixed_fields fields
  ok (prefixed field ++ rest)

abbrev pub concat : List Bytes → Bytes
concat [] = []
concat (field ∷ fields) = field ++ concat fields

unfoldable pub claim_is_malformed : LinkHost → DeviceLinkClaimInput → Bool
claim_is_malformed h input =
    any (λ b. b)
      (not (str_eq input.protocol_version "veritra-device-link-v3")
        ∷ not (valid_device_link_origin h input.server_origin)
        ∷ not (valid_hash h input.code)
        ∷ not (valid_hash h input.reservation_request_id)
        ∷ not (valid_name h input.device_name)
        ∷ ltb (length input.device_key_package) 64
        ∷ ltb 49152 (length input.device_key_package)
        ∷ not (length input.signing_key == 32)
        ∷ not (length input.transfer_public_key == 32)
        ∷ not (length input.transcript_hash == 32)
        ∷ not (length input.claim_tag == 32)
        ∷ not (valid_hash h input.claim_token_hash)
        ∷ not (valid_hash h input.device_secret_hash)
        ∷ not (valid_hash h input.initial_session_token_hash)
        ∷ [])

abbrev pub decoded : Option Bytes → Bytes
decoded none = []
decoded (some b) = b

-- DeviceLinkV3ProofMessage, for the id, the account, the device and the challenge of a reservation.
unfoldable pub device_link_proof_message :
    LinkHost → DeviceLinkClaimInput → String → String → String → Bytes → Answer Bytes
device_link_proof_message h input id account device challenge = do
  refuse_if (claim_is_malformed h input) enrollment_invalid
  fields ← prefixed_fields (
      h.to_bytes input.server_origin
      ∷ h.to_bytes input.code
      ∷ decoded (h.decode_hex input.reservation_request_id)
      ∷ h.to_bytes id
      ∷ h.to_bytes account
      ∷ h.to_bytes device
      ∷ h.to_bytes input.device_name
      ∷ challenge
      ∷ [])
  ok (
      h.to_bytes "veritra-device-link-enrollment-v3"
      ++ fields
      ++ concat (
          input.signing_key
          ∷ h.sha256 input.device_key_package
          ∷ input.transfer_public_key
          ∷ input.transcript_hash
          ∷ input.claim_tag
          ∷ decoded (h.decode_hex input.claim_token_hash)
          ∷ decoded (h.decode_hex input.device_secret_hash)
          ∷ decoded (h.decode_hex input.initial_session_token_hash)
          ∷ []))

-- A length over 65535 is cut to its low 16 bits.
unfoldable pub encode_enrollment_challenge : LinkHost → String → String → String → Bytes → Bytes
encode_enrollment_challenge h reservation account device nonce =
    h.to_bytes "veritra-enrollment-v1"
    ++ concat (
        prefixed (h.to_bytes reservation)
        ∷ prefixed (h.to_bytes account)
        ∷ prefixed (h.to_bytes device)
        ∷ prefixed nonce
        ∷ [])
