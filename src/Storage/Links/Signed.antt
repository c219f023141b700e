-- ===== src/Storage/Links/Signed.antt =====
-- What the message that a new device signs says of it (server/internal/storage/device_link_v3_store.go).
use veritra.Prelude.{
  ◌≡◌, ◌<◌, refl, sym, ap, ◌∙◌, String, false, ◌||◌, List, [], ◌∷◌, ◌++◌, length, ltb, ◌==◌,
  append_assoc, arith,
}
use veritra.Prelude.Rows.{Bytes, any}
use veritra.Prelude.Fields.{put_uint16, append_cancel, put_uint16-IsLengthCode, prefixed_by_cancel}
use veritra.Storage.{enrollment_invalid, ok, >>=-eq-ok, refuse_if-passed, ok-subst}
use veritra.Storage.Links.Proof.{
  LinkHost, DeviceLinkClaimInput, prefixed, prefixed_fields, claim_is_malformed, decoded, concat,
  device_link_proof_message,
}

within : (f : Bytes) → (length f == 0 || ltb 65535 (length f)) ≡ false → length f < 65536
within f h = ground arith

field_of :
    (f : Bytes) (fs : List Bytes) (x : Bytes)
    → prefixed_fields (f ∷ fs) ≡ ok x
    → (rest : Bytes) × (length f < 65536)
      × (prefixed_fields fs ≡ ok rest)
      × (x ≡ prefixed f ++ rest)
unfolding prefixed_fields
field_of f fs x h =
    let (fits, h1) =
      refuse_if-passed (length f == 0 || ltb 65535 (length f)) enrollment_invalid _ h in
    let (rest, got, last) = >>=-eq-ok (prefixed_fields fs) _ h1 in
    let same : x ≡ prefixed f ++ rest = cc in (rest, within f fits, got, same)

-- Two lists of as many fields, written in front of something, can be told apart.
prefixed_fields_cancel :
    (fs gs : List Bytes) (x y r s : Bytes)
    → length fs ≡ length gs
    → prefixed_fields fs ≡ ok x
    → prefixed_fields gs ≡ ok y
    → x ++ r ≡ y ++ s
    → (fs ≡ gs) × (r ≡ s)
unfolding prefixed_fields
prefixed_fields_cancel [] [] x y r s l h k e =
    let no_x : x ≡ [] = cc in
    let no_y : y ≡ [] = cc in
    let same : r ≡ s = ap (λ z. z ++ r) (sym no_x) ∙ e ∙ ap (λ z. z ++ s) no_y in (refl, same)
prefixed_fields_cancel [] (g ∷ gs) x y r s l h k e = absurd (omega arith)
prefixed_fields_cancel (f ∷ fs) [] x y r s l h k e = absurd (omega arith)
prefixed_fields_cancel (f ∷ fs) (g ∷ gs) x y r s l h k e =
    let (xs, f_fits, h1, x_is) = field_of f fs x h in
    let (ys, g_fits, k1, y_is) = field_of g gs y k in
    let all : prefixed f ++ (xs ++ r) ≡ prefixed g ++ (ys ++ s) =
      sym (append_assoc (prefixed f) xs r)
      ∙ ap (λ z. z ++ r) (sym x_is)
      ∙ e
      ∙ ap (λ z. z ++ s) y_is
      ∙ append_assoc (prefixed g) ys s in
    let (head, rest) =
      prefixed_by_cancel put_uint16 65536 f g (xs ++ r) (ys ++ s) put_uint16-IsLengthCode f_fits
        g_fits all in
    let (fields, end) = prefixed_fields_cancel fs gs xs ys r s (omega arith) h1 k1 rest in
    (rw (head, fields) refl, end)

-- The fields of a claim, and what the server names for it, that stand behind their lengths.
abbrev pub claim_fields :
    LinkHost → DeviceLinkClaimInput → String → String → String → Bytes → List Bytes
claim_fields h input id account device challenge =
    h.to_bytes input.server_origin
    ∷ h.to_bytes input.code
    ∷ decoded (h.decode_hex input.reservation_request_id)
    ∷ h.to_bytes id
    ∷ h.to_bytes account
    ∷ h.to_bytes device
    ∷ h.to_bytes input.device_name
    ∷ challenge
    ∷ []

abbrev claim_rest : LinkHost → DeviceLinkClaimInput → Bytes
claim_rest h input = concat (
    h.sha256 input.device_key_package
    ∷ input.transfer_public_key
    ∷ input.transcript_hash
    ∷ input.claim_tag
    ∷ decoded (h.decode_hex input.claim_token_hash)
    ∷ decoded (h.decode_hex input.device_secret_hash)
    ∷ decoded (h.decode_hex input.initial_session_token_hash)
    ∷ [])

abbrev link_label : LinkHost → Bytes
link_label h = h.to_bytes "veritra-device-link-enrollment-v3"

message_parts :
    (h : LinkHost) (input : DeviceLinkClaimInput) (id account device : String) (challenge m : Bytes)
    → device_link_proof_message h input id account device challenge ≡ ok m
    → (x : Bytes) × (claim_is_malformed h input ≡ false)
      × (prefixed_fields (claim_fields h input id account device challenge) ≡ ok x)
      × (m ≡ link_label h ++ (x ++ (input.signing_key ++ claim_rest h input)))
unfolding device_link_proof_message
message_parts h input id account device challenge m e =
    let (sound, e1) = refuse_if-passed (claim_is_malformed h input) enrollment_invalid _ e in
    let (x, got, last) =
      >>=-eq-ok (prefixed_fields (claim_fields h input id account device challenge)) _ e1 in
    let tail : Bytes = input.signing_key ++ claim_rest h input in
    let text : Bytes = link_label h ++ x ++ tail in
    let same : m ≡ text = ok-subst (λ z. z ≡ text) text m last refl in
    (x, sound, got, same ∙ append_assoc (link_label h) x tail)

module _ (h : LinkHost) (input : DeviceLinkClaimInput)
    (sound : claim_is_malformed h input ≡ false) where
  sizes :
      (length input.signing_key ≡ 32)
      × (length input.transfer_public_key ≡ 32)
      × (length input.transcript_hash ≡ 32)
      × (length input.claim_tag ≡ 32)
  unfolding claim_is_malformed any
  sizes = (ground arith, ground arith, ground arith, ground arith)

-- Two claims whose signed messages are one agree on the fields behind their lengths (the origin, the
-- code, the request, the reservation, the account, the device, its name and the challenge), on the
-- signing key, the hash of the key package, the transfer key, the transcript and the tag, provided
-- that the two hashes of key packages have one length.
pub device_link_proof_message_binds :
    (h : LinkHost) (input other : DeviceLinkClaimInput)
    (id account device id2 account2 device2 : String) (challenge challenge2 m : Bytes)
    → length (h.sha256 input.device_key_package) ≡ length (h.sha256 other.device_key_package)
    → device_link_proof_message h input id account device challenge ≡ ok m
    → device_link_proof_message h other id2 account2 device2 challenge2 ≡ ok m
    → (claim_fields h input id account device challenge
        ≡ claim_fields h other id2 account2 device2 challenge2)
      × (input.signing_key ≡ other.signing_key)
      × (h.sha256 input.device_key_package ≡ h.sha256 other.device_key_package)
      × (input.transfer_public_key ≡ other.transfer_public_key)
      × (input.transcript_hash ≡ other.transcript_hash)
      × (input.claim_tag ≡ other.claim_tag)
device_link_proof_message_binds h input other id account device id2 account2 device2 challenge
      challenge2 m hashes e k =
    let (x, sound, got, parts) = message_parts h input id account device challenge m e in
    let (y, sound2, got2, parts2) = message_parts h other id2 account2 device2 challenge2 m k in
    let (a, b, c, d) = sizes h input sound in
    let (a2, b2, c2, d2) = sizes h other sound2 in
    let (labels, bodies) =
      append_cancel (link_label h) (link_label h) _ _ refl (sym parts ∙ parts2) in
    let (fields, keys) =
      prefixed_fields_cancel (claim_fields h input id account device challenge)
        (claim_fields h other id2 account2 device2 challenge2) x y _ _ refl got got2 bodies in
    let (key, r1) = append_cancel input.signing_key other.signing_key _ _ (a ∙ sym a2) keys in
    let (hash, r2) =
      append_cancel (h.sha256 input.device_key_package) (h.sha256 other.device_key_package) _ _
        hashes r1 in
    let (transfer, r3) =
      append_cancel input.transfer_public_key other.transfer_public_key _ _ (b ∙ sym b2) r2 in
    let (transcript, r4) =
      append_cancel input.transcript_hash other.transcript_hash _ _ (c ∙ sym c2) r3 in
    let (tag, r5) = append_cancel input.claim_tag other.claim_tag _ _ (d ∙ sym d2) r4 in
    (fields, key, hash, transfer, transcript, tag)
