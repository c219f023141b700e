-- ===== src/Storage/Links/Steps.antt =====
-- What each write of device links does to the links.
use veritra.Prelude.{
  ℕ, ◌*◌, ◌/◌, ◌%◌, ◌≡◌, inl, inr, String, Bool, false, List, not, ◌&&◌, ◌||◌, [], ◌∷◌, ◌++◌,
  length, ltb, leb, ◌==◌, str_eq, if◌then◌else◌, Bool-cases, Option-cases, &&-parts,
}
use veritra.Prelude.Rows.{Bytes, any, find, update}
use veritra.Storage.{
  ok, >>=-eq-ok, refuse_if-passed, ok-subst, refuse_not_ok, invalid_input, unauthorized,
  idempotency_conflict, enrollment_invalid, device_link_invalid, device_link_limit,
  constraint_failed,
}
use veritra.Storage.Links.State.{
  DeviceLink, LinkTables, is_open, is_visible, load_device_link, valid_window, without_code,
  check_devices, count_pending_device_links,
}
use veritra.Storage.Links.Proof.{
  LinkHost, DeviceLinkClaimInput, valid_hash, valid_device_link_origin, device_link_proof_message,
}
use veritra.Storage.Links.Methods.{
  second, minute, has_id, in_pending, may_create, new_link, same_link, insert_link,
  create_device_link, reserve_device_link, reserved, claimed_link, hash_is_taken, repeats_a_hash,
  store_claim, claim_device_link, pending_device_links_per_account,
}
use veritra.Storage.Links.Moves.{reserved-Moves, claimed_link-Moves}
use veritra.Storage.Links.Follows.{Follows, Follows-same, append-Follows, update-Follows}

abbrev Linked : Type 0
Linked = LinkTables × DeviceLink

abbrev FollowsIn : List String → LinkTables → Linked → Type 0
FollowsIn used t x = Follows used t.links x.0.links

same_link-Follows :
    (used : List String) (t u : LinkTables) (now : ℕ) (account device origin : String) (ttl : ℕ)
    (v w : DeviceLink)
    → same_link t now account device origin ttl v ≡ ok (u, w)
    → Follows used t.links u.links
unfolding same_link
same_link-Follows used t u now account device origin ttl v w h =
    let (same, h1) =
      refuse_if-passed
        (not (
          str_eq v.account_id account
          && str_eq v.source_device_id device
          && str_eq v.server_origin origin
          && v.ttl_seconds == ttl / second))
        idempotency_conflict _ h in
    let (open_, h2) = refuse_if-passed (not (valid_window v now)) device_link_invalid _ h1 in
    ok-subst (FollowsIn used t) (t, v) (u, w) h2 (Follows-same used t.links)

insert_link-Follows :
    (used : List String) (limit now : ℕ) (v w : DeviceLink) (t u : LinkTables)
    → any (str_eq v.id) used ≡ false
    → insert_link limit now v t ≡ ok (u, w)
    → Follows used t.links u.links
unfolding insert_link
insert_link-Follows used limit now v w t u fresh h =
    let (new, h1) =
      refuse_if-passed (any (λ (w : DeviceLink). str_eq w.code v.code) t.links) device_link_invalid
        _ h in
    let (_, room, h2) = >>=-eq-ok (check_devices limit t v.account_id) _ h1 in
    elim (Bool-cases
      (leb pending_device_links_per_account (count_pending_device_links t v.account_id now))) [
        | inl e ↦ absurd (refuse_not_ok "device_links" device_link_limit (u, w) (rw e at h2))
        | inr e ↦
            ok-subst (FollowsIn used t) (record t { links = t.links ++ (v ∷ []) }, v) (u, w)
              (rw e at h2) (append-Follows used t.links (v ∷ []) (fresh, tt))
      ]

pub create_device_link-Follows :
    (used : List String) (h : LinkHost) (limit now : ℕ) (account device code origin : String)
    (given : ℕ) (id : String) (nonce : Bytes) (t u : LinkTables) (w : DeviceLink)
    → any (str_eq id) used ≡ false
    → create_device_link h limit now account device code origin given id nonce t ≡ ok (u, w)
    → Follows used t.links u.links
unfolding create_device_link
create_device_link-Follows used h limit now account device code origin given id nonce t u w fresh
      done =
    let ttl = if given == 0 then 10 * minute else given in
    let (formed, h1) =
      refuse_if-passed
        (not (valid_hash h code)
          || (not (valid_device_link_origin h origin)
              || (ltb (30 * minute) given || not (given % second == 0))))
        invalid_input _ done in
    let (may, h2) = refuse_if-passed (not (may_create t account device)) unauthorized _ h1 in
    elim (Option-cases (find (λ v. is_visible t v && str_eq v.code code) t.links)) [
      | inl e ↦
          insert_link-Follows used limit now (new_link id code account device origin ttl nonce now)
            w t u fresh (rw e at h2)
      | inr (v, e) ↦ same_link-Follows used t u now account device origin ttl v w (rw e at h2)
    ]

pub reserve_device_link-Follows :
    (used : List String) (h : LinkHost) (now : ℕ) (code request device : String) (nonce : Bytes)
    (t u : LinkTables) (w : DeviceLink)
    → reserve_device_link h now code request device nonce t ≡ ok (u, w)
    → Follows used t.links u.links
unfolding reserve_device_link
reserve_device_link-Follows used h now code request device nonce t u w done =
    let (formed, h1) =
      refuse_if-passed (not (valid_hash h code) || not (valid_hash h request)) enrollment_invalid _
        done in
    let (v, loaded, h2) =
      >>=-eq-ok (load_device_link t (λ (v : DeviceLink). str_eq v.code code)) _ h1 in
    let (open_, h3) =
      refuse_if-passed (not (ltb now v.expires_at) || not (is_open v.state)) device_link_invalid _
        h2 in
    let (mine, h4) =
      refuse_if-passed
        (not (str_eq v.reservation_request_id "") && not (str_eq v.reservation_request_id request))
        idempotency_conflict _ h3 in
    elim (Bool-cases (str_eq v.reservation_request_id "")) [
      | inl e ↦
          let picked : DeviceLink → Bool =
            λ x. has_id v.id x && str_eq x.reservation_request_id "" in
          ok-subst (FollowsIn used t)
            (
              record t { links = update picked (reserved h request device nonce) t.links },
              reserved h request device nonce v,
            )
            (u, w) (rw e at h4)
            (update-Follows used picked (reserved h request device nonce) t.links
              (λ x p. reserved-Moves h request device nonce x (&&-parts _ _ p).1))
      | inr e ↦ ok-subst (FollowsIn used t) (t, v) (u, w) (rw e at h4) (Follows-same used t.links)
    ]

store_claim-Follows :
    (used : List String) (input : DeviceLinkClaimInput) (hash : String) (now : ℕ) (v w : DeviceLink)
    (t u : LinkTables)
    → store_claim input hash now v t ≡ ok (u, w)
    → Follows used t.links u.links
unfolding store_claim
store_claim-Follows used input hash now v w t u h =
    let picked : DeviceLink → Bool = λ x. has_id v.id x && in_pending x in
    let after : LinkTables = record t {
      links = update picked (claimed_link input hash now) t.links;
    } in
    let (distinct, h1) = refuse_if-passed (repeats_a_hash input) enrollment_invalid _ h in
    let (free, h2) =
      refuse_if-passed
        (any (λ (x : DeviceLink). not (has_id v.id x) && hash_is_taken input x) t.links)
        constraint_failed _ h1 in
    let (x, loaded, h3) = >>=-eq-ok (load_device_link after (has_id v.id)) _ h2 in
    ok-subst (FollowsIn used t) (after, without_code x) (u, w) h3
      (update-Follows used picked (claimed_link input hash now) t.links
        (λ y p. claimed_link-Moves input hash now y (&&-parts _ _ p).1))

pub claim_device_link-Follows :
    (used : List String) (h : LinkHost) (now : ℕ) (input : DeviceLinkClaimInput) (t u : LinkTables)
    (w : DeviceLink)
    → claim_device_link h now input t ≡ ok (u, w)
    → Follows used t.links u.links
unfolding claim_device_link
claim_device_link-Follows used h now input t u w done =
    let (v, loaded, h1) =
      >>=-eq-ok
        (load_device_link t (λ (v : DeviceLink).
          str_eq v.id input.enrollment_reservation_id && str_eq v.code input.code))
        _ done in
    let (open_, h2) =
      refuse_if-passed
        (not (valid_window v now)
          || (str_eq v.reservation_request_id ""
              || (not (str_eq input.reservation_request_id v.reservation_request_id)
                  || not (str_eq input.server_origin v.server_origin))))
        enrollment_invalid _ h1 in
    let (proof, signed, h3) =
      >>=-eq-ok
        (device_link_proof_message h input v.id v.account_id v.recipient_device_id v.challenge) _
        h2 in
    let (genuine, h4) =
      refuse_if-passed
        (not (length input.challenge_signature == 64)
          || not (h.verify input.signing_key proof input.challenge_signature))
        enrollment_invalid _ h3 in
    elim (Bool-cases (not (in_pending v))) [
      | inl e ↦
          let (again, h5) =
            refuse_if-passed (not (str_eq v.claim_request_hash (h.encode_hex (h.sha256 proof))))
              idempotency_conflict (ok (t, without_code v)) (rw e at h4) in
          ok-subst (FollowsIn used t) (t, without_code v) (u, w) h5 (Follows-same used t.links)
      | inr e ↦
          store_claim-Follows used input (h.encode_hex (h.sha256 proof)) now v w t u (rw e at h4)
    ]
