-- ===== src/Storage/Links/Approved.antt =====
-- What an approval and a completion come from.
use veritra.Prelude.{
  ℕ, ◌≡◌, ◌⊎◌, ◌<◌, refl, inl, inr, String, Bool, true, false, not, ◌&&◌, ◌||◌, length, ltb, ◌==◌,
  str_eq, eq_iff, arith, Bool-cases, Option-cases, &&-parts, ltb→lt,
}
use veritra.Prelude.Rows.{Bytes, any, find, count, find-Holds, bytes_equal, bytes_equal→eq}
use veritra.Storage.{
  ok, >>=-eq-ok, refuse_if-passed, ok-subst, err_not_ok, refuse_not_ok, idempotency_conflict,
  device_link_invalid, device_link_verification_failed, constraint_failed, device_limit,
}
use veritra.Storage.Tables.{Device, is_null}
use veritra.Storage.Links.State.{
  LinkState, pending, claimed, approved, consumed, revoked, DeviceLink, LinkTables, is_visible,
  load_device_link, valid_window, without_code, check_devices,
}
use veritra.Storage.Links.Proof.{LinkHost, valid_hash, same_bytes}
use veritra.Storage.Links.Methods.{has_id, in_claimed}
use veritra.Storage.Links.Approval.{
  linked_device, with_device, approve_again, approve_claim, approve_device_link,
}

-- The link that a query finds.
pub load_device_link-ok :
    (t : LinkTables) (p : DeviceLink → Bool) (v : DeviceLink)
    → load_device_link t p ≡ ok v
    → (is_visible t v ≡ true) × (p v ≡ true)
unfolding load_device_link
load_device_link-ok t p v h = elim (Option-cases (find (λ w. is_visible t w && p w) t.links)) [
  | inl e ↦ absurd (err_not_ok device_link_invalid v (rw (e, load_device_link) at h))
  | inr (w, e) ↦
      ok-subst (λ x. (is_visible t x ≡ true) × (p x ≡ true)) w v (rw (e, load_device_link) at h)
        (&&-parts (is_visible t w) (p w) (find-Holds (λ x. is_visible t x && p x) t.links w e))
]

pub same_bytes→eq : (a b : Bytes) → same_bytes a b ≡ true → a ≡ b
unfolding same_bytes
same_bytes→eq a b h = bytes_equal→eq a b (&&-parts (length a == length b) (bytes_equal a b) h).1

-- The number of the account's devices that are not revoked.
abbrev pub live_devices : String → LinkTables → ℕ
live_devices account t =
    count (λ (d : Device). str_eq d.account_id account && is_null d.revoked_at) t.devices

check_devices-ok :
    (limit : ℕ) (t : LinkTables) (account : String) (x : Unit {0})
    → check_devices limit t account ≡ ok x
    → live_devices account t < limit
unfolding check_devices
check_devices-ok limit t account x h = elim (Bool-cases (ltb (live_devices account t) limit)) [
  | inl e ↦ ltb→lt _ _ e
  | inr e ↦ absurd (refuse_not_ok "devices" device_limit x (rw e at h))
]

-- The approval of a claimed link makes the device of its claim, within the account's limit.
pub record Makes (h : LinkHost) (limit now : ℕ) (key_package_id account : String) (tag : Bytes)
    (id : String) (v : DeviceLink) (t u : LinkTables) : Type 0 where
  pub was_claimed : in_claimed v ≡ true
  pub in_time : ltb now v.expires_at ≡ true
  pub has_room : live_devices account t < limit
  pub after : u ≡ with_device h key_package_id account tag id now v t

-- A repeated approval changes nothing.
pub record Repeats (tag : Bytes) (v : DeviceLink) (t u : LinkTables) : Type 0 where
  pub was_approved : (v.state ≡ approved) ⊎ (v.state ≡ consumed)
  pub same_tag : v.approval_tag ≡ tag
  pub after : u ≡ t

abbrev Approval : Type 0
Approval = LinkTables × (DeviceLink × (Device × ℕ))

approve_again-Repeats :
    (account : String) (tag : Bytes) (v : DeviceLink) (t u : LinkTables)
    (x : DeviceLink × (Device × ℕ))
    → (v.state ≡ approved) ⊎ (v.state ≡ consumed)
    → approve_again account tag v t ≡ ok (u, x)
    → Repeats tag v t u
unfolding approve_again
approve_again-Repeats account tag v t u x was h =
    let (same, h1) =
      refuse_if-passed (not (same_bytes v.approval_tag tag)) idempotency_conflict _ h in
    elim (Option-cases v.approved_at) [
      | inl e ↦ absurd (err_not_ok device_link_invalid (u, x) (rw e at h1))
      | inr (at, e) ↦ record {
        was_approved = was;
        same_tag = same_bytes→eq v.approval_tag tag (ground arith);
        after =
            ok-subst (λ (y : Approval). y.0 ≡ t)
              (t, (without_code v, (linked_device account at v, 0))) (u, x) (rw e at h1) refl;
      }
    ]

approve_claim-Makes :
    (host : LinkHost) (limit : ℕ) (key_package_id account : String) (tag : Bytes) (id : String)
    (now : ℕ) (v : DeviceLink) (t u : LinkTables) (x : DeviceLink × (Device × ℕ))
    → approve_claim host limit key_package_id account tag id now v t ≡ ok (u, x)
    → Makes host limit now key_package_id account tag id v t u
unfolding approve_claim
approve_claim-Makes host limit key_package_id account tag id now v t u x h =
    let after = with_device host key_package_id account tag id now v t in
    let (ready, h1) =
      refuse_if-passed (not (in_claimed v) || not (ltb now v.expires_at)) device_link_invalid _ h in
    let (one, room, h2) = >>=-eq-ok (check_devices limit t account) _ h1 in
    let (new, h3) =
      refuse_if-passed (any (λ (d : Device). str_eq d.id v.recipient_device_id) t.devices)
        constraint_failed _ h2 in
    let (w, loaded, h4) = >>=-eq-ok (load_device_link after (has_id id)) _ h3 in
    record {
      was_claimed = first_holds (in_claimed v) (ltb now v.expires_at) ready;
      in_time = second_holds (in_claimed v) (ltb now v.expires_at) ready;
      has_room = check_devices-ok limit t account one room;
      after =
          ok-subst (λ (y : Approval). y.0 ≡ after)
            (after, (without_code w, (linked_device account now v, after.last_event_id))) (u, x) h4
            refl;
    }
  where
    first_holds : (a b : Bool) → not a || not b ≡ false → a ≡ true
    first_holds a b h = ground arith

    second_holds : (a b : Bool) → not a || not b ≡ false → b ≡ true
    second_holds a b h = ground arith

by_state :
    (host : LinkHost) (s : LinkState) (limit : ℕ) (key_package_id account : String) (tag : Bytes)
    (id : String) (now : ℕ) (v : DeviceLink) (t u : LinkTables) (x : DeviceLink × (Device × ℕ))
    → v.state ≡ s
    → elim s [
      | approved ↦ approve_again account tag v t
      | consumed ↦ approve_again account tag v t
      | pending ↦ approve_claim host limit key_package_id account tag id now v t
      | claimed ↦ approve_claim host limit key_package_id account tag id now v t
      | revoked ↦ approve_claim host limit key_package_id account tag id now v t
    ]
      ≡ ok (u, x)
    → Makes host limit now key_package_id account tag id v t u ⊎ Repeats tag v t u
by_state host approved limit k account tag id now v t u x e h =
    inr (approve_again-Repeats account tag v t u x (inl e) h)
by_state host consumed limit k account tag id now v t u x e h =
    inr (approve_again-Repeats account tag v t u x (inr e) h)
by_state host pending limit k account tag id now v t u x e h =
    inl (approve_claim-Makes host limit k account tag id now v t u x h)
by_state host claimed limit k account tag id now v t u x e h =
    inl (approve_claim-Makes host limit k account tag id now v t u x h)
by_state host revoked limit k account tag id now v t u x e h =
    inl (approve_claim-Makes host limit k account tag id now v t u x h)

-- An approval that succeeds is for a visible link of the account and the source device, with the
-- request hash and the transcript of its claim; it either makes the device of a claimed link that
-- has not expired, of an account below its limit of devices, or repeats an earlier approval with
-- the same tag and changes nothing.
pub approve_device_link-Outcome :
    (h : LinkHost) (limit now : ℕ) (key_package_id id account source request_hash : String)
    (transcript tag : Bytes) (t u : LinkTables) (x : DeviceLink × (Device × ℕ))
    → approve_device_link h limit now key_package_id id account source request_hash transcript tag t
      ≡ ok (u, x)
    → (v : DeviceLink) × (is_visible t v ≡ true)
      × (v.id ≡ id)
      × (v.account_id ≡ account)
      × (v.source_device_id ≡ source)
      × (v.claim_request_hash ≡ request_hash)
      × (v.transcript_hash ≡ transcript)
      × (Makes h limit now key_package_id account tag id v t u ⊎ Repeats tag v t u)
unfolding approve_device_link
approve_device_link-Outcome h limit now k id account source request_hash transcript tag t u x done =
    let mine : DeviceLink → Bool =
      λ v. str_eq v.id id && str_eq v.account_id account && str_eq v.source_device_id source in
    let (formed, h1) =
      refuse_if-passed
        (not (valid_hash h request_hash)
          || (not (length transcript == 32) || not (length tag == 32)))
        device_link_verification_failed _ done in
    let (v, loaded, h2) = >>=-eq-ok (load_device_link t mine) _ h1 in
    let (open_, h3) = refuse_if-passed (not (valid_window v now)) device_link_invalid _ h2 in
    let (matches, h4) =
      refuse_if-passed
        (not (str_eq v.claim_request_hash request_hash)
          || not (same_bytes v.transcript_hash transcript))
        device_link_verification_failed _ h3 in
    let (seen, own) = load_device_link-ok t mine v loaded in
    (
      v,
      seen,
      (eq_iff v.id id).0 (ground arith),
      (eq_iff v.account_id account).0 (ground arith),
      (eq_iff v.source_device_id source).0 (ground arith),
      (eq_iff v.claim_request_hash request_hash).0 (ground arith),
      same_bytes→eq v.transcript_hash transcript (ground arith),
      by_state h v.state limit k account tag id now v t u x refl h4,
    )
