-- ===== src/Storage/Links/Closing.antt =====
-- What an approval, a completion and a cancellation do to the links.
use veritra.Prelude.{ℕ, ◌≡◌, inl, inr, String, ◌&&◌, List, Option-cases, &&-parts}
use veritra.Prelude.Rows.{Bytes, find}
use veritra.Storage.{ok, err, ok-subst, err_not_ok, device_link_invalid, idempotency_conflict}
use veritra.Storage.Links.State.{
  LinkState, pending, claimed, approved, consumed, revoked, DeviceLink, LinkTables, is_open,
}
use veritra.Storage.Links.Proof.{LinkHost}
use veritra.Storage.Links.Methods.{has_id, in_claimed, in_approved}
use veritra.Storage.Links.Approval.{
  SessionLimits, with_device, with_session, approved_link, consumed_link, revoked_link, is_own_link,
  cancelled, cancel_device_link,
}
use veritra.Storage.Links.Moves.{approved_link-Moves, consumed_link-Moves, revoked_link-Moves}
use veritra.Storage.Links.Follows.{Follows, Follows-same, update-Follows}

pub with_device-Follows :
    (used : List String) (h : LinkHost) (key_package_id account : String) (tag : Bytes)
    (id : String) (now : ℕ) (v : DeviceLink) (t : LinkTables)
    → Follows used t.links (with_device h key_package_id account tag id now v t).links
unfolding with_device
with_device-Follows used h key_package_id account tag id now v t =
    update-Follows used (λ w. has_id id w && in_claimed w) (approved_link tag now) t.links
      (λ w p. approved_link-Moves tag now w (&&-parts (has_id id w) (in_claimed w) p).1)

pub with_session-Follows :
    (used : List String) (limits : SessionLimits) (id session_hash : String) (now : ℕ)
    (v : DeviceLink) (t : LinkTables)
    → Follows used t.links (with_session limits id session_hash now v t).links
unfolding with_session
with_session-Follows used limits id session_hash now v t =
    update-Follows used (λ w. has_id id w && in_approved w) (consumed_link now) t.links
      (λ w p. consumed_link-Moves now w (&&-parts (has_id id w) (in_approved w) p).1)

cancelled-Follows :
    (used : List String) (id : String) (now : ℕ) (t : LinkTables)
    → Follows used t.links (cancelled id now t).links
cancelled-Follows used id now t =
    update-Follows used (λ w. has_id id w && is_open w.state) (revoked_link now) t.links
      (λ w p. revoked_link-Moves now w (&&-parts (has_id id w) (is_open w.state) p).1)

cancel_found :
    (used : List String) (s : LinkState) (id : String) (now : ℕ) (t u : LinkTables)
    → elim s [
      | revoked ↦ ok t
      | pending ↦ ok (cancelled id now t)
      | claimed ↦ ok (cancelled id now t)
      | approved ↦ err idempotency_conflict
      | consumed ↦ err idempotency_conflict
    ]
      ≡ ok u
    → Follows used t.links u.links
cancel_found used revoked id now t u h =
    ok-subst (λ (x : LinkTables). Follows used t.links x.links) t u h (Follows-same used t.links)
cancel_found used pending id now t u h =
    ok-subst (λ (x : LinkTables). Follows used t.links x.links) (cancelled id now t) u h
      (cancelled-Follows used id now t)
cancel_found used claimed id now t u h =
    ok-subst (λ (x : LinkTables). Follows used t.links x.links) (cancelled id now t) u h
      (cancelled-Follows used id now t)
cancel_found used approved id now t u h = absurd (err_not_ok idempotency_conflict u h)
cancel_found used consumed id now t u h = absurd (err_not_ok idempotency_conflict u h)

pub cancel_device_link-Follows :
    (used : List String) (now : ℕ) (id account device : String) (t u : LinkTables)
    → cancel_device_link now id account device t ≡ ok u
    → Follows used t.links u.links
unfolding cancel_device_link
cancel_device_link-Follows used now id account device t u h =
    elim (Option-cases (find (is_own_link t id account device) t.links)) [
      | inl e ↦ absurd (err_not_ok device_link_invalid u (rw (e, cancel_device_link) at h))
      | inr (v, e) ↦ cancel_found used v.state id now t u (rw (e, cancel_device_link) at h)
    ]
