-- ===== src/Storage/Links/Reach.antt =====
-- Device links over any sequence of writes, one transaction after the other.
use veritra.Prelude.{ℕ, ◌≡◌, inl, inr, String, false, ◌&&◌, List, ◌∷◌, ltb, str_eq, arith}
use veritra.Prelude.Rows.{Bytes, any}
use veritra.Storage.{ok}
use veritra.Storage.Tables.{Device}
use veritra.Storage.Links.State.{DeviceLink, LinkTables}
use veritra.Storage.Links.Proof.{LinkHost, DeviceLinkClaimInput}
use veritra.Storage.Links.Methods.{create_device_link, reserve_device_link, claim_device_link}
use veritra.Storage.Links.Approval.{
  SessionLimits, Completion, approve_device_link, complete_device_link, cancel_device_link,
}
use veritra.Storage.Links.Removal.{
  is_link_of_device, retire_device_links_for_device, delete_account_links, last_use,
  prune_device_links,
}
use veritra.Storage.Links.Follows.{
  Follows, Follows-same, Follows-trans, IsWithin, delete_rows-Follows,
}
use veritra.Storage.Links.Steps.{
  create_device_link-Follows, reserve_device_link-Follows, claim_device_link-Follows,
}
use veritra.Storage.Links.Closing.{
  with_device-Follows, with_session-Follows, cancel_device_link-Follows,
}
use veritra.Storage.Links.Approved.{approve_device_link-Outcome}
use veritra.Storage.Links.Completed.{complete_device_link-Outcome}

-- The writes, with the ids that links have had. A new id, which comes from a random source, is none
-- of them. `elsewhere` stands for every write of the store that leaves the links as they are.
pub data Step (h : LinkHost) (devices : ℕ) (limits : SessionLimits)
    : List String → LinkTables → List String → LinkTables → Type 0 where
  create :
      (used : List String) (now : ℕ) (account device code origin : String) (given : ℕ) (id : String)
      (nonce : Bytes) (t u : LinkTables) (w : DeviceLink)
      → any (str_eq id) used ≡ false
      → create_device_link h devices now account device code origin given id nonce t ≡ ok (u, w)
      → Step h devices limits used t (id ∷ used) u
  reserve :
      (used : List String) (now : ℕ) (code request device : String) (nonce : Bytes)
      (t u : LinkTables) (w : DeviceLink)
      → reserve_device_link h now code request device nonce t ≡ ok (u, w)
      → Step h devices limits used t used u
  claim :
      (used : List String) (now : ℕ) (input : DeviceLinkClaimInput) (t u : LinkTables)
      (w : DeviceLink)
      → claim_device_link h now input t ≡ ok (u, w)
      → Step h devices limits used t used u
  approve :
      (used : List String) (now : ℕ) (key_package_id id account source request_hash : String)
      (transcript tag : Bytes) (t u : LinkTables) (x : DeviceLink × (Device × ℕ))
      → approve_device_link h devices now key_package_id id account source request_hash transcript
          tag t
        ≡ ok (u, x)
      → Step h devices limits used t used u
  complete :
      (used : List String) (now : ℕ) (id token_hash request_hash session_hash : String)
      (transcript : Bytes) (t u : LinkTables) (x : Completion × Bytes)
      → complete_device_link h limits now id token_hash request_hash session_hash transcript t
        ≡ ok (u, x)
      → Step h devices limits used t used u
  cancel :
      (used : List String) (now : ℕ) (id account device : String) (t u : LinkTables)
      → cancel_device_link now id account device t ≡ ok u
      → Step h devices limits used t used u
  retire :
      (used : List String) (account device : String) (t : LinkTables)
      → Step h devices limits used t used (retire_device_links_for_device account device t)
  delete_account :
      (used : List String) (account : String) (t : LinkTables)
      → Step h devices limits used t used (delete_account_links account t)
  prune :
      (used : List String) (cutoff : ℕ) (oldest : List String) (t : LinkTables)
      → Step h devices limits used t used (prune_device_links cutoff oldest t)
  elsewhere :
      (used : List String) (t u : LinkTables)
      → u.links ≡ t.links
      → Step h devices limits used t used u

pub data Reach (h : LinkHost) (devices : ℕ) (limits : SessionLimits) (used : List String)
    (t : LinkTables) : List String → LinkTables → Type 0 where
  start : Reach h devices limits used t used t
  next :
      {later last : List String} {u v : LinkTables}
      → Reach h devices limits used t later u
      → Step h devices limits later u last v
      → Reach h devices limits used t last v

Step-Follows :
    (h : LinkHost) (devices : ℕ) (limits : SessionLimits) (before after : List String)
    (t u : LinkTables)
    → Step h devices limits before t after u
    → Follows before t.links u.links
unfolding retire_device_links_for_device delete_account_links prune_device_links
Step-Follows h devices limits _ _ _ _
      (create used now account device code origin given id nonce t u w fresh e) =
    create_device_link-Follows used h devices now account device code origin given id nonce t u w
      fresh e
Step-Follows h devices limits _ _ _ _ (reserve used now code request device nonce t u w e) =
    reserve_device_link-Follows used h now code request device nonce t u w e
Step-Follows h devices limits _ _ _ _ (claim used now input t u w e) =
    claim_device_link-Follows used h now input t u w e
Step-Follows h devices limits _ _ _ _
      (approve used now key_package_id id account source request_hash transcript tag t u x e) =
    let (v, seen, is_id, is_account, is_source, is_request, is_transcript, which) =
      approve_device_link-Outcome h devices now key_package_id id account source request_hash
        transcript tag t u x e in
    elim which [
      | inl made ↦ rw made.after (with_device-Follows used h key_package_id account tag id now v t)
      | inr again ↦ rw again.after (Follows-same used t.links)
    ]
Step-Follows h devices limits _ _ _ _
      (complete used now id token_hash request_hash session_hash transcript t u x e) =
    let (v, seen, is_id, is_token, is_request, is_session, is_transcript, which) =
      complete_device_link-Outcome h limits now id token_hash request_hash session_hash transcript t
        u x e in
    elim which [
      | inl opens ↦ rw opens.after (with_session-Follows used limits id session_hash now v t)
      | inr again ↦ rw again.after (Follows-same used t.links)
    ]
Step-Follows h devices limits _ _ _ _ (cancel used now id account device t u e) =
    cancel_device_link-Follows used now id account device t u e
Step-Follows h devices limits _ _ _ _ (retire used account device t) =
    delete_rows-Follows used (is_link_of_device account device) t.links
Step-Follows h devices limits _ _ _ _ (delete_account used account t) =
    delete_rows-Follows used (λ v. str_eq v.account_id account) t.links
Step-Follows h devices limits _ _ _ _ (prune used cutoff oldest t) =
    delete_rows-Follows used (λ v. ltb (last_use v) cutoff && any (str_eq v.id) oldest) t.links
Step-Follows h devices limits _ _ _ _ (elsewhere used t u same) =
    rw same (Follows-same used t.links)

one_more : (used : List String) (id : String) → IsWithin used (id ∷ used)
unfolding any
one_more used id other h = ground arith

Step-IsWithin :
    (h : LinkHost) (devices : ℕ) (limits : SessionLimits) (before after : List String)
    (t u : LinkTables)
    → Step h devices limits before t after u
    → IsWithin before after
Step-IsWithin h devices limits _ _ _ _
      (create used now account device code origin given id nonce t u w fresh e) =
    one_more used id
Step-IsWithin h devices limits _ _ _ _ (reserve used now code request device nonce t u w e) =
    λ id k. k
Step-IsWithin h devices limits _ _ _ _ (claim used now input t u w e) = λ id k. k
Step-IsWithin h devices limits _ _ _ _
      (approve used now key_package_id id account source request_hash transcript tag t u x e) =
    λ other k. k
Step-IsWithin h devices limits _ _ _ _
      (complete used now id token_hash request_hash session_hash transcript t u x e) =
    λ other k. k
Step-IsWithin h devices limits _ _ _ _ (cancel used now id account device t u e) = λ other k. k
Step-IsWithin h devices limits _ _ _ _ (retire used account device t) = λ id k. k
Step-IsWithin h devices limits _ _ _ _ (delete_account used account t) = λ id k. k
Step-IsWithin h devices limits _ _ _ _ (prune used cutoff oldest t) = λ id k. k
Step-IsWithin h devices limits _ _ _ _ (elsewhere used t u same) = λ id k. k

Reach-IsWithin :
    (h : LinkHost) (devices : ℕ) (limits : SessionLimits) (used : List String) (t : LinkTables)
    (last : List String) (u : LinkTables)
    → Reach h devices limits used t last u
    → IsWithin used last
Reach-IsWithin h devices limits used t _ _ start = λ id k. k
Reach-IsWithin h devices limits used t last u (next {later = later} {u = v} reached step) = λ id k.
    Reach-IsWithin h devices limits used t later v reached id
      (Step-IsWithin h devices limits later last v u step id k)

-- In whatever order the writes of the store run, those that delete links among them, and as long as
-- no id is given to a link twice: the links that are there afterwards are links from before, in
-- their order, and then links under new ids. Of a link that is still there, the id, the code, the
-- account, the source device and the expiry stay, the state only goes from pending to claimed,
-- approved and consumed, or from the first two to revoked, the reservation stays once it is made,
-- and the claim stays once it is made.
pub Reach-Follows :
    (h : LinkHost) (devices : ℕ) (limits : SessionLimits) (used : List String) (t : LinkTables)
    (last : List String) (u : LinkTables)
    → Reach h devices limits used t last u
    → Follows used t.links u.links
Reach-Follows h devices limits used t _ _ start = Follows-same used t.links
Reach-Follows h devices limits used t last u (next {later = later} {u = v} reached step) =
    Follows-trans used later t.links v.links u.links
      (Reach-IsWithin h devices limits used t later v reached)
      (Reach-Follows h devices limits used t later v reached)
      (Step-Follows h devices limits later last v u step)
