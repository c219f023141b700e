-- ===== src/Storage/Mls/Reach.antt =====
-- Commits and epochs over any sequence of writes. Each write is one transaction of the single
-- writer connection, so the writes of concurrent requests are a sequence of steps.
use veritra.Prelude.{
  ℕ, ◌≡◌, inl, inr, refl, ap, ◌∙◌, String, not, ◌&&◌, none, some, List, [], ◌∷◌, str_eq, Bool-cases,
  ◌==◌,
}
use veritra.Prelude.GoMap.{lookup}
use veritra.Prelude.Rows.{any, count, update}
use veritra.Storage.{ok, Host, ok-subst, err_not_ok, forbidden}
use veritra.Storage.Tables.{Tables, MlsMessage, RequiredDevice, is_null}
use veritra.Storage.Mls.Revocations.{
  mls_group_epoch, confirm_mls_revocation, confirmable, confirmed, is_required,
  release_mls_revocation_confirmations, complete_each, complete_mls_revocation_if_confirmed,
}
use veritra.Storage.Mls.Messages.{MlsCommitBundleInput, MlsCommitBundleResult}
use veritra.Storage.Mls.Bundle.{create_mls_commit_bundle, CreateMlsMessageInput, create_mls_message}
use veritra.Storage.Mls.Frames.{complete-KeepsMessages}
use veritra.Storage.Mls.Counts.{CountsCommits, is_commit_of, bundle-CountsCommits}
use veritra.Storage.Mls.Single.{create_mls_message-Messaged, Messaged-CountsCommits}

same_messages-CountsCommits :
    (t u : Tables)
    → u.mls_groups ≡ t.mls_groups
    → u.mls_messages ≡ t.mls_messages
    → CountsCommits t
    → CountsCommits u
unfolding mls_group_epoch
same_messages-CountsCommits t u groups messages v conversation epoch h =
    ap (count (is_commit_of conversation)) messages ∙ v conversation epoch (rw groups at h)

confirm-CountsCommits :
    (conversation revoked account device : String) (now : ℕ) (t u : Tables) (event : ℕ)
    → confirm_mls_revocation conversation revoked account device now t ≡ ok (u, event)
    → CountsCommits t
    → CountsCommits u
unfolding confirm_mls_revocation
confirm-CountsCommits conversation revoked account device now t u event h v =
    let picked = confirmable t conversation revoked account device in
    let already =
      any
        (λ (q : RequiredDevice).
          is_required conversation revoked q
          && str_eq q.device_id device
          && not (is_null q.confirmed_at))
        t.required_devices in
    elim (Bool-cases (count picked t.required_devices == 0)) [
      | inl e ↦ elim (Bool-cases already) [
        | inl f ↦
            ok-subst (λ (x : Tables × ℕ). CountsCommits x.0) (t, 0) (u, event) (rw (e, f) at h) v
        | inr f ↦ absurd (err_not_ok forbidden (u, event) (rw (e, f) at h))
      ]
      | inr e ↦
          let after : Tables = record t {
            required_devices = update picked (confirmed now) t.required_devices;
          } in
          let k = complete-KeepsMessages conversation revoked now after in
          ok-subst (λ (x : Tables × ℕ). CountsCommits x.0)
            (complete_mls_revocation_if_confirmed conversation revoked now after) (u, event)
            (rw e at h) (same_messages-CountsCommits t _ k.rest.groups k.messages v)
    ]

complete_each-CountsCommits :
    (qs : List RequiredDevice) (now : ℕ) (t : Tables)
    → CountsCommits t
    → CountsCommits (complete_each qs now t)
unfolding complete_each
complete_each-CountsCommits [] now t v = v
complete_each-CountsCommits (q ∷ qs) now t v =
    let k = complete-KeepsMessages q.conversation_id q.revoked_device_id now t in
    complete_each-CountsCommits qs now _
      (same_messages-CountsCommits t _ k.rest.groups k.messages v)

none_not_some : (n : ℕ) → none ≡ some n → ⊥
none_not_some n h = cc

-- The steps; `elsewhere` stands for every write of the store to other tables.
pub data Step (host : Host) (minutes : ℕ) : Tables → Tables → Type 0 where
  bundle :
      (now : ℕ) (input : MlsCommitBundleInput) (t u : Tables) (r : MlsCommitBundleResult)
      → create_mls_commit_bundle host minutes now input t ≡ ok (u, r)
      → Step host minutes t u
  message :
      (now : ℕ) (input : CreateMlsMessageInput) (t u : Tables) (result : MlsMessage × ℕ)
      → create_mls_message host now input t ≡ ok (u, result)
      → Step host minutes t u
  confirm :
      (conversation revoked account device : String) (now : ℕ) (t u : Tables) (event : ℕ)
      → confirm_mls_revocation conversation revoked account device now t ≡ ok (u, event)
      → Step host minutes t u
  release :
      (device : String) (now : ℕ) (t : Tables)
      → Step host minutes t (release_mls_revocation_confirmations host device now t)
  elsewhere :
      (t u : Tables)
      → u.mls_groups ≡ t.mls_groups
      → u.mls_messages ≡ t.mls_messages
      → Step host minutes t u

pub data Reach (host : Host) (minutes : ℕ) (t : Tables) : Tables → Type 0 where
  start : Reach host minutes t t
  next : {u v : Tables} → Reach host minutes t u → Step host minutes u v → Reach host minutes t v

Step-CountsCommits :
    (host : Host) (minutes : ℕ) (t u : Tables)
    → Step host minutes t u
    → CountsCommits t
    → CountsCommits u
unfolding release_mls_revocation_confirmations
Step-CountsCommits host minutes _ _ (bundle now input t u r h) v =
    bundle-CountsCommits host minutes now input t u r h v
Step-CountsCommits host minutes _ _ (message now input t u result h) v =
    let (conversation, unrostered, m) = create_mls_message-Messaged host now input t u result h in
    Messaged-CountsCommits conversation t u unrostered m v
Step-CountsCommits host minutes _ _ (confirm conversation revoked account device now t u event h)
      v =
    confirm-CountsCommits conversation revoked account device now t u event h v
Step-CountsCommits host minutes _ _ (release device now t) v =
    complete_each-CountsCommits _ now _ (same_messages-CountsCommits t _ refl refl v)
Step-CountsCommits host minutes _ _ (elsewhere t u groups messages) v =
    same_messages-CountsCommits t u groups messages v

-- From tables without a group, in whatever order commit bundles, single messages, confirmations
-- and releases are written, and other writes that keep the groups and the messages, the epoch of
-- a group is the number of the commits stored for its conversation.
pub Reach-CountsCommits :
    (host : Host) (minutes : ℕ) (t u : Tables)
    → t.mls_groups ≡ []
    → Reach host minutes t u
    → CountsCommits u
unfolding mls_group_epoch lookup
Reach-CountsCommits host minutes t u empty start =
    λ conversation epoch h. absurd (none_not_some epoch (rw empty at h))
Reach-CountsCommits host minutes t u empty (next {u = w} reached step) =
    Step-CountsCommits host minutes w u step (Reach-CountsCommits host minutes t w empty reached)
