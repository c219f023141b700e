-- ===== src/Storage/Mls/Accepted.antt =====
-- What an accepted commit writes.
use veritra.Prelude.{
  ℕ, ◌+◌, ◌≡◌, refl, ap, false, List, [], ◌∷◌, ◌++◌, none, some, All, append_assoc,
}
use veritra.Prelude.Rows.{any}
use veritra.Storage.{ok, Host, >>=-eq-ok, ok-subst}
use veritra.Storage.Tables.{Tables, MlsMessage}
use veritra.Storage.Mls.Messages.{
  MlsCommitBundleInput, MlsCommitBundleResult, insert_mls_message, has_key,
}
use veritra.Storage.Mls.Commit.{
  commit_row, advance_epoch, record_self_update, remove_devices, welcome_devices, move_group,
  close_commit, store_commit,
}
use veritra.Storage.Mls.Frames.{
  KeepsMessages, KeepsMessages-trans, insert_row-Stored, joined_rows, welcome_devices-Welcomed,
  submit_revocation-KeepsMessages, drop_stale-KeepsMessages,
}

-- The tables and the result after a commit, which is stored with its Welcomes.
pub record Accepted (now : ℕ) (input : MlsCommitBundleInput) (epoch : ℕ) (t u : Tables)
    (r : MlsCommitBundleResult) : Type 0 where
  pub commit : MlsMessage
  pub welcomes : List MlsMessage
  pub groups : u.mls_groups ≡ advance_epoch input.conversation_id now t.mls_groups
  pub devices : u.devices ≡ t.devices
  pub memberships : u.memberships ≡ t.memberships
  pub roster :
      u.mls_devices
      ≡ joined_rows input.conversation_id commit.sync_event_id (epoch + 1) input.added (
          remove_devices input.conversation_id commit.sync_event_id input.removed
            (record_self_update now input t.mls_devices))
  pub messages : u.mls_messages ≡ t.mls_messages ++ (commit ∷ welcomes)
  pub kinds : All (λ m. m.kind ≡ "welcome") welcomes
  pub free : any (has_key input.sender_device_id input.idempotency_key) t.mls_messages ≡ false
  pub is_row :
      commit
      ≡ record (commit_row now input) { id = commit.id; sync_event_id = commit.sync_event_id }
  pub result : (r.commit ≡ some commit) × (r.epoch ≡ epoch + 1) × (r.duplicate ≡ false)

close_commit-KeepsMessages :
    (now : ℕ) (input : MlsCommitBundleInput) (epoch : ℕ) (commit : MlsMessage) (t : Tables)
    (welcomes : List MlsMessage)
    → KeepsMessages t (close_commit now input epoch commit t welcomes).0
unfolding close_commit
close_commit-KeepsMessages now input epoch commit t welcomes =
    KeepsMessages-trans t _ _
      (submit_revocation-KeepsMessages input.conversation_id input.revocation_device_id
        input.sender_device_id commit.id now t)
      (drop_stale-KeepsMessages input.conversation_id _)

close_commit-result :
    (now : ℕ) (input : MlsCommitBundleInput) (epoch : ℕ) (commit : MlsMessage) (t : Tables)
    (welcomes : List MlsMessage)
    → let r = (close_commit now input epoch commit t welcomes).1 in
      (r.commit ≡ some commit) × (r.epoch ≡ epoch + 1) × (r.duplicate ≡ false)
unfolding close_commit
close_commit-result now input epoch commit t welcomes = (refl, refl, refl)

move_group-fields :
    (now : ℕ) (input : MlsCommitBundleInput) (event : ℕ) (t : Tables)
    → let u = move_group now input event t in
      (u.mls_groups ≡ advance_epoch input.conversation_id now t.mls_groups)
      × (u.devices ≡ t.devices)
      × (u.memberships ≡ t.memberships)
      × (u.mls_messages ≡ t.mls_messages)
      × (u.mls_devices
          ≡ remove_devices input.conversation_id event input.removed
              (record_self_update now input t.mls_devices))
unfolding move_group
move_group-fields now input event t = (refl, refl, refl, refl, refl)

pub store_commit-Accepted :
    (host : Host) (now : ℕ) (input : MlsCommitBundleInput) (epoch : ℕ) (t u : Tables)
    (r : MlsCommitBundleResult)
    → store_commit host now input epoch t ≡ ok (u, r)
    → Accepted now input epoch t u r
unfolding store_commit insert_mls_message
store_commit-Accepted host now input epoch t u r h =
    let ((logged, commit), one, next) =
      >>=-eq-ok (insert_mls_message host "" (commit_row now input) t) _ h in
    let ((joined, welcomes), others, end) =
      >>=-eq-ok
        (welcome_devices host now input commit.sync_event_id (epoch + 1) input.added
          (move_group now input commit.sync_event_id logged))
        _ next in
    let stored = insert_row-Stored host none none (commit_row now input) commit t logged one in
    let (sent, rows, kinds) =
      welcome_devices-Welcomed host now input commit.sync_event_id (epoch + 1) input.added _ joined
        welcomes others in
    let (moved_groups, moved_devices, moved_memberships, moved_messages, moved_rows) =
      move_group-fields now input commit.sync_event_id logged in
    let k = close_commit-KeepsMessages now input epoch commit joined welcomes in
    ok-subst (λ (x : Tables × MlsCommitBundleResult). Accepted now input epoch t x.0 x.1)
      (close_commit now input epoch commit joined welcomes) (u, r) end
      record {
        commit = commit;
        welcomes = welcomes;
        groups =
            rw (k.rest.groups, sent.groups, moved_groups)
              (ap (advance_epoch input.conversation_id now) stored.keeps.groups);
        devices = rw (k.rest.devices, sent.devices, moved_devices) stored.keeps.devices;
        memberships =
            rw (k.rest.memberships, sent.memberships, moved_memberships) stored.keeps.memberships;
        roster = rw (k.rest.roster, rows, moved_rows, stored.keeps.roster) refl;
        messages =
            rw (k.messages, sent.messages, moved_messages, stored.messages)
              (append_assoc t.mls_messages (commit ∷ []) welcomes);
        kinds = kinds;
        free = stored.free;
        is_row = stored.is_row;
        result = close_commit-result now input epoch commit joined welcomes;
      }
