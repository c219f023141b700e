-- ===== src/Storage/Mls/Roster.antt =====
-- Who stays in the roster of a group when a commit is accepted.
use veritra.Prelude.{
  ℕ, ◌+◌, ◌≡◌, inl, inr, refl, ap, sym, ◌∙◌, String, Bool, true, false, not, ◌&&◌, ◌||◌, some, List,
  [], ◌∷◌, str_eq, eq_iff, arith, Bool-cases, if_cases,
}
use veritra.Prelude.Rows.{any, find, update, any-append, any-update, find-append_some, any_found}
use veritra.Storage.{ok, Host, refuse_if-passed, forbidden}
use veritra.Storage.Tables.{Tables, MlsDevice, is_member, is_live}
use veritra.Storage.Mls.Revocations.{active_mls_device, is_active_row, drop_stale_mls_revocations}
use veritra.Storage.Mls.Messages.{
  MlsDeviceRef, MlsCommitBundleInput, MlsCommitBundleResult, is_listed, has_commit, trimmed,
  check_removed, is_row_of, is_removable, revocation_is_pending, update_only, is_roster_row,
}
use veritra.Storage.Mls.Commit.{
  remove_devices, taken_out, join_device, joined, new_row, record_self_update, self_updated,
}
use veritra.Storage.Mls.Bundle.{open_group, create_mls_commit_bundle}
use veritra.Storage.Mls.Frames.{joined_rows}
use veritra.Storage.Mls.Fresh.{
  Start, stands, is_new, Fresh, first_commit-Fresh, accept_bundle-cases,
}
use veritra.Storage.Mls.Epochs.{retry_commit-result}
use veritra.Storage.Mls.Retry.{Start-rest}

row_is_of :
    (account : String) (row : MlsDevice)
    → not (is_row_of account (some row)) ≡ false
    → row.account_id ≡ account
row_is_of account row h = (eq_iff row.account_id account).0 (ground arith)

kept_or_removed :
    (member live : Bool) → member ≡ true → live ≡ true → not (not member || not live) ≡ false → ⊥
kept_or_removed member live m l h = ground arith

-- A device that a member has, and that is live, is not in a list that passed the check.
check_removed-spares :
    (conversation revocation device : String) (t : Tables) (refs : List MlsDeviceRef)
    (row : MlsDevice)
    → check_removed conversation revocation t refs ≡ ok tt
    → find (is_active_row conversation device) t.mls_devices ≡ some row
    → is_member t conversation row.account_id ≡ true
    → is_live t device ≡ true
    → is_listed device refs ≡ false
unfolding check_removed any
check_removed-spares conversation revocation device t [] row h there member live = refl
check_removed-spares conversation revocation device t (ref ∷ refs) row h there member live =
    let (of_row, h1) =
      refuse_if-passed
        (not (
          is_row_of ref.account_id (find (is_active_row conversation ref.device_id) t.mls_devices)))
        forbidden _ h in
    let (wanted, h2) = refuse_if-passed (not (is_removable t conversation ref)) forbidden _ h1 in
    let (released, h3) =
      refuse_if-passed
        (revocation_is_pending t conversation ref.device_id
          && not (str_eq ref.device_id revocation))
        forbidden _ h2 in
    let rest =
      check_removed-spares conversation revocation device t refs row h3 there member live in
    elim (Bool-cases (str_eq ref.device_id device)) [
      | inl e ↦
          let same = (eq_iff ref.device_id device).0 e in
          let owner = row_is_of ref.account_id row (rw (same, there) at of_row) in
          absurd (
            kept_or_removed (is_member t conversation ref.account_id) (is_live t ref.device_id)
              (ap (is_member t conversation) (sym owner) ∙ member) (ap (is_live t) same ∙ live)
              wanted)
      | inr e ↦ rw (e, rest) refl
    ]

-- Taking out the listed devices leaves the other ones, and the other groups.
remove_devices-active :
    (conversation other device : String) (event : ℕ) (refs : List MlsDeviceRef)
    (rows : List MlsDevice)
    → (str_eq conversation other && is_listed device refs) ≡ false
    → any (is_active_row other device) (remove_devices conversation event refs rows)
      ≡ any (is_active_row other device) rows
unfolding remove_devices any is_active_row
remove_devices-active conversation other device event [] rows h = refl
remove_devices-active conversation other device event (ref ∷ refs) rows h =
    remove_devices-active conversation other device event refs _ (ground arith)
    ∙ any-update (is_active_row other device) (is_active_row conversation ref.device_id)
        (taken_out event) rows
        (λ r p. ground (
          arith,
          eq_iff r.device_id ref.device_id,
          eq_iff r.conversation_id conversation,
          eq_iff ref.device_id device,
          eq_iff conversation other,
        ))

-- An update under which an answer stays true.
any-update_keeps :
    (q p : MlsDevice → Bool) (f : MlsDevice → MlsDevice) (rows : List MlsDevice)
    → ((r : MlsDevice) → p r ≡ true → q r ≡ true → q (f r) ≡ true)
    → any q rows ≡ true
    → any q (update p f rows) ≡ true
unfolding any update
any-update_keeps q p f [] keeps h = cc
any-update_keeps q p f (r ∷ rows) keeps h =
    ground (arith, any-update_keeps q p f rows keeps, keeps r)

join_device-active :
    (conversation other device : String) (event epoch : ℕ) (ref : MlsDeviceRef)
    (rows : List MlsDevice)
    → any (is_active_row other device) rows ≡ true
    → any (is_active_row other device) (join_device conversation event epoch ref rows) ≡ true
unfolding join_device is_active_row
join_device-active conversation other device event epoch ref rows h =
    if_cases (λ out. any (is_active_row other device) out ≡ true)
      (any (is_roster_row conversation ref.device_id) rows) _ _
      (λ e.
        any-update_keeps (is_active_row other device) (is_roster_row conversation ref.device_id)
          (joined event epoch ref) rows (λ r p q. ground arith) h)
      (λ e.
        any-append (is_active_row other device) rows (new_row conversation event epoch ref ∷ [])
        ∙ rw h refl)

joined_rows-active :
    (conversation other device : String) (event epoch : ℕ) (refs : List MlsDeviceRef)
    (rows : List MlsDevice)
    → any (is_active_row other device) rows ≡ true
    → any (is_active_row other device) (joined_rows conversation event epoch refs rows) ≡ true
joined_rows-active conversation other device event epoch [] rows h = h
joined_rows-active conversation other device event epoch (ref ∷ refs) rows h =
    joined_rows-active conversation other device event epoch refs _
      (join_device-active conversation other device event epoch ref rows h)

record_self_update-active :
    (now : ℕ) (input : MlsCommitBundleInput) (other device : String) (rows : List MlsDevice)
    → any (is_active_row other device) (record_self_update now input rows)
      ≡ any (is_active_row other device) rows
unfolding record_self_update is_active_row
record_self_update-active now input other device rows =
    if_cases (λ out. any (is_active_row other device) out ≡ any (is_active_row other device) rows)
      (update_only input) _ _
      (λ e.
        any-update (is_active_row other device)
          (is_roster_row input.conversation_id input.sender_device_id) (self_updated now) rows
          (λ r p. refl))
      (λ e. refl)

-- The base tables have the rows of the tables, and the accounts and the devices.
Start-row :
    (now : ℕ) (input : MlsCommitBundleInput) (epoch : ℕ) (t base : Tables) (p : MlsDevice → Bool)
    (row : MlsDevice)
    → Start now input t epoch base
    → find p t.mls_devices ≡ some row
    → find p base.mls_devices ≡ some row
unfolding open_group drop_stale_mls_revocations
Start-row now input epoch t base p row (stands _ e _) there = there
Start-row now input _ t _ p row (is_new e _) there = find-append_some p t.mls_devices _ row there

is_member-congr :
    (t u : Tables) (conversation account : String)
    → u.memberships ≡ t.memberships
    → is_member u conversation account ≡ is_member t conversation account
unfolding is_member
is_member-congr t u conversation account m = rw m refl

is_live-congr :
    (t u : Tables) (device : String) → u.devices ≡ t.devices → is_live u device ≡ is_live t device
unfolding is_live
is_live-congr t u device d = rw d refl

Fresh-keeps_members :
    (now : ℕ) (input : MlsCommitBundleInput) (t u : Tables) (r : MlsCommitBundleResult)
    (other device : String) (row : MlsDevice)
    → Fresh now input t u r
    → find (is_active_row other device) t.mls_devices ≡ some row
    → is_member t other row.account_id ≡ true
    → is_live t device ≡ true
    → any (is_active_row other device) u.mls_devices ≡ true
Fresh-keeps_members now input t u r other device row f there member live =
    let a = f.submitted.accepted in
    let (devices, memberships, messages) = Start-rest now input f.epoch t f.base f.start in
    let base_row = Start-row now input f.epoch t f.base _ row f.start there in
    ap (any (is_active_row other device)) a.roster
    ∙ joined_rows-active input.conversation_id other device a.commit.sync_event_id (f.epoch + 1)
        input.added _
        (remove_devices-active input.conversation_id other device a.commit.sync_event_id
            input.removed _
            (elim (Bool-cases (str_eq input.conversation_id other)) [
              | inl e ↦
                  let here = (eq_iff input.conversation_id other).0 e in
                  rw e (
                    check_removed-spares input.conversation_id input.revocation_device_id device
                      f.base input.removed row f.submitted.removed
                      (ap (λ c. find (is_active_row c device) f.base.mls_devices) here ∙ base_row)
                      (is_member-congr t f.base input.conversation_id row.account_id memberships
                        ∙ ap (λ c. is_member t c row.account_id) here
                        ∙ member)
                      (is_live-congr t f.base device devices ∙ live))
              | inr e ↦ rw e refl
            ])
          ∙ record_self_update-active now input other device f.base.mls_devices
          ∙ any_found (is_active_row other device) f.base.mls_devices row base_row)

-- An accepted commit, for whichever conversation, leaves in the roster every active device whose
-- account is a member of its conversation and which is not revoked.
pub create_mls_commit_bundle-keeps_members :
    (host : Host) (minutes now : ℕ) (input : MlsCommitBundleInput) (t u : Tables)
    (r : MlsCommitBundleResult) (conversation device : String) (row : MlsDevice)
    → create_mls_commit_bundle host minutes now input t ≡ ok (u, r)
    → has_commit input ≡ true
    → find (is_active_row conversation device) t.mls_devices ≡ some row
    → is_member t conversation row.account_id ≡ true
    → is_live t device ≡ true
    → active_mls_device u conversation device ≡ true
unfolding create_mls_commit_bundle active_mls_device
create_mls_commit_bundle-keeps_members host minutes now input t u r conversation device row h c
      there member live =
    elim (accept_bundle-cases host minutes now (trimmed host input) t u r h).3 [
      | inl again ↦
          let (same, result) =
            retry_commit-result (trimmed host input) again.existing t u r again.retry in
          rw same (any_found (is_active_row conversation device) t.mls_devices row there)
      | inr (new, first) ↦
          Fresh-keeps_members now (trimmed host input) t u r conversation device row
            (first_commit-Fresh host minutes now (trimmed host input) t u r c first) there member
            live
    ]
