-- ===== src/Storage/Mls/Epochs.antt =====
-- The epochs of the groups after a commit bundle.
use text.Mathlib.TextPositions.{eq_refl}
use veritra.Prelude.{
  ℕ, ◌+◌, ◌≡◌, inl, inr, refl, not, ◌||◌, ap, ◌∙◌, String, true, false, Option, none, some,
  if◌then◌else◌, str_eq, ==→eq, Bool-cases,
}
use veritra.Prelude.GoMap.{Map, lookup, insert, lookup-insert}
use veritra.Prelude.Rows.{bytes_equal}
use veritra.Storage.{ok, Host, ok-subst, refuse_if-passed, idempotency_conflict}
use veritra.Storage.Tables.{Tables, MlsGroup, MlsMessage}
use veritra.Storage.Mls.Revocations.{epoch_in, mls_group_epoch, drop_stale_mls_revocations}
use veritra.Storage.Mls.Messages.{
  ℤ, pos, negsuc, is_epoch, MlsCommitBundleInput, MlsCommitBundleResult, has_commit, trimmed,
}
use veritra.Storage.Mls.Commit.{advance_epoch, advanced}
use veritra.Storage.Mls.Bundle.{
  or_zero, open_group, create_mls_commit_bundle, retry_commit, stored_result,
}
use veritra.Storage.Mls.Fresh.{
  Start, stands, is_new, Fresh, first_commit-Fresh, accept_bundle-cases,
}

advance_epoch-present :
    (conversation : String) (now : ℕ) (groups : Map MlsGroup) (g : MlsGroup)
    → lookup conversation groups ≡ some g
    → advance_epoch conversation now groups ≡ insert conversation (advanced now (some g)) groups
unfolding advance_epoch
advance_epoch-present conversation now groups g e = rw (e, advance_epoch) refl

-- An insert under one conversation, seen from another.
epoch_in-insert :
    (conversation other : String) (g : MlsGroup) (groups : Map MlsGroup)
    → epoch_in (lookup other (insert conversation g groups))
      ≡ (if str_eq conversation other then some g.epoch else epoch_in (lookup other groups))
epoch_in-insert conversation other g groups =
    rw lookup-insert
      (elim (Bool-cases (str_eq conversation other)) [ inl b ↦ rw b refl | inr b ↦ rw b refl ])

epoch_in_present :
    (o : Option MlsGroup) (epoch : ℕ)
    → epoch_in o ≡ some epoch
    → (g : MlsGroup) × (o ≡ some g) × (g.epoch ≡ epoch)
epoch_in_present none epoch h = absurd cc
epoch_in_present (some g) epoch h = (g, refl, cc)

pub mls_group_epoch-advance :
    (conversation other : String) (now epoch : ℕ) (t u : Tables)
    → u.mls_groups ≡ advance_epoch conversation now t.mls_groups
    → mls_group_epoch t conversation ≡ some epoch
    → mls_group_epoch u other
      ≡ (if str_eq conversation other then some (epoch + 1) else mls_group_epoch t other)
unfolding mls_group_epoch
mls_group_epoch-advance conversation other now epoch t u moved e =
    let (g, there, is_epoch) = epoch_in_present (lookup conversation t.mls_groups) epoch e in
    ap (λ groups. epoch_in (lookup other groups))
      (moved ∙ advance_epoch-present conversation now t.mls_groups g there)
    ∙ epoch_in-insert conversation other (advanced now (some g)) t.mls_groups
    ∙ ap (λ n. if str_eq conversation other then some (n + 1) else mls_group_epoch t other) is_epoch

pub mls_group_epoch-open_group :
    (now : ℕ) (input : MlsCommitBundleInput) (other : String) (t : Tables)
    → mls_group_epoch (open_group now input t) other
      ≡ (if str_eq input.conversation_id other then some 0 else mls_group_epoch t other)
unfolding mls_group_epoch open_group drop_stale_mls_revocations
mls_group_epoch-open_group now input other t =
    epoch_in-insert input.conversation_id other (advanced now none) t.mls_groups

-- The group of the base tables of a commit: nothing but a new group is different.
pub Start-epoch :
    (now : ℕ) (input : MlsCommitBundleInput) (epoch : ℕ) (t base : Tables)
    → Start now input t epoch base
    → (mls_group_epoch base input.conversation_id ≡ some epoch)
      × (or_zero (mls_group_epoch t input.conversation_id) ≡ epoch)
      × ((other : String)
          → str_eq input.conversation_id other ≡ false
          → mls_group_epoch base other ≡ mls_group_epoch t other)
Start-epoch now input epoch t base (stands _ e _) = (e, ap or_zero e, λ other d. refl)
Start-epoch now input _ t _ (is_new e _) = (
  rw (mls_group_epoch-open_group, eq_refl) refl,
  ap or_zero e,
  λ other d. mls_group_epoch-open_group now input other t ∙ rw d refl,
)

pub Fresh-epoch :
    (now : ℕ) (input : MlsCommitBundleInput) (t u : Tables) (r : MlsCommitBundleResult)
    → Fresh now input t u r
    → let epoch = or_zero (mls_group_epoch t input.conversation_id) in
      (is_epoch epoch input.epoch ≡ true)
      × (r.epoch ≡ epoch + 1)
      × (mls_group_epoch u input.conversation_id ≡ some (epoch + 1))
      × ((other : String)
          → str_eq input.conversation_id other ≡ false
          → mls_group_epoch u other ≡ mls_group_epoch t other)
Fresh-epoch now input t u r f =
    let (base_epoch, was, others) = Start-epoch now input f.epoch t f.base f.start in
    let moved = λ (other : String).
      mls_group_epoch-advance input.conversation_id other now f.epoch f.base u
        f.submitted.accepted.groups base_epoch in
    (
      rw was f.at_epoch,
      rw was f.submitted.accepted.result.1,
      moved input.conversation_id ∙ rw (eq_refl, was) refl,
      λ other d. moved other ∙ rw d (others other d),
    )

-- A retry writes nothing, and its result says so.
pub retry_commit-result :
    (input : MlsCommitBundleInput) (existing : MlsMessage) (t u : Tables)
    (r : MlsCommitBundleResult)
    → retry_commit existing input t ≡ ok (u, r)
    → (u ≡ t) × (r ≡ stored_result existing input t)
unfolding retry_commit
retry_commit-result input existing t u r h =
    let (matches, done) =
      refuse_if-passed
        (not (str_eq existing.conversation_id input.conversation_id)
          || (not (str_eq existing.kind "commit")
              || not (bytes_equal existing.payload input.commit)))
        idempotency_conflict _ h in
    ok-subst
      (λ (x : Tables × MlsCommitBundleResult). (x.0 ≡ t) × (x.1 ≡ stored_result existing input t))
      (t, stored_result existing input t) (u, r) done (refl, refl)

pub is_epoch→eq : (epoch : ℕ) (given : ℤ) → is_epoch epoch given ≡ true → given ≡ pos epoch
is_epoch→eq epoch (pos n) h = ap pos (==→eq n epoch h)
is_epoch→eq epoch (negsuc n) h = absurd cc

-- A commit that is accepted, and is no retry, was made on the epoch of its group, 0 for a new
-- group; the answer has the next epoch, the group moves to it, and the epoch of every other group
-- stays.
pub create_mls_commit_bundle-epoch :
    (host : Host) (minutes now : ℕ) (input : MlsCommitBundleInput) (t u : Tables)
    (r : MlsCommitBundleResult)
    → create_mls_commit_bundle host minutes now input t ≡ ok (u, r)
    → has_commit input ≡ true
    → r.duplicate ≡ false
    → let conversation = host.trim_space input.conversation_id in
      let epoch = or_zero (mls_group_epoch t conversation) in
      (input.epoch ≡ pos epoch)
      × (r.epoch ≡ epoch + 1)
      × (mls_group_epoch u conversation ≡ some (epoch + 1))
      × ((other : String)
          → str_eq conversation other ≡ false
          → mls_group_epoch u other ≡ mls_group_epoch t other)
unfolding create_mls_commit_bundle
create_mls_commit_bundle-epoch host minutes now input t u r h c d =
    elim (accept_bundle-cases host minutes now (trimmed host input) t u r h).3 [
      | inl again ↦
          let (same, result) =
            retry_commit-result (trimmed host input) again.existing t u r again.retry in
          absurd (cc (d, ap (λ (x : MlsCommitBundleResult). x.duplicate) result))
      | inr (new, first) ↦
          let (at_epoch, answered, after, others) =
            Fresh-epoch now (trimmed host input) t u r
              (first_commit-Fresh host minutes now (trimmed host input) t u r c first) in
          (is_epoch→eq _ input.epoch at_epoch, answered, after, others)
    ]
