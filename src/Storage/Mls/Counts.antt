-- ===== src/Storage/Mls/Counts.antt =====
-- The commits that are stored for a group, which its epoch counts.
use veritra.Prelude.{
  ℕ, ◌+◌, ◌≡◌, inl, inr, refl, ap, sym, ◌∙◌, String, Bool, true, false, not, ◌&&◌, ◌||◌, some, List,
  [], ◌∷◌, All, if◌then◌else◌, str_eq, eq_iff, arith, Bool-cases, Option-cases,
}
use veritra.Prelude.Rows.{any, count, count-append}
use veritra.Storage.{
  ok, Host, refuse_if-passed, ok-subst, mls_not_in_group, mls_group_legacy, mls_epoch_conflict,
}
use veritra.Storage.Tables.{Tables, MlsMessage}
use veritra.Storage.Mls.Revocations.{
  mls_group_epoch, has_mls_messages, drop_stale_mls_revocations, active_mls_device,
}
use veritra.Storage.Mls.Messages.{
  MlsCommitBundleInput, MlsCommitBundleResult, is_epoch, has_any, has_commit, update_only, trimmed,
}
use veritra.Storage.Mls.Bundle.{
  open_group, create_group, change_group, first_commit, without_commit, create_mls_commit_bundle,
}
use veritra.Storage.Mls.Accepted.{Accepted}
use veritra.Storage.Mls.Fresh.{
  Start, stands, is_new, Fresh, first_commit-Fresh, accept_bundle-cases,
}
use veritra.Storage.Mls.Epochs.{
  retry_commit-result, Start-epoch, Fresh-epoch, mls_group_epoch-open_group,
}

abbrev pub is_commit_of : String → MlsMessage → Bool
is_commit_of conversation m = str_eq m.conversation_id conversation && str_eq m.kind "commit"

-- The epoch of a group is the number of its stored commits.
abbrev pub CountsCommits : Tables → Type 0
CountsCommits t =
    (conversation : String) (epoch : ℕ)
    → mls_group_epoch t conversation ≡ some epoch
    → count (is_commit_of conversation) t.mls_messages ≡ epoch

welcomes_no_commits :
    (conversation : String) (sent : List MlsMessage)
    → All (λ m. m.kind ≡ "welcome") sent
    → count (is_commit_of conversation) sent ≡ 0
unfolding count
welcomes_no_commits conversation [] h = refl
welcomes_no_commits conversation (m ∷ sent) (kind, kinds) =
    elim (Bool-cases (str_eq m.conversation_id conversation)) [
      | inl e ↦ rw (e, kind, welcomes_no_commits conversation sent kinds) refl
      | inr e ↦ rw (e, welcomes_no_commits conversation sent kinds) refl
    ]

no_messages_no_commits :
    (conversation : String) (ms : List MlsMessage)
    → any (λ m. str_eq m.conversation_id conversation) ms ≡ false
    → count (is_commit_of conversation) ms ≡ 0
unfolding count any
no_messages_no_commits conversation [] h = refl
no_messages_no_commits conversation (m ∷ ms) h =
    ground (arith, no_messages_no_commits conversation ms)

one_commit :
    (conversation : String) (m : MlsMessage)
    → m.kind ≡ "commit"
    → is_commit_of conversation m ≡ str_eq m.conversation_id conversation
one_commit conversation m k = elim (Bool-cases (str_eq m.conversation_id conversation)) [
  | inl e ↦ rw (e, k) refl
  | inr e ↦ rw e refl
]

some_injective : (m n : ℕ) → some m ≡ some n → m ≡ n
some_injective m n h = cc

open_group-CountsCommits :
    (now : ℕ) (input : MlsCommitBundleInput) (t : Tables)
    → CountsCommits t
    → has_mls_messages t input.conversation_id ≡ false
    → CountsCommits (open_group now input t)
unfolding open_group drop_stale_mls_revocations has_mls_messages
open_group-CountsCommits now input t v unused conversation epoch h =
    let h' = sym (mls_group_epoch-open_group now input conversation t) ∙ h in
    elim (Bool-cases (str_eq input.conversation_id conversation)) [
      | inl e ↦
          let here = (eq_iff input.conversation_id conversation).0 e in
          ap (λ c. count (is_commit_of c) t.mls_messages) (sym here)
          ∙ no_messages_no_commits input.conversation_id t.mls_messages unused
          ∙ some_injective 0 epoch (rw e at h')
      | inr e ↦ v conversation epoch (rw e at h')
    ]

Start-CountsCommits :
    (now : ℕ) (input : MlsCommitBundleInput) (epoch : ℕ) (t base : Tables)
    → Start now input t epoch base
    → CountsCommits t
    → CountsCommits base
Start-CountsCommits now input epoch t base (stands _ e _) v = v
Start-CountsCommits now input _ t _ (is_new e unused) v =
    open_group-CountsCommits now input t v unused

-- The commit counts, and nothing else that is stored with it.
Accepted-count :
    (now : ℕ) (input : MlsCommitBundleInput) (epoch : ℕ) (t u : Tables) (r : MlsCommitBundleResult)
    (conversation : String)
    → Accepted now input epoch t u r
    → count (is_commit_of conversation) u.mls_messages
      ≡ count (is_commit_of conversation) t.mls_messages
        + (if str_eq input.conversation_id conversation then 1 else 0)
unfolding count
Accepted-count now input epoch t u r conversation a =
    let one =
      one_commit conversation a.commit (ap (λ (m : MlsMessage). m.kind) a.is_row)
      ∙ ap (λ (m : MlsMessage). str_eq m.conversation_id conversation) a.is_row in
    ap (count (is_commit_of conversation)) a.messages
    ∙ count-append (is_commit_of conversation) t.mls_messages (a.commit ∷ a.welcomes)
    ∙ ap (λ n. count (is_commit_of conversation) t.mls_messages + n)
        (rw (one, welcomes_no_commits conversation a.welcomes a.kinds) (omega arith))

Fresh-CountsCommits :
    (now : ℕ) (input : MlsCommitBundleInput) (t u : Tables) (r : MlsCommitBundleResult)
    → Fresh now input t u r
    → CountsCommits t
    → CountsCommits u
Fresh-CountsCommits now input t u r f v conversation epoch h =
    let base = Start-CountsCommits now input f.epoch t f.base f.start v in
    let (base_epoch, was, others) = Start-epoch now input f.epoch t f.base f.start in
    let (at_epoch, answered, after, elsewhere) = Fresh-epoch now input t u r f in
    let more = Accepted-count now input f.epoch f.base u r conversation f.submitted.accepted in
    elim (Bool-cases (str_eq input.conversation_id conversation)) [
      | inl e ↦
          let here = (eq_iff input.conversation_id conversation).0 e in
          let counted =
            base conversation f.epoch (ap (mls_group_epoch f.base) (sym here) ∙ base_epoch) in
          more
          ∙ rw (e, counted)
              (sym (ap (λ n. n + 1) was)
                ∙ some_injective _ epoch (sym after ∙ ap (mls_group_epoch u) here ∙ h))
      | inr e ↦
          more
          ∙ rw e (
              omega (
                arith,
                base conversation epoch
                    (others conversation e ∙ sym (elsewhere conversation e) ∙ h),
              ))
    ]

-- Without a commit a bundle opens a group or leaves the tables.
no_commit-CountsCommits :
    (host : Host) (minutes now : ℕ) (input : MlsCommitBundleInput) (t u : Tables)
    (r : MlsCommitBundleResult)
    → has_commit input ≡ false
    → first_commit host minutes now input t ≡ ok (u, r)
    → CountsCommits t
    → CountsCommits u
unfolding first_commit create_group change_group
no_commit-CountsCommits host minutes now input t u r c h v =
    elim (Option-cases (mls_group_epoch t input.conversation_id)) [
      | inl e ↦
          let h0 : create_group host minutes now input t ≡ ok (u, r) = rw (e, first_commit) at h in
          let (some_change, h1) = refuse_if-passed (update_only input) mls_not_in_group _ h0 in
          let (unused, h2) =
            refuse_if-passed (has_mls_messages t input.conversation_id) mls_group_legacy _ h1 in
          let (at_zero, h3) =
            refuse_if-passed
              (not (is_epoch 0 input.epoch)
                || (has_any input.removed || not (str_eq input.revocation_device_id "")))
              mls_epoch_conflict _ h2 in
          ok-subst (λ (x : Tables × MlsCommitBundleResult). CountsCommits x.0)
            (open_group now input t, without_commit 0 false) (u, r) (rw c at h3)
            (open_group-CountsCommits now input t v unused)
      | inr (epoch, e) ↦
          let h0 : change_group host minutes now input epoch t ≡ ok (u, r) =
            rw (e, first_commit) at h in
          let (inside, h1) =
            refuse_if-passed
              (not (active_mls_device t input.conversation_id input.sender_device_id))
              mls_not_in_group _ h0 in
          ok-subst (λ (x : Tables × MlsCommitBundleResult). CountsCommits x.0)
            (t, without_commit epoch true) (u, r) (rw c at h1) v
    ]

pub bundle-CountsCommits :
    (host : Host) (minutes now : ℕ) (input : MlsCommitBundleInput) (t u : Tables)
    (r : MlsCommitBundleResult)
    → create_mls_commit_bundle host minutes now input t ≡ ok (u, r)
    → CountsCommits t
    → CountsCommits u
unfolding create_mls_commit_bundle
bundle-CountsCommits host minutes now input t u r h v =
    elim (accept_bundle-cases host minutes now (trimmed host input) t u r h).3 [
      | inl again ↦
          let (same, result) =
            retry_commit-result (trimmed host input) again.existing t u r again.retry in
          rw same v
      | inr (new, first) ↦ elim (Bool-cases (has_commit (trimmed host input))) [
        | inl c ↦
            Fresh-CountsCommits now (trimmed host input) t u r
              (first_commit-Fresh host minutes now (trimmed host input) t u r c first) v
        | inr c ↦ no_commit-CountsCommits host minutes now (trimmed host input) t u r c first v
      ]
    ]
