-- ===== src/Storage/Mls/Single.antt =====
-- What a single message changes, for a group without a roster.
use veritra.Prelude.{
  ℕ, ◌≡◌, inl, inr, refl, ap, sym, ◌∙◌, String, true, false, not, ◌&&◌, Option, none, some, List,
  [], ◌∷◌, ◌++◌, All, str_eq, eq_iff, arith, Bool-cases, Option-cases, append-nil,
}
use veritra.Prelude.Rows.{find, count, count-append}
use veritra.Storage.{
  ok, Host, refuse_if-passed, >>=-eq-ok, ok-subst, err_not_ok, invalid_input, not_member,
  mls_bundle_required, forbidden, idempotency_conflict,
}
use veritra.Storage.Tables.{Tables, MlsMessage, is_null}
use veritra.Storage.Mls.Revocations.{mls_group_epoch, is_rostered, mls_revocation_commit_allowed}
use veritra.Storage.Mls.Messages.{is_sender, insert_row, has_key}
use veritra.Storage.Mls.Bundle.{
  CreateMlsMessageInput, create_mls_message, trimmed_message, accept_message, first_message,
  store_message, message_is_malformed, same_message, message_row, recipient_account,
}
use veritra.Storage.Mls.Commit.{submit_revocation}
use veritra.Storage.Mls.Frames.{insert_row-Stored, submit_revocation-KeepsMessages}
use veritra.Storage.Mls.Counts.{CountsCommits, is_commit_of}

-- A single message: the groups stay, and at most one row is added, for its conversation.
pub record Messaged (conversation : String) (t u : Tables) : Type 0 where
  pub groups : u.mls_groups ≡ t.mls_groups
  pub sent : List MlsMessage
  pub messages : u.mls_messages ≡ t.mls_messages ++ sent
  pub where_sent : All (λ m. m.conversation_id ≡ conversation) sent

store_message-Messaged :
    (host : Host) (now : ℕ) (input : CreateMlsMessageInput) (account : Option String) (t u : Tables)
    (result : MlsMessage × ℕ)
    → store_message host now input account t ≡ ok (u, result)
    → Messaged input.conversation_id t u
unfolding store_message
store_message-Messaged host now input account t u result h =
    let ((logged, message), one, done) =
      >>=-eq-ok (insert_row host account none (message_row now input) t) _ h in
    let stored = insert_row-Stored host account none (message_row now input) message t logged one in
    let k =
      submit_revocation-KeepsMessages input.conversation_id input.revocation_device_id
        input.sender_device_id message.id now logged in
    let (after, event) =
      submit_revocation input.conversation_id input.revocation_device_id input.sender_device_id
        message.id now logged in
    ok-subst (λ (x : Tables × (MlsMessage × ℕ)). Messaged input.conversation_id t x.0)
      (after, (message, event)) (u, result) done
      record {
        groups = k.rest.groups ∙ stored.keeps.groups;
        sent = message ∷ [];
        messages = k.messages ∙ stored.messages;
        where_sent = (ap (λ (m : MlsMessage). m.conversation_id) stored.is_row, tt);
      }

first_message-Messaged :
    (host : Host) (now : ℕ) (input : CreateMlsMessageInput) (t u : Tables) (result : MlsMessage × ℕ)
    → first_message host now input t ≡ ok (u, result)
    → Messaged input.conversation_id t u
unfolding first_message
first_message-Messaged host now input t u result h =
    let (allowed, h1) =
      refuse_if-passed
        (not (str_eq input.revocation_device_id "")
          && not (
              mls_revocation_commit_allowed host t input.conversation_id input.revocation_device_id
                input.sender_device_id))
        forbidden _ h in
    elim (Bool-cases (str_eq input.recipient_device_id "")) [
      | inl e ↦ store_message-Messaged host now input none t u result (rw e at h1)
      | inr e ↦
          elim (Option-cases
            (recipient_account t input.conversation_id input.recipient_device_id)) [
              | inl f ↦ absurd (err_not_ok forbidden (u, result) (rw (e, f) at h1))
              | inr (d, f) ↦
                  store_message-Messaged host now input (some d.account_id) t u result
                    (rw (e, f) at h1)
            ]
    ]

-- A message that is accepted is a retry, or it is for a group without a roster.
pub create_mls_message-Messaged :
    (host : Host) (now : ℕ) (input : CreateMlsMessageInput) (t u : Tables) (result : MlsMessage × ℕ)
    → create_mls_message host now input t ≡ ok (u, result)
    → (conversation : String) × (is_rostered t conversation ≡ false) × Messaged conversation t u
unfolding create_mls_message accept_message
create_mls_message-Messaged host now raw t u result h =
    let input = trimmed_message host raw in
    let (formed, h1) = refuse_if-passed (message_is_malformed host input) invalid_input _ h in
    let (sender, h2) =
      refuse_if-passed
        (not (is_sender t input.conversation_id input.sender_account_id input.sender_device_id))
        not_member _ h1 in
    let (unrostered, h3) =
      refuse_if-passed (is_rostered t input.conversation_id) mls_bundle_required _ h2 in
    (
      input.conversation_id,
      unrostered,
      elim (Option-cases
          (find (has_key input.sender_device_id input.idempotency_key) t.mls_messages)) [
            | inl e ↦ first_message-Messaged host now input t u result (rw e at h3)
            | inr (existing, e) ↦ elim (Bool-cases (same_message existing input)) [
              | inl s ↦
                  ok-subst (λ (x : Tables × (MlsMessage × ℕ)). Messaged input.conversation_id t x.0)
                    (t, (existing, 0)) (u, result) (rw (e, s) at h3)
                    record {
                      groups = refl;
                      sent = [];
                      messages = sym (append-nil t.mls_messages);
                      where_sent = tt;
                    }
              | inr s ↦ absurd (err_not_ok idempotency_conflict (u, result) (rw (e, s) at h3))
            ]
          ],
    )

sent_elsewhere :
    (conversation other : String) (sent : List MlsMessage)
    → str_eq conversation other ≡ false
    → All (λ m. m.conversation_id ≡ conversation) sent
    → count (is_commit_of other) sent ≡ 0
unfolding count
sent_elsewhere conversation other [] d h = refl
sent_elsewhere conversation other (m ∷ sent) d (here, rest) =
    rw (here, d, sent_elsewhere conversation other sent d rest) refl

pub Messaged-CountsCommits :
    (conversation : String) (t u : Tables)
    → is_rostered t conversation ≡ false
    → Messaged conversation t u
    → CountsCommits t
    → CountsCommits u
unfolding mls_group_epoch
Messaged-CountsCommits conversation t u unrostered m v other epoch h =
    let before : mls_group_epoch t other ≡ some epoch = rw m.groups at h in
    elim (Bool-cases (str_eq conversation other)) [
      | inl e ↦
          let here = (eq_iff conversation other).0 e in
          let rostered : is_rostered t conversation ≡ true =
            ap (λ o. not (is_null o)) (ap (mls_group_epoch t) here ∙ before) in
          absurd (cc (rostered, unrostered))
      | inr e ↦
          ap (count (is_commit_of other)) m.messages
          ∙ count-append (is_commit_of other) t.mls_messages m.sent
          ∙ omega
              (arith, sent_elsewhere conversation other m.sent e m.where_sent, v other epoch before)
    ]
