-- ===== src/Storage/Mls/Frames.antt =====
-- What each write of a commit leaves as it was.
use veritra.Prelude.{
  All, sym, ℕ, ◌≡◌, refl, ◌∙◌, String, false, List, [], ◌∷◌, ◌++◌, Option, append_assoc, append-nil,
  ap, str_eq, Bool-cases, inl, inr, arith,
}
use veritra.Prelude.Rows.{any}
use veritra.Storage.{ok, Host, >>=-eq-ok, ok-subst}
use veritra.Storage.Tables.{Tables, MlsMessage, MlsDevice}
use veritra.Storage.Mls.Revocations.{
  insert_sync_event, complete_mls_revocation_if_confirmed, drop_stale_mls_revocations,
}
use veritra.Storage.Mls.Messages.{
  MlsDeviceRef, MlsCommitBundleInput, insert_row, insert_mls_message, nonempty, has_key,
}
use veritra.Storage.Mls.Commit.{
  welcome_device, welcome_devices, welcome_row, join_device, submit_revocation,
}

-- The tables that the writes about revocations and messages leave alone.
pub record Keeps (t u : Tables) : Type 0 where
  pub groups : u.mls_groups ≡ t.mls_groups
  pub devices : u.devices ≡ t.devices
  pub memberships : u.memberships ≡ t.memberships
  pub roster : u.mls_devices ≡ t.mls_devices

-- The messages too.
pub record KeepsMessages (t u : Tables) : Type 0 where
  pub rest : Keeps t u
  pub messages : u.mls_messages ≡ t.mls_messages

pub Keeps-trans : (t u v : Tables) → Keeps t u → Keeps u v → Keeps t v
Keeps-trans t u v k l = record {
  groups = l.groups ∙ k.groups;
  devices = l.devices ∙ k.devices;
  memberships = l.memberships ∙ k.memberships;
  roster = l.roster ∙ k.roster;
}

pub KeepsMessages-trans :
    (t u v : Tables) → KeepsMessages t u → KeepsMessages u v → KeepsMessages t v
KeepsMessages-trans t u v k l = record {
  rest = Keeps-trans t u v k.rest l.rest;
  messages = l.messages ∙ k.messages;
}

same : (t : Tables) → KeepsMessages t t
same t = record {
  rest = record { groups = refl; devices = refl; memberships = refl; roster = refl };
  messages = refl;
}

pub complete-KeepsMessages :
    (conversation revoked : String) (now : ℕ) (t : Tables)
    → KeepsMessages t (complete_mls_revocation_if_confirmed conversation revoked now t).0
unfolding complete_mls_revocation_if_confirmed insert_sync_event
complete-KeepsMessages conversation revoked now t = ground arith

pub submit_revocation-KeepsMessages :
    (conversation revocation sender message : String) (now : ℕ) (t : Tables)
    → KeepsMessages t (submit_revocation conversation revocation sender message now t).0
unfolding submit_revocation
submit_revocation-KeepsMessages conversation revocation sender message now t =
    elim (Bool-cases (str_eq revocation "")) [
      | inl e ↦ rw e (same t)
      | inr e ↦
          let k = complete-KeepsMessages conversation revocation now _ in
          rw e record {
            rest = record {
              groups = k.rest.groups;
              devices = k.rest.devices;
              memberships = k.rest.memberships;
              roster = k.rest.roster;
            };
            messages = k.messages;
          }
    ]

pub drop_stale-KeepsMessages :
    (conversation : String) (t : Tables)
    → KeepsMessages t (drop_stale_mls_revocations conversation t)
unfolding drop_stale_mls_revocations
drop_stale-KeepsMessages conversation t = record {
  rest = record { groups = refl; devices = refl; memberships = refl; roster = refl };
  messages = refl;
}

-- A message that was stored: it stands at the end, its key was free, and it is the given row but
-- for its id and its event.
pub record Stored (row stored : MlsMessage) (t u : Tables) : Type 0 where
  pub keeps : Keeps t u
  pub messages : u.mls_messages ≡ t.mls_messages ++ (stored ∷ [])
  pub free : any (has_key row.sender_device_id row.idempotency_key) t.mls_messages ≡ false
  pub is_row : stored ≡ record row { id = stored.id; sync_event_id = stored.sync_event_id }

pub insert_row-Stored :
    (host : Host) (account device : Option String) (row stored : MlsMessage) (t u : Tables)
    → insert_row host account device row t ≡ ok (u, stored)
    → Stored row stored t u
unfolding insert_row insert_sync_event
insert_row-Stored host account device row stored t u h = ground arith

-- Several messages that were stored, one after the other.
pub record Welcomed (u v : Tables) (sent : List MlsMessage) : Type 0 where
  pub groups : v.mls_groups ≡ u.mls_groups
  pub devices : v.devices ≡ u.devices
  pub memberships : v.memberships ≡ u.memberships
  pub messages : v.mls_messages ≡ u.mls_messages ++ sent

welcome_device-Stored :
    (host : Host) (now : ℕ) (input : MlsCommitBundleInput) (event epoch : ℕ) (ref : MlsDeviceRef)
    (t u : Tables) (m : MlsMessage)
    → welcome_device host now input event epoch ref t ≡ ok (u, m)
    → Stored
        (welcome_row now input ref)
        m
        (record t { mls_devices = join_device input.conversation_id event epoch ref t.mls_devices })
        u
unfolding welcome_device insert_mls_message
welcome_device-Stored host now input event epoch ref t u m h =
    insert_row-Stored host (nonempty ref.account_id) (nonempty ref.device_id)
      (welcome_row now input ref) m _ u h

-- The list of rows after the loop over Added.
abbrev pub joined_rows : String → ℕ → ℕ → List MlsDeviceRef → List MlsDevice → List MlsDevice
joined_rows conversation event epoch [] rows = rows
joined_rows conversation event epoch (ref ∷ refs) rows =
    joined_rows conversation event epoch refs (join_device conversation event epoch ref rows)

pub welcome_devices-Welcomed :
    (host : Host) (now : ℕ) (input : MlsCommitBundleInput) (event epoch : ℕ)
    (refs : List MlsDeviceRef) (t u : Tables) (sent : List MlsMessage)
    → welcome_devices host now input event epoch refs t ≡ ok (u, sent)
    → Welcomed t u sent
      × (u.mls_devices ≡ joined_rows input.conversation_id event epoch refs t.mls_devices)
      × All (λ m. m.kind ≡ "welcome") sent
unfolding welcome_devices
welcome_devices-Welcomed host now input event epoch [] t u sent h =
    ok-subst
      (λ (x : Tables × List MlsMessage).
        Welcomed t x.0 x.1 × (x.0.mls_devices ≡ t.mls_devices) × All (λ m. m.kind ≡ "welcome") x.1)
      (t, []) (u, sent) h
      (
        record {
          groups = refl;
          devices = refl;
          memberships = refl;
          messages = sym (append-nil t.mls_messages);
        },
        refl,
        tt,
      )
welcome_devices-Welcomed host now input event epoch (ref ∷ refs) t u sent h =
    let ((v, m), one, next) = >>=-eq-ok (welcome_device host now input event epoch ref t) _ h in
    let ((w, ms), others, end) =
      >>=-eq-ok (welcome_devices host now input event epoch refs v) _ next in
    let stored = welcome_device-Stored host now input event epoch ref t v m one in
    let (rec, rows, kinds) =
      welcome_devices-Welcomed host now input event epoch refs v w ms others in
    ok-subst
      (λ (x : Tables × List MlsMessage).
        Welcomed t x.0 x.1
        × (x.0.mls_devices
            ≡ joined_rows input.conversation_id event epoch (ref ∷ refs) t.mls_devices)
        × All (λ m. m.kind ≡ "welcome") x.1)
      (w, m ∷ ms) (u, sent) end
      (
        record {
          groups = rec.groups ∙ stored.keeps.groups;
          devices = rec.devices ∙ stored.keeps.devices;
          memberships = rec.memberships ∙ stored.keeps.memberships;
          messages = rw (rec.messages, stored.messages) (append_assoc t.mls_messages (m ∷ []) ms);
        },
        rw (rows, stored.keeps.roster) refl,
        (ap (λ (x : MlsMessage). x.kind) stored.is_row, kinds),
      )
