-- ===== src/Storage/Mls/Tests.antt =====
-- A conversation of two accounts.
use veritra.Prelude.{◌+◌, ◌≡◌, refl, String, true, false, Option, none, some, [], ◌∷◌, str_eq}
use veritra.Prelude.GoMap.{lookup, insert}
use veritra.Prelude.Rows.{any, find, update, select}
use veritra.Storage.{Answer, ok, err, refuse, Host, mls_epoch_conflict}
use veritra.Storage.Tables.{Tables, Device, Membership, MlsDevice, is_member, is_live}
use veritra.Storage.Mls.Revocations.{
  mls_group_epoch, is_active_row, active_mls_device, has_mls_messages, is_stale,
  drop_stale_mls_revocations, insert_sync_event,
}
use veritra.Storage.Mls.Messages.{
  MlsCommitBundleInput, MlsCommitBundleResult, pos, refs_are_valid, valid_mls_device_refs,
  is_malformed, is_sender, insert_row, insert_mls_message, removal_is_pending,
  check_mls_self_update, check_added, check_removed,
}
use veritra.Storage.Mls.Commit.{
  advance_epoch, record_self_update, remove_devices, join_device, welcome_device, welcome_devices,
  submit_revocation, move_group, close_commit, store_commit,
}
use veritra.Storage.Mls.Bundle.{
  submit_commit, open_group, create_group, change_group, first_commit, accept_bundle,
  create_mls_commit_bundle, or_zero,
}
use veritra.Storage.Mls.Epochs.{create_mls_commit_bundle-epoch}
use veritra.Storage.Mls.Retry.{create_mls_commit_bundle-retry}
use veritra.Storage.Mls.Roster.{create_mls_commit_bundle-keeps_members}
use veritra.Storage.Mls.Reach.{bundle, start, next, Reach-CountsCommits}
use veritra.Storage.Mls.SelfUpdate.{IsDue, create_mls_commit_bundle-self_update}
use veritra.Storage.Mls.Race.{IsContender, create_mls_commit_bundle-race}
use veritra.Storage.Mls.Counts.{CountsCommits}

abbrev host : Host
host = record { trim_space = λ s. s; len = λ s. 1; leq = λ a b. true; new_id = λ n. "m" }

abbrev device : String → String → Device
device id account = record {
  id = id;
  account_id = account;
  name = "";
  key_package = [];
  signing_key = [];
  auth_secret_hash = "";
  created_at = 0;
  revoked_at = none;
}

abbrev member : String → Membership
member account = record { conversation_id = "c"; account_id = account; role = "member" }

abbrev tables : Tables
tables = record {
  devices = device "d1" "alice" ∷ device "d2" "bob" ∷ [];
  memberships = member "alice" ∷ member "bob" ∷ [];
  last_event_id = 6;
  sync_events = [];
  mls_messages = [];
  mls_groups = [];
  mls_devices = [];
  mls_revocations = [];
  required_devices = [];
}

abbrev first_bundle : MlsCommitBundleInput
first_bundle = record {
  conversation_id = "c";
  sender_account_id = "alice";
  sender_device_id = "d1";
  epoch = pos 0;
  idempotency_key = "k1";
  commit = 1 ∷ [];
  welcome = 2 ∷ [];
  added = record { account_id = "bob"; device_id = "d2" } ∷ [];
  removed = [];
  revocation_device_id = "";
}

-- Bob's device refreshes its keys.
abbrev second_bundle : MlsCommitBundleInput
second_bundle = record {
  conversation_id = "c";
  sender_account_id = "bob";
  sender_device_id = "d2";
  epoch = pos 1;
  idempotency_key = "k2";
  commit = 3 ∷ [];
  welcome = [];
  added = [];
  removed = [];
  revocation_device_id = "";
}

abbrev tables_after : Answer (Tables × MlsCommitBundleResult) → Tables
tables_after (ok (t, r)) = t
tables_after (err e) = tables
tables_after (refuse limit e) = tables

abbrev result : Answer (Tables × MlsCommitBundleResult) → Option MlsCommitBundleResult
result (ok (t, r)) = some r
result (err e) = none
result (refuse limit e) = none

abbrev no_result : MlsCommitBundleResult
no_result = record {
  commit = none;
  welcomes = [];
  epoch = 0;
  duplicate = false;
  revocation_completed_event_id = 0;
}

abbrev result_or : Option MlsCommitBundleResult → MlsCommitBundleResult
result_or none = no_result
result_or (some r) = r

abbrev one : Tables
one = tables_after (create_mls_commit_bundle host 60 100 first_bundle tables)

abbrev one_result : MlsCommitBundleResult
one_result = result_or (result (create_mls_commit_bundle host 60 100 first_bundle tables))

accepted : create_mls_commit_bundle host 60 100 first_bundle tables ≡ ok (one, one_result)
unfolding create_mls_commit_bundle accept_bundle is_malformed valid_mls_device_refs refs_are_valid
    any find is_sender is_member first_commit create_group mls_group_epoch lookup has_mls_messages
    submit_commit check_added check_removed open_group insert drop_stale_mls_revocations
    store_commit active_mls_device insert_mls_message insert_row insert_sync_event welcome_devices
    welcome_device is_active_row move_group
accepted = refl

fresh : one_result.duplicate ≡ false
unfolding create_mls_commit_bundle accept_bundle is_malformed valid_mls_device_refs refs_are_valid
    any find is_sender is_member first_commit create_group mls_group_epoch lookup has_mls_messages
    submit_commit check_added check_removed open_group insert drop_stale_mls_revocations
    store_commit active_mls_device insert_mls_message insert_row insert_sync_event welcome_devices
    welcome_device close_commit is_active_row move_group
fresh = refl

create_mls_commit_bundle-epoch_example :
    let epoch = or_zero (mls_group_epoch tables "c") in
    (pos 0 ≡ pos epoch)
    × (one_result.epoch ≡ epoch + 1)
    × (mls_group_epoch one "c" ≡ some (epoch + 1))
    × ((other : String)
        → str_eq "c" other ≡ false
        → mls_group_epoch one other ≡ mls_group_epoch tables other)
create_mls_commit_bundle-epoch_example =
    create_mls_commit_bundle-epoch host 60 100 first_bundle tables one one_result accepted refl
      fresh

create_mls_commit_bundle-retry_example :
    create_mls_commit_bundle host 60 200 first_bundle one
    ≡ ok (
      one,
      record one_result { welcomes = []; duplicate = true; revocation_completed_event_id = 0 },
    )
create_mls_commit_bundle-retry_example =
    create_mls_commit_bundle-retry host 60 100 200 first_bundle tables one one_result accepted refl

abbrev two : Tables
two = tables_after (create_mls_commit_bundle host 60 200 second_bundle one)

abbrev two_result : MlsCommitBundleResult
two_result = result_or (result (create_mls_commit_bundle host 60 200 second_bundle one))

accepted_too : create_mls_commit_bundle host 60 200 second_bundle one ≡ ok (two, two_result)
unfolding create_mls_commit_bundle accept_bundle is_malformed valid_mls_device_refs refs_are_valid
    any find is_sender is_member first_commit create_group mls_group_epoch lookup has_mls_messages
    submit_commit check_added check_removed open_group insert drop_stale_mls_revocations
    store_commit active_mls_device insert_mls_message insert_row insert_sync_event welcome_devices
    welcome_device change_group check_mls_self_update removal_is_pending is_live is_active_row
    move_group advance_epoch close_commit submit_revocation select is_stale remove_devices
    join_device record_self_update
accepted_too = refl

abbrev creator : MlsDevice
creator = record {
  conversation_id = "c";
  device_id = "d1";
  account_id = "alice";
  joined_after_event_id = 0;
  joined_epoch = 0;
  removed_after_event_id = none;
  last_self_update_at = none;
}

in_roster : find (is_active_row "c" "d1") one.mls_devices ≡ some creator
unfolding create_mls_commit_bundle accept_bundle is_malformed valid_mls_device_refs refs_are_valid
    any find is_sender is_member first_commit create_group mls_group_epoch lookup has_mls_messages
    submit_commit check_added check_removed open_group insert drop_stale_mls_revocations
    store_commit active_mls_device insert_mls_message insert_row insert_sync_event welcome_devices
    welcome_device is_active_row move_group close_commit submit_revocation remove_devices
    join_device record_self_update update
in_roster = refl

still_member : is_member one "c" "alice" ≡ true
unfolding create_mls_commit_bundle accept_bundle is_malformed valid_mls_device_refs refs_are_valid
    any find is_sender is_member first_commit create_group mls_group_epoch lookup has_mls_messages
    submit_commit check_added check_removed open_group insert drop_stale_mls_revocations
    store_commit active_mls_device insert_mls_message insert_row insert_sync_event welcome_devices
    welcome_device is_active_row move_group close_commit submit_revocation
still_member = refl

still_live : is_live one "d1" ≡ true
unfolding create_mls_commit_bundle accept_bundle is_malformed valid_mls_device_refs refs_are_valid
    any find is_sender is_member first_commit create_group mls_group_epoch lookup has_mls_messages
    submit_commit check_added check_removed open_group insert drop_stale_mls_revocations
    store_commit active_mls_device insert_mls_message insert_row insert_sync_event welcome_devices
    welcome_device is_active_row move_group close_commit submit_revocation is_live
still_live = refl

create_mls_commit_bundle-keeps_members_example : active_mls_device two "c" "d1" ≡ true
create_mls_commit_bundle-keeps_members_example =
    create_mls_commit_bundle-keeps_members host 60 200 second_bundle one two two_result "c" "d1"
      creator accepted_too refl in_roster still_member still_live

Reach-CountsCommits_example : CountsCommits two
Reach-CountsCommits_example = Reach-CountsCommits host 60 tables two refl (
    next (next start (bundle 100 first_bundle tables one one_result accepted))
      (bundle 200 second_bundle one two two_result accepted_too))

due : IsDue 60 200 second_bundle 1 one
unfolding create_mls_commit_bundle accept_bundle is_malformed valid_mls_device_refs refs_are_valid
    any find is_sender is_member first_commit create_group mls_group_epoch lookup has_mls_messages
    submit_commit check_added check_removed open_group insert drop_stale_mls_revocations
    store_commit active_mls_device insert_mls_message insert_row insert_sync_event welcome_devices
    welcome_device change_group check_mls_self_update removal_is_pending is_live is_active_row
    move_group advance_epoch close_commit submit_revocation select is_stale remove_devices
    join_device record_self_update
due = record {
  has_payload = refl;
  no_added = refl;
  no_removed = refl;
  no_revocation = refl;
  sender = refl;
  new_key = refl;
  current = refl;
  at_epoch = refl;
  inside = refl;
  nothing_pending = refl;
  rested = λ last h. absurd cc;
}

well_formed : is_malformed host second_bundle ≡ false
unfolding is_malformed valid_mls_device_refs refs_are_valid any
well_formed = refl

create_mls_commit_bundle-self_update_example :
    (u : Tables) × (r : MlsCommitBundleResult) × (create_mls_commit_bundle host 60 200 second_bundle
        one
      ≡ ok (u, r))
    × (r.duplicate ≡ false)
    × (mls_group_epoch u "c" ≡ some 2)
create_mls_commit_bundle-self_update_example =
    create_mls_commit_bundle-self_update host 60 200 second_bundle 1 one well_formed due

-- Bob's device made its commit before it saw Alice's.
abbrev late_bundle : MlsCommitBundleInput
late_bundle = record second_bundle { epoch = pos 0 }

contender : IsContender host late_bundle one
unfolding create_mls_commit_bundle accept_bundle is_malformed valid_mls_device_refs refs_are_valid
    any find is_sender is_member first_commit create_group mls_group_epoch lookup has_mls_messages
    submit_commit check_added check_removed open_group insert drop_stale_mls_revocations
    store_commit active_mls_device insert_mls_message insert_row insert_sync_event welcome_devices
    welcome_device change_group check_mls_self_update removal_is_pending is_live is_active_row
    move_group advance_epoch close_commit submit_revocation select is_stale remove_devices
    join_device record_self_update
contender = record {
  formed = refl;
  right = refl;
  has_payload = refl;
  sender = refl;
  new_key = refl;
  inside = refl;
}

create_mls_commit_bundle-race_example :
    create_mls_commit_bundle host 60 200 late_bundle one ≡ err mls_epoch_conflict
create_mls_commit_bundle-race_example =
    create_mls_commit_bundle-race host 60 100 200 first_bundle late_bundle tables one one_result
      accepted refl fresh refl refl contender
