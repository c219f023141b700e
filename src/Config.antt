-- ===== src/Config.antt =====
-- The admission limits of the configuration (server/internal/config/limits.go). Zero stands for a
-- limit that is not set.
pub mod Storage
mod Tests
use veritra.Prelude.{ℕ, ◌+◌, ◌-◌, ◌*◌, ◌/◌, Bool, true, false, not, ◌&&◌, ltb, ◌==◌, if◌then◌else◌}

pub record Limits : Type 0 where
  pub account_storage_bytes : ℕ
  pub instance_storage_bytes : ℕ
  pub account_blobs : ℕ
  pub devices_per_account : ℕ
  pub conversation_members : ℕ
  pub conversations_per_account : ℕ
  pub key_package_claims_per_target : ℕ
  pub mls_self_update_minutes : ℕ
  pub deliveries_per_minute : ℕ
  pub write_bytes_per_hour : ℕ
  pub attachment_bytes : ℕ
  pub sockets_per_ipv6_prefix : ℕ

abbrev pub mib : ℕ
mib = 1_048_576

abbrev pub legacy_instance_storage_mib : ℕ
legacy_instance_storage_mib = 10240

abbrev pub or_default : ℕ → ℕ → ℕ
or_default n default = if n == 0 then default else n

unfoldable pub with_defaults : Limits → Limits
with_defaults l = record l {
  account_storage_bytes = or_default l.account_storage_bytes (512 * mib);
  account_blobs = or_default l.account_blobs 10000;
  devices_per_account = or_default l.devices_per_account 10;
  conversation_members = or_default l.conversation_members 250;
  conversations_per_account = or_default l.conversations_per_account 1000;
  key_package_claims_per_target = or_default l.key_package_claims_per_target 25;
  mls_self_update_minutes = or_default l.mls_self_update_minutes 60;
  deliveries_per_minute = or_default l.deliveries_per_minute 1000;
  write_bytes_per_hour = or_default l.write_bytes_per_hour (64 * mib);
  attachment_bytes = or_default l.attachment_bytes (48 * mib);
  sockets_per_ipv6_prefix = or_default l.sockets_per_ipv6_prefix 200;
}

unfoldable pub max_attachment_ciphertext : ℕ → ℕ
max_attachment_ciphertext plaintext = plaintext + (plaintext + mib - 1) / mib * (4 + 16)

-- True where `Validate` returns no error.
unfoldable pub validate : Limits → Bool
validate l =
    if ltb l.deliveries_per_minute (2 * (1 + l.conversation_members))
    then false
    else not (
        not (l.instance_storage_bytes == 0) && ltb l.instance_storage_bytes l.account_storage_bytes)

-- backupKeep, at least 1; a negative one does not occur.
abbrev pub kept : ℕ → ℕ
kept backup_keep = if ltb backup_keep 1 then 1 else backup_keep

-- min(max(derived, 64*mib), LegacyInstanceStorageMiB*mib)
abbrev pub clamped : ℕ → ℕ
clamped derived =
    let least = if ltb derived (64 * mib) then 64 * mib else derived in
    if ltb least (legacy_instance_storage_mib * mib)
    then least
    else legacy_instance_storage_mib * mib

unfoldable pub derive_instance_storage : ℕ → ℕ → ℕ
derive_instance_storage volume_bytes backup_keep =
    clamped (volume_bytes / 10 * 9 / (kept backup_keep + 3) / mib * mib)
