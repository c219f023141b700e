-- ===== src/Config/Tests.antt =====
-- A volume of 100 GiB with seven backups.
use veritra.Prelude.{◌+◌, ◌*◌, ◌/◌, ◌≤◌, ◌<◌}
use veritra.Config.{mib, legacy_instance_storage_mib, kept, derive_instance_storage}
use veritra.Config.Storage.{derive_instance_storage_lem}

derive_instance_storage_example :
    (64 * mib ≤ derive_instance_storage 107374182400 7)
    × (derive_instance_storage 107374182400 7 ≤ legacy_instance_storage_mib * mib)
    × (64 * mib < derive_instance_storage 107374182400 7
        → derive_instance_storage 107374182400 7 ≤ 107374182400 / 10 * 9 / (kept 7 + 3))
derive_instance_storage_example = derive_instance_storage_lem 107374182400 7
