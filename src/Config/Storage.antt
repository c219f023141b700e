-- ===== src/Config/Storage.antt =====
-- The derived storage limit.
use veritra.Prelude.{ℕ, ◌+◌, ◌*◌, ◌/◌, ◌≤◌, ◌<◌, arith}
use veritra.Config.{mib, legacy_instance_storage_mib, kept, clamped, derive_instance_storage}

clamped_lem :
    (d : ℕ)
    → (64 * mib ≤ clamped (d / mib * mib))
      × (clamped (d / mib * mib) ≤ legacy_instance_storage_mib * mib)
      × (64 * mib < clamped (d / mib * mib) → clamped (d / mib * mib) ≤ d)
clamped_lem d = (ground arith, ground arith, ground arith)

-- The derived instance storage is between 64 MiB and 10 GiB, and above 64 MiB it is at most nine
-- tenths of the volume over the backups kept and three more.
pub derive_instance_storage_lem :
    (volume keep : ℕ)
    → (64 * mib ≤ derive_instance_storage volume keep)
      × (derive_instance_storage volume keep ≤ legacy_instance_storage_mib * mib)
      × (64 * mib < derive_instance_storage volume keep
          → derive_instance_storage volume keep ≤ volume / 10 * 9 / (kept keep + 3))
unfolding derive_instance_storage
derive_instance_storage_lem volume keep = clamped_lem (volume / 10 * 9 / (kept keep + 3))
