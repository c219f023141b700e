-- ===== src/Storage/Links/Removal.antt =====
-- The writes that take device links out (server/internal/storage: device_link_v3_store.go,
-- account_store.go, content_store.go). What the same transactions do to other tables is left out.
use veritra.Prelude.{ℕ, String, Bool, ◌&&◌, ◌||◌, none, some, List, ltb, str_eq}
use veritra.Prelude.Rows.{any, delete_rows}
use veritra.Storage.Links.State.{DeviceLink, LinkTables}

-- The links of an account that a device stands on, on either side.
abbrev pub is_link_of_device : String → String → DeviceLink → Bool
is_link_of_device account device v =
    str_eq v.account_id account
    && (str_eq v.source_device_id device || str_eq v.recipient_device_id device)

-- retireDeviceLinksV3ForDevice, as far as it is about links.
unfoldable pub retire_device_links_for_device : String → String → LinkTables → LinkTables
retire_device_links_for_device account device t = record t {
  links = delete_rows (is_link_of_device account device) t.links;
}

-- The statement on links in the deletion of an account.
unfoldable pub delete_account_links : String → LinkTables → LinkTables
delete_account_links account t = record t {
  links = delete_rows (λ v. str_eq v.account_id account) t.links;
}

-- COALESCE(transfer_expires_at, expires_at)
abbrev pub last_use : DeviceLink → ℕ
last_use v = elim v.transfer_expires_at [ none ↦ v.expires_at | some at ↦ at ]

-- The statement on links in PruneOperationalRows. `oldest` are the ids that ORDER BY and LIMIT 500
-- leave of the links over the cutoff.
unfoldable pub prune_device_links : ℕ → List String → LinkTables → LinkTables
prune_device_links cutoff oldest t = record t {
  links = delete_rows (λ v. ltb (last_use v) cutoff && any (str_eq v.id) oldest) t.links;
}
