-- ===== src/Push.antt =====
-- Push targets that a provider refuses (server/internal/app/push_rejections.go). The entry that is
-- dropped from a full table, the first that Go visits, is a parameter.
pub mod Retired
use veritra.Prelude.{
  ℕ, ◌+◌, ◌-◌, ◌*◌, String, Bool, true, false, ◌&&◌, List, Option, some, none, ltb, leb,
  if◌then◌else◌, length,
}
use veritra.Prelude.GoMap.{Map, lookup, insert, delete}

abbrev pub rejected_target_min_count : ℕ
rejected_target_min_count = 10

abbrev pub rejected_target_min_span : ℕ
rejected_target_min_span = 24 * 3_600_000_000_000

abbrev pub max_tracked_rejected_targets : ℕ
max_tracked_rejected_targets = 4096

pub record RejectedTarget : Type 0 where
  pub first : ℕ
  pub count : ℕ

-- A nil map is an empty one.
abbrev pub RejectedTargets : Type 0
RejectedTargets = Map RejectedTarget

-- The entry with this rejection counted.
abbrev pub counted_entry : Option RejectedTarget → ℕ → RejectedTarget
counted_entry none now = record { first = now; count = 1 }
counted_entry (some e) now = record e { count = e.count + 1 }

-- Room for a subscription that is not tracked.
abbrev pub with_room :
    (RejectedTargets → String) → Option RejectedTarget → RejectedTargets → RejectedTargets
with_room first_visited (some e) t = t
with_room first_visited none t =
    if leb max_tracked_rejected_targets (length t) then delete (first_visited t) t else t

unfoldable pub note :
    (RejectedTargets → String) → String → ℕ → RejectedTargets → RejectedTargets × Bool
note first_visited id now t =
    let entry = counted_entry (lookup id t) now in
    let t' = with_room first_visited (lookup id t) t in
    if leb rejected_target_min_count entry.count && ltb rejected_target_min_span (now - entry.first)
    then (delete id t', true)
    else (insert id entry t', false)

unfoldable pub clear : String → RejectedTargets → RejectedTargets
clear id t = delete id t
