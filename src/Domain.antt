-- ===== src/Domain.antt =====
-- Roles and the rules of moderation (server/internal/domain/types.go and moderation.go). Times and
-- durations are numbers of nanoseconds; a negative duration does not occur.
pub mod Rules
mod Tests
use veritra.Prelude.{
  ℕ, ◌+◌, ◌-◌, ◌*◌, String, Bool, true, false, not, ◌&&◌, ◌||◌, Option, some, none, ltb, leb, ◌==◌,
  str_eq, if◌then◌else◌,
}

abbrev pub role_owner : String
role_owner = "owner"

abbrev pub role_admin : String
role_admin = "admin"

abbrev pub role_moderator : String
role_moderator = "moderator"

abbrev pub role_member : String
role_member = "member"

unfoldable pub can_manage_invites : String → Bool
can_manage_invites role = str_eq role role_owner || str_eq role role_admin

unfoldable pub can_post_restricted : String → Bool
can_post_restricted role = str_eq role role_owner || str_eq role role_admin

unfoldable pub can_manage_members : String → Bool
can_manage_members role =
    str_eq role role_owner || (str_eq role role_admin || str_eq role role_moderator)

unfoldable pub role_rank : String → ℕ
role_rank role =
    if str_eq role role_owner
    then 4
    else if str_eq role role_admin
    then 3
    else if str_eq role role_moderator
    then 2
    else if str_eq role role_member
    then 1
    else 0

unfoldable pub valid_role : String → Bool
valid_role role = ltb 0 (role_rank role)

abbrev pub hour : ℕ
hour = 3_600_000_000_000

abbrev pub max_timeout : ℕ
max_timeout = 28 * 24 * hour

abbrev pub max_slow_mode : ℕ
max_slow_mode = 6 * hour

unfoldable pub can_moderate : String → String → Bool → Bool
can_moderate actor_role target_role same_account =
    if same_account || not (can_manage_members actor_role)
    then false
    else ltb 0 (role_rank target_role) && ltb (role_rank target_role) (role_rank actor_role)

unfoldable pub can_delete_others_message : String → String → Bool
can_delete_others_message actor_role sender_role = can_moderate actor_role sender_role false

unfoldable pub valid_timeout : ℕ → Bool
valid_timeout d = ltb 0 d && leb d max_timeout

unfoldable pub valid_slow_mode : ℕ → Bool
valid_slow_mode d = leb d max_slow_mode

unfoldable pub timed_out : Option ℕ → ℕ → Bool
timed_out none now = false
timed_out (some until) now = ltb now until

unfoldable pub slow_mode_wait : String → ℕ → Option ℕ → ℕ → ℕ
slow_mode_wait role gap none now = 0
slow_mode_wait role gap (some last_post) now =
    if gap == 0 || can_manage_members role
    then 0
    else if ltb now (last_post + gap)
    then last_post + gap - now
    else 0
