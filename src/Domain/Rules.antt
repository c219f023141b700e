-- ===== src/Domain/Rules.antt =====
-- Who may moderate whom, and how long a slow mode holds a member back.
use veritra.Prelude.{
  ◌≢◌, ◌⊎◌, inl, inr, eq_iff, ltb, Bool-cases, ℕ, ◌+◌, ◌<◌, ◌≤◌, ◌≡◌, ◌↔◌, String, Bool, true,
  false, some, arith,
}
use veritra.Domain.{can_moderate, can_manage_members, role_rank, slow_mode_wait}

-- An actor may moderate a target just where the accounts differ, the target has a role, the actor
-- ranks as a moderator or above, and outranks the target.
pub can_moderate_iff :
    (actor target : String) (same_account : Bool)
    → (can_moderate actor target same_account ≡ true) ↔ (
        (same_account ≡ false)
        × (0 < role_rank target)
        × (2 ≤ role_rank actor)
        × (role_rank target < role_rank actor))
unfolding can_moderate can_manage_members role_rank
can_moderate_iff actor target same_account = (λ h. ground arith, λ h. ground arith)

-- A slow mode makes one wait just where there is a gap, the gap since the last post has not passed,
-- and one is no owner, admin or moderator; a wait ends with the gap.
pub slow_mode_wait_lem :
    (role : String) (gap last now : ℕ)
    → ((0 < slow_mode_wait role gap (some last) now) ↔ (
        (0 < gap)
        × (now < last + gap)
        × (role ≢ "owner")
        × (role ≢ "admin")
        × (role ≢ "moderator")))
      × ((slow_mode_wait role gap (some last) now ≡ 0)
          ⊎ (now + slow_mode_wait role gap (some last) now ≡ last + gap))
unfolding slow_mode_wait can_manage_members
slow_mode_wait_lem role gap last now = (
  (
    λ h. ground (arith, eq_iff role "owner", eq_iff role "admin", eq_iff role "moderator"),
    λ h. ground (arith, eq_iff role "owner", eq_iff role "admin", eq_iff role "moderator"),
  ),
  elim (Bool-cases (ltb 0 (slow_mode_wait role gap (some last) now))) [
    | inl e ↦ inr (ground arith)
    | inr e ↦ inl (ground arith)
  ],
)
