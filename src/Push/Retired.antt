-- ===== src/Push/Retired.antt =====
-- When a subscription is retired.
use veritra.Prelude.{ℕ, ◌+◌, ◌≤◌, ◌<◌, ◌≡◌, ◌↔◌, String, true, some, arith}
use veritra.Prelude.GoMap.{lookup}
use veritra.Push.{RejectedTarget, RejectedTargets, note, rejected_target_min_span}

-- A rejection of a tracked subscription retires it just where at least nine others are recorded
-- for it and the first of them is more than a day old.
pub note_iff :
    (first_visited : RejectedTargets → String) (id : String) (now : ℕ) (t : RejectedTargets)
    (e : RejectedTarget)
    → lookup id t ≡ some e
    → ((note first_visited id now t).1 ≡ true)
      ↔ ((9 ≤ e.count) × (e.first + rejected_target_min_span < now))
unfolding note
note_iff first_visited id now t e there = (λ h. ground arith, λ h. ground arith)
