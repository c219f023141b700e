-- ===== src/Domain/Tests.antt =====
-- The rules on concrete roles and times.
use veritra.Prelude.{◌+◌, ◌<◌, ◌≡◌, ◌≢◌, ◌⊎◌, ◌↔◌, String, some}
use veritra.Domain.{slow_mode_wait, hour}
use veritra.Domain.Rules.{slow_mode_wait_lem}

slow_mode_wait_example :
    ((0 < slow_mode_wait "member" hour (some 5) 7) ↔ (
      (0 < hour)
      × (7 < 5 + hour)
      × (◌≢◌ {A = String} "member" "owner")
      × (◌≢◌ {A = String} "member" "admin")
      × (◌≢◌ {A = String} "member" "moderator")))
    × ((slow_mode_wait "member" hour (some 5) 7 ≡ 0)
        ⊎ (7 + slow_mode_wait "member" hour (some 5) 7 ≡ 5 + hour))
slow_mode_wait_example = slow_mode_wait_lem "member" hour 5 7
