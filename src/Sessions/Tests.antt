-- ===== src/Sessions/Tests.antt =====
-- Runs of the session clock.
use salesforce_expert_suppor.Prelude.{ℕ, ◌+◌, ◌*◌, ◌≤◌, ◌<◌, ◌≡◌, refl, ◌⊎◌, some, none}
use salesforce_expert_suppor.Contracts.{SessionState}
use salesforce_expert_suppor.Sessions.Lifecycle.{
  minutes_delivered, seconds_remaining, no_show, overran, auto_close_reason,
}
use salesforce_expert_suppor.Sessions.Clock.{minutes_delivered_bounds, auto_close_reason_sound}

minutes_delivered_bounds_example :
    let minutes = minutes_delivered 1000 2000000 30 (some 10) in
    (minutes ≤ 30 + 10)
    × ((2000000 ≤ 1000 + minutes * 60000) ⊎ (minutes ≡ 30 + 10))
    × ((minutes ≡ 0) ⊎ (1000 + minutes * 60000 < 2000000 + 60000))
minutes_delivered_bounds_example = minutes_delivered_bounds 1000 2000000 30 (some 10)

-- Thirty minutes bought, and ten of grace.
auto_close_reason_sound_example :
    ((overran ≡ overran)
      × (SessionState.active ≡ SessionState.active)
      × ((at : ℕ) × (some 1000 ≡ some at)
          × (seconds_remaining at 2401000 30 none ≡ 0)
          × (minutes_delivered at 2401000 30 none ≡ 30 + 0)))
    ⊎ ((overran ≡ no_show)
        × (SessionState.active ≡ SessionState.ready)
        × ((at : ℕ) × (some 500 ≡ some at) × (at + 900000 ≤ 2401000)))
unfolding auto_close_reason
auto_close_reason_sound_example =
    auto_close_reason_sound SessionState.active (some 500) (some 1000) 2401000 30 none overran refl
