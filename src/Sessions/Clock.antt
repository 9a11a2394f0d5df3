-- ===== src/Sessions/Clock.antt =====
-- The session's rules against the clock and against each other.
use salesforce_expert_suppor.Prelude.{
  ℕ, ◌+◌, ◌*◌, ◌≤◌, ◌<◌, ◌≡◌, refl, ◌↔◌, ◌⊎◌, inl, inr, Option, some, arith,
}
use salesforce_expert_suppor.Contracts.{SessionState}
use salesforce_expert_suppor.Sessions.Lifecycle.{
  or_zero, minutes_delivered, seconds_remaining, CloseReason, no_show, overran, auto_close_reason,
}

-- Billed minutes never exceed what was bought and extended; they are nothing only if no time
-- passed or none was bought; and they never fall short of the time that passed, unless the cap
-- binds, nor exceed it by a whole minute.
pub minutes_delivered_bounds :
    (started ended purchased : ℕ) (extra : Option ℕ)
    → let minutes = minutes_delivered started ended purchased extra in
      (minutes ≤ purchased + or_zero extra)
      × ((ended ≤ started + minutes * 60000) ⊎ (minutes ≡ purchased + or_zero extra))
      × ((minutes ≡ 0) ⊎ (started + minutes * 60000 < ended + 60000))
unfolding minutes_delivered
minutes_delivered_bounds started ended purchased extra = ground arith

-- The countdown reaches 0 exactly when the bought and extended time has run out.
pub seconds_remaining-zero :
    (started now purchased : ℕ) (extra : Option ℕ)
    → (seconds_remaining started now purchased extra ≡ 0)
      ↔ (started + (purchased + or_zero extra) * 60000 ≤ now)
unfolding seconds_remaining
seconds_remaining-zero started now purchased extra = ground arith

-- A session is closed as overran only while it is active, with no time left and every bought minute
-- delivered; as a no-show only while nobody has joined, fifteen minutes after the room opened.
pub auto_close_reason_sound :
    (state : SessionState) (ready started : Option ℕ) (now purchased : ℕ) (extra : Option ℕ)
    (reason : CloseReason)
    → auto_close_reason state ready started now purchased extra ≡ some reason
    → ((reason ≡ overran)
        × (state ≡ SessionState.active)
        × ((at : ℕ) × (started ≡ some at)
            × (seconds_remaining at now purchased extra ≡ 0)
            × (minutes_delivered at now purchased extra ≡ purchased + or_zero extra)))
      ⊎ ((reason ≡ no_show)
          × (state ≡ SessionState.ready)
          × ((at : ℕ) × (ready ≡ some at) × (at + 900000 ≤ now)))
unfolding auto_close_reason minutes_delivered
auto_close_reason_sound SessionState.ready (some at) started now purchased extra reason h =
    inr (ground arith, refl, (at, refl, ground arith))
auto_close_reason_sound SessionState.active ready (some at) now purchased extra reason h = inl (
  ground arith,
  refl,
  (at, refl, (seconds_remaining-zero at now purchased extra).1 (ground arith), ground arith),
)
auto_close_reason_sound _ _ _ _ _ _ _ h = ground arith
