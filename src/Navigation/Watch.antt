-- ===== src/Navigation/Watch.antt =====
-- RuntimeObservationWatch of
-- integrations/ros2/nav2_observation/runtime_observation_watch.hpp. Stamps are signed; the times
-- of receipt are unsigned milliseconds.
pub mod Promises
use robot_harness.Base.{
  ℕ, Bool, true, false, Option, none, some, List, [], ◌∷◌, ◌-◌, ◌&&◌, leb, if◌then◌else◌,
}
use robot_harness.Integer.{ℤ, pos, int_ltb}

pub data StaleObservation : Type 0 where
  stale_clock stale_odometry : StaleObservation

-- kBudgetMs
abbrev pub budget_ms : ℕ
budget_ms = 2000

pub record Stream : Type 0 where
  pub stamp : ℤ
  pub advanced_at : ℕ

unfoldable pub observe : Stream → ℤ → ℕ → Stream
observe s value at =
    if int_ltb s.stamp value && leb s.advanced_at at
    then record { stamp = value; advanced_at = at }
    else s

unfoldable pub expired : Stream → ℕ → Bool
expired s at = leb s.advanced_at at && leb budget_ms (at - s.advanced_at)

pub record RuntimeObservationWatch : Type 0 where
  pub lost : Option StaleObservation
  pub is_active : Bool
  pub clock : Stream
  pub odometry : Stream

-- The members' initial values.
abbrev pub idle_watch : RuntimeObservationWatch
idle_watch = record {
  lost = none;
  is_active = false;
  clock = record { stamp = pos 0; advanced_at = 0 };
  odometry = record { stamp = pos 0; advanced_at = 0 };
}

unfoldable pub start : RuntimeObservationWatch → ℕ → RuntimeObservationWatch
start w at = record w {
  lost = none;
  is_active = true;
  clock = record w.clock { advanced_at = at };
  odometry = record w.odometry { advanced_at = at };
}

-- stale, where no loss is latched.
unfoldable pub found_stale : RuntimeObservationWatch → ℕ → Option StaleObservation
found_stale w at =
    if w.is_active && expired w.clock at
    then some StaleObservation.stale_clock
    else if w.is_active && expired w.odometry at
    then some StaleObservation.stale_odometry
    else none

unfoldable pub stale : RuntimeObservationWatch → ℕ → Option StaleObservation
stale w at = elim w.lost [ some l ↦ some l | none ↦ found_stale w at ]

unfoldable pub latch_expiry : RuntimeObservationWatch → ℕ → RuntimeObservationWatch
latch_expiry w at = record w { lost = elim w.lost [ some l ↦ some l | none ↦ stale w at ] }

unfoldable pub observe_clock : RuntimeObservationWatch → ℤ → ℕ → RuntimeObservationWatch
observe_clock w stamp at =
    let latched = latch_expiry w at in record latched { clock = observe latched.clock stamp at }

unfoldable pub observe_odometry : RuntimeObservationWatch → ℤ → ℕ → Bool → RuntimeObservationWatch
observe_odometry w stamp at valid =
    let latched = latch_expiry w at in
    if valid then record latched { odometry = observe latched.odometry stamp at } else latched

-- The observations as data.
pub data Observation : Type 0 where
  clock_sample : ℤ → ℕ → Observation
  odometry_sample : ℤ → ℕ → Bool → Observation

unfoldable pub take_sample : RuntimeObservationWatch → Observation → RuntimeObservationWatch
take_sample w (clock_sample stamp at) = observe_clock w stamp at
take_sample w (odometry_sample stamp at valid) = observe_odometry w stamp at valid

unfoldable pub take_samples : RuntimeObservationWatch → List Observation → RuntimeObservationWatch
take_samples w [] = w
take_samples w (o ∷ os) = take_samples (take_sample w o) os
