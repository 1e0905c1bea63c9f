-- ===== src/Navigation/Obstacle.antt =====
-- ObstacleWatch of integrations/ros2/nav2_observation/obstacle_watch.hpp. Sums of signed times
-- are taken where they do not overflow.
pub mod Promises
use robot_harness.Base.{Bool, true, false, not, List, [], ◌∷◌, ◌*◌, ◌&&◌, ◌||◌, ℕ, if◌then◌else◌}
use robot_harness.Integer.{ℤ, pos, int_ltb, ◌+ℤ◌, ◌-ℤ◌}
use robot_harness.Double.{
  Double, is_finite, double_ltb, double_leb, clear_distance, close_distance, zero_distance,
}

pub data ObstacleDecision : Type 0 where
  keep_going blocked unknown : ObstacleDecision

pub record Sample : Type 0 where
  pub stamp : ℤ
  pub received : ℤ
  pub valid : Bool

abbrev pub no_sample : Sample
no_sample = record { stamp = pos 0; received = pos 0; valid = false }

-- `std::array<Sample, 3>`, its last element the newest.
pub record Window : Type 0 where
  pub oldest : Sample
  pub middle : Sample
  pub newest : Sample

abbrev pub no_window : Window
no_window = record { oldest = no_sample; middle = no_sample; newest = no_sample }

pub record ObstacleWatch : Type 0 where
  pub scan : Sample
  pub costmap : Sample
  pub clearance : Double
  pub occupied : Bool
  pub close_window : Window
  pub clear_window : Window

abbrev pub new_watch : ObstacleWatch
new_watch = record {
  scan = no_sample;
  costmap = no_sample;
  clearance = zero_distance;
  occupied = false;
  close_window = no_window;
  clear_window = no_window;
}

-- The assignments to a window, or `= {}`.
unfoldable pub slide : Bool → Window → Sample → Window
slide true w s = record { oldest = w.middle; middle = w.newest; newest = s }
slide false w s = no_window

unfoldable pub new_scan : ℤ → ℤ → Double → Bool → Sample
new_scan stamp received_ms clearance valid = record {
  stamp = stamp;
  received = received_ms;
  valid = valid && is_finite clearance && double_leb zero_distance clearance;
}

unfoldable pub observe_scan : ObstacleWatch → ℤ → ℤ → Double → Bool → ObstacleWatch
observe_scan w stamp received_ms clearance valid =
    let scan = new_scan stamp received_ms clearance valid in
    if not (int_ltb w.scan.stamp stamp) then w else record w {
      scan = scan;
      clearance = clearance;
      clear_window = slide (scan.valid && double_ltb clear_distance clearance) w.clear_window scan;
      close_window = slide (scan.valid && double_leb clearance close_distance) w.close_window scan;
    }

unfoldable pub observe_costmap : ObstacleWatch → ℤ → ℤ → Bool → Bool → ObstacleWatch
observe_costmap w stamp received_ms occupied valid =
    if not (int_ltb w.costmap.stamp stamp) then w else record w {
      costmap = record { stamp = stamp; received = received_ms; valid = valid };
      occupied = occupied;
    }

unfoldable pub fresh : Sample → ℤ → ℤ → ℕ → Bool
fresh sample at clock limit_ms =
    sample.valid
    && int_ltb (pos 0) sample.stamp
    && not (int_ltb at sample.received)
    && int_ltb (at -ℤ sample.received) (pos limit_ms)
    && int_ltb (pos 0) clock
    && not (int_ltb (clock +ℤ pos 250000000) sample.stamp)
    && int_ltb (clock -ℤ sample.stamp) (pos (limit_ms * 1000000))

unfoldable pub scan_fresh : ObstacleWatch → ℤ → ℤ → Bool
scan_fresh w at_ms clock_ns = fresh w.scan at_ms clock_ns 1500

unfoldable pub costmap_fresh : ObstacleWatch → ℤ → ℤ → Bool
costmap_fresh w at_ms clock_ns = fresh w.costmap at_ms clock_ns 3000

unfoldable pub ready : ObstacleWatch → ℤ → ℤ → Bool
ready w at_ms clock_ns =
    scan_fresh w at_ms clock_ns
    && costmap_fresh w at_ms clock_ns
    && double_ltb clear_distance w.clearance
    && not w.occupied

-- The loop's test of one sample in can_resume.
unfoldable pub is_later : Sample → ℤ → ℤ → ℤ → ℤ → Bool
is_later s at_ms clock_ns after_ms after_ns =
    fresh s at_ms clock_ns 1500 && int_ltb after_ns s.stamp && int_ltb after_ms s.received

unfoldable pub can_resume : ObstacleWatch → ℤ → ℤ → ℤ → ℤ → Bool
can_resume w at_ms clock_ns after_ms after_ns =
    ready w at_ms clock_ns
    && int_ltb after_ns w.costmap.stamp
    && int_ltb after_ms w.costmap.received
    && is_later w.clear_window.oldest at_ms clock_ns after_ms after_ns
    && is_later w.clear_window.middle at_ms clock_ns after_ms after_ns
    && is_later w.clear_window.newest at_ms clock_ns after_ms after_ns

unfoldable pub decision : ObstacleWatch → ℤ → ℤ → ObstacleDecision
decision w at_ms clock_ns =
    if not (scan_fresh w at_ms clock_ns) || not (costmap_fresh w at_ms clock_ns)
    then ObstacleDecision.unknown
    else if not (fresh w.close_window.oldest at_ms clock_ns 1500)
        || not (fresh w.close_window.middle at_ms clock_ns 1500)
        || not (fresh w.close_window.newest at_ms clock_ns 1500)
    then ObstacleDecision.keep_going
    else if w.occupied
    then ObstacleDecision.blocked
    else ObstacleDecision.keep_going

-- The observations as data.
pub data Sighting : Type 0 where
  scan_sighting : ℤ → ℤ → Double → Bool → Sighting
  costmap_sighting : ℤ → ℤ → Bool → Bool → Sighting

unfoldable pub sight : ObstacleWatch → Sighting → ObstacleWatch
sight w (scan_sighting stamp received clearance valid) =
    observe_scan w stamp received clearance valid
sight w (costmap_sighting stamp received occupied valid) =
    observe_costmap w stamp received occupied valid

unfoldable pub sight_all : ObstacleWatch → List Sighting → ObstacleWatch
sight_all w [] = w
sight_all w (s ∷ ss) = sight_all (sight w s) ss
