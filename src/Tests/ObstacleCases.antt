-- ===== src/Tests/ObstacleCases.antt =====
-- The obstacle watch's theorems at concrete inputs.
use robot_harness.Base.{ℕ, Bool, true, false, List, [], ◌∷◌, ◌*◌, ◌^◌, ◌≤◌, refl}
use robot_harness.Integer.{pos, sub_nat, negated, int_ltb, ◌+ℤ◌, ◌-ℤ◌}
use robot_harness.Double.{Double, finite, double_ltb, double_leb}
use robot_harness.Navigation.Obstacle.{
  new_watch, slide, new_scan, observe_scan, observe_costmap, fresh, scan_fresh, costmap_fresh,
  ready, is_later, can_resume, Sighting, scan_sighting, costmap_sighting, sight, sight_all,
}
use robot_harness.Navigation.Obstacle.Promises.{clear_scans, can_resume-sight_all}

abbrev metres : ℕ → Double
metres n = finite (pos (n * 2 ^ 1074))

-- A valid scan, `n` tenths of a second after the start.
abbrev scan_at : ℕ → ℕ → Sighting
scan_at n distance = scan_sighting (pos (n * 100000000)) (pos (n * 100)) (metres distance) true

abbrev costmap_at : ℕ → Bool → Sighting
costmap_at n occupied = costmap_sighting (pos (n * 100000000)) (pos (n * 100)) occupied true

abbrev clear_sightings : List Sighting
clear_sightings = costmap_at 13 false ∷ scan_at 11 2 ∷ scan_at 12 2 ∷ scan_at 13 2 ∷ []

can_resume-sight_all_example : 3 ≤ clear_scans (sight new_watch (scan_at 10 1)) clear_sightings
unfolding can_resume ready is_later fresh scan_fresh costmap_fresh slide new_scan observe_scan
    observe_costmap sight sight_all int_ltb double_ltb double_leb sub_nat negated ◌+ℤ◌ ◌-ℤ◌
can_resume-sight_all_example =
    can_resume-sight_all new_watch (pos 1000000000) (pos 1000) (metres 1) true clear_sightings
      (pos 1400) (pos 1400000000) (pos 1050) (pos 1050000000) refl refl refl
