-- ===== src/Navigation/Obstacle/Promises.antt =====
-- Motion resumes only after three new clear scans.
use robot_harness.Base.{
  ℕ, Bool, true, false, List, [], ◌∷◌, ◌+◌, ◌≤◌, ◌≡◌, ◌&&◌, arith, Bool-cases, inl, inr,
}
use robot_harness.Integer.{ℤ, int_ltb}
use robot_harness.Double.{Double, double_ltb, clear_distance}
use robot_harness.Navigation.Obstacle.{
  ObstacleWatch, Sample, Window, slide, new_scan, observe_scan, observe_costmap, fresh,
  costmap_fresh, ready, is_later, can_resume, decision, Sighting, scan_sighting, costmap_sighting,
  sight, sight_all, ObstacleDecision, new_watch,
}

abbrev pub count : Bool → ℕ
count true = 1
count false = 0

-- Whether a sighting is a new scan that is valid and clear.
abbrev pub is_clear : ObstacleWatch → Sighting → Bool
is_clear w (scan_sighting stamp received clearance valid) =
    int_ltb w.scan.stamp stamp
    && (new_scan stamp received clearance valid).valid
    && double_ltb clear_distance clearance
is_clear w (costmap_sighting _ _ _ _) = false

-- How many new clear scans a sequence of sightings has.
abbrev pub clear_scans : ObstacleWatch → List Sighting → ℕ
clear_scans w [] = 0
clear_scans w (s ∷ ss) = count (is_clear w s) + clear_scans (sight w s) ss

abbrev filled : Window → ℕ
filled w = count w.oldest.valid + count w.middle.valid + count w.newest.valid

filled-sight :
    (w : ObstacleWatch) (s : Sighting)
    → filled (sight w s).clear_window ≤ filled w.clear_window + count (is_clear w s)
unfolding sight observe_scan observe_costmap slide
filled-sight w (scan_sighting stamp received clearance valid) = ground arith
filled-sight w (costmap_sighting stamp received occupied valid) = ground arith

filled-sight_all :
    (w : ObstacleWatch) (ss : List Sighting)
    → filled (sight_all w ss).clear_window ≤ filled w.clear_window + clear_scans w ss
unfolding sight_all
filled-sight_all w [] = omega arith
filled-sight_all w (s ∷ ss) = omega (arith, filled-sight w s, filled-sight_all (sight w s) ss)

resumed_filled :
    (w : ObstacleWatch) (at clock after_ms after_ns : ℤ)
    → can_resume w at clock after_ms after_ns ≡ true
    → filled w.clear_window ≡ 3
unfolding can_resume is_later fresh
resumed_filled w at clock after_ms after_ns r = ground arith

interrupted :
    (w : ObstacleWatch) (stamp received : ℤ) (clearance : Double) (valid : Bool)
    → int_ltb w.scan.stamp stamp ≡ true
    → is_clear w (scan_sighting stamp received clearance valid) ≡ false
    → filled (sight w (scan_sighting stamp received clearance valid)).clear_window ≡ 0
unfolding sight observe_scan slide
interrupted w stamp received clearance valid n c = ground arith

-- After a new scan that is invalid or not clear, motion can resume only once three further new
-- clear scans have arrived: a clear baseline from before, fewer scans, or repeated scans do not
-- count.
pub can_resume-sight_all :
    (w : ObstacleWatch) (stamp received : ℤ) (clearance : Double) (valid : Bool)
    (ss : List Sighting) (at clock after_ms after_ns : ℤ)
    → int_ltb w.scan.stamp stamp ≡ true
    → is_clear w (scan_sighting stamp received clearance valid) ≡ false
    → let stopped = sight w (scan_sighting stamp received clearance valid) in
      can_resume (sight_all stopped ss) at clock after_ms after_ns ≡ true
      → 3 ≤ clear_scans stopped ss
can_resume-sight_all w stamp received clearance valid ss at clock after_ms after_ns n c r =
    let stopped = sight w (scan_sighting stamp received clearance valid) in
    omega (
      arith,
      interrupted w stamp received clearance valid n c,
      filled-sight_all stopped ss,
      resumed_filled (sight_all stopped ss) at clock after_ms after_ns r,
    )

-- A window whose samples are of scans one after the other, the newest being the last scan.
pub record IsOrdered (last : Sample) (w : Window) : Type 0 where
  pub newest_last : w.newest.valid ≡ true → w.newest ≡ last
  pub newest_after :
      w.newest.valid ≡ true → w.middle.valid ≡ true → int_ltb w.middle.stamp w.newest.stamp ≡ true
  pub middle_after :
      w.middle.valid ≡ true → w.oldest.valid ≡ true → int_ltb w.oldest.stamp w.middle.stamp ≡ true

slide-IsOrdered :
    (b : Bool) (last s : Sample) (w : Window)
    → int_ltb last.stamp s.stamp ≡ true
    → IsOrdered last w
    → IsOrdered s (slide b w s)
unfolding slide
slide-IsOrdered true last s w n o = ground arith
slide-IsOrdered false last s w n o = ground arith

-- Both windows of a watch.
pub record WatchIsOrdered (w : ObstacleWatch) : Type 0 where
  pub close_ordered : IsOrdered w.scan w.close_window
  pub clear_ordered : IsOrdered w.scan w.clear_window

sight-IsOrdered : (w : ObstacleWatch) (s : Sighting) → WatchIsOrdered w → WatchIsOrdered (sight w s)
unfolding sight observe_scan observe_costmap new_scan
sight-IsOrdered w (scan_sighting stamp received clearance valid) o =
    let scan = new_scan stamp received clearance valid in
    elim (Bool-cases (int_ltb w.scan.stamp stamp)) [
      | inl n ↦
          rw (n, sight, observe_scan)
            record {
              close_ordered = slide-IsOrdered _ w.scan scan w.close_window n o.close_ordered;
              clear_ordered = slide-IsOrdered _ w.scan scan w.clear_window n o.clear_ordered;
            }
      | inr n ↦ rw (n, sight, observe_scan) o
    ]
sight-IsOrdered w (costmap_sighting stamp received occupied valid) o = ground arith

pub sight_all-IsOrdered :
    (w : ObstacleWatch) (ss : List Sighting) → WatchIsOrdered w → WatchIsOrdered (sight_all w ss)
unfolding sight_all
sight_all-IsOrdered w [] o = o
sight_all-IsOrdered w (s ∷ ss) o = sight_all-IsOrdered (sight w s) ss (sight-IsOrdered w s o)

new_watch-IsOrdered : WatchIsOrdered new_watch
new_watch-IsOrdered = ground arith

-- Three samples of a window, one after the other, all fresh, the last being the last scan.
abbrev pub AreSuccessive : ObstacleWatch → Window → ℤ → ℤ → Type 0
AreSuccessive w window at clock =
    (fresh window.oldest at clock 1500 ≡ true)
    × (fresh window.middle at clock 1500 ≡ true)
    × (fresh window.newest at clock 1500 ≡ true)
    × (int_ltb window.oldest.stamp window.middle.stamp ≡ true)
    × (int_ltb window.middle.stamp window.newest.stamp ≡ true)
    × (window.newest ≡ w.scan)

fresh_valid :
    (s : Sample) (at clock : ℤ) (limit : ℕ) → fresh s at clock limit ≡ true → s.valid ≡ true
unfolding fresh
fresh_valid s at clock limit f = ground arith

fresh_successive :
    (w : ObstacleWatch) (window : Window) (at clock : ℤ)
    → IsOrdered w.scan window
    → fresh window.oldest at clock 1500 ≡ true
    → fresh window.middle at clock 1500 ≡ true
    → fresh window.newest at clock 1500 ≡ true
    → AreSuccessive w window at clock
fresh_successive w window at clock o a b c =
    let first = fresh_valid window.oldest at clock 1500 a in
    let second = fresh_valid window.middle at clock 1500 b in
    let third = fresh_valid window.newest at clock 1500 c in
    (a, b, c, o.middle_after second first, o.newest_after third second, o.newest_last third)

-- The watch decides that the way is blocked only with a fresh costmap that is occupied and three
-- fresh close scans of strictly increasing stamps, the last scan among them.
pub decision-AreSuccessive :
    (ss : List Sighting) (at clock : ℤ)
    → let w = sight_all new_watch ss in
      decision w at clock ≡ ObstacleDecision.blocked
      → (w.occupied ≡ true)
        × (costmap_fresh w at clock ≡ true)
        × AreSuccessive w w.close_window at clock
unfolding decision
decision-AreSuccessive ss at clock d =
    let w = sight_all new_watch ss in
    let ordered = (sight_all-IsOrdered new_watch ss new_watch-IsOrdered).close_ordered in
    ground (arith, fresh_successive w w.close_window at clock ordered)

-- Motion may resume only with three fresh clear scans of strictly increasing stamps, the last scan
-- among them, the first of them made after the boundary, and an unoccupied costmap after it.
pub can_resume-AreSuccessive :
    (ss : List Sighting) (at clock after_ms after_ns : ℤ)
    → let w = sight_all new_watch ss in
      can_resume w at clock after_ms after_ns ≡ true
      → (w.occupied ≡ false)
        × (int_ltb after_ns w.costmap.stamp ≡ true)
        × (int_ltb after_ns w.clear_window.oldest.stamp ≡ true)
        × (int_ltb after_ms w.clear_window.oldest.received ≡ true)
        × AreSuccessive w w.clear_window at clock
unfolding can_resume ready is_later
can_resume-AreSuccessive ss at clock after_ms after_ns r =
    let w = sight_all new_watch ss in
    let ordered = (sight_all-IsOrdered new_watch ss new_watch-IsOrdered).clear_ordered in
    ground (arith, fresh_successive w w.clear_window at clock ordered)
