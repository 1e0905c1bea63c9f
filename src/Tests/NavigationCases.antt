-- ===== src/Tests/NavigationCases.antt =====
-- The watch's and the leaf record's theorems at concrete inputs.
use robot_harness.Base.{
  String, true, false, none, some, List, [], ◌∷◌, ◌≡◌, ◌≢◌, refl, arith, is_empty,
}
use robot_harness.HexText.{size, is_hex, is_identifier}
use robot_harness.Integer.{pos, negsuc, int_ltb}
use robot_harness.Navigation.Watch.{
  StaleObservation, expired, RuntimeObservationWatch, idle_watch, found_stale, stale, Observation,
  clock_sample, odometry_sample, take_sample, take_samples,
}
use robot_harness.Navigation.Watch.Promises.{stale-take_samples, AreSilent-stale}
use robot_harness.Navigation.Leaf.{
  LeafRecord, LeafEvent, enters, reports, enter, is_ambiguous, associate, kind, observe_all,
}
use robot_harness.Navigation.Leaf.Promises.{Confirms, is_entered, terminal-Confirms}

abbrev watch : RuntimeObservationWatch
watch = record idle_watch {
  is_active = true;
  clock = record { stamp = pos 7; advanced_at = 100 };
  odometry = record { stamp = pos 9; advanced_at = 200 };
}

abbrev samples : List Observation
samples =
    odometry_sample (pos 12) 900 true
    ∷ clock_sample (pos 7) 1500
    ∷ clock_sample (negsuc 3) 1600
    ∷ odometry_sample (pos 13) 1700 false
    ∷ []

-- The clock is restored at 2100, when it was stale.
stale-take_samples_example :
    stale (take_samples (take_sample watch (clock_sample (pos 8) 2100)) samples) 1000
    ≡ some StaleObservation.stale_clock
unfolding stale found_stale expired
stale-take_samples_example =
    stale-take_samples watch (clock_sample (pos 8) 2100) samples StaleObservation.stale_clock 1000
      refl

AreSilent-stale_example : stale (take_samples watch samples) 2100 ≢ none
unfolding int_ltb
AreSilent-stale_example =
    AreSilent-stale watch StaleObservation.stale_clock samples 2100 refl
      (tt, (refl, (refl, (tt, tt)))) (omega arith)

abbrev leaf : LeafRecord
leaf = record {
  action = "follow_path";
  scope = "0123456789abcdef0123456789abcdef";
  uuid = "";
  terminal = "";
  entered = false;
  ambiguous = false;
}

abbrev child : String
child = "fedcba9876543210fedcba9876543210"

abbrev events : List LeafEvent
events = enters ∷ reports child "" ∷ enters ∷ reports child "succeeded" ∷ []

terminal-Confirms_example :
    (leaf.ambiguous ≡ false)
    × (is_entered false events ≡ true)
    × ((observe_all leaf events).terminal ≢ "")
    × Confirms (observe_all leaf events).uuid (observe_all leaf events).terminal false events
unfolding observe_all enter associate is_ambiguous is_identifier is_hex size is_empty kind
terminal-Confirms_example = terminal-Confirms leaf events refl
