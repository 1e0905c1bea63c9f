-- ===== src/Navigation/Watch/Promises.antt =====
-- A loss is never taken back by an observation, and only progress renews a stream.
use robot_harness.Base.{
  ℕ, true, false, none, some, List, [], ◌∷◌, ◌+◌, ◌≤◌, ◌<◌, ◌≡◌, ◌≢◌, ◌⊎◌, refl, sym, subst, ◌∙◌,
  arith,
}
use robot_harness.Integer.{ℤ, int_ltb}
use robot_harness.Navigation.Watch.{
  StaleObservation, Stream, observe, expired, RuntimeObservationWatch, start, found_stale, stale,
  latch_expiry, observe_clock, observe_odometry, Observation, clock_sample, odometry_sample,
  take_sample, take_samples, budget_ms,
}

lost-take_sample :
    (w : RuntimeObservationWatch) (o : Observation) (l : StaleObservation)
    → w.lost ≡ some l
    → (take_sample w o).lost ≡ some l
unfolding take_sample observe_clock observe_odometry latch_expiry
lost-take_sample w (clock_sample s t) l e = ground arith
lost-take_sample w (odometry_sample s t v) l e = ground arith

lost-take_samples :
    (w : RuntimeObservationWatch) (os : List Observation) (l : StaleObservation)
    → w.lost ≡ some l
    → (take_samples w os).lost ≡ some l
unfolding take_samples
lost-take_samples w [] l e = e
lost-take_samples w (o ∷ os) l e =
    lost-take_samples (take_sample w o) os l (lost-take_sample w o l e)

abbrev pub received_at : Observation → ℕ
received_at (clock_sample _ t) = t
received_at (odometry_sample _ t _) = t

latched-take_sample :
    (w : RuntimeObservationWatch) (o : Observation) (l : StaleObservation)
    → stale w (received_at o) ≡ some l
    → (take_sample w o).lost ≡ some l
unfolding take_sample observe_clock observe_odometry latch_expiry stale
latched-take_sample w (clock_sample s t) l e = ground arith
latched-take_sample w (odometry_sample s t v) l e = ground arith

-- A stream that is stale when a sample arrives is lost: neither that sample nor any later one
-- takes the loss back, and every later question, at any time, gets the same answer.
pub stale-take_samples :
    (w : RuntimeObservationWatch) (o : Observation) (os : List Observation) (l : StaleObservation)
    (at : ℕ)
    → stale w (received_at o) ≡ some l
    → stale (take_samples (take_sample w o) os) at ≡ some l
unfolding stale
stale-take_samples w o os l at e =
    let kept = lost-take_samples (take_sample w o) os l (latched-take_sample w o l e) in
    ground arith

-- The samples that bring no progress to a stream that has a stamp: its own samples whose stamp is
-- not newer or, for odometry, that are invalid, and all samples of the other stream.
abbrev pub IsSilent : ℤ → StaleObservation → Observation → Type 0
IsSilent stamp StaleObservation.stale_clock (clock_sample s _) = int_ltb stamp s ≡ false
IsSilent stamp StaleObservation.stale_clock (odometry_sample _ _ _) = Unit
IsSilent stamp StaleObservation.stale_odometry (clock_sample _ _) = Unit
IsSilent stamp StaleObservation.stale_odometry (odometry_sample s _ v) =
    (v ≡ false) ⊎ (int_ltb stamp s ≡ false)

abbrev pub AreSilent : ℤ → StaleObservation → List Observation → Type 0
AreSilent stamp l [] = Unit
AreSilent stamp l (o ∷ os) = IsSilent stamp l o × AreSilent stamp l os

abbrev pub stream_of : RuntimeObservationWatch → StaleObservation → Stream
stream_of w StaleObservation.stale_clock = w.clock
stream_of w StaleObservation.stale_odometry = w.odometry

IsSilent-take_sample :
    (w : RuntimeObservationWatch) (l : StaleObservation) (o : Observation)
    → IsSilent (stream_of w l).stamp l o
    → (stream_of (take_sample w o) l ≡ stream_of w l) × ((take_sample w o).is_active ≡ w.is_active)
unfolding take_sample observe_clock observe_odometry latch_expiry observe
IsSilent-take_sample w StaleObservation.stale_clock (clock_sample s t) q = ground arith
IsSilent-take_sample w StaleObservation.stale_clock (odometry_sample s t v) q = ground arith
IsSilent-take_sample w StaleObservation.stale_odometry (clock_sample s t) q = ground arith
IsSilent-take_sample w StaleObservation.stale_odometry (odometry_sample s t v) q = ground arith

AreSilent-take_samples :
    (w : RuntimeObservationWatch) (l : StaleObservation) (os : List Observation)
    → AreSilent (stream_of w l).stamp l os
    → (stream_of (take_samples w os) l ≡ stream_of w l)
      × ((take_samples w os).is_active ≡ w.is_active)
unfolding take_samples
AreSilent-take_samples w l [] q = (refl, refl)
AreSilent-take_samples w l (o ∷ os) (q, qs) =
    let (same, kept) = IsSilent-take_sample w l o q in
    let (same', kept') =
      AreSilent-take_samples (take_sample w o) l os
        (subst (λ s. AreSilent s.stamp l os) (sym same) qs) in
    (same' ∙ same, kept' ∙ kept)

-- A stream of a started watch that gets no progress, whatever else arrives, is reported: from
-- the budget after its last progress on, the watch is not fresh.
pub AreSilent-stale :
    (w : RuntimeObservationWatch) (l : StaleObservation) (os : List Observation) (at : ℕ)
    → w.is_active ≡ true
    → AreSilent (stream_of w l).stamp l os
    → (stream_of w l).advanced_at + budget_ms ≤ at
    → stale (take_samples w os) at ≢ none
unfolding stale found_stale expired
AreSilent-stale w StaleObservation.stale_clock os at a q late =
    ground (arith, AreSilent-take_samples w StaleObservation.stale_clock os q)
AreSilent-stale w StaleObservation.stale_odometry os at a q late =
    ground (arith, AreSilent-take_samples w StaleObservation.stale_odometry os q)

-- Samples of a started watch, each received within the budget of both streams' last progress.
abbrev pub InTime : RuntimeObservationWatch → ℕ → Type 0
InTime w at = (at < w.clock.advanced_at + budget_ms) × (at < w.odometry.advanced_at + budget_ms)

abbrev pub AreInTime : RuntimeObservationWatch → List Observation → Type 0
AreInTime w [] = Unit
AreInTime w (o ∷ os) = InTime w (received_at o) × AreInTime (take_sample w o) os

InTime-take_sample :
    (w : RuntimeObservationWatch) (o : Observation)
    → w.lost ≡ none
    → InTime w (received_at o)
    → (take_sample w o).lost ≡ none
unfolding take_sample observe_clock observe_odometry latch_expiry stale found_stale expired
InTime-take_sample w (clock_sample s t) e q = ground arith
InTime-take_sample w (odometry_sample s t v) e q = ground arith

AreInTime-take_samples :
    (w : RuntimeObservationWatch) (os : List Observation)
    → w.lost ≡ none
    → AreInTime w os
    → (take_samples w os).lost ≡ none
unfolding take_samples
AreInTime-take_samples w [] e q = e
AreInTime-take_samples w (o ∷ os) e (q, qs) =
    AreInTime-take_samples (take_sample w o) os (InTime-take_sample w o e q) qs

-- No false alarm: where every sample after the start is received within the budget of both
-- streams' last progress, the watch reports nothing at a time within it too.
pub AreInTime-stale :
    (w : RuntimeObservationWatch) (os : List Observation) (t at : ℕ)
    → AreInTime (start w t) os
    → InTime (take_samples (start w t) os) at
    → stale (take_samples (start w t) os) at ≡ none
unfolding stale found_stale expired start
AreInTime-stale w os t at q late = ground (arith, AreInTime-take_samples (start w t) os refl q)
