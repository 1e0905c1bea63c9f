-- ===== src/Sample/Steady.antt =====
-- With a clock that never moves backwards every command returns.
use robot_harness.Base.{◌≡◌, ◌≤◌, ◌+◌, ℕ, refl, arith, false, ltb, ◌&&◌, sym, subst}
use robot_harness.Action.{Action, pure, gets, modify}
use robot_harness.Action.Rules.{
  Returns, Returns-pure, Returns-gets, Returns-bind, Returns-modify, returns_rules, Finishes,
  Finishes-bind, Ensures-Finishes,
}
use robot_harness.Gate.Types.{OperationAuthority}
use robot_harness.Gate.Calls.{Call, apply}
use robot_harness.Sample.Types.{SampleResult, Adapter}
use robot_harness.Sample.Host.{Host, ask, tell, adapt, read_time}
use robot_harness.Sample.Worker.{accept_result}
use robot_harness.Sample.Events.{offer}
use robot_harness.Sample.Queue.{process_all-Returns, process_all-Finishes}
use robot_harness.Sample.Built.{
  IsAside, IsBuilt, answers, looks, follows, changes, tells, asks, reads_time, offers, drains,
}

-- What the header asks of the clock.
pub record IsNondecreasing (clock : ℕ → ℕ) : Type 0 where
  pub at : (m n : ℕ) → m ≤ n → clock m ≤ clock n

-- The clock does not move backwards, and the next reading is not before the last one.
pub record IsSteady (h : Host) : Type 0 where
  pub nondecreasing : IsNondecreasing h.clock
  pub next_is_later : h.last_time ≤ h.clock h.ticks

aside-IsSteady : (s t : Host) → IsAside s t → IsSteady s → IsSteady t
aside-IsSteady s t a h = record {
  nondecreasing = subst IsNondecreasing (sym a.clock_stays) h.nondecreasing;
  next_is_later = rw (a.clock_stays, a.ticks_stay, a.time_stays) h.next_is_later;
}

pub gate-IsSteady :
    (s : Host) (c : Call) → IsSteady s → IsSteady (record s { gate = apply s.gate c })
gate-IsSteady s c h = record { nondecreasing = h.nondecreasing; next_is_later = h.next_is_later }

is_not_early :
    (s : Host) → IsSteady s → s.has_read_time && ltb (s.clock s.ticks) s.last_time ≡ false
is_not_early s h = ground (arith, h.next_is_later)

read_time-Returns : Returns IsSteady read_time
unfolding read_time
read_time-Returns = record {
  at = λ s h. rw (is_not_early s h) (
    (s.clock s.ticks, refl),
    record {
      nondecreasing = h.nondecreasing;
      next_is_later = h.nondecreasing.at s.ticks (s.ticks + 1) (omega arith);
    },
  );
}

adapt-Returns : (f : Adapter → Adapter) → Returns IsSteady (adapt f)
unfolding adapt
adapt-Returns f =
    Returns-modify _
      λ s h. record { nondecreasing = h.nondecreasing; next_is_later = h.next_is_later }

offer-Returns : (a : OperationAuthority) (r : SampleResult) → Returns IsSteady (offer a r)
unfolding offer accept_result
offer-Returns a r = search (returns_rules, adapt-Returns) depth 14 fits 5000

pub IsBuilt-Returns : {A : Type 0} {m : Action Host A} → IsBuilt m → Returns IsSteady m
unfolding tell ask
IsBuilt-Returns (answers a) = Returns-pure a
IsBuilt-Returns (looks f) = Returns-gets f
IsBuilt-Returns (follows m f h k) = Returns-bind m f (IsBuilt-Returns h) λ a. IsBuilt-Returns (k a)
IsBuilt-Returns (changes f h) = Returns-modify f λ s k. aside-IsSteady s (f s) (h s) k
IsBuilt-Returns (tells c) = record { at = λ s h. ((tt, refl), gate-IsSteady s c h) }
IsBuilt-Returns (asks c) = record { at = λ s h. ((_, refl), gate-IsSteady s c h) }
IsBuilt-Returns reads_time = read_time-Returns
IsBuilt-Returns (drains h) = process_all-Returns (IsBuilt-Returns h)
IsBuilt-Returns (offers a r) = offer-Returns a r

-- An offer returns whatever the clock does.
offer-Finishes : (a : OperationAuthority) (r : SampleResult) → Finishes (offer a r)
unfolding offer accept_result adapt
offer-Finishes a r =
    let returning : Returns (λ (s : Host). Unit {0}) (offer a r) =
      search (returns_rules, Returns-modify) depth 14 fits 5000 in
    Ensures-Finishes (λ s. tt) returning

-- Whatever the clock does, every action of the host returns or throws.
pub IsBuilt-Finishes : {A : Type 0} {m : Action Host A} → IsBuilt m → Finishes m
unfolding tell ask pure gets modify read_time
IsBuilt-Finishes (answers a) = record { at = λ s e. cc }
IsBuilt-Finishes (looks f) = record { at = λ s e. cc }
IsBuilt-Finishes (follows m f h k) =
    Finishes-bind m f (IsBuilt-Finishes h) λ a. IsBuilt-Finishes (k a)
IsBuilt-Finishes (changes f h) = record { at = λ s e. cc }
IsBuilt-Finishes (tells c) = record { at = λ s e. cc }
IsBuilt-Finishes (asks c) = record { at = λ s e. cc }
IsBuilt-Finishes reads_time = record { at = λ s e. ground arith }
IsBuilt-Finishes (drains h) = process_all-Finishes (IsBuilt-Finishes h)
IsBuilt-Finishes (offers a r) = offer-Finishes a r
