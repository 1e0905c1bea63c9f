-- ===== src/Sample/Promises/Shutdown.antt =====
-- shutdown of the sample host, and its destructor.
use robot_harness.Base.{◌≡◌, ◌≢◌, true, false, [], arith, refl, subst, sym, ap, ◌∙◌}
use robot_harness.Action.{
  Action, Outcome, returned, thrown, unfinished, pure, gets, modify, on_throw, recover, continue,
  ◌>>=◌, ◌>>◌,
}
use robot_harness.Action.Rules.{Ensures, Ensures-bind, Returns}
use robot_harness.Gate.Types.{InitializationState, BindingPhase}
use robot_harness.Gate.Startup.{close_admission}
use robot_harness.Gate.Calls.{close, apply}
use robot_harness.Gate.Promises.Startup.{run_shut}
use robot_harness.Sample.Types.{close_adapter}
use robot_harness.Sample.Host.{Host, tell, adapt}
use robot_harness.Sample.Worker.{drain_pending}
use robot_harness.Sample.Control.{poll, discard_prepared}
use robot_harness.Sample.Events.{process_all}
use robot_harness.Sample.Commands.{shutdown, destroy, close_host}
use robot_harness.Sample.Built.{IsBuilt}
use robot_harness.Sample.Built.Control.{poll-IsBuilt, discard_prepared-IsBuilt}
use robot_harness.Sample.Built.Worker.{drain_pending-IsBuilt}
use robot_harness.Sample.Built.Events.{process_all-IsBuilt}
use robot_harness.Sample.Moves.{IsBuilt-Moves}
use robot_harness.Sample.Delivered.{calls_of, replay-run}
use robot_harness.Sample.Built.Commands.{shutdown-IsBuilt}
use robot_harness.Sample.Steady.{IsSteady, IsBuilt-Returns, IsBuilt-Finishes, gate-IsSteady}
use robot_harness.Sample.Promises.Endings.{process_all-ends}

-- The gate is closed for good.
record IsShut (h : Host) : Type 0 where
  steady : IsSteady h
  state_closed : h.gate.initialization_state ≡ InitializationState.closed
  phase_closed : h.gate.binding_phase ≡ BindingPhase.closed

close-IsShut : Ensures IsSteady IsShut (tell close)
unfolding tell apply close_admission
close-IsShut = record {
  at = λ s h. (
    (tt, refl),
    record { steady = gate-IsSteady s close h; state_closed = refl; phase_closed = refl },
  );
}

IsBuilt-IsShut : {A : Type 0} {m : Action Host A} → IsBuilt m → Returns IsShut m
IsBuilt-IsShut {A} {m} b = record {
  at = λ s h.
      let (answered, steady) = (IsBuilt-Returns b).at s h.steady in
      let moved = (IsBuilt-Moves b).at s in
      let shut = run_shut s.gate (calls_of moved.moves) h.state_closed h.phase_closed in
      let driven = moved.driven ∙ replay-run s.gate moved.moves in
      (
        answered,
        record {
          steady = steady;
          state_closed = rw driven shut.0;
          phase_closed = rw driven shut.1;
        },
      );
}

abbrev IsDrained : Host → Type 0
IsDrained h = IsShut h × (h.staged_events ≡ [])

process_all-IsDrained : Ensures IsShut IsDrained process_all
process_all-IsDrained = record {
  at = λ s h.
      let (answered, shut) = (IsBuilt-IsShut process_all-IsBuilt).at s h in
      (answered, (shut, (process_all-ends s h.steady).1));
}

-- What shutdown leaves.
pub record IsOver (h : Host) : Type 0 where
  pub over : h.is_shutdown ≡ true
  pub queue_empty : h.staged_events ≡ []
  pub adapter_closed : h.adapter.is_closed ≡ true
  pub callback_cleared : h.adapter.has_callback ≡ false
  pub admission_closed : h.gate.initialization_state ≡ InitializationState.closed
  pub binding_closed : h.gate.binding_phase ≡ BindingPhase.closed

close_host-IsOver : Ensures IsDrained IsOver close_host
unfolding close_host adapt modify ◌>>=◌ close_adapter
close_host-IsOver = record {
  at = λ s h. (
    (tt, refl),
    record {
      over = refl;
      queue_empty = h.1;
      adapter_closed = ground arith;
      callback_cleared = refl;
      admission_closed = h.0.state_closed;
      binding_closed = h.0.phase_closed;
    },
  );
}

-- shutdown, where it was not called before.
unfoldable pub first_shutdown : Action Host (Unit {0})
first_shutdown = do poll; tell close; discard_prepared; drain_pending; process_all; close_host

shuts_down : Ensures IsSteady IsOver first_shutdown
unfolding first_shutdown
shuts_down = Ensures-bind _ _ (IsBuilt-Returns poll-IsBuilt) λ _. Ensures-bind _ _ close-IsShut λ _.
    Ensures-bind _ _ (IsBuilt-IsShut discard_prepared-IsBuilt) λ _.
      Ensures-bind _ _ (IsBuilt-IsShut drain_pending-IsBuilt)
        λ _. Ensures-bind _ _ process_all-IsDrained λ _. close_host-IsOver

pub shutdown_first : (h : Host) → h.is_shutdown ≡ false → shutdown h ≡ first_shutdown h
unfolding shutdown first_shutdown ◌>>=◌ gets
shutdown_first h e = rw e

shutdown_again : (h : Host) → h.is_shutdown ≡ true → shutdown h ≡ (returned tt, h)
unfolding shutdown ◌>>=◌ gets pure
shutdown_again h e = rw e

-- With a clock that never moves backwards shutdown returns: admission and binding are closed, every
-- staged event was processed, and the adapter is closed. A second shutdown changes nothing.
pub shutdown-ends :
    (h : Host)
    → IsSteady h
    → h.is_shutdown ≡ false
    → ((shutdown h).0 ≡ returned tt)
      × IsOver (shutdown h).1
      × (shutdown (shutdown h).1 ≡ (returned tt, (shutdown h).1))
shutdown-ends h k e =
    let (answered, over) = shuts_down.at h k in
    let same = shutdown_first h e in
    let over' : IsOver (shutdown h).1 = subst (λ t. IsOver t.1) (sym same) over in
    (ap (λ t. t.0) same ∙ answered.1, over', shutdown_again (shutdown h).1 over'.over)

-- Where the action returns, `Q` holds.
abbrev Leaves : {A : Type 0} → (Host → Type 0) → Outcome A × Host → Type 0
Leaves Q (returned a, t) = Q t
Leaves Q (thrown, t) = Unit {0}
Leaves Q (unfinished, t) = Unit {0}

Leaves-continue :
    {A B : Type 0} (Q : Host → Type 0) (r : Outcome A) (f : A → Action Host B) (t : Host)
    → ((a : A) (s : Host) → Leaves Q (f a s))
    → Leaves Q (continue r f t)
Leaves-continue Q (returned a) f t h = h a t
Leaves-continue Q thrown f t h = tt
Leaves-continue Q unfinished f t h = tt

Leaves-bind :
    {A B : Type 0} (Q : Host → Type 0) (m : Action Host A) (f : A → Action Host B)
    → ((a : A) (s : Host) → Leaves Q (f a s))
    → (s : Host) → Leaves Q ((m >>= f) s)
unfolding ◌>>=◌
Leaves-bind Q m f h s = Leaves-continue Q (m s).0 f (m s).1 h

-- The adapter accepts nothing more and reports nothing more.
abbrev IsCut : Host → Type 0
IsCut h = (h.adapter.is_closed ≡ true) × (h.adapter.has_callback ≡ false)

close_host-IsCut : (u : Unit {0}) (s : Host) → Leaves IsCut (close_host s)
unfolding close_host adapt modify ◌>>=◌ close_adapter
close_host-IsCut u s = (ground arith, refl)

first_shutdown-IsCut : (s : Host) → Leaves IsCut (first_shutdown s)
unfolding first_shutdown
first_shutdown-IsCut = Leaves-bind IsCut poll _ λ _. Leaves-bind IsCut (tell close) _ λ _.
    Leaves-bind IsCut discard_prepared _
      λ _. Leaves-bind IsCut drain_pending _ λ _. Leaves-bind IsCut process_all _ close_host-IsCut

caught_IsCut :
    (r : Outcome (Unit {0})) (t : Host)
    → Leaves IsCut (r, t)
    → r ≢ unfinished
    → let caught : Outcome (Unit {0}) × Host =
        recover r (adapt λ a. close_adapter (record a { has_callback = false })) t in
      (caught.0 ≡ returned tt) × IsCut caught.1
unfolding adapt modify close_adapter
caught_IsCut (returned a) t k n = (refl, k)
caught_IsCut thrown t k n = (refl, (ground arith, ground arith))
caught_IsCut unfinished t k n = absurd (n refl)

-- The destructor of a host that was not shut down returns whatever the clock does: the loop in its
-- shutdown ends within its rounds, an exception in it is caught, and the adapter is closed and its callback cleared either way.
pub destroy-ends :
    (h : Host)
    → h.is_shutdown ≡ false
    → ((destroy h).0 ≡ returned tt)
      × ((destroy h).1.adapter.is_closed ≡ true)
      × ((destroy h).1.adapter.has_callback ≡ false)
unfolding destroy on_throw
destroy-ends h e =
    let cut = subst (Leaves IsCut) (sym (shutdown_first h e)) (first_shutdown-IsCut h) in
    let caught =
      caught_IsCut (shutdown h).0 (shutdown h).1 cut ((IsBuilt-Finishes shutdown-IsBuilt).at h) in
    (caught.0, caught.1.0, caught.1.1)
