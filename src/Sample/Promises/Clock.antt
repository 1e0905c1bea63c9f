-- ===== src/Sample/Promises/Clock.antt =====
-- What the host does where its clock moves backwards.
use robot_harness.Base.{◌≡◌, ◌<◌, ◌+◌, true, false, Bool, arith, ap, ◌∙◌}
use robot_harness.Action.{Action, Outcome, thrown, gets, continue, ◌>>=◌}
use robot_harness.Gate.Types.{OperationAuthority}
use robot_harness.Sample.Types.{SampleRequest}
use robot_harness.Sample.Host.{Host, read_time}
use robot_harness.Sample.Control.{poll, request_cancel}
use robot_harness.Sample.Rebind.{rebind_provider}
use robot_harness.Sample.Events.{process_next, process_events, process_all}
use robot_harness.Sample.Commands.{
  Command, execute, prepare, dispatch_prepared, submit, complete_deferred, shutdown,
}
use robot_harness.Sample.Promises.Shutdown.{first_shutdown, shutdown_first}

-- The clock is read, and nothing else happens.
abbrev pub after_reading : Host → Host
after_reading h = record h { ticks = h.ticks + 1 }

-- The commands that poll before anything else, on a host that is not shut down.
abbrev pub polls_first : Command → Bool
polls_first Command.polls = true
polls_first Command.completes = true
polls_first Command.processes_next = true
polls_first Command.processes_all = true
polls_first Command.shuts_down = true
polls_first (Command.rebinds _ _ _) = true
polls_first (Command.prepares _) = true
polls_first (Command.submits _) = true
polls_first (Command.dispatches _) = true
polls_first (Command.cancels _) = true
polls_first _ = false

module _ (h : Host) (has : h.has_read_time ≡ true) (early : h.clock h.ticks < h.last_time) where
  read_time-early : read_time h ≡ (thrown, after_reading h)
  unfolding read_time
  read_time-early = ground arith

  throws_first :
      {A B : Type 0} (m : Action Host A) (f : A → Action Host B)
      → m h ≡ (thrown, after_reading h)
      → (m >>= f) h ≡ (thrown, after_reading h)
  unfolding ◌>>=◌
  throws_first m f e = ap (λ (t : Outcome _ × Host). continue t.0 f t.1) e

  poll-early : poll h ≡ (thrown, after_reading h)
  unfolding poll
  poll-early = throws_first read_time _ read_time-early

  process_all-early : process_all h ≡ (thrown, after_reading h)
  unfolding process_all process_events process_next ◌>>=◌ gets
  process_all-early = throws_first (poll >>= _) _ (throws_first poll _ poll-early)

  prepare-early : (q : SampleRequest) → prepare q h ≡ (thrown, after_reading h)
  unfolding prepare
  prepare-early q = throws_first poll _ poll-early

  dispatch_prepared-early :
      (a : OperationAuthority) → dispatch_prepared a h ≡ (thrown, after_reading h)
  unfolding dispatch_prepared ◌>>=◌ gets
  dispatch_prepared-early a = throws_first poll _ poll-early

  shutdown-early : h.is_shutdown ≡ false → shutdown h ≡ (thrown, after_reading h)
  unfolding first_shutdown
  shutdown-early e = shutdown_first h e ∙ throws_first poll _ poll-early

-- A clock that has moved backwards is an error before anything is done: each command that polls
-- first throws, and all that it changes is the number of readings. In particular no event is
-- handled, no operation admitted or dispatched, and no stop requested.
pub execute-early :
    (h : Host) (c : Command)
    → h.has_read_time ≡ true
    → h.clock h.ticks < h.last_time
    → h.is_shutdown ≡ false
    → polls_first c ≡ true
    → execute c h ≡ (thrown, after_reading h)
unfolding execute complete_deferred process_next rebind_provider submit request_cancel
execute-early h Command.polls r t s p = throws_first h r t poll _ (poll-early h r t)
execute-early h Command.completes r t s p =
    throws_first h r t (poll >>= _) _ (throws_first h r t poll _ (poll-early h r t))
execute-early h Command.processes_next r t s p =
    throws_first h r t (poll >>= _) _ (throws_first h r t poll _ (poll-early h r t))
execute-early h Command.processes_all r t s p = process_all-early h r t
execute-early h Command.shuts_down r t s p = shutdown-early h r t s
execute-early h (Command.rebinds b n m) r t s p =
    throws_first h r t (poll >>= _) _ (throws_first h r t poll _ (poll-early h r t))
execute-early h (Command.prepares q) r t s p =
    throws_first h r t (prepare q) _ (prepare-early h r t q)
execute-early h (Command.submits q) r t s p =
    throws_first h r t (prepare q >>= _) _
      (throws_first h r t (prepare q) _ (prepare-early h r t q))
execute-early h (Command.dispatches a) r t s p =
    throws_first h r t (dispatch_prepared a) _ (dispatch_prepared-early h r t a)
execute-early h (Command.cancels a) r t s p =
    throws_first h r t (poll >>= _) _ (throws_first h r t poll _ (poll-early h r t))
execute-early h Command.initializes r t s p = cc
execute-early h Command.reads_binding r t s p = cc
execute-early h (Command.withdraws b) r t s p = cc
execute-early h (Command.sets_worker b) r t s p = cc
execute-early h (Command.sets_sink b) r t s p = cc
execute-early h Command.rejects_next r t s p = cc
execute-early h Command.fails_next r t s p = cc
execute-early h Command.replays r t s p = cc
execute-early h (Command.sets_cancellation m) r t s p = cc
execute-early h (Command.sets_settlement b) r t s p = cc
execute-early h (Command.sets_replay b) r t s p = cc
