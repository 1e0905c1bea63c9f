-- ===== src/Tests/ProcessCases.antt =====
-- A process at concrete inputs: witnesses of what is shown of it.
use robot_harness.Base.{
  ◌+◌, false, ◌≢◌, ◌*◌, ◌≡◌, ◌≤◌, ◌<◌, ltb, ◌==◌, if◌then◌else◌, increment, none, some, List, [],
  ◌∷◌, refl, true, arith,
}
use robot_harness.Integer.{pos, int_eq}
use robot_harness.Compute.Types.{ComputeProcess, ComputeRequest, local_compute_profile, is_zero}
use robot_harness.Compute.Finish.{has_succeeded}
use robot_harness.Compute.Worker.{
  FrameKind, SendResult, Received, Channels, frame, at_start, send_frame, send_last, rounds,
  run_worker,
}
use robot_harness.Compute.Process.{
  EventRead, WaitResult, SpawnResult, System, Process, new_process, consume_all, consume,
  is_ill_formed, is_misplaced, observed_after,
}
use robot_harness.Compute.Process.Polling.{
  drain, drain_events, on_event, on_wait, collect_exit, on_kill, request_termination_once, escalate,
  poll,
}
use robot_harness.Compute.Process.Calls.{
  launch, spawn_child, on_spawn, request_stop, on_send, ProcessCall, call_process, call_all,
  process_of,
}
use robot_harness.Compute.Arguments.{parse_iterations, launch_arguments}
use robot_harness.Compute.Arguments.Parsed.{launch_arguments-parse}
use robot_harness.Compute.Sending.{Pipe, WriteResult, try_send, try_send-ends}
use robot_harness.Compute.Process.Draining.{drain-enough}
use robot_harness.Compute.Process.Cleanup.{destroy}
use robot_harness.Compute.Process.Ending.{last_kills}
use robot_harness.Compute.Process.Kills.{call_all-kills, call_all-spares}
use robot_harness.Compute.Process.Success.{IsFresh, run_worker-succeeds}

-- A child that says that it is ready, does not answer a stop, and ends after it is killed.
abbrev stubborn : System
stubborn = record {
  executable_error = λ n path. pos 0;
  spawn = λ n. SpawnResult.spawned (pos 41) (pos 0) false;
  read = λ n. if n == 0 then EventRead.bytes 31 else EventRead.try_again;
  frame = λ n. frame FrameKind.ready at_start;
  wait = λ n. if ltb n 2 then WaitResult.still_running else WaitResult.reaped (pos 9);
  reap = some (pos 9);
  send = λ n. none;
  kill = λ n. none;
  close = λ n. none;
}

abbrev calls : List ProcessCall
calls =
    ProcessCall.launches
    ∷ ProcessCall.stops 10
    ∷ ProcessCall.polls 50
    ∷ ProcessCall.polls 200
    ∷ ProcessCall.polls 210
    ∷ []

call_all-kills_example :
    ((call_all calls (new_process stubborn "/opt/worker" 5000 100)).kills ≤ 1)
    × ((destroy (call_all calls (new_process stubborn "/opt/worker" 5000 100))).0.kills
        ≡ (call_all calls (new_process stubborn "/opt/worker" 5000 100)).kills
          + last_kills (call_all calls (new_process stubborn "/opt/worker" 5000 100)))
call_all-kills_example = call_all-kills stubborn "/opt/worker" 5000 100 calls

-- The same child after it was started: the destructor kills, reaps and closes.
abbrev begun : Process
begun = (launch (new_process stubborn "/opt/worker" 5000 100)).0

-- The child that was killed and reaped.
abbrev killed_child : Process
killed_child = call_all calls (new_process stubborn "/opt/worker" 5000 100)

killed_child-run :
    (killed_child.observed.launched ≡ true)
    × (killed_child.owned_pid ≡ none)
    × (killed_child.kills ≡ 1)
unfolding call_all call_process launch spawn_child on_spawn request_stop on_send poll escalate
    request_termination_once on_kill collect_exit on_wait drain_events drain on_event consume
    is_ill_formed is_misplaced observed_after int_eq
killed_child-run = (refl, refl, refl)

call_all-spares_example :
    ((call_all calls killed_child).owned_pid ≡ none)
    × ((call_all calls killed_child).kills ≡ killed_child.kills)
    × ((destroy (call_all calls killed_child)).0.kills ≡ killed_child.kills)
call_all-spares_example = call_all-spares killed_child calls killed_child-run.0 killed_child-run.1

drain-enough_example :
    (drain 5000 0 killed_child ≡ drain 4096 0 killed_child)
    × ((drain 4096 0 killed_child).buffered_frame_bytes < 32)
unfolding call_all call_process launch spawn_child on_spawn request_stop on_send poll escalate
    request_termination_once on_kill collect_exit on_wait drain_events drain on_event consume
    is_ill_formed is_misplaced observed_after int_eq
drain-enough_example = drain-enough killed_child 5000 (omega arith) (omega arith)

-- No command comes, and the second frame of progress is dropped.
abbrev congested : Channels
congested = record {
  read = λ n. Received.nothing_yet;
  send = λ n f. if n == 2 then SendResult.dropped else SendResult.sent;
}

abbrev launched : Process
launched = (launch (new_process stubborn "/opt/worker" 9000 100)).0

launched-IsFresh : IsFresh 9000 launched
unfolding launch spawn_child on_spawn int_eq
launched-IsFresh = record {
  same_work = refl;
  silent = refl;
  well_formed = refl;
  unstopped = refl;
  unended = refl;
  nothing_last = refl;
  nothing_shown = refl;
  nothing_dropped = refl;
}

abbrev request : ComputeRequest
request = record {
  request_reference = "request-1";
  iterations = 9000;
  deadline = none;
  required_profile_id = local_compute_profile;
}

abbrev plain : ComputeProcess Process
plain = process_of stubborn (λ s. some s) λ s. none

congested-exit : (run_worker congested 9000).0 ≡ some 0
unfolding run_worker rounds send_frame send_last
congested-exit = refl

congested-io : is_zero (consume_all (run_worker congested 9000).1 launched).observed.io_error ≡ true
unfolding run_worker rounds send_frame send_last launch spawn_child on_spawn int_eq consume_all
    consume is_ill_formed is_misplaced observed_after increment
congested-io = refl

run_worker-succeeds_example :
    has_succeeded plain
      (consume_all (run_worker congested 9000).1 launched).observed
      request
      (pos 0)
    ≡ true
unfolding int_eq
run_worker-succeeds_example =
    run_worker-succeeds plain congested launched request (pos 0) (omega arith) launched-IsFresh
      congested-exit refl congested-io

launch_arguments-parse_example :
    parse_iterations (launch_arguments launched) ≡ some launched.iterations
unfolding launch spawn_child on_spawn int_eq
launch_arguments-parse_example = launch_arguments-parse launched (omega arith) (omega arith)

-- A pipe that stays full, with a clock of 600 milliseconds a reading.
abbrev full : Pipe
full = record {
  write = λ n. WriteResult.would_block;
  clock = λ n. 600 * n;
  poll_fails = λ n. false;
}

try_send-ends_example : try_send full true 2 ≢ none
try_send-ends_example = try_send-ends full true 1 (omega arith)
