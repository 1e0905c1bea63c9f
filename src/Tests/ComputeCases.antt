-- ===== src/Tests/ComputeCases.antt =====
-- A compute host and a worker at concrete inputs: witnesses of their promises.
use robot_harness.Base.{ℕ, ◌≡◌, ◌+◌, none, some, List, [], ◌∷◌, refl, true, false, arith}
use robot_harness.Integer.{int_eq, pos, negsuc}
use robot_harness.Gate.State.{initial}
use robot_harness.Compute.Types.{
  ComputeProcess, ProcessObservation, ComputeRequest, ComputeResult, Terminal, make_gate_config,
  local_compute_profile, ComputeShutdownStatus, expected_sum,
}
use robot_harness.Compute.Host.{ComputeHost}
use robot_harness.Compute.Commands.{ComputeCommand, execute_commands}
use robot_harness.Compute.Promises.Results.{execute_commands-exact, execute_commands-revoked}
use robot_harness.Compute.Worker.{
  Frame, FrameKind, SendResult, Received, Channels, send_frame, send_last, rounds, run_worker,
}
use robot_harness.Compute.Promises.Frames.{AreExact, last_frame}
use robot_harness.Compute.Promises.Agreement.{run_worker-ends, run_worker-agrees}
use robot_harness.Tests.Fixtures.{authority, stopping, receipt_in, stopping-IsValid}
use robot_harness.Compute.Promises.Sums.{sum_below, wrapped_sum}
use robot_harness.Tests.ComputeRuns.{run_host}

-- A child that has just been created.
abbrev idle : ProcessObservation
idle = record {
  launched = false;
  started = false;
  malformed = false;
  event_eof = false;
  channels_closed = false;
  stop_requested = false;
  stop_delivered = false;
  stop_acknowledged = false;
  stop_ignored = false;
  termination_requested = false;
  ownership_lost = false;
  launch_error = pos 0;
  io_error = pos 0;
  stop_error = pos 0;
  termination_error = pos 0;
  child_pid = negsuc 0;
  exit_status = none;
  progress = 0;
  dropped_progress = 0;
  terminal = Terminal.no_terminal;
  terminal_iterations = 0;
  terminal_value = 0;
  stop_requested_at = none;
}

-- A child that completes three iterations before the first poll.
abbrev prompt_child : ComputeProcess ProcessObservation
prompt_child = record {
  create = λ executable iterations grace. idle;
  launch = λ o. (record o { launched = true }, true);
  request_stop = λ at o. record o { stop_requested = true };
  poll = λ at o. record o {
    started = true;
    event_eof = true;
    exit_status = some (pos 0);
    terminal = Terminal.completed;
    terminal_iterations = 3;
    terminal_value = 5;
  };
  close_channels = λ o. (record o { channels_closed = true }, true);
  observation = λ o. o;
  exit_code = λ status. some status;
  terminating_signal = λ status. none;
}

abbrev start : ComputeHost ProcessObservation
start = record {
  clock = λ n. 10 + n;
  ticks = 1;
  launchable = λ n executable. true;
  probes = 0;
  config = record {
    worker_executable = "/opt/worker";
    maximum_iterations = 100;
    stop_grace_ms = 100;
  };
  gate = initial (
      make_gate_config
        (record {
          provider_id = "local-compute-process";
          effect_domain = "local-compute-result-1";
          composition_revision = 1;
          provider_generation = 1;
        })
        10);
  process = none;
  authority = none;
  request = none;
  result = none;
  native_identity = "";
  result_reference = "";
  sequence = 0;
  initialized = false;
  stop_reported = false;
  outcome_reported = false;
  evidence_error = false;
  shutdown = ComputeShutdownStatus.is_open;
}

abbrev request : ComputeRequest
request = record {
  request_reference = "request-1";
  iterations = 3;
  deadline = none;
  required_profile_id = local_compute_profile;
}

abbrev session : List ComputeCommand
session = ComputeCommand.initializes ∷ ComputeCommand.submits request ∷ ComputeCommand.polls ∷ []

abbrev computed : ComputeResult
computed = record { operation_id = 1; request_reference = "request-1"; iterations = 3; sum = 5 }

session-result : (execute_commands prompt_child session start).result ≡ some computed
unfolding run_host int_eq
session-result = refl

execute_commands-exact_example : computed.sum ≡ wrapped_sum computed.iterations
execute_commands-exact_example =
    execute_commands-exact prompt_child start session computed refl session-result

-- A host whose operation is revoked while its child runs, with a result from before.
abbrev revoked : ComputeHost ProcessObservation
revoked = record start {
  gate = stopping;
  process = some (record idle { launched = true });
  authority = some authority;
  request = some request;
  result = some computed;
  initialized = true;
}

abbrev ending : List ComputeCommand
ending = ComputeCommand.polls ∷ ComputeCommand.begins_shutdown ∷ []

revoked-result : (execute_commands prompt_child ending revoked).result ≡ some computed
unfolding run_host int_eq stopping
revoked-result = refl

execute_commands-revoked_example : revoked.result ≡ some computed
unfolding stopping
execute_commands-revoked_example =
    execute_commands-revoked prompt_child revoked ending authority (receipt_in stopping) computed
      stopping-IsValid refl refl revoked-result refl

-- No command comes, and every frame is sent.
abbrev undisturbed : Channels
undisturbed = record { read = λ n. Received.nothing_yet; send = λ n f. SendResult.sent }

undisturbed-exit : (run_worker undisturbed 5000).0 ≡ some 0
unfolding run_worker rounds send_frame send_last
undisturbed-exit = refl

run_worker-ends_example :
    (code : ℕ) × ((run_worker undisturbed 5000).0 ≡ some code)
    × AreExact (run_worker undisturbed 5000).1
run_worker-ends_example = run_worker-ends undisturbed 5000 (omega arith)

run_worker-agrees_example :
    (f : Frame) × (last_frame (run_worker undisturbed 5000).1 ≡ some f)
    × (f.kind ≡ FrameKind.completed)
    × (f.iterations ≡ 5000)
    × (f.value ≡ expected_sum 5000)
    × (f.value ≡ sum_below 5000)
run_worker-agrees_example = run_worker-agrees undisturbed 5000 (omega arith) undisturbed-exit
