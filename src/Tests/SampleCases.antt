-- ===== src/Tests/SampleCases.antt =====
-- A sample host at concrete inputs: witnesses of its promises.
use robot_harness.Base.{
  ℕ, ◌≡◌, ◌≤◌, none, some, List, [], ◌∷◌, refl, true, false, arith, length, is_empty,
}
use robot_harness.Integer.{pos, negsuc, int_ltb}
use robot_harness.Action.{returned}
use robot_harness.Gate.State.{initial, construct, is_invalid_config}
use robot_harness.Sample.Types.{
  SampleRequest, CompletionMode, WorkItem, gate_config, new_adapter, result_of, is_valid_request,
  are_in_range,
}
use robot_harness.Sample.Host.{Host, host}
use robot_harness.Sample.Events.{process_all}
use robot_harness.Sample.Commands.{Command, execute, execute_all, shutdown, destroy}
use robot_harness.Sample.Moves.{Moves, execute_all-Moves}
use robot_harness.Sample.Steady.{IsNondecreasing, IsSteady}
use robot_harness.Sample.Promises.Histories.{count_results, execute_all-revoked}
use robot_harness.Sample.Promises.Endings.{execute-returns, process_all-ends}
use robot_harness.Sample.Promises.Shutdown.{IsOver, shutdown-ends, destroy-ends}
use robot_harness.Sample.Promises.Results.{AreSquares, total, result_of-bounded}
use robot_harness.Tests.Fixtures.{authority, stopping, receipt_in, stopping-IsValid}

-- A clock that goes up by one.
abbrev counting : ℕ → ℕ
counting n = n

counting-IsNondecreasing : IsNondecreasing counting
counting-IsNondecreasing = record { at = λ m n h. h }

abbrev start : Host
start = record {
  clock = counting;
  ticks = 1;
  last_time = 0;
  has_read_time = true;
  gate = initial (gate_config 0);
  adapter = new_adapter CompletionMode.synchronous;
  staged_events = [];
  current_authority = none;
  prepared_authority = none;
  prepared_request = none;
  binding_observation_sequence = 0;
  worker_observation_sequence = 0;
  sink_observation_sequence = 0;
  is_shutdown = false;
}

start-host : host CompletionMode.synchronous counting ≡ some start
unfolding host construct is_invalid_config gate_config is_empty
start-host = refl

start-IsSteady : IsSteady start
start-IsSteady = record { nondecreasing = counting-IsNondecreasing; next_is_later = omega arith }

abbrev request : SampleRequest
request = record {
  request_reference = "request-1";
  values = pos 3 ∷ negsuc 3 ∷ [];
  deadline = none;
}

abbrev session : List Command
session = Command.initializes ∷ Command.submits request ∷ Command.polls ∷ []

execute_all-Moves_example : Moves start (execute_all session start)
execute_all-Moves_example = execute_all-Moves session start

-- A host whose operation was cancelled.
abbrev cancelled : Host
cancelled = record start { gate = stopping; current_authority = some authority }

execute_all-revoked_example : count_results 1 (execute_all session cancelled).adapter.results ≡ 0
unfolding count_results stopping new_adapter
execute_all-revoked_example =
    execute_all-revoked cancelled session authority (receipt_in stopping) stopping-IsValid refl refl

execute-returns_example : (execute Command.shuts_down (execute_all session start)).0 ≡ returned tt
execute-returns_example =
    execute-returns CompletionMode.synchronous counting start session Command.shuts_down
      counting-IsNondecreasing start-host

process_all-ends_example :
    ((process_all start).0 ≡ returned tt) × ((process_all start).1.staged_events ≡ [])
process_all-ends_example = process_all-ends start start-IsSteady

shutdown-ends_example :
    ((shutdown start).0 ≡ returned tt)
    × IsOver (shutdown start).1
    × (shutdown (shutdown start).1 ≡ (returned tt, (shutdown start).1))
shutdown-ends_example = shutdown-ends start start-IsSteady refl

-- A host whose clock stands at 0 after a reading of 5.
abbrev late : Host
late = record start { clock = λ n. 0; last_time = 5 }

destroy-ends_example :
    ((destroy late).0 ≡ returned tt)
    × ((destroy late).1.adapter.is_closed ≡ true)
    × ((destroy late).1.adapter.has_callback ≡ false)
destroy-ends_example = destroy-ends late refl

abbrev work : WorkItem
work = record {
  authority = authority;
  request = request;
  native_identity = "native-sample-1";
  is_cancelled = false;
}

result_of-bounded_example :
    (n : ℕ) × ((result_of work).sum_of_squares ≡ pos n)
    × AreSquares (pos 3 ∷ negsuc 3 ∷ []) (result_of work).squared_values
    × (total (result_of work).squared_values ≡ (result_of work).sum_of_squares)
    × (n ≤ 1600000000)
    × (length (result_of work).squared_values ≡ 2)
unfolding is_valid_request is_empty are_in_range int_ltb
result_of-bounded_example = result_of-bounded work refl
