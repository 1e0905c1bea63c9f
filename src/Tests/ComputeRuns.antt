-- ===== src/Tests/ComputeRuns.antt =====
-- Runs of the compute host with every function open, for tests by evaluation.
use robot_harness.Base.{List}
use robot_harness.HexText.{byte_size}
use robot_harness.Tests.Execute.{execute}
use robot_harness.Action.{pure, gets, modify, ◌>>=◌}
use robot_harness.Decimal.{digits, to_string}
use robot_harness.Gate.Answers.{answer}
use robot_harness.Compute.Types.{
  ComputeProcess, is_absolute, is_valid_compute_request, make_gate_config, matches, expected_sum,
  evidence_expiry,
}
use robot_harness.Compute.Host.{ComputeHost, now, can_launch, call, record_of, accept}
use robot_harness.Compute.Control.{
  on_process, report_native, report_no_output, report_settlement, settle_as_unsubmitted,
  settle_unsubmitted_of, settle_unsubmitted, report_capabilities, apply_stop, expire_of, expire,
  withdraw_binding, observe_active_capabilities, observe_capabilities,
}
use robot_harness.Compute.Reports.{
  report_stop_answer, observe_process_events, accept_pending, tell_output, report_output,
}
use robot_harness.Compute.Finish.{
  deliver_result, report_outcome, report_outcome_of, report_outcome_once, close_channels_of,
  close_channels, close_and_settle, finish_of, finish, next_shutdown, update_shutdown_status,
}
use robot_harness.Compute.Rebind.{
  report_readiness, report_candidate_capabilities, withdraw_candidate, commit_candidate,
  continue_rebind, begin_candidate, rebind_provider,
}
use robot_harness.Compute.Prepare.{
  report_startup, report_startups, keep_prepared, initialize, admit_request, prepare, launch_of,
  launch, start_process, claim_and_start, dispatch_request, dispatch_prepared, submit_prepared,
  submit, request_cancel, cancel_own,
}
use robot_harness.Compute.Polling.{
  check_support, observe_events, poll_process, poll_once, poll, begin_shutdown,
}
use robot_harness.Compute.Commands.{ComputeCommand, execute_command, execute_commands}

-- Commands of a compute host, evaluated.
unfoldable pub run_host :
    {X : Type 0} → ComputeProcess X → List ComputeCommand → ComputeHost X → ComputeHost X
unfolding execute byte_size pure gets modify ◌>>=◌ digits to_string answer is_absolute
    is_valid_compute_request make_gate_config matches expected_sum evidence_expiry now can_launch
    call record_of accept on_process report_native report_no_output report_settlement
    settle_as_unsubmitted settle_unsubmitted_of settle_unsubmitted report_capabilities apply_stop
    expire_of expire withdraw_binding observe_active_capabilities observe_capabilities
    report_stop_answer observe_process_events accept_pending tell_output report_output
    deliver_result report_outcome report_outcome_of report_outcome_once close_channels_of
    close_channels close_and_settle finish_of finish next_shutdown update_shutdown_status
    report_readiness report_candidate_capabilities withdraw_candidate commit_candidate
    continue_rebind begin_candidate rebind_provider report_startup report_startups keep_prepared
    initialize admit_request prepare launch_of launch start_process claim_and_start dispatch_request
    dispatch_prepared submit_prepared submit request_cancel cancel_own check_support observe_events
    poll_process poll_once poll begin_shutdown execute_command execute_commands
run_host P cs h = execute_commands P cs h
