-- ===== src/Compute/Proceeds/Commands.antt =====
-- The commands of a client.
use robot_harness.Base.{ℕ, Bool, Option, none, some, List, [], ◌∷◌, refl}
use robot_harness.Action.Rules.{Relates}
use robot_harness.Gate.Types.{OperationAuthority}
use robot_harness.Gate.Calls.{run, claim}
use robot_harness.Compute.Types.{
  ComputeProcess, ProcessObservation, ComputeRequest, ComputeSubmission,
}
use robot_harness.Compute.Host.{ComputeHost, call}
use robot_harness.Compute.Prepare.{
  initialize, admit_request, prepare, launch_of, launch, start_process, claim_and_start,
  dispatch_request, dispatch_prepared, submit_prepared, submit, request_cancel, cancel_own,
}
use robot_harness.Compute.Polling.{
  check_support, observe_events, poll_process, poll_once, poll, begin_shutdown,
}
use robot_harness.Compute.Commands.{ComputeCommand, execute_command, execute_commands}
use robot_harness.Compute.Proceeds.{
  Proceeds, Proceeds-IsPreorder, proceeds_rules, call-Proceeds, Yields-refl,
}
use robot_harness.Compute.Proceeds.Control.{
  on_process-Proceeds, report_native-Proceeds, settle_unsubmitted-Proceeds, apply_stop-Proceeds,
  expire-Proceeds, withdraw_binding-Proceeds, observe_capabilities-Proceeds,
}
use robot_harness.Compute.Proceeds.Finish.{
  finish-Proceeds, observe_process_events-Proceeds, update_shutdown_status-Proceeds,
}
use robot_harness.Compute.Proceeds.Rebind.{
  report_startups-Proceeds, keep_prepared-Proceeds, rebind_provider-Proceeds,
}

module _ {X : Type 0} (P : ComputeProcess X) where
  initialize-Proceeds : Relates Proceeds (initialize P)
  unfolding initialize
  initialize-Proceeds =
      search (proceeds_rules, observe_capabilities-Proceeds, report_startups-Proceeds) depth 16 fits
        9000

  admit_request-Proceeds : (q : ComputeRequest) → Relates Proceeds (admit_request P q)
  unfolding admit_request
  admit_request-Proceeds q =
      search (proceeds_rules, observe_capabilities-Proceeds, keep_prepared-Proceeds) depth 16 fits
        9000

  prepare-Proceeds : (q : ComputeRequest) → Relates Proceeds (prepare P q)
  unfolding prepare
  prepare-Proceeds q = search (proceeds_rules, admit_request-Proceeds) depth 12 fits 5000

  launch_of-Proceeds : (o : Option X) → Relates Proceeds (launch_of P o)
  unfolding launch_of run
  launch_of-Proceeds none = record { at = Proceeds-IsPreorder.reflexive }
  launch_of-Proceeds (some x) = record {
    at = λ s. record { calls = []; driven = refl; yields = Yields-refl s.gate s.result };
  }

  launch-Proceeds : Relates Proceeds (launch P)
  unfolding launch
  launch-Proceeds = record { at = λ s. (launch_of-Proceeds s.process).at s }

  start_process-Proceeds : (a : OperationAuthority) → Relates Proceeds (start_process P a)
  unfolding start_process
  start_process-Proceeds a =
      search (proceeds_rules, launch-Proceeds, settle_unsubmitted-Proceeds, report_native-Proceeds)
        depth 16 fits 9000

  claim_call-Proceeds :
      (a : OperationAuthority) (t : ℕ)
      → Relates {S = ComputeHost X} {A = Bool} Proceeds (call (claim a t))
  claim_call-Proceeds a t = call-Proceeds (claim a t)

  claim_and_start-Proceeds :
      (a : OperationAuthority) (q : ComputeRequest) → Relates Proceeds (claim_and_start P a q)
  unfolding claim_and_start
  claim_and_start-Proceeds a q =
      search
        (
          proceeds_rules, expire-Proceeds, claim_call-Proceeds, settle_unsubmitted-Proceeds,
          start_process-Proceeds,
        )
        depth 18 fits 9000

  dispatch_request-Proceeds :
      (a : OperationAuthority) (o : Option ComputeRequest)
      → Relates Proceeds (dispatch_request P a o)
  unfolding dispatch_request
  dispatch_request-Proceeds a none = search proceeds_rules
  dispatch_request-Proceeds a (some q) =
      search (proceeds_rules, observe_capabilities-Proceeds, claim_and_start-Proceeds) depth 14 fits
        5000

  dispatch_prepared-Proceeds : (a : OperationAuthority) → Relates Proceeds (dispatch_prepared P a)
  unfolding dispatch_prepared
  dispatch_prepared-Proceeds a = search (proceeds_rules, dispatch_request-Proceeds)

  submit_prepared-Proceeds :
      (b : ComputeSubmission) (o : Option OperationAuthority)
      → Relates Proceeds (submit_prepared P b o)
  unfolding submit_prepared
  submit_prepared-Proceeds b none = search proceeds_rules
  submit_prepared-Proceeds b (some a) = search (proceeds_rules, dispatch_prepared-Proceeds)

  submit-Proceeds : (q : ComputeRequest) → Relates Proceeds (submit P q)
  unfolding submit
  submit-Proceeds q = search (proceeds_rules, prepare-Proceeds, submit_prepared-Proceeds)

  request_cancel-Proceeds : (a : OperationAuthority) → Relates Proceeds (request_cancel P a)
  unfolding request_cancel
  request_cancel-Proceeds a =
      search (proceeds_rules, apply_stop-Proceeds, settle_unsubmitted-Proceeds) depth 16 fits 9000

  cancel_own-Proceeds : (o : Option OperationAuthority) → Relates Proceeds (cancel_own P o)
  unfolding cancel_own
  cancel_own-Proceeds none = search proceeds_rules
  cancel_own-Proceeds (some a) = search (proceeds_rules, request_cancel-Proceeds)

  check_support-Proceeds : Relates Proceeds (check_support P)
  unfolding check_support
  check_support-Proceeds = search (proceeds_rules, withdraw_binding-Proceeds) depth 20 fits 9000

  observe_events-Proceeds :
      (a : Option OperationAuthority) (o : Option ProcessObservation)
      → Relates Proceeds (observe_events P a o)
  unfolding observe_events
  observe_events-Proceeds (some a) (some o) = observe_process_events-Proceeds a o
  observe_events-Proceeds none o = search proceeds_rules
  observe_events-Proceeds (some a) none = search proceeds_rules

  poll_process-Proceeds : Relates Proceeds (poll_process P)
  unfolding poll_process
  poll_process-Proceeds =
      search
        (
          proceeds_rules, check_support-Proceeds, on_process-Proceeds, cancel_own-Proceeds,
          observe_events-Proceeds, finish-Proceeds,
        )
        depth 20 fits 9000

  poll_once-Proceeds : Relates Proceeds (poll_once P)
  unfolding poll_once
  poll_once-Proceeds =
      search
        (
          proceeds_rules, observe_capabilities-Proceeds, expire-Proceeds,
          settle_unsubmitted-Proceeds, poll_process-Proceeds, update_shutdown_status-Proceeds,
        )
        depth 20 fits 9000

  poll-Proceeds : Relates Proceeds (poll P)
  unfolding poll
  poll-Proceeds = search (proceeds_rules, poll_once-Proceeds)

  begin_shutdown-Proceeds : Relates Proceeds (begin_shutdown P)
  unfolding begin_shutdown
  begin_shutdown-Proceeds =
      search (proceeds_rules, cancel_own-Proceeds, poll-Proceeds) depth 16 fits 9000

  execute_command-Proceeds : (c : ComputeCommand) → Relates Proceeds (execute_command P c)
  unfolding execute_command
  execute_command-Proceeds ComputeCommand.initializes = search (proceeds_rules, initialize-Proceeds)
  execute_command-Proceeds ComputeCommand.polls = poll-Proceeds
  execute_command-Proceeds ComputeCommand.begins_shutdown = begin_shutdown-Proceeds
  execute_command-Proceeds (ComputeCommand.withdraws b) =
      search (proceeds_rules, withdraw_binding-Proceeds)
  execute_command-Proceeds (ComputeCommand.rebinds b p e) =
      search (proceeds_rules, rebind_provider-Proceeds)
  execute_command-Proceeds (ComputeCommand.prepares q) = search (proceeds_rules, prepare-Proceeds)
  execute_command-Proceeds (ComputeCommand.submits q) = search (proceeds_rules, submit-Proceeds)
  execute_command-Proceeds (ComputeCommand.dispatches a) =
      search (proceeds_rules, dispatch_prepared-Proceeds)
  execute_command-Proceeds (ComputeCommand.cancels a) =
      search (proceeds_rules, request_cancel-Proceeds)

  -- Any commands, one after another.
  pub execute_commands-Proceeds :
      (cs : List ComputeCommand) (h : ComputeHost X) → Proceeds h (execute_commands P cs h)
  unfolding execute_commands
  execute_commands-Proceeds [] h = Proceeds-IsPreorder.reflexive h
  execute_commands-Proceeds (c ∷ cs) h =
      Proceeds-IsPreorder.transitive h (execute_command P c h).1
        (execute_commands P cs (execute_command P c h).1) ((execute_command-Proceeds c).at h)
        (execute_commands-Proceeds cs (execute_command P c h).1)
