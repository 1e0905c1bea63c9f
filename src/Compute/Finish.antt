-- ===== src/Compute/Finish.antt =====
-- finish and update_shutdown_status of ComputeExecutionHost::Implementation, and observation.
use robot_harness.Base.{
  ℕ, Bool, true, false, not, Option, none, some, ◌&&◌, ◌||◌, ◌==◌, ltb, if◌then◌else◌,
}
use robot_harness.Action.{Action, returned, pure, gets, modify, ◌>>=◌, ◌>>◌}
use robot_harness.Integer.{ℤ, pos, negsuc}
use robot_harness.Gate.Types.{OperationAuthority, NativeEventKind}
use robot_harness.Gate.Control.{receipt}
use robot_harness.Compute.Types.{
  ComputeProcess, ProcessObservation, ComputeRequest, ComputeShutdownStatus, expected_sum,
  ComputeObservation, is_zero,
}
use robot_harness.Compute.Host.{ComputeHost, now}
use robot_harness.Compute.Control.{expire, report_native, report_no_output, report_settlement}
use robot_harness.Compute.Reports.{
  is_open_status, is_unsettled_receipt, is_completed, is_cancelled_terminal, exited_with,
  is_well_formed, exit_status_of, has_ended, is_owned_clear, is_troubled, accept_pending,
  report_output, is_settled_host,
}

-- A ComputeObservation of no process.
abbrev unseen : ComputeObservation
unseen = record {
  launched = false;
  started = false;
  completed_iterations = 0;
  dropped_progress = 0;
  stop_sent = false;
  stop_send_error = pos 0;
  stop_requested_at = none;
  termination_requested = false;
  protocol_error = false;
  ownership_lost = false;
  launch_error = pos 0;
  system_error = pos 0;
  child_process_id = negsuc 0;
  exit_code = none;
  terminating_signal = none;
  cleanup_confirmed = false;
}

module _ {X : Type 0} (P : ComputeProcess X) where
  abbrev pub has_succeeded : ProcessObservation → ComputeRequest → ℤ → Bool
  has_succeeded o request status =
      is_well_formed o
      && exited_with (P.exit_code status) (pos 0)
      && is_completed o.terminal
      && o.terminal_iterations == request.iterations
      && o.terminal_value == expected_sum request.iterations

  abbrev pub has_been_cancelled : ProcessObservation → ComputeRequest → ℤ → Bool
  has_been_cancelled o request status =
      is_well_formed o
      && exited_with (P.exit_code status) (pos 20)
      && o.stop_requested
      && is_cancelled_terminal o.terminal
      && ltb o.terminal_iterations request.iterations

  abbrev pub outcome_kind : ProcessObservation → ComputeRequest → ℤ → NativeEventKind
  outcome_kind o request status =
      if has_succeeded o request status
      then NativeEventKind.terminal_succeeded
      else if has_been_cancelled o request status
      then NativeEventKind.terminal_cancelled
      else NativeEventKind.terminal_failed

  unfoldable pub deliver_result :
      OperationAuthority → ComputeRequest → ProcessObservation → Action (ComputeHost X) (Unit {0})
  deliver_result authority request observed = do
    delivery_time ← now
    expire P delivery_time
    delivered ← accept_pending authority (record {
      operation_id = authority.operation_id;
      request_reference = request.request_reference;
      iterations = request.iterations;
      sum = observed.terminal_value;
    })
    report_output authority delivered delivery_time

  abbrev pub observed_of : ComputeHost X → Option ProcessObservation
  observed_of h = elim h.process [ none ↦ none | some x ↦ some (P.observation x) ]

  abbrev seen : ProcessObservation → ComputeObservation
  seen o = record {
    launched = o.launched;
    started = o.started;
    completed_iterations = o.progress;
    dropped_progress = o.dropped_progress;
    stop_sent = o.stop_delivered;
    stop_send_error = o.stop_error;
    stop_requested_at = o.stop_requested_at;
    termination_requested = o.termination_requested;
    protocol_error = o.malformed;
    ownership_lost = o.ownership_lost;
    launch_error = o.launch_error;
    system_error = if is_zero o.io_error then o.termination_error else o.io_error;
    child_process_id = o.child_pid;
    exit_code = elim o.exit_status [ none ↦ none | some s ↦ P.exit_code s ];
    terminating_signal = elim o.exit_status [ none ↦ none | some s ↦ P.terminating_signal s ];
    cleanup_confirmed = o.channels_closed;
  }

  -- ComputeExecutionHost::observation.
  unfoldable observation_of : ComputeHost X → ComputeObservation
  observation_of h = elim (observed_of h) [ none ↦ unseen | some o ↦ seen o ]

  unfoldable pub report_outcome :
      OperationAuthority
      → ComputeRequest
      → ProcessObservation
      → ℤ
      → ℕ
      → Action (ComputeHost X) (Unit {0})
  report_outcome authority request observed status at = do
    report_native authority (outcome_kind observed request status) at
    if has_succeeded observed request status
        then deliver_result authority request observed
        else report_no_output authority at
    modify λ h. record h { outcome_reported = true }

  -- The observation is read again: the expiry may have asked the process to stop.
  unfoldable pub report_outcome_of :
      OperationAuthority
      → ComputeRequest
      → Option ProcessObservation
      → Option ℤ
      → ℕ
      → Action (ComputeHost X) (Unit {0})
  report_outcome_of authority request (some observed) (some status) at =
      report_outcome authority request observed status at
  report_outcome_of authority request _ _ at = pure tt

  unfoldable pub report_outcome_once :
      OperationAuthority → ComputeRequest → Action (ComputeHost X) (Unit {0})
  report_outcome_once authority request = do
    reported ← gets λ (h : ComputeHost X). h.outcome_reported
    if reported then pure tt else do
      at ← now
      expire P at
      observed ← gets observed_of
      report_outcome_of authority request observed (exit_status_of observed) at

  unfoldable pub close_channels_of : Option X → Action (ComputeHost X) Bool
  close_channels_of none h = (returned false, h)
  close_channels_of (some x) h =
      let (x', is_closed) = P.close_channels x in
      (returned is_closed, record h { process = some x' })

  unfoldable pub close_channels : Action (ComputeHost X) Bool
  close_channels h = close_channels_of h.process h

  unfoldable pub close_and_settle : OperationAuthority → Action (ComputeHost X) (Unit {0})
  close_and_settle authority = do
    is_closed ← close_channels
    settles ← gets λ (h : ComputeHost X).
        not h.evidence_error && is_unsettled_receipt (receipt h.gate authority)
    if is_closed && settles then (do at ← now; report_settlement authority at) else pure tt

  unfoldable pub finish_of :
      Option ProcessObservation
      → Option OperationAuthority
      → Option ComputeRequest
      → Action (ComputeHost X) (Unit {0})
  finish_of (some observed) (some authority) (some request) =
      if not (has_ended observed)
      then pure tt
      else do report_outcome_once authority request; close_and_settle authority
  finish_of _ _ _ = pure tt

  unfoldable pub finish : Action (ComputeHost X) (Unit {0})
  finish = do h ← gets λ (h : ComputeHost X). h; finish_of (observed_of h) h.authority h.request

  unfoldable pub next_shutdown : ComputeHost X → ComputeShutdownStatus
  next_shutdown h =
      if is_open_status h.shutdown
      then h.shutdown
      else if h.evidence_error || is_troubled (observed_of h)
      then ComputeShutdownStatus.unresolved
      else if is_settled_host h && is_owned_clear (observed_of h)
      then ComputeShutdownStatus.closed
      else h.shutdown

  unfoldable pub update_shutdown_status : Action (ComputeHost X) (Unit {0})
  update_shutdown_status = modify λ h. record h { shutdown = next_shutdown h }
