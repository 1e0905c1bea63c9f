-- ===== src/Compute/Reports.antt =====
-- The tests of a process's observation, and what is reported of it: observe_process_events, and
-- the parts of finish and update_shutdown_status, of ComputeExecutionHost::Implementation.
use robot_harness.Base.{
  ℕ, String, Bool, true, false, not, Option, none, some, ◌&&◌, ◌||◌, has_value, if◌then◌else◌,
}
use robot_harness.Action.{Action, returned, pure, gets, modify, ◌>>=◌, ◌>>◌}
use robot_harness.Integer.{ℤ, int_eq}
use robot_harness.Gate.Types.{
  OperationAuthority, EvidenceRecord, EvidenceDisposition, NativeEventKind, OutputNonDeliveryReason,
  StopAcknowledgement,
}
use robot_harness.Gate.Types.Tests.{is_settled}
use robot_harness.Gate.Receipt.{OperationReceipt}
use robot_harness.Gate.Control.{receipt}
use robot_harness.Gate.Output.{can_deliver_result}
use robot_harness.Gate.Calls.{stop, output, non_delivery}
use robot_harness.Compute.Types.{
  ProcessObservation, ComputeResult, ComputeShutdownStatus, Terminal, is_zero, result_sink,
  stop_source,
}
use robot_harness.Compute.Host.{ComputeHost, now, call, record_of, accept}
use robot_harness.Compute.Control.{receipt_of, report_native}

abbrev pub is_unstarted : Option OperationReceipt → Bool
is_unstarted none = false
is_unstarted (some r) = not r.native_started

abbrev pub acknowledgement_of : ProcessObservation → StopAcknowledgement
acknowledgement_of o =
    if not o.stop_delivered
    then StopAcknowledgement.unavailable
    else if o.stop_ignored
    then StopAcknowledgement.refused
    else StopAcknowledgement.acknowledged

abbrev pub answers_stop : ProcessObservation → Bool
answers_stop o = o.stop_requested && (not o.stop_delivered || o.stop_acknowledged || o.stop_ignored)

abbrev pub is_open_status : ComputeShutdownStatus → Bool
is_open_status ComputeShutdownStatus.is_open = true
is_open_status _ = false

abbrev pub is_settled_receipt : Option OperationReceipt → Bool
is_settled_receipt none = false
is_settled_receipt (some r) = is_settled r.settlement

abbrev pub is_unsettled_receipt : Option OperationReceipt → Bool
is_unsettled_receipt none = false
is_unsettled_receipt (some r) = not (is_settled r.settlement)

abbrev pub is_completed : Terminal → Bool
is_completed Terminal.completed = true
is_completed _ = false

abbrev pub is_cancelled_terminal : Terminal → Bool
is_cancelled_terminal Terminal.cancelled = true
is_cancelled_terminal _ = false

abbrev pub exited_with : Option ℤ → ℤ → Bool
exited_with none code = false
exited_with (some c) code = int_eq c code

abbrev pub is_well_formed : ProcessObservation → Bool
is_well_formed o = not o.malformed && is_zero o.io_error

abbrev pub exit_status_of : Option ProcessObservation → Option ℤ
exit_status_of none = none
exit_status_of (some o) = o.exit_status

-- Whether finish goes on.
abbrev pub has_ended : ProcessObservation → Bool
has_ended o = has_value o.exit_status && o.event_eof && not o.ownership_lost

-- The channels of a launched process are closed.
abbrev pub is_owned_clear : Option ProcessObservation → Bool
is_owned_clear none = true
is_owned_clear (some o) = not o.launched || o.channels_closed

abbrev pub is_troubled : Option ProcessObservation → Bool
is_troubled none = false
is_troubled (some o) =
    o.ownership_lost
    || (not (is_owned_clear (some o))
        && (not (is_zero o.io_error) || not (is_zero o.termination_error)))

module _ {X : Type 0} where
  unfoldable pub report_stop_answer :
      OperationAuthority → ProcessObservation → Action (ComputeHost X) (Unit {0})
  report_stop_answer authority observed = do
    at ← now
    evidence ← record_of stop_source at
    disposition ← call (
        stop (record {
          authority = authority;
          acknowledgement = acknowledgement_of observed;
          evidence = evidence;
        }))
    accept disposition
    modify λ h. record h { stop_reported = true }

  unfoldable pub observe_process_events :
      OperationAuthority → ProcessObservation → Action (ComputeHost X) (Unit {0})
  observe_process_events authority observed = do
    unstarted ← gets λ (h : ComputeHost X). is_unstarted (receipt h.gate authority)
    if observed.started && unstarted
        then (do at ← now; report_native authority NativeEventKind.started at)
        else pure tt
    reported ← gets λ (h : ComputeHost X). h.stop_reported
    if not reported && answers_stop observed then report_stop_answer authority observed else pure tt

  -- The result is put into the sink, if it may be.
  unfoldable pub accept_pending : OperationAuthority → ComputeResult → Action (ComputeHost X) Bool
  accept_pending authority pending h =
      if not h.evidence_error && can_deliver_result h.gate authority
      then (returned true, record h { result = some pending })
      else (returned false, h)

  -- The sink's answer, told to the gate.
  unfoldable pub tell_output :
      OperationAuthority
      → Bool
      → String
      → EvidenceRecord
      → Action (ComputeHost X) EvidenceDisposition
  tell_output authority true reference evidence =
      call (
        output
          (record { authority = authority; result_reference = reference; evidence = evidence }))
  tell_output authority false reference evidence = call (
      non_delivery (record {
        authority = authority;
        reason = OutputNonDeliveryReason.authority_revoked;
        result_reference = reference;
        evidence = evidence;
      }))

  unfoldable pub report_output : OperationAuthority → Bool → ℕ → Action (ComputeHost X) (Unit {0})
  report_output authority delivered delivery_time = do
    reference ← gets λ (h : ComputeHost X). h.result_reference
    evidence ← record_of result_sink delivery_time
    disposition ← tell_output authority delivered reference evidence
    accept disposition

  abbrev pub is_settled_host : ComputeHost X → Bool
  is_settled_host h = not (has_value h.authority) || is_settled_receipt (receipt_of h)
