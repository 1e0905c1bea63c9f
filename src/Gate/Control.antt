-- ===== src/Gate/Control.antt =====
-- request_cancel, observe_time, observe_stop_acknowledgement and receipt of authority_gate.cpp.
use robot_harness.Base.{
  ℕ, Bool, true, false, not, Option, none, some, ◌&&◌, ltb, has_value, if◌then◌else◌,
}
use robot_harness.Gate.Types.{
  EvidenceDisposition, OperationAuthority, ControlStatus, ControlDecision, StopAcknowledgement,
  StopAcknowledgementEvidence,
}
use robot_harness.Gate.Types.Tests.{acknowledgement_eq, is_released}
use robot_harness.Gate.Receipt.{
  OperationReceipt, authority_matches, is_record_well_formed, latest_time, has_reached_deadline,
}
use robot_harness.Gate.Disposition.{revoke}
use robot_harness.Gate.State.{AuthorityGateConfig, AuthorityGate, Reply, keep, update, reply}
use robot_harness.Gate.Native.{is_same_record, duplicate_if}

-- `{status, false}`.
abbrev pub control : ControlStatus → ControlDecision
control status = record { status = status; should_request_native_stop = false }

-- `return state.revoke(observed_at);`
abbrev pub revoked_reply : OperationReceipt × ControlDecision → Reply ControlDecision
revoked_reply (r, d) = update r d

unfoldable pub cancel_reply : ℕ → OperationReceipt → Reply ControlDecision
cancel_reply observed_at r =
    if is_released r.authority_disposition
    then keep (control ControlStatus.no_active_operation)
    else if ltb observed_at (latest_time r)
    then keep (control ControlStatus.rejected)
    else if has_value r.cancellation_requested_at
    then keep (control ControlStatus.already_requested)
    else revoked_reply
        (revoke (record r { cancellation_requested_at = some observed_at }) observed_at)

unfoldable pub request_cancel :
    AuthorityGate → OperationAuthority → ℕ → AuthorityGate × ControlDecision
request_cancel g authority observed_at =
    reply g authority (control ControlStatus.no_active_operation) (cancel_reply observed_at)

unfoldable pub time_reply : ℕ → OperationReceipt → Reply ControlDecision
time_reply observed_at r =
    if is_released r.authority_disposition
    then keep (control ControlStatus.no_active_operation)
    else if ltb observed_at (latest_time r)
    then keep (control ControlStatus.rejected)
    else if has_value r.expiry_observed_at
    then keep (control ControlStatus.already_requested)
    else if not (has_reached_deadline r observed_at)
    then keep (control ControlStatus.not_due)
    else revoked_reply (revoke (record r { expiry_observed_at = some observed_at }) observed_at)

unfoldable pub observe_time :
    AuthorityGate → OperationAuthority → ℕ → AuthorityGate × ControlDecision
observe_time g authority observed_at =
    reply g authority (control ControlStatus.no_active_operation) (time_reply observed_at)

-- The `switch` on the acknowledgement.
abbrev pub is_stop_answer : StopAcknowledgement → Bool
is_stop_answer StopAcknowledgement.acknowledged = true
is_stop_answer StopAcknowledgement.refused = true
is_stop_answer StopAcknowledgement.unavailable = true
is_stop_answer _ = false

-- A stop was requested, and the record is of the stop source and not before the request.
unfoldable pub answers_request :
    AuthorityGateConfig → StopAcknowledgementEvidence → OperationReceipt → Bool
answers_request c e r = elim r.native_stop_requested_at [
  | none ↦ false
  | some t ↦ is_record_well_formed e.evidence c.stop_evidence_source t
]

unfoldable pub stop_reply :
    AuthorityGateConfig → StopAcknowledgementEvidence → OperationReceipt → Reply EvidenceDisposition
stop_reply c e r =
    if not (answers_request c e r)
    then keep EvidenceDisposition.rejected
    else if not (is_stop_answer e.acknowledgement)
    then keep EvidenceDisposition.rejected
    else if has_value r.stop_acknowledgement_evidence
    then keep (
        duplicate_if (
          acknowledgement_eq r.stop_acknowledgement e.acknowledgement
          && is_same_record r.stop_acknowledgement_evidence e.evidence))
    else if is_released r.authority_disposition
    then keep EvidenceDisposition.rejected
    else update
        (record r {
          stop_acknowledgement = e.acknowledgement;
          stop_acknowledgement_evidence = some e.evidence;
        })
        EvidenceDisposition.accepted

unfoldable pub observe_stop_acknowledgement :
    AuthorityGate → StopAcknowledgementEvidence → AuthorityGate × EvidenceDisposition
observe_stop_acknowledgement g e =
    reply g e.authority EvidenceDisposition.rejected (stop_reply g.config e)

-- `AuthorityGate::receipt`: the binding that is live now is not asked for.
unfoldable pub receipt : AuthorityGate → OperationAuthority → Option OperationReceipt
receipt g authority = elim g.current_receipt [
  | none ↦ none
  | some r ↦ if authority_matches r.authority authority then some r else none
]
