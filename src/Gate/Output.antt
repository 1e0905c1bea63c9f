-- ===== src/Gate/Output.antt =====
-- can_deliver_result, observe_output_accepted, observe_output_not_delivered and
-- observe_settlement of authority_gate.cpp.
use robot_harness.Base.{
  String, Bool, true, false, not, Option, none, some, ◌&&◌, ◌||◌, ltb, str_eq, is_empty,
  if◌then◌else◌,
}
use robot_harness.Gate.Types.{
  EvidenceRecord, EvidenceDisposition, OperationAuthority, BindingPhase, OutputEvidence,
  OutputNonDeliveryReason, OutputNonDeliveryEvidence, SettlementEvidence, NativeOutcome,
  OutputDisposition, SettlementStatus,
}
use robot_harness.Gate.Types.Tests.{
  is_withdrawn_phase, is_preparing_phase, is_not_submitted, is_accepted, is_rejected, outcome_eq,
  is_pending_output, is_accepted_output, is_not_delivered, is_settled,
}
use robot_harness.Gate.Receipt.{
  OperationReceipt, is_record_well_formed, follows_same_source_records, is_revoked,
  latest_effect_time, has_reached_deadline, revocation_precedes,
}
use robot_harness.Gate.Disposition.{has_reason, has_resolved_effects, refresh_authority_disposition}
use robot_harness.Gate.State.{
  AuthorityGateConfig, AuthorityGate, Reply, keep, update, current, reply,
}
use robot_harness.Gate.Native.{is_same_record, duplicate_if}

-- can_deliver_result at the receipt that the authority matches.
unfoldable pub is_deliverable : BindingPhase → OperationReceipt → Bool
is_deliverable phase r =
    not (is_withdrawn_phase phase)
    && not (is_preparing_phase phase)
    && not (is_revoked r)
    && outcome_eq r.native_outcome NativeOutcome.succeeded
    && is_pending_output r.output

unfoldable pub can_deliver_result : AuthorityGate → OperationAuthority → Bool
can_deliver_result g authority = elim (current g authority) [
  | none ↦ false
  | some r ↦ is_deliverable g.binding_phase r
]

-- `!success || observed_at < success->observed_at`.
unfoldable pub precedes_success : OperationReceipt → EvidenceRecord → Bool
precedes_success r e = elim r.native_success_evidence [
  | none ↦ true
  | some s ↦ ltb e.observed_at s.observed_at
]

unfoldable pub output_reply :
    AuthorityGateConfig
    → BindingPhase
    → OutputEvidence
    → OperationReceipt
    → Reply EvidenceDisposition
unfolding refresh_authority_disposition
output_reply c phase e r =
    if is_empty e.result_reference
      || not (is_record_well_formed e.evidence c.result_sink_observer e.authority.admitted_at)
    then keep EvidenceDisposition.rejected
    else if is_accepted_output r.output
    then keep (
        duplicate_if (
          str_eq r.result_reference e.result_reference
          && is_same_record r.output_evidence e.evidence))
    else if not (is_deliverable phase r) || has_reached_deadline r e.evidence.observed_at
    then keep EvidenceDisposition.rejected
    else if precedes_success r e.evidence
    then keep EvidenceDisposition.rejected
    else update
        (refresh_authority_disposition (record r {
          output = OutputDisposition.accepted;
          result_reference = e.result_reference;
          output_evidence = some e.evidence;
        }))
        EvidenceDisposition.accepted

unfoldable pub observe_output_accepted :
    AuthorityGate → OutputEvidence → AuthorityGate × EvidenceDisposition
observe_output_accepted g e =
    reply g e.authority EvidenceDisposition.rejected (output_reply g.config g.binding_phase e)

-- The prerequisite of kNoOutputProduced; `none` is the null pointer.
unfoldable pub no_output_prerequisite : OperationReceipt → Option EvidenceRecord
no_output_prerequisite r =
    if is_not_submitted r.dispatch
    then r.non_submission_evidence
    else if is_rejected r.native_acceptance
    then r.native_rejection_evidence
    else if is_accepted r.native_acceptance && outcome_eq r.native_outcome NativeOutcome.failed
    then r.native_failure_evidence
    else if outcome_eq r.native_outcome NativeOutcome.cancelled
    then r.native_cancellation_evidence
    else none

-- The case kSinkRejected, which kAuthorityRevoked falls through to.
unfoldable pub sink_prerequisite :
    OutputNonDeliveryEvidence → OperationReceipt → Option EvidenceRecord
sink_prerequisite e r =
    if is_empty e.result_reference
      || not (is_accepted r.native_acceptance)
      || not (outcome_eq r.native_outcome NativeOutcome.succeeded)
    then none
    else r.native_success_evidence

-- The first `switch`: the source that is expected and the prerequisite. Where the source returns
-- kRejected at once, or leaves the pointer null, there is no prerequisite; both are rejected.
unfoldable pub non_delivery_prerequisite :
    OutputNonDeliveryReason → OutputNonDeliveryEvidence → OperationReceipt → Option EvidenceRecord
unfolding sink_prerequisite no_output_prerequisite
non_delivery_prerequisite OutputNonDeliveryReason.no_output_produced e r =
    if not (is_empty e.result_reference) then none else no_output_prerequisite r
non_delivery_prerequisite OutputNonDeliveryReason.authority_revoked e r =
    if not (revocation_precedes r e.evidence.observed_at) then none else sink_prerequisite e r
non_delivery_prerequisite OutputNonDeliveryReason.sink_rejected e r = sink_prerequisite e r

abbrev pub non_delivery_source : AuthorityGateConfig → OutputNonDeliveryReason → String
non_delivery_source c OutputNonDeliveryReason.no_output_produced = c.settlement_evidence_source
non_delivery_source c OutputNonDeliveryReason.authority_revoked = c.result_sink_observer
non_delivery_source c OutputNonDeliveryReason.sink_rejected = c.result_sink_observer

-- `prerequisite == nullptr || !is_record_well_formed(…)`.
unfoldable pub has_prerequisite :
    AuthorityGateConfig → OutputNonDeliveryEvidence → OperationReceipt → Bool
has_prerequisite c e r = elim (non_delivery_prerequisite e.reason e r) [
  | none ↦ false
  | some p ↦ is_record_well_formed e.evidence (non_delivery_source c e.reason) p.observed_at
]

unfoldable pub non_delivery_reply :
    AuthorityGateConfig → OutputNonDeliveryEvidence → OperationReceipt → Reply EvidenceDisposition
unfolding refresh_authority_disposition
non_delivery_reply c e r =
    if not (has_prerequisite c e r)
    then keep EvidenceDisposition.rejected
    else if is_not_delivered r.output
    then keep (
        duplicate_if (
          has_reason r.output_non_delivery_reason e.reason
          && str_eq r.result_reference e.result_reference
          && is_same_record r.output_non_delivery_evidence e.evidence))
    else if not (is_pending_output r.output) || not (follows_same_source_records e.evidence r)
    then keep EvidenceDisposition.rejected
    else update
        (refresh_authority_disposition (record r {
          output = OutputDisposition.not_delivered;
          output_non_delivery_reason = some e.reason;
          result_reference = e.result_reference;
          output_non_delivery_evidence = some e.evidence;
        }))
        EvidenceDisposition.accepted

unfoldable pub observe_output_not_delivered :
    AuthorityGate → OutputNonDeliveryEvidence → AuthorityGate × EvidenceDisposition
observe_output_not_delivered g e =
    reply g e.authority EvidenceDisposition.rejected (non_delivery_reply g.config e)

unfoldable pub settlement_reply :
    AuthorityGateConfig → SettlementEvidence → OperationReceipt → Reply EvidenceDisposition
unfolding refresh_authority_disposition
settlement_reply c e r =
    if not (str_eq e.scope c.settlement_scope)
      || not (is_record_well_formed e.evidence c.settlement_evidence_source e.authority.admitted_at)
    then keep EvidenceDisposition.rejected
    else if is_settled r.settlement
    then keep (
        duplicate_if (
          str_eq r.settlement_scope e.scope
          && is_same_record r.settlement_evidence e.evidence
          && e.permits_same_domain_admission))
    else if not e.permits_same_domain_admission || is_pending_output r.output
    then keep EvidenceDisposition.rejected
    else if ltb e.evidence.observed_at (latest_effect_time r)
        || not (follows_same_source_records e.evidence r)
    then keep EvidenceDisposition.rejected
    else if not (has_resolved_effects r)
    then keep EvidenceDisposition.rejected
    else update
        (refresh_authority_disposition (record r {
          settlement = SettlementStatus.settled;
          settlement_scope = e.scope;
          settlement_evidence = some e.evidence;
        }))
        EvidenceDisposition.accepted

unfoldable pub observe_settlement :
    AuthorityGate → SettlementEvidence → AuthorityGate × EvidenceDisposition
observe_settlement g e =
    reply g e.authority EvidenceDisposition.rejected (settlement_reply g.config e)
