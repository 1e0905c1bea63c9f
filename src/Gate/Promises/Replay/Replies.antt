-- ===== src/Gate/Promises/Replay/Replies.antt =====
-- Each handler of evidence answers `duplicate` at the receipt that it wrote.
use robot_harness.Base.{true, ◌≡◌, some, arith, refl, str_eq_iff}
use robot_harness.Gate.Types.{
  EvidenceRecord, EvidenceDisposition, NonSubmissionEvidence, OutputEvidence,
  OutputNonDeliveryEvidence, SettlementEvidence, StopAcknowledgementEvidence, SettlementStatus,
  OutputDisposition, NativeOutcome, DispatchStatus, BindingPhase,
}
use robot_harness.Gate.Receipt.{OperationReceipt, records_match, revocation_precedes}
use robot_harness.Gate.Disposition.{refresh_authority_disposition}
use robot_harness.Gate.State.{AuthorityGateConfig, Reply, keep, update, replied}
use robot_harness.Gate.Native.{non_submission_reply, precedes_dispatch}
use robot_harness.Gate.Output.{
  output_reply, non_delivery_reply, has_prerequisite, non_delivery_prerequisite, settlement_reply,
}
use robot_harness.Gate.Control.{stop_reply, answers_request}

records_match_refl : (e : EvidenceRecord) → records_match e e ≡ true
unfolding records_match
records_match_refl e = ground (arith, str_eq_iff e.source e.source)

-- The handler wrote a receipt of the same operation, at which it answers `duplicate`.
unfoldable pub Repeats : (OperationReceipt → Reply EvidenceDisposition) → OperationReceipt → Type 0
Repeats h r =
    (r' : OperationReceipt) × (h r ≡ update r' EvidenceDisposition.accepted)
    × (r'.authority ≡ r.authority)
    × (h r' ≡ keep EvidenceDisposition.duplicate)

abbrev settled_receipt : SettlementEvidence → OperationReceipt → OperationReceipt
settled_receipt e r = refresh_authority_disposition (record r {
  settlement = SettlementStatus.settled;
  settlement_scope = e.scope;
  settlement_evidence = some e.evidence;
})

pub settlement_reply-Repeats :
    (c : AuthorityGateConfig) (e : SettlementEvidence) (r : OperationReceipt)
    → (replied r (settlement_reply c e r)).1 ≡ EvidenceDisposition.accepted
    → Repeats (settlement_reply c e) r
unfolding settlement_reply Repeats
settlement_reply-Repeats c e r s = (
  settled_receipt e r,
  ground arith,
  refl,
  ground (arith, records_match_refl e.evidence, str_eq_iff e.scope e.scope),
)

abbrev accepted_receipt : OutputEvidence → OperationReceipt → OperationReceipt
accepted_receipt e r = refresh_authority_disposition (record r {
  output = OutputDisposition.accepted;
  result_reference = e.result_reference;
  output_evidence = some e.evidence;
})

pub output_reply-Repeats :
    (c : AuthorityGateConfig) (phase : BindingPhase) (e : OutputEvidence) (r : OperationReceipt)
    → (replied r (output_reply c phase e r)).1 ≡ EvidenceDisposition.accepted
    → Repeats (output_reply c phase e) r
unfolding output_reply Repeats
output_reply-Repeats c phase e r s = (
  accepted_receipt e r,
  ground arith,
  refl,
  ground (arith, records_match_refl e.evidence, str_eq_iff e.result_reference e.result_reference),
)

abbrev undelivered_receipt : OutputNonDeliveryEvidence → OperationReceipt → OperationReceipt
undelivered_receipt e r = refresh_authority_disposition (record r {
  output = OutputDisposition.not_delivered;
  output_non_delivery_reason = some e.reason;
  result_reference = e.result_reference;
  output_non_delivery_evidence = some e.evidence;
})

-- What undelivered output rests on does not depend on the output.
same_prerequisite :
    (c : AuthorityGateConfig) (e : OutputNonDeliveryEvidence) (r : OperationReceipt)
    → has_prerequisite c e (undelivered_receipt e r) ≡ has_prerequisite c e r
unfolding has_prerequisite non_delivery_prerequisite revocation_precedes
    refresh_authority_disposition
same_prerequisite c e r = ground arith

pub non_delivery_reply-Repeats :
    (c : AuthorityGateConfig) (e : OutputNonDeliveryEvidence) (r : OperationReceipt)
    → (replied r (non_delivery_reply c e r)).1 ≡ EvidenceDisposition.accepted
    → Repeats (non_delivery_reply c e) r
unfolding non_delivery_reply Repeats
non_delivery_reply-Repeats c e r s = (
  undelivered_receipt e r,
  ground arith,
  refl,
  ground (
    arith,
    records_match_refl e.evidence,
    same_prerequisite c e r,
    str_eq_iff e.result_reference e.result_reference,
  ),
)

abbrev denied_receipt : NonSubmissionEvidence → OperationReceipt → OperationReceipt
denied_receipt e r = refresh_authority_disposition (record r {
  dispatch = DispatchStatus.not_submitted;
  native_outcome = NativeOutcome.not_executed;
  non_submission_evidence = some e.evidence;
})

pub non_submission_reply-Repeats :
    (c : AuthorityGateConfig) (e : NonSubmissionEvidence) (r : OperationReceipt)
    → (replied r (non_submission_reply c e r)).1 ≡ EvidenceDisposition.accepted
    → Repeats (non_submission_reply c e) r
unfolding non_submission_reply precedes_dispatch Repeats
non_submission_reply-Repeats c e r s =
    (denied_receipt e r, ground arith, refl, ground (arith, records_match_refl e.evidence))

abbrev answered_receipt : StopAcknowledgementEvidence → OperationReceipt → OperationReceipt
answered_receipt e r = record r {
  stop_acknowledgement = e.acknowledgement;
  stop_acknowledgement_evidence = some e.evidence;
}

pub stop_reply-Repeats :
    (c : AuthorityGateConfig) (e : StopAcknowledgementEvidence) (r : OperationReceipt)
    → (replied r (stop_reply c e r)).1 ≡ EvidenceDisposition.accepted
    → Repeats (stop_reply c e) r
unfolding stop_reply answers_request Repeats
stop_reply-Repeats c e r s =
    (answered_receipt e r, ground arith, refl, ground (arith, records_match_refl e.evidence))
