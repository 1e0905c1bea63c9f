-- ===== src/Gate/Promises/Replay.antt =====
-- Evidence that was accepted is a duplicate when it comes again, and changes nothing.
pub mod Replies
use robot_harness.Base.{
  true, ◌≡◌, inl, inr, some, arith, refl, sym, ap, Option-cases, str_eq_iff, ◌∙◌,
}
use robot_harness.Gate.Types.{
  EvidenceRecord, OperationAuthority, EvidenceDisposition, NonSubmissionEvidence, OutputEvidence,
  OutputNonDeliveryEvidence, SettlementEvidence, StopAcknowledgementEvidence, SettlementStatus,
  OutputDisposition, NativeOutcome, DispatchStatus, BindingPhase,
}
use robot_harness.Gate.Receipt.{OperationReceipt, records_match, revocation_precedes}
use robot_harness.Gate.Disposition.{refresh_authority_disposition}
use robot_harness.Gate.State.{
  AuthorityGate, AuthorityGateConfig, Reply, keep, update, replied, current, reply,
}
use robot_harness.Gate.Native.{non_submission_reply, observe_non_submission, precedes_dispatch}
use robot_harness.Gate.Output.{
  output_reply, observe_output_accepted, non_delivery_reply, observe_output_not_delivered,
  has_prerequisite, non_delivery_prerequisite, settlement_reply, observe_settlement,
}
use robot_harness.Gate.Control.{stop_reply, observe_stop_acknowledgement, answers_request}
use robot_harness.Gate.Promises.Located.{
  reply-answer, reply-located, reply-unmatched, reply-matched, current-operation_id,
}
use robot_harness.Gate.Promises.Replay.Replies.{
  Repeats, settlement_reply-Repeats, output_reply-Repeats, non_delivery_reply-Repeats,
  non_submission_reply-Repeats, stop_reply-Repeats,
}

module _ (a : OperationAuthority) (h : OperationReceipt → Reply EvidenceDisposition)
    (repeats : (r : OperationReceipt)
      → (replied r (h r)).1 ≡ EvidenceDisposition.accepted
      → Repeats h r) where
  reply-replay :
      (g : AuthorityGate)
      → (reply g a EvidenceDisposition.rejected h).1 ≡ EvidenceDisposition.accepted
      → reply (reply g a EvidenceDisposition.rejected h).0 a EvidenceDisposition.rejected h
        ≡ ((reply g a EvidenceDisposition.rejected h).0, EvidenceDisposition.duplicate)
  unfolding Repeats
  reply-replay g s = elim (Option-cases (current g a)) [
    | inl n ↦
        let refused =
          ap (λ (x : AuthorityGate × EvidenceDisposition). x.1)
            (reply-unmatched a EvidenceDisposition.rejected h g n) in
        cc
    | inr (r, p) ↦
        let no = EvidenceDisposition.rejected in
        let (r', e, same, again) = repeats r (sym (reply-answer a no h g r p) ∙ s) in
        let g' = (reply g a no h).0 in
        let located = reply-located a no h g r p r' EvidenceDisposition.accepted e same in
        let placed = (current-operation_id g' a r' located).0 in
        reply-matched a no h g' r' located
        ∙ ap (λ x. (record g' { current_receipt = (replied r' x).0 }, (replied r' x).1)) again
        ∙ ap (λ o. (record g' { current_receipt = o }, EvidenceDisposition.duplicate)) (sym placed)
  ]

observe_settlement-twice :
    (g : AuthorityGate) (e : SettlementEvidence)
    → (observe_settlement g e).1 ≡ EvidenceDisposition.accepted
    → observe_settlement (observe_settlement g e).0 e
      ≡ ((observe_settlement g e).0, EvidenceDisposition.duplicate)
unfolding observe_settlement
observe_settlement-twice g e =
    reply-replay e.authority (settlement_reply g.config e) (settlement_reply-Repeats g.config e) g

observe_output_accepted-twice :
    (g : AuthorityGate) (e : OutputEvidence)
    → (observe_output_accepted g e).1 ≡ EvidenceDisposition.accepted
    → observe_output_accepted (observe_output_accepted g e).0 e
      ≡ ((observe_output_accepted g e).0, EvidenceDisposition.duplicate)
unfolding observe_output_accepted
observe_output_accepted-twice g e =
    reply-replay e.authority (output_reply g.config g.binding_phase e)
      (output_reply-Repeats g.config g.binding_phase e) g

observe_output_not_delivered-twice :
    (g : AuthorityGate) (e : OutputNonDeliveryEvidence)
    → (observe_output_not_delivered g e).1 ≡ EvidenceDisposition.accepted
    → observe_output_not_delivered (observe_output_not_delivered g e).0 e
      ≡ ((observe_output_not_delivered g e).0, EvidenceDisposition.duplicate)
unfolding observe_output_not_delivered
observe_output_not_delivered-twice g e =
    reply-replay e.authority (non_delivery_reply g.config e) (non_delivery_reply-Repeats g.config e)
      g

observe_non_submission-twice :
    (g : AuthorityGate) (e : NonSubmissionEvidence)
    → (observe_non_submission g e).1 ≡ EvidenceDisposition.accepted
    → observe_non_submission (observe_non_submission g e).0 e
      ≡ ((observe_non_submission g e).0, EvidenceDisposition.duplicate)
unfolding observe_non_submission
observe_non_submission-twice g e =
    reply-replay e.authority (non_submission_reply g.config e)
      (non_submission_reply-Repeats g.config e) g

observe_stop_acknowledgement-twice :
    (g : AuthorityGate) (e : StopAcknowledgementEvidence)
    → (observe_stop_acknowledgement g e).1 ≡ EvidenceDisposition.accepted
    → observe_stop_acknowledgement (observe_stop_acknowledgement g e).0 e
      ≡ ((observe_stop_acknowledgement g e).0, EvidenceDisposition.duplicate)
unfolding observe_stop_acknowledgement
observe_stop_acknowledgement-twice g e =
    reply-replay e.authority (stop_reply g.config e) (stop_reply-Repeats g.config e) g

-- Evidence about an operation, apart from that of the native runtime.
pub data Evidence : Type 0 where
  stop_answer : StopAcknowledgementEvidence → Evidence
  denial : NonSubmissionEvidence → Evidence
  delivery : OutputEvidence → Evidence
  non_delivery : OutputNonDeliveryEvidence → Evidence
  closure : SettlementEvidence → Evidence

abbrev pub observe_evidence : AuthorityGate → Evidence → AuthorityGate × EvidenceDisposition
observe_evidence g (stop_answer e) = observe_stop_acknowledgement g e
observe_evidence g (denial e) = observe_non_submission g e
observe_evidence g (delivery e) = observe_output_accepted g e
observe_evidence g (non_delivery e) = observe_output_not_delivered g e
observe_evidence g (closure e) = observe_settlement g e

-- A stop answer, a record that an operation was not submitted, an output, a record that output was
-- not delivered or a settlement that was accepted is a duplicate when it comes again at once, and
-- the gate is left as it was.
pub observe_evidence-twice :
    (g : AuthorityGate) (e : Evidence)
    → (observe_evidence g e).1 ≡ EvidenceDisposition.accepted
    → observe_evidence (observe_evidence g e).0 e
      ≡ ((observe_evidence g e).0, EvidenceDisposition.duplicate)
observe_evidence-twice g (stop_answer e) = observe_stop_acknowledgement-twice g e
observe_evidence-twice g (denial e) = observe_non_submission-twice g e
observe_evidence-twice g (delivery e) = observe_output_accepted-twice g e
observe_evidence-twice g (non_delivery e) = observe_output_not_delivered-twice g e
observe_evidence-twice g (closure e) = observe_settlement-twice g e
