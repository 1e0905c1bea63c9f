-- ===== src/Gate/Validity/Replies.antt =====
-- Every handler that writes the current receipt keeps it valid and moves it on.
use robot_harness.Base.{
  ℕ, true, false, ◌≡◌, ◌≢◌, inl, inr, has_value, Option-cases, Option, some, arith,
}
use robot_harness.Gate.Types.{
  EvidenceRecord, NativeEventKind, NativeEvidence, NonSubmissionEvidence, OutputEvidence,
  OutputNonDeliveryEvidence, SettlementEvidence, StopAcknowledgementEvidence, OperationAuthority,
  BindingPhase, StopAcknowledgement,
}
use robot_harness.Gate.Types.Tests.{is_pending_dispatch, is_submitted, is_accepted, is_rejected}
use robot_harness.Gate.Receipt.{OperationReceipt, is_revoked}
use robot_harness.Gate.Disposition.{
  disposition_of, has_resolved_closure, has_resolved_effects, revoke,
}
use robot_harness.Gate.State.{AuthorityGateConfig, AuthorityGate}
use robot_harness.Gate.Native.{
  non_submission_reply, has_native_observation, native_reply, native_event, classify,
  is_native_admissible, is_excluded,
}
use robot_harness.Gate.Output.{
  output_reply, is_deliverable, non_delivery_reply, settlement_reply, has_prerequisite,
  non_delivery_prerequisite,
}
use robot_harness.Gate.Control.{cancel_reply, time_reply, stop_reply, answers_request}
use robot_harness.Gate.Admission.{dispatch_reply, is_dispatchable}
use robot_harness.Gate.Validity.{ReceiptIsValid, Advances, Respects}

pub settlement_reply-Respects :
    (c : AuthorityGateConfig) (e : SettlementEvidence) (r : OperationReceipt)
    → ReceiptIsValid r
    → Respects r (settlement_reply c e r)
unfolding settlement_reply disposition_of has_resolved_closure has_resolved_effects is_revoked
settlement_reply-Respects c e r v = ground arith

pub output_reply-Respects :
    (c : AuthorityGateConfig) (phase : BindingPhase) (e : OutputEvidence) (r : OperationReceipt)
    → ReceiptIsValid r
    → Respects r (output_reply c phase e r)
unfolding output_reply is_deliverable disposition_of has_resolved_closure has_resolved_effects
    is_revoked
output_reply-Respects c phase e r v = ground arith

-- Undelivered output rests on a record that a pending dispatch cannot have.
prerequisite_dispatched :
    (c : AuthorityGateConfig) (e : OutputNonDeliveryEvidence) (r : OperationReceipt)
    → ReceiptIsValid r
    → has_prerequisite c e r ≡ true
    → is_pending_dispatch r.dispatch ≡ false
unfolding has_prerequisite non_delivery_prerequisite
prerequisite_dispatched c e r v h = ground arith

pub non_delivery_reply-Respects :
    (c : AuthorityGateConfig) (e : OutputNonDeliveryEvidence) (r : OperationReceipt)
    → ReceiptIsValid r
    → Respects r (non_delivery_reply c e r)
unfolding non_delivery_reply disposition_of has_resolved_closure has_resolved_effects is_revoked
non_delivery_reply-Respects c e r v = ground (arith, prerequisite_dispatched c e r v)

pub non_submission_reply-Respects :
    (c : AuthorityGateConfig) (e : NonSubmissionEvidence) (r : OperationReceipt)
    → ReceiptIsValid r
    → Respects r (non_submission_reply c e r)
unfolding non_submission_reply has_native_observation disposition_of has_resolved_closure
    has_resolved_effects is_revoked
non_submission_reply-Respects c e r v = ground arith

acknowledged-Respects :
    (r : OperationReceipt) (a : StopAcknowledgement) (s : EvidenceRecord)
    → has_value r.native_stop_requested_at ≡ true
    → ReceiptIsValid r
    → let r' = record r { stop_acknowledgement = a; stop_acknowledgement_evidence = some s } in
      ReceiptIsValid r' × Advances r r'
unfolding disposition_of has_resolved_closure has_resolved_effects is_revoked
acknowledged-Respects r a s h v = ground arith

pub stop_reply-Respects :
    (c : AuthorityGateConfig) (e : StopAcknowledgementEvidence) (r : OperationReceipt)
    → ReceiptIsValid r
    → Respects r (stop_reply c e r)
unfolding stop_reply answers_request
stop_reply-Respects c e r v = elim (Option-cases r.native_stop_requested_at) [
  | inl n ↦ rw (n, stop_reply, answers_request) tt
  | inr (t, n) ↦ ground (arith, acknowledged-Respects r e.acknowledgement e.evidence (rw n) v)
]

pub cancel_reply-Respects :
    (t : ℕ) (r : OperationReceipt) → ReceiptIsValid r → Respects r (cancel_reply t r)
unfolding cancel_reply revoke disposition_of has_resolved_closure has_resolved_effects is_revoked
cancel_reply-Respects t r v = ground arith

pub time_reply-Respects :
    (t : ℕ) (r : OperationReceipt) → ReceiptIsValid r → Respects r (time_reply t r)
unfolding time_reply revoke disposition_of has_resolved_closure has_resolved_effects is_revoked
time_reply-Respects t r v = ground arith

pub dispatch_reply-Respects :
    (g : AuthorityGate) (a : OperationAuthority) (t : ℕ) (r : OperationReceipt)
    → ReceiptIsValid r
    → Respects r (dispatch_reply g a t r)
unfolding dispatch_reply is_dispatchable disposition_of has_resolved_closure has_resolved_effects
    is_revoked
dispatch_reply-Respects g a t r v = ground arith

native_event-Respects :
    (kind : NativeEventKind) (e : NativeEvidence) (r : OperationReceipt)
    → ReceiptIsValid r
    → is_submitted r.dispatch ≡ true
    → (is_rejected r.native_acceptance ≡ true → kind ≡ NativeEventKind.rejected)
    → (is_accepted r.native_acceptance ≡ true → kind ≢ NativeEventKind.rejected)
    → Respects r (classify (native_event kind e r))
unfolding native_event classify disposition_of has_resolved_closure has_resolved_effects is_revoked
native_event-Respects NativeEventKind.accepted e r v d p q = ground arith
native_event-Respects _ e r v d p q = ground arith

pub native_reply-Respects :
    (c : AuthorityGateConfig) (last : Option EvidenceRecord) (kind : Option NativeEventKind)
    (e : NativeEvidence) (r : OperationReceipt)
    → ReceiptIsValid r
    → Respects r (native_reply c last kind e r)
unfolding native_reply is_native_admissible is_excluded
native_reply-Respects c last kind e r v = ground (arith, native_event-Respects e.kind e r v)
