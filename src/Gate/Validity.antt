-- ===== src/Gate/Validity.antt =====
-- What holds of a receipt between two calls, and how one call may move it on.
pub mod Replies
use robot_harness.Base.{Bool, true, false, ◌≡◌, arith, has_value, if◌then◌else◌}
use robot_harness.Gate.Types.{NativeAcceptance, NativeOutcome, StopAcknowledgement}
use robot_harness.Gate.Types.Tests.{
  is_pending_dispatch, is_submitted, is_not_submitted, is_accepted, is_rejected, is_pending_output,
  is_accepted_output, is_settled,
}
use robot_harness.Gate.Receipt.{OperationReceipt, is_revoked}
use robot_harness.Gate.Disposition.{disposition_of}
use robot_harness.Gate.State.{Reply, keep, update}

-- The outcome that the terminal events seen so far amount to.
abbrev pub outcome_of_events : Bool → Bool → Bool → NativeOutcome
outcome_of_events false false false = NativeOutcome.pending
outcome_of_events true false false = NativeOutcome.succeeded
outcome_of_events false true false = NativeOutcome.failed
outcome_of_events false false true = NativeOutcome.cancelled
outcome_of_events _ _ _ = NativeOutcome.unknown

-- The outcome of an operation, told from its dispatch, its acceptance and its terminal events.
abbrev pub outcome_of : OperationReceipt → NativeOutcome
outcome_of r =
    if is_not_submitted r.dispatch
    then NativeOutcome.not_executed
    else if is_rejected r.native_acceptance
    then NativeOutcome.not_executed
    else outcome_of_events r.observed_native_success r.observed_native_failure
        r.observed_native_cancellation

pub record ReceiptIsValid (r : OperationReceipt) : Type 0 where
  pub disposition_exact : r.authority_disposition ≡ disposition_of r
  pub outcome_exact : r.native_outcome ≡ outcome_of r
  pub answer_submitted :
      is_submitted r.dispatch ≡ false → r.native_acceptance ≡ NativeAcceptance.pending
  pub dispatch_timed : is_submitted r.dispatch ≡ true → has_value r.dispatched_at ≡ true
  pub denial_recorded :
      is_not_submitted r.dispatch ≡ true → has_value r.non_submission_evidence ≡ true
  pub acceptance_recorded : is_accepted r.native_acceptance ≡ has_value r.native_acceptance_evidence
  pub rejection_recorded : is_rejected r.native_acceptance ≡ has_value r.native_rejection_evidence
  pub success_accepted : r.observed_native_success ≡ true → is_accepted r.native_acceptance ≡ true
  pub failure_accepted : r.observed_native_failure ≡ true → is_accepted r.native_acceptance ≡ true
  pub cancellation_accepted :
      r.observed_native_cancellation ≡ true → is_accepted r.native_acceptance ≡ true
  pub success_recorded : r.observed_native_success ≡ has_value r.native_success_evidence
  pub output_produced : is_accepted_output r.output ≡ true → r.observed_native_success ≡ true
  pub output_recorded : is_accepted_output r.output ≡ has_value r.output_evidence
  pub settled_output : is_settled r.settlement ≡ true → is_pending_output r.output ≡ false
  pub pending_output : is_pending_dispatch r.dispatch ≡ true → is_pending_output r.output ≡ true
  pub stop_asked :
      has_value r.native_stop_requested_at ≡ false
      → r.stop_acknowledgement ≡ StopAcknowledgement.not_requested

pub record Advances (r r' : OperationReceipt) : Type 0 where
  pub same_authority : r'.authority ≡ r.authority
  pub same_deadline : r'.deadline ≡ r.deadline
  pub same_requirements : r'.execution_requirements ≡ r.execution_requirements
  pub keeps_revocation : is_revoked r ≡ true → is_revoked r' ≡ true
  pub keeps_dispatch :
      is_pending_dispatch r.dispatch ≡ false → is_pending_dispatch r'.dispatch ≡ false
  pub keeps_output : is_pending_output r.output ≡ false → r'.output ≡ r.output
  pub keeps_result : is_pending_output r.output ≡ false → r'.result_reference ≡ r.result_reference
  pub keeps_settlement : is_settled r.settlement ≡ true → is_settled r'.settlement ≡ true
  pub keeps_acceptance :
      is_accepted r.native_acceptance ≡ true → is_accepted r'.native_acceptance ≡ true
  pub keeps_rejection :
      is_rejected r.native_acceptance ≡ true → is_rejected r'.native_acceptance ≡ true
  pub keeps_stop :
      has_value r.native_stop_requested_at ≡ true
      → r'.native_stop_requested_at ≡ r.native_stop_requested_at
  pub keeps_unknown :
      r.native_outcome ≡ NativeOutcome.unknown → r'.native_outcome ≡ NativeOutcome.unknown

pub Advances-refl : (r : OperationReceipt) → Advances r r
Advances-refl r = ground arith

pub Advances-trans : (r s t : OperationReceipt) → Advances r s → Advances s t → Advances r t
Advances-trans r s t h k = ground arith

-- A handler that writes the receipt keeps it valid and moves it on.
abbrev pub Respects : {D : Type 0} → OperationReceipt → Reply D → Type 0
Respects r (keep d) = Unit {0}
Respects r (update r' d) = ReceiptIsValid r' × Advances r r'
