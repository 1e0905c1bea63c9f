-- ===== src/Gate/Disposition.antt =====
-- The closure of an operation: has_resolved_effects, has_resolved_closure,
-- refresh_authority_disposition and revoke of AuthorityGate::Implementation in authority_gate.cpp.
-- They read and write the current receipt alone, so they are functions of that receipt.
use robot_harness.Base.{
  ℕ, Bool, false, not, Option, none, some, ◌&&◌, ◌||◌, has_value, if◌then◌else◌,
}
use robot_harness.Gate.Types.{
  NativeOutcome, OutputNonDeliveryReason, AuthorityDisposition, StopAcknowledgement, ControlStatus,
  ControlDecision,
}
use robot_harness.Gate.Types.Tests.{
  reason_eq, is_submitted, is_not_submitted, is_accepted, is_rejected, outcome_eq,
  is_accepted_output, is_not_delivered, is_settled,
}
use robot_harness.Gate.Receipt.{OperationReceipt, is_revoked}

-- `receipt.output_non_delivery_reason == reason`, of an optional.
abbrev pub has_reason : Option OutputNonDeliveryReason → OutputNonDeliveryReason → Bool
has_reason none reason = false
has_reason (some r) reason = reason_eq r reason

-- `output == kNotDelivered && output_non_delivery_reason == kNoOutputProduced`.
abbrev pub has_no_output : OperationReceipt → Bool
has_no_output r =
    is_not_delivered r.output
    && has_reason r.output_non_delivery_reason OutputNonDeliveryReason.no_output_produced

unfoldable pub has_resolved_effects : OperationReceipt → Bool
has_resolved_effects r =
    if is_not_submitted r.dispatch
    then outcome_eq r.native_outcome NativeOutcome.not_executed && has_no_output r
    else if not (is_submitted r.dispatch)
    then false
    else if is_rejected r.native_acceptance
    then outcome_eq r.native_outcome NativeOutcome.not_executed && has_no_output r
    else if not (is_accepted r.native_acceptance)
    then false
    else if outcome_eq r.native_outcome NativeOutcome.failed
        || outcome_eq r.native_outcome NativeOutcome.cancelled
    then has_no_output r
    else if not (outcome_eq r.native_outcome NativeOutcome.succeeded)
    then false
    else is_accepted_output r.output
      || (is_not_delivered r.output
          && (has_reason r.output_non_delivery_reason OutputNonDeliveryReason.sink_rejected
              || has_reason r.output_non_delivery_reason OutputNonDeliveryReason.authority_revoked))

unfoldable pub has_resolved_closure : OperationReceipt → Bool
has_resolved_closure r = is_settled r.settlement && has_resolved_effects r

-- The value that refresh_authority_disposition assigns.
unfoldable pub disposition_of : OperationReceipt → AuthorityDisposition
disposition_of r =
    if outcome_eq r.native_outcome NativeOutcome.unknown
    then AuthorityDisposition.blocked_unknown
    else if has_resolved_closure r
    then AuthorityDisposition.released
    else if is_revoked r
    then AuthorityDisposition.revoked
    else AuthorityDisposition.current

unfoldable pub refresh_authority_disposition : OperationReceipt → OperationReceipt
refresh_authority_disposition r = record r { authority_disposition = disposition_of r }

unfoldable pub should_stop : OperationReceipt → Bool
should_stop r =
    is_submitted r.dispatch
    && outcome_eq r.native_outcome NativeOutcome.pending
    && not (has_value r.native_stop_requested_at)

unfoldable pub revoke : OperationReceipt → ℕ → OperationReceipt × ControlDecision
unfolding refresh_authority_disposition should_stop
revoke r observed_at = (
  refresh_authority_disposition (
      if should_stop r
      then record r {
        native_stop_requested_at = some observed_at;
        stop_acknowledgement = StopAcknowledgement.pending;
      }
      else r),
  record { status = ControlStatus.applied; should_request_native_stop = should_stop r },
)
