-- ===== src/Gate/Admission.antt =====
-- admit and claim_dispatch of authority_gate.cpp.
use robot_harness.Base.{
  ℕ, Bool, true, false, not, Option, none, some, ◌&&◌, ◌||◌, ◌==◌, ltb, leb, str_eq, is_empty,
  has_value, increment, if◌then◌else◌,
}
use robot_harness.Gate.Types.{
  EvidenceRecord, ExecutionRequirements, OperationRequest, OperationAuthority, AdmissionStatus,
  AdmissionDecision, DispatchStatus,
}
use robot_harness.Gate.Types.Tests.{is_closed, is_ready, is_active_phase, is_pending_dispatch}
use robot_harness.Gate.Receipt.{
  OperationReceipt, new_receipt, is_reached, is_revoked, latest_time, has_reached_deadline,
}
use robot_harness.Gate.State.{AuthorityGate, Reply, keep, update, reply, current_is_releasable}
use robot_harness.Gate.Capabilities.{supports_execution}

-- `{status, {}}`.
abbrev pub refusal : AdmissionStatus → AdmissionDecision
refusal status = record { status = status; authority = none }

unfoldable pub is_invalid_request : AuthorityGate → OperationRequest → Bool
is_invalid_request g q =
    not (str_eq q.capability_id g.config.capability_id)
    || not (str_eq q.effect_domain g.config.binding.effect_domain)
    || is_empty q.opaque_request_reference
    || is_empty q.target_reference
    || ltb q.requested_at g.last_binding_control_at
    || g.next_operation_id == 0

-- `current_receipt.has_value() && !current_is_releasable()`.
unfoldable pub is_occupied : AuthorityGate → Bool
is_occupied g = has_value g.current_receipt && not (current_is_releasable g)

abbrev pub precedes_receipt : ℕ → Option OperationReceipt → Bool
precedes_receipt at none = false
precedes_receipt at (some r) = ltb at (latest_time r)

abbrev pub precedes_record : ℕ → Option EvidenceRecord → Bool
precedes_record at none = false
precedes_record at (some r) = ltb at r.observed_at

-- The request is older than the last operation, or than a record of the start-up loop.
unfoldable pub is_out_of_order : AuthorityGate → OperationRequest → Bool
is_out_of_order g q =
    precedes_receipt q.requested_at g.current_receipt
    || precedes_record q.requested_at g.binding_idle.evidence
    || precedes_record q.requested_at g.worker_ready.evidence
    || precedes_record q.requested_at g.result_sink_ready.evidence

-- `requirements && !supports_execution(*requirements, at)`.
abbrev pub is_unsupported : AuthorityGate → Option ExecutionRequirements → ℕ → Bool
is_unsupported g none at = false
is_unsupported g (some r) at = not (supports_execution g r at)

unfoldable pub lacks_capabilities : AuthorityGate → OperationRequest → Bool
lacks_capabilities g q =
    (not (is_empty g.config.execution_capability_observer)
      && not (has_value q.execution_requirements))
    || is_unsupported g q.execution_requirements q.requested_at

unfoldable pub new_authority : AuthorityGate → OperationRequest → OperationAuthority
new_authority g q = record {
  operation_id = g.next_operation_id;
  binding = g.config.binding;
  admitted_at = q.requested_at;
}

-- The end of admit.
unfoldable pub grant : AuthorityGate → OperationRequest → AuthorityGate × AdmissionDecision
unfolding new_authority
grant g q = (
  record g {
    next_operation_id = increment g.next_operation_id;
    current_receipt = some (new_receipt (new_authority g q) q.deadline q.execution_requirements);
    last_native_record = none;
    last_native_kind = none;
  },
  record { status = AdmissionStatus.admitted; authority = some (new_authority g q) },
)

unfoldable pub admit : AuthorityGate → OperationRequest → AuthorityGate × AdmissionDecision
admit g q =
    if is_closed g.initialization_state
    then (g, refusal AdmissionStatus.closed)
    else if is_invalid_request g q
    then (g, refusal AdmissionStatus.invalid_request)
    else if is_reached q.deadline q.requested_at
    then (g, refusal AdmissionStatus.expired)
    else if not (is_active_phase g.binding_phase) || not (is_ready g.initialization_state)
    then (g, refusal AdmissionStatus.recovery_required)
    else if is_occupied g
    then (g, refusal AdmissionStatus.domain_occupied)
    else if is_out_of_order g q
    then (g, refusal AdmissionStatus.invalid_request)
    else if lacks_capabilities g q
    then (g, refusal AdmissionStatus.capabilities_unavailable)
    else grant g q

-- The guard of claim_dispatch, at the receipt that the authority matches.
unfoldable pub is_dispatchable : AuthorityGate → OperationAuthority → ℕ → OperationReceipt → Bool
is_dispatchable g authority observed_at r =
    is_active_phase g.binding_phase
    && is_ready g.initialization_state
    && leb authority.admitted_at observed_at
    && is_pending_dispatch r.dispatch
    && not (is_revoked r)
    && not (has_reached_deadline r observed_at)
    && not (is_unsupported g r.execution_requirements observed_at)

unfoldable pub dispatch_reply :
    AuthorityGate → OperationAuthority → ℕ → OperationReceipt → Reply Bool
dispatch_reply g authority observed_at r =
    if not (is_dispatchable g authority observed_at r)
    then keep false
    else update (record r { dispatch = DispatchStatus.submitted; dispatched_at = some observed_at })
        true

unfoldable pub claim_dispatch : AuthorityGate → OperationAuthority → ℕ → AuthorityGate × Bool
claim_dispatch g authority observed_at =
    reply g authority false (dispatch_reply g authority observed_at)
