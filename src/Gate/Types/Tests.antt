-- ===== src/Gate/Types/Tests.antt =====
-- `==` on the enumerations of authority_gate.hpp that the gate compares.
use robot_harness.Base.{Bool, true, false}
use robot_harness.Gate.Types.{
  StartupEvidenceKind, NativeEventKind, OutputNonDeliveryReason, StopAcknowledgement,
  InitializationState, BindingPhase, DispatchStatus, NativeAcceptance, NativeOutcome,
  OutputDisposition, SettlementStatus, AuthorityDisposition,
}

-- Each test is numbered by the order of the constructors.
abbrev pub kind_eq : StartupEvidenceKind → StartupEvidenceKind → Bool
kind_eq StartupEvidenceKind.binding_idle_and_settled StartupEvidenceKind.binding_idle_and_settled =
    true
kind_eq StartupEvidenceKind.worker_ready StartupEvidenceKind.worker_ready = true
kind_eq StartupEvidenceKind.result_sink_ready StartupEvidenceKind.result_sink_ready = true
kind_eq StartupEvidenceKind.adapter_ready StartupEvidenceKind.adapter_ready = true
kind_eq _ _ = false

abbrev pub native_kind_eq : NativeEventKind → NativeEventKind → Bool
native_kind_eq NativeEventKind.accepted NativeEventKind.accepted = true
native_kind_eq NativeEventKind.rejected NativeEventKind.rejected = true
native_kind_eq NativeEventKind.started NativeEventKind.started = true
native_kind_eq NativeEventKind.terminal_succeeded NativeEventKind.terminal_succeeded = true
native_kind_eq NativeEventKind.terminal_failed NativeEventKind.terminal_failed = true
native_kind_eq NativeEventKind.terminal_cancelled NativeEventKind.terminal_cancelled = true
native_kind_eq _ _ = false

abbrev pub reason_eq : OutputNonDeliveryReason → OutputNonDeliveryReason → Bool
reason_eq OutputNonDeliveryReason.no_output_produced OutputNonDeliveryReason.no_output_produced =
    true
reason_eq OutputNonDeliveryReason.sink_rejected OutputNonDeliveryReason.sink_rejected = true
reason_eq OutputNonDeliveryReason.authority_revoked OutputNonDeliveryReason.authority_revoked = true
reason_eq _ _ = false

abbrev pub acknowledgement_eq : StopAcknowledgement → StopAcknowledgement → Bool
acknowledgement_eq StopAcknowledgement.not_requested StopAcknowledgement.not_requested = true
acknowledgement_eq StopAcknowledgement.pending StopAcknowledgement.pending = true
acknowledgement_eq StopAcknowledgement.acknowledged StopAcknowledgement.acknowledged = true
acknowledgement_eq StopAcknowledgement.refused StopAcknowledgement.refused = true
acknowledgement_eq StopAcknowledgement.unavailable StopAcknowledgement.unavailable = true
acknowledgement_eq _ _ = false

abbrev pub is_closed : InitializationState → Bool
is_closed InitializationState.closed = true
is_closed _ = false

abbrev pub is_ready : InitializationState → Bool
is_ready InitializationState.ready = true
is_ready _ = false

-- The four phases of a binding.
abbrev pub is_active_phase : BindingPhase → Bool
is_active_phase BindingPhase.active = true
is_active_phase _ = false

abbrev pub is_withdrawn_phase : BindingPhase → Bool
is_withdrawn_phase BindingPhase.withdrawn = true
is_withdrawn_phase _ = false

abbrev pub is_preparing_phase : BindingPhase → Bool
is_preparing_phase BindingPhase.preparing = true
is_preparing_phase _ = false

abbrev pub is_closed_phase : BindingPhase → Bool
is_closed_phase BindingPhase.closed = true
is_closed_phase _ = false

-- The axes of a receipt.
abbrev pub is_pending_dispatch : DispatchStatus → Bool
is_pending_dispatch DispatchStatus.pending = true
is_pending_dispatch _ = false

abbrev pub is_submitted : DispatchStatus → Bool
is_submitted DispatchStatus.submitted = true
is_submitted _ = false

abbrev pub is_not_submitted : DispatchStatus → Bool
is_not_submitted DispatchStatus.not_submitted = true
is_not_submitted _ = false

abbrev pub is_accepted : NativeAcceptance → Bool
is_accepted NativeAcceptance.accepted = true
is_accepted _ = false

abbrev pub is_rejected : NativeAcceptance → Bool
is_rejected NativeAcceptance.rejected = true
is_rejected _ = false

abbrev pub outcome_eq : NativeOutcome → NativeOutcome → Bool
outcome_eq NativeOutcome.pending NativeOutcome.pending = true
outcome_eq NativeOutcome.not_executed NativeOutcome.not_executed = true
outcome_eq NativeOutcome.succeeded NativeOutcome.succeeded = true
outcome_eq NativeOutcome.failed NativeOutcome.failed = true
outcome_eq NativeOutcome.cancelled NativeOutcome.cancelled = true
outcome_eq NativeOutcome.unknown NativeOutcome.unknown = true
outcome_eq _ _ = false

abbrev pub is_pending_output : OutputDisposition → Bool
is_pending_output OutputDisposition.pending = true
is_pending_output _ = false

abbrev pub is_accepted_output : OutputDisposition → Bool
is_accepted_output OutputDisposition.accepted = true
is_accepted_output _ = false

abbrev pub is_not_delivered : OutputDisposition → Bool
is_not_delivered OutputDisposition.not_delivered = true
is_not_delivered _ = false

abbrev pub is_settled : SettlementStatus → Bool
is_settled SettlementStatus.settled = true
is_settled _ = false

abbrev pub is_released : AuthorityDisposition → Bool
is_released AuthorityDisposition.released = true
is_released _ = false
