-- ===== src/Gate/Types.antt =====
-- The data of include/robot_harness/authority_gate.hpp: identities, evidence, statuses and
-- decisions. An enumerator `kFooBar` is the constructor `foo_bar`; times, identities and sequence
-- numbers are 64-bit and are held as natural numbers.
pub mod Tests
pub mod Equality
use robot_harness.Base.{ℕ, String, Bool, not, Option, ◌&&◌, ◌==◌, str_eq, is_empty}

pub record BindingIdentity : Type 0 where
  pub provider_id : String
  pub effect_domain : String
  pub composition_revision : ℕ
  pub provider_generation : ℕ

-- `operator==` of BindingIdentity.
unfoldable pub binding_eq : BindingIdentity → BindingIdentity → Bool
binding_eq left right =
    str_eq left.provider_id right.provider_id
    && str_eq left.effect_domain right.effect_domain
    && left.composition_revision == right.composition_revision
    && left.provider_generation == right.provider_generation

pub record EvidenceRecord : Type 0 where
  pub source : String
  pub observed_at : ℕ
  pub sequence : ℕ

pub data InitializationState : Type 0 where
  recovery_required ready closed : InitializationState

pub data StartupEvidenceKind : Type 0 where
  binding_idle_and_settled worker_ready result_sink_ready adapter_ready : StartupEvidenceKind

pub record StartupEvidence : Type 0 where
  pub kind : StartupEvidenceKind
  pub binding : BindingIdentity
  pub evidence : EvidenceRecord  -- `record` in the source
  pub observed : Bool

pub record StartupStatus : Type 0 where
  pub state : InitializationState
  pub binding : BindingIdentity
  pub is_binding_idle_and_settled : Bool
  pub is_worker_ready : Bool
  pub is_result_sink_ready : Bool
  pub binding_idle_and_settled : Option EvidenceRecord
  pub worker_ready : Option EvidenceRecord
  pub result_sink_ready : Option EvidenceRecord
  pub is_adapter_ready : Bool
  pub adapter_ready : Option EvidenceRecord

pub record ExecutionRequirements : Type 0 where
  pub profile_id : String
  pub work_units : ℕ

pub record ExecutionCapabilities : Type 0 where
  pub binding : BindingIdentity
  pub capability_id : String
  pub profile_id : String
  pub maximum_work_units : ℕ
  pub available : Bool
  pub evidence : EvidenceRecord
  pub valid_until : ℕ

pub record OperationRequest : Type 0 where
  pub capability_id : String
  pub effect_domain : String
  pub opaque_request_reference : String
  pub target_reference : String
  pub requested_at : ℕ
  pub deadline : Option ℕ
  pub execution_requirements : Option ExecutionRequirements

pub record OperationAuthority : Type 0 where
  pub operation_id : ℕ
  pub binding : BindingIdentity
  pub admitted_at : ℕ

-- `OperationAuthority::is_valid`.
unfoldable pub is_valid : OperationAuthority → Bool
is_valid a =
    not (a.operation_id == 0)
    && not (is_empty a.binding.provider_id)
    && not (is_empty a.binding.effect_domain)
    && not (a.binding.composition_revision == 0)
    && not (a.binding.provider_generation == 0)

pub data BindingPhase : Type 0 where
  active withdrawn preparing closed : BindingPhase

pub data BindingControlStatus : Type 0 where
  applied already_in_phase stale_identity wrong_phase unresolved_work : BindingControlStatus
  invalid_evidence invalid_time invalid_provider identity_exhausted closed : BindingControlStatus

pub record BindingReadinessEvidence : Type 0 where
  pub kind : StartupEvidenceKind
  pub binding : BindingIdentity
  pub evidence : EvidenceRecord
  pub observed : Bool
  pub valid_until : ℕ

pub record BindingDecision : Type 0 where
  pub status : BindingControlStatus
  pub candidate : Option BindingIdentity
  pub native_stop_authority : Option OperationAuthority

pub record BindingStatus : Type 0 where
  pub phase : BindingPhase
  pub active : BindingIdentity
  pub candidate : Option BindingIdentity
  pub can_commit : Bool

pub data AdmissionStatus : Type 0 where
  admitted invalid_request expired recovery_required domain_occupied closed : AdmissionStatus
  capabilities_unavailable : AdmissionStatus

pub record AdmissionDecision : Type 0 where
  pub status : AdmissionStatus
  pub authority : Option OperationAuthority

pub data EvidenceDisposition : Type 0 where
  accepted duplicate rejected : EvidenceDisposition

pub data NativeEventKind : Type 0 where
  accepted rejected started terminal_succeeded terminal_failed terminal_cancelled : NativeEventKind

pub record NativeEvidence : Type 0 where
  pub authority : OperationAuthority
  pub native_identity : String
  pub kind : NativeEventKind
  pub evidence : EvidenceRecord

pub record OutputEvidence : Type 0 where
  pub authority : OperationAuthority
  pub result_reference : String
  pub evidence : EvidenceRecord

pub record NonSubmissionEvidence : Type 0 where
  pub authority : OperationAuthority
  pub evidence : EvidenceRecord

pub data OutputNonDeliveryReason : Type 0 where
  no_output_produced sink_rejected authority_revoked : OutputNonDeliveryReason

pub record OutputNonDeliveryEvidence : Type 0 where
  pub authority : OperationAuthority
  pub reason : OutputNonDeliveryReason
  pub result_reference : String
  pub evidence : EvidenceRecord

pub record SettlementEvidence : Type 0 where
  pub authority : OperationAuthority
  pub scope : String
  pub permits_same_domain_admission : Bool
  pub evidence : EvidenceRecord

pub data DispatchStatus : Type 0 where
  pending submitted not_submitted : DispatchStatus

pub data NativeAcceptance : Type 0 where
  pending accepted rejected : NativeAcceptance

pub data NativeOutcome : Type 0 where
  pending not_executed succeeded failed cancelled unknown : NativeOutcome

pub data OutputDisposition : Type 0 where
  pending accepted not_delivered : OutputDisposition

pub data SettlementStatus : Type 0 where
  pending settled : SettlementStatus

pub data DomainVerdict : Type 0 where
  unassessed : DomainVerdict

pub data AuthorityDisposition : Type 0 where
  current revoked released blocked_unknown : AuthorityDisposition

pub data ControlStatus : Type 0 where
  applied already_requested no_active_operation not_due rejected : ControlStatus

pub record ControlDecision : Type 0 where
  pub status : ControlStatus
  pub should_request_native_stop : Bool

pub data StopAcknowledgement : Type 0 where
  not_requested pending acknowledged refused unavailable : StopAcknowledgement

pub record StopAcknowledgementEvidence : Type 0 where
  pub authority : OperationAuthority
  pub acknowledgement : StopAcknowledgement
  pub evidence : EvidenceRecord
