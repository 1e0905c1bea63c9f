-- ===== src/Gate/Receipt.antt =====
-- OperationReceipt of authority_gate.hpp and the functions of authority_gate.cpp that read one:
-- matching of records and authorities, the records a receipt holds, and its times.
use robot_harness.Base.{
  ℕ, String, Bool, true, false, not, Option, none, some, List, [], ◌∷◌, ◌&&◌, ◌||◌, ◌++◌, ◌==◌, leb,
  max, str_eq, is_empty, has_value,
}
use robot_harness.Gate.Types.{
  EvidenceRecord, OperationAuthority, ExecutionRequirements, DispatchStatus, NativeAcceptance,
  NativeOutcome, OutputDisposition, SettlementStatus, AuthorityDisposition, StopAcknowledgement,
  OutputNonDeliveryReason, DomainVerdict, binding_eq,
}

pub record OperationReceipt : Type 0 where
  pub authority : OperationAuthority
  pub dispatch : DispatchStatus
  pub native_acceptance : NativeAcceptance
  pub native_started : Bool
  pub native_outcome : NativeOutcome
  pub observed_native_success : Bool
  pub observed_native_failure : Bool
  pub observed_native_cancellation : Bool
  pub output : OutputDisposition
  pub settlement : SettlementStatus
  pub domain_verdict : DomainVerdict
  pub authority_disposition : AuthorityDisposition
  pub dispatched_at : Option ℕ
  pub cancellation_requested_at : Option ℕ
  pub deadline : Option ℕ
  pub expiry_observed_at : Option ℕ
  pub binding_withdrawn_at : Option ℕ
  pub native_stop_requested_at : Option ℕ
  pub stop_acknowledgement : StopAcknowledgement
  pub native_identity : String
  pub result_reference : String
  pub settlement_scope : String
  pub output_non_delivery_reason : Option OutputNonDeliveryReason
  pub non_submission_evidence : Option EvidenceRecord
  pub native_acceptance_evidence : Option EvidenceRecord
  pub native_rejection_evidence : Option EvidenceRecord
  pub native_started_evidence : Option EvidenceRecord
  pub native_success_evidence : Option EvidenceRecord
  pub native_failure_evidence : Option EvidenceRecord
  pub native_cancellation_evidence : Option EvidenceRecord
  pub stop_acknowledgement_evidence : Option EvidenceRecord
  pub output_evidence : Option EvidenceRecord
  pub output_non_delivery_evidence : Option EvidenceRecord
  pub settlement_evidence : Option EvidenceRecord
  pub execution_requirements : Option ExecutionRequirements

-- The receipt that admission starts from: every other member at its default.
unfoldable pub new_receipt :
    OperationAuthority → Option ℕ → Option ExecutionRequirements → OperationReceipt
new_receipt authority deadline requirements = record {
  authority = authority;
  dispatch = DispatchStatus.pending;
  native_acceptance = NativeAcceptance.pending;
  native_started = false;
  native_outcome = NativeOutcome.pending;
  observed_native_success = false;
  observed_native_failure = false;
  observed_native_cancellation = false;
  output = OutputDisposition.pending;
  settlement = SettlementStatus.pending;
  domain_verdict = DomainVerdict.unassessed;
  authority_disposition = AuthorityDisposition.current;
  dispatched_at = none;
  cancellation_requested_at = none;
  deadline = deadline;
  expiry_observed_at = none;
  binding_withdrawn_at = none;
  native_stop_requested_at = none;
  stop_acknowledgement = StopAcknowledgement.not_requested;
  native_identity = "";
  result_reference = "";
  settlement_scope = "";
  output_non_delivery_reason = none;
  non_submission_evidence = none;
  native_acceptance_evidence = none;
  native_rejection_evidence = none;
  native_started_evidence = none;
  native_success_evidence = none;
  native_failure_evidence = none;
  native_cancellation_evidence = none;
  stop_acknowledgement_evidence = none;
  output_evidence = none;
  output_non_delivery_evidence = none;
  settlement_evidence = none;
  execution_requirements = requirements;
}

unfoldable pub records_match : EvidenceRecord → EvidenceRecord → Bool
records_match left right =
    str_eq left.source right.source
    && left.observed_at == right.observed_at
    && left.sequence == right.sequence

unfoldable pub authority_matches : OperationAuthority → OperationAuthority → Bool
authority_matches left right =
    left.operation_id == right.operation_id
    && binding_eq left.binding right.binding
    && left.admitted_at == right.admitted_at

unfoldable pub is_record_well_formed : EvidenceRecord → String → ℕ → Bool
is_record_well_formed r expected_source earliest_time =
    not (is_empty r.source)
    && str_eq r.source expected_source
    && not (r.sequence == 0)
    && leb earliest_time r.observed_at

-- The first ten entries of `receipt_records`: all but the stop acknowledgement.
unfoldable pub effect_records : OperationReceipt → List (Option EvidenceRecord)
effect_records r =
    r.native_acceptance_evidence ∷ r.native_rejection_evidence ∷ r.native_started_evidence
    ∷ r.native_success_evidence ∷ r.native_failure_evidence ∷ r.output_evidence
    ∷ r.non_submission_evidence ∷ r.output_non_delivery_evidence ∷ r.settlement_evidence
    ∷ r.native_cancellation_evidence ∷ []

unfoldable pub receipt_records : OperationReceipt → List (Option EvidenceRecord)
unfolding effect_records
receipt_records r = effect_records r ++ r.stop_acknowledgement_evidence ∷ []

-- One round of the loop: the record that is there has an earlier sequence, or another source.
unfoldable pub precedes : Option EvidenceRecord → EvidenceRecord → Bool
precedes none evidence = true
precedes (some r) evidence =
    not (str_eq r.source evidence.source && leb evidence.sequence r.sequence)

unfoldable pub follows_all : EvidenceRecord → List (Option EvidenceRecord) → Bool
follows_all evidence [] = true
follows_all evidence (r ∷ rs) = precedes r evidence && follows_all evidence rs

unfoldable pub follows_same_source_records : EvidenceRecord → OperationReceipt → Bool
follows_same_source_records evidence receipt = follows_all evidence (receipt_records receipt)

unfoldable pub is_revoked : OperationReceipt → Bool
is_revoked r =
    has_value r.cancellation_requested_at
    || has_value r.expiry_observed_at
    || has_value r.binding_withdrawn_at

-- `if (value && *value > time) time = *value;`
unfoldable pub later_of : ℕ → Option ℕ → ℕ
later_of time none = time
later_of time (some t) = max time t

unfoldable pub later_record : ℕ → Option EvidenceRecord → ℕ
later_record time none = time
later_record time (some r) = max time r.observed_at

unfoldable pub latest_record : ℕ → List (Option EvidenceRecord) → ℕ
latest_record time [] = time
latest_record time (r ∷ rs) = latest_record (later_record time r) rs

unfoldable pub latest_effect_time : OperationReceipt → ℕ
latest_effect_time r =
    latest_record (later_of r.authority.admitted_at r.dispatched_at) (effect_records r)

unfoldable pub latest_time : OperationReceipt → ℕ
latest_time r =
    later_of
      (later_of
        (later_of (later_record (latest_effect_time r) r.stop_acknowledgement_evidence)
          r.cancellation_requested_at)
        r.expiry_observed_at)
      r.binding_withdrawn_at

-- `limit && time >= *limit`.
unfoldable pub is_reached : Option ℕ → ℕ → Bool
is_reached none time = false
is_reached (some limit) time = leb limit time

unfoldable pub has_reached_deadline : OperationReceipt → ℕ → Bool
unfolding is_reached
has_reached_deadline r time = is_reached r.deadline time

unfoldable pub revocation_precedes : OperationReceipt → ℕ → Bool
unfolding is_reached
revocation_precedes r time =
    is_reached r.cancellation_requested_at time
    || is_reached r.expiry_observed_at time
    || is_reached r.binding_withdrawn_at time
