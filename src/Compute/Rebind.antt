-- ===== src/Compute/Rebind.antt =====
-- old_scope_is_clear and rebind_provider of ComputeExecutionHost::Implementation. The `catch` of
-- rebind_provider is not reached: nothing that the `try` calls throws.
use robot_harness.Base.{
  ℕ, String, Bool, true, false, not, Option, none, some, ◌&&◌, ◌||◌, has_value, is_empty,
  if◌then◌else◌,
}
use robot_harness.Action.{Action, pure, gets, modify, ◌>>=◌, ◌>>◌}
use robot_harness.Gate.Types.{
  BindingIdentity, BindingControlStatus, BindingDecision, StartupEvidenceKind,
  BindingReadinessEvidence, EvidenceRecord, binding_eq,
}
use robot_harness.Gate.Types.Tests.{is_withdrawn_phase, is_released}
use robot_harness.Gate.Receipt.{OperationReceipt}
use robot_harness.Gate.Binding.{binding_status, decision}
use robot_harness.Gate.Calls.{withdraw, begin, readiness, capabilities, commits}
use robot_harness.Compute.Types.{
  ComputeProcess, ProcessObservation, is_zero, is_absolute, capability, local_compute_profile,
  observer_source, result_sink, evidence_expiry,
}
use robot_harness.Compute.Host.{ComputeHost, now, can_launch, call, record_of}
use robot_harness.Compute.Control.{receipt_of, is_applied_binding_control}
use robot_harness.Compute.Reports.{is_open_status}
use robot_harness.Compute.Finish.{observed_of}

abbrev pub is_released_receipt : Option OperationReceipt → Bool
is_released_receipt none = false
is_released_receipt (some r) = is_released r.authority_disposition

-- The process, if any, has ended and its cleanup is known.
abbrev pub is_cleared : Option ProcessObservation → Bool
is_cleared none = true
is_cleared (some o) =
    not o.ownership_lost
    && (if o.launched
        then has_value o.exit_status && o.event_eof && o.channels_closed
        else is_zero o.io_error)

abbrev pub readiness_of :
    StartupEvidenceKind → BindingIdentity → EvidenceRecord → Bool → ℕ → BindingReadinessEvidence
readiness_of kind binding evidence observed valid_until = record {
  kind = kind;
  binding = binding;
  evidence = evidence;
  observed = observed;
  valid_until = valid_until;
}

-- `begun.candidate` where the status is kApplied.
abbrev pub prepared_candidate : BindingDecision → Option BindingIdentity
prepared_candidate begun = if is_applied_binding_control begun.status then begun.candidate else none

module _ {X : Type 0} where
  -- The answer of observe_rebind_readiness is dropped.
  unfoldable pub report_readiness :
      StartupEvidenceKind → BindingIdentity → String → Bool → ℕ → Action (ComputeHost X) (Unit {0})
  report_readiness kind candidate source observed at = do
    evidence ← record_of source at
    call (readiness (readiness_of kind candidate evidence observed (evidence_expiry at)))
    pure tt

  unfoldable pub report_candidate_capabilities :
      BindingIdentity → Bool → ℕ → Action (ComputeHost X) (Unit {0})
  report_candidate_capabilities candidate ready at = do
    h ← gets λ (h : ComputeHost X). h
    evidence ← record_of observer_source at
    call (
        capabilities (record {
          binding = candidate;
          capability_id = capability;
          profile_id = local_compute_profile;
          maximum_work_units = h.config.maximum_iterations;
          available = ready;
          evidence = evidence;
          valid_until = evidence_expiry at;
        }))
    pure tt

  unfoldable pub withdraw_candidate : BindingIdentity → Action (ComputeHost X) (Unit {0})
  withdraw_candidate candidate = do at ← now; call (withdraw candidate at); pure tt

  abbrev pub install_executable : String → ComputeHost X → ComputeHost X
  install_executable executable h = record h {
    config = record (h.config) { worker_executable = executable };
    initialized = true;
  }

  unfoldable pub commit_candidate :
      BindingIdentity → String → Action (ComputeHost X) BindingDecision
  commit_candidate candidate executable = do
    ready ← can_launch executable
    at ← now
    report_readiness StartupEvidenceKind.binding_idle_and_settled candidate observer_source true at
    report_readiness StartupEvidenceKind.adapter_ready candidate observer_source ready at
    report_readiness StartupEvidenceKind.result_sink_ready candidate result_sink true at
    report_candidate_capabilities candidate ready at
    committed_at ← now
    committed ← call (commits candidate committed_at)
    if not (is_applied_binding_control committed.status)
        then withdraw_candidate candidate
        else modify (install_executable executable)
    pure committed

  unfoldable pub continue_rebind :
      BindingDecision → Option BindingIdentity → String → Action (ComputeHost X) BindingDecision
  continue_rebind begun none executable = pure begun
  continue_rebind begun (some candidate) executable = commit_candidate candidate executable

  unfoldable pub begin_candidate :
      BindingIdentity → String → String → Action (ComputeHost X) BindingDecision
  begin_candidate expected_old_binding provider_id executable = do
    prepared_at ← now
    evidence ← record_of observer_source prepared_at
    begun ← call (
        begin expected_old_binding provider_id
          (readiness_of StartupEvidenceKind.binding_idle_and_settled expected_old_binding evidence
            true (evidence_expiry prepared_at))
          prepared_at)
    continue_rebind begun (prepared_candidate begun) executable

module _ {X : Type 0} (P : ComputeProcess X) where
  abbrev pub old_scope_is_clear : ComputeHost X → Bool
  old_scope_is_clear h =
      not h.evidence_error
      && (not (has_value h.authority) || is_released_receipt (receipt_of h))
      && is_cleared (observed_of P h)

  unfoldable pub rebind_provider :
      BindingIdentity → String → String → Action (ComputeHost X) BindingDecision
  rebind_provider expected_old_binding provider_id worker_executable = do
    at ← now
    h ← gets λ (h : ComputeHost X). h
    if not (is_open_status h.shutdown)
        then pure (decision BindingControlStatus.closed)
        else if not (binding_eq expected_old_binding (binding_status h.gate at).active)
        then pure (decision BindingControlStatus.stale_identity)
        else if not (is_withdrawn_phase (binding_status h.gate at).phase)
        then pure (decision BindingControlStatus.wrong_phase)
        else if not (old_scope_is_clear h)
        then pure (decision BindingControlStatus.unresolved_work)
        else if is_empty provider_id || not (is_absolute worker_executable)
        then pure (decision BindingControlStatus.invalid_provider)
        else begin_candidate expected_old_binding provider_id worker_executable
