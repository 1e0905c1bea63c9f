-- ===== src/Compute/Prepare.antt =====
-- initialize, prepare, dispatch_prepared, submit and request_cancel of ComputeExecutionHost.
use Prim.Native.String.{◌++◌ as text_append}
use robot_harness.Base.{
  ℕ, String, Bool, true, false, not, Option, none, some, ◌&&◌, ◌||◌, has_value, if◌then◌else◌,
}
use robot_harness.Decimal.{to_string}
use robot_harness.Action.{Action, returned, pure, gets, modify, ◌>>=◌, ◌>>◌}
use robot_harness.Gate.Types.{
  OperationAuthority, OperationRequest, BindingIdentity, AdmissionStatus, AdmissionDecision,
  ControlDecision, StartupStatus, AuthorityDisposition, StartupEvidenceKind, NativeEventKind,
}
use robot_harness.Gate.Types.Tests.{is_active_phase, is_pending_dispatch}
use robot_harness.Gate.Control.{receipt}
use robot_harness.Gate.Startup.{startup_status}
use robot_harness.Gate.Binding.{binding_status}
use robot_harness.Gate.Capabilities.{supports_execution}
use robot_harness.Gate.Calls.{startup, admits, claim, cancel}
use robot_harness.Compute.Types.{
  ComputeProcess, ProcessObservation, ComputeRequest, ComputeSubmission, ComputeSubmissionStatus,
  ComputeShutdownStatus, is_zero, is_valid_compute_request, matches, capability, observer_source,
  result_sink,
}
use robot_harness.Compute.Host.{ComputeHost, now, call, record_of, accept}
use robot_harness.Compute.Control.{
  receipt_of, awaits_dispatch, is_applied_control, apply_stop, expire, report_native,
  settle_unsubmitted, observe_capabilities,
}
use robot_harness.Compute.Reports.{is_open_status}
use robot_harness.Compute.Finish.{observed_of}

abbrev pub is_closed_status : ComputeShutdownStatus → Bool
is_closed_status ComputeShutdownStatus.closed = true
is_closed_status _ = false

abbrev pub compute_operation : ComputeRequest → String → ℕ → OperationRequest
compute_operation request effect_domain requested_at = record {
  capability_id = capability;
  effect_domain = effect_domain;
  opaque_request_reference = request.request_reference;
  target_reference = result_sink;
  requested_at = requested_at;
  deadline = request.deadline;
  execution_requirements =
      some (record { profile_id = request.required_profile_id; work_units = request.iterations });
}

abbrev pub submission :
    ComputeSubmissionStatus → AdmissionStatus → Option OperationAuthority → ComputeSubmission
submission status admission_status authority = record {
  status = status;
  admission_status = admission_status;
  authority = authority;
}

-- `== AuthorityDisposition::kRevoked`.
abbrev pub is_revoked_state : AuthorityDisposition → Bool
is_revoked_state AuthorityDisposition.revoked = true
is_revoked_state _ = false

abbrev pub has_failed : ProcessObservation → Bool
has_failed o = o.malformed || not (is_zero o.io_error) || o.ownership_lost

abbrev pub is_running : Option ProcessObservation → Bool
is_running none = false
is_running (some o) = o.launched && not o.channels_closed

abbrev pub has_failed_process : Option ProcessObservation → Bool
has_failed_process none = false
has_failed_process (some o) = has_failed o

module _ {X : Type 0} where
  unfoldable pub report_startup :
      StartupEvidenceKind → BindingIdentity → String → Bool → ℕ → Action (ComputeHost X) (Unit {0})
  report_startup kind binding source observed at = do
    evidence ← record_of source at
    disposition ← call (
        startup
          (record { kind = kind; binding = binding; evidence = evidence; observed = observed }))
    accept disposition

  unfoldable pub report_startups : BindingIdentity → Bool → ℕ → Action (ComputeHost X) (Unit {0})
  report_startups active ready at = do
    report_startup StartupEvidenceKind.binding_idle_and_settled active observer_source true at
    report_startup StartupEvidenceKind.adapter_ready active observer_source ready at
    report_startup StartupEvidenceKind.result_sink_ready active result_sink true at
    modify λ h. record h { initialized = ready && not h.evidence_error }

  abbrev pub enter_prepared : OperationAuthority → ComputeRequest → ComputeHost X → ComputeHost X
  enter_prepared authority request h = record h {
    process = none;
    result = none;
    authority = some authority;
    request = some request;
    native_identity = text_append "compute-child-" (to_string authority.operation_id);
    result_reference = text_append "compute-result-" (to_string authority.operation_id);
    stop_reported = false;
    outcome_reported = false;
  }

  unfoldable pub keep_prepared :
      ComputeRequest
      → AdmissionDecision
      → Option OperationAuthority
      → Action (ComputeHost X) ComputeSubmission
  keep_prepared request admission none =
      pure (submission ComputeSubmissionStatus.admission_blocked admission.status none)
  keep_prepared request admission (some authority) = do
    modify (enter_prepared authority request)
    pure (submission ComputeSubmissionStatus.prepared admission.status (some authority))

  -- The request to dispatch, where dispatch_prepared goes on.
  abbrev pub dispatchable : OperationAuthority → ComputeHost X → Option ComputeRequest
  dispatchable authority h =
      if has_value h.process
        || not (elim h.authority [ none ↦ false | some own ↦ matches own authority ])
      then none
      else h.request

  -- An operation that was revoked before its dispatch is settled.
  abbrev pub is_revoked_pending : ComputeHost X → Bool
  is_revoked_pending h = not (has_value h.process) && elim (receipt_of h) [
    | none ↦ false
    | some r ↦ is_pending_dispatch r.dispatch && is_revoked_state r.authority_disposition
  ]

  -- The binding is live and no longer supports the request.
  abbrev pub has_lost_support : ℕ → ℕ → ComputeHost X → Bool
  has_lost_support bound_at supported_at h =
      is_open_status h.shutdown
      && is_active_phase (binding_status h.gate bound_at).phase
      && elim h.request [
        | none ↦ false
        | some request ↦ not (
            supports_execution h.gate
              (record { profile_id = request.required_profile_id; work_units = request.iterations })
              supported_at)
      ]

module _ {X : Type 0} (P : ComputeProcess X) where
  unfoldable pub initialize : Action (ComputeHost X) StartupStatus
  initialize = do
    at ← now
    h ← gets λ (h : ComputeHost X). h
    if is_open_status h.shutdown && is_active_phase (binding_status h.gate at).phase
        then (do
          ready ← observe_capabilities P at
          initialized ← gets λ (h : ComputeHost X). h.initialized
          if initialized
              then pure tt
              else report_startups (binding_status h.gate at).active ready at)
        else pure tt
    gets λ (h : ComputeHost X). startup_status h.gate

  unfoldable pub admit_request : ComputeRequest → Action (ComputeHost X) ComputeSubmission
  admit_request request = do
    observed_at ← now
    observe_capabilities P observed_at
    bound_at ← now
    status ← gets λ (h : ComputeHost X). binding_status h.gate bound_at
    requested_at ← now
    admission ← call (admits (compute_operation request status.active.effect_domain requested_at))
    keep_prepared request admission admission.authority

  unfoldable pub prepare : ComputeRequest → Action (ComputeHost X) ComputeSubmission
  prepare request = do
    h ← gets λ (h : ComputeHost X). h
    if not (is_valid_compute_request request)
        then pure (
            submission ComputeSubmissionStatus.invalid_argument AdmissionStatus.invalid_request
              none)
        else if h.evidence_error
        then pure (
            submission ComputeSubmissionStatus.admission_blocked AdmissionStatus.recovery_required
              none)
        else if not (is_open_status h.shutdown)
        then pure (submission ComputeSubmissionStatus.admission_blocked AdmissionStatus.closed none)
        else admit_request request

  unfoldable pub launch_of : Option X → Action (ComputeHost X) Bool
  launch_of none h = (returned false, h)
  launch_of (some x) h =
      let (x', launched) = P.launch x in (returned launched, record h { process = some x' })

  unfoldable pub launch : Action (ComputeHost X) Bool
  launch h = launch_of h.process h

  -- dispatch_prepared, once the dispatch is claimed and the process is in place.
  unfoldable pub start_process : OperationAuthority → Action (ComputeHost X) Bool
  start_process authority = do
    launched ← launch
    if not launched
        then (do
          observed ← gets (observed_of P)
          settle_unsubmitted (elim observed [ none ↦ true | some o ↦ is_zero o.io_error ])
          pure false)
        else do at ← now; report_native authority NativeEventKind.accepted at; pure true

  abbrev pub create_process : ComputeRequest → ComputeHost X → X
  create_process request h =
      P.create h.config.worker_executable request.iterations h.config.stop_grace_ms

  -- dispatch_prepared, for an operation that awaits its dispatch.
  unfoldable pub claim_and_start : OperationAuthority → ComputeRequest → Action (ComputeHost X) Bool
  claim_and_start authority request = do
    process ← gets (create_process request)
    at ← now
    expire P at
    error ← gets λ (h : ComputeHost X). h.evidence_error
    claimed ← if error then pure false else call (claim authority at)
    if not claimed
        then (do settle_unsubmitted true; pure false)
        else do modify λ h. record h { process = some process }; start_process authority

  unfoldable pub dispatch_request :
      OperationAuthority → Option ComputeRequest → Action (ComputeHost X) Bool
  dispatch_request authority none = pure false
  dispatch_request authority (some request) = do
    at ← now
    observe_capabilities P at
    awaits ← gets λ (h : ComputeHost X). awaits_dispatch (receipt h.gate authority)
    if awaits then claim_and_start authority request else pure false

  unfoldable pub dispatch_prepared : OperationAuthority → Action (ComputeHost X) Bool
  dispatch_prepared authority = do
    request ← gets (dispatchable authority)
    dispatch_request authority request

  unfoldable pub submit_prepared :
      ComputeSubmission → Option OperationAuthority → Action (ComputeHost X) ComputeSubmission
  submit_prepared prepared none = pure prepared
  submit_prepared prepared (some authority) = do
    dispatched ← dispatch_prepared authority
    pure (record prepared {
      status =
          if dispatched
          then ComputeSubmissionStatus.submitted
          else ComputeSubmissionStatus.not_submitted;
    })

  unfoldable pub submit : ComputeRequest → Action (ComputeHost X) ComputeSubmission
  submit request = do prepared ← prepare request; submit_prepared prepared prepared.authority

  unfoldable pub request_cancel : OperationAuthority → Action (ComputeHost X) ControlDecision
  request_cancel authority = do
    at ← now
    decision ← call (cancel authority at)
    apply_stop P decision at
    pending ← gets λ (h : ComputeHost X). awaits_dispatch (receipt h.gate authority)
    if is_applied_control decision.status && pending then settle_unsubmitted true else pure tt
    pure decision

  -- `request_cancel(*authority)`, its answer dropped.
  unfoldable pub cancel_own : Option OperationAuthority → Action (ComputeHost X) (Unit {0})
  cancel_own none = pure tt
  cancel_own (some authority) = do request_cancel authority; pure tt
