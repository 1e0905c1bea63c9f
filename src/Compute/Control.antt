-- ===== src/Compute/Control.antt =====
-- Capabilities, withdrawal, stop and expiry of ComputeExecutionHost::Implementation.
use robot_harness.Base.{ℕ, Bool, true, false, not, Option, none, some, ◌&&◌, if◌then◌else◌}
use robot_harness.Action.{Action, pure, gets, modify, ◌>>=◌, ◌>>◌}
use robot_harness.Gate.Types.{
  OperationAuthority, BindingIdentity, BindingControlStatus, BindingDecision, ControlStatus,
  ControlDecision, NativeEventKind, OutputNonDeliveryReason,
}
use robot_harness.Gate.Types.Tests.{is_active_phase, is_pending_dispatch}
use robot_harness.Gate.Receipt.{OperationReceipt}
use robot_harness.Gate.Control.{receipt}
use robot_harness.Gate.Binding.{binding_status}
use robot_harness.Gate.Calls.{
  withdraw, capabilities, native, time, non_submission, non_delivery, settlement,
}
use robot_harness.Compute.Types.{
  ComputeProcess, local_compute_profile, capability, observer_source, process_source, channel_scope,
  matches, evidence_expiry,
}
use robot_harness.Compute.Host.{ComputeHost, now, can_launch, call, record_of, accept}

abbrev pub is_applied_control : ControlStatus → Bool
is_applied_control ControlStatus.applied = true
is_applied_control _ = false

abbrev pub is_applied_binding_control : BindingControlStatus → Bool
is_applied_binding_control BindingControlStatus.applied = true
is_applied_binding_control _ = false

-- `gate.receipt(*authority)`, where there is an authority.
abbrev pub receipt_of : {X : Type 0} → ComputeHost X → Option OperationReceipt
receipt_of h = elim h.authority [ none ↦ none | some a ↦ receipt h.gate a ]

abbrev pub awaits_dispatch : Option OperationReceipt → Bool
awaits_dispatch none = false
awaits_dispatch (some r) = is_pending_dispatch r.dispatch

-- The stop authority of a withdrawal is the authority in place.
abbrev is_own : Option OperationAuthority → Option OperationAuthority → Bool
is_own (some stopped) (some authority) = matches stopped authority
is_own _ _ = false

module _ {X : Type 0} where
  -- Calls on `*process`, where there is one.
  unfoldable pub on_process : (X → X) → Action (ComputeHost X) (Unit {0})
  on_process f =
      modify λ h. record h { process = elim h.process [ none ↦ none | some x ↦ some (f x) ] }

  unfoldable pub report_native :
      OperationAuthority → NativeEventKind → ℕ → Action (ComputeHost X) (Unit {0})
  report_native authority kind at = do
    evidence ← record_of process_source at
    identity ← gets λ (h : ComputeHost X). h.native_identity
    disposition ← call (
        native (record {
          authority = authority;
          native_identity = identity;
          kind = kind;
          evidence = evidence;
        }))
    accept disposition

  unfoldable pub report_no_output : OperationAuthority → ℕ → Action (ComputeHost X) (Unit {0})
  report_no_output authority at = do
    evidence ← record_of observer_source at
    disposition ← call (
        non_delivery (record {
          authority = authority;
          reason = OutputNonDeliveryReason.no_output_produced;
          result_reference = "";
          evidence = evidence;
        }))
    accept disposition

  unfoldable pub report_settlement : OperationAuthority → ℕ → Action (ComputeHost X) (Unit {0})
  report_settlement authority at = do
    evidence ← record_of observer_source at
    disposition ← call (
        settlement (record {
          authority = authority;
          scope = channel_scope;
          permits_same_domain_admission = true;
          evidence = evidence;
        }))
    accept disposition

  -- settle_unsubmitted, of the authority in place.
  unfoldable pub settle_as_unsubmitted :
      OperationAuthority → Bool → Action (ComputeHost X) (Unit {0})
  settle_as_unsubmitted authority cleanup_confirmed = do
    at ← now
    evidence ← record_of observer_source at
    disposition ← call (non_submission (record { authority = authority; evidence = evidence }))
    accept disposition
    report_no_output authority at
    if cleanup_confirmed
        then report_settlement authority at
        else modify λ h. record h { evidence_error = true }

  unfoldable pub settle_unsubmitted_of :
      Option OperationAuthority → Bool → Action (ComputeHost X) (Unit {0})
  settle_unsubmitted_of none cleanup_confirmed = pure tt
  settle_unsubmitted_of (some authority) cleanup_confirmed =
      settle_as_unsubmitted authority cleanup_confirmed

  unfoldable pub settle_unsubmitted : Bool → Action (ComputeHost X) (Unit {0})
  settle_unsubmitted cleanup_confirmed = do
    authority ← gets λ (h : ComputeHost X). h.authority
    settle_unsubmitted_of authority cleanup_confirmed

  unfoldable pub report_capabilities :
      BindingIdentity → Bool → ℕ → Action (ComputeHost X) (Unit {0})
  report_capabilities binding available at = do
    h ← gets λ (h : ComputeHost X). h
    evidence ← record_of observer_source at
    disposition ← call (
        capabilities (record {
          binding = binding;
          capability_id = capability;
          profile_id = local_compute_profile;
          maximum_work_units = h.config.maximum_iterations;
          available = available;
          evidence = evidence;
          valid_until = evidence_expiry at;
        }))
    accept disposition

module _ {X : Type 0} (P : ComputeProcess X) where
  abbrev pub has_launched : ComputeHost X → Bool
  has_launched h = elim h.process [ none ↦ false | some x ↦ (P.observation x).launched ]

  unfoldable pub apply_stop : ControlDecision → ℕ → Action (ComputeHost X) (Unit {0})
  apply_stop decision at = do
    launched ← gets has_launched
    if decision.should_request_native_stop && launched
        then on_process (P.request_stop at)
        else pure tt

  unfoldable pub expire_of : Option OperationAuthority → ℕ → Action (ComputeHost X) (Unit {0})
  expire_of none at = pure tt
  expire_of (some authority) at = do decision ← call (time authority at); apply_stop decision at

  unfoldable pub expire : ℕ → Action (ComputeHost X) (Unit {0})
  expire at = do authority ← gets λ (h : ComputeHost X). h.authority; expire_of authority at

  unfoldable pub withdraw_binding : BindingIdentity → Action (ComputeHost X) BindingDecision
  withdraw_binding expected_binding = do
    at ← now
    decision ← call (withdraw expected_binding at)
    own ← gets λ (h : ComputeHost X). is_own decision.native_stop_authority h.authority
    if is_applied_binding_control decision.status
        then (do
          if own
              then apply_stop
                  (record { status = ControlStatus.applied; should_request_native_stop = true }) at
              else pure tt
          pending ← gets λ (h : ComputeHost X). awaits_dispatch (receipt_of h)
          if pending then settle_unsubmitted true else pure tt)
        else pure tt
    pure decision

  unfoldable pub observe_active_capabilities : BindingIdentity → ℕ → Action (ComputeHost X) Bool
  observe_active_capabilities active at = do
    executable ← gets λ (h : ComputeHost X). h.config.worker_executable
    available ← can_launch executable
    report_capabilities active available at
    initialized ← gets λ (h : ComputeHost X). h.initialized
    if initialized && not available then (do withdraw_binding active; pure tt) else pure tt
    pure available

  unfoldable pub observe_capabilities : ℕ → Action (ComputeHost X) Bool
  observe_capabilities at = do
    status ← gets λ (h : ComputeHost X). binding_status h.gate at
    if not (is_active_phase status.phase)
        then pure false
        else observe_active_capabilities status.active at
