-- ===== src/Gate/Promises/Startup.antt =====
-- Readiness, and the end of the gate.
use robot_harness.Base.{ℕ, String, true, false, ◌≡◌, ◌↔◌, List, [], ◌∷◌, arith, refl}
use robot_harness.Gate.Types.{
  BindingIdentity, BindingReadinessEvidence, EvidenceDisposition, InitializationState,
  StartupEvidence, BindingPhase, BindingControlStatus, AdmissionStatus, OperationRequest,
  OperationAuthority,
}
use robot_harness.Gate.State.{AuthorityGate}
use robot_harness.Gate.Startup.{
  observe_startup, refuses_startup, startup_at, holds, close_admission,
}
use robot_harness.Gate.Admission.{admit, claim_dispatch, dispatch_reply, is_dispatchable}
use robot_harness.Gate.Binding.{withdraw_binding}
use robot_harness.Gate.Rebind.{begin_rebind, commit_rebind}
use robot_harness.Gate.Readiness.{observe_rebind_readiness}
use robot_harness.Gate.Capabilities.{observe_execution_capabilities, observe_live_report}
use robot_harness.Gate.Native.{observe_native, observe_non_submission}
use robot_harness.Gate.Output.{
  observe_output_accepted, observe_output_not_delivered, observe_settlement,
}
use robot_harness.Gate.Control.{request_cancel, observe_time, observe_stop_acknowledgement}
use robot_harness.Gate.Calls.{Call, close, apply, run}

-- After a start-up record was accepted the gate is ready exactly where the binding is observed
-- idle and settled, the worker ready and the result sink ready; a record that says otherwise
-- takes readiness back.
pub observe_startup-exact :
    (g : AuthorityGate) (e : StartupEvidence)
    → (observe_startup g e).1 ≡ EvidenceDisposition.accepted
    → ((observe_startup g e).0.initialization_state ≡ InitializationState.ready) ↔ (
        (holds (observe_startup g e).0.binding_idle ≡ true)
        × (holds (observe_startup g e).0.worker_ready ≡ true)
        × (holds (observe_startup g e).0.result_sink_ready ≡ true))
unfolding observe_startup startup_at
observe_startup-exact g e s = (λ r. ground arith, λ r. ground arith)

closed_step :
    (g : AuthorityGate) (c : Call)
    → g.initialization_state ≡ InitializationState.closed
    → g.binding_phase ≡ BindingPhase.closed
    → ((apply g c).initialization_state ≡ InitializationState.closed)
      × ((apply g c).binding_phase ≡ BindingPhase.closed)
unfolding apply observe_startup refuses_startup observe_execution_capabilities observe_live_report
    withdraw_binding begin_rebind observe_rebind_readiness commit_rebind admit observe_native
    claim_dispatch observe_non_submission request_cancel observe_time observe_stop_acknowledgement
    observe_output_accepted observe_output_not_delivered observe_settlement close_admission
closed_step g close h k = ground arith
closed_step g _ h k = ground arith

pub run_shut :
    (g : AuthorityGate) (cs : List Call)
    → g.initialization_state ≡ InitializationState.closed
    → g.binding_phase ≡ BindingPhase.closed
    → ((run g cs).initialization_state ≡ InitializationState.closed)
      × ((run g cs).binding_phase ≡ BindingPhase.closed)
unfolding run
run_shut g [] h k = (h, k)
run_shut g (c ∷ cs) h k = let step = closed_step g c h k in run_shut (apply g c) cs step.0 step.1

closed_refuses :
    (h : AuthorityGate) (q : OperationRequest) (a : OperationAuthority) (b : BindingIdentity)
    (p : String) (e : BindingReadinessEvidence) (t : ℕ)
    → h.initialization_state ≡ InitializationState.closed
    → h.binding_phase ≡ BindingPhase.closed
    → ((admit h q).1.status ≡ AdmissionStatus.closed)
      × ((claim_dispatch h a t).1 ≡ false)
      × ((withdraw_binding h b t).1.status ≡ BindingControlStatus.closed)
      × ((begin_rebind h b p e t).1.status ≡ BindingControlStatus.closed)
      × ((commit_rebind h b t).1.status ≡ BindingControlStatus.closed)
unfolding admit claim_dispatch dispatch_reply is_dispatchable withdraw_binding begin_rebind
    commit_rebind
closed_refuses h q a b p e t c k = ground arith

-- A closed gate stays closed whatever calls follow: it admits nothing, dispatches nothing, not
-- even what was admitted before, and neither withdraws nor replaces its binding.
pub close_admission-run :
    (g : AuthorityGate) (cs : List Call) (q : OperationRequest) (a : OperationAuthority)
    (b : BindingIdentity) (p : String) (e : BindingReadinessEvidence) (t : ℕ)
    → ((admit (run (close_admission g) cs) q).1.status ≡ AdmissionStatus.closed)
      × ((claim_dispatch (run (close_admission g) cs) a t).1 ≡ false)
      × ((withdraw_binding (run (close_admission g) cs) b t).1.status ≡ BindingControlStatus.closed)
      × ((begin_rebind (run (close_admission g) cs) b p e t).1.status ≡ BindingControlStatus.closed)
      × ((commit_rebind (run (close_admission g) cs) b t).1.status ≡ BindingControlStatus.closed)
unfolding close_admission
close_admission-run g cs q a b p e t =
    let held = run_shut (close_admission g) cs refl refl in
    closed_refuses (run (close_admission g) cs) q a b p e t held.0 held.1
