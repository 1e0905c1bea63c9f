-- ===== src/Gate/Calls.antt =====
-- The public operations of AuthorityGate as data, one call after another.
use robot_harness.Base.{ℕ, String, List, [], ◌∷◌}
use robot_harness.Gate.Types.{
  BindingIdentity, StartupEvidence, ExecutionCapabilities, BindingReadinessEvidence,
  OperationRequest, OperationAuthority, StopAcknowledgementEvidence, NonSubmissionEvidence,
  NativeEvidence, OutputEvidence, OutputNonDeliveryEvidence, SettlementEvidence,
}
use robot_harness.Gate.State.{AuthorityGate}
use robot_harness.Gate.Native.{observe_non_submission, observe_native}
use robot_harness.Gate.Output.{
  observe_output_accepted, observe_output_not_delivered, observe_settlement,
}
use robot_harness.Gate.Control.{request_cancel, observe_time, observe_stop_acknowledgement}
use robot_harness.Gate.Startup.{observe_startup, close_admission}
use robot_harness.Gate.Capabilities.{observe_execution_capabilities}
use robot_harness.Gate.Binding.{withdraw_binding}
use robot_harness.Gate.Rebind.{begin_rebind, commit_rebind}
use robot_harness.Gate.Readiness.{observe_rebind_readiness}
use robot_harness.Gate.Admission.{admit, claim_dispatch}

-- The non-const member functions, in the order of the class.
pub data Call : Type 0 where
  startup : StartupEvidence → Call
  capabilities : ExecutionCapabilities → Call
  withdraw : BindingIdentity → ℕ → Call
  begin : BindingIdentity → String → BindingReadinessEvidence → ℕ → Call
  readiness : BindingReadinessEvidence → Call
  commits : BindingIdentity → ℕ → Call
  admits : OperationRequest → Call
  claim : OperationAuthority → ℕ → Call
  cancel : OperationAuthority → ℕ → Call
  time : OperationAuthority → ℕ → Call
  stop : StopAcknowledgementEvidence → Call
  non_submission : NonSubmissionEvidence → Call
  native : NativeEvidence → Call
  output : OutputEvidence → Call
  non_delivery : OutputNonDeliveryEvidence → Call
  settlement : SettlementEvidence → Call
  close : Call

-- The gate after a call.
unfoldable pub apply : AuthorityGate → Call → AuthorityGate
apply g (startup e) = (observe_startup g e).0
apply g (capabilities c) = (observe_execution_capabilities g c).0
apply g (withdraw b t) = (withdraw_binding g b t).0
apply g (begin b p e t) = (begin_rebind g b p e t).0
apply g (readiness e) = (observe_rebind_readiness g e).0
apply g (commits b t) = (commit_rebind g b t).0
apply g (admits q) = (admit g q).0
apply g (claim a t) = (claim_dispatch g a t).0
apply g (cancel a t) = (request_cancel g a t).0
apply g (time a t) = (observe_time g a t).0
apply g (stop e) = (observe_stop_acknowledgement g e).0
apply g (non_submission e) = (observe_non_submission g e).0
apply g (native e) = (observe_native g e).0
apply g (output e) = (observe_output_accepted g e).0
apply g (non_delivery e) = (observe_output_not_delivered g e).0
apply g (settlement e) = (observe_settlement g e).0
apply g close = close_admission g

unfoldable pub run : AuthorityGate → List Call → AuthorityGate
run g [] = g
run g (c ∷ cs) = run (apply g c) cs
