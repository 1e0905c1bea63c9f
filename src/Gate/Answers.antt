-- ===== src/Gate/Answers.antt =====
-- What the member functions of AuthorityGate return, for each call.
use robot_harness.Base.{Bool}
use robot_harness.Gate.Types.{
  EvidenceDisposition, BindingDecision, AdmissionDecision, ControlDecision,
}
use robot_harness.Gate.State.{AuthorityGate}
use robot_harness.Gate.Native.{observe_non_submission, observe_native}
use robot_harness.Gate.Output.{
  observe_output_accepted, observe_output_not_delivered, observe_settlement,
}
use robot_harness.Gate.Control.{request_cancel, observe_time, observe_stop_acknowledgement}
use robot_harness.Gate.Startup.{observe_startup}
use robot_harness.Gate.Capabilities.{observe_execution_capabilities}
use robot_harness.Gate.Binding.{withdraw_binding}
use robot_harness.Gate.Rebind.{begin_rebind, commit_rebind}
use robot_harness.Gate.Readiness.{observe_rebind_readiness}
use robot_harness.Gate.Admission.{admit, claim_dispatch}
use robot_harness.Gate.Calls.{
  Call, startup, capabilities, withdraw, begin, readiness, commits, admits, claim, cancel, time,
  stop, non_submission, native, output, non_delivery, settlement, close,
}

abbrev pub Answer : Call → Type 0
Answer (withdraw _ _) = BindingDecision
Answer (begin _ _ _ _) = BindingDecision
Answer (commits _ _) = BindingDecision
Answer (admits _) = AdmissionDecision
Answer (claim _ _) = Bool
Answer (cancel _ _) = ControlDecision
Answer (time _ _) = ControlDecision
Answer close = Unit {0}
Answer _ = EvidenceDisposition

unfoldable pub answer : AuthorityGate → (c : Call) → Answer c
answer g (startup e) = (observe_startup g e).1
answer g (capabilities c) = (observe_execution_capabilities g c).1
answer g (withdraw b t) = (withdraw_binding g b t).1
answer g (begin b p e t) = (begin_rebind g b p e t).1
answer g (readiness e) = (observe_rebind_readiness g e).1
answer g (commits b t) = (commit_rebind g b t).1
answer g (admits q) = (admit g q).1
answer g (claim a t) = (claim_dispatch g a t).1
answer g (cancel a t) = (request_cancel g a t).1
answer g (time a t) = (observe_time g a t).1
answer g (stop e) = (observe_stop_acknowledgement g e).1
answer g (non_submission e) = (observe_non_submission g e).1
answer g (native e) = (observe_native g e).1
answer g (output e) = (observe_output_accepted g e).1
answer g (non_delivery e) = (observe_output_not_delivered g e).1
answer g (settlement e) = (observe_settlement g e).1
answer g close = tt
