-- ===== src/Gate/Promises/Output.antt =====
-- A result is settled once: accepted, or recorded as not delivered, never both or twice.
use robot_harness.Base.{false, ◌≡◌, ◌≢◌, inl, inr, some, List, arith, Option-cases, ◌≤◌}
use robot_harness.Gate.Types.{
  OperationAuthority, OutputEvidence, OutputNonDeliveryEvidence, EvidenceDisposition,
  OutputDisposition, NativeOutcome, EvidenceRecord, BindingPhase,
}
use robot_harness.Gate.Types.Tests.{is_pending_output}
use robot_harness.Gate.Receipt.{OperationReceipt, is_revoked, has_reached_deadline}
use robot_harness.Gate.State.{AuthorityGate, current}
use robot_harness.Gate.Output.{
  is_deliverable, precedes_success, observe_output_accepted, output_reply,
  observe_output_not_delivered, non_delivery_reply,
}
use robot_harness.Gate.Calls.{Call, run}
use robot_harness.Gate.Invariant.{GateIsValid}
use robot_harness.Gate.Promises.Located.{run-Advances}

-- A gate that has a final output for an authority accepts no other.
final_refuses :
    (g : AuthorityGate) (a : OperationAuthority) (e : OutputEvidence)
    (n : OutputNonDeliveryEvidence)
    → ((r : OperationReceipt) → current g a ≡ some r → is_pending_output r.output ≡ false)
    → e.authority ≡ a
    → n.authority ≡ a
    → ((observe_output_accepted g e).1 ≢ EvidenceDisposition.accepted)
      × ((observe_output_not_delivered g n).1 ≢ EvidenceDisposition.accepted)
unfolding observe_output_accepted output_reply is_deliverable observe_output_not_delivered
    non_delivery_reply
final_refuses g a e n h p q = elim (Option-cases (current g a)) [
  | inl m ↦ (λ s. ground arith, λ s. ground arith)
  | inr (r, m) ↦ (λ s. ground (arith, h r m), λ s. ground (arith, h r m))
]

-- Once an output is final for an operation, every later record of it, of acceptance or of
-- non-delivery, is a duplicate or rejected, and the output and the result reference stay.
pub output-run :
    (g : AuthorityGate) (cs : List Call) (a : OperationAuthority) (r r' : OperationReceipt)
    (e : OutputEvidence) (n : OutputNonDeliveryEvidence)
    → GateIsValid g
    → current g a ≡ some r
    → is_pending_output r.output ≡ false
    → current (run g cs) a ≡ some r'
    → e.authority ≡ a
    → n.authority ≡ a
    → (r'.output ≡ r.output)
      × (r'.result_reference ≡ r.result_reference)
      × ((observe_output_accepted (run g cs) e).1 ≢ EvidenceDisposition.accepted)
      × ((observe_output_not_delivered (run g cs) n).1 ≢ EvidenceDisposition.accepted)
output-run g cs a r r' e n v p f q ea na =
    let moved = run-Advances g cs a r r' v p q in
    let final : (r'' : OperationReceipt)
        → current (run g cs) a ≡ some r''
        → is_pending_output r''.output ≡ false =
      λ r'' q'. ground (arith, (run-Advances g cs a r r'' v p q').keeps_output f) in
    let refused = final_refuses (run g cs) a e n final ea na in
    (moved.keeps_output f, moved.keeps_result f, refused.0, refused.1)

-- An output is accepted only while the operation that the authority names is not revoked, has
-- succeeded without a conflict and has no output yet, before its deadline, not before its success
-- was observed, and under a binding that is neither withdrawn nor being replaced.
pub observe_output_accepted_sound :
    (g : AuthorityGate) (e : OutputEvidence) (r : OperationReceipt) (s : EvidenceRecord)
    → current g e.authority ≡ some r
    → r.native_success_evidence ≡ some s
    → (observe_output_accepted g e).1 ≡ EvidenceDisposition.accepted
    → (is_revoked r ≡ false)
      × (r.native_outcome ≡ NativeOutcome.succeeded)
      × (r.output ≡ OutputDisposition.pending)
      × (s.observed_at ≤ e.evidence.observed_at)
      × (has_reached_deadline r e.evidence.observed_at ≡ false)
      × (g.binding_phase ≢ BindingPhase.withdrawn)
      × (g.binding_phase ≢ BindingPhase.preparing)
unfolding observe_output_accepted output_reply is_deliverable precedes_success
observe_output_accepted_sound g e r s p w h = (
  ground arith,
  ground arith,
  ground arith,
  ground arith,
  ground arith,
  λ q. ground arith,
  λ q. ground arith,
)
