-- ===== src/Gate/Promises/Unknown.antt =====
-- Conflicting terminal evidence blocks the domain for good.
use robot_harness.Base.{
  ℕ, String, true, false, ◌≡◌, ◌≢◌, inl, inr, Option, none, some, List, arith, refl, subst,
}
use robot_harness.Gate.Types.{
  BindingIdentity, BindingReadinessEvidence, OperationRequest, NativeOutcome, AdmissionStatus,
  AuthorityDisposition, BindingControlStatus,
}
use robot_harness.Gate.Receipt.{OperationReceipt}
use robot_harness.Gate.Disposition.{disposition_of, has_resolved_closure, has_resolved_effects}
use robot_harness.Gate.State.{AuthorityGate, old_work_closed, current_is_releasable}
use robot_harness.Gate.Admission.{admit, is_occupied}
use robot_harness.Gate.Rebind.{begin_rebind, commit_rebind}
use robot_harness.Gate.Calls.{Call, run}
use robot_harness.Gate.Validity.{ReceiptIsValid}
use robot_harness.Gate.Invariant.{Holds, GateIsValid, Evolves}
use robot_harness.Gate.Invariant.Histories.{run-IsValid, run-Evolves}

-- The gate is held by an operation of unknown outcome.
pub record IsBlocked (g : AuthorityGate) (r : OperationReceipt) : Type 0 where
  pub in_place : g.current_receipt ≡ some r
  pub unknown : r.native_outcome ≡ NativeOutcome.unknown

blocked_unresolved :
    (g : AuthorityGate) (r : OperationReceipt)
    → IsBlocked g r
    → (current_is_releasable g ≡ false) × (is_occupied g ≡ true) × (old_work_closed g ≡ false)
unfolding current_is_releasable is_occupied old_work_closed has_resolved_closure
    has_resolved_effects
blocked_unresolved g r b = ground (arith, b.in_place, b.unknown)

blocked_disposition :
    (r : OperationReceipt)
    → ReceiptIsValid r
    → r.native_outcome ≡ NativeOutcome.unknown
    → r.authority_disposition ≡ AuthorityDisposition.blocked_unknown
unfolding disposition_of
blocked_disposition r v u = ground arith

IsBlocked-step :
    (g : AuthorityGate) (r : OperationReceipt) (o : Option OperationReceipt)
    → r.native_outcome ≡ NativeOutcome.unknown
    → g.current_receipt ≡ o
    → Evolves (some r) o
    → (r' : OperationReceipt) × IsBlocked g r' × (r'.authority ≡ r.authority)
IsBlocked-step g r none u p e = absurd e
IsBlocked-step g r (some r') u p (inl m) =
    (r', record { in_place = p; unknown = m.keeps_unknown u }, m.same_authority)
IsBlocked-step g r (some r') u p (inr n) = absurd (n.1 u)

blocked_refuses :
    (g : AuthorityGate) (r : OperationReceipt) (q : OperationRequest) (b : BindingIdentity)
    (p : String) (e : BindingReadinessEvidence) (t : ℕ)
    → IsBlocked g r
    → ((admit g q).1.status ≢ AdmissionStatus.admitted)
      × ((begin_rebind g b p e t).1.status ≢ BindingControlStatus.applied)
      × ((commit_rebind g b t).1.status ≢ BindingControlStatus.applied)
unfolding admit begin_rebind commit_rebind
blocked_refuses g r q b p e t k =
    let closed = blocked_unresolved g r k in
    (λ s. ground arith, λ s. ground arith, λ s. ground arith)

-- An operation whose terminal evidence conflicts stays in place with its authority and stays
-- blocked, whatever calls follow: nothing is admitted, and no rebinding is begun or committed.
pub unknown-run :
    (g : AuthorityGate) (cs : List Call) (r : OperationReceipt) (q : OperationRequest)
    (b : BindingIdentity) (p : String) (e : BindingReadinessEvidence) (t : ℕ)
    → GateIsValid g
    → g.current_receipt ≡ some r
    → r.native_outcome ≡ NativeOutcome.unknown
    → ((r' : OperationReceipt) × ((run g cs).current_receipt ≡ some r')
        × (r'.authority ≡ r.authority)
        × (r'.authority_disposition ≡ AuthorityDisposition.blocked_unknown))
      × ((admit (run g cs) q).1.status ≢ AdmissionStatus.admitted)
      × ((begin_rebind (run g cs) b p e t).1.status ≢ BindingControlStatus.applied)
      × ((commit_rebind (run g cs) b t).1.status ≢ BindingControlStatus.applied)
unknown-run g cs r q b p e t v h u =
    let moved : Evolves (some r) (run g cs).current_receipt =
      subst (λ o. Evolves o (run g cs).current_receipt) h (run-Evolves g cs v) in
    let (r', k, same) = IsBlocked-step (run g cs) r (run g cs).current_receipt u refl moved in
    let held =
      subst (Holds (run g cs).config.binding (run g cs).next_operation_id) k.in_place
        (run-IsValid g cs v).operation in
    let refused = blocked_refuses (run g cs) r' q b p e t k in
    (
      (r', k.in_place, same, blocked_disposition r' held.valid k.unknown),
      refused.0,
      refused.1,
      refused.2,
    )
