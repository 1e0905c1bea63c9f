-- ===== src/Gate/Invariant/Admissions.antt =====
-- Admission: a free gate takes a fresh operation, any other is left alone.
use robot_harness.Base.{
  ℕ, true, false, ◌≡◌, ◌⊎◌, ◌≢◌, ◌<◌, ◌^◌, inl, inr, Option, none, some, arith, increment, refl,
}
use robot_harness.Gate.Types.{
  ExecutionRequirements, OperationAuthority, OperationRequest, AdmissionStatus, NativeOutcome,
}
use robot_harness.Gate.Types.Tests.{is_closed, is_ready, is_active_phase}
use robot_harness.Gate.Types.Equality.{binding_eq_iff}
use robot_harness.Gate.Receipt.{OperationReceipt, new_receipt, is_revoked, is_reached}
use robot_harness.Gate.Disposition.{disposition_of, has_resolved_closure, has_resolved_effects}
use robot_harness.Gate.State.{AuthorityGate, current_is_releasable}
use robot_harness.Gate.Admission.{
  admit, grant, new_authority, is_invalid_request, is_occupied, is_out_of_order, lacks_capabilities,
}
use robot_harness.Gate.Validity.{ReceiptIsValid}
use robot_harness.Gate.Invariant.{Holds, GateIsValid, Evolves}
use robot_harness.Gate.Invariant.Receipts.{Evolves-refl}

-- The receipt that admission starts from is valid.
new_receipt-IsValid :
    (a : OperationAuthority) (d : Option ℕ) (q : Option ExecutionRequirements)
    → ReceiptIsValid (new_receipt a d q)
unfolding new_receipt disposition_of has_resolved_closure has_resolved_effects is_revoked
new_receipt-IsValid a d q = ground arith

-- Admission gives out an authority to a valid request at a free gate, or leaves the gate alone.
pub admit-cases :
    (g : AuthorityGate) (q : OperationRequest)
    → ((admit g q ≡ grant g q)
        × (is_closed g.initialization_state ≡ false)
        × (is_invalid_request g q ≡ false)
        × (is_reached q.deadline q.requested_at ≡ false)
        × (is_active_phase g.binding_phase ≡ true)
        × (is_ready g.initialization_state ≡ true)
        × (is_occupied g ≡ false)
        × (is_out_of_order g q ≡ false)
        × (lacks_capabilities g q ≡ false))
      ⊎ (((admit g q).0 ≡ g)
          × ((admit g q).1.authority ≡ none)
          × ((admit g q).1.status ≢ AdmissionStatus.admitted))
unfolding admit
admit-cases g q = ground arith

pub request_numbered :
    (g : AuthorityGate) (q : OperationRequest)
    → is_invalid_request g q ≡ false
    → 0 < g.next_operation_id
unfolding is_invalid_request
request_numbered g q i = ground arith

-- A number that was given out is below its successor, unless that wraps to 0.
increment_above : (n : ℕ) → n < 2 ^ 64 → (increment n ≡ 0) ⊎ (n < increment n)
unfolding increment
increment_above n h = ground arith

increment-lt : (n : ℕ) → increment n < 2 ^ 64
unfolding increment
increment-lt n = omega arith

-- What a free gate holds is resolved, so its outcome is known.
released_known :
    (r : OperationReceipt)
    → has_resolved_closure r ≡ true
    → r.native_outcome ≡ NativeOutcome.unknown
    → ⊥
unfolding has_resolved_closure has_resolved_effects
released_known r c u = ground arith

pub free_resolved :
    (g : AuthorityGate) (r : OperationReceipt)
    → g.current_receipt ≡ some r
    → is_occupied g ≡ false
    → has_resolved_closure r ≡ true
unfolding is_occupied current_is_releasable
free_resolved g r p f = ground arith

pub grant-Evolves :
    (g : AuthorityGate) (q : OperationRequest) (o : Option OperationReceipt)
    → g.current_receipt ≡ o
    → Holds g.config.binding g.next_operation_id o
    → 0 < g.next_operation_id
    → is_occupied g ≡ false
    → Evolves o (grant g q).0.current_receipt
unfolding grant new_receipt
grant-Evolves g q none p k z f = tt
grant-Evolves g q (some r) p k z f = inr (ground arith, released_known r (free_resolved g r p f))

grant-IsValid :
    (g : AuthorityGate) (q : OperationRequest)
    → GateIsValid g
    → 0 < g.next_operation_id
    → GateIsValid (grant g q).0
unfolding grant new_receipt
grant-IsValid g q v z = ground (
  arith,
  increment_above g.next_operation_id v.next_bounded,
  increment-lt g.next_operation_id,
  new_receipt-IsValid (new_authority g q) q.deadline q.execution_requirements,
  (binding_eq_iff g.config.binding g.config.binding).1 refl,
)

admit_both :
    (g : AuthorityGate) (q : OperationRequest)
    → GateIsValid g
    → GateIsValid (admit g q).0 × Evolves g.current_receipt (admit g q).0.current_receipt
admit_both g q v = elim (admit-cases g q) [
  | inl (e, _, i, _, _, _, f, _, _) ↦
      let z = request_numbered g q i in
      rw e (grant-IsValid g q v z, grant-Evolves g q g.current_receipt refl v.operation z f)
  | inr (e, _, _) ↦ rw e (v, Evolves-refl g.current_receipt)
]

pub admit-IsValid :
    (g : AuthorityGate) (q : OperationRequest) → GateIsValid g → GateIsValid (admit g q).0
admit-IsValid g q v = (admit_both g q v).0

pub admit-Evolves :
    (g : AuthorityGate) (q : OperationRequest)
    → GateIsValid g
    → Evolves g.current_receipt (admit g q).0.current_receipt
admit-Evolves g q v = (admit_both g q v).1
