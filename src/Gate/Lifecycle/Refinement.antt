-- ===== src/Gate/Lifecycle/Refinement.antt =====
-- The gate refines the state machine.
use robot_harness.Base.{
  true, false, not, Option, none, some, List, [], ◌∷◌, ◌≡◌, ◌<◌, inl, inr, arith, refl, sym, subst,
  ap, ◌∙◌,
}
use robot_harness.Gate.Types.{OperationAuthority, OperationRequest}
use robot_harness.Gate.Types.Tests.{is_pending_dispatch, is_pending_output, is_settled}
use robot_harness.Gate.Receipt.{OperationReceipt, is_revoked, new_receipt}
use robot_harness.Gate.Disposition.{has_resolved_closure}
use robot_harness.Gate.State.{AuthorityGate}
use robot_harness.Gate.Admission.{grant, new_authority, is_occupied}
use robot_harness.Gate.Calls.{Call, apply, run}
use robot_harness.Gate.Validity.{ReceiptIsValid, Advances}
use robot_harness.Gate.Invariant.{Holds, GateIsValid, Moves}
use robot_harness.Gate.Invariant.Admissions.{free_resolved, request_numbered}
use robot_harness.Gate.Invariant.Histories.{apply-IsValid, apply-cases}
use robot_harness.Gate.Lifecycle.{
  new_work, Precedes, Step, rests, opens, proceeds, hands_over, Steps, done, then, work_of, view_of,
  view,
}

Advances-Precedes :
    (r r' : OperationReceipt)
    → ReceiptIsValid r'
    → Advances r r'
    → Precedes (work_of r) (work_of r')
Advances-Precedes r r' v m =
    ground (arith, ap (λ (a : OperationAuthority). a.operation_id) m.same_authority)

Moves-Step :
    (o o' : Option OperationReceipt)
    → ((r : OperationReceipt) → o' ≡ some r → ReceiptIsValid r)
    → Moves o o'
    → Step (view_of o) (view_of o')
Moves-Step none none v m = rests
Moves-Step none (some r) v m = absurd m
Moves-Step (some r) none v m = absurd m
Moves-Step (some r) (some r') v m =
    proceeds (work_of r) (work_of r') (Advances-Precedes r r' (v r' refl) m)

resolved_work :
    (r : OperationReceipt)
    → ReceiptIsValid r
    → has_resolved_closure r ≡ true
    → (is_settled r.settlement ≡ true)
      × (not (is_pending_output r.output) ≡ true)
      × (not (is_pending_dispatch r.dispatch) ≡ true)
unfolding has_resolved_closure
resolved_work r v c = ground arith

held_valid :
    (g : AuthorityGate) (r : OperationReceipt)
    → GateIsValid g
    → g.current_receipt ≡ some r
    → ReceiptIsValid r
held_valid g r v p = (subst (Holds g.config.binding g.next_operation_id) p v.operation).valid

held_number :
    (g : AuthorityGate) (r : OperationReceipt)
    → GateIsValid g
    → 0 < g.next_operation_id
    → g.current_receipt ≡ some r
    → r.authority.operation_id < g.next_operation_id
held_number g r v z p =
    let held = subst (Holds g.config.binding g.next_operation_id) p v.operation in
    omega (arith, held.given_out)

granted_work :
    (g : AuthorityGate) (q : OperationRequest)
    → view (grant g q).0 ≡ some (new_work g.next_operation_id)
unfolding grant new_authority new_receipt is_revoked
granted_work g q = refl

grant-Step :
    (g : AuthorityGate) (q : OperationRequest) (o : Option OperationReceipt)
    → GateIsValid g
    → 0 < g.next_operation_id
    → is_occupied g ≡ false
    → g.current_receipt ≡ o
    → Step (view_of o) (some (new_work g.next_operation_id))
grant-Step g q none v z f p = opens g.next_operation_id
grant-Step g q (some r) v z f p =
    let (settled, output, dispatched) =
      resolved_work r (held_valid g r v p) (free_resolved g r p f) in
    hands_over (work_of r) g.next_operation_id settled output dispatched (held_number g r v z p)

-- Each call of the gate is one step of the state machine.
pub apply-Step : (g : AuthorityGate) (c : Call) → GateIsValid g → Step (view g) (view (apply g c))
apply-Step g c v = elim (apply-cases g c v) [
  | inl m ↦
      Moves-Step g.current_receipt (apply g c).current_receipt
        (λ r p. held_valid (apply g c) r (apply-IsValid g c v) p) m
  | inr (q, _, e, i, f) ↦
      subst (Step (view g)) (sym (ap view e ∙ granted_work g q))
        (grant-Step g q g.current_receipt v (request_numbered g q i) f refl)
]

-- Every history of calls is a run of the state machine, from the view of the first gate to that
-- of the last: the detailed gate does nothing to the work in its domain that the state machine
-- does not allow.
pub run-Steps :
    (g : AuthorityGate) (cs : List Call) → GateIsValid g → Steps (view g) (view (run g cs))
unfolding run
run-Steps g [] v = done (view g)
run-Steps g (c ∷ cs) v =
    then (view g) (view (apply g c)) (view (run g (c ∷ cs))) (apply-Step g c v)
      (run-Steps (apply g c) cs (apply-IsValid g c v))
