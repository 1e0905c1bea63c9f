-- ===== src/Gate/Promises/Delivery.antt =====
-- Operations that may deliver a result at some time after a gate.
use robot_harness.Base.{
  ℕ, ◌≡◌, ◌≢◌, true, false, some, List, [], ◌∷◌, ◌++◌, inl, inr, arith, subst, sym, refl, ap, ◌∙◌,
  Option-cases,
}
use robot_harness.Gate.Types.{OperationAuthority}
use robot_harness.Gate.Receipt.{OperationReceipt, is_revoked}
use robot_harness.Gate.State.{AuthorityGate, current}
use robot_harness.Gate.Output.{can_deliver_result, is_deliverable}
use robot_harness.Gate.Calls.{Call, apply, run}
use robot_harness.Gate.Invariant.{GateIsValid, Evolves}
use robot_harness.Gate.Invariant.Histories.{run-Evolves}
use robot_harness.Gate.Promises.Located.{current-operation_id, later_Advances}

pub run-append : (g : AuthorityGate) (cs ds : List Call) → run g (cs ++ ds) ≡ run (run g cs) ds
unfolding run
run-append g [] ds = refl
run-append g (c ∷ cs) ds = run-append (apply g c) cs ds

-- At some time after the gate, the operation of the number may deliver.
pub record IsPermitted (g : AuthorityGate) (id : ℕ) : Type 0 where
  pub before : List Call
  pub authority : OperationAuthority
  pub same_operation : authority.operation_id ≡ id
  pub deliverable : can_deliver_result (run g before) authority ≡ true

-- What is permitted after some calls is permitted.
pub run-IsPermitted :
    (g : AuthorityGate) (cs : List Call) (id : ℕ) → IsPermitted (run g cs) id → IsPermitted g id
run-IsPermitted g cs id h = record {
  before = cs ++ h.before;
  authority = h.authority;
  same_operation = h.same_operation;
  deliverable =
      ap (λ k. can_deliver_result k h.authority) (run-append g cs h.before) ∙ h.deliverable;
}

pub now-IsPermitted :
    (g : AuthorityGate) (a : OperationAuthority) (id : ℕ)
    → a.operation_id ≡ id
    → can_deliver_result g a ≡ true
    → IsPermitted g id
unfolding run
now-IsPermitted g a id e p = record {
  before = [];
  authority = a;
  same_operation = e;
  deliverable = p;
}

deliverable_receipt :
    (g : AuthorityGate) (a : OperationAuthority)
    → can_deliver_result g a ≡ true
    → (r : OperationReceipt) × (current g a ≡ some r) × (is_revoked r ≡ false)
unfolding can_deliver_result is_deliverable
deliverable_receipt g a h = elim (Option-cases (current g a)) [
  | inl n ↦ ground arith
  | inr (r, n) ↦ (r, n, ground arith)
]

-- A revoked operation is never permitted again, whatever authority of its number is offered.
pub revoked_IsPermitted :
    (g : AuthorityGate) (a : OperationAuthority) (r : OperationReceipt) (id : ℕ)
    → GateIsValid g
    → current g a ≡ some r
    → is_revoked r ≡ true
    → IsPermitted g id
    → id ≢ a.operation_id
revoked_IsPermitted g a r id v p k h e =
    let (r', q, l) = deliverable_receipt (run g h.before) h.authority h.deliverable in
    let before = current-operation_id g a r p in
    let after = current-operation_id (run g h.before) h.authority r' q in
    let evolved =
      subst (λ o. Evolves o (some r')) before.0
        (subst (Evolves g.current_receipt) after.0 (run-Evolves g h.before v)) in
    let moved = later_Advances r r' evolved (after.1 ∙ h.same_operation ∙ e ∙ sym before.1) in
    ground (arith, moved.keeps_revocation k)
