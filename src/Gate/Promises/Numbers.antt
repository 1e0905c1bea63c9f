-- ===== src/Gate/Promises/Numbers.antt =====
-- Who is admitted, and under which number.
use robot_harness.Base.{
  ℕ, true, false, ◌≡◌, ◌⊎◌, ◌<◌, inl, inr, Option, none, some, List, arith, refl, sym, subst, ap,
  ◌∙◌,
}
use robot_harness.Gate.Types.{
  OperationAuthority, OperationRequest, AdmissionDecision, BindingIdentity,
}
use robot_harness.Gate.Types.Tests.{is_active_phase}
use robot_harness.Gate.Receipt.{OperationReceipt, new_receipt, is_reached}
use robot_harness.Gate.State.{AuthorityGate, old_work_closed}
use robot_harness.Gate.Startup.{holds}
use robot_harness.Gate.Admission.{
  admit, grant, new_authority, is_invalid_request, is_occupied, lacks_capabilities, is_unsupported,
}
use robot_harness.Gate.Calls.{Call, admits, apply, run}
use robot_harness.Gate.Invariant.{Holds, GateIsValid, Evolves}
use robot_harness.Gate.Invariant.Admissions.{admit-cases}
use robot_harness.Gate.Invariant.Histories.{apply-IsValid, run-IsValid, run-Evolves}

-- An operation is admitted only where the old work is closed, the binding is live and ready with
-- all three start-up facts, and the deadline is ahead; the gate then holds a fresh receipt of it.
pub admit_sound :
    (g : AuthorityGate) (q : OperationRequest) (a : OperationAuthority)
    → GateIsValid g
    → (admit g q).1.authority ≡ some a
    → (old_work_closed g ≡ true)
      × (is_active_phase g.binding_phase ≡ true)
      × (holds g.binding_idle ≡ true)
      × (holds g.worker_ready ≡ true)
      × (holds g.result_sink_ready ≡ true)
      × (is_reached q.deadline q.requested_at ≡ false)
      × (is_unsupported g q.execution_requirements q.requested_at ≡ false)
      × (a.binding ≡ g.config.binding)
      × ((admit g q).0.current_receipt ≡ some (new_receipt a q.deadline q.execution_requirements))
unfolding grant old_work_closed is_occupied lacks_capabilities
admit_sound g q a v s = elim (admit-cases g q) [
  | inl (e, _, _, d, p, r, f, _, c) ↦
      let given : some (new_authority g q) ≡ some a =
        ap (λ (t : AuthorityGate × AdmissionDecision). t.1.authority) (sym e) ∙ s in
      let placed = ap (λ (t : AuthorityGate × AdmissionDecision). t.0.current_receipt) e in
      ground (arith, v.ready_facts r)
  | inr (_, n, _) ↦ cc
]

-- The number of what is in place stays below the next number, or no number is left.
evolved_number :
    (n next : ℕ) (b : BindingIdentity) (r : OperationReceipt) (o : Option OperationReceipt)
    → r.authority.operation_id ≡ n
    → Evolves (some r) o
    → Holds b next o
    → (next ≡ 0) ⊎ (n < next)
evolved_number n next b r none e m k = absurd m
evolved_number n next b r (some r') e (inl m) k =
    let same = ap (λ (a : OperationAuthority). a.operation_id) m.same_authority in
    omega (arith, k.given_out)
evolved_number n next b r (some r') e (inr m) k = omega (arith, k.given_out, m.0)

admitted_number :
    (g : AuthorityGate) (q : OperationRequest) (a : OperationAuthority)
    → (admit g q).1.authority ≡ some a
    → (a.operation_id ≡ g.next_operation_id)
      × (0 < g.next_operation_id)
      × ((admit g q).0.current_receipt ≡ some (new_receipt a q.deadline q.execution_requirements))
unfolding grant new_authority is_invalid_request
admitted_number g q a s = elim (admit-cases g q) [
  | inl (e, _, i, _, _, _, _, _, _) ↦
      let given : some (new_authority g q) ≡ some a =
        ap (λ (t : AuthorityGate × AdmissionDecision). t.1.authority) (sym e) ∙ s in
      let placed = ap (λ (t : AuthorityGate × AdmissionDecision). t.0.current_receipt) e in
      ground arith
  | inr (_, n, _) ↦ cc
]

-- Every authority that is given out has a greater number than all before it, across releases,
-- rebindings and the wrap of the 64-bit counter: after the last number nothing is admitted.
pub admit-run_increases :
    (g : AuthorityGate) (cs : List Call) (q q' : OperationRequest) (a a' : OperationAuthority)
    → GateIsValid g
    → (admit g q).1.authority ≡ some a
    → (admit (run (admit g q).0 cs) q').1.authority ≡ some a'
    → a.operation_id < a'.operation_id
unfolding apply new_receipt
admit-run_increases g cs q q' a a' v s s' =
    let h = (admit g q).0 in
    let first = admitted_number g q a s in
    let second = admitted_number (run h cs) q' a' s' in
    let valid : GateIsValid h = apply-IsValid g (admits q) v in
    let moved =
      subst (λ o. Evolves o (run h cs).current_receipt) first.2 (run-Evolves h cs valid) in
    let below =
      evolved_number a.operation_id (run h cs).next_operation_id (run h cs).config.binding
        (new_receipt a q.deadline q.execution_requirements) (run h cs).current_receipt refl moved
        (run-IsValid h cs valid).operation in
    omega (arith, below, second.0, second.1)
