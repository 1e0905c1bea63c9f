-- ===== src/Gate/Invariant/Histories.antt =====
-- Every history of calls keeps the gate valid and moves its operation on.
use robot_harness.Base.{
  false, ◌≡◌, ◌⊎◌, refl, sym, subst, inl, inr, Option, none, some, List, [], ◌∷◌, arith, ap,
}
use robot_harness.Gate.Receipt.{OperationReceipt}
use robot_harness.Gate.State.{AuthorityGate}
use robot_harness.Gate.Calls.{
  Call, startup, capabilities, withdraw, begin, readiness, commits, admits, claim, cancel, time,
  stop, non_submission, native, output, non_delivery, settlement, close, apply, run,
}
use robot_harness.Gate.Native.{observe_non_submission}
use robot_harness.Gate.Output.{
  observe_output_accepted, observe_output_not_delivered, observe_settlement,
}
use robot_harness.Gate.Control.{request_cancel, observe_time, observe_stop_acknowledgement}
use robot_harness.Gate.Startup.{close_admission}
use robot_harness.Gate.Admission.{claim_dispatch, grant, is_invalid_request, is_occupied}
use robot_harness.Gate.Types.{OperationAuthority, OperationRequest, AdmissionDecision}
use robot_harness.Gate.Validity.{Advances-trans}
use robot_harness.Gate.Validity.Replies.{
  settlement_reply-Respects, output_reply-Respects, non_delivery_reply-Respects,
  non_submission_reply-Respects, stop_reply-Respects, cancel_reply-Respects, time_reply-Respects,
  dispatch_reply-Respects,
}
use robot_harness.Gate.Invariant.{GateIsValid, Evolves, Moves}
use robot_harness.Gate.Invariant.Receipts.{
  Evolves-refl, reply-IsValid, reply-Moves, observe_native-IsValid, observe_native-Moves,
  Moves-refl, Moves-Evolves,
}
use robot_harness.Gate.Invariant.Admissions.{admit-IsValid, admit-Evolves, admit-cases}
use robot_harness.Gate.Invariant.Bindings.{
  observe_startup-IsValid, current_receipt-observe_startup, observe_execution_capabilities-IsValid,
  current_receipt-observe_execution_capabilities, observe_rebind_readiness-IsValid,
  current_receipt-observe_rebind_readiness, begin_rebind-IsValid, current_receipt-begin_rebind,
  commit_rebind-IsValid, current_receipt-commit_rebind, withdraw_binding-IsValid,
  withdraw_binding-Moves, close_admission-IsValid,
}

-- Each operation of the gate, on every branch, keeps it valid.
pub apply-IsValid : (g : AuthorityGate) (c : Call) → GateIsValid g → GateIsValid (apply g c)
unfolding apply claim_dispatch request_cancel observe_time observe_stop_acknowledgement
    observe_non_submission observe_output_accepted observe_output_not_delivered observe_settlement
apply-IsValid g (startup e) v = observe_startup-IsValid g e v
apply-IsValid g (capabilities c) v = observe_execution_capabilities-IsValid g c v
apply-IsValid g (withdraw b t) v = withdraw_binding-IsValid g b t v
apply-IsValid g (begin b p e t) v = begin_rebind-IsValid g b p e t v
apply-IsValid g (readiness e) v = observe_rebind_readiness-IsValid g e v
apply-IsValid g (commits b t) v = commit_rebind-IsValid g b t v
apply-IsValid g (admits q) v = admit-IsValid g q v
apply-IsValid g (claim a t) v = reply-IsValid a _ _ (dispatch_reply-Respects g a t) g v
apply-IsValid g (cancel a t) v = reply-IsValid a _ _ (cancel_reply-Respects t) g v
apply-IsValid g (time a t) v = reply-IsValid a _ _ (time_reply-Respects t) g v
apply-IsValid g (stop e) v = reply-IsValid e.authority _ _ (stop_reply-Respects g.config e) g v
apply-IsValid g (non_submission e) v =
    reply-IsValid e.authority _ _ (non_submission_reply-Respects g.config e) g v
apply-IsValid g (native e) v = observe_native-IsValid g e v
apply-IsValid g (output e) v =
    reply-IsValid e.authority _ _ (output_reply-Respects g.config g.binding_phase e) g v
apply-IsValid g (non_delivery e) v =
    reply-IsValid e.authority _ _ (non_delivery_reply-Respects g.config e) g v
apply-IsValid g (settlement e) v =
    reply-IsValid e.authority _ _ (settlement_reply-Respects g.config e) g v
apply-IsValid g close v = close_admission-IsValid g v

unchanged_Moves : (o o' : Option OperationReceipt) → o' ≡ o → Moves o o'
unchanged_Moves o o' e = rw e (Moves-refl o)

-- A call moves the operation in place on, or it is an admission at a free gate.
pub apply-cases :
    (g : AuthorityGate) (c : Call)
    → GateIsValid g
    → Moves g.current_receipt (apply g c).current_receipt
      ⊎ ((q : OperationRequest) × (c ≡ admits q)
          × (apply g c ≡ (grant g q).0)
          × (is_invalid_request g q ≡ false)
          × (is_occupied g ≡ false))
unfolding apply claim_dispatch request_cancel observe_time observe_stop_acknowledgement
    observe_non_submission observe_output_accepted observe_output_not_delivered observe_settlement
    close_admission
apply-cases g (startup e) v = inl (unchanged_Moves _ _ (current_receipt-observe_startup g e))
apply-cases g (capabilities c) v =
    inl (unchanged_Moves _ _ (current_receipt-observe_execution_capabilities g c))
apply-cases g (withdraw b t) v = inl (withdraw_binding-Moves g b t v)
apply-cases g (begin b p e t) v = inl (unchanged_Moves _ _ (current_receipt-begin_rebind g b p e t))
apply-cases g (readiness e) v =
    inl (unchanged_Moves _ _ (current_receipt-observe_rebind_readiness g e))
apply-cases g (commits b t) v = inl (unchanged_Moves _ _ (current_receipt-commit_rebind g b t))
apply-cases g (admits q) v = elim (admit-cases g q) [
  | inl (e, _, i, _, _, _, f, _, _) ↦
      inr (q, refl, ap (λ (t : AuthorityGate × AdmissionDecision). t.0) e, i, f)
  | inr (e, _, _) ↦ inl (unchanged_Moves _ _ (ap (λ (h : AuthorityGate). h.current_receipt) e))
]
apply-cases g (claim a t) v = inl (reply-Moves a _ _ (dispatch_reply-Respects g a t) g v)
apply-cases g (cancel a t) v = inl (reply-Moves a _ _ (cancel_reply-Respects t) g v)
apply-cases g (time a t) v = inl (reply-Moves a _ _ (time_reply-Respects t) g v)
apply-cases g (stop e) v = inl (reply-Moves e.authority _ _ (stop_reply-Respects g.config e) g v)
apply-cases g (non_submission e) v =
    inl (reply-Moves e.authority _ _ (non_submission_reply-Respects g.config e) g v)
apply-cases g (native e) v = inl (observe_native-Moves g e v)
apply-cases g (output e) v =
    inl (reply-Moves e.authority _ _ (output_reply-Respects g.config g.binding_phase e) g v)
apply-cases g (non_delivery e) v =
    inl (reply-Moves e.authority _ _ (non_delivery_reply-Respects g.config e) g v)
apply-cases g (settlement e) v =
    inl (reply-Moves e.authority _ _ (settlement_reply-Respects g.config e) g v)
apply-cases g close v = inl (Moves-refl g.current_receipt)

pub apply-Evolves :
    (g : AuthorityGate) (c : Call)
    → GateIsValid g
    → Evolves g.current_receipt (apply g c).current_receipt
unfolding apply
apply-Evolves g c v = elim (apply-cases g c v) [
  | inl m ↦ Moves-Evolves g.current_receipt (apply g c).current_receipt m
  | inr (q, e, _, _, _) ↦
      subst (λ x. Evolves g.current_receipt (apply g x).current_receipt) (sym e)
        (admit-Evolves g q v)
]

-- A history of any calls keeps the gate valid.
pub run-IsValid : (g : AuthorityGate) (cs : List Call) → GateIsValid g → GateIsValid (run g cs)
unfolding run
run-IsValid g [] v = v
run-IsValid g (c ∷ cs) v = run-IsValid (apply g c) cs (apply-IsValid g c v)

Evolves-trans : (o p q : Option OperationReceipt) → Evolves o p → Evolves p q → Evolves o q
Evolves-trans none p q h k = tt
Evolves-trans (some r) none q h k = absurd h
Evolves-trans (some r) (some s) none h k = absurd k
Evolves-trans (some r) (some s) (some t) (inl h) (inl k) = inl (Advances-trans r s t h k)
Evolves-trans (some r) (some s) (some t) (inl h) (inr k) = inr (
  omega (arith, k.0, ap (λ (a : OperationAuthority). a.operation_id) h.same_authority),
  λ u. k.1 (h.keeps_unknown u),
)
Evolves-trans (some r) (some s) (some t) (inr h) (inl k) =
    inr (omega (arith, h.0, ap (λ (a : OperationAuthority). a.operation_id) k.same_authority), h.1)
Evolves-trans (some r) (some s) (some t) (inr h) (inr k) = inr (omega (arith, h.0, k.0), h.1)

-- So it moves the operation in place on, or replaces it by later ones.
pub run-Evolves :
    (g : AuthorityGate) (cs : List Call)
    → GateIsValid g
    → Evolves g.current_receipt (run g cs).current_receipt
unfolding run
run-Evolves g [] v = Evolves-refl g.current_receipt
run-Evolves g (c ∷ cs) v =
    Evolves-trans g.current_receipt (apply g c).current_receipt (run g (c ∷ cs)).current_receipt
      (apply-Evolves g c v) (run-Evolves (apply g c) cs (apply-IsValid g c v))
