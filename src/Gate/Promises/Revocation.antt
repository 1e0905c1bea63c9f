-- ===== src/Gate/Promises/Revocation.antt =====
-- Revocation, dispatch, native stop and result are each for once.
use robot_harness.Base.{
  ℕ, Bool, true, false, ◌≡◌, inl, inr, some, List, arith, Option-cases, refl, ap, subst, sym, ◌∙◌,
}
use robot_harness.Gate.Types.{OperationAuthority, ControlStatus, ControlDecision, DispatchStatus}
use robot_harness.Gate.Types.Tests.{is_pending_dispatch}
use robot_harness.Gate.Receipt.{OperationReceipt, is_revoked}
use robot_harness.Gate.Disposition.{revoke}
use robot_harness.Gate.State.{AuthorityGate, Reply, update, replied, reply, current}
use robot_harness.Gate.Output.{can_deliver_result, is_deliverable}
use robot_harness.Gate.Control.{request_cancel, cancel_reply, control, observe_time, time_reply}
use robot_harness.Gate.Admission.{claim_dispatch, dispatch_reply, is_dispatchable}
use robot_harness.Gate.Calls.{Call, claim, cancel, time, apply, run}
use robot_harness.Gate.Invariant.{GateIsValid}
use robot_harness.Gate.Invariant.Histories.{apply-IsValid}
use robot_harness.Gate.Promises.Located.{run-Advances, reply-answer, reply-located, reply-unmatched}

-- What a gate does for an authority whose operation is revoked, or that names none.
revoked_inert :
    (g : AuthorityGate) (a : OperationAuthority) (t : ℕ)
    → ((r : OperationReceipt) → current g a ≡ some r → is_revoked r ≡ true)
    → ((claim_dispatch g a t).1 ≡ false) × (can_deliver_result g a ≡ false)
unfolding claim_dispatch dispatch_reply is_dispatchable can_deliver_result is_deliverable
revoked_inert g a t h = elim (Option-cases (current g a)) [
  | inl n ↦ ground arith
  | inr (r, n) ↦ ground (arith, h r n)
]

-- Once an operation is cancelled, expired or withdrawn, no later call, however many come in
-- between, dispatches it or finds its result deliverable.
pub revoked-run :
    (g : AuthorityGate) (cs : List Call) (a : OperationAuthority) (r : OperationReceipt) (t : ℕ)
    → GateIsValid g
    → current g a ≡ some r
    → is_revoked r ≡ true
    → ((claim_dispatch (run g cs) a t).1 ≡ false) × (can_deliver_result (run g cs) a ≡ false)
revoked-run g cs a r t v p k =
    revoked_inert (run g cs) a t λ r' q. (run-Advances g cs a r r' v p q).keeps_revocation k

-- A handler's reply that applies a revocation writes a revoked receipt of the same operation.
abbrev Revokes : OperationReceipt → Reply ControlDecision → Type 0
Revokes r answer =
    (r' : OperationReceipt) × (d : ControlDecision) × (answer ≡ update r' d)
    × (r'.authority ≡ r.authority)
    × (is_revoked r' ≡ true)

revoke-keeps :
    (r : OperationReceipt) (t : ℕ)
    → ((revoke r t).0.authority ≡ r.authority) × (is_revoked (revoke r t).0 ≡ is_revoked r)
unfolding revoke is_revoked
revoke-keeps r t = ground arith

marked_revoked :
    (r : OperationReceipt) (t : ℕ)
    → (is_revoked (record r { cancellation_requested_at = some t }) ≡ true)
      × (is_revoked (record r { expiry_observed_at = some t }) ≡ true)
unfolding is_revoked
marked_revoked r t = (refl, ground arith)

cancel_reply-Revokes :
    (t : ℕ) (r : OperationReceipt)
    → (replied r (cancel_reply t r)).1.status ≡ ControlStatus.applied
    → Revokes r (cancel_reply t r)
unfolding cancel_reply
cancel_reply-Revokes t r s =
    let marked = record r { cancellation_requested_at = some t } in
    let kept = revoke-keeps marked t in
    (
      (revoke marked t).0,
      (revoke marked t).1,
      ground arith,
      kept.0,
      kept.1 ∙ (marked_revoked r t).0,
    )

time_reply-Revokes :
    (t : ℕ) (r : OperationReceipt)
    → (replied r (time_reply t r)).1.status ≡ ControlStatus.applied
    → Revokes r (time_reply t r)
unfolding time_reply
time_reply-Revokes t r s =
    let marked = record r { expiry_observed_at = some t } in
    let kept = revoke-keeps marked t in
    (
      (revoke marked t).0,
      (revoke marked t).1,
      ground arith,
      kept.0,
      kept.1 ∙ (marked_revoked r t).1,
    )

control-run :
    (g : AuthorityGate) (cs : List Call) (a : OperationAuthority) (t : ℕ)
    (h : OperationReceipt → Reply ControlDecision)
    → ((r : OperationReceipt)
        → (replied r (h r)).1.status ≡ ControlStatus.applied
        → Revokes r (h r))
    → let answer = reply g a (control ControlStatus.no_active_operation) h in
      GateIsValid answer.0
      → answer.1.status ≡ ControlStatus.applied
      → ((claim_dispatch (run answer.0 cs) a t).1 ≡ false)
        × (can_deliver_result (run answer.0 cs) a ≡ false)
control-run g cs a t h revokes v s = elim (Option-cases (current g a)) [
  | inl n ↦ cc (
      ap (λ (x : AuthorityGate × ControlDecision). x.1.status)
        (reply-unmatched a (control ControlStatus.no_active_operation) h g n))
  | inr (r, p) ↦
      let refused = control ControlStatus.no_active_operation in
      let (r', d, e, same, marked) =
        revokes r
          (subst (λ x. x.status ≡ ControlStatus.applied) (reply-answer a refused h g r p) s) in
      revoked-run (reply g a refused h).0 cs a r' t v (reply-located a refused h g r p r' d e same)
        marked
]

-- A cancellation that was applied holds for good: after any calls that follow, the operation is
-- not dispatched, and its result is not deliverable.
pub request_cancel-run :
    (g : AuthorityGate) (cs : List Call) (a : OperationAuthority) (t t' : ℕ)
    → GateIsValid g
    → (request_cancel g a t).1.status ≡ ControlStatus.applied
    → ((claim_dispatch (run (request_cancel g a t).0 cs) a t').1 ≡ false)
      × (can_deliver_result (run (request_cancel g a t).0 cs) a ≡ false)
unfolding request_cancel apply
request_cancel-run g cs a t t' v s =
    control-run g cs a t' (cancel_reply t) (cancel_reply-Revokes t) (apply-IsValid g (cancel a t) v)
      s

-- So does an expiry that was observed.
pub observe_time-run :
    (g : AuthorityGate) (cs : List Call) (a : OperationAuthority) (t t' : ℕ)
    → GateIsValid g
    → (observe_time g a t).1.status ≡ ControlStatus.applied
    → ((claim_dispatch (run (observe_time g a t).0 cs) a t').1 ≡ false)
      × (can_deliver_result (run (observe_time g a t).0 cs) a ≡ false)
unfolding observe_time apply
observe_time-run g cs a t t' v s =
    control-run g cs a t' (time_reply t) (time_reply-Revokes t) (apply-IsValid g (time a t) v) s

submitted_reply :
    (g : AuthorityGate) (a : OperationAuthority) (t : ℕ) (r : OperationReceipt)
    → (replied r (dispatch_reply g a t r)).1 ≡ true
    → dispatch_reply g a t r
      ≡ update (record r { dispatch = DispatchStatus.submitted; dispatched_at = some t }) true
unfolding dispatch_reply
submitted_reply g a t r s = ground arith

claim_refused :
    (g : AuthorityGate) (a : OperationAuthority) (t : ℕ)
    → ((r : OperationReceipt) → current g a ≡ some r → is_pending_dispatch r.dispatch ≡ false)
    → (claim_dispatch g a t).1 ≡ false
unfolding claim_dispatch dispatch_reply is_dispatchable
claim_refused g a t h = elim (Option-cases (current g a)) [
  | inl n ↦ ground arith
  | inr (r, n) ↦ ground (arith, h r n)
]

-- An operation is dispatched at most once, whatever happens between two claims.
pub claim_dispatch-run :
    (g : AuthorityGate) (cs : List Call) (a : OperationAuthority) (t t' : ℕ)
    → GateIsValid g
    → (claim_dispatch g a t).1 ≡ true
    → (claim_dispatch (run (claim_dispatch g a t).0 cs) a t').1 ≡ false
unfolding claim_dispatch apply
claim_dispatch-run g cs a t t' v s = elim (Option-cases (current g a)) [
  | inl n ↦
      cc (
        ap (λ (x : AuthorityGate × Bool). x.1) (reply-unmatched a false (dispatch_reply g a t) g n))
  | inr (r, p) ↦
      let r' = record r { dispatch = DispatchStatus.submitted; dispatched_at = some t } in
      let e =
        submitted_reply g a t r (sym (reply-answer a false (dispatch_reply g a t) g r p) ∙ s) in
      let located = reply-located a false (dispatch_reply g a t) g r p r' true e refl in
      claim_refused (run (claim_dispatch g a t).0 cs) a t' λ r'' q.
        let moved =
          run-Advances (claim_dispatch g a t).0 cs a r' r'' (apply-IsValid g (claim a t) v) located
            q in
        moved.keeps_dispatch refl
]
