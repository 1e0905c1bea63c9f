-- ===== src/Gate/Invariant/Bindings.antt =====
-- The calls that change the binding, its start-up facts and its candidate.
use robot_harness.Base.{
  ℕ, String, true, false, ◌≡◌, ◌⊎◌, ◌≤◌, inl, inr, Option, none, some, arith, refl, sym, subst,
  Option-cases, Bool-cases, u64_max, has_value, ◌==◌,
}
use robot_harness.Gate.Types.{
  BindingIdentity, StartupEvidence, ExecutionCapabilities, BindingReadinessEvidence,
}
use robot_harness.Gate.Types.Tests.{is_withdrawn_phase, is_preparing_phase}
use robot_harness.Gate.Receipt.{OperationReceipt, is_revoked}
use robot_harness.Gate.Disposition.{
  disposition_of, has_resolved_closure, has_resolved_effects, revoke,
}
use robot_harness.Gate.State.{
  AuthorityGate, AuthorityGateConfig, Candidate, initial, can_commit, can_commit_candidate,
  is_current_fact, old_work_closed, current_is_releasable, matches_receipt,
}
use robot_harness.Gate.Startup.{
  FactSlot, observe_startup, startup_at, startup_slot, refuses_startup, close_admission,
}
use robot_harness.Gate.Capabilities.{
  observe_execution_capabilities, observe_live_report, observe_candidate_report,
  compare_candidate_report, store_candidate_report, conflict,
}
use robot_harness.Gate.Binding.{withdraw_binding, withdraw_live, withdrawn_receipt, enter_withdrawn}
use robot_harness.Gate.Rebind.{begin_rebind, prepare, new_candidate, commit_rebind, commit}
use robot_harness.Gate.Readiness.{
  ReadinessIndex, observe_rebind_readiness, readiness_at, readiness_index,
}
use robot_harness.Gate.Validity.{ReceiptIsValid, Advances}
use robot_harness.Gate.Invariant.{Holds, GateIsValid, Moves}
use robot_harness.Gate.Invariant.Receipts.{put-Holds, matched_live, Moves-refl}

pub close_admission-IsValid : (g : AuthorityGate) → GateIsValid g → GateIsValid (close_admission g)
unfolding close_admission
close_admission-IsValid g v = ground arith

startup_at-IsValid :
    (g : AuthorityGate) (e : StartupEvidence) (slot : FactSlot) (source : String)
    → GateIsValid g
    → refuses_startup g e ≡ false
    → GateIsValid (startup_at g e slot source).0
unfolding startup_at refuses_startup
startup_at-IsValid g e FactSlot.binding_idle source v f = ground arith
startup_at-IsValid g e _ source v f = ground arith

pub observe_startup-IsValid :
    (g : AuthorityGate) (e : StartupEvidence) → GateIsValid g → GateIsValid (observe_startup g e).0
unfolding observe_startup
observe_startup-IsValid g e v = elim (Bool-cases (refuses_startup g e)) [
  | inl f ↦ rw f v
  | inr f ↦ elim (Option-cases (startup_slot g e.kind)) [
    | inl n ↦ rw (f, n) v
    | inr ((slot, source), n) ↦ rw (f, n) (startup_at-IsValid g e slot source v f)
  ]
]

pub current_receipt-observe_startup :
    (g : AuthorityGate) (e : StartupEvidence)
    → (observe_startup g e).0.current_receipt ≡ g.current_receipt
unfolding observe_startup startup_at
current_receipt-observe_startup g e = ground arith

-- A report about the candidate leaves its binding alone.
binding-observe_candidate_report :
    (c : AuthorityGateConfig) (k : Candidate) (e : ExecutionCapabilities)
    → (observe_candidate_report c k e).0.binding ≡ k.binding
unfolding observe_candidate_report compare_candidate_report store_candidate_report conflict
binding-observe_candidate_report c k e = ground arith

pub observe_execution_capabilities-IsValid :
    (g : AuthorityGate) (c : ExecutionCapabilities)
    → GateIsValid g
    → GateIsValid (observe_execution_capabilities g c).0
unfolding observe_execution_capabilities observe_live_report
observe_execution_capabilities-IsValid g c v = elim (Option-cases g.candidate) [
  | inl n ↦ ground arith
  | inr (k, n) ↦ ground (arith, binding-observe_candidate_report g.config k c)
]

pub current_receipt-observe_execution_capabilities :
    (g : AuthorityGate) (c : ExecutionCapabilities)
    → (observe_execution_capabilities g c).0.current_receipt ≡ g.current_receipt
unfolding observe_execution_capabilities observe_live_report
current_receipt-observe_execution_capabilities g c = ground arith

binding-readiness_at :
    (c : AuthorityGateConfig) (k : Candidate) (e : BindingReadinessEvidence) (i : ReadinessIndex)
    → (readiness_at c k e i).0.binding ≡ k.binding
unfolding readiness_at
binding-readiness_at c k e ReadinessIndex.idle = ground arith
binding-readiness_at c k e _ = ground arith

pub observe_rebind_readiness-IsValid :
    (g : AuthorityGate) (e : BindingReadinessEvidence)
    → GateIsValid g
    → GateIsValid (observe_rebind_readiness g e).0
unfolding observe_rebind_readiness
observe_rebind_readiness-IsValid g e v = elim (Option-cases g.candidate) [
  | inl n ↦ ground arith
  | inr (k, n) ↦ elim (Option-cases (readiness_index g.config e.kind)) [
    | inl m ↦ ground arith
    | inr (i, m) ↦ ground (arith, binding-readiness_at g.config k e i)
  ]
]

pub current_receipt-observe_rebind_readiness :
    (g : AuthorityGate) (e : BindingReadinessEvidence)
    → (observe_rebind_readiness g e).0.current_receipt ≡ g.current_receipt
unfolding observe_rebind_readiness
current_receipt-observe_rebind_readiness g e = ground arith

prepare-IsValid :
    (g : AuthorityGate) (p : String) (e : BindingReadinessEvidence) (now : ℕ)
    → GateIsValid g
    → is_withdrawn_phase g.binding_phase ≡ true
    → (g.generation_high_water == u64_max) ≡ false
    → GateIsValid (prepare g (new_candidate g p e now) now).0
unfolding prepare new_candidate
prepare-IsValid g p e now v w h = ground arith

pub begin_rebind-IsValid :
    (g : AuthorityGate) (b : BindingIdentity) (p : String) (e : BindingReadinessEvidence) (now : ℕ)
    → GateIsValid g
    → GateIsValid (begin_rebind g b p e now).0
unfolding begin_rebind
begin_rebind-IsValid g b p e now v = ground (arith, prepare-IsValid g p e now v)

pub current_receipt-begin_rebind :
    (g : AuthorityGate) (b : BindingIdentity) (p : String) (e : BindingReadinessEvidence) (now : ℕ)
    → (begin_rebind g b p e now).0.current_receipt ≡ g.current_receipt
unfolding begin_rebind prepare
current_receipt-begin_rebind g b p e now = ground arith

-- A candidate that can be committed has evidence for each fact.
committable_facts :
    (g : AuthorityGate) (k : Candidate) (now : ℕ)
    → can_commit_candidate g now k ≡ true
    → (has_value k.idle.evidence ≡ true)
      × (has_value k.worker.evidence ≡ true)
      × (has_value k.sink.evidence ≡ true)
unfolding can_commit_candidate is_current_fact
committable_facts g k now h = ground arith

closed_Holds :
    (g : AuthorityGate) (b : BindingIdentity) (o : Option OperationReceipt)
    → g.current_receipt ≡ o
    → old_work_closed g ≡ true
    → Holds g.config.binding g.next_operation_id o
    → Holds b g.next_operation_id o
unfolding old_work_closed current_is_releasable
closed_Holds g b none p c k = tt
closed_Holds g b (some r) p c k = record {
  valid = k.valid;
  numbered = k.numbered;
  given_out = k.given_out;
  earlier_closed = λ n. ground arith;
}

commit-IsValid :
    (g : AuthorityGate) (k : Candidate) (now : ℕ)
    → GateIsValid g
    → g.candidate ≡ some k
    → old_work_closed g ≡ true
    → can_commit_candidate g now k ≡ true
    → GateIsValid (commit g k now)
unfolding commit
commit-IsValid g k now v p c h = ground (
  arith,
  committable_facts g k now h,
  closed_Holds g k.binding g.current_receipt refl c v.operation,
)

pub commit_rebind-IsValid :
    (g : AuthorityGate) (b : BindingIdentity) (now : ℕ)
    → GateIsValid g
    → GateIsValid (commit_rebind g b now).0
unfolding commit_rebind can_commit
commit_rebind-IsValid g b now v = elim (Option-cases g.candidate) [
  | inl n ↦ ground arith
  | inr (k, n) ↦ ground (arith, commit-IsValid g k now v n)
]

pub current_receipt-commit_rebind :
    (g : AuthorityGate) (b : BindingIdentity) (now : ℕ)
    → (commit_rebind g b now).0.current_receipt ≡ g.current_receipt
unfolding commit_rebind commit
current_receipt-commit_rebind g b now = ground arith

-- Withdrawal revokes the receipt in place.
withdrawn-Respects :
    (r : OperationReceipt) (now : ℕ)
    → ReceiptIsValid r
    → let r' = (revoke (record r { binding_withdrawn_at = some now }) now).0 in
      ReceiptIsValid r' × Advances r r'
unfolding revoke disposition_of has_resolved_closure has_resolved_effects is_revoked
withdrawn-Respects r now v = ground arith

withdrawn_receipt-cases :
    (g : AuthorityGate)
    → (withdrawn_receipt g ≡ none)
      ⊎ ((r : OperationReceipt) × (withdrawn_receipt g ≡ some r)
          × (g.current_receipt ≡ some r)
          × (matches_receipt g.config r r.authority ≡ true))
unfolding withdrawn_receipt
withdrawn_receipt-cases g = ground arith

withdraw_live_both :
    (g : AuthorityGate) (now : ℕ)
    → GateIsValid g
    → g.candidate ≡ none
    → GateIsValid (withdraw_live g now).0
      × Moves g.current_receipt (withdraw_live g now).0.current_receipt
unfolding withdraw_live
withdraw_live_both g now v n = elim (withdrawn_receipt-cases g) [
  | inl w ↦ (ground arith, rw (w, withdraw_live) (Moves-refl g.current_receipt))
  | inr (r, w, p, m) ↦
      let held = subst (Holds g.config.binding g.next_operation_id) p v.operation in
      let moved = withdrawn-Respects r now held.valid in
      let r' = (revoke (record r { binding_withdrawn_at = some now }) now).0 in
      let b = matched_live g.config r r.authority m in
      let held' =
        put-Holds g.config.binding g.next_operation_id r r' held b moved.0 moved.1.same_authority in
      (ground arith, rw (w, withdraw_live) (subst (λ o. Moves o (some r')) (sym p) moved.1))
]

-- A candidate is dropped, and the operation in place is left alone.
drop_candidate-IsValid :
    (g : AuthorityGate) (now : ℕ)
    → GateIsValid g
    → has_value g.withdrawn_at ≡ true
    → GateIsValid (record (enter_withdrawn g now) { candidate = none })
unfolding enter_withdrawn
drop_candidate-IsValid g now v w = ground arith

-- Withdrawal leaves the gate alone, withdraws the live binding, or drops the candidate.
pub withdraw_binding-cases :
    (g : AuthorityGate) (b : BindingIdentity) (now : ℕ)
    → ((withdraw_binding g b now).0 ≡ g)
      ⊎ (((withdraw_binding g b now ≡ withdraw_live g now) × (g.candidate ≡ none))
          ⊎ (((withdraw_binding g b now).0 ≡ record (enter_withdrawn g now) { candidate = none })
              × (has_value g.candidate ≡ true)))
unfolding withdraw_binding
withdraw_binding-cases g b now = ground arith

withdraw_binding_both :
    (g : AuthorityGate) (b : BindingIdentity) (now : ℕ)
    → GateIsValid g
    → GateIsValid (withdraw_binding g b now).0
      × Moves g.current_receipt (withdraw_binding g b now).0.current_receipt
unfolding enter_withdrawn
withdraw_binding_both g b now v = elim (withdraw_binding-cases g b now) [
  | inl e ↦ rw e (v, Moves-refl g.current_receipt)
  | inr (inl (e, n)) ↦ rw e (withdraw_live_both g now v n)
  | inr (inr (e, k)) ↦
      let prepared : is_preparing_phase g.binding_phase ≡ true = ground arith in
      rw e (
        drop_candidate-IsValid g now v (v.preparation_timed prepared),
        Moves-refl g.current_receipt,
      )
]

pub withdraw_binding-IsValid :
    (g : AuthorityGate) (b : BindingIdentity) (now : ℕ)
    → GateIsValid g
    → GateIsValid (withdraw_binding g b now).0
withdraw_binding-IsValid g b now v = (withdraw_binding_both g b now v).0

pub withdraw_binding-Moves :
    (g : AuthorityGate) (b : BindingIdentity) (now : ℕ)
    → GateIsValid g
    → Moves g.current_receipt (withdraw_binding g b now).0.current_receipt
withdraw_binding-Moves g b now v = (withdraw_binding_both g b now v).1

-- A gate that the constructor accepts starts out valid.
pub initial-IsValid :
    (c : AuthorityGateConfig) → c.binding.provider_generation ≤ u64_max → GateIsValid (initial c)
unfolding initial
initial-IsValid c h = ground arith
