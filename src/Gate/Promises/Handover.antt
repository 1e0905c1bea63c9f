-- ===== src/Gate/Promises/Handover.antt =====
-- One operation at a time: the next is admitted only where the last is closed.
use robot_harness.Base.{
  true, ◌≡◌, ◌≢◌, inl, inr, Option, none, some, List, [], ◌∷◌, ◌++◌, refl, sym, ap, subst, ◌∙◌,
  value_or,
}
use robot_harness.Gate.Types.{OperationRequest}
use robot_harness.Gate.Receipt.{OperationReceipt}
use robot_harness.Gate.Disposition.{has_resolved_closure}
use robot_harness.Gate.State.{AuthorityGate}
use robot_harness.Gate.Calls.{Call, admits, apply, run}
use robot_harness.Gate.Validity.{Advances, Advances-refl, Advances-trans}
use robot_harness.Gate.Invariant.{GateIsValid, Moves}
use robot_harness.Gate.Invariant.Admissions.{free_resolved}
use robot_harness.Gate.Invariant.Histories.{apply-IsValid, apply-cases}

-- A point of a history where the operation of a receipt is in place, closed, and an admission
-- follows.
pub record ClosesWithin (g : AuthorityGate) (cs : List Call) (r : OperationReceipt) : Type 0 where
  pub before : List Call
  pub request : OperationRequest
  pub after : List Call
  pub last : OperationReceipt
  pub splits : cs ≡ before ++ (admits request ∷ after)
  pub in_place : (run g before).current_receipt ≡ some last
  pub advanced : Advances r last
  pub resolved : has_resolved_closure last ≡ true

later_close :
    (g : AuthorityGate) (c : Call) (cs : List Call) (r s : OperationReceipt)
    → Advances r s
    → ClosesWithin (apply g c) cs s
    → ClosesWithin g (c ∷ cs) r
unfolding run
later_close g c cs r s m w = record {
  before = c ∷ w.before;
  request = w.request;
  after = w.after;
  last = w.last;
  splits = ap (λ x. c ∷ x) w.splits;
  in_place = w.in_place;
  advanced = Advances-trans r s w.last m w.advanced;
  resolved = w.resolved;
}

moved :
    (r : OperationReceipt) (o : Option OperationReceipt)
    → Moves (some r) o
    → (r' : OperationReceipt) × (o ≡ some r') × Advances r r'
moved r none m = absurd m
moved r (some r') m = (r', refl, m)

-- An operation gives its place to another only after it is closed: its dispatch and its native
-- outcome are resolved, its output is final and its settlement is recorded. The call that
-- follows is the admission of a successor.
pub run-ClosesWithin :
    (g : AuthorityGate) (cs : List Call) (r s : OperationReceipt)
    → GateIsValid g
    → g.current_receipt ≡ some r
    → (run g cs).current_receipt ≡ some s
    → s.authority ≢ r.authority
    → ClosesWithin g cs r
unfolding run
run-ClosesWithin g [] r s v p q n =
    absurd (n (ap (λ (o : Option OperationReceipt). (value_or r o).authority) (sym q ∙ p)))
run-ClosesWithin g (c ∷ cs) r s v p q n = elim (apply-cases g c v) [
  | inl m ↦
      let (r', placed, advanced) =
        moved r (apply g c).current_receipt
          (subst (λ o. Moves o (apply g c).current_receipt) p m) in
      later_close g c cs r r' advanced (
        run-ClosesWithin (apply g c) cs r' s (apply-IsValid g c v) placed q
          (λ e. n (e ∙ advanced.same_authority)))
  | inr (request, e, _, _, f) ↦ record {
    before = [];
    request = request;
    after = cs;
    last = r;
    splits = ap (λ x. x ∷ cs) e;
    in_place = p;
    advanced = Advances-refl r;
    resolved = free_resolved g r p f;
  }
]
