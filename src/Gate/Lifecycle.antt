-- ===== src/Gate/Lifecycle.antt =====
-- The abstract view of the gate, as a state machine: the work that holds the effect domain, and
-- the steps that it may take. Receipts, evidence, records and times are forgotten.
pub mod Refinement
use robot_harness.Base.{ℕ, Bool, true, false, not, Option, none, some, ◌≡◌, ◌<◌}
use robot_harness.Gate.Types.Tests.{is_pending_dispatch, is_pending_output, is_settled}
use robot_harness.Gate.Receipt.{OperationReceipt, is_revoked}
use robot_harness.Gate.State.{AuthorityGate}

pub record Work : Type 0 where
  pub number : ℕ
  pub is_revoked : Bool
  pub is_dispatched : Bool  -- submitted, or known not to be
  pub has_final_output : Bool
  pub has_settled : Bool

-- Work as it is admitted.
abbrev pub new_work : ℕ → Work
new_work n = record {
  number = n;
  is_revoked = false;
  is_dispatched = false;
  has_final_output = false;
  has_settled = false;
}

-- What is decided about work is not taken back.
pub record Precedes (v w : Work) : Type 0 where
  pub same_number : w.number ≡ v.number
  pub revoked_stays : v.is_revoked ≡ true → w.is_revoked ≡ true
  pub dispatched_stays : v.is_dispatched ≡ true → w.is_dispatched ≡ true
  pub output_stays : v.has_final_output ≡ true → w.has_final_output ≡ true
  pub settled_stays : v.has_settled ≡ true → w.has_settled ≡ true
  pub settled_last : w.has_settled ≡ true → w.has_final_output ≡ true
  pub output_after : w.has_final_output ≡ true → w.is_dispatched ≡ true

-- One step: a free domain is taken or left alone, work proceeds, or settled work of a final
-- output hands the domain over to work of a greater number.
pub data Step : Option Work → Option Work → Type 0 where
  rests : Step none none
  opens : (n : ℕ) → Step none (some (new_work n))
  proceeds : (v w : Work) → Precedes v w → Step (some v) (some w)
  hands_over :
      (v : Work) (n : ℕ)
      → v.has_settled ≡ true
      → v.has_final_output ≡ true
      → v.is_dispatched ≡ true
      → v.number < n
      → Step (some v) (some (new_work n))

pub data Steps : Option Work → Option Work → Type 0 where
  done : (o : Option Work) → Steps o o
  then : (o p q : Option Work) → Step o p → Steps p q → Steps o q

-- The abstraction of a receipt, and of the gate.
abbrev pub work_of : OperationReceipt → Work
work_of r = record {
  number = r.authority.operation_id;
  is_revoked = is_revoked r;
  is_dispatched = not (is_pending_dispatch r.dispatch);
  has_final_output = not (is_pending_output r.output);
  has_settled = is_settled r.settlement;
}

abbrev pub view_of : Option OperationReceipt → Option Work
view_of none = none
view_of (some r) = some (work_of r)

abbrev pub view : AuthorityGate → Option Work
view g = view_of g.current_receipt
