-- ===== src/Sample/Promises/Histories.antt =====
-- What holds of the host after any commands.
use robot_harness.Base.{
  ℕ, ◌≡◌, ◌+◌, ◌==◌, true, some, List, [], ◌∷◌, ◌++◌, inl, inr, arith, refl, Bool-cases,
  if◌then◌else◌,
}
use robot_harness.Gate.Types.{OperationAuthority}
use robot_harness.Gate.Receipt.{OperationReceipt, is_revoked}
use robot_harness.Gate.State.{AuthorityGate, current}
use robot_harness.Gate.Invariant.{GateIsValid}
use robot_harness.Gate.Promises.Delivery.{revoked_IsPermitted}
use robot_harness.Sample.Types.{SampleResult}
use robot_harness.Sample.Host.{Host}
use robot_harness.Sample.Commands.{Command, execute_all}
use robot_harness.Sample.Moves.{deliveries, execute_all-Moves}
use robot_harness.Sample.Delivered.{ArePermitted, allowed_ArePermitted}

-- The results of an operation.
unfoldable pub count_results : ℕ → List SampleResult → ℕ
count_results id [] = 0
count_results id (r ∷ rs) =
    let rest = count_results id rs in if r.operation_id == id then rest + 1 else rest

count_results-append :
    (id : ℕ) (xs ys : List SampleResult)
    → count_results id (xs ++ ys) ≡ count_results id xs + count_results id ys
unfolding count_results
count_results-append id [] ys = omega arith
count_results-append id (x ∷ xs) ys = ground (arith, count_results-append id xs ys)

permitted_count :
    (g : AuthorityGate) (a : OperationAuthority) (r : OperationReceipt)
    (results : List SampleResult)
    → GateIsValid g
    → current g a ≡ some r
    → is_revoked r ≡ true
    → ArePermitted g results
    → count_results a.operation_id results ≡ 0
unfolding count_results
permitted_count g a r [] v p k h = refl
permitted_count g a r (x ∷ xs) v p k h = elim (Bool-cases (x.operation_id == a.operation_id)) [
  | inl e ↦ absurd (revoked_IsPermitted g a r x.operation_id v p k h.0 (ground arith))
  | inr e ↦ rw e (permitted_count g a r xs v p k h.1)
]

-- Once an operation is revoked, by cancellation, by expiry or by withdrawal of its binding, no
-- commands, whatever their order, put a result of it into the sink.
pub execute_all-revoked :
    (h : Host) (cs : List Command) (a : OperationAuthority) (r : OperationReceipt)
    → GateIsValid h.gate
    → current h.gate a ≡ some r
    → is_revoked r ≡ true
    → count_results a.operation_id (execute_all cs h).adapter.results
      ≡ count_results a.operation_id h.adapter.results
execute_all-revoked h cs a r v p k =
    let moved = execute_all-Moves cs h in
    let delivered = deliveries moved.moves in
    let none_new =
      permitted_count h.gate a r delivered v p k
        (allowed_ArePermitted h.gate moved.moves moved.allowed) in
    let split = count_results-append a.operation_id h.adapter.results delivered in
    rw moved.results_grow (omega (arith, split, none_new))
