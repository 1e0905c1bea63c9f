-- ===== src/Compute/Promises/Results.antt =====
-- What a result of the compute host says, and when there is one.
use robot_harness.Base.{◌≡◌, true, Option, none, some, List, inl, inr, arith, ◌∙◌}
use robot_harness.Gate.Types.{OperationAuthority}
use robot_harness.Gate.Receipt.{OperationReceipt, is_revoked}
use robot_harness.Gate.State.{AuthorityGate, current}
use robot_harness.Gate.Invariant.{GateIsValid}
use robot_harness.Gate.Promises.Delivery.{revoked_IsPermitted}
use robot_harness.Compute.Types.{ComputeProcess, ComputeResult}
use robot_harness.Compute.Host.{ComputeHost}
use robot_harness.Compute.Commands.{ComputeCommand, execute_commands}
use robot_harness.Compute.Proceeds.{Yields, IsExact}
use robot_harness.Compute.Proceeds.Commands.{execute_commands-Proceeds}
use robot_harness.Compute.Promises.Sums.{wrapped_sum, expected_sum-exact}

yielded-IsExact :
    (g : AuthorityGate) (o o' : Option ComputeResult) (r : ComputeResult)
    → o ≡ none
    → o' ≡ some r
    → Yields g o o'
    → IsExact r
yielded-IsExact g o none r n e y = cc
yielded-IsExact g o (some r') r n e (inl k) = cc
yielded-IsExact g o (some r') r n e (inr k) = ground (arith, k.1)

module _ {X : Type 0} (P : ComputeProcess X) where
  -- From a host without a result, after any commands and whatever the worker and the operating
  -- system do, a result that the host shows has the sum of the squares of i % 1000 for all i below
  -- its iterations, in 64 bits.
  pub execute_commands-exact :
      (h : ComputeHost X) (cs : List ComputeCommand) (r : ComputeResult)
      → h.result ≡ none
      → (execute_commands P cs h).result ≡ some r
      → r.sum ≡ wrapped_sum r.iterations
  execute_commands-exact h cs r n e =
      yielded-IsExact h.gate h.result (execute_commands P cs h).result r n e
        (execute_commands-Proceeds P cs h).yields
      ∙ expected_sum-exact r.iterations

  revoked_Yields :
      (g : AuthorityGate) (a : OperationAuthority) (q : OperationReceipt)
      (o o' : Option ComputeResult) (r : ComputeResult)
      → GateIsValid g
      → current g a ≡ some q
      → is_revoked q ≡ true
      → o' ≡ some r
      → r.operation_id ≡ a.operation_id
      → Yields g o o'
      → o ≡ some r
  revoked_Yields g a q o none r v p k e i y = cc
  revoked_Yields g a q o (some r') r v p k e i (inl y) = y ∙ e
  revoked_Yields g a q o (some r') r v p k e i (inr y) =
      absurd (revoked_IsPermitted g a q r'.operation_id v p k y.0 (ground arith))

  -- Once an operation is revoked, a result of it that the host shows after any commands was there
  -- before: a worker that goes on and completes delivers nothing.
  pub execute_commands-revoked :
      (h : ComputeHost X) (cs : List ComputeCommand) (a : OperationAuthority) (q : OperationReceipt)
      (r : ComputeResult)
      → GateIsValid h.gate
      → current h.gate a ≡ some q
      → is_revoked q ≡ true
      → (execute_commands P cs h).result ≡ some r
      → r.operation_id ≡ a.operation_id
      → h.result ≡ some r
  execute_commands-revoked h cs a q r v p k e i =
      revoked_Yields h.gate a q h.result (execute_commands P cs h).result r v p k e i
        (execute_commands-Proceeds P cs h).yields
