-- ===== src/Compute/Commands.antt =====
-- The public member functions of ComputeExecutionHost as data.
use robot_harness.Base.{String, List, [], ◌∷◌}
use robot_harness.Action.{Action, pure, ◌>>=◌}
use robot_harness.Gate.Types.{OperationAuthority, BindingIdentity}
use robot_harness.Compute.Types.{ComputeProcess, ComputeRequest}
use robot_harness.Compute.Host.{ComputeHost}
use robot_harness.Compute.Control.{withdraw_binding}
use robot_harness.Compute.Rebind.{rebind_provider}
use robot_harness.Compute.Prepare.{initialize, prepare, dispatch_prepared, submit, request_cancel}
use robot_harness.Compute.Polling.{poll, begin_shutdown}

-- The calls of a client, as data.
pub data ComputeCommand : Type 0 where
  initializes polls begins_shutdown : ComputeCommand
  withdraws : BindingIdentity → ComputeCommand
  rebinds : BindingIdentity → String → String → ComputeCommand
  prepares submits : ComputeRequest → ComputeCommand
  dispatches cancels : OperationAuthority → ComputeCommand

module _ {X : Type 0} (P : ComputeProcess X) where
  -- The answer is dropped.
  abbrev ignored : {A : Type 0} → Action (ComputeHost X) A → Action (ComputeHost X) (Unit {0})
  ignored m = m >>= λ _. pure tt

  unfoldable pub execute_command : ComputeCommand → Action (ComputeHost X) (Unit {0})
  execute_command ComputeCommand.initializes = ignored (initialize P)
  execute_command ComputeCommand.polls = poll P
  execute_command ComputeCommand.begins_shutdown = begin_shutdown P
  execute_command (ComputeCommand.withdraws expected) = ignored (withdraw_binding P expected)
  execute_command (ComputeCommand.rebinds expected provider executable) =
      ignored (rebind_provider P expected provider executable)
  execute_command (ComputeCommand.prepares request) = ignored (prepare P request)
  execute_command (ComputeCommand.submits request) = ignored (submit P request)
  execute_command (ComputeCommand.dispatches authority) = ignored (dispatch_prepared P authority)
  execute_command (ComputeCommand.cancels authority) = ignored (request_cancel P authority)

  unfoldable pub execute_commands : List ComputeCommand → ComputeHost X → ComputeHost X
  execute_commands [] h = h
  execute_commands (c ∷ cs) h = execute_commands cs (execute_command c h).1
