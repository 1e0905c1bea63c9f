-- ===== src/Compute/Polling.antt =====
-- poll and begin_shutdown of ComputeExecutionHost.
use robot_harness.Base.{true, not, Option, some, ◌&&◌, if◌then◌else◌}
use robot_harness.Action.{Action, pure, gets, modify, ◌>>=◌, ◌>>◌}
use robot_harness.Gate.Types.{OperationAuthority}
use robot_harness.Gate.Types.Tests.{is_active_phase}
use robot_harness.Gate.Binding.{binding_status}
use robot_harness.Gate.Calls.{close}
use robot_harness.Compute.Types.{ComputeProcess, ProcessObservation, ComputeShutdownStatus}
use robot_harness.Compute.Host.{ComputeHost, now, call}
use robot_harness.Compute.Control.{
  expire, settle_unsubmitted, withdraw_binding, observe_capabilities, on_process,
}
use robot_harness.Compute.Reports.{is_open_status, observe_process_events}
use robot_harness.Compute.Finish.{observed_of, finish, update_shutdown_status}
use robot_harness.Compute.Prepare.{
  is_closed_status, is_running, has_failed_process, is_revoked_pending, has_lost_support,
  cancel_own,
}

module _ {X : Type 0} (P : ComputeProcess X) where
  -- `supports_execution` reads the clock only behind the two tests before it.
  unfoldable pub check_support : Action (ComputeHost X) (Unit {0})
  check_support = do
    bound_at ← now
    h ← gets λ (h : ComputeHost X). h
    if is_open_status h.shutdown && is_active_phase (binding_status h.gate bound_at).phase
        then (do
          supported_at ← now
          lost ← gets (has_lost_support bound_at supported_at)
          if lost
              then (do withdraw_binding P (binding_status h.gate bound_at).active; pure tt)
              else pure tt)
        else pure tt

  unfoldable pub observe_events :
      Option OperationAuthority → Option ProcessObservation → Action (ComputeHost X) (Unit {0})
  observe_events (some authority) (some observed) = observe_process_events authority observed
  observe_events _ _ = pure tt

  unfoldable pub poll_process : Action (ComputeHost X) (Unit {0})
  poll_process = do
    check_support
    at ← now
    on_process (P.poll at)
    failed ← gets λ (h : ComputeHost X). has_failed_process (observed_of P h)
    own ← gets λ (h : ComputeHost X). h.authority
    if failed then cancel_own P own else pure tt
    h ← gets λ (h : ComputeHost X). h
    observe_events h.authority (observed_of P h)
    finish P

  -- poll, of a host that is not closed.
  unfoldable pub poll_once : Action (ComputeHost X) (Unit {0})
  poll_once = do
    watches ← gets λ (h : ComputeHost X). is_open_status h.shutdown && h.initialized
    if watches then (do observed_at ← now; observe_capabilities P observed_at; pure tt) else pure tt
    at ← now
    expire P at
    revoked ← gets is_revoked_pending
    if revoked then settle_unsubmitted true else pure tt
    runs ← gets λ (h : ComputeHost X). is_running (observed_of P h)
    if runs then poll_process else pure tt
    update_shutdown_status P

  unfoldable pub poll : Action (ComputeHost X) (Unit {0})
  poll = do
    done ← gets λ (h : ComputeHost X). is_closed_status h.shutdown
    if done then pure tt else poll_once

  unfoldable pub begin_shutdown : Action (ComputeHost X) (Unit {0})
  begin_shutdown = do
    starts ← gets λ (h : ComputeHost X). is_open_status h.shutdown
    if not starts then pure tt else do
      modify λ h. record h { shutdown = ComputeShutdownStatus.closing }
      call close
      own ← gets λ (h : ComputeHost X). h.authority
      cancel_own P own
      poll
