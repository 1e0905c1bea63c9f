-- ===== src/Sample/Control.antt =====
-- Expiry, withdrawal, cancellation and poll of SampleExecutionHost::Implementation.
use robot_harness.Base.{
  ℕ, Bool, true, false, not, Option, none, some, ◌&&◌, ◌||◌, ◌==◌, if◌then◌else◌,
}
use robot_harness.Action.{Action, pure, gets, modify, ◌>>=◌, ◌>>◌}
use robot_harness.Gate.Types.{
  OperationAuthority, BindingIdentity, ControlStatus, ControlDecision, BindingControlStatus,
  BindingDecision, StopAcknowledgement,
}
use robot_harness.Gate.Types.Tests.{is_ready}
use robot_harness.Gate.Control.{control}
use robot_harness.Gate.Startup.{startup_status}
use robot_harness.Gate.Binding.{binding_status}
use robot_harness.Gate.Calls.{withdraw, cancel, time, stop}
use robot_harness.Sample.Types.{is_worker_ready, is_result_sink_ready}
use robot_harness.Sample.Host.{Host, read_time, ask, tell}
use robot_harness.Sample.Worker.{request_stop, confirm_non_submission}

abbrev pub is_applied : ControlStatus → Bool
is_applied ControlStatus.applied = true
is_applied _ = false

abbrev pub is_applied_binding : BindingControlStatus → Bool
is_applied_binding BindingControlStatus.applied = true
is_applied_binding _ = false

unfoldable pub discard : Option OperationAuthority → Action Host (Unit {0})
discard none = pure tt
discard (some authority) = do
  modify λ h. record h { prepared_request = none; prepared_authority = none }
  confirm_non_submission authority

unfoldable pub discard_prepared : Action Host (Unit {0})
discard_prepared = do prepared ← gets λ (h : Host). h.prepared_authority; discard prepared

-- `prepared_authority && prepared_authority->operation_id == authority.operation_id`.
abbrev pub is_prepared_as : Option OperationAuthority → OperationAuthority → Bool
is_prepared_as none authority = false
is_prepared_as (some prepared) authority = prepared.operation_id == authority.operation_id

-- `if (acknowledgement)`: the answer is handed to the gate.
unfoldable pub report_stop :
    OperationAuthority → Option StopAcknowledgement → Action Host (Unit {0})
report_stop authority none = pure tt
report_stop authority (some acknowledgement) = do
  now ← read_time
  tell (
      stop (record {
        authority = authority;
        acknowledgement = acknowledgement;
        evidence = record { source = "native-stop"; observed_at = now; sequence = 1 };
      }))

unfoldable pub apply_control : OperationAuthority → ControlDecision → Action Host (Unit {0})
apply_control authority decision = if not (is_applied decision.status) then pure tt else do
  prepared ← gets λ (h : Host). h.prepared_authority
  if is_prepared_as prepared authority then discard_prepared else pure tt
  if decision.should_request_native_stop
      then (do acknowledgement ← request_stop authority; report_stop authority acknowledgement)
      else pure tt

-- observe_time, of the current authority.
unfoldable pub observe_time_of : Option OperationAuthority → ℕ → Action Host ControlDecision
observe_time_of none now = pure (control ControlStatus.no_active_operation)
observe_time_of (some authority) now = do
  decision ← ask (time authority now)
  apply_control authority decision
  pure decision

unfoldable pub observe_time : ℕ → Action Host ControlDecision
observe_time now = do current ← gets λ (h : Host). h.current_authority; observe_time_of current now

-- `if (decision.native_stop_authority)`.
unfoldable pub stop_withdrawn : Option OperationAuthority → Action Host (Unit {0})
stop_withdrawn none = pure tt
stop_withdrawn (some authority) =
    apply_control authority
      (record { status = ControlStatus.applied; should_request_native_stop = true })

unfoldable pub withdraw_binding : BindingIdentity → Action Host BindingDecision
withdraw_binding expected_binding = do
  now ← read_time
  decision ← ask (withdraw expected_binding now)
  if is_applied_binding decision.status
      then (do discard_prepared; stop_withdrawn decision.native_stop_authority)
      else pure tt
  pure decision

-- The gate is ready, and the adapter is not.
unfoldable pub has_lost_worker : Host → Bool
has_lost_worker h =
    is_ready (startup_status h.gate).state
    && (not (is_worker_ready h.adapter) || not (is_result_sink_ready h.adapter))

unfoldable pub poll : Action Host ControlDecision
poll = do
  now ← read_time
  lost ← gets has_lost_worker
  active ← gets λ (h : Host). (binding_status h.gate now).active
  if lost then (do withdraw_binding active; pure tt) else pure tt
  last ← gets λ (h : Host). h.last_time
  observe_time last

unfoldable pub request_cancel : OperationAuthority → Action Host ControlDecision
request_cancel authority = do
  poll
  now ← read_time
  decision ← ask (cancel authority now)
  apply_control authority decision
  pure decision
