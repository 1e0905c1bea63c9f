-- ===== src/Sample/Built/Control.antt =====
-- Expiry, withdrawal, cancellation and poll are built from the basic actions.
use robot_harness.Base.{ℕ, Option, none, some}
use robot_harness.Gate.Types.{
  OperationAuthority, ControlDecision, StopAcknowledgement, BindingIdentity,
}
use robot_harness.Sample.Control.{
  discard, discard_prepared, report_stop, apply_control, observe_time_of, observe_time,
  stop_withdrawn, withdraw_binding, poll, request_cancel,
}
use robot_harness.Sample.Built.{IsBuilt, built_rules}
use robot_harness.Sample.Built.Worker.{confirm_non_submission-IsBuilt, request_stop-IsBuilt}

discard-IsBuilt : (o : Option OperationAuthority) → IsBuilt (discard o)
unfolding discard
discard-IsBuilt none = search built_rules
discard-IsBuilt (some a) = search (built_rules, confirm_non_submission-IsBuilt)

pub discard_prepared-IsBuilt : IsBuilt discard_prepared
unfolding discard_prepared
discard_prepared-IsBuilt = search (built_rules, discard-IsBuilt)

report_stop-IsBuilt :
    (a : OperationAuthority) (o : Option StopAcknowledgement) → IsBuilt (report_stop a o)
unfolding report_stop
report_stop-IsBuilt a none = search built_rules
report_stop-IsBuilt a (some k) = search built_rules

apply_control-IsBuilt : (a : OperationAuthority) (d : ControlDecision) → IsBuilt (apply_control a d)
unfolding apply_control
apply_control-IsBuilt a d =
    search (built_rules, discard_prepared-IsBuilt, request_stop-IsBuilt, report_stop-IsBuilt) depth
      12 fits 5000

observe_time_of-IsBuilt : (o : Option OperationAuthority) (n : ℕ) → IsBuilt (observe_time_of o n)
unfolding observe_time_of
observe_time_of-IsBuilt none n = search built_rules
observe_time_of-IsBuilt (some a) n = search (built_rules, apply_control-IsBuilt)

pub observe_time-IsBuilt : (n : ℕ) → IsBuilt (observe_time n)
unfolding observe_time
observe_time-IsBuilt n = search (built_rules, observe_time_of-IsBuilt)

stop_withdrawn-IsBuilt : (o : Option OperationAuthority) → IsBuilt (stop_withdrawn o)
unfolding stop_withdrawn
stop_withdrawn-IsBuilt none = search built_rules
stop_withdrawn-IsBuilt (some a) = apply_control-IsBuilt a _

pub withdraw_binding-IsBuilt : (b : BindingIdentity) → IsBuilt (withdraw_binding b)
unfolding withdraw_binding
withdraw_binding-IsBuilt b =
    search (built_rules, discard_prepared-IsBuilt, stop_withdrawn-IsBuilt) depth 12 fits 5000

pub poll-IsBuilt : IsBuilt poll
unfolding poll
poll-IsBuilt =
    search (built_rules, withdraw_binding-IsBuilt, observe_time-IsBuilt) depth 14 fits 5000

pub request_cancel-IsBuilt : (a : OperationAuthority) → IsBuilt (request_cancel a)
unfolding request_cancel
request_cancel-IsBuilt a =
    search (built_rules, poll-IsBuilt, apply_control-IsBuilt) depth 12 fits 5000
