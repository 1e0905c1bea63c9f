-- ===== src/Sample/Lessens/Polling.antt =====
-- Polling, and the handling of an event, add no work.
use robot_harness.Base.{ℕ, Bool, Option, none, some}
use robot_harness.Action.Rules.{Relates}
use robot_harness.Gate.Types.{
  OperationAuthority, ControlDecision, StopAcknowledgement, BindingIdentity, NativeEventKind,
}
use robot_harness.Sample.Types.{
  SampleResult, ResultAcceptance, CallbackKind, StagedEvent, CancellationMode,
}
use robot_harness.Sample.Worker.{answer_stop, request_stop, accept_result}
use robot_harness.Sample.Control.{
  report_stop, apply_control, observe_time_of, observe_time, stop_withdrawn, withdraw_binding, poll,
}
use robot_harness.Sample.Events.{
  handle_native, handle_not_submitted, handle_no_output, report_non_delivery, report_acceptance,
  offer, deliver, handle_settled, handle,
}
use robot_harness.Sample.Lessens.{Lessens, lessens_rules, discard_prepared-Lessens}

answer_stop-Lessens : (m : CancellationMode) → Relates Lessens (answer_stop m)
unfolding answer_stop
answer_stop-Lessens CancellationMode.cooperative = search lessens_rules
answer_stop-Lessens _ = search lessens_rules

request_stop-Lessens : (a : OperationAuthority) → Relates Lessens (request_stop a)
unfolding request_stop
request_stop-Lessens a = search (lessens_rules, answer_stop-Lessens)

report_stop-Lessens :
    (a : OperationAuthority) (o : Option StopAcknowledgement) → Relates Lessens (report_stop a o)
unfolding report_stop
report_stop-Lessens a none = search lessens_rules
report_stop-Lessens a (some k) = search lessens_rules

apply_control-Lessens :
    (a : OperationAuthority) (d : ControlDecision) → Relates Lessens (apply_control a d)
unfolding apply_control
apply_control-Lessens a d =
    search (lessens_rules, discard_prepared-Lessens, request_stop-Lessens, report_stop-Lessens)
      depth 12 fits 5000

observe_time_of-Lessens :
    (o : Option OperationAuthority) (n : ℕ) → Relates Lessens (observe_time_of o n)
unfolding observe_time_of
observe_time_of-Lessens none n = search lessens_rules
observe_time_of-Lessens (some a) n = search (lessens_rules, apply_control-Lessens)

observe_time-Lessens : (n : ℕ) → Relates Lessens (observe_time n)
unfolding observe_time
observe_time-Lessens n = search (lessens_rules, observe_time_of-Lessens)

stop_withdrawn-Lessens : (o : Option OperationAuthority) → Relates Lessens (stop_withdrawn o)
unfolding stop_withdrawn
stop_withdrawn-Lessens none = search lessens_rules
stop_withdrawn-Lessens (some a) = apply_control-Lessens a _

withdraw_binding-Lessens : (b : BindingIdentity) → Relates Lessens (withdraw_binding b)
unfolding withdraw_binding
withdraw_binding-Lessens b =
    search (lessens_rules, discard_prepared-Lessens, stop_withdrawn-Lessens) depth 12 fits 5000

pub poll-Lessens : Relates Lessens poll
unfolding poll
poll-Lessens =
    search (lessens_rules, withdraw_binding-Lessens, observe_time-Lessens) depth 14 fits 5000

accept_result-Lessens :
    (a : OperationAuthority) (r : SampleResult) (b : Bool) → Relates Lessens (accept_result a r b)
unfolding accept_result
accept_result-Lessens a r b = search lessens_rules depth 14 fits 5000

report_acceptance-Lessens :
    (a : OperationAuthority) (k : ResultAcceptance) (n : ℕ)
    → Relates Lessens (report_acceptance a k n)
unfolding report_acceptance report_non_delivery
report_acceptance-Lessens a ResultAcceptance.accepted n = search lessens_rules
report_acceptance-Lessens a ResultAcceptance.sink_unavailable n = search lessens_rules
report_acceptance-Lessens a ResultAcceptance.permission_denied n = search lessens_rules
report_acceptance-Lessens a ResultAcceptance.invalid n = search lessens_rules

deliver-Lessens : (a : OperationAuthority) (o : Option SampleResult) → Relates Lessens (deliver a o)
unfolding deliver offer
deliver-Lessens a none = search lessens_rules
deliver-Lessens a (some r) =
    search (lessens_rules, observe_time-Lessens, accept_result-Lessens, report_acceptance-Lessens)
      depth 14 fits 5000

handle_settled-Lessens : (e : StagedEvent) → Relates Lessens (handle_settled e)
unfolding handle_settled
handle_settled-Lessens e = search (lessens_rules, observe_time-Lessens)

handle_native-Lessens :
    (k : NativeEventKind) (e : StagedEvent) → Relates Lessens (handle_native k e)
unfolding handle_native
handle_native-Lessens k e = search lessens_rules

pub handle-Lessens : (k : CallbackKind) (e : StagedEvent) → Relates Lessens (handle k e)
unfolding handle handle_not_submitted handle_no_output
handle-Lessens CallbackKind.not_submitted e = search lessens_rules
handle-Lessens CallbackKind.no_output_produced e = search lessens_rules
handle-Lessens CallbackKind.result e = deliver-Lessens _ _
handle-Lessens CallbackKind.settled e = handle_settled-Lessens e
handle-Lessens _ e = handle_native-Lessens _ e
