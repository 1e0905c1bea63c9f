-- ===== src/Sample/Built/Events.antt =====
-- The processing of staged events is built from the basic actions.
use robot_harness.Base.{ℕ, Option, none, some, List, [], ◌∷◌}
use robot_harness.Gate.Types.{OperationAuthority, NativeEventKind}
use robot_harness.Sample.Types.{SampleResult, CallbackKind, ResultAcceptance, StagedEvent}
use robot_harness.Sample.Events.{
  handle_native, handle_not_submitted, handle_no_output, report_non_delivery, report_acceptance,
  deliver, handle_settled, handle, process_front, process_next, process_all,
}
use robot_harness.Sample.Built.{IsBuilt, built_rules, drains}
use robot_harness.Sample.Built.Control.{observe_time-IsBuilt, poll-IsBuilt}

report_acceptance-IsBuilt :
    (a : OperationAuthority) (k : ResultAcceptance) (n : ℕ) → IsBuilt (report_acceptance a k n)
unfolding report_acceptance report_non_delivery
report_acceptance-IsBuilt a ResultAcceptance.accepted n = search built_rules
report_acceptance-IsBuilt a ResultAcceptance.sink_unavailable n = search built_rules
report_acceptance-IsBuilt a ResultAcceptance.permission_denied n = search built_rules
report_acceptance-IsBuilt a ResultAcceptance.invalid n = search built_rules

deliver-IsBuilt : (a : OperationAuthority) (o : Option SampleResult) → IsBuilt (deliver a o)
unfolding deliver
deliver-IsBuilt a none = search built_rules
deliver-IsBuilt a (some r) =
    search (built_rules, observe_time-IsBuilt, report_acceptance-IsBuilt) depth 14 fits 5000

handle_settled-IsBuilt : (e : StagedEvent) → IsBuilt (handle_settled e)
unfolding handle_settled
handle_settled-IsBuilt e = search (built_rules, observe_time-IsBuilt)

handle_native-IsBuilt : (k : NativeEventKind) (e : StagedEvent) → IsBuilt (handle_native k e)
unfolding handle_native
handle_native-IsBuilt k e = search built_rules

handle-IsBuilt : (k : CallbackKind) (e : StagedEvent) → IsBuilt (handle k e)
unfolding handle handle_not_submitted handle_no_output
handle-IsBuilt CallbackKind.not_submitted e = search built_rules
handle-IsBuilt CallbackKind.no_output_produced e = search built_rules
handle-IsBuilt CallbackKind.result e = deliver-IsBuilt _ _
handle-IsBuilt CallbackKind.settled e = handle_settled-IsBuilt e
handle-IsBuilt _ e = handle_native-IsBuilt _ e

process_front-IsBuilt : (es : List StagedEvent) → IsBuilt (process_front es)
unfolding process_front
process_front-IsBuilt [] = search built_rules
process_front-IsBuilt (e ∷ es) = search (built_rules, handle-IsBuilt) depth 12 fits 5000

pub process_next-IsBuilt : IsBuilt process_next
unfolding process_next
process_next-IsBuilt = search (built_rules, poll-IsBuilt, process_front-IsBuilt)

pub process_all-IsBuilt : IsBuilt process_all
process_all-IsBuilt = drains process_next-IsBuilt
