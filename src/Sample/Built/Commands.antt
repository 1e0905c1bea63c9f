-- ===== src/Sample/Built/Commands.antt =====
-- Every command of a client is built from the basic actions.
use robot_harness.Base.{ℕ, Bool, Option, none, some, ◌≡◌, arith}
use robot_harness.Gate.Types.{OperationAuthority, AdmissionDecision}
use robot_harness.Gate.Calls.{claim}
use robot_harness.Sample.Types.{
  SampleRequest, SampleSubmission, SampleSubmissionStatus, NativeCallback, Adapter,
  set_result_replay_enabled, close_adapter,
}
use robot_harness.Sample.Host.{ask}
use robot_harness.Sample.Commands.{
  initialize, read_binding_status, keep_prepared, prepare, process_dispatched, claim_now,
  dispatch_request, dispatch_prepared, submit_prepared, submit, stage_retained,
  replay_retained_result, complete_deferred, close_host, shutdown, Command, execute,
}
use robot_harness.Sample.Built.{IsBuilt, asks, built_rules}
use robot_harness.Sample.Built.Worker.{
  dispatch-IsBuilt, complete_pending-IsBuilt, drain_pending-IsBuilt,
}
use robot_harness.Sample.Built.Control.{
  discard_prepared-IsBuilt, observe_time-IsBuilt, withdraw_binding-IsBuilt, poll-IsBuilt,
  request_cancel-IsBuilt,
}
use robot_harness.Sample.Built.Events.{process_next-IsBuilt, process_all-IsBuilt}
use robot_harness.Sample.Built.Rebind.{report_startup-IsBuilt, rebind_provider-IsBuilt}

initialize-IsBuilt : IsBuilt initialize
unfolding initialize
initialize-IsBuilt = search (built_rules, poll-IsBuilt, report_startup-IsBuilt) depth 14 fits 5000

read_binding_status-IsBuilt : IsBuilt read_binding_status
unfolding read_binding_status
read_binding_status-IsBuilt = search built_rules

keep_prepared-IsBuilt :
    (q : SampleRequest) (d : AdmissionDecision) (o : Option OperationAuthority)
    → IsBuilt (keep_prepared q d o)
unfolding keep_prepared
keep_prepared-IsBuilt q d none = search built_rules
keep_prepared-IsBuilt q d (some a) = search built_rules

prepare-IsBuilt : (q : SampleRequest) → IsBuilt (prepare q)
unfolding prepare
prepare-IsBuilt q =
    search (built_rules, poll-IsBuilt, observe_time-IsBuilt, keep_prepared-IsBuilt) depth 14 fits
      5000

process_dispatched-IsBuilt : IsBuilt process_dispatched
unfolding process_dispatched
process_dispatched-IsBuilt =
    search (built_rules, process_next-IsBuilt, process_all-IsBuilt) depth 14 fits 5000

claim_call-IsBuilt : (a : OperationAuthority) (n : ℕ) → IsBuilt {A = Bool} (ask (claim a n))
claim_call-IsBuilt a n = asks (claim a n)

claim_now-IsBuilt : (a : OperationAuthority) → IsBuilt (claim_now a)
unfolding claim_now
claim_now-IsBuilt a = search (built_rules, observe_time-IsBuilt, claim_call-IsBuilt)

dispatch_request-IsBuilt :
    (a : OperationAuthority) (o : Option SampleRequest) → IsBuilt (dispatch_request a o)
unfolding dispatch_request
dispatch_request-IsBuilt a none = search built_rules
dispatch_request-IsBuilt a (some q) =
    search
      (
        built_rules,
        dispatch-IsBuilt a q (claim_now a),
        claim_now-IsBuilt,
        process_dispatched-IsBuilt,
      )
      depth 14 fits 5000

dispatch_prepared-IsBuilt : (a : OperationAuthority) → IsBuilt (dispatch_prepared a)
unfolding dispatch_prepared
dispatch_prepared-IsBuilt a =
    search (built_rules, poll-IsBuilt, process_dispatched-IsBuilt, dispatch_request-IsBuilt) depth
      14 fits 5000

submit_prepared-IsBuilt :
    (b : SampleSubmission) (k : SampleSubmissionStatus) (o : Option OperationAuthority)
    → IsBuilt (submit_prepared b k o)
unfolding submit_prepared
submit_prepared-IsBuilt b SampleSubmissionStatus.prepared (some a) =
    search (built_rules, dispatch_prepared-IsBuilt)
submit_prepared-IsBuilt b _ _ = search built_rules

submit-IsBuilt : (q : SampleRequest) → IsBuilt (submit q)
unfolding submit
submit-IsBuilt q = search (built_rules, prepare-IsBuilt, submit_prepared-IsBuilt)

stage_retained-IsBuilt : (o : Option NativeCallback) → IsBuilt (stage_retained o)
unfolding stage_retained
stage_retained-IsBuilt none = search built_rules
stage_retained-IsBuilt (some c) = search built_rules depth 12

replay_retained_result-IsBuilt : IsBuilt replay_retained_result
unfolding replay_retained_result
replay_retained_result-IsBuilt = search (built_rules, stage_retained-IsBuilt)

complete_deferred-IsBuilt : IsBuilt complete_deferred
unfolding complete_deferred
complete_deferred-IsBuilt = search (built_rules, poll-IsBuilt, complete_pending-IsBuilt)

close_adapter-results : (a : Adapter) → (close_adapter a).results ≡ a.results
unfolding close_adapter
close_adapter-results a = ground arith

close_host-IsBuilt : IsBuilt close_host
unfolding close_host
close_host-IsBuilt = search (built_rules, close_adapter-results)

pub shutdown-IsBuilt : IsBuilt shutdown
unfolding shutdown
shutdown-IsBuilt =
    search
      (
        built_rules, poll-IsBuilt, discard_prepared-IsBuilt, drain_pending-IsBuilt,
        process_all-IsBuilt, close_host-IsBuilt,
      )
      depth 16 fits 5000

pub execute-IsBuilt : (c : Command) → IsBuilt (execute c)
unfolding execute set_result_replay_enabled
execute-IsBuilt Command.processes_all = process_all-IsBuilt
execute-IsBuilt Command.shuts_down = shutdown-IsBuilt
execute-IsBuilt Command.initializes = search (built_rules, initialize-IsBuilt)
execute-IsBuilt Command.reads_binding = search (built_rules, read_binding_status-IsBuilt)
execute-IsBuilt Command.polls = search (built_rules, poll-IsBuilt)
execute-IsBuilt Command.completes = search (built_rules, complete_deferred-IsBuilt)
execute-IsBuilt Command.processes_next = search (built_rules, process_next-IsBuilt)
execute-IsBuilt (Command.withdraws b) = search (built_rules, withdraw_binding-IsBuilt)
execute-IsBuilt (Command.rebinds b p m) = search (built_rules, rebind_provider-IsBuilt)
execute-IsBuilt (Command.prepares q) = search (built_rules, prepare-IsBuilt)
execute-IsBuilt (Command.submits q) = search (built_rules, submit-IsBuilt)
execute-IsBuilt (Command.dispatches a) = search (built_rules, dispatch_prepared-IsBuilt)
execute-IsBuilt (Command.cancels a) = search (built_rules, request_cancel-IsBuilt)
execute-IsBuilt Command.replays = search (built_rules, replay_retained_result-IsBuilt)
execute-IsBuilt (Command.sets_worker b) = search built_rules
execute-IsBuilt (Command.sets_sink b) = search built_rules
execute-IsBuilt Command.rejects_next = search built_rules
execute-IsBuilt Command.fails_next = search built_rules
execute-IsBuilt (Command.sets_cancellation m) = search built_rules
execute-IsBuilt (Command.sets_settlement b) = search built_rules
execute-IsBuilt (Command.sets_replay b) = search built_rules
