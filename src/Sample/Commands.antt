-- ===== src/Sample/Commands.antt =====
-- The public member functions of SampleExecutionHost that change it, and its destructor.
use robot_harness.Base.{
  ℕ, String, Bool, true, false, not, Option, none, some, List, [], ◌∷◌, ◌&&◌, ◌||◌, ◌==◌,
  if◌then◌else◌,
}
use robot_harness.Action.{Action, pure, gets, modify, on_throw, ◌>>=◌, ◌>>◌}
use robot_harness.Gate.Types.{
  BindingIdentity, BindingStatus, OperationAuthority, OperationRequest, AdmissionStatus,
  AdmissionDecision, StartupStatus, binding_eq,
}
use robot_harness.Gate.Startup.{startup_status}
use robot_harness.Gate.Binding.{binding_status}
use robot_harness.Gate.Calls.{admits, claim, close}
use robot_harness.Sample.Types.{
  SampleRequest, SampleSubmission, SampleSubmissionStatus, CompletionMode, CancellationMode,
  NativeCallback, is_deferred, is_valid_request, retained_result, set_result_replay_enabled,
  close_adapter,
}
use robot_harness.Sample.Host.{Host, read_time, ask, tell, adapt}
use robot_harness.Sample.Worker.{dispatch, complete_pending, drain_pending}
use robot_harness.Sample.Control.{
  has_lost_worker, discard_prepared, observe_time, withdraw_binding, poll, request_cancel,
}
use robot_harness.Sample.Events.{sink_source, process_next, process_all}
use robot_harness.Sample.Rebind.{Observer, report_startup, rebind_provider}

unfoldable pub initialize : Action Host StartupStatus
initialize = do
  lost ← gets has_lost_worker
  if lost then (do poll; pure tt) else pure tt
  report_startup Observer.binding
  report_startup Observer.worker
  report_startup Observer.sink
  gets λ (h : Host). startup_status h.gate

unfoldable pub read_binding_status : Action Host BindingStatus
read_binding_status = do now ← read_time; gets λ (h : Host). binding_status h.gate now

abbrev pub operation_request : SampleRequest → ℕ → OperationRequest
operation_request request requested_at = record {
  capability_id = "sample.square";
  effect_domain = "managed-sample-result";
  opaque_request_reference = request.request_reference;
  target_reference = sink_source;
  requested_at = requested_at;
  deadline = request.deadline;
  execution_requirements = none;
}

abbrev pub is_admitted : AdmissionStatus → Bool
is_admitted AdmissionStatus.admitted = true
is_admitted _ = false

-- The authority of an admission that has both the status and the authority.
abbrev pub admitted_authority : AdmissionDecision → Option OperationAuthority
admitted_authority admission = if is_admitted admission.status then admission.authority else none

abbrev pub submission_of : SampleSubmissionStatus → AdmissionDecision → SampleSubmission
submission_of status admission = record {
  status = status;
  admission_status = admission.status;
  authority = admission.authority;
}

-- A `SampleSubmission submission;`.
abbrev pub invalid_submission : SampleSubmission
invalid_submission = record {
  status = SampleSubmissionStatus.invalid_argument;
  admission_status = AdmissionStatus.invalid_request;
  authority = none;
}

unfoldable pub keep_prepared :
    SampleRequest → AdmissionDecision → Option OperationAuthority → Action Host SampleSubmission
keep_prepared request admission none =
    pure (submission_of SampleSubmissionStatus.admission_blocked admission)
keep_prepared request admission (some authority) = do
  modify λ h. record h {
    current_authority = some authority;
    prepared_authority = some authority;
    prepared_request = some request;
  }
  pure (submission_of SampleSubmissionStatus.prepared admission)

unfoldable pub prepare : SampleRequest → Action Host SampleSubmission
prepare request = do
  poll
  if not (is_valid_request request) then pure invalid_submission else do
    requested_at ← read_time
    observe_time requested_at
    admission ← ask (admits (operation_request request requested_at))
    keep_prepared request admission (admitted_authority admission)

-- `prepared_authority` is there and agrees with the authority in each of its three members.
abbrev pub is_prepared_for : Option OperationAuthority → OperationAuthority → Bool
is_prepared_for none authority = false
is_prepared_for (some prepared) authority =
    prepared.operation_id == authority.operation_id
    && binding_eq prepared.binding authority.binding
    && prepared.admitted_at == authority.admitted_at

abbrev pub is_absent : Option OperationAuthority → Bool
is_absent none = true
is_absent (some _) = false

-- One staged event, or all of them, by the adapter's mode.
unfoldable pub process_dispatched : Action Host (Unit {0})
process_dispatched = do
  mode ← gets λ (h : Host). h.adapter.completion_mode
  if is_deferred mode then (do process_next; pure tt) else process_all

-- The permission that dispatch_prepared hands to the adapter.
unfoldable pub claim_now : OperationAuthority → Action Host Bool
claim_now authority = do
  dispatch_time ← read_time
  observe_time dispatch_time
  ask (claim authority dispatch_time)

-- The request to dispatch, where dispatch_prepared goes on.
abbrev pub dispatchable : OperationAuthority → Host → Option SampleRequest
dispatchable authority h =
    if h.is_shutdown || not (is_prepared_for h.prepared_authority authority)
    then none
    else h.prepared_request

unfoldable pub dispatch_request : OperationAuthority → Option SampleRequest → Action Host Bool
dispatch_request authority none = pure false
dispatch_request authority (some request) = do
  modify λ h. record h { prepared_request = none; prepared_authority = none }
  dispatched ← dispatch authority request (claim_now authority)
  process_dispatched
  pure dispatched

unfoldable pub dispatch_prepared : OperationAuthority → Action Host Bool
dispatch_prepared authority = do
  was_prepared ← gets λ (h : Host). is_prepared_for h.prepared_authority authority
  poll
  gone ← gets λ (h : Host). is_absent h.prepared_authority
  if was_prepared && gone
      then (do process_dispatched; pure false)
      else do request ← gets (dispatchable authority); dispatch_request authority request

abbrev pub dispatched_status : Bool → SampleSubmissionStatus
dispatched_status true = SampleSubmissionStatus.submitted
dispatched_status false = SampleSubmissionStatus.dispatch_blocked

unfoldable pub submit_prepared :
    SampleSubmission
    → SampleSubmissionStatus
    → Option OperationAuthority
    → Action Host SampleSubmission
submit_prepared submission SampleSubmissionStatus.prepared (some authority) = do
  dispatched ← dispatch_prepared authority
  pure (record submission { status = dispatched_status dispatched })
submit_prepared submission _ _ = pure submission

unfoldable pub submit : SampleRequest → Action Host SampleSubmission
submit request = do
  submission ← prepare request
  submit_prepared submission submission.status submission.authority

-- push_front of the retained callback.
unfoldable pub stage_retained : Option NativeCallback → Action Host Bool
stage_retained none = pure false
stage_retained (some callback) = do
  now ← read_time
  modify λ h. record h {
    staged_events = record { callback = callback; observed_at = now } ∷ h.staged_events;
  }
  pure true

unfoldable pub replay_retained_result : Action Host Bool
replay_retained_result = do
  callback ← gets λ (h : Host). retained_result h.adapter
  stage_retained callback

unfoldable pub complete_deferred : Action Host Bool
complete_deferred = do poll; complete_pending

unfoldable pub close_host : Action Host (Unit {0})
close_host = do
  adapt λ a. record (close_adapter a) { has_callback = false }
  modify λ h. record h { is_shutdown = true }

unfoldable pub shutdown : Action Host (Unit {0})
shutdown = do
  done ← gets λ (h : Host). h.is_shutdown
  if done
      then pure tt
      else do poll; tell close; discard_prepared; drain_pending; process_all; close_host

-- The destructor of Implementation.
unfoldable pub destroy : Action Host (Unit {0})
destroy = on_throw shutdown (adapt λ a. close_adapter (record a { has_callback = false }))

-- The calls of a client, as data; a query that does not read the clock changes nothing.
pub data Command : Type 0 where
  initializes reads_binding polls completes processes_next processes_all shuts_down : Command
  withdraws : BindingIdentity → Command
  rebinds : BindingIdentity → String → CompletionMode → Command
  prepares submits : SampleRequest → Command
  dispatches cancels : OperationAuthority → Command
  sets_worker sets_sink : Bool → Command
  rejects_next fails_next replays : Command
  sets_cancellation : CancellationMode → Command
  sets_settlement sets_replay : Bool → Command

-- The answer is dropped.
abbrev pub ignore : {A : Type 0} → Action Host A → Action Host (Unit {0})
ignore m = m >>= λ _. pure tt

unfoldable pub execute : Command → Action Host (Unit {0})
execute Command.initializes = ignore initialize
execute Command.reads_binding = ignore read_binding_status
execute Command.polls = ignore poll
execute Command.completes = ignore complete_deferred
execute Command.processes_next = ignore process_next
execute Command.processes_all = process_all
execute Command.shuts_down = shutdown
execute (Command.withdraws expected) = ignore (withdraw_binding expected)
execute (Command.rebinds expected provider mode) = ignore (rebind_provider expected provider mode)
execute (Command.prepares request) = ignore (prepare request)
execute (Command.submits request) = ignore (submit request)
execute (Command.dispatches authority) = ignore (dispatch_prepared authority)
execute (Command.cancels authority) = ignore (request_cancel authority)
execute (Command.sets_worker ready) = adapt λ a. record a { worker_ready = ready }
execute (Command.sets_sink ready) = adapt λ a. record a { result_sink_ready = ready }
execute Command.rejects_next = adapt λ a. record a { rejects_next = true }
execute Command.fails_next = adapt λ a. record a { fails_next = true }
execute Command.replays = ignore replay_retained_result
execute (Command.sets_cancellation mode) = adapt λ a. record a { cancellation_mode = mode }
execute (Command.sets_settlement enabled) =
    adapt λ a. record a { settlement_reporting_enabled = enabled }
execute (Command.sets_replay enabled) = adapt (set_result_replay_enabled enabled)

-- One command after another; a client that catches an exception goes on with the host it left.
unfoldable pub execute_all : List Command → Host → Host
execute_all [] h = h
execute_all (c ∷ cs) h = execute_all cs (execute c h).1
