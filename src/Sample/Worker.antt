-- ===== src/Sample/Worker.antt =====
-- The operations of DeterministicSampleAdapter in sample_execution.cpp that report to the host.
use robot_harness.Base.{
  Bool, true, false, not, Option, none, some, [], ◌∷◌, ◌++◌, ◌&&◌, ◌==◌, has_value, increment,
  if◌then◌else◌,
}
use Prim.Native.String.{◌++◌ as text_append}
use robot_harness.Decimal.{to_string}
use robot_harness.Action.{Action, pure, gets, ◌>>=◌, ◌>>◌}
use robot_harness.Gate.Types.{OperationAuthority, StopAcknowledgement, binding_eq}
use robot_harness.Sample.Types.{
  SampleRequest, SampleResult, CancellationMode, CallbackKind, ResultAcceptance, WorkItem,
  is_worker_ready, is_result_sink_ready, is_deferred, result_of,
}
use robot_harness.Sample.Host.{Host, adapt, emit, emit_with}

abbrev pub work_for : OperationAuthority → SampleRequest → WorkItem
work_for authority request = record {
  authority = authority;
  request = request;
  native_identity = text_append "native-sample-" (to_string authority.operation_id);
  is_cancelled = false;
}

-- The reports of work that was not submitted.
unfoldable pub deny : WorkItem → Action Host (Unit {0})
deny work = do
  emit work CallbackKind.not_submitted 1
  emit work CallbackKind.no_output_produced 2
  emit work CallbackKind.settled 3

unfoldable pub finish : WorkItem → Action Host (Unit {0})
finish work =
    if work.is_cancelled
    then (do
      emit work CallbackKind.terminal_cancelled 2
      emit work CallbackKind.no_output_produced 1
      emit work CallbackKind.settled 2)
    else do
      adapt λ a. record a { execution_count = increment a.execution_count }
      emit work CallbackKind.started 2
      fails ← gets λ (h : Host). h.adapter.fails_next
      if fails
          then (do
            adapt λ a. record a { fails_next = false }
            emit work CallbackKind.terminal_failed 3
            emit work CallbackKind.no_output_produced 1
            emit work CallbackKind.settled 2)
          else do
            emit work CallbackKind.terminal_succeeded 3
            emit_with work CallbackKind.result 4 (some (result_of work))
            emit work CallbackKind.settled 5

-- dispatch, once the permission is given.
unfoldable pub submit_work : WorkItem → Action Host Bool
submit_work work = do
  adapt λ a. record a { submission_count = increment a.submission_count }
  rejects ← gets λ (h : Host). h.adapter.rejects_next
  if rejects
      then (do
        adapt λ a. record a { rejects_next = false }
        emit work CallbackKind.rejected 1
        emit work CallbackKind.no_output_produced 1
        emit work CallbackKind.settled 2
        pure true)
      else do
        emit work CallbackKind.accepted 1
        mode ← gets λ (h : Host). h.adapter.completion_mode
        if is_deferred mode then (adapt λ a. record a { pending_work = some work }) else finish work
        pure true

unfoldable pub dispatch : OperationAuthority → SampleRequest → Action Host Bool → Action Host Bool
dispatch authority request permission = do
  let work : WorkItem = work_for authority request
  able ← gets λ (h : Host).
      is_worker_ready h.adapter
      && is_result_sink_ready h.adapter
      && not (has_value h.adapter.pending_work)
  permitted ← if able then permission else pure false
  if permitted then submit_work work else do deny work; pure false

-- `pending_work_` is the work of this authority.
abbrev pub is_work_of : Option WorkItem → OperationAuthority → Bool
is_work_of none authority = false
is_work_of (some work) authority =
    work.authority.operation_id == authority.operation_id
    && binding_eq work.authority.binding authority.binding
    && work.authority.admitted_at == authority.admitted_at

abbrev pub cancelled_work : Option WorkItem → Option WorkItem
cancelled_work none = none
cancelled_work (some work) = some (record work { is_cancelled = true })

-- The `switch` of request_stop.
unfoldable pub answer_stop : CancellationMode → Action Host (Option StopAcknowledgement)
answer_stop CancellationMode.cooperative = do
  adapt λ a. record a { pending_work = cancelled_work a.pending_work }
  pure (some StopAcknowledgement.acknowledged)
answer_stop CancellationMode.ignore = pure (some StopAcknowledgement.acknowledged)
answer_stop CancellationMode.refuse = pure (some StopAcknowledgement.refused)
answer_stop CancellationMode.unavailable = pure (some StopAcknowledgement.unavailable)
answer_stop CancellationMode.no_acknowledgement = pure none

unfoldable pub request_stop : OperationAuthority → Action Host (Option StopAcknowledgement)
request_stop authority = do
  adapt λ a. record a { stop_request_count = increment a.stop_request_count }
  a ← gets λ (h : Host). h.adapter
  if is_work_of a.pending_work authority
      then answer_stop a.cancellation_mode
      else pure (some StopAcknowledgement.unavailable)

-- `WorkItem work; work.authority = authority;`.
abbrev pub bare_work : OperationAuthority → WorkItem
bare_work authority = record {
  authority = authority;
  request = record { request_reference = ""; values = []; deadline = none };
  native_identity = "";
  is_cancelled = false;
}

unfoldable pub confirm_non_submission : OperationAuthority → Action Host (Unit {0})
confirm_non_submission authority = deny (bare_work authority)

-- The pending work, taken out and finished.
unfoldable pub take_pending : Option WorkItem → Action Host Bool
take_pending none = pure false
take_pending (some work) = do adapt λ a. record a { pending_work = none }; finish work; pure true

-- DeterministicSampleAdapter::complete_deferred.
unfoldable pub complete_pending : Action Host Bool
complete_pending = do
  a ← gets λ (h : Host). h.adapter
  if a.is_closed then pure false else take_pending a.pending_work

unfoldable pub drain_pending : Action Host (Unit {0})
drain_pending = do a ← gets λ (h : Host). h.adapter; take_pending a.pending_work; pure tt

-- accept_result, with the answer of its permission.
unfoldable pub accept_result :
    OperationAuthority → SampleResult → Bool → Action Host ResultAcceptance
accept_result authority result permitted =
    if not (result.operation_id == authority.operation_id)
    then pure ResultAcceptance.invalid
    else if not permitted
    then (do
      adapt λ a. record a {
        result_permission_denial_count = increment a.result_permission_denial_count;
      }
      pure ResultAcceptance.permission_denied)
    else do
      ready ← gets λ (h : Host). is_result_sink_ready h.adapter
      if not ready then pure ResultAcceptance.sink_unavailable else do
        adapt λ a. record a { results = a.results ++ result ∷ [] }
        pure ResultAcceptance.accepted
