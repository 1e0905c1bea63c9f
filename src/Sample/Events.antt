-- ===== src/Sample/Events.antt =====
-- process_next and process_all of sample_execution.cpp: the staged events go to the gate, in order.
use robot_harness.Base.{
  ℕ, zero, suc, String, Bool, true, false, Option, none, some, List, [], ◌∷◌, ◌+◌, length,
  has_value, if◌then◌else◌,
}
use Prim.Native.String.{◌++◌ as text_append}
use robot_harness.Decimal.{to_string}
use robot_harness.Action.{Action, pure, gets, modify, ◌>>=◌, ◌>>◌, out_of_fuel}
use robot_harness.Gate.Types.{
  OperationAuthority, EvidenceRecord, NativeEventKind, OutputNonDeliveryReason,
}
use robot_harness.Gate.Output.{can_deliver_result}
use robot_harness.Gate.Calls.{non_submission, native, output, non_delivery, settlement}
use robot_harness.Sample.Types.{
  SampleResult, CallbackKind, ResultAcceptance, StagedEvent, settlement_scope,
}
use robot_harness.Sample.Host.{Host, read_time, tell}
use robot_harness.Sample.Worker.{accept_result}
use robot_harness.Sample.Control.{observe_time, poll}

abbrev pub settlement_source : String
settlement_source = "deterministic-sample-adapter"

abbrev pub native_source : String
native_source = "deterministic-sample-worker"

abbrev pub sink_source : String
sink_source = "managed-sample-result-sink"

-- The record of an event: the time of its staging and the callback's sequence number.
abbrev pub event_record : String → StagedEvent → EvidenceRecord
event_record source event = record {
  source = source;
  observed_at = event.observed_at;
  sequence = event.callback.sequence;
}

unfoldable pub handle_native : NativeEventKind → StagedEvent → Action Host (Unit {0})
handle_native kind event = tell (
    native (record {
      authority = event.callback.authority;
      native_identity = event.callback.native_identity;
      kind = kind;
      evidence = event_record native_source event;
    }))

unfoldable pub handle_not_submitted : StagedEvent → Action Host (Unit {0})
handle_not_submitted event = tell (
    non_submission (record {
      authority = event.callback.authority;
      evidence = event_record settlement_source event;
    }))

unfoldable pub handle_no_output : StagedEvent → Action Host (Unit {0})
handle_no_output event = tell (
    non_delivery (record {
      authority = event.callback.authority;
      reason = OutputNonDeliveryReason.no_output_produced;
      result_reference = "";
      evidence = event_record settlement_source event;
    }))

abbrev pub result_reference_of : OperationAuthority → String
result_reference_of authority = text_append "managed-result-" (to_string authority.operation_id)

abbrev pub sink_record : ℕ → EvidenceRecord
sink_record acceptance_time = record {
  source = sink_source;
  observed_at = acceptance_time;
  sequence = 1;
}

unfoldable pub report_non_delivery :
    OperationAuthority → OutputNonDeliveryReason → ℕ → Action Host (Unit {0})
report_non_delivery authority reason acceptance_time = tell (
    non_delivery (record {
      authority = authority;
      reason = reason;
      result_reference = result_reference_of authority;
      evidence = sink_record acceptance_time;
    }))

-- What the gate is told of the sink's answer.
unfoldable pub report_acceptance :
    OperationAuthority → ResultAcceptance → ℕ → Action Host (Unit {0})
report_acceptance authority ResultAcceptance.accepted acceptance_time = tell (
    output (record {
      authority = authority;
      result_reference = result_reference_of authority;
      evidence = sink_record acceptance_time;
    }))
report_acceptance authority ResultAcceptance.sink_unavailable acceptance_time =
    report_non_delivery authority OutputNonDeliveryReason.sink_rejected acceptance_time
report_acceptance authority ResultAcceptance.permission_denied acceptance_time =
    report_non_delivery authority OutputNonDeliveryReason.authority_revoked acceptance_time
report_acceptance authority ResultAcceptance.invalid acceptance_time = pure tt

-- accept_result, its permission the gate's.
unfoldable pub offer : OperationAuthority → SampleResult → Action Host ResultAcceptance
offer authority result = do
  permitted ← gets λ (h : Host). can_deliver_result h.gate authority
  accept_result authority result permitted

unfoldable pub deliver : OperationAuthority → Option SampleResult → Action Host (Unit {0})
deliver authority none = pure tt
deliver authority (some result) = do
  acceptance_time ← read_time
  observe_time acceptance_time
  acceptance ← offer authority result
  report_acceptance authority acceptance acceptance_time

unfoldable pub handle_settled : StagedEvent → Action Host (Unit {0})
handle_settled event = do
  settlement_time ← read_time
  observe_time settlement_time
  tell (
      settlement (record {
        authority = event.callback.authority;
        scope = settlement_scope;
        permits_same_domain_admission = true;
        evidence = record {
          source = settlement_source;
          observed_at = settlement_time;
          sequence = event.callback.sequence;
        };
      }))

-- The `switch` of process_next.
unfoldable pub handle : CallbackKind → StagedEvent → Action Host (Unit {0})
handle CallbackKind.not_submitted = handle_not_submitted
handle CallbackKind.accepted = handle_native NativeEventKind.accepted
handle CallbackKind.rejected = handle_native NativeEventKind.rejected
handle CallbackKind.started = handle_native NativeEventKind.started
handle CallbackKind.terminal_succeeded = handle_native NativeEventKind.terminal_succeeded
handle CallbackKind.terminal_failed = handle_native NativeEventKind.terminal_failed
handle CallbackKind.terminal_cancelled = handle_native NativeEventKind.terminal_cancelled
handle CallbackKind.no_output_produced = handle_no_output
handle CallbackKind.result = λ event. deliver event.callback.authority event.callback.result
handle CallbackKind.settled = handle_settled

unfoldable pub process_front : List StagedEvent → Action Host Bool
process_front [] = pure false
process_front (event ∷ rest) = do
  modify λ h. record h { staged_events = rest }
  handle event.callback.kind event
  pure true

unfoldable pub process_next : Action Host Bool
process_next = do poll; events ← gets λ (h : Host). h.staged_events; process_front events

-- `while (process_next()) {}`, at most so many rounds.
unfoldable pub process_events : ℕ → Action Host (Unit {0})
process_events zero = out_of_fuel
process_events (suc fuel) = do more ← process_next; if more then process_events fuel else pure tt

-- Three events can still be staged while a prepared operation is there.
unfoldable pub work_left : Host → ℕ
work_left h = length h.staged_events + (if has_value h.prepared_authority then 3 else 0)

-- A round more than there is work left.
unfoldable pub process_all : Action Host (Unit {0})
process_all = do rounds ← gets work_left; process_events (suc rounds)
