-- ===== src/Sample/Types.antt =====
-- The data of sample_execution.hpp, and of the adapter and the events in sample_execution.cpp.
use robot_harness.Base.{
  ℕ, String, Bool, true, false, not, Option, none, List, [], ◌∷◌, ◌&&◌, ◌||◌, ltb, is_empty,
  has_value, length, if◌then◌else◌,
}
use robot_harness.Integer.{ℤ, pos, negsuc, int_ltb, ◌+ℤ◌, ◌*ℤ◌}
use robot_harness.Gate.Types.{
  BindingIdentity, OperationAuthority, AdmissionStatus, StartupEvidenceKind,
}
use robot_harness.Gate.State.{AuthorityGateConfig}

pub record SampleRequest : Type 0 where
  pub request_reference : String
  pub values : List ℤ
  pub deadline : Option ℕ

pub record SampleResult : Type 0 where
  pub operation_id : ℕ
  pub request_reference : String
  pub squared_values : List ℤ
  pub sum_of_squares : ℤ

pub data CompletionMode : Type 0 where
  synchronous deferred : CompletionMode

pub data CancellationMode : Type 0 where
  cooperative ignore refuse unavailable no_acknowledgement : CancellationMode

pub data SampleSubmissionStatus : Type 0 where
  prepared submitted invalid_argument admission_blocked dispatch_blocked : SampleSubmissionStatus

pub record SampleSubmission : Type 0 where
  pub status : SampleSubmissionStatus
  pub admission_status : AdmissionStatus
  pub authority : Option OperationAuthority

-- kMaximumSampleValues; a value's bounds are -10000 and 10000.
abbrev pub maximum_sample_values : ℕ
maximum_sample_values = 16

abbrev pub is_in_range : ℤ → Bool
is_in_range value = not (int_ltb value (negsuc 9999) || int_ltb (pos 10000) value)

unfoldable pub are_in_range : List ℤ → Bool
are_in_range [] = true
are_in_range (v ∷ vs) = is_in_range v && are_in_range vs

unfoldable pub is_valid_request : SampleRequest → Bool
is_valid_request request =
    not (
      is_empty request.request_reference
      || not (ltb 0 (length request.values))
      || ltb maximum_sample_values (length request.values))
    && are_in_range request.values

pub data CallbackKind : Type 0 where
  not_submitted accepted rejected started terminal_succeeded terminal_failed : CallbackKind
  terminal_cancelled no_output_produced result settled : CallbackKind

pub data ResultAcceptance : Type 0 where
  accepted sink_unavailable invalid permission_denied : ResultAcceptance

pub record NativeCallback : Type 0 where
  pub kind : CallbackKind
  pub authority : OperationAuthority
  pub native_identity : String
  pub sequence : ℕ
  pub result : Option SampleResult

pub record StagedEvent : Type 0 where
  pub callback : NativeCallback
  pub observed_at : ℕ

pub record WorkItem : Type 0 where
  pub authority : OperationAuthority
  pub request : SampleRequest
  pub native_identity : String
  pub is_cancelled : Bool

-- DeterministicSampleAdapter; its callback, where it is set, stages an event at the host.
pub record Adapter : Type 0 where
  pub completion_mode : CompletionMode
  pub has_callback : Bool
  pub worker_ready : Bool
  pub result_sink_ready : Bool
  pub is_closed : Bool
  pub rejects_next : Bool
  pub fails_next : Bool
  pub cancellation_mode : CancellationMode
  pub settlement_reporting_enabled : Bool
  pub result_replay_enabled : Bool
  pub replay_result : Option NativeCallback
  pub result_permission_denial_count : ℕ
  pub stop_request_count : ℕ
  pub pending_work : Option WorkItem
  pub results : List SampleResult
  pub submission_count : ℕ
  pub execution_count : ℕ

-- A new adapter, its callback set.
unfoldable pub new_adapter : CompletionMode → Adapter
new_adapter mode = record {
  completion_mode = mode;
  has_callback = true;
  worker_ready = true;
  result_sink_ready = true;
  is_closed = false;
  rejects_next = false;
  fails_next = false;
  cancellation_mode = CancellationMode.cooperative;
  settlement_reporting_enabled = true;
  result_replay_enabled = false;
  replay_result = none;
  result_permission_denial_count = 0;
  stop_request_count = 0;
  pending_work = none;
  results = [];
  submission_count = 0;
  execution_count = 0;
}

abbrev pub is_idle_and_settled : Adapter → Bool
is_idle_and_settled a = not (has_value a.pending_work)

abbrev pub is_worker_ready : Adapter → Bool
is_worker_ready a = a.worker_ready && not a.is_closed

abbrev pub is_result_sink_ready : Adapter → Bool
is_result_sink_ready a = a.result_sink_ready && not a.is_closed

abbrev pub is_deferred : CompletionMode → Bool
is_deferred CompletionMode.synchronous = false
is_deferred CompletionMode.deferred = true

abbrev pub retained_result : Adapter → Option NativeCallback
retained_result a = if a.is_closed then none else a.replay_result

unfoldable pub set_result_replay_enabled : Bool → Adapter → Adapter
set_result_replay_enabled enabled a = record a {
  result_replay_enabled = enabled;
  replay_result = none;
}

-- DeterministicSampleAdapter::close.
unfoldable pub close_adapter : Adapter → Adapter
close_adapter a = if a.is_closed then a else record a {
  worker_ready = false;
  result_sink_ready = false;
  replay_result = none;
  result_replay_enabled = false;
  is_closed = true;
}

unfoldable pub inherit_observations : Adapter → Adapter → Adapter
inherit_observations old a = record a {
  results = old.results;
  replay_result = old.replay_result;
  result_replay_enabled = old.result_replay_enabled;
  result_permission_denial_count = old.result_permission_denial_count;
  stop_request_count = old.stop_request_count;
  submission_count = old.submission_count;
  execution_count = old.execution_count;
}

-- The result that finish computes: the squares, and their sum.
unfoldable pub squares : List ℤ → List ℤ
squares [] = []
squares (v ∷ vs) = v *ℤ v ∷ squares vs

unfoldable pub add_squares : ℤ → List ℤ → ℤ
add_squares sum [] = sum
add_squares sum (v ∷ vs) = add_squares (sum +ℤ v *ℤ v) vs

unfoldable pub result_of : WorkItem → SampleResult
unfolding squares add_squares
result_of work = record {
  operation_id = work.authority.operation_id;
  request_reference = work.request.request_reference;
  squared_values = squares work.request.values;
  sum_of_squares = add_squares (pos 0) work.request.values;
}

abbrev pub sample_binding : BindingIdentity
sample_binding = record {
  provider_id = "deterministic-sample-worker";
  effect_domain = "managed-sample-result";
  composition_revision = 1;
  provider_generation = 1;
}

abbrev pub settlement_scope : String
settlement_scope = "worker-callbacks-and-managed-result"

-- The configuration of the host's gate.
unfoldable pub gate_config : ℕ → AuthorityGateConfig
gate_config started_at = record {
  binding = sample_binding;
  capability_id = "sample.square";
  binding_observer = "deterministic-sample-adapter";
  worker_observer = "deterministic-sample-worker";
  result_sink_observer = "managed-sample-result-sink";
  native_evidence_source = "deterministic-sample-worker";
  settlement_evidence_source = "deterministic-sample-adapter";
  settlement_scope = settlement_scope;
  started_at = started_at;
  stop_evidence_source = "native-stop";
  readiness_kind = StartupEvidenceKind.worker_ready;
  execution_capability_observer = "";
}
