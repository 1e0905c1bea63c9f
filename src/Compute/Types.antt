-- ===== src/Compute/Types.antt =====
-- The data of compute_execution.hpp, and of compute_process.hpp, whose class the host takes as an
-- interface: what a process does is up to the operating system and to the worker.
use Prim.Native.Char.{code}
use Prim.Native.String.{◌++◌ as text_append}
use robot_harness.HexText.{byte_size}
use robot_harness.Base.{
  ℕ, String, Bool, false, not, Option, none, some, ◌+◌, ◌-◌, ◌*◌, ◌/◌, ◌%◌, ◌&&◌, ◌||◌, ◌==◌, ltb,
  u64_max, is_empty, if◌then◌else◌, ◌^◌,
}
use robot_harness.Decimal.{to_string}
use robot_harness.Integer.{ℤ, pos, int_eq}
use robot_harness.Gate.Types.{
  OperationAuthority, BindingIdentity, AdmissionStatus, StartupEvidenceKind, binding_eq,
}
use robot_harness.Gate.State.{AuthorityGateConfig}

abbrev pub local_compute_profile : String
local_compute_profile = "host-polled-local-compute-v1"

pub record ComputeHostConfig : Type 0 where
  pub worker_executable : String
  pub maximum_iterations : ℕ
  pub stop_grace_ms : ℕ

pub record ComputeRequest : Type 0 where
  pub request_reference : String
  pub iterations : ℕ
  pub deadline : Option ℕ
  pub required_profile_id : String

pub record ComputeResult : Type 0 where
  pub operation_id : ℕ
  pub request_reference : String
  pub iterations : ℕ
  pub sum : ℕ

pub data ComputeSubmissionStatus : Type 0 where
  prepared submitted invalid_argument admission_blocked not_submitted : ComputeSubmissionStatus

pub record ComputeSubmission : Type 0 where
  pub status : ComputeSubmissionStatus
  pub admission_status : AdmissionStatus
  pub authority : Option OperationAuthority

-- `kOpen` is is_open: `open` is a reserved word.
pub data ComputeShutdownStatus : Type 0 where
  is_open closing closed unresolved : ComputeShutdownStatus

-- `kNone` is no_terminal.
pub data Terminal : Type 0 where
  no_terminal completed cancelled : Terminal

pub record ProcessObservation : Type 0 where
  pub launched : Bool
  pub started : Bool
  pub malformed : Bool
  pub event_eof : Bool
  pub channels_closed : Bool
  pub stop_requested : Bool
  pub stop_delivered : Bool
  pub stop_acknowledged : Bool
  pub stop_ignored : Bool
  pub termination_requested : Bool
  pub ownership_lost : Bool
  pub launch_error : ℤ
  pub io_error : ℤ
  pub stop_error : ℤ
  pub termination_error : ℤ
  pub child_pid : ℤ
  pub exit_status : Option ℤ
  pub progress : ℕ
  pub dropped_progress : ℕ
  pub terminal : Terminal
  pub terminal_iterations : ℕ
  pub terminal_value : ℕ
  pub stop_requested_at : Option ℕ

-- ComputeProcess, with the outside world in its state `X`; `exit_code s` is `WEXITSTATUS(s)` where
-- `WIFEXITED(s)`, and `terminating_signal s` is `WTERMSIG(s)` where `WIFSIGNALED(s)`.
pub record ComputeProcess (X : Type 0) : Type 0 where
  pub create : String → ℕ → ℕ → X
  pub launch : X → X × Bool
  pub request_stop : ℕ → X → X
  pub poll : ℕ → X → X
  pub close_channels : X → X × Bool
  pub observation : X → ProcessObservation
  pub exit_code : ℤ → Option ℤ
  pub terminating_signal : ℤ → Option ℤ

pub record ComputeObservation : Type 0 where
  pub launched : Bool
  pub started : Bool
  pub completed_iterations : ℕ
  pub dropped_progress : ℕ
  pub stop_sent : Bool
  pub stop_send_error : ℤ
  pub stop_requested_at : Option ℕ
  pub termination_requested : Bool
  pub protocol_error : Bool
  pub ownership_lost : Bool
  pub launch_error : ℤ
  pub system_error : ℤ
  pub child_process_id : ℤ
  pub exit_code : Option ℤ
  pub terminating_signal : Option ℤ
  pub cleanup_confirmed : Bool

-- `value == 0`.
abbrev pub is_zero : ℤ → Bool
is_zero value = int_eq value (pos 0)

-- `!path.empty() && path.front() == '/'`.
unfoldable pub is_absolute : String → Bool
is_absolute String.[] = false
is_absolute (String.◌∷◌ c _) = code c == b'/'

-- The test of the constructor.
unfoldable pub is_valid_config : ComputeHostConfig → Bool
is_valid_config config = not (
    not (is_absolute config.worker_executable)
    || config.maximum_iterations == 0
    || ltb 100000000 config.maximum_iterations
    || ltb 60000 config.stop_grace_ms)

-- The test of prepare.
unfoldable pub is_valid_compute_request : ComputeRequest → Bool
is_valid_compute_request request = not (
    is_empty request.request_reference
    || ltb 128 (byte_size request.request_reference)
    || request.iterations == 0
    || ltb 100000000 request.iterations
    || is_empty request.required_profile_id
    || ltb 128 (byte_size request.required_profile_id))

-- make_binding, at the value of its counter; `none` where it throws.
unfoldable pub make_binding : ℕ → Option BindingIdentity
make_binding generation =
    if generation == u64_max
    then none
    else some (record {
      provider_id = "local-compute-process";
      effect_domain = text_append "local-compute-result-" (to_string generation);
      composition_revision = 1;
      provider_generation = generation;
    })

abbrev pub capability : String
capability = "compute.periodic-square-sum"

abbrev pub observer_source : String
observer_source = "compute-adapter"

abbrev pub result_sink : String
result_sink = "compute-result-sink"

abbrev pub process_source : String
process_source = "compute-process"

abbrev pub stop_source : String
stop_source = "compute-control"

abbrev pub channel_scope : String
channel_scope = "child-exit-output-and-channels"

unfoldable pub make_gate_config : BindingIdentity → ℕ → AuthorityGateConfig
make_gate_config binding time = record {
  binding = binding;
  capability_id = capability;
  binding_observer = observer_source;
  worker_observer = observer_source;
  result_sink_observer = result_sink;
  native_evidence_source = process_source;
  settlement_evidence_source = observer_source;
  settlement_scope = channel_scope;
  started_at = time;
  stop_evidence_source = stop_source;
  readiness_kind = StartupEvidenceKind.adapter_ready;
  execution_capability_observer = observer_source;
}

unfoldable pub matches : OperationAuthority → OperationAuthority → Bool
matches left right =
    left.operation_id == right.operation_id
    && binding_eq left.binding right.binding
    && left.admitted_at == right.admitted_at

unfoldable pub expected_sum : ℕ → ℕ
expected_sum iterations =
    let remainder = iterations % 1000 in
    (iterations / 1000 * 332833500
      + (if remainder == 0 then 0 else (remainder - 1) * remainder * (2 * remainder - 1) / 6))
    % 2 ^ 64

unfoldable pub evidence_expiry : ℕ → ℕ
evidence_expiry time = if ltb (u64_max - 1000) time then u64_max else time + 1000
