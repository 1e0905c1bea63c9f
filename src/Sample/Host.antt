-- ===== src/Sample/Host.antt =====
-- SampleExecutionHost::Implementation of sample_execution.cpp: its members, its clock, its calls of
-- the gate and the staging of the adapter's callbacks.
use robot_harness.Base.{
  ℕ, Bool, true, false, not, Option, none, some, List, [], ◌∷◌, ◌++◌, ◌+◌, ◌&&◌, ◌||◌, ltb,
  has_value, if◌then◌else◌,
}
use robot_harness.Action.{Action, returned, thrown, pure, gets, modify, ◌>>=◌, ◌>>◌}
use robot_harness.Gate.Types.{OperationAuthority}
use robot_harness.Gate.State.{AuthorityGate, construct}
use robot_harness.Gate.Calls.{Call, apply}
use robot_harness.Gate.Answers.{Answer, answer}
use robot_harness.Sample.Types.{
  SampleRequest, SampleResult, CompletionMode, CallbackKind, NativeCallback, StagedEvent, WorkItem,
  Adapter, new_adapter, gate_config,
}

-- `clock n` is what the clock returns when it is called for the n-th time, from 0; `ticks` counts
-- its calls.
pub record Host : Type 0 where
  pub clock : ℕ → ℕ
  pub ticks : ℕ
  pub last_time : ℕ
  pub has_read_time : Bool
  pub gate : AuthorityGate
  pub adapter : Adapter
  pub staged_events : List StagedEvent
  pub current_authority : Option OperationAuthority
  pub prepared_authority : Option OperationAuthority
  pub prepared_request : Option SampleRequest
  pub binding_observation_sequence : ℕ
  pub worker_observation_sequence : ℕ
  pub sink_observation_sequence : ℕ
  pub is_shutdown : Bool

-- The constructor, with a clock: it reads the time once. `none` where the gate's constructor throws.
unfoldable pub host : CompletionMode → (ℕ → ℕ) → Option Host
host mode clock = elim (construct (gate_config (clock 0))) [
  | none ↦ none
  | some g ↦ some (record {
    clock = clock;
    ticks = 1;
    last_time = clock 0;
    has_read_time = true;
    gate = g;
    adapter = new_adapter mode;
    staged_events = [];
    current_authority = none;
    prepared_authority = none;
    prepared_request = none;
    binding_observation_sequence = 0;
    worker_observation_sequence = 0;
    sink_observation_sequence = 0;
    is_shutdown = false;
  })
]

-- It throws where the clock has moved backwards.
unfoldable pub read_time : Action Host ℕ
read_time h =
    let current = h.clock h.ticks in
    let asked = record h { ticks = h.ticks + 1 } in
    if h.has_read_time && ltb current h.last_time
    then (thrown, asked)
    else (returned current, record asked { has_read_time = true; last_time = current })

-- A call of a member function of the gate.
unfoldable pub ask : (c : Call) → Action Host (Answer c)
ask c h = (returned (answer h.gate c), record h { gate = apply h.gate c })

unfoldable pub tell : Call → Action Host (Unit {0})
tell c h = (returned tt, record h { gate = apply h.gate c })

-- A change of the adapter's members.
unfoldable pub adapt : (Adapter → Adapter) → Action Host (Unit {0})
adapt f = modify λ h. record h { adapter = f h.adapter }

unfoldable pub stage : NativeCallback → ℕ → Action Host (Unit {0})
stage callback at = modify λ h. record h {
  staged_events = h.staged_events ++ record { callback = callback; observed_at = at } ∷ [];
}

abbrev pub is_settled_kind : CallbackKind → Bool
is_settled_kind CallbackKind.settled = true
is_settled_kind _ = false

abbrev pub is_result_kind : CallbackKind → Bool
is_result_kind CallbackKind.result = true
is_result_kind _ = false

-- The first result is retained for a replay.
unfoldable pub retain : NativeCallback → Adapter → Adapter
retain callback a =
    if is_result_kind callback.kind && a.result_replay_enabled && not (has_value a.replay_result)
    then record a { replay_result = some callback }
    else a

-- emit does nothing: the settlement is not reported, or no callback is set.
abbrev pub is_silent : CallbackKind → Adapter → Bool
is_silent kind a =
    (is_settled_kind kind && not a.settlement_reporting_enabled) || not a.has_callback

unfoldable pub emit_with :
    WorkItem → CallbackKind → ℕ → Option SampleResult → Action Host (Unit {0})
emit_with work kind sequence result = do
  silent ← gets λ (h : Host). is_silent kind h.adapter
  let callback : NativeCallback = record {
    kind = kind;
    authority = work.authority;
    native_identity = work.native_identity;
    sequence = sequence;
    result = result;
  }
  if silent then pure tt else do adapt (retain callback); now ← read_time; stage callback now

abbrev pub emit : WorkItem → CallbackKind → ℕ → Action Host (Unit {0})
emit work kind sequence = emit_with work kind sequence none
