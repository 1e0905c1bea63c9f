-- ===== src/Sample/Rebind.antt =====
-- startup_evidence and rebind_provider of sample_execution.cpp. The `catch` of rebind_provider, which
-- withdraws the candidate, is not reached: nothing that the `try` calls throws.
use robot_harness.Base.{
  ℕ, String, Bool, true, false, not, Option, none, some, List, [], ◌∷◌, ◌+◌, ◌||◌, ◌==◌, u64_max,
  increment, has_value, if◌then◌else◌,
}
use robot_harness.Action.{Action, pure, gets, modify, ◌>>=◌, ◌>>◌}
use robot_harness.Gate.Types.{
  BindingIdentity, StartupEvidenceKind, BindingReadinessEvidence, BindingControlStatus,
  BindingDecision,
}
use robot_harness.Gate.Binding.{binding_status, decision}
use robot_harness.Gate.Calls.{startup, withdraw, begin, readiness, commits}
use robot_harness.Sample.Types.{
  StagedEvent, CompletionMode, Adapter, new_adapter, is_idle_and_settled, is_worker_ready,
  is_result_sink_ready, inherit_observations,
}
use robot_harness.Sample.Host.{Host, read_time, ask, tell}
use robot_harness.Sample.Control.{is_applied_binding, poll}
use robot_harness.Sample.Events.{settlement_source, native_source, sink_source}

-- One of the three sequences of observations.
pub data Observer : Type 0 where
  binding worker sink : Observer

abbrev pub source_of : Observer → String
source_of Observer.binding = settlement_source
source_of Observer.worker = native_source
source_of Observer.sink = sink_source

abbrev pub kind_of : Observer → StartupEvidenceKind
kind_of Observer.binding = StartupEvidenceKind.binding_idle_and_settled
kind_of Observer.worker = StartupEvidenceKind.worker_ready
kind_of Observer.sink = StartupEvidenceKind.result_sink_ready

abbrev pub sequence_of : Observer → Host → ℕ
sequence_of Observer.binding h = h.binding_observation_sequence
sequence_of Observer.worker h = h.worker_observation_sequence
sequence_of Observer.sink h = h.sink_observation_sequence

-- What an adapter says of the kind.
abbrev pub observed_by : Observer → Adapter → Bool
observed_by Observer.binding a = is_idle_and_settled a
observed_by Observer.worker a = is_worker_ready a
observed_by Observer.sink a = is_result_sink_ready a

abbrev pub count_observation : Observer → Host → Host
count_observation Observer.binding h = record h {
  binding_observation_sequence = increment h.binding_observation_sequence;
}
count_observation Observer.worker h = record h {
  worker_observation_sequence = increment h.worker_observation_sequence;
}
count_observation Observer.sink h = record h {
  sink_observation_sequence = increment h.sink_observation_sequence;
}

-- `++sequence`.
unfoldable pub next_sequence : Observer → Action Host ℕ
next_sequence o = do modify (count_observation o); gets (sequence_of o)

-- One call of observe_startup, in initialize.
unfoldable pub report_startup : Observer → Action Host (Unit {0})
report_startup o = do
  observed ← gets λ (h : Host). observed_by o h.adapter
  sequence ← next_sequence o
  active ← gets λ (h : Host). (binding_status h.gate h.last_time).active
  now ← read_time
  tell (
      startup (record {
        kind = kind_of o;
        binding = active;
        evidence = record { source = source_of o; observed_at = now; sequence = sequence };
        observed = observed;
      }))

abbrev pub readiness_evidence : Observer → BindingIdentity → Bool → ℕ → ℕ → BindingReadinessEvidence
readiness_evidence o identity observed now sequence = record {
  kind = kind_of o;
  binding = identity;
  evidence = record { source = source_of o; observed_at = now; sequence = sequence };
  observed = observed;
  valid_until = now + 1;
}

-- One call of observe_rebind_readiness.
unfoldable pub report_readiness : Observer → BindingIdentity → Adapter → ℕ → Action Host (Unit {0})
report_readiness o candidate replacement now = do
  sequence ← next_sequence o
  tell (readiness (readiness_evidence o candidate (observed_by o replacement) now sequence))

-- The new adapter takes the old one's observations; the old one is closed and dropped.
abbrev pub install : Adapter → Host → Host
install replacement h = record h { adapter = inherit_observations h.adapter replacement }

unfoldable pub commit_candidate : BindingIdentity → Adapter → ℕ → Action Host BindingDecision
commit_candidate candidate replacement now = do
  report_readiness Observer.binding candidate replacement now
  report_readiness Observer.worker candidate replacement now
  report_readiness Observer.sink candidate replacement now
  committed ← ask (commits candidate now)
  if not (is_applied_binding committed.status)
      then tell (withdraw candidate now)
      else modify (install replacement)
  pure committed

-- `if (begun.status != kApplied || !begun.candidate) return begun;`.
abbrev pub begun_candidate : BindingDecision → Option BindingIdentity
begun_candidate begun = if is_applied_binding begun.status then begun.candidate else none

unfoldable pub continue_rebind :
    BindingDecision → Option BindingIdentity → Adapter → ℕ → Action Host BindingDecision
continue_rebind begun none replacement now = pure begun
continue_rebind begun (some candidate) replacement now = commit_candidate candidate replacement now

abbrev pub has_events : List StagedEvent → Bool
has_events [] = false
has_events (_ ∷ _) = true

abbrev pub is_busy : Host → Bool
is_busy h =
    not (is_idle_and_settled h.adapter)
    || has_value h.prepared_authority
    || has_events h.staged_events

unfoldable pub begin_candidate :
    BindingIdentity → String → CompletionMode → ℕ → Action Host BindingDecision
begin_candidate expected_old_binding provider_id completion_mode now = do
  sequence ← next_sequence Observer.binding
  begun ← ask (
      begin expected_old_binding provider_id
        (readiness_evidence Observer.binding expected_old_binding true now sequence) now)
  continue_rebind begun (begun_candidate begun) (new_adapter completion_mode) now

unfoldable pub rebind_provider :
    BindingIdentity → String → CompletionMode → Action Host BindingDecision
rebind_provider expected_old_binding provider_id completion_mode = do
  poll
  now ← read_time
  shut ← gets λ (h : Host). h.is_shutdown
  busy ← gets is_busy
  if shut
      then pure (decision BindingControlStatus.closed)
      else if busy
      then pure (decision BindingControlStatus.unresolved_work)
      else if now == u64_max
      then pure (decision BindingControlStatus.invalid_time)
      else begin_candidate expected_old_binding provider_id completion_mode now
