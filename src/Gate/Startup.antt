-- ===== src/Gate/Startup.antt =====
-- observe_startup, startup_status and close_admission of authority_gate.cpp.
use robot_harness.Base.{
  String, Bool, true, not, Option, none, some, ◌&&◌, ◌||◌, ◌==◌, ltb, bool_eq, has_value,
  if◌then◌else◌,
}
use robot_harness.Gate.Types.{
  EvidenceRecord, EvidenceDisposition, InitializationState, StartupEvidenceKind, StartupEvidence,
  StartupStatus, BindingPhase, binding_eq,
}
use robot_harness.Gate.Types.Tests.{kind_eq, is_closed, is_active_phase}
use robot_harness.Gate.Receipt.{records_match, is_record_well_formed}
use robot_harness.Gate.State.{AuthorityGate, StartupFact}
use robot_harness.Gate.Native.{duplicate_if}

-- What the pointer `fact` may point at.
pub data FactSlot : Type 0 where
  binding_idle worker_ready result_sink_ready : FactSlot

abbrev pub get_fact : FactSlot → AuthorityGate → StartupFact
get_fact FactSlot.binding_idle g = g.binding_idle
get_fact FactSlot.worker_ready g = g.worker_ready
get_fact FactSlot.result_sink_ready g = g.result_sink_ready

abbrev pub set_fact : FactSlot → StartupFact → AuthorityGate → AuthorityGate
set_fact FactSlot.binding_idle f g = record g { binding_idle = f }
set_fact FactSlot.worker_ready f g = record g { worker_ready = f }
set_fact FactSlot.result_sink_ready f g = record g { result_sink_ready = f }

-- The `switch` on the kind: the fact and the source expected; `none` where it returns kRejected.
unfoldable pub startup_slot : AuthorityGate → StartupEvidenceKind → Option (FactSlot × String)
startup_slot g StartupEvidenceKind.binding_idle_and_settled =
    some (FactSlot.binding_idle, g.config.binding_observer)
startup_slot g StartupEvidenceKind.worker_ready =
    if not (kind_eq StartupEvidenceKind.worker_ready g.config.readiness_kind)
    then none
    else some (FactSlot.worker_ready, g.config.worker_observer)
startup_slot g StartupEvidenceKind.adapter_ready =
    if not (kind_eq StartupEvidenceKind.adapter_ready g.config.readiness_kind)
    then none
    else some (FactSlot.worker_ready, g.config.worker_observer)
startup_slot g StartupEvidenceKind.result_sink_ready =
    some (FactSlot.result_sink_ready, g.config.result_sink_observer)

-- The comparison with the record that the fact has; `some d` where observe_startup returns `d`.
unfoldable pub startup_order : StartupFact → StartupEvidence → Option EvidenceDisposition
startup_order fact e = elim fact.evidence [
  | none ↦ none
  | some r ↦
      if ltb e.evidence.sequence r.sequence || ltb e.evidence.observed_at r.observed_at
      then some EvidenceDisposition.rejected
      else if e.evidence.sequence == r.sequence
      then some (duplicate_if (records_match e.evidence r && bool_eq e.observed fact.value))
      else none
]

abbrev pub holds : StartupFact → Bool
holds fact = fact.observed && fact.value

-- The last `if` of observe_startup.
unfoldable pub update_initialization : AuthorityGate → AuthorityGate
update_initialization g = record g {
  initialization_state =
      if holds g.binding_idle && holds g.worker_ready && holds g.result_sink_ready
      then InitializationState.ready
      else InitializationState.recovery_required;
}

unfoldable pub startup_at :
    AuthorityGate → StartupEvidence → FactSlot → String → AuthorityGate × EvidenceDisposition
unfolding update_initialization startup_order
startup_at g e slot expected_source =
    if not (is_record_well_formed e.evidence expected_source g.config.started_at)
    then (g, EvidenceDisposition.rejected)
    else elim (startup_order (get_fact slot g) e) [
      | some d ↦ (g, d)
      | none ↦ (
        update_initialization (
            set_fact slot
              (record { observed = true; value = e.observed; evidence = some e.evidence }) g),
        EvidenceDisposition.accepted,
      )
    ]

-- The first guard of observe_startup.
unfoldable pub refuses_startup : AuthorityGate → StartupEvidence → Bool
refuses_startup g e =
    not (is_active_phase g.binding_phase)
    || is_closed g.initialization_state
    || has_value g.current_receipt
    || not (binding_eq e.binding g.config.binding)

unfoldable pub observe_startup :
    AuthorityGate → StartupEvidence → AuthorityGate × EvidenceDisposition
observe_startup g e =
    if refuses_startup g e
    then (g, EvidenceDisposition.rejected)
    else elim (startup_slot g e.kind) [
      | none ↦ (g, EvidenceDisposition.rejected)
      | some (slot, expected_source) ↦ startup_at g e slot expected_source
    ]

-- `if (fact.observed) status.field = fact.record;`
abbrev pub observed_record : StartupFact → Option EvidenceRecord
observed_record fact = if fact.observed then fact.evidence else none

unfoldable pub startup_status : AuthorityGate → StartupStatus
startup_status g = record {
  state = g.initialization_state;
  binding = g.config.binding;
  is_binding_idle_and_settled = holds g.binding_idle;
  is_worker_ready = reads_worker && holds g.worker_ready;
  is_result_sink_ready = holds g.result_sink_ready;
  binding_idle_and_settled = observed_record g.binding_idle;
  worker_ready = if reads_worker then observed_record g.worker_ready else none;
  result_sink_ready = observed_record g.result_sink_ready;
  is_adapter_ready =
      kind_eq g.config.readiness_kind StartupEvidenceKind.adapter_ready && holds g.worker_ready;
  adapter_ready = if reads_worker then none else observed_record g.worker_ready;
}
  where
    reads_worker : Bool
    reads_worker = kind_eq g.config.readiness_kind StartupEvidenceKind.worker_ready

unfoldable pub close_admission : AuthorityGate → AuthorityGate
close_admission g = record g {
  initialization_state = InitializationState.closed;
  binding_phase = BindingPhase.closed;
  candidate = none;
}
