-- ===== src/Gate/Rebind.antt =====
-- begin_rebind and commit_rebind of authority_gate.cpp.
use robot_harness.Base.{
  ℕ, String, Bool, true, false, not, Option, none, some, ◌+◌, ◌&&◌, ◌||◌, ◌==◌, ltb, leb, max,
  u64_max, is_empty, has_value, value_or, if◌then◌else◌,
}
use robot_harness.Gate.Types.{
  BindingIdentity, EvidenceRecord, InitializationState, StartupEvidenceKind, BindingPhase,
  BindingControlStatus, BindingReadinessEvidence, BindingDecision, binding_eq,
}
use robot_harness.Gate.Types.Tests.{kind_eq, is_active_phase, is_withdrawn_phase, is_closed_phase}
use robot_harness.Gate.Receipt.{is_record_well_formed, latest_effect_time}
use robot_harness.Gate.State.{
  AuthorityGate, Candidate, ReadinessFact, StartupFact, latest_binding_time, old_work_closed,
  can_commit,
}
use robot_harness.Gate.Binding.{decision}

-- `earliest` of begin_rebind. `*withdrawn_at` is there: the phase is kWithdrawn.
unfoldable pub earliest_scope_time : AuthorityGate → ℕ
earliest_scope_time g = elim g.current_receipt [
  | none ↦ value_or 0 g.withdrawn_at
  | some r ↦ max (value_or 0 g.withdrawn_at) (latest_effect_time r)
]

unfoldable pub is_invalid_scope : AuthorityGate → BindingReadinessEvidence → ℕ → Bool
is_invalid_scope g e now =
    not (binding_eq e.binding g.config.binding)
    || not (kind_eq e.kind StartupEvidenceKind.binding_idle_and_settled)
    || not e.observed
    || not (is_record_well_formed e.evidence g.config.binding_observer (earliest_scope_time g))
    || ltb now e.evidence.observed_at
    || leb e.valid_until now

-- One round of the loop over the two earlier records.
unfoldable pub is_superseded : Option EvidenceRecord → EvidenceRecord → Bool
is_superseded none e = false
is_superseded (some p) e = leb e.sequence p.sequence || ltb e.observed_at p.observed_at

abbrev pub no_readiness : ReadinessFact
no_readiness = record { evidence = none; conflicted = false }

unfoldable pub new_candidate : AuthorityGate → String → BindingReadinessEvidence → ℕ → Candidate
new_candidate g new_provider_id evidence now = record {
  binding = record (g.config.binding) {
    provider_id = new_provider_id;
    provider_generation = g.generation_high_water + 1;
  };
  prepared_at = now;
  old_scope = evidence;
  idle = no_readiness;
  worker = no_readiness;
  sink = no_readiness;
  capabilities = none;
  capabilities_conflicted = false;
}

-- The end of begin_rebind. The high-water mark is below 2^64 - 1, so `++` does not wrap.
unfoldable pub prepare : AuthorityGate → Candidate → ℕ → AuthorityGate × BindingDecision
prepare g k now = (
  record g {
    candidate = some k;
    last_old_scope_record = some k.old_scope.evidence;
    generation_high_water = g.generation_high_water + 1;
    last_binding_control_at = now;
    binding_phase = BindingPhase.preparing;
  },
  record {
    status = BindingControlStatus.applied;
    candidate = some k.binding;
    native_stop_authority = none;
  },
)

unfoldable pub begin_rebind :
    AuthorityGate
    → BindingIdentity
    → String
    → BindingReadinessEvidence
    → ℕ
    → AuthorityGate × BindingDecision
begin_rebind g expected_old_binding new_provider_id e now =
    if is_closed_phase g.binding_phase
    then (g, decision BindingControlStatus.closed)
    else if not (binding_eq expected_old_binding g.config.binding)
    then (g, decision BindingControlStatus.stale_identity)
    else if ltb now (latest_binding_time g)
    then (g, decision BindingControlStatus.invalid_time)
    else elim g.candidate [
      | some k ↦ (
        g,
        record {
          status = BindingControlStatus.already_in_phase;
          candidate = some k.binding;
          native_stop_authority = none;
        },
      )
      | none ↦
          if not (is_withdrawn_phase g.binding_phase)
          then (g, decision BindingControlStatus.wrong_phase)
          else if not (old_work_closed g)
          then (g, decision BindingControlStatus.unresolved_work)
          else if is_empty new_provider_id
          then (g, decision BindingControlStatus.invalid_provider)
          else if is_invalid_scope g e now
              || is_superseded g.binding_idle.evidence e.evidence
              || is_superseded g.last_old_scope_record e.evidence
          then (g, decision BindingControlStatus.invalid_evidence)
          else if g.generation_high_water == u64_max
          then (g, decision BindingControlStatus.identity_exhausted)
          else prepare g (new_candidate g new_provider_id e now) now
    ]

-- `facts[i] = {true, true, readiness[i].evidence->record}`; can_commit has found the evidence.
abbrev pub committed_fact : ReadinessFact → StartupFact
committed_fact fact = record {
  observed = true;
  value = true;
  evidence = elim fact.evidence [ none ↦ none | some e ↦ some e.evidence ];
}

unfoldable pub commit : AuthorityGate → Candidate → ℕ → AuthorityGate
commit g k now = record g {
  config = record (g.config) { binding = k.binding };
  binding_idle = committed_fact k.idle;
  worker_ready = committed_fact k.worker;
  result_sink_ready = committed_fact k.sink;
  execution_capabilities = k.capabilities;
  last_old_scope_record = none;
  candidate = none;
  last_binding_control_at = now;
  initialization_state = InitializationState.ready;
  binding_phase = BindingPhase.active;
}

unfoldable pub commit_rebind : AuthorityGate → BindingIdentity → ℕ → AuthorityGate × BindingDecision
commit_rebind g expected_candidate now =
    if is_closed_phase g.binding_phase
    then (g, decision BindingControlStatus.closed)
    else if ltb now (latest_binding_time g)
    then (g, decision BindingControlStatus.invalid_time)
    else elim g.candidate [
      | none ↦ (
        g,
        decision (
            if is_active_phase g.binding_phase
              && has_value g.withdrawn_at
              && binding_eq expected_candidate g.config.binding
            then BindingControlStatus.already_in_phase
            else BindingControlStatus.stale_identity),
      )
      | some k ↦
          if not (binding_eq expected_candidate k.binding)
          then (g, decision BindingControlStatus.stale_identity)
          else if not (old_work_closed g)
          then (g, decision BindingControlStatus.unresolved_work)
          else if not (can_commit g now)
          then (g, decision BindingControlStatus.invalid_evidence)
          else (commit g k now, decision BindingControlStatus.applied)
    ]
