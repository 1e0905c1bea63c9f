-- ===== src/Gate/State.antt =====
-- AuthorityGateConfig of authority_gate.hpp and the state, AuthorityGate::Implementation, of
-- authority_gate.cpp, with the members of it that read the state.
use robot_harness.Base.{
  ℕ, String, Bool, false, not, Option, none, some, ◌&&◌, ◌||◌, ltb, leb, max, is_empty, str_eq,
  ◌==◌, has_value, if◌then◌else◌,
}
use robot_harness.Gate.Types.{
  BindingIdentity, EvidenceRecord, InitializationState, StartupEvidenceKind, ExecutionCapabilities,
  OperationAuthority, BindingPhase, BindingReadinessEvidence, NativeEventKind, binding_eq,
}
use robot_harness.Gate.Types.Tests.{kind_eq, is_preparing_phase, is_released}
use robot_harness.Gate.Receipt.{
  OperationReceipt, authority_matches, latest_effect_time, latest_time, later_record,
}
use robot_harness.Gate.Disposition.{has_resolved_closure}

pub record AuthorityGateConfig : Type 0 where
  pub binding : BindingIdentity
  pub capability_id : String
  pub binding_observer : String
  pub worker_observer : String
  pub result_sink_observer : String
  pub native_evidence_source : String
  pub settlement_evidence_source : String
  pub settlement_scope : String
  pub started_at : ℕ
  pub stop_evidence_source : String
  pub readiness_kind : StartupEvidenceKind
  pub execution_capability_observer : String

pub record StartupFact : Type 0 where
  pub observed : Bool
  pub value : Bool
  pub evidence : Option EvidenceRecord  -- `record` in the source

pub record ReadinessFact : Type 0 where
  pub evidence : Option BindingReadinessEvidence
  pub conflicted : Bool

-- `readiness` is an array of three facts; its entries are the fields `idle`, `worker` and `sink`.
pub record Candidate : Type 0 where
  pub binding : BindingIdentity
  pub prepared_at : ℕ
  pub old_scope : BindingReadinessEvidence
  pub idle : ReadinessFact
  pub worker : ReadinessFact
  pub sink : ReadinessFact
  pub capabilities : Option ExecutionCapabilities
  pub capabilities_conflicted : Bool

pub record AuthorityGate : Type 0 where
  pub config : AuthorityGateConfig
  pub initialization_state : InitializationState
  pub binding_idle : StartupFact
  pub worker_ready : StartupFact
  pub result_sink_ready : StartupFact
  pub binding_phase : BindingPhase
  pub generation_high_water : ℕ
  pub last_binding_control_at : ℕ
  pub withdrawn_at : Option ℕ
  pub last_old_scope_record : Option EvidenceRecord
  pub candidate : Option Candidate
  pub next_operation_id : ℕ
  pub current_receipt : Option OperationReceipt
  pub last_native_record : Option EvidenceRecord
  pub last_native_kind : Option NativeEventKind
  pub execution_capabilities : Option ExecutionCapabilities

abbrev pub no_fact : StartupFact
no_fact = record { observed = false; value = false; evidence = none }

-- The test of the constructor: `true` where it throws std::invalid_argument.
unfoldable pub is_invalid_config : AuthorityGateConfig → Bool
is_invalid_config c =
    is_empty c.binding.provider_id
    || is_empty c.binding.effect_domain
    || c.binding.composition_revision == 0
    || c.binding.provider_generation == 0
    || is_empty c.capability_id
    || is_empty c.binding_observer
    || is_empty c.worker_observer
    || is_empty c.result_sink_observer
    || is_empty c.native_evidence_source
    || is_empty c.settlement_evidence_source
    || is_empty c.settlement_scope
    || is_empty c.stop_evidence_source
    || str_eq c.stop_evidence_source c.native_evidence_source
    || str_eq c.stop_evidence_source c.settlement_evidence_source
    || str_eq c.stop_evidence_source c.result_sink_observer
    || (not (kind_eq c.readiness_kind StartupEvidenceKind.worker_ready)
        && not (kind_eq c.readiness_kind StartupEvidenceKind.adapter_ready))

-- The state that Implementation's constructor and its member defaults set up.
unfoldable pub initial : AuthorityGateConfig → AuthorityGate
initial c = record {
  config = c;
  initialization_state = InitializationState.recovery_required;
  binding_idle = no_fact;
  worker_ready = no_fact;
  result_sink_ready = no_fact;
  binding_phase = BindingPhase.active;
  generation_high_water = c.binding.provider_generation;
  last_binding_control_at = c.started_at;
  withdrawn_at = none;
  last_old_scope_record = none;
  candidate = none;
  next_operation_id = 1;
  current_receipt = none;
  last_native_record = none;
  last_native_kind = none;
  execution_capabilities = none;
}

-- `AuthorityGate::AuthorityGate`; `none` where it throws.
unfoldable pub construct : AuthorityGateConfig → Option AuthorityGate
construct c = if is_invalid_config c then none else some (initial c)

unfoldable pub matches_receipt : AuthorityGateConfig → OperationReceipt → OperationAuthority → Bool
matches_receipt c r authority =
    binding_eq authority.binding c.binding && authority_matches r.authority authority

-- `current_authority_matches`, with the receipt that `*current_receipt` is after it has passed.
abbrev pub matching :
    AuthorityGateConfig → OperationAuthority → Option OperationReceipt → Option OperationReceipt
matching c authority none = none
matching c authority (some r) = if matches_receipt c r authority then some r else none

abbrev pub current : AuthorityGate → OperationAuthority → Option OperationReceipt
current g authority = matching g.config authority g.current_receipt

unfoldable pub current_authority_matches : AuthorityGate → OperationAuthority → Bool
current_authority_matches g authority = has_value (current g authority)

unfoldable pub current_is_releasable : AuthorityGate → Bool
current_is_releasable g = elim g.current_receipt [
  | none ↦ false
  | some r ↦ has_resolved_closure r && is_released r.authority_disposition
]

unfoldable pub old_work_closed : AuthorityGate → Bool
old_work_closed g = not (has_value g.current_receipt) || current_is_releasable g

unfoldable pub later_fact : ℕ → ReadinessFact → ℕ
later_fact time fact = elim fact.evidence [ none ↦ time | some e ↦ max time e.evidence.observed_at ]

unfoldable pub later_capabilities : ℕ → Option ExecutionCapabilities → ℕ
later_capabilities time none = time
later_capabilities time (some c) = max time c.evidence.observed_at

-- `if (candidate) { … }` of latest_binding_time.
unfoldable pub later_candidate : ℕ → Option Candidate → ℕ
later_candidate time none = time
later_candidate time (some c) =
    later_capabilities (later_fact (later_fact (later_fact time c.idle) c.worker) c.sink)
      c.capabilities

-- `if (current_receipt) { … }` of latest_binding_time.
unfoldable pub later_receipt : ℕ → Option OperationReceipt → ℕ
later_receipt time none = time
later_receipt time (some r) = max time (latest_time r)

unfoldable pub latest_binding_time : AuthorityGate → ℕ
latest_binding_time g =
    later_candidate
      (later_capabilities
        (later_record
          (later_record
            (later_record (later_receipt g.last_binding_control_at g.current_receipt)
              g.binding_idle.evidence)
            g.worker_ready.evidence)
          g.result_sink_ready.evidence)
        g.execution_capabilities)
      g.candidate

-- One round of can_commit's loop over the readiness facts.
unfoldable pub is_current_fact : ℕ → ReadinessFact → Bool
is_current_fact now fact = elim fact.evidence [
  | none ↦ false
  | some e ↦
      not fact.conflicted && e.observed && leb e.evidence.observed_at now && ltb now e.valid_until
]

-- The capability part of can_commit.
unfoldable pub are_current_capabilities : AuthorityGateConfig → ℕ → Candidate → Bool
are_current_capabilities config now c =
    is_empty config.execution_capability_observer || elim c.capabilities [
      | none ↦ false
      | some caps ↦
          not c.capabilities_conflicted
          && caps.available
          && leb caps.evidence.observed_at now
          && ltb now caps.valid_until
    ]

-- `current_receipt && old_scope.record.observed_at < latest_effect_time(*current_receipt)`.
unfoldable pub scope_precedes_effects : Option OperationReceipt → Candidate → Bool
scope_precedes_effects none c = false
scope_precedes_effects (some r) c = ltb c.old_scope.evidence.observed_at (latest_effect_time r)

-- can_commit, at the candidate that it has found.
unfoldable pub can_commit_candidate : AuthorityGate → ℕ → Candidate → Bool
can_commit_candidate g now c =
    is_preparing_phase g.binding_phase
    && leb (latest_binding_time g) now
    && old_work_closed g
    && ltb now c.old_scope.valid_until
    && not (scope_precedes_effects g.current_receipt c)
    && is_current_fact now c.idle
    && is_current_fact now c.worker
    && is_current_fact now c.sink
    && are_current_capabilities g.config now c

unfoldable pub can_commit : AuthorityGate → ℕ → Bool
can_commit g now = elim g.candidate [ none ↦ false | some c ↦ can_commit_candidate g now c ]

-- What a handler does with the current receipt: it returns and leaves it, or writes it.
pub data Reply (D : Type 0) : Type 0 where
  keep : D → Reply D
  update : OperationReceipt → D → Reply D

-- The receipt after the handler, and what the handler returns.
abbrev pub replied : {D : Type 0} → OperationReceipt → Reply D → Option OperationReceipt × D
replied r (keep d) = (some r, d)
replied r (update r' d) = (some r', d)

-- `if (!current_authority_matches(authority)) return refused;`, then the handler.
abbrev pub respond :
    {D : Type 0}
    → AuthorityGateConfig
    → OperationAuthority
    → D
    → (OperationReceipt → Reply D)
    → Option OperationReceipt
    → Option OperationReceipt × D
respond c authority refused handler none = (none, refused)
respond c authority refused handler (some r) =
    if matches_receipt c r authority then replied r (handler r) else (some r, refused)

-- The same at the gate, whose only member that may change is the receipt.
abbrev pub reply :
    {D : Type 0}
    → AuthorityGate
    → OperationAuthority
    → D
    → (OperationReceipt → Reply D)
    → AuthorityGate × D
reply g authority refused handler =
    let answer = respond g.config authority refused handler g.current_receipt in
    (record g { current_receipt = answer.0 }, answer.1)
