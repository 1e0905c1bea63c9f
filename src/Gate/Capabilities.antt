-- ===== src/Gate/Capabilities.antt =====
-- observe_execution_capabilities and supports_execution of authority_gate.cpp.
use robot_harness.Base.{
  ℕ, Bool, true, false, not, Option, none, some, ◌&&◌, ◌||◌, ◌==◌, ltb, leb, max, str_eq, is_empty,
  bool_eq, if◌then◌else◌,
}
use robot_harness.Gate.Types.{
  EvidenceDisposition, ExecutionRequirements, ExecutionCapabilities, binding_eq,
}
use robot_harness.Gate.Types.Tests.{is_closed, is_active_phase, is_preparing_phase}
use robot_harness.Gate.Receipt.{records_match, is_record_well_formed}
use robot_harness.Gate.State.{AuthorityGateConfig, AuthorityGate, Candidate}
use robot_harness.Gate.Native.{duplicate_if}

-- The comparison of two reports under one sequence number, without the capability.
unfoldable pub is_same_report : ExecutionCapabilities → ExecutionCapabilities → Bool
is_same_report c p =
    records_match c.evidence p.evidence
    && str_eq c.profile_id p.profile_id
    && c.maximum_work_units == p.maximum_work_units
    && bool_eq c.available p.available
    && c.valid_until == p.valid_until

-- `identical` in the part for the candidate, where the capability is compared too.
unfoldable pub is_identical_report : ExecutionCapabilities → ExecutionCapabilities → Bool
is_identical_report c p = str_eq c.capability_id p.capability_id && is_same_report c p

-- The report does not describe the gate's capability, or describes an empty interval.
unfoldable pub is_ill_formed_report : AuthorityGateConfig → ExecutionCapabilities → Bool
is_ill_formed_report config c =
    not (str_eq c.capability_id config.capability_id)
    || is_empty c.profile_id
    || c.maximum_work_units == 0
    || leb c.valid_until c.evidence.observed_at

-- A conflicting report marks the candidate, and moves the time of the one it had.
unfoldable pub conflict : Candidate → ExecutionCapabilities → ExecutionCapabilities → Candidate
conflict k p c = record k {
  capabilities_conflicted = true;
  capabilities = some (record p {
    evidence = record (p.evidence) {
      observed_at = max p.evidence.observed_at c.evidence.observed_at;
    };
  });
}

-- The end of the part for the candidate.
unfoldable pub store_candidate_report :
    AuthorityGateConfig → Candidate → ExecutionCapabilities → Candidate × EvidenceDisposition
store_candidate_report config k c =
    if is_ill_formed_report config c then (k, EvidenceDisposition.rejected) else (
      record k { capabilities = some c; capabilities_conflicted = false },
      EvidenceDisposition.accepted,
    )

-- `if (candidate.capabilities) { … }` and what follows.
unfoldable pub compare_candidate_report :
    AuthorityGateConfig
    → Candidate
    → ExecutionCapabilities
    → Option ExecutionCapabilities
    → Candidate × EvidenceDisposition
compare_candidate_report config k c none = store_candidate_report config k c
compare_candidate_report config k c (some p) =
    if ltb c.evidence.sequence p.evidence.sequence
    then (k, EvidenceDisposition.rejected)
    else if c.evidence.sequence == p.evidence.sequence
    then if is_identical_report c p
      then (k, duplicate_if (not k.capabilities_conflicted))
      else (conflict k p c, EvidenceDisposition.rejected)
    else if ltb c.evidence.observed_at p.evidence.observed_at
    then (k, EvidenceDisposition.rejected)
    else store_candidate_report config k c

unfoldable pub observe_candidate_report :
    AuthorityGateConfig → Candidate → ExecutionCapabilities → Candidate × EvidenceDisposition
observe_candidate_report config k c =
    if is_empty config.execution_capability_observer
      || not (is_record_well_formed c.evidence config.execution_capability_observer k.prepared_at)
    then (k, EvidenceDisposition.rejected)
    else compare_candidate_report config k c k.capabilities

-- The guard of the part for the live binding.
unfoldable pub refuses_report : AuthorityGate → ExecutionCapabilities → Bool
refuses_report g c =
    is_closed g.initialization_state
    || is_empty g.config.execution_capability_observer
    || not (binding_eq c.binding g.config.binding)
    || is_ill_formed_report g.config c
    || not (
        is_record_well_formed c.evidence g.config.execution_capability_observer g.config.started_at)

-- The comparison with the live report; `some d` where the source returns `d`.
unfoldable pub report_order :
    Option ExecutionCapabilities → ExecutionCapabilities → Option EvidenceDisposition
report_order none c = none
report_order (some p) c =
    if ltb c.evidence.observed_at p.evidence.observed_at
      || ltb c.evidence.sequence p.evidence.sequence
    then some EvidenceDisposition.rejected
    else if c.evidence.sequence == p.evidence.sequence
    then some (duplicate_if (is_same_report c p))
    else none

unfoldable pub observe_live_report :
    AuthorityGate → ExecutionCapabilities → AuthorityGate × EvidenceDisposition
observe_live_report g c =
    if refuses_report g c
    then (g, EvidenceDisposition.rejected)
    else elim (report_order g.execution_capabilities c) [
      | some d ↦ (g, d)
      | none ↦ (record g { execution_capabilities = some c }, EvidenceDisposition.accepted)
    ]

-- The candidate is changed in place.
abbrev pub with_candidate :
    AuthorityGate → Candidate × EvidenceDisposition → AuthorityGate × EvidenceDisposition
with_candidate g (k, d) = (record g { candidate = some k }, d)

unfoldable pub observe_execution_capabilities :
    AuthorityGate → ExecutionCapabilities → AuthorityGate × EvidenceDisposition
observe_execution_capabilities g c = elim g.candidate [
  | none ↦ observe_live_report g c
  | some k ↦
      if binding_eq c.binding k.binding && is_preparing_phase g.binding_phase
      then with_candidate g (observe_candidate_report g.config k c)
      else observe_live_report g c
]

unfoldable pub supports_execution : AuthorityGate → ExecutionRequirements → ℕ → Bool
supports_execution g r at = elim g.execution_capabilities [
  | none ↦ false
  | some c ↦
      is_active_phase g.binding_phase
      && not (is_closed g.initialization_state)
      && not (is_empty r.profile_id)
      && not (r.work_units == 0)
      && c.available
      && str_eq c.profile_id r.profile_id
      && leb r.work_units c.maximum_work_units
      && leb c.evidence.observed_at at
      && ltb at c.valid_until
]
