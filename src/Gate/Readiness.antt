-- ===== src/Gate/Readiness.antt =====
-- readiness_index, readiness_source and observe_rebind_readiness of authority_gate.cpp.
use robot_harness.Base.{
  String, Bool, true, false, not, Option, none, some, ◌&&◌, ◌||◌, ◌==◌, ltb, leb, max, bool_eq,
  if◌then◌else◌,
}
use robot_harness.Gate.Types.{
  EvidenceDisposition, StartupEvidenceKind, BindingReadinessEvidence, binding_eq,
}
use robot_harness.Gate.Types.Tests.{kind_eq, is_preparing_phase}
use robot_harness.Gate.Receipt.{records_match, is_record_well_formed}
use robot_harness.Gate.State.{AuthorityGateConfig, AuthorityGate, Candidate, ReadinessFact}
use robot_harness.Gate.Capabilities.{with_candidate}
use robot_harness.Gate.Native.{duplicate_if}

-- `readiness[index]`, of readiness_index; `none` is -1.
pub data ReadinessIndex : Type 0 where
  idle worker sink : ReadinessIndex

unfoldable pub readiness_index : AuthorityGateConfig → StartupEvidenceKind → Option ReadinessIndex
readiness_index c kind =
    if kind_eq kind StartupEvidenceKind.binding_idle_and_settled
    then some ReadinessIndex.idle
    else if kind_eq kind c.readiness_kind
    then some ReadinessIndex.worker
    else if kind_eq kind StartupEvidenceKind.result_sink_ready
    then some ReadinessIndex.sink
    else none

abbrev pub readiness_source : AuthorityGateConfig → ReadinessIndex → String
readiness_source c ReadinessIndex.idle = c.binding_observer
readiness_source c ReadinessIndex.worker = c.worker_observer
readiness_source c ReadinessIndex.sink = c.result_sink_observer

abbrev pub get_readiness : ReadinessIndex → Candidate → ReadinessFact
get_readiness ReadinessIndex.idle k = k.idle
get_readiness ReadinessIndex.worker k = k.worker
get_readiness ReadinessIndex.sink k = k.sink

abbrev pub set_readiness : ReadinessIndex → ReadinessFact → Candidate → Candidate
set_readiness ReadinessIndex.idle f k = record k { idle = f }
set_readiness ReadinessIndex.worker f k = record k { worker = f }
set_readiness ReadinessIndex.sink f k = record k { sink = f }

unfoldable pub is_identical_readiness : BindingReadinessEvidence → BindingReadinessEvidence → Bool
is_identical_readiness e p =
    records_match e.evidence p.evidence
    && bool_eq e.observed p.observed
    && e.valid_until == p.valid_until

unfoldable pub store_readiness :
    ReadinessFact → BindingReadinessEvidence → ReadinessFact × EvidenceDisposition
store_readiness fact e =
    if leb e.valid_until e.evidence.observed_at
    then (fact, EvidenceDisposition.rejected)
    else (record { evidence = some e; conflicted = false }, EvidenceDisposition.accepted)

-- A conflicting report marks the fact, and moves the time of the one it had.
unfoldable pub conflict_readiness :
    BindingReadinessEvidence → BindingReadinessEvidence → ReadinessFact
conflict_readiness p e = record {
  evidence = some (record p {
    evidence = record (p.evidence) {
      observed_at = max p.evidence.observed_at e.evidence.observed_at;
    };
  });
  conflicted = true;
}

unfoldable pub compare_readiness :
    ReadinessFact → BindingReadinessEvidence → ReadinessFact × EvidenceDisposition
compare_readiness fact e = elim fact.evidence [
  | none ↦ store_readiness fact e
  | some p ↦
      if ltb e.evidence.sequence p.evidence.sequence
      then (fact, EvidenceDisposition.rejected)
      else if e.evidence.sequence == p.evidence.sequence
      then if is_identical_readiness e p
        then (fact, duplicate_if (not fact.conflicted))
        else (conflict_readiness p e, EvidenceDisposition.rejected)
      else if ltb e.evidence.observed_at p.evidence.observed_at
      then (fact, EvidenceDisposition.rejected)
      else store_readiness fact e
]

unfoldable pub readiness_at :
    AuthorityGateConfig
    → Candidate
    → BindingReadinessEvidence
    → ReadinessIndex
    → Candidate × EvidenceDisposition
readiness_at c k e index =
    if not (is_record_well_formed e.evidence (readiness_source c index) k.prepared_at)
    then (k, EvidenceDisposition.rejected)
    else let (fact, d) = compare_readiness (get_readiness index k) e in
      (set_readiness index fact k, d)

unfoldable pub observe_rebind_readiness :
    AuthorityGate → BindingReadinessEvidence → AuthorityGate × EvidenceDisposition
observe_rebind_readiness g e = elim g.candidate [
  | none ↦ (g, EvidenceDisposition.rejected)
  | some k ↦
      if not (is_preparing_phase g.binding_phase) || not (binding_eq e.binding k.binding)
      then (g, EvidenceDisposition.rejected)
      else elim (readiness_index g.config e.kind) [
        | none ↦ (g, EvidenceDisposition.rejected)
        | some index ↦ with_candidate g (readiness_at g.config k e index)
      ]
]
