-- ===== src/Gate/Native.antt =====
-- observe_non_submission and observe_native of authority_gate.cpp.
use robot_harness.Base.{
  ℕ, Bool, true, false, not, Option, none, some, ◌+◌, ◌&&◌, ◌||◌, ◌==◌, ltb, str_eq, is_empty,
  has_value, value_or, if◌then◌else◌,
}
use robot_harness.Gate.Types.{
  EvidenceRecord, EvidenceDisposition, NativeEventKind, NativeEvidence, NonSubmissionEvidence,
  DispatchStatus, NativeAcceptance, NativeOutcome,
}
use robot_harness.Gate.Types.Tests.{
  native_kind_eq, is_pending_dispatch, is_submitted, is_not_submitted, is_accepted, is_rejected,
}
use robot_harness.Gate.Receipt.{OperationReceipt, records_match, is_record_well_formed}
use robot_harness.Gate.Disposition.{refresh_authority_disposition}
use robot_harness.Gate.State.{
  AuthorityGateConfig, AuthorityGate, Reply, keep, update, current, reply,
}

-- `value && records_match(*value, record)`.
abbrev pub is_same_record : Option EvidenceRecord → EvidenceRecord → Bool
is_same_record none e = false
is_same_record (some r) e = records_match r e

abbrev pub duplicate_if : Bool → EvidenceDisposition
duplicate_if true = EvidenceDisposition.duplicate
duplicate_if false = EvidenceDisposition.rejected

-- `dispatch == kSubmitted && (!dispatched_at || observed_at < *dispatched_at)`.
unfoldable pub precedes_dispatch : OperationReceipt → EvidenceRecord → Bool
precedes_dispatch r e =
    is_submitted r.dispatch && elim r.dispatched_at [ none ↦ true | some t ↦ ltb e.observed_at t ]

-- Some native observation exists. The source does not ask for a cancellation.
unfoldable pub has_native_observation : OperationReceipt → Bool
has_native_observation r =
    has_value r.native_acceptance_evidence
    || has_value r.native_rejection_evidence
    || has_value r.native_started_evidence
    || has_value r.native_success_evidence
    || has_value r.native_failure_evidence

unfoldable pub non_submission_reply :
    AuthorityGateConfig → NonSubmissionEvidence → OperationReceipt → Reply EvidenceDisposition
unfolding refresh_authority_disposition
non_submission_reply c e r =
    if not (is_record_well_formed e.evidence c.settlement_evidence_source e.authority.admitted_at)
    then keep EvidenceDisposition.rejected
    else if precedes_dispatch r e.evidence
    then keep EvidenceDisposition.rejected
    else if is_not_submitted r.dispatch
    then keep (duplicate_if (is_same_record r.non_submission_evidence e.evidence))
    else if (not (is_pending_dispatch r.dispatch) && not (is_submitted r.dispatch))
        || has_native_observation r
    then keep EvidenceDisposition.rejected
    else update
        (refresh_authority_disposition (record r {
          dispatch = DispatchStatus.not_submitted;
          native_outcome = NativeOutcome.not_executed;
          non_submission_evidence = some e.evidence;
        }))
        EvidenceDisposition.accepted

unfoldable pub observe_non_submission :
    AuthorityGate → NonSubmissionEvidence → AuthorityGate × EvidenceDisposition
observe_non_submission g e =
    reply g e.authority EvidenceDisposition.rejected (non_submission_reply g.config e)

-- The comparison with the last native record; `some d` where observe_native returns `d`.
unfoldable pub native_order :
    Option EvidenceRecord
    → Option NativeEventKind
    → NativeEvidence
    → OperationReceipt
    → Option EvidenceDisposition
native_order none kind e r = none
native_order (some l) kind e r =
    if ltb e.evidence.sequence l.sequence || ltb e.evidence.observed_at l.observed_at
    then some EvidenceDisposition.rejected
    else if e.evidence.sequence == l.sequence
    then some (
        duplicate_if (
          records_match e.evidence l
          && elim kind [ none ↦ false | some k ↦ native_kind_eq e.kind k ]
          && str_eq e.native_identity r.native_identity))
    else none

-- The identity and the acceptance that are known exclude the event.
unfoldable pub is_excluded : NativeEvidence → OperationReceipt → Bool
is_excluded e r =
    (not (is_empty r.native_identity) && not (str_eq r.native_identity e.native_identity))
    || (is_empty r.native_identity
        && not (native_kind_eq e.kind NativeEventKind.accepted)
        && not (native_kind_eq e.kind NativeEventKind.rejected))
    || (is_rejected r.native_acceptance && not (native_kind_eq e.kind NativeEventKind.rejected))
    || (is_accepted r.native_acceptance && native_kind_eq e.kind NativeEventKind.rejected)

-- The second `switch`; `keep rejected` where it returns.
unfoldable pub native_event :
    NativeEventKind → NativeEvidence → OperationReceipt → Reply EvidenceDisposition
native_event NativeEventKind.accepted e r =
    if is_accepted r.native_acceptance
    then update r EvidenceDisposition.duplicate
    else update
        (record r {
          native_identity = e.native_identity;
          native_acceptance = NativeAcceptance.accepted;
          native_acceptance_evidence = some e.evidence;
        })
        EvidenceDisposition.accepted
native_event NativeEventKind.rejected e r =
    if is_rejected r.native_acceptance
    then update r EvidenceDisposition.duplicate
    else update
        (record r {
          native_identity = e.native_identity;
          native_acceptance = NativeAcceptance.rejected;
          native_outcome = NativeOutcome.not_executed;
          native_rejection_evidence = some e.evidence;
        })
        EvidenceDisposition.accepted
native_event NativeEventKind.started e r =
    if not (is_accepted r.native_acceptance)
    then keep EvidenceDisposition.rejected
    else if r.native_started
    then update r EvidenceDisposition.duplicate
    else update (record r { native_started = true; native_started_evidence = some e.evidence })
        EvidenceDisposition.accepted
native_event NativeEventKind.terminal_succeeded e r =
    if not (is_accepted r.native_acceptance)
    then keep EvidenceDisposition.rejected
    else if r.observed_native_success
    then update r EvidenceDisposition.duplicate
    else update
        (record r { observed_native_success = true; native_success_evidence = some e.evidence })
        EvidenceDisposition.accepted
native_event NativeEventKind.terminal_failed e r =
    if not (is_accepted r.native_acceptance)
    then keep EvidenceDisposition.rejected
    else if r.observed_native_failure
    then update r EvidenceDisposition.duplicate
    else update
        (record r { observed_native_failure = true; native_failure_evidence = some e.evidence })
        EvidenceDisposition.accepted
native_event NativeEventKind.terminal_cancelled e r =
    if not (is_accepted r.native_acceptance)
    then keep EvidenceDisposition.rejected
    else if r.observed_native_cancellation
    then update r EvidenceDisposition.duplicate
    else update
        (record r {
          observed_native_cancellation = true;
          native_cancellation_evidence = some e.evidence;
        })
        EvidenceDisposition.accepted

-- `static_cast<int>` of a bool.
abbrev pub as_int : Bool → ℕ
as_int true = 1
as_int false = 0

unfoldable pub terminal_count : OperationReceipt → ℕ
terminal_count r =
    as_int r.observed_native_success
    + as_int r.observed_native_failure
    + as_int r.observed_native_cancellation

unfoldable pub classified_outcome : OperationReceipt → NativeOutcome
unfolding terminal_count
classified_outcome r =
    if ltb 1 (terminal_count r)
    then NativeOutcome.unknown
    else if r.observed_native_success
    then NativeOutcome.succeeded
    else if r.observed_native_failure
    then NativeOutcome.failed
    else if r.observed_native_cancellation
    then NativeOutcome.cancelled
    else r.native_outcome

-- The end of observe_native: the outcome and the disposition are computed anew.
unfoldable pub classify : Reply EvidenceDisposition → Reply EvidenceDisposition
unfolding classified_outcome refresh_authority_disposition
classify (keep d) = keep d
classify (update r d) =
    update (refresh_authority_disposition (record r { native_outcome = classified_outcome r })) d

-- The first guard, behind current_authority_matches.
unfoldable pub is_native_admissible : AuthorityGateConfig → NativeEvidence → OperationReceipt → Bool
is_native_admissible c e r =
    not (is_empty e.native_identity)
    && is_submitted r.dispatch
    && is_record_well_formed e.evidence c.native_evidence_source (value_or 0 r.dispatched_at)

unfoldable pub native_reply :
    AuthorityGateConfig
    → Option EvidenceRecord
    → Option NativeEventKind
    → NativeEvidence
    → OperationReceipt
    → Reply EvidenceDisposition
native_reply c last kind e r =
    if not (is_native_admissible c e r)
    then keep EvidenceDisposition.rejected
    else elim (native_order last kind e r) [
      | some d ↦ keep d
      | none ↦
          if is_excluded e r
          then keep EvidenceDisposition.rejected
          else classify (native_event e.kind e r)
    ]

-- What observe_native keeps of the last event, once it has handled one.
abbrev pub native_replied :
    AuthorityGate → NativeEvidence → Reply EvidenceDisposition → AuthorityGate × EvidenceDisposition
native_replied g e (keep d) = (g, d)
native_replied g e (update r d) = (
  record g {
    current_receipt = some r;
    last_native_record = some e.evidence;
    last_native_kind = some e.kind;
  },
  d,
)

-- observe_native at the receipt that the authority matches, if there is one.
abbrev pub native_at :
    AuthorityGate → NativeEvidence → Option OperationReceipt → AuthorityGate × EvidenceDisposition
native_at g e none = (g, EvidenceDisposition.rejected)
native_at g e (some r) =
    native_replied g e (native_reply g.config g.last_native_record g.last_native_kind e r)

unfoldable pub observe_native : AuthorityGate → NativeEvidence → AuthorityGate × EvidenceDisposition
observe_native g e = native_at g e (current g e.authority)
