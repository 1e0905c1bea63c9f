-- ===== src/Tests/GateCases.antt =====
-- Witnesses of the gate's promises.
use robot_harness.Base.{
  ◌≤◌, true, false, none, some, List, [], ◌∷◌, ◌++◌, ◌≡◌, ◌≢◌, ◌⊎◌, ◌↔◌, ◌<◌, refl, ap, arith,
  u64_max,
}
use robot_harness.Gate.Types.{
  NativeEventKind, EvidenceDisposition, InitializationState, AuthorityDisposition, SettlementStatus,
  AdmissionStatus, BindingControlStatus, OperationRequest, OperationAuthority, StopAcknowledgement,
  StopAcknowledgementEvidence, NonSubmissionEvidence,
}
use robot_harness.Gate.Types.Tests.{is_active_phase}
use robot_harness.Gate.Receipt.{OperationReceipt, new_receipt, is_reached}
use robot_harness.Gate.State.{current, initial, old_work_closed}
use robot_harness.Gate.Control.{request_cancel, observe_time, observe_stop_acknowledgement}
use robot_harness.Gate.Startup.{holds}
use robot_harness.Gate.Admission.{admit, claim_dispatch, is_unsupported}
use robot_harness.Gate.Binding.{withdraw_binding}
use robot_harness.Gate.Rebind.{begin_rebind, commit_rebind}
use robot_harness.Gate.Native.{observe_non_submission}
use robot_harness.Gate.Output.{
  can_deliver_result, observe_output_accepted, observe_output_not_delivered,
}
use robot_harness.Gate.Calls.{Call, claim, native, output, settlement, withdraw, admits, run}
use robot_harness.Gate.Invariant.{GateIsValid}
use robot_harness.Gate.Promises.Handover.{ClosesWithin, run-ClosesWithin}
use robot_harness.Gate.Lifecycle.{Steps, view}
use robot_harness.Gate.Lifecycle.Refinement.{run-Steps}
use robot_harness.Gate.Promises.Located.{construct-run-IsValid}
use robot_harness.Gate.Promises.Revocation.{revoked-run, claim_dispatch-run}
use robot_harness.Gate.Promises.Stop.{stop-run}
use robot_harness.Gate.Promises.Unknown.{unknown-run}
use robot_harness.Gate.Promises.Output.{output-run}
use robot_harness.Gate.Promises.Numbers.{admit_sound, admit-run_increases}
use robot_harness.Gate.Promises.Replay.{Evidence, observe_evidence, observe_evidence-twice}
use robot_harness.Gate.Promises.Settlement.{NeverRan, EndedEmpty, Succeeded, released_iff}
use robot_harness.Gate.Promises.Rebinding.{
  IsCurrentAt, commit_rebind_sound, begin_rebind-run_increases,
}
use robot_harness.Tests.Execute.{execute}
use robot_harness.Tests.Fixtures.{
  binding, config, evidence, request, opening, authority, event, opened, opened-IsValid, receipt_in,
  result, undelivered, closure, success, started, started-IsValid, succeeded, delivered, settled,
  conflicted, stopping, delivered-IsValid, settled-IsValid, conflicted-IsValid, stopping-IsValid,
  scope_evidence, next_binding, prepared, prepared-IsValid, next_candidate, candidate-prepared,
  commit_rebind-prepared, withdrawn, withdrawn-IsValid,
}

construct-run-IsValid_example : GateIsValid (run (initial config) opening)
unfolding execute
construct-run-IsValid_example =
    construct-run-IsValid config (initial config) opening (omega arith) refl

-- The operation is claimed and reported on after it was revoked.
abbrev late_calls : List Call
late_calls = claim authority 60 ∷ native (event NativeEventKind.accepted 31) ∷ []

revoked-run_example :
    ((claim_dispatch (run stopping late_calls) authority 70).1 ≡ false)
    × (can_deliver_result (run stopping late_calls) authority ≡ false)
unfolding stopping execute
revoked-run_example =
    revoked-run stopping late_calls authority (receipt_in stopping) 70 stopping-IsValid refl refl

claim_dispatch-run_example :
    (claim_dispatch (run (claim_dispatch opened authority 30).0 late_calls) authority 70).1 ≡ false
unfolding opened execute
claim_dispatch-run_example =
    claim_dispatch-run opened late_calls authority 30 70 opened-IsValid refl

stop-run_example :
    ((request_cancel (run stopping late_calls) authority 100).1.should_request_native_stop ≡ false)
    × ((observe_time (run stopping late_calls) authority 100).1.should_request_native_stop ≡ false)
    × ((withdraw_binding (run stopping late_calls) binding 100).1.native_stop_authority
        ≢ some authority)
unfolding stopping execute
stop-run_example =
    stop-run stopping late_calls authority (receipt_in stopping) binding 100 stopping-IsValid refl
      refl

-- The host tries to settle and to withdraw the blocked operation.
abbrev settle_anyway : List Call
settle_anyway = settlement closure ∷ withdraw binding 70 ∷ []

unknown-run_example :
    ((r' : OperationReceipt) × ((run conflicted settle_anyway).current_receipt ≡ some r')
      × (r'.authority ≡ authority)
      × (r'.authority_disposition ≡ AuthorityDisposition.blocked_unknown))
    × ((admit (run conflicted settle_anyway) request).1.status ≢ AdmissionStatus.admitted)
    × ((begin_rebind
          (run conflicted settle_anyway)
          binding
          "worker-b"
          (scope_evidence 75 2)
          80).1.status
        ≢ BindingControlStatus.applied)
    × ((commit_rebind (run conflicted settle_anyway) binding 80).1.status
        ≢ BindingControlStatus.applied)
unfolding conflicted execute
unknown-run_example =
    unknown-run conflicted settle_anyway (receipt_in conflicted) request binding "worker-b"
      (scope_evidence 75 2) 80 conflicted-IsValid refl refl

output-run_example :
    ((receipt_in settled).output ≡ (receipt_in delivered).output)
    × ((receipt_in settled).result_reference ≡ (receipt_in delivered).result_reference)
    × ((observe_output_accepted (run delivered (settlement closure ∷ [])) result).1
        ≢ EvidenceDisposition.accepted)
    × ((observe_output_not_delivered (run delivered (settlement closure ∷ [])) undelivered).1
        ≢ EvidenceDisposition.accepted)
unfolding settled delivered execute
output-run_example =
    output-run delivered (settlement closure ∷ []) authority (receipt_in delivered)
      (receipt_in settled) result undelivered delivered-IsValid refl refl refl refl refl

-- An authority of a later operation than the one in place.
abbrev stale : OperationAuthority
stale = record authority { operation_id = 7 }

abbrev answer : StopAcknowledgementEvidence
answer = record {
  authority = authority;
  acknowledgement = StopAcknowledgement.acknowledged;
  evidence = evidence "native-stop" 45 1;
}

abbrev denial : NonSubmissionEvidence
denial = record { authority = authority; evidence = evidence "settlement" 40 1 }

abbrev next_request : OperationRequest
next_request = record request { requested_at = 65 }

abbrev next_authority : OperationAuthority
next_authority = record { operation_id = 2; binding = binding; admitted_at = 65 }

admit_sound_example :
    (old_work_closed settled ≡ true)
    × (is_active_phase settled.binding_phase ≡ true)
    × (holds settled.binding_idle ≡ true)
    × (holds settled.worker_ready ≡ true)
    × (holds settled.result_sink_ready ≡ true)
    × (is_reached (some 100) 65 ≡ false)
    × (is_unsupported settled none 65 ≡ false)
    × (next_authority.binding ≡ settled.config.binding)
    × ((admit settled next_request).0.current_receipt
        ≡ some (new_receipt next_authority (some 100) none))
unfolding settled execute
admit_sound_example = admit_sound settled next_request next_authority settled-IsValid refl

-- The first operation is run to its settlement before the next is admitted.
abbrev first_life : List Call
first_life = success ++ output result ∷ settlement closure ∷ []

admit-run_increases_example : authority.operation_id < next_authority.operation_id
unfolding started execute
admit-run_increases_example =
    admit-run_increases started first_life request next_request authority next_authority
      started-IsValid refl refl

-- From the first operation in place to the second.
run-ClosesWithin_example :
    ClosesWithin delivered (settlement closure ∷ admits next_request ∷ []) (receipt_in delivered)
unfolding delivered execute
run-ClosesWithin_example =
    run-ClosesWithin delivered (settlement closure ∷ admits next_request ∷ [])
      (receipt_in delivered)
      (new_receipt next_authority next_request.deadline next_request.execution_requirements)
      delivered-IsValid refl refl
      (λ e. ground (arith, ap (λ (a : OperationAuthority). a.operation_id) e))

run-Steps_example :
    Steps
      (view started)
      (view (run started (admits request ∷ (first_life ++ admits next_request ∷ []))))
run-Steps_example =
    run-Steps started (admits request ∷ (first_life ++ admits next_request ∷ [])) started-IsValid

released_iff_example :
    ((receipt_in settled).authority_disposition ≡ AuthorityDisposition.released) ↔ (
      ((receipt_in settled).settlement ≡ SettlementStatus.settled)
      × (NeverRan (receipt_in settled)
          ⊎ (EndedEmpty (receipt_in settled) ⊎ Succeeded (receipt_in settled))))
unfolding settled execute
released_iff_example = released_iff (receipt_in settled) settled-IsValid.operation.valid

observe_evidence-twice_example :
    observe_evidence
      (observe_evidence delivered (Evidence.closure closure)).0
      (Evidence.closure closure)
    ≡ ((observe_evidence delivered (Evidence.closure closure)).0, EvidenceDisposition.duplicate)
unfolding delivered execute
observe_evidence-twice_example = observe_evidence-twice delivered (Evidence.closure closure) refl

-- The other kinds of evidence are accepted at a gate that awaits them.
delivery_accepted : (observe_output_accepted succeeded result).1 ≡ EvidenceDisposition.accepted
unfolding succeeded execute
delivery_accepted = refl

non_delivery_accepted :
    (observe_output_not_delivered succeeded undelivered).1 ≡ EvidenceDisposition.accepted
unfolding succeeded execute
non_delivery_accepted = refl

denial_accepted : (observe_non_submission opened denial).1 ≡ EvidenceDisposition.accepted
unfolding opened execute
denial_accepted = refl

answer_accepted : (observe_stop_acknowledgement stopping answer).1 ≡ EvidenceDisposition.accepted
unfolding stopping execute
answer_accepted = refl

commit_rebind_sound_example :
    (next_binding 2 ≡ next_candidate.binding)
    × (old_work_closed prepared ≡ true)
    × (95 < 200)
    × IsCurrentAt 95 next_candidate.idle
    × IsCurrentAt 95 next_candidate.worker
    × IsCurrentAt 95 next_candidate.sink
    × ((commit_rebind prepared (next_binding 2) 95).0.config.binding ≡ next_candidate.binding)
    × ((commit_rebind prepared (next_binding 2) 95).0.initialization_state
        ≡ InitializationState.ready)
    × (prepared.config.binding.provider_generation
        < (commit_rebind prepared (next_binding 2) 95).0.config.binding.provider_generation)
    × (current (run (commit_rebind prepared (next_binding 2) 95).0 opening) authority ≡ none)
unfolding prepared execute
commit_rebind_sound_example =
    commit_rebind_sound prepared (next_binding 2) 95 next_candidate authority opening
      prepared-IsValid candidate-prepared commit_rebind-prepared refl

-- The first candidate is dropped, and a second one prepared.
begin_rebind-run_increases_example :
    (withdrawn.config.binding.provider_generation < 2) × (2 < 3) × (3 ≤ u64_max)
unfolding withdrawn execute
begin_rebind-run_increases_example =
    begin_rebind-run_increases withdrawn (withdraw (next_binding 2) 85 ∷ []) binding binding
      (next_binding 2) (next_binding 3) "worker-b" "worker-b" (scope_evidence 75 2)
      (scope_evidence 88 3) 80 90 withdrawn-IsValid refl refl refl refl
