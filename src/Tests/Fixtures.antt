-- ===== src/Tests/Fixtures.antt =====
-- A gate as the tests of the repository set it up: one provider, three start-up facts, one request.
use robot_harness.Base.{
  ℕ, String, ◌+◌, true, false, none, some, List, [], ◌∷◌, ◌++◌, ◌≡◌, refl, arith,
}
use robot_harness.Gate.Types.{
  BindingControlStatus, OutputEvidence, OutputNonDeliveryEvidence, OutputNonDeliveryReason,
  SettlementEvidence, BindingReadinessEvidence, BindingIdentity, EvidenceRecord,
  StartupEvidenceKind, OperationRequest, OperationAuthority, NativeEvidence, NativeEventKind,
}
use robot_harness.Gate.State.{AuthorityGate, AuthorityGateConfig, Candidate, ReadinessFact, initial}
use robot_harness.Gate.Rebind.{commit_rebind}
use robot_harness.Gate.Receipt.{OperationReceipt, new_receipt}
use robot_harness.Tests.Execute.{execute}
use robot_harness.Gate.Calls.{
  Call, startup, admits, claim, cancel, native, output, settlement, withdraw, begin, readiness,
}
use robot_harness.Gate.Invariant.{GateIsValid}
use robot_harness.Gate.Invariant.Histories.{run-IsValid}
use robot_harness.Gate.Promises.Located.{construct-run-IsValid}

abbrev pub binding : BindingIdentity
binding = record {
  provider_id = "worker-a";
  effect_domain = "arm";
  composition_revision = 1;
  provider_generation = 1;
}

abbrev pub config : AuthorityGateConfig
config = record {
  binding = binding;
  capability_id = "pick";
  binding_observer = "binding-observer";
  worker_observer = "worker-observer";
  result_sink_observer = "result-sink";
  native_evidence_source = "native";
  settlement_evidence_source = "settlement";
  settlement_scope = "scope";
  started_at = 10;
  stop_evidence_source = "native-stop";
  readiness_kind = StartupEvidenceKind.worker_ready;
  execution_capability_observer = "";
}

abbrev pub evidence : String → ℕ → ℕ → EvidenceRecord
evidence source at sequence = record { source = source; observed_at = at; sequence = sequence }

abbrev pub fact : StartupEvidenceKind → String → Call
fact kind source =
    startup
      (record { kind = kind; binding = binding; evidence = evidence source 11 1; observed = true })

abbrev pub request : OperationRequest
request = record {
  capability_id = "pick";
  effect_domain = "arm";
  opaque_request_reference = "request";
  target_reference = "target";
  requested_at = 20;
  deadline = some 100;
  execution_requirements = none;
}

abbrev pub authority : OperationAuthority
authority = record { operation_id = 1; binding = binding; admitted_at = 20 }

abbrev pub event : NativeEventKind → ℕ → NativeEvidence
event kind n = record {
  authority = authority;
  native_identity = "goal";
  kind = kind;
  evidence = evidence "native" (30 + n) n;
}

abbrev pub facts : List Call
facts =
    fact StartupEvidenceKind.binding_idle_and_settled "binding-observer"
    ∷ fact StartupEvidenceKind.worker_ready "worker-observer"
    ∷ fact StartupEvidenceKind.result_sink_ready "result-sink"
    ∷ []

abbrev pub opening : List Call
opening = facts ++ admits request ∷ []

-- The gate with its start-up facts.
unfoldable pub started : AuthorityGate
unfolding execute
started = execute (initial config) facts

pub started-IsValid : GateIsValid started
unfolding started execute
started-IsValid = construct-run-IsValid config (initial config) facts (omega arith) refl

-- The gate with one operation admitted.
unfoldable pub opened : AuthorityGate
unfolding execute
opened = execute (initial config) opening

pub opened-IsValid : GateIsValid opened
unfolding opened execute
opened-IsValid = construct-run-IsValid config (initial config) opening (omega arith) refl

-- The receipt in place, where there is one.
abbrev pub receipt_in : AuthorityGate → OperationReceipt
receipt_in g = elim g.current_receipt [ none ↦ new_receipt authority none none | some r ↦ r ]

abbrev pub result : OutputEvidence
result = record {
  authority = authority;
  result_reference = "result";
  evidence = evidence "result-sink" 50 2;
}

abbrev pub undelivered : OutputNonDeliveryEvidence
undelivered = record {
  authority = authority;
  reason = OutputNonDeliveryReason.sink_rejected;
  result_reference = "result";
  evidence = evidence "result-sink" 50 2;
}

abbrev pub closure : SettlementEvidence
closure = record {
  authority = authority;
  scope = "scope";
  permits_same_domain_admission = true;
  evidence = evidence "settlement" 60 1;
}

abbrev pub success : List Call
success =
    claim authority 30
    ∷ native (event NativeEventKind.accepted 1)
    ∷ native (event NativeEventKind.terminal_succeeded 2)
    ∷ []

-- The operation has succeeded, and its result was not delivered yet.
unfoldable pub succeeded : AuthorityGate
unfolding opened execute
succeeded = execute opened success

unfoldable pub delivered : AuthorityGate
unfolding succeeded execute
delivered = execute succeeded (output result ∷ [])

unfoldable pub settled : AuthorityGate
unfolding delivered execute
settled = execute delivered (settlement closure ∷ [])

-- A failure is reported after the success.
unfoldable pub conflicted : AuthorityGate
unfolding succeeded execute
conflicted = execute succeeded (native (event NativeEventKind.terminal_failed 3) ∷ [])

-- The operation is cancelled while it runs: a native stop is asked for.
unfoldable pub stopping : AuthorityGate
unfolding opened execute
stopping = execute opened (claim authority 30 ∷ cancel authority 40 ∷ [])

pub succeeded-IsValid : GateIsValid succeeded
unfolding succeeded execute
succeeded-IsValid = run-IsValid opened success opened-IsValid

pub delivered-IsValid : GateIsValid delivered
unfolding delivered execute
delivered-IsValid = run-IsValid succeeded (output result ∷ []) succeeded-IsValid

pub settled-IsValid : GateIsValid settled
unfolding settled execute
settled-IsValid = run-IsValid delivered (settlement closure ∷ []) delivered-IsValid

pub conflicted-IsValid : GateIsValid conflicted
unfolding conflicted execute
conflicted-IsValid =
    run-IsValid succeeded (native (event NativeEventKind.terminal_failed 3) ∷ []) succeeded-IsValid

pub stopping-IsValid : GateIsValid stopping
unfolding stopping execute
stopping-IsValid = run-IsValid opened (claim authority 30 ∷ cancel authority 40 ∷ []) opened-IsValid

-- The binding is withdrawn after settlement, and a replacement is prepared.
abbrev pub scope_evidence : ℕ → ℕ → BindingReadinessEvidence
scope_evidence at sequence = record {
  kind = StartupEvidenceKind.binding_idle_and_settled;
  binding = binding;
  evidence = evidence "binding-observer" at sequence;
  observed = true;
  valid_until = 200;
}

abbrev pub next_binding : ℕ → BindingIdentity
next_binding generation = record binding {
  provider_id = "worker-b";
  provider_generation = generation;
}

abbrev pub ready_fact : StartupEvidenceKind → String → BindingReadinessEvidence
ready_fact kind source = record {
  kind = kind;
  binding = next_binding 2;
  evidence = evidence source 90 1;
  observed = true;
  valid_until = 200;
}

unfoldable pub withdrawn : AuthorityGate
unfolding settled execute
withdrawn = execute settled (withdraw binding 70 ∷ [])

pub withdrawn-IsValid : GateIsValid withdrawn
unfolding withdrawn execute
withdrawn-IsValid = run-IsValid settled (withdraw binding 70 ∷ []) settled-IsValid

abbrev pub preparation : List Call
preparation =
    begin binding "worker-b" (scope_evidence 75 2) 80
    ∷ readiness (ready_fact StartupEvidenceKind.binding_idle_and_settled "binding-observer")
    ∷ readiness (ready_fact StartupEvidenceKind.worker_ready "worker-observer")
    ∷ readiness (ready_fact StartupEvidenceKind.result_sink_ready "result-sink")
    ∷ []

unfoldable pub prepared : AuthorityGate
unfolding withdrawn execute
prepared = execute withdrawn preparation

pub prepared-IsValid : GateIsValid prepared
unfolding prepared execute
prepared-IsValid = run-IsValid withdrawn preparation withdrawn-IsValid

abbrev held : BindingReadinessEvidence → ReadinessFact
held e = record { evidence = some e; conflicted = false }

-- The candidate in preparation, with its three facts.
abbrev pub next_candidate : Candidate
next_candidate = record {
  binding = next_binding 2;
  prepared_at = 80;
  old_scope = scope_evidence 75 2;
  idle = held (ready_fact StartupEvidenceKind.binding_idle_and_settled "binding-observer");
  worker = held (ready_fact StartupEvidenceKind.worker_ready "worker-observer");
  sink = held (ready_fact StartupEvidenceKind.result_sink_ready "result-sink");
  capabilities = none;
  capabilities_conflicted = false;
}

pub candidate-prepared : prepared.candidate ≡ some next_candidate
unfolding prepared execute
candidate-prepared = refl

pub commit_rebind-prepared :
    (commit_rebind prepared (next_binding 2) 95).1.status ≡ BindingControlStatus.applied
unfolding prepared execute
commit_rebind-prepared = refl
