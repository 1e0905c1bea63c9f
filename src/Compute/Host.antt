-- ===== src/Compute/Host.antt =====
-- ComputeExecutionHost::Implementation: its members, its calls of the gate, the clock and the probe
-- of the worker's file.
use robot_harness.Base.{
  ℕ, String, Bool, true, false, Option, none, some, ◌+◌, increment, if◌then◌else◌,
}
use robot_harness.Action.{Action, returned, pure, gets, modify, ◌>>◌}
use robot_harness.Gate.Types.{OperationAuthority, EvidenceRecord, EvidenceDisposition}
use robot_harness.Gate.State.{AuthorityGate, construct}
use robot_harness.Gate.Calls.{Call, apply}
use robot_harness.Gate.Answers.{Answer, answer}
use robot_harness.Compute.Types.{
  ComputeHostConfig, ComputeRequest, ComputeResult, ComputeShutdownStatus, is_valid_config,
  make_binding, make_gate_config,
}

-- `clock n` is the time at the n-th reading of the steady clock, and `launchable n` what can_launch
-- answers at its n-th call; `ticks` and `probes` count them.
pub record ComputeHost (X : Type 0) : Type 0 where
  pub clock : ℕ → ℕ
  pub ticks : ℕ
  pub launchable : ℕ → String → Bool
  pub probes : ℕ
  pub config : ComputeHostConfig
  pub gate : AuthorityGate
  pub process : Option X
  pub authority : Option OperationAuthority
  pub request : Option ComputeRequest
  pub result : Option ComputeResult
  pub native_identity : String
  pub result_reference : String
  pub sequence : ℕ
  pub initialized : Bool
  pub stop_reported : Bool
  pub outcome_reported : Bool
  pub evidence_error : Bool
  pub shutdown : ComputeShutdownStatus

abbrev pub is_rejected_evidence : EvidenceDisposition → Bool
is_rejected_evidence EvidenceDisposition.rejected = true
is_rejected_evidence _ = false

module _ {X : Type 0} where
  abbrev new_host :
      ComputeHostConfig → (ℕ → ℕ) → (ℕ → String → Bool) → AuthorityGate → ComputeHost X
  new_host config clock launchable gate = record {
    clock = clock;
    ticks = 1;
    launchable = launchable;
    probes = 0;
    config = config;
    gate = gate;
    process = none;
    authority = none;
    request = none;
    result = none;
    native_identity = "";
    result_reference = "";
    sequence = 0;
    initialized = false;
    stop_reported = false;
    outcome_reported = false;
    evidence_error = false;
    shutdown = ComputeShutdownStatus.is_open;
  }

  -- The constructor, at a value of make_binding's counter; `none` where it throws.
  unfoldable pub compute_host :
      ℕ → ComputeHostConfig → (ℕ → ℕ) → (ℕ → String → Bool) → Option (ComputeHost X)
  compute_host generation config clock launchable = elim (make_binding generation) [
    | none ↦ none
    | some binding ↦ elim (construct (make_gate_config binding (clock 0))) [
      | none ↦ none
      | some gate ↦
          if is_valid_config config then some (new_host config clock launchable gate) else none
    ]
  ]

  -- ComputeExecutionHost::now.
  unfoldable pub now : Action (ComputeHost X) ℕ
  now h = (returned (h.clock h.ticks), record h { ticks = h.ticks + 1 })

  -- ComputeProcess::can_launch.
  unfoldable pub can_launch : String → Action (ComputeHost X) Bool
  can_launch executable h =
      (returned (h.launchable h.probes executable), record h { probes = h.probes + 1 })

  -- A call of a member function of the gate.
  unfoldable pub call : (c : Call) → Action (ComputeHost X) (Answer c)
  call c h = (returned (answer h.gate c), record h { gate = apply h.gate c })

  unfoldable pub record_of : String → ℕ → Action (ComputeHost X) EvidenceRecord
  record_of source time = do
    modify λ h. record h { sequence = increment h.sequence }
    gets
        λ (h : ComputeHost X). record { source = source; observed_at = time; sequence = h.sequence }

  unfoldable pub accept : EvidenceDisposition → Action (ComputeHost X) (Unit {0})
  accept disposition =
      if is_rejected_evidence disposition
      then (modify λ h. record h { evidence_error = true })
      else pure tt
