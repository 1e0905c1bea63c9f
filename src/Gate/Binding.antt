-- ===== src/Gate/Binding.antt =====
-- binding_status and withdraw_binding of authority_gate.cpp.
use robot_harness.Base.{ℕ, not, Option, none, some, ◌&&◌, ltb, if◌then◌else◌}
use robot_harness.Gate.Types.{
  BindingIdentity, InitializationState, BindingPhase, BindingControlStatus, BindingDecision,
  BindingStatus, binding_eq,
}
use robot_harness.Gate.Types.Tests.{is_withdrawn_phase, is_closed_phase}
use robot_harness.Gate.Receipt.{OperationReceipt}
use robot_harness.Gate.Disposition.{revoke}
use robot_harness.Gate.State.{
  AuthorityGate, latest_binding_time, current_is_releasable, matches_receipt, can_commit,
}

unfoldable pub binding_status : AuthorityGate → ℕ → BindingStatus
binding_status g at = record {
  phase = g.binding_phase;
  active = g.config.binding;
  candidate = elim g.candidate [ none ↦ none | some k ↦ some k.binding ];
  can_commit = can_commit g at;
}

-- `{status, {}, {}}`.
abbrev pub decision : BindingControlStatus → BindingDecision
decision status = record { status = status; candidate = none; native_stop_authority = none }

-- The receipt that withdrawal revokes: `withdraw_current`, of a gate with no candidate.
unfoldable pub withdrawn_receipt : AuthorityGate → Option OperationReceipt
withdrawn_receipt g = elim g.current_receipt [
  | none ↦ none
  | some r ↦
      if matches_receipt g.config r r.authority && not (current_is_releasable g)
      then some r
      else none
]

-- The members that every applied withdrawal sets.
unfoldable pub enter_withdrawn : AuthorityGate → ℕ → AuthorityGate
enter_withdrawn g now = record g {
  last_binding_control_at = now;
  initialization_state = InitializationState.recovery_required;
  binding_phase = BindingPhase.withdrawn;
}

-- Withdrawal of the live binding.
unfoldable pub withdraw_live : AuthorityGate → ℕ → AuthorityGate × BindingDecision
unfolding enter_withdrawn
withdraw_live g now =
    let h = record (enter_withdrawn g now) { withdrawn_at = some now } in
    elim (withdrawn_receipt g) [
      | none ↦ (h, decision BindingControlStatus.applied)
      | some r ↦
          let (r', d) = revoke (record r { binding_withdrawn_at = some now }) now in
          (
            record h { current_receipt = some r' },
            record {
              status = BindingControlStatus.applied;
              candidate = none;
              native_stop_authority =
                  if d.should_request_native_stop then some r.authority else none;
            },
          )
    ]

-- `candidate ? candidate->binding : config.binding`.
abbrev pub expected_binding_of : AuthorityGate → BindingIdentity
expected_binding_of g = elim g.candidate [ none ↦ g.config.binding | some k ↦ k.binding ]

unfoldable pub withdraw_binding :
    AuthorityGate → BindingIdentity → ℕ → AuthorityGate × BindingDecision
withdraw_binding g expected_binding now =
    if is_closed_phase g.binding_phase
    then (g, decision BindingControlStatus.closed)
    else if not (binding_eq expected_binding (expected_binding_of g))
    then (g, decision BindingControlStatus.stale_identity)
    else if ltb now (latest_binding_time g)
    then (g, decision BindingControlStatus.invalid_time)
    else if is_withdrawn_phase g.binding_phase
    then (g, decision BindingControlStatus.already_in_phase)
    else elim g.candidate [
      | none ↦ withdraw_live g now
      | some k ↦ (
        record (enter_withdrawn g now) { candidate = none },
        decision BindingControlStatus.applied,
      )
    ]
