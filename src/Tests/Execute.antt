-- ===== src/Tests/Execute.antt =====
-- Runs of the gate with every operation open, for tests by evaluation.
use robot_harness.Base.{List, is_empty, increment}
use robot_harness.Gate.Admission.{
  is_invalid_request, is_occupied, is_out_of_order, lacks_capabilities, new_authority, grant, admit,
  is_dispatchable, dispatch_reply, claim_dispatch,
}
use robot_harness.Gate.Binding.{
  binding_status, withdrawn_receipt, enter_withdrawn, withdraw_live, withdraw_binding,
}
use robot_harness.Gate.Calls.{Call, apply, run}
use robot_harness.Gate.Capabilities.{
  is_same_report, is_identical_report, is_ill_formed_report, conflict, store_candidate_report,
  compare_candidate_report, observe_candidate_report, refuses_report, report_order,
  observe_live_report, observe_execution_capabilities, supports_execution,
}
use robot_harness.Gate.Control.{
  cancel_reply, request_cancel, time_reply, observe_time, answers_request, stop_reply,
  observe_stop_acknowledgement, receipt,
}
use robot_harness.Gate.Disposition.{
  has_resolved_effects, has_resolved_closure, disposition_of, refresh_authority_disposition,
  should_stop, revoke,
}
use robot_harness.Gate.Native.{
  precedes_dispatch, has_native_observation, non_submission_reply, observe_non_submission,
  native_order, is_excluded, native_event, terminal_count, classified_outcome, classify,
  is_native_admissible, native_reply, observe_native,
}
use robot_harness.Gate.Output.{
  is_deliverable, can_deliver_result, precedes_success, output_reply, observe_output_accepted,
  no_output_prerequisite, sink_prerequisite, non_delivery_prerequisite, has_prerequisite,
  non_delivery_reply, observe_output_not_delivered, settlement_reply, observe_settlement,
}
use robot_harness.Gate.Readiness.{
  readiness_index, is_identical_readiness, store_readiness, conflict_readiness, compare_readiness,
  readiness_at, observe_rebind_readiness,
}
use robot_harness.Gate.Rebind.{
  earliest_scope_time, is_invalid_scope, is_superseded, new_candidate, prepare, begin_rebind,
  commit, commit_rebind,
}
use robot_harness.Gate.Receipt.{
  new_receipt, records_match, authority_matches, is_record_well_formed, effect_records,
  receipt_records, precedes, follows_all, follows_same_source_records, is_revoked, later_of,
  later_record, latest_record, latest_effect_time, latest_time, is_reached, has_reached_deadline,
  revocation_precedes,
}
use robot_harness.Gate.Startup.{
  startup_slot, startup_order, update_initialization, startup_at, refuses_startup, observe_startup,
  startup_status, close_admission,
}
use robot_harness.Gate.State.{
  AuthorityGate, is_invalid_config, initial, construct, matches_receipt, current_authority_matches,
  current_is_releasable, old_work_closed, later_fact, later_capabilities, later_candidate,
  later_receipt, latest_binding_time, is_current_fact, are_current_capabilities,
  scope_precedes_effects, can_commit_candidate, can_commit,
}
use robot_harness.Gate.Types.{binding_eq, is_valid}

-- A history of calls, evaluated.
unfoldable pub execute : AuthorityGate → List Call → AuthorityGate
unfolding is_empty increment is_invalid_request is_occupied is_out_of_order lacks_capabilities
    new_authority grant admit is_dispatchable dispatch_reply claim_dispatch binding_status
    withdrawn_receipt enter_withdrawn withdraw_live withdraw_binding apply run is_same_report
    is_identical_report is_ill_formed_report conflict store_candidate_report
    compare_candidate_report observe_candidate_report refuses_report report_order
    observe_live_report observe_execution_capabilities supports_execution cancel_reply
    request_cancel time_reply observe_time answers_request stop_reply observe_stop_acknowledgement
    receipt has_resolved_effects has_resolved_closure disposition_of refresh_authority_disposition
    should_stop revoke precedes_dispatch has_native_observation non_submission_reply
    observe_non_submission native_order is_excluded native_event terminal_count classified_outcome
    classify is_native_admissible native_reply observe_native is_deliverable can_deliver_result
    precedes_success output_reply observe_output_accepted no_output_prerequisite sink_prerequisite
    non_delivery_prerequisite has_prerequisite non_delivery_reply observe_output_not_delivered
    settlement_reply observe_settlement readiness_index is_identical_readiness store_readiness
    conflict_readiness compare_readiness readiness_at observe_rebind_readiness earliest_scope_time
    is_invalid_scope is_superseded new_candidate prepare begin_rebind commit commit_rebind
    new_receipt records_match authority_matches is_record_well_formed effect_records receipt_records
    precedes follows_all follows_same_source_records is_revoked later_of later_record latest_record
    latest_effect_time latest_time is_reached has_reached_deadline revocation_precedes startup_slot
    startup_order update_initialization startup_at refuses_startup observe_startup startup_status
    close_admission is_invalid_config initial construct matches_receipt current_authority_matches
    current_is_releasable old_work_closed later_fact later_capabilities later_candidate
    later_receipt latest_binding_time is_current_fact are_current_capabilities
    scope_precedes_effects can_commit_candidate can_commit binding_eq is_valid
execute g cs = run g cs
