-- ===== src/Compute/Proceeds/Finish.antt =====
-- The end of a process: what becomes of the result.
use robot_harness.Base.{
  ℕ, String, Bool, true, false, not, ◌≡◌, ◌&&◌, Option, none, some, [], if◌then◌else◌, refl, arith,
  inl, inr, Bool-cases,
}
use robot_harness.Integer.{ℤ}
use robot_harness.Action.Rules.{Relates, Relates-bind}
use robot_harness.Gate.Types.{OperationAuthority, EvidenceRecord}
use robot_harness.Gate.Output.{can_deliver_result}
use robot_harness.Gate.Calls.{output, non_delivery, run}
use robot_harness.Gate.Promises.Delivery.{now-IsPermitted}
use robot_harness.Compute.Types.{
  ComputeProcess, ProcessObservation, ComputeRequest, ComputeResult, expected_sum,
}
use robot_harness.Compute.Host.{ComputeHost}
use robot_harness.Compute.Control.{report_no_output}
use robot_harness.Compute.Reports.{
  report_stop_answer, observe_process_events, accept_pending, report_output, tell_output,
}
use robot_harness.Compute.Finish.{
  has_succeeded, deliver_result, report_outcome, report_outcome_of, report_outcome_once,
  close_channels_of, close_channels, close_and_settle, finish_of, finish, update_shutdown_status,
}
use robot_harness.Compute.Proceeds.{
  Proceeds, IsExact, Proceeds-IsPreorder, proceeds_rules, call-Proceeds, Yields-refl,
}
use robot_harness.Compute.Proceeds.Control.{
  report_native-Proceeds, report_no_output-Proceeds, report_settlement-Proceeds, expire-Proceeds,
}

module _ {X : Type 0} where
  report_stop_answer-Proceeds :
      (a : OperationAuthority) (o : ProcessObservation)
      → Relates {S = ComputeHost X} Proceeds (report_stop_answer a o)
  unfolding report_stop_answer
  report_stop_answer-Proceeds a o = search proceeds_rules depth 16 fits 9000

  pub observe_process_events-Proceeds :
      (a : OperationAuthority) (o : ProcessObservation)
      → Relates {S = ComputeHost X} Proceeds (observe_process_events a o)
  unfolding observe_process_events
  observe_process_events-Proceeds a o =
      search (proceeds_rules, report_native-Proceeds, report_stop_answer-Proceeds) depth 16 fits
        9000

  -- A result that is put into the sink is exact, if the pending one is, and permitted.
  accept_pending-Proceeds :
      (a : OperationAuthority) (r : ComputeResult)
      → a.operation_id ≡ r.operation_id
      → IsExact r
      → Relates {S = ComputeHost X} Proceeds (accept_pending a r)
  unfolding accept_pending run
  accept_pending-Proceeds a r e x = record {
    at = λ s. elim (Bool-cases (not s.evidence_error && can_deliver_result s.gate a)) [
      | inr p ↦ rw p (Proceeds-IsPreorder.reflexive s)
      | inl p ↦ rw p (record {
        calls = [];
        driven = refl;
        yields = inr (now-IsPermitted s.gate a r.operation_id e (ground arith), x);
      })
    ];
  }

  tell_output-Proceeds :
      (a : OperationAuthority) (b : Bool) (reference : String) (e : EvidenceRecord)
      → Relates {S = ComputeHost X} Proceeds (tell_output a b reference e)
  unfolding tell_output
  tell_output-Proceeds a true reference e = call-Proceeds (output _)
  tell_output-Proceeds a false reference e = call-Proceeds (non_delivery _)

  report_output-Proceeds :
      (a : OperationAuthority) (b : Bool) (t : ℕ)
      → Relates {S = ComputeHost X} Proceeds (report_output a b t)
  unfolding report_output
  report_output-Proceeds a b t = search (proceeds_rules, tell_output-Proceeds) depth 12 fits 5000

module _ {X : Type 0} (P : ComputeProcess X) where
  deliver_result-Proceeds :
      (a : OperationAuthority) (q : ComputeRequest) (o : ProcessObservation)
      → o.terminal_value ≡ expected_sum q.iterations
      → Relates Proceeds (deliver_result P a q o)
  unfolding deliver_result
  deliver_result-Proceeds a q o e =
      Relates-bind _ _ Proceeds-IsPreorder (search proceeds_rules) λ t.
        Relates-bind _ _ Proceeds-IsPreorder (expire-Proceeds P t) λ _.
          Relates-bind _ _ Proceeds-IsPreorder (accept_pending-Proceeds a _ refl e)
            λ b. report_output-Proceeds a b t

  succeeded-exact :
      (o : ProcessObservation) (q : ComputeRequest) (s : ℤ)
      → has_succeeded P o q s ≡ true
      → o.terminal_value ≡ expected_sum q.iterations
  succeeded-exact o q s h = ground arith

  delivered_or_not :
      (a : OperationAuthority) (q : ComputeRequest) (o : ProcessObservation) (s : ℤ) (t : ℕ)
      → Relates Proceeds
          (if has_succeeded P o q s then deliver_result P a q o else report_no_output a t)
  delivered_or_not a q o s t = elim (Bool-cases (has_succeeded P o q s)) [
    | inl e ↦ rw e (deliver_result-Proceeds a q o (succeeded-exact o q s e))
    | inr e ↦ rw e (report_no_output-Proceeds a t)
  ]

  report_outcome-Proceeds :
      (a : OperationAuthority) (q : ComputeRequest) (o : ProcessObservation) (s : ℤ) (t : ℕ)
      → Relates Proceeds (report_outcome P a q o s t)
  unfolding report_outcome
  report_outcome-Proceeds a q o s t =
      search (proceeds_rules, report_native-Proceeds, delivered_or_not) depth 12 fits 5000

  report_outcome_of-Proceeds :
      (a : OperationAuthority) (q : ComputeRequest) (o : Option ProcessObservation) (s : Option ℤ)
      (t : ℕ)
      → Relates Proceeds (report_outcome_of P a q o s t)
  unfolding report_outcome_of
  report_outcome_of-Proceeds a q (some o) (some s) t = report_outcome-Proceeds a q o s t
  report_outcome_of-Proceeds a q none s t = search proceeds_rules
  report_outcome_of-Proceeds a q (some o) none t = search proceeds_rules

  report_outcome_once-Proceeds :
      (a : OperationAuthority) (q : ComputeRequest) → Relates Proceeds (report_outcome_once P a q)
  unfolding report_outcome_once
  report_outcome_once-Proceeds a q =
      search (proceeds_rules, expire-Proceeds, report_outcome_of-Proceeds) depth 16 fits 9000

  close_channels_of-Proceeds : (o : Option X) → Relates Proceeds (close_channels_of P o)
  unfolding close_channels_of run
  close_channels_of-Proceeds none = record { at = Proceeds-IsPreorder.reflexive }
  close_channels_of-Proceeds (some x) = record {
    at = λ s. record { calls = []; driven = refl; yields = Yields-refl s.gate s.result };
  }

  close_channels-Proceeds : Relates Proceeds (close_channels P)
  unfolding close_channels
  close_channels-Proceeds = record { at = λ s. (close_channels_of-Proceeds s.process).at s }

  close_and_settle-Proceeds : (a : OperationAuthority) → Relates Proceeds (close_and_settle P a)
  unfolding close_and_settle
  close_and_settle-Proceeds a =
      search (proceeds_rules, close_channels-Proceeds, report_settlement-Proceeds) depth 16 fits
        9000

  finish_of-Proceeds :
      (o : Option ProcessObservation) (a : Option OperationAuthority) (q : Option ComputeRequest)
      → Relates Proceeds (finish_of P o a q)
  unfolding finish_of
  finish_of-Proceeds (some o) (some a) (some q) =
      search (proceeds_rules, report_outcome_once-Proceeds, close_and_settle-Proceeds) depth 14 fits
        5000
  finish_of-Proceeds none a q = search proceeds_rules
  finish_of-Proceeds (some o) none q = search proceeds_rules
  finish_of-Proceeds (some o) (some a) none = search proceeds_rules

  pub finish-Proceeds : Relates Proceeds (finish P)
  unfolding finish
  finish-Proceeds = search (proceeds_rules, finish_of-Proceeds)

  pub update_shutdown_status-Proceeds : Relates Proceeds (update_shutdown_status P)
  unfolding update_shutdown_status
  update_shutdown_status-Proceeds = search proceeds_rules
