-- ===== src/Sample/Built/Worker.antt =====
-- The operations of the adapter are built from the basic actions.
use robot_harness.Base.{ℕ, Bool, Option, none, some, ◌≡◌, arith}
use robot_harness.Action.{Action}
use robot_harness.Gate.Types.{OperationAuthority}
use robot_harness.Sample.Types.{
  SampleRequest, SampleResult, CallbackKind, NativeCallback, WorkItem, CancellationMode, Adapter,
}
use robot_harness.Sample.Host.{Host, stage, retain, emit_with}
use robot_harness.Sample.Worker.{
  deny, finish, submit_work, dispatch, answer_stop, request_stop, confirm_non_submission,
  take_pending, complete_pending, drain_pending,
}
use robot_harness.Sample.Built.{IsBuilt, follows, IsBuilt-if, built_rules}

stage-IsBuilt : (c : NativeCallback) (n : ℕ) → IsBuilt (stage c n)
unfolding stage
stage-IsBuilt c n = search built_rules

retain-results : (c : NativeCallback) (a : Adapter) → (retain c a).results ≡ a.results
unfolding retain
retain-results c a = ground arith

pub emit_with-IsBuilt :
    (w : WorkItem) (k : CallbackKind) (n : ℕ) (r : Option SampleResult)
    → IsBuilt (emit_with w k n r)
unfolding emit_with
emit_with-IsBuilt w k n r = search (built_rules, stage-IsBuilt, retain-results)

pub deny-IsBuilt : (w : WorkItem) → IsBuilt (deny w)
unfolding deny
deny-IsBuilt w = search (built_rules, emit_with-IsBuilt)

pub finish-IsBuilt : (w : WorkItem) → IsBuilt (finish w)
unfolding finish
finish-IsBuilt w = search (built_rules, emit_with-IsBuilt) depth 14 fits 5000

submit_work-IsBuilt : (w : WorkItem) → IsBuilt (submit_work w)
unfolding submit_work
submit_work-IsBuilt w = search (built_rules, emit_with-IsBuilt, finish-IsBuilt) depth 14 fits 5000

pub dispatch-IsBuilt :
    (a : OperationAuthority) (q : SampleRequest) (permission : Action Host Bool)
    → IsBuilt permission
    → IsBuilt (dispatch a q permission)
unfolding dispatch
dispatch-IsBuilt a q permission h = follows _ _ (search built_rules) λ able.
    follows _ _ (IsBuilt-if able permission _ h (search built_rules))
      λ p. search (built_rules, submit_work-IsBuilt, deny-IsBuilt)

answer_stop-IsBuilt : (m : CancellationMode) → IsBuilt (answer_stop m)
unfolding answer_stop
answer_stop-IsBuilt CancellationMode.cooperative = search built_rules
answer_stop-IsBuilt _ = search built_rules

pub request_stop-IsBuilt : (a : OperationAuthority) → IsBuilt (request_stop a)
unfolding request_stop
request_stop-IsBuilt a = search (built_rules, answer_stop-IsBuilt)

pub confirm_non_submission-IsBuilt : (a : OperationAuthority) → IsBuilt (confirm_non_submission a)
unfolding confirm_non_submission
confirm_non_submission-IsBuilt a = deny-IsBuilt _

take_pending-IsBuilt : (o : Option WorkItem) → IsBuilt (take_pending o)
unfolding take_pending
take_pending-IsBuilt none = search built_rules
take_pending-IsBuilt (some w) = search (built_rules, finish-IsBuilt)

pub complete_pending-IsBuilt : IsBuilt complete_pending
unfolding complete_pending
complete_pending-IsBuilt = search (built_rules, take_pending-IsBuilt)

pub drain_pending-IsBuilt : IsBuilt drain_pending
unfolding drain_pending
drain_pending-IsBuilt = search (built_rules, take_pending-IsBuilt)
