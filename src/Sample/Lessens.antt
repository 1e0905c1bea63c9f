-- ===== src/Sample/Lessens.antt =====
-- The work that process_all has before it: polling and handling an event never add to it, and every
-- round takes an event away.
pub mod Polling
use robot_harness.Base.{
  ℕ, zero, suc, ◌≡◌, ◌≤◌, ◌<◌, ◌+◌, refl, arith, true, false, Bool, Option, none, some, List, [],
  ◌∷◌, ◌++◌, length, ◌∙◌, Option-cases, Bool-cases, inl, inr, has_value, if◌then◌else◌,
}
use robot_harness.Action.{
  Action, Outcome, modify, returned, thrown, unfinished, ◌>>=◌, gets, pure, continue,
}
use robot_harness.Action.Rules.{
  IsPreorder, Relates, Relates-modify, Relates-bind, Relates-if, relates_rules,
}
use robot_harness.Gate.Types.{
  OperationAuthority, ControlDecision, StopAcknowledgement, BindingIdentity, NativeEventKind,
}
use robot_harness.Gate.Calls.{Call}
use robot_harness.Sample.Types.{
  SampleResult, NativeCallback, ResultAcceptance, CallbackKind, WorkItem, StagedEvent, Adapter,
  CancellationMode,
}
use robot_harness.Sample.Host.{Host, ask, tell, adapt, read_time, stage, emit_with}
use robot_harness.Sample.Worker.{
  bare_work, deny, answer_stop, request_stop, confirm_non_submission, accept_result,
}
use robot_harness.Sample.Control.{
  discard, discard_prepared, report_stop, apply_control, observe_time_of, observe_time,
  stop_withdrawn, withdraw_binding, poll,
}
use robot_harness.Sample.Events.{
  handle_native, handle_not_submitted, handle_no_output, report_non_delivery, report_acceptance,
  offer, deliver, handle_settled, handle, process_front, process_next, process_events, work_left,
  process_all,
}

-- At most so much more work afterwards.
abbrev Adds : ℕ → Host → Host → Type 0
Adds n s t = (work_left t ≤ work_left s + n) × (t.prepared_authority ≡ s.prepared_authority)

abbrev pub Lessens : Host → Host → Type 0
Lessens s t = work_left t ≤ work_left s

pub Lessens-IsPreorder : IsPreorder Lessens
Lessens-IsPreorder = record { reflexive = λ s. omega arith; transitive = λ s t u h k. omega arith }

pub tell-Lessens : (c : Call) → Relates Lessens (tell c)
unfolding tell work_left
tell-Lessens c = record { at = λ s. omega arith }

pub ask-Lessens : (c : Call) → Relates Lessens (ask c)
unfolding ask work_left
ask-Lessens c = record { at = λ s. omega arith }

pub read_time-Lessens : Relates Lessens read_time
unfolding read_time work_left
read_time-Lessens = record { at = λ s. ground arith }

pub adapt-Lessens : (f : Adapter → Adapter) → Relates Lessens (adapt f)
unfolding adapt work_left
adapt-Lessens f = Relates-modify _ λ s. omega arith

pub ruleset lessens_rules =
    (relates_rules, Lessens-IsPreorder, tell-Lessens, ask-Lessens, read_time-Lessens, adapt-Lessens)

length-append {ℓ} : {A : Type ℓ} (xs : List A) (x : A) → length (xs ++ x ∷ []) ≡ length xs + 1
length-append [] x = refl
length-append (y ∷ xs) x = ground (arith, length-append xs x)

module _ {A B : Type 0} (m n : ℕ) where
  Adds-continue :
      (s t : Host) (r : Outcome A) (f : A → Action Host B)
      → Adds m s t
      → ((a : A) → Relates (Adds n) (f a))
      → Adds (m + n) s (continue r f t).1
  Adds-continue s t (returned a) f h k = let l = (k a).at t in (omega (arith, h.0, l.0), l.1 ∙ h.1)
  Adds-continue s t thrown f h k = (omega (arith, h.0), h.1)
  Adds-continue s t unfinished f h k = (omega (arith, h.0), h.1)

  Adds-bind :
      (x : Action Host A) (f : A → Action Host B)
      → Relates (Adds m) x
      → ((a : A) → Relates (Adds n) (f a))
      → Relates (Adds (m + n)) (x >>= f)
  unfolding ◌>>=◌
  Adds-bind x f h k = record { at = λ s. Adds-continue s (x s).1 (x s).0 f (h.at s) k }

read_time-Adds : Relates (Adds 0) read_time
unfolding read_time work_left
read_time-Adds = record { at = λ s. ground arith }

stage-Adds : (c : NativeCallback) (n : ℕ) → Relates (Adds 1) (stage c n)
unfolding stage work_left
stage-Adds c n = Relates-modify _ λ s.
    (omega (arith, length-append s.staged_events (record { callback = c; observed_at = n })), refl)

adapt-Adds : (f : Adapter → Adapter) → Relates (Adds 0) (adapt f)
unfolding adapt work_left
adapt-Adds f = Relates-modify _ λ s. (omega arith, refl)

silent-Adds : Relates (Adds 1) (pure tt)
unfolding pure
silent-Adds = record { at = λ s. (omega arith, refl) }

looks-Adds : {A : Type 0} (f : Host → A) → Relates (Adds 0) (gets f)
unfolding gets
looks-Adds f = record { at = λ s. (omega arith, refl) }

emit_with-Adds :
    (w : WorkItem) (k : CallbackKind) (n : ℕ) (r : Option SampleResult)
    → Relates (Adds 1) (emit_with w k n r)
unfolding emit_with
emit_with-Adds w k n r = Adds-bind 0 1 _ _ (looks-Adds _) λ silent.
    Relates-if silent _ _ silent-Adds (
      Adds-bind 0 1 _ _ (adapt-Adds _)
        λ _. Adds-bind 0 1 _ _ read_time-Adds λ now. stage-Adds _ now)

deny-Adds : (w : WorkItem) → Relates (Adds 3) (deny w)
unfolding deny
deny-Adds w =
    Adds-bind 1 2 _ _ (emit_with-Adds _ _ _ _)
      λ _. Adds-bind 1 1 _ _ (emit_with-Adds _ _ _ _) λ _. emit_with-Adds _ _ _ _

discarded :
    (s : Host) (a : OperationAuthority)
    → s.prepared_authority ≡ some a
    → Lessens s
        (deny (bare_work a) (record s { prepared_request = none; prepared_authority = none })).1
unfolding work_left
discarded s a e = ground (
  arith,
  (deny-Adds (bare_work a)).at (record s { prepared_request = none; prepared_authority = none }),
)

-- The three reports of a discarded operation are not more than the operation counted for.
discard_known :
    (s : Host) (o : Option OperationAuthority)
    → s.prepared_authority ≡ o
    → Lessens s (discard o s).1
unfolding discard confirm_non_submission ◌>>=◌ pure modify
discard_known s none e = omega arith
discard_known s (some a) e = discarded s a e

pub discard_prepared-Lessens : Relates Lessens discard_prepared
unfolding discard_prepared ◌>>=◌ gets
discard_prepared-Lessens = record { at = λ s. discard_known s s.prepared_authority refl }
