-- ===== src/Compute/Process/Follows.antt =====
-- What a process makes of the frames of a worker that is not stopped.
use robot_harness.Base.{
  ℕ, ◌≡◌, ◌≤◌, ◌<◌, true, false, ◌+◌, ◌==◌, ltb, arith, refl, sym, ◌∙◌, List, [], ◌∷◌, ◌++◌,
  increment, ap, ◌%◌, ◌^◌,
}
use robot_harness.Compute.Types.{Terminal, expected_sum}
use robot_harness.Compute.Worker.{Frame, FrameKind, Progress, frame}
use robot_harness.Compute.Process.{
  Process, is_ill_formed, is_misplaced, observed_after, enter_frame, consume, consume_all,
}
use robot_harness.Compute.Promises.Sums.{expected_sum-exact, wrapped_sum}
use robot_harness.Compute.Promises.Frames.{IsSound}

-- The process has taken in the frames of the worker, which goes on.
pub record Follows (limit : ℕ) (p : Progress) (q : Process) : Type 0 where
  pub same_work : q.iterations ≡ limit
  pub started : q.observed.started ≡ true
  pub well_formed : q.observed.malformed ≡ false
  pub unstopped : q.observed.stop_acknowledged ≡ false
  pub unended : q.observed.terminal ≡ Terminal.no_terminal
  pub last_before : q.last_iterations ≤ p.completed
  pub shown_before : q.observed.progress ≤ p.completed
  pub dropped_before : q.observed.dropped_progress ≤ p.dropped
  pub few_dropped : p.dropped ≤ p.completed

-- Only the iterations and the dropped frames matter.
pub moved_Follows :
    (limit : ℕ) (p p' : Progress) (q : Process)
    → Follows limit p q
    → p'.completed ≡ p.completed
    → p'.dropped ≡ p.dropped
    → Follows limit p' q
moved_Follows limit p p' q h e d = record {
  same_work = h.same_work;
  started = h.started;
  well_formed = h.well_formed;
  unstopped = h.unstopped;
  unended = h.unended;
  last_before = omega (arith, h.last_before, e);
  shown_before = omega (arith, h.shown_before, e);
  dropped_before = omega (arith, h.dropped_before, d);
  few_dropped = omega (arith, h.few_dropped, e, d);
}

pub not_less : (a b : ℕ) → b ≤ a → ltb a b ≡ false
not_less a b h = ground (arith, h)

less : (a b : ℕ) → a < b → ltb a b ≡ true
less a b h = ground (arith, h)

pub takes_progress :
    (limit : ℕ) (p p' : Progress) (q : Process)
    → Follows limit p q
    → p.completed < p'.completed
    → p'.completed ≤ limit
    → p'.dropped ≡ p.dropped
    → consume (frame FrameKind.progress p') q ≡ enter_frame (frame FrameKind.progress p') q
unfolding consume is_ill_formed is_misplaced
takes_progress limit p p' q h l b d =
    let w1 = not_less q.iterations p'.completed (omega (arith, h.same_work, b)) in
    let w2 = not_less p'.completed q.last_iterations (omega (arith, h.last_before, l)) in
    let w3 =
      not_less q.iterations p'.dropped (omega (arith, h.same_work, b, h.few_dropped, d, l)) in
    let w4 = not_less p'.dropped q.observed.dropped_progress (omega (arith, h.dropped_before, d)) in
    let w5 = less q.last_iterations p'.completed (omega (arith, h.last_before, l)) in
    rw (h.well_formed, w1, w2, w3, w4, w5, h.started, h.unstopped, h.unended)

-- The worker after a progress frame that the process took in.
pub progress_Follows :
    (limit : ℕ) (p p' : Progress) (q : Process)
    → Follows limit p q
    → p.completed < p'.completed
    → p'.dropped ≡ p.dropped
    → Follows limit p' (enter_frame (frame FrameKind.progress p') q)
unfolding observed_after
progress_Follows limit p p' q h l d = record {
  same_work = h.same_work;
  started = h.started;
  well_formed = h.well_formed;
  unstopped = h.unstopped;
  unended = h.unended;
  last_before = omega arith;
  shown_before = omega arith;
  dropped_before = omega arith;
  few_dropped = omega (arith, h.few_dropped, l, d);
}

-- The worker after a progress frame that was not sent.
pub dropped_Follows :
    (limit : ℕ) (p p' : Progress) (q : Process)
    → Follows limit p q
    → limit ≤ 100000000
    → p.completed < p'.completed
    → p'.completed ≤ limit
    → p'.dropped ≡ p.dropped
    → Follows limit (record p' { dropped = increment p'.dropped }) q
unfolding increment
dropped_Follows limit p p' q h f l b d =
    let e : (p'.dropped + 1) % 2 ^ 64 ≡ p'.dropped + 1 = omega (arith, d, h.few_dropped, l, b, f) in
    record {
      same_work = h.same_work;
      started = h.started;
      well_formed = h.well_formed;
      unstopped = h.unstopped;
      unended = h.unended;
      last_before = omega (arith, h.last_before, l);
      shown_before = omega (arith, h.shown_before, l);
      dropped_before = omega (arith, h.dropped_before, e, d);
      few_dropped = omega (arith, e, h.few_dropped, d, l);
    }

pub consume_all-append :
    (fs : List Frame) (f : Frame) (q : Process)
    → consume_all (fs ++ f ∷ []) q ≡ consume f (consume_all fs q)
unfolding consume_all
consume_all-append [] f q = refl
consume_all-append (g ∷ fs) f q = consume_all-append fs f (consume g q)

-- The process has seen the whole work, with the sum that the host expects.
pub record HasCompleted (limit : ℕ) (q : Process) : Type 0 where
  pub completed : q.observed.terminal ≡ Terminal.completed
  pub whole : q.observed.terminal_iterations ≡ limit
  pub expected : q.observed.terminal_value ≡ expected_sum limit
  pub undamaged : q.observed.malformed ≡ false

pub takes_completed :
    (limit : ℕ) (p : Progress) (q : Process)
    → Follows limit p q
    → p.completed ≡ limit
    → consume (frame FrameKind.completed p) q ≡ enter_frame (frame FrameKind.completed p) q
unfolding consume is_ill_formed is_misplaced
takes_completed limit p q h e =
    let w1 = not_less q.iterations p.completed (omega (arith, h.same_work, e)) in
    let w2 = not_less p.completed q.last_iterations h.last_before in
    let w3 = not_less q.iterations p.dropped (omega (arith, h.same_work, e, h.few_dropped)) in
    let w4 = not_less p.dropped q.observed.dropped_progress h.dropped_before in
    let w5 : (p.completed == q.iterations) ≡ true = ground (arith, h.same_work) in
    let w6 = not_less p.completed q.observed.progress h.shown_before in
    rw (h.well_formed, w1, w2, w3, w4, w5, w6, h.started, h.unstopped, h.unended)

pub completed_HasCompleted :
    (limit : ℕ) (p : Progress) (q : Process)
    → IsSound limit p
    → Follows limit p q
    → p.completed ≡ limit
    → HasCompleted limit (enter_frame (frame FrameKind.completed p) q)
unfolding observed_after
completed_HasCompleted limit p q s h e = record {
  completed = refl;
  whole = e;
  expected = s.sum_exact ∙ ap wrapped_sum e ∙ sym (expected_sum-exact limit);
  undamaged = h.well_formed;
}
