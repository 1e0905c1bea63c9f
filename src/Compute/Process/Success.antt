-- ===== src/Compute/Process/Success.antt =====
-- What a worker sends and exits with, to the host that asked for it.
use robot_harness.Base.{
  ℕ, ◌≡◌, ◌≤◌, true, false, ◌+◌, ◌==◌, arith, refl, sym, if◌then◌else◌, [], ◌∷◌, some, subst,
}
use robot_harness.Integer.{ℤ, pos}
use robot_harness.Compute.Types.{Terminal, expected_sum, ComputeProcess, ComputeRequest, is_zero}
use robot_harness.Compute.Reports.{exited_with}
use robot_harness.Compute.Finish.{has_succeeded}
use robot_harness.Compute.Worker.{
  FrameKind, SendResult, Channels, send_frame, rounds, run_worker, is_sent, frame, at_start,
}
use robot_harness.Compute.Process.{
  Process, is_ill_formed, is_misplaced, observed_after, enter_frame, consume, consume_all,
}
use robot_harness.Compute.Promises.Sums.{wrapped_sum, sum_below}
use robot_harness.Compute.Process.Follows.{Follows, not_less, moved_Follows, HasCompleted}
use robot_harness.Compute.Process.Undisturbed.{Completes, frames_after, rounds-Completes}

-- A process that waits for its first frame.
pub record IsFresh (limit : ℕ) (q : Process) : Type 0 where
  pub same_work : q.iterations ≡ limit
  pub silent : q.observed.started ≡ false
  pub well_formed : q.observed.malformed ≡ false
  pub unstopped : q.observed.stop_acknowledged ≡ false
  pub unended : q.observed.terminal ≡ Terminal.no_terminal
  pub nothing_last : q.last_iterations ≡ 0
  pub nothing_shown : q.observed.progress ≡ 0
  pub nothing_dropped : q.observed.dropped_progress ≡ 0

takes_ready :
    (limit : ℕ) (q : Process)
    → IsFresh limit q
    → consume (frame FrameKind.ready at_start) q ≡ enter_frame (frame FrameKind.ready at_start) q
unfolding consume is_ill_formed is_misplaced
takes_ready limit q h =
    let w1 = not_less q.iterations 0 (omega arith) in
    let w2 = not_less 0 q.last_iterations (omega (arith, h.nothing_last)) in
    let w4 = not_less 0 q.observed.dropped_progress (omega (arith, h.nothing_dropped)) in
    rw (h.well_formed, w1, w2, w4, h.silent, h.unended)

ready-Follows :
    (limit : ℕ) (q : Process)
    → IsFresh limit q
    → Follows limit at_start (enter_frame (frame FrameKind.ready at_start) q)
unfolding observed_after
ready-Follows limit q h = record {
  same_work = h.same_work;
  started = refl;
  well_formed = h.well_formed;
  unstopped = h.unstopped;
  unended = h.unended;
  last_before = omega arith;
  shown_before = omega (arith, h.nothing_shown);
  dropped_before = omega arith;
  few_dropped = omega arith;
}

ready-Completes :
    (c : Channels) (limit : ℕ) (q : Process) (r : SendResult)
    → IsFresh limit q
    → limit ≤ 100000000
    → Completes limit q (
        if is_sent r
        then rounds c limit
            (limit + 1)
            (record at_start { sends = 1; frames = frames_after r FrameKind.ready at_start })
        else (some 21, frames_after r FrameKind.ready at_start))
unfolding consume_all wrapped_sum sum_below
ready-Completes c limit q SendResult.sent h b =
    let started = record at_start { sends = 1; frames = frame FrameKind.ready at_start ∷ [] } in
    rounds-Completes c limit (limit + 1) started q
      (record { sum_exact = refl; frames_exact = (refl, tt); within = omega arith; fits = b })
      (subst (Follows limit started) (sym (takes_ready limit q h))
        (moved_Follows limit at_start started _ (ready-Follows limit q h) refl refl))
ready-Completes c limit q SendResult.dropped h b = λ n. absurd (ground arith)
ready-Completes c limit q SendResult.failed h b = λ n. absurd (ground arith)

run_worker-Completes :
    (c : Channels) (limit : ℕ) (q : Process)
    → IsFresh limit q
    → limit ≤ 100000000
    → Completes limit q (run_worker c limit)
unfolding run_worker send_frame
run_worker-Completes c limit q h b =
    ready-Completes c limit q (c.send 0 (frame FrameKind.ready at_start)) h b

eq_refl : (n : ℕ) → (n == n) ≡ true
eq_refl n = ground arith

completed_succeeds :
    {X : Type 0} (P : ComputeProcess X) (limit : ℕ) (q : Process) (request : ComputeRequest)
    (status : ℤ)
    → HasCompleted limit q
    → is_zero q.observed.io_error ≡ true
    → exited_with (P.exit_code status) (pos 0) ≡ true
    → request.iterations ≡ limit
    → has_succeeded P q.observed request status ≡ true
completed_succeeds P limit q request status h z e i = simp (
  h.undamaged,
  z,
  e,
  h.completed,
  h.whole,
  h.expected,
  i,
  eq_refl limit,
  eq_refl (expected_sum limit),
)

-- Where the worker exits with code 0, whatever frames of progress were dropped, a process that waited
-- for its first frame, took in all that the worker sent and had no I/O error is a success to the host
-- that asked for these iterations, at most 100000000.
pub run_worker-succeeds :
    {X : Type 0} (P : ComputeProcess X) (c : Channels) (q : Process) (request : ComputeRequest)
    (status : ℤ)
    → request.iterations ≤ 100000000
    → IsFresh request.iterations q
    → (run_worker c request.iterations).0 ≡ some 0
    → exited_with (P.exit_code status) (pos 0) ≡ true
    → is_zero (consume_all (run_worker c request.iterations).1 q).observed.io_error ≡ true
    → has_succeeded P (consume_all (run_worker c request.iterations).1 q).observed request status
      ≡ true
run_worker-succeeds P c q request status b h n e z =
    completed_succeeds P request.iterations (consume_all (run_worker c request.iterations).1 q)
      request status (run_worker-Completes c request.iterations q h b n) z e refl
