-- ===== src/Compute/Promises/Agreement.antt =====
-- What the worker sends and what the host expects agree.
use robot_harness.Base.{
  ℕ, zero, suc, ◌≡◌, ◌≤◌, ◌<◌, ◌+◌, some, List, [], ◌∷◌, arith, refl, inl, inr, ap, sym, ◌∙◌,
  Bool-cases, Option-cases, ltb, ◌==◌, increment,
}
use robot_harness.Compute.Types.{expected_sum}
use robot_harness.Compute.Worker.{
  Frame, FrameKind, SendResult, Received, Channels, Progress, Exit, send_frame, advanced,
  after_progress, read_next, rounds, run_worker, is_sent, command, ended, nothing_yet, broken,
  at_start, on_read, on_progress, stop_command,
}
use robot_harness.Compute.Promises.Sums.{
  expected_sum-exact, sum_below, wrapped_sum, wrapped_sum-fits,
}
use robot_harness.Compute.Promises.Frames.{
  AreExact, IsSound, send_frame-IsSound, advanced-IsSound, last_frame, Ends, failed_Ends,
  send_completed-Ends, stop-Ends,
}

-- From a sound progress that is ahead of `from`, the rest of the loop ends.
abbrev EndsFrom : ℕ → ℕ → (Progress → Exit) → Type 0
EndsFrom limit from next =
    (p : Progress) → IsSound limit p → from < p.completed → Ends limit (next p)

read_next-IsSound : (limit : ℕ) (p : Progress) → IsSound limit p → IsSound limit (read_next p)
read_next-IsSound limit p h = record {
  sum_exact = h.sum_exact;
  frames_exact = h.frames_exact;
  within = h.within;
  fits = h.fits;
}

on_progress-Ends :
    (limit from : ℕ) (p p' : Progress) (r : SendResult) (next : Progress → Exit)
    → IsSound limit p
    → IsSound limit p'
    → from < p'.completed
    → EndsFrom limit from next
    → Ends limit (on_progress p next (after_progress (p', r)))
on_progress-Ends limit from p p' SendResult.sent next h h' l k = k p' h' l
on_progress-Ends limit from p p' SendResult.dropped next h h' l k =
    k (record p' { dropped = increment p'.dropped })
      (record {
        sum_exact = h'.sum_exact;
        frames_exact = h'.frames_exact;
        within = h'.within;
        fits = h'.fits;
      })
      l
on_progress-Ends limit from p p' SendResult.failed next h h' l k = failed_Ends limit p h

on_read-Ends :
    (c : Channels) (limit : ℕ) (p : Progress) (next : Progress → Exit) (v : Received)
    → IsSound limit p
    → p.completed < limit
    → EndsFrom limit p.completed next
    → Ends limit (on_read c limit p next v)
unfolding send_frame
on_read-Ends c limit p next (command b) h l k = elim (Bool-cases (b == stop_command)) [
  | inl e ↦ rw e (stop-Ends c limit (read_next p) (read_next-IsSound limit p h))
  | inr e ↦ rw e (failed_Ends limit p h)
]
on_read-Ends c limit p next ended h l k = failed_Ends limit p h
on_read-Ends c limit p next broken h l k = failed_Ends limit p h
on_read-Ends c limit p next nothing_yet h l k =
    let batch = advanced-IsSound limit (read_next p) (read_next-IsSound limit p h) in
    let told = send_frame-IsSound c FrameKind.progress limit (advanced limit (read_next p)) batch in
    on_progress-Ends limit p.completed p _ _ next h told (ground (arith, l)) k

rounds-Ends :
    (c : Channels) (limit fuel : ℕ) (p : Progress)
    → IsSound limit p
    → limit < p.completed + fuel
    → Ends limit (rounds c limit fuel p)
unfolding rounds
rounds-Ends c limit zero p h l = absurd (omega (arith, l, h.within))
rounds-Ends c limit (suc fuel) p h l = elim (Bool-cases (ltb p.completed limit)) [
  | inl e ↦ rw e (
      on_read-Ends c limit p (rounds c limit fuel) (c.read p.reads) h (ground arith)
        λ p' h' l'. rounds-Ends c limit fuel p' h' (omega (arith, l, l')))
  | inr e ↦ rw e (send_completed-Ends c limit p h (ground (arith, h.within)))
]

started_Ends : (c : Channels) (limit : ℕ) → limit ≤ 100000000 → Ends limit (run_worker c limit)
unfolding run_worker wrapped_sum sum_below
started_Ends c limit b =
    let started : IsSound limit at_start = record {
      sum_exact = refl;
      frames_exact = tt;
      within = omega arith;
      fits = b;
    } in
    let told = send_frame-IsSound c FrameKind.ready limit at_start started in
    elim (Bool-cases (is_sent (send_frame c FrameKind.ready at_start).1)) [
      | inl e ↦ rw e (
          rounds-Ends c limit (limit + 1) (send_frame c FrameKind.ready at_start).0 told
            (omega arith))
      | inr e ↦ rw e (failed_Ends limit (send_frame c FrameKind.ready at_start).0 told)
    ]

-- With at most 100000000 iterations and whatever its reads and its sends answer, the worker exits, and
-- every frame that it has sent carries the sum of the squares of i % 1000 for all i below the iterations
-- that it reports, in 64 bits.
pub run_worker-ends :
    (c : Channels) (limit : ℕ)
    → limit ≤ 100000000
    → (code : ℕ) × ((run_worker c limit).0 ≡ some code) × AreExact (run_worker c limit).1
run_worker-ends c limit b = elim (Option-cases (run_worker c limit).0) [
  | inl n ↦ absurd ((started_Ends c limit b).exits n)
  | inr (code, e) ↦ (code, e, (started_Ends c limit b).exact)
]

frame_exact :
    (fs : List Frame) (f : Frame)
    → last_frame fs ≡ some f
    → AreExact fs
    → f.value ≡ wrapped_sum f.iterations
unfolding last_frame
frame_exact [] f e h = cc
frame_exact (g ∷ fs) f e h = elim (Option-cases (last_frame fs)) [
  | inl n ↦ ground (arith, h.0)
  | inr (f', n) ↦ frame_exact fs f (ground arith) h.1
]

-- Where the worker of at most 100000000 iterations exits with code 0, its last frame is kCompleted and
-- carries these iterations and the sum that the host expects of them, which is the sum of the squares of
-- i % 1000 for all i below them, not wrapped.
pub run_worker-agrees :
    (c : Channels) (limit : ℕ)
    → limit ≤ 100000000
    → (run_worker c limit).0 ≡ some 0
    → (f : Frame) × (last_frame (run_worker c limit).1 ≡ some f)
      × (f.kind ≡ FrameKind.completed)
      × (f.iterations ≡ limit)
      × (f.value ≡ expected_sum limit)
      × (f.value ≡ sum_below limit)
run_worker-agrees c limit b e =
    let (f, l, k, i) = (started_Ends c limit b).whole e in
    let exact = frame_exact (run_worker c limit).1 f l (started_Ends c limit b).exact in
    let value : f.value ≡ wrapped_sum limit = exact ∙ ap wrapped_sum i in
    (f, l, k, i, value ∙ sym (expected_sum-exact limit), value ∙ wrapped_sum-fits limit b)
