-- ===== src/Compute/Process/Undisturbed.antt =====
-- A worker that is not stopped, and the process that takes its frames in.
use robot_harness.Base.{
  ℕ, zero, suc, ◌≡◌, ◌≢◌, ◌<◌, ◌+◌, ◌==◌, ltb, arith, refl, sym, ◌∙◌, inl, inr, Bool-cases,
  if◌then◌else◌, List, [], ◌∷◌, ◌++◌, some, increment, ap, subst, ◌%◌, ◌^◌,
}
use robot_harness.Compute.Worker.{
  Frame, FrameKind, SendResult, Received, Channels, Progress, Exit, send_frame, send_last, stop,
  advanced, after_progress, read_next, rounds, is_sent, frame, command, ended, nothing_yet, broken,
  on_read, on_progress, stop_command,
}
use robot_harness.Compute.Process.{Process, enter_frame, consume, consume_all}
use robot_harness.Compute.Promises.Frames.{IsSound, send_frame-IsSound, advanced-IsSound}
use robot_harness.Compute.Process.Follows.{
  Follows, moved_Follows, takes_progress, progress_Follows, dropped_Follows, consume_all-append,
  HasCompleted, takes_completed, completed_HasCompleted,
}

-- Where the worker exits with code 0, the process has seen the whole work.
abbrev pub Completes : ℕ → Process → Exit → Type 0
Completes limit q e = e.0 ≡ some 0 → HasCompleted limit (consume_all e.1 q)

-- The frames after a send.
abbrev pub frames_after : SendResult → FrameKind → Progress → List Frame
frames_after r k p = if is_sent r then p.frames ++ frame k p ∷ [] else p.frames

last_Completes :
    (limit : ℕ) (p : Progress) (q : Process) (r : SendResult)
    → IsSound limit p
    → Follows limit p (consume_all p.frames q)
    → p.completed ≡ limit
    → Completes limit q (some (if is_sent r then 0 else 21), frames_after r FrameKind.completed p)
last_Completes limit p q SendResult.sent s h e n =
    subst (HasCompleted limit)
      (sym (
        consume_all-append p.frames (frame FrameKind.completed p) q
        ∙ takes_completed limit p (consume_all p.frames q) h e))
      (completed_HasCompleted limit p (consume_all p.frames q) s h e)
last_Completes limit p q SendResult.dropped s h e n = absurd (ground arith)
last_Completes limit p q SendResult.failed s h e n = absurd (ground arith)

stopped_elsewhere : (c : Channels) (p : Progress) → (stop c p).0 ≢ some 0
unfolding stop send_last
stopped_elsewhere c p e =
    elim (Bool-cases (is_sent (send_frame c FrameKind.stop_acknowledged p).1)) [
      | inl a ↦ ground arith
      | inr a ↦ ground arith
    ]

-- From a progress that the process follows and that is ahead of `from`, the loop completes.
abbrev CompletesFrom : ℕ → ℕ → Process → (Progress → Exit) → Type 0
CompletesFrom limit from q next =
    (p : Progress)
    → IsSound limit p
    → Follows limit p (consume_all p.frames q)
    → from < p.completed
    → Completes limit q (next p)

on_progress-Completes :
    (limit : ℕ) (p p' : Progress) (q : Process) (r : SendResult) (n : ℕ) (next : Progress → Exit)
    → Follows limit p (consume_all p.frames q)
    → p'.frames ≡ p.frames
    → p.completed < p'.completed
    → p'.dropped ≡ p.dropped
    → IsSound limit (record p' { sends = n; frames = frames_after r FrameKind.progress p' })
    → CompletesFrom limit p.completed q next
    → Completes limit q (
        on_progress p next (
          after_progress
            (record p' { sends = n; frames = frames_after r FrameKind.progress p' }, r)))
on_progress-Completes limit p p' q SendResult.sent n next h f l d s k =
    let reached = record p' { sends = n; frames = p'.frames ++ frame FrameKind.progress p' ∷ [] } in
    let taken : consume_all reached.frames q
        ≡ enter_frame (frame FrameKind.progress p') (consume_all p.frames q) =
      consume_all-append p'.frames (frame FrameKind.progress p') q
      ∙ ap (λ fs. consume (frame FrameKind.progress p') (consume_all fs q)) f
      ∙ takes_progress limit p p' (consume_all p.frames q) h l s.within d in
    k reached s
      (subst (Follows limit reached) (sym taken) (
        moved_Follows limit p' reached _
          (progress_Follows limit p p' (consume_all p.frames q) h l d) refl refl))
      l
on_progress-Completes limit p p' q SendResult.dropped n next h f l d s k =
    k (record p' { sends = n; dropped = increment p'.dropped })
      (record {
        sum_exact = s.sum_exact;
        frames_exact = s.frames_exact;
        within = s.within;
        fits = s.fits;
      })
      (rw f (
        moved_Follows limit (record p' { dropped = increment p'.dropped }) _ _
          (dropped_Follows limit p p' (consume_all p.frames q) h s.fits l s.within d) refl refl))
      l
on_progress-Completes limit p p' q SendResult.failed n next h f l d s k = λ e. absurd (ground arith)

advanced-grows :
    (limit : ℕ) (p : Progress)
    → IsSound limit p
    → p.completed < limit
    → p.completed < (advanced limit (read_next p)).completed
advanced-grows limit p s l =
    let e : (p.completed + 4096) % 2 ^ 64 ≡ p.completed + 4096 = omega (arith, s.within, s.fits) in
    ground (arith, l)

on_read-Completes :
    (c : Channels) (limit : ℕ) (p : Progress) (q : Process) (next : Progress → Exit) (v : Received)
    → IsSound limit p
    → Follows limit p (consume_all p.frames q)
    → p.completed < limit
    → CompletesFrom limit p.completed q next
    → Completes limit q (on_read c limit p next v)
unfolding send_frame
on_read-Completes c limit p q next (command b) s h l k = elim (Bool-cases (b == stop_command)) [
  | inl e ↦ rw e (λ n. absurd (stopped_elsewhere c (read_next p) n))
  | inr e ↦ rw e (λ n. absurd (ground arith))
]
on_read-Completes c limit p q next ended s h l k = λ n. absurd (ground arith)
on_read-Completes c limit p q next broken s h l k = λ n. absurd (ground arith)
on_read-Completes c limit p q next nothing_yet s h l k =
    let batch = advanced limit (read_next p) in
    let sound : IsSound limit (read_next p) = record {
      sum_exact = s.sum_exact;
      frames_exact = s.frames_exact;
      within = s.within;
      fits = s.fits;
    } in
    on_progress-Completes limit p batch q (c.send batch.sends (frame FrameKind.progress batch))
      (batch.sends + 1) next h refl (advanced-grows limit p s l) refl
      (send_frame-IsSound c FrameKind.progress limit batch
        (advanced-IsSound limit (read_next p) sound))
      k

pub rounds-Completes :
    (c : Channels) (limit fuel : ℕ) (p : Progress) (q : Process)
    → IsSound limit p
    → Follows limit p (consume_all p.frames q)
    → Completes limit q (rounds c limit fuel p)
unfolding rounds send_last send_frame
rounds-Completes c limit zero p q s h = λ n. cc
rounds-Completes c limit (suc fuel) p q s h = elim (Bool-cases (ltb p.completed limit)) [
  | inl e ↦ rw e (
      on_read-Completes c limit p q (rounds c limit fuel) (c.read p.reads) s h (ground arith)
        λ p' s' h' l. rounds-Completes c limit fuel p' q s' h')
  | inr e ↦ rw e (
      last_Completes limit p q (c.send p.sends (frame FrameKind.completed p)) s h
        (ground (arith, s.within)))
]
