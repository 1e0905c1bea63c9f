-- ===== src/Compute/Promises/Frames.antt =====
-- The frames that the worker sends, and how it exits.
use robot_harness.Base.{
  ℕ, ◌≡◌, ◌≢◌, ◌≤◌, ◌+◌, ◌-◌, true, false, Bool, Option, none, some, List, [], ◌∷◌, ◌++◌, arith,
  refl, inl, inr, ap, ◌∙◌, if◌then◌else◌, Bool-cases, ◌^◌, ◌%◌,
}
use robot_harness.Compute.Worker.{
  Frame, FrameKind, Channels, Progress, Exit, send_frame, send_last, stop, advanced, min, frame,
  is_sent,
}
use robot_harness.Compute.Promises.Sums.{wrapped_sum, add_batch-sum}

-- A frame carries the sum of the squares of its iterations, in 64 bits.
abbrev pub AreExact : List Frame → Type 0
AreExact [] = Unit {0}
AreExact (f ∷ fs) = (f.value ≡ wrapped_sum f.iterations) × AreExact fs

pub AreExact-append :
    (fs : List Frame) (f : Frame)
    → AreExact fs
    → f.value ≡ wrapped_sum f.iterations
    → AreExact (fs ++ f ∷ [])
AreExact-append [] f h e = (e, tt)
AreExact-append (g ∷ fs) f h e = (h.0, AreExact-append fs f h.1 e)

pub record IsSound (limit : ℕ) (p : Progress) : Type 0 where
  pub sum_exact : p.sum ≡ wrapped_sum p.completed
  pub frames_exact : AreExact p.frames
  pub within : p.completed ≤ limit
  pub fits : limit ≤ 100000000

sent_exact :
    (b : Bool) (fs : List Frame) (f : Frame)
    → AreExact fs
    → f.value ≡ wrapped_sum f.iterations
    → AreExact (if b then fs ++ f ∷ [] else fs)
sent_exact true fs f h e = AreExact-append fs f h e
sent_exact false fs f h e = h

pub send_frame-IsSound :
    (c : Channels) (k : FrameKind) (limit : ℕ) (p : Progress)
    → IsSound limit p
    → IsSound limit (send_frame c k p).0
unfolding send_frame
send_frame-IsSound c k limit p h = record {
  sum_exact = h.sum_exact;
  frames_exact = sent_exact _ p.frames (frame k p) h.frames_exact h.sum_exact;
  within = h.within;
  fits = h.fits;
}

no_wrap : (a limit : ℕ) → a ≤ limit → limit ≤ 100000000 → (a + 4096) % 2 ^ 64 ≡ a + 4096
no_wrap a limit h b = omega arith

batch_size :
    (a end limit : ℕ) → end ≡ a + 4096 → a ≤ limit → a + (min end limit - a) ≡ min end limit
batch_size a end limit e h = ground arith

min_within : (end limit : ℕ) → min end limit ≤ limit
min_within end limit = ground arith

pub advanced-IsSound :
    (limit : ℕ) (p : Progress) → IsSound limit p → IsSound limit (advanced limit p)
advanced-IsSound limit p h = record {
  sum_exact =
      add_batch-sum _ p.completed p.sum h.sum_exact
      ∙ ap wrapped_sum
          (batch_size p.completed _ limit (no_wrap p.completed limit h.within h.fits) h.within);
  frames_exact = h.frames_exact;
  within = min_within _ limit;
  fits = h.fits;
}

unfoldable pub last_frame : List Frame → Option Frame
last_frame [] = none
last_frame (f ∷ fs) = let rest = last_frame fs in elim rest [ none ↦ some f | some g ↦ some g ]

pub last_frame-append : (fs : List Frame) (f : Frame) → last_frame (fs ++ f ∷ []) ≡ some f
unfolding last_frame
last_frame-append [] f = refl
last_frame-append (g ∷ fs) f = rw (last_frame-append fs f)

-- The worker has exited; at exit code 0 its last frame is of the whole work, at 20 of a part of it.
abbrev pub EndsWith : FrameKind → ℕ → List Frame → Type 0
EndsWith k n fs = (f : Frame) × (last_frame fs ≡ some f) × (f.kind ≡ k) × (f.iterations ≡ n)

pub record Ends (limit : ℕ) (e : Exit) : Type 0 where
  pub exits : e.0 ≢ none
  pub exact : AreExact e.1
  pub whole : e.0 ≡ some 0 → EndsWith FrameKind.completed limit e.1

pub failed_Ends : (limit : ℕ) (p : Progress) → IsSound limit p → Ends limit (some 21, p.frames)
failed_Ends limit p h = record {
  exits = λ e. cc;
  exact = h.frames_exact;
  whole = λ e. absurd (ground arith);
}

sent_last :
    (k : FrameKind) (b : Bool) (p : Progress) (code : ℕ)
    → (if b then code else 21) ≡ 0
    → EndsWith k p.completed (if b then p.frames ++ frame k p ∷ [] else p.frames)
sent_last k true p code e = (frame k p, last_frame-append p.frames (frame k p), refl, refl)
sent_last k false p code e = absurd (omega (arith, e))

pub send_completed-Ends :
    (c : Channels) (limit : ℕ) (p : Progress)
    → IsSound limit p
    → p.completed ≡ limit
    → Ends limit (send_last c FrameKind.completed 0 p)
unfolding send_last send_frame
send_completed-Ends c limit p h q = record {
  exits = λ e. cc;
  exact = sent_exact _ p.frames _ h.frames_exact h.sum_exact;
  whole = λ e.
      let (f, l, k, i) =
        sent_last FrameKind.completed (is_sent (c.send p.sends (frame FrameKind.completed p))) p 0
          (ground (arith, e)) in
      (f, l, k, i ∙ q);
}

send_cancelled-Ends :
    (c : Channels) (limit : ℕ) (p : Progress)
    → IsSound limit p
    → Ends limit (send_last c FrameKind.cancelled 20 p)
unfolding send_last send_frame
send_cancelled-Ends c limit p h = record {
  exits = λ e. cc;
  exact = sent_exact _ p.frames _ h.frames_exact h.sum_exact;
  whole = λ e. absurd (ground (arith, e));
}

pub stop-Ends : (c : Channels) (limit : ℕ) (p : Progress) → IsSound limit p → Ends limit (stop c p)
unfolding stop
stop-Ends c limit p h =
    let after = send_frame-IsSound c FrameKind.stop_acknowledged limit p h in
    elim (Bool-cases (is_sent (send_frame c FrameKind.stop_acknowledged p).1)) [
      | inl e ↦
          rw e (send_cancelled-Ends c limit (send_frame c FrameKind.stop_acknowledged p).0 after)
      | inr e ↦ rw e (failed_Ends limit (send_frame c FrameKind.stop_acknowledged p).0 after)
    ]
