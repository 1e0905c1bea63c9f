-- ===== src/Compute/Process/Signals.antt =====
-- When a process is killed.
use robot_harness.Base.{
  ℕ, zero, suc, ◌≡◌, Bool, true, false, not, ◌||◌, Option, none, some, ◌+◌, ◌==◌, ltb, has_value,
  arith, refl, ◌∙◌, if◌then◌else◌,
}
use robot_harness.Integer.{ℤ}
use robot_harness.Compute.Types.{ProcessObservation, is_zero}
use robot_harness.Compute.Worker.{Frame, FrameKind}
use robot_harness.Compute.Process.{
  EventRead, WaitResult, Process, observed_after, consume, is_ill_formed, is_misplaced,
}
use robot_harness.Compute.Process.Polling.{
  take_frame, count_read, remember_io_error, on_event, drain, drain_events, on_wait, collect_exit,
  on_kill, attempted, request_termination_once, escalate, poll, buffered_after, frame_size,
  maximum_frames_per_poll,
}

-- The signals sent and the one left to send.
abbrev pub budget : Process → ℕ
budget p = p.kills + (if p.termination_attempted then 0 else 1)

-- A step that sends no signal and neither gets nor loses a child.
pub record Rests (p q : Process) : Type 0 where
  pub same_kills : q.kills ≡ p.kills
  pub same_attempt : q.termination_attempted ≡ p.termination_attempted
  pub same_launch : q.observed.launched ≡ p.observed.launched
  pub same_child : q.owned_pid ≡ p.owned_pid

pub resting : (p : Process) → Rests p p
resting p = record { same_kills = refl; same_attempt = refl; same_launch = refl; same_child = refl }

pub Rests-trans : (p q r : Process) → Rests p q → Rests q r → Rests p r
Rests-trans p q r h k = record {
  same_kills = k.same_kills ∙ h.same_kills;
  same_attempt = k.same_attempt ∙ h.same_attempt;
  same_launch = k.same_launch ∙ h.same_launch;
  same_child = k.same_child ∙ h.same_child;
}

pub Rests-if : (b : Bool) (p q r : Process) → Rests p q → Rests p r → Rests p (if b then q else r)
Rests-if true p q r h k = h
Rests-if false p q r h k = k

launched-observed_after :
    (k : FrameKind) (f : Frame) (o : ProcessObservation)
    → (observed_after k f o).launched ≡ o.launched
unfolding observed_after
launched-observed_after FrameKind.ready f o = refl
launched-observed_after FrameKind.progress f o = refl
launched-observed_after FrameKind.stop_acknowledged f o = refl
launched-observed_after FrameKind.stop_ignored f o = refl
launched-observed_after FrameKind.completed f o = refl
launched-observed_after FrameKind.cancelled f o = refl
launched-observed_after FrameKind.unknown f o = refl

consume-Rests : (f : Frame) (p : Process) → Rests p (consume f p)
unfolding consume
consume-Rests f p = Rests-if p.observed.malformed p _ _ (resting p) (
    Rests-if (is_ill_formed f p || is_misplaced f.kind f p) p _ _
      (record { same_kills = refl; same_attempt = refl; same_launch = refl; same_child = refl })
      (record {
        same_kills = refl;
        same_attempt = refl;
        same_launch = launched-observed_after f.kind f p.observed;
        same_child = refl;
      }))

pub remember_io_error-Rests : (e : ℤ) (p : Process) → Rests p (remember_io_error e p)
remember_io_error-Rests e p =
    Rests-if (is_zero p.observed.io_error) p _ p
      (record { same_kills = refl; same_attempt = refl; same_launch = refl; same_child = refl })
      (resting p)

take_frame-Rests : (p : Process) → Rests p (take_frame p)
take_frame-Rests p =
    let read = record p { reads = p.reads + 1; frames = p.frames + 1; buffered_frame_bytes = 0 } in
    Rests-trans p read (take_frame p)
      (record { same_kills = refl; same_attempt = refl; same_launch = refl; same_child = refl })
      (consume-Rests (p.system.frame p.frames) read)

on_event-Rests :
    (next : ℕ → Process → Process) (n : ℕ) (p : Process) (e : EventRead)
    → ((m : ℕ) (q : Process) → Rests q (next m q))
    → Rests p (on_event next n p e)
unfolding on_event
on_event-Rests next n p (EventRead.bytes m) h =
    let kept = record p { reads = p.reads + 1; buffered_frame_bytes = buffered_after m p } in
    Rests-if (buffered_after m p == frame_size) p _ _
      (Rests-trans p (take_frame p) _ (take_frame-Rests p) (h _ _))
      (Rests-trans p kept _
        (record { same_kills = refl; same_attempt = refl; same_launch = refl; same_child = refl })
        (h _ kept))
on_event-Rests next n p EventRead.end_of_events h = record {
  same_kills = refl;
  same_attempt = refl;
  same_launch = refl;
  same_child = refl;
}
on_event-Rests next n p EventRead.try_again h = record {
  same_kills = refl;
  same_attempt = refl;
  same_launch = refl;
  same_child = refl;
}
on_event-Rests next n p (EventRead.read_failed e) h =
    Rests-trans p (count_read p) _
      (record { same_kills = refl; same_attempt = refl; same_launch = refl; same_child = refl })
      (remember_io_error-Rests e (count_read p))

drain-Rests : (fuel n : ℕ) (p : Process) → Rests p (drain fuel n p)
unfolding drain
drain-Rests zero n p = resting p
drain-Rests (suc fuel) n p =
    Rests-if (not (ltb n maximum_frames_per_poll)) p p _ (resting p)
      (on_event-Rests (drain fuel) n p (p.system.read p.reads) (drain-Rests fuel))

drain_events-Rests : (p : Process) → Rests p (drain_events p)
unfolding drain_events
drain_events-Rests p =
    Rests-if (not p.has_event || p.observed.event_eof) p p _ (resting p) (drain-Rests 4096 0 p)

-- A step that sends at most the signal that is left, and none without a child.
pub record Spares (p q : Process) : Type 0 where
  pub same_budget : budget q ≡ budget p
  pub stays_launched : p.observed.launched ≡ true → q.observed.launched ≡ true
  pub spares :
      p.observed.launched ≡ true → p.owned_pid ≡ none → (q.owned_pid ≡ none) × (q.kills ≡ p.kills)

pub Rests-Spares : (p q : Process) → Rests p q → Spares p q
Rests-Spares p q h = record {
  same_budget = cc (h.same_kills, h.same_attempt);
  stays_launched = λ e. h.same_launch ∙ e;
  spares = λ e n. (h.same_child ∙ n, h.same_kills);
}

pub Spares-trans : (p q r : Process) → Spares p q → Spares q r → Spares p r
Spares-trans p q r h k = record {
  same_budget = k.same_budget ∙ h.same_budget;
  stays_launched = λ e. k.stays_launched (h.stays_launched e);
  spares = λ e n.
      let (n', l) = h.spares e n in
      let (n'', l') = k.spares (h.stays_launched e) n' in (n'', l' ∙ l);
}

pub Spares-if :
    (b : Bool) (p q r : Process)
    → (b ≡ true → Spares p q)
    → (b ≡ false → Spares p r)
    → Spares p (if b then q else r)
Spares-if true p q r h k = h refl
Spares-if false p q r h k = k refl

on_wait-Spares : (p : Process) (w : WaitResult) → Spares p (on_wait p w)
unfolding on_wait
on_wait-Spares p (WaitResult.reaped s) = record {
  same_budget = refl;
  stays_launched = λ e. e;
  spares = λ e n. (refl, refl);
}
on_wait-Spares p WaitResult.still_running = Rests-Spares p p (resting p)
on_wait-Spares p WaitResult.lost = record {
  same_budget = refl;
  stays_launched = λ e. e;
  spares = λ e n. (refl, refl);
}
on_wait-Spares p (WaitResult.wait_failed e) =
    let h = remember_io_error-Rests e p in
    Rests-Spares p _ (record {
      same_kills = h.same_kills;
      same_attempt = h.same_attempt;
      same_launch = h.same_launch;
      same_child = h.same_child;
    })

collect_exit-Spares : (p : Process) → Spares p (collect_exit p)
unfolding collect_exit
collect_exit-Spares p =
    Spares-if (not (has_value p.owned_pid) || has_value p.observed.exit_status) p p _
      (λ e. Rests-Spares p p (resting p))
      λ e.
        let waited = record p { waits = p.waits + 1 } in
        Spares-trans p waited _
          (record { same_budget = refl; stays_launched = λ e. e; spares = λ e n. (n, refl) })
          (on_wait-Spares waited (p.system.wait p.waits))

on_kill-Rests : (p : Process) (o : Option ℤ) → Rests p (on_kill p o)
unfolding on_kill
on_kill-Rests p none = resting p
on_kill-Rests p (some e) = record {
  same_kills = refl;
  same_attempt = refl;
  same_launch = refl;
  same_child = refl;
}

attempted-Spares :
    (p : Process)
    → p.termination_attempted ≡ false
    → has_value p.owned_pid ≡ true
    → Spares p (attempted p)
attempted-Spares p e c = record {
  same_budget = rw e (omega arith);
  stays_launched = λ l. l;
  spares = λ l n. absurd (ground arith);
}

request_termination_once-Spares : (p : Process) → Spares p (request_termination_once p)
unfolding request_termination_once
request_termination_once-Spares p =
    Spares-if _ p p _ (λ e. Rests-Spares p p (resting p))
      λ e.
        Spares-trans p (attempted p) _ (attempted-Spares p (ground arith) (ground arith))
          (Rests-Spares (attempted p) _ (on_kill-Rests (attempted p) (p.system.kill p.kills)))

pub poll-Spares : (now : ℕ) (p : Process) → Spares p (poll now p)
unfolding poll escalate
poll-Spares now p =
    Spares-if _ p p _ (λ e. Rests-Spares p p (resting p))
      λ e.
        let drained = drain_events p in
        let collected = collect_exit drained in
        let escalated = escalate now collected in
        Spares-trans p drained _ (Rests-Spares p drained (drain_events-Rests p)) (
          Spares-trans drained collected _ (collect_exit-Spares drained) (
            Spares-trans collected escalated _
              (record { same_budget = refl; stays_launched = λ e. e; spares = λ e n. (n, refl) })
              (request_termination_once-Spares escalated)))
