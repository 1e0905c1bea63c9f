-- ===== src/Compute/Process/Sparing.antt =====
-- That the calls of a host send at most the signal that is left.
use robot_harness.Base.{
  ℕ, ◌≡◌, Bool, true, false, not, ◌||◌, Option, none, some, List, [], ◌∷◌, ◌+◌, ◌==◌, ltb,
  has_value, arith, refl, if◌then◌else◌, Bool-cases, inl, inr,
}
use robot_harness.Integer.{ℤ}
use robot_harness.Compute.Types.{is_zero}
use robot_harness.Compute.Process.{SpawnResult, Process}
use robot_harness.Compute.Process.Calls.{
  launch, spawn_child, on_spawn, on_send, request_stop, on_close, close_control, close_event,
  close_both, close_channels, stop_at, count_launch, count_close, refused_launch, invalid_argument,
  ProcessCall, call_process, call_all,
}
use robot_harness.Compute.Process.Signals.{
  Rests, resting, Rests-trans, Rests-if, remember_io_error-Rests, Spares, Rests-Spares,
  Spares-trans, poll-Spares,
}

on_spawn-Spares :
    (p : Process) (s : SpawnResult) → p.observed.launched ≡ false → Spares p (on_spawn p s).0
unfolding on_spawn
on_spawn-Spares p (SpawnResult.spawned child io is_unknown) n = record {
  same_budget = refl;
  stays_launched = λ e. refl;
  spares = λ e c. absurd (ground arith);
}
on_spawn-Spares p (SpawnResult.not_spawned error io is_unknown) n = record {
  same_budget = refl;
  stays_launched = λ e. e;
  spares = λ e c. (c, refl);
}

refused_launch-Rests : (e : ℤ) (p : Process) → Rests p (refused_launch e p).0
refused_launch-Rests e p = record {
  same_kills = refl;
  same_attempt = refl;
  same_launch = refl;
  same_child = refl;
}

spawn_child-Spares :
    (p : Process) (e : ℤ) → p.observed.launched ≡ false → Spares p (spawn_child p e).0
unfolding spawn_child
spawn_child-Spares p e n = elim (Bool-cases (is_zero e)) [
  | inl z ↦ rw z (
      Spares-trans p (count_launch p) _ (Rests-Spares p _ (counted p))
        (on_spawn-Spares (count_launch p) (p.system.spawn p.launches) n))
  | inr z ↦ rw z (
      Spares-trans p (count_launch p) _ (Rests-Spares p _ (counted p))
        (Rests-Spares (count_launch p) _ (refused_launch-Rests e (count_launch p))))
]
  where
    counted : (p : Process) → Rests p (count_launch p)
    counted p = record {
      same_kills = refl;
      same_attempt = refl;
      same_launch = refl;
      same_child = refl;
    }

-- A step that also answers.
Spares-answer :
    (b : Bool) (p : Process) (q r : Process × Bool)
    → (b ≡ true → Spares p q.0)
    → (b ≡ false → Spares p r.0)
    → Spares p (if b then q else r).0
Spares-answer true p q r h k = h refl
Spares-answer false p q r h k = k refl

launch-Spares : (p : Process) → Spares p (launch p).0
unfolding launch
launch-Spares p =
    Spares-answer p.observed.launched p _ _ (λ e. Rests-Spares p p (resting p))
      λ n.
        Spares-answer p.observed.stop_requested p _ _
          (λ e. Rests-Spares p _ (refused_launch-Rests invalid_argument p))
          λ e.
            Spares-answer (p.iterations == 0 || ltb 100000000 p.iterations) p _ _
              (λ e. Rests-Spares p _ (refused_launch-Rests invalid_argument p))
              λ e. spawn_child-Spares p _ n

on_send-Rests : (p : Process) (o : Option ℤ) → Rests p (on_send p o)
unfolding on_send
on_send-Rests p none = record {
  same_kills = refl;
  same_attempt = refl;
  same_launch = refl;
  same_child = refl;
}
on_send-Rests p (some e) = record {
  same_kills = refl;
  same_attempt = refl;
  same_launch = refl;
  same_child = refl;
}

request_stop-Rests : (now : ℕ) (p : Process) → Rests p (request_stop now p)
unfolding request_stop
request_stop-Rests now p =
    let sending = record (stop_at now p) { sends = p.sends + 1 } in
    Rests-if p.observed.stop_requested p p _ (resting p) (
      Rests-if
        (not (has_value p.owned_pid) || has_value p.observed.exit_status || not p.has_control) p _ _
        (record { same_kills = refl; same_attempt = refl; same_launch = refl; same_child = refl })
        (Rests-trans p sending _
          (record { same_kills = refl; same_attempt = refl; same_launch = refl; same_child = refl })
          (on_send-Rests sending (p.system.send p.sends))))

on_close-Rests : (p : Process) (o : Option ℤ) → Rests p (on_close p o).0
unfolding on_close
on_close-Rests p none = resting p
on_close-Rests p (some e) =
    let h = remember_io_error-Rests e p in
    record {
      same_kills = h.same_kills;
      same_attempt = h.same_attempt;
      same_launch = h.same_launch;
      same_child = h.same_child;
    }

Rests-answer :
    (b : Bool) (p : Process) (q r : Process × Bool)
    → Rests p q.0
    → Rests p r.0
    → Rests p (if b then q else r).0
Rests-answer true p q r h k = h
Rests-answer false p q r h k = k

close_control-Rests : (p : Process) → Rests p (close_control p).0
unfolding close_control
close_control-Rests p =
    let closing = count_close (record p { has_control = false }) in
    Rests-answer (not p.has_control) p _ _ (resting p) (
      Rests-trans p closing _
        (record { same_kills = refl; same_attempt = refl; same_launch = refl; same_child = refl })
        (on_close-Rests closing (p.system.close p.closes)))

close_event-Rests : (p : Process) → Rests p (close_event p).0
unfolding close_event
close_event-Rests p =
    let closing = count_close (record p { has_event = false }) in
    Rests-answer (not p.has_event) p _ _ (resting p) (
      Rests-trans p closing _
        (record { same_kills = refl; same_attempt = refl; same_launch = refl; same_child = refl })
        (on_close-Rests closing (p.system.close p.closes)))

close_both-Rests : (p : Process) → Rests p (close_both p).0
unfolding close_both
close_both-Rests p =
    let p' = (close_control p).0 in
    let h = Rests-trans p p' (close_event p').0 (close_control-Rests p) (close_event-Rests p') in
    record {
      same_kills = h.same_kills;
      same_attempt = h.same_attempt;
      same_launch = h.same_launch;
      same_child = h.same_child;
    }

close_channels-Rests : (p : Process) → Rests p (close_channels p).0
unfolding close_channels
close_channels-Rests p = Rests-answer p.observed.channels_closed p _ _ (resting p) (
    Rests-answer
      (not (has_value p.observed.exit_status)
        || not p.observed.event_eof
        || p.observed.ownership_lost
        || p.channel_cleanup_unknown)
      p _ _ (resting p) (close_both-Rests p))

call_process-Spares : (c : ProcessCall) (p : Process) → Spares p (call_process c p)
unfolding call_process
call_process-Spares ProcessCall.launches p = launch-Spares p
call_process-Spares ProcessCall.closes p = Rests-Spares p _ (close_channels-Rests p)
call_process-Spares (ProcessCall.stops now) p = Rests-Spares p _ (request_stop-Rests now p)
call_process-Spares (ProcessCall.polls now) p = poll-Spares now p

pub call_all-Spares : (cs : List ProcessCall) (p : Process) → Spares p (call_all cs p)
unfolding call_all
call_all-Spares [] p = Rests-Spares p p (resting p)
call_all-Spares (c ∷ cs) p =
    Spares-trans p (call_process c p) _ (call_process-Spares c p)
      (call_all-Spares cs (call_process c p))
