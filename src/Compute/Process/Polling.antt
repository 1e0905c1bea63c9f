-- ===== src/Compute/Process/Polling.antt =====
-- drain_events, collect_exit, request_termination_once and poll of ComputeProcess::Impl.
use robot_harness.Base.{
  ℕ, zero, suc, Bool, true, false, not, Option, none, some, ◌+◌, ◌-◌, ◌&&◌, ◌||◌, ◌==◌, ltb, leb,
  has_value, if◌then◌else◌,
}
use robot_harness.Integer.{ℤ, pos}
use robot_harness.Compute.Types.{is_zero}
use robot_harness.Compute.Process.{EventRead, WaitResult, Process, has_terminal, consume}

abbrev pub maximum_frames_per_poll : ℕ
maximum_frames_per_poll = 128

-- `sizeof(Frame)`.
abbrev pub frame_size : ℕ
frame_size = 32

-- EIO, and where errno is 0.
abbrev pub error_of : ℤ → ℤ
error_of error = if is_zero error then pos 5 else error

abbrev pub remember_io_error : ℤ → Process → Process
remember_io_error error p =
    if is_zero p.observed.io_error
    then record p { observed = record p.observed { io_error = error_of error } }
    else p

abbrev pub least : ℕ → ℕ → ℕ
least a b = if ltb a b then a else b

-- A read, which gives no more bytes than it is asked for.
abbrev pub buffered_after : ℕ → Process → ℕ
buffered_after n p = p.buffered_frame_bytes + least (n + 1) (frame_size - p.buffered_frame_bytes)

abbrev pub take_frame : Process → Process
take_frame p =
    consume (p.system.frame p.frames)
      (record p { reads = p.reads + 1; frames = p.frames + 1; buffered_frame_bytes = 0 })

abbrev pub end_events : Process → Process
end_events p = record p {
  reads = p.reads + 1;
  observed = record p.observed {
    event_eof = true;
    malformed =
        p.observed.malformed
        || not (p.buffered_frame_bytes == 0)
        || not (has_terminal p.observed.terminal);
  };
}

abbrev pub count_read : Process → Process
count_read p = record p { reads = p.reads + 1 }

-- A round of the loop of drain_events, `next` being the rounds after it.
unfoldable pub on_event : (ℕ → Process → Process) → ℕ → Process → EventRead → Process
on_event next taken p (EventRead.bytes n) =
    if buffered_after n p == frame_size
    then next (taken + 1) (take_frame p)
    else next taken (record p { reads = p.reads + 1; buffered_frame_bytes = buffered_after n p })
on_event next taken p EventRead.end_of_events = end_events p
on_event next taken p EventRead.try_again = count_read p
on_event next taken p (EventRead.read_failed error) = remember_io_error error (count_read p)

-- The loop, for so many rounds.
unfoldable pub drain : ℕ → ℕ → Process → Process
drain zero taken p = p
drain (suc fuel) taken p =
    if not (ltb taken maximum_frames_per_poll)
    then p
    else on_event (drain fuel) taken p (p.system.read p.reads)

-- A round for each byte of the frames of a poll.
unfoldable pub drain_events : Process → Process
drain_events p = if not p.has_event || p.observed.event_eof then p else drain 4096 0 p

unfoldable pub on_wait : Process → WaitResult → Process
on_wait p (WaitResult.reaped status) = record p {
  owned_pid = none;
  observed = record p.observed { exit_status = some status };
}
on_wait p WaitResult.still_running = p
on_wait p WaitResult.lost = record p {
  owned_pid = none;
  observed = record p.observed { ownership_lost = true };
}
on_wait p (WaitResult.wait_failed error) = record (remember_io_error error p) {
  termination_pending = true;
}

unfoldable pub collect_exit : Process → Process
collect_exit p =
    if not (has_value p.owned_pid) || has_value p.observed.exit_status
    then p
    else on_wait (record p { waits = p.waits + 1 }) (p.system.wait p.waits)

unfoldable pub on_kill : Process → Option ℤ → Process
on_kill p none = p
on_kill p (some error) = record p {
  observed = record p.observed { termination_error = error_of error };
}

-- The members as they stand when SIGKILL is sent.
abbrev pub attempted : Process → Process
attempted p = record p {
  kills = p.kills + 1;
  termination_attempted = true;
  observed = record p.observed { termination_requested = true };
}

unfoldable pub request_termination_once : Process → Process
request_termination_once p =
    if not p.termination_pending
      || p.termination_attempted
      || not (has_value p.owned_pid)
      || has_value p.observed.exit_status
      || p.observed.ownership_lost
    then p
    else on_kill (attempted p) (p.system.kill p.kills)

-- The grace period of a stop that was delivered is over.
abbrev pub is_past_grace : ℕ → Process → Bool
is_past_grace now p = elim p.observed.stop_requested_at [
  | none ↦ false
  | some at ↦ leb at now && leb p.stop_grace_ms (now - at)
]

abbrev pub must_terminate : ℕ → Process → Bool
must_terminate now p =
    p.observed.malformed
    || not (is_zero p.observed.io_error)
    || (p.observed.stop_requested
        && not (has_value p.observed.exit_status)
        && (not p.observed.stop_delivered || is_past_grace now p))

unfoldable pub escalate : ℕ → Process → Process
escalate now p = record p { termination_pending = p.termination_pending || must_terminate now p }

unfoldable pub poll : ℕ → Process → Process
poll now p =
    if not p.observed.launched || p.observed.ownership_lost || p.observed.channels_closed
    then p
    else request_termination_once (escalate now (collect_exit (drain_events p)))
