-- ===== src/Compute/Process.antt =====
-- ComputeProcess::Impl of src/compute/compute_process.cpp: its members, and the frames it takes in.
use robot_harness.Base.{
  ℕ, String, Bool, true, false, not, Option, none, some, List, [], ◌∷◌, ◌&&◌, ◌||◌, ◌==◌, ltb,
  has_value, if◌then◌else◌,
}
use robot_harness.Integer.{ℤ, pos, negsuc}
use robot_harness.Compute.Types.{ProcessObservation, Terminal}
use robot_harness.Compute.Worker.{Frame, FrameKind, frame_magic, frame_version}
pub mod Polling
pub mod Calls
pub mod Cleanup
pub mod Draining
pub mod Follows
pub mod Undisturbed
pub mod Success
pub mod Signals
pub mod Sparing
pub mod Ending
pub mod Kills

-- What the operating system answers. `bytes n` is a read of n + 1 bytes; `end_of_events` one of none;
-- `try_again` is EAGAIN, EWOULDBLOCK or EINTR.
pub data EventRead : Type 0 where
  bytes : ℕ → EventRead
  end_of_events try_again : EventRead
  read_failed : ℤ → EventRead

-- `still_running` is 0 or EINTR, `lost` is ECHILD.
pub data WaitResult : Type 0 where
  reaped : ℤ → WaitResult
  still_running lost : WaitResult
  wait_failed : ℤ → WaitResult

-- What launch makes of the channels and of posix_spawn: a child, or an error, with what closing the
-- descriptors that launch does not keep gave: the I/O error, 0 for none, and whether the outcome of a
-- close is unknown.
pub data SpawnResult : Type 0 where
  spawned : ℤ → ℤ → Bool → SpawnResult
  not_spawned : ℤ → ℤ → Bool → SpawnResult

-- The k-th call of each kind, and the k-th frame that the bytes make up; of `send`, `kill` and
-- `close`, `none` is success and `some e` the error. `reap` is the waitpid of the destructor, which
-- waits and is made again while it is interrupted: the status of the child, or `none`.
pub record System : Type 0 where
  pub executable_error : ℕ → String → ℤ
  pub spawn : ℕ → SpawnResult
  pub read : ℕ → EventRead
  pub frame : ℕ → Frame
  pub wait : ℕ → WaitResult
  pub reap : Option ℤ
  pub send : ℕ → Option ℤ
  pub kill : ℕ → Option ℤ
  pub close : ℕ → Option ℤ

-- The members of Impl and the numbers of calls made; a process identity of -1 is `none`, and of a
-- descriptor only whether it is there is kept.
pub record Process : Type 0 where
  pub system : System
  pub launches : ℕ
  pub reads : ℕ
  pub frames : ℕ
  pub waits : ℕ
  pub sends : ℕ
  pub kills : ℕ
  pub closes : ℕ
  pub executable : String
  pub iterations : ℕ
  pub stop_grace_ms : ℕ
  pub observed : ProcessObservation
  pub owned_pid : Option ℤ
  pub has_control : Bool
  pub has_event : Bool
  pub buffered_frame_bytes : ℕ
  pub last_iterations : ℕ
  pub termination_pending : Bool
  pub termination_attempted : Bool
  pub channel_cleanup_unknown : Bool

-- A ProcessObservation of no events.
abbrev pub unobserved : ProcessObservation
unobserved = record {
  launched = false;
  started = false;
  malformed = false;
  event_eof = false;
  channels_closed = false;
  stop_requested = false;
  stop_delivered = false;
  stop_acknowledged = false;
  stop_ignored = false;
  termination_requested = false;
  ownership_lost = false;
  launch_error = pos 0;
  io_error = pos 0;
  stop_error = pos 0;
  termination_error = pos 0;
  child_pid = negsuc 0;
  exit_status = none;
  progress = 0;
  dropped_progress = 0;
  terminal = Terminal.no_terminal;
  terminal_iterations = 0;
  terminal_value = 0;
  stop_requested_at = none;
}

abbrev pub new_process : System → String → ℕ → ℕ → Process
new_process system executable iterations stop_grace_ms = record {
  system = system;
  launches = 0;
  reads = 0;
  frames = 0;
  waits = 0;
  sends = 0;
  kills = 0;
  closes = 0;
  executable = executable;
  iterations = iterations;
  stop_grace_ms = stop_grace_ms;
  observed = unobserved;
  owned_pid = none;
  has_control = false;
  has_event = false;
  buffered_frame_bytes = 0;
  last_iterations = 0;
  termination_pending = false;
  termination_attempted = false;
  channel_cleanup_unknown = false;
}

-- `is_known_kind`.
abbrev pub is_known_kind : FrameKind → Bool
is_known_kind FrameKind.unknown = false
is_known_kind _ = true

abbrev pub has_terminal : Terminal → Bool
has_terminal Terminal.no_terminal = false
has_terminal _ = true

-- The first test of consume.
unfoldable pub is_ill_formed : Frame → Process → Bool
is_ill_formed f p =
    not (f.magic == frame_magic)
    || not (f.version == frame_version)
    || not (is_known_kind f.kind)
    || ltb p.iterations f.iterations
    || ltb f.iterations p.last_iterations
    || ltb p.iterations f.dropped_progress
    || ltb f.dropped_progress p.observed.dropped_progress
    || has_terminal p.observed.terminal

-- The tests of the cases of consume.
unfoldable pub is_misplaced : FrameKind → Frame → Process → Bool
is_misplaced FrameKind.ready f p =
    p.observed.started
    || not (f.iterations == 0)
    || not (f.value == 0)
    || not (f.dropped_progress == 0)
is_misplaced FrameKind.progress f p =
    not p.observed.started
    || p.observed.stop_acknowledged
    || not (ltb p.last_iterations f.iterations)
is_misplaced FrameKind.stop_acknowledged f p =
    not p.observed.started
    || not p.observed.stop_requested
    || p.observed.stop_acknowledged
    || p.observed.stop_ignored
    || ltb f.iterations p.observed.progress
is_misplaced FrameKind.stop_ignored f p =
    not p.observed.started
    || not p.observed.stop_requested
    || p.observed.stop_acknowledged
    || p.observed.stop_ignored
    || ltb f.iterations p.observed.progress
is_misplaced FrameKind.completed f p =
    not p.observed.started
    || p.observed.stop_acknowledged
    || not (f.iterations == p.iterations)
    || ltb f.iterations p.observed.progress
is_misplaced FrameKind.cancelled f p =
    not p.observed.started
    || not p.observed.stop_requested
    || not p.observed.stop_acknowledged
    || ltb f.iterations p.observed.progress
is_misplaced FrameKind.unknown f p = false

abbrev pub ended_by : Terminal → Frame → ProcessObservation → ProcessObservation
ended_by terminal f o = record o {
  terminal = terminal;
  terminal_iterations = f.iterations;
  terminal_value = f.value;
}

-- What a case of consume writes.
unfoldable pub observed_after : FrameKind → Frame → ProcessObservation → ProcessObservation
observed_after FrameKind.ready f o = record o { started = true }
observed_after FrameKind.progress f o = record o { progress = f.iterations }
observed_after FrameKind.stop_acknowledged f o = record o { stop_acknowledged = true }
observed_after FrameKind.stop_ignored f o = record o { stop_ignored = true }
observed_after FrameKind.completed f o = ended_by Terminal.completed f o
observed_after FrameKind.cancelled f o = ended_by Terminal.cancelled f o
observed_after FrameKind.unknown f o = o

abbrev pub malformed_by : Process → Process
malformed_by p = record p { observed = record p.observed { malformed = true } }

abbrev pub enter_frame : Frame → Process → Process
enter_frame f p = record p {
  observed = record (observed_after f.kind f p.observed) { dropped_progress = f.dropped_progress };
  last_iterations = f.iterations;
}

unfoldable pub consume : Frame → Process → Process
consume f p =
    if p.observed.malformed
    then p
    else if is_ill_formed f p || is_misplaced f.kind f p
    then malformed_by p
    else enter_frame f p

-- The frames in their order.
unfoldable pub consume_all : List Frame → Process → Process
consume_all [] p = p
consume_all (f ∷ fs) p = consume_all fs (consume f p)
