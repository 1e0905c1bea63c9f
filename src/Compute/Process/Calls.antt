-- ===== src/Compute/Process/Calls.antt =====
-- launch, request_stop and close_channels of ComputeProcess::Impl, and the class as the host takes it.
use robot_harness.Base.{
  ℕ, Bool, true, false, not, Option, none, some, List, [], ◌∷◌, ◌+◌, ◌&&◌, ◌||◌, ◌==◌, ltb,
  has_value, if◌then◌else◌,
}
use robot_harness.Integer.{ℤ, pos}
use robot_harness.Compute.Types.{is_zero, ComputeProcess}
use robot_harness.Compute.Process.{SpawnResult, System, Process, new_process}
use robot_harness.Compute.Process.Polling.{error_of, remember_io_error, poll}

abbrev pub refused_launch : ℤ → Process → Process × Bool
refused_launch error p = (record p { observed = record p.observed { launch_error = error } }, false)

-- EINVAL.
abbrev pub invalid_argument : ℤ
invalid_argument = pos 22

-- The closes of the descriptors that launch does not keep.
abbrev pub closed_others : ℤ → Bool → Process → Process
closed_others io_error is_unknown p = record p {
  channel_cleanup_unknown = p.channel_cleanup_unknown || is_unknown;
  observed = record p.observed {
    io_error = if is_zero p.observed.io_error then io_error else p.observed.io_error;
  };
}

abbrev pub started_with : ℤ → Process → Process
started_with child p = record p {
  owned_pid = some child;
  has_control = true;
  has_event = true;
  observed = record p.observed { launched = true; child_pid = child; launch_error = pos 0 };
}

unfoldable pub on_spawn : Process → SpawnResult → Process × Bool
on_spawn p (SpawnResult.spawned child io_error is_unknown) =
    (closed_others io_error is_unknown (started_with child p), true)
on_spawn p (SpawnResult.not_spawned error io_error is_unknown) =
    refused_launch error (closed_others io_error is_unknown p)

abbrev pub count_launch : Process → Process
count_launch p = record p { launches = p.launches + 1 }

unfoldable pub spawn_child : Process → ℤ → Process × Bool
spawn_child p error =
    if not (is_zero error)
    then refused_launch error (count_launch p)
    else on_spawn (count_launch p) (p.system.spawn p.launches)

unfoldable pub launch : Process → Process × Bool
launch p =
    if p.observed.launched
    then (p, true)
    else if p.observed.stop_requested
    then refused_launch invalid_argument p
    else if p.iterations == 0 || ltb 100000000 p.iterations
    then refused_launch invalid_argument p
    else spawn_child p (p.system.executable_error p.launches p.executable)

-- The answer of `send`.
unfoldable pub on_send : Process → Option ℤ → Process
on_send p none = record p { observed = record p.observed { stop_delivered = true } }
on_send p (some error) = record p {
  termination_pending = true;
  observed = record p.observed { stop_error = error_of error };
}

abbrev pub stop_at : ℕ → Process → Process
stop_at now p = record p {
  observed = record p.observed { stop_requested = true; stop_requested_at = some now };
}

unfoldable pub request_stop : ℕ → Process → Process
request_stop now p =
    if p.observed.stop_requested
    then p
    else if not (has_value p.owned_pid) || has_value p.observed.exit_status || not p.has_control
    then record (stop_at now p) {
      termination_pending = has_value p.owned_pid && not (has_value p.observed.exit_status);
    }
    else on_send (record (stop_at now p) { sends = p.sends + 1 }) (p.system.send p.sends)

-- The answer of `close`.
unfoldable pub on_close : Process → Option ℤ → Process × Bool
on_close p none = (p, true)
on_close p (some error) =
    (record (remember_io_error error p) { channel_cleanup_unknown = true }, false)

abbrev pub count_close : Process → Process
count_close p = record p { closes = p.closes + 1 }

-- close_once, of either descriptor.
unfoldable pub close_control : Process → Process × Bool
close_control p =
    if not p.has_control
    then (p, true)
    else on_close (count_close (record p { has_control = false })) (p.system.close p.closes)

unfoldable pub close_event : Process → Process × Bool
close_event p =
    if not p.has_event
    then (p, true)
    else on_close (count_close (record p { has_event = false })) (p.system.close p.closes)

unfoldable pub close_both : Process → Process × Bool
close_both p =
    let (p', control_closed) = close_control p in
    let (p'', event_closed) = close_event p' in
    let is_closed = control_closed && event_closed in
    (record p'' { observed = record p''.observed { channels_closed = is_closed } }, is_closed)

unfoldable pub close_channels : Process → Process × Bool
close_channels p =
    if p.observed.channels_closed
    then (p, true)
    else if not (has_value p.observed.exit_status)
        || not p.observed.event_eof
        || p.observed.ownership_lost
        || p.channel_cleanup_unknown
    then (p, false)
    else close_both p

-- The calls of a host.
pub data ProcessCall : Type 0 where
  launches closes : ProcessCall
  stops polls : ℕ → ProcessCall

unfoldable pub call_process : ProcessCall → Process → Process
call_process ProcessCall.launches p = (launch p).0
call_process ProcessCall.closes p = (close_channels p).0
call_process (ProcessCall.stops now) p = request_stop now p
call_process (ProcessCall.polls now) p = poll now p

unfoldable pub call_all : List ProcessCall → Process → Process
call_all [] p = p
call_all (c ∷ cs) p = call_all cs (call_process c p)

-- ComputeProcess, every process of a host with the same operating system, whose macros on exit
-- statuses are parameters.
abbrev pub process_of : System → (ℤ → Option ℤ) → (ℤ → Option ℤ) → ComputeProcess Process
process_of system exit_code terminating_signal = record {
  create = new_process system;
  launch = launch;
  request_stop = request_stop;
  poll = poll;
  close_channels = close_channels;
  observation = λ p. p.observed;
  exit_code = exit_code;
  terminating_signal = terminating_signal;
}
