-- ===== src/Compute/Process/Cleanup.antt =====
-- cleanup_owned_child of ComputeProcess::Impl, which is its destructor.
use robot_harness.Base.{Bool, true, false, not, Option, none, some, ◌+◌, has_value, if◌then◌else◌}
use robot_harness.Integer.{ℤ, pos, int_eq}
use robot_harness.Compute.Process.{Process}

-- ESRCH.
abbrev pub is_no_process : ℤ → Bool
is_no_process error = int_eq error (pos 3)

-- A close whose failure leaves the outcome unknown.
abbrev pub closed_by : Option ℤ → Process → Process
closed_by none p = p
closed_by (some error) p = record p { channel_cleanup_unknown = true }

unfoldable pub cleanup_control : Process → Process
cleanup_control p =
    if not p.has_control
    then p
    else closed_by (p.system.close p.closes)
        (record p { has_control = false; closes = p.closes + 1 })

unfoldable pub cleanup_event : Process → Process
cleanup_event p =
    if not p.has_event
    then p
    else closed_by (p.system.close p.closes) (record p { has_event = false; closes = p.closes + 1 })

-- The answer is whether the destructor returns; where it does not, it has ended the program.
unfoldable pub cleanup_channels : Process → Process × Bool
cleanup_channels p =
    let p' = cleanup_event (cleanup_control p) in (p', not p'.channel_cleanup_unknown)

unfoldable pub on_reap : Process → Option ℤ → Process × Bool
on_reap p none = (p, false)
on_reap p (some status) =
    cleanup_channels
      (record p { owned_pid = none; observed = record p.observed { exit_status = some status } })

unfoldable pub on_last_kill : Process → Option ℤ → Process × Bool
on_last_kill p none = on_reap p p.system.reap
on_last_kill p (some error) = if is_no_process error then on_reap p p.system.reap else (p, false)

unfoldable pub destroy : Process → Process × Bool
destroy p =
    if p.observed.ownership_lost
    then (p, false)
    else if has_value p.owned_pid
    then on_last_kill (record p { kills = p.kills + 1 }) (p.system.kill p.kills)
    else cleanup_channels p
