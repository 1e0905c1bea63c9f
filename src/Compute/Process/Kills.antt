-- ===== src/Compute/Process/Kills.antt =====
-- How often a process is killed, over all calls of a host and its destructor.
use robot_harness.Base.{ℕ, ◌≡◌, ◌≤◌, true, none, List, ◌+◌, arith, String}
use robot_harness.Compute.Process.{System, Process, new_process}
use robot_harness.Compute.Process.Calls.{ProcessCall, call_all}
use robot_harness.Compute.Process.Cleanup.{destroy}
use robot_harness.Compute.Process.Sparing.{call_all-Spares}
use robot_harness.Compute.Process.Ending.{last_kills, destroy-kills, no_last_kills}

-- Whatever a host calls and whatever the operating system answers, a process sends SIGKILL at most once
-- in these calls; its destructor sends one more where the child was neither reaped nor lost by then,
-- and none otherwise.
pub call_all-kills :
    (system : System) (executable : String) (iterations grace : ℕ) (cs : List ProcessCall)
    → let p = call_all cs (new_process system executable iterations grace) in
      (p.kills ≤ 1) × ((destroy p).0.kills ≡ p.kills + last_kills p)
call_all-kills system executable iterations grace cs =
    let started = new_process system executable iterations grace in
    (ground (arith, (call_all-Spares cs started).same_budget), destroy-kills (call_all cs started))

-- Once the child of a launched process was reaped or lost, no call sends a signal any more, and neither
-- does the destructor, so none reaches another process that has got its identity.
pub call_all-spares :
    (p : Process) (cs : List ProcessCall)
    → p.observed.launched ≡ true
    → p.owned_pid ≡ none
    → ((call_all cs p).owned_pid ≡ none)
      × ((call_all cs p).kills ≡ p.kills)
      × ((destroy (call_all cs p)).0.kills ≡ p.kills)
call_all-spares p cs l n =
    let (gone, same) = (call_all-Spares cs p).spares l n in
    (
      gone,
      same,
      omega (arith, destroy-kills (call_all cs p), no_last_kills (call_all cs p) gone, same),
    )
