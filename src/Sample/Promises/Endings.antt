-- ===== src/Sample/Promises/Endings.antt =====
-- Every command of a client ends, and the queue and the host with it.
use robot_harness.Base.{ℕ, ◌≡◌, List, [], ◌∷◌, some, inl, inr, arith, subst, Option-cases}
use robot_harness.Action.{Outcome, returned, thrown, unfinished}
use robot_harness.Gate.State.{construct}
use robot_harness.Sample.Types.{CompletionMode, gate_config}
use robot_harness.Sample.Host.{Host, host}
use robot_harness.Sample.Events.{process_all}
use robot_harness.Sample.Commands.{Command, execute, execute_all}
use robot_harness.Sample.Built.Events.{process_all-IsBuilt}
use robot_harness.Sample.Built.Commands.{execute-IsBuilt}
use robot_harness.Sample.Steady.{IsNondecreasing, IsSteady, IsBuilt-Returns}
use robot_harness.Sample.Queue.{Empties, process_all-Empties}

host-IsSteady :
    (mode : CompletionMode) (clock : ℕ → ℕ) (h : Host)
    → IsNondecreasing clock
    → host mode clock ≡ some h
    → IsSteady h
unfolding host
host-IsSteady mode clock h k e = elim (Option-cases (construct (gate_config (clock 0)))) [
  | inl n ↦ ground arith
  | inr (g, n) ↦ record {
    nondecreasing = subst IsNondecreasing (ground arith) k;
    next_is_later = ground (arith, k.at 0 1);
  }
]

execute_all-IsSteady : (cs : List Command) (h : Host) → IsSteady h → IsSteady (execute_all cs h)
unfolding execute_all
execute_all-IsSteady [] h k = k
execute_all-IsSteady (c ∷ cs) h k =
    execute_all-IsSteady cs (execute c h).1 ((IsBuilt-Returns (execute-IsBuilt c)).at h k).1

-- With a clock that never moves backwards every command, after any others, returns: it does not throw,
-- and its loop over the staged events ends within its rounds.
pub execute-returns :
    (mode : CompletionMode) (clock : ℕ → ℕ) (h : Host) (cs : List Command) (c : Command)
    → IsNondecreasing clock
    → host mode clock ≡ some h
    → (execute c (execute_all cs h)).0 ≡ returned tt
execute-returns mode clock h cs c k e =
    ((IsBuilt-Returns (execute-IsBuilt c)).at (execute_all cs h)
      (execute_all-IsSteady cs h (host-IsSteady mode clock h k e))).0.1

emptied : (r : Outcome (Unit {0})) (t : Host) → r ≡ returned tt → Empties r t → t.staged_events ≡ []
emptied (returned u) t e h = h
emptied thrown t e h = cc
emptied unfinished t e h = cc

-- The loop of process_all ends within its rounds: with a clock that never moves backwards it returns,
-- and it leaves no event in the queue, those that it staged itself included.
pub process_all-ends :
    (h : Host)
    → IsSteady h
    → ((process_all h).0 ≡ returned tt) × ((process_all h).1.staged_events ≡ [])
process_all-ends h k =
    let e = ((IsBuilt-Returns process_all-IsBuilt).at h k).0.1 in
    (e, emptied (process_all h).0 (process_all h).1 e (process_all-Empties h))
