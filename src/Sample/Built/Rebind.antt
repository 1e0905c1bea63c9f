-- ===== src/Sample/Built/Rebind.antt =====
-- Startup observations and the replacement of the provider are built from the basic actions.
use robot_harness.Base.{ℕ, String, Option, none, some}
use robot_harness.Action.{modify}
use robot_harness.Gate.Types.{BindingIdentity, BindingDecision}
use robot_harness.Sample.Types.{CompletionMode, Adapter, inherit_observations}
use robot_harness.Sample.Rebind.{
  Observer, count_observation, next_sequence, report_startup, report_readiness, install,
  commit_candidate, continue_rebind, begin_candidate, rebind_provider,
}
use robot_harness.Sample.Built.{IsBuilt, built_rules}
use robot_harness.Sample.Built.Control.{poll-IsBuilt}

count_observation-IsBuilt : (o : Observer) → IsBuilt (modify (count_observation o))
count_observation-IsBuilt Observer.binding = search built_rules
count_observation-IsBuilt Observer.worker = search built_rules
count_observation-IsBuilt Observer.sink = search built_rules

next_sequence-IsBuilt : (o : Observer) → IsBuilt (next_sequence o)
unfolding next_sequence
next_sequence-IsBuilt o = search (built_rules, count_observation-IsBuilt)

pub report_startup-IsBuilt : (o : Observer) → IsBuilt (report_startup o)
unfolding report_startup
report_startup-IsBuilt o = search (built_rules, next_sequence-IsBuilt) depth 14 fits 5000

report_readiness-IsBuilt :
    (o : Observer) (b : BindingIdentity) (a : Adapter) (n : ℕ) → IsBuilt (report_readiness o b a n)
unfolding report_readiness
report_readiness-IsBuilt o b a n = search (built_rules, next_sequence-IsBuilt)

install-IsBuilt : (a : Adapter) → IsBuilt (modify (install a))
unfolding inherit_observations
install-IsBuilt a = search built_rules

commit_candidate-IsBuilt :
    (b : BindingIdentity) (a : Adapter) (n : ℕ) → IsBuilt (commit_candidate b a n)
unfolding commit_candidate
commit_candidate-IsBuilt b a n =
    search (built_rules, report_readiness-IsBuilt, install-IsBuilt) depth 14 fits 5000

continue_rebind-IsBuilt :
    (d : BindingDecision) (o : Option BindingIdentity) (a : Adapter) (n : ℕ)
    → IsBuilt (continue_rebind d o a n)
unfolding continue_rebind
continue_rebind-IsBuilt d none a n = search built_rules
continue_rebind-IsBuilt d (some b) a n = commit_candidate-IsBuilt b a n

begin_candidate-IsBuilt :
    (b : BindingIdentity) (p : String) (m : CompletionMode) (n : ℕ)
    → IsBuilt (begin_candidate b p m n)
unfolding begin_candidate
begin_candidate-IsBuilt b p m n =
    search (built_rules, next_sequence-IsBuilt, continue_rebind-IsBuilt)

pub rebind_provider-IsBuilt :
    (b : BindingIdentity) (p : String) (m : CompletionMode) → IsBuilt (rebind_provider b p m)
unfolding rebind_provider
rebind_provider-IsBuilt b p m =
    search (built_rules, poll-IsBuilt, begin_candidate-IsBuilt) depth 14 fits 5000
