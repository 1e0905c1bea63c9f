-- ===== src/Sample/Built.antt =====
-- The actions of the host, told by how they are built: from readings of the clock, calls of the gate,
-- offers to the sink, the loop of process_all, and changes that leave all of these alone. What holds of every such action
-- is proved by induction on the building.
pub mod Worker
pub mod Control
pub mod Events
pub mod Rebind
pub mod Commands
use robot_harness.Base.{ℕ, Bool, true, false, ◌≡◌, refl, if◌then◌else◌}
use robot_harness.Action.{Action, pure, gets, modify, ◌>>=◌}
use robot_harness.Gate.Types.{OperationAuthority}
use robot_harness.Gate.Calls.{Call}
use robot_harness.Gate.Answers.{Answer}
use robot_harness.Sample.Types.{SampleResult, ResultAcceptance, Adapter}
use robot_harness.Sample.Host.{Host, ask, tell, adapt, read_time}
use robot_harness.Sample.Events.{offer, process_next, process_all}

-- A change that leaves the gate, the clock and the results alone.
pub record IsAside (s t : Host) : Type 0 where
  pub same_gate : t.gate ≡ s.gate
  pub clock_stays : t.clock ≡ s.clock
  pub ticks_stay : t.ticks ≡ s.ticks
  pub reading_stays : t.has_read_time ≡ s.has_read_time
  pub time_stays : t.last_time ≡ s.last_time
  pub results_stay : t.adapter.results ≡ s.adapter.results

pub data BuiltAs : (A : Type 0) → Action Host A → Type 1 where
  answers : {A : Type 0} (a : A) → BuiltAs A (pure a)
  looks : {A : Type 0} (f : Host → A) → BuiltAs A (gets f)
  follows :
      {A B : Type 0} (m : Action Host A) (f : A → Action Host B)
      → BuiltAs A m
      → ((a : A) → BuiltAs B (f a))
      → BuiltAs B (m >>= f)
  changes : (f : Host → Host) → ((s : Host) → IsAside s (f s)) → BuiltAs (Unit {0}) (modify f)
  tells : (c : Call) → BuiltAs (Unit {0}) (tell c)
  asks : (c : Call) → BuiltAs (Answer c) (ask c)
  reads_time : BuiltAs ℕ read_time
  drains : BuiltAs Bool process_next → BuiltAs (Unit {0}) process_all
  offers : (a : OperationAuthority) (r : SampleResult) → BuiltAs ResultAcceptance (offer a r)

abbrev pub IsBuilt : {A : Type 0} → Action Host A → Type 1
IsBuilt {A} m = BuiltAs A m

pub IsBuilt-if :
    {A : Type 0} (b : Bool) (m n : Action Host A)
    → IsBuilt m
    → IsBuilt n
    → IsBuilt (if b then m else n)
IsBuilt-if true m n k l = k
IsBuilt-if false m n k l = l

pub IsBuilt-modify :
    (f : Host → Host)
    → ((s : Host) → (f s).gate ≡ s.gate)
    → ((s : Host) → (f s).clock ≡ s.clock)
    → ((s : Host) → (f s).ticks ≡ s.ticks)
    → ((s : Host) → (f s).has_read_time ≡ s.has_read_time)
    → ((s : Host) → (f s).last_time ≡ s.last_time)
    → ((s : Host) → (f s).adapter.results ≡ s.adapter.results)
    → IsBuilt (modify f)
IsBuilt-modify f g c n r t a = changes f λ s. record {
  same_gate = g s;
  clock_stays = c s;
  ticks_stay = n s;
  reading_stays = r s;
  time_stays = t s;
  results_stay = a s;
}

pub IsBuilt-adapt :
    (f : Adapter → Adapter) → ((a : Adapter) → (f a).results ≡ a.results) → IsBuilt (adapt f)
unfolding adapt
IsBuilt-adapt f h =
    IsBuilt-modify _ (λ s. refl) (λ s. refl) (λ s. refl) (λ s. refl) (λ s. refl) λ s. h s.adapter

pub ruleset built_rules = (
  answers, looks, follows, tells, asks, reads_time, offers, IsBuilt-if, IsBuilt-modify,
  IsBuilt-adapt,
)
