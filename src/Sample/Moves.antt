-- ===== src/Sample/Moves.antt =====
-- How an action of the host moves it on: by calls of the gate, by deliveries and by readings of the
-- clock.
use robot_harness.Base.{
  ◌≡◌, ◌≤◌, true, List, [], ◌∷◌, ◌++◌, refl, arith, sym, subst, ◌∙◌, ap, Bool-cases, false, ◌==◌,
  inl, inr,
}
use mathlib.Core.List.{append_assoc}
use robot_harness.Action.{Action, modify, pure, gets, ◌>>=◌}
use robot_harness.Action.Rules.{
  IsPreorder, Relates, Relates-pure, Relates-gets, Relates-bind, Relates-modify,
}
use robot_harness.Gate.Types.{OperationAuthority}
use robot_harness.Gate.State.{AuthorityGate}
use robot_harness.Gate.Output.{can_deliver_result}
use robot_harness.Gate.Calls.{Call, apply}
use robot_harness.Sample.Types.{SampleResult, is_result_sink_ready}
use robot_harness.Sample.Worker.{accept_result}
use robot_harness.Sample.Events.{offer}
use robot_harness.Sample.Commands.{Command, execute, execute_all}
use robot_harness.Sample.Built.{
  IsAside, IsBuilt, answers, looks, follows, changes, tells, asks, reads_time, offers, drains,
}
use robot_harness.Sample.Built.Commands.{execute-IsBuilt}
use robot_harness.Sample.Queue.{process_all-Relates}
use robot_harness.Sample.Host.{Host, ask, tell, adapt, read_time}

-- What the outside sees of an action, in order: a call of the gate, or a result put into the sink for
-- an authority.
pub data Move : Type 0 where
  calls : Call → Move
  delivers : OperationAuthority → SampleResult → Move

-- The gate after the moves; a delivery is no call of it.
unfoldable pub replay : AuthorityGate → List Move → AuthorityGate
replay g [] = g
replay g (calls c ∷ ms) = replay (apply g c) ms
replay g (delivers a r ∷ ms) = replay g ms

unfoldable pub deliveries : List Move → List SampleResult
deliveries [] = []
deliveries (calls c ∷ ms) = deliveries ms
deliveries (delivers a r ∷ ms) = r ∷ deliveries ms

-- Each result is of the operation that it was put into the sink for, and the gate as it stood at that
-- moment allowed the delivery.
abbrev pub AreAllowed : AuthorityGate → List Move → Type 0
AreAllowed g [] = Unit {0}
AreAllowed g (calls c ∷ ms) = AreAllowed (apply g c) ms
AreAllowed g (delivers a r ∷ ms) =
    (can_deliver_result g a ≡ true) × (r.operation_id ≡ a.operation_id) × AreAllowed g ms

pub record Moves (s t : Host) : Type 0 where
  pub moves : List Move
  pub driven : t.gate ≡ replay s.gate moves
  pub same_clock : t.clock ≡ s.clock
  pub time_grows : s.has_read_time ≡ true → (t.has_read_time ≡ true) × (s.last_time ≤ t.last_time)
  pub results_grow : t.adapter.results ≡ s.adapter.results ++ deliveries moves
  pub allowed : AreAllowed s.gate moves

replay-append :
    (g : AuthorityGate) (ms ns : List Move) → replay g (ms ++ ns) ≡ replay (replay g ms) ns
unfolding replay
replay-append g [] ns = refl
replay-append g (calls c ∷ ms) ns = replay-append (apply g c) ms ns
replay-append g (delivers a r ∷ ms) ns = replay-append g ms ns

deliveries-append : (ms ns : List Move) → deliveries (ms ++ ns) ≡ deliveries ms ++ deliveries ns
unfolding deliveries
deliveries-append [] ns = refl
deliveries-append (calls c ∷ ms) ns = deliveries-append ms ns
deliveries-append (delivers a r ∷ ms) ns = ap (λ rs. r ∷ rs) (deliveries-append ms ns)

AreAllowed-append :
    (g : AuthorityGate) (ms ns : List Move)
    → AreAllowed g ms
    → AreAllowed (replay g ms) ns
    → AreAllowed g (ms ++ ns)
unfolding replay
AreAllowed-append g [] ns h k = k
AreAllowed-append g (calls c ∷ ms) ns h k = AreAllowed-append (apply g c) ms ns h k
AreAllowed-append g (delivers a r ∷ ms) ns h k = (h.0, h.1, AreAllowed-append g ms ns h.2 k)

append-nil {ℓ} : {A : Type ℓ} (xs : List A) → xs ++ [] ≡ xs
append-nil [] = refl
append-nil (x ∷ xs) = ap (λ ys. x ∷ ys) (append-nil xs)

pub Moves-IsPreorder : IsPreorder Moves
unfolding replay deliveries
Moves-IsPreorder = record {
  reflexive = λ s. record {
    moves = [];
    driven = refl;
    same_clock = refl;
    time_grows = λ h. ground arith;
    results_grow = sym (append-nil s.adapter.results);
    allowed = tt;
  };
  transitive = λ s t u h k. record {
    moves = h.moves ++ k.moves;
    driven = cc (replay-append s.gate h.moves k.moves, h.driven, k.driven);
    same_clock = k.same_clock ∙ h.same_clock;
    time_grows = λ p. ground (arith, h.time_grows p, k.time_grows (h.time_grows p).0);
    results_grow = cc (
      append_assoc s.adapter.results (deliveries h.moves) (deliveries k.moves),
      deliveries-append h.moves k.moves,
      h.results_grow,
      k.results_grow,
    );
    allowed =
        AreAllowed-append s.gate h.moves k.moves h.allowed
          (subst (λ g. AreAllowed g k.moves) h.driven k.allowed);
  };
}

-- A change on the side.
IsAside-Moves : (s t : Host) → IsAside s t → Moves s t
unfolding replay deliveries
IsAside-Moves s t h = record {
  moves = [];
  driven = h.same_gate;
  same_clock = h.clock_stays;
  time_grows = λ p. ground (arith, h.reading_stays, h.time_stays);
  results_grow = h.results_stay ∙ sym (append-nil s.adapter.results);
  allowed = tt;
}

calls_Moves : (s : Host) (c : Call) → Moves s (record s { gate = apply s.gate c })
unfolding replay deliveries
calls_Moves s c = record {
  moves = calls c ∷ [];
  driven = refl;
  same_clock = refl;
  time_grows = λ h. ground arith;
  results_grow = sym (append-nil s.adapter.results);
  allowed = tt;
}

read_time-Moves : (s : Host) → Moves s (read_time s).1
unfolding read_time replay deliveries
read_time-Moves s = record {
  moves = [];
  driven = ground arith;
  same_clock = ground arith;
  time_grows = λ h. ground arith;
  results_grow = ground (arith, append-nil s.adapter.results);
  allowed = tt;
}

offer_accepted :
    (a : OperationAuthority) (r : SampleResult) (s : Host)
    → can_deliver_result s.gate a ≡ true
    → r.operation_id ≡ a.operation_id
    → Moves s (record s { adapter = record (s.adapter) { results = s.adapter.results ++ r ∷ [] } })
unfolding replay deliveries
offer_accepted a r s p e = record {
  moves = delivers a r ∷ [];
  driven = refl;
  same_clock = refl;
  time_grows = λ h. ground arith;
  results_grow = refl;
  allowed = (p, e, tt);
}

-- What accept_result does where the operation may deliver.
offer_permitted :
    (a : OperationAuthority) (r : SampleResult) (s : Host)
    → can_deliver_result s.gate a ≡ true
    → Moves s (accept_result a r true s).1
unfolding accept_result adapt ◌>>=◌ gets pure modify
offer_permitted a r s p = elim (Bool-cases (r.operation_id == a.operation_id)) [
  | inr e ↦ rw e (Moves-IsPreorder.reflexive s)
  | inl e ↦ elim (Bool-cases (is_result_sink_ready s.adapter)) [
    | inr q ↦ rw (e, q) (Moves-IsPreorder.reflexive s)
    | inl q ↦ rw (e, q) (offer_accepted a r s p (ground arith))
  ]
]

offer_refused :
    (a : OperationAuthority) (r : SampleResult) (s : Host) → Moves s (accept_result a r false s).1
unfolding accept_result adapt ◌>>=◌ gets pure modify
offer_refused a r s = elim (Bool-cases (r.operation_id == a.operation_id)) [
  | inr e ↦ rw e (Moves-IsPreorder.reflexive s)
  | inl e ↦ rw e (
      IsAside-Moves s _ record {
        same_gate = refl;
        clock_stays = refl;
        ticks_stay = refl;
        reading_stays = refl;
        time_stays = refl;
        results_stay = refl;
      })
]

offer-Moves : (a : OperationAuthority) (r : SampleResult) (s : Host) → Moves s (offer a r s).1
unfolding offer ◌>>=◌ gets
offer-Moves a r s = elim (Bool-cases (can_deliver_result s.gate a)) [
  | inl p ↦ rw p (offer_permitted a r s p)
  | inr p ↦ rw p (offer_refused a r s)
]

pub IsBuilt-Moves : {A : Type 0} {m : Action Host A} → IsBuilt m → Relates Moves m
unfolding tell ask
IsBuilt-Moves (answers a) = Relates-pure a Moves-IsPreorder
IsBuilt-Moves (looks f) = Relates-gets f Moves-IsPreorder
IsBuilt-Moves (follows m f h k) =
    Relates-bind m f Moves-IsPreorder (IsBuilt-Moves h) λ a. IsBuilt-Moves (k a)
IsBuilt-Moves (changes f h) = Relates-modify f λ s. IsAside-Moves s (f s) (h s)
IsBuilt-Moves (tells c) = record { at = λ s. calls_Moves s c }
IsBuilt-Moves (asks c) = record { at = λ s. calls_Moves s c }
IsBuilt-Moves reads_time = record { at = read_time-Moves }
IsBuilt-Moves (drains h) = process_all-Relates Moves-IsPreorder (IsBuilt-Moves h)
IsBuilt-Moves (offers a r) = record { at = offer-Moves a r }

-- Whatever commands a client gives, and whether they return or throw, the host is moved on by a list of
-- calls of the gate and of deliveries: the gate is the first one after the calls, the results are the
-- first ones and those delivered, in order, each of the operation that it was delivered for, and at the
-- moment of each delivery the gate allowed it; the clock stays, and the time of the last reading does
-- not go back.
pub execute_all-Moves : (cs : List Command) (h : Host) → Moves h (execute_all cs h)
unfolding execute_all
execute_all-Moves [] h = Moves-IsPreorder.reflexive h
execute_all-Moves (c ∷ cs) h =
    Moves-IsPreorder.transitive h (execute c h).1 (execute_all cs (execute c h).1)
      ((IsBuilt-Moves (execute-IsBuilt c)).at h) (execute_all-Moves cs (execute c h).1)
