-- ===== src/Sample/Queue.antt =====
-- The loop of process_all ends, with nothing left in the queue.
use robot_harness.Base.{
  ℕ, zero, suc, ◌≡◌, ◌≢◌, ◌≤◌, ◌<◌, refl, arith, true, false, Bool, List, [], ◌∷◌, if◌then◌else◌,
}
use robot_harness.Action.{
  Outcome, modify, returned, thrown, unfinished, ◌>>=◌, gets, pure, continue, out_of_fuel,
}
use robot_harness.Action.Rules.{
  IsPreorder, Relates, Relates-bind, Relates-if, Relates-pure, Relates-gets, Returns, Finishes,
}
use robot_harness.Sample.Types.{StagedEvent}
use robot_harness.Sample.Host.{Host}
use robot_harness.Sample.Control.{poll}
use robot_harness.Sample.Events.{
  handle, process_front, process_next, process_events, work_left, process_all,
}
use robot_harness.Sample.Lessens.Polling.{poll-Lessens, handle-Lessens}

-- A round that goes on has less before it than `work`; the last one finds the queue empty.
abbrev Progress : ℕ → Outcome Bool → Host → Type 0
Progress work (returned true) t = work_left t < work
Progress work (returned false) t = t.staged_events ≡ []
Progress work thrown t = Unit {0}
Progress work unfinished t = Unit {0}

abbrev pop : List StagedEvent → Host → Host
pop rest h = record h { staged_events = rest }

pop-work_left :
    (s : Host) (e : StagedEvent) (es : List StagedEvent)
    → s.staged_events ≡ e ∷ es
    → work_left (pop es s) < work_left s
unfolding work_left
pop-work_left s e es q = ground arith

handled_Progress :
    (s t : Host) (r : Outcome (Unit {0}))
    → work_left t < work_left s
    → Progress (work_left s) (continue r (λ _. pure true) t).0 (continue r (λ _. pure true) t).1
unfolding pure
handled_Progress s t (returned u) h = h
handled_Progress s t thrown h = tt
handled_Progress s t unfinished h = tt

process_front-Progress :
    (s : Host) (es : List StagedEvent)
    → s.staged_events ≡ es
    → Progress (work_left s) (process_front es s).0 (process_front es s).1
unfolding process_front ◌>>=◌ modify pure
process_front-Progress s [] q = q
process_front-Progress s (e ∷ es) q =
    handled_Progress s _ (handle e.callback.kind e (pop es s)).0
      (omega (arith, pop-work_left s e es q, (handle-Lessens e.callback.kind e).at (pop es s)))

weaker_Progress : (m n : ℕ) (r : Outcome Bool) (t : Host) → m ≤ n → Progress m r t → Progress n r t
weaker_Progress m n (returned true) t h p = omega (arith, p)
weaker_Progress m n (returned false) t h p = p
weaker_Progress m n thrown t h p = tt
weaker_Progress m n unfinished t h p = tt

polled_Progress :
    {A : Type 0} (s t : Host) (r : Outcome A)
    → work_left t ≤ work_left s
    → let next : Outcome Bool × Host =
        continue r (λ _. gets (λ (h : Host). h.staged_events) >>= process_front) t in
      Progress (work_left s) next.0 next.1
unfolding ◌>>=◌ gets
polled_Progress s t (returned d) h =
    weaker_Progress (work_left t) (work_left s) _ _ h
      (process_front-Progress t t.staged_events refl)
polled_Progress s t thrown h = tt
polled_Progress s t unfinished h = tt

process_next-Progress : (s : Host) → Progress (work_left s) (process_next s).0 (process_next s).1
unfolding process_next ◌>>=◌
process_next-Progress s = polled_Progress s (poll s).1 (poll s).0 (poll-Lessens.at s)

abbrev pub Empties : Outcome (Unit {0}) → Host → Type 0
Empties (returned u) t = t.staged_events ≡ []
Empties thrown t = Unit {0}
Empties unfinished t = Unit {0}

abbrev EmptiesWithin : ℕ → Type 0
EmptiesWithin n =
    (t : Host) → work_left t < n → Empties (process_events n t).0 (process_events n t).1

rest-Empties :
    (n work : ℕ) (r : Outcome Bool) (t : Host)
    → EmptiesWithin n
    → work ≤ n
    → Progress work r t
    → let rest : Outcome (Unit {0}) × Host =
        continue r (λ more. if more then process_events n else pure tt) t in
      Empties rest.0 rest.1
unfolding pure
rest-Empties n work (returned true) t k h p = k t (omega (arith, h, p))
rest-Empties n work (returned false) t k h p = p
rest-Empties n work thrown t k h p = tt
rest-Empties n work unfinished t k h p = tt

process_events-Empties : (n : ℕ) → EmptiesWithin n
unfolding process_events ◌>>=◌
process_events-Empties zero s h = absurd (omega (arith, h))
process_events-Empties (suc n) s h =
    rest-Empties n (work_left s) (process_next s).0 (process_next s).1 (process_events-Empties n)
      (omega (arith, h)) (process_next-Progress s)

-- process_all does not run out of rounds: where it returns, the queue is empty.
pub process_all-Empties : (s : Host) → Empties (process_all s).0 (process_all s).1
unfolding process_all ◌>>=◌ gets
process_all-Empties s = process_events-Empties (suc (work_left s)) s (omega arith)

-- What holds of every round holds of the loop.
process_events-Relates :
    {R : Host → Host → Type 0}
    → IsPreorder R
    → Relates R process_next
    → (n : ℕ) → Relates R (process_events n)
unfolding process_events out_of_fuel
process_events-Relates o k zero = record { at = o.reflexive }
process_events-Relates o k (suc n) =
    Relates-bind _ _ o k
      λ more. Relates-if more _ _ (process_events-Relates o k n) (Relates-pure tt o)

pub process_all-Relates :
    {R : Host → Host → Type 0} → IsPreorder R → Relates R process_next → Relates R process_all
unfolding process_all
process_all-Relates o k =
    Relates-bind _ _ o (Relates-gets _ o) λ n. process_events-Relates o k (suc n)

-- Rounds that return make a loop that returns, since it does not run out of them.
abbrev ReturnsWithin : (Host → Type 0) → ℕ → Type 0
ReturnsWithin P n =
    (t : Host)
    → work_left t < n
    → P t
    → ((process_events n t).0 ≡ returned tt) × P (process_events n t).1

rest-Returns :
    {P : Host → Type 0} (n work : ℕ) (r : Outcome Bool) (t : Host)
    → ReturnsWithin P n
    → work ≤ n
    → Progress work r t
    → (b : Bool) × (r ≡ returned b)
    → P t
    → let rest : Outcome (Unit {0}) × Host =
        continue r (λ more. if more then process_events n else pure tt) t in
      (rest.0 ≡ returned tt) × P rest.1
unfolding pure
rest-Returns n work (returned true) t k h p b q = k t (omega (arith, h, p)) q
rest-Returns n work (returned false) t k h p b q = (refl, q)
rest-Returns n work thrown t k h p (b, e) q = cc
rest-Returns n work unfinished t k h p (b, e) q = cc

process_events-Returns : {P : Host → Type 0} → Returns P process_next → (n : ℕ) → ReturnsWithin P n
unfolding process_events ◌>>=◌
process_events-Returns k zero s h q = absurd (omega (arith, h))
process_events-Returns k (suc n) s h q =
    let (answered, kept) = k.at s q in
    rest-Returns n (work_left s) (process_next s).0 (process_next s).1 (process_events-Returns k n)
      (omega (arith, h)) (process_next-Progress s) answered kept

pub process_all-Returns : {P : Host → Type 0} → Returns P process_next → Returns P process_all
unfolding process_all ◌>>=◌ gets
process_all-Returns k = record {
  at = λ s q.
      let (e, kept) = process_events-Returns k (suc (work_left s)) s (omega arith) q in
      ((tt, e), kept);
}

-- Rounds that throw or return make a loop that does.
rest-Finishes :
    (n work : ℕ) (r : Outcome Bool) (t : Host)
    → ((t : Host) → work_left t < n → (process_events n t).0 ≢ unfinished)
    → work ≤ n
    → Progress work r t
    → r ≢ unfinished
    → (continue r (λ more. if more then process_events n else pure tt) t).0 ≢ unfinished
unfolding pure
rest-Finishes n work (returned true) t k h p b = k t (omega (arith, h, p))
rest-Finishes n work (returned false) t k h p b = λ e. cc
rest-Finishes n work thrown t k h p b = λ e. cc
rest-Finishes n work unfinished t k h p b = absurd (b refl)

process_events-Finishes :
    Finishes process_next
    → (n : ℕ) (s : Host) → work_left s < n
    → (process_events n s).0 ≢ unfinished
unfolding process_events ◌>>=◌
process_events-Finishes k zero s h = absurd (omega (arith, h))
process_events-Finishes k (suc n) s h =
    rest-Finishes n (work_left s) (process_next s).0 (process_next s).1
      (process_events-Finishes k n) (omega (arith, h)) (process_next-Progress s) (k.at s)

pub process_all-Finishes : Finishes process_next → Finishes process_all
unfolding process_all ◌>>=◌ gets
process_all-Finishes k = record {
  at = λ s. process_events-Finishes k (suc (work_left s)) s (omega arith);
}
