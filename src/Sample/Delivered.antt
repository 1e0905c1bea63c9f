-- ===== src/Sample/Delivered.antt =====
-- What the moves of a host say of its gate and of the operations that it delivered results of.
use robot_harness.Base.{◌≡◌, List, [], ◌∷◌, refl, sym}
use robot_harness.Gate.State.{AuthorityGate}
use robot_harness.Gate.Calls.{Call, apply, run}
use robot_harness.Gate.Promises.Delivery.{IsPermitted, run-IsPermitted, now-IsPermitted}
use robot_harness.Sample.Types.{SampleResult}
use robot_harness.Sample.Moves.{Move, calls, delivers, replay, deliveries, AreAllowed}

unfoldable pub calls_of : List Move → List Call
calls_of [] = []
calls_of (calls c ∷ ms) = c ∷ calls_of ms
calls_of (delivers a r ∷ ms) = calls_of ms

pub replay-run : (g : AuthorityGate) (ms : List Move) → replay g ms ≡ run g (calls_of ms)
unfolding replay run calls_of
replay-run g [] = refl
replay-run g (calls c ∷ ms) = replay-run (apply g c) ms
replay-run g (delivers a r ∷ ms) = replay-run g ms

abbrev pub ArePermitted : AuthorityGate → List SampleResult → Type 0
ArePermitted g [] = Unit {0}
ArePermitted g (r ∷ rs) = IsPermitted g r.operation_id × ArePermitted g rs

ArePermitted-apply :
    (g : AuthorityGate) (c : Call) (rs : List SampleResult)
    → ArePermitted (apply g c) rs
    → ArePermitted g rs
unfolding run
ArePermitted-apply g c [] h = tt
ArePermitted-apply g c (r ∷ rs) h =
    (run-IsPermitted g (c ∷ []) r.operation_id h.0, ArePermitted-apply g c rs h.1)

-- What was allowed at its moment is permitted at some time after the first gate.
pub allowed_ArePermitted :
    (g : AuthorityGate) (ms : List Move) → AreAllowed g ms → ArePermitted g (deliveries ms)
unfolding deliveries
allowed_ArePermitted g [] h = tt
allowed_ArePermitted g (calls c ∷ ms) h =
    ArePermitted-apply g c (deliveries ms) (allowed_ArePermitted (apply g c) ms h)
allowed_ArePermitted g (delivers a r ∷ ms) h =
    (now-IsPermitted g a r.operation_id (sym h.1) h.0, allowed_ArePermitted g ms h.2)
