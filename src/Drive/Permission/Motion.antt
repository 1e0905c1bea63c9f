-- ===== src/Drive/Permission/Motion.antt =====
-- When the wheels may be written: the deadline, the fault latch and the closed identity.
use robot_harness.Base.{
  ℕ, Bool, true, false, some, List, [], ◌∷◌, ◌≤◌, ◌<◌, ◌≡◌, ◌≢◌, ◌⊎◌, arith, u64_max, increment,
}
use robot_harness.Drive.Permission.{
  MotionPermission, PermissionState, MotionPermitIdentity, PermissionCall, open_call, renew_call,
  consume_call, close_call, permission, observe_time, refuses_open, open_observed, open_permission,
  renew_observed, renew, can_consume, close_observed, close, apply_zero, write, write_current,
  same_identity, apply, run,
}
use robot_harness.Drive.Permission.Validity.{
  PermissionIsValid, permission-IsValid, run-IsValid, apply-IsValid, close-IsValid,
}

-- Every history of calls on a newly built permission, of a 64-bit lifetime, leaves a permission
-- whose deadline, while it is active, is the last accepted stamp plus the lifetime, within 64 bits
-- and after the last time observed, and whose identity is well formed.
pub permission-run-IsValid :
    (n : ℕ) (p : MotionPermission) (cs : List PermissionCall)
    → n ≤ u64_max
    → permission n ≡ some p
    → PermissionIsValid (run p cs)
permission-run-IsValid n p cs b e = run-IsValid p cs (permission-IsValid n p b e)

-- The wheels are written exactly when the permission is active under this identity and the time
-- neither runs backwards nor reaches the deadline; in every other case zero is applied, at that
-- time, and the call answers false.
pub write_current-exact :
    (p : MotionPermission) (i : MotionPermitIdentity) (t : ℕ)
    → let answer = write_current p i t in
      ((answer.1 ≡ write)
        × (answer.2 ≡ true)
        × (p.state ≡ PermissionState.active)
        × (same_identity p.identity i ≡ true)
        × (p.observed_ns ≤ t)
        × (t < p.deadline_ns))
      ⊎ ((answer.1 ≡ apply_zero t)
          × (answer.2 ≡ false)
          × ((p.state ≢ PermissionState.active)
              ⊎ (same_identity p.identity i ≡ false)
              ⊎ (t < p.observed_ns)
              ⊎ (p.deadline_ns ≤ t)))
unfolding write_current can_consume observe_time
write_current-exact p i t = ground arith

fault-apply :
    (p : MotionPermission) (c : PermissionCall)
    → p.state ≡ PermissionState.fault_closed
    → (apply p c).0.state ≡ PermissionState.fault_closed
unfolding apply open_permission open_observed refuses_open renew renew_observed can_consume close
    close_observed observe_time
fault-apply p (open_call i e s z t) k = ground arith
fault-apply p (renew_call i s t) k = ground arith
fault-apply p (consume_call i t) k = ground arith
fault-apply p (close_call i t) k = ground arith

fault-run :
    (p : MotionPermission) (cs : List PermissionCall)
    → p.state ≡ PermissionState.fault_closed
    → (run p cs).state ≡ PermissionState.fault_closed
unfolding run
fault-run p [] k = k
fault-run p (c ∷ cs) k = fault-run (apply p c).0 cs (fault-apply p c k)

-- A call that is none of close, the calls that ask for motion.
abbrev pub asks_motion : PermissionCall → Bool
asks_motion (close_call _ _) = false
asks_motion _ = true

abbrev pub time_of : PermissionCall → ℕ
time_of (open_call _ _ _ _ t) = t
time_of (renew_call _ _ t) = t
time_of (consume_call _ t) = t
time_of (close_call _ t) = t

late-apply :
    (p : MotionPermission) (c : PermissionCall)
    → (time_of c < p.observed_ns)
      ⊎ ((p.state ≡ PermissionState.active) × (p.deadline_ns ≤ time_of c))
    → (apply p c).0.state ≡ PermissionState.fault_closed
unfolding apply open_permission open_observed refuses_open renew renew_observed can_consume close
    close_observed observe_time
late-apply p (open_call i e s z t) k = ground arith
late-apply p (renew_call i s t) k = ground arith
late-apply p (consume_call i t) k = ground arith
late-apply p (close_call i t) k = ground arith

fault_answer :
    (p : MotionPermission) (c : PermissionCall)
    → p.state ≡ PermissionState.fault_closed
    → asks_motion c ≡ true
    → (apply p c).1 ≡ false
unfolding apply open_permission open_observed refuses_open renew renew_observed can_consume close
    close_observed observe_time
fault_answer p (open_call i e s z t) k m = ground arith
fault_answer p (renew_call i s t) k m = ground arith
fault_answer p (consume_call i t) k m = ground arith
fault_answer p (close_call i t) k m = ground arith

-- A call whose time runs backwards, or reaches the deadline of an active permission, closes the
-- permission for good: whatever calls follow, no opening, renewal or consumption is granted.
pub late-run :
    (p : MotionPermission) (late : PermissionCall) (cs : List PermissionCall) (c : PermissionCall)
    → (time_of late < p.observed_ns)
      ⊎ ((p.state ≡ PermissionState.active) × (p.deadline_ns ≤ time_of late))
    → asks_motion c ≡ true
    → (apply (run (apply p late).0 cs) c).1 ≡ false
late-run p late cs c k m =
    fault_answer (run (apply p late).0 cs) c (fault-run (apply p late).0 cs (late-apply p late k)) m

-- The generation of the last opening does not exceed it, and it is closed.
pub record IsSpent (n : ℕ) (p : MotionPermission) : Type 0 where
  pub reached : n ≤ p.identity.generation
  pub spent : p.state ≡ PermissionState.active → n < p.identity.generation

IsSpent-apply :
    (n : ℕ) (p : MotionPermission) (c : PermissionCall)
    → PermissionIsValid p
    → IsSpent n p
    → IsSpent n (apply p c).0
unfolding apply open_permission open_observed refuses_open renew renew_observed can_consume close
    close_observed observe_time increment
IsSpent-apply n p (open_call i e s z t) v k = ground arith
IsSpent-apply n p (renew_call i s t) v k = ground arith
IsSpent-apply n p (consume_call i t) v k = ground arith
IsSpent-apply n p (close_call i t) v k = ground arith

IsSpent-run :
    (n : ℕ) (p : MotionPermission) (cs : List PermissionCall)
    → PermissionIsValid p
    → IsSpent n p
    → IsSpent n (run p cs)
unfolding run
IsSpent-run n p [] v k = k
IsSpent-run n p (c ∷ cs) v k =
    IsSpent-run n (apply p c).0 cs (apply-IsValid p c v) (IsSpent-apply n p c v k)

spent_refused :
    (p : MotionPermission) (i : MotionPermitIdentity) (t : ℕ)
    → IsSpent i.generation p
    → (write_current p i t).1 ≡ apply_zero t
unfolding write_current can_consume observe_time same_identity
spent_refused p i t k = ground arith

closed-IsSpent :
    (p : MotionPermission) (i : MotionPermitIdentity) (t : ℕ)
    → (close p i t).1 ≡ true
    → IsSpent i.generation (close p i t).0
unfolding close close_observed observe_time same_identity
closed-IsSpent p i t a = ground arith

-- After a close that was answered true, under any later calls, opening of further scopes included,
-- the wheels are not written again under the identity that was closed: zero is applied.
pub close-run :
    (p : MotionPermission) (i : MotionPermitIdentity) (t : ℕ) (cs : List PermissionCall) (t' : ℕ)
    → PermissionIsValid p
    → (close p i t).1 ≡ true
    → (write_current (run (close p i t).0 cs) i t').1 ≡ apply_zero t'
close-run p i t cs t' v a =
    let closed : PermissionIsValid (close p i t).0 = close-IsValid p i t v in
    spent_refused (run (close p i t).0 cs) i t'
      (IsSpent-run i.generation (close p i t).0 cs closed (closed-IsSpent p i t a))
