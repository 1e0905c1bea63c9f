-- ===== src/Drive/Permission/Validity.antt =====
-- What holds of a motion permission between calls.
use robot_harness.Base.{
  ℕ, Bool, true, some, List, [], ◌∷◌, ◌+◌, ◌≤◌, ◌<◌, ◌≡◌, refl, arith, u64_max, increment,
}
use robot_harness.Drive.Permission.{
  MotionPermission, MotionPermitIdentity, PermissionCall, open_call, renew_call, consume_call,
  close_call, is_active, permission, observe_time, valid_identity, valid_stamp, refuses_open,
  open_observed, open_permission, renew_observed, renew, can_consume, close_observed, close, apply,
  run,
}

-- An active permission: its identity is well formed, its first stamp is at most its last one, the
-- last stamp is not in the future, and the deadline is that stamp plus the lifetime, within 64
-- bits and still ahead of the last time observed.
pub record IsCurrent (p : MotionPermission) : Type 0 where
  pub well_formed : valid_identity p.identity ≡ true
  pub opened_first : p.opened_ns ≤ p.issued_ns
  pub positive : 0 < p.opened_ns
  pub issued_past : p.issued_ns ≤ p.observed_ns
  pub deadline_exact : p.deadline_ns ≡ p.issued_ns + p.lifetime_ns
  pub deadline_bounded : p.deadline_ns ≤ u64_max
  pub ahead : p.observed_ns < p.deadline_ns

pub record PermissionIsValid (p : MotionPermission) : Type 0 where
  pub lifetime_positive : 0 < p.lifetime_ns
  pub lifetime_bounded : p.lifetime_ns ≤ u64_max
  pub generation_bounded : p.identity.generation ≤ u64_max
  pub current : is_active p.state ≡ true → IsCurrent p

pub permission-IsValid :
    (n : ℕ) (p : MotionPermission) → n ≤ u64_max → permission n ≡ some p → PermissionIsValid p
unfolding permission
permission-IsValid n p b e = ground arith

pub observe_time-IsValid :
    (p : MotionPermission) (t : ℕ) → PermissionIsValid p → PermissionIsValid (observe_time p t)
unfolding observe_time
observe_time-IsValid p t v = ground arith

pub open_observed-IsValid :
    (p : MotionPermission) (i : MotionPermitIdentity) (e s t : ℕ) (z : Bool)
    → p.observed_ns ≡ t
    → PermissionIsValid p
    → PermissionIsValid (open_observed p i e s t z).0
unfolding open_observed refuses_open valid_stamp increment
open_observed-IsValid p i e s t z o v = ground arith

pub renew_observed-IsValid :
    (p : MotionPermission) (i : MotionPermitIdentity) (s t : ℕ)
    → p.observed_ns ≡ t
    → PermissionIsValid p
    → PermissionIsValid (renew_observed p i s t).0
unfolding renew_observed valid_stamp
renew_observed-IsValid p i s t o v = ground arith

pub close_observed-IsValid :
    (p : MotionPermission) (i : MotionPermitIdentity)
    → PermissionIsValid p
    → PermissionIsValid (close_observed p i).0
unfolding close_observed
close_observed-IsValid p i v = ground arith

pub apply-IsValid :
    (p : MotionPermission) (c : PermissionCall)
    → PermissionIsValid p
    → PermissionIsValid (apply p c).0
unfolding apply open_permission renew can_consume close observe_time
apply-IsValid p (open_call i e s z t) v =
    open_observed-IsValid (observe_time p t) i e s t z refl (observe_time-IsValid p t v)
apply-IsValid p (renew_call i s t) v =
    renew_observed-IsValid (observe_time p t) i s t refl (observe_time-IsValid p t v)
apply-IsValid p (consume_call i t) v = observe_time-IsValid p t v
apply-IsValid p (close_call i t) v =
    close_observed-IsValid (observe_time p t) i (observe_time-IsValid p t v)

pub close-IsValid :
    (p : MotionPermission) (i : MotionPermitIdentity) (t : ℕ)
    → PermissionIsValid p
    → PermissionIsValid (close p i t).0
unfolding apply
close-IsValid p i t v = apply-IsValid p (close_call i t) v

pub run-IsValid :
    (p : MotionPermission) (cs : List PermissionCall)
    → PermissionIsValid p
    → PermissionIsValid (run p cs)
unfolding run
run-IsValid p [] v = v
run-IsValid p (c ∷ cs) v = run-IsValid (apply p c).0 cs (apply-IsValid p c v)
