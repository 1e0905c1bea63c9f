-- ===== src/Drive/Permission/Opening.antt =====
-- Openings and renewals: a retry changes nothing, a renewal moves the deadline forward.
use robot_harness.Base.{
  ℕ, Bool, true, false, ◌+◌, ◌-◌, ◌≤◌, ◌<◌, ◌≡◌, ◌≢◌, ◌⊎◌, refl, sym, subst, str_eq_iff, arith,
  u64_max, increment,
}
use robot_harness.Drive.Permission.{
  apply, MotionPermission, PermissionState, MotionPermitIdentity, open_call, observe_time,
  valid_identity, valid_stamp, refuses_open, open_observed, open_permission, renew_observed, renew,
  same_identity,
}
use robot_harness.Drive.Permission.Validity.{PermissionIsValid, apply-IsValid, observe_time-IsValid}

-- What an accepted opening leaves.
record IsOpened (i : MotionPermitIdentity) (e s t : ℕ) (q : MotionPermission) : Type 0 where
  pub running : q.state ≡ PermissionState.active
  pub same : same_identity q.identity i ≡ true
  pub stamped : q.opened_ns ≡ s
  pub observed : q.observed_ns ≡ t
  pub kept : s + q.lifetime_ns ≤ q.deadline_ns
  pub well_formed : valid_identity i ≡ true
  pub bounded : e ≢ u64_max
  pub next : i.generation ≡ increment e
  pub positive : 0 < s
  pub past : s ≤ t
  pub fits : s ≤ u64_max - q.lifetime_ns

IsOpened-observed :
    (p : MotionPermission) (i : MotionPermitIdentity) (e s t : ℕ) (z : Bool)
    → p.observed_ns ≡ t
    → PermissionIsValid p
    → same_identity i i ≡ true
    → (open_observed p i e s t z).1 ≡ true
    → IsOpened i e s t (open_observed p i e s t z).0
unfolding open_observed refuses_open valid_stamp
IsOpened-observed p i e s t z o v r a = ground arith

reopened :
    (q : MotionPermission) (i : MotionPermitIdentity) (e s t t' : ℕ) (z : Bool)
    → IsOpened i e s t q
    → PermissionIsValid q
    → t ≤ t'
    → t' < s + q.lifetime_ns
    → open_permission q i e s t' z ≡ (record q { observed_ns = t' }, true)
unfolding open_permission open_observed refuses_open observe_time valid_stamp
reopened q i e s t t' z k v le lt =
    let timely : observe_time q t' ≡ record q { observed_ns = t' } = ground arith in ground arith

observed-time : (p : MotionPermission) (t : ℕ) → (observe_time p t).observed_ns ≡ t
unfolding observe_time
observed-time p t = refl

same_identity_refl : (i : MotionPermitIdentity) → same_identity i i ≡ true
unfolding same_identity
same_identity_refl i =
    let scope = (str_eq_iff i.scope_id i.scope_id).1 refl in ground (arith, scope)

open_permission-lifetime_ns :
    (p : MotionPermission) (i : MotionPermitIdentity) (e s t : ℕ) (z : Bool)
    → (open_permission p i e s t z).0.lifetime_ns ≡ p.lifetime_ns
unfolding open_permission open_observed observe_time
open_permission-lifetime_ns p i e s t z = ground arith

-- A retry of an accepted opening, with the same stamp and before the stamp's own lifetime is
-- over, is accepted again and changes nothing but the time observed: it neither renews the
-- deadline nor replaces the identity.
pub open_permission-twice :
    (p : MotionPermission) (i : MotionPermitIdentity) (e s t t' : ℕ) (z z' : Bool)
    → PermissionIsValid p
    → (open_permission p i e s t z).1 ≡ true
    → t ≤ t'
    → t' < s + p.lifetime_ns
    → let opened = (open_permission p i e s t z).0 in
      open_permission opened i e s t' z' ≡ (record opened { observed_ns = t' }, true)
unfolding open_observed open_permission refuses_open apply
open_permission-twice p i e s t t' z z' v a le lt =
    let opened = (open_permission p i e s t z).0 in
    reopened opened i e s t t' z'
      (IsOpened-observed (observe_time p t) i e s t z (observed-time p t)
        (observe_time-IsValid p t v) (same_identity_refl i) a)
      (apply-IsValid p (open_call i e s z t) v) le
      (subst (λ x. t' < s + x) (sym (open_permission-lifetime_ns p i e s t z)) lt)

-- A renewal that is accepted moves the deadline strictly forward, to its own stamp plus the
-- lifetime; one that is refused leaves the deadline, the stamps and the identity as they were.
pub renew-exact :
    (p : MotionPermission) (i : MotionPermitIdentity) (s t : ℕ)
    → PermissionIsValid p
    → let answer = renew p i s t in
      ((answer.1 ≡ true)
        × (p.deadline_ns < answer.0.deadline_ns)
        × (answer.0.deadline_ns ≡ s + p.lifetime_ns)
        × (t < answer.0.deadline_ns)
        × (answer.0.identity ≡ p.identity))
      ⊎ ((answer.1 ≡ false)
          × (answer.0.deadline_ns ≡ p.deadline_ns)
          × (answer.0.issued_ns ≡ p.issued_ns)
          × (answer.0.identity ≡ p.identity))
unfolding renew renew_observed observe_time valid_stamp
renew-exact p i s t v = ground arith
