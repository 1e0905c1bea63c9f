-- ===== src/Drive/Permission.antt =====
-- MotionPermission and write_current of
-- integrations/ros2/simulation/native_drive/motion_permission.hpp. An operation returns the new
-- permission and what the member function returns; sums of 64-bit times wrap (`plus`).
pub mod Validity
pub mod Motion
pub mod Opening
use robot_harness.Base.{
  ℕ, String, Bool, true, false, not, Option, none, some, List, [], ◌∷◌, ◌+◌, ◌-◌, ◌%◌, ◌^◌, ◌&&◌,
  ◌||◌, ◌==◌, ltb, leb, str_eq, increment, u64_max, if◌then◌else◌,
}
use robot_harness.HexText.{is_identifier}

pub record MotionPermitIdentity : Type 0 where
  pub scope_id : String
  pub generation : ℕ
  pub operation_id : ℕ

unfoldable pub same_identity : MotionPermitIdentity → MotionPermitIdentity → Bool
same_identity left right =
    str_eq left.scope_id right.scope_id
    && left.generation == right.generation
    && left.operation_id == right.operation_id

-- `MotionPermission::State`.
pub data PermissionState : Type 0 where
  boot_closed active normal_closed fault_closed : PermissionState

abbrev pub is_active : PermissionState → Bool
is_active PermissionState.active = true
is_active _ = false

abbrev pub is_fault_closed : PermissionState → Bool
is_fault_closed PermissionState.fault_closed = true
is_fault_closed _ = false

pub record MotionPermission : Type 0 where
  pub lifetime_ns : ℕ
  pub identity : MotionPermitIdentity
  pub state : PermissionState
  pub opened_ns : ℕ
  pub issued_ns : ℕ
  pub deadline_ns : ℕ
  pub observed_ns : ℕ

-- The constructor; `none` where it throws.
unfoldable pub permission : ℕ → Option MotionPermission
permission lifetime_ns =
    if lifetime_ns == 0
    then none
    else some (record {
      lifetime_ns = lifetime_ns;
      identity = record { scope_id = ""; generation = 0; operation_id = 0 };
      state = PermissionState.boot_closed;
      opened_ns = 0;
      issued_ns = 0;
      deadline_ns = 0;
      observed_ns = 0;
    })

-- `+` of two 64-bit numbers.
abbrev pub plus : ℕ → ℕ → ℕ
plus a b = (a + b) % 2 ^ 64

unfoldable pub valid_identity : MotionPermitIdentity → Bool
valid_identity i = ltb 0 i.generation && ltb 0 i.operation_id && is_identifier i.scope_id

unfoldable pub valid_stamp : MotionPermission → ℕ → ℕ → Bool
valid_stamp p issued_ns now_ns =
    ltb 0 issued_ns
    && leb issued_ns now_ns
    && leb issued_ns (u64_max - p.lifetime_ns)
    && ltb now_ns (plus issued_ns p.lifetime_ns)

-- The condition of observe_time.
abbrev pub is_fault : MotionPermission → ℕ → Bool
is_fault p now_ns = ltb now_ns p.observed_ns || (is_active p.state && leb p.deadline_ns now_ns)

unfoldable pub observe_time : MotionPermission → ℕ → MotionPermission
observe_time p now_ns = record p {
  state = if is_fault p now_ns then PermissionState.fault_closed else p.state;
  observed_ns = now_ns;
}

-- The first guard of open.
unfoldable pub refuses_open : MotionPermission → MotionPermitIdentity → ℕ → ℕ → ℕ → Bool
refuses_open p i expected_generation issued_ns now_ns =
    is_fault_closed p.state
    || not (valid_identity i)
    || not (valid_stamp p issued_ns now_ns)
    || expected_generation == u64_max
    || not (i.generation == increment expected_generation)

-- open, once the time is observed.
unfoldable pub open_observed :
    MotionPermission → MotionPermitIdentity → ℕ → ℕ → ℕ → Bool → MotionPermission × Bool
open_observed p i expected_generation issued_ns now_ns prior_zero_applied =
    if refuses_open p i expected_generation issued_ns now_ns
    then (p, false)
    else if is_active p.state
    then (p, same_identity p.identity i && issued_ns == p.opened_ns)
    else if not prior_zero_applied
        || not (p.identity.generation == expected_generation)
        || str_eq i.scope_id p.identity.scope_id
        || i.operation_id == p.identity.operation_id
    then (p, false)
    else (
      record p {
        identity = i;
        opened_ns = issued_ns;
        issued_ns = issued_ns;
        deadline_ns = plus issued_ns p.lifetime_ns;
        state = PermissionState.active;
      },
      true,
    )

unfoldable pub open_permission :
    MotionPermission → MotionPermitIdentity → ℕ → ℕ → ℕ → Bool → MotionPermission × Bool
open_permission p i expected_generation issued_ns now_ns prior_zero_applied =
    open_observed (observe_time p now_ns) i expected_generation issued_ns now_ns prior_zero_applied

-- renew, once the time is observed.
unfoldable pub renew_observed :
    MotionPermission → MotionPermitIdentity → ℕ → ℕ → MotionPermission × Bool
renew_observed p i issued_ns now_ns =
    if not (is_active p.state)
      || not (same_identity p.identity i)
      || leb issued_ns p.issued_ns
      || not (valid_stamp p issued_ns now_ns)
    then (p, false)
    else (record p { issued_ns = issued_ns; deadline_ns = plus issued_ns p.lifetime_ns }, true)

unfoldable pub renew : MotionPermission → MotionPermitIdentity → ℕ → ℕ → MotionPermission × Bool
renew p i issued_ns now_ns = renew_observed (observe_time p now_ns) i issued_ns now_ns

unfoldable pub can_consume : MotionPermission → MotionPermitIdentity → ℕ → MotionPermission × Bool
can_consume p i now_ns =
    let q = observe_time p now_ns in (q, is_active q.state && same_identity q.identity i)

-- close, once the time is observed.
unfoldable pub close_observed : MotionPermission → MotionPermitIdentity → MotionPermission × Bool
close_observed p i =
    if not (same_identity p.identity i) || p.identity.generation == 0 then (p, false) else (
      record p { state = if is_active p.state then PermissionState.normal_closed else p.state },
      true,
    )

unfoldable pub close : MotionPermission → MotionPermitIdentity → ℕ → MotionPermission × Bool
close p i now_ns = close_observed (observe_time p now_ns) i

-- What write_current calls: the writer of zero, at a time, or the writer of the wheels.
pub data WheelCall : Type 0 where
  apply_zero : ℕ → WheelCall
  write : WheelCall

-- write_current, at the time that its clock returns.
unfoldable pub write_current :
    MotionPermission → MotionPermitIdentity → ℕ → MotionPermission × WheelCall × Bool
write_current p i now =
    let answer = can_consume p i now in
    if not answer.1 then (answer.0, apply_zero now, false) else (answer.0, write, true)

-- The public operations as data, each with its time last.
pub data PermissionCall : Type 0 where
  open_call : MotionPermitIdentity → ℕ → ℕ → Bool → ℕ → PermissionCall
  renew_call : MotionPermitIdentity → ℕ → ℕ → PermissionCall
  consume_call : MotionPermitIdentity → ℕ → PermissionCall
  close_call : MotionPermitIdentity → ℕ → PermissionCall

unfoldable pub apply : MotionPermission → PermissionCall → MotionPermission × Bool
apply p (open_call i expected issued zeroed now) = open_permission p i expected issued now zeroed
apply p (renew_call i issued now) = renew p i issued now
apply p (consume_call i now) = can_consume p i now
apply p (close_call i now) = close p i now

unfoldable pub run : MotionPermission → List PermissionCall → MotionPermission
run p [] = p
run p (c ∷ cs) = run (apply p c).0 cs
