-- ===== src/Tests/DriveCases.antt =====
-- The motion permission's theorems at concrete inputs.
use robot_harness.Base.{true, false, some, List, [], ◌∷◌, ◌≡◌, inr, refl, arith, increment}
use robot_harness.HexText.{size, is_hex, is_identifier}
use robot_harness.Drive.Permission.{
  MotionPermission, PermissionState, MotionPermitIdentity, PermissionCall, open_call, renew_call,
  consume_call, permission, observe_time, valid_identity, valid_stamp, refuses_open, open_observed,
  open_permission, close_observed, close, apply_zero, write_current, same_identity, apply, run,
}
use robot_harness.Drive.Permission.Validity.{PermissionIsValid, permission-IsValid, run-IsValid}
use robot_harness.Drive.Permission.Motion.{permission-run-IsValid, late-run, close-run}

abbrev first : MotionPermitIdentity
first = record { scope_id = "0123456789abcdef0123456789abcdef"; generation = 1; operation_id = 7 }

abbrev second : MotionPermitIdentity
second = record { scope_id = "fedcba9876543210fedcba9876543210"; generation = 2; operation_id = 8 }

abbrev boot : MotionPermission
boot = record {
  lifetime_ns = 100;
  identity = record { scope_id = ""; generation = 0; operation_id = 0 };
  state = PermissionState.boot_closed;
  opened_ns = 0;
  issued_ns = 0;
  deadline_ns = 0;
  observed_ns = 0;
}

abbrev running : MotionPermission
running = record {
  lifetime_ns = 100;
  identity = first;
  state = PermissionState.active;
  opened_ns = 50;
  issued_ns = 50;
  deadline_ns = 150;
  observed_ns = 60;
}

boot_built : permission 100 ≡ some boot
unfolding permission
boot_built = refl

open_permission-boot : open_permission boot first 0 50 60 true ≡ (running, true)
unfolding open_permission open_observed refuses_open observe_time valid_identity valid_stamp
    is_identifier is_hex size increment
open_permission-boot = refl

boot-IsValid : PermissionIsValid boot
boot-IsValid = permission-IsValid 100 boot (omega arith) boot_built

running-IsValid : PermissionIsValid running
unfolding run apply open_permission open_observed refuses_open observe_time valid_identity
    valid_stamp is_identifier is_hex size increment
running-IsValid = run-IsValid boot (open_call first 0 50 true 60 ∷ []) boot-IsValid

abbrev next_calls : List PermissionCall
next_calls = open_call second 1 90 true 95 ∷ consume_call second 100 ∷ []

permission-run-IsValid_example : PermissionIsValid (run boot next_calls)
permission-run-IsValid_example = permission-run-IsValid 100 boot next_calls (omega arith) boot_built

late-run_example :
    (apply (run (apply running (renew_call first 140 150)).0 next_calls) (consume_call first 101)).1
    ≡ false
late-run_example =
    late-run running (renew_call first 140 150) next_calls (consume_call first 101)
      (inr (refl, omega arith)) refl

close-run_example :
    (write_current (run (close running first 70).0 next_calls) first 110).1 ≡ apply_zero 110
unfolding close close_observed observe_time same_identity
close-run_example = close-run running first 70 next_calls 110 running-IsValid refl
