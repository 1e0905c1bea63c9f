-- ===== src/Tests/ClosureCases.antt =====
-- The closure observations' theorems at concrete inputs. The JSON library is one that reads a few
-- fixed texts; a value is a list of fields, or a scalar.
use robot_harness.Base.{
  String, Bool, true, false, Option, none, some, List, [], ◌∷◌, ◌≡◌, ◌⊎◌, refl, str_eq, is_empty,
  ◌++◌, subst, if◌then◌else◌,
}
use robot_harness.HexText.{byte_size, size, is_hex, is_identifier}
use robot_harness.Integer.{pos, int_ltb, int_eq}
use robot_harness.Navigation.Closure.{
  JsonLibrary, ClosureObservations, no_child, observations, bind_parent, put_child, name_child,
  workers_closed, drive_closed, closed, put_stamp,
}
use robot_harness.Navigation.Closure.Events.{
  Notice, parent_notice, child_notice, bt_notice, drive_notice, parsed, is_child_event,
  observe_child, ordered, observe_bt, is_earlier, applied_stamp, is_drive_event, observe_drive,
  take_notice, take_notices,
}
use robot_harness.Navigation.Closure.Validity.{IsSound}
use robot_harness.Navigation.Closure.Promises.{
  closed-take_notices, take_notices_both, observations-IsSound,
}

abbrev task_scope : String
task_scope = "0123456789abcdef0123456789abcdef"

abbrev parent_id : String
parent_id = "1123456789abcdef0123456789abcdef"

abbrev path_id : String
path_id = "2123456789abcdef0123456789abcdef"

abbrev follow_id : String
follow_id = "3123456789abcdef0123456789abcdef"

-- A scalar is a text; an event holds the scalars of its fields.
data Value : Type 0 where
  scalar : String → Value
  event : List (String × String) → Value

abbrev lookup : List (String × String) → String → Option Value
lookup [] field = none
lookup ((name, value) ∷ rest) field =
    if str_eq name field then some (scalar value) else lookup rest field

abbrev field_of : Value → String → Option Value
field_of (scalar _) field = none
field_of (event fields) field = lookup fields field

abbrev is_text : Value → String → Bool
is_text (scalar s) t = str_eq s t
is_text (event _) t = false

abbrev text_of : Value → Option String
text_of (scalar s) = some s
text_of (event _) = none

abbrev is_event : Value → Bool
is_event (scalar _) = false
is_event (event _) = true

-- The event that stands for a text.
abbrev event_of : String → List (String × String)
event_of wire =
    if str_eq wire "path link"
    then ("event", "navigation_child_link")
      ∷ ("scope_id", task_scope)
      ∷ ("action", "compute_path_to_pose")
      ∷ ("child_uuid", path_id)
      ∷ []
    else if str_eq wire "path ack"
    then ("event", "compute_path_to_pose_worker_ack")
      ∷ ("worker_future_ready", "true")
      ∷ ("endpoint_sealed", "true")
      ∷ ("goal_uuid", path_id)
      ∷ []
    else if str_eq wire "follow link"
    then ("event", "navigation_child_link")
      ∷ ("scope_id", task_scope)
      ∷ ("action", "follow_path")
      ∷ ("child_uuid", follow_id)
      ∷ []
    else if str_eq wire "follow ack"
    then ("event", "follow_path_worker_ack")
      ∷ ("worker_future_ready", "true")
      ∷ ("endpoint_sealed", "true")
      ∷ ("goal_uuid", follow_id)
      ∷ []
    else if str_eq wire "bt"
    then ("event", "navigation_bt_closed")
      ∷ ("scope_id", task_scope)
      ∷ ("bt_worker_joined", "true")
      ∷ ("endpoint_sealed", "true")
      ∷ ("tree_idle", "true")
      ∷ ("steady_ns", "5")
      ∷ []
    else if str_eq wire "drive"
    then ("event", "motion_scope_applied")
      ∷ ("scope_id", task_scope)
      ∷ ("sealed", "true")
      ∷ ("wheel_targets_zero", "true")
      ∷ ("steady_ns", "5")
      ∷ ("update_sequence", "5")
      ∷ ("sim_ns", "5")
      ∷ []
    else []

-- Every number is 5.
abbrev library : JsonLibrary Value
library = record {
  parse = λ wire. some (event (event_of wire));
  is_object = is_event;
  at = field_of;
  equals_text = is_text;
  is_true = λ v. is_text v "true";
  as_text = text_of;
  is_number_unsigned = λ v. is_text v "5";
  as_unsigned = λ v. 5;
  is_number_integer = λ v. is_text v "5";
  is_within = λ v. true;
  as_integer = λ v. pos 5;
}

abbrev fresh_observations : ClosureObservations
fresh_observations = record {
  scope = task_scope;
  parent = "";
  generation = 0;
  path_child = no_child;
  follow_child = no_child;
  bt_closed = false;
  rejected = false;
  drive_rejected = false;
  drive_stamp_ns = pos 0;
}

abbrev established : ClosureObservations
established = record {
  scope = task_scope;
  parent = parent_id;
  generation = 0;
  path_child = record { link = some path_id; ack = some path_id };
  follow_child = record { link = some follow_id; ack = some follow_id };
  bt_closed = true;
  rejected = false;
  drive_rejected = false;
  drive_stamp_ns = pos 5;
}

abbrev workers : List Notice
workers =
    parent_notice parent_id
    ∷ child_notice 0 false "path link"
    ∷ child_notice 0 true "path ack"
    ∷ child_notice 1 true "follow ack"
    ∷ child_notice 1 false "follow link"
    ∷ []

abbrev ends : List Notice
ends = bt_notice "bt" (pos 4) (pos 6) ∷ drive_notice "drive" (pos 4) (pos 6) ∷ []

established_run : take_notices library fresh_observations (workers ++ ends) ≡ established
unfolding take_notices take_notice bind_parent observe_child parsed is_child_event name_child
    put_child observe_bt observe_drive workers_closed ordered is_earlier applied_stamp
    is_drive_event put_stamp is_identifier is_hex size is_empty int_ltb int_eq byte_size
established_run = refl

fresh_built : observations task_scope 0 ≡ some fresh_observations
unfolding observations is_identifier is_hex size
fresh_built = refl

closed-established : closed established ≡ true
unfolding closed workers_closed drive_closed is_empty int_ltb
closed-established = refl

fresh-IsSound : IsSound fresh_observations
fresh-IsSound = (observations-IsSound task_scope 0 fresh_observations fresh_built).0

established-IsSound : IsSound established
established-IsSound =
    subst IsSound established_run
      (take_notices_both library fresh_observations (workers ++ ends) fresh-IsSound).1

closed-take_notices_example :
    let s' = take_notices library established workers in
    (s'.parent ≡ established.parent)
    × (s'.path_child ≡ established.path_child)
    × (s'.follow_child ≡ established.follow_child)
    × (s'.drive_stamp_ns ≡ established.drive_stamp_ns)
    × ((closed s' ≡ true) ⊎ (s'.rejected ≡ true))
closed-take_notices_example =
    closed-take_notices library established workers established-IsSound closed-established
