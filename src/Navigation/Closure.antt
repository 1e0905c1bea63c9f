-- ===== src/Navigation/Closure.antt =====
-- ClosureObservations of integrations/ros2/nav2_observation/closure_observations.hpp. The JSON
-- library is a parameter: the functions of a `JsonLibrary` answer `none` where the library throws.
-- An operation returns the new observations and whether it returned rather than threw.
pub mod Events
pub mod Validity
pub mod Promises
use Prim.Native.String.{len, ◌++◌ as text_append}
use robot_harness.Base.{
  ℕ, String, Bool, true, false, not, Option, none, some, List, [], ◌∷◌, ◌&&◌, ◌||◌, ◌==◌, ltb, leb,
  str_eq, is_empty, has_value, if◌then◌else◌,
}
use robot_harness.HexText.{is_identifier}
use robot_harness.Integer.{ℤ, pos, int_ltb, int_eq}

-- What the code uses of nlohmann::json.
pub record JsonLibrary (J : Type 0) : Type 0 where
  pub parse : String → Option J
  pub is_object : J → Bool
  pub at : J → String → Option J
  pub equals_text : J → String → Bool
  pub is_true : J → Bool
  pub as_text : J → Option String
  pub is_number_unsigned : J → Bool
  pub as_unsigned : J → ℕ
  pub is_number_integer : J → Bool
  pub is_within : J → Bool  -- `<=` the largest signed 64-bit number
  pub as_integer : J → ℤ

pub record Child : Type 0 where
  pub link : Option String
  pub ack : Option String

pub record ClosureObservations : Type 0 where
  pub scope : String
  pub parent : String
  pub generation : ℕ
  pub path_child : Child
  pub follow_child : Child
  pub bt_closed : Bool
  pub rejected : Bool
  pub drive_rejected : Bool
  pub drive_stamp_ns : ℤ

abbrev pub no_child : Child
no_child = record { link = none; ack = none }

-- The constructor; `none` where it throws.
unfoldable pub observations : String → ℕ → Option ClosureObservations
observations scope generation =
    if is_identifier scope
    then some (record {
      scope = scope;
      parent = "";
      generation = generation;
      path_child = no_child;
      follow_child = no_child;
      bt_closed = false;
      rejected = false;
      drive_rejected = false;
      drive_stamp_ns = pos 0;
    })
    else none

abbrev pub reject : ClosureObservations → ClosureObservations
reject s = record s { rejected = true }

unfoldable pub bind_parent : ClosureObservations → String → ClosureObservations × Bool
bind_parent s parent =
    if is_identifier parent && (is_empty s.parent || str_eq s.parent parent)
    then (record s { parent = parent }, true)
    else (reject s, false)

abbrev pub child_at : ClosureObservations → ℕ → Child
child_at s index = if index == 0 then s.path_child else s.follow_child

abbrev pub with_child : ClosureObservations → ℕ → Child → ClosureObservations
with_child s index child =
    if index == 0 then record s { path_child = child } else record s { follow_child = child }

abbrev pub action_of : ℕ → String
action_of index = if index == 0 then "compute_path_to_pose" else "follow_path"

-- `!known || *known == id`.
abbrev pub is_unless_known : Option String → String → Bool
is_unless_known none id = true
is_unless_known (some known) id = str_eq known id

-- `!child.link || !child.ack || child.link == child.ack`.
abbrev pub is_consistent : Option String → Option String → Bool
is_consistent none ack = true
is_consistent (some link) none = true
is_consistent (some link) (some ack) = str_eq link ack

-- `child.link && child.ack && child.link == child.ack`.
abbrev pub is_acknowledged : Child → Bool
is_acknowledged c = has_value c.link && has_value c.ack && is_consistent c.link c.ack

-- The last check of observe_child, once the child is assigned.
unfoldable pub put_child : ClosureObservations → ℕ → Child → ClosureObservations × Bool
put_child s index child =
    if is_consistent child.link child.ack
    then (with_child s index child, true)
    else (reject (with_child s index child), false)

-- The identity that an event names, where it is checked and assigned.
unfoldable pub name_child :
    ClosureObservations → ℕ → Bool → Option String → ClosureObservations × Bool
name_child s index acknowledgement none = (reject s, false)
name_child s index true (some id) =
    if is_identifier id && is_unless_known (child_at s index).ack id
    then put_child s index (record (child_at s index) { ack = some id })
    else (reject s, false)
name_child s index false (some id) =
    if is_identifier id && is_unless_known (child_at s index).link id
    then put_child s index (record (child_at s index) { link = some id })
    else (reject s, false)

unfoldable pub workers_closed : ClosureObservations → Bool
workers_closed s =
    not s.rejected
    && not (is_empty s.parent)
    && is_acknowledged s.path_child
    && is_acknowledged s.follow_child

unfoldable pub drive_closed : ClosureObservations → Bool
drive_closed s = not s.drive_rejected && int_ltb (pos 0) s.drive_stamp_ns

unfoldable pub closed : ClosureObservations → Bool
closed s = workers_closed s && s.bt_closed && drive_closed s

-- The `catch` of observe_drive.
abbrev pub reject_drive : ClosureObservations → ClosureObservations
reject_drive s = record s { drive_rejected = true; rejected = true }

-- The end of observe_drive, at an applied stamp.
unfoldable pub put_stamp : ClosureObservations → ℤ → ClosureObservations × Bool
put_stamp s stamp =
    if int_ltb (pos 0) stamp && (int_eq s.drive_stamp_ns (pos 0) || int_eq s.drive_stamp_ns stamp)
    then (record s { drive_stamp_ns = stamp }, true)
    else (reject_drive s, false)
