-- ===== src/Navigation/Closure/Events.antt =====
-- The observers of ClosureObservations, in
-- integrations/ros2/nav2_observation/closure_observations.hpp: an event's text is parsed, checked
-- and recorded.
use Prim.Native.String.{◌++◌ as text_append}
use robot_harness.HexText.{byte_size}
use robot_harness.Base.{
  ℕ, String, Bool, true, false, not, Option, none, some, List, [], ◌∷◌, ◌&&◌, ◌==◌, ltb, leb,
  if◌then◌else◌,
}
use robot_harness.Integer.{ℤ, pos, int_ltb}
use robot_harness.Navigation.Closure.{
  JsonLibrary, ClosureObservations, reject, bind_parent, action_of, name_child, workers_closed,
  reject_drive, put_stamp,
}

-- The public operations as data.
pub data Notice : Type 0 where
  parent_notice : String → Notice
  child_notice : ℕ → Bool → String → Notice
  bt_notice : String → ℤ → ℤ → Notice
  drive_notice : String → ℤ → ℤ → Notice
  rejection : Notice

-- The field that names a child, in an acknowledgement or a link.
abbrev pub identity_field : Bool → String
identity_field true = "goal_uuid"
identity_field false = "child_uuid"

module _ {J : Type 0} (json : JsonLibrary J) where
  -- A field's value is a text, or is true, or is named by a field.
  abbrev pub field_is : J → String → String → Bool
  field_is e field text = elim (json.at e field) [ none ↦ false | some v ↦ json.equals_text v text ]

  abbrev pub field_is_true : J → String → Bool
  field_is_true e field = elim (json.at e field) [ none ↦ false | some v ↦ json.is_true v ]

  abbrev pub text_field : J → String → Option String
  text_field e field = elim (json.at e field) [ none ↦ none | some v ↦ json.as_text v ]

  -- parse; `none` where it throws.
  unfoldable pub parsed : String → Option J
  parsed wire =
      if leb (byte_size wire) 4096
      then elim (json.parse wire) [
        | none ↦ none
        | some v ↦ if json.is_object v then some v else none
      ]
      else none

  unfoldable pub is_child_event : ClosureObservations → ℕ → Bool → J → Bool
  is_child_event s index true e =
      field_is e "event" (text_append (action_of index) "_worker_ack")
      && field_is_true e "worker_future_ready"
      && field_is_true e "endpoint_sealed"
  is_child_event s index false e =
      field_is e "event" "navigation_child_link"
      && field_is e "scope_id" s.scope
      && field_is e "action" (action_of index)

  unfoldable pub observe_child :
      ClosureObservations → ℕ → Bool → String → ClosureObservations × Bool
  observe_child s index acknowledgement wire =
      if not (ltb index 2) then (reject s, false) else elim (parsed wire) [
        | none ↦ (reject s, false)
        | some e ↦
            if is_child_event s index acknowledgement e
            then name_child s index acknowledgement (text_field e (identity_field acknowledgement))
            else (reject s, false)
      ]

  -- ordered, without its exception.
  unfoldable pub ordered : J → ℤ → ℤ → Bool
  ordered e requested received = elim (json.at e "steady_ns") [
    | none ↦ false
    | some v ↦
        json.is_number_integer v
        && json.is_within v
        && int_ltb (pos 0) requested
        && not (int_ltb (json.as_integer v) requested)
        && not (int_ltb received (json.as_integer v))
  ]

  unfoldable pub observe_bt : ClosureObservations → String → ℤ → ℤ → ClosureObservations × Bool
  observe_bt s wire requested_ns received_ns = elim (parsed wire) [
    | none ↦ (reject s, false)
    | some e ↦
        if workers_closed s
          && field_is e "event" "navigation_bt_closed"
          && field_is e "scope_id" s.scope
          && field_is_true e "bt_worker_joined"
          && field_is_true e "endpoint_sealed"
          && field_is_true e "tree_idle"
          && ordered e requested_ns received_ns
        then (record s { bt_closed = true }, true)
        else (reject s, false)
  ]

  -- The comparison of generations: `some true` is the early return, `none` an exception.
  unfoldable pub is_earlier : ClosureObservations → J → Option Bool
  is_earlier s e = if s.generation == 0 then some false else elim (json.at e "generation") [
    | none ↦ none
    | some v ↦
        if not (json.is_number_unsigned v)
        then none
        else if ltb (json.as_unsigned v) s.generation
        then some true
        else if json.as_unsigned v == s.generation
        then some false
        else none
  ]

  -- `sim_ns`, where it and `update_sequence` are well formed.
  unfoldable pub applied_stamp : J → Option ℤ
  applied_stamp e = elim (json.at e "update_sequence") [
    | none ↦ none
    | some u ↦ elim (json.at e "sim_ns") [
      | none ↦ none
      | some v ↦
          if json.is_number_unsigned u
            && ltb 0 (json.as_unsigned u)
            && json.is_number_integer v
            && json.is_within v
          then some (json.as_integer v)
          else none
    ]
  ]

  unfoldable pub is_drive_event : ClosureObservations → J → ℤ → ℤ → Bool
  is_drive_event s e requested_ns received_ns =
      field_is e "event" "motion_scope_applied"
      && field_is e "scope_id" s.scope
      && field_is_true e "sealed"
      && field_is_true e "wheel_targets_zero"
      && ordered e requested_ns received_ns

  unfoldable pub observe_drive : ClosureObservations → String → ℤ → ℤ → ClosureObservations × Bool
  observe_drive s wire requested_ns received_ns = elim (parsed wire) [
    | none ↦ (reject_drive s, false)
    | some e ↦ elim (is_earlier s e) [
      | none ↦ (reject_drive s, false)
      | some true ↦ (s, true)
      | some false ↦
          if is_drive_event s e requested_ns received_ns
          then elim (applied_stamp e) [
            | none ↦ (reject_drive s, false)
            | some stamp ↦ put_stamp s stamp
          ]
          else (reject_drive s, false)
    ]
  ]

  -- The public operations, applied.
  unfoldable pub take_notice : ClosureObservations → Notice → ClosureObservations
  take_notice s (parent_notice p) = (bind_parent s p).0
  take_notice s (child_notice index acknowledgement wire) =
      (observe_child s index acknowledgement wire).0
  take_notice s (bt_notice wire requested received) = (observe_bt s wire requested received).0
  take_notice s (drive_notice wire requested received) = (observe_drive s wire requested received).0
  take_notice s rejection = reject s

  unfoldable pub take_notices : ClosureObservations → List Notice → ClosureObservations
  take_notices s [] = s
  take_notices s (n ∷ ns) = take_notices (take_notice s n) ns
