-- ===== src/Navigation/Leaf.antt =====
-- LeafRecord of integrations/ros2/simulation/native_worker/native_leaf_evidence.hpp.
pub mod Promises
use robot_harness.Base.{
  String, Bool, true, false, not, List, [], ◌∷◌, ◌&&◌, ◌||◌, ◌≡◌, ◌⊎◌, arith, str_eq, str_eq_iff,
  is_empty, if◌then◌else◌,
}
use Prim.Native.String.{◌++◌ as text_append}
use robot_harness.HexText.{is_identifier}

pub record LeafRecord : Type 0 where
  pub action : String
  pub scope : String
  pub uuid : String
  pub terminal : String
  pub entered : Bool
  pub ambiguous : Bool

unfoldable pub enter : LeafRecord → LeafRecord
enter r = record r { entered = true }

-- The guard of associate.
unfoldable pub is_ambiguous : LeafRecord → String → String → Bool
is_ambiguous r identity outcome =
    not r.entered
    || not (is_identifier identity)
    || (not (is_empty r.uuid) && not (str_eq r.uuid identity))
    || (not (is_empty r.terminal) && not (str_eq r.terminal outcome))

unfoldable pub associate : LeafRecord → String → String → LeafRecord
associate r identity outcome =
    if is_ambiguous r identity outcome
    then record r { ambiguous = true }
    else record r { uuid = identity; terminal = outcome }

unfoldable pub kind : LeafRecord → String
kind r =
    if r.ambiguous
    then "unknown"
    else if not r.entered
    then "not_submitted"
    else if is_empty r.uuid || is_empty r.terminal
    then "unknown"
    else "terminal"

-- The calls that change a record.
pub data LeafEvent : Type 0 where
  enters : LeafEvent
  reports : String → String → LeafEvent

unfoldable pub observe_all : LeafRecord → List LeafEvent → LeafRecord
observe_all r [] = r
observe_all r (enters ∷ es) = observe_all (enter r) es
observe_all r (reports identity outcome ∷ es) = observe_all (associate r identity outcome) es

unfoldable pub json : LeafRecord → String
json r = text_append "{\"action\":\"" (
    text_append r.action (
      text_append "\",\"scope_id\":\"" (
        text_append r.scope (
          text_append "\",\"kind\":\"" (
            text_append (kind r) (
              text_append "\",\"child_uuid\":\"" (
                text_append r.uuid
                  (text_append "\",\"terminal\":\"" (text_append r.terminal "\"}")))))))))
