-- ===== src/Compute/Proceeds/Control.antt =====
-- Capabilities, withdrawal, stop and expiry.
use robot_harness.Base.{ℕ, Bool, Option, none, some}
use robot_harness.Action.Rules.{Relates}
use robot_harness.Gate.Types.{OperationAuthority, BindingIdentity, ControlDecision, NativeEventKind}
use robot_harness.Compute.Types.{ComputeProcess}
use robot_harness.Compute.Host.{ComputeHost}
use robot_harness.Compute.Control.{
  on_process, report_native, report_no_output, report_settlement, settle_as_unsubmitted,
  settle_unsubmitted_of, settle_unsubmitted, report_capabilities, apply_stop, expire_of, expire,
  withdraw_binding, observe_active_capabilities, observe_capabilities,
}
use robot_harness.Compute.Proceeds.{Proceeds, proceeds_rules}

module _ {X : Type 0} where
  pub on_process-Proceeds : (f : X → X) → Relates Proceeds (on_process f)
  unfolding on_process
  on_process-Proceeds f = search proceeds_rules

  pub report_native-Proceeds :
      (a : OperationAuthority) (k : NativeEventKind) (t : ℕ)
      → Relates {S = ComputeHost X} Proceeds (report_native a k t)
  unfolding report_native
  report_native-Proceeds a k t = search proceeds_rules depth 14 fits 5000

  pub report_no_output-Proceeds :
      (a : OperationAuthority) (t : ℕ) → Relates {S = ComputeHost X} Proceeds (report_no_output a t)
  unfolding report_no_output
  report_no_output-Proceeds a t = search proceeds_rules depth 14 fits 5000

  pub report_settlement-Proceeds :
      (a : OperationAuthority) (t : ℕ)
      → Relates {S = ComputeHost X} Proceeds (report_settlement a t)
  unfolding report_settlement
  report_settlement-Proceeds a t = search proceeds_rules depth 14 fits 5000

  settle_as_unsubmitted-Proceeds :
      (a : OperationAuthority) (b : Bool)
      → Relates {S = ComputeHost X} Proceeds (settle_as_unsubmitted a b)
  unfolding settle_as_unsubmitted
  settle_as_unsubmitted-Proceeds a b =
      search (proceeds_rules, report_no_output-Proceeds, report_settlement-Proceeds) depth 16 fits
        9000

  settle_unsubmitted_of-Proceeds :
      (o : Option OperationAuthority) (b : Bool)
      → Relates {S = ComputeHost X} Proceeds (settle_unsubmitted_of o b)
  unfolding settle_unsubmitted_of
  settle_unsubmitted_of-Proceeds none b = search proceeds_rules
  settle_unsubmitted_of-Proceeds (some a) b = settle_as_unsubmitted-Proceeds a b

  pub settle_unsubmitted-Proceeds :
      (b : Bool) → Relates {S = ComputeHost X} Proceeds (settle_unsubmitted b)
  unfolding settle_unsubmitted
  settle_unsubmitted-Proceeds b = search (proceeds_rules, settle_unsubmitted_of-Proceeds)

  report_capabilities-Proceeds :
      (b : BindingIdentity) (available : Bool) (t : ℕ)
      → Relates {S = ComputeHost X} Proceeds (report_capabilities b available t)
  unfolding report_capabilities
  report_capabilities-Proceeds b available t = search proceeds_rules depth 14 fits 5000

module _ {X : Type 0} (P : ComputeProcess X) where
  pub apply_stop-Proceeds : (d : ControlDecision) (t : ℕ) → Relates Proceeds (apply_stop P d t)
  unfolding apply_stop
  apply_stop-Proceeds d t = search (proceeds_rules, on_process-Proceeds) depth 12 fits 5000

  expire_of-Proceeds : (o : Option OperationAuthority) (t : ℕ) → Relates Proceeds (expire_of P o t)
  unfolding expire_of
  expire_of-Proceeds none t = search proceeds_rules
  expire_of-Proceeds (some a) t = search (proceeds_rules, apply_stop-Proceeds)

  pub expire-Proceeds : (t : ℕ) → Relates Proceeds (expire P t)
  unfolding expire
  expire-Proceeds t = search (proceeds_rules, expire_of-Proceeds)

  pub withdraw_binding-Proceeds : (b : BindingIdentity) → Relates Proceeds (withdraw_binding P b)
  unfolding withdraw_binding
  withdraw_binding-Proceeds b =
      search (proceeds_rules, apply_stop-Proceeds, settle_unsubmitted-Proceeds) depth 18 fits 9000

  observe_active_capabilities-Proceeds :
      (b : BindingIdentity) (t : ℕ) → Relates Proceeds (observe_active_capabilities P b t)
  unfolding observe_active_capabilities
  observe_active_capabilities-Proceeds b t =
      search (proceeds_rules, report_capabilities-Proceeds, withdraw_binding-Proceeds) depth 18 fits
        9000

  pub observe_capabilities-Proceeds : (t : ℕ) → Relates Proceeds (observe_capabilities P t)
  unfolding observe_capabilities
  observe_capabilities-Proceeds t =
      search (proceeds_rules, observe_active_capabilities-Proceeds) depth 12 fits 5000
