-- ===== src/Gate/Promises/Stop.antt =====
-- A native stop is requested at most once for an operation.
use robot_harness.Base.{
  ℕ, true, false, ◌≡◌, ◌≢◌, inl, inr, some, List, arith, Option-cases, has_value,
}
use robot_harness.Gate.Types.{BindingIdentity, OperationAuthority}
use robot_harness.Gate.Receipt.{OperationReceipt}
use robot_harness.Gate.Disposition.{revoke, should_stop}
use robot_harness.Gate.State.{AuthorityGate, current}
use robot_harness.Gate.Control.{request_cancel, cancel_reply, observe_time, time_reply}
use robot_harness.Gate.Binding.{withdraw_binding, withdraw_live, withdrawn_receipt}
use robot_harness.Gate.Calls.{Call, run}
use robot_harness.Gate.Invariant.{GateIsValid}
use robot_harness.Gate.Promises.Located.{run-Advances}

stop_not_repeated :
    (r : OperationReceipt) (t : ℕ)
    → has_value r.native_stop_requested_at ≡ true
    → (revoke r t).1.should_request_native_stop ≡ false
unfolding revoke should_stop
stop_not_repeated r t h = ground arith

-- The three calls that may ask for a stop, at a gate whose operation was asked to stop.
module _ (g : AuthorityGate) (a : OperationAuthority)
    (asked : (r : OperationReceipt)
      → current g a ≡ some r
      → has_value r.native_stop_requested_at ≡ true) where
  cancel_no_stop : (t : ℕ) → (request_cancel g a t).1.should_request_native_stop ≡ false
  unfolding request_cancel cancel_reply
  cancel_no_stop t = elim (Option-cases (current g a)) [
    | inl n ↦ ground arith
    | inr (r, n) ↦
        ground
          (arith, stop_not_repeated (record r { cancellation_requested_at = some t }) t (asked r n))
  ]

  time_no_stop : (t : ℕ) → (observe_time g a t).1.should_request_native_stop ≡ false
  unfolding observe_time time_reply
  time_no_stop t = elim (Option-cases (current g a)) [
    | inl n ↦ ground arith
    | inr (r, n) ↦
        ground (arith, stop_not_repeated (record r { expiry_observed_at = some t }) t (asked r n))
  ]

  withdraw_no_stop :
      (b : BindingIdentity) (t : ℕ) → (withdraw_binding g b t).1.native_stop_authority ≢ some a
  unfolding withdraw_binding withdraw_live withdrawn_receipt
  withdraw_no_stop b t e = elim (Option-cases (current g a)) [
    | inl n ↦ ground arith
    | inr (r, n) ↦
        ground (arith, stop_not_repeated (record r { binding_withdrawn_at = some t }) t (asked r n))
  ]

-- Once a native stop was requested for an operation, no later cancellation, expiry or withdrawal
-- requests one for it again, whatever calls come in between.
pub stop-run :
    (g : AuthorityGate) (cs : List Call) (a : OperationAuthority) (r : OperationReceipt)
    (b : BindingIdentity) (t : ℕ)
    → GateIsValid g
    → current g a ≡ some r
    → has_value r.native_stop_requested_at ≡ true
    → ((request_cancel (run g cs) a t).1.should_request_native_stop ≡ false)
      × ((observe_time (run g cs) a t).1.should_request_native_stop ≡ false)
      × ((withdraw_binding (run g cs) b t).1.native_stop_authority ≢ some a)
stop-run g cs a r b t v p h =
    let asked : (r' : OperationReceipt)
        → current (run g cs) a ≡ some r'
        → has_value r'.native_stop_requested_at ≡ true =
      λ r' q. ground (arith, (run-Advances g cs a r r' v p q).keeps_stop h) in
    (
      cancel_no_stop (run g cs) a asked t,
      time_no_stop (run g cs) a asked t,
      withdraw_no_stop (run g cs) a asked b t,
    )
