-- ===== src/Gate/Invariant.antt =====
-- What holds of the gate between two calls, and how a call moves the operation on.
pub mod Receipts
pub mod Admissions
pub mod Bindings
pub mod Histories
use robot_harness.Base.{
  ℕ, Bool, true, false, ◌^◌, ◌≤◌, ◌<◌, ◌≡◌, ◌⊎◌, Option, none, some, u64_max, has_value,
}
use robot_harness.Gate.Types.{BindingIdentity, OperationAuthority, NativeOutcome, binding_eq}
use robot_harness.Gate.Types.Tests.{
  is_closed, is_ready, is_active_phase, is_withdrawn_phase, is_preparing_phase, is_closed_phase,
  is_released,
}
use robot_harness.Gate.Receipt.{OperationReceipt}
use robot_harness.Gate.Disposition.{has_resolved_closure}
use robot_harness.Gate.State.{AuthorityGate, Candidate, StartupFact}
use robot_harness.Gate.Startup.{holds}
use robot_harness.Gate.Validity.{ReceiptIsValid, Advances}

-- The receipt in place is valid, its operation has an identity that was given out, and it is
-- released if its binding is no longer the live one.
pub record HoldsReceipt (live : BindingIdentity) (next : ℕ) (r : OperationReceipt) : Type 0 where
  pub valid : ReceiptIsValid r
  pub numbered : 0 < r.authority.operation_id
  pub given_out : (next ≡ 0) ⊎ (r.authority.operation_id < next)
  pub earlier_closed :
      binding_eq r.authority.binding live ≡ false
      → (has_resolved_closure r ≡ true) × (is_released r.authority_disposition ≡ true)

abbrev pub Holds : BindingIdentity → ℕ → Option OperationReceipt → Type 0
Holds live next none = Unit {0}
Holds live next (some r) = HoldsReceipt live next r

-- The candidate is of the next generation of the same domain.
abbrev pub IsNext : BindingIdentity → ℕ → Option Candidate → Type 0
IsNext live high none = Unit {0}
IsNext live high (some k) =
    (live.provider_generation < k.binding.provider_generation)
    × (k.binding.provider_generation ≤ high)
    × (k.binding.effect_domain ≡ live.effect_domain)
    × (k.binding.composition_revision ≡ live.composition_revision)

pub record GateIsValid (g : AuthorityGate) : Type 0 where
  pub operation : Holds g.config.binding g.next_operation_id g.current_receipt
  pub next_bounded : g.next_operation_id < 2 ^ 64
  pub native_paired : has_value g.last_native_record ≡ has_value g.last_native_kind
  pub candidate_prepared : has_value g.candidate ≡ is_preparing_phase g.binding_phase
  pub candidate_next : IsNext g.config.binding g.generation_high_water g.candidate
  pub live_generation : g.config.binding.provider_generation ≤ g.generation_high_water
  pub high_bounded : g.generation_high_water ≤ u64_max
  pub withdrawal_timed : is_withdrawn_phase g.binding_phase ≡ true → has_value g.withdrawn_at ≡ true
  pub preparation_timed :
      is_preparing_phase g.binding_phase ≡ true → has_value g.withdrawn_at ≡ true
  pub closed_together : is_closed g.initialization_state ≡ is_closed_phase g.binding_phase
  pub ready_active : is_ready g.initialization_state ≡ true → is_active_phase g.binding_phase ≡ true
  pub ready_facts :
      is_ready g.initialization_state ≡ true
      → (holds g.binding_idle ≡ true)
        × (holds g.worker_ready ≡ true)
        × (holds g.result_sink_ready ≡ true)
  pub idle_recorded : g.binding_idle.observed ≡ has_value g.binding_idle.evidence
  pub worker_recorded : g.worker_ready.observed ≡ has_value g.worker_ready.evidence
  pub sink_recorded : g.result_sink_ready.observed ≡ has_value g.result_sink_ready.evidence

-- The operation in place is the same one, moved on; or there is none before and after.
abbrev pub Moves : Option OperationReceipt → Option OperationReceipt → Type 0
Moves none none = Unit {0}
Moves none (some r) = ⊥
Moves (some r) none = ⊥
Moves (some r) (some r') = Advances r r'

-- The operation in place has moved on, or a later one has taken its place; that of a blocked
-- operation is never taken.
abbrev pub Evolves : Option OperationReceipt → Option OperationReceipt → Type 0
Evolves none o = Unit {0}
Evolves (some r) none = ⊥
Evolves (some r) (some r') =
    Advances r r'
    ⊎ ((r.authority.operation_id < r'.authority.operation_id)
        × (r.native_outcome ≡ NativeOutcome.unknown → ⊥))
